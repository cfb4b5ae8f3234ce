-- ===== src/Abi/Vtable/Tests.antt =====
-- Runs of the slot builder on concrete classes, and the theorems applied to them.
use rustcc.Prelude.{
  ℕ, zero, suc, ◌<◌, ◌≡◌, refl, arith, some, List, [], ◌∷◌, ok, All, ◌∈◌, get_elem?, All-mem,
}
use mathlib.Core.Path.{subst}
use mathlib.Core.Option.{some-injective}
use rustcc.Abi.Types.{ClassId, TypeId, ClassDef, BaseSpec, MethodDef, SpecialMember}
use rustcc.Abi.Types.{MethodName-discrete, CvQual-discrete, TypeIds-discrete}
use rustcc.Abi.Target.{codes}
use rustcc.Abi.Context.{CxxTypeCtx, class_of}
use rustcc.Abi.Layout.Terminates.{IsRanked}
use rustcc.Abi.Vtable.Slots.{
  VSlotKind, VSlot, dtor_slot, method_slot, collect_chain, build_virtual_slots,
}
use rustcc.Abi.Vtable.Prefix.{origin, build_virtual_slots-origin}
use rustcc.Abi.Vtable.Overriders.{IsSound, build_virtual_slots-IsSound}
use rustcc.Abi.Vtable.Pair.{Paired, kinds, chain_declares_dtor, build_virtual_slots-Paired}
use rustcc.Abi.Vtable.Total.{IsClosed, build_virtual_slots_total}
use rustcc.Abi.Samples.{empty_ctx, struct, plain_base, virtual_method, polymorphic}

-- `struct A { virtual void f(); virtual ~A(); virtual void g(); }` and
-- `struct B : A { virtual void h(); void g() override; }`.
abbrev virtual_dtor : MethodDef
virtual_dtor = record (virtual_method (codes "~A")) { special = some SpecialMember.dtor }

abbrev root : ClassDef
root =
    polymorphic (struct [] [])
      (virtual_method (codes "f") ∷ virtual_dtor ∷ virtual_method (codes "g") ∷ [])

abbrev derived : ClassDef
derived =
    polymorphic (struct (plain_base 0 ∷ []) [])
      (virtual_method (codes "h") ∷ virtual_method (codes "g") ∷ [])

abbrev animals : CxxTypeCtx
animals = record empty_ctx { classes = root ∷ derived ∷ []; types = [] }

abbrev root_slots : List VSlot
root_slots =
    method_slot 0 0
    ∷ dtor_slot 0 0 VSlotKind.dtor_d1
    ∷ dtor_slot 0 0 VSlotKind.dtor_d0
    ∷ method_slot 0 2
    ∷ []

abbrev derived_slots : List VSlot
derived_slots =
    method_slot 0 0
    ∷ dtor_slot 1 0 VSlotKind.dtor_d1
    ∷ dtor_slot 1 0 VSlotKind.dtor_d0
    ∷ record (method_slot 0 2) { overrider_class = 1; overrider_method_idx = some 1 }
    ∷ method_slot 1 0
    ∷ []

root_run : build_virtual_slots animals 1 0 ≡ ok root_slots
unfolding build_virtual_slots empty_ctx MethodName-discrete CvQual-discrete TypeIds-discrete
root_run = refl

derived_run : build_virtual_slots animals 2 1 ≡ ok derived_slots
unfolding build_virtual_slots empty_ctx MethodName-discrete CvQual-discrete TypeIds-discrete
derived_run = refl

build_virtual_slots-origin_example :
    (t : VSlot) × (get_elem? derived_slots 3 ≡ some t) × (origin t ≡ origin (method_slot 0 2))
unfolding empty_ctx
build_virtual_slots-origin_example =
    build_virtual_slots-origin animals 1 1 0 derived root_slots derived_slots refl refl root_run
      derived_run 3 (method_slot 0 2) refl

build_virtual_slots-IsSound_example : All (IsSound animals 1) derived_slots
build_virtual_slots-IsSound_example =
    build_virtual_slots-IsSound animals 2 1 derived_slots derived_run

build_virtual_slots-Paired_example :
    Paired (chain_declares_dtor animals (0 ∷ 1 ∷ [])) (kinds derived_slots)
unfolding collect_chain empty_ctx
build_virtual_slots-Paired_example =
    build_virtual_slots-Paired animals 2 1 (0 ∷ 1 ∷ []) derived_slots refl derived_run

abbrev class_rank : ClassId → ℕ
class_rank c = c

abbrev type_rank : TypeId → ℕ
type_rank t = 0

-- The bases of class `c` are defined and have a lower rank, and it has no fields.
abbrev IsFine : ClassId → ClassDef → Type 0
IsFine c d =
    All (λ (b : BaseSpec). (b.class < c) × ((e : ClassDef) × (class_of animals b.class ≡ some e)))
      d.bases
    × (d.fields ≡ [])

animals-IsFine : (c : ClassId) (d : ClassDef) → class_of animals c ≡ some d → IsFine c d
unfolding empty_ctx
animals-IsFine zero d k = subst (IsFine 0) (some-injective _ _ k) (tt, refl)
animals-IsFine (suc zero) d k =
    subst (IsFine 1) (some-injective _ _ k) (((omega arith, (root, refl)), tt), refl)
animals-IsFine (suc (suc c)) d k = absurd (cc k)

animals-IsClosed : IsClosed animals
animals-IsClosed c d b k m = (All-mem _ d.bases b (animals-IsFine c d k).0 m).1

animals-IsRanked : IsRanked animals class_rank type_rank
unfolding empty_ctx
animals-IsRanked = record {
  base_lt = λ c d b k m. (All-mem _ d.bases b (animals-IsFine c d k).0 m).0;
  field_lt = λ c d f k m.
      let none_here : f ∈ [] = subst (λ fs. f ∈ fs) (animals-IsFine c d k).1 m in
      elim none_here [ ];
  array_lt = λ t e len k. absurd (cc k);
  enum_lt = λ t u n scoped k. absurd (cc k);
  record_le = λ t c k. absurd (cc k);
}

build_virtual_slots_total_example :
    (slots : List VSlot) × (build_virtual_slots animals 2 1 ≡ ok slots)
unfolding empty_ctx
build_virtual_slots_total_example =
    build_virtual_slots_total animals animals-IsRanked animals-IsClosed 2 1 derived refl
      (omega arith)
