-- ===== src/Abi/Vtable/Total.antt =====
-- When the slots of a class can be built (`collect_chain` and `build_virtual_slots` of vtable.rs).
use rustcc.Prelude.{ℕ, zero, suc, ◌+◌, ◌<◌, ◌≡◌, refl, ◌∙◌, ap, arith, Bool-cases}
use rustcc.Prelude.{Option, none, some, List, [], ◌∷◌, push, Outcome, ok, All, ◌∈◌, inl, inr}
use rustcc.Prelude.{◌>>=◌}
use mathlib.Core.Path.{subst}
use mathlib.Core.Option.{some-injective}
use rustcc.Abi.Types.{ClassId, TypeId, ClassDef, BaseSpec, MethodDef, LayoutError}
use rustcc.Abi.Context.{CxxTypeCtx, class_of}
use rustcc.Abi.Layout.Terminates.{IsRanked}
use rustcc.Abi.Vtable.Slots.{
  VSlotKind, VSlot, SlotState, is_non_virtual, is_dtor, signatures_match, first_non_virtual, Chain,
  behind, collect_chain, match_slot, find_from, find_override_target, put_dtor, put_method,
  add_method, add_methods, add_classes, no_slots, build_virtual_slots,
}
use rustcc.Abi.Vtable.Overriders.{
  Points, IsSound, AreSound, From, From-suc, From-self, From-method_at, add_method-AreSound,
  add_methods-AreSound,
}

-- Every base of a defined class is defined.
abbrev pub IsClosed : CxxTypeCtx → Type 0
IsClosed ctx =
    (c : ClassId) (d : ClassDef) (b : BaseSpec)
    → class_of ctx c ≡ some d
    → b ∈ d.bases
    → (e : ClassDef) × (class_of ctx b.class ≡ some e)

abbrev Returns {ℓ} : {A : Type ℓ} → Outcome LayoutError A → Type ℓ
Returns {A = A} m = (a : A) × (m ≡ ok a)

match_slot-Returns :
    (ctx : CxxTypeCtx) (d : ClassId) (i : ℕ) (m : MethodDef) (s : VSlot) (kind : VSlotKind)
    (rest : Outcome LayoutError (Option ℕ))
    → Points ctx d s kind
    → Returns rest
    → Returns (match_slot ctx i m kind s.originator_class s.originator_method_idx rest)
unfolding match_slot
match_slot-Returns ctx d i m s VSlotKind.dtor_d1 rest p r = r
match_slot-Returns ctx d i m s VSlotKind.dtor_d0 rest p r = r
match_slot-Returns ctx d i m s VSlotKind.method rest p (r, e) = rw (p.original_idx) (
    rw (p.original_eq) (elim (Bool-cases (signatures_match m p.original)) [
      | inl y ↦ (some i, rw y refl)
      | inr y ↦ (r, rw y e)
    ]))

find_from-Returns :
    (ctx : CxxTypeCtx) (d : ClassId) (i : ℕ) (m : MethodDef) (ss : List VSlot)
    → All (IsSound ctx d) ss
    → Returns (find_from ctx i ss m)
unfolding find_from
find_from-Returns ctx d i m [] h = (none, refl)
find_from-Returns ctx d i m (s ∷ ss) h =
    match_slot-Returns ctx d i m s s.kind (find_from ctx (i + 1) ss m) h.0
      (find_from-Returns ctx d (i + 1) m ss h.1)

add_method-Returns :
    (ctx : CxxTypeCtx) (d c : ClassId) (idx : ℕ) (m : MethodDef) (s : SlotState)
    → AreSound ctx d s
    → Returns (add_method ctx d c idx m s)
unfolding add_method find_override_target
add_method-Returns ctx d c idx m s v = elim (Bool-cases (is_non_virtual m.virtuality)) [
  | inl y ↦ (s, rw y refl)
  | inr n ↦ elim (Bool-cases (is_dtor m.special)) [
    | inl y ↦ (put_dtor d c s, rw (n, y) refl)
    | inr y ↦
        let (target, f) = find_from-Returns ctx d 0 m s.slots v in
        (put_method c idx target s, rw (n, y, f) refl)
  ]
]

add_methods-Returns :
    (ctx : CxxTypeCtx) (d c : ClassId) (class : ClassDef) (idx : ℕ) (ms : List MethodDef)
    (s : SlotState)
    → class_of ctx c ≡ some class
    → From class.methods idx ms
    → AreSound ctx d s
    → Returns (add_methods ctx d c idx ms s)
unfolding add_methods
add_methods-Returns ctx d c class idx [] s known from v = (s, refl)
add_methods-Returns ctx d c class idx (m ∷ ms) s known from v =
    let (u, f) = add_method-Returns ctx d c idx m s v in
    let at = From-method_at ctx c class idx m ms known from in
    let (t, g) =
      add_methods-Returns ctx d c class (idx + 1) ms u known (From-suc class.methods idx m ms from)
        (add_method-AreSound ctx d c idx m s u at f v) in
    (t, rw f g)

-- Every class of the list is defined.
abbrev AreDefined : CxxTypeCtx → List ClassId → Type 0
AreDefined ctx cs = All (λ (c : ClassId). (e : ClassDef) × (class_of ctx c ≡ some e)) cs

add_classes-Returns :
    (ctx : CxxTypeCtx) (d : ClassId) (cs : List ClassId) (s : SlotState)
    → AreDefined ctx cs
    → AreSound ctx d s
    → Returns (add_classes ctx d cs s)
unfolding add_classes
add_classes-Returns ctx d [] s known v = (s, refl)
add_classes-Returns ctx d (c ∷ cs) s ((class, k), known) v =
    let (u, f) =
      add_methods-Returns ctx d c class 0 class.methods s k (From-self class.methods) v in
    let sound =
      add_methods-AreSound ctx d c class 0 class.methods s u k (From-self class.methods) f v in
    let (t, g) = add_classes-Returns ctx d cs u known sound in (t, rw k (rw f g))

AreDefined-push :
    (ctx : CxxTypeCtx) (cs : List ClassId) (c : ClassId) (class : ClassDef)
    → AreDefined ctx cs
    → class_of ctx c ≡ some class
    → AreDefined ctx (push cs c)
AreDefined-push ctx [] c class h k = ((class, k), tt)
AreDefined-push ctx (x ∷ cs) c class h k = (h.0, AreDefined-push ctx cs c class h.1 k)

first_non_virtual-mem :
    (bs : List BaseSpec) (x : ClassId)
    → first_non_virtual bs ≡ some x
    → (b : BaseSpec) × (b ∈ bs) × (b.class ≡ x)
first_non_virtual-mem [] x h = absurd (cc h)
first_non_virtual-mem (b ∷ bs) x h = elim (Bool-cases b.is_virtual) [
  | inl y ↦ let (c, m, e) = first_non_virtual-mem bs x (rw y at h) in (c, inr m, e)
  | inr y ↦ (b, inl refl, some-injective b.class x (rw y at h))
]

module _ (ctx : CxxTypeCtx) {class_rank : ClassId → ℕ} {type_rank : TypeId → ℕ}
    (ranked : IsRanked ctx class_rank type_rank) (closed : IsClosed ctx) where
  -- The chain of a class, with all its classes defined.
  collect_chain-Returns :
      (fuel : ℕ) (id : ClassId) (class : ClassDef)
      → class_of ctx id ≡ some class
      → class_rank id < fuel
      → (cs : List ClassId) × (collect_chain ctx fuel id ≡ ok cs) × AreDefined ctx cs
  unfolding collect_chain behind
  collect_chain-Returns zero id class known lt = elim lt [ ]
  collect_chain-Returns (suc fuel) id class known lt =
      go (first_non_virtual class.bases) refl (λ base e.
        let (b, m, same) = first_non_virtual-mem class.bases base e in
        let (def, k) = closed id class b known m in
        let less = ranked.base_lt id class b known m in
        subst (λ x. (cs : List ClassId) × (collect_chain ctx fuel x ≡ ok cs) × AreDefined ctx cs)
          same (collect_chain-Returns fuel b.class def k (omega arith)))
    where
      go :
          (first : Option ClassId)
          → first_non_virtual class.bases ≡ first
          → ((base : ClassId)
              → first_non_virtual class.bases ≡ some base
              → (cs : List ClassId) × (collect_chain ctx fuel base ≡ ok cs) × AreDefined ctx cs)
          → (cs : List ClassId) × (collect_chain ctx (suc fuel) id ≡ ok cs) × AreDefined ctx cs
      go none e up =
          (id ∷ [], rw known (ap (behind (collect_chain ctx fuel) id) e), ((class, known), tt))
      go (some base) e up =
          let (cs, f, h) = up base e in
          (
            push cs id,
            rw known (
                ap (behind (collect_chain ctx fuel) id) e
                ∙ ap (λ (r : Chain). r >>= λ above. ok (push above id)) f),
            AreDefined-push ctx cs id class h known,
          )

  -- On a ranked context in which every base of a defined class is defined, `build_virtual_slots`
  -- returns the slots of every defined class, with any bound on the depth of the chain above the
  -- rank of the class: it neither panics nor runs out.
  pub build_virtual_slots_total :
      (fuel : ℕ) (id : ClassId) (class : ClassDef)
      → class_of ctx id ≡ some class
      → class_rank id < fuel
      → (slots : List VSlot) × (build_virtual_slots ctx fuel id ≡ ok slots)
  unfolding build_virtual_slots no_slots
  build_virtual_slots_total fuel id class known lt =
      let (cs, e, defined) = collect_chain-Returns fuel id class known lt in
      let (st, f) = add_classes-Returns ctx id cs no_slots defined tt in
      (st.slots, rw e (rw f refl))
