-- ===== src/Abi/Vtable/Slots.antt =====
-- The slots of a primary virtual table (`build_virtual_slots` of vtable.rs).
use rustcc.Prelude.{
  ℕ, zero, suc, ◌+◌, Bool, true, false, not, ◌&&◌, ◌==◌, if◌then◌else◌, Option, none, some,
}
use rustcc.Prelude.{List, [], ◌∷◌, push, get_elem?, Outcome, ok, stuck, ◌>>=◌, or_panic}
use rustcc.Abi.Types.{ClassId, BaseSpec, MethodDef, LayoutError, Virtuality, SpecialMember}
use rustcc.Abi.Types.{MethodName-discrete, CvQual-discrete, TypeIds-discrete}
use rustcc.Abi.Context.{CxxTypeCtx, class_of}

pub data VSlotKind : Type 0 where
  dtor_d1 dtor_d0 method : VSlotKind

pub record VSlot : Type 0 where
  pub kind : VSlotKind
  pub originator_class : ClassId
  pub originator_method_idx : Option ℕ
  pub overrider_class : ClassId
  pub overrider_method_idx : Option ℕ

-- The two variables of `build_virtual_slots`.
pub record SlotState : Type 0 where
  pub slots : List VSlot
  pub dtor_emitted : Bool

abbrev pub Build : Type 0
Build = Outcome LayoutError SlotState

abbrev pub is_non_virtual : Virtuality → Bool
is_non_virtual Virtuality.non_virtual = true
is_non_virtual Virtuality.virtual = false
is_non_virtual Virtuality.pure_virtual = false

abbrev pub is_dtor : Option SpecialMember → Bool
is_dtor (some SpecialMember.dtor) = true
is_dtor s = false

unfoldable pub signatures_match : MethodDef → MethodDef → Bool
signatures_match a b =
    elim (MethodName-discrete a.name b.name) [ yes _ ↦ true | no _ ↦ false ]
    && elim (CvQual-discrete a.sig.cv b.sig.cv) [ yes _ ↦ true | no _ ↦ false ]
    && a.sig.ret == b.sig.ret
    && elim (TypeIds-discrete a.sig.params b.sig.params) [ yes _ ↦ true | no _ ↦ false ]

-- `&ctx.class(class).methods[idx]`.
abbrev pub method_at : CxxTypeCtx → ClassId → ℕ → Outcome LayoutError MethodDef
method_at ctx class idx = do
  def ← or_panic (class_of ctx class)
  or_panic (get_elem? def.methods idx)

abbrev pub first_non_virtual : List BaseSpec → Option ClassId
first_non_virtual [] = none
first_non_virtual (b ∷ bs) = if not b.is_virtual then some b.class else first_non_virtual bs

abbrev pub Chain : Type 0
Chain = Outcome LayoutError (List ClassId)

-- The class behind the chain of its base, if it has one that is not virtual.
unfoldable pub behind : (ClassId → Chain) → ClassId → Option ClassId → Chain
behind rec id none = ok (id ∷ [])
behind rec id (some base) = rec base >>= λ above. ok (push above id)

-- The chain from the root to the class: the loop pushes the classes upwards and then reverses.
unfoldable pub collect_chain : CxxTypeCtx → ℕ → ClassId → Chain
unfolding behind
collect_chain ctx zero id = stuck
collect_chain ctx (suc fuel) id = do
  class ← or_panic (class_of ctx id)
  behind (collect_chain ctx fuel) id (first_non_virtual class.bases)

-- One round of the loop of `find_override_target`, on the slot's kind and originator; `rest` is
-- what the rounds behind it give.
unfoldable pub match_slot :
    CxxTypeCtx
    → ℕ
    → MethodDef
    → VSlotKind
    → ClassId
    → Option ℕ
    → Outcome LayoutError (Option ℕ)
    → Outcome LayoutError (Option ℕ)
unfolding signatures_match
match_slot ctx i m VSlotKind.dtor_d1 class idx rest = rest
match_slot ctx i m VSlotKind.dtor_d0 class idx rest = rest
match_slot ctx i m VSlotKind.method class none rest = ok none
match_slot ctx i m VSlotKind.method class (some k) rest = do
  orig ← method_at ctx class k
  if signatures_match m orig then ok (some i) else rest

-- The slots from index `i` on.
unfoldable pub find_from : CxxTypeCtx → ℕ → List VSlot → MethodDef → Outcome LayoutError (Option ℕ)
unfolding match_slot
find_from ctx i [] m = ok none
find_from ctx i (s ∷ ss) m =
    match_slot ctx i m s.kind s.originator_class s.originator_method_idx
      (find_from ctx (i + 1) ss m)

unfoldable pub find_override_target :
    CxxTypeCtx → List VSlot → MethodDef → Outcome LayoutError (Option ℕ)
unfolding find_from
find_override_target ctx slots m = find_from ctx 0 slots m

abbrev pub dtor_slot : ClassId → ClassId → VSlotKind → VSlot
dtor_slot most_derived class kind = record {
  kind = kind;
  originator_class = class;
  originator_method_idx = none;
  overrider_class = most_derived;
  overrider_method_idx = none;
}

-- The pair of destructor slots, unless an earlier class has it.
unfoldable pub put_dtor : ClassId → ClassId → SlotState → SlotState
put_dtor most_derived class st = if st.dtor_emitted then st else record {
  slots =
      push (push st.slots (dtor_slot most_derived class VSlotKind.dtor_d1))
        (dtor_slot most_derived class VSlotKind.dtor_d0);
  dtor_emitted = true;
}

abbrev pub method_slot : ClassId → ℕ → VSlot
method_slot class idx = record {
  kind = VSlotKind.method;
  originator_class = class;
  originator_method_idx = some idx;
  overrider_class = class;
  overrider_method_idx = some idx;
}

-- A new overrider for the slot at an index.
unfoldable pub override_at : ClassId → ℕ → List VSlot → ℕ → List VSlot
override_at class idx [] i = []
override_at class idx (s ∷ ss) zero =
    record s { overrider_class = class; overrider_method_idx = some idx } ∷ ss
override_at class idx (s ∷ ss) (suc i) = s ∷ override_at class idx ss i

-- A new slot, or the new overrider of the slot that was found.
unfoldable pub put_method : ClassId → ℕ → Option ℕ → SlotState → SlotState
unfolding override_at
put_method class idx none st = record st { slots = push st.slots (method_slot class idx) }
put_method class idx (some k) st = record st { slots = override_at class idx st.slots k }

unfoldable pub add_method : CxxTypeCtx → ClassId → ClassId → ℕ → MethodDef → SlotState → Build
unfolding find_override_target put_dtor put_method
add_method ctx most_derived class idx m st =
    if is_non_virtual m.virtuality
    then ok st
    else if is_dtor m.special
    then ok (put_dtor most_derived class st)
    else do target ← find_override_target ctx st.slots m; ok (put_method class idx target st)

unfoldable pub add_methods : CxxTypeCtx → ClassId → ClassId → ℕ → List MethodDef → SlotState → Build
unfolding add_method
add_methods ctx most_derived class idx [] st = ok st
add_methods ctx most_derived class idx (m ∷ ms) st = do
  st' ← add_method ctx most_derived class idx m st
  add_methods ctx most_derived class (idx + 1) ms st'

unfoldable pub add_classes : CxxTypeCtx → ClassId → List ClassId → SlotState → Build
unfolding add_methods
add_classes ctx most_derived [] st = ok st
add_classes ctx most_derived (c ∷ cs) st = do
  class ← or_panic (class_of ctx c)
  st' ← add_methods ctx most_derived c 0 class.methods st
  add_classes ctx most_derived cs st'

unfoldable pub no_slots : SlotState
no_slots = record { slots = []; dtor_emitted = false }

unfoldable pub build_virtual_slots : CxxTypeCtx → ℕ → ClassId → Outcome LayoutError (List VSlot)
unfolding collect_chain add_classes no_slots
build_virtual_slots ctx fuel most_derived = do
  chain ← collect_chain ctx fuel most_derived
  st ← add_classes ctx most_derived chain no_slots
  ok st.slots
