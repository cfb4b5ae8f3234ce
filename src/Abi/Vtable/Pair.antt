-- ===== src/Abi/Vtable/Pair.antt =====
-- The destructor slots of a class (`build_virtual_slots` of vtable.rs).
use rustcc.Prelude.{
  ℕ, zero, suc, ◌+◌, ◌≡◌, refl, sym, ◌∙◌, ap, Bool, true, false, Bool-cases, inl, inr,
}
use rustcc.Prelude.{not, ◌&&◌, ◌||◌}
use rustcc.Prelude.{
  Option, none, some, List, [], ◌∷◌, push, ok, or_panic, >>=-eq-ok, ok_inj, or_panic-eq-ok,
}
use mathlib.Core.Path.{subst}
use rustcc.Abi.Types.{ClassId, MethodDef}
use rustcc.Abi.Context.{CxxTypeCtx, class_of}
use rustcc.Abi.Vtable.Slots.{
  VSlotKind, VSlot, SlotState, is_non_virtual, is_dtor, collect_chain, find_override_target,
  dtor_slot, put_dtor, method_slot, override_at, put_method, add_method, add_methods, add_classes,
  no_slots, build_virtual_slots,
}

abbrev pub kinds : List VSlot → List VSlotKind
kinds [] = []
kinds (s ∷ ss) = s.kind ∷ kinds ss

-- Method slots only.
abbrev pub NoDtor : List VSlotKind → Type 0
NoDtor [] = Unit
NoDtor (k ∷ ks) = (k ≡ VSlotKind.method) × NoDtor ks

-- Method slots, and among them `dtor_d1` directly before `dtor_d0`.
abbrev pub OnePair : List VSlotKind → Type 0
OnePair [] = ⊥
OnePair (VSlotKind.method ∷ ks) = OnePair ks
OnePair (VSlotKind.dtor_d1 ∷ []) = ⊥
OnePair (VSlotKind.dtor_d1 ∷ k ∷ ks) = (k ≡ VSlotKind.dtor_d0) × NoDtor ks
OnePair (VSlotKind.dtor_d0 ∷ ks) = ⊥

abbrev pub Paired : Bool → List VSlotKind → Type 0
Paired true ks = OnePair ks
Paired false ks = NoDtor ks

kinds-push : (ss : List VSlot) (s : VSlot) → kinds (push ss s) ≡ push (kinds ss) s.kind
kinds-push [] s = refl
kinds-push (x ∷ ss) s = ap (λ ks. x.kind ∷ ks) (kinds-push ss s)

kinds-override_at :
    (c : ClassId) (idx : ℕ) (ss : List VSlot) (k : ℕ) → kinds (override_at c idx ss k) ≡ kinds ss
unfolding override_at
kinds-override_at c idx [] k = refl
kinds-override_at c idx (s ∷ ss) zero = refl
kinds-override_at c idx (s ∷ ss) (suc k) = ap (λ ks. s.kind ∷ ks) (kinds-override_at c idx ss k)

NoDtor-push : (ks : List VSlotKind) → NoDtor ks → NoDtor (push ks VSlotKind.method)
NoDtor-push [] h = (refl, tt)
NoDtor-push (k ∷ ks) h = (h.0, NoDtor-push ks h.1)

OnePair-push : (ks : List VSlotKind) → OnePair ks → OnePair (push ks VSlotKind.method)
OnePair-push [] h = elim h [ ]
OnePair-push (VSlotKind.method ∷ ks) h = OnePair-push ks h
OnePair-push (VSlotKind.dtor_d1 ∷ []) h = elim h [ ]
OnePair-push (VSlotKind.dtor_d1 ∷ k ∷ ks) h = (h.0, NoDtor-push ks h.1)
OnePair-push (VSlotKind.dtor_d0 ∷ ks) h = elim h [ ]

OnePair-of_NoDtor :
    (ks : List VSlotKind) → NoDtor ks → OnePair (push (push ks VSlotKind.dtor_d1) VSlotKind.dtor_d0)
OnePair-of_NoDtor [] h = (refl, tt)
OnePair-of_NoDtor (VSlotKind.method ∷ ks) h = OnePair-of_NoDtor ks h.1
OnePair-of_NoDtor (VSlotKind.dtor_d1 ∷ ks) h = absurd (cc (h.0))
OnePair-of_NoDtor (VSlotKind.dtor_d0 ∷ ks) h = absurd (cc (h.0))

Paired-push : (b : Bool) (ks : List VSlotKind) → Paired b ks → Paired b (push ks VSlotKind.method)
Paired-push true ks h = OnePair-push ks h
Paired-push false ks h = NoDtor-push ks h

-- The flag tells whether the pair stands in the slots.
abbrev IsPaired : SlotState → Type 0
IsPaired st = Paired st.dtor_emitted (kinds st.slots)

put_dtor-IsPaired :
    (d c : ClassId) (st : SlotState)
    → IsPaired st
    → IsPaired (put_dtor d c st) × ((put_dtor d c st).dtor_emitted ≡ true)
unfolding put_dtor
put_dtor-IsPaired d c st v = elim (Bool-cases st.dtor_emitted) [
  | inl y ↦ rw y (rw y at v, refl)
  | inr n ↦
      let two : kinds (
            push (push st.slots (dtor_slot d c VSlotKind.dtor_d1))
              (dtor_slot d c VSlotKind.dtor_d0))
          ≡ push (push (kinds st.slots) VSlotKind.dtor_d1) VSlotKind.dtor_d0 =
        kinds-push (push st.slots (dtor_slot d c VSlotKind.dtor_d1))
          (dtor_slot d c VSlotKind.dtor_d0)
        ∙ ap (λ ks. push ks VSlotKind.dtor_d0)
            (kinds-push st.slots (dtor_slot d c VSlotKind.dtor_d1)) in
      rw n (subst OnePair (sym two) (OnePair-of_NoDtor (kinds st.slots) (rw n at v)), refl)
]

put_method-IsPaired :
    (c : ClassId) (idx : ℕ) (target : Option ℕ) (st : SlotState)
    → IsPaired st
    → IsPaired (put_method c idx target st)
unfolding put_method
put_method-IsPaired c idx none st v =
    subst (Paired st.dtor_emitted) (sym (kinds-push st.slots (method_slot c idx)))
      (Paired-push st.dtor_emitted (kinds st.slots) v)
put_method-IsPaired c idx (some k) st v =
    subst (Paired st.dtor_emitted) (sym (kinds-override_at c idx st.slots k)) v

-- Does a method list, or a chain of classes, declare a virtual destructor?
abbrev pub declares_dtor : List MethodDef → Bool
declares_dtor [] = false
declares_dtor (m ∷ ms) = not (is_non_virtual m.virtuality) && is_dtor m.special || declares_dtor ms

abbrev pub chain_declares_dtor : CxxTypeCtx → List ClassId → Bool
chain_declares_dtor ctx [] = false
chain_declares_dtor ctx (c ∷ cs) =
    elim (class_of ctx c) [ none ↦ false | some class ↦ declares_dtor class.methods ]
    || chain_declares_dtor ctx cs

-- The invariant holds of `t`, and its flag is that of `s` or `b`.
abbrev Goes : SlotState → Bool → SlotState → Type 0
Goes s b t = IsPaired t × (t.dtor_emitted ≡ (s.dtor_emitted || b))

put_method-flag :
    (c : ClassId) (idx : ℕ) (target : Option ℕ) (st : SlotState)
    → (put_method c idx target st).dtor_emitted ≡ st.dtor_emitted
unfolding put_method
put_method-flag c idx none st = refl
put_method-flag c idx (some k) st = refl

or_false : (b : Bool) → b ≡ (b || false)
or_false true = refl
or_false false = refl

or_true : (b : Bool) → true ≡ (b || true)
or_true true = refl
or_true false = refl

or_assoc : (a b c : Bool) → ((a || b) || c) ≡ (a || (b || c))
or_assoc true b c = refl
or_assoc false b c = refl

add_method-Goes :
    (ctx : CxxTypeCtx) (d c : ClassId) (idx : ℕ) (m : MethodDef) (s t : SlotState)
    → add_method ctx d c idx m s ≡ ok t
    → IsPaired s
    → Goes s (not (is_non_virtual m.virtuality) && is_dtor m.special) t
unfolding add_method
add_method-Goes ctx d c idx m s t h v = elim (Bool-cases (is_non_virtual m.virtuality)) [
  | inl y ↦ rw y (subst (Goes s false) (ok_inj (rw y at h)) (v, or_false s.dtor_emitted))
  | inr n ↦ elim (Bool-cases (is_dtor m.special)) [
    | inl y ↦
        let (p, e) = put_dtor-IsPaired d c s v in
        rw (n, y) (subst (Goes s true) (ok_inj (rw (n, y) at h)) (p, e ∙ or_true s.dtor_emitted))
    | inr y ↦
        let (target, f, g) = >>=-eq-ok (find_override_target ctx s.slots m) _ (rw (n, y) at h) in
        rw (n, y)
          (subst (Goes s false) (ok_inj g) (
            put_method-IsPaired c idx target s v,
            put_method-flag c idx target s ∙ or_false s.dtor_emitted,
          ))
  ]
]

Goes-after : (s u t : SlotState) (a b : Bool) → Goes s a u → Goes u b t → Goes s (a || b) t
Goes-after s u t a b (p, e) (q, f) = (q, f ∙ ap (λ x. x || b) e ∙ or_assoc s.dtor_emitted a b)

add_methods-Goes :
    (ctx : CxxTypeCtx) (d c : ClassId) (idx : ℕ) (ms : List MethodDef) (s t : SlotState)
    → add_methods ctx d c idx ms s ≡ ok t
    → IsPaired s
    → Goes s (declares_dtor ms) t
unfolding add_methods
add_methods-Goes ctx d c idx [] s t h v =
    subst (Goes s false) (ok_inj h) (v, or_false s.dtor_emitted)
add_methods-Goes ctx d c idx (m ∷ ms) s t h v =
    let (u, f, g) = >>=-eq-ok (add_method ctx d c idx m s) _ h in
    let here = add_method-Goes ctx d c idx m s u f v in
    Goes-after s u t _ _ here (add_methods-Goes ctx d c (idx + 1) ms u t g here.0)

add_classes-Goes :
    (ctx : CxxTypeCtx) (d : ClassId) (cs : List ClassId) (s t : SlotState)
    → add_classes ctx d cs s ≡ ok t
    → IsPaired s
    → Goes s (chain_declares_dtor ctx cs) t
unfolding add_classes
add_classes-Goes ctx d [] s t h v = subst (Goes s false) (ok_inj h) (v, or_false s.dtor_emitted)
add_classes-Goes ctx d (c ∷ cs) s t h v =
    let (class, k, h') = >>=-eq-ok (or_panic (class_of ctx c)) _ h in
    let (u, f, g) = >>=-eq-ok (add_methods ctx d c 0 class.methods s) _ h' in
    let here = add_methods-Goes ctx d c 0 class.methods s u f v in
    let there = add_classes-Goes ctx d cs u t g here.0 in
    rw (or_panic-eq-ok (class_of ctx c) k) (Goes-after s u t _ _ here there)

-- In the slots that `build_virtual_slots` returns, the two destructor slots stand exactly once, the
-- complete one directly before the deleting one, if a class of the chain declares a virtual
-- destructor, and not at all if none does; all other slots are method slots.
pub build_virtual_slots-Paired :
    (ctx : CxxTypeCtx) (fuel : ℕ) (id : ClassId) (chain : List ClassId) (slots : List VSlot)
    → collect_chain ctx fuel id ≡ ok chain
    → build_virtual_slots ctx fuel id ≡ ok slots
    → Paired (chain_declares_dtor ctx chain) (kinds slots)
unfolding build_virtual_slots no_slots
build_virtual_slots-Paired ctx fuel id chain slots e h =
    let (cs, e', h') = >>=-eq-ok (collect_chain ctx fuel id) _ h in
    let (st, f, h'') = >>=-eq-ok (add_classes ctx id cs no_slots) _ h' in
    let same : cs ≡ chain = ok_inj (sym e' ∙ e) in
    let (p, q) = add_classes-Goes ctx id cs no_slots st f tt in
    subst (λ x. Paired (chain_declares_dtor ctx x) (kinds slots)) same
      (subst (λ x. Paired (chain_declares_dtor ctx cs) (kinds x)) (ok_inj h'')
        (subst (λ b. Paired b (kinds st.slots)) q p))
