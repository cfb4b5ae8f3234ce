-- ===== src/Abi/Vtable/Overriders.antt =====
-- The overriders in the slots of a class (`build_virtual_slots` of vtable.rs).
use rustcc.Prelude.{ℕ, zero, suc, ◌+◌, ◌≡◌, refl, sym, ap, arith, true, false, Bool-cases}
use rustcc.Prelude.{Option, none, some, List, [], ◌∷◌, push, Outcome, ok, or_panic, All}
use rustcc.Prelude.{>>=-eq-ok, or_panic-eq-ok, ok_inj, inl, inr, get_elem?, ==_iff, ◌⊎◌}
use mathlib.Core.Path.{subst}
use mathlib.Core.Option.{some-injective}
use rustcc.Abi.Types.{ClassId, ClassDef, MethodDef, LayoutError}
use rustcc.Abi.Context.{CxxTypeCtx, class_of}
use rustcc.Abi.Vtable.Slots.{
  VSlotKind, VSlot, SlotState, is_non_virtual, is_dtor, method_at, collect_chain, signatures_match,
  match_slot, find_from, find_override_target, dtor_slot, put_dtor, method_slot, override_at,
  put_method, add_method, add_methods, add_classes, no_slots, build_virtual_slots,
}

signatures_match_self : (m : MethodDef) → signatures_match m m ≡ true
unfolding signatures_match
signatures_match_self m = ground (arith, ==_iff m.sig.ret m.sig.ret)

-- A method slot names a method of its originator, and a virtual one of its overrider with the same
-- signature.
pub record Overrides (ctx : CxxTypeCtx) (s : VSlot) : Type 0 where
  pub i : ℕ
  pub j : ℕ
  pub original : MethodDef
  pub overrider : MethodDef
  pub original_idx : s.originator_method_idx ≡ some i
  pub original_eq : method_at ctx s.originator_class i ≡ ok original
  pub overrider_idx : s.overrider_method_idx ≡ some j
  pub overrider_eq : method_at ctx s.overrider_class j ≡ ok overrider
  pub match : signatures_match overrider original ≡ true
  pub is_virtual : is_non_virtual overrider.virtuality ≡ false
  pub no_dtor : is_dtor overrider.special ≡ false

-- What a slot of `d`'s table points at, by kind.
abbrev pub Points : CxxTypeCtx → ClassId → VSlot → VSlotKind → Type 0
Points ctx d s VSlotKind.dtor_d1 = s.overrider_class ≡ d
Points ctx d s VSlotKind.dtor_d0 = s.overrider_class ≡ d
Points ctx d s VSlotKind.method = Overrides ctx s

abbrev pub IsSound : CxxTypeCtx → ClassId → VSlot → Type 0
IsSound ctx d s = Points ctx d s s.kind

All-push {κ} :
    {A : Type 0} (P : A → Type κ) (xs : List A) (x : A) → All P xs → P x → All P (push xs x)
All-push P [] x h p = (p, tt)
All-push P (y ∷ xs) x h p = (h.0, All-push P xs x h.1 p)

-- The slot that the search finds is a method slot whose originator matches.
record Found (ctx : CxxTypeCtx) (m : MethodDef) (s : VSlot) : Type 0 where
  i : ℕ
  original : MethodDef
  kind_eq : s.kind ≡ VSlotKind.method
  idx_eq : s.originator_method_idx ≡ some i
  original_eq : method_at ctx s.originator_class i ≡ ok original
  match : signatures_match m original ≡ true

match_slot-Found :
    (ctx : CxxTypeCtx) (i : ℕ) (m : MethodDef) (s : VSlot) (kind : VSlotKind) (idx : Option ℕ)
    (rest : Outcome LayoutError (Option ℕ)) (k : ℕ)
    → s.kind ≡ kind
    → s.originator_method_idx ≡ idx
    → match_slot ctx i m kind s.originator_class idx rest ≡ ok (some k)
    → (k ≡ i) × Found ctx m s ⊎ (rest ≡ ok (some k))
unfolding match_slot
match_slot-Found ctx i m s VSlotKind.dtor_d1 idx rest k e f h = inr h
match_slot-Found ctx i m s VSlotKind.dtor_d0 idx rest k e f h = inr h
match_slot-Found ctx i m s VSlotKind.method none rest k e f h = absurd (cc (ok_inj h))
match_slot-Found ctx i m s VSlotKind.method (some n) rest k e f h =
    let (orig, g, h') = >>=-eq-ok (method_at ctx s.originator_class n) _ h in
    elim (Bool-cases (signatures_match m orig)) [
      | inl y ↦ inl (
        sym (some-injective _ _ (ok_inj (rw y at h'))),
        record { i = n; original = orig; kind_eq = e; idx_eq = f; original_eq = g; match = y },
      )
      | inr y ↦ inr (rw y at h')
    ]

-- Overriding the slot that was found keeps every slot sound.
override_found :
    (ctx : CxxTypeCtx) (d c : ClassId) (idx i : ℕ) (m : MethodDef) (ss : List VSlot) (k : ℕ)
    → method_at ctx c idx ≡ ok m
    → is_non_virtual m.virtuality ≡ false
    → is_dtor m.special ≡ false
    → find_from ctx i ss m ≡ ok (some k)
    → All (IsSound ctx d) ss
    → (n : ℕ) × (k ≡ i + n) × All (IsSound ctx d) (override_at c idx ss n)
unfolding find_from override_at
override_found ctx d c idx i m [] k at v n h sound = absurd (cc (ok_inj h))
override_found ctx d c idx i m (s ∷ ss) k at v n h sound =
    elim (match_slot-Found ctx i m s s.kind s.originator_method_idx (find_from ctx (i + 1) ss m) k
      refl refl h) [
        | inl (e, found) ↦
            let fresh : VSlot = record s { overrider_class = c; overrider_method_idx = some idx } in
            let points : Overrides ctx fresh = record {
              i = found.i;
              j = idx;
              original = found.original;
              overrider = m;
              original_idx = found.idx_eq;
              original_eq = found.original_eq;
              overrider_idx = refl;
              overrider_eq = at;
              match = found.match;
              is_virtual = v;
              no_dtor = n;
            } in
            (zero, omega arith, (subst (Points ctx d fresh) (sym found.kind_eq) points, sound.1))
        | inr rest ↦
            let (p, e, all) = override_found ctx d c idx (i + 1) m ss k at v n rest sound.1 in
            (suc p, omega arith, (sound.0, all))
      ]

abbrev pub AreSound : CxxTypeCtx → ClassId → SlotState → Type 0
AreSound ctx d st = All (IsSound ctx d) st.slots

put_dtor-AreSound :
    (ctx : CxxTypeCtx) (d c : ClassId) (st : SlotState)
    → AreSound ctx d st
    → AreSound ctx d (put_dtor d c st)
unfolding put_dtor
put_dtor-AreSound ctx d c st v = elim (Bool-cases st.dtor_emitted) [
  | inl y ↦ rw y v
  | inr n ↦ rw n (
      All-push (IsSound ctx d) _ (dtor_slot d c VSlotKind.dtor_d0)
        (All-push (IsSound ctx d) st.slots (dtor_slot d c VSlotKind.dtor_d1) v refl) refl)
]

put_method-AreSound :
    (ctx : CxxTypeCtx) (d c : ClassId) (idx : ℕ) (m : MethodDef) (st : SlotState)
    (target : Option ℕ)
    → method_at ctx c idx ≡ ok m
    → is_non_virtual m.virtuality ≡ false
    → is_dtor m.special ≡ false
    → find_override_target ctx st.slots m ≡ ok target
    → AreSound ctx d st
    → AreSound ctx d (put_method c idx target st)
unfolding put_method find_override_target
put_method-AreSound ctx d c idx m st none at v n h sound =
    All-push (IsSound ctx d) st.slots (method_slot c idx) sound (record {
      i = idx;
      j = idx;
      original = m;
      overrider = m;
      original_idx = refl;
      original_eq = at;
      overrider_idx = refl;
      overrider_eq = at;
      match = signatures_match_self m;
      is_virtual = v;
      no_dtor = n;
    })
put_method-AreSound ctx d c idx m st (some k) at v n h sound =
    let (p, e, all) = override_found ctx d c idx 0 m st.slots k at v n h sound in
    let e' : p ≡ k = omega arith in
    subst (λ x. All (IsSound ctx d) (override_at c idx st.slots x)) e' all

pub add_method-AreSound :
    (ctx : CxxTypeCtx) (d c : ClassId) (idx : ℕ) (m : MethodDef) (s t : SlotState)
    → method_at ctx c idx ≡ ok m
    → add_method ctx d c idx m s ≡ ok t
    → AreSound ctx d s
    → AreSound ctx d t
unfolding add_method
add_method-AreSound ctx d c idx m s t at h v = elim (Bool-cases (is_non_virtual m.virtuality)) [
  | inl y ↦ subst (AreSound ctx d) (ok_inj (rw y at h)) v
  | inr n ↦ elim (Bool-cases (is_dtor m.special)) [
    | inl y ↦ subst (AreSound ctx d) (ok_inj (rw (n, y) at h)) (put_dtor-AreSound ctx d c s v)
    | inr y ↦
        let (target, f, g) = >>=-eq-ok (find_override_target ctx s.slots m) _ (rw (n, y) at h) in
        subst (AreSound ctx d) (ok_inj g) (put_method-AreSound ctx d c idx m s target at n y f v)
  ]
]

-- `ms` stands in the list from index `idx` on.
abbrev pub From : List MethodDef → ℕ → List MethodDef → Type 0
From all idx ms =
    (k : ℕ) (x : MethodDef) → get_elem? ms k ≡ some x → get_elem? all (idx + k) ≡ some x

pub From-suc :
    (all : List MethodDef) (idx : ℕ) (m : MethodDef) (ms : List MethodDef)
    → From all idx (m ∷ ms)
    → From all (idx + 1) ms
From-suc all idx m ms from k x e =
    let shift : idx + suc k ≡ idx + 1 + k = omega arith in
    subst (λ n. get_elem? all n ≡ some x) shift (from (suc k) x e)

pub From-self : (all : List MethodDef) → From all 0 all
From-self all k x e = let z : k ≡ 0 + k = omega arith in subst (λ n. get_elem? all n ≡ some x) z e

-- The head of what stands from `idx` on is the method at `idx`.
pub From-method_at :
    (ctx : CxxTypeCtx) (c : ClassId) (class : ClassDef) (idx : ℕ) (m : MethodDef)
    (ms : List MethodDef)
    → class_of ctx c ≡ some class
    → From class.methods idx (m ∷ ms)
    → method_at ctx c idx ≡ ok m
From-method_at ctx c class idx m ms known from =
    let here : idx + 0 ≡ idx = omega arith in
    let stands = subst (λ n. get_elem? class.methods n ≡ some m) here (from 0 m refl) in
    rw known (ap or_panic stands)

pub add_methods-AreSound :
    (ctx : CxxTypeCtx) (d c : ClassId) (class : ClassDef) (idx : ℕ) (ms : List MethodDef)
    (s t : SlotState)
    → class_of ctx c ≡ some class
    → From class.methods idx ms
    → add_methods ctx d c idx ms s ≡ ok t
    → AreSound ctx d s
    → AreSound ctx d t
unfolding add_methods
add_methods-AreSound ctx d c class idx [] s t known from h v = subst (AreSound ctx d) (ok_inj h) v
add_methods-AreSound ctx d c class idx (m ∷ ms) s t known from h v =
    let (u, f, g) = >>=-eq-ok (add_method ctx d c idx m s) _ h in
    let at = From-method_at ctx c class idx m ms known from in
    add_methods-AreSound ctx d c class (idx + 1) ms u t known (From-suc class.methods idx m ms from)
      g (add_method-AreSound ctx d c idx m s u at f v)

add_classes-AreSound :
    (ctx : CxxTypeCtx) (d : ClassId) (cs : List ClassId) (s t : SlotState)
    → add_classes ctx d cs s ≡ ok t
    → AreSound ctx d s
    → AreSound ctx d t
unfolding add_classes
add_classes-AreSound ctx d [] s t h v = subst (AreSound ctx d) (ok_inj h) v
add_classes-AreSound ctx d (c ∷ cs) s t h v =
    let (class, k, h') = >>=-eq-ok (or_panic (class_of ctx c)) _ h in
    let (u, f, g) = >>=-eq-ok (add_methods ctx d c 0 class.methods s) _ h' in
    add_classes-AreSound ctx d cs u t g (
      add_methods-AreSound ctx d c class 0 class.methods s u (or_panic-eq-ok (class_of ctx c) k)
        (From-self class.methods) f v)

-- Every slot that `build_virtual_slots` returns is sound: a destructor slot points at the class
-- itself, and a method slot names an existing method of the class that introduced it and an existing
-- virtual method of its final overrider, which is no destructor and has the same name, parameters,
-- return type and qualifiers.
pub build_virtual_slots-IsSound :
    (ctx : CxxTypeCtx) (fuel : ℕ) (id : ClassId) (slots : List VSlot)
    → build_virtual_slots ctx fuel id ≡ ok slots
    → All (IsSound ctx id) slots
unfolding build_virtual_slots no_slots
build_virtual_slots-IsSound ctx fuel id slots h =
    let (cs, e, h') = >>=-eq-ok (collect_chain ctx fuel id) _ h in
    let (st, f, h'') = >>=-eq-ok (add_classes ctx id cs no_slots) _ h' in
    subst (All (IsSound ctx id)) (ok_inj h'') (add_classes-AreSound ctx id cs no_slots st f tt)
