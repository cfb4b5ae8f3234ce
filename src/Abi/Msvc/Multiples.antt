-- ===== src/Abi/Msvc/Multiples.antt =====
-- Sizes as multiples of alignments in an MSVC layout (layout_msvc.rs).
use rustcc.Prelude.{
  ℕ, suc, ◌+◌, ◌-◌, ◌%◌, ◌≤◌, ◌<◌, ◌≡◌, sym, ◌∙◌, ap, arith, max, true, false, not,
}
use rustcc.Prelude.{◌&&◌, leb, ◌==◌, Bool-cases, inl, inr, ◌⊎◌, some}
use rustcc.Prelude.{ok, >>=-eq-ok, ok_inj, checked-ok}
use mathlib.Core.Path.{subst}
use native.Mathlib.Nat.{mod-lt, mod-add-mod, mod_self}
use rustcc.Abi.Types.{ClassId, ClassDef}
use rustcc.Abi.Context.{CxxTypeCtx, class_of}
use rustcc.Abi.Layout.State.{RecordLayout}
use rustcc.Abi.Layout.Hfa.{detect_hfa}
use rustcc.Abi.Mangle.Types.{is_empty}
use rustcc.Abi.Msvc.State.{MsvcState, round_up, moved}
use rustcc.Abi.Msvc.Engine.{
  place_own, msvc_virtual_bases, at_least_one, msvc_layout, is_union, layout_msvc,
}

round_up-multiple : (v a c : ℕ) → 0 < a → round_up v a ≡ ok c → c % a ≡ 0
unfolding round_up
round_up-multiple v a c pos h = elim (Bool-cases (leb a 1)) [
  | inl y ↦ let one : a ≡ 1 = ground arith in grind arith
  | inr n ↦ elim (Bool-cases (v % a == 0)) [
    | inl z ↦
        let e = ok_inj (rw (n, z) at h) in
        let divides : v % a ≡ 0 = ground arith in subst (λ k. k % a ≡ 0) e divides
    | inr k ↦
        let e = checked-ok (v + (a - v % a)) (rw (n, k) at h) in
        subst (λ k. k % a ≡ 0) (sym e) (filled v a pos)
  ]
]
  where
    filled : (v a : ℕ) → 0 < a → (v + (a - v % a)) % a ≡ 0
    filled v a pos =
        let below : v % a < a = mod-lt v pos in
        sym (mod-add-mod v a (a - v % a)) ∙ ap (λ k. k % a) (omega arith) ∙ mod_self a

-- A class of no members and no bases.
abbrev pub IsBare : ClassDef → Type 0
IsBare class = (is_empty class.fields ≡ true) × (is_empty class.bases ≡ true)

abbrev pub IsStriding : ClassDef → RecordLayout → Type 0
IsStriding class l = (l.size_bytes % l.align_bytes ≡ 0) ⊎ (IsBare class × (l.size_bytes ≡ 1))

at_least_one-IsStriding :
    (class : ClassDef) (st : MsvcState) (n a : ℕ)
    → n % a ≡ 0
    → (at_least_one class st n % a ≡ 0) ⊎ (IsBare class × (at_least_one class st n ≡ 1))
unfolding at_least_one
at_least_one-IsStriding class st n a h =
    elim (Bool-cases (
      is_empty class.fields
      && is_empty class.bases
      && not st.has_vptr
      && not st.has_vbptr
      && not (is_union class.kind))) [
        | inr e ↦ rw e (inl h)
        | inl y ↦ elim (Bool-cases (leb n 1)) [
          | inl le ↦ rw y (inr ((ground (arith, y), ground (arith, y)), omega (arith, small n le)))
          | inr gt ↦ rw y (inl (subst (λ k. k % a ≡ 0) (omega (arith, large n gt)) h))
        ]
      ]
  where
    small : (n : ℕ) → leb n 1 ≡ true → n ≤ 1
    small n h = ground arith

    large : (n : ℕ) → leb n 1 ≡ false → 1 < n
    large n h = ground arith

-- In an MSVC layout the size is a multiple of the alignment, but for a class without members and
-- bases, which may take one byte whatever its alignment.
pub layout_msvc-IsStriding :
    (ctx : CxxTypeCtx) (fuel : ℕ) (id : ClassId) (class : ClassDef) (l : RecordLayout)
    → class_of ctx id ≡ some class
    → layout_msvc ctx (suc fuel) id ≡ ok l
    → IsStriding class l
unfolding layout_msvc msvc_layout
layout_msvc-IsStriding ctx fuel id class l found h =
    let (own, a, b) =
      >>=-eq-ok (place_own ctx (layout_msvc ctx fuel) fuel id class) _ (rw found at h) in
    let (nv, c, d) = >>=-eq-ok (round_up own.size (max own.align 1)) _ b in
    let (st, e, f) =
      >>=-eq-ok (msvc_virtual_bases (layout_msvc ctx fuel) class.bases (moved nv own)) _ d in
    let (rounded, g, i) = >>=-eq-ok (round_up st.size (max st.align 1)) _ f in
    let (hfa, j, k) = >>=-eq-ok (detect_hfa ctx (suc fuel) id) _ i in
    subst (IsStriding class) (ok_inj k) (
      at_least_one-IsStriding class st rounded (max st.align 1)
        (round_up-multiple st.size (max st.align 1) rounded (omega arith) g))
