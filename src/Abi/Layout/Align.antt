-- ===== src/Abi/Layout/Align.antt =====
-- `align_up` of layout.rs against exact arithmetic.
use rustcc.Prelude.{ℕ, ◌+◌, ◌-◌, ◌*◌, ◌/◌, ◌%◌, ◌≤◌, ◌<◌, max, ◌≡◌, arith}
use rustcc.Prelude.{◌⊎◌, inl, inr, ok}
use rustcc.Abi.Layout.State.{align_up}

-- The rounded value, in exact arithmetic.
abbrev pub rounded : ℕ → ℕ → ℕ
rounded v a = (v + a - 1) / a * a

round_facts : (v a : ℕ) → 0 < a → (v ≤ rounded v a) × (rounded v a < v + a) × (rounded v a % a ≡ 0)
round_facts v a h = grind arith

module _ {ℓ} {E : Type ℓ} where
  align_up-cases :
      (v a : ℕ) {r : ℕ}
      → align_up {E = E} v a ≡ ok r
      → (a ≤ 1) × (r ≡ v) ⊎ (1 < a) × (r ≡ rounded v a)
  unfolding align_up
  align_up-cases v a h = ground arith

  -- A result of `align_up` is the least multiple of the alignment that is no smaller than the
  -- value: at least the value, a multiple of the alignment (0 counts as 1), and less than one
  -- alignment above the value.
  pub align_up_lem :
      (v a : ℕ) {r : ℕ}
      → align_up {E = E} v a ≡ ok r
      → (v ≤ r) × (r < v + max a 1) × (r % max a 1 ≡ 0)
  align_up_lem v a h = elim (align_up-cases v a h) [
    | inl (small, e) ↦ let m : max a 1 ≡ 1 = omega arith in rw (m, e) (omega arith)
    | inr (big, e) ↦ let m : max a 1 ≡ a = omega arith in rw (m, e) (round_facts v a (omega arith))
  ]
