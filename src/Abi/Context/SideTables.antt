-- ===== src/Abi/Context/SideTables.antt =====
-- The side tables of bit-fields and of default arguments (`bitfield_width`, `class_has_bitfields`,
-- `record_default_arg_values` and `default_arg_value` of ctx.rs).
use rustcc.Prelude.{ℕ, zero, suc, ◌≡◌, ◌≢◌, refl, sym, ◌∙◌, ap, arith, ◌↔◌, true, false, ◌==◌}
use rustcc.Prelude.{Bool-cases, inl, inr, Option, none, some, List, [], ◌∷◌, ==_iff}
use rustcc.Prelude.Assoc.{lookup, insert, pair_key, pair_beq, pair_beq_iff, lookup-insert}
use rustcc.Abi.Types.{ClassId}
use rustcc.Abi.Context.{
  CxxTypeCtx, DefaultArgValue, any_some, get_flat, unwrap_or, any_key, bitfield_width,
  class_has_bitfields, record_default_arg_values, default_arg_value,
}

any_key-lookup :
    (c : ClassId) (m : List ((ClassId × ℕ) × ℕ))
    → any_key c m ≡ true
    → (i : ℕ) × ((w : ℕ) × (lookup (c, i) m ≡ some w))
unfolding any_key lookup
any_key-lookup c [] h = absurd (cc h)
any_key-lookup c (((d, i), w) ∷ m) h = elim (Bool-cases (d == c)) [
  | inl y ↦
      let same : pair_beq (d, i) (c, i) ≡ true = ground (arith, ==_iff d c, ==_iff i i) in
      (i, (w, rw same refl))
  | inr n ↦
      let (j, (v, e)) = any_key-lookup c m (rw n at h) in
      let other : pair_beq (d, i) (c, j) ≡ false = rw n refl in (j, (v, rw other e))
]

lookup-any_key :
    (c : ClassId) (i w : ℕ) (m : List ((ClassId × ℕ) × ℕ))
    → lookup (c, i) m ≡ some w
    → any_key c m ≡ true
unfolding any_key lookup
lookup-any_key c i w [] h = absurd (cc h)
lookup-any_key c i w (((d, j), v) ∷ m) h = elim (Bool-cases (d == c)) [
  | inl y ↦ rw y refl
  | inr n ↦
      let other : pair_beq (d, j) (c, i) ≡ false = rw n refl in
      rw n (lookup-any_key c i w m (rw other at h))
]

-- `class_has_bitfields` says true exactly if some field of the class has a recorded width.
pub class_has_bitfields-bitfield_width :
    (ctx : CxxTypeCtx) (c : ClassId)
    → (class_has_bitfields ctx c ≡ true) ↔ ((i : ℕ) × ((w : ℕ) × (bitfield_width ctx c i ≡ some w)))
unfolding class_has_bitfields bitfield_width
class_has_bitfields-bitfield_width ctx c = (
  any_key-lookup c ctx.bitfield_widths,
  λ (i, (w, e)). lookup-any_key c i w ctx.bitfield_widths e,
)

get_flat-any_some :
    (vs : List (Option DefaultArgValue)) (k : ℕ) → any_some vs ≡ false → get_flat vs k ≡ none
get_flat-any_some [] k h = refl
get_flat-any_some (none ∷ vs) zero h = refl
get_flat-any_some (none ∷ vs) (suc k) h = get_flat-any_some vs k h
get_flat-any_some (some v ∷ vs) k h = absurd (cc h)

-- If no default value of a method is recorded yet, then recording a vector for it makes the value
-- of each argument readable as the vector has it, also where the vector is dropped because it holds
-- no value; the values of every other method stay as they are.
pub record_default_arg_values-default_arg_value :
    (ctx : CxxTypeCtx) (c : ClassId) (m : ℕ) (vs : List (Option DefaultArgValue))
    → ((k : ℕ) → default_arg_value ctx c m k ≡ none)
    → ((k : ℕ) → default_arg_value (record_default_arg_values ctx c m vs) c m k ≡ get_flat vs k)
      × ((d : ClassId) (n k : ℕ)
          → ◌≢◌ {A = ClassId × ℕ} (c, m) (d, n)
          → default_arg_value (record_default_arg_values ctx c m vs) d n k
            ≡ default_arg_value ctx d n k)
unfolding default_arg_value record_default_arg_values
record_default_arg_values-default_arg_value ctx c m vs fresh = elim (Bool-cases (any_some vs)) [
  | inl y ↦ (
    λ k.
        let self : pair_beq (c, m) (c, m) ≡ true = (pair_beq_iff (c, m) (c, m)).1 refl in
        let hit : lookup (c, m) (insert (c, m) vs ctx.default_arg_vectors) ≡ some vs =
          rw (lookup-insert (c, m) (c, m) vs ctx.default_arg_vectors, self) refl in
        rw y (ap (λ r. get_flat (unwrap_or r []) k) hit),
    λ d n k ne.
        let other : pair_beq (c, m) (d, n) ≡ false =
          ground (arith, pair_beq_iff (c, m) (d, n), ne) in
        let miss : lookup (d, n) (insert (c, m) vs ctx.default_arg_vectors)
            ≡ lookup (d, n) ctx.default_arg_vectors =
          rw (lookup-insert (c, m) (d, n) vs ctx.default_arg_vectors, other) refl in
        rw y (ap (λ r. get_flat (unwrap_or r []) k) miss),
  )
  | inr n ↦ (λ k. rw n (fresh k ∙ sym (get_flat-any_some vs k n)), λ d n' k ne. rw n refl)
]
