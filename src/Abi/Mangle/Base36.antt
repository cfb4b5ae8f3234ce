-- ===== src/Abi/Mangle/Base36.antt =====
-- Reading numbers back from text (`to_base36` of mangle.rs, and the decimal numbers of its output).
use rustcc.Prelude.{ℕ, zero, suc, ◌+◌, ◌-◌, ◌*◌, ◌/◌, ◌%◌, ◌≤◌, ◌<◌, ◌≡◌, refl, sym, ◌∙◌, ap, arith}
use rustcc.Prelude.{
  false, List, [], ◌∷◌, ◌++◌, map, reverse, ltb, ◌==◌, if◌then◌else◌, Bool-cases, inl, inr, All,
  ◌⊎◌,
}
use mathlib.Core.List.{reverse-cons}
use mathlib.Core.Path.{subst}
use native.Mathlib.Nat.{div-add-mod'}
use rustcc.Abi.Mangle.Digits.{digit_char, digits, to_base, to_base36}

-- The value of a digit, and of digits behind `acc`.
abbrev pub char_value : ℕ → ℕ
char_value c = if ltb c b'A' then c - b'0' else c - b'A' + 10

abbrev pub value : ℕ → ℕ → List ℕ → ℕ
value base acc [] = acc
value base acc (c ∷ cs) = value base (acc * base + char_value c) cs

-- A digit below `base`.
abbrev pub IsDigit : ℕ → ℕ → Type 0
IsDigit base c = (b'0' ≤ c) × (c ≤ b'9') × (c < b'0' + base) ⊎ (b'A' ≤ c) × (c + 10 < b'A' + base)

value-append :
    (base acc : ℕ) (xs ys : List ℕ) → value base acc (xs ++ ys) ≡ value base (value base acc xs) ys
value-append base acc [] ys = refl
value-append base acc (x ∷ xs) ys = value-append base (acc * base + char_value x) xs ys

char_value-digit_char : (d : ℕ) → char_value (digit_char d) ≡ d
char_value-digit_char d = ground arith

digit_char-IsDigit : (base d : ℕ) → d < base → IsDigit base (digit_char d)
digit_char-IsDigit base d h = elim (Bool-cases (ltb d 10)) [
  | inl y ↦ rw y (inl (ground arith))
  | inr n ↦ rw n (inr (ground arith))
]

All-push {κ} : (P : ℕ → Type κ) (xs : List ℕ) (x : ℕ) → All P xs → P x → All P (xs ++ (x ∷ []))
All-push P [] x h p = (p, tt)
All-push P (y ∷ ys) x h p = (h.0, All-push P ys x h.1 p)

module _ (base : ℕ) (big : 1 < base) where
  divided-le : (fuel n : ℕ) → n ≤ suc fuel → (n == 0) ≡ false → n / base ≤ fuel
  divided-le fuel n h p = let pos : 0 < n = ground arith in grind arith

  value-digits :
      (fuel n : ℕ) → n ≤ fuel → value base 0 (reverse (map digit_char (digits base fuel n))) ≡ n
  unfolding digits
  value-digits zero n h = omega arith
  value-digits (suc fuel) n h = elim (Bool-cases (n == 0)) [
    | inl y ↦ rw y (ground arith)
    | inr p ↦ rw p (
        ap (value base 0)
          (reverse-cons (digit_char (n % base)) (map digit_char (digits base fuel (n / base))))
        ∙ value-append base 0 (reverse (map digit_char (digits base fuel (n / base)))) _
        ∙ rw
            (value-digits fuel (n / base) (divided-le fuel n h p), char_value-digit_char (n % base))
            (div-add-mod' n base))
  ]

  digits-IsDigit : (fuel n : ℕ) → All (IsDigit base) (reverse (map digit_char (digits base fuel n)))
  unfolding digits
  digits-IsDigit zero n = tt
  digits-IsDigit (suc fuel) n = elim (Bool-cases (n == 0)) [
    | inl y ↦ rw y tt
    | inr p ↦ rw p (
        subst (All (IsDigit base))
          (sym
            (reverse-cons (digit_char (n % base)) (map digit_char (digits base fuel (n / base)))))
          (All-push (IsDigit base) _ _ (digits-IsDigit fuel (n / base))
            (digit_char-IsDigit base (n % base) (grind arith))))
  ]

  -- A printed number consists of digits of its base, and reads back as the number.
  pub value-to_base :
      (n : ℕ) → (value base 0 (to_base base n) ≡ n) × All (IsDigit base) (to_base base n)
  unfolding to_base
  value-to_base n = elim (Bool-cases (n == 0)) [
    | inl y ↦ rw y (ground arith, (inl (omega arith), tt))
    | inr p ↦ rw p (value-digits n n (omega arith), digits-IsDigit n n)
  ]

-- The base-36 text of a sequence id consists of digits and capital letters, and reads back as the
-- number that it was made from.
pub value-to_base36 : (n : ℕ) → (value 36 0 (to_base36 n) ≡ n) × All (IsDigit 36) (to_base36 n)
unfolding to_base36
value-to_base36 n = value-to_base 36 (omega arith) n
