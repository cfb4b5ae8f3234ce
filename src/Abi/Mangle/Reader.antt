-- ===== src/Abi/Mangle/Reader.antt =====
-- A reader of names: what the texts of `emit_source_name` and of a class path in mangle.rs say.
use rustcc.Prelude.{ℕ, zero, suc, ◌+◌, ◌-◌, ◌*◌, ◌≡◌, refl, ◌∙◌, ap, arith, Bool, true, false}
use rustcc.Prelude.{◌&&◌, Option, none, some, List, [], ◌∷◌, ◌++◌, length, leb, if◌then◌else◌, All}
use rustcc.Prelude.{inl, inr}
use mathlib.Core.List.{append_assoc}
use rustcc.Abi.Types.{Ident}
use rustcc.Abi.Mangle.Digits.{decimal, source_name, to_base}
use rustcc.Abi.Mangle.Base36.{IsDigit, value, char_value, value-to_base}

abbrev pub is_digit : ℕ → Bool
is_digit c = leb b'0' c && leb c b'9'

-- The number at the head of a text, behind `acc`, and the text behind it.
unfoldable pub read_number : ℕ → List ℕ → ℕ × List ℕ
read_number acc [] = (acc, [])
read_number acc (c ∷ cs) =
    let rest = read_number (acc * 10 + (c - b'0')) cs in if is_digit c then rest else (acc, c ∷ cs)

-- The first `n` bytes of a text that has so many, and the text behind them.
unfoldable pub split_at : ℕ → List ℕ → Option (List ℕ × List ℕ)
split_at zero cs = some ([], cs)
split_at (suc n) [] = none
split_at (suc n) (c ∷ cs) = elim (split_at n cs) [ none ↦ none | some (xs, ys) ↦ some (c ∷ xs, ys) ]

-- A length and as many bytes.
unfoldable pub read_name : List ℕ → Option (Ident × List ℕ)
unfolding read_number split_at
read_name cs = split_at (read_number 0 cs).0 (read_number 0 cs).1

-- A text that no number continues in.
abbrev pub EndsNumber : List ℕ → Type 0
EndsNumber [] = Unit
EndsNumber (c ∷ cs) = is_digit c ≡ false

-- An identifier is not empty and does not start with a digit.
abbrev pub IsName : Ident → Type 0
IsName [] = ⊥
IsName (c ∷ cs) = is_digit c ≡ false

pub read_number-append :
    (acc : ℕ) (ds cs : List ℕ)
    → All (IsDigit 10) ds
    → EndsNumber cs
    → read_number acc (ds ++ cs) ≡ (value 10 acc ds, cs)
unfolding read_number
read_number-append acc [] [] h e = refl
read_number-append acc [] (c ∷ cs) h e = rw e refl
read_number-append acc (d ∷ ds) cs (inl (lo, hi, _), h) e =
    let digit : is_digit d ≡ true = ground arith in
    let same : d - b'0' ≡ char_value d = ground arith in
    rw digit (
      read_number-append (acc * 10 + (d - b'0')) ds cs h e
      ∙ ap (λ v. (value 10 (acc * 10 + v) ds, cs)) same)
read_number-append acc (d ∷ ds) cs (inr (lo, hi), h) e = absurd (omega arith)

split_at-append : (xs ys : List ℕ) → split_at (length xs) (xs ++ ys) ≡ some (xs, ys)
unfolding split_at
split_at-append [] ys = refl
split_at-append (x ∷ xs) ys = rw (split_at-append xs ys) refl

EndsNumber-append : (id rest : List ℕ) → IsName id → EndsNumber (id ++ rest)
EndsNumber-append [] rest h = elim h [ ]
EndsNumber-append (c ∷ cs) rest h = h

-- What `emit_source_name` writes for an identifier reads back as the identifier, whatever text
-- follows.
pub read_name-source_name :
    (id rest : List ℕ) → IsName id → read_name (source_name id ++ rest) ≡ some (id, rest)
unfolding read_name source_name decimal
read_name-source_name id rest h =
    let (exact, ds) = value-to_base 10 (omega arith) (length id) in
    let split : read_number 0 ((to_base 10 (length id) ++ id) ++ rest) ≡ (length id, id ++ rest) =
      ap (read_number 0) (append_assoc (to_base 10 (length id)) id rest)
      ∙ read_number-append 0 (to_base 10 (length id)) (id ++ rest) ds (EndsNumber-append id rest h)
      ∙ ap (λ n. (n, id ++ rest)) exact in
    rw split (split_at-append id rest)
