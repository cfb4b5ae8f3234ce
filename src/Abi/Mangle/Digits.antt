-- ===== src/Abi/Mangle/Digits.antt =====
-- Numbers in text (`to_base36` and `emit_source_name` of mangle.rs).
use rustcc.Prelude.{
  ℕ, zero, suc, ◌+◌, ◌-◌, ◌/◌, ◌%◌, List, [], ◌∷◌, ◌++◌, map, reverse, length, ltb, ◌==◌,
}
use rustcc.Prelude.{if◌then◌else◌}
use rustcc.Abi.Types.{Ident, ℤ, pos, negsuc}

-- `if d < 10 { b'0' + d } else { b'A' + d - 10 }`.
abbrev pub digit_char : ℕ → ℕ
digit_char d = if ltb d 10 then b'0' + d else b'A' + d - 10

-- `while n > 0 { digits.push(n % base); n /= base }`, the last digit first. A round divides `n`, so
-- `n` rounds are enough.
unfoldable pub digits : ℕ → ℕ → ℕ → List ℕ
digits base zero n = []
digits base (suc fuel) n =
    let rest = digits base fuel (n / base) in if n == 0 then [] else n % base ∷ rest

unfoldable pub to_base : ℕ → ℕ → List ℕ
unfolding digits
to_base base n = if n == 0 then b'0' ∷ [] else reverse (map digit_char (digits base n n))

unfoldable pub to_base36 : ℕ → List ℕ
unfolding to_base
to_base36 n = to_base 36 n

-- `write!(out, "{}", n)`.
unfoldable pub decimal : ℕ → List ℕ
unfolding to_base
decimal n = to_base 10 n

unfoldable pub source_name : Ident → List ℕ
unfolding decimal
source_name ident = decimal (length ident) ++ ident

-- The number of an `<expr-primary>`: `n` and the magnitude below zero.
unfoldable pub number : ℤ → List ℕ
unfolding decimal
number (pos n) = decimal n
number (negsuc n) = b'n' ∷ decimal (suc n)
