-- ===== src/Abi/Vtable/Thunk.antt =====
-- The symbols of thunks (`make_nv_thunk` of vtable.rs).
use rustcc.Prelude.{
  ℕ, zero, suc, ◌≡◌, refl, sym, ◌∙◌, ap, arith, Bool, true, false, ◌==◌, if◌then◌else◌,
}
use rustcc.Prelude.{Option, none, some, List, [], ◌∷◌, ◌++◌}
use mathlib.Core.Path.{subst}
use rustcc.Abi.Types.{ℤ, pos, negsuc}
use rustcc.Abi.Target.{codes}
use rustcc.Abi.Mangle.Digits.{decimal, to_base}
use rustcc.Abi.Mangle.Base36.{value-to_base}
use rustcc.Abi.Mangle.Reader.{read_number, read_number-append}
use rustcc.Abi.Mangle.ClassNames.{StartsNumber, digits-StartsNumber}
use rustcc.Abi.Vtable.Entries.{strip_mark, make_nv_thunk}

-- The adjustment and the function of a thunk: behind `_ZTh`, the sign, the number, and the symbol
-- without its mark.
abbrev signed : Bool → ℕ → ℤ
signed false n = pos n
signed true zero = pos 0
signed true (suc n) = negsuc n

abbrev marked : Bool → ℕ × List ℕ → Option (ℤ × List ℕ)
marked below (n, []) = none
marked below (n, c ∷ cs) = some (signed below n, codes "_Z" ++ cs)

unfoldable pub read_thunk : List ℕ → Option (ℤ × List ℕ)
unfolding read_number
read_thunk (_ ∷ _ ∷ _ ∷ _ ∷ c ∷ cs) =
    if c == b'n' then marked true (read_number 0 cs) else marked false (read_number 0 (c ∷ cs))
read_thunk _ = none

decimal-read :
    (n : ℕ) (body : List ℕ) → read_number 0 (decimal n ++ (b'_' ∷ body)) ≡ (n, b'_' ∷ body)
unfolding decimal
decimal-read n body =
    let (exact, ds) = value-to_base 10 (omega arith) n in
    read_number-append 0 (to_base 10 n) (b'_' ∷ body) ds refl ∙ ap (λ k. (k, b'_' ∷ body)) exact

decimal-StartsNumber : (n : ℕ) (rest : List ℕ) → StartsNumber (decimal n ++ rest)
unfolding decimal to_base
decimal-StartsNumber zero rest = (b'0', rest, refl, refl)
decimal-StartsNumber (suc n) rest =
    let (exact, ds) = value-to_base 10 (omega arith) (suc n) in
    digits-StartsNumber (to_base 10 (suc n)) rest (suc n) exact (omega arith) ds

read_thunk-number :
    (text : List ℕ)
    → StartsNumber text
    → read_thunk (codes "_ZTh" ++ text) ≡ marked false (read_number 0 text)
unfolding read_thunk
read_thunk-number text (c, cs, e, d) =
    let plus : (c == b'n') ≡ false = ground arith in
    subst (λ t. read_thunk (codes "_ZTh" ++ t) ≡ marked false (read_number 0 t)) (sym e)
      (rw plus refl)

-- The symbol of a thunk for a mangled function reads back as the adjustment, with its sign, and the
-- function.
pub read_thunk-make_nv_thunk :
    (body : List ℕ) (adjust : ℤ)
    → read_thunk (make_nv_thunk (codes "_Z" ++ body) adjust) ≡ some (adjust, codes "_Z" ++ body)
unfolding read_thunk make_nv_thunk strip_mark
read_thunk-make_nv_thunk body (pos n) =
    read_thunk-number (decimal n ++ (b'_' ∷ body)) (decimal-StartsNumber n (b'_' ∷ body))
    ∙ ap (marked false) (decimal-read n body)
read_thunk-make_nv_thunk body (negsuc n) = ap (marked true) (decimal-read (suc n) body)
