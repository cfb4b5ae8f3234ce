-- ===== src/Prelude/Lists.antt =====
-- Lists measured and indexed by native numbers, under the library's names, and predicates on them.
use Prim.Native.Nat.{ℕ, zero, suc, ◌+◌, ◌<◌}
use mathlib.Core.Path.{◌≡◌, refl, ap, sym, subst}
use mathlib.Core.Logic.{◌⊎◌, inl, inr}
use mathlib.Core.List.{List, [], ◌∷◌, ◌++◌}
use mathlib.Core.Option.{Option, none, some}
use native.Mathlib.Omega.{arith}

module _ {ℓ} {A : Type ℓ} where
  abbrev pub length : List A → ℕ
  length [] = 0
  length (x ∷ xs) = suc (length xs)

  abbrev pub get_elem? : List A → ℕ → Option A
  get_elem? [] i = none
  get_elem? (x ∷ xs) zero = some x
  get_elem? (x ∷ xs) (suc i) = get_elem? xs i

  -- A write out of bounds changes nothing.
  abbrev pub set : List A → ℕ → A → List A
  set [] i v = []
  set (x ∷ xs) zero v = v ∷ xs
  set (x ∷ xs) (suc i) v = x ∷ set xs i v

  -- `Vec::push`.
  abbrev pub push : List A → A → List A
  push xs x = xs ++ (x ∷ [])

  abbrev pub All {κ} : (A → Type κ) → List A → Type κ
  All P [] = Unit
  All P (x ∷ xs) = P x × All P xs

module _ {ℓ} {A : Type ℓ} where
  pub length-append : (xs ys : List A) → length (xs ++ ys) ≡ length xs + length ys
  length-append [] ys = omega arith
  length-append (x ∷ xs) ys = omega (arith, length-append xs ys)

  pub length-set : (xs : List A) (i : ℕ) (v : A) → length (set xs i v) ≡ length xs
  length-set [] i v = refl
  length-set (x ∷ xs) zero v = refl
  length-set (x ∷ xs) (suc i) v = ap suc (length-set xs i v)

  -- The element that a push adds stands at the old length.
  pub get_elem?-push_self : (xs : List A) (x : A) → get_elem? (push xs x) (length xs) ≡ some x
  get_elem?-push_self [] x = refl
  get_elem?-push_self (y ∷ ys) x = get_elem?-push_self ys x

  -- What stood in the list before a push keeps its index.
  pub get_elem?-append :
      (xs ys : List A) (i : ℕ) → i < length xs → get_elem? (xs ++ ys) i ≡ get_elem? xs i
  get_elem?-append [] ys i h = absurd (omega arith)
  get_elem?-append (x ∷ xs) ys zero h = refl
  get_elem?-append (x ∷ xs) ys (suc i) h = get_elem?-append xs ys i (omega arith)

  pub get_elem?-lt : (xs : List A) (i : ℕ) {x : A} → get_elem? xs i ≡ some x → i < length xs
  get_elem?-lt [] i h = ground arith
  get_elem?-lt (x ∷ xs) zero h = omega arith
  get_elem?-lt (x ∷ xs) (suc i) h = omega (arith, get_elem?-lt xs i h)

  pub get_elem?-some : (xs : List A) (i : ℕ) → i < length xs → (x : A) × (get_elem? xs i ≡ some x)
  get_elem?-some [] i h = absurd (omega arith)
  get_elem?-some (x ∷ xs) zero h = (x, refl)
  get_elem?-some (x ∷ xs) (suc i) h = get_elem?-some xs i (omega arith)

module _ {A : Type 0} where
  infix 40 ◌∈◌
  abbrev pub ◌∈◌ : A → List A → Type 0
  a ∈ [] = ⊥
  a ∈ x ∷ xs = (a ≡ x) ⊎ (a ∈ xs)

  pub mem-append_left : (xs ys : List A) (a : A) → a ∈ xs → a ∈ (xs ++ ys)
  mem-append_left [] ys a h = elim h [ ]
  mem-append_left (x ∷ xs) ys a (inl e) = inl e
  mem-append_left (x ∷ xs) ys a (inr h) = inr (mem-append_left xs ys a h)

  pub mem-append_right : (xs ys : List A) (a : A) → a ∈ ys → a ∈ (xs ++ ys)
  mem-append_right [] ys a h = h
  mem-append_right (x ∷ xs) ys a h = inr (mem-append_right xs ys a h)

  pub mem-append : (xs ys : List A) (a : A) → a ∈ (xs ++ ys) → (a ∈ xs) ⊎ (a ∈ ys)
  mem-append [] ys a h = inr h
  mem-append (x ∷ xs) ys a (inl e) = inl (inl e)
  mem-append (x ∷ xs) ys a (inr h) = elim (mem-append xs ys a h) [
    | inl m ↦ inl (inr m)
    | inr m ↦ inr m
  ]

  pub All-mem {κ} : (P : A → Type κ) (xs : List A) (a : A) → All P xs → a ∈ xs → P a
  All-mem P [] a h m = elim m [ ]
  All-mem P (x ∷ xs) a h (inl e) = subst P (sym e) h.0
  All-mem P (x ∷ xs) a h (inr m) = All-mem P xs a h.1 m
