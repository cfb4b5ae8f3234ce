-- ===== src/Prelude/Assoc.antt =====
-- A hash map as an association list: `insert` replaces the entry of its key, `remove` drops every
-- entry of its key. Only membership and lookup are observed, never an order.
use Prim.Native.Nat.{ℕ}
use mathlib.Core.Path.{◌≡◌, refl}
use mathlib.Core.Logic.{◌↔◌}
use mathlib.Core.Bool.{Bool, true, ◌&&◌}
use mathlib.Core.Option.{Option, none, some}
use mathlib.Core.List.{List, [], ◌∷◌}
use native.Mathlib.Omega.{arith}
use rustcc.Prelude.Tests.{if◌then◌else◌, ◌==◌ as nat_beq, ==_iff}

-- The `Eq` of a key type.
pub record Key (K : Type 0) : Type 0 where
  pub beq : K → K → Bool
  pub beq_iff : (a b : K) → (beq a b ≡ true) ↔ (a ≡ b)

instance abbrev pub nat_key : Key ℕ
nat_key = record { beq = nat_beq; beq_iff = ==_iff }

abbrev pub pair_beq : ℕ × ℕ → ℕ × ℕ → Bool
pair_beq (a, b) (c, d) = nat_beq a c && nat_beq b d

pub pair_beq_iff : (p q : ℕ × ℕ) → (pair_beq p q ≡ true) ↔ (p ≡ q)
pair_beq_iff (a, b) (c, d) = ground arith

instance abbrev pub pair_key : Key (ℕ × ℕ)
pair_key = record { beq = pair_beq; beq_iff = pair_beq_iff }

module _ {K V : Type 0} ⦃k : Key K⦄ where
  unfoldable pub lookup : K → List (K × V) → Option V
  lookup a [] = none
  lookup a ((b, v) ∷ m) = if k.beq b a then some v else lookup a m

  unfoldable pub insert : K → V → List (K × V) → List (K × V)
  insert a v [] = (a, v) ∷ []
  insert a v ((b, w) ∷ m) = if k.beq b a then (a, v) ∷ m else (b, w) ∷ insert a v m

  unfoldable pub remove : K → List (K × V) → List (K × V)
  remove a [] = []
  remove a ((b, w) ∷ m) = let rest = remove a m in if k.beq b a then rest else (b, w) ∷ rest

  pub lookup-insert :
      (a b : K) (v : V) (m : List (K × V))
      → lookup b (insert a v m) ≡ (if k.beq a b then some v else lookup b m)
  unfolding lookup insert
  lookup-insert a b v [] = refl
  lookup-insert a b v ((c, w) ∷ m) =
      ground (arith, k.beq_iff a b, k.beq_iff c a, k.beq_iff c b, lookup-insert a b v m)

  pub lookup-remove :
      (a b : K) (m : List (K × V))
      → lookup b (remove a m) ≡ (if k.beq a b then none else lookup b m)
  unfolding lookup remove
  lookup-remove a b [] = ground arith
  lookup-remove a b ((c, w) ∷ m) =
      ground (arith, k.beq_iff a b, k.beq_iff c a, k.beq_iff c b, lookup-remove a b m)
