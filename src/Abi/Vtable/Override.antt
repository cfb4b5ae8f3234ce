-- ===== src/Abi/Vtable/Override.antt =====
-- The overriders of a secondary sub-table (`most_derived_override` of vtable.rs).
use rustcc.Prelude.{ℕ, zero, suc, ◌+◌, ◌<◌, ◌≡◌, refl, sym, ◌∙◌, ap, arith, true, false, inl, inr}
use rustcc.Prelude.{Bool-cases, Option, none, some, List, [], ◌∷◌, get_elem?, ok}
use rustcc.Prelude.{ok_inj}
use mathlib.Core.Path.{subst}
use mathlib.Core.Option.{some-injective}
use rustcc.Abi.Types.{ClassId, MethodDef, ClassDef}
use rustcc.Abi.Context.{CxxTypeCtx, class_of}
use rustcc.Abi.Vtable.Slots.{VSlot, VSlotKind, is_non_virtual, signatures_match, method_at}
use rustcc.Abi.Vtable.Entries.{
  overriding_from, taken_over, method_override, override_of, most_derived_override,
}

-- A virtual method with the signature of the originator.
abbrev pub Overrides : MethodDef → MethodDef → Type 0
Overrides orig m = (is_non_virtual m.virtuality ≡ false) × (signatures_match m orig ≡ true)

-- The first of the methods that overrides, if there is one.
abbrev pub IsFirst : MethodDef → List MethodDef → Option ℕ → Type 0
IsFirst orig ms none = (i : ℕ) (m : MethodDef) → get_elem? ms i ≡ some m → ¬ (Overrides orig m)
IsFirst orig ms (some k) =
    (m : MethodDef) × (get_elem? ms k ≡ some m)
    × Overrides orig m
    × ((i : ℕ) (n : MethodDef) → i < k → get_elem? ms i ≡ some n → ¬ (Overrides orig n))

abbrev shifted : ℕ → Option ℕ → Option ℕ
shifted i none = none
shifted i (some k) = some (i + k)

abbrev next : Option ℕ → Option ℕ
next none = none
next (some k) = some (suc k)

shifted-next : (i : ℕ) (o : Option ℕ) → shifted (i + 1) o ≡ shifted i (next o)
shifted-next i none = refl
shifted-next i (some k) = ap (λ n. some n) (omega arith)

IsFirst-later :
    (orig m : MethodDef) (ms : List MethodDef) (o : Option ℕ)
    → ¬ (Overrides orig m)
    → IsFirst orig ms o
    → IsFirst orig (m ∷ ms) (next o)
IsFirst-later orig m ms none ne h = none_later
  where
    none_later : (i : ℕ) (n : MethodDef) → get_elem? (m ∷ ms) i ≡ some n → ¬ (Overrides orig n)
    none_later zero n e o = ne (subst (Overrides orig) (sym (some-injective m n e)) o)
    none_later (suc i) n e o = h i n e o
IsFirst-later orig m ms (some k) ne (n, at, same, before) = (n, at, same, earlier)
  where
    earlier :
        (i : ℕ) (n : MethodDef) → i < suc k → get_elem? (m ∷ ms) i ≡ some n → ¬ (Overrides orig n)
    earlier zero n lt e o = ne (subst (Overrides orig) (sym (some-injective m n e)) o)
    earlier (suc i) n lt e o = before i n (omega arith) e o

overriding_from-IsFirst :
    (orig : MethodDef) (ms : List MethodDef) (i : ℕ)
    → (o : Option ℕ) × (overriding_from i orig ms ≡ shifted i o) × IsFirst orig ms o
unfolding overriding_from
overriding_from-IsFirst orig [] i = (none, refl, λ j m e _. absurd (ground arith))
overriding_from-IsFirst orig (m ∷ ms) i =
    let (o, e, first) = overriding_from-IsFirst orig ms (i + 1) in
    let later = e ∙ shifted-next i o in
    elim (Bool-cases (is_non_virtual m.virtuality)) [
      | inl y ↦ (next o, rw y later, IsFirst-later orig m ms o (λ v. ground (arith, y, v.0)) first)
      | inr n ↦ elim (Bool-cases (signatures_match m orig)) [
        | inl s ↦ (
          some 0,
          rw (n, s) (ap (λ k. some k) (omega arith)),
          (m, refl, (n, s), λ j q lt. absurd (omega arith)),
        )
        | inr s ↦
            (next o, rw (n, s) later, IsFirst-later orig m ms o (λ v. ground (arith, s, v.1)) first)
      ]
    ]

shifted-zero : (o : Option ℕ) → shifted 0 o ≡ o
shifted-zero none = refl
shifted-zero (some k) = ap (λ n. some n) (omega arith)

-- A method slot as the most derived class sees it: its kind and its originator stay; its overrider
-- is the first virtual method of the class with the signature of the originator, and stays what it
-- was if there is none.
pub most_derived_override-IsFirst :
    (ctx : CxxTypeCtx) (class : ClassId) (slot s : VSlot) (k : ℕ) (def : ClassDef)
    (orig : MethodDef)
    → slot.kind ≡ VSlotKind.method
    → slot.originator_method_idx ≡ some k
    → class_of ctx class ≡ some def
    → method_at ctx slot.originator_class k ≡ ok orig
    → most_derived_override ctx class slot ≡ ok s
    → (o : Option ℕ) × IsFirst orig def.methods o × (s ≡ taken_over class slot o)
unfolding most_derived_override override_of method_override
most_derived_override-IsFirst ctx class slot s k def orig kind idx found at h =
    let (o, e, first) = overriding_from-IsFirst orig def.methods 0 in
    let of_method : method_override ctx class slot slot.originator_method_idx ≡ ok s =
      subst (λ q. override_of ctx class slot q ≡ ok s) kind h in
    let of_index : method_override ctx class slot (some k) ≡ ok s =
      subst (λ q. method_override ctx class slot q ≡ ok s) idx of_method in
    (
      o,
      first,
      sym (ok_inj (rw (at, found) at of_index)) ∙ ap (taken_over class slot) (e ∙ shifted-zero o),
    )
