-- ===== src/Abi/Vtable/Pointers.antt =====
-- The entries of slots are pointers to functions (`slot_to_entry` and `slot_to_secondary_entry` of
-- vtable.rs).
use rustcc.Prelude.{ℕ, suc, ◌≡◌, refl, sym, ◌∙◌, ap}
use rustcc.Prelude.{Bool-cases, ◌⊎◌, inl, inr, List, [], ◌∷◌, map, length}
use rustcc.Prelude.{ok, >>=-eq-ok, ok_inj, or_panic}
use mathlib.Core.Path.{subst}
use rustcc.Abi.Types.{ClassId, MethodId}
use rustcc.Abi.Context.{CxxTypeCtx}
use rustcc.Abi.Mangle.Symbols.{Symbol, mangle_itanium, DtorVariant}
use rustcc.Abi.Vtable.Slots.{VSlot, VSlotKind, method_at}
use rustcc.Abi.Vtable.Entries.{
  VTableEntry, function_pointer, Entry, negated, entry_of, dtor_entry, method_entry, method_target,
  slot_to_entry, thunked, slot_to_secondary_entry, most_derived_override, find_dtor_method_id,
  is_pure_symbol, make_nv_thunk,
}
use rustcc.Abi.Vtable.Tables.{lower, secondary_entry}

-- Entries that are pointers to functions, as many as there are slots.
abbrev pub Pointers : List VTableEntry → ℕ → Type 0
Pointers es n =
    (targets : List (List ℕ × MethodId)) × (es ≡ map (λ t. function_pointer t.0 t.1) targets)
    × (length targets ≡ n)

abbrev pub IsPointer : VTableEntry → Type 0
IsPointer e = (target : List ℕ) × (id : MethodId) × (e ≡ function_pointer target id)

dtor_entry-IsPointer :
    (ctx : CxxTypeCtx) (fuel : ℕ) (class : ClassId) (v : DtorVariant) (e : VTableEntry)
    → dtor_entry ctx fuel class v ≡ ok e
    → IsPointer e
unfolding dtor_entry
dtor_entry-IsPointer ctx fuel class v e h =
    let (target, a, b) = >>=-eq-ok (mangle_itanium ctx fuel (Symbol.dtor class v)) _ h in
    let (id, c, d) = >>=-eq-ok (find_dtor_method_id ctx class) _ b in (target, id, sym (ok_inj d))

pub slot_to_entry-IsPointer :
    (ctx : CxxTypeCtx) (fuel : ℕ) (slot : VSlot) (e : VTableEntry)
    → slot_to_entry ctx fuel slot ≡ ok e
    → IsPointer e
unfolding slot_to_entry entry_of method_entry
slot_to_entry-IsPointer ctx fuel slot e h = go slot.kind h
  where
    go :
        (kind : VSlotKind)
        → entry_of ctx fuel slot.overrider_class slot.overrider_method_idx kind ≡ ok e
        → IsPointer e
    go VSlotKind.dtor_d1 h = dtor_entry-IsPointer ctx fuel slot.overrider_class DtorVariant.d1 e h
    go VSlotKind.dtor_d0 h = dtor_entry-IsPointer ctx fuel slot.overrider_class DtorVariant.d0 e h
    go VSlotKind.method h =
        let (idx, a, b) = >>=-eq-ok (or_panic slot.overrider_method_idx) _ h in
        let (m, c, d) = >>=-eq-ok (method_at ctx slot.overrider_class idx) _ b in
        let (target, f, g) =
          >>=-eq-ok (method_target ctx fuel slot.overrider_class m m.virtuality) _ d in
        (target, _, sym (ok_inj g))

thunked-IsPointer :
    (off : ℕ) (target : List ℕ) (id : MethodId) (e : VTableEntry)
    → thunked off (function_pointer target id) ≡ ok e
    → IsPointer e
unfolding thunked
thunked-IsPointer off target id e h = elim (Bool-cases (is_pure_symbol target)) [
  | inl y ↦ (target, id, sym (ok_inj (rw y at h)))
  | inr n ↦
      let (adjust, a, b) = >>=-eq-ok (negated off) _ (rw n at h) in
      (make_nv_thunk target adjust, id, sym (ok_inj b))
]

pub secondary_entry-IsPointer :
    (ctx : CxxTypeCtx) (fuel : ℕ) (class : ClassId) (off : ℕ) (slot : VSlot) (e : VTableEntry)
    → secondary_entry ctx fuel class off slot ≡ ok e
    → IsPointer e
unfolding secondary_entry slot_to_secondary_entry
secondary_entry-IsPointer ctx fuel class off slot e h =
    let (s, a, b) = >>=-eq-ok (most_derived_override ctx class slot) _ h in
    let (direct, c, d) = >>=-eq-ok (slot_to_entry ctx fuel s) _ b in
    let (target, id, same) = slot_to_entry-IsPointer ctx fuel s direct c in
    thunked-IsPointer off target id e (subst (λ q. thunked off q ≡ ok e) same d)

pub lower-Pointers :
    (entry : VSlot → Entry) (slots : List VSlot) (es : List VTableEntry)
    → ((s : VSlot) (e : VTableEntry) → entry s ≡ ok e → IsPointer e)
    → lower entry slots ≡ ok es
    → Pointers es (length slots)
unfolding lower
lower-Pointers entry [] es k h = ([], sym (ok_inj h), refl)
lower-Pointers entry (s ∷ ss) es k h =
    let (e, a, b) = >>=-eq-ok (entry s) _ h in
    let (rest, c, d) = >>=-eq-ok (lower entry ss) _ b in
    let (target, id, same) = k s e a in
    let (targets, shape, count) = lower-Pointers entry ss rest k c in
    (
      (target, id) ∷ targets,
      sym (ok_inj d) ∙ ap (λ q. q ∷ rest) same ∙ ap (λ q. function_pointer target id ∷ q) shape,
      ap suc count,
    )

-- Each slot with the entry at its index.
abbrev pub Matches : (VSlot → VTableEntry → Type 0) → List VSlot → List VTableEntry → Type 0
Matches R [] [] = Unit
Matches R (s ∷ ss) (e ∷ es) = R s e × Matches R ss es
Matches R _ _ = ⊥

pub lower-Matches :
    (R : VSlot → VTableEntry → Type 0) (entry : VSlot → Entry) (slots : List VSlot)
    (es : List VTableEntry)
    → ((s : VSlot) (e : VTableEntry) → entry s ≡ ok e → R s e)
    → lower entry slots ≡ ok es
    → Matches R slots es
unfolding lower
lower-Matches R entry [] es k h = subst (Matches R []) (ok_inj h) tt
lower-Matches R entry (s ∷ ss) es k h =
    let (e, a, b) = >>=-eq-ok (entry s) _ h in
    let (rest, c, d) = >>=-eq-ok (lower entry ss) _ b in
    subst (Matches R (s ∷ ss)) (ok_inj d) (k s e a, lower-Matches R entry ss rest k c)

-- The entry of a slot in the sub-table of a base at `off`: the slot goes to the override of the
-- most derived class `class`, and where this class itself overrides it, the entry is its function
-- behind a thunk by `off`. An inherited function stands there directly or behind such a thunk.
abbrev pub IsSecondary : CxxTypeCtx → ℕ → ClassId → ℕ → VSlot → VTableEntry → Type 0
IsSecondary ctx fuel class off slot e =
    (s : VSlot) × (direct : VTableEntry) × (most_derived_override ctx class slot ≡ ok s)
    × (slot_to_entry ctx fuel s ≡ ok direct)
    × (s.overrider_class ≡ class → thunked off direct ≡ ok e)
    × ((e ≡ direct) ⊎ (thunked off direct ≡ ok e))

pub secondary_entry-IsSecondary :
    (ctx : CxxTypeCtx) (fuel : ℕ) (class : ClassId) (off : ℕ) (slot : VSlot) (e : VTableEntry)
    → secondary_entry ctx fuel class off slot ≡ ok e
    → IsSecondary ctx fuel class off slot e
unfolding secondary_entry slot_to_secondary_entry
secondary_entry-IsSecondary ctx fuel class off slot e h =
    let (s, a, b) = >>=-eq-ok (most_derived_override ctx class slot) _ h in
    let (direct, c, d) = >>=-eq-ok (slot_to_entry ctx fuel s) _ b in
    (s, direct, a, c, λ _. d, inr d)
