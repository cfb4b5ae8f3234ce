-- ===== src/Abi/Vtable/Targets.antt =====
-- `primary_vtable_slots` against the primary sub-table (vtable.rs): two walks over the same slots.
use rustcc.Prelude.{ℕ, ◌≡◌, refl, sym, ◌∙◌, ap, not, Bool-cases, inl, inr, some}
use rustcc.Prelude.{List, [], ◌∷◌, ◌++◌, map, reverse, ok, >>=-eq-ok, ok_inj, or_panic}
use mathlib.Core.Path.{subst}
use mathlib.Core.Option.{some-injective}
use rustcc.Abi.Types.{ClassId, pos}
use rustcc.Abi.Context.{CxxTypeCtx, class_of}
use rustcc.Abi.Vtable.Slots.{VSlot, VSlotKind, build_virtual_slots}
use rustcc.Abi.Vtable.Entries.{
  VTableEntry, vbase_offset, offset_to_top, rtti, function_pointer, PrimaryVtableSlot, as_i64,
  slot_to_entry,
}
use rustcc.Abi.Vtable.Tables.{
  Offsets, virtual_bases, lower, rtti_symbol, build_primary_entries, declared, primary_slot,
  primary_slot_of, primary_slots, primary_vtable_slots,
}
use rustcc.Abi.Vtable.Pointers.{slot_to_entry-IsPointer}

-- The symbols that the entries of a table point to.
unfoldable pub targets : List VTableEntry → List (List ℕ)
targets [] = []
targets (function_pointer target id ∷ es) = target ∷ targets es
targets (vbase_offset z ∷ es) = targets es
targets (offset_to_top z ∷ es) = targets es
targets (rtti name ∷ es) = targets es

targets-vbases :
    (vs : Offsets) (es : List VTableEntry)
    → targets (map (λ v. vbase_offset (as_i64 v.1)) vs ++ es) ≡ targets es
unfolding targets
targets-vbases [] es = refl
targets-vbases (v ∷ vs) es = targets-vbases vs es

primary_slot-target :
    (ctx : CxxTypeCtx) (fuel : ℕ) (slot : VSlot) (target : List ℕ) (kind : VSlotKind)
    (p : PrimaryVtableSlot)
    → primary_slot ctx fuel slot target kind ≡ ok p
    → p.mangled_target ≡ target
unfolding primary_slot
primary_slot-target ctx fuel slot target VSlotKind.dtor_d1 p h =
    ap (λ q. q.mangled_target) (sym (ok_inj h))
primary_slot-target ctx fuel slot target VSlotKind.dtor_d0 p h =
    ap (λ q. q.mangled_target) (sym (ok_inj h))
primary_slot-target ctx fuel slot target VSlotKind.method p h =
    let (d, a, b) =
      >>=-eq-ok (declared ctx fuel slot.originator_class slot.originator_method_idx) _ h in
    ap (λ q. q.mangled_target) (sym (ok_inj b))

primary_slots-targets :
    (ctx : CxxTypeCtx) (fuel : ℕ) (slots : List VSlot) (ps : List PrimaryVtableSlot)
    (es : List VTableEntry)
    → primary_slots ctx fuel slots ≡ ok ps
    → lower (slot_to_entry ctx fuel) slots ≡ ok es
    → map (λ p. p.mangled_target) ps ≡ targets es
unfolding primary_slots lower primary_slot_of targets
primary_slots-targets ctx fuel [] ps es h l =
    ap (map (λ p. p.mangled_target)) (sym (ok_inj h)) ∙ ap targets (ok_inj l)
primary_slots-targets ctx fuel (s ∷ ss) ps es h l =
    let (e, a, b) = >>=-eq-ok (slot_to_entry ctx fuel s) _ h in
    let (e', c, d) = >>=-eq-ok (slot_to_entry ctx fuel s) _ l in
    let (rest, f, g) = >>=-eq-ok (lower (slot_to_entry ctx fuel) ss) _ d in
    let (target, id, pointer) = slot_to_entry-IsPointer ctx fuel s e a in
    let same : e' ≡ function_pointer target id = ok_inj (sym c ∙ a) ∙ pointer in
    let (p, i, j) =
      >>=-eq-ok (primary_slot ctx fuel s target s.kind) _
        (subst (λ q. primary_slot_of ctx fuel s q (primary_slots ctx fuel ss) ≡ ok ps) pointer b) in
    let (qs, k, m) = >>=-eq-ok (primary_slots ctx fuel ss) _ j in
    ap (map (λ p. p.mangled_target)) (sym (ok_inj m))
    ∙ ap (λ t. t ∷ map (λ p. p.mangled_target) qs)
        (primary_slot-target ctx fuel s target s.kind p i)
    ∙ ap (λ ts. target ∷ ts) (primary_slots-targets ctx fuel ss qs rest k f)
    ∙ ap (λ q. targets (q ∷ rest)) (sym same)
    ∙ ap targets (ok_inj g)

-- Where the slots of a class and the entries of its primary sub-table are returned, the slots name
-- exactly the functions of the sub-table, in its order.
pub primary_vtable_slots-targets :
    (ctx : CxxTypeCtx) (fuel : ℕ) (class : ClassId) (ps : List PrimaryVtableSlot)
    (es : List VTableEntry)
    → primary_vtable_slots ctx fuel class ≡ ok (some ps)
    → build_primary_entries ctx fuel class ≡ ok es
    → map (λ p. p.mangled_target) ps ≡ targets es
unfolding primary_vtable_slots build_primary_entries targets
primary_vtable_slots-targets ctx fuel class ps es h b =
    let (vbases, a, b1) = >>=-eq-ok (virtual_bases ctx fuel class) _ b in
    let (name, c, b2) = >>=-eq-ok (rtti_symbol ctx fuel class) _ b1 in
    let (slots, d, b3) = >>=-eq-ok (build_virtual_slots ctx fuel class) _ b2 in
    let (fs, e, b4) = >>=-eq-ok (lower (slot_to_entry ctx fuel) slots) _ b3 in
    let (def, f, h1) = >>=-eq-ok (or_panic (class_of ctx class)) _ h in
    elim (Bool-cases (not def.is_polymorphic)) [
      | inl y ↦ cc
      | inr n ↦
          let (slots', g, h2) = >>=-eq-ok (build_virtual_slots ctx fuel class) _ (rw n at h1) in
          let (qs, i, h3) = >>=-eq-ok (primary_slots ctx fuel slots') _ h2 in
          let same : slots' ≡ slots = ok_inj (sym g ∙ d) in
          ap (map (λ p. p.mangled_target)) (sym (some-injective qs ps (ok_inj h3)))
          ∙ primary_slots-targets ctx fuel slots qs fs (ap (primary_slots ctx fuel) (sym same) ∙ i)
              e
          ∙ sym (targets-vbases (reverse vbases) (offset_to_top (pos 0) ∷ rtti name ∷ fs))
          ∙ ap targets (ok_inj b4)
    ]
