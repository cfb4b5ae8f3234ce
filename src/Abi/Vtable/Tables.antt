-- ===== src/Abi/Vtable/Tables.antt =====
-- Virtual tables (`vtable_itanium`, `primary_vtable_slots` and the sub-table builders of vtable.rs).
use rustcc.Prelude.{ℕ, ◌+◌, ◌*◌, Bool, true, false, not, ◌==◌, if◌then◌else◌}
use rustcc.Prelude.{Option, none, some, List, [], ◌∷◌, ◌++◌, map, reverse, length, push}
use rustcc.Prelude.{Outcome, ok, err, panic, stuck, ◌>>=◌, or_panic}
use rustcc.Abi.Types.{ClassId, MethodName, LayoutError, Ident, pos}
use rustcc.Abi.Context.{CxxTypeCtx, class_of}
use rustcc.Abi.Layout.State.{RecordLayout}
use rustcc.Abi.Layout.Classify.{pick_primary_base}
use rustcc.Abi.Layout.Place.{pointer_size}
use rustcc.Abi.Layout.Compute.{compute_layout}
use rustcc.Abi.Mangle.Symbols.{Symbol, mangle_itanium, mangle_itanium_params}
use rustcc.Abi.Vtable.Slots.{VSlot, VSlotKind, method_at, build_virtual_slots}
use rustcc.Abi.Vtable.Entries.{
  VTableEntry, vbase_offset, offset_to_top, rtti, function_pointer, VTableSubTable, VTable,
  PrimaryVtableSlot, Entry, as_i64, negated, slot_to_entry, most_derived_override,
  slot_to_secondary_entry,
}

abbrev pub Offsets : Type 0
Offsets = List (ClassId × ℕ)

-- What the tables take from `ctx.layout(class)`: an error counts as a class without bases.
abbrev pub offsets_or_none :
    (RecordLayout → Offsets) → Outcome LayoutError RecordLayout → Outcome LayoutError Offsets
offsets_or_none part (ok l) = ok (part l)
offsets_or_none part (err e) = ok []
offsets_or_none part panic = panic
offsets_or_none part stuck = stuck

unfoldable pub virtual_bases : CxxTypeCtx → ℕ → ClassId → Outcome LayoutError Offsets
unfolding compute_layout
virtual_bases ctx fuel class =
    offsets_or_none (λ l. l.virtual_base_offsets) (compute_layout ctx fuel class)

unfoldable pub direct_bases : CxxTypeCtx → ℕ → ClassId → Outcome LayoutError Offsets
unfolding compute_layout
direct_bases ctx fuel class = offsets_or_none (λ l. l.base_offsets) (compute_layout ctx fuel class)

abbrev pub Entries : Type 0
Entries = Outcome LayoutError (List VTableEntry)

-- The entries of slots, in turn.
unfoldable pub lower : (VSlot → Entry) → List VSlot → Entries
lower entry [] = ok []
lower entry (s ∷ ss) = do e ← entry s; es ← lower entry ss; ok (e ∷ es)

unfoldable pub rtti_symbol : CxxTypeCtx → ℕ → ClassId → Outcome LayoutError (List ℕ)
unfolding mangle_itanium
rtti_symbol ctx fuel class = mangle_itanium ctx fuel (Symbol.type_info class)

unfoldable pub build_primary_entries : CxxTypeCtx → ℕ → ClassId → Entries
unfolding virtual_bases rtti_symbol build_virtual_slots lower slot_to_entry
build_primary_entries ctx fuel class = do
  vbases ← virtual_bases ctx fuel class
  name ← rtti_symbol ctx fuel class
  slots ← build_virtual_slots ctx fuel class
  es ← lower (slot_to_entry ctx fuel) slots
  ok (
      map (λ v. vbase_offset (as_i64 v.1)) (reverse vbases)
      ++ (offset_to_top (pos 0) ∷ rtti name ∷ es))

unfoldable pub secondary_entry : CxxTypeCtx → ℕ → ClassId → ℕ → VSlot → Entry
unfolding most_derived_override slot_to_secondary_entry
secondary_entry ctx fuel most_derived base_offset slot = do
  s ← most_derived_override ctx most_derived slot
  slot_to_secondary_entry ctx fuel s base_offset

unfoldable pub build_secondary_entries : CxxTypeCtx → ℕ → ClassId → ClassId → ℕ → Entries
unfolding negated rtti_symbol build_virtual_slots lower secondary_entry
build_secondary_entries ctx fuel most_derived base base_offset = do
  top ← negated base_offset
  name ← rtti_symbol ctx fuel most_derived
  slots ← build_virtual_slots ctx fuel base
  es ← lower (secondary_entry ctx fuel most_derived base_offset) slots
  ok (offset_to_top top ∷ rtti name ∷ es)

-- The two variables of `vtable_itanium`.
pub record TableState : Type 0 where
  pub sub_tables : List VTableSubTable
  pub running_offset : ℕ

abbrev pub Tabulate : Type 0
Tabulate = TableState → Outcome LayoutError TableState

unfoldable pub add_sub_table : CxxTypeCtx → ℕ → ClassId → ClassId → ℕ → Tabulate
unfolding build_secondary_entries pointer_size
add_sub_table ctx fuel class base offset st = do
  es ← build_secondary_entries ctx fuel class base offset
  ok (record {
    sub_tables = push st.sub_tables (record {
      for_subobject = base;
      subobject_offset = offset;
      entries = es;
      address_point_offset = st.running_offset + 2 * pointer_size ctx;
    });
    running_offset = st.running_offset + length es * pointer_size ctx;
  })

-- One round of either loop: a base that is not polymorphic has no sub-table.
unfoldable pub add_polymorphic : CxxTypeCtx → ℕ → ClassId → ClassId → ℕ → Tabulate
unfolding add_sub_table
add_polymorphic ctx fuel class base offset st = do
  def ← or_panic (class_of ctx base)
  if not def.is_polymorphic then ok st else add_sub_table ctx fuel class base offset st

abbrev pub is_primary : Option ClassId → ClassId → Bool
is_primary none base = false
is_primary (some primary) base = base == primary

unfoldable pub add_bases : CxxTypeCtx → ℕ → ClassId → Option ClassId → Offsets → Tabulate
unfolding add_polymorphic
add_bases ctx fuel class primary [] st = ok st
add_bases ctx fuel class primary ((base, offset) ∷ bases) st = do
  st' ← (if is_primary primary base then ok st else add_polymorphic ctx fuel class base offset st)
  add_bases ctx fuel class primary bases st'

unfoldable pub first_table : CxxTypeCtx → ℕ → ClassId → Outcome LayoutError TableState
unfolding build_primary_entries virtual_bases pointer_size
first_table ctx fuel class = do
  vbases ← virtual_bases ctx fuel class
  es ← build_primary_entries ctx fuel class
  ok (record {
    sub_tables =
        record {
          for_subobject = class;
          subobject_offset = 0;
          entries = es;
          address_point_offset = (length vbases + 2) * pointer_size ctx;
        }
        ∷ [];
    running_offset = length es * pointer_size ctx;
  })

unfoldable pub polymorphic_table : CxxTypeCtx → ℕ → ClassId → Outcome LayoutError VTable
unfolding first_table pick_primary_base direct_bases virtual_bases add_bases mangle_itanium
polymorphic_table ctx fuel class = do
  st ← first_table ctx fuel class
  def ← or_panic (class_of ctx class)
  primary ← pick_primary_base ctx def
  bases ← direct_bases ctx fuel class
  vbases ← virtual_bases ctx fuel class
  st1 ← add_bases ctx fuel class primary bases st
  st2 ← add_bases ctx fuel class none vbases st1
  symbol ← mangle_itanium ctx fuel (Symbol.vtable class)
  ok (record { class = class; symbol = symbol; sub_tables = st2.sub_tables })

unfoldable pub vtable_itanium : CxxTypeCtx → ℕ → ClassId → Outcome LayoutError (Option VTable)
unfolding polymorphic_table
vtable_itanium ctx fuel class = do
  def ← or_panic (class_of ctx class)
  if not def.is_polymorphic
      then ok none
      else (polymorphic_table ctx fuel class >>= λ t. ok (some t))

unfoldable pub method_ident : MethodName → Option Ident
method_ident (MethodName.ident i) = some i
method_ident (MethodName.operator op) = none
method_ident (MethodName.conversion_to ty) = none

-- The name and the parameters of the declaration that introduced a method slot.
unfoldable pub declared :
    CxxTypeCtx → ℕ → ClassId → Option ℕ → Outcome LayoutError (Option Ident × Option (List ℕ))
unfolding method_ident mangle_itanium_params
declared ctx fuel class none = ok (none, none)
declared ctx fuel class (some i) = do
  m ← method_at ctx class i
  params ← mangle_itanium_params ctx fuel m.sig
  ok (method_ident m.name, some params)

unfoldable pub primary_slot :
    CxxTypeCtx → ℕ → VSlot → List ℕ → VSlotKind → Outcome LayoutError PrimaryVtableSlot
unfolding declared
primary_slot ctx fuel slot target VSlotKind.dtor_d1 =
    ok (record { name = none; mangled_target = target; is_dtor = true; param_sig = none })
primary_slot ctx fuel slot target VSlotKind.dtor_d0 =
    ok (record { name = none; mangled_target = target; is_dtor = true; param_sig = none })
primary_slot ctx fuel slot target VSlotKind.method = do
  d ← declared ctx fuel slot.originator_class slot.originator_method_idx
  ok (record { name = d.0; mangled_target = target; is_dtor = false; param_sig = d.1 })

abbrev pub PrimarySlots : Type 0
PrimarySlots = Outcome LayoutError (List PrimaryVtableSlot)

-- One round of the loop of `primary_vtable_slots`: only a function pointer gives a slot.
unfoldable pub primary_slot_of : CxxTypeCtx → ℕ → VSlot → VTableEntry → PrimarySlots → PrimarySlots
unfolding primary_slot
primary_slot_of ctx fuel slot (function_pointer target id) rest = do
  p ← primary_slot ctx fuel slot target slot.kind
  ps ← rest
  ok (p ∷ ps)
primary_slot_of ctx fuel slot (vbase_offset z) rest = rest
primary_slot_of ctx fuel slot (offset_to_top z) rest = rest
primary_slot_of ctx fuel slot (rtti name) rest = rest

unfoldable pub primary_slots : CxxTypeCtx → ℕ → List VSlot → PrimarySlots
unfolding slot_to_entry primary_slot_of
primary_slots ctx fuel [] = ok []
primary_slots ctx fuel (s ∷ ss) = do
  e ← slot_to_entry ctx fuel s
  primary_slot_of ctx fuel s e (primary_slots ctx fuel ss)

unfoldable pub primary_vtable_slots :
    CxxTypeCtx → ℕ → ClassId → Outcome LayoutError (Option (List PrimaryVtableSlot))
unfolding build_virtual_slots primary_slots
primary_vtable_slots ctx fuel class = do
  def ← or_panic (class_of ctx class)
  if not def.is_polymorphic then ok none else do
    slots ← build_virtual_slots ctx fuel class
    ps ← primary_slots ctx fuel slots
    ok (some ps)
