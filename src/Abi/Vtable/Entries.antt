-- ===== src/Abi/Vtable/Entries.antt =====
-- The entries of virtual tables (`slot_to_entry`, the entry builders and `vtable_itanium` of
-- vtable.rs), with the Itanium engines for `ctx.layout` and `ctx.mangle`. One fuel serves the
-- classes of the chain, the layouts and the types in a symbol.
use rustcc.Prelude.{ℕ, zero, suc, ◌+◌, ◌-◌, ◌^◌, ◌%◌, Bool, true, false, ltb, ◌==◌, if◌then◌else◌}
use rustcc.Prelude.{Option, none, some, List, [], ◌∷◌, ◌++◌}
use rustcc.Prelude.{Outcome, ok, panic, ◌>>=◌, or_panic}
use rustcc.Abi.Types.{ClassId, MethodId, MethodDef, LayoutError, Virtuality}
use rustcc.Abi.Types.{ℤ, pos, negsuc, Ident, TypeIds-discrete}
use rustcc.Abi.Target.{codes}
use rustcc.Abi.Context.{CxxTypeCtx, class_of}
use rustcc.Abi.Mangle.Digits.{decimal}
use rustcc.Abi.Mangle.Symbols.{Symbol, DtorVariant, mangle_itanium}
use rustcc.Abi.Vtable.Slots.{VSlot, VSlotKind, method_at, is_dtor, is_non_virtual, signatures_match}

pub data VTableEntry : Type 0 where
  vbase_offset offset_to_top : ℤ → VTableEntry
  rtti : List ℕ → VTableEntry
  function_pointer : List ℕ → MethodId → VTableEntry

pub record VTableSubTable : Type 0 where
  pub for_subobject : ClassId
  pub subobject_offset : ℕ
  pub entries : List VTableEntry
  pub address_point_offset : ℕ

pub record VTable : Type 0 where
  pub class : ClassId
  pub symbol : List ℕ
  pub sub_tables : List VTableSubTable

pub record PrimaryVtableSlot : Type 0 where
  pub name : Option Ident
  pub mangled_target : List ℕ
  pub is_dtor : Bool
  pub param_sig : Option (List ℕ)

abbrev pub Entry : Type 0
Entry = Outcome LayoutError VTableEntry

-- `n as i64`.
abbrev pub as_i64 : ℕ → ℤ
as_i64 n = if ltb n (2 ^ 63) then pos n else negsuc (2 ^ 64 - n - 1)

abbrev pub negate : ℤ → ℤ
negate (pos zero) = pos 0
negate (pos (suc n)) = negsuc n
negate (negsuc n) = pos (suc n)

-- `-(n as i64)`, which overflows on the least `i64`.
unfoldable pub negated : ℕ → Outcome LayoutError ℤ
negated n = if n == 2 ^ 63 then panic else ok (negate (as_i64 n))

-- The loop of `find_dtor_method_id`, from index `i` on.
unfoldable pub dtor_from : ℕ → List MethodDef → MethodId
dtor_from i [] = 0
dtor_from i (m ∷ ms) =
    let rest = dtor_from (i + 1) ms in if is_dtor m.special then i % 2 ^ 32 else rest

unfoldable pub find_dtor_method_id : CxxTypeCtx → ClassId → Outcome LayoutError MethodId
unfolding dtor_from
find_dtor_method_id ctx class = do def ← or_panic (class_of ctx class); ok (dtor_from 0 def.methods)

abbrev pub pure_virtual_symbol : List ℕ
pure_virtual_symbol = codes "__cxa_pure_virtual"

unfoldable pub method_target :
    CxxTypeCtx → ℕ → ClassId → MethodDef → Virtuality → Outcome LayoutError (List ℕ)
unfolding mangle_itanium
method_target ctx fuel class m Virtuality.pure_virtual = ok pure_virtual_symbol
method_target ctx fuel class m Virtuality.virtual =
    mangle_itanium ctx fuel (Symbol.method class m.name m.sig)
method_target ctx fuel class m Virtuality.non_virtual =
    mangle_itanium ctx fuel (Symbol.method class m.name m.sig)

unfoldable pub dtor_entry : CxxTypeCtx → ℕ → ClassId → DtorVariant → Entry
unfolding mangle_itanium find_dtor_method_id
dtor_entry ctx fuel class variant = do
  target ← mangle_itanium ctx fuel (Symbol.dtor class variant)
  id ← find_dtor_method_id ctx class
  ok (function_pointer target id)

unfoldable pub method_entry : CxxTypeCtx → ℕ → ClassId → Option ℕ → Entry
unfolding method_target
method_entry ctx fuel class overrider = do
  idx ← or_panic overrider
  m ← method_at ctx class idx
  target ← method_target ctx fuel class m m.virtuality
  ok (function_pointer target (idx % 2 ^ 32))

-- The cases of `slot_to_entry`.
unfoldable pub entry_of : CxxTypeCtx → ℕ → ClassId → Option ℕ → VSlotKind → Entry
unfolding dtor_entry method_entry
entry_of ctx fuel class overrider VSlotKind.dtor_d1 = dtor_entry ctx fuel class DtorVariant.d1
entry_of ctx fuel class overrider VSlotKind.dtor_d0 = dtor_entry ctx fuel class DtorVariant.d0
entry_of ctx fuel class overrider VSlotKind.method = method_entry ctx fuel class overrider

unfoldable pub slot_to_entry : CxxTypeCtx → ℕ → VSlot → Entry
unfolding entry_of
slot_to_entry ctx fuel slot =
    entry_of ctx fuel slot.overrider_class slot.overrider_method_idx slot.kind

-- The loop of `most_derived_override` over the methods of the class, from index `i` on.
unfoldable pub overriding_from : ℕ → MethodDef → List MethodDef → Option ℕ
unfolding signatures_match
overriding_from i orig [] = none
overriding_from i orig (m ∷ ms) =
    let rest = overriding_from (i + 1) orig ms in
    if is_non_virtual m.virtuality then rest else if signatures_match m orig then some i else rest

abbrev pub taken_over : ClassId → VSlot → Option ℕ → VSlot
taken_over most_derived slot none = slot
taken_over most_derived slot (some idx) = record slot {
  overrider_class = most_derived;
  overrider_method_idx = some idx;
}

unfoldable pub method_override : CxxTypeCtx → ClassId → VSlot → Option ℕ → Outcome LayoutError VSlot
unfolding overriding_from
method_override ctx most_derived slot none = ok slot
method_override ctx most_derived slot (some k) = do
  orig ← method_at ctx slot.originator_class k
  def ← or_panic (class_of ctx most_derived)
  ok (taken_over most_derived slot (overriding_from 0 orig def.methods))

-- The cases of `most_derived_override`.
unfoldable pub override_of : CxxTypeCtx → ClassId → VSlot → VSlotKind → Outcome LayoutError VSlot
unfolding method_override
override_of ctx most_derived slot VSlotKind.dtor_d1 =
    ok (record slot { overrider_class = most_derived; overrider_method_idx = none })
override_of ctx most_derived slot VSlotKind.dtor_d0 =
    ok (record slot { overrider_class = most_derived; overrider_method_idx = none })
override_of ctx most_derived slot VSlotKind.method =
    method_override ctx most_derived slot slot.originator_method_idx

unfoldable pub most_derived_override : CxxTypeCtx → ClassId → VSlot → Outcome LayoutError VSlot
unfolding override_of
most_derived_override ctx most_derived slot = override_of ctx most_derived slot slot.kind

-- `target.strip_prefix("_Z").unwrap_or(target)`.
unfoldable pub strip_mark : List ℕ → List ℕ
strip_mark (a ∷ b ∷ cs) = if a == b'_' then (if b == b'Z' then cs else a ∷ b ∷ cs) else a ∷ b ∷ cs
strip_mark cs = cs

unfoldable pub make_nv_thunk : List ℕ → ℤ → List ℕ
unfolding strip_mark decimal
make_nv_thunk target (pos n) = codes "_ZTh" ++ (decimal n ++ (b'_' ∷ strip_mark target))
make_nv_thunk target (negsuc n) = codes "_ZThn" ++ (decimal (suc n) ++ (b'_' ∷ strip_mark target))

abbrev pub is_pure_symbol : List ℕ → Bool
is_pure_symbol target = elim (TypeIds-discrete target pure_virtual_symbol) [
  | yes _ ↦ true
  | no _ ↦ false
]

-- `slot_to_secondary_entry` on the direct entry.
unfoldable pub thunked : ℕ → VTableEntry → Entry
unfolding make_nv_thunk negated
thunked base_offset (function_pointer target id) =
    if is_pure_symbol target
    then ok (function_pointer target id)
    else do adjust ← negated base_offset; ok (function_pointer (make_nv_thunk target adjust) id)
thunked base_offset (vbase_offset z) = ok (vbase_offset z)
thunked base_offset (offset_to_top z) = ok (offset_to_top z)
thunked base_offset (rtti name) = ok (rtti name)

unfoldable pub slot_to_secondary_entry : CxxTypeCtx → ℕ → VSlot → ℕ → Entry
unfolding slot_to_entry thunked
slot_to_secondary_entry ctx fuel slot base_offset =
    slot_to_entry ctx fuel slot >>= thunked base_offset
