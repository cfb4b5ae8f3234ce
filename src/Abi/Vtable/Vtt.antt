-- ===== src/Abi/Vtable/Vtt.antt =====
-- crates/rustc_abi_cxx/src/vtt.rs: the table of tables of a class with virtual bases, and its
-- construction tables. The calls of `ctx.layout`, `ctx.mangle` and `ctx.vtable` stand behind the
-- test of the flavour, so they are the Itanium engines.
pub mod Counts
pub mod Entries
pub mod Valid
mod Tests
use rustcc.Prelude.{
  ℕ, zero, suc, ◌+◌, Bool, true, false, not, ◌==◌, if◌then◌else◌, Option, none, some,
}
use rustcc.Prelude.{List, [], ◌∷◌, ◌++◌, length, Outcome, ok, ◌>>=◌, or_panic}
use rustcc.Abi.Types.{ClassId, BaseSpec, LayoutError}
use rustcc.Abi.Target.{AbiFlavor, codes}
use rustcc.Abi.Context.{CxxTypeCtx, class_of}
use rustcc.Abi.Layout.Classify.{has_virtual_base_chain, collect_virtual_bases}
use rustcc.Abi.Mangle.Digits.{decimal}
use rustcc.Abi.Mangle.Symbols.{Symbol, mangle_itanium}
use rustcc.Abi.Vtable.Entries.{VTableSubTable, VTable}
use rustcc.Abi.Vtable.Tables.{Offsets, direct_bases, vtable_itanium}

pub data VttVtableRef : Type 0 where
  most_derived : VttVtableRef
  construction : ClassId → ℕ → VttVtableRef

pub record VttEntry : Type 0 where
  pub vtable : VttVtableRef
  pub sub_table : ℕ

pub record Vtt : Type 0 where
  pub class : ClassId
  pub symbol : List ℕ
  pub entries : List VttEntry

pub record ConstructionVtable : Type 0 where
  pub symbol : List ℕ
  pub base : ClassId
  pub offset : ℕ

abbrev pub is_itanium : AbiFlavor → Bool
is_itanium AbiFlavor.itanium = true
is_itanium AbiFlavor.msvc = false

unfoldable pub strip_prefix : List ℕ → List ℕ → Option (List ℕ)
strip_prefix [] text = some text
strip_prefix (p ∷ ps) [] = none
strip_prefix (p ∷ ps) (c ∷ cs) = let rest = strip_prefix ps cs in if p == c then rest else none

abbrev pub or_whole : List ℕ → Option (List ℕ) → List ℕ
or_whole text none = text
or_whole text (some rest) = rest

unfoldable pub vtable_class_mangled : CxxTypeCtx → ℕ → ClassId → Outcome LayoutError (List ℕ)
unfolding mangle_itanium strip_prefix
vtable_class_mangled ctx fuel class = do
  v ← mangle_itanium ctx fuel (Symbol.vtable class)
  ok (or_whole v (strip_prefix (codes "_ZTV") v))

unfoldable pub offset_of : ClassId → Offsets → ℕ
offset_of id [] = 0
offset_of id ((c, o) ∷ rest) = if c == id then o else offset_of id rest

-- The sub-tables from number `i` on, `count` of them, of a construction table.
unfoldable pub construction_entries : ClassId → ℕ → ℕ → ℕ → List VttEntry
construction_entries base offset i zero = []
construction_entries base offset i (suc count) =
    record { vtable = construction base offset; sub_table = i }
    ∷ construction_entries base offset (i + 1) count

abbrev pub VttEntries : Type 0
VttEntries = Outcome LayoutError (List VttEntry)

-- The entries of one direct base.
unfoldable pub base_entries : CxxTypeCtx → ℕ → Offsets → ClassId → VttEntries
unfolding construction_entries offset_of
base_entries ctx fuel offsets base = do
  vbases ← collect_virtual_bases ctx fuel base
  ok (construction_entries base (offset_of base offsets) 0 (suc (length vbases)))

-- A direct base has a construction table if it is not virtual and has virtual bases itself.
unfoldable pub needs_construction : CxxTypeCtx → ℕ → BaseSpec → Outcome LayoutError Bool
needs_construction ctx fuel b =
    if b.is_virtual then ok false else has_virtual_base_chain ctx fuel b.class

-- Step 2 of `vtt`.
unfoldable pub secondary_vtts : CxxTypeCtx → ℕ → Offsets → List BaseSpec → VttEntries
unfolding base_entries needs_construction
secondary_vtts ctx fuel offsets [] = ok []
secondary_vtts ctx fuel offsets (b ∷ bs) = do
  needed ← needs_construction ctx fuel b
  es ← (if needed then base_entries ctx fuel offsets b.class else ok [])
  rest ← secondary_vtts ctx fuel offsets bs
  ok (es ++ rest)

abbrev pub at_table : ℕ → VttEntry
at_table i = record { vtable = most_derived; sub_table = i }

-- `position(|st| st.for_subobject == vb)`, from number `i` on.
unfoldable pub position_from : ℕ → ClassId → List VTableSubTable → Option ℕ
position_from i vb [] = none
position_from i vb (t ∷ ts) =
    let rest = position_from (i + 1) vb ts in if t.for_subobject == vb then some i else rest

abbrev pub entry_if : Option ℕ → List VttEntry → List VttEntry
entry_if none rest = rest
entry_if (some i) rest = at_table i ∷ rest

unfoldable pub virtual_pointers : List VTableSubTable → List ClassId → List VttEntry
unfolding position_from
virtual_pointers tables [] = []
virtual_pointers tables (vb ∷ vbs) =
    entry_if (position_from 0 vb tables) (virtual_pointers tables vbs)

unfoldable pub contains : ClassId → List ClassId → Bool
contains c [] = false
contains c (d ∷ ds) = let rest = contains c ds in if d == c then true else rest

-- The sub-tables from number `i` on that are not those of virtual bases.
unfoldable pub other_pointers : List ClassId → ℕ → List VTableSubTable → List VttEntry
unfolding contains
other_pointers vbases i [] = []
other_pointers vbases i (t ∷ ts) =
    let rest = other_pointers vbases (i + 1) ts in
    if i == 0 then rest else if contains t.for_subobject vbases then rest else at_table i ∷ rest

-- Step 3 of `vtt`.
unfoldable pub secondary_pointers : CxxTypeCtx → ℕ → ClassId → Option VTable → VttEntries
unfolding virtual_pointers other_pointers
secondary_pointers ctx fuel class none = ok []
secondary_pointers ctx fuel class (some t) = do
  vbases ← collect_virtual_bases ctx fuel class
  ok (virtual_pointers t.sub_tables vbases ++ other_pointers vbases 0 t.sub_tables)

unfoldable pub build_vtt : CxxTypeCtx → ℕ → ClassId → Outcome LayoutError Vtt
unfolding vtable_class_mangled direct_bases secondary_vtts vtable_itanium secondary_pointers
build_vtt ctx fuel class = do
  name ← vtable_class_mangled ctx fuel class
  def ← or_panic (class_of ctx class)
  offsets ← direct_bases ctx fuel class
  constructions ← secondary_vtts ctx fuel offsets def.bases
  table ← vtable_itanium ctx fuel class
  pointers ← secondary_pointers ctx fuel class table
  ok (record {
    class = class;
    symbol = codes "_ZTT" ++ name;
    entries = at_table 0 ∷ (constructions ++ pointers);
  })

unfoldable pub vtt : CxxTypeCtx → ℕ → ClassId → Outcome LayoutError (Option Vtt)
unfolding build_vtt
vtt ctx fuel class = if not (is_itanium ctx.target.abi_flavor) then ok none else do
  def ← or_panic (class_of ctx class)
  if not def.is_polymorphic then ok none else do
    has ← has_virtual_base_chain ctx fuel class
    if not has then ok none else (build_vtt ctx fuel class >>= λ v. ok (some v))

-- The construction table of one base.
unfoldable pub construction_vtable :
    CxxTypeCtx → ℕ → List ℕ → Offsets → ClassId → Outcome LayoutError ConstructionVtable
unfolding vtable_class_mangled offset_of decimal
construction_vtable ctx fuel name offsets base = do
  base_name ← vtable_class_mangled ctx fuel base
  ok (record {
    symbol = codes "_ZTC" ++ (name ++ (decimal (offset_of base offsets) ++ (b'_' ∷ base_name)));
    base = base;
    offset = offset_of base offsets;
  })

unfoldable pub constructions_of :
    CxxTypeCtx
    → ℕ
    → List ℕ
    → Offsets
    → List BaseSpec
    → Outcome LayoutError (List ConstructionVtable)
unfolding construction_vtable needs_construction
constructions_of ctx fuel name offsets [] = ok []
constructions_of ctx fuel name offsets (b ∷ bs) = do
  needed ← needs_construction ctx fuel b
  if not needed then constructions_of ctx fuel name offsets bs else do
    c ← construction_vtable ctx fuel name offsets b.class
    cs ← constructions_of ctx fuel name offsets bs
    ok (c ∷ cs)

unfoldable pub construction_vtables :
    CxxTypeCtx → ℕ → ClassId → Outcome LayoutError (List ConstructionVtable)
unfolding constructions_of vtable_class_mangled direct_bases
construction_vtables ctx fuel class = if not (is_itanium ctx.target.abi_flavor) then ok [] else do
  has ← has_virtual_base_chain ctx fuel class
  if not has then ok [] else do
    name ← vtable_class_mangled ctx fuel class
    def ← or_panic (class_of ctx class)
    offsets ← direct_bases ctx fuel class
    constructions_of ctx fuel name offsets def.bases
