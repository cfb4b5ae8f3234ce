-- ===== src/Abi/Vtable/Vtt/Counts.antt =====
-- How many sub-tables the table of a class has (`vtable_itanium` of vtable.rs), as its tables of
-- tables count them (vtt.rs).
use rustcc.Prelude.{ℕ, suc, ◌≤◌, ◌≡◌, refl, sym, ◌∙◌, ap, arith, true, Bool-cases, inl, inr}
use rustcc.Prelude.{some, List, [], ◌∷◌, ◌++◌, length, length-append, All, ok, ok_inj}
use mathlib.Core.Path.{subst}
use rustcc.Abi.Types.{ClassId}
use rustcc.Abi.Context.{CxxTypeCtx}
use rustcc.Abi.Layout.State.{RecordLayout}
use rustcc.Abi.Layout.Classify.{collect_virtual_bases}
use rustcc.Abi.Layout.Compute.{compute_layout}
use rustcc.Abi.Layout.BaseOrder.{placed_classes, compute_layout-Adds}
use rustcc.Abi.Vtable.Entries.{VTableSubTable, VTable}
use rustcc.Abi.Vtable.Tables.{Offsets, virtual_bases, vtable_itanium}
use rustcc.Abi.Vtable.Points.{
  is_polymorphic_class, polymorphic_of, not_primary, subobjects, vtable_itanium-rtti_symbol,
  vtable_itanium-Consecutive,
}

-- A base whose layout and table the source computes, and whose virtual bases are all polymorphic.
pub record Backed (ctx : CxxTypeCtx) (fuel : ℕ) (base : ClassId) : Type 0 where
  pub table : VTable
  pub layout : RecordLayout
  pub vbases : List ClassId
  pub table_eq : vtable_itanium ctx fuel base ≡ ok (some table)
  pub layout_eq : compute_layout ctx fuel base ≡ ok layout
  pub vbases_eq : collect_virtual_bases ctx fuel base ≡ ok vbases
  pub polymorphic_bases : All (λ v. is_polymorphic_class ctx v ≡ true) vbases

length-subobjects : (ts : List VTableSubTable) → length (subobjects ts) ≡ length ts
length-subobjects [] = refl
length-subobjects (t ∷ ts) = ap suc (length-subobjects ts)

length-placed_classes : (ps : Offsets) → length (placed_classes ps) ≡ length ps
length-placed_classes [] = refl
length-placed_classes (p ∷ ps) = ap suc (length-placed_classes ps)

all_polymorphic :
    (ctx : CxxTypeCtx) (ps : Offsets)
    → All (λ v. is_polymorphic_class ctx v ≡ true) (placed_classes ps)
    → length (polymorphic_of ctx ps) ≡ length ps
all_polymorphic ctx [] h = refl
all_polymorphic ctx (p ∷ ps) (y, h) = rw y (ap suc (all_polymorphic ctx ps h))

last_polymorphic :
    (ctx : CxxTypeCtx) (before more : Offsets)
    → All (λ v. is_polymorphic_class ctx v ≡ true) (placed_classes more)
    → length more ≤ length (polymorphic_of ctx (before ++ more))
last_polymorphic ctx [] more h = omega (arith, all_polymorphic ctx more h)
last_polymorphic ctx (p ∷ before) more h =
    let rest = last_polymorphic ctx before more h in
    elim (Bool-cases (is_polymorphic_class ctx p.0)) [
      | inl y ↦ rw y (omega (arith, rest))
      | inr n ↦ rw n rest
    ]

-- The table of such a base has a sub-table of its own and one for each virtual base.
pub Backed-sub_tables :
    (ctx : CxxTypeCtx) (fuel : ℕ) (base : ClassId) (b : Backed ctx fuel base)
    → suc (length b.vbases) ≤ length b.table.sub_tables
unfolding virtual_bases
Backed-sub_tables ctx fuel base b =
    let (name, named) = vtable_itanium-rtti_symbol ctx fuel base b.table b.table_eq in
    let t = vtable_itanium-Consecutive ctx fuel base b.table name b.table_eq named in
    let (before, (more, added, listed)) =
      compute_layout-Adds ctx fuel base b.layout b.vbases b.layout_eq b.vbases_eq in
    let offsets : b.layout.virtual_base_offsets ≡ t.vbases =
      ok_inj (rw b.layout_eq at t.vbases_eq) in
    let poly : All (λ v. is_polymorphic_class ctx v ≡ true) (placed_classes more) =
      subst (All (λ v. is_polymorphic_class ctx v ≡ true)) (sym listed) b.polymorphic_bases in
    let enough : length more ≤ length (polymorphic_of ctx t.vbases) =
      subst (λ q. length more ≤ length (polymorphic_of ctx q)) (sym added ∙ offsets)
        (last_polymorphic ctx before more poly) in
    let listed_count = ap length listed in
    let of_bases = ap length t.of_bases in
    let tables = ap length t.tables in
    omega (
      arith,
      enough,
      listed_count,
      length-placed_classes more,
      of_bases,
      tables,
      length-subobjects t.rest,
      length-append (polymorphic_of ctx (not_primary t.primary t.bases))
          (polymorphic_of ctx t.vbases),
    )
