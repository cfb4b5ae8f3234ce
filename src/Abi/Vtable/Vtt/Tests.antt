-- ===== src/Abi/Vtable/Vtt/Tests.antt =====
-- The diamond, and the theorem applied to it.
use rustcc.Prelude.{ℕ, ◌≡◌, refl, some, List, [], ◌∷◌, length, ok, All}
use rustcc.Abi.Types.{ClassDef, MethodName-discrete, CvQual-discrete, TypeIds-discrete}
use rustcc.Abi.Types.{segment, no_segment, class_seg}
use rustcc.Abi.Target.{codes}
use rustcc.Abi.Context.{CxxTypeCtx}
use rustcc.Abi.Mangle.Keys.{SubKey-discrete}
use rustcc.Abi.Layout.State.{new, RecordLayout}
use rustcc.Abi.Layout.Compute.{compute_layout}
use rustcc.Abi.Vtable.Vtt.Counts.{Backed}
use rustcc.Abi.Layout.Hfa.{detect_hfa}
use rustcc.Abi.Layout.Classify.{
  pick_primary_base, is_pod_for_layout, is_empty_class, collect_virtual_bases,
  has_virtual_base_chain,
}
use rustcc.Abi.Vtable.Entries.{VTable}
use rustcc.Abi.Vtable.Tables.{vtable_itanium}
use rustcc.Abi.Types.{pos, negsuc}
use rustcc.Abi.Vtable.Entries.{vbase_offset, offset_to_top, rtti, function_pointer}
use rustcc.Abi.Vtable.Vtt.{
  Vtt, VttEntry, VttVtableRef, most_derived, construction, ConstructionVtable, vtt,
  construction_vtables,
}
use rustcc.Abi.Vtable.Vtt.Entries.{Exists}
use rustcc.Abi.Vtable.Vtt.Valid.{vtt-Exist}
use rustcc.Abi.Samples.{
  empty_ctx, sample_types, field, struct, plain_base, virtual_base, virtual_method, polymorphic,
}

abbrev named : List ℕ → ClassDef → ClassDef
named id c = record c { name = segment (class_seg id) no_segment }

-- `struct A { virtual void fa(); int a; };`, `B : virtual A`, `C : virtual A`, `D : B, C`.
abbrev diamond : CxxTypeCtx
diamond = record empty_ctx {
  types = sample_types;
  classes =
      named (codes "A") (polymorphic (struct [] (field 1 ∷ [])) (virtual_method (codes "fa") ∷ []))
      ∷ named (codes "B") (
          polymorphic (struct (virtual_base 0 ∷ []) (field 1 ∷ []))
            (virtual_method (codes "fb") ∷ []))
      ∷ named (codes "C") (
          polymorphic (struct (virtual_base 0 ∷ []) (field 1 ∷ []))
            (virtual_method (codes "fc") ∷ []))
      ∷ named (codes "D") (
          polymorphic (struct (plain_base 1 ∷ plain_base 2 ∷ []) (field 1 ∷ []))
            (virtual_method (codes "fd") ∷ []))
      ∷ [];
}

abbrev diamond_constructions : List ConstructionVtable
diamond_constructions =
    record { symbol = codes "_ZTC1D0_1B"; base = 1; offset = 0 }
    ∷ record { symbol = codes "_ZTC1D16_1C"; base = 2; offset = 16 }
    ∷ []

constructions_run : construction_vtables diamond 5 3 ≡ ok diamond_constructions
unfolding construction_vtables empty_ctx SubKey-discrete MethodName-discrete CvQual-discrete
    TypeIds-discrete has_virtual_base_chain pick_primary_base is_pod_for_layout is_empty_class
    collect_virtual_bases new detect_hfa
constructions_run = refl

abbrev entry : VttVtableRef → ℕ → VttEntry
entry table i = record { vtable = table; sub_table = i }

abbrev diamond_vtt : Vtt
diamond_vtt = record {
  class = 3;
  symbol = codes "_ZTT1D";
  entries =
      entry most_derived 0
      ∷ entry (construction 1 0) 0
      ∷ entry (construction 1 0) 1
      ∷ entry (construction 2 16) 0
      ∷ entry (construction 2 16) 1
      ∷ entry most_derived 2
      ∷ entry most_derived 1
      ∷ [];
}

abbrev diamond_table : VTable
diamond_table = record {
  class = 3;
  symbol = codes "_ZTV1D";
  sub_tables =
      record {
        for_subobject = 3;
        subobject_offset = 0;
        entries =
            vbase_offset (pos 40)
            ∷ offset_to_top (pos 0)
            ∷ rtti (codes "_ZTI1D")
            ∷ function_pointer (codes "_ZN1B2fbEv") 0
            ∷ function_pointer (codes "_ZN1D2fdEv") 0
            ∷ [];
        address_point_offset = 24;
      }
      ∷ record {
        for_subobject = 2;
        subobject_offset = 16;
        entries =
            offset_to_top (negsuc 15)
            ∷ rtti (codes "_ZTI1D")
            ∷ function_pointer (codes "_ZThn16_N1C2fcEv") 0
            ∷ [];
        address_point_offset = 56;
      }
      ∷ record {
        for_subobject = 0;
        subobject_offset = 40;
        entries =
            offset_to_top (negsuc 39)
            ∷ rtti (codes "_ZTI1D")
            ∷ function_pointer (codes "_ZThn40_N1A2faEv") 0
            ∷ [];
        address_point_offset = 80;
      }
      ∷ [];
}

table_run : vtable_itanium diamond 5 3 ≡ ok (some diamond_table)
unfolding vtable_itanium empty_ctx SubKey-discrete MethodName-discrete CvQual-discrete
    TypeIds-discrete has_virtual_base_chain pick_primary_base is_pod_for_layout is_empty_class
    collect_virtual_bases new detect_hfa
table_run = refl

vtt_run : vtt diamond 5 3 ≡ ok (some diamond_vtt)
unfolding vtt empty_ctx SubKey-discrete MethodName-discrete CvQual-discrete TypeIds-discrete
    has_virtual_base_chain pick_primary_base is_pod_for_layout is_empty_class collect_virtual_bases
    new detect_hfa
vtt_run = refl

-- `struct A { int a; };`, `struct B : virtual A { virtual void fb(); };` and `struct D : B {};`: the
-- second entry for the construction table of `B` names its sub-table 1, where the table of `B` has
-- only sub-table 0.
abbrev plain_virtual : CxxTypeCtx
plain_virtual = record empty_ctx {
  types = sample_types;
  classes =
      named (codes "A") (struct [] (field 1 ∷ []))
      ∷ named (codes "B")
          (polymorphic (struct (virtual_base 0 ∷ []) []) (virtual_method (codes "fb") ∷ []))
      ∷ named (codes "D") (polymorphic (struct (plain_base 1 ∷ []) []) [])
      ∷ [];
}

short_run :
    (v : Vtt) × (vtt plain_virtual 5 2 ≡ ok (some v))
    × (v.entries
        ≡ entry most_derived 0 ∷ entry (construction 1 0) 0 ∷ entry (construction 1 0) 1 ∷ [])
unfolding vtt vtable_itanium empty_ctx SubKey-discrete MethodName-discrete CvQual-discrete
    TypeIds-discrete has_virtual_base_chain pick_primary_base is_pod_for_layout is_empty_class
    collect_virtual_bases new detect_hfa
short_run = (_, refl, refl)

short_table_run :
    (t : VTable) × (vtable_itanium plain_virtual 5 1 ≡ ok (some t)) × (length t.sub_tables ≡ 1)
unfolding vtable_itanium empty_ctx SubKey-discrete MethodName-discrete CvQual-discrete
    TypeIds-discrete has_virtual_base_chain pick_primary_base is_pod_for_layout is_empty_class
    collect_virtual_bases new detect_hfa
short_table_run = (_, refl, refl)

-- The tables and the layouts of `B` and `C`.
left_table : (t : VTable) × (vtable_itanium diamond 5 1 ≡ ok (some t))
unfolding vtable_itanium empty_ctx SubKey-discrete MethodName-discrete CvQual-discrete
    TypeIds-discrete has_virtual_base_chain pick_primary_base is_pod_for_layout is_empty_class
    collect_virtual_bases new detect_hfa
left_table = (_, refl)

left_layout : (l : RecordLayout) × (compute_layout diamond 5 1 ≡ ok l)
unfolding compute_layout empty_ctx has_virtual_base_chain pick_primary_base is_pod_for_layout
    is_empty_class collect_virtual_bases new detect_hfa
left_layout = (_, refl)

left-Backed : Backed diamond 5 1
unfolding collect_virtual_bases empty_ctx
left-Backed = record {
  table = left_table.0;
  layout = left_layout.0;
  vbases = 0 ∷ [];
  table_eq = left_table.1;
  layout_eq = left_layout.1;
  vbases_eq = refl;
  polymorphic_bases = (refl, tt);
}

right_table : (t : VTable) × (vtable_itanium diamond 5 2 ≡ ok (some t))
unfolding vtable_itanium empty_ctx SubKey-discrete MethodName-discrete CvQual-discrete
    TypeIds-discrete has_virtual_base_chain pick_primary_base is_pod_for_layout is_empty_class
    collect_virtual_bases new detect_hfa
right_table = (_, refl)

right_layout : (l : RecordLayout) × (compute_layout diamond 5 2 ≡ ok l)
unfolding compute_layout empty_ctx has_virtual_base_chain pick_primary_base is_pod_for_layout
    is_empty_class collect_virtual_bases new detect_hfa
right_layout = (_, refl)

right-Backed : Backed diamond 5 2
unfolding collect_virtual_bases empty_ctx
right-Backed = record {
  table = right_table.0;
  layout = right_layout.0;
  vbases = 0 ∷ [];
  table_eq = right_table.1;
  layout_eq = right_layout.1;
  vbases_eq = refl;
  polymorphic_bases = (refl, tt);
}

vtt-Exist_example :
    All (Exists diamond 5 diamond_table.sub_tables diamond_constructions) diamond_vtt.entries
unfolding empty_ctx
vtt-Exist_example =
    vtt-Exist diamond 5 3
      (named (codes "D") (
        polymorphic (struct (plain_base 1 ∷ plain_base 2 ∷ []) (field 1 ∷ []))
          (virtual_method (codes "fd") ∷ [])))
      diamond_vtt diamond_table diamond_constructions refl
      (λ _. left-Backed, (λ _. right-Backed, tt)) vtt_run table_run constructions_run
