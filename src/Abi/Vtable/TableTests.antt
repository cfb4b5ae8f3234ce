-- ===== src/Abi/Vtable/TableTests.antt =====
-- The tables of a class with two polymorphic bases, and the theorems applied to them.
use rustcc.Prelude.{ℕ, ◌≡◌, refl, false, some, Option, List, [], ◌∷◌, ◌++◌, ok}
use rustcc.Abi.Types.{ClassDef, MethodName-discrete, CvQual-discrete, TypeIds-discrete}
use rustcc.Abi.Types.{segment, no_segment, class_seg, pos, negsuc}
use rustcc.Abi.Target.{codes}
use rustcc.Abi.Context.{CxxTypeCtx}
use rustcc.Abi.Mangle.Keys.{SubKey-discrete}
use rustcc.Abi.Layout.State.{new}
use rustcc.Abi.Layout.Hfa.{detect_hfa}
use rustcc.Abi.Layout.Classify.{
  pick_primary_base, is_pod_for_layout, is_empty_class, collect_virtual_bases,
}
use rustcc.Abi.Vtable.Slots.{method_slot}
use rustcc.Abi.Vtable.Entries.{
  VTableEntry, function_pointer, rtti, offset_to_top, VTable, PrimaryVtableSlot, make_nv_thunk,
  most_derived_override, taken_over,
}
use rustcc.Abi.Vtable.Tables.{
  vtable_itanium, rtti_symbol, build_primary_entries, build_secondary_entries, primary_vtable_slots,
}
use rustcc.Abi.Vtable.Points.{IsTable, vtable_itanium-Consecutive}
use rustcc.Abi.Vtable.Targets.{targets, primary_vtable_slots-targets}
use rustcc.Abi.Vtable.Override.{IsFirst, most_derived_override-IsFirst}
use rustcc.Abi.Vtable.Thunk.{read_thunk, read_thunk-make_nv_thunk}
use rustcc.Abi.Samples.{empty_ctx, struct, plain_base, virtual_method, polymorphic}

abbrev named : List ℕ → ClassDef → ClassDef
named id c = record c { name = segment (class_seg id) no_segment }

-- `struct A { virtual void f(); }`, `struct B { virtual void g(); }` and
-- `struct C : A, B { void g() override; }`.
abbrev pair_ctx : CxxTypeCtx
pair_ctx = record empty_ctx {
  classes =
      named (codes "A") (polymorphic (struct [] []) (virtual_method (codes "f") ∷ []))
      ∷ named (codes "B") (polymorphic (struct [] []) (virtual_method (codes "g") ∷ []))
      ∷ named (codes "C") (
          polymorphic (struct (plain_base 0 ∷ plain_base 1 ∷ []) [])
            (virtual_method (codes "g") ∷ []))
      ∷ [];
}

abbrev primary_entries : List VTableEntry
primary_entries =
    offset_to_top (pos 0)
    ∷ rtti (codes "_ZTI1C")
    ∷ function_pointer (codes "_ZN1A1fEv") 0
    ∷ function_pointer (codes "_ZN1C1gEv") 0
    ∷ []

abbrev pair_table : VTable
pair_table = record {
  class = 2;
  symbol = codes "_ZTV1C";
  sub_tables =
      record {
        for_subobject = 2;
        subobject_offset = 0;
        entries = primary_entries;
        address_point_offset = 16;
      }
      ∷ record {
        for_subobject = 1;
        subobject_offset = 8;
        entries =
            offset_to_top (negsuc 7)
            ∷ rtti (codes "_ZTI1C")
            ∷ function_pointer (codes "_ZThn8_N1C1gEv") 0
            ∷ [];
        address_point_offset = 48;
      }
      ∷ [];
}

pair_run : vtable_itanium pair_ctx 4 2 ≡ ok (some pair_table)
unfolding vtable_itanium pick_primary_base is_pod_for_layout is_empty_class collect_virtual_bases
    new detect_hfa empty_ctx SubKey-discrete MethodName-discrete CvQual-discrete TypeIds-discrete
pair_run = refl

rtti_run : rtti_symbol pair_ctx 4 2 ≡ ok (codes "_ZTI1C")
unfolding rtti_symbol empty_ctx SubKey-discrete
rtti_run = refl

vtable_itanium-Consecutive_example : IsTable pair_ctx 4 (codes "_ZTI1C") 2 pair_table
vtable_itanium-Consecutive_example =
    vtable_itanium-Consecutive pair_ctx 4 2 pair_table (codes "_ZTI1C") pair_run rtti_run

abbrev slot_of : List ℕ → List ℕ → PrimaryVtableSlot
slot_of id target = record {
  name = some id;
  mangled_target = target;
  is_dtor = false;
  param_sig = some (codes "v");
}

primary_vtable_slots-targets_example :
    codes "_ZN1A1fEv" ∷ codes "_ZN1C1gEv" ∷ [] ≡ targets primary_entries
unfolding primary_vtable_slots build_primary_entries targets pick_primary_base is_pod_for_layout
    is_empty_class collect_virtual_bases new detect_hfa empty_ctx SubKey-discrete
    MethodName-discrete CvQual-discrete TypeIds-discrete
primary_vtable_slots-targets_example =
    primary_vtable_slots-targets pair_ctx 4 2
      (slot_of (codes "f") (codes "_ZN1A1fEv") ∷ slot_of (codes "g") (codes "_ZN1C1gEv") ∷ [])
      primary_entries refl refl

read_thunk-make_nv_thunk_example :
    read_thunk (make_nv_thunk (codes "_Z" ++ codes "N1C1gEv") (negsuc 7))
    ≡ some (negsuc 7, codes "_Z" ++ codes "N1C1gEv")
read_thunk-make_nv_thunk_example = read_thunk-make_nv_thunk (codes "N1C1gEv") (negsuc 7)

-- `C` takes over the slot of `B`.
most_derived_override-IsFirst_example :
    (o : Option ℕ) × IsFirst (virtual_method (codes "g")) (virtual_method (codes "g") ∷ []) o
    × (record (method_slot 1 0) { overrider_class = 2; overrider_method_idx = some 0 }
        ≡ taken_over 2 (method_slot 1 0) o)
unfolding most_derived_override empty_ctx MethodName-discrete CvQual-discrete TypeIds-discrete
most_derived_override-IsFirst_example =
    most_derived_override-IsFirst pair_ctx 2 (method_slot 1 0)
      (record (method_slot 1 0) { overrider_class = 2; overrider_method_idx = some 0 }) 0
      (named (codes "C") (
        polymorphic (struct (plain_base 0 ∷ plain_base 1 ∷ []) [])
          (virtual_method (codes "g") ∷ [])))
      (virtual_method (codes "g")) refl refl refl refl refl

-- Without the override the secondary sub-table refers to a thunk of the method of `B` itself.
abbrev plain_ctx : CxxTypeCtx
plain_ctx = record empty_ctx {
  classes =
      named (codes "A") (polymorphic (struct [] []) (virtual_method (codes "f") ∷ []))
      ∷ named (codes "B") (polymorphic (struct [] []) (virtual_method (codes "g") ∷ []))
      ∷ named (codes "C") (polymorphic (struct (plain_base 0 ∷ plain_base 1 ∷ []) []) [])
      ∷ [];
}

thunk_run :
    build_secondary_entries plain_ctx 4 2 1 8
    ≡ ok (
        offset_to_top (negsuc 7)
        ∷ rtti (codes "_ZTI1C")
        ∷ function_pointer (codes "_ZThn8_N1B1gEv") 0
        ∷ [])
unfolding build_secondary_entries empty_ctx SubKey-discrete MethodName-discrete CvQual-discrete
    TypeIds-discrete
thunk_run = refl
