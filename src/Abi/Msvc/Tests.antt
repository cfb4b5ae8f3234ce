-- ===== src/Abi/Msvc/Tests.antt =====
-- Runs of the MSVC engine, and its theorem applied to one.
use rustcc.Prelude.{◌≡◌, refl, false, none, some, [], ◌∷◌, ok}
use rustcc.Abi.Context.{CxxTypeCtx, class_has_bitfields}
use rustcc.Abi.Target.{x86_64_pc_windows_msvc}
use rustcc.Abi.Layout.State.{RecordLayout}
use rustcc.Abi.Layout.Hfa.{detect_hfa}
use rustcc.Abi.Msvc.Engine.{layout_msvc, msvc_size_align}
use rustcc.Abi.Msvc.Geometry.{IsSpaced, layout_msvc-IsSpaced}
use rustcc.Abi.Msvc.Multiples.{IsStriding, layout_msvc-IsStriding}
use rustcc.Abi.Samples.{empty_ctx, sample_types, field, struct, plain_base}

-- `struct Base { int x; char y; }`, `struct Derived : Base { char z; }`, `struct E {}`,
-- `struct D : E {}` and `struct alignas(8) A {}`.
abbrev windows : CxxTypeCtx
windows = record empty_ctx {
  target = x86_64_pc_windows_msvc;
  types = sample_types;
  classes =
      struct [] (field 1 ∷ field 0 ∷ [])
      ∷ struct (plain_base 0 ∷ []) (field 0 ∷ [])
      ∷ struct [] []
      ∷ struct (plain_base 2 ∷ []) []
      ∷ record (struct [] []) { source_alignment = some 8 }
      ∷ [];
}

abbrev derived_layout : RecordLayout
derived_layout = record {
  size_bytes = 12;
  align_bytes = 4;
  data_size_bytes = 12;
  nv_size_bytes = 12;
  nv_align_bytes = 4;
  has_vptr = false;
  field_offsets = 8 ∷ [];
  field_bit_offsets = 0 ∷ [];
  field_bit_widths = 0 ∷ [];
  base_offsets = (0, 0) ∷ [];
  virtual_base_offsets = [];
  empty_subobjects = [];
  hfa_kind = none;
}

derived_run : layout_msvc windows 3 1 ≡ ok derived_layout
unfolding layout_msvc empty_ctx detect_hfa
derived_run = refl

layout_msvc-IsSpaced_example :
    IsSpaced
      (msvc_size_align windows (layout_msvc windows 2) 2)
      (layout_msvc windows 2)
      (struct (plain_base 0 ∷ []) (field 0 ∷ []))
      derived_layout
unfolding empty_ctx class_has_bitfields
layout_msvc-IsSpaced_example =
    layout_msvc-IsSpaced windows 2 1 (struct (plain_base 0 ∷ []) (field 0 ∷ [])) derived_layout refl
      (λ e. cc e) refl derived_run

layout_msvc-IsStriding_example :
    IsStriding (struct (plain_base 0 ∷ []) (field 0 ∷ [])) derived_layout
unfolding empty_ctx
layout_msvc-IsStriding_example =
    layout_msvc-IsStriding windows 2 1 (struct (plain_base 0 ∷ []) (field 0 ∷ [])) derived_layout
      refl derived_run

-- A class without members whose only base is empty takes no byte.
empty_run : (l : RecordLayout) × (layout_msvc windows 3 3 ≡ ok l) × (l.size_bytes ≡ 0)
unfolding layout_msvc empty_ctx detect_hfa
empty_run = (_, refl, refl)

-- `alignas(8)` on an empty class: size 1, alignment 8.
alignas_run :
    (l : RecordLayout) × (layout_msvc windows 3 4 ≡ ok l) × (l.size_bytes ≡ 1) × (l.align_bytes ≡ 8)
unfolding layout_msvc empty_ctx detect_hfa
alignas_run = (_, refl, refl, refl)
