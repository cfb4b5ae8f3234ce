-- ===== src/Abi/Tests.antt =====
-- Runs of the layout engine and of the type context on concrete classes, and the theorems applied
-- to them.
use rustcc.Prelude.{ℕ, zero, suc, ◌+◌, ◌<◌, ◌≡◌, ◌≢◌, refl, arith, true, false, none, some, []}
use rustcc.Prelude.{◌∷◌, ok, stuck, ◌∈◌, ◌↔◌, ◌⊎◌, not}
use rustcc.Prelude.{◌*◌, ◌%◌, ◌≤◌}
use rustcc.Prelude.{if◌then◌else◌, ◌==◌, ◌||◌, All, All-mem}
use mathlib.Core.Option.{some-injective}
use mathlib.Core.Path.{subst}
use rustcc.Abi.Types.{
  BaseSpec, FieldDef, ClassId, TypeId, ClassDef, LayoutError, rust_repr_cpp, cxx, CxxType,
}
use rustcc.Abi.Types.{IntWidth}
use rustcc.Abi.Context.{
  CxxTypeCtx, bitfield_width, intern_type, type_of, define_class_with_origin, class_of,
  class_origin, class_ids, rust_classes, cxx_classes,
}
use rustcc.Prelude.{Option, List}
use rustcc.Abi.Context.{
  DefaultArgValue, class_has_bitfields, get_flat, record_default_arg_values, default_arg_value,
}
use rustcc.Abi.Context.SideTables.{
  class_has_bitfields-bitfield_width, record_default_arg_values-default_arg_value,
}
use rustcc.Abi.Context.Intern.{
  IsInterned, intern_type_lem, intern_type-IsInterned, intern_type-type_of,
}
use rustcc.Abi.Context.Classes.{
  HasOrigins, define_class_with_origin_lem, origin_iterators, origins_partition,
}
use rustcc.Abi.Layout.State.{RecordLayout, align_up, new}
use rustcc.Abi.Layout.Place.{type_size_align, occupied, find_empty_base_offset}
use rustcc.Abi.Layout.Classify.{
  collect_virtual_bases, has_virtual_base_chain, is_nil, pick_primary_base, is_pod_for_layout,
  is_empty_class,
}
use rustcc.Abi.Layout.Hfa.{detect_hfa}
use rustcc.Abi.Layout.Compute.{compute_layout}
use rustcc.Abi.Layout.TypeSizes.{IsStride, type_size_align-IsStride}
use rustcc.Abi.Layout.Align.{align_up_lem}
use rustcc.Abi.Layout.Sizes.{IsSized, compute_layout-IsSized}
use rustcc.Abi.Layout.Empties.{
  Distinct, find_empty_base_offset-ne-stuck, find_empty_base_offset_lem,
}
use rustcc.Abi.Layout.EmptySpots.{compute_layout-Distinct}
use rustcc.Abi.Layout.Terminates.{IsRanked}
use rustcc.Abi.Msvc.Engine.{layout_msvc}
use rustcc.Abi.Msvc.Ends.{layout_msvc-ne-stuck}
use rustcc.Abi.Layout.EngineEnds.{compute_layout-ne-stuck}
use rustcc.Abi.Layout.VirtualBases.{
  VirtualBaseOf, NoRepeat, collect_virtual_bases_lem, chain-collect,
}
use rustcc.Abi.Samples.{
  empty_ctx, struct, field, with_classes, plain_base, virtual_base, diamond, polymorphic,
  virtual_method,
}
use rustcc.Abi.Target.{codes}

-- `struct A { char a; }`, `struct B : A { int b; int c : 3; int d : 7; char e; }`, and
-- `struct C : B, virtual A { long long f; }`.
abbrev leaf : ClassDef
leaf = struct [] (field 0 ∷ [])

abbrev mixed : ClassDef
mixed = struct (plain_base 0 ∷ []) (field 1 ∷ field 1 ∷ field 1 ∷ field 0 ∷ [])

abbrev mixed_ctx : CxxTypeCtx
mixed_ctx =
    record (with_classes
      (leaf ∷ mixed ∷ struct (plain_base 1 ∷ virtual_base 0 ∷ []) (field 3 ∷ []) ∷ [])) {
        bitfield_widths = ((1, 1), 3) ∷ ((1, 2), 7) ∷ [];
        class_origins = cxx ∷ cxx ∷ rust_repr_cpp ∷ [];
      }

abbrev mixed_layout : RecordLayout
mixed_layout = record {
  size_bytes = 16;
  align_bytes = 4;
  data_size_bytes = 16;
  nv_size_bytes = 16;
  nv_align_bytes = 4;
  has_vptr = false;
  field_offsets = 4 ∷ 8 ∷ 8 ∷ 12 ∷ [];
  field_bit_offsets = 0 ∷ 0 ∷ 3 ∷ 0 ∷ [];
  field_bit_widths = 0 ∷ 3 ∷ 7 ∷ 0 ∷ [];
  base_offsets = (0, 0) ∷ [];
  virtual_base_offsets = [];
  empty_subobjects = [];
  hfa_kind = none;
}

-- A class of the diamond, its virtual base at the end.
abbrev diamond_layout : RecordLayout
diamond_layout = record {
  size_bytes = 56;
  align_bytes = 8;
  data_size_bytes = 52;
  nv_size_bytes = 36;
  nv_align_bytes = 8;
  has_vptr = true;
  field_offsets = 32 ∷ [];
  field_bit_offsets = 0 ∷ [];
  field_bit_widths = 0 ∷ [];
  base_offsets = (1, 0) ∷ (2, 16) ∷ [];
  virtual_base_offsets = (0, 40) ∷ [];
  empty_subobjects = [];
  hfa_kind = none;
}

diamond_run : compute_layout diamond 4 3 ≡ ok diamond_layout
unfolding compute_layout empty_ctx pick_primary_base has_virtual_base_chain new is_pod_for_layout
    is_empty_class collect_virtual_bases detect_hfa
diamond_run = refl

compute_layout-IsSized_example : IsSized diamond_layout
compute_layout-IsSized_example = compute_layout-IsSized diamond 4 3 diamond_layout diamond_run

-- `struct E {};`, `struct B : E { virtual void f(); };` and `struct D : B, E { int a; };`: the second
-- subobject of `E` moves to byte 1.
abbrev twice_empty : CxxTypeCtx
twice_empty = with_classes (
    struct [] []
    ∷ polymorphic (struct (plain_base 0 ∷ []) []) (virtual_method (codes "f") ∷ [])
    ∷ polymorphic (struct (plain_base 1 ∷ plain_base 0 ∷ []) (field 1 ∷ [])) []
    ∷ [])

abbrev twice_layout : RecordLayout
twice_layout = record {
  size_bytes = 16;
  align_bytes = 8;
  data_size_bytes = 12;
  nv_size_bytes = 12;
  nv_align_bytes = 8;
  has_vptr = true;
  field_offsets = 8 ∷ [];
  field_bit_offsets = 0 ∷ [];
  field_bit_widths = 0 ∷ [];
  base_offsets = (1, 0) ∷ (0, 1) ∷ [];
  virtual_base_offsets = [];
  empty_subobjects = (0, 0) ∷ (0, 1) ∷ [];
  hfa_kind = none;
}

twice_empty_run : compute_layout twice_empty 4 2 ≡ ok twice_layout
unfolding compute_layout empty_ctx pick_primary_base has_virtual_base_chain new is_pod_for_layout
    is_empty_class collect_virtual_bases detect_hfa
twice_empty_run = refl

compute_layout-Distinct_example : Distinct ((0, 0) ∷ (0, 1) ∷ [])
compute_layout-Distinct_example =
    compute_layout-Distinct twice_empty 4 2 twice_layout twice_empty_run

collect_virtual_bases_lem_example :
    ((v : ClassId) → (v ∈ 0 ∷ []) ↔ VirtualBaseOf diamond v 3) × NoRepeat (0 ∷ [])
unfolding collect_virtual_bases
collect_virtual_bases_lem_example = collect_virtual_bases_lem diamond 4 3 (0 ∷ []) refl

chain-collect_example : true ≡ not (is_nil {A = ℕ} (0 ∷ []))
unfolding collect_virtual_bases has_virtual_base_chain
chain-collect_example = chain-collect diamond 3 4 3 true (0 ∷ []) refl refl

find_empty_base_offset-ne-stuck_example :
    find_empty_base_offset ((3, 0) ∷ (3, 4) ∷ []) 3 mixed_layout ≢ stuck
find_empty_base_offset-ne-stuck_example =
    find_empty_base_offset-ne-stuck ((3, 0) ∷ (3, 4) ∷ []) 3 mixed_layout

find_empty_base_offset_lem_example :
    (occupied 3 8 ((3, 0) ∷ (3, 4) ∷ []) ≡ false)
    × ((m : ℕ) × (8 ≡ m * 4) × ((i : ℕ) → i < m → occupied 3 (i * 4) ((3, 0) ∷ (3, 4) ∷ []) ≡ true))
unfolding find_empty_base_offset
find_empty_base_offset_lem_example =
    find_empty_base_offset_lem ((3, 0) ∷ (3, 4) ∷ []) 3 mixed_layout {off = 8} refl

align_up_lem_example : (5 ≤ 8) × (8 < 5 + 4) × (8 % 4 ≡ 0)
unfolding align_up
align_up_lem_example = align_up_lem {E = LayoutError} 5 4 {r = 8} refl

-- The ranks of the classes and types of `diamond`.
abbrev class_rank : ClassId → ℕ
class_rank c = c + 1

abbrev type_rank : TypeId → ℕ
type_rank t = if 4 == t || 5 == t then 1 else 0

-- The bases and the members of class `c` have a lower rank.
abbrev IsBelow : ClassId → ClassDef → Type 0
IsBelow c d =
    All (λ (b : BaseSpec). class_rank b.class < class_rank c) d.bases
    × All (λ (f : FieldDef). type_rank f.ty < class_rank c) d.fields

diamond-IsBelow : (c : ClassId) (d : ClassDef) → class_of diamond c ≡ some d → IsBelow c d
unfolding empty_ctx
diamond-IsBelow zero d k = subst (IsBelow 0) (some-injective _ _ k) (tt, (omega arith, tt))
diamond-IsBelow (suc zero) d k =
    subst (IsBelow 1) (some-injective _ _ k) ((omega arith, tt), (omega arith, tt))
diamond-IsBelow (suc (suc zero)) d k =
    subst (IsBelow 2) (some-injective _ _ k) ((omega arith, tt), (omega arith, tt))
diamond-IsBelow (suc (suc (suc zero))) d k =
    subst (IsBelow 3) (some-injective _ _ k) ((omega arith, (omega arith, tt)), (omega arith, tt))
diamond-IsBelow (suc (suc (suc (suc c)))) d k = absurd (cc k)

-- What a type holds by value has no higher rank.
abbrev IsAbove : TypeId → CxxType → Type 0
IsAbove t (CxxType.array e len) = type_rank e < type_rank t
IsAbove t (CxxType.enum_type n u scoped) = type_rank u < type_rank t
IsAbove t (CxxType.record_type c) = class_rank c ≤ type_rank t
IsAbove t ty = Unit

diamond-IsAbove : (t : TypeId) (ty : CxxType) → type_of diamond t ≡ some ty → IsAbove t ty
unfolding empty_ctx
diamond-IsAbove zero ty k = subst (IsAbove 0) (some-injective _ _ k) tt
diamond-IsAbove (suc zero) ty k = subst (IsAbove 1) (some-injective _ _ k) tt
diamond-IsAbove (suc (suc zero)) ty k = subst (IsAbove 2) (some-injective _ _ k) tt
diamond-IsAbove (suc (suc (suc zero))) ty k = subst (IsAbove 3) (some-injective _ _ k) tt
diamond-IsAbove (suc (suc (suc (suc zero)))) ty k =
    subst (IsAbove 4) (some-injective _ _ k) (omega arith)
diamond-IsAbove (suc (suc (suc (suc (suc zero))))) ty k =
    subst (IsAbove 5) (some-injective _ _ k) (omega arith)
diamond-IsAbove (suc (suc (suc (suc (suc (suc zero)))))) ty k =
    subst (IsAbove 6) (some-injective _ _ k) tt
diamond-IsAbove (suc (suc (suc (suc (suc (suc (suc t))))))) ty k = absurd (cc k)

diamond-IsRanked : IsRanked diamond class_rank type_rank
unfolding empty_ctx
diamond-IsRanked = record {
  base_lt = λ c d b known m. All-mem _ d.bases b (diamond-IsBelow c d known).0 m;
  field_lt = λ c d f known m. All-mem _ d.fields f (diamond-IsBelow c d known).1 m;
  array_lt = λ t e len known. diamond-IsAbove t (CxxType.array e len) known;
  enum_lt = λ t u n scoped known. diamond-IsAbove t (CxxType.enum_type n u scoped) known;
  record_le = λ t c known. diamond-IsAbove t (CxxType.record_type c) known;
}

compute_layout-ne-stuck_example : compute_layout diamond 5 3 ≢ stuck
compute_layout-ne-stuck_example = compute_layout-ne-stuck diamond diamond-IsRanked 5 3 (omega arith)

layout_msvc-ne-stuck_example : layout_msvc diamond 5 3 ≢ stuck
layout_msvc-ne-stuck_example = layout_msvc-ne-stuck diamond diamond-IsRanked 5 3 (omega arith)

abbrev some_pointer : CxxType
some_pointer = CxxType.ptr 6 (record { is_const = true; is_volatile = false })

intern_type_lem_example :
    (type_of (intern_type diamond some_pointer).1 7 ≡ some some_pointer)
    × ((n : TypeId) → n < 7 → type_of (intern_type diamond some_pointer).1 n ≡ type_of diamond n)
unfolding intern_type empty_ctx
intern_type_lem_example = intern_type_lem diamond some_pointer (omega arith)

-- Two types interned one after the other.
abbrev one_type : CxxTypeCtx
one_type = (intern_type empty_ctx (CxxType.int true IntWidth.i32)).1

abbrev two_types : CxxTypeCtx
two_types = (intern_type one_type some_pointer).1

one_type-IsInterned : IsInterned one_type
unfolding empty_ctx
one_type-IsInterned =
    intern_type-IsInterned empty_ctx (CxxType.int true IntWidth.i32) (λ i j t h g. absurd (cc h))

intern_type-IsInterned_example : IsInterned two_types
intern_type-IsInterned_example = intern_type-IsInterned one_type some_pointer one_type-IsInterned

intern_type-type_of_example : intern_type two_types some_pointer ≡ (1, two_types)
unfolding intern_type empty_ctx
intern_type-type_of_example =
    intern_type-type_of two_types 1 some_pointer intern_type-IsInterned_example (omega arith) refl

define_class_with_origin_lem_example :
    let (id, ctx') = define_class_with_origin mixed_ctx leaf rust_repr_cpp in
    (class_of ctx' id ≡ some leaf)
    × (class_origin ctx' id ≡ some rust_repr_cpp)
    × ((n : ClassId)
        → n < 3
        → (class_of ctx' n ≡ class_of mixed_ctx n)
          × (class_origin ctx' n ≡ class_origin mixed_ctx n))
    × HasOrigins ctx'
unfolding empty_ctx
define_class_with_origin_lem_example =
    define_class_with_origin_lem mixed_ctx leaf rust_repr_cpp refl (omega arith)

origin_iterators_example :
    ((2 ∈ rust_classes mixed_ctx) ↔ (class_origin mixed_ctx 2 ≡ some rust_repr_cpp))
    × ((2 ∈ cxx_classes mixed_ctx) ↔ (class_origin mixed_ctx 2 ≡ some cxx))
origin_iterators_example = origin_iterators mixed_ctx 2 (omega arith)

origins_partition_example :
    ((2 ∈ class_ids mixed_ctx) ↔ ((2 ∈ rust_classes mixed_ctx) ⊎ (2 ∈ cxx_classes mixed_ctx)))
    × (¬ ((2 ∈ rust_classes mixed_ctx) × (2 ∈ cxx_classes mixed_ctx)))
unfolding empty_ctx
origins_partition_example = origins_partition mixed_ctx 2 refl (omega arith)

class_has_bitfields-bitfield_width_example :
    (class_has_bitfields mixed_ctx 1 ≡ true)
    ↔ ((i : ℕ) × ((w : ℕ) × (bitfield_width mixed_ctx 1 i ≡ some w)))
class_has_bitfields-bitfield_width_example = class_has_bitfields-bitfield_width mixed_ctx 1

abbrev some_defaults : List (Option DefaultArgValue)
some_defaults = none ∷ some (DefaultArgValue.uint 7) ∷ []

record_default_arg_values-default_arg_value_example :
    ((k : ℕ)
      → default_arg_value (record_default_arg_values mixed_ctx 1 0 some_defaults) 1 0 k
        ≡ get_flat some_defaults k)
    × ((d : ClassId) (n k : ℕ)
        → ◌≢◌ {A = ClassId × ℕ} (1, 0) (d, n)
        → default_arg_value (record_default_arg_values mixed_ctx 1 0 some_defaults) d n k
          ≡ default_arg_value mixed_ctx d n k)
unfolding default_arg_value empty_ctx
record_default_arg_values-default_arg_value_example =
    record_default_arg_values-default_arg_value mixed_ctx 1 0 some_defaults (λ k. refl)

type_size_align-IsStride_example : IsStride (12, 4)
unfolding type_size_align empty_ctx
type_size_align-IsStride_example = type_size_align-IsStride diamond 2 (omega arith) 2 4 (12, 4) refl
