-- ===== src/Abi/Samples.antt =====
-- Contexts that the tests and the instances of the theorems run on.
use rustcc.Prelude.{ℕ, true, false, none, List, [], ◌∷◌}
use rustcc.Abi.Types.{
  ClassDef, BaseSpec, FieldDef, MethodDef, MethodName, CxxType, no_segment, segment, class_seg,
  RecordKind, Virtuality, Access, IntWidth, FloatKind,
}
use rustcc.Abi.Target.{codes, x86_64_unknown_linux_gnu}
use rustcc.Abi.Context.{CxxTypeCtx}

unfoldable pub empty_ctx : CxxTypeCtx
unfolding x86_64_unknown_linux_gnu
empty_ctx = record {
  target = x86_64_unknown_linux_gnu;
  classes = [];
  class_origins = [];
  poison_reasons = [];
  static_methods = [];
  inline_methods = [];
  default_arg_counts = [];
  default_arg_vectors = [];
  bitfield_widths = [];
  pragma_packs = [];
  packed = [];
  rust_enums = [];
  types = [];
}

-- The types by id: 0 is `char`, 1 `int`, 2 `float`, 3 `long long`, 4 `float[3]`, 5 the record
-- of class 0, 6 `void`.
abbrev pub sample_types : List CxxType
sample_types =
    CxxType.int true IntWidth.i8
    ∷ CxxType.int true IntWidth.i32
    ∷ CxxType.float FloatKind.f32
    ∷ CxxType.int true IntWidth.i64
    ∷ CxxType.array 2 3
    ∷ CxxType.record_type 0
    ∷ CxxType.void
    ∷ []

abbrev pub field : ℕ → FieldDef
field ty = record { name = codes "f"; ty = ty; explicit_align = none }

abbrev pub plain_base : ℕ → BaseSpec
plain_base c = record { class = c; is_virtual = false; access = Access.public }

abbrev pub virtual_base : ℕ → BaseSpec
virtual_base c = record { class = c; is_virtual = true; access = Access.public }

abbrev pub struct : List BaseSpec → List FieldDef → ClassDef
struct bases fields = record {
  name = segment (class_seg (codes "S")) no_segment;
  bases = bases;
  fields = fields;
  methods = [];
  kind = RecordKind.struct;
  is_polymorphic = false;
  is_final = false;
  source_alignment = none;
}

abbrev pub with_classes : List ClassDef → CxxTypeCtx
with_classes cs = record empty_ctx { classes = cs; types = sample_types }

abbrev pub virtual_method : List ℕ → MethodDef
virtual_method name = record {
  name = MethodName.ident name;
  sig = record {
    params = [];
    ret = 6;
    cv = record { is_const = false; is_volatile = false };
    ref_q = none;
    variadic = false;
    noexcept = false;
  };
  virtuality = Virtuality.virtual;
  vtable_index = none;
  special = none;
  access = Access.public;
}

abbrev pub polymorphic : ClassDef → List MethodDef → ClassDef
polymorphic c ms = record c { is_polymorphic = true; methods = ms }

-- `struct A { virtual void fa(); int a; }`, `B : virtual A`, `C : virtual A`, `D : B, C`.
abbrev pub diamond : CxxTypeCtx
diamond = with_classes (
    polymorphic (struct [] (field 1 ∷ [])) (virtual_method (codes "fa") ∷ [])
    ∷ polymorphic (struct (virtual_base 0 ∷ []) (field 1 ∷ [])) (virtual_method (codes "fb") ∷ [])
    ∷ polymorphic (struct (virtual_base 0 ∷ []) (field 1 ∷ [])) (virtual_method (codes "fc") ∷ [])
    ∷ polymorphic (struct (plain_base 1 ∷ plain_base 2 ∷ []) (field 1 ∷ []))
        (virtual_method (codes "fd") ∷ [])
    ∷ [])
