-- ===== src/Abi/Types.antt =====
-- crates/rustc_abi_cxx/src/ty.rs, target.rs and diag.rs: the data of every query.
use rustcc.Prelude.{ℕ, List, Option, Bool, ℕ_discrete}

-- `ClassId`, `FieldId`, `MethodId`, `TypeId` wrap a `u32` index.
abbrev pub ClassId : Type 0
ClassId = ℕ

abbrev pub FieldId : Type 0
FieldId = ℕ

abbrev pub MethodId : Type 0
MethodId = ℕ

abbrev pub TypeId : Type 0
TypeId = ℕ

-- `Ident(String)`, as the UTF-8 bytes of the text.
abbrev pub Ident : Type 0
Ident = List ℕ

-- An `i128` constant: `negsuc n` is -(n + 1).
pub data ℤ : Type 0 where
  pos : ℕ → ℤ
  negsuc : ℕ → ℤ

pub data IntWidth : Type 0 where
  i8 i16 i32 i64 i128 : IntWidth

pub data FloatKind : Type 0 where
  f32 f64 long_double : FloatKind

pub record CvQual : Type 0 where
  pub is_const : Bool
  pub is_volatile : Bool

pub data RefKind : Type 0 where
  lvalue rvalue : RefKind

pub record FnSig : Type 0 where
  pub params : List TypeId
  pub ret : TypeId
  pub cv : CvQual
  pub ref_q : Option RefKind
  pub variadic : Bool
  pub noexcept : Bool

-- `NestedName(Vec<NameSegment>)` and its parts are mutually recursive, so the vectors are types
-- of the block.
mutual
  pub data NameSegment : Type 0 where
    namespace_seg : Ident → NameSegment
    class_seg : Ident → NameSegment
    enum_seg : Ident → NameSegment
    template_spec : Ident → TemplateArgs → NameSegment
    anonymous_namespace : NameSegment

  pub data NestedName : Type 0 where
    no_segment : NestedName
    segment : NameSegment → NestedName → NestedName

  pub data TemplateArg : Type 0 where
    type_arg : TypeId → TemplateArg
    integral : ℤ → TypeId → TemplateArg
    template_arg : NestedName → TemplateArg

  pub data TemplateArgs : Type 0 where
    no_arg : TemplateArgs
    arg : TemplateArg → TemplateArgs → TemplateArgs

pub data CxxType : Type 0 where
  void bool : CxxType
  int : Bool → IntWidth → CxxType
  float : FloatKind → CxxType
  ptr : TypeId → CvQual → CxxType
  ref : TypeId → RefKind → CvQual → CxxType
  array : TypeId → ℕ → CxxType
  record_type : ClassId → CxxType
  enum_type : NestedName → TypeId → Bool → CxxType
  fn : FnSig → CxxType
  member_ptr : ClassId → TypeId → CxxType

pub data RecordKind : Type 0 where
  class struct union : RecordKind

pub data Virtuality : Type 0 where
  non_virtual virtual pure_virtual : Virtuality

pub data Access : Type 0 where
  public protected private : Access

pub data SpecialMember : Type 0 where
  default_ctor copy_ctor move_ctor other_ctor copy_assign move_assign dtor : SpecialMember

pub data OperatorKind : Type 0 where
  plus minus mul div rem assign plus_assign eq ne lt le gt ge call index deref : OperatorKind
  pre_incr pre_decr : OperatorKind

pub data MethodName : Type 0 where
  ident : Ident → MethodName
  operator : OperatorKind → MethodName
  conversion_to : TypeId → MethodName

pub record BaseSpec : Type 0 where
  pub class : ClassId
  pub is_virtual : Bool
  pub access : Access

pub record FieldDef : Type 0 where
  pub name : Ident
  pub ty : TypeId
  pub explicit_align : Option ℕ

pub record MethodDef : Type 0 where
  pub name : MethodName
  pub sig : FnSig
  pub virtuality : Virtuality
  pub vtable_index : Option ℕ
  pub special : Option SpecialMember
  pub access : Access

pub record ClassDef : Type 0 where
  pub name : NestedName
  pub bases : List BaseSpec
  pub fields : List FieldDef
  pub methods : List MethodDef
  pub kind : RecordKind
  pub is_polymorphic : Bool
  pub is_final : Bool
  pub source_alignment : Option ℕ

-- `LayoutError` of diag.rs.
pub data LayoutError : Type 0 where
  recursive_value_member : ClassId → FieldId → LayoutError
  virtual_base_unsupported : ClassId → ClassId → LayoutError
  multiple_bases_unsupported : ClassId → LayoutError
  unsized_field : ClassId → FieldId → LayoutError
  alignment_overflow : ClassId → LayoutError

-- Where a class came from: a C++ header, or a Rust declaration with `#[repr(cpp)]`.
pub data TypeOrigin : Type 0 where
  cxx rust_repr_cpp : TypeOrigin

-- The derived `PartialEq` of the types that the queries compare.
unfoldable pub CxxType-discrete : Discrete CxxType
unfolding ℕ_discrete
CxxType-discrete = hlevel ℕ_discrete

unfoldable pub MethodName-discrete : Discrete MethodName
unfolding ℕ_discrete
MethodName-discrete = hlevel ℕ_discrete

unfoldable pub CvQual-discrete : Discrete CvQual
CvQual-discrete = hlevel

unfoldable pub TypeIds-discrete : Discrete (List TypeId)
unfolding ℕ_discrete
TypeIds-discrete = hlevel ℕ_discrete
