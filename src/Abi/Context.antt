-- ===== src/Abi/Context.antt =====
-- crates/rustc_abi_cxx/src/ctx.rs: the arena of classes and types, and its side tables. An
-- operation on `&mut self` returns the new context; an index out of range is `none` here and a
-- panic where a query reads it. The laws are in the modules below.
pub mod Intern
pub mod SideTables
pub mod Classes
use package.rustcc.Prelude.{
  ℕ, zero, suc, ◌+◌, ◌%◌, ◌^◌, Bool, true, false, ◌||◌, ◌==◌, ltb, if◌then◌else◌,
}
use package.rustcc.Prelude.{Option, none, some, List, [], ◌∷◌, length, get_elem?, set, push}
use package.rustcc.Prelude.Assoc.{lookup, insert, remove, nat_key, pair_key}
use package.rustcc.Abi.Types.{
  ClassId, TypeId, ClassDef, CxxType, CxxType-discrete, TypeOrigin, Ident, ℤ,
}
use package.rustcc.Abi.Types.{cxx, rust_repr_cpp}
use package.rustcc.Abi.Target.{Target}

-- A float is kept as the bits of its `f64` pattern: the context only stores it.
pub data DefaultArgValue : Type 0 where
  int : ℤ → DefaultArgValue
  uint : ℕ → DefaultArgValue
  float : ℕ → DefaultArgValue

pub record RustEnumVariant : Type 0 where
  pub name : Ident
  pub discriminant : Option ℤ

pub record RustEnumDef : Type 0 where
  pub rust_name : Ident
  pub cpp_name : Ident
  pub underlying : TypeId
  pub variants : List RustEnumVariant

-- A hash set is a map to the unit type.
pub record CxxTypeCtx : Type 0 where
  pub target : Target
  pub classes : List ClassDef
  pub class_origins : List TypeOrigin
  pub poison_reasons : List (ClassId × Ident)
  pub static_methods : List ((ClassId × ℕ) × Unit {0})
  pub inline_methods : List ((ClassId × ℕ) × Unit {0})
  pub default_arg_counts : List ((ClassId × ℕ) × ℕ)
  pub default_arg_vectors : List ((ClassId × ℕ) × List (Option DefaultArgValue))
  pub bitfield_widths : List ((ClassId × ℕ) × ℕ)
  pub pragma_packs : List (ClassId × ℕ)
  pub packed : List (ClassId × Unit {0})
  pub rust_enums : List RustEnumDef
  pub types : List CxxType

-- The cast `n as u32` that makes an index an id.
abbrev pub as_u32 : ℕ → ℕ
as_u32 n = n % 2 ^ 32

abbrev is_some {ℓ} : {A : Type ℓ} → Option A → Bool
is_some none = false
is_some (some a) = true

unfoldable pub new : Target → CxxTypeCtx
new target = record {
  target = target;
  classes = [];
  class_origins = [];
  poison_reasons = [];
  static_methods = [];
  inline_methods = [];
  default_arg_counts = [];
  default_arg_vectors = [];
  bitfield_widths = [];
  pragma_packs = [];
  packed = [];
  rust_enums = [];
  types = [];
}

unfoldable pub poison : CxxTypeCtx → ClassId → Ident → CxxTypeCtx
unfolding insert
poison ctx id reason = record ctx { poison_reasons = insert id reason ctx.poison_reasons }

unfoldable pub poison_reason : CxxTypeCtx → ClassId → Option Ident
unfolding lookup
poison_reason ctx id = lookup id ctx.poison_reasons

unfoldable pub is_poisoned : CxxTypeCtx → ClassId → Bool
unfolding lookup
is_poisoned ctx id = is_some (lookup id ctx.poison_reasons)

unfoldable pub unpoison : CxxTypeCtx → ClassId → CxxTypeCtx
unfolding remove
unpoison ctx id = record ctx { poison_reasons = remove id ctx.poison_reasons }

unfoldable pub mark_method_static : CxxTypeCtx → ClassId → ℕ → CxxTypeCtx
unfolding insert
mark_method_static ctx class idx = record ctx {
  static_methods = insert (class, idx) tt ctx.static_methods;
}

unfoldable pub is_method_static : CxxTypeCtx → ClassId → ℕ → Bool
unfolding lookup
is_method_static ctx class idx = is_some (lookup (class, idx) ctx.static_methods)

unfoldable pub mark_method_inline : CxxTypeCtx → ClassId → ℕ → CxxTypeCtx
unfolding insert
mark_method_inline ctx class idx = record ctx {
  inline_methods = insert (class, idx) tt ctx.inline_methods;
}

unfoldable pub is_method_inline : CxxTypeCtx → ClassId → ℕ → Bool
unfolding lookup
is_method_inline ctx class idx = is_some (lookup (class, idx) ctx.inline_methods)

unfoldable pub record_default_arg_count : CxxTypeCtx → ClassId → ℕ → ℕ → CxxTypeCtx
unfolding insert
record_default_arg_count ctx class idx count =
    if ltb 0 count
    then record ctx { default_arg_counts = insert (class, idx) count ctx.default_arg_counts }
    else ctx

-- `get(..).copied().unwrap_or(0)`.
abbrev pub unwrap_or {ℓ} : {A : Type ℓ} → Option A → A → A
unwrap_or none d = d
unwrap_or (some a) d = a

unfoldable pub default_arg_count : CxxTypeCtx → ClassId → ℕ → ℕ
unfolding lookup
default_arg_count ctx class idx = unwrap_or (lookup (class, idx) ctx.default_arg_counts) 0

abbrev pub any_some {ℓ} : {A : Type ℓ} → List (Option A) → Bool
any_some [] = false
any_some (v ∷ vs) = is_some v || any_some vs

unfoldable pub record_default_arg_values :
    CxxTypeCtx → ClassId → ℕ → List (Option DefaultArgValue) → CxxTypeCtx
unfolding insert
record_default_arg_values ctx class idx values =
    if any_some values
    then record ctx { default_arg_vectors = insert (class, idx) values ctx.default_arg_vectors }
    else ctx

-- `v.get(i).copied().flatten()`.
abbrev pub get_flat {ℓ} : {A : Type ℓ} → List (Option A) → ℕ → Option A
get_flat vs i = unwrap_or (get_elem? vs i) none

unfoldable pub default_arg_value : CxxTypeCtx → ClassId → ℕ → ℕ → Option DefaultArgValue
unfolding lookup
default_arg_value ctx class idx trailing_idx =
    get_flat (unwrap_or (lookup (class, idx) ctx.default_arg_vectors) []) trailing_idx

unfoldable pub record_bitfield_width : CxxTypeCtx → ClassId → ℕ → ℕ → CxxTypeCtx
unfolding insert
record_bitfield_width ctx class idx width = record ctx {
  bitfield_widths = insert (class, idx) width ctx.bitfield_widths;
}

unfoldable pub bitfield_width : CxxTypeCtx → ClassId → ℕ → Option ℕ
unfolding lookup
bitfield_width ctx class idx = lookup (class, idx) ctx.bitfield_widths

unfoldable pub is_bitfield : CxxTypeCtx → ClassId → ℕ → Bool
unfolding lookup
is_bitfield ctx class idx = is_some (lookup (class, idx) ctx.bitfield_widths)

unfoldable pub any_key : ClassId → List ((ClassId × ℕ) × ℕ) → Bool
any_key class [] = false
any_key class (((c, i), w) ∷ m) = c == class || any_key class m

unfoldable pub class_has_bitfields : CxxTypeCtx → ClassId → Bool
unfolding any_key
class_has_bitfields ctx class = any_key class ctx.bitfield_widths

unfoldable pub set_pragma_pack : CxxTypeCtx → ClassId → ℕ → CxxTypeCtx
unfolding insert
set_pragma_pack ctx class pack = record ctx { pragma_packs = insert class pack ctx.pragma_packs }

unfoldable pub pragma_pack : CxxTypeCtx → ClassId → Option ℕ
unfolding lookup
pragma_pack ctx class = lookup class ctx.pragma_packs

unfoldable pub set_packed : CxxTypeCtx → ClassId → CxxTypeCtx
unfolding insert
set_packed ctx class = record ctx { packed = insert class tt ctx.packed }

unfoldable pub is_packed : CxxTypeCtx → ClassId → Bool
unfolding lookup
is_packed ctx class = is_some (lookup class ctx.packed)

unfoldable pub define_rust_enum : CxxTypeCtx → RustEnumDef → ℕ × CxxTypeCtx
define_rust_enum ctx def =
    (as_u32 (length ctx.rust_enums), record ctx { rust_enums = push ctx.rust_enums def })

unfoldable pub rust_enum : CxxTypeCtx → ℕ → Option RustEnumDef
rust_enum ctx id = get_elem? ctx.rust_enums id

unfoldable pub define_class_with_origin : CxxTypeCtx → ClassDef → TypeOrigin → ClassId × CxxTypeCtx
define_class_with_origin ctx def origin = (
  as_u32 (length ctx.classes),
  record ctx { classes = push ctx.classes def; class_origins = push ctx.class_origins origin },
)

unfoldable pub define_class : CxxTypeCtx → ClassDef → ClassId × CxxTypeCtx
unfolding define_class_with_origin
define_class ctx def = define_class_with_origin ctx def cxx

unfoldable pub define_rust_class : CxxTypeCtx → ClassDef → ClassId × CxxTypeCtx
unfolding define_class_with_origin
define_rust_class ctx def = define_class_with_origin ctx def rust_repr_cpp

abbrev pub class_of : CxxTypeCtx → ClassId → Option ClassDef
class_of ctx id = get_elem? ctx.classes id

-- A write through `class_mut`.
unfoldable pub set_class : CxxTypeCtx → ClassId → ClassDef → CxxTypeCtx
set_class ctx id def = record ctx { classes = set ctx.classes id def }

unfoldable pub class_origin : CxxTypeCtx → ClassId → Option TypeOrigin
class_origin ctx id = get_elem? ctx.class_origins id

-- The ids `lo, lo + 1, …` of `n` entries.
range_from : ℕ → ℕ → List ℕ
range_from zero lo = []
range_from (suc n) lo = lo ∷ range_from n (lo + 1)

unfoldable pub class_ids : CxxTypeCtx → List ClassId
unfolding range_from
class_ids ctx = range_from (as_u32 (length ctx.classes)) 0

abbrev is_rust : TypeOrigin → Bool
is_rust cxx = false
is_rust rust_repr_cpp = true

abbrev is_cxx : TypeOrigin → Bool
is_cxx cxx = true
is_cxx rust_repr_cpp = false

-- `iter().enumerate().filter_map(..)`, from index `i` on.
select : (TypeOrigin → Bool) → ℕ → List TypeOrigin → List ClassId
select p i [] = []
select p i (o ∷ os) = let rest = select p (i + 1) os in if p o then as_u32 i ∷ rest else rest

unfoldable pub rust_classes : CxxTypeCtx → List ClassId
unfolding select
rust_classes ctx = select is_rust 0 ctx.class_origins

unfoldable pub cxx_classes : CxxTypeCtx → List ClassId
unfolding select
cxx_classes ctx = select is_cxx 0 ctx.class_origins

-- `types.iter().position(|t| t == ty)`, from index `i` on.
position : CxxType → ℕ → List CxxType → Option TypeId
unfolding CxxType-discrete
position ty i [] = none
position ty i (t ∷ ts) = elim (CxxType-discrete t ty) [
  | yes _ ↦ some i
  | no _ ↦ position ty (i + 1) ts
]

unfoldable pub intern_type : CxxTypeCtx → CxxType → TypeId × CxxTypeCtx
unfolding position
intern_type ctx ty = elim (position ty 0 ctx.types) [
  | some idx ↦ (as_u32 idx, ctx)
  | none ↦ (as_u32 (length ctx.types), record ctx { types = push ctx.types ty })
]

abbrev pub type_of : CxxTypeCtx → TypeId → Option CxxType
type_of ctx id = get_elem? ctx.types id
