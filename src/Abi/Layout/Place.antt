-- ===== src/Abi/Layout/Place.antt =====
-- The placement steps of the engine (layout.rs): vptr, bases, fields, bit-fields and members of a
-- union. `measure` stands for `compute_layout` on another class, one level down.
use rustcc.Prelude.{ℕ, zero, suc, ◌+◌, ◌*◌, ◌/◌, ◌%◌, max, min, Bool, true, false, ◌&&◌, ◌||◌}
use rustcc.Prelude.{◌==◌, leb, if◌then◌else◌, Option, none, some, List, [], ◌∷◌, ◌++◌, length, push}
use rustcc.Prelude.{Outcome, ok, err, stuck, ◌>>=◌, or_panic, map_err, checked, saturating_mul}
use rustcc.Abi.Types.{ClassId, TypeId, FieldDef, LayoutError, unsized_field, CxxType, IntWidth}
use rustcc.Abi.Types.{
  FloatKind, void, bool, int, float, ptr, ref, array, record_type, enum_type, fn,
}
use rustcc.Abi.Types.{member_ptr}
use rustcc.Abi.Target.{LongDoubleKind}
use rustcc.Abi.Context.{CxxTypeCtx, as_u32, type_of, bitfield_width, is_packed}
use rustcc.Abi.Layout.State.{RecordLayout, BitfieldAu, LayoutState, align_up}

abbrev pub Step : Type 0
Step = Outcome LayoutError LayoutState

unfoldable pub pointer_size : CxxTypeCtx → ℕ
pointer_size ctx = ctx.target.pointer_width_bits / 8

unfoldable pub int_bytes : IntWidth → ℕ
int_bytes IntWidth.i8 = 1
int_bytes IntWidth.i16 = 2
int_bytes IntWidth.i32 = 4
int_bytes IntWidth.i64 = 8
int_bytes IntWidth.i128 = 16

unfoldable pub float_bytes : CxxTypeCtx → FloatKind → ℕ
float_bytes ctx FloatKind.f32 = 4
float_bytes ctx FloatKind.f64 = 8
float_bytes ctx FloatKind.long_double = elim ctx.target.long_double [
  | LongDoubleKind.f64 ↦ 8
  | LongDoubleKind.f80 ↦ 16
  | LongDoubleKind.f128 ↦ 16
]

-- The error of the source is `()`.
abbrev pub SizeAlign : Type 0
SizeAlign = Outcome (Unit {0}) (ℕ × ℕ)

-- The cases of `type_size_align`: `inner` measures a type inside the type, `measure` a class.
unfoldable pub size_of :
    CxxTypeCtx
    → (TypeId → SizeAlign)
    → (ClassId → Outcome LayoutError RecordLayout)
    → CxxType
    → SizeAlign
unfolding pointer_size int_bytes float_bytes
size_of ctx inner measure void = err tt
size_of ctx inner measure bool = ok (1, 1)
size_of ctx inner measure (int signed width) = ok (int_bytes width, int_bytes width)
size_of ctx inner measure (float kind) = ok (float_bytes ctx kind, float_bytes ctx kind)
size_of ctx inner measure (ptr pointee cv) = ok (pointer_size ctx, pointer_size ctx)
size_of ctx inner measure (ref pointee kind cv) = ok (pointer_size ctx, pointer_size ctx)
size_of ctx inner measure (array elem len) = do
  (es, ea) ← inner elem
  ok (saturating_mul es len, ea)
size_of ctx inner measure (record_type id) = do
  r ← map_err (λ _. tt) (measure id)
  ok (r.size_bytes, r.align_bytes)
size_of ctx inner measure (enum_type name underlying scoped) = inner underlying
size_of ctx inner measure (fn sig) = ok (pointer_size ctx, pointer_size ctx)
size_of ctx inner measure (member_ptr class pointee) = err tt

unfoldable pub type_size_align :
    CxxTypeCtx → (ClassId → Outcome LayoutError RecordLayout) → ℕ → TypeId → SizeAlign
unfolding size_of
type_size_align ctx measure zero ty = stuck
type_size_align ctx measure (suc fuel) ty = do
  t ← or_panic (type_of ctx ty)
  size_of ctx (type_size_align ctx measure fuel) measure t

unfoldable pub allocate_vptr : CxxTypeCtx → LayoutState → LayoutState
unfolding pointer_size
allocate_vptr ctx s = record s {
  size = pointer_size ctx;
  dsize = pointer_size ctx;
  align = max s.align (pointer_size ctx);
  has_vptr = true;
}

-- Is `(id, off)` among the placed empty subobjects?
unfoldable pub occupied : ClassId → ℕ → List (ClassId × ℕ) → Bool
occupied id off [] = false
occupied id off ((j, o) ∷ rest) = j == id && o == off || occupied id off rest

-- The search loop of `find_empty_base_offset`, from `candidate` on.
unfoldable pub search_offset : ClassId → ℕ → List (ClassId × ℕ) → ℕ → ℕ → Outcome LayoutError ℕ
unfolding occupied
search_offset id step empties zero candidate = stuck
search_offset id step empties (suc fuel) candidate =
    let next = checked (candidate + step) >>= search_offset id step empties fuel in
    if occupied id candidate empties then next else ok candidate

-- Each round that fails meets another placed subobject, so one round more than there are is enough.
unfoldable pub find_empty_base_offset :
    List (ClassId × ℕ) → ClassId → RecordLayout → Outcome LayoutError ℕ
unfolding search_offset
find_empty_base_offset empties id layout =
    search_offset id (max layout.align_bytes 1) empties (suc (length empties)) 0

-- The three branches of `place_base`, on the layout of the base.
unfoldable pub place_primary : LayoutState → ClassId → RecordLayout → Step
place_primary s id b = ok (record s {
  size = max s.size b.nv_size_bytes;
  dsize = max s.dsize b.nv_size_bytes;
  align = max s.align b.align_bytes;
  has_vptr = s.has_vptr || b.has_vptr;
  empty_subobjects = s.empty_subobjects ++ b.empty_subobjects;
  base_offsets = push s.base_offsets (id, 0);
})

unfoldable pub place_empty : LayoutState → ClassId → RecordLayout → Step
unfolding find_empty_base_offset
place_empty s id b = do
  off ← find_empty_base_offset s.empty_subobjects id b
  ok (record s {
    align = max s.align b.align_bytes;
    empty_subobjects = push s.empty_subobjects (id, off);
    base_offsets = push s.base_offsets (id, off);
  })

unfoldable pub place_non_empty : LayoutState → ClassId → RecordLayout → Step
unfolding align_up
place_non_empty s id b = do
  off ← align_up s.dsize b.nv_align_bytes
  end ← checked (off + b.nv_size_bytes)
  ok (record s {
    size = max s.size end;
    dsize = end;
    align = max s.align b.align_bytes;
    base_offsets = push s.base_offsets (id, off);
  })

unfoldable pub place_base :
    (ClassId → Outcome LayoutError RecordLayout) → LayoutState → ClassId → Bool → Step
unfolding place_primary place_empty place_non_empty
place_base measure s id is_primary = do
  b ← measure id
  if is_primary
      then place_primary s id b
      else if b.nv_size_bytes == 0
      then place_empty s id b
      else place_non_empty s id b

abbrev pub unwrap_or : Option ℕ → ℕ → ℕ
unwrap_or none d = d
unwrap_or (some n) d = n

-- The record of a member of `width` bits (0 for a plain field) at a byte and a bit of it.
abbrev pub note : LayoutState → ℕ → ℕ → ℕ → LayoutState
note s offset bit width = record s {
  field_offsets = push s.field_offsets offset;
  field_bit_offsets = push s.field_bit_offsets bit;
  field_bit_widths = push s.field_bit_widths width;
}

-- A plain field of the given size and effective alignment.
unfoldable pub put_field : LayoutState → ℕ → ℕ → Step
unfolding align_up
put_field s size align = do
  offset ← align_up s.dsize align
  end ← checked (offset + size)
  ok (record (note s offset 0 0) {
    size = max s.size end;
    dsize = end;
    align = max s.align align;
    bitfield_au = none;
  })

-- A bit-field of width 0 closes the open unit.
unfoldable pub put_boundary : LayoutState → ℕ → Step
unfolding align_up
put_boundary s align = do
  dsize ← elim s.bitfield_au [
    | none ↦ ok s.dsize
    | some au ↦ checked (au.offset + au.size_bytes) >>= λ au_end. ok (max s.dsize au_end)
  ]
  offset ← align_up dsize align
  ok (record (note s offset 0 0) {
    size = max s.size offset;
    dsize = dsize;
    align = max s.align align;
    bitfield_au = none;
  })

-- The next bits of the open unit.
unfoldable pub put_packed : LayoutState → BitfieldAu → ℕ → ℕ → ℕ → Step
put_packed s au align au_bits width = do
  byte ← checked (au.offset + au.used_bits / 8)
  used ← checked (au.used_bits + width)
  au_end ← checked (au.offset + au.size_bytes)
  ok (record (note s byte (au.used_bits % 8) width) {
    size = max s.size au_end;
    dsize = max s.dsize au_end;
    align = max s.align align;
    bitfield_au = if leb au_bits used then none else some (record au { used_bits = used });
  })

-- The first bits of a new unit.
unfoldable pub put_opened : LayoutState → ℕ → ℕ → ℕ → ℕ → Step
unfolding align_up
put_opened s size align au_bits width = do
  au_offset ← align_up s.dsize align
  au_end ← checked (au_offset + size)
  ok (record (note s au_offset 0 width) {
    size = max s.size au_end;
    dsize = max s.dsize au_end;
    align = max s.align align;
    bitfield_au =
        if leb au_bits (min width au_bits)
        then none
        else some (record { offset = au_offset; size_bytes = size; used_bits = min width au_bits });
  })

-- Do the bits go into the open unit? The sum is made only for a unit of the same size.
unfoldable pub fits : BitfieldAu → ℕ → ℕ → ℕ → Outcome LayoutError Bool
fits au size au_bits width =
    if au.size_bytes == size
    then (checked (au.used_bits + width) >>= λ used. ok (leb used au_bits))
    else ok false

unfoldable pub put_bits : LayoutState → ℕ → ℕ → ℕ → ℕ → Step
unfolding put_packed put_opened fits
put_bits s size align au_bits width = elim s.bitfield_au [
  | none ↦ put_opened s size align au_bits width
  | some au ↦ fits au size au_bits width >>= λ fit.
      if fit then put_packed s au align au_bits width else put_opened s size align au_bits width
]

unfoldable pub put_bitfield : LayoutState → ℕ → ℕ → ℕ → Step
unfolding put_boundary put_bits
put_bitfield s size align width = do
  au_bits ← checked (size * 8)
  if width == 0 then put_boundary s align else put_bits s size align au_bits width

unfoldable pub put_union_field : LayoutState → ℕ → ℕ → ℕ → LayoutState
put_union_field s size align width = record (note s 0 0 width) {
  size = max s.size size;
  align = max s.align align;
}

-- `field.explicit_align.unwrap_or(align).max(align).max(1)`.
unfoldable pub natural_align : FieldDef → ℕ → ℕ
natural_align field align = max (max (unwrap_or field.explicit_align align) align) 1

unfoldable pub field_align : Bool → FieldDef → ℕ → ℕ
unfolding natural_align
field_align packed field align =
    if packed then max (unwrap_or field.explicit_align 1) 1 else natural_align field align

module _ (ctx : CxxTypeCtx) (sizes : TypeId → SizeAlign) (class : ClassId) where
  -- `type_size_align(ctx, field.ty).map_err(..)`.
  unfoldable pub member_size : FieldDef → ℕ → Outcome LayoutError (ℕ × ℕ)
  member_size field idx = map_err (λ _. unsized_field class (as_u32 idx)) (sizes field.ty)

  unfoldable pub place_bitfield : LayoutState → FieldDef → ℕ → ℕ → Step
  unfolding member_size put_bitfield natural_align
  place_bitfield s field idx width = member_size field idx >>= λ (size, align).
      put_bitfield s size (natural_align field align) width

  unfoldable pub place_field : LayoutState → FieldDef → ℕ → Step
  unfolding member_size put_field field_align place_bitfield bitfield_width is_packed
  place_field s field idx = elim (bitfield_width ctx class idx) [
    | some width ↦ place_bitfield s field idx width
    | none ↦ member_size field idx >>= λ (size, align).
        put_field s size (field_align (is_packed ctx class) field align)
  ]

  unfoldable pub place_union_field : LayoutState → FieldDef → ℕ → Step
  unfolding member_size put_union_field natural_align bitfield_width
  place_union_field s field idx = member_size field idx >>= λ (size, align). ok (
      put_union_field s size (natural_align field align)
        (unwrap_or (bitfield_width ctx class idx) 0))
