-- ===== src/Abi/Msvc/Engine.antt =====
-- `compute_layout` of layout_msvc.rs. It recurs on the classes of bases and members; `fuel` bounds
-- how deep.
use rustcc.Prelude.{
  ℕ, zero, suc, ◌+◌, ◌*◌, max, Bool, true, false, not, ◌&&◌, ◌||◌, ltb, ◌==◌, if◌then◌else◌,
}
use rustcc.Prelude.{
  Option, none, some, List, [], ◌∷◌, push, Outcome, ok, stuck, ◌>>=◌, or_panic, checked,
}
use rustcc.Abi.Types.{
  ClassId, TypeId, ClassDef, BaseSpec, FieldDef, RecordKind, LayoutError, CxxType,
}
use rustcc.Abi.Types.{
  FloatKind, void, bool, int, float, ptr, ref, array, record_type, enum_type, fn, member_ptr,
}
use rustcc.Abi.Context.{CxxTypeCtx, class_of, type_of, bitfield_width, pragma_pack}
use rustcc.Abi.Layout.State.{RecordLayout, HfaKind}
use rustcc.Abi.Layout.Classify.{any_virtual_base}
use rustcc.Abi.Layout.Hfa.{detect_hfa}
use rustcc.Abi.Layout.Place.{pointer_size, int_bytes}
use rustcc.Abi.Layout.Compute.{Measure, compute_layout}
use rustcc.Abi.Target.{AbiFlavor}
use rustcc.Abi.Mangle.Types.{is_empty}
use rustcc.Abi.Msvc.State.{
  MsvcState, MsvcStep, initial, bump_align, round_up, round_up_cursor, advance, moved,
}

abbrev pub Sizes : Type 0
Sizes = Outcome LayoutError (ℕ × ℕ)

unfoldable pub msvc_float_bytes : FloatKind → ℕ
msvc_float_bytes FloatKind.f32 = 4
msvc_float_bytes FloatKind.f64 = 8
msvc_float_bytes FloatKind.long_double = 8

-- The cases of `type_size_align`: `inner` measures a type inside the type, `measure` a class.
unfoldable pub msvc_size_of : CxxTypeCtx → (TypeId → Sizes) → Measure → CxxType → Sizes
unfolding pointer_size int_bytes msvc_float_bytes
msvc_size_of ctx inner measure void = ok (0, 1)
msvc_size_of ctx inner measure bool = ok (1, 1)
msvc_size_of ctx inner measure (int signed width) = ok (int_bytes width, int_bytes width)
msvc_size_of ctx inner measure (float kind) = ok (msvc_float_bytes kind, msvc_float_bytes kind)
msvc_size_of ctx inner measure (ptr pointee cv) = ok (pointer_size ctx, pointer_size ctx)
msvc_size_of ctx inner measure (ref pointee kind cv) = ok (pointer_size ctx, pointer_size ctx)
msvc_size_of ctx inner measure (array elem len) = do
  (size, align) ← inner elem
  total ← checked (size * len)
  ok (total, align)
msvc_size_of ctx inner measure (record_type id) = do
  l ← measure id
  ok (l.size_bytes, l.align_bytes)
msvc_size_of ctx inner measure (enum_type name underlying scoped) = inner underlying
msvc_size_of ctx inner measure (fn sig) = ok (pointer_size ctx, pointer_size ctx)
msvc_size_of ctx inner measure (member_ptr class pointee) =
    ok (pointer_size ctx * 2, pointer_size ctx)

unfoldable pub msvc_size_align : CxxTypeCtx → Measure → ℕ → TypeId → Sizes
unfolding msvc_size_of
msvc_size_align ctx measure zero ty = stuck
msvc_size_align ctx measure (suc fuel) ty = do
  t ← or_panic (type_of ctx ty)
  msvc_size_of ctx (msvc_size_align ctx measure fuel) measure t

-- Is a non-virtual base polymorphic?
unfoldable pub any_polymorphic_base : CxxTypeCtx → List BaseSpec → Outcome LayoutError Bool
any_polymorphic_base ctx [] = ok false
any_polymorphic_base ctx (b ∷ bs) =
    let rest = any_polymorphic_base ctx bs in
    if b.is_virtual
    then rest
    else (or_panic (class_of ctx b.class) >>= λ def. if def.is_polymorphic then ok true else rest)

-- Step 1: the vptr of a polymorphic class, unless a base brings one.
unfoldable pub place_vptr : CxxTypeCtx → ClassDef → MsvcState → MsvcStep
unfolding any_polymorphic_base bump_align
place_vptr ctx class st = if not class.is_polymorphic then ok st else do
  primary ← any_polymorphic_base ctx class.bases
  ok (if primary then st else moved 8 (bump_align 8 (record st { has_vptr = true })))

-- `base_is_empty`.
unfoldable pub is_empty_layout : RecordLayout → Bool
is_empty_layout l =
    l.size_bytes == 0 || l.size_bytes == 1 && is_empty l.field_offsets && is_empty l.base_offsets

-- What the empty base optimization asks of the state.
unfoldable pub may_collapse : RecordLayout → MsvcState → Bool
unfolding is_empty_layout
may_collapse l st =
    is_empty_layout l && is_empty st.base_offsets && not st.has_vptr && not st.has_vbptr

unfoldable pub collapse : ClassId → MsvcState → MsvcState
collapse id st = record st {
  empty_subobjects = push st.empty_subobjects (id, st.cursor);
  base_offsets = push st.base_offsets (id, st.cursor);
}

-- A base that takes its full size.
unfoldable pub put_base : ClassId → RecordLayout → MsvcState → MsvcStep
unfolding round_up_cursor advance bump_align
put_base id l st = do
  st1 ← round_up_cursor (max l.align_bytes 1) st
  st2 ← advance l.size_bytes (record st1 { base_offsets = push st1.base_offsets (id, st1.cursor) })
  ok (record (bump_align (max l.align_bytes 1) st2) { has_vptr = l.has_vptr || st2.has_vptr })

unfoldable pub msvc_place_base : CxxTypeCtx → Measure → ClassId → MsvcState → MsvcStep
unfolding may_collapse collapse put_base
msvc_place_base ctx measure id st = do
  l ← measure id
  if not (may_collapse l st) then put_base id l st else do
    def ← or_panic (class_of ctx id)
    if def.is_polymorphic then put_base id l st else ok (collapse id st)

-- Step 2: the non-virtual bases.
unfoldable pub msvc_place_bases : CxxTypeCtx → Measure → List BaseSpec → MsvcState → MsvcStep
unfolding msvc_place_base
msvc_place_bases ctx measure [] st = ok st
msvc_place_bases ctx measure (b ∷ bs) st = do
  st' ← (if b.is_virtual then ok st else msvc_place_base ctx measure b.class st)
  msvc_place_bases ctx measure bs st'

-- Does a non-virtual base have a virtual base of its own?
unfoldable pub inherits_vbptr : CxxTypeCtx → List BaseSpec → Outcome LayoutError Bool
inherits_vbptr ctx [] = ok false
inherits_vbptr ctx (b ∷ bs) =
    let rest = inherits_vbptr ctx bs in
    if b.is_virtual
    then rest
    else (or_panic (class_of ctx b.class) >>= λ def.
        if any_virtual_base def.bases then ok true else rest)

-- Step 3: the vbptr.
unfoldable pub place_vbptr : CxxTypeCtx → ClassDef → MsvcState → MsvcStep
unfolding inherits_vbptr round_up_cursor advance bump_align
place_vbptr ctx class st = do
  inherited ← inherits_vbptr ctx class.bases
  if not (any_virtual_base class.bases && not inherited)
      then ok st
      else do st1 ← round_up_cursor 8 (bump_align 8 st); advance 8 (record st1 { has_vbptr = true })

-- A member of a size, an alignment and a bit width (0 for a plain field).
unfoldable pub put_member : ℕ → ℕ → ℕ → MsvcState → MsvcStep
unfolding round_up_cursor advance bump_align
put_member size align width st = do
  st1 ← round_up_cursor align (bump_align align st)
  advance size (record st1 {
    field_offsets = push st1.field_offsets st1.cursor;
    field_bit_offsets = push st1.field_bit_offsets 0;
    field_bit_widths = push st1.field_bit_widths width;
  })

abbrev pub raised : Option ℕ → ℕ → ℕ
raised none align = align
raised (some e) align = if ltb align e then e else align

-- A field by its bit width, if it has one.
unfoldable pub put_sized : Option ℕ → FieldDef → ℕ × ℕ → MsvcState → MsvcStep
unfolding put_member
put_sized none field (size, align) st = put_member size (raised field.explicit_align align) 0 st
put_sized (some width) field (size, align) st = put_member size align width st

-- Step 4: the fields, from index `idx` on.
unfoldable pub msvc_place_fields :
    CxxTypeCtx → (TypeId → Sizes) → ClassId → List FieldDef → ℕ → MsvcState → MsvcStep
unfolding put_sized bitfield_width
msvc_place_fields ctx sizes id [] idx st = ok st
msvc_place_fields ctx sizes id (f ∷ fs) idx st = do
  s ← sizes f.ty
  st' ← put_sized (bitfield_width ctx id idx) f s st
  msvc_place_fields ctx sizes id fs (idx + 1) st'

-- Steps 1 to 5: everything but the virtual bases.
unfoldable pub place_own : CxxTypeCtx → Measure → ℕ → ClassId → ClassDef → MsvcStep
unfolding initial pragma_pack place_vptr msvc_place_bases place_vbptr msvc_place_fields
    msvc_size_align
place_own ctx measure fuel id class = do
  st1 ← place_vptr ctx class (initial (pragma_pack ctx id))
  st2 ← msvc_place_bases ctx measure class.bases st1
  st3 ← place_vbptr ctx class st2
  st4 ← msvc_place_fields ctx (msvc_size_align ctx measure fuel) id class.fields 0 st3
  ok (record st4 { align = raised class.source_alignment st4.align })

-- Step 7: the virtual bases of the class itself.
unfoldable pub msvc_virtual_bases : Measure → List BaseSpec → MsvcState → MsvcStep
unfolding round_up_cursor advance bump_align
msvc_virtual_bases measure [] st = ok st
msvc_virtual_bases measure (b ∷ bs) st =
    if not b.is_virtual then msvc_virtual_bases measure bs st else do
      l ← measure b.class
      st1 ← round_up_cursor (max l.align_bytes 1) (bump_align (max l.align_bytes 1) st)
      st2 ← advance l.size_bytes (record st1 {
        virtual_base_offsets = push st1.virtual_base_offsets (b.class, st1.cursor);
      })
      msvc_virtual_bases measure bs st2

abbrev pub is_union : RecordKind → Bool
is_union RecordKind.union = true
is_union RecordKind.struct = false
is_union RecordKind.class = false

-- An empty class or struct takes a byte.
unfoldable pub at_least_one : ClassDef → MsvcState → ℕ → ℕ
at_least_one class st size =
    if is_empty class.fields
      && is_empty class.bases
      && not st.has_vptr
      && not st.has_vbptr
      && not (is_union class.kind)
    then max 1 size
    else size

unfoldable pub msvc_layout : MsvcState → ℕ → ℕ → ℕ → Option HfaKind → RecordLayout
msvc_layout st nv_size nv_align size hfa = record {
  size_bytes = size;
  align_bytes = max st.align 1;
  data_size_bytes = size;
  nv_size_bytes = nv_size;
  nv_align_bytes = nv_align;
  has_vptr = st.has_vptr;
  field_offsets = st.field_offsets;
  field_bit_offsets = st.field_bit_offsets;
  field_bit_widths = st.field_bit_widths;
  base_offsets = st.base_offsets;
  virtual_base_offsets = st.virtual_base_offsets;
  empty_subobjects = st.empty_subobjects;
  hfa_kind = hfa;
}

unfoldable pub layout_msvc : CxxTypeCtx → ℕ → Measure
unfolding place_own round_up msvc_virtual_bases at_least_one msvc_layout
layout_msvc ctx zero id = stuck
layout_msvc ctx (suc fuel) id = do
  class ← or_panic (class_of ctx id)
  own ← place_own ctx (layout_msvc ctx fuel) fuel id class
  nv_size ← round_up own.size (max own.align 1)
  st ← msvc_virtual_bases (layout_msvc ctx fuel) class.bases (moved nv_size own)
  rounded ← round_up st.size (max st.align 1)
  hfa ← detect_hfa ctx (suc fuel) id
  ok (msvc_layout st nv_size (max own.align 1) (at_least_one class st rounded) hfa)

-- `CxxTypeCtx::layout`.
unfoldable pub layout : CxxTypeCtx → ℕ → Measure
unfolding layout_msvc compute_layout
layout ctx fuel id = elim ctx.target.abi_flavor [
  | AbiFlavor.itanium ↦ compute_layout ctx fuel id
  | AbiFlavor.msvc ↦ layout_msvc ctx fuel id
]
