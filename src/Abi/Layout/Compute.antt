-- ===== src/Abi/Layout/Compute.antt =====
-- `compute_layout` of layout.rs. It recurs on the classes of bases and members; `fuel` bounds how
-- deep, where the source would exhaust the stack on a class that contains itself.
use rustcc.Prelude.{ℕ, zero, suc, ◌+◌, max, Bool, true, false, ◌||◌, ◌==◌, if◌then◌else◌}
use rustcc.Prelude.{Option, none, some, List, [], ◌∷◌, push, Outcome, ok, stuck, ◌>>=◌, or_panic}
use rustcc.Prelude.{checked}
use rustcc.Abi.Types.{ClassId, ClassDef, BaseSpec, FieldDef, RecordKind, LayoutError}
use rustcc.Abi.Context.{CxxTypeCtx, class_of}
use rustcc.Abi.Layout.State.{RecordLayout, LayoutState, HfaKind, new, align_up}
use rustcc.Abi.Layout.Classify.{has_virtual_base_chain, collect_virtual_bases, pick_primary_base}
use rustcc.Abi.Layout.Classify.{is_pod_for_layout, is_empty_class}
use rustcc.Abi.Layout.Hfa.{detect_hfa}
use rustcc.Abi.Layout.Place.{Step, type_size_align, allocate_vptr, place_base, place_field}
use rustcc.Abi.Layout.Place.{place_union_field}

abbrev pub Measure : Type 0
Measure = ClassId → Outcome LayoutError RecordLayout

abbrev pub is_class : Option ClassId → ClassId → Bool
is_class none id = false
is_class (some p) id = p == id

-- Step 1: the primary base, or a fresh vptr.
unfoldable pub place_head : CxxTypeCtx → Measure → Option ClassId → Bool → LayoutState → Step
unfolding place_base allocate_vptr
place_head ctx measure (some id) needs_vptr s = place_base measure s id true
place_head ctx measure none true s = ok (allocate_vptr ctx s)
place_head ctx measure none false s = ok s

-- Step 2: the other non-virtual bases.
unfoldable pub place_bases : Measure → Option ClassId → List BaseSpec → LayoutState → Step
unfolding place_base
place_bases measure primary [] s = ok s
place_bases measure primary (b ∷ bs) s = do
  t ← if b.is_virtual || is_class primary b.class then ok s else place_base measure s b.class false
  place_bases measure primary bs t

-- Step 3: the members in declaration order, from index `idx` on.
unfoldable pub place_members :
    (LayoutState → FieldDef → ℕ → Step) → List FieldDef → ℕ → LayoutState → Step
place_members place [] idx s = ok s
place_members place (f ∷ fs) idx s = do t ← place s f idx; place_members place fs (idx + 1) t

-- The members of a union all start at 0.
unfoldable pub place_union : CxxTypeCtx → Measure → ℕ → ClassId → ClassDef → Step
unfolding place_members place_union_field type_size_align
place_union ctx measure fuel id class = do
  s ← place_members (place_union_field ctx (type_size_align ctx measure fuel) id) class.fields 0 new
  ok (record s { dsize = s.size })

-- Does the class need a vptr? The chain of bases is asked only for a class that is not polymorphic.
unfoldable pub needs_vptr : CxxTypeCtx → ℕ → ClassId → ClassDef → Outcome LayoutError Bool
needs_vptr ctx fuel id class =
    if class.is_polymorphic then ok true else has_virtual_base_chain ctx fuel id

-- `fuel` is what is left for the classes of the bases and for the types of the members.
unfoldable pub place_record : CxxTypeCtx → Measure → ℕ → ClassId → ClassDef → Step
unfolding place_head place_bases place_members place_field type_size_align needs_vptr
place_record ctx measure fuel id class = do
  primary ← pick_primary_base ctx class
  needs ← needs_vptr ctx (suc fuel) id class
  s ← place_head ctx measure primary needs new
  t ← place_bases measure primary class.bases s
  place_members (place_field ctx (type_size_align ctx measure fuel) id) class.fields 0 t

-- Steps 1 to 3, by the kind of the record.
unfoldable pub place_all : CxxTypeCtx → Measure → ℕ → ClassId → ClassDef → RecordKind → Step
unfolding place_union place_record
place_all ctx measure fuel id class RecordKind.union = place_union ctx measure fuel id class
place_all ctx measure fuel id class RecordKind.struct = place_record ctx measure fuel id class
place_all ctx measure fuel id class RecordKind.class = place_record ctx measure fuel id class

-- Step 4: `alignas` on the class.
unfoldable pub apply_alignas : Option ℕ → LayoutState → LayoutState
apply_alignas none s = s
apply_alignas (some a) s = record s { align = max s.align a }

unfoldable pub nv_size : Bool → Bool → LayoutState → Outcome LayoutError ℕ
unfolding align_up
nv_size true is_pod s = ok 0
nv_size false true s = align_up s.dsize (max s.align 1)
nv_size false false s = ok s.dsize

-- Step 5: the virtual bases, past `vbase_end`.
unfoldable pub place_virtual_bases : Measure → List ClassId → ℕ → LayoutState → Step
unfolding align_up
place_virtual_bases measure [] vbase_end s = ok s
place_virtual_bases measure (v ∷ vs) vbase_end s = do
  l ← measure v
  off ← align_up vbase_end l.nv_align_bytes
  end ← checked (off + l.nv_size_bytes)
  place_virtual_bases measure vs end (record s {
    virtual_base_offsets = push s.virtual_base_offsets (v, off);
    size = max s.size end;
    align = max s.align l.align_bytes;
  })

-- Step 6: the final size; an empty record takes a byte before it is rounded up.
unfoldable pub final_size : LayoutState → Outcome LayoutError ℕ
unfolding align_up
final_size s = let raw = max s.size s.dsize in align_up (if raw == 0 then 1 else raw) s.align

-- The result, from the state `n` before the virtual bases and the state `s` behind them.
unfoldable pub finish : LayoutState → LayoutState → Bool → ℕ → ℕ → Option HfaKind → RecordLayout
finish n s is_pod nv size hfa = record {
  size_bytes = size;
  align_bytes = s.align;
  data_size_bytes = if is_pod then size else max s.size s.dsize;
  nv_size_bytes = nv;
  nv_align_bytes = n.align;
  has_vptr = s.has_vptr;
  field_offsets = s.field_offsets;
  field_bit_offsets = s.field_bit_offsets;
  field_bit_widths = s.field_bit_widths;
  base_offsets = s.base_offsets;
  virtual_base_offsets = s.virtual_base_offsets;
  empty_subobjects = s.empty_subobjects;
  hfa_kind = hfa;
}

unfoldable pub compute_layout : CxxTypeCtx → ℕ → Measure
unfolding place_all apply_alignas nv_size place_virtual_bases final_size finish
compute_layout ctx zero id = stuck
compute_layout ctx (suc fuel) id = do
  class ← or_panic (class_of ctx id)
  placed ← place_all ctx (compute_layout ctx fuel) fuel id class class.kind
  let n = apply_alignas class.source_alignment placed
  is_pod ← is_pod_for_layout ctx (suc fuel) id
  is_empty ← is_empty_class ctx (suc fuel) id
  nv ← nv_size is_empty is_pod n
  vbases ← collect_virtual_bases ctx (suc fuel) id
  s ← place_virtual_bases (compute_layout ctx fuel) vbases n.dsize n
  size ← final_size s
  hfa ← detect_hfa ctx (suc fuel) id
  ok (finish n s is_pod nv size hfa)
