-- ===== src/Abi/Layout/Sizes.antt =====
-- The size and the alignments that `compute_layout` returns.
use rustcc.Prelude.{ℕ, zero, suc, ◌+◌, ◌*◌, ◌%◌, ◌≤◌, ◌<◌, max, ◌≡◌, sym, arith}
use rustcc.Prelude.{Bool, true, false, ◌==◌, if◌then◌else◌, Option, none, some, List, [], ◌∷◌}
use rustcc.Prelude.{ok, checked, >>=-eq-ok, ok_inj}
use mathlib.Core.Path.{subst}
use rustcc.Abi.Types.{ClassId}
use rustcc.Abi.Context.{CxxTypeCtx}
use rustcc.Abi.Layout.State.{RecordLayout, LayoutState, BitfieldAu, HfaKind, new, align_up}
use rustcc.Abi.Layout.Place.{
  allocate_vptr, place_primary, place_empty, place_non_empty, put_field, put_boundary, put_packed,
  put_opened, put_union_field, fits,
}
use rustcc.Abi.Layout.Compute.{Measure, apply_alignas, place_virtual_bases, final_size, finish}
use rustcc.Abi.Layout.Compute.{compute_layout}
use rustcc.Abi.Layout.Align.{align_up_lem}
use rustcc.Abi.Layout.Steps.{place_non_empty-inv, place_empty-inv, put_field-inv, put_boundary-inv}
use rustcc.Abi.Layout.Steps.{put_packed-inv, put_opened-inv}
use rustcc.Abi.Layout.Keeps.{KeepsBases, KeepsMembers, keeps_all}
use rustcc.Abi.Layout.Run.{Run, compute_layout-Run}

-- The working state: some alignment, and the cursor within the size.
pub record IsGrown (s : LayoutState) : Type 0 where
  pub aligned : 0 < s.align
  pub within : s.dsize ≤ s.size

abbrev Any : RecordLayout → Type 0
Any r = Unit

IsGrown-non_empty :
    (s t : LayoutState) (id : ClassId) (b : RecordLayout)
    → Any b
    → place_non_empty s id b ≡ ok t
    → IsGrown s
    → IsGrown t
IsGrown-non_empty s t id b _ h v =
    let (off, l, e) = place_non_empty-inv s t id b h in rw e (omega arith)

IsGrown-empty :
    (s t : LayoutState) (id : ClassId) (b : RecordLayout)
    → Any b
    → place_empty s id b ≡ ok t
    → IsGrown s
    → IsGrown t
IsGrown-empty s t id b _ h v = let (off, l, e) = place_empty-inv s t id b h in rw e (omega arith)

IsGrown-primary :
    (s t : LayoutState) (id : ClassId) (b : RecordLayout)
    → Any b
    → place_primary s id b ≡ ok t
    → IsGrown s
    → IsGrown t
unfolding place_primary
IsGrown-primary s t id b _ h v = rw (← ok_inj h) (omega arith)

IsGrown-plain :
    (s t : LayoutState) (size align : ℕ) → put_field s size align ≡ ok t → IsGrown s → IsGrown t
IsGrown-plain s t size align h v =
    let (off, l, e) = put_field-inv s t size align h in rw e (omega arith)

IsGrown-boundary :
    (s t : LayoutState) (align : ℕ) → put_boundary s align ≡ ok t → IsGrown s → IsGrown t
IsGrown-boundary s t align h v =
    let (off, l, e) = put_boundary-inv s t align h in rw e (omega arith)

IsGrown-packed :
    (s t : LayoutState) (au : BitfieldAu) (size align width : ℕ)
    → s.bitfield_au ≡ some au
    → fits au size (size * 8) width ≡ ok true
    → put_packed s au align (size * 8) width ≡ ok t
    → IsGrown s
    → IsGrown t
IsGrown-packed s t au size align width _ _ h v =
    rw (put_packed-inv s t au align (size * 8) width h) (omega arith)

IsGrown-opened :
    (s t : LayoutState) (size align width : ℕ)
    → put_opened s size align (size * 8) width ≡ ok t
    → IsGrown s
    → IsGrown t
IsGrown-opened s t size align width h v =
    let (off, l, e) = put_opened-inv s t size align (size * 8) width h in rw e (omega arith)

new-IsGrown : IsGrown new
unfolding new
new-IsGrown = omega arith

IsGrown-vptr : (ctx : CxxTypeCtx) (s : LayoutState) → IsGrown s → IsGrown (allocate_vptr ctx s)
unfolding allocate_vptr
IsGrown-vptr ctx s v = omega arith

IsGrown-member :
    (s : LayoutState) (size align width : ℕ)
    → IsGrown s
    → IsGrown (put_union_field s size align width)
unfolding put_union_field
IsGrown-member s size align width v = omega arith

IsGrown-KeepsBases : KeepsBases IsGrown Any
IsGrown-KeepsBases = record {
  vptr = IsGrown-vptr;
  primary = IsGrown-primary;
  empty = IsGrown-empty;
  non_empty = IsGrown-non_empty;
}

IsGrown-KeepsMembers : KeepsMembers IsGrown
IsGrown-KeepsMembers = record {
  plain = IsGrown-plain;
  boundary = IsGrown-boundary;
  packed = IsGrown-packed;
  opened = IsGrown-opened;
  member = IsGrown-member;
  closed = λ s v. omega arith;
}

pub IsGrown-alignas : (a : Option ℕ) (s : LayoutState) → IsGrown s → IsGrown (apply_alignas a s)
unfolding apply_alignas
IsGrown-alignas none s v = v
IsGrown-alignas (some a) s v = omega arith

-- Virtual bases leave the cursor, and only enlarge the size and the alignment.
pub place_virtual_bases-grows :
    (measure : Measure) (vs : List ClassId) (lo : ℕ) (s t : LayoutState)
    → place_virtual_bases measure vs lo s ≡ ok t
    → (s.size ≤ t.size) × (s.align ≤ t.align) × (t.dsize ≡ s.dsize)
unfolding place_virtual_bases
place_virtual_bases-grows measure [] lo s t h = rw (ok_inj h) (omega arith)
place_virtual_bases-grows measure (v ∷ vs) lo s t h =
    let (l, _, h0) = >>=-eq-ok (measure v) _ h in
    let (off, _, h1) = >>=-eq-ok (align_up lo l.nv_align_bytes) _ h0 in
    let (end, _, h2) = >>=-eq-ok (checked (off + l.nv_size_bytes)) _ h1 in
    omega (arith, place_virtual_bases-grows measure vs end _ t h2)

-- The final size is a multiple of the alignment and holds all that was placed.
pub final_size_lem :
    (s : LayoutState) {size : ℕ}
    → 0 < s.align
    → final_size s ≡ ok size
    → (0 < size) × (size % s.align ≡ 0) × (max s.size s.dsize ≤ size)
unfolding final_size
final_size_lem s {size} pos h =
    let l = align_up_lem (if max s.size s.dsize == 0 then 1 else max s.size s.dsize) s.align h in
    let a : max s.align 1 ≡ s.align = omega arith in
    let b = l.2 in (ground (arith, l), rw a at b, ground (arith, l))

-- What a layout says of its sizes and alignments.
pub record IsSized (r : RecordLayout) : Type 0 where
  pub positive : 0 < r.size_bytes
  pub aligned : 0 < r.align_bytes
  pub multiple : r.size_bytes % r.align_bytes ≡ 0
  pub data_within : r.data_size_bytes ≤ r.size_bytes
  pub nv_aligned : 0 < r.nv_align_bytes
  pub nv_within : r.nv_align_bytes ≤ r.align_bytes

finish-IsSized :
    (n s : LayoutState) (is_pod : Bool) (nv size : ℕ) (hfa : Option HfaKind)
    → 0 < n.align
    → n.align ≤ s.align
    → (0 < size) × (size % s.align ≡ 0) × (max s.size s.dsize ≤ size)
    → IsSized (finish n s is_pod nv size hfa)
unfolding finish
finish-IsSized n s true nv size hfa pos le f = omega arith
finish-IsSized n s false nv size hfa pos le f = omega arith

-- The state with everything placed but the virtual bases is grown.
pub placed-IsGrown :
    (ctx : CxxTypeCtx) (fuel : ℕ) (id : ClassId) (r : RecordLayout) (run : Run ctx fuel id r)
    → IsGrown (apply_alignas run.class.source_alignment run.placed)
placed-IsGrown ctx fuel id r run = IsGrown-alignas run.class.source_alignment run.placed (
    keeps_all (compute_layout ctx fuel) ctx fuel id run.class run.placed IsGrown-KeepsBases
      (λ _ _ _. tt) IsGrown-KeepsMembers run.class.kind run.placed_eq new-IsGrown)

-- The final size holds all that was placed.
pub size-le-final :
    (ctx : CxxTypeCtx) (fuel : ℕ) (id : ClassId) (r : RecordLayout) (run : Run ctx fuel id r)
    → (run.last.size ≤ run.size)
      × (0 < run.size)
      × (run.size % run.last.align ≡ 0)
      × (max run.last.size run.last.dsize ≤ run.size)
size-le-final ctx fuel id r run =
    let n = apply_alignas run.class.source_alignment run.placed in
    let v = placed-IsGrown ctx fuel id r run in
    let g =
      place_virtual_bases-grows (compute_layout ctx fuel) run.vbases n.dsize n run.last
        run.last_eq in
    let f = final_size_lem run.last (omega (arith, v.aligned, g)) run.size_eq in
    (omega (arith, f), f.0, f.1, f.2)

-- Every layout that `compute_layout` returns has a size of at least one byte, a positive alignment
-- that divides it and is no smaller than the non-virtual alignment, which is positive too, and a
-- data size within the size.
pub compute_layout-IsSized :
    (ctx : CxxTypeCtx) (fuel : ℕ) (id : ClassId) (r : RecordLayout)
    → compute_layout ctx fuel id ≡ ok r
    → IsSized r
unfolding compute_layout
compute_layout-IsSized ctx zero id r h = cc
compute_layout-IsSized ctx (suc fuel) id r h =
    let run = compute_layout-Run ctx fuel id r h in
    let n = apply_alignas run.class.source_alignment run.placed in
    let v = placed-IsGrown ctx fuel id r run in
    let g =
      place_virtual_bases-grows (compute_layout ctx fuel) run.vbases n.dsize n run.last
        run.last_eq in
    let f = size-le-final ctx fuel id r run in
    subst IsSized (sym run.result)
      (finish-IsSized n run.last run.is_pod run.nv run.size run.hfa v.aligned g.1 (f.1, f.2, f.3))
