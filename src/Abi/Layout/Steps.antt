-- ===== src/Abi/Layout/Steps.antt =====
-- What each primitive placement of the engine did, where it succeeds.
use rustcc.Prelude.{ℕ, ◌+◌, ◌/◌, ◌%◌, ◌≤◌, ◌<◌, max, min, ◌≡◌, sym, arith}
use rustcc.Prelude.{true, leb, if◌then◌else◌, none}
use rustcc.Prelude.{some, Outcome, ok, ◌>>=◌, checked, >>=-eq-ok, ok_inj, checked-ok, push}
use rustcc.Abi.Types.{ClassId, LayoutError}
use rustcc.Abi.Layout.State.{RecordLayout, LayoutState, BitfieldAu, align_up}
use rustcc.Abi.Layout.Place.{place_empty, place_non_empty, put_field, put_boundary, put_packed}
use rustcc.Abi.Layout.Place.{put_opened, fits, note, find_empty_base_offset}
use rustcc.Abi.Layout.Align.{align_up_lem}

-- The end of the open unit, 0 where none is open.
abbrev pub unit_end : LayoutState → ℕ
unit_end s = elim s.bitfield_au [ none ↦ 0 | some au ↦ au.offset + au.size_bytes ]

-- `off` is the least multiple of `align` from `lo` on.
abbrev pub Lands : ℕ → ℕ → ℕ → Type 0
Lands lo align off = (lo ≤ off) × (off < lo + max align 1) × (off % max align 1 ≡ 0)

pub place_non_empty-inv :
    (s t : LayoutState) (id : ClassId) (b : RecordLayout)
    → place_non_empty s id b ≡ ok t
    → (off : ℕ) × Lands s.dsize b.nv_align_bytes off
      × (t ≡ record s {
        size = max s.size (off + b.nv_size_bytes);
        dsize = off + b.nv_size_bytes;
        align = max s.align b.align_bytes;
        base_offsets = push s.base_offsets (id, off);
      })
unfolding place_non_empty
place_non_empty-inv s t id b h =
    let (off, e, g) = >>=-eq-ok (align_up s.dsize b.nv_align_bytes) _ h in
    let (end, e', g') = >>=-eq-ok (checked (off + b.nv_size_bytes)) _ g in
    let e'' : end ≡ off + b.nv_size_bytes = checked-ok (off + b.nv_size_bytes) e' in
    (off, align_up_lem s.dsize b.nv_align_bytes e, cc (ok_inj g', e''))

pub place_empty-inv :
    (s t : LayoutState) (id : ClassId) (b : RecordLayout)
    → place_empty s id b ≡ ok t
    → (off : ℕ) × (find_empty_base_offset s.empty_subobjects id b ≡ ok off)
      × (t ≡ record s {
        align = max s.align b.align_bytes;
        empty_subobjects = push s.empty_subobjects (id, off);
        base_offsets = push s.base_offsets (id, off);
      })
unfolding place_empty
place_empty-inv s t id b h =
    let (off, e, g) = >>=-eq-ok (find_empty_base_offset s.empty_subobjects id b) _ h in
    (off, e, sym (ok_inj g))

pub put_field-inv :
    (s t : LayoutState) (size align : ℕ)
    → put_field s size align ≡ ok t
    → (off : ℕ) × Lands s.dsize align off
      × (t ≡ record (note s off 0 0) {
        size = max s.size (off + size);
        dsize = off + size;
        align = max s.align align;
        bitfield_au = none;
      })
unfolding put_field
put_field-inv s t size align h =
    let (off, e, g) = >>=-eq-ok (align_up s.dsize align) _ h in
    let (end, e', g') = >>=-eq-ok (checked (off + size)) _ g in
    let e'' : end ≡ off + size = checked-ok (off + size) e' in
    (off, align_up_lem s.dsize align e, cc (ok_inj g', e''))

boundary_cursor :
    (s : LayoutState) {d : ℕ}
    → ◌≡◌ {A = Outcome LayoutError ℕ}
        (elim s.bitfield_au [
          | none ↦ ok s.dsize
          | some au ↦ checked (au.offset + au.size_bytes) >>= λ au_end. ok (max s.dsize au_end)
        ])
        (ok d)
    → d ≡ max s.dsize (unit_end s)
boundary_cursor s {d} h = ground arith

pub put_boundary-inv :
    (s t : LayoutState) (align : ℕ)
    → put_boundary s align ≡ ok t
    → (off : ℕ) × Lands (max s.dsize (unit_end s)) align off
      × (t ≡ record (note s off 0 0) {
        size = max s.size off;
        dsize = max s.dsize (unit_end s);
        align = max s.align align;
        bitfield_au = none;
      })
unfolding put_boundary
put_boundary-inv s t align h =
    let (d, e, g) = >>=-eq-ok _ _ h in
    let (off, e', g') = >>=-eq-ok (align_up d align) _ g in
    let d' = boundary_cursor s e in
    let l = align_up_lem d align e' in (off, omega (arith, l, d'), cc d')

pub put_packed-inv :
    (s t : LayoutState) (au : BitfieldAu) (align au_bits width : ℕ)
    → put_packed s au align au_bits width ≡ ok t
    → t ≡ record (note s (au.offset + au.used_bits / 8) (au.used_bits % 8) width) {
      size = max s.size (au.offset + au.size_bytes);
      dsize = max s.dsize (au.offset + au.size_bytes);
      align = max s.align align;
      bitfield_au =
          if leb au_bits (au.used_bits + width)
          then none
          else some (record au { used_bits = au.used_bits + width });
    }
unfolding put_packed
put_packed-inv s t au align au_bits width h =
    let (byte, e0, h0) = >>=-eq-ok (checked (au.offset + au.used_bits / 8)) _ h in
    let (used, e1, h1) = >>=-eq-ok (checked (au.used_bits + width)) _ h0 in
    let (end, e2, h2) = >>=-eq-ok (checked (au.offset + au.size_bytes)) _ h1 in
    let b : byte ≡ au.offset + au.used_bits / 8 = checked-ok (au.offset + au.used_bits / 8) e0 in
    let u : used ≡ au.used_bits + width = checked-ok (au.used_bits + width) e1 in
    let n : end ≡ au.offset + au.size_bytes = checked-ok (au.offset + au.size_bytes) e2 in
    cc (ok_inj h2, b, u, n)

pub put_opened-inv :
    (s t : LayoutState) (size align au_bits width : ℕ)
    → put_opened s size align au_bits width ≡ ok t
    → (off : ℕ) × Lands s.dsize align off
      × (t ≡ record (note s off 0 width) {
        size = max s.size (off + size);
        dsize = max s.dsize (off + size);
        align = max s.align align;
        bitfield_au =
            if leb au_bits (min width au_bits)
            then none
            else some (record { offset = off; size_bytes = size; used_bits = min width au_bits });
      })
unfolding put_opened
put_opened-inv s t size align au_bits width h =
    let (off, e, g) = >>=-eq-ok (align_up s.dsize align) _ h in
    let (end, e', g') = >>=-eq-ok (checked (off + size)) _ g in
    let e'' : end ≡ off + size = checked-ok (off + size) e' in
    (off, align_up_lem s.dsize align e, cc (ok_inj g', e''))

-- Bits go into the open unit only if it is of the member's size and has room for them.
pub fits-inv :
    (au : BitfieldAu) (size au_bits width : ℕ)
    → fits au size au_bits width ≡ ok true
    → (au.size_bytes ≡ size) × (au.used_bits + width ≤ au_bits)
unfolding fits
fits-inv au size au_bits width h = ground arith
