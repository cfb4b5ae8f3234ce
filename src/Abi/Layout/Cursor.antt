-- ===== src/Abi/Layout/Cursor.antt =====
-- The bit cursor of the engine: where the next member may start, and how each placement moves it.
use rustcc.Prelude.{
  ℕ, ◌+◌, ◌*◌, ◌/◌, ◌%◌, ◌≤◌, ◌<◌, max, min, ◌≡◌, ◌≢◌, ◌⊎◌, inl, inr, refl, sym, ap, arith, true,
}
use rustcc.Prelude.{leb, if◌then◌else◌, none, some, ok, push}
use mathlib.Core.Path.{subst}
use rustcc.Abi.Layout.State.{LayoutState, BitfieldAu}
use rustcc.Abi.Layout.Place.{put_field, put_boundary, put_packed, put_opened, fits}
use rustcc.Abi.Layout.Steps.{put_field-inv, put_boundary-inv, put_packed-inv, put_opened-inv}
use rustcc.Abi.Layout.Steps.{fits-inv}

-- The first bit behind the open unit's bits, or behind the bytes in use.
abbrev pub cursor : LayoutState → ℕ
cursor s = elim s.bitfield_au [ none ↦ 8 * s.dsize | some au ↦ 8 * au.offset + au.used_bits ]

-- An open unit is reserved whole, and its bits lie in it.
abbrev pub IsOpen : LayoutState → Type 0
IsOpen s = elim s.bitfield_au [
  | none ↦ Unit
  | some au ↦ (au.offset + au.size_bytes ≤ s.dsize) × (au.used_bits ≤ 8 * au.size_bytes)
]

pub cursor-le : (s : LayoutState) → IsOpen s → cursor s ≤ 8 * s.dsize
cursor-le s v = ground arith

-- A member at a byte and a bit of it begins the unit, at a multiple of its alignment, or it takes
-- the next bits of a unit that is open.
abbrev pub Begins : LayoutState → ℕ → ℕ → ℕ → ℕ → Type 0
Begins s align off bit unit =
    (off % max align 1 ≡ 0) × (bit ≡ 0) × (unit ≡ off)
    ⊎ ((au : BitfieldAu) × (s.bitfield_au ≡ some au)
        × (au.offset ≡ unit)
        × (8 * off + bit ≡ cursor s))

-- The unit that a state has open starts at byte `unit`, and it is not a plain member's.
abbrev pub OpenAt : LayoutState → ℕ → ℕ → Type 0
OpenAt t unit width = (au : BitfieldAu) → t.bitfield_au ≡ some au → (au.offset ≡ unit) × (width ≢ 0)

-- A member of `extent` bits was recorded at a byte and a bit of it, between two cursors, in a unit
-- of `size` bytes. A member of no bits is only behind the first cursor.
pub record Moves (s t : LayoutState) (off bit width extent size align : ℕ) : Type 0 where
  pub offsets : t.field_offsets ≡ push s.field_offsets off
  pub bits : t.field_bit_offsets ≡ push s.field_bit_offsets bit
  pub widths : t.field_bit_widths ≡ push s.field_bit_widths width
  pub forth : cursor s ≤ cursor t
  pub after : cursor s ≤ 8 * off + bit
  pub before : extent ≢ 0 → 8 * off + bit + extent ≤ cursor t
  pub bit_lt : bit < 8
  pub unit : ℕ
  pub unit_before : 8 * unit ≤ 8 * off + bit
  pub unit_after : 8 * off + bit + extent ≤ 8 * (unit + size)
  pub stays_open : IsOpen t
  pub begins : Begins s align off bit unit
  pub open_at : OpenAt t unit width

pub put_field-Moves :
    (s t : LayoutState) (size align : ℕ)
    → IsOpen s
    → put_field s size align ≡ ok t
    → (off : ℕ) × (off % max align 1 ≡ 0) × Moves s t off 0 0 (8 * size) size align
put_field-Moves s t size align v h =
    let (off, l, e) = put_field-inv s t size align h in
    let c = cursor-le s v in
    (
      off,
      l.2,
      subst (λ u. Moves s u off 0 0 (8 * size) size align) (sym e)
          (record {
            offsets = refl;
            bits = refl;
            widths = refl;
            forth = omega (arith, c, l);
            after = omega (arith, c, l);
            before = λ _. omega arith;
            bit_lt = omega arith;
            unit = off;
            unit_before = omega arith;
            unit_after = omega arith;
            stays_open = tt;
            begins = inl (l.2, refl, refl);
            open_at = λ au o. cc o;
          }),
    )

pub put_boundary-Moves :
    (s t : LayoutState) (size align : ℕ)
    → IsOpen s
    → put_boundary s align ≡ ok t
    → (off : ℕ) × Moves s t off 0 0 0 size align
put_boundary-Moves s t size align v h =
    let (off, l, e) = put_boundary-inv s t align h in
    let c = cursor-le s v in
    (
      off,
      subst (λ u. Moves s u off 0 0 0 size align) (sym e)
          (record {
            offsets = refl;
            bits = refl;
            widths = refl;
            forth = omega (arith, c, l);
            after = omega (arith, c, l);
            before = λ ne. absurd (ne refl);
            bit_lt = omega arith;
            unit = off;
            unit_before = omega arith;
            unit_after = omega arith;
            stays_open = tt;
            begins = inl (l.2, refl, refl);
            open_at = λ au o. cc o;
          }),
    )

-- The cursor behind bits that leave the unit `[off, off + size)` filled up to `used`.
unit_cursor :
    (s : LayoutState) (off size used : ℕ)
    → s.bitfield_au ≡ (
        if leb (size * 8) used
        then none
        else some (record { offset = off; size_bytes = size; used_bits = used }))
    → off + size ≤ s.dsize
    → used ≤ size * 8
    → (8 * off + used ≤ cursor s)
      × IsOpen s
      × ((au : BitfieldAu) → s.bitfield_au ≡ some au → au.offset ≡ off)
unit_cursor s off size used e d u = (ground arith, ground arith, λ au o. ground arith)

pub put_packed-Moves :
    (s t : LayoutState) (au : BitfieldAu) (size align width : ℕ)
    → s.bitfield_au ≡ some au
    → IsOpen s
    → fits au size (size * 8) width ≡ ok true
    → put_packed s au align (size * 8) width ≡ ok t
    → width ≢ 0
    → Moves s t (au.offset + au.used_bits / 8) (au.used_bits % 8) width width size align
put_packed-Moves s t au size align width e v f h some_bits =
    let (same, room) = fits-inv au size (size * 8) width f in
    let i = put_packed-inv s t au align (size * 8) width h in
    let c : cursor s ≡ 8 * au.offset + au.used_bits = ground arith in
    let n =
      unit_cursor t au.offset size (au.used_bits + width) (ground (arith, i, same))
        (ground (arith, i)) (omega arith) in
    record {
      offsets = rw i;
      bits = rw i;
      widths = rw i;
      forth = omega (arith, c, n);
      after = omega (arith, c);
      before = λ _. omega (arith, n);
      bit_lt = omega arith;
      unit = au.offset;
      unit_before = omega arith;
      unit_after = omega (arith, room);
      stays_open = n.1;
      begins = inr (au, e, refl, omega (arith, c));
      open_at = λ au' o. (n.2 au' o, some_bits);
    }

pub put_opened-Moves :
    (s t : LayoutState) (size align width : ℕ)
    → IsOpen s
    → width ≤ 8 * size
    → put_opened s size align (size * 8) width ≡ ok t
    → width ≢ 0
    → (off : ℕ) × Moves s t off 0 width width size align
put_opened-Moves s t size align width v w h some_bits =
    let (off, l, i) = put_opened-inv s t size align (size * 8) width h in
    let c = cursor-le s v in
    let m : min width (size * 8) ≡ width = omega arith in
    let n = unit_cursor t off size width (ground (arith, i, m)) (ground (arith, i)) (omega arith) in
    (
      off,
      record {
        offsets = ap (λ (u : LayoutState). u.field_offsets) i;
        bits = ap (λ (u : LayoutState). u.field_bit_offsets) i;
        widths = ap (λ (u : LayoutState). u.field_bit_widths) i;
        forth = omega (arith, c, l, n);
        after = omega (arith, c, l);
        before = λ _. omega (arith, n);
        bit_lt = omega arith;
        unit = off;
        unit_before = omega arith;
        unit_after = omega arith;
        stays_open = n.1;
        begins = inl (l.2, refl, refl);
        open_at = λ au o. (n.2 au o, some_bits);
      },
    )
