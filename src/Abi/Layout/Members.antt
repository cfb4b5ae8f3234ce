-- ===== src/Abi/Layout/Members.antt =====
-- Where `compute_layout` of layout.rs puts the members of a struct or class.
use rustcc.Prelude.{
  ℕ, zero, suc, ◌⊎◌, ◌+◌, ◌*◌, ◌%◌, ◌≤◌, ◌<◌, max, ◌≡◌, ◌≢◌, refl, sym, ◌∙◌, ap, arith,
}
use rustcc.Prelude.{◌==◌, Bool-cases, inl, inr, Option, none, some, Option-cases}
use rustcc.Prelude.{
  List, [], ◌∷◌, ◌++◌, ok, >>=-eq-ok, checked, checked-ok, push, map_err-eq-ok, ok_inj,
}
use native.Mathlib.Nat.{le_refl}
use mathlib.Core.Path.{subst}
use mathlib.Core.List.{append_assoc, append-nil}
use rustcc.Abi.Types.{ClassId, TypeId, FieldDef}
use rustcc.Abi.Context.{CxxTypeCtx, bitfield_width, is_packed}
use rustcc.Abi.Layout.State.{LayoutState, BitfieldAu}
use rustcc.Abi.Layout.Place.{
  SizeAlign, put_bits, put_bitfield, fits, natural_align, field_align, member_size, place_field,
  place_bitfield, unwrap_or,
}
use rustcc.Abi.Layout.Compute.{place_members}
use rustcc.Abi.Layout.Cursor.{
  cursor, cursor-le, IsOpen, Begins, OpenAt, Moves, put_field-Moves, put_boundary-Moves,
}
use rustcc.Abi.Layout.Cursor.{put_packed-Moves, put_opened-Moves}

-- The bits that a member takes: those declared of a bit-field, the bytes of its type otherwise.
abbrev pub extent : Option ℕ → ℕ → ℕ
extent none size = 8 * size
extent (some w) size = w

put_bits-Moves :
    (s t : LayoutState) (size align width : ℕ)
    → IsOpen s
    → width ≤ 8 * size
    → put_bits s size align (size * 8) width ≡ ok t
    → width ≢ 0
    → (off bit : ℕ) × Moves s t off bit width width size align
unfolding put_bits
put_bits-Moves s t size align width v w h b = elim (Option-cases s.bitfield_au) [
  | inl e ↦
      let (off, m) = put_opened-Moves s t size align width v w (rw (e, put_bits) at h) b in
      (off, 0, m)
  | inr (au, e) ↦
      let (fit, f, g) = >>=-eq-ok (fits au size (size * 8) width) _ (rw (e, put_bits) at h) in
      elim (Bool-cases fit) [
        | inl y ↦ (_, _, put_packed-Moves s t au size align width e v (f ∙ ap ok y) (rw y at g) b)
        | inr y ↦
            let (off, m) = put_opened-Moves s t size align width v w (rw y at g) b in (off, 0, m)
      ]
]

put_bitfield-Moves :
    (s t : LayoutState) (size align width : ℕ)
    → IsOpen s
    → width ≤ 8 * size
    → put_bitfield s size align width ≡ ok t
    → (off bit : ℕ) × Moves s t off bit width width size align
unfolding put_bitfield
put_bitfield-Moves s t size align width v w h =
    let (au_bits, e, g) = >>=-eq-ok (checked (size * 8)) _ h in
    let e' : au_bits ≡ size * 8 = checked-ok (size * 8) e in
    let g' = rw e' at g in
    elim (Bool-cases (width == 0)) [
      | inl z ↦
          let (off, m) = put_boundary-Moves s t size align v (rw z at g') in
          let z' : 0 ≡ width = ground arith in
          (off, 0, subst (λ n. Moves s t off 0 n n size align) z' m)
      | inr z ↦ put_bits-Moves s t size align width v w (rw z at g') (ground arith)
    ]

-- The unit that may still be open behind a member: the one of a bit-field that has bits.
abbrev pub next_unit : Option ℕ → ℕ → Option ℕ
next_unit none unit = none
next_unit (some zero) unit = none
next_unit (some (suc w)) unit = some unit

-- A unit that the state has open is the one expected.
abbrev pub Follows : Option ℕ → LayoutState → Type 0
Follows prev s = (au : BitfieldAu) → s.bitfield_au ≡ some au → prev ≡ some au.offset

-- A bit-field that begins its unit does so aligned; one that goes on in the unit of the member
-- before it starts at the first free bit, `lo`.
abbrev pub Begun : Option ℕ → ℕ → ℕ → ℕ → ℕ → ℕ → Type 0
Begun prev lo align off bit unit =
    (off % max align 1 ≡ 0) × (bit ≡ 0) × (unit ≡ off) ⊎ (prev ≡ some unit) × (8 * off + bit ≡ lo)

Begins-Begun :
    (prev : Option ℕ) (s : LayoutState) (align off bit unit : ℕ)
    → Follows prev s
    → Begins s align off bit unit
    → Begun prev (cursor s) align off bit unit
Begins-Begun prev s align off bit unit v b = elim b [
  | inl a ↦ inl a
  | inr (au, e, o, c) ↦ inr (v au e ∙ ap some o, c)
]

OpenAt-Follows :
    (t : LayoutState) (width : Option ℕ) (unit : ℕ)
    → OpenAt t unit (unwrap_or width 0)
    → Follows (next_unit width unit) t
OpenAt-Follows t none unit v au e = absurd ((v au e).1 refl)
OpenAt-Follows t (some zero) unit v au e = absurd ((v au e).1 refl)
OpenAt-Follows t (some (suc w)) unit v au e = ap some (sym (v au e).0)

module _ (ctx : CxxTypeCtx) (sizes : TypeId → SizeAlign) (class : ClassId) where
  -- Member `f`, number `idx`, stands at bit `bit` of byte `off`: its bits lie between the two
  -- cursors and within a unit of as many bytes as its type has. A plain member is aligned, and a
  -- bit-field begins an aligned unit or goes on in that of the member before it, `prev`.
  pub record Placed (prev : Option ℕ) (f : FieldDef) (idx lo hi off bit width : ℕ) : Type 0 where
    pub size : ℕ
    pub align : ℕ
    pub measured : sizes f.ty ≡ ok (size, align)
    pub declared : width ≡ unwrap_or (bitfield_width ctx class idx) 0
    pub forth : lo ≤ hi
    pub after : lo ≤ 8 * off + bit
    pub before :
        extent (bitfield_width ctx class idx) size ≢ 0
        → 8 * off + bit + extent (bitfield_width ctx class idx) size ≤ hi
    pub bit_lt : bit < 8
    pub unit : ℕ
    pub unit_before : 8 * unit ≤ 8 * off + bit
    pub unit_after : 8 * off + bit + extent (bitfield_width ctx class idx) size ≤ 8 * (unit + size)
    pub aligned :
        bitfield_width ctx class idx ≡ none
        → (off % max (field_align (is_packed ctx class) f align) 1 ≡ 0) × (bit ≡ 0)
    pub begun :
        {w : ℕ}
        → bitfield_width ctx class idx ≡ some w
        → Begun prev lo (natural_align f align) off bit unit

  -- The members from number `idx` on, each between two cursors, from bit `lo` to bit `hi`.
  -- `prev` is the unit that the members before may have left open.
  abbrev pub InOrder : Option ℕ → ℕ → ℕ → List FieldDef → List ℕ → List ℕ → List ℕ → ℕ → Type 0
  InOrder prev lo idx [] [] [] [] hi = lo ≤ hi
  InOrder prev lo idx (f ∷ fs) (o ∷ os) (b ∷ bs) (w ∷ ws) hi =
      (mid : ℕ) × ((p : Placed prev f idx lo mid o b w) × InOrder
          (next_unit (bitfield_width ctx class idx) p.unit) mid (idx + 1) fs os bs ws hi)
  InOrder _ _ _ _ _ _ _ _ = ⊥

  -- No bit-field is wider than its type.
  abbrev pub Narrow : ℕ → List FieldDef → Type 0
  Narrow idx [] = Unit
  Narrow idx (f ∷ fs) =
      ((w size align : ℕ)
        → bitfield_width ctx class idx ≡ some w
        → sizes f.ty ≡ ok (size, align)
        → w ≤ 8 * size)
      × Narrow (idx + 1) fs

  -- One member, as a step from state to state.
  record Stepped (prev : Option ℕ) (s t : LayoutState) (f : FieldDef) (idx : ℕ) : Type 0 where
    off : ℕ
    bit : ℕ
    width : ℕ
    offsets : t.field_offsets ≡ push s.field_offsets off
    bits : t.field_bit_offsets ≡ push s.field_bit_offsets bit
    widths : t.field_bit_widths ≡ push s.field_bit_widths width
    placed : Placed prev f idx (cursor s) (cursor t) off bit width
    stays_open : IsOpen t
    follows : Follows (next_unit (bitfield_width ctx class idx) placed.unit) t

  place_field-Stepped :
      (prev : Option ℕ) (s t : LayoutState) (f : FieldDef) (idx : ℕ)
      → IsOpen s
      → Follows prev s
      → Narrow idx (f ∷ [])
      → place_field ctx sizes class s f idx ≡ ok t
      → Stepped prev s t f idx
  unfolding place_field place_bitfield member_size
  place_field-Stepped prev s t f idx v n narrow h =
      elim (Option-cases (bitfield_width ctx class idx)) [
        | inl e ↦
            let ((size, align), e0, g) =
              >>=-eq-ok (member_size ctx sizes class f idx) _ (rw (e, place_field) at h) in
            let (off, a, m) =
              put_field-Moves s t size (field_align (is_packed ctx class) f align) v g in
            record {
              off = off;
              bit = 0;
              width = 0;
              offsets = m.offsets;
              bits = m.bits;
              widths = m.widths;
              placed = record {
                size = size;
                align = align;
                measured = map_err-eq-ok _ (sizes f.ty) e0;
                declared = rw e;
                forth = m.forth;
                after = m.after;
                before = rw e m.before;
                bit_lt = m.bit_lt;
                unit = m.unit;
                unit_before = m.unit_before;
                unit_after = rw e m.unit_after;
                aligned = λ _. (a, refl);
                begun = λ e'. absurd (cc (sym e ∙ e'));
              };
              stays_open = m.stays_open;
              follows = rw e (OpenAt-Follows t none m.unit m.open_at);
            }
        | inr (w, e) ↦
            let ((size, align), e0, g) =
              >>=-eq-ok (member_size ctx sizes class f idx) _ (rw (e, place_field) at h) in
            let e1 = map_err-eq-ok _ (sizes f.ty) e0 in
            let (off, bit, m) =
              put_bitfield-Moves s t size (natural_align f align) w v (narrow.0 w size align e e1)
                g in
            record {
              off = off;
              bit = bit;
              width = w;
              offsets = m.offsets;
              bits = m.bits;
              widths = m.widths;
              placed = record {
                size = size;
                align = align;
                measured = e1;
                declared = rw e;
                forth = m.forth;
                after = m.after;
                before = rw e m.before;
                bit_lt = m.bit_lt;
                unit = m.unit;
                unit_before = m.unit_before;
                unit_after = rw e m.unit_after;
                aligned = λ e'. absurd (cc (sym e' ∙ e));
                begun = λ _. Begins-Begun prev s (natural_align f align) off bit m.unit n m.begins;
              };
              stays_open = m.stays_open;
              follows = rw e (OpenAt-Follows t (some w) m.unit m.open_at);
            }
      ]

  -- What placing the members from number `idx` on records.
  pub record Recorded (prev : Option ℕ) (s t : LayoutState) (fs : List FieldDef) (idx : ℕ)
      : Type 0 where
    pub offs : List ℕ
    pub bits : List ℕ
    pub widths : List ℕ
    pub offs_eq : t.field_offsets ≡ s.field_offsets ++ offs
    pub bits_eq : t.field_bit_offsets ≡ s.field_bit_offsets ++ bits
    pub widths_eq : t.field_bit_widths ≡ s.field_bit_widths ++ widths
    pub in_order : InOrder prev (cursor s) idx fs offs bits widths (cursor t)
    pub stays_open : IsOpen t

  push_append : (xs ys zs : List ℕ) (x : ℕ) → ys ≡ push xs x → ys ++ zs ≡ xs ++ (x ∷ zs)
  push_append xs ys zs x e = rw e (append_assoc xs (x ∷ []) zs)

  pub place_members-Recorded :
      (fs : List FieldDef) (prev : Option ℕ) (idx : ℕ) (s t : LayoutState)
      → IsOpen s
      → Follows prev s
      → Narrow idx fs
      → place_members (place_field ctx sizes class) fs idx s ≡ ok t
      → Recorded prev s t fs idx
  unfolding place_members
  place_members-Recorded [] prev idx s t v n narrow h =
      subst (λ u. Recorded prev s u [] idx) (ok_inj h)
        (record {
          offs = [];
          bits = [];
          widths = [];
          offs_eq = sym (append-nil _);
          bits_eq = sym (append-nil _);
          widths_eq = sym (append-nil _);
          in_order = le_refl _;
          stays_open = v;
        })
  place_members-Recorded (f ∷ fs) prev idx s t v n narrow h =
      let (m, e, g) = >>=-eq-ok (place_field ctx sizes class s f idx) _ h in
      let p = place_field-Stepped prev s m f idx v n (narrow.0, tt) e in
      let next = next_unit (bitfield_width ctx class idx) p.placed.unit in
      let r = place_members-Recorded fs next (idx + 1) m t p.stays_open p.follows narrow.1 g in
      record {
        offs = p.off ∷ r.offs;
        bits = p.bit ∷ r.bits;
        widths = p.width ∷ r.widths;
        offs_eq = r.offs_eq ∙ push_append s.field_offsets m.field_offsets r.offs p.off p.offsets;
        bits_eq =
            r.bits_eq ∙ push_append s.field_bit_offsets m.field_bit_offsets r.bits p.bit p.bits;
        widths_eq =
            r.widths_eq
            ∙ push_append s.field_bit_widths m.field_bit_widths r.widths p.width p.widths;
        in_order = (cursor m, (p.placed, r.in_order));
        stays_open = r.stays_open;
      }

  pub InOrder-le :
      (prev : Option ℕ) (lo idx hi : ℕ) (fs : List FieldDef) (os bs ws : List ℕ)
      → InOrder prev lo idx fs os bs ws hi
      → lo ≤ hi
  InOrder-le prev lo idx hi [] [] [] [] h = h
  InOrder-le prev lo idx hi (f ∷ fs) (o ∷ os) (b ∷ bs) (w ∷ ws) (mid, (p, h)) = omega (
    arith,
    p.forth,
    InOrder-le (next_unit (bitfield_width ctx class idx) p.unit) mid (idx + 1) hi fs os bs ws h,
  )
  InOrder-le prev lo idx hi _ _ _ _ h = elim h [ ]

  -- Members in order may end anywhere further on.
  pub InOrder-mono :
      (prev : Option ℕ) (lo idx hi hi' : ℕ) (fs : List FieldDef) (os bs ws : List ℕ)
      → hi ≤ hi'
      → InOrder prev lo idx fs os bs ws hi
      → InOrder prev lo idx fs os bs ws hi'
  InOrder-mono prev lo idx hi hi' [] [] [] [] le h = omega arith
  InOrder-mono prev lo idx hi hi' (f ∷ fs) (o ∷ os) (b ∷ bs) (w ∷ ws) le (mid, (p, h)) = (
    mid,
    (
      p,
      InOrder-mono (next_unit (bitfield_width ctx class idx) p.unit) mid (idx + 1) hi hi' fs os bs
          ws le h,
    ),
  )
  InOrder-mono prev lo idx hi hi' _ _ _ _ le h = elim h [ ]

  append_of_nil : {xs ys zs : List ℕ} → ys ≡ xs ++ zs → xs ≡ [] → ys ≡ zs
  append_of_nil {xs} {ys} {zs} e n = e ∙ ap (λ ws. ws ++ zs) n

  -- From a state with no member, the members recorded are those in order.
  pub Recorded-InOrder :
      (prev : Option ℕ) (s t : LayoutState) (fs : List FieldDef) (idx lo : ℕ)
      → s.field_offsets ≡ []
      → s.field_bit_offsets ≡ []
      → s.field_bit_widths ≡ []
      → cursor s ≡ lo
      → Recorded prev s t fs idx
      → InOrder prev lo idx fs t.field_offsets t.field_bit_offsets t.field_bit_widths (8 * t.dsize)
  Recorded-InOrder prev s t fs idx lo no_off no_bit no_width c r =
      let o = append_of_nil {xs = s.field_offsets} r.offs_eq no_off in
      let b = append_of_nil {xs = s.field_bit_offsets} r.bits_eq no_bit in
      let w = append_of_nil {xs = s.field_bit_widths} r.widths_eq no_width in
      rw (o, b, w, ← c)
        (InOrder-mono prev (cursor s) idx (cursor t) (8 * t.dsize) fs r.offs r.bits r.widths
          (cursor-le t r.stays_open) r.in_order)
