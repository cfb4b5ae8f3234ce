-- ===== src/Abi/Layout/Regions.antt =====
-- Where the engine of layout.rs puts the non-virtual parts of base classes.
use rustcc.Prelude.{ℕ, ◌+◌, ◌%◌, ◌≤◌, max, ◌≡◌, ◌≢◌, refl, sym, arith}
use rustcc.Prelude.{
  Bool, true, false, ◌||◌, ◌==◌, Bool-cases, inl, inr, Option, none, some, List, [], ◌∷◌,
}
use rustcc.Prelude.{ok, >>=-eq-ok, checked, checked-ok, push, ok_inj}
use mathlib.Core.Path.{subst}
use native.Mathlib.Nat.{le_refl}
use rustcc.Abi.Types.{ClassId, BaseSpec}
use rustcc.Abi.Context.{CxxTypeCtx}
use rustcc.Abi.Layout.State.{RecordLayout, LayoutState, new, align_up}
use rustcc.Abi.Layout.Place.{pointer_size, allocate_vptr, place_base, place_primary}
use rustcc.Abi.Layout.Compute.{Measure, is_class, place_head, place_bases, place_virtual_bases}
use rustcc.Abi.Layout.Align.{align_up_lem}
use rustcc.Abi.Layout.Steps.{place_empty-inv, place_non_empty-inv}

module _ (measure : Measure) where
  -- The base of `p`, if it takes bytes, takes them between `lo` and `hi`, at its alignment.
  pub record Region (lo : ℕ) (p : ClassId × ℕ) (hi : ℕ) : Type 0 where
    pub layout : RecordLayout
    pub measured : measure p.0 ≡ ok layout
    pub forth : lo ≤ hi
    pub inside :
        layout.nv_size_bytes ≢ 0
        → (lo ≤ p.1) × (p.1 + layout.nv_size_bytes ≤ hi) × (p.1 % max layout.nv_align_bytes 1 ≡ 0)

  abbrev pub Regions : ℕ → List (ClassId × ℕ) → ℕ → Type 0
  Regions lo [] hi = lo ≤ hi
  Regions lo (p ∷ ps) hi = (mid : ℕ) × Region lo p mid × Regions mid ps hi

  pub Regions-push :
      (lo mid hi : ℕ) (ps : List (ClassId × ℕ)) (p : ClassId × ℕ)
      → Regions lo ps mid
      → Region mid p hi
      → Regions lo (push ps p) hi
  Regions-push lo mid hi [] p h r = (
    hi,
    record {
      layout = r.layout;
      measured = r.measured;
      forth = omega (arith, r.forth);
      inside = λ ne. omega (arith, r.inside ne);
    },
    le_refl hi,
  )
  Regions-push lo mid hi (q ∷ ps) p (m, s, h) r = (m, s, Regions-push m mid hi ps p h r)

  pub Regions-le : (lo hi : ℕ) (ps : List (ClassId × ℕ)) → Regions lo ps hi → lo ≤ hi
  Regions-le lo hi [] h = h
  Regions-le lo hi (p ∷ ps) (m, r, h) = omega (arith, r.forth, Regions-le m hi ps h)

  -- The state behind the bases: their regions up to the cursor, and no member yet.
  pub record Based (start : ℕ) (s : LayoutState) : Type 0 where
    pub regions : Regions start s.base_offsets s.dsize
    pub no_offset : s.field_offsets ≡ []
    pub no_bit : s.field_bit_offsets ≡ []
    pub no_width : s.field_bit_widths ≡ []
    pub no_unit : s.bitfield_au ≡ none
    pub no_virtual : s.virtual_base_offsets ≡ []

  place_base-Based :
      (start : ℕ) (s t : LayoutState) (id : ClassId)
      → place_base measure s id false ≡ ok t
      → Based start s
      → Based start t
  unfolding place_base
  place_base-Based start s t id h v =
      let (b, e, g) = >>=-eq-ok (measure id) _ h in
      elim (Bool-cases (b.nv_size_bytes == 0)) [
        | inl z ↦
            let (off, _, i) = place_empty-inv s t id b (rw z at g) in
            let zero : b.nv_size_bytes ≡ 0 = ground arith in
            subst (Based start) (sym i) (record {
              regions =
                  Regions-push start s.dsize s.dsize s.base_offsets (id, off) v.regions
                    (record {
                      layout = b;
                      measured = e;
                      forth = omega arith;
                      inside = λ ne. absurd (ne zero);
                    });
              no_offset = v.no_offset;
              no_bit = v.no_bit;
              no_width = v.no_width;
              no_unit = v.no_unit;
              no_virtual = v.no_virtual;
            })
        | inr z ↦
            let (off, l, i) = place_non_empty-inv s t id b (rw z at g) in
            subst (Based start) (sym i) (record {
              regions =
                  Regions-push start s.dsize (off + b.nv_size_bytes) s.base_offsets (id, off)
                    v.regions
                    (record {
                      layout = b;
                      measured = e;
                      forth = omega (arith, l);
                      inside = λ ne. (l.0, omega arith, l.2);
                    });
              no_offset = v.no_offset;
              no_bit = v.no_bit;
              no_width = v.no_width;
              no_unit = v.no_unit;
              no_virtual = v.no_virtual;
            })
      ]

  pub place_bases-Based :
      (start : ℕ) (primary : Option ClassId) (bs : List BaseSpec) (s t : LayoutState)
      → place_bases measure primary bs s ≡ ok t
      → Based start s
      → Based start t
  unfolding place_bases
  place_bases-Based start primary [] s t h v = subst (Based start) (ok_inj h) v
  place_bases-Based start primary (b ∷ bs) s t h v =
      elim (Bool-cases (b.is_virtual || is_class primary b.class)) [
        | inl skip ↦ place_bases-Based start primary bs s t (rw skip at h) v
        | inr place ↦
            let (m, e, g) = >>=-eq-ok (place_base measure s b.class false) _ (rw place at h) in
            place_bases-Based start primary bs m t g (place_base-Based start s m b.class e v)
      ]

  -- The bytes that a vptr of the class's own takes.
  abbrev pub head_bytes : CxxTypeCtx → Option ClassId → Bool → ℕ
  head_bytes ctx (some id) needs = 0
  head_bytes ctx none true = pointer_size ctx
  head_bytes ctx none false = 0

  pub place_head-Based :
      (ctx : CxxTypeCtx) (primary : Option ClassId) (needs : Bool) (t : LayoutState)
      → place_head ctx measure primary needs new ≡ ok t
      → Based (head_bytes ctx primary needs) t
  unfolding place_head place_base place_primary allocate_vptr new
  place_head-Based ctx (some id) needs t h =
      let (b, e, g) = >>=-eq-ok (measure id) _ h in
      subst (Based 0) (ok_inj g) (record {
        regions = (
          b.nv_size_bytes,
          record {
            layout = b;
            measured = e;
            forth = omega arith;
            inside = λ ne. (omega arith, omega arith, omega arith);
          },
          omega arith,
        );
        no_offset = refl;
        no_bit = refl;
        no_width = refl;
        no_unit = refl;
        no_virtual = refl;
      })
  place_head-Based ctx none true t h = subst (Based (pointer_size ctx)) (ok_inj h) (record {
    regions = le_refl (pointer_size ctx);
    no_offset = refl;
    no_bit = refl;
    no_width = refl;
    no_unit = refl;
    no_virtual = refl;
  })
  place_head-Based ctx none false t h = subst (Based 0) (ok_inj h) (record {
    regions = omega arith;
    no_offset = refl;
    no_bit = refl;
    no_width = refl;
    no_unit = refl;
    no_virtual = refl;
  })

  -- The virtual bases are placed one behind the other from `lo` on, within the size.
  pub place_virtual_bases-Regions :
      (vs : List ClassId) (start lo : ℕ) (s t : LayoutState)
      → Regions start s.virtual_base_offsets lo
      → lo ≤ s.size
      → place_virtual_bases measure vs lo s ≡ ok t
      → (hi : ℕ) × Regions start t.virtual_base_offsets hi × (hi ≤ t.size)
  unfolding place_virtual_bases
  place_virtual_bases-Regions [] start lo s t r le h =
      subst
        (λ (u : LayoutState). (hi : ℕ) × Regions start u.virtual_base_offsets hi × (hi ≤ u.size))
        (ok_inj h) (lo, r, le)
  place_virtual_bases-Regions (v ∷ vs) start lo s t r le h =
      let (l, e, h0) = >>=-eq-ok (measure v) _ h in
      let (off, e0, h1) = >>=-eq-ok (align_up lo l.nv_align_bytes) _ h0 in
      let (end, e1, h2) = >>=-eq-ok (checked (off + l.nv_size_bytes)) _ h1 in
      let e' : end ≡ off + l.nv_size_bytes = checked-ok (off + l.nv_size_bytes) e1 in
      let a = align_up_lem lo l.nv_align_bytes e0 in
      place_virtual_bases-Regions vs start end _ t
        (Regions-push start lo end s.virtual_base_offsets (v, off) r
          (record {
            layout = l;
            measured = e;
            forth = omega (arith, a, e');
            inside = λ ne. (a.0, omega (arith, e'), a.2);
          }))
        (omega arith) h2

  -- Placing the virtual bases touches neither the members nor the other bases.
  pub place_virtual_bases-frame :
      (vs : List ClassId) (lo : ℕ) (s t : LayoutState)
      → place_virtual_bases measure vs lo s ≡ ok t
      → (t.base_offsets ≡ s.base_offsets)
        × (t.field_offsets ≡ s.field_offsets)
        × (t.field_bit_offsets ≡ s.field_bit_offsets)
        × (t.field_bit_widths ≡ s.field_bit_widths)
        × (t.empty_subobjects ≡ s.empty_subobjects)
  unfolding place_virtual_bases
  place_virtual_bases-frame [] lo s t h = rw (ok_inj h) (refl, refl, refl, refl, refl)
  place_virtual_bases-frame (v ∷ vs) lo s t h =
      let (l, e, h0) = >>=-eq-ok (measure v) _ h in
      let (off, e0, h1) = >>=-eq-ok (align_up lo l.nv_align_bytes) _ h0 in
      let (end, e1, h2) = >>=-eq-ok (checked (off + l.nv_size_bytes)) _ h1 in
      place_virtual_bases-frame vs end _ t h2
