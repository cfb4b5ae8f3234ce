-- ===== src/Abi/Layout/StepsEnd.antt =====
-- Termination of the placement steps of the engine (layout.rs).
use rustcc.Prelude.{ℕ, ◌+◌, ◌*◌, ◌/◌, ◌≡◌, ◌≢◌, refl, arith, ◌∈◌, inl, inr}
use rustcc.Prelude.{Bool, true, false, ◌||◌, ◌==◌, Option, none, some, max}
use rustcc.Prelude.{Option-cases, List, [], ◌∷◌, ok, stuck, ◌>>=◌}
use rustcc.Prelude.{>>=-ne-stuck, ok-ne-stuck, map_err-ne-stuck}
use rustcc.Prelude.{checked, checked-ne-stuck}
use rustcc.Abi.Types.{ClassId, TypeId, BaseSpec, FieldDef, LayoutError}
use rustcc.Abi.Types.{unsized_field}
use rustcc.Abi.Context.{CxxTypeCtx, bitfield_width, is_packed, as_u32}
use rustcc.Abi.Layout.State.{LayoutState, BitfieldAu, align_up}
use rustcc.Abi.Layout.Place
use rustcc.Abi.Layout.Place.{Step, SizeAlign, size_of, type_size_align}
use rustcc.Abi.Layout.Compute
use rustcc.Abi.Layout.Compute.{Measure, compute_layout}
use rustcc.Abi.Layout.Empties.{find_empty_base_offset-ne-stuck}
use rustcc.Abi.Layout.Terminates.{if-ne-stuck}

pub align_up-ne-stuck {ℓ} : (E : Type ℓ) (v a : ℕ) → align_up {E = E} v a ≢ stuck
unfolding align_up
align_up-ne-stuck E v a = ground arith

-- A placement behind an alignment and a checked end.
aligned-ne-stuck :
    (v a size : ℕ) (k : ℕ → ℕ → LayoutState)
    → (align_up {E = LayoutError} v a >>= λ off. checked (off + size) >>= λ end. ok (k off end))
      ≢ stuck
aligned-ne-stuck v a size k =
    >>=-ne-stuck (align_up v a) _ (align_up-ne-stuck LayoutError v a) (λ off _.
      >>=-ne-stuck (checked (off + size)) _ (checked-ne-stuck (off + size))
        (λ end _. ok-ne-stuck LayoutError (k off end)))

put_field-ne-stuck : (s : LayoutState) (size align : ℕ) → Place.put_field s size align ≢ stuck
unfolding Place.put_field
put_field-ne-stuck s size align = aligned-ne-stuck s.dsize align size _

place_base-ne-stuck :
    (measure : Measure) (s : LayoutState) (id : ClassId) (is_primary : Bool)
    → measure id ≢ stuck
    → Place.place_base measure s id is_primary ≢ stuck
unfolding Place.place_base Place.place_primary Place.place_empty Place.place_non_empty
place_base-ne-stuck measure s id is_primary h = >>=-ne-stuck (measure id) _ h (λ b _.
    if-ne-stuck is_primary (Place.place_primary s id b) _ (ok-ne-stuck LayoutError _) (
      if-ne-stuck (b.nv_size_bytes == 0) (Place.place_empty s id b) (Place.place_non_empty s id b)
        (>>=-ne-stuck (Place.find_empty_base_offset s.empty_subobjects id b) _
          (find_empty_base_offset-ne-stuck s.empty_subobjects id b)
          (λ off _. ok-ne-stuck LayoutError _))
        (aligned-ne-stuck s.dsize b.nv_align_bytes b.nv_size_bytes _)))

put_opened-ne-stuck :
    (s : LayoutState) (size align au_bits width : ℕ)
    → Place.put_opened s size align au_bits width ≢ stuck
unfolding Place.put_opened
put_opened-ne-stuck s size align au_bits width = aligned-ne-stuck s.dsize align size _

put_packed-ne-stuck :
    (s : LayoutState) (au : BitfieldAu) (align au_bits width : ℕ)
    → Place.put_packed s au align au_bits width ≢ stuck
unfolding Place.put_packed
put_packed-ne-stuck s au align au_bits width =
    >>=-ne-stuck (checked (au.offset + au.used_bits / 8)) _
      (checked-ne-stuck (au.offset + au.used_bits / 8))
      (λ byte _.
        >>=-ne-stuck (checked (au.used_bits + width)) _ (checked-ne-stuck (au.used_bits + width))
          (λ used _.
            >>=-ne-stuck (checked (au.offset + au.size_bytes)) _
              (checked-ne-stuck (au.offset + au.size_bytes)) (λ end _. ok-ne-stuck LayoutError _)))

put_boundary-ne-stuck : (s : LayoutState) (align : ℕ) → Place.put_boundary s align ≢ stuck
unfolding Place.put_boundary
put_boundary-ne-stuck s align =
    >>=-ne-stuck
      (elim s.bitfield_au [
        | none ↦ ok s.dsize
        | some au ↦ checked (au.offset + au.size_bytes) >>= λ au_end. ok (max s.dsize au_end)
      ])
      _ (ground arith)
      (λ d _.
        >>=-ne-stuck (align_up d align) _ (align_up-ne-stuck LayoutError d align)
          (λ off _. ok-ne-stuck LayoutError _))

fits-ne-stuck :
    (au : BitfieldAu) (size au_bits width : ℕ) → Place.fits au size au_bits width ≢ stuck
unfolding Place.fits
fits-ne-stuck au size au_bits width = ground arith

put_bits-ne-stuck :
    (s : LayoutState) (size align au_bits width : ℕ)
    → Place.put_bits s size align au_bits width ≢ stuck
unfolding Place.put_bits
put_bits-ne-stuck s size align au_bits width = elim (Option-cases s.bitfield_au) [
  | inl e ↦ rw (e, Place.put_bits) (put_opened-ne-stuck s size align au_bits width)
  | inr (au, e) ↦
      rw (e, Place.put_bits)
        (>>=-ne-stuck (Place.fits au size au_bits width) _ (fits-ne-stuck au size au_bits width)
          (λ fit _.
            if-ne-stuck fit (Place.put_packed s au align au_bits width)
              (Place.put_opened s size align au_bits width)
              (put_packed-ne-stuck s au align au_bits width)
              (put_opened-ne-stuck s size align au_bits width)))
]

put_bitfield-ne-stuck :
    (s : LayoutState) (size align width : ℕ) → Place.put_bitfield s size align width ≢ stuck
unfolding Place.put_bitfield
put_bitfield-ne-stuck s size align width =
    >>=-ne-stuck (checked (size * 8)) _ (checked-ne-stuck (size * 8)) (λ au_bits _.
      if-ne-stuck (width == 0) (Place.put_boundary s align)
        (Place.put_bits s size align au_bits width) (put_boundary-ne-stuck s align)
        (put_bits-ne-stuck s size align au_bits width))

module _ (ctx : CxxTypeCtx) (sizes : TypeId → SizeAlign) (class : ClassId) where
  member_size-ne-stuck :
      (f : FieldDef) (idx : ℕ)
      → sizes f.ty ≢ stuck
      → Place.member_size ctx sizes class f idx ≢ stuck
  unfolding Place.member_size
  member_size-ne-stuck f idx h =
      map_err-ne-stuck (λ _. unsized_field class (as_u32 idx)) (sizes f.ty) h

  pub place_field-ne-stuck :
      (s : LayoutState) (f : FieldDef) (idx : ℕ)
      → sizes f.ty ≢ stuck
      → Place.place_field ctx sizes class s f idx ≢ stuck
  unfolding Place.place_field Place.place_bitfield
  place_field-ne-stuck s f idx h = elim (Option-cases (bitfield_width ctx class idx)) [
    | inl e ↦
        rw (e, Place.place_field)
          (>>=-ne-stuck (Place.member_size ctx sizes class f idx) _ (member_size-ne-stuck f idx h)
            (λ (size, align) _.
              put_field-ne-stuck s size (Place.field_align (is_packed ctx class) f align)))
    | inr (w, e) ↦
        rw (e, Place.place_field)
          (>>=-ne-stuck (Place.member_size ctx sizes class f idx) _ (member_size-ne-stuck f idx h)
            (λ (size, align) _. put_bitfield-ne-stuck s size (Place.natural_align f align) w))
  ]

  pub place_union_field-ne-stuck :
      (s : LayoutState) (f : FieldDef) (idx : ℕ)
      → sizes f.ty ≢ stuck
      → Place.place_union_field ctx sizes class s f idx ≢ stuck
  unfolding Place.place_union_field
  place_union_field-ne-stuck s f idx h =
      >>=-ne-stuck (Place.member_size ctx sizes class f idx) _ (member_size-ne-stuck f idx h)
        (λ (size, align) _. ok-ne-stuck LayoutError _)

pub place_members-ne-stuck :
    (place : LayoutState → FieldDef → ℕ → Step) (fs : List FieldDef) (idx : ℕ) (s : LayoutState)
    → ((f : FieldDef) → f ∈ fs → (u : LayoutState) (i : ℕ) → place u f i ≢ stuck)
    → Compute.place_members place fs idx s ≢ stuck
unfolding Compute.place_members
place_members-ne-stuck place [] idx s h = ok-ne-stuck LayoutError s
place_members-ne-stuck place (f ∷ fs) idx s h =
    >>=-ne-stuck (place s f idx) _ (h f (inl refl) s idx)
      (λ t _. place_members-ne-stuck place fs (idx + 1) t (λ g m. h g (inr m)))

pub place_bases-ne-stuck :
    (measure : Measure) (primary : Option ClassId) (bs : List BaseSpec) (s : LayoutState)
    → ((b : BaseSpec) → b ∈ bs → measure b.class ≢ stuck)
    → Compute.place_bases measure primary bs s ≢ stuck
unfolding Compute.place_bases
place_bases-ne-stuck measure primary [] s h = ok-ne-stuck LayoutError s
place_bases-ne-stuck measure primary (b ∷ bs) s h =
    >>=-ne-stuck _ _
      (if-ne-stuck (b.is_virtual || Compute.is_class primary b.class) (ok s)
        (Place.place_base measure s b.class false) (ok-ne-stuck LayoutError s)
        (place_base-ne-stuck measure s b.class false (h b (inl refl))))
      (λ t _. place_bases-ne-stuck measure primary bs t (λ c m. h c (inr m)))

pub place_head-ne-stuck :
    (ctx : CxxTypeCtx) (measure : Measure) (primary : Option ClassId) (needs : Bool)
    (s : LayoutState)
    → ((p : ClassId) → primary ≡ some p → measure p ≢ stuck)
    → Compute.place_head ctx measure primary needs s ≢ stuck
unfolding Compute.place_head
place_head-ne-stuck ctx measure (some p) needs s h = place_base-ne-stuck measure s p true (h p refl)
place_head-ne-stuck ctx measure none true s h = ok-ne-stuck LayoutError _
place_head-ne-stuck ctx measure none false s h = ok-ne-stuck LayoutError s

pub place_virtual_bases-ne-stuck :
    (measure : Measure) (vs : List ClassId) (lo : ℕ) (s : LayoutState)
    → ((v : ClassId) → v ∈ vs → measure v ≢ stuck)
    → Compute.place_virtual_bases measure vs lo s ≢ stuck
unfolding Compute.place_virtual_bases
place_virtual_bases-ne-stuck measure [] lo s h = ok-ne-stuck LayoutError s
place_virtual_bases-ne-stuck measure (v ∷ vs) lo s h =
    >>=-ne-stuck (measure v) _ (h v (inl refl)) (λ l _.
      >>=-ne-stuck (align_up lo l.nv_align_bytes) _
        (align_up-ne-stuck LayoutError lo l.nv_align_bytes)
        (λ off _.
          >>=-ne-stuck (checked (off + l.nv_size_bytes)) _
            (checked-ne-stuck (off + l.nv_size_bytes))
            (λ end _. place_virtual_bases-ne-stuck measure vs end _ (λ w m. h w (inr m)))))
