-- ===== src/Abi/Layout/Keeps.antt =====
-- The invariant rule of the engine: what every primitive placement keeps, `place_all` keeps; and
-- the parts of a successful run of `place_record`.
use rustcc.Prelude.{ℕ, suc, ◌+◌, ◌*◌, ◌≡◌, inl, inr, Bool, true, false, ◌||◌, ◌==◌}
use rustcc.Prelude.{Option, none, some, List, [], ◌∷◌, ok, checked, >>=-eq-ok, ok_inj, checked-ok}
use rustcc.Prelude.{Option-cases, Bool-cases, if◌then◌else◌}
use mathlib.Core.Path.{subst}
use rustcc.Abi.Types.{ClassId, TypeId, ClassDef, BaseSpec, FieldDef, RecordKind}
use rustcc.Abi.Context.{CxxTypeCtx, bitfield_width, is_packed}
use rustcc.Abi.Layout.State.{RecordLayout, LayoutState, BitfieldAu, new}
use rustcc.Abi.Layout.Classify.{pick_primary_base}
use rustcc.Abi.Layout.Place.{
  Step, SizeAlign, type_size_align, allocate_vptr, place_primary, place_empty, place_non_empty,
  place_base, put_field, put_boundary, put_packed, put_opened, put_bits, put_bitfield, fits,
  put_union_field, natural_align, field_align, member_size, place_field, place_bitfield,
  place_union_field, unwrap_or,
}
use rustcc.Abi.Layout.Compute.{Measure, is_class, place_head, place_bases, place_members, place_all}
use rustcc.Abi.Layout.Compute.{place_union, place_record, needs_vptr}

-- `P` holds of the state across each primitive step; `Q` is what is known of the layout of a base.
pub record KeepsBases (P : LayoutState → Type 0) (Q : RecordLayout → Type 0) : Type 0 where
  pub vptr : (ctx : CxxTypeCtx) (s : LayoutState) → P s → P (allocate_vptr ctx s)
  pub primary :
      (s t : LayoutState) (id : ClassId) (b : RecordLayout)
      → Q b
      → place_primary s id b ≡ ok t
      → P s
      → P t
  pub empty :
      (s t : LayoutState) (id : ClassId) (b : RecordLayout)
      → Q b
      → place_empty s id b ≡ ok t
      → P s
      → P t
  pub non_empty :
      (s t : LayoutState) (id : ClassId) (b : RecordLayout)
      → Q b
      → place_non_empty s id b ≡ ok t
      → P s
      → P t

pub record KeepsMembers (P : LayoutState → Type 0) : Type 0 where
  pub plain : (s t : LayoutState) (size align : ℕ) → put_field s size align ≡ ok t → P s → P t
  pub boundary : (s t : LayoutState) (align : ℕ) → put_boundary s align ≡ ok t → P s → P t
  pub packed :
      (s t : LayoutState) (au : BitfieldAu) (size align width : ℕ)
      → s.bitfield_au ≡ some au
      → fits au size (size * 8) width ≡ ok true
      → put_packed s au align (size * 8) width ≡ ok t
      → P s
      → P t
  pub opened :
      (s t : LayoutState) (size align width : ℕ)
      → put_opened s size align (size * 8) width ≡ ok t
      → P s
      → P t
  pub member :
      (s : LayoutState) (size align width : ℕ) → P s → P (put_union_field s size align width)
  pub closed : (s : LayoutState) → P s → P (record s { dsize = s.size })

module _ {P : LayoutState → Type 0} (k : KeepsMembers P) where
  keeps_bits :
      (s t : LayoutState) (size align width : ℕ)
      → put_bits s size align (size * 8) width ≡ ok t
      → P s
      → P t
  unfolding put_bits
  keeps_bits s t size align width h p = elim (Option-cases s.bitfield_au) [
    | inl e ↦ k.opened s t size align width (rw e at h) p
    | inr (au, e) ↦ go au e (>>=-eq-ok (fits au size (size * 8) width) _ (rw e at h))
  ]
    where
      go :
          (au : BitfieldAu)
          → s.bitfield_au ≡ some au
          → (fit : Bool) × (fits au size (size * 8) width ≡ ok fit)
            × ((if fit
                  then put_packed s au align (size * 8) width
                  else put_opened s size align (size * 8) width)
                ≡ ok t)
          → P t
      go au e (true, fit, g) = k.packed s t au size align width e fit g p
      go au e (false, _, g) = k.opened s t size align width g p

  keeps_bitfield :
      (s t : LayoutState) (size align width : ℕ)
      → put_bitfield s size align width ≡ ok t
      → P s
      → P t
  unfolding put_bitfield
  keeps_bitfield s t size align width h p =
      let (au_bits, e, g) = >>=-eq-ok (checked (size * 8)) _ h in
      let e' : au_bits ≡ size * 8 = checked-ok (size * 8) e in
      let g' = rw e' at g in
      elim (Bool-cases (width == 0)) [
        | inl z ↦ k.boundary s t align (rw z at g') p
        | inr z ↦ keeps_bits s t size align width (rw z at g') p
      ]

  module _ (ctx : CxxTypeCtx) (sizes : TypeId → SizeAlign) (class : ClassId) where
    pub keeps_field :
        (s t : LayoutState) (f : FieldDef) (idx : ℕ)
        → place_field ctx sizes class s f idx ≡ ok t
        → P s
        → P t
    unfolding place_field place_bitfield
    keeps_field s t f idx h p = elim (Option-cases (bitfield_width ctx class idx)) [
      | inl e ↦
          let ((size, align), _, g) =
            >>=-eq-ok (member_size ctx sizes class f idx) _ (rw (e, place_field) at h) in
          k.plain s t size (field_align (is_packed ctx class) f align) g p
      | inr (w, e) ↦
          let ((size, align), _, g) =
            >>=-eq-ok (member_size ctx sizes class f idx) _ (rw (e, place_field) at h) in
          keeps_bitfield s t size (natural_align f align) w g p
    ]

    keeps_union_field :
        (s t : LayoutState) (f : FieldDef) (idx : ℕ)
        → place_union_field ctx sizes class s f idx ≡ ok t
        → P s
        → P t
    unfolding place_union_field
    keeps_union_field s t f idx h p =
        let ((size, align), _, g) = >>=-eq-ok (member_size ctx sizes class f idx) _ h in
        subst P (ok_inj g)
          (k.member s size (natural_align f align) (unwrap_or (bitfield_width ctx class idx) 0) p)

  pub keeps_members :
      (place : LayoutState → FieldDef → ℕ → Step)
      → ((s t : LayoutState) (f : FieldDef) (idx : ℕ) → place s f idx ≡ ok t → P s → P t)
      → (fs : List FieldDef) (idx : ℕ) (s t : LayoutState) → place_members place fs idx s ≡ ok t
      → P s
      → P t
  unfolding place_members
  keeps_members place step [] idx s t h p = subst P (ok_inj h) p
  keeps_members place step (f ∷ fs) idx s t h p =
      let (m, e, g) = >>=-eq-ok (place s f idx) _ h in
      keeps_members place step fs (idx + 1) m t g (step s m f idx e p)

module _ {P : LayoutState → Type 0} {Q : RecordLayout → Type 0} (k : KeepsBases P Q) where
  module _ (measure : Measure)
      (good : (id : ClassId) (b : RecordLayout) → measure id ≡ ok b → Q b) where
    keeps_base :
        (s t : LayoutState) (id : ClassId) (is_primary : Bool)
        → place_base measure s id is_primary ≡ ok t
        → P s
        → P t
    unfolding place_base
    keeps_base s t id true h p =
        let (b, e, g) = >>=-eq-ok (measure id) _ h in k.primary s t id b (good id b e) g p
    keeps_base s t id false h p =
        let (b, e, g) = >>=-eq-ok (measure id) _ h in
        elim (Bool-cases (b.nv_size_bytes == 0)) [
          | inl z ↦ k.empty s t id b (good id b e) (rw z at g) p
          | inr z ↦ k.non_empty s t id b (good id b e) (rw z at g) p
        ]

    pub keeps_bases :
        (primary : Option ClassId) (bs : List BaseSpec) (s t : LayoutState)
        → place_bases measure primary bs s ≡ ok t
        → P s
        → P t
    unfolding place_bases
    keeps_bases primary [] s t h p = subst P (ok_inj h) p
    keeps_bases primary (b ∷ bs) s t h p =
        elim (Bool-cases (b.is_virtual || is_class primary b.class)) [
          | inl skip ↦ keeps_bases primary bs s t (rw skip at h) p
          | inr place ↦
              let (m, e, g) = >>=-eq-ok (place_base measure s b.class false) _ (rw place at h) in
              keeps_bases primary bs m t g (keeps_base s m b.class false e p)
        ]

    pub keeps_head :
        (ctx : CxxTypeCtx) (primary : Option ClassId) (needs : Bool) (s t : LayoutState)
        → place_head ctx measure primary needs s ≡ ok t
        → P s
        → P t
    unfolding place_head
    keeps_head ctx (some id) needs s t h p = keeps_base s t id true h p
    keeps_head ctx none true s t h p = subst P (ok_inj h) (k.vptr ctx s p)
    keeps_head ctx none false s t h p = subst P (ok_inj h) p

-- The parts of a successful run of `place_record`.
pub record RecordRun (ctx : CxxTypeCtx) (measure : Measure) (fuel : ℕ) (id : ClassId)
    (class : ClassDef) (t : LayoutState) : Type 0 where
  pub primary : Option ClassId
  pub needs : Bool
  pub headed : LayoutState
  pub based : LayoutState
  pub primary_eq : pick_primary_base ctx class ≡ ok primary
  pub needs_eq : needs_vptr ctx (suc fuel) id class ≡ ok needs
  pub headed_eq : place_head ctx measure primary needs new ≡ ok headed
  pub based_eq : place_bases measure primary class.bases headed ≡ ok based
  pub members_eq :
      place_members (place_field ctx (type_size_align ctx measure fuel) id) class.fields 0 based
      ≡ ok t

module _ (measure : Measure) (ctx : CxxTypeCtx) (fuel : ℕ) (id : ClassId) (class : ClassDef)
    (t : LayoutState) where
  pub place_record-Run :
      place_record ctx measure fuel id class ≡ ok t → RecordRun ctx measure fuel id class t
  unfolding place_record
  place_record-Run h =
      let (primary, e0, h0) = >>=-eq-ok (pick_primary_base ctx class) _ h in
      let (needs, e1, h1) = >>=-eq-ok (needs_vptr ctx (suc fuel) id class) _ h0 in
      let (s, e2, h2) = >>=-eq-ok (place_head ctx measure primary needs new) _ h1 in
      let (u, e3, h3) = >>=-eq-ok (place_bases measure primary class.bases s) _ h2 in
      record {
        primary = primary;
        needs = needs;
        headed = s;
        based = u;
        primary_eq = e0;
        needs_eq = e1;
        headed_eq = e2;
        based_eq = e3;
        members_eq = h3;
      }

  module _ {P : LayoutState → Type 0} (m : KeepsMembers P) where
    pub keeps_union : place_union ctx measure fuel id class ≡ ok t → P new → P t
    unfolding place_union
    keeps_union h p =
        let (s, e, g) =
          >>=-eq-ok
            (place_members (place_union_field ctx (type_size_align ctx measure fuel) id)
              class.fields 0 new)
            _ h in
        subst P (ok_inj g) (
          m.closed s (
            keeps_members m (place_union_field ctx (type_size_align ctx measure fuel) id)
              (keeps_union_field m ctx (type_size_align ctx measure fuel) id) class.fields 0 new s e
              p))

  module _ {P : LayoutState → Type 0} {Q : RecordLayout → Type 0} (k : KeepsBases P Q)
      (good : (i : ClassId) (b : RecordLayout) → measure i ≡ ok b → Q b) where
    pub keeps_based : (run : RecordRun ctx measure fuel id class t) → P new → P run.based
    keeps_based run p =
        keeps_bases k measure good run.primary class.bases run.headed run.based run.based_eq
          (keeps_head k measure good ctx run.primary run.needs new run.headed run.headed_eq p)

    module _ (m : KeepsMembers P) where
      keeps_record : place_record ctx measure fuel id class ≡ ok t → P new → P t
      keeps_record h p =
          let run = place_record-Run h in
          keeps_members m (place_field ctx (type_size_align ctx measure fuel) id)
            (keeps_field m ctx (type_size_align ctx measure fuel) id) class.fields 0 run.based t
            run.members_eq (keeps_based run p)

      -- The rule: `P` of the fresh state is `P` of the state with every base and member placed.
      pub keeps_all :
          (kind : RecordKind) → place_all ctx measure fuel id class kind ≡ ok t → P new → P t
      unfolding place_all
      keeps_all RecordKind.union h p = keeps_union m h p
      keeps_all RecordKind.struct h p = keeps_record h p
      keeps_all RecordKind.class h p = keeps_record h p
