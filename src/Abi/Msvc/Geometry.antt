-- ===== src/Abi/Msvc/Geometry.antt =====
-- The places of all parts of an MSVC layout (layout_msvc.rs).
use rustcc.Prelude.{
  ℕ, suc, ◌+◌, ◌≤◌, ◌≡◌, ◌≢◌, refl, sym, ◌∙◌, ap, arith, max, Bool, true, false, not,
}
use rustcc.Prelude.{◌&&◌, if◌then◌else◌, Bool-cases, inl, inr, Option, some, [], ◌++◌}
use rustcc.Prelude.{ok, >>=-eq-ok, ok_inj}
use mathlib.Core.Path.{subst}
use rustcc.Abi.Types.{ClassId, TypeId, ClassDef, RecordKind}
use rustcc.Abi.Context.{CxxTypeCtx, class_of, pragma_pack, class_has_bitfields}
use rustcc.Abi.Layout.State.{RecordLayout, HfaKind}
use rustcc.Abi.Layout.Classify.{any_virtual_base}
use rustcc.Abi.Layout.Hfa.{detect_hfa}
use rustcc.Abi.Layout.Compute.{Measure}
use rustcc.Abi.Msvc.State.{MsvcState, initial, bump_align, round_up, round_up_cursor, moved}
use rustcc.Abi.Msvc.Engine.{
  Sizes, msvc_size_align, any_polymorphic_base, place_vptr, msvc_place_bases, inherits_vbptr,
  place_vbptr, msvc_place_fields, place_own, msvc_virtual_bases, at_least_one, msvc_layout,
  layout_msvc,
}
use rustcc.Abi.Msvc.Regions.{
  LaidFields, LaidBases, Frame, round_up-le, round_up_cursor_lem, advance_lem, FieldsPut,
  fields-FieldsPut,
}
use rustcc.Abi.Msvc.Bases.{BasesPut, VirtualPut, bases-BasesPut, virtual_bases-VirtualPut}

vptr-Frame :
    (ctx : CxxTypeCtx) (class : ClassDef) (st st' : MsvcState)
    → place_vptr ctx class st ≡ ok st'
    → Frame st st'
unfolding place_vptr bump_align
vptr-Frame ctx class st st' h = elim (Bool-cases class.is_polymorphic) [
  | inr n ↦
      subst (Frame st) (ok_inj (rw n at h))
        (record { fields = refl; bases = refl; virtual_bases = refl; sized = λ c. c })
  | inl y ↦
      let (primary, a, b) = >>=-eq-ok (any_polymorphic_base ctx class.bases) _ (rw y at h) in
      subst (Frame st) (ok_inj b) (one primary)
]
  where
    one :
        (primary : Bool)
        → Frame st (if primary then st else moved 8 (bump_align 8 (record st { has_vptr = true })))
    one true = record { fields = refl; bases = refl; virtual_bases = refl; sized = λ c. c }
    one false = record {
      fields = refl;
      bases = refl;
      virtual_bases = refl;
      sized = λ _. omega arith;
    }

vbptr-Frame :
    (ctx : CxxTypeCtx) (class : ClassDef) (st st' : MsvcState)
    → place_vbptr ctx class st ≡ ok st'
    → Frame st st' × (st.cursor ≤ st'.cursor)
unfolding place_vbptr bump_align
vbptr-Frame ctx class st st' h =
    let (inherited, a, b) = >>=-eq-ok (inherits_vbptr ctx class.bases) _ h in
    elim (Bool-cases (not (any_virtual_base class.bases && not inherited))) [
      | inl y ↦
          subst (λ s. Frame st s × (st.cursor ≤ s.cursor)) (ok_inj (rw y at b))
            (
              record { fields = refl; bases = refl; virtual_bases = refl; sized = λ c. c },
              omega arith,
            )
      | inr n ↦
          let (st1, c, d) = >>=-eq-ok (round_up_cursor 8 (bump_align 8 st)) _ (rw n at b) in
          let (o, le, e) = round_up_cursor_lem 8 (bump_align 8 st) st1 c in
          let end =
            subst (λ s. moved (s.cursor + 8) (record s { has_vbptr = true }) ≡ st') (sym e)
              (advance_lem 8 _ st' d) in
          subst (λ s. Frame st s × (st.cursor ≤ s.cursor)) end
            (
              record {
                fields = refl;
                bases = refl;
                virtual_bases = refl;
                sized = λ _. omega arith;
              },
              omega arith,
            )
    ]

-- The parts of a layout follow each other: the non-virtual bases, the fields up to the non-virtual
-- size, the virtual bases up to the size.
pub record IsSpaced (sizes : TypeId → Sizes) (measure : Measure) (class : ClassDef)
    (l : RecordLayout) : Type 0 where
  pub start : ℕ
  pub bases_end : ℕ
  pub fields_start : ℕ
  pub fields_end : ℕ
  pub virtual_end : ℕ
  pub bases : LaidBases measure false class.bases l.base_offsets start bases_end
  pub ordered : bases_end ≤ fields_start
  pub fields : LaidFields sizes class.fields l.field_offsets fields_start fields_end
  pub non_virtual : fields_end ≤ l.nv_size_bytes
  pub virtual_bases :
      LaidBases measure true class.bases l.virtual_base_offsets l.nv_size_bytes virtual_end
  pub whole : virtual_end ≤ l.size_bytes

at_least_one-le : (class : ClassDef) (st : MsvcState) (n : ℕ) → n ≤ at_least_one class st n
unfolding at_least_one
at_least_one-le class st n = ground arith

-- The same of the state before the virtual bases.
record IsOwn (sizes : TypeId → Sizes) (measure : Measure) (class : ClassDef) (st : MsvcState)
    : Type 0 where
  start : ℕ
  bases_end : ℕ
  fields_start : ℕ
  bases : LaidBases measure false class.bases st.base_offsets start bases_end
  ordered : bases_end ≤ fields_start
  fields : LaidFields sizes class.fields st.field_offsets fields_start st.cursor
  fits : st.cursor ≤ st.size
  no_virtual : st.virtual_base_offsets ≡ []

IsOwn-steps :
    (sizes : TypeId → Sizes) (measure : Measure) (class : ClassDef) (pack : Option ℕ)
    (st1 st2 st3 st4 : MsvcState)
    → Frame (initial pack) st1
    → BasesPut measure class.bases st1 st2
    → Frame st2 st3 × (st2.cursor ≤ st3.cursor)
    → FieldsPut sizes class.fields st3 st4
    → IsOwn sizes measure class st4
unfolding initial
IsOwn-steps sizes measure class pack st1 st2 st3 st4 f (bos, bnew, blaid, bfields, bvirtual, bfit)
      (g, ahead) (fos, fnew, flaid, fbases, fvirtual, ffit) =
    let new_bases : st4.base_offsets ≡ bos = fbases ∙ g.bases ∙ bnew ∙ ap (λ q. q ++ bos) f.bases in
    let new_fields : st4.field_offsets ≡ fos =
      fnew ∙ ap (λ q. q ++ fos) (g.fields ∙ bfields ∙ f.fields) in
    record {
      start = st1.cursor;
      bases_end = st2.cursor;
      fields_start = st3.cursor;
      bases =
          subst (λ q. LaidBases measure false class.bases q st1.cursor st2.cursor) (sym new_bases)
            blaid;
      ordered = ahead;
      fields =
          subst (λ q. LaidFields sizes class.fields q st3.cursor st4.cursor) (sym new_fields) flaid;
      fits = ffit (g.sized (bfit (f.sized (omega arith))));
      no_virtual = fvirtual ∙ g.virtual_bases ∙ bvirtual ∙ f.virtual_bases;
    }

place_own-IsOwn :
    (ctx : CxxTypeCtx) (measure : Measure) (fuel : ℕ) (id : ClassId) (class : ClassDef)
    (own : MsvcState)
    → place_own ctx measure fuel id class ≡ ok own
    → IsOwn (msvc_size_align ctx measure fuel) measure class own
unfolding place_own
place_own-IsOwn ctx measure fuel id class own h =
    let pack : Option ℕ = pragma_pack ctx id in
    let (st1, a, b) = >>=-eq-ok (place_vptr ctx class (initial pack)) _ h in
    let (st2, c, d) = >>=-eq-ok (msvc_place_bases ctx measure class.bases st1) _ b in
    let (st3, e, f) = >>=-eq-ok (place_vbptr ctx class st2) _ d in
    let (st4, g, i) =
      >>=-eq-ok (msvc_place_fields ctx (msvc_size_align ctx measure fuel) id class.fields 0 st3) _
        f in
    let o =
      IsOwn-steps (msvc_size_align ctx measure fuel) measure class pack st1 st2 st3 st4
        (vptr-Frame ctx class (initial pack) st1 a)
        (bases-BasesPut ctx measure class.bases st1 st2 c) (vbptr-Frame ctx class st2 st3 e)
        (fields-FieldsPut ctx (msvc_size_align ctx measure fuel) id class.fields 0 st3 st4 g) in
    subst (IsOwn (msvc_size_align ctx measure fuel) measure class) (ok_inj i) (record {
      start = o.start;
      bases_end = o.bases_end;
      fields_start = o.fields_start;
      bases = o.bases;
      ordered = o.ordered;
      fields = o.fields;
      fits = o.fits;
      no_virtual = o.no_virtual;
    })

IsSpaced-finish :
    (sizes : TypeId → Sizes) (measure : Measure) (class : ClassDef) (own st : MsvcState)
    (nv nv_align size : ℕ) (hfa : Option HfaKind)
    → IsOwn sizes measure class own
    → own.size ≤ nv
    → VirtualPut measure class.bases (moved nv own) st
    → st.size ≤ size
    → IsSpaced sizes measure class (msvc_layout st nv nv_align size hfa)
unfolding msvc_layout
IsSpaced-finish sizes measure class own st nv nv_align size hfa o le
      (vos, vnew, vlaid, vfields, vbases, vfit) fits =
    let virtual : st.virtual_base_offsets ≡ vos = vnew ∙ ap (λ q. q ++ vos) o.no_virtual in
    let inside : st.cursor ≤ st.size = vfit (omega arith) in
    let own_fits : own.cursor ≤ own.size = o.fits in
    record {
      start = o.start;
      bases_end = o.bases_end;
      fields_start = o.fields_start;
      fields_end = own.cursor;
      virtual_end = st.cursor;
      bases =
          subst (λ q. LaidBases measure false class.bases q o.start o.bases_end) (sym vbases)
            o.bases;
      ordered = o.ordered;
      fields =
          subst (λ q. LaidFields sizes class.fields q o.fields_start own.cursor) (sym vfields)
            o.fields;
      non_virtual = omega arith;
      virtual_bases =
          subst (λ q. LaidBases measure true class.bases q nv st.cursor) (sym virtual) vlaid;
      whole = omega arith;
    }

-- What the MSVC engine returns for a struct or class without bit-fields: no two of its non-virtual
-- bases, fields and virtual bases overlap, each has the bytes of its own layout or type (none for a collapsed empty base), in
-- the order of declaration; the fields end within the non-virtual size, behind which the virtual
-- bases stand, and these end within the size.
pub layout_msvc-IsSpaced :
    (ctx : CxxTypeCtx) (fuel : ℕ) (id : ClassId) (class : ClassDef) (l : RecordLayout)
    → class_of ctx id ≡ some class
    → class.kind ≢ RecordKind.union
    → class_has_bitfields ctx id ≡ false
    → layout_msvc ctx (suc fuel) id ≡ ok l
    → IsSpaced (msvc_size_align ctx (layout_msvc ctx fuel) fuel) (layout_msvc ctx fuel) class l
unfolding layout_msvc
layout_msvc-IsSpaced ctx fuel id class l found _ _ h =
    let measure : Measure = layout_msvc ctx fuel in
    let sizes : (TypeId → Sizes) = msvc_size_align ctx measure fuel in
    let (own, a, b) = >>=-eq-ok (place_own ctx measure fuel id class) _ (rw found at h) in
    let (nv, c, d) = >>=-eq-ok (round_up own.size (max own.align 1)) _ b in
    let (st, e, f) = >>=-eq-ok (msvc_virtual_bases measure class.bases (moved nv own)) _ d in
    let (rounded, g, i) = >>=-eq-ok (round_up st.size (max st.align 1)) _ f in
    let (hfa, j, k) = >>=-eq-ok (detect_hfa ctx (suc fuel) id) _ i in
    let up = round_up-le st.size (max st.align 1) rounded g in
    let least = at_least_one-le class st rounded in
    subst (IsSpaced sizes measure class) (ok_inj k) (
      IsSpaced-finish sizes measure class own st nv (max own.align 1)
        (at_least_one class st rounded) hfa (place_own-IsOwn ctx measure fuel id class own a)
        (round_up-le own.size (max own.align 1) nv c)
        (virtual_bases-VirtualPut measure class.bases (moved nv own) st e)
        (omega (arith, up, least)))
