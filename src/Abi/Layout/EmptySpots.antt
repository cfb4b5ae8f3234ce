-- ===== src/Abi/Layout/EmptySpots.antt =====
-- The empty subobjects that `compute_layout` of layout.rs records.
use rustcc.Prelude.{ℕ, zero, suc, ◌*◌, ◌≡◌, refl, sym, ◌∙◌, ap, Bool, true, false, ◌||◌, ◌==◌}
use rustcc.Prelude.{Bool-cases, inl, inr, Option, none, some, List, [], ◌∷◌, ok, >>=-eq-ok, ok_inj}
use mathlib.Core.Path.{subst}
use rustcc.Abi.Types.{ClassId, ClassDef, BaseSpec, RecordKind}
use rustcc.Abi.Context.{CxxTypeCtx}
use rustcc.Abi.Layout.State.{RecordLayout, LayoutState, HfaKind, new}
use rustcc.Abi.Layout.Place.{
  allocate_vptr, place_primary, place_base, put_union_field, place_field, type_size_align,
}
use rustcc.Abi.Layout.Compute.{
  Measure, is_class, place_head, place_bases, place_all, place_record, apply_alignas, finish,
  compute_layout,
}
use rustcc.Abi.Layout.Empties.{Distinct, Distinct-push, find_empty_base_offset_lem}
use rustcc.Abi.Layout.Steps.{
  place_empty-inv, place_non_empty-inv, put_field-inv, put_boundary-inv, put_packed-inv,
  put_opened-inv,
}
use rustcc.Abi.Layout.Keeps.{
  KeepsMembers, keeps_members, keeps_field, place_record-Run, keeps_union,
}
use rustcc.Abi.Layout.Regions.{place_virtual_bases-frame}
use rustcc.Abi.Layout.Run.{compute_layout-Run}

abbrev IsDistinct : LayoutState → Type 0
IsDistinct s = Distinct s.empty_subobjects

-- Members record no empty subobject.
IsDistinct-KeepsMembers : KeepsMembers IsDistinct
unfolding put_union_field
IsDistinct-KeepsMembers = record {
  plain = λ u t size align h p. let (_, _, e) = put_field-inv u t size align h in rw e p;
  boundary = λ u t align h p. let (_, _, e) = put_boundary-inv u t align h in rw e p;
  packed = λ u t au size align width _ _ h p. rw (put_packed-inv u t au align (size * 8) width h) p;
  opened = λ u t size align width h p.
      let (_, _, e) = put_opened-inv u t size align (size * 8) width h in rw e p;
  member = λ u size align width p. p;
  closed = λ u p. p;
}

module _ (measure : Measure)
    (good : (id : ClassId) (b : RecordLayout)
      → measure id ≡ ok b
      → Distinct b.empty_subobjects) where
  place_head-IsDistinct :
      (ctx : CxxTypeCtx) (primary : Option ClassId) (needs : Bool) (t : LayoutState)
      → place_head ctx measure primary needs new ≡ ok t
      → IsDistinct t
  unfolding place_head place_base place_primary allocate_vptr new
  place_head-IsDistinct ctx (some id) needs t h =
      let (b, e, g) = >>=-eq-ok (measure id) _ h in subst IsDistinct (ok_inj g) (good id b e)
  place_head-IsDistinct ctx none true t h = subst IsDistinct (ok_inj h) tt
  place_head-IsDistinct ctx none false t h = subst IsDistinct (ok_inj h) tt

  place_base-IsDistinct :
      (s t : LayoutState) (id : ClassId)
      → place_base measure s id false ≡ ok t
      → IsDistinct s
      → IsDistinct t
  unfolding place_base
  place_base-IsDistinct s t id h v =
      let (b, e, g) = >>=-eq-ok (measure id) _ h in
      elim (Bool-cases (b.nv_size_bytes == 0)) [
        | inl z ↦
            let (off, found, i) = place_empty-inv s t id b (rw z at g) in
            let (free, _) = find_empty_base_offset_lem s.empty_subobjects id b found in
            rw i (Distinct-push s.empty_subobjects id off v free)
        | inr z ↦ let (off, l, i) = place_non_empty-inv s t id b (rw z at g) in rw i v
      ]

  place_bases-IsDistinct :
      (primary : Option ClassId) (bs : List BaseSpec) (s t : LayoutState)
      → place_bases measure primary bs s ≡ ok t
      → IsDistinct s
      → IsDistinct t
  unfolding place_bases
  place_bases-IsDistinct primary [] s t h v = subst IsDistinct (ok_inj h) v
  place_bases-IsDistinct primary (b ∷ bs) s t h v =
      elim (Bool-cases (b.is_virtual || is_class primary b.class)) [
        | inl skip ↦ place_bases-IsDistinct primary bs s t (rw skip at h) v
        | inr place ↦
            let (m, e, g) = >>=-eq-ok (place_base measure s b.class false) _ (rw place at h) in
            place_bases-IsDistinct primary bs m t g (place_base-IsDistinct s m b.class e v)
      ]

  place_record-IsDistinct :
      (ctx : CxxTypeCtx) (fuel : ℕ) (id : ClassId) (class : ClassDef) (t : LayoutState)
      → place_record ctx measure fuel id class ≡ ok t
      → IsDistinct t
  place_record-IsDistinct ctx fuel id class t h =
      let run = place_record-Run measure ctx fuel id class t h in
      let sizes = type_size_align ctx measure fuel in
      keeps_members IsDistinct-KeepsMembers (place_field ctx sizes id)
        (keeps_field IsDistinct-KeepsMembers ctx sizes id) class.fields 0 run.based t run.members_eq
        (place_bases-IsDistinct run.primary class.bases run.headed run.based run.based_eq
          (place_head-IsDistinct ctx run.primary run.needs run.headed run.headed_eq))

  place_all-IsDistinct :
      (ctx : CxxTypeCtx) (fuel : ℕ) (id : ClassId) (class : ClassDef) (t : LayoutState)
      (kind : RecordKind)
      → place_all ctx measure fuel id class kind ≡ ok t
      → IsDistinct t
  unfolding place_all new
  place_all-IsDistinct ctx fuel id class t RecordKind.union h =
      keeps_union measure ctx fuel id class t IsDistinct-KeepsMembers h tt
  place_all-IsDistinct ctx fuel id class t RecordKind.struct h =
      place_record-IsDistinct ctx fuel id class t h
  place_all-IsDistinct ctx fuel id class t RecordKind.class h =
      place_record-IsDistinct ctx fuel id class t h

alignas_empties :
    (a : Option ℕ) (s : LayoutState) → (apply_alignas a s).empty_subobjects ≡ s.empty_subobjects
unfolding apply_alignas
alignas_empties none s = refl
alignas_empties (some a) s = refl

finish_empties :
    (n s : LayoutState) (is_pod : Bool) (nv size : ℕ) (hfa : Option HfaKind)
    → (finish n s is_pod nv size hfa).empty_subobjects ≡ s.empty_subobjects
unfolding finish
finish_empties n s is_pod nv size hfa = refl

-- In every layout that `compute_layout` returns, no two recorded empty subobjects of one class
-- stand at the same offset.
pub compute_layout-Distinct :
    (ctx : CxxTypeCtx) (fuel : ℕ) (id : ClassId) (r : RecordLayout)
    → compute_layout ctx fuel id ≡ ok r
    → Distinct r.empty_subobjects
unfolding compute_layout
compute_layout-Distinct ctx zero id r h = cc
compute_layout-Distinct ctx (suc fuel) id r h =
    let measure = compute_layout ctx fuel in
    let run = compute_layout-Run ctx fuel id r h in
    let n = apply_alignas run.class.source_alignment run.placed in
    let placed =
      place_all-IsDistinct measure (compute_layout-Distinct ctx fuel) ctx fuel id run.class
        run.placed run.class.kind run.placed_eq in
    let fr = place_virtual_bases-frame measure run.vbases n.dsize n run.last run.last_eq in
    let same =
      ap (λ (l : RecordLayout). l.empty_subobjects) run.result
      ∙ finish_empties n run.last run.is_pod run.nv run.size run.hfa
      ∙ fr.4
      ∙ alignas_empties run.class.source_alignment run.placed in
    subst Distinct (sym same) placed
