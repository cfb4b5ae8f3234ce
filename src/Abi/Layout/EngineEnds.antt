-- ===== src/Abi/Layout/EngineEnds.antt =====
-- Termination of `compute_layout` of layout.rs on ranked contexts.
use rustcc.Prelude.{ℕ, zero, suc, ◌≤◌, ◌<◌, ◌≡◌, ◌≢◌, arith, ◌∈◌, Bool, true, false}
use rustcc.Prelude.{◌==◌, if◌then◌else◌, Option, some, max, ok, stuck, ◌>>=◌}
use rustcc.Prelude.{or_panic, >>=-ne-stuck, or_panic-eq-ok, or_panic-ne-stuck, ok-ne-stuck, map_err}
use rustcc.Prelude.{map_err-ne-stuck}
use rustcc.Abi.Types.{
  ClassId, TypeId, ClassDef, BaseSpec, FieldDef, CxxType, LayoutError, RecordKind,
}
use rustcc.Abi.Types.{array, record_type, enum_type}
use rustcc.Abi.Context.{CxxTypeCtx, class_of, type_of}
use rustcc.Abi.Layout.State.{LayoutState, new}
use rustcc.Abi.Layout.Classify.{pick_primary_base, collect_virtual_bases, is_pod_for_layout}
use rustcc.Abi.Layout.Classify.{is_empty_class}
use rustcc.Abi.Layout.Hfa.{detect_hfa}
use rustcc.Abi.Layout.Place.{SizeAlign, size_of, type_size_align, place_field, place_union_field}
use rustcc.Abi.Layout.Compute
use rustcc.Abi.Layout.Compute.{Measure, compute_layout}
use rustcc.Abi.Layout.StepsEnd.{align_up-ne-stuck, place_members-ne-stuck, place_bases-ne-stuck}
use rustcc.Abi.Layout.StepsEnd.{place_head-ne-stuck, place_virtual_bases-ne-stuck}
use rustcc.Abi.Layout.StepsEnd.{place_field-ne-stuck, place_union_field-ne-stuck}
use rustcc.Abi.Layout.Terminates.{IsRanked, if-ne-stuck, has_virtual_base_chain-ne-stuck}
use rustcc.Abi.Layout.Terminates.{is_empty_class-ne-stuck, is_pod_for_layout-ne-stuck}
use rustcc.Abi.Layout.WalksEnd.{pick_primary_base_lem, collect_virtual_bases-ends}
use rustcc.Abi.Layout.WalksEnd.{detect_hfa-ne-stuck}

nv_size-ne-stuck :
    (is_empty is_pod : Bool) (s : LayoutState) → Compute.nv_size is_empty is_pod s ≢ stuck
unfolding Compute.nv_size
nv_size-ne-stuck true is_pod s = ok-ne-stuck LayoutError 0
nv_size-ne-stuck false true s = align_up-ne-stuck LayoutError s.dsize (max s.align 1)
nv_size-ne-stuck false false s = ok-ne-stuck LayoutError s.dsize

final_size-ne-stuck : (s : LayoutState) → Compute.final_size s ≢ stuck
unfolding Compute.final_size
final_size-ne-stuck s =
    align_up-ne-stuck LayoutError (if max s.size s.dsize == 0 then 1 else max s.size s.dsize)
      s.align

module _ (ctx : CxxTypeCtx) {class_rank : ClassId → ℕ} {type_rank : TypeId → ℕ}
    (ranked : IsRanked ctx class_rank type_rank) where
  size_of-ne-stuck :
      (inner : TypeId → SizeAlign) (measure : Measure) (ty : TypeId)
      → ((c : ClassId) → class_rank c ≤ type_rank ty → measure c ≢ stuck)
      → ((u : TypeId) → type_rank u < type_rank ty → inner u ≢ stuck)
      → (t : CxxType) → type_of ctx ty ≡ some t
      → size_of ctx inner measure t ≢ stuck
  unfolding size_of
  size_of-ne-stuck inner measure ty classes types (array el len) e =
      >>=-ne-stuck (inner el) _ (types el (ranked.array_lt ty el len e))
        (λ s _. ok-ne-stuck (Unit {0}) _)
  size_of-ne-stuck inner measure ty classes types (record_type c) e =
      >>=-ne-stuck (map_err (λ _. tt) (measure c)) _
        (map_err-ne-stuck (λ _. tt) (measure c) (classes c (ranked.record_le ty c e)))
        (λ r _. ok-ne-stuck (Unit {0}) _)
  size_of-ne-stuck inner measure ty classes types (enum_type n u scoped) e =
      types u (ranked.enum_lt ty u n scoped e)
  size_of-ne-stuck inner measure ty classes types _ e = λ s. cc s

  type_size_align-ne-stuck :
      (measure : Measure) (fuel : ℕ) (ty : TypeId)
      → ((c : ClassId) → class_rank c ≤ type_rank ty → measure c ≢ stuck)
      → type_rank ty < fuel
      → type_size_align ctx measure fuel ty ≢ stuck
  unfolding type_size_align
  type_size_align-ne-stuck measure zero ty classes lt = elim lt [ ]
  type_size_align-ne-stuck measure (suc fuel) ty classes lt =
      >>=-ne-stuck (or_panic (type_of ctx ty)) _ (or_panic-ne-stuck (type_of ctx ty)) (λ t e.
        size_of-ne-stuck (type_size_align ctx measure fuel) measure ty classes
          (λ u less.
            type_size_align-ne-stuck measure fuel u (λ c le. classes c (omega arith)) (omega arith))
          t (or_panic-eq-ok (type_of ctx ty) e))

  -- What is known of the classes one level down.
  module _ (measure : Measure) (fuel : ℕ) (c : ClassId) (d : ClassDef)
      (known : class_of ctx c ≡ some d) (lt : class_rank c < suc fuel)
      (deeper : (b : ClassId) → class_rank b < class_rank c → measure b ≢ stuck) where
    member-ne-stuck : (f : FieldDef) → f ∈ d.fields → type_size_align ctx measure fuel f.ty ≢ stuck
    member-ne-stuck f m =
        let less = ranked.field_lt c d f known m in
        type_size_align-ne-stuck measure fuel f.ty (λ b le. deeper b (omega arith)) (omega arith)

    base-ne-stuck : (b : BaseSpec) → b ∈ d.bases → measure b.class ≢ stuck
    base-ne-stuck b m = deeper b.class (ranked.base_lt c d b known m)

    primary-ne-stuck :
        (primary : Option ClassId)
        → pick_primary_base ctx d ≡ ok primary
        → (p : ClassId) → primary ≡ some p
        → measure p ≢ stuck
    primary-ne-stuck primary e p s =
        let (b, m, same) = (pick_primary_base_lem ctx d).1 p (rw s at e) in
        rw same at (base-ne-stuck b m)

    place_record-ne-stuck : Compute.place_record ctx measure fuel c d ≢ stuck
    unfolding Compute.place_record Compute.needs_vptr
    place_record-ne-stuck =
        >>=-ne-stuck (pick_primary_base ctx d) _ (pick_primary_base_lem ctx d).0 (λ primary e.
          >>=-ne-stuck (Compute.needs_vptr ctx (suc fuel) c d) _
            (if-ne-stuck d.is_polymorphic (ok true) _ (ok-ne-stuck LayoutError true)
              (has_virtual_base_chain-ne-stuck ctx ranked (suc fuel) c lt))
            (λ needs _.
              >>=-ne-stuck (Compute.place_head ctx measure primary needs new) _
                (place_head-ne-stuck ctx measure primary needs new (primary-ne-stuck primary e))
                (λ s _.
                  >>=-ne-stuck (Compute.place_bases measure primary d.bases s) _
                    (place_bases-ne-stuck measure primary d.bases s base-ne-stuck)
                    (λ t _.
                      place_members-ne-stuck (place_field ctx (type_size_align ctx measure fuel) c)
                        d.fields 0 t
                        (λ f m u i.
                          place_field-ne-stuck ctx (type_size_align ctx measure fuel) c u f i
                            (member-ne-stuck f m))))))

    place_all-ne-stuck : (kind : RecordKind) → Compute.place_all ctx measure fuel c d kind ≢ stuck
    unfolding Compute.place_all Compute.place_union
    place_all-ne-stuck RecordKind.union =
        >>=-ne-stuck _ _
          (place_members-ne-stuck (place_union_field ctx (type_size_align ctx measure fuel) c)
            d.fields 0 new
            (λ f m u i.
              place_union_field-ne-stuck ctx (type_size_align ctx measure fuel) c u f i
                (member-ne-stuck f m)))
          (λ s _. ok-ne-stuck LayoutError _)
    place_all-ne-stuck RecordKind.struct = place_record-ne-stuck
    place_all-ne-stuck RecordKind.class = place_record-ne-stuck

  -- The virtual bases and what follows them.
  rest-ne-stuck :
      (measure : Measure) (fuel : ℕ) (c : ClassId) (n : LayoutState) (pod : Bool) (nv : ℕ)
      → class_rank c < suc fuel
      → ((b : ClassId) → class_rank b < class_rank c → measure b ≢ stuck)
      → (collect_virtual_bases ctx (suc fuel) c >>= λ vbases.
          Compute.place_virtual_bases measure vbases n.dsize n >>= λ s.
          Compute.final_size s >>= λ size.
          detect_hfa ctx (suc fuel) c >>= λ hfa. ok (Compute.finish n s pod nv size hfa))
        ≢ stuck
  rest-ne-stuck measure fuel c n pod nv lt deeper =
      let ends = collect_virtual_bases-ends ctx ranked (suc fuel) c lt in
      >>=-ne-stuck (collect_virtual_bases ctx (suc fuel) c) _ ends.0 (λ vs e.
        >>=-ne-stuck (Compute.place_virtual_bases measure vs n.dsize n) _
          (place_virtual_bases-ne-stuck measure vs n.dsize n (λ v m. deeper v (ends.1 vs e v m)))
          (λ s _. >>=-ne-stuck (Compute.final_size s) _ (final_size-ne-stuck s) (λ size _.
            >>=-ne-stuck (detect_hfa ctx (suc fuel) c) _
              (detect_hfa-ne-stuck ctx ranked (suc fuel) c lt)
              (λ hfa _. ok-ne-stuck LayoutError _))))

  -- On a ranked context `compute_layout` ends: with any bound on the depth above the rank of the
  -- class it does not run out, whatever the class, so it returns a layout or an error, or panics.
  pub compute_layout-ne-stuck :
      (fuel : ℕ) (c : ClassId) → class_rank c < fuel → compute_layout ctx fuel c ≢ stuck
  unfolding compute_layout
  compute_layout-ne-stuck zero c lt = elim lt [ ]
  compute_layout-ne-stuck (suc fuel) c lt =
      let measure = compute_layout ctx fuel in
      let deeper = λ (b : ClassId) (less : class_rank b < class_rank c).
        compute_layout-ne-stuck fuel b (omega arith) in
      >>=-ne-stuck (or_panic (class_of ctx c)) _ (or_panic-ne-stuck (class_of ctx c)) (λ d e.
        let known = or_panic-eq-ok (class_of ctx c) e in
        >>=-ne-stuck (Compute.place_all ctx measure fuel c d d.kind) _
          (place_all-ne-stuck measure fuel c d known lt deeper d.kind)
          (λ placed _.
            let n = Compute.apply_alignas d.source_alignment placed in
            >>=-ne-stuck (is_pod_for_layout ctx (suc fuel) c) _
              (is_pod_for_layout-ne-stuck ctx ranked (suc fuel) c lt)
              (λ pod _.
                >>=-ne-stuck (is_empty_class ctx (suc fuel) c) _
                  (is_empty_class-ne-stuck ctx ranked (suc fuel) c lt)
                  (λ empty _.
                    >>=-ne-stuck (Compute.nv_size empty pod n) _ (nv_size-ne-stuck empty pod n)
                      (λ nv _. rest-ne-stuck measure fuel c n pod nv lt deeper)))))
