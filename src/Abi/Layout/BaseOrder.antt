-- ===== src/Abi/Layout/BaseOrder.antt =====
-- Which base classes the engine of layout.rs places, and in which order.
use rustcc.Prelude.{
  ℕ, ◌+◌, if◌then◌else◌, Bool, ◌||◌, Bool-cases, inl, inr, Option, none, some, List, [], ◌∷◌, ◌++◌,
}
use rustcc.Prelude.{◌≡◌, refl, sym, ◌∙◌, ap, ok, >>=-eq-ok, push, ok_inj, true, false, ◌==◌}
use mathlib.Core.List.{append_assoc, append-nil}
use rustcc.Abi.Types.{ClassId, BaseSpec}
use rustcc.Abi.Context.{CxxTypeCtx}
use rustcc.Prelude.{checked}
use rustcc.Abi.Layout.State.{RecordLayout, LayoutState, new, align_up}
use mathlib.Core.Path.{subst}
use rustcc.Abi.Layout.Place.{allocate_vptr, place_base, place_primary}
use rustcc.Abi.Layout.Compute.{Measure, is_class, place_head, place_bases, place_virtual_bases}
use rustcc.Abi.Layout.Steps.{place_empty-inv, place_non_empty-inv}
use rustcc.Prelude.{zero, suc}
use rustcc.Abi.Layout.Classify.{collect_virtual_bases}
use rustcc.Abi.Layout.Compute.{apply_alignas, compute_layout, finish}
use rustcc.Abi.Layout.Run.{compute_layout-Run}

-- The primary base stands at offset 0.
abbrev pub primary_entry : Option ClassId → List (ClassId × ℕ)
primary_entry none = []
primary_entry (some p) = (p, 0) ∷ []

-- The bases that are neither virtual nor the primary one, in declaration order.
abbrev pub other_bases : Option ClassId → List BaseSpec → List ClassId
other_bases primary [] = []
other_bases primary (b ∷ bs) =
    let rest = other_bases primary bs in
    if b.is_virtual || is_class primary b.class then rest else b.class ∷ rest

-- The classes of a list of placed bases.
abbrev pub placed_classes : List (ClassId × ℕ) → List ClassId
placed_classes [] = []
placed_classes (p ∷ ps) = p.0 ∷ placed_classes ps

-- The entries `more`, of the classes `ids`, stand behind `before`.
abbrev pub Adds : List (ClassId × ℕ) → List ClassId → List (ClassId × ℕ) → Type 0
Adds before ids after =
    (more : List (ClassId × ℕ)) × (after ≡ before ++ more) × (placed_classes more ≡ ids)

Adds-one :
    (xs ys zs : List (ClassId × ℕ)) (ids : List ClassId) (id : ClassId) (off : ℕ)
    → ys ≡ push xs (id, off)
    → Adds ys ids zs
    → Adds xs (id ∷ ids) zs
Adds-one xs ys zs ids id off e (more, a, i) = (
  (id, off) ∷ more,
  a ∙ ap (λ (l : List (ClassId × ℕ)). l ++ more) e ∙ append_assoc xs ((id, off) ∷ []) more,
  ap (λ (l : List ClassId). id ∷ l) i,
)

module _ (measure : Measure) where
  place_base-push :
      (s t : LayoutState) (id : ClassId)
      → place_base measure s id false ≡ ok t
      → (off : ℕ) × (t.base_offsets ≡ push s.base_offsets (id, off))
  unfolding place_base
  place_base-push s t id h =
      let (b, e, g) = >>=-eq-ok (measure id) _ h in
      elim (Bool-cases (b.nv_size_bytes == 0)) [
        | inl z ↦
            let (off, _, i) = place_empty-inv s t id b (rw z at g) in
            (off, ap (λ (u : LayoutState). u.base_offsets) i)
        | inr z ↦
            let (off, l, i) = place_non_empty-inv s t id b (rw z at g) in
            (off, ap (λ (u : LayoutState). u.base_offsets) i)
      ]

  -- `place_bases` places each base that is neither virtual nor primary, in declaration order.
  pub place_bases-Adds :
      (primary : Option ClassId) (bs : List BaseSpec) (s t : LayoutState)
      → place_bases measure primary bs s ≡ ok t
      → Adds s.base_offsets (other_bases primary bs) t.base_offsets
  unfolding place_bases
  place_bases-Adds primary [] s t h =
      ([], ap (λ (u : LayoutState). u.base_offsets) (sym (ok_inj h)) ∙ sym (append-nil _), refl)
  place_bases-Adds primary (b ∷ bs) s t h =
      elim (Bool-cases (b.is_virtual || is_class primary b.class)) [
        | inl skip ↦ rw skip (place_bases-Adds primary bs s t (rw skip at h))
        | inr place ↦
            let (m, e, g) = >>=-eq-ok (place_base measure s b.class false) _ (rw place at h) in
            let (off, p) = place_base-push s m b.class e in
            rw place (
              Adds-one s.base_offsets m.base_offsets t.base_offsets (other_bases primary bs) b.class
                off p (place_bases-Adds primary bs m t g))
      ]

  -- The first step places the primary base, if there is one.
  pub place_head-primary :
      (ctx : CxxTypeCtx) (primary : Option ClassId) (needs : Bool) (t : LayoutState)
      → place_head ctx measure primary needs new ≡ ok t
      → t.base_offsets ≡ primary_entry primary
  unfolding place_head place_base place_primary allocate_vptr new
  place_head-primary ctx (some id) needs t h =
      let (b, e, g) = >>=-eq-ok (measure id) _ h in
      sym (ap (λ (u : LayoutState). u.base_offsets) (ok_inj g))
  place_head-primary ctx none true t h = sym (ap (λ (u : LayoutState). u.base_offsets) (ok_inj h))
  place_head-primary ctx none false t h = sym (ap (λ (u : LayoutState). u.base_offsets) (ok_inj h))

  -- `place_virtual_bases` places each class of its list, in order.
  pub place_virtual_bases-Adds :
      (vs : List ClassId) (lo : ℕ) (s t : LayoutState)
      → place_virtual_bases measure vs lo s ≡ ok t
      → Adds s.virtual_base_offsets vs t.virtual_base_offsets
  unfolding place_virtual_bases
  place_virtual_bases-Adds [] lo s t h = (
    [],
    ap (λ (u : LayoutState). u.virtual_base_offsets) (sym (ok_inj h)) ∙ sym (append-nil _),
    refl,
  )
  place_virtual_bases-Adds (v ∷ vs) lo s t h =
      let (l, e, h0) = >>=-eq-ok (measure v) _ h in
      let (off, e0, h1) = >>=-eq-ok (align_up lo l.nv_align_bytes) _ h0 in
      let (end, e1, h2) = >>=-eq-ok (checked (off + l.nv_size_bytes)) _ h1 in
      Adds-one s.virtual_base_offsets (push s.virtual_base_offsets (v, off)) t.virtual_base_offsets
        vs v off refl (place_virtual_bases-Adds vs end _ t h2)

-- A layout ends its virtual bases with those that `collect_virtual_bases` lists.
pub compute_layout-Adds :
    (ctx : CxxTypeCtx) (fuel : ℕ) (id : ClassId) (r : RecordLayout) (vbases : List ClassId)
    → compute_layout ctx fuel id ≡ ok r
    → collect_virtual_bases ctx fuel id ≡ ok vbases
    → (before : List (ClassId × ℕ)) × Adds before vbases r.virtual_base_offsets
unfolding compute_layout finish
compute_layout-Adds ctx zero id r vbases h listed = cc
compute_layout-Adds ctx (suc fuel) id r vbases h listed =
    let run = compute_layout-Run ctx fuel id r h in
    let n : LayoutState = apply_alignas run.class.source_alignment run.placed in
    let added =
      place_virtual_bases-Adds (compute_layout ctx fuel) run.vbases n.dsize n run.last
        run.last_eq in
    let same : run.vbases ≡ vbases = ok_inj (sym run.vbases_eq ∙ listed) in
    let result = ap (λ (l : RecordLayout). l.virtual_base_offsets) run.result in
    (
      n.virtual_base_offsets,
      subst (Adds n.virtual_base_offsets vbases) (sym result)
          (subst (λ q. Adds n.virtual_base_offsets q run.last.virtual_base_offsets) same added),
    )
