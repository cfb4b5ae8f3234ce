-- ===== src/Abi/Layout/WalksEnd.antt =====
-- Termination of the walks over virtual bases, primary bases and float leaves (layout.rs).
use rustcc.Prelude.{ℕ, zero, suc, ◌≤◌, ◌<◌, ◌≡◌, ◌≢◌, refl, arith, ◌∈◌, inl, inr}
use rustcc.Prelude.{Bool, true, false, not, ◌&&◌, ltb, if◌then◌else◌, Bool-cases, none, some}
use rustcc.Prelude.{List, [], ◌∷◌, mem-append, Outcome, ok, stuck, ◌>>=◌, or_panic}
use rustcc.Prelude.{>>=-eq-ok, >>=-ne-stuck, or_panic-eq-ok, or_panic-ne-stuck, ok_inj, ok-ne-stuck}
use mathlib.Core.Path.{subst}
use native.Mathlib.Nat.{le_refl}
use rustcc.Abi.Types.{
  ClassId, TypeId, ClassDef, BaseSpec, FieldDef, CxxType, LayoutError, FloatKind,
}
use rustcc.Abi.Types.{float, array, record_type}
use rustcc.Abi.Context.{CxxTypeCtx, class_of, type_of}
use rustcc.Abi.Layout.Classify.{
  Walk, add_virtual, contains, walk_bases, walk, collect_virtual_bases, first_polymorphic,
  pick_primary_base,
}
use rustcc.Abi.Layout.State.{HfaElem, f32, f64}
use rustcc.Abi.Layout.Hfa
use rustcc.Abi.Layout.Hfa.{HfaProbe, Probing, record_leaf, walk_elements, walk_type, walk_fields}
use rustcc.Abi.Layout.Hfa.{on_type, walk_class, detect_hfa, verdict}
use rustcc.Abi.Layout.Terminates.{IsRanked, below, if-ne-stuck}

-- Every class of the list ranks below `bound`.
abbrev pub AllBelow : (ClassId → ℕ) → ℕ → List ClassId → Type 0
AllBelow rank bound vs = (v : ClassId) → v ∈ vs → rank v < bound

add_virtual-AllBelow :
    (rank : ClassId → ℕ) (bound : ℕ) (b : BaseSpec) (out : List ClassId)
    → rank b.class < bound
    → AllBelow rank bound out
    → AllBelow rank bound (add_virtual b out)
unfolding add_virtual
add_virtual-AllBelow rank bound b out lt all v =
    elim (Bool-cases (b.is_virtual && not (contains out b.class))) [
      | inl new ↦ rw new (λ m. elim (mem-append out (b.class ∷ []) v m) [
        | inl old ↦ all v old
        | inr (inl e) ↦ rw e lt
        | inr (inr nowhere) ↦ absurd nowhere
      ])
      | inr same ↦ rw same (all v)
    ]

-- The walk from a class ends, and adds only classes that rank below it.
WalkEnds : (ClassId → ℕ) → ℕ → Walk → Type 0
WalkEnds rank bound w =
    (out : List ClassId)
    → (w out ≢ stuck)
      × ((out' : List ClassId)
          → w out ≡ ok out'
          → AllBelow rank bound out
          → AllBelow rank bound out')

walk_bases-WalkEnds :
    (rank : ClassId → ℕ) (bound : ℕ) (rec : ClassId → Walk) (bs : List BaseSpec)
    → ((b : BaseSpec) → b ∈ bs → (rank b.class < bound) × WalkEnds rank bound (rec b.class))
    → WalkEnds rank bound (walk_bases rec bs)
unfolding walk_bases WalkEnds
walk_bases-WalkEnds rank bound rec [] good out =
    (ok-ne-stuck LayoutError out, λ out' e all. subst (AllBelow rank bound) (ok_inj e) all)
walk_bases-WalkEnds rank bound rec (b ∷ bs) good out =
    let (lt, ends) = good b (inl refl) in
    let rest = walk_bases-WalkEnds rank bound rec bs (λ c m. good c (inr m)) in
    (
      >>=-ne-stuck (rec b.class out) _ (ends out).0 (λ deeper e. (rest (add_virtual b deeper)).0),
      λ out' h all.
          let (deeper, e, g) = >>=-eq-ok (rec b.class out) _ h in
          (rest (add_virtual b deeper)).1 out' g
            (add_virtual-AllBelow rank bound b deeper lt ((ends out).1 deeper e all)),
    )

first_polymorphic_lem :
    (ctx : CxxTypeCtx) (bs : List BaseSpec)
    → (first_polymorphic ctx bs ≢ stuck)
      × ((p : ClassId)
          → first_polymorphic ctx bs ≡ ok (some p)
          → (b : BaseSpec) × (b ∈ bs) × (b.class ≡ p))
unfolding first_polymorphic
first_polymorphic_lem ctx [] = (λ e. cc e, λ p e. absurd (cc (ok_inj e)))
first_polymorphic_lem ctx (b ∷ bs) =
    let rest = first_polymorphic_lem ctx bs in
    (
      >>=-ne-stuck (or_panic (class_of ctx b.class)) _ (or_panic-ne-stuck (class_of ctx b.class))
          (λ d e.
            if-ne-stuck d.is_polymorphic (ok (some b.class)) (first_polymorphic ctx bs)
              (ok-ne-stuck LayoutError (some b.class)) rest.0),
      λ p h.
          let (d, e, g) = >>=-eq-ok (or_panic (class_of ctx b.class)) _ h in
          elim (Bool-cases d.is_polymorphic) [
            | inl y ↦ (b, inl refl, ground (arith, rw y at g))
            | inr y ↦ let (c, m, s) = rest.1 p (rw y at g) in (c, inr m, s)
          ],
    )

pub pick_primary_base_lem :
    (ctx : CxxTypeCtx) (d : ClassDef)
    → (pick_primary_base ctx d ≢ stuck)
      × ((p : ClassId)
          → pick_primary_base ctx d ≡ ok (some p)
          → (b : BaseSpec) × (b ∈ d.bases) × (b.class ≡ p))
unfolding pick_primary_base
pick_primary_base_lem ctx d = elim (Bool-cases d.is_polymorphic) [
  | inl y ↦ rw y (first_polymorphic_lem ctx d.bases)
  | inr y ↦ rw y (λ e. cc e, λ p e. absurd (cc (ok_inj e)))
]

module _ (ctx : CxxTypeCtx) {class_rank : ClassId → ℕ} {type_rank : TypeId → ℕ}
    (ranked : IsRanked ctx class_rank type_rank) where
  walk_step :
      (fuel : ℕ) (c : ClassId) (bound : ℕ)
      → class_rank c ≤ bound
      → ((b : ClassId) → class_rank b < class_rank c → WalkEnds class_rank bound (walk ctx fuel b))
      → WalkEnds class_rank bound (walk ctx (suc fuel) c)
  unfolding walk WalkEnds
  walk_step fuel c bound le deeper out = (
    >>=-ne-stuck (or_panic (class_of ctx c)) _ (or_panic-ne-stuck (class_of ctx c))
        (λ d e. (bases d e out).0),
    λ out' h. let (d, e, g) = >>=-eq-ok (or_panic (class_of ctx c)) _ h in (bases d e out).1 out' g,
  )
    where
      bases :
          (d : ClassDef)
          → or_panic {E = LayoutError} (class_of ctx c) ≡ ok d
          → WalkEnds class_rank bound (walk_bases (walk ctx fuel) d.bases)
      bases d e = walk_bases-WalkEnds class_rank bound (walk ctx fuel) d.bases (λ b m.
          let lt = ranked.base_lt c d b (or_panic-eq-ok (class_of ctx c) e) m in
          (omega (arith, lt), deeper b.class lt))

  walk-WalkEnds :
      (fuel : ℕ) (c : ClassId) (bound : ℕ)
      → class_rank c < fuel
      → class_rank c ≤ bound
      → WalkEnds class_rank bound (walk ctx fuel c)
  walk-WalkEnds zero c bound lt le = elim lt [ ]
  walk-WalkEnds (suc fuel) c bound lt le =
      walk_step fuel c bound le (λ b less. walk-WalkEnds fuel b bound (omega arith) (omega arith))

  -- Collecting the virtual bases ends, and finds classes that rank below the class.
  pub collect_virtual_bases-ends :
      (fuel : ℕ) (c : ClassId)
      → class_rank c < fuel
      → (collect_virtual_bases ctx fuel c ≢ stuck)
        × ((vs : List ClassId)
            → collect_virtual_bases ctx fuel c ≡ ok vs
            → AllBelow class_rank (class_rank c) vs)
  unfolding collect_virtual_bases WalkEnds
  collect_virtual_bases-ends fuel c lt =
      let w = walk-WalkEnds fuel c (class_rank c) lt (le_refl (class_rank c)) [] in
      (w.0, λ vs e. w.1 vs e (λ v m. elim m [ ]))

-- A probe that ends from every state.
abbrev ProbeEnds : Probing → Type 0
ProbeEnds w = (p : HfaProbe) → w p ≢ stuck

probe_branch-ne-stuck :
    (w : Probing) (p : HfaProbe) (k : HfaProbe → Outcome LayoutError (HfaProbe × Bool))
    → w p ≢ stuck
    → ((q : HfaProbe) → k q ≢ stuck)
    → (w p >>= λ (q, good). if good then k q else ok (q, false)) ≢ stuck
probe_branch-ne-stuck w p k h hk = >>=-ne-stuck (w p) _ h (λ (q, good) e.
    if-ne-stuck good (k q) (ok (q, false)) (hk q) (ok-ne-stuck LayoutError (q, false)))

record_leaf-ends : (e : HfaElem) → ProbeEnds (record_leaf e)
unfolding record_leaf
record_leaf-ends e p = ground arith

walk_elements-ends :
    (elem : Probing) (saved len : ℕ) → ProbeEnds elem → ProbeEnds (walk_elements elem saved len)
unfolding walk_elements
walk_elements-ends elem saved zero ends p = ok-ne-stuck LayoutError (p, true)
walk_elements-ends elem saved (suc len) ends p =
    probe_branch-ne-stuck elem p
      (λ q.
        if ltb 4 q.count
        then ok (record q { count = saved }, false)
        else walk_elements elem saved len q)
      (ends p)
      (λ q.
        if-ne-stuck (ltb 4 q.count) (ok (record q { count = saved }, false))
          (walk_elements elem saved len q)
          (ok-ne-stuck LayoutError (record q { count = saved }, false))
          (walk_elements-ends elem saved len ends q))

walk_fields-ends :
    (on_type : TypeId → Probing) (fs : List FieldDef)
    → ((f : FieldDef) → f ∈ fs → ProbeEnds (on_type f.ty))
    → ProbeEnds (walk_fields on_type fs)
unfolding walk_fields
walk_fields-ends on_type [] ends p = ok-ne-stuck LayoutError (p, true)
walk_fields-ends on_type (f ∷ fs) ends p =
    probe_branch-ne-stuck (on_type f.ty) p (walk_fields on_type fs) (ends f (inl refl) p)
      (walk_fields-ends on_type fs (λ g m. ends g (inr m)))

walk_bases-ends :
    (rec : ClassId → Probing) (bs : List BaseSpec) (k : Probing)
    → ((b : BaseSpec) → b ∈ bs → ProbeEnds (rec b.class))
    → ProbeEnds k
    → ProbeEnds (Hfa.walk_bases rec bs k)
unfolding Hfa.walk_bases
walk_bases-ends rec [] k ends hk p = hk p
walk_bases-ends rec (b ∷ bs) k ends hk p =
    if-ne-stuck b.is_virtual (ok (p, false)) _ (ok-ne-stuck LayoutError (p, false)) (
      probe_branch-ne-stuck (rec b.class) p (Hfa.walk_bases rec bs k) (ends b (inl refl) p)
        (walk_bases-ends rec bs k (λ c m. ends c (inr m)) hk))

module _ (ctx : CxxTypeCtx) {class_rank : ClassId → ℕ} {type_rank : TypeId → ℕ}
    (ranked : IsRanked ctx class_rank type_rank) where
  -- One type, its array element aside.
  walk_case :
      (rec : ClassId → Probing) (fuel : ℕ) (ty : TypeId)
      → ((c : ClassId) → class_rank c ≤ type_rank ty → ProbeEnds (rec c))
      → ((el : TypeId) (len : ℕ)
          → type_of ctx ty ≡ some (array el len)
          → ProbeEnds (walk_type ctx rec fuel el))
      → (t : CxxType) → type_of ctx ty ≡ some t
      → (p : HfaProbe) → on_type (walk_type ctx rec fuel) rec t p ≢ stuck
  unfolding on_type
  walk_case rec fuel ty ends elements (float FloatKind.f32) e p = record_leaf-ends f32 p
  walk_case rec fuel ty ends elements (float FloatKind.f64) e p = record_leaf-ends f64 p
  walk_case rec fuel ty ends elements (array el len) e p =
      walk_elements-ends (walk_type ctx rec fuel el) p.count len (elements el len e) p
  walk_case rec fuel ty ends elements (record_type c) e p = ends c (ranked.record_le ty c e) p
  walk_case rec fuel ty ends elements _ e p = ok-ne-stuck LayoutError (p, false)

  walk_type-ends :
      (rec : ClassId → Probing) (fuel : ℕ) (ty : TypeId)
      → ((c : ClassId) → class_rank c ≤ type_rank ty → ProbeEnds (rec c))
      → type_rank ty < fuel
      → ProbeEnds (walk_type ctx rec fuel ty)
  unfolding walk_type
  walk_type-ends rec zero ty ends lt p = elim lt [ ]
  walk_type-ends rec (suc fuel) ty ends lt p =
      >>=-ne-stuck (or_panic (type_of ctx ty)) _ (or_panic-ne-stuck (type_of ctx ty)) (λ t e.
        walk_case rec fuel ty ends
          (λ el len known.
            let less = ranked.array_lt ty el len known in
            walk_type-ends rec fuel el (λ c le. ends c (omega arith)) (omega arith))
          t (or_panic-eq-ok (type_of ctx ty) e) p)

  walk_class-ends :
      (fuel : ℕ) (c : ClassId) → class_rank c < fuel → ProbeEnds (walk_class ctx fuel c)
  unfolding walk_class
  walk_class-ends zero c lt p = elim lt [ ]
  walk_class-ends (suc fuel) c lt p =
      >>=-ne-stuck (or_panic (class_of ctx c)) _ (or_panic-ne-stuck (class_of ctx c)) (λ d e.
        walk_bases-ends (walk_class ctx fuel) d.bases _
          (λ b m. walk_class-ends fuel b.class (below ctx ranked c d b lt e m))
          (walk_fields-ends (walk_type ctx (walk_class ctx fuel) fuel) d.fields (λ f m.
            let less = ranked.field_lt c d f (or_panic-eq-ok (class_of ctx c) e) m in
            walk_type-ends (walk_class ctx fuel) fuel f.ty
              (λ i le. walk_class-ends fuel i (omega arith)) (omega arith)))
          p)

  -- The detection of float aggregates ends.
  pub detect_hfa-ne-stuck :
      (fuel : ℕ) (c : ClassId) → class_rank c < fuel → detect_hfa ctx fuel c ≢ stuck
  unfolding detect_hfa
  detect_hfa-ne-stuck fuel c lt =
      >>=-ne-stuck (or_panic (class_of ctx c)) _ (or_panic-ne-stuck (class_of ctx c)) (λ d e.
        if-ne-stuck d.is_polymorphic (ok none) _ (ok-ne-stuck LayoutError none) (
          >>=-ne-stuck (walk_class ctx fuel c (record { elem = none; count = 0 })) _
            (walk_class-ends fuel c lt (record { elem = none; count = 0 }))
            (λ found g. ok-ne-stuck LayoutError (verdict found))))
