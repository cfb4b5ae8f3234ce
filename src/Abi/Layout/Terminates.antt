-- ===== src/Abi/Layout/Terminates.antt =====
-- Ranked class graphs, and the termination of the classifications of a class on them (layout.rs).
use rustcc.Prelude.{ℕ, zero, suc, ◌≤◌, ◌<◌, ◌≡◌, ◌≢◌, refl, arith, ◌∈◌}
use rustcc.Prelude.{Bool, true, false, not, ◌||◌, if◌then◌else◌, inl, inr}
use rustcc.Prelude.{some, List, [], ◌∷◌, Outcome, ok, err}
use rustcc.Prelude.{panic, stuck, ◌>>=◌, or_panic, >>=-ne-stuck, or_panic-eq-ok, or_panic-ne-stuck}
use rustcc.Abi.Types.{
  ClassId, TypeId, ClassDef, BaseSpec, FieldDef, CxxType, LayoutError, NestedName,
}
use rustcc.Abi.Types.{array, record_type, enum_type, ref}
use rustcc.Abi.Context.{CxxTypeCtx, class_of, type_of}
use rustcc.Abi.Layout.Classify.{
  Answer, any_virtual, has_virtual_base_chain, all_bases, pod_type, pod_fields, is_pod_for_layout,
  is_empty_class, is_nil, any_special, any_virtual_base,
}

-- Ranks of classes and types that fall from a class to its bases and to the types of its members,
-- and from an array, an enum and a record type to what it holds by value. A context built by the
-- importer has them unless a class contains itself.
pub record IsRanked (ctx : CxxTypeCtx) (class_rank : ClassId → ℕ) (type_rank : TypeId → ℕ)
    : Type 0 where
  pub base_lt :
      (c : ClassId) (d : ClassDef) (b : BaseSpec)
      → class_of ctx c ≡ some d
      → b ∈ d.bases
      → class_rank b.class < class_rank c
  pub field_lt :
      (c : ClassId) (d : ClassDef) (f : FieldDef)
      → class_of ctx c ≡ some d
      → f ∈ d.fields
      → type_rank f.ty < class_rank c
  pub array_lt :
      (t e : TypeId) (len : ℕ) → type_of ctx t ≡ some (array e len) → type_rank e < type_rank t
  pub enum_lt :
      (t u : TypeId) (n : NestedName) (scoped : Bool)
      → type_of ctx t ≡ some (enum_type n u scoped)
      → type_rank u < type_rank t
  pub record_le :
      (t : TypeId) (c : ClassId) → type_of ctx t ≡ some (record_type c) → class_rank c ≤ type_rank t

-- A test that ends, and two branches that end.
pub branch-ne-stuck {ℓ} :
    {A : Type ℓ} (m : Answer) (x y : Outcome LayoutError A)
    → m ≢ stuck
    → x ≢ stuck
    → y ≢ stuck
    → (m >>= λ b. if b then x else y) ≢ stuck
branch-ne-stuck (ok true) x y h hx hy = hx
branch-ne-stuck (ok false) x y h hx hy = hy
branch-ne-stuck (err e) x y h hx hy = λ s. cc s
branch-ne-stuck panic x y h hx hy = λ s. cc s
branch-ne-stuck stuck x y h hx hy = absurd (h refl)

pub if-ne-stuck {ℓ} :
    {A : Type ℓ} (b : Bool) (x y : Outcome LayoutError A)
    → x ≢ stuck
    → y ≢ stuck
    → (if b then x else y) ≢ stuck
if-ne-stuck true x y hx hy = hx
if-ne-stuck false x y hx hy = hy

answer-ne-stuck : (b : Bool) → ◌≢◌ {A = Answer} (ok b) stuck
answer-ne-stuck b = λ s. cc s

any_virtual-ne-stuck :
    (rec : ClassId → Answer) (bs : List BaseSpec)
    → ((b : BaseSpec) → b ∈ bs → rec b.class ≢ stuck)
    → any_virtual rec bs ≢ stuck
unfolding any_virtual
any_virtual-ne-stuck rec [] good = answer-ne-stuck false
any_virtual-ne-stuck rec (b ∷ bs) good =
    if-ne-stuck b.is_virtual (ok true) _ (answer-ne-stuck true) (
      branch-ne-stuck (rec b.class) (ok true) (any_virtual rec bs) (good b (inl refl))
        (answer-ne-stuck true) (any_virtual-ne-stuck rec bs (λ c m. good c (inr m))))

all_bases-ne-stuck :
    (rec : ClassId → Answer) (bs : List BaseSpec) (k : Answer)
    → ((b : BaseSpec) → b ∈ bs → rec b.class ≢ stuck)
    → k ≢ stuck
    → all_bases rec bs k ≢ stuck
unfolding all_bases
all_bases-ne-stuck rec [] k good h = h
all_bases-ne-stuck rec (b ∷ bs) k good h =
    branch-ne-stuck (rec b.class) (all_bases rec bs k) (ok false) (good b (inl refl))
      (all_bases-ne-stuck rec bs k (λ c m. good c (inr m)) h) (answer-ne-stuck false)

module _ (ctx : CxxTypeCtx) {class_rank : ClassId → ℕ} {type_rank : TypeId → ℕ}
    (ranked : IsRanked ctx class_rank type_rank) where
  -- A base ranks below the fuel that is left.
  pub below :
      {fuel : ℕ} (c : ClassId) (d : ClassDef) (b : BaseSpec)
      → class_rank c < suc fuel
      → or_panic {E = LayoutError} (class_of ctx c) ≡ ok d
      → b ∈ d.bases
      → class_rank b.class < fuel
  below c d b lt e m = omega (arith, ranked.base_lt c d b (or_panic-eq-ok (class_of ctx c) e) m)

  pub has_virtual_base_chain-ne-stuck :
      (fuel : ℕ) (c : ClassId) → class_rank c < fuel → has_virtual_base_chain ctx fuel c ≢ stuck
  unfolding has_virtual_base_chain
  has_virtual_base_chain-ne-stuck zero c lt = elim lt [ ]
  has_virtual_base_chain-ne-stuck (suc fuel) c lt =
      >>=-ne-stuck (or_panic (class_of ctx c)) _ (or_panic-ne-stuck (class_of ctx c)) (λ d e.
        any_virtual-ne-stuck (has_virtual_base_chain ctx fuel) d.bases
          (λ b m. has_virtual_base_chain-ne-stuck fuel b.class (below c d b lt e m)))

  pub is_empty_class-ne-stuck :
      (fuel : ℕ) (c : ClassId) → class_rank c < fuel → is_empty_class ctx fuel c ≢ stuck
  unfolding is_empty_class
  is_empty_class-ne-stuck zero c lt = elim lt [ ]
  is_empty_class-ne-stuck (suc fuel) c lt =
      >>=-ne-stuck (or_panic (class_of ctx c)) _ (or_panic-ne-stuck (class_of ctx c)) (λ d e.
        if-ne-stuck (d.is_polymorphic || not (is_nil d.fields)) (ok false) _ (answer-ne-stuck false)
          (all_bases-ne-stuck (is_empty_class ctx fuel) d.bases (ok true)
            (λ b m. is_empty_class-ne-stuck fuel b.class (below c d b lt e m))
            (answer-ne-stuck true)))

  pod_fields-ne-stuck :
      (rec : ClassId → Answer) (bound : ℕ) (fs : List FieldDef)
      → ((c : ClassId) → class_rank c < bound → rec c ≢ stuck)
      → ((f : FieldDef) → f ∈ fs → type_rank f.ty < bound)
      → pod_fields ctx rec fs ≢ stuck
  unfolding pod_fields
  pod_fields-ne-stuck rec bound [] good lt = answer-ne-stuck true
  pod_fields-ne-stuck rec bound (f ∷ fs) good lt =
      >>=-ne-stuck (or_panic (type_of ctx f.ty)) _ (or_panic-ne-stuck (type_of ctx f.ty)) (λ t e.
        branch-ne-stuck (pod_type rec t) (pod_fields ctx rec fs) (ok false)
          (one t (or_panic-eq-ok (type_of ctx f.ty) e))
          (pod_fields-ne-stuck rec bound fs good (λ g m. lt g (inr m))) (answer-ne-stuck false))
    where
      one : (t : CxxType) → type_of ctx f.ty ≡ some t → pod_type rec t ≢ stuck
      one (ref _ _ _) e = answer-ne-stuck false
      one (record_type c) e = good c (omega (arith, lt f (inl refl), ranked.record_le f.ty c e))
      one _ e = answer-ne-stuck true

  pub is_pod_for_layout-ne-stuck :
      (fuel : ℕ) (c : ClassId) → class_rank c < fuel → is_pod_for_layout ctx fuel c ≢ stuck
  unfolding is_pod_for_layout
  is_pod_for_layout-ne-stuck zero c lt = elim lt [ ]
  is_pod_for_layout-ne-stuck (suc fuel) c lt =
      >>=-ne-stuck (or_panic (class_of ctx c)) _ (or_panic-ne-stuck (class_of ctx c)) (λ d e.
        if-ne-stuck (d.is_polymorphic || any_special d.methods || any_virtual_base d.bases)
          (ok false) _ (answer-ne-stuck false)
          (all_bases-ne-stuck (is_pod_for_layout ctx fuel) d.bases _
            (λ b m. is_pod_for_layout-ne-stuck fuel b.class (below c d b lt e m))
            (pod_fields-ne-stuck (is_pod_for_layout ctx fuel) fuel d.fields
              (λ i h. is_pod_for_layout-ne-stuck fuel i h)
              (λ f m. omega (arith, ranked.field_lt c d f (or_panic-eq-ok (class_of ctx c) e) m)))))
