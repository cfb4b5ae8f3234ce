-- ===== src/Abi/Layout/VirtualBases.antt =====
-- `collect_virtual_bases` and `has_virtual_base_chain` of layout.rs against the relation that they
-- decide: a class has a virtual base if it, or a class that it derives from, declares it.
use rustcc.Prelude.{ℕ, zero, suc, ◌≡◌, refl, sym, arith, ◌∈◌, inl, inr, ◌⊎◌, ◌↔◌}
use rustcc.Prelude.{Bool, true, false, not, ◌||◌, ◌==◌, Bool-cases, some}
use rustcc.Prelude.{List, [], ◌∷◌, push, mem-append, mem-append_left, mem-append_right}
use rustcc.Prelude.{ok, or_panic, >>=-eq-ok, or_panic-eq-ok, ok_inj}
use mathlib.Core.Path.{subst}
use rustcc.Abi.Types.{ClassId, ClassDef, BaseSpec}
use rustcc.Abi.Context.{CxxTypeCtx, class_of}
use rustcc.Abi.Layout.Classify.{
  Answer, Walk, is_nil, any_virtual, has_virtual_base_chain, contains, add_virtual, walk_bases,
  walk, collect_virtual_bases,
}

-- `v` is a virtual base of the class, declared by it or anywhere above it.
pub data VirtualBaseOf (ctx : CxxTypeCtx) (v : ClassId) : ClassId → Type 0 where
  direct :
      {c : ClassId} {d : ClassDef} (b : BaseSpec)
      → class_of ctx c ≡ some d
      → b ∈ d.bases
      → b.is_virtual ≡ true
      → b.class ≡ v
      → VirtualBaseOf ctx v c
  above :
      {c : ClassId} {d : ClassDef} (b : BaseSpec)
      → class_of ctx c ≡ some d
      → b ∈ d.bases
      → VirtualBaseOf ctx v b.class
      → VirtualBaseOf ctx v c

-- `v` comes in through one base of a list.
abbrev Through : CxxTypeCtx → ClassId → BaseSpec → Type 0
Through ctx v b = (b.is_virtual ≡ true) × (b.class ≡ v) ⊎ VirtualBaseOf ctx v b.class

abbrev ThroughAny : CxxTypeCtx → ClassId → List BaseSpec → Type 0
ThroughAny ctx v [] = ⊥
ThroughAny ctx v (b ∷ bs) = Through ctx v b ⊎ ThroughAny ctx v bs

Through-of_mem :
    (ctx : CxxTypeCtx) (v : ClassId) (bs : List BaseSpec) (b : BaseSpec)
    → b ∈ bs
    → Through ctx v b
    → ThroughAny ctx v bs
Through-of_mem ctx v [] b m t = elim m [ ]
Through-of_mem ctx v (c ∷ bs) b (inl e) t = inl (subst (Through ctx v) e t)
Through-of_mem ctx v (c ∷ bs) b (inr m) t = inr (Through-of_mem ctx v bs b m t)

mem_of_Through :
    (ctx : CxxTypeCtx) (v : ClassId) (bs : List BaseSpec)
    → ThroughAny ctx v bs
    → (b : BaseSpec) × (b ∈ bs) × Through ctx v b
mem_of_Through ctx v [] t = elim t [ ]
mem_of_Through ctx v (b ∷ bs) (inl t) = (b, inl refl, t)
mem_of_Through ctx v (b ∷ bs) (inr t) = let (c, m, u) = mem_of_Through ctx v bs t in (c, inr m, u)

-- The relation, one level unfolded.
VirtualBaseOf-iff :
    (ctx : CxxTypeCtx) (v c : ClassId) (d : ClassDef)
    → class_of ctx c ≡ some d
    → VirtualBaseOf ctx v c ↔ ThroughAny ctx v d.bases
VirtualBaseOf-iff ctx v c d known = (forth known, λ t. back (mem_of_Through ctx v d.bases t))
  where
    forth : class_of ctx c ≡ some d → VirtualBaseOf ctx v c → ThroughAny ctx v d.bases
    forth k (direct {d = d'} b e m y s) =
        let same : d' ≡ d = cc (e, k) in
        Through-of_mem ctx v d.bases b (subst (λ (x : ClassDef). b ∈ x.bases) same m) (inl (y, s))
    forth k (above {d = d'} b e m u) =
        let same : d' ≡ d = cc (e, k) in
        Through-of_mem ctx v d.bases b (subst (λ (x : ClassDef). b ∈ x.bases) same m) (inr u)

    back : (b : BaseSpec) × (b ∈ d.bases) × Through ctx v b → VirtualBaseOf ctx v c
    back (b, m, inl (y, s)) = direct b known m y s
    back (b, m, inr u) = above b known m u

pub contains_iff : (xs : List ClassId) (a : ClassId) → (contains xs a ≡ true) ↔ (a ∈ xs)
unfolding contains
contains_iff [] a = (λ e. absurd (cc e), λ m. elim m [ ])
contains_iff (x ∷ xs) a = (
  λ e. ground (arith, (contains_iff xs a).0),
  elim [ inl e ↦ ground arith | inr m ↦ ground (arith, (contains_iff xs a).1 m) ],
)

-- No class is listed twice.
abbrev pub NoRepeat : List ClassId → Type 0
NoRepeat [] = Unit
NoRepeat (x ∷ xs) = (contains xs x ≡ false) × NoRepeat xs

contains-push :
    (xs : List ClassId) (x a : ClassId) → contains (push xs x) a ≡ (contains xs a || x == a)
unfolding contains
contains-push [] x a = ground arith
contains-push (y ∷ xs) x a = ground (arith, contains-push xs x a)

NoRepeat-push :
    (xs : List ClassId) (x : ClassId) → NoRepeat xs → contains xs x ≡ false → NoRepeat (push xs x)
unfolding contains
NoRepeat-push [] x n h = (refl, tt)
NoRepeat-push (y ∷ xs) x n h =
    (ground (arith, contains-push xs x y), NoRepeat-push xs x n.1 (ground arith))

mem_single : (a v : ClassId) → v ∈ a ∷ [] → a ≡ v
mem_single a v (inl e) = sym e
mem_single a v (inr m) = elim m [ ]

-- What a call that extends the list of virtual bases by those that satisfy `New` does.
abbrev Extends : (ClassId → Type 0) → List ClassId → List ClassId → Type 0
Extends New out out' =
    ((v : ClassId) → v ∈ out' → (v ∈ out) ⊎ New v)
    × ((v : ClassId) → (v ∈ out) ⊎ New v → v ∈ out')
    × (NoRepeat out → NoRepeat out')

add_virtual-Extends :
    (b : BaseSpec) (out : List ClassId)
    → Extends (λ v. (b.is_virtual ≡ true) × (b.class ≡ v)) out (add_virtual b out)
unfolding add_virtual
add_virtual-Extends b out = elim (Bool-cases b.is_virtual) [
  | inl y ↦ elim (Bool-cases (contains out b.class)) [
    | inl old ↦
        let same : add_virtual b out ≡ out = ground arith in
        subst (Extends New out) (sym same) (
          λ v m. inl m,
          λ v. elim [
            | inl m ↦ m
            | inr e ↦ subst (λ x. x ∈ out) e.1 ((contains_iff out b.class).0 old)
          ],
          λ n. n,
        )
    | inr new ↦
        let grown : add_virtual b out ≡ push out b.class = ground arith in
        subst (Extends New out) (sym grown) (
          λ v m. elim (mem-append out (b.class ∷ []) v m) [
            | inl old ↦ inl old
            | inr last ↦ inr (y, mem_single b.class v last)
          ],
          λ v. elim [
            | inl m ↦ mem-append_left out (b.class ∷ []) v m
            | inr e ↦ mem-append_right out (b.class ∷ []) v (inl (sym e.1))
          ],
          λ n. NoRepeat-push out b.class n new,
        )
  ]
  | inr y ↦
      let same : add_virtual b out ≡ out = ground arith in
      subst (Extends New out) (sym same)
        (λ v m. inl m, λ v. elim [ inl m ↦ m | inr (e, _) ↦ absurd (cc (e, y)) ], λ n. n)
]
  where
    New : ClassId → Type 0
    New v = (b.is_virtual ≡ true) × (b.class ≡ v)

Extends-after :
    (P Q R : ClassId → Type 0) (a b c : List ClassId)
    → Extends P a b
    → Extends Q b c
    → ((v : ClassId) → R v ↔ (P v ⊎ Q v))
    → Extends R a c
Extends-after P Q R a b c (from, into, once) (from', into', once') same = (
  λ v m. elim (from' v m) [
    | inl old ↦ elim (from v old) [ inl o ↦ inl o | inr p ↦ inr ((same v).1 (inl p)) ]
    | inr q ↦ inr ((same v).1 (inr q))
  ],
  λ v. elim [
    | inl o ↦ into' v (inl (into v (inl o)))
    | inr r ↦ elim ((same v).0 r) [
      | inl p ↦ into' v (inl (into v (inr p)))
      | inr q ↦ into' v (inr q)
    ]
  ],
  λ n. once' (once n),
)

walk_bases-Extends :
    (ctx : CxxTypeCtx) (rec : ClassId → Walk)
    → ((x : ClassId) (out out' : List ClassId)
        → rec x out ≡ ok out'
        → Extends (λ v. VirtualBaseOf ctx v x) out out')
    → (bs : List BaseSpec) (out out' : List ClassId) → walk_bases rec bs out ≡ ok out'
    → Extends (λ v. ThroughAny ctx v bs) out out'
unfolding walk_bases
walk_bases-Extends ctx rec ih [] out out' h =
    subst (Extends (λ v. ThroughAny ctx v []) out) (ok_inj h)
      (λ v m. inl m, λ v. elim [ inl m ↦ m | inr n ↦ elim n [ ] ], λ n. n)
walk_bases-Extends ctx rec ih (b ∷ bs) out out' h =
    let (deeper, e, rest) = >>=-eq-ok (rec b.class out) _ h in
    let here =
      Extends-after (λ v. VirtualBaseOf ctx v b.class) (λ v. (b.is_virtual ≡ true) × (b.class ≡ v))
        (λ v. Through ctx v b) out deeper (add_virtual b deeper) (ih b.class out deeper e)
        (add_virtual-Extends b deeper) (λ v. (swap, swap)) in
    Extends-after (λ v. Through ctx v b) (λ v. ThroughAny ctx v bs) (λ v. ThroughAny ctx v (b ∷ bs))
      out (add_virtual b deeper) out' here
      (walk_bases-Extends ctx rec ih bs (add_virtual b deeper) out' rest) (λ v. (λ t. t, λ t. t))
  where
    swap : {P Q : Type 0} → P ⊎ Q → Q ⊎ P
    swap (inl p) = inr p
    swap (inr q) = inl q

walk-Extends :
    (ctx : CxxTypeCtx) (fuel : ℕ) (x : ClassId) (out out' : List ClassId)
    → walk ctx fuel x out ≡ ok out'
    → Extends (λ v. VirtualBaseOf ctx v x) out out'
unfolding walk
walk-Extends ctx zero x out out' h = absurd (cc h)
walk-Extends ctx (suc fuel) x out out' h =
    let (d, e, rest) = >>=-eq-ok (or_panic (class_of ctx x)) _ h in
    let (from, into, once) =
      walk_bases-Extends ctx (walk ctx fuel) (walk-Extends ctx fuel) d.bases out out' rest in
    let known = or_panic-eq-ok (class_of ctx x) e in
    (
      λ v m. elim (from v m) [
        | inl o ↦ inl o
        | inr t ↦ inr ((VirtualBaseOf-iff ctx v x d known).1 t)
      ],
      λ v. elim [
        | inl o ↦ into v (inl o)
        | inr u ↦ into v (inr ((VirtualBaseOf-iff ctx v x d known).0 u))
      ],
      once,
    )

-- If `collect_virtual_bases` returns a list of classes, a class is in the list exactly if it is a
-- virtual base of the class, direct or inherited, and no class is listed twice.
pub collect_virtual_bases_lem :
    (ctx : CxxTypeCtx) (fuel : ℕ) (c : ClassId) (found : List ClassId)
    → collect_virtual_bases ctx fuel c ≡ ok found
    → ((v : ClassId) → (v ∈ found) ↔ VirtualBaseOf ctx v c) × NoRepeat found
unfolding collect_virtual_bases
collect_virtual_bases_lem ctx fuel c found h =
    let (from, into, once) = walk-Extends ctx fuel c [] found h in
    (λ v. (λ m. elim (from v m) [ inl o ↦ elim o [ ] | inr u ↦ u ], λ u. into v (inr u)), once tt)

-- An answer that tells whether some `v` satisfies `New`.
abbrev Tells : (ClassId → Type 0) → Bool → Type 0
Tells New b = ((b ≡ true) → (v : ClassId) × New v) × ((v : ClassId) → New v → b ≡ true)

any_virtual-Tells_found :
    (ctx : CxxTypeCtx) (s : BaseSpec) (ss : List BaseSpec) (b : Bool)
    → s.is_virtual ≡ true
    → b ≡ true
    → Tells (λ v. ThroughAny ctx v (s ∷ ss)) b
any_virtual-Tells_found ctx s ss b y e = (λ _. (s.class, inl (inl (y, refl))), λ _ _. e)

any_virtual-Tells :
    (ctx : CxxTypeCtx) (rec : ClassId → Answer)
    → ((x : ClassId) (b : Bool) → rec x ≡ ok b → Tells (λ v. VirtualBaseOf ctx v x) b)
    → (bs : List BaseSpec) (b : Bool) → any_virtual rec bs ≡ ok b
    → Tells (λ v. ThroughAny ctx v bs) b
unfolding any_virtual
any_virtual-Tells ctx rec ih [] b h = (λ y. absurd (cc (y, ok_inj h)), λ v t. elim t [ ])
any_virtual-Tells ctx rec ih (s ∷ ss) b h = elim (Bool-cases s.is_virtual) [
  | inl y ↦ any_virtual-Tells_found ctx s ss b y (sym (ok_inj (rw y at h)))
  | inr n ↦
      let (f, e, g) = >>=-eq-ok (rec s.class) _ (rw n at h) in
      elim (Bool-cases f) [
        | inl y ↦
            let (v, u) = (ih s.class f e).0 y in
            (λ _. (v, inl (inr u)), λ _ _. sym (ok_inj (rw y at g)))
        | inr z ↦
            let (some_, all) = any_virtual-Tells ctx rec ih ss b (rw z at g) in
            (
              λ y. let (v, t) = some_ y in (v, inr t),
              λ v. elim [
                | inl (inl (y, _)) ↦ absurd (cc (y, n))
                | inl (inr u) ↦ absurd (cc (z, (ih s.class f e).1 v u))
                | inr t ↦ all v t
              ],
            )
      ]
]

has_virtual_base_chain-Tells :
    (ctx : CxxTypeCtx) (fuel : ℕ) (c : ClassId) (b : Bool)
    → has_virtual_base_chain ctx fuel c ≡ ok b
    → Tells (λ v. VirtualBaseOf ctx v c) b
unfolding has_virtual_base_chain
has_virtual_base_chain-Tells ctx zero c b h = absurd (cc h)
has_virtual_base_chain-Tells ctx (suc fuel) c b h =
    let (d, e, rest) = >>=-eq-ok (or_panic (class_of ctx c)) _ h in
    let known = or_panic-eq-ok (class_of ctx c) e in
    let (found, all) =
      any_virtual-Tells ctx (has_virtual_base_chain ctx fuel)
        (has_virtual_base_chain-Tells ctx fuel) d.bases b rest in
    (
      λ y. let (v, t) = found y in (v, (VirtualBaseOf-iff ctx v c d known).1 t),
      λ v u. all v ((VirtualBaseOf-iff ctx v c d known).0 u),
    )

-- If `has_virtual_base_chain` and `collect_virtual_bases` both return, with whatever fuels, the
-- first says true exactly if the list of the second is not empty.
pub chain-collect :
    (ctx : CxxTypeCtx) (m n : ℕ) (c : ClassId) (b : Bool) (found : List ClassId)
    → has_virtual_base_chain ctx m c ≡ ok b
    → collect_virtual_bases ctx n c ≡ ok found
    → b ≡ not (is_nil found)
chain-collect ctx m n c b found h g =
    agree (Bool-cases b) found (λ v. (collect_virtual_bases_lem ctx n c found g).0 v)
  where
    agree :
        (b ≡ true) ⊎ (b ≡ false)
        → (xs : List ClassId) → ((v : ClassId) → (v ∈ xs) ↔ VirtualBaseOf ctx v c)
        → b ≡ not (is_nil xs)
    agree (inl y) [] listed =
        let (v, u) = (has_virtual_base_chain-Tells ctx m c b h).0 y in elim ((listed v).1 u) [ ]
    agree (inr n') [] listed = n'
    agree (inl y) (x ∷ xs) listed = y
    agree (inr n') (x ∷ xs) listed =
        (has_virtual_base_chain-Tells ctx m c b h).1 x ((listed x).0 (inl refl))
