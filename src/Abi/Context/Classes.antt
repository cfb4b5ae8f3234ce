-- ===== src/Abi/Context/Classes.antt =====
-- Classes and their origins (`define_class*`, `class`, `class_origin`, `rust_classes` and
-- `cxx_classes` of ctx.rs).
use rustcc.Prelude.{ℕ, zero, suc, ◌+◌, ◌^◌, ◌<◌, ◌≤◌, ◌≡◌, refl, ◌⊎◌, inl, inr, arith}
use rustcc.Prelude.{◌↔◌, some, List, [], ◌∷◌, length, get_elem?}
use rustcc.Prelude.{Bool, true, Bool-cases, ◌∈◌}
use rustcc.Prelude.{
  get_elem?-push_self, get_elem?-append, get_elem?-lt, get_elem?-some, length-append,
}
use rustcc.Abi.Types.{ClassId, ClassDef, TypeOrigin, cxx, rust_repr_cpp}
use rustcc.Abi.Context.Intern.{as_u32-lt}
use rustcc.Abi.Context.{
  CxxTypeCtx, as_u32, define_class_with_origin, class_of, class_origin, class_ids,
}
use rustcc.Abi.Context.{rust_classes, cxx_classes, select, range_from, is_rust, is_cxx}

-- The two vectors are parallel.
abbrev pub HasOrigins : CxxTypeCtx → Type 0
HasOrigins ctx = length ctx.class_origins ≡ length ctx.classes

-- With fewer than 2^32 classes, a definition returns an id that reads back as the class and as its origin, keeps every class and
-- origin that was defined before under its id, and keeps the vectors parallel.
pub define_class_with_origin_lem :
    (ctx : CxxTypeCtx) (def : ClassDef) (origin : TypeOrigin)
    → HasOrigins ctx
    → length ctx.classes < 2 ^ 32
    → let (id, ctx') = define_class_with_origin ctx def origin in
      (class_of ctx' id ≡ some def)
      × (class_origin ctx' id ≡ some origin)
      × ((n : ClassId)
          → n < length ctx.classes
          → (class_of ctx' n ≡ class_of ctx n) × (class_origin ctx' n ≡ class_origin ctx n))
      × HasOrigins ctx'
unfolding define_class_with_origin class_origin
define_class_with_origin_lem ctx def origin v room = (
  rw (as_u32-lt (length ctx.classes) room) (get_elem?-push_self ctx.classes def),
  rw (as_u32-lt (length ctx.classes) room, ← v) (get_elem?-push_self ctx.class_origins origin),
  λ n h. (get_elem?-append ctx.classes _ n h, get_elem?-append ctx.class_origins _ n (omega arith)),
  omega (
    arith,
    length-append {0} ctx.classes (def ∷ []),
    length-append {0} ctx.class_origins (origin ∷ []),
  ),
)

mem-range_from : (n lo i : ℕ) → (i ∈ range_from n lo) ↔ ((lo ≤ i) × (i < lo + n))
unfolding range_from
mem-range_from zero lo i = (λ h. elim h [ ], λ h. absurd (omega arith))
mem-range_from (suc n) lo i = (
  elim [
    | inl e ↦ (omega arith, omega arith)
    | inr m ↦ let (a, b) = (mem-range_from n (lo + 1) i).0 m in (omega arith, omega arith)
  ],
  λ h. grind (arith, (mem-range_from n (lo + 1) i).1),
)

-- `k` is the id of an index into the origins, from `i` on, of one that passes the filter.
abbrev Passes : (TypeOrigin → Bool) → ℕ → List TypeOrigin → ClassId → Type 0
Passes p i os k =
    (n : ℕ) × (o : TypeOrigin) × (k ≡ as_u32 (i + n)) × (get_elem? os n ≡ some o) × (p o ≡ true)

Passes-later :
    (p : TypeOrigin → Bool) (i : ℕ) (o : TypeOrigin) (os : List TypeOrigin) (k : ClassId)
    → Passes p (i + 1) os k
    → Passes p i (o ∷ os) k
Passes-later p i o os k (n, o', e, f, g) = (suc n, o', omega arith, f, g)

select-Passes :
    (p : TypeOrigin → Bool) (i : ℕ) (os : List TypeOrigin) (k : ClassId)
    → k ∈ select p i os
    → Passes p i os k
unfolding select
select-Passes p i [] k h = elim h [ ]
select-Passes p i (o ∷ os) k h = elim (Bool-cases (p o)) [
  | inl t ↦ elim (rw t at h) [
    | inl e ↦ (0, o, omega arith, refl, t)
    | inr m ↦ Passes-later p i o os k (select-Passes p (i + 1) os k m)
  ]
  | inr f ↦ Passes-later p i o os k (select-Passes p (i + 1) os k (rw f at h))
]

Passes-select :
    (p : TypeOrigin → Bool) (i : ℕ) (os : List TypeOrigin) (k n : ℕ) (o : TypeOrigin)
    → k ≡ as_u32 (i + n)
    → get_elem? os n ≡ some o
    → p o ≡ true
    → k ∈ select p i os
unfolding select
Passes-select p i [] k n o e f g = absurd (cc)
Passes-select p i (x ∷ os) k zero o e f g = let t : p x ≡ true = cc in rw t (inl (omega arith))
Passes-select p i (x ∷ os) k (suc n) o e f g =
    let rest = Passes-select p (i + 1) os k n o (omega arith) f g in
    elim (Bool-cases (p x)) [ inl t ↦ rw t (inr rest) | inr t ↦ rw t rest ]

-- Of fewer than 2^32 classes, `rust_classes` holds exactly the ids of the classes that Rust declares, and `cxx_classes`
-- exactly those of the imported ones.
pub origin_iterators :
    (ctx : CxxTypeCtx) (k : ClassId)
    → length ctx.class_origins < 2 ^ 32
    → ((k ∈ rust_classes ctx) ↔ (class_origin ctx k ≡ some rust_repr_cpp))
      × ((k ∈ cxx_classes ctx) ↔ (class_origin ctx k ≡ some cxx))
unfolding rust_classes cxx_classes class_origin
origin_iterators ctx k room = (
  (
    λ m. rust (select-Passes is_rust 0 ctx.class_origins k m),
    λ e. Passes-select is_rust 0 ctx.class_origins k k rust_repr_cpp (below (small e)) e refl,
  ),
  (
    λ m. imported (select-Passes is_cxx 0 ctx.class_origins k m),
    λ e. Passes-select is_cxx 0 ctx.class_origins k k cxx (below (small e)) e refl,
  ),
)
  where
    small : {o : TypeOrigin} → get_elem? ctx.class_origins k ≡ some o → k < 2 ^ 32
    small e = omega (arith, room, get_elem?-lt ctx.class_origins k e)

    below : k < 2 ^ 32 → k ≡ as_u32 (0 + k)
    below h = omega arith

    same_index :
        (n : ℕ) {o : TypeOrigin}
        → k ≡ as_u32 (0 + n)
        → get_elem? ctx.class_origins n ≡ some o
        → k ≡ n
    same_index n e f = omega (arith, e, room, get_elem?-lt ctx.class_origins n f)

    rust : Passes is_rust 0 ctx.class_origins k → get_elem? ctx.class_origins k ≡ some rust_repr_cpp
    rust (n, cxx, e, f, g) = absurd (cc)
    rust (n, rust_repr_cpp, e, f, g) = rw (same_index n e f) f

    imported : Passes is_cxx 0 ctx.class_origins k → get_elem? ctx.class_origins k ≡ some cxx
    imported (n, cxx, e, f, g) = rw (same_index n e f) f
    imported (n, rust_repr_cpp, e, f, g) = absurd (cc)

-- Of fewer than 2^32 classes, the two iterators partition the ids of `class_ids`: every defined class is in one of them, and
-- none is in both.
pub origins_partition :
    (ctx : CxxTypeCtx) (k : ClassId)
    → HasOrigins ctx
    → length ctx.classes < 2 ^ 32
    → ((k ∈ class_ids ctx) ↔ ((k ∈ rust_classes ctx) ⊎ (k ∈ cxx_classes ctx)))
      × (¬ ((k ∈ rust_classes ctx) × (k ∈ cxx_classes ctx)))
unfolding class_ids class_origin
origins_partition ctx k v room = (
  (
    λ m. known (
        get_elem?-some ctx.class_origins k
          (omega (arith, v, room, (mem-range_from (as_u32 (length ctx.classes)) 0 k).0 m))),
    elim [ inl m ↦ defined (r.0.0 m) | inr m ↦ defined (r.1.0 m) ],
  ),
  λ (m, n). absurd (cc (r.0.0 m, r.1.0 n)),
)
  where
    r :
        ((k ∈ rust_classes ctx) ↔ (class_origin ctx k ≡ some rust_repr_cpp))
        × ((k ∈ cxx_classes ctx) ↔ (class_origin ctx k ≡ some cxx))
    r = origin_iterators ctx k (omega arith)

    known :
        (o : TypeOrigin) × (get_elem? ctx.class_origins k ≡ some o)
        → (k ∈ rust_classes ctx) ⊎ (k ∈ cxx_classes ctx)
    known (cxx, e) = inr (r.1.1 e)
    known (rust_repr_cpp, e) = inl (r.0.1 e)

    defined : {o : TypeOrigin} → get_elem? ctx.class_origins k ≡ some o → k ∈ class_ids ctx
    defined e =
        (mem-range_from (as_u32 (length ctx.classes)) 0 k).1
          (omega arith, omega (arith, v, room, get_elem?-lt ctx.class_origins k e))
