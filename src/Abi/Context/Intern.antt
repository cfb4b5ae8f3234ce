-- ===== src/Abi/Context/Intern.antt =====
-- Interning of types (`intern_type` and `type_of` of ctx.rs).
use rustcc.Prelude.{ℕ, zero, suc, ◌+◌, ◌^◌, ◌<◌, ◌≡◌, refl, ◌∙◌, sym, ap, ◌≢◌, ◌⊎◌, inl, inr, arith}
use rustcc.Prelude.{none, some, List, [], ◌∷◌, length, get_elem?, push, Option-cases}
use rustcc.Prelude.{get_elem?-push_self, get_elem?-append, get_elem?-lt}
use rustcc.Abi.Types.{TypeId, CxxType, CxxType-discrete}
use rustcc.Abi.Context.{CxxTypeCtx, as_u32, position, intern_type, type_of}

-- A position that is found holds the type.
position-some :
    (ty : CxxType) (i : ℕ) (ts : List CxxType) {k : TypeId}
    → position ty i ts ≡ some k
    → (n : ℕ) × (k ≡ i + n) × (get_elem? ts n ≡ some ty)
unfolding position
position-some ty i [] h = cc
position-some ty i (t ∷ ts) {k} h = elim (CxxType-discrete t ty) [
  | yes e ↦ (0, ground arith, ground arith)
  | no ne ↦
      let (n, e, f) = position-some ty (i + 1) ts {k = k} (ground arith) in (suc n, omega arith, f)
]

-- Where none is found, the type stands nowhere.
position-none :
    (ty : CxxType) (i : ℕ) (ts : List CxxType)
    → position ty i ts ≡ none
    → (n : ℕ) → get_elem? ts n ≢ some ty
unfolding position
position-none ty i [] h n = cc
position-none ty i (t ∷ ts) h zero = ground arith
position-none ty i (t ∷ ts) h (suc n) = position-none ty (i + 1) ts (ground arith) n

-- Every id that the context hands out stands for one type, and every type for one id.
abbrev pub IsInterned : CxxTypeCtx → Type 0
IsInterned ctx =
    (i j : TypeId) (t : CxxType) → type_of ctx i ≡ some t → type_of ctx j ≡ some t → i ≡ j

-- What a call of `intern_type` does: it returns the id of a type that stands in the arena, and
-- adds one that does not. An id is the index cut to 32 bits.
pub intern_type-cases :
    (ctx : CxxTypeCtx) (ty : CxxType)
    → ((intern_type ctx ty).1 ≡ ctx)
        × ((k : ℕ) × (type_of ctx k ≡ some ty) × ((intern_type ctx ty).0 ≡ as_u32 k))
      ⊎ ((n : TypeId) → type_of ctx n ≢ some ty)
        × (intern_type ctx ty
            ≡ (as_u32 (length ctx.types), record ctx { types = push ctx.types ty }))
unfolding intern_type
intern_type-cases ctx ty = elim (Option-cases (position ty 0 ctx.types)) [
  | inl e ↦ inr (position-none ty 0 ctx.types e, rw (e, intern_type))
  | inr (k, e) ↦
      let (n, p, q) = position-some ty 0 ctx.types e in
      let p' : k ≡ n = omega arith in inl (rw (e, intern_type), (n, q, rw (e, p', intern_type)))
]

-- The cast drops nothing of a number that a u32 holds.
pub as_u32-lt : (n : ℕ) → n < 2 ^ 32 → as_u32 n ≡ n
as_u32-lt n h = omega arith

-- In an arena of fewer than 2^32 types, the id that `intern_type` returns reads back as the type,
-- and no id that was handed out before changes its meaning.
pub intern_type_lem :
    (ctx : CxxTypeCtx) (ty : CxxType)
    → length ctx.types < 2 ^ 32
    → let (id, ctx') = intern_type ctx ty in
      (type_of ctx' id ≡ some ty)
      × ((n : TypeId) → n < length ctx.types → type_of ctx' n ≡ type_of ctx n)
intern_type_lem ctx ty room = elim (intern_type-cases ctx ty) [
  | inl (same, (k, found, e)) ↦
      let e' = e ∙ as_u32-lt k (omega (arith, room, get_elem?-lt ctx.types k found)) in
      (rw (same, e') found, λ n h. rw same)
  | inr (fresh, e) ↦ (
    rw (e, as_u32-lt (length ctx.types) room) (get_elem?-push_self ctx.types ty),
    λ n h. rw e (get_elem?-append ctx.types _ n h),
  )
]

-- What a longer arena holds: the old entries, and the new one at the old length.
type_of-push :
    (ts : List CxxType) (ty t : CxxType) (n : TypeId)
    → get_elem? (push ts ty) n ≡ some t
    → (get_elem? ts n ≡ some t) ⊎ (n ≡ length ts) × (ty ≡ t)
type_of-push [] ty t zero h = inr (refl, ground arith)
type_of-push [] ty t (suc n) h = cc
type_of-push (x ∷ ts) ty t zero h = inl h
type_of-push (x ∷ ts) ty t (suc n) h = elim (type_of-push ts ty t n h) [
  | inl e ↦ inl e
  | inr (e, f) ↦ inr (ap suc e, f)
]

-- `intern_type` keeps the ids canonical.
pub intern_type-IsInterned :
    (ctx : CxxTypeCtx) (ty : CxxType) → IsInterned ctx → IsInterned (intern_type ctx ty).1
intern_type-IsInterned ctx ty v = elim (intern_type-cases ctx ty) [
  | inl (same, _) ↦ rw same v
  | inr (fresh, e) ↦ rw e (λ i j t hi hj. elim (type_of-push ctx.types ty t i hi) [
    | inl a ↦ elim (type_of-push ctx.types ty t j hj) [
      | inl b ↦ v i j t a b
      | inr (_, b) ↦ absurd (fresh i (a ∙ ap some (sym b)))
    ]
    | inr (a, e') ↦ elim (type_of-push ctx.types ty t j hj) [
      | inl b ↦ absurd (fresh j (b ∙ ap some (sym e')))
      | inr (b, _) ↦ a ∙ sym b
    ]
  ])
]

-- On canonical ids, interning is the inverse of `type_of`: the type of an id, a number below 2^32,
-- interns to that id and leaves the context as it is.
pub intern_type-type_of :
    (ctx : CxxTypeCtx) (id : TypeId) (ty : CxxType)
    → IsInterned ctx
    → id < 2 ^ 32
    → type_of ctx id ≡ some ty
    → intern_type ctx ty ≡ (id, ctx)
intern_type-type_of ctx id ty v room h = elim (intern_type-cases ctx ty) [
  | inl (same, (k, found, e)) ↦
      let e' = e ∙ ap as_u32 (v k id ty found h) ∙ as_u32-lt id room in λ i. (e' i, same i)
  | inr (fresh, e) ↦ absurd (fresh id h)
]
