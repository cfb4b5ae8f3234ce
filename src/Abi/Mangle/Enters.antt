-- ===== src/Abi/Mangle/Enters.antt =====
-- The entries that emitted types leave in the table (`emit_type` of mangle.rs).
use rustcc.Prelude.{ℕ, zero, suc, ◌≤◌, ◌<◌, ◌≡◌, refl, sym, ◌∙◌, ap, arith, ltb}
use rustcc.Prelude.{Bool-cases, inl, inr, Option, none, some, [], ◌∷◌}
use rustcc.Prelude.{ok, ◌>>=◌, >>=-eq-ok, ok_inj}
use mathlib.Core.Path.{subst}
use mathlib.Core.Option.{some-injective}
use rustcc.Abi.Types.{TypeId, NestedName, NameSegment, no_segment, segment, CvQual}
use rustcc.Abi.Types.{
  CxxType, void, bool, int, float, ptr, ref, array, record_type, enum_type, fn, member_ptr,
}
use rustcc.Abi.Context.{CxxTypeCtx}
use rustcc.Abi.Mangle.Keys.{
  Emit, Mangler, SubKey, put, path, register, push_segment, take_path, start_of, from_prefix,
  prefix_or, longest_prefix, path_length, emit_seq, find,
}
use rustcc.Abi.Mangle.Emit.{emit_from, emit_segment, emit_nested_prefix}
use rustcc.Abi.Mangle.Types.{
  ToKey, class_path, key_of, emit_path, reference_or, or_back_reference, emit_type_body, emit_keyed,
}
use rustcc.Abi.Mangle.Table.{Grows-emit_seq, find-Grows, find-register}

-- The keys that get an entry: not those of builtin types, and not an empty path.
abbrev pub IsEntered : SubKey → Type 0
IsEntered (SubKey.builtin ty) = ⊥
IsEntered (SubKey.path no_segment) = ⊥
IsEntered _ = Unit

-- Entered behind the text of the type.
abbrev IsCompound : SubKey → Type 0
IsCompound (SubKey.builtin ty) = ⊥
IsCompound (SubKey.path p) = ⊥
IsCompound _ = Unit

abbrev pub Found : SubKey → Mangler → Type 0
Found key m = (i : ℕ) × (find key m ≡ some i)

abbrev append_path : NestedName → NestedName → NestedName
append_path p no_segment = p
append_path p (segment s rest) = append_path (push_segment p s) rest

from-enters :
    (rec : TypeId → Emit) (skip : ℕ) (done p : NestedName) (m n : Mangler)
    → skip < path_length p
    → emit_from rec skip done p m ≡ ok n
    → Found (path (append_path done p)) n
unfolding emit_from
from-enters rec skip done no_segment m n lt h = absurd (omega arith)
from-enters rec (suc skip) done (segment s rest) m n lt h =
    from-enters rec skip (push_segment done s) rest m n (omega arith) h
from-enters rec zero done (segment s no_segment) m n lt h =
    let (m', a, b) = >>=-eq-ok (emit_segment rec s m) _ h in
    subst (Found (path (push_segment done s))) (ok_inj b)
      (find-register (path (push_segment done s)) m')
from-enters rec zero done (segment s (segment t rest)) m n lt h =
    let (m', a, b) = >>=-eq-ok (emit_segment rec s m) _ h in
    from-enters rec zero (push_segment done s) (segment t rest)
      (register (path (push_segment done s)) m') n (omega arith) b

append_path-push :
    (p : NestedName) (s : NameSegment) (q : NestedName)
    → append_path (segment s p) q ≡ segment s (append_path p q)
append_path-push p s no_segment = refl
append_path-push p s (segment t rest) = append_path-push (push_segment p t) s rest

append_path-start : (p : NestedName) → append_path no_segment p ≡ p
append_path-start no_segment = refl
append_path-start (segment s no_segment) = refl
append_path-start (segment s (segment t rest)) =
    append_path-push no_segment s (segment t rest)
    ∙ ap (segment s) (append_path-start (segment t rest))

take_path-all : (p : NestedName) → take_path (path_length p) p ≡ p
take_path-all no_segment = refl
take_path-all (segment s rest) = ap (segment s) (take_path-all rest)

-- The prefix found is one of the path, and stands in the table.
longest_prefix-Found :
    (m : Mangler) (p : NestedName) (k i n : ℕ)
    → longest_prefix m p k ≡ some (i, n)
    → (n ≤ k) × (find (path (take_path n p)) m ≡ some i)
unfolding longest_prefix
longest_prefix-Found m p zero i n h = cc
longest_prefix-Found m p (suc k) i n h =
    go (longest_prefix-Found m p k i n) (find (path (take_path (suc k) p)) m) refl h
  where
    go :
        (longest_prefix m p k ≡ some (i, n) → (n ≤ k) × (find (path (take_path n p)) m ≡ some i))
        → (o : Option ℕ) → find (path (take_path (suc k) p)) m ≡ o
        → prefix_or o (suc k) (longest_prefix m p k) ≡ some (i, n)
        → (n ≤ suc k) × (find (path (take_path n p)) m ≡ some i)
    go shorter none e h = let (le, f) = shorter h in (omega arith, f)
    go shorter (some j) e h =
        let same_length : suc k ≡ n = ap (λ x. x.1) (some-injective _ _ h) in
        (
          omega arith,
          subst (λ l. find (path (take_path l p)) m ≡ some i) same_length
              (e ∙ ap some (ap (λ x. x.0) (some-injective _ _ h))),
        )

nested_prefix-enters :
    (rec : TypeId → Emit) (s : NameSegment) (rest : NestedName) (m n : Mangler)
    → find (path (segment s rest)) m ≡ none
    → emit_nested_prefix rec (segment s rest) m ≡ ok n
    → Found (path (segment s rest)) n
unfolding emit_nested_prefix start_of
nested_prefix-enters rec s rest m n new h = go (longest_prefix m p (path_length p)) refl h
  where
    p : NestedName
    p = segment s rest

    known : (k i : ℕ) → find (path (take_path k p)) m ≡ some i → ¬ (k ≡ path_length p)
    known k i f eq =
        let whole : find (path p) m ≡ some i =
          subst (λ q. find (path q) m ≡ some i) (ap (λ l. take_path l p) eq ∙ take_path-all p) f in
        absurd (ground (arith, new, whole))

    go :
        (r : Option (ℕ × ℕ))
        → longest_prefix m p (path_length p) ≡ r
        → emit_from rec (from_prefix r m).1 no_segment p (from_prefix r m).0 ≡ ok n
        → Found (path p) n
    go none e h =
        subst (λ q. Found (path q) n) (append_path-start p)
          (from-enters rec 0 no_segment p m n (omega arith) h)
    go (some (i, k)) e h =
        let (le, f) = longest_prefix-Found m p (path_length p) i k e in
        let apart : ¬ (k ≡ path_length p) = known k i f in
        let lt : k < path_length p = omega (arith, apart) in
        subst (λ q. Found (path q) n) (append_path-start p)
          (from-enters rec k no_segment p (emit_seq i m) n lt h)

-- The closing `E` leaves the table alone.
emit_path-enters :
    (rec : TypeId → Emit) (s : NameSegment) (rest : NestedName) (m n : Mangler)
    → find (path (segment s rest)) m ≡ none
    → emit_path rec (segment s rest) m ≡ ok n
    → Found (path (segment s rest)) n
unfolding emit_path
emit_path-enters rec s rest m n new h = elim (Bool-cases (ltb 1 (path_length (segment s rest)))) [
  | inl y ↦
      let (l, a, b) =
        >>=-eq-ok (emit_nested_prefix rec (segment s rest) (put (b'N' ∷ []) m)) _ (rw y at h) in
      subst (Found (path (segment s rest))) (ok_inj b)
        (nested_prefix-enters rec s rest (put (b'N' ∷ []) m) l new a)
  | inr e ↦ nested_prefix-enters rec s rest m n new (rw e at h)
]

back_reference-enters :
    (key : SubKey) (body : Emit) (m n : Mangler)
    → (find key m ≡ none → body m ≡ ok n → Found key n)
    → or_back_reference key body m ≡ ok n
    → Found key n
unfolding or_back_reference reference_or
back_reference-enters key body m n k h = go (find key m) refl h
  where
    go : (o : Option ℕ) → find key m ≡ o → reference_or o body m ≡ ok n → Found key n
    go none e h = k e h
    go (some i) e h =
        subst (Found key) (ok_inj h) (i, find-Grows key m (emit_seq i m) i (Grows-emit_seq i m) e)

then-enters :
    (key : SubKey) (body : Emit) (m n : Mangler)
    → or_back_reference key (λ k. body k >>= λ l. ok (register key l)) m ≡ ok n
    → Found key n
then-enters key body m n h =
    back_reference-enters key (λ k. body k >>= λ l. ok (register key l)) m n
      (λ _ e.
        let (l, a, b) = >>=-eq-ok (body m) _ e in
        subst (Found key) (ok_inj b) (find-register key l))
      h

compound-enters :
    (key : SubKey) (body : Emit) (m n : Mangler)
    → IsCompound key
    → emit_keyed key body m ≡ ok n
    → Found key n
unfolding emit_keyed
compound-enters (SubKey.builtin ty) body m n c h = elim c [ ]
compound-enters (SubKey.path p) body m n c h = elim c [ ]
compound-enters (SubKey.cv_qualified i cv) body m n c h =
    then-enters (SubKey.cv_qualified i cv) body m n h
compound-enters (SubKey.pointer i) body m n c h = then-enters (SubKey.pointer i) body m n h
compound-enters (SubKey.reference i r) body m n c h = then-enters (SubKey.reference i r) body m n h
compound-enters (SubKey.array i l) body m n c h = then-enters (SubKey.array i l) body m n h
compound-enters (SubKey.opaque ty) body m n c h = then-enters (SubKey.opaque ty) body m n h

path-enters :
    (rec : TypeId → Emit) (p : NestedName) (m n : Mangler)
    → IsEntered (path p)
    → emit_keyed (path p) (emit_path rec p) m ≡ ok n
    → Found (path p) n
unfolding emit_keyed
path-enters rec no_segment m n c h = elim c [ ]
path-enters rec (segment s rest) m n c h =
    back_reference-enters (path (segment s rest)) (emit_path rec (segment s rest)) m n
      (emit_path-enters rec s rest m n) h

module _ (ctx : CxxTypeCtx) (keys : TypeId → ToKey) (rec : TypeId → Emit)
    (with_cv : CvQual → TypeId → Emit) where
  -- Each type: its key, and the entry that its text leaves.
  pub type-enters :
      (ty : TypeId) (t : CxxType) (key : SubKey) (m n : Mangler)
      → key_of ctx keys ty t ≡ ok key
      → IsEntered key
      → emit_keyed key (emit_type_body ctx rec with_cv t) m ≡ ok n
      → Found key n
  unfolding key_of emit_type_body
  type-enters ty void key m n k c h = elim (subst IsEntered (sym (ok_inj k)) c) [ ]
  type-enters ty bool key m n k c h = elim (subst IsEntered (sym (ok_inj k)) c) [ ]
  type-enters ty (int _ _) key m n k c h = elim (subst IsEntered (sym (ok_inj k)) c) [ ]
  type-enters ty (float _) key m n k c h = elim (subst IsEntered (sym (ok_inj k)) c) [ ]
  type-enters ty (ptr pointee cv) key m n k c h =
      let (inner, a, b) = >>=-eq-ok (keys pointee) _ k in
      compound-enters key _ m n (subst IsCompound (ok_inj b) tt) h
  type-enters ty (ref pointee kind cv) key m n k c h =
      let (inner, a, b) = >>=-eq-ok (keys pointee) _ k in
      compound-enters key _ m n (subst IsCompound (ok_inj b) tt) h
  type-enters ty (array elem len) key m n k c h =
      let (inner, a, b) = >>=-eq-ok (keys elem) _ k in
      compound-enters key _ m n (subst IsCompound (ok_inj b) tt) h
  type-enters ty (fn sig) key m n k c h =
      compound-enters key _ m n (subst IsCompound (ok_inj k) tt) h
  type-enters ty (member_ptr class pointee) key m n k c h =
      compound-enters key _ m n (subst IsCompound (ok_inj k) tt) h
  type-enters ty (enum_type name underlying scoped) key m n k c h =
      let same = sym (ok_inj k) in
      subst (λ q. Found q n) (ok_inj k)
        (path-enters rec name m n (subst IsEntered same c)
          (subst (λ q. emit_keyed q (emit_path rec name) m ≡ ok n) same h))
  type-enters ty (record_type class) key m n k c h =
      let (p, a, b) = >>=-eq-ok (class_path ctx class) _ k in
      let same = sym (ok_inj b) in
      subst (λ q. Found q n) (ok_inj b)
        (path-enters rec p m n (subst IsEntered same c) (
          known p a (
            subst
              (λ q. emit_keyed q (λ l. class_path ctx class >>= λ q. emit_path rec q l) m ≡ ok n)
              same h)))
    where
      known :
          (p : NestedName)
          → class_path ctx class ≡ ok p
          → emit_keyed (path p) (λ l. class_path ctx class >>= λ q. emit_path rec q l) m ≡ ok n
          → emit_keyed (path p) (emit_path rec p) m ≡ ok n
      known p e h =
          subst (λ o. emit_keyed (path p) (λ l. o >>= λ q. emit_path rec q l) m ≡ ok n) e h
