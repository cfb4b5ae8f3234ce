-- ===== src/Abi/Mangle/Grows.antt =====
-- What the emitters of mangle.rs do to the state of the mangler.
pub mod Types
pub mod Symbols
use rustcc.Prelude.{
  ℕ, zero, suc, ◌+◌, ◌≡◌, refl, sym, ◌∙◌, ap, Bool, true, false, not, ◌&&◌, ltb, if◌then◌else◌,
}
use rustcc.Prelude.{Bool-cases, inl, inr, Option, none, some, List, [], ◌∷◌, ◌++◌, Option-cases}
use rustcc.Prelude.{Outcome, ok, ◌>>=◌, >>=-eq-ok, ok_inj, or_panic, stuck}
use mathlib.Core.Path.{subst}
use rustcc.Abi.Types.{
  TypeId, NestedName, NameSegment, no_segment, segment, TemplateArg, TemplateArgs, CvQual,
}
use rustcc.Abi.Types.{namespace_seg, class_seg, enum_seg, template_spec, anonymous_namespace}
use rustcc.Abi.Types.{type_arg, integral, template_arg, no_arg, arg, LayoutError, MethodName, FnSig}
use rustcc.Abi.Types.{
  CxxType, void, bool, int, float, ptr, ref, array, record_type, enum_type, fn, member_ptr,
}
use rustcc.Abi.Target.{codes}
use rustcc.Abi.Context.{CxxTypeCtx, type_of, class_of}
use rustcc.Abi.Mangle.Digits.{source_name, number, decimal}
use rustcc.Abi.Mangle.Keys.{
  Emit, Mangler, SubKey, put, path, register, push_segment, start_of, from_prefix, longest_prefix,
  path_length, emit_seq, find,
}
use rustcc.Abi.Mangle.Emit.{emit_from, emit_segment, emit_args, emit_arg, emit_nested_prefix}
use rustcc.Abi.Mangle.Types.{
  ToKey, class_path, emit_path, emit_types, is_empty, emit_params_v, reference_or,
  or_back_reference, qualified, is_qualified, cv_letters, emit_with_possible_cv, member_letters,
  emit_type_body, emit_keyed, type_to_key, emit_type, int_code, float_code, ref_code,
}
use rustcc.Abi.Mangle.Table.{
  Grows, Grows-refl, Grows-trans, Grows-put, Grows-emit_seq, Grows-register,
}

-- An emitter that returns has only added to the state.
abbrev pub OnlyAdds : Emit → Type 0
OnlyAdds e = (m n : Mangler) → e m ≡ ok n → Grows m n

abbrev pub from : (m n : Mangler) → m ≡ n → Grows m n
from m n e = subst (Grows m) e (Grows-refl m)

-- Text, then an emitter.
pub put-then : (t : List ℕ) (e : Emit) (m n : Mangler) → OnlyAdds e → e (put t m) ≡ ok n → Grows m n
put-then t e m n k h = Grows-trans m (put t m) n (Grows-put t m) (k (put t m) n h)

-- An emitter, then text.
pub then-put :
    (t : List ℕ) (e : Emit) (m n : Mangler)
    → OnlyAdds e
    → (e m >>= λ m'. ok (put t m')) ≡ ok n
    → Grows m n
then-put t e m n k h =
    let (m', a, b) = >>=-eq-ok (e m) _ h in
    Grows-trans m m' n (k m m' a) (subst (Grows m') (ok_inj b) (Grows-put t m'))

abbrev pub write : List ℕ → Emit
write t m = ok (put t m)

pub put-only : (t : List ℕ) → OnlyAdds (write t)
put-only t m n h = subst (Grows m) (ok_inj h) (Grows-put t m)

start_of-Grows : (p : NestedName) (m : Mangler) → Grows m (start_of p m).0
unfolding start_of
start_of-Grows p m = go (longest_prefix m p (path_length p))
  where
    go : (r : Option (ℕ × ℕ)) → Grows m (from_prefix r m).0
    go none = Grows-refl m
    go (some (index, n)) = Grows-emit_seq index m

module _ (rec : TypeId → Emit) (adds : (ty : TypeId) → OnlyAdds (rec ty)) where
  mutual
    unfolding emit_from

    from-adds : (skip : ℕ) (done p : NestedName) → OnlyAdds (emit_from rec skip done p)
    from-adds skip done no_segment m n h = from m n (ok_inj h)
    from-adds (suc skip) done (segment s rest) m n h =
        from-adds skip (push_segment done s) rest m n h
    from-adds zero done (segment s rest) m n h =
        let (m', a, b) = >>=-eq-ok (emit_segment rec s m) _ h in
        let key : SubKey = path (push_segment done s) in
        Grows-trans m m' n (segment-adds s m m' a) (
          Grows-trans m' (register key m') n (Grows-register key m')
            (from-adds zero (push_segment done s) rest (register key m') n b))

    segment-adds : (s : NameSegment) → OnlyAdds (emit_segment rec s)
    segment-adds (namespace_seg id) m n h = put-only (source_name id) m n h
    segment-adds (class_seg id) m n h = put-only (source_name id) m n h
    segment-adds (enum_seg id) m n h = put-only (source_name id) m n h
    segment-adds anonymous_namespace m n h = put-only (codes "12_GLOBAL__N_1") m n h
    segment-adds (template_spec id args) m n h =
        put-then (source_name id ++ (b'I' ∷ []))
          (λ k. emit_args rec args k >>= λ l. ok (put (b'E' ∷ []) l)) m n
          (λ k l. then-put (b'E' ∷ []) (emit_args rec args) k l (args-adds args)) h

    args-adds : (as_ : TemplateArgs) → OnlyAdds (emit_args rec as_)
    args-adds no_arg m n h = from m n (ok_inj h)
    args-adds (arg a as_) m n h =
        let (m', b, c) = >>=-eq-ok (emit_arg rec a m) _ h in
        Grows-trans m m' n (arg-adds a m m' b) (args-adds as_ m' n c)

    arg-adds : (a : TemplateArg) → OnlyAdds (emit_arg rec a)
    arg-adds (type_arg ty) m n h = adds ty m n h
    arg-adds (integral v ty) m n h =
        put-then (b'L' ∷ []) (λ k. rec ty k >>= λ l. ok (put (number v ++ (b'E' ∷ [])) l)) m n
          (λ k l. then-put (number v ++ (b'E' ∷ [])) (rec ty) k l (adds ty)) h
    arg-adds (template_arg p) m n h =
        Grows-trans m (start_of p m).0 n (start_of-Grows p m)
          (from-adds (start_of p m).1 no_segment p (start_of p m).0 n h)

  pub nested_prefix-OnlyAdds : (p : NestedName) → OnlyAdds (emit_nested_prefix rec p)
  unfolding emit_nested_prefix
  nested_prefix-OnlyAdds p m n h =
      Grows-trans m (start_of p m).0 n (start_of-Grows p m)
        (from-adds (start_of p m).1 no_segment p (start_of p m).0 n h)

  pub segment-OnlyAdds : (s : NameSegment) → OnlyAdds (emit_segment rec s)
  segment-OnlyAdds = segment-adds

  pub path-OnlyAdds : (p : NestedName) → OnlyAdds (emit_path rec p)
  unfolding emit_path
  path-OnlyAdds p m n h = elim (Bool-cases (ltb 1 (path_length p))) [
    | inl y ↦
        put-then (b'N' ∷ []) (λ k. emit_nested_prefix rec p k >>= λ l. ok (put (b'E' ∷ []) l)) m n
          (λ k l. then-put (b'E' ∷ []) (emit_nested_prefix rec p) k l (nested_prefix-OnlyAdds p))
          (rw y at h)
    | inr e ↦ nested_prefix-OnlyAdds p m n (rw e at h)
  ]

  pub types-OnlyAdds : (ts : List TypeId) → OnlyAdds (emit_types rec ts)
  unfolding emit_types
  types-OnlyAdds [] m n h = from m n (ok_inj h)
  types-OnlyAdds (t ∷ ts) m n h =
      let (m', a, b) = >>=-eq-ok (rec t m) _ h in
      Grows-trans m m' n (adds t m m' a) (types-OnlyAdds ts m' n b)

  pub params_v-OnlyAdds :
      (ts : List TypeId) (variadic : Bool) → OnlyAdds (emit_params_v rec ts variadic)
  unfolding emit_params_v
  params_v-OnlyAdds ts variadic m n h = elim (Bool-cases (is_empty ts && not variadic)) [
    | inl y ↦ put-only (b'v' ∷ []) m n (rw y at h)
    | inr e ↦
        let (m', a, b) = >>=-eq-ok (emit_types rec ts m) _ (rw e at h) in
        Grows-trans m m' n (types-OnlyAdds ts m m' a) (closed variadic m' n b)
  ]
    where
      closed : (v : Bool) → OnlyAdds (λ k. ok (if v then put (b'z' ∷ []) k else k))
      closed true k l h = put-only (b'z' ∷ []) k l h
      closed false k l h = from k l (ok_inj h)

reference_or-OnlyAdds :
    (o : Option ℕ) (body : Emit) → OnlyAdds body → OnlyAdds (reference_or o body)
unfolding reference_or
reference_or-OnlyAdds none body k m n h = k m n h
reference_or-OnlyAdds (some i) body k m n h = subst (Grows m) (ok_inj h) (Grows-emit_seq i m)

pub back_reference-OnlyAdds :
    (key : SubKey) (body : Emit) → OnlyAdds body → OnlyAdds (or_back_reference key body)
unfolding or_back_reference
back_reference-OnlyAdds key body k m n h = reference_or-OnlyAdds (find key m) body k m n h

-- An emitter, then the registration of a key.
pub then-register :
    (key : SubKey) (e : Emit) → OnlyAdds e → OnlyAdds (λ k. e k >>= λ l. ok (register key l))
then-register key e k m n h =
    let (l, a, b) = >>=-eq-ok (e m) _ h in
    Grows-trans m l n (k m l a) (subst (Grows l) (ok_inj b) (Grows-register key l))
