-- ===== src/Abi/Mangle/Grows/Types.antt =====
-- What the emission of types does to the state of the mangler (mangle.rs).
use rustcc.Prelude.{ℕ, zero, suc, ◌≡◌, false, not, if◌then◌else◌}
use rustcc.Prelude.{Bool-cases, inl, inr, [], ◌∷◌, ◌++◌}
use rustcc.Prelude.{ok, ◌>>=◌, >>=-eq-ok, or_panic}
use rustcc.Abi.Types.{TypeId, CvQual}
use rustcc.Abi.Types.{
  CxxType, void, bool, int, float, ptr, ref, array, record_type, enum_type, fn, member_ptr,
}
use rustcc.Abi.Context.{CxxTypeCtx, type_of}
use rustcc.Abi.Mangle.Digits.{decimal}
use rustcc.Abi.Mangle.Keys.{Emit, Mangler, SubKey, put, path, register}
use rustcc.Abi.Mangle.Types.{
  ToKey, class_path, emit_path, emit_params_v, or_back_reference, qualified, is_qualified,
  cv_letters, emit_with_possible_cv, member_letters, emit_type_body, emit_keyed, type_to_key,
  emit_type, int_code, float_code, ref_code,
}
use rustcc.Abi.Mangle.Table.{Grows, Grows-trans}
use rustcc.Abi.Mangle.Grows.{
  OnlyAdds, put-then, then-put, put-only, path-OnlyAdds, params_v-OnlyAdds, back_reference-OnlyAdds,
  then-register,
}

module _ (ctx : CxxTypeCtx) (keys : TypeId → ToKey) (rec : TypeId → Emit)
    (adds : (ty : TypeId) → OnlyAdds (rec ty)) where
  plainly_qualified :
      (inner : TypeId) (cv : CvQual) (m n : Mangler)
      → (keys inner >>= λ key.
          or_back_reference
            (SubKey.cv_qualified key cv)
            (λ n. rec inner (put (cv_letters cv) n) >>= λ m'.
              ok (register (SubKey.cv_qualified key cv) m'))
            m)
        ≡ ok n
      → Grows m n
  plainly_qualified inner cv m n h =
      let (key, a, b) = >>=-eq-ok (keys inner) _ h in
      back_reference-OnlyAdds (SubKey.cv_qualified key cv)
        (λ n.
          rec inner (put (cv_letters cv) n) >>= λ m'. ok (register (SubKey.cv_qualified key cv) m'))
        (then-register (SubKey.cv_qualified key cv) (λ k. rec inner (put (cv_letters cv) k))
          (λ k l. put-then (cv_letters cv) (rec inner) k l (adds inner)))
        m n b

  qualified-OnlyAdds :
      (again : TypeId → Emit) (inner : TypeId) (cv : CvQual) (t : CxxType)
      → ((ty : TypeId) → OnlyAdds (again ty))
      → OnlyAdds (qualified keys rec again inner cv t)
  unfolding qualified
  qualified-OnlyAdds again inner cv (array elem len) k m n h =
      put-then (b'A' ∷ decimal len ++ (b'_' ∷ [])) (again elem) m n (k elem) h
  qualified-OnlyAdds again inner cv void k m n h = plainly_qualified inner cv m n h
  qualified-OnlyAdds again inner cv bool k m n h = plainly_qualified inner cv m n h
  qualified-OnlyAdds again inner cv (int _ _) k m n h = plainly_qualified inner cv m n h
  qualified-OnlyAdds again inner cv (float _) k m n h = plainly_qualified inner cv m n h
  qualified-OnlyAdds again inner cv (ptr _ _) k m n h = plainly_qualified inner cv m n h
  qualified-OnlyAdds again inner cv (ref _ _ _) k m n h = plainly_qualified inner cv m n h
  qualified-OnlyAdds again inner cv (record_type _) k m n h = plainly_qualified inner cv m n h
  qualified-OnlyAdds again inner cv (enum_type _ _ _) k m n h = plainly_qualified inner cv m n h
  qualified-OnlyAdds again inner cv (fn _) k m n h = plainly_qualified inner cv m n h
  qualified-OnlyAdds again inner cv (member_ptr _ _) k m n h = plainly_qualified inner cv m n h

  with_cv-OnlyAdds :
      (fuel : ℕ) (cv : CvQual) (inner : TypeId)
      → OnlyAdds (emit_with_possible_cv ctx keys rec fuel cv inner)
  unfolding emit_with_possible_cv
  with_cv-OnlyAdds zero cv inner m n h = cc
  with_cv-OnlyAdds (suc fuel) cv inner m n h = elim (Bool-cases (not (is_qualified cv))) [
    | inl y ↦ adds inner m n (rw y at h)
    | inr e ↦
        let (t, a, b) = >>=-eq-ok (or_panic (type_of ctx inner)) _ (rw e at h) in
        qualified-OnlyAdds (emit_with_possible_cv ctx keys rec fuel cv) inner cv t
          (with_cv-OnlyAdds fuel cv) m n b
  ]

  type_body-OnlyAdds :
      (with_cv : CvQual → TypeId → Emit) (t : CxxType)
      → ((cv : CvQual) (ty : TypeId) → OnlyAdds (with_cv cv ty))
      → OnlyAdds (emit_type_body ctx rec with_cv t)
  unfolding emit_type_body
  type_body-OnlyAdds with_cv void k m n h = put-only _ m n h
  type_body-OnlyAdds with_cv bool k m n h = put-only _ m n h
  type_body-OnlyAdds with_cv (int signed width) k m n h =
      put-only (int_code signed width ∷ []) m n h
  type_body-OnlyAdds with_cv (float kind) k m n h = put-only (float_code kind ∷ []) m n h
  type_body-OnlyAdds with_cv (ptr pointee cv) k m n h =
      put-then (b'P' ∷ []) (with_cv cv pointee) m n (k cv pointee) h
  type_body-OnlyAdds with_cv (ref pointee kind cv) k m n h =
      put-then (ref_code kind ∷ []) (with_cv cv pointee) m n (k cv pointee) h
  type_body-OnlyAdds with_cv (array elem len) k m n h =
      put-then (b'A' ∷ decimal len ++ (b'_' ∷ [])) (rec elem) m n (adds elem) h
  type_body-OnlyAdds with_cv (record_type class) k m n h =
      let (p, a, b) = >>=-eq-ok (class_path ctx class) _ h in path-OnlyAdds rec adds p m n b
  type_body-OnlyAdds with_cv (enum_type name underlying scoped) k m n h =
      path-OnlyAdds rec adds name m n h
  type_body-OnlyAdds with_cv (fn sig) k m n h =
      let (m1, a, b) = >>=-eq-ok (rec sig.ret (put (b'F' ∷ []) m)) _ h in
      Grows-trans m m1 n (put-then (b'F' ∷ []) (rec sig.ret) m m1 (adds sig.ret) a) (
        then-put ((if sig.variadic then b'z' ∷ [] else []) ++ (b'E' ∷ []))
          (emit_params_v rec sig.params false) m1 n (params_v-OnlyAdds rec adds sig.params false) b)
  type_body-OnlyAdds with_cv (member_ptr class pointee) k m n h =
      let (p, a, b) = >>=-eq-ok (class_path ctx class) _ h in
      let (m1, c, d) = >>=-eq-ok (emit_path rec p (put (b'M' ∷ []) m)) _ b in
      let (t, e, f) = >>=-eq-ok (or_panic (type_of ctx pointee)) _ d in
      Grows-trans m m1 n (put-then (b'M' ∷ []) (emit_path rec p) m m1 (path-OnlyAdds rec adds p) c)
        (put-then (member_letters t) (rec pointee) m1 n (adds pointee) f)

keyed-OnlyAdds : (key : SubKey) (body : Emit) → OnlyAdds body → OnlyAdds (emit_keyed key body)
unfolding emit_keyed
keyed-OnlyAdds (SubKey.builtin ty) body k m n h = k m n h
keyed-OnlyAdds (SubKey.path p) body k m n h = back_reference-OnlyAdds (path p) body k m n h
keyed-OnlyAdds (SubKey.cv_qualified i cv) body k m n h =
    back_reference-OnlyAdds (SubKey.cv_qualified i cv) _
      (then-register (SubKey.cv_qualified i cv) body k) m n h
keyed-OnlyAdds (SubKey.pointer i) body k m n h =
    back_reference-OnlyAdds (SubKey.pointer i) _ (then-register (SubKey.pointer i) body k) m n h
keyed-OnlyAdds (SubKey.reference i r) body k m n h =
    back_reference-OnlyAdds (SubKey.reference i r) _ (then-register (SubKey.reference i r) body k) m
      n h
keyed-OnlyAdds (SubKey.array i l) body k m n h =
    back_reference-OnlyAdds (SubKey.array i l) _ (then-register (SubKey.array i l) body k) m n h
keyed-OnlyAdds (SubKey.opaque ty) body k m n h =
    back_reference-OnlyAdds (SubKey.opaque ty) _ (then-register (SubKey.opaque ty) body k) m n h

-- Emitting a type adds text and keys behind those that there are, and no key twice.
pub emit_type-OnlyAdds :
    (ctx : CxxTypeCtx) (fuel : ℕ) (ty : TypeId) → OnlyAdds (emit_type ctx fuel ty)
unfolding emit_type
emit_type-OnlyAdds ctx zero ty m n h = cc
emit_type-OnlyAdds ctx (suc fuel) ty m n h =
    let (key, a, b) = >>=-eq-ok (type_to_key ctx (suc fuel) ty) _ h in
    let (t, c, d) = >>=-eq-ok (or_panic (type_of ctx ty)) _ b in
    keyed-OnlyAdds key _
      (type_body-OnlyAdds ctx (type_to_key ctx fuel) (emit_type ctx fuel)
        (emit_type-OnlyAdds ctx fuel) _ t
        (with_cv-OnlyAdds ctx (type_to_key ctx fuel) (emit_type ctx fuel)
          (emit_type-OnlyAdds ctx fuel) fuel))
      m n d
