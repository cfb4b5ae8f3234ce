-- ===== src/Abi/Mangle/Again.antt =====
-- Back references: the second mention of a type (`emit_type` and the table of mangle.rs).
use rustcc.Prelude.{ℕ, suc, ◌≡◌, refl, sym, ◌∙◌, ap}
use rustcc.Prelude.{some, List}
use rustcc.Prelude.{ok, >>=-eq-ok, or_panic}
use rustcc.Abi.Types.{TypeId, no_segment, segment, LayoutError}
use rustcc.Abi.Types.{CxxType}
use rustcc.Abi.Context.{CxxTypeCtx, type_of}
use rustcc.Abi.Mangle.Keys.{Emit, Mangler, SubKey, emit_seq, find}
use rustcc.Abi.Mangle.Types.{
  key_of, type_to_key, emit_types, reference_or, or_back_reference, emit_with_possible_cv,
  emit_type_body, emit_keyed, emit_type,
}
use rustcc.Abi.Mangle.Table.{find-Grows}
use rustcc.Abi.Mangle.Grows.{types-OnlyAdds}
use rustcc.Abi.Mangle.Grows.Types.{emit_type-OnlyAdds}
use rustcc.Abi.Mangle.Enters.{IsEntered, type-enters}

back_reference-Found :
    (key : SubKey) (body : Emit) (m : Mangler) (i : ℕ)
    → find key m ≡ some i
    → or_back_reference key body m ≡ ok (emit_seq i m)
unfolding or_back_reference reference_or
back_reference-Found key body m i f = ap (λ o. reference_or o body m) f

keyed-Found :
    (key : SubKey) (body : Emit) (m : Mangler) (i : ℕ)
    → IsEntered key
    → find key m ≡ some i
    → emit_keyed key body m ≡ ok (emit_seq i m)
unfolding emit_keyed
keyed-Found (SubKey.builtin ty) body m i c f = elim c [ ]
keyed-Found (SubKey.path no_segment) body m i c f = elim c [ ]
keyed-Found (SubKey.path (segment s rest)) body m i c f =
    back_reference-Found (SubKey.path (segment s rest)) _ m i f
keyed-Found (SubKey.cv_qualified k cv) body m i c f =
    back_reference-Found (SubKey.cv_qualified k cv) _ m i f
keyed-Found (SubKey.pointer k) body m i c f = back_reference-Found (SubKey.pointer k) _ m i f
keyed-Found (SubKey.reference k r) body m i c f =
    back_reference-Found (SubKey.reference k r) _ m i f
keyed-Found (SubKey.array k l) body m i c f = back_reference-Found (SubKey.array k l) _ m i f
keyed-Found (SubKey.opaque ty) body m i c f = back_reference-Found (SubKey.opaque ty) _ m i f

emit_type-keyed :
    (ctx : CxxTypeCtx) (fuel : ℕ) (ty : TypeId) (t : CxxType) (key : SubKey) (m : Mangler)
    → or_panic {E = LayoutError} (type_of ctx ty) ≡ ok t
    → key_of ctx (type_to_key ctx fuel) ty t ≡ ok key
    → emit_type ctx (suc fuel) ty m
      ≡ emit_keyed key
          (emit_type_body ctx
            (emit_type ctx fuel)
            (emit_with_possible_cv ctx (type_to_key ctx fuel) (emit_type ctx fuel) fuel)
            t)
          m
unfolding emit_type type_to_key
emit_type-keyed ctx fuel ty t key m a b = rw (a, b) refl

-- A type other than a builtin, once emitted, has an entry in the table; whatever types are emitted
-- after it, emitting it again writes the reference to that entry and nothing else.
pub emit_type-again :
    (ctx : CxxTypeCtx) (fuel : ℕ) (ty : TypeId) (between : List TypeId) (key : SubKey)
    (m n l : Mangler)
    → type_to_key ctx (suc fuel) ty ≡ ok key
    → IsEntered key
    → emit_type ctx (suc fuel) ty m ≡ ok n
    → emit_types (emit_type ctx (suc fuel)) between n ≡ ok l
    → (i : ℕ) × (find key l ≡ some i) × (emit_type ctx (suc fuel) ty l ≡ ok (emit_seq i l))
unfolding type_to_key
emit_type-again ctx fuel ty between key m n l k c first rest =
    let (t, a, b) = >>=-eq-ok (or_panic (type_of ctx ty)) _ k in
    let run = λ (at : Mangler). emit_type-keyed ctx fuel ty t key at a b in
    let (i, f) =
      type-enters ctx (type_to_key ctx fuel) (emit_type ctx fuel)
        (emit_with_possible_cv ctx (type_to_key ctx fuel) (emit_type ctx fuel) fuel) ty t key m n b
        c (sym (run m) ∙ first) in
    let g =
      find-Grows key n l i
        (types-OnlyAdds (emit_type ctx (suc fuel)) (emit_type-OnlyAdds ctx (suc fuel)) between n l
          rest)
        f in
    (i, g, run l ∙ keyed-Found key _ l i c g)
