-- ===== src/Abi/Mangle/Grows/Symbols.antt =====
-- What the emission of symbols does to the state of the mangler (mangle.rs).
use rustcc.Prelude.{ℕ, ◌≡◌, sym}
use rustcc.Prelude.{List, [], ◌∷◌, ◌++◌}
use rustcc.Prelude.{ok, ◌>>=◌, >>=-eq-ok}
use rustcc.Abi.Types.{TypeId, NestedName, no_segment, segment}
use rustcc.Abi.Types.{MethodName}
use rustcc.Abi.Target.{codes}
use rustcc.Abi.Context.{CxxTypeCtx}
use rustcc.Abi.Mangle.Digits.{source_name}
use rustcc.Abi.Mangle.Keys.{Emit, Mangler, put}
use rustcc.Abi.Mangle.Emit.{emit_segment, emit_nested_prefix}
use rustcc.Abi.Mangle.Types.{class_path, emit_path, emit_params_v, emit_type}
use rustcc.Abi.Mangle.Table.{Grows, Grows-trans}
use rustcc.Abi.Mangle.Grows.{
  OnlyAdds, put-then, then-put, put-only, path-OnlyAdds, nested_prefix-OnlyAdds, segment-OnlyAdds,
  params_v-OnlyAdds,
}
use rustcc.Abi.Mangle.Symbols.{
  Symbol, mangle_symbol, emit_scoped, emit_method_name, operator_code, ctor_code, dtor_code,
  method_letters,
}
use rustcc.Abi.Mangle.Grows.Types.{emit_type-OnlyAdds}

module _ (ctx : CxxTypeCtx) (rec : TypeId → Emit) (adds : (ty : TypeId) → OnlyAdds (rec ty)) where
  scoped-OnlyAdds : (scope : NestedName) (name : List ℕ) → OnlyAdds (emit_scoped rec scope name)
  unfolding emit_scoped
  scoped-OnlyAdds no_segment name m n h = put-only (source_name name) m n h
  scoped-OnlyAdds (segment s rest) name m n h =
      put-then (b'N' ∷ [])
        (λ k. emit_nested_prefix rec (segment s rest) k >>= λ l.
          ok (put (source_name name ++ (b'E' ∷ [])) l))
        m n
        (λ k l.
          then-put (source_name name ++ (b'E' ∷ [])) (emit_nested_prefix rec (segment s rest)) k l
            (nested_prefix-OnlyAdds rec adds (segment s rest)))
        h

  method_name-OnlyAdds : (name : MethodName) → OnlyAdds (emit_method_name rec name)
  unfolding emit_method_name
  method_name-OnlyAdds (MethodName.ident name) m n h = put-only (source_name name) m n h
  method_name-OnlyAdds (MethodName.operator op) m n h = put-only (operator_code op) m n h
  method_name-OnlyAdds (MethodName.conversion_to ty) m n h =
      put-then (codes "cv") (rec ty) m n (adds ty) h

  -- What a symbol adds to the state, for each form of symbol.
  mangle_symbol-OnlyAdds : (sym : Symbol) → OnlyAdds (mangle_symbol ctx rec sym)
  unfolding mangle_symbol
  mangle_symbol-OnlyAdds (Symbol.function scope name sig) m n h =
      let (m1, a, b) = >>=-eq-ok (emit_scoped rec scope name (put (codes "_Z") m)) _ h in
      Grows-trans m m1 n
        (put-then (codes "_Z") (emit_scoped rec scope name) m m1 (scoped-OnlyAdds scope name) a)
        (params_v-OnlyAdds rec adds sig.params sig.variadic m1 n b)
  mangle_symbol-OnlyAdds (Symbol.method class name sig) m n h =
      let (p, a, b) = >>=-eq-ok (class_path ctx class) _ h in
      let start : List ℕ = codes "_ZN" ++ method_letters sig.cv in
      let (m1, c, d) = >>=-eq-ok (emit_nested_prefix rec p (put start m)) _ b in
      let (m2, e, f) = >>=-eq-ok (emit_method_name rec name m1) _ d in
      Grows-trans m m1 n
        (put-then start (emit_nested_prefix rec p) m m1 (nested_prefix-OnlyAdds rec adds p) c)
        (Grows-trans m1 m2 n (method_name-OnlyAdds name m1 m2 e) (
          put-then (b'E' ∷ []) (emit_params_v rec sig.params sig.variadic) m2 n
            (params_v-OnlyAdds rec adds sig.params sig.variadic) f))
  mangle_symbol-OnlyAdds (Symbol.ctor class variant sig) m n h =
      let (p, a, b) = >>=-eq-ok (class_path ctx class) _ h in
      let (m1, c, d) = >>=-eq-ok (emit_nested_prefix rec p (put (codes "_ZN") m)) _ b in
      Grows-trans m m1 n
        (put-then (codes "_ZN") (emit_nested_prefix rec p) m m1 (nested_prefix-OnlyAdds rec adds p)
          c)
        (put-then (ctor_code variant ++ (b'E' ∷ [])) (emit_params_v rec sig.params sig.variadic) m1
          n (params_v-OnlyAdds rec adds sig.params sig.variadic) d)
  mangle_symbol-OnlyAdds (Symbol.dtor class variant) m n h =
      let (p, a, b) = >>=-eq-ok (class_path ctx class) _ h in
      put-then (codes "_ZN")
        (λ k. emit_nested_prefix rec p k >>= λ l. ok (put (dtor_code variant ++ codes "Ev") l)) m n
        (λ k l.
          then-put (dtor_code variant ++ codes "Ev") (emit_nested_prefix rec p) k l
            (nested_prefix-OnlyAdds rec adds p))
        b
  mangle_symbol-OnlyAdds (Symbol.vtable class) m n h =
      let (p, a, b) = >>=-eq-ok (class_path ctx class) _ h in
      put-then (codes "_ZTV") (emit_path rec p) m n (path-OnlyAdds rec adds p) b
  mangle_symbol-OnlyAdds (Symbol.type_info class) m n h =
      let (p, a, b) = >>=-eq-ok (class_path ctx class) _ h in
      put-then (codes "_ZTI") (emit_path rec p) m n (path-OnlyAdds rec adds p) b
  mangle_symbol-OnlyAdds (Symbol.type_info_name class) m n h =
      let (p, a, b) = >>=-eq-ok (class_path ctx class) _ h in
      put-then (codes "_ZTS") (emit_path rec p) m n (path-OnlyAdds rec adds p) b
  mangle_symbol-OnlyAdds (Symbol.variable scope name ty) m n h =
      put-then (codes "_Z") (emit_scoped rec scope name) m n (scoped-OnlyAdds scope name) h
  mangle_symbol-OnlyAdds (Symbol.guard_variable no_segment) m n h = put-only (codes "_ZGV") m n h
  mangle_symbol-OnlyAdds (Symbol.guard_variable (segment s no_segment)) m n h =
      put-then (codes "_ZGV") (emit_segment rec s) m n (segment-OnlyAdds rec adds s) h
  mangle_symbol-OnlyAdds (Symbol.guard_variable (segment s (segment t rest))) m n h =
      put-then (codes "_ZGVN")
        (λ k. emit_nested_prefix rec (segment s (segment t rest)) k >>= λ l. ok (put (b'E' ∷ []) l))
        m n
        (λ k l.
          then-put (b'E' ∷ []) (emit_nested_prefix rec (segment s (segment t rest))) k l
            (nested_prefix-OnlyAdds rec adds (segment s (segment t rest))))
        h

-- Mangling a symbol of any form, behind any text and with any table: the text and the keys that
-- there were stay in front of what is added, and a table without repeated keys stays so.
pub mangle_symbol-Grows :
    (ctx : CxxTypeCtx) (fuel : ℕ) (sym : Symbol) (m n : Mangler)
    → mangle_symbol ctx (emit_type ctx fuel) sym m ≡ ok n
    → Grows m n
mangle_symbol-Grows ctx fuel sym =
    mangle_symbol-OnlyAdds ctx (emit_type ctx fuel) (emit_type-OnlyAdds ctx fuel) sym
