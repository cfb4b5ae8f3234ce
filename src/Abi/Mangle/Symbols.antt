-- ===== src/Abi/Mangle/Symbols.antt =====
-- Symbols (`Symbol`, `mangle_symbol` and the entry points of mangle.rs).
use rustcc.Prelude.{ℕ, ◌++◌, false, if◌then◌else◌, List, [], ◌∷◌, Outcome, ok, ◌>>=◌}
use rustcc.Abi.Types.{ClassId, TypeId, NestedName, no_segment, segment, Ident, FnSig, MethodName}
use rustcc.Abi.Types.{OperatorKind, LayoutError, CvQual}
use rustcc.Abi.Target.{codes}
use rustcc.Abi.Context.{CxxTypeCtx}
use rustcc.Abi.Mangle.Digits.{source_name}
use rustcc.Abi.Mangle.Keys.{Emit, Mangler, put}
use rustcc.Abi.Mangle.Emit.{emit_nested_prefix, emit_segment}
use rustcc.Abi.Mangle.Types.{class_path, emit_path, emit_params_v, emit_type}

pub data CtorVariant : Type 0 where
  c1 c2 c3 : CtorVariant

pub data DtorVariant : Type 0 where
  d0 d1 d2 : DtorVariant

pub data Symbol : Type 0 where
  function : NestedName → Ident → FnSig → Symbol
  method : ClassId → MethodName → FnSig → Symbol
  ctor : ClassId → CtorVariant → FnSig → Symbol
  dtor : ClassId → DtorVariant → Symbol
  vtable type_info type_info_name : ClassId → Symbol
  variable : NestedName → Ident → TypeId → Symbol
  guard_variable : NestedName → Symbol

abbrev pub ctor_code : CtorVariant → List ℕ
ctor_code CtorVariant.c1 = codes "C1"
ctor_code CtorVariant.c2 = codes "C2"
ctor_code CtorVariant.c3 = codes "C3"

abbrev pub dtor_code : DtorVariant → List ℕ
dtor_code DtorVariant.d0 = codes "D0"
dtor_code DtorVariant.d1 = codes "D1"
dtor_code DtorVariant.d2 = codes "D2"

unfoldable pub operator_code : OperatorKind → List ℕ
operator_code OperatorKind.plus = codes "pl"
operator_code OperatorKind.minus = codes "mi"
operator_code OperatorKind.mul = codes "ml"
operator_code OperatorKind.div = codes "dv"
operator_code OperatorKind.rem = codes "rm"
operator_code OperatorKind.assign = codes "aS"
operator_code OperatorKind.plus_assign = codes "pL"
operator_code OperatorKind.eq = codes "eq"
operator_code OperatorKind.ne = codes "ne"
operator_code OperatorKind.lt = codes "lt"
operator_code OperatorKind.le = codes "le"
operator_code OperatorKind.gt = codes "gt"
operator_code OperatorKind.ge = codes "ge"
operator_code OperatorKind.call = codes "cl"
operator_code OperatorKind.index = codes "ix"
operator_code OperatorKind.deref = codes "de"
operator_code OperatorKind.pre_incr = codes "pp"
operator_code OperatorKind.pre_decr = codes "mm"

unfoldable pub emit_method_name : (TypeId → Emit) → MethodName → Emit
unfolding source_name operator_code
emit_method_name rec (MethodName.ident name) m = ok (put (source_name name) m)
emit_method_name rec (MethodName.operator op) m = ok (put (operator_code op) m)
emit_method_name rec (MethodName.conversion_to ty) m = rec ty (put (codes "cv") m)

-- A name in a scope: `N<scope><name>E`, or the bare name in the global scope.
unfoldable pub emit_scoped : (TypeId → Emit) → NestedName → Ident → Emit
unfolding source_name emit_nested_prefix
emit_scoped rec no_segment name m = ok (put (source_name name) m)
emit_scoped rec (segment s rest) name m = do
  m1 ← emit_nested_prefix rec (segment s rest) (put (b'N' ∷ []) m)
  ok (put (source_name name ++ (b'E' ∷ [])) m1)

-- `K` before `V`.
abbrev pub method_letters : CvQual → List ℕ
method_letters cv =
    (if cv.is_const then b'K' ∷ [] else []) ++ (if cv.is_volatile then b'V' ∷ [] else [])

unfoldable pub mangle_symbol : CxxTypeCtx → (TypeId → Emit) → Symbol → Emit
unfolding emit_scoped emit_params_v emit_nested_prefix emit_method_name emit_path emit_segment
mangle_symbol ctx rec (Symbol.function scope name sig) m = do
  m1 ← emit_scoped rec scope name (put (codes "_Z") m)
  emit_params_v rec sig.params sig.variadic m1
mangle_symbol ctx rec (Symbol.method class name sig) m = do
  p ← class_path ctx class
  m1 ← emit_nested_prefix rec p (put (codes "_ZN" ++ method_letters sig.cv) m)
  m2 ← emit_method_name rec name m1
  emit_params_v rec sig.params sig.variadic (put (b'E' ∷ []) m2)
mangle_symbol ctx rec (Symbol.ctor class variant sig) m = do
  p ← class_path ctx class
  m1 ← emit_nested_prefix rec p (put (codes "_ZN") m)
  emit_params_v rec sig.params sig.variadic (put (ctor_code variant ++ (b'E' ∷ [])) m1)
mangle_symbol ctx rec (Symbol.dtor class variant) m = do
  p ← class_path ctx class
  m1 ← emit_nested_prefix rec p (put (codes "_ZN") m)
  ok (put (dtor_code variant ++ codes "Ev") m1)
mangle_symbol ctx rec (Symbol.vtable class) m = do
  p ← class_path ctx class
  emit_path rec p (put (codes "_ZTV") m)
mangle_symbol ctx rec (Symbol.type_info class) m = do
  p ← class_path ctx class
  emit_path rec p (put (codes "_ZTI") m)
mangle_symbol ctx rec (Symbol.type_info_name class) m = do
  p ← class_path ctx class
  emit_path rec p (put (codes "_ZTS") m)
mangle_symbol ctx rec (Symbol.variable scope name ty) m =
    emit_scoped rec scope name (put (codes "_Z") m)
mangle_symbol ctx rec (Symbol.guard_variable no_segment) m = ok (put (codes "_ZGV") m)
mangle_symbol ctx rec (Symbol.guard_variable (segment s no_segment)) m =
    emit_segment rec s (put (codes "_ZGV") m)
mangle_symbol ctx rec (Symbol.guard_variable (segment s (segment t rest))) m = do
  m1 ← emit_nested_prefix rec (segment s (segment t rest)) (put (codes "_ZGVN") m)
  ok (put (b'E' ∷ []) m1)

-- `Mangler::new`.
abbrev pub empty_mangler : Mangler
empty_mangler = record { out = []; subs = [] }

unfoldable pub mangle_itanium : CxxTypeCtx → ℕ → Symbol → Outcome LayoutError (List ℕ)
unfolding mangle_symbol emit_type
mangle_itanium ctx fuel sym =
    mangle_symbol ctx (emit_type ctx fuel) sym empty_mangler >>= λ m. ok m.out

unfoldable pub mangle_itanium_params : CxxTypeCtx → ℕ → FnSig → Outcome LayoutError (List ℕ)
unfolding emit_params_v emit_type
mangle_itanium_params ctx fuel sig =
    emit_params_v (emit_type ctx fuel) sig.params false empty_mangler >>= λ m. ok m.out
