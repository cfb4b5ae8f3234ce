-- ===== src/Abi/Mangle/Types.antt =====
-- Types (`emit_type`, `emit_type_body`, `emit_with_possible_cv` and `type_to_key` of mangle.rs).
-- They recur on the types; `fuel` bounds how deep, where the source would exhaust the stack on a
-- type that contains itself.
use rustcc.Prelude.{
  ℕ, zero, suc, ◌++◌, Bool, true, false, not, ◌&&◌, ◌||◌, ltb, if◌then◌else◌, Option,
}
use rustcc.Prelude.{none, some, List, [], ◌∷◌, Outcome, ok, stuck, ◌>>=◌, or_panic}
use rustcc.Abi.Types.{
  TypeId, ClassId, NestedName, CvQual, RefKind, IntWidth, FloatKind, LayoutError,
}
use rustcc.Abi.Types.{
  CxxType, void, bool, int, float, ptr, ref, array, record_type, enum_type, fn, member_ptr,
}
use rustcc.Abi.Context.{CxxTypeCtx, class_of, type_of}
use rustcc.Abi.Mangle.Digits.{decimal}
use rustcc.Abi.Mangle.Keys.{Emit, SubKey, put, register, find, emit_seq, path_length}
use rustcc.Abi.Mangle.Emit.{emit_nested_prefix}

abbrev pub ToKey : Type 0
ToKey = Outcome LayoutError SubKey

abbrev pub is_qualified : CvQual → Bool
is_qualified cv = cv.is_const || cv.is_volatile

unfoldable pub apply_cv_key : SubKey → CvQual → SubKey
apply_cv_key inner cv = if is_qualified cv then SubKey.cv_qualified inner cv else inner

-- The path of a class, `self.ctx.class(class).name`.
abbrev pub class_path : CxxTypeCtx → ClassId → Outcome LayoutError NestedName
class_path ctx class = or_panic (class_of ctx class) >>= λ def. ok def.name

-- The cases of `type_to_key`.
unfoldable pub key_of : CxxTypeCtx → (TypeId → ToKey) → TypeId → CxxType → ToKey
unfolding apply_cv_key
key_of ctx rec ty void = ok (SubKey.builtin ty)
key_of ctx rec ty bool = ok (SubKey.builtin ty)
key_of ctx rec ty (int signed width) = ok (SubKey.builtin ty)
key_of ctx rec ty (float kind) = ok (SubKey.builtin ty)
key_of ctx rec ty (ptr pointee cv) =
    rec pointee >>= λ inner. ok (SubKey.pointer (apply_cv_key inner cv))
key_of ctx rec ty (ref pointee kind cv) =
    rec pointee >>= λ inner. ok (SubKey.reference (apply_cv_key inner cv) kind)
key_of ctx rec ty (array elem len) = rec elem >>= λ inner. ok (SubKey.array inner len)
key_of ctx rec ty (record_type class) = class_path ctx class >>= λ p. ok (SubKey.path p)
key_of ctx rec ty (enum_type name underlying scoped) = ok (SubKey.path name)
key_of ctx rec ty (fn sig) = ok (SubKey.opaque ty)
key_of ctx rec ty (member_ptr class pointee) = ok (SubKey.opaque ty)

unfoldable pub type_to_key : CxxTypeCtx → ℕ → TypeId → ToKey
unfolding key_of
type_to_key ctx zero ty = stuck
type_to_key ctx (suc fuel) ty = do
  t ← or_panic (type_of ctx ty)
  key_of ctx (type_to_key ctx fuel) ty t

-- `V` before `K`.
unfoldable pub cv_letters : CvQual → List ℕ
cv_letters cv =
    (if cv.is_volatile then b'V' ∷ [] else []) ++ (if cv.is_const then b'K' ∷ [] else [])

unfoldable pub int_code : Bool → IntWidth → ℕ
int_code true IntWidth.i8 = b'c'
int_code false IntWidth.i8 = b'h'
int_code true IntWidth.i16 = b's'
int_code false IntWidth.i16 = b't'
int_code true IntWidth.i32 = b'i'
int_code false IntWidth.i32 = b'j'
int_code true IntWidth.i64 = b'x'
int_code false IntWidth.i64 = b'y'
int_code true IntWidth.i128 = b'n'
int_code false IntWidth.i128 = b'o'

unfoldable pub float_code : FloatKind → ℕ
float_code FloatKind.f32 = b'f'
float_code FloatKind.f64 = b'd'
float_code FloatKind.long_double = b'e'

abbrev pub ref_code : RefKind → ℕ
ref_code RefKind.lvalue = b'R'
ref_code RefKind.rvalue = b'O'

-- A class path as a type: `N` and `E` around more than one segment.
unfoldable pub emit_path : (TypeId → Emit) → NestedName → Emit
unfolding emit_nested_prefix
emit_path rec p m =
    if ltb 1 (path_length p)
    then (emit_nested_prefix rec p (put (b'N' ∷ []) m) >>= λ m'. ok (put (b'E' ∷ []) m'))
    else emit_nested_prefix rec p m

unfoldable pub emit_types : (TypeId → Emit) → List TypeId → Emit
emit_types rec [] m = ok m
emit_types rec (t ∷ ts) m = rec t m >>= emit_types rec ts

-- `v` for no parameter, else each, in turn.
abbrev pub is_empty {ℓ} : {A : Type ℓ} → List A → Bool
is_empty [] = true
is_empty (x ∷ xs) = false

unfoldable pub emit_params_v : (TypeId → Emit) → List TypeId → Bool → Emit
unfolding emit_types
emit_params_v rec params variadic m =
    if is_empty params && not variadic
    then ok (put (b'v' ∷ []) m)
    else emit_types rec params m >>= λ m'. ok (if variadic then put (b'z' ∷ []) m' else m')

-- What follows the check of a key: the reference to its entry, or the text and a new entry.
unfoldable pub reference_or : Option ℕ → Emit → Emit
unfolding emit_seq
reference_or (some index) body m = ok (emit_seq index m)
reference_or none body m = body m

unfoldable pub or_back_reference : SubKey → Emit → Emit
unfolding reference_or
or_back_reference key body m = reference_or (find key m) body m

-- `again` stands for the same function one array level down.
unfoldable pub qualified :
    (TypeId → ToKey) → (TypeId → Emit) → (TypeId → Emit) → TypeId → CvQual → CxxType → Emit
unfolding or_back_reference cv_letters
qualified keys rec again inner cv (array elem len) m =
    again elem (put (b'A' ∷ decimal len ++ (b'_' ∷ [])) m)
qualified keys rec again inner cv t m = keys inner >>= λ key.
    or_back_reference (SubKey.cv_qualified key cv)
      (λ n.
        rec inner (put (cv_letters cv) n) >>= λ m'. ok (register (SubKey.cv_qualified key cv) m'))
      m

unfoldable pub emit_with_possible_cv :
    CxxTypeCtx → (TypeId → ToKey) → (TypeId → Emit) → ℕ → CvQual → TypeId → Emit
unfolding qualified
emit_with_possible_cv ctx keys rec zero cv inner m = stuck
emit_with_possible_cv ctx keys rec (suc fuel) cv inner m =
    if not (is_qualified cv) then rec inner m else do
      t ← or_panic (type_of ctx inner)
      qualified keys rec (emit_with_possible_cv ctx keys rec fuel cv) inner cv t m

-- The cv-letters of a member function type.
unfoldable pub member_letters : CxxType → List ℕ
unfolding cv_letters
member_letters (fn sig) = cv_letters sig.cv
member_letters t = []

-- The cases of `emit_type_body`.
unfoldable pub emit_type_body :
    CxxTypeCtx → (TypeId → Emit) → (CvQual → TypeId → Emit) → CxxType → Emit
unfolding int_code float_code emit_path emit_types member_letters
emit_type_body ctx rec with_cv void m = ok (put (b'v' ∷ []) m)
emit_type_body ctx rec with_cv bool m = ok (put (b'b' ∷ []) m)
emit_type_body ctx rec with_cv (int signed width) m = ok (put (int_code signed width ∷ []) m)
emit_type_body ctx rec with_cv (float kind) m = ok (put (float_code kind ∷ []) m)
emit_type_body ctx rec with_cv (ptr pointee cv) m = with_cv cv pointee (put (b'P' ∷ []) m)
emit_type_body ctx rec with_cv (ref pointee kind cv) m =
    with_cv cv pointee (put (ref_code kind ∷ []) m)
emit_type_body ctx rec with_cv (array elem len) m =
    rec elem (put (b'A' ∷ decimal len ++ (b'_' ∷ [])) m)
emit_type_body ctx rec with_cv (record_type class) m = do
  p ← class_path ctx class
  emit_path rec p m
emit_type_body ctx rec with_cv (enum_type name underlying scoped) m = emit_path rec name m
emit_type_body ctx rec with_cv (fn sig) m = do
  m1 ← rec sig.ret (put (b'F' ∷ []) m)
  m2 ← emit_params_v rec sig.params false m1
  ok (put ((if sig.variadic then b'z' ∷ [] else []) ++ (b'E' ∷ [])) m2)
emit_type_body ctx rec with_cv (member_ptr class pointee) m = do
  p ← class_path ctx class
  m1 ← emit_path rec p (put (b'M' ∷ []) m)
  t ← or_panic (type_of ctx pointee)
  rec pointee (put (member_letters t) m1)

-- The end of `emit_type`: a builtin has no entry, a path gets its own from `emit_nested_prefix`.
unfoldable pub emit_keyed : SubKey → Emit → Emit
unfolding or_back_reference register
emit_keyed (SubKey.builtin ty) body m = body m
emit_keyed (SubKey.path p) body m = or_back_reference (SubKey.path p) body m
emit_keyed key body m = or_back_reference key (λ n. body n >>= λ m'. ok (register key m')) m

unfoldable pub emit_type : CxxTypeCtx → ℕ → TypeId → Emit
unfolding type_to_key emit_keyed emit_type_body emit_with_possible_cv
emit_type ctx zero ty m = stuck
emit_type ctx (suc fuel) ty m = do
  key ← type_to_key ctx (suc fuel) ty
  t ← or_panic (type_of ctx ty)
  emit_keyed key
      (emit_type_body ctx (emit_type ctx fuel)
        (emit_with_possible_cv ctx (type_to_key ctx fuel) (emit_type ctx fuel) fuel) t)
      m
