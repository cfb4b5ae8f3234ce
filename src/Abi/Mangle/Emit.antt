-- ===== src/Abi/Mangle/Emit.antt =====
-- Names (`emit_nested_prefix` and `emit_segment` of mangle.rs). `rec` stands for `emit_type`.
use rustcc.Prelude.{ℕ, zero, suc, ◌++◌, [], ◌∷◌, ok, ◌>>=◌}
use rustcc.Abi.Types.{
  TypeId, NestedName, NameSegment, no_segment, segment, TemplateArg, TemplateArgs,
}
use rustcc.Abi.Types.{namespace_seg, class_seg, enum_seg, template_spec, anonymous_namespace}
use rustcc.Abi.Types.{type_arg, integral, template_arg, no_arg, arg}
use rustcc.Abi.Target.{codes}
use rustcc.Abi.Mangle.Digits.{source_name, number}
use rustcc.Abi.Mangle.Keys.{Emit, put, path, register, push_segment, start_of}

unfoldable mutual
  unfolding source_name number register start_of

  -- The second loop of `emit_nested_prefix`: the segments from the one numbered `skip` on, each
  -- followed by the registration of the prefix that it ends; `done` is the prefix behind the cursor.
  pub emit_from : (TypeId → Emit) → ℕ → NestedName → NestedName → Emit
  emit_from rec skip done no_segment m = ok m
  emit_from rec zero done (segment s rest) m = emit_segment rec s m >>= λ m'.
      emit_from rec zero (push_segment done s) rest (register (path (push_segment done s)) m')
  emit_from rec (suc skip) done (segment s rest) m = emit_from rec skip (push_segment done s) rest m

  pub emit_segment : (TypeId → Emit) → NameSegment → Emit
  emit_segment rec (namespace_seg ident) m = ok (put (source_name ident) m)
  emit_segment rec (class_seg ident) m = ok (put (source_name ident) m)
  emit_segment rec (enum_seg ident) m = ok (put (source_name ident) m)
  emit_segment rec anonymous_namespace m = ok (put (codes "12_GLOBAL__N_1") m)
  emit_segment rec (template_spec name args) m =
      emit_args rec args (put (source_name name ++ (b'I' ∷ [])) m) >>= λ m'. ok (put (b'E' ∷ []) m')

  pub emit_args : (TypeId → Emit) → TemplateArgs → Emit
  emit_args rec no_arg m = ok m
  emit_args rec (arg a as_) m = emit_arg rec a m >>= emit_args rec as_

  pub emit_arg : (TypeId → Emit) → TemplateArg → Emit
  emit_arg rec (type_arg ty) m = rec ty m
  emit_arg rec (integral value ty) m =
      rec ty (put (b'L' ∷ []) m) >>= λ m'. ok (put (number value ++ (b'E' ∷ [])) m')
  emit_arg rec (template_arg nested) m =
      emit_from rec (start_of nested m).1 no_segment nested (start_of nested m).0

unfoldable pub emit_nested_prefix : (TypeId → Emit) → NestedName → Emit
unfolding emit_from start_of
emit_nested_prefix rec p m = let (m', skip) = start_of p m in emit_from rec skip no_segment p m'
