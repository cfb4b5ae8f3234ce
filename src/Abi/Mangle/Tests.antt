-- ===== src/Abi/Mangle/Tests.antt =====
-- Runs of the mangler on concrete symbols, and the theorems applied to them.
use rustcc.Prelude.{ℕ, ◌≡◌, refl, true, false, none, some, List, [], ◌∷◌, ◌++◌, All, ok}
use rustcc.Abi.Types.{
  ClassDef, CvQual, CxxType, FnSig, IntWidth, RefKind, NestedName, segment, no_segment,
}
use rustcc.Abi.Types.{namespace_seg, class_seg, MethodName}
use rustcc.Abi.Target.{codes}
use rustcc.Abi.Context.{CxxTypeCtx}
use rustcc.Abi.Mangle.Keys.{SubKey, SubKey-discrete, Mangler, find, emit_seq}
use rustcc.Abi.Mangle.Types.{emit_type}
use rustcc.Abi.Mangle.Table.{Grows}
use rustcc.Abi.Mangle.Again.{emit_type-again}
use rustcc.Abi.Mangle.Grows.Symbols.{mangle_symbol-Grows}
use rustcc.Abi.Mangle.Symbols.{Symbol, mangle_itanium, mangle_symbol, empty_mangler}
use rustcc.Abi.Mangle.Base36.{value, value-to_base36, IsDigit}
use rustcc.Abi.Mangle.Digits.{to_base36, source_name}
use rustcc.Abi.Mangle.Reader.{read_name, read_name-source_name}
use rustcc.Abi.Mangle.ClassNames.{OfClass, read_class, mangle_itanium-read_class}
use rustcc.Abi.Samples.{empty_ctx, struct}

abbrev const : CvQual
const = record { is_const = true; is_volatile = false }

abbrev plain : CvQual
plain = record { is_const = false; is_volatile = false }

-- `ns::Widget`.
abbrev widget : ClassDef
widget = record (struct [] []) {
  name = segment (namespace_seg (codes "ns")) (segment (class_seg (codes "Widget")) no_segment);
}

-- The types: 0 `char`, 1 `const char *`, 2 `ns::Widget`, 3 `ns::Widget &`, 4 `int`, 5 `int[3]`,
-- 6 `const int (*)[3]`, 7 `const int (&)[3]`.
abbrev text_ctx : CxxTypeCtx
text_ctx = record empty_ctx {
  classes = widget ∷ [];
  types =
      CxxType.int true IntWidth.i8
      ∷ CxxType.ptr 0 const
      ∷ CxxType.record_type 0
      ∷ CxxType.ref 2 RefKind.lvalue plain
      ∷ CxxType.int true IntWidth.i32
      ∷ CxxType.array 4 3
      ∷ CxxType.ptr 5 const
      ∷ CxxType.ref 5 RefKind.lvalue const
      ∷ [];
}

abbrev sig : List ℕ → FnSig
sig params = record {
  params = params;
  ret = 0;
  cv = plain;
  ref_q = none;
  variadic = false;
  noexcept = false;
}

run1 :
    mangle_itanium text_ctx 9 (Symbol.function no_segment (codes "f") (sig (1 ∷ 1 ∷ [])))
    ≡ ok (codes "_Z1fPKcS0_")
unfolding mangle_itanium empty_ctx SubKey-discrete
run1 = refl

run2 :
    mangle_itanium text_ctx 9 (Symbol.method 0 (MethodName.ident (codes "set")) (sig (3 ∷ 2 ∷ [])))
    ≡ ok (codes "_ZN2ns6Widget3setERS0_S0_")
unfolding mangle_itanium empty_ctx SubKey-discrete
run2 = refl

-- clang writes `_Z1fPA3_KiRS0_`.
run3 :
    mangle_itanium text_ctx 9 (Symbol.function no_segment (codes "f") (sig (6 ∷ 7 ∷ [])))
    ≡ ok (codes "_Z1fPA3_KiRA3_S_")
unfolding mangle_itanium empty_ctx SubKey-discrete
run3 = refl

value-to_base36_example : (value 36 0 (to_base36 1295) ≡ 1295) × All (IsDigit 36) (to_base36 1295)
value-to_base36_example = value-to_base36 1295

read_name-source_name_example :
    read_name (source_name (codes "Widget") ++ codes "3set") ≡ some (codes "Widget", codes "3set")
read_name-source_name_example = read_name-source_name (codes "Widget") (codes "3set") refl

mangle_itanium-read_class_example :
    (text : List ℕ) × (mangle_itanium text_ctx 1 (Symbol.vtable 0) ≡ ok text)
    × (read_class text ≡ some (codes "ns" ∷ codes "Widget" ∷ []))
mangle_itanium-read_class_example =
    mangle_itanium-read_class text_ctx 1 0 widget refl (refl, (refl, tt)) (λ e. cc e)
      (Symbol.vtable 0) OfClass.of_vtable

-- `const char *` twice, with `ns::Widget &` in between.
abbrev text_key : SubKey
text_key = SubKey.pointer (SubKey.cv_qualified (SubKey.builtin 0) const)

abbrev after_text : Mangler
after_text = record {
  out = codes "PKc";
  subs = SubKey.cv_qualified (SubKey.builtin 0) const ∷ text_key ∷ [];
}

abbrev scope : NestedName
scope = segment (namespace_seg (codes "ns")) no_segment

abbrev after_widget : Mangler
after_widget = record {
  out = codes "PKcRN2ns6WidgetE";
  subs =
      SubKey.cv_qualified (SubKey.builtin 0) const
      ∷ text_key
      ∷ SubKey.path scope
      ∷ SubKey.path widget.name
      ∷ SubKey.reference (SubKey.path widget.name) RefKind.lvalue
      ∷ [];
}

emit_type-again_example :
    (i : ℕ) × (find text_key after_widget ≡ some i)
    × (emit_type text_ctx 9 1 after_widget ≡ ok (emit_seq i after_widget))
unfolding emit_type empty_ctx SubKey-discrete
emit_type-again_example =
    emit_type-again text_ctx 8 1 (3 ∷ []) text_key empty_mangler after_text after_widget refl tt
      refl refl

mangle_symbol-Grows_example : Grows empty_mangler (record {
  out = codes "_ZTVN2ns6WidgetE";
  subs = SubKey.path scope ∷ SubKey.path widget.name ∷ [];
})
unfolding mangle_symbol emit_type empty_ctx SubKey-discrete
mangle_symbol-Grows_example =
    mangle_symbol-Grows text_ctx 1 (Symbol.vtable 0) empty_mangler
      (record {
        out = codes "_ZTVN2ns6WidgetE";
        subs = SubKey.path scope ∷ SubKey.path widget.name ∷ [];
      })
      refl
