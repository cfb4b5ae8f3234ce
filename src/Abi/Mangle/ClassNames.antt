-- ===== src/Abi/Mangle/ClassNames.antt =====
-- The symbols that belong to a class: its virtual table, its type information and the name of that
-- (`mangle_symbol` and `emit_class_as_type` of mangle.rs), read back as the names of the class.
use rustcc.Prelude.{
  ℕ, zero, suc, ◌≤◌, ◌<◌, ◌≡◌, ◌≢◌, refl, sym, ◌∙◌, ap, arith, Bool, true, false, ltb,
}
use rustcc.Prelude.{
  ◌==◌, if◌then◌else◌, Bool-cases, inl, inr, Option, none, some, List, [], ◌∷◌, ◌++◌,
}
use rustcc.Prelude.{length, length-append, All, ok}
use mathlib.Core.List.{append_assoc, append-nil}
use mathlib.Core.Path.{subst}
use rustcc.Abi.Types.{ClassId, ClassDef, Ident, NestedName, no_segment, segment}
use rustcc.Abi.Types.{namespace_seg, class_seg, enum_seg, template_spec, anonymous_namespace}
use rustcc.Abi.Target.{codes}
use rustcc.Abi.Context.{CxxTypeCtx, class_of}
use rustcc.Abi.Mangle.Digits.{source_name, to_base, decimal}
use rustcc.Abi.Mangle.Base36.{IsDigit, value, value-to_base}
use rustcc.Abi.Mangle.Keys.{path_length}
use rustcc.Abi.Mangle.Types.{emit_type}
use rustcc.Abi.Mangle.Symbols.{Symbol, mangle_symbol, mangle_itanium}
use rustcc.Abi.Mangle.Reader.{IsName, is_digit, read_name, read_name-source_name}
use rustcc.Abi.Mangle.Paths.{IsPlain, identifiers, names_text, path_text, emit_path-names}

-- The names up to the end mark, or to the end of the text.
abbrev with_first : Ident → Option (List Ident) → Option (List Ident)
with_first id none = none
with_first id (some ids) = some (id ∷ ids)

abbrev read_next : (List ℕ → Option (List Ident)) → Option (Ident × List ℕ) → Option (List Ident)
read_next rest none = none
read_next rest (some (id, tail)) = with_first id (rest tail)

unfoldable pub read_names : ℕ → List ℕ → Option (List Ident)
unfolding read_name
read_names zero cs = none
read_names (suc fuel) [] = some []
read_names (suc fuel) (c ∷ cs) =
    let rest = read_next (read_names fuel) (read_name (c ∷ cs)) in
    if c == b'E' then some [] else rest

-- Names between `N` and `E`, or a single one.
unfoldable pub read_path : List ℕ → Option (List Ident)
unfolding read_names
read_path [] = some []
read_path (c ∷ cs) =
    if c == b'N' then read_names (length cs) cs else read_names (suc (length (c ∷ cs))) (c ∷ cs)

-- The names of a class, behind a mark of four characters.
unfoldable pub read_class : List ℕ → Option (List Ident)
unfolding read_path
read_class (_ ∷ _ ∷ _ ∷ _ ∷ cs) = read_path cs
read_class _ = none

-- A text that starts with a digit.
abbrev pub StartsNumber : List ℕ → Type 0
StartsNumber text = (c : ℕ) × (cs : List ℕ) × (text ≡ c ∷ cs) × (is_digit c ≡ true)

pub digits-StartsNumber :
    (ds rest : List ℕ) (n : ℕ)
    → value 10 0 ds ≡ n
    → 0 < n
    → All (IsDigit 10) ds
    → StartsNumber (ds ++ rest)
digits-StartsNumber [] rest n e pos h = absurd (omega arith)
digits-StartsNumber (d ∷ ds) rest n e pos (inl (lo, hi, _), h) = (d, ds ++ rest, refl, ground arith)
digits-StartsNumber (d ∷ ds) rest n e pos (inr (lo, hi), h) = absurd (omega arith)

IsName-length : (id : Ident) → IsName id → 0 < length id
IsName-length [] h = elim h [ ]
IsName-length (c ∷ cs) h = omega arith

source_name-StartsNumber : (id rest : List ℕ) → IsName id → StartsNumber (source_name id ++ rest)
unfolding source_name decimal
source_name-StartsNumber id rest h =
    let (exact, ds) = value-to_base 10 (omega arith) (length id) in
    let (c, cs, e, d) =
      digits-StartsNumber (to_base 10 (length id)) (id ++ rest) (length id) exact
        (IsName-length id h) ds in
    (c, cs, append_assoc (to_base 10 (length id)) id rest ∙ e, d)

read_names-number :
    (n : ℕ) (text : List ℕ)
    → StartsNumber text
    → read_names (suc n) text ≡ read_next (read_names n) (read_name text)
unfolding read_names
read_names-number n text (c, cs, e, d) =
    let mark : (c == b'E') ≡ false = ground arith in
    subst (λ t. read_names (suc n) t ≡ read_next (read_names n) (read_name t)) (sym e)
      (rw mark refl)

abbrev end_mark : Bool → List ℕ
end_mark true = b'E' ∷ []
end_mark false = []

read_names-names_text :
    (ids : List Ident) (e : Bool) (fuel : ℕ)
    → length ids < fuel
    → All IsName ids
    → read_names fuel (names_text ids ++ end_mark e) ≡ some ids
unfolding read_names
read_names-names_text ids e zero lt h = absurd (omega arith)
read_names-names_text [] true (suc fuel) lt h = refl
read_names-names_text [] false (suc fuel) lt h = refl
read_names-names_text (id ∷ ids) e (suc fuel) lt (name, names) =
    ap (read_names (suc fuel)) (append_assoc (source_name id) (names_text ids) (end_mark e))
    ∙ read_names-number fuel (source_name id ++ (names_text ids ++ end_mark e))
        (source_name-StartsNumber id (names_text ids ++ end_mark e) name)
    ∙ ap (read_next (read_names fuel))
        (read_name-source_name id (names_text ids ++ end_mark e) name)
    ∙ ap (with_first id) (read_names-names_text ids e fuel (omega arith) names)

source_name-length : (id : Ident) → IsName id → 0 < length (source_name id)
unfolding source_name
source_name-length id h = omega (arith, length-append (decimal (length id)) id, IsName-length id h)

names_text-length : (ids : List Ident) → All IsName ids → length ids ≤ length (names_text ids)
names_text-length [] h = omega arith
names_text-length (id ∷ ids) (name, names) =
    let more : 0 < length (source_name id) = source_name-length id name in
    omega (arith, length-append (source_name id) (names_text ids), names_text-length ids names)

identifiers-IsName : (p : NestedName) → IsPlain p → All IsName (identifiers p)
identifiers-IsName no_segment h = tt
identifiers-IsName (segment (namespace_seg id) rest) h = (h.0, identifiers-IsName rest h.1)
identifiers-IsName (segment (class_seg id) rest) h = (h.0, identifiers-IsName rest h.1)
identifiers-IsName (segment (enum_seg id) rest) h = (h.0, identifiers-IsName rest h.1)
identifiers-IsName (segment (template_spec id args) rest) h = elim h [ ]
identifiers-IsName (segment anonymous_namespace rest) h = elim h [ ]

read_path-number :
    (text : List ℕ) → StartsNumber text → read_path text ≡ read_names (suc (length text)) text
unfolding read_path
read_path-number text (c, cs, e, d) =
    let mark : (c == b'N') ≡ false = ground arith in
    subst (λ t. read_path t ≡ read_names (suc (length t)) t) (sym e) (rw mark refl)

read_path-names_text : (ids : List Ident) → All IsName ids → read_path (names_text ids) ≡ some ids
unfolding read_path
read_path-names_text [] h = refl
read_path-names_text (id ∷ ids) h =
    read_path-number (names_text (id ∷ ids)) (source_name-StartsNumber id (names_text ids) h.0)
    ∙ ap (read_names (suc (length (names_text (id ∷ ids)))))
        (sym (append-nil (names_text (id ∷ ids))))
    ∙ read_names-names_text (id ∷ ids) false (suc (length (names_text (id ∷ ids))))
        (omega (arith, names_text-length (id ∷ ids) h)) h

read_path-path_text : (p : NestedName) → IsPlain p → read_path (path_text p) ≡ some (identifiers p)
unfolding read_path
read_path-path_text p h =
    let names = identifiers-IsName p h in
    let text : List ℕ = names_text (identifiers p) in
    elim (Bool-cases (ltb 1 (path_length p))) [
      | inl y ↦ rw y (
          read_names-names_text (identifiers p) true (length (text ++ (b'E' ∷ [])))
            (omega (arith, length-append text (b'E' ∷ []), names_text-length (identifiers p) names))
            names)
      | inr n ↦ rw n (read_path-names_text (identifiers p) names)
    ]

-- The path does not begin with the namespace `std`.
abbrev pub IsOutsideStd : NestedName → Type 0
IsOutsideStd (segment (namespace_seg id) rest) = id ≢ codes "std"
IsOutsideStd p = Unit

-- The symbols that name a class and nothing else.
pub data OfClass (class : ClassId) : Symbol → Type 0 where
  of_vtable : OfClass class (Symbol.vtable class)
  of_type_info : OfClass class (Symbol.type_info class)
  of_type_info_name : OfClass class (Symbol.type_info_name class)

module _ (ctx : CxxTypeCtx) (fuel : ℕ) (class : ClassId) (def : ClassDef)
    (found : class_of ctx class ≡ some def) (plain : IsPlain def.name)
    (outside : IsOutsideStd def.name) where
  -- The virtual table, the type information and the type information name of a class whose path has
  -- neither templates nor anonymous namespaces and does not begin with `std`: the mangler returns a text, with any fuel, and from
  -- the text behind its mark the names of the path read back in order.
  pub mangle_itanium-read_class :
      (sym : Symbol)
      → OfClass class sym
      → (text : List ℕ) × (mangle_itanium ctx fuel sym ≡ ok text)
        × (read_class text ≡ some (identifiers def.name))
  unfolding mangle_itanium mangle_symbol read_class
  mangle_itanium-read_class sym of_vtable =
      let (m, e, f) = emit_path-names (emit_type ctx fuel) def.name (codes "_ZTV") plain in
      (m.out, rw (found, e) refl, ap read_class f ∙ read_path-path_text def.name plain)
  mangle_itanium-read_class sym of_type_info =
      let (m, e, f) = emit_path-names (emit_type ctx fuel) def.name (codes "_ZTI") plain in
      (m.out, rw (found, e) refl, ap read_class f ∙ read_path-path_text def.name plain)
  mangle_itanium-read_class sym of_type_info_name =
      let (m, e, f) = emit_path-names (emit_type ctx fuel) def.name (codes "_ZTS") plain in
      (m.out, rw (found, e) refl, ap read_class f ∙ read_path-path_text def.name plain)
