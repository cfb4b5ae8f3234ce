-- ===== src/Abi/Mangle/Paths.antt =====
-- The symbols of a class that has a path of plain names (`emit_class_as_type` of mangle.rs).
use rustcc.Prelude.{ℕ, zero, suc, ◌≡◌, refl, sym, ◌∙◌, ap, ltb}
use rustcc.Prelude.{if◌then◌else◌, Bool-cases, inl, inr, none, List, [], ◌∷◌, ◌++◌}
use rustcc.Prelude.{ok}
use mathlib.Core.List.{append_assoc, append-nil}
use rustcc.Abi.Types.{TypeId, Ident, NestedName, no_segment, segment}
use rustcc.Abi.Types.{namespace_seg, class_seg, enum_seg, template_spec, anonymous_namespace}
use rustcc.Abi.Mangle.Digits.{source_name}
use rustcc.Abi.Mangle.Keys.{
  Emit, Mangler, SubKey, put, register, has_key, longest_prefix, from_prefix, start_of, path_length,
  push_segment,
}
use rustcc.Abi.Mangle.Emit.{emit_from, emit_nested_prefix}
use rustcc.Abi.Mangle.Types.{emit_path}
use rustcc.Abi.Mangle.Reader.{IsName}

-- Namespaces, classes and enums with proper names; neither templates nor anonymous namespaces.
abbrev pub IsPlain : NestedName → Type 0
IsPlain no_segment = Unit
IsPlain (segment (namespace_seg id) rest) = IsName id × IsPlain rest
IsPlain (segment (class_seg id) rest) = IsName id × IsPlain rest
IsPlain (segment (enum_seg id) rest) = IsName id × IsPlain rest
IsPlain (segment (template_spec id args) rest) = ⊥
IsPlain (segment anonymous_namespace rest) = ⊥

abbrev pub identifiers : NestedName → List Ident
identifiers no_segment = []
identifiers (segment (namespace_seg id) rest) = id ∷ identifiers rest
identifiers (segment (class_seg id) rest) = id ∷ identifiers rest
identifiers (segment (enum_seg id) rest) = id ∷ identifiers rest
identifiers (segment (template_spec id args) rest) = id ∷ identifiers rest
identifiers (segment anonymous_namespace rest) = identifiers rest

abbrev pub names_text : List Ident → List ℕ
names_text [] = []
names_text (id ∷ ids) = source_name id ++ names_text ids

register-out : (k : SubKey) (m : Mangler) → (register k m).out ≡ m.out
unfolding register
register-out k m = elim (Bool-cases (has_key k m.subs)) [ inl y ↦ rw y refl | inr n ↦ rw n refl ]

-- Texts after each other, from a state.
abbrev Writes : Emit → List ℕ → Mangler → Type 0
Writes e text m = (m' : Mangler) × (e m ≡ ok m') × (m'.out ≡ m.out ++ text)

-- A name, the registration of a key, and what follows.
after_name :
    (id : Ident) (k : SubKey) (e : Emit) (text : List ℕ) (m : Mangler)
    → Writes e text (register k (put (source_name id) m))
    → (m' : Mangler) × (e (register k (put (source_name id) m)) ≡ ok m')
      × (m'.out ≡ m.out ++ (source_name id ++ text))
after_name id k e text m (m', f, g) = (
  m',
  f,
  g
      ∙ ap (λ o. o ++ text) (register-out k (put (source_name id) m))
      ∙ append_assoc m.out (source_name id) text,
)

emit_from-names :
    (rec : TypeId → Emit) (p done : NestedName) (m : Mangler)
    → IsPlain p
    → Writes (emit_from rec zero done p) (names_text (identifiers p)) m
unfolding emit_from
emit_from-names rec no_segment done m h = (m, refl, sym (append-nil m.out))
emit_from-names rec (segment (namespace_seg id) rest) done m h =
    after_name id (SubKey.path (push_segment done (namespace_seg id)))
      (emit_from rec zero (push_segment done (namespace_seg id)) rest) _ m
      (emit_from-names rec rest (push_segment done (namespace_seg id)) _ h.1)
emit_from-names rec (segment (class_seg id) rest) done m h =
    after_name id (SubKey.path (push_segment done (class_seg id)))
      (emit_from rec zero (push_segment done (class_seg id)) rest) _ m
      (emit_from-names rec rest (push_segment done (class_seg id)) _ h.1)
emit_from-names rec (segment (enum_seg id) rest) done m h =
    after_name id (SubKey.path (push_segment done (enum_seg id)))
      (emit_from rec zero (push_segment done (enum_seg id)) rest) _ m
      (emit_from-names rec rest (push_segment done (enum_seg id)) _ h.1)
emit_from-names rec (segment (template_spec id args) rest) done m h = elim h [ ]
emit_from-names rec (segment anonymous_namespace rest) done m h = elim h [ ]

-- An empty table knows no prefix.
longest_prefix-fresh :
    (o : List ℕ) (p : NestedName) (n : ℕ)
    → longest_prefix (record { out = o; subs = [] }) p n ≡ none
unfolding longest_prefix
longest_prefix-fresh o p zero = refl
longest_prefix-fresh o p (suc n) = longest_prefix-fresh o p n

emit_nested_prefix-names :
    (rec : TypeId → Emit) (p : NestedName) (o : List ℕ)
    → IsPlain p
    → Writes (emit_nested_prefix rec p) (names_text (identifiers p)) (record { out = o; subs = [] })
unfolding emit_nested_prefix start_of
emit_nested_prefix-names rec p o h =
    let fresh : Mangler = record { out = o; subs = [] } in
    let (m, e, f) = emit_from-names rec p no_segment fresh h in
    (
      m,
      ap (λ r. emit_from rec (from_prefix r fresh).1 no_segment p (from_prefix r fresh).0)
            (longest_prefix-fresh o p (path_length p))
          ∙ e,
      f,
    )

-- What `emit_class_as_type` writes first.
abbrev pub path_text : NestedName → List ℕ
path_text p =
    if ltb 1 (path_length p)
    then b'N' ∷ (names_text (identifiers p) ++ (b'E' ∷ []))
    else names_text (identifiers p)

pub emit_path-names :
    (rec : TypeId → Emit) (p : NestedName) (o : List ℕ)
    → IsPlain p
    → Writes (emit_path rec p) (path_text p) (record { out = o; subs = [] })
unfolding emit_path
emit_path-names rec p o h = elim (Bool-cases (ltb 1 (path_length p))) [
  | inl y ↦
      let (m, e, f) = emit_nested_prefix-names rec p (o ++ (b'N' ∷ [])) h in
      (
        put (b'E' ∷ []) m,
        rw y (rw e refl),
        rw y (
            ap (λ t. t ++ (b'E' ∷ [])) f
            ∙ append_assoc (o ++ (b'N' ∷ [])) (names_text (identifiers p)) (b'E' ∷ [])
            ∙ append_assoc o (b'N' ∷ []) (names_text (identifiers p) ++ (b'E' ∷ []))),
      )
  | inr n ↦ rw n (emit_nested_prefix-names rec p o h)
]
