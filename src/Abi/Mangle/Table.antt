-- ===== src/Abi/Mangle/Table.antt =====
-- How the state of the mangler develops (`register`, `find`, `emit_seq` of mangle.rs).
use rustcc.Prelude.{ℕ, ◌+◌, ◌≡◌, refl, sym, ◌∙◌, ap, arith, true, false}
use rustcc.Prelude.{Bool-cases, inl, inr, some, List, [], ◌∷◌, ◌++◌, push}
use mathlib.Core.List.{append_assoc, append-nil}
use rustcc.Abi.Mangle.Keys.{
  SubKey, SubKey-discrete, decided, same_key, Mangler, put, find, find_key, has_key, register,
  emit_seq, sequence,
}

-- No key stands twice.
abbrev pub Distinct : List SubKey → Type 0
Distinct [] = Unit
Distinct (k ∷ ks) = (has_key k ks ≡ false) × Distinct ks

-- Text is added behind the text, keys behind the keys, and a table without repeats stays one.
pub record Grows (m n : Mangler) : Type 0 where
  pub text : (t : List ℕ) × (n.out ≡ m.out ++ t)
  pub keys : (ks : List SubKey) × (n.subs ≡ m.subs ++ ks)
  pub distinct : Distinct m.subs → Distinct n.subs

pub Grows-refl : (m : Mangler) → Grows m m
Grows-refl m = record {
  text = ([], sym (append-nil m.out));
  keys = ([], sym (append-nil m.subs));
  distinct = λ d. d;
}

pub Grows-trans : (l m n : Mangler) → Grows l m → Grows m n → Grows l n
Grows-trans l m n g h = record {
  text = (
    g.text.0 ++ h.text.0,
    h.text.1 ∙ ap (λ o. o ++ h.text.0) g.text.1 ∙ append_assoc l.out g.text.0 h.text.0,
  );
  keys = (
    g.keys.0 ++ h.keys.0,
    h.keys.1 ∙ ap (λ o. o ++ h.keys.0) g.keys.1 ∙ append_assoc l.subs g.keys.0 h.keys.0,
  );
  distinct = λ d. h.distinct (g.distinct d);
}

pub Grows-put : (t : List ℕ) (m : Mangler) → Grows m (put t m)
Grows-put t m = record { text = (t, refl); keys = ([], sym (append-nil m.subs)); distinct = λ d. d }

pub Grows-emit_seq : (i : ℕ) (m : Mangler) → Grows m (emit_seq i m)
unfolding emit_seq
Grows-emit_seq i m = Grows-put (sequence i) m

decided-no {ℓ} : {A : Type ℓ} (d : Dec A) → decided d ≡ false → ¬ A
decided-no (yes a) h = absurd (ground arith)
decided-no (no ne) h = ne

decided-yes {ℓ} : {A : Type ℓ} (d : Dec A) → decided d ≡ true → A
decided-yes (yes a) h = a
decided-yes (no ne) h = absurd (ground arith)

same_key-ne : (k key : SubKey) → same_key k key ≡ false → ¬ (k ≡ key)
unfolding same_key
same_key-ne k key h = decided-no (SubKey-discrete k key) h

same_key-eq : (k key : SubKey) → same_key k key ≡ true → k ≡ key
unfolding same_key
same_key-eq k key h = decided-yes (SubKey-discrete k key) h

same_key_refl : (key : SubKey) → same_key key key ≡ true
same_key_refl key = elim (Bool-cases (same_key key key)) [
  | inl y ↦ y
  | inr n ↦ absurd (same_key-ne key key n refl)
]

has_key-push :
    (k key : SubKey) (ks : List SubKey)
    → has_key k ks ≡ false
    → same_key key k ≡ false
    → has_key k (push ks key) ≡ false
unfolding has_key
has_key-push k key [] h e = rw e refl
has_key-push k key (j ∷ js) h e = elim (Bool-cases (same_key j k)) [
  | inl y ↦ cc
  | inr n ↦ rw n (has_key-push k key js (rw n at h) e)
]

same_key-sym : (k key : SubKey) → same_key k key ≡ false → same_key key k ≡ false
same_key-sym k key h = elim (Bool-cases (same_key key k)) [
  | inl y ↦ absurd (same_key-ne k key h (sym (same_key-eq key k y)))
  | inr n ↦ n
]

Distinct-push :
    (key : SubKey) (ks : List SubKey)
    → has_key key ks ≡ false
    → Distinct ks
    → Distinct (push ks key)
unfolding has_key
Distinct-push key [] h d = (refl, tt)
Distinct-push key (k ∷ ks) h d = elim (Bool-cases (same_key k key)) [
  | inl y ↦ absurd (ground (arith, y, h))
  | inr n ↦ (has_key-push k key ks d.0 (same_key-sym k key n), Distinct-push key ks (rw n at h) d.1)
]

pub Grows-register : (key : SubKey) (m : Mangler) → Grows m (register key m)
unfolding register
Grows-register key m = elim (Bool-cases (has_key key m.subs)) [
  | inl y ↦ rw y (Grows-refl m)
  | inr n ↦ rw n (record {
    text = ([], sym (append-nil m.out));
    keys = (key ∷ [], refl);
    distinct = Distinct-push key m.subs n;
  })
]

-- A key that is found stays found, at the same index.
find_key-append :
    (i : ℕ) (key : SubKey) (ks js : List SubKey) (n : ℕ)
    → find_key i key ks ≡ some n
    → find_key i key (ks ++ js) ≡ some n
unfolding find_key
find_key-append i key [] js n h = cc
find_key-append i key (k ∷ ks) js n h = elim (Bool-cases (same_key k key)) [
  | inl y ↦ rw y (rw y at h)
  | inr e ↦ rw e (find_key-append (i + 1) key ks js n (rw e at h))
]

pub find-Grows :
    (key : SubKey) (m n : Mangler) (i : ℕ) → Grows m n → find key m ≡ some i → find key n ≡ some i
find-Grows key m n i g h = ap (find_key 0 key) g.keys.1 ∙ find_key-append 0 key m.subs g.keys.0 i h

has_key-found :
    (i : ℕ) (key : SubKey) (ks : List SubKey)
    → has_key key ks ≡ true
    → (n : ℕ) × (find_key i key ks ≡ some n)
unfolding find_key has_key
has_key-found i key [] h = absurd (ground arith)
has_key-found i key (k ∷ ks) h = elim (Bool-cases (same_key k key)) [
  | inl y ↦ rw y (i, refl)
  | inr e ↦ rw e (has_key-found (i + 1) key ks (rw e at h))
]

has_key-push_self : (key : SubKey) (ks : List SubKey) → has_key key (push ks key) ≡ true
unfolding has_key
has_key-push_self key [] = rw (same_key_refl key) refl
has_key-push_self key (k ∷ ks) = elim (Bool-cases (same_key k key)) [
  | inl y ↦ rw y refl
  | inr n ↦ rw n (has_key-push_self key ks)
]

-- A registered key is found.
pub find-register : (key : SubKey) (m : Mangler) → (i : ℕ) × (find key (register key m) ≡ some i)
unfolding register
find-register key m = elim (Bool-cases (has_key key m.subs)) [
  | inl y ↦ rw y (has_key-found 0 key m.subs y)
  | inr n ↦ rw n (has_key-found 0 key (push m.subs key) (has_key-push_self key m.subs))
]
