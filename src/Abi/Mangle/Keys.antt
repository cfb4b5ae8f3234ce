-- ===== src/Abi/Mangle/Keys.antt =====
-- The substitution table of the mangler (`SubKey` and the table operations of mangle.rs).
use rustcc.Prelude.{
  ℕ, zero, suc, ◌+◌, ◌-◌, Bool, true, false, ◌||◌, ltb, if◌then◌else◌, Option, none, some,
}
use rustcc.Prelude.{List, [], ◌∷◌, ◌++◌, push, ℕ_discrete, Outcome}
use rustcc.Abi.Types.{
  TypeId, NestedName, NameSegment, no_segment, segment, CvQual, RefKind, LayoutError,
}
use rustcc.Abi.Mangle.Digits.{to_base36}

pub data SubKey : Type 0 where
  builtin : TypeId → SubKey
  path : NestedName → SubKey
  cv_qualified : SubKey → CvQual → SubKey
  pointer : SubKey → SubKey
  reference : SubKey → RefKind → SubKey
  array : SubKey → ℕ → SubKey
  opaque : TypeId → SubKey

unfoldable pub SubKey-discrete : Discrete SubKey
unfolding ℕ_discrete
SubKey-discrete = hlevel ℕ_discrete

abbrev pub decided {ℓ} : {A : Type ℓ} → Dec A → Bool
decided (yes _) = true
decided (no _) = false

-- `k == key`.
unfoldable pub same_key : SubKey → SubKey → Bool
unfolding SubKey-discrete
same_key k key = decided (SubKey-discrete k key)

-- The output and the table; the context is an argument of the operations.
pub record Mangler : Type 0 where
  pub out : List ℕ
  pub subs : List SubKey

-- A `&mut self` method of the mangler.
abbrev pub Emit : Type 0
Emit = Mangler → Outcome LayoutError Mangler

abbrev pub put : List ℕ → Mangler → Mangler
put text m = record m { out = m.out ++ text }

-- `iter().position(|k| k == key)`, from index `i` on.
unfoldable pub find_key : ℕ → SubKey → List SubKey → Option ℕ
unfolding same_key
find_key i key [] = none
find_key i key (k ∷ ks) =
    let rest = find_key (i + 1) key ks in if same_key k key then some i else rest

abbrev pub find : SubKey → Mangler → Option ℕ
find key m = find_key 0 key m.subs

unfoldable pub has_key : SubKey → List SubKey → Bool
unfolding same_key
has_key key [] = false
has_key key (k ∷ ks) = same_key k key || has_key key ks

unfoldable pub register : SubKey → Mangler → Mangler
unfolding has_key
register key m = if has_key key m.subs then m else record m { subs = push m.subs key }

-- `S_`, `S0_`, `S1_`, ...
unfoldable pub sequence : ℕ → List ℕ
unfolding to_base36
sequence index = b'S' ∷ ((if ltb 0 index then to_base36 (index - 1) else []) ++ (b'_' ∷ []))

unfoldable pub emit_seq : ℕ → Mangler → Mangler
unfolding sequence
emit_seq index m = put (sequence index) m

-- Slices of a path.
abbrev pub path_length : NestedName → ℕ
path_length no_segment = 0
path_length (segment s rest) = suc (path_length rest)

abbrev pub take_path : ℕ → NestedName → NestedName
take_path zero p = no_segment
take_path (suc n) no_segment = no_segment
take_path (suc n) (segment s rest) = segment s (take_path n rest)

abbrev pub push_segment : NestedName → NameSegment → NestedName
push_segment no_segment s = segment s no_segment
push_segment (segment t rest) s = segment t (push_segment rest s)

abbrev pub prefix_or : Option ℕ → ℕ → Option (ℕ × ℕ) → Option (ℕ × ℕ)
prefix_or (some index) n rest = some (index, n)
prefix_or none n rest = rest

-- The longest prefix of at most `n` segments that stands in the table: its index and its length.
unfoldable pub longest_prefix : Mangler → NestedName → ℕ → Option (ℕ × ℕ)
unfolding find_key
longest_prefix m p zero = none
longest_prefix m p (suc n) =
    let shorter = longest_prefix m p n in
    prefix_or (find (path (take_path (suc n) p)) m) (suc n) shorter

abbrev pub from_prefix : Option (ℕ × ℕ) → Mangler → Mangler × ℕ
from_prefix none m = (m, 0)
from_prefix (some (index, n)) m = (emit_seq index m, n)

-- The first loop of `emit_nested_prefix`: a substitution for the longest known prefix, and how many
-- segments it stands for.
unfoldable pub start_of : NestedName → Mangler → Mangler × ℕ
unfolding longest_prefix emit_seq
start_of p m = from_prefix (longest_prefix m p (path_length p)) m
