-- ===== src/Abi/Msvc/State.antt =====
-- The working state of the MSVC engine and its steps on the cursor (layout_msvc.rs).
use rustcc.Prelude.{
  ℕ, ◌+◌, ◌-◌, ◌%◌, max, Bool, false, ltb, leb, ◌==◌, if◌then◌else◌, Option, none, some,
}
use rustcc.Prelude.{List, [], Outcome, ok, ◌>>=◌, checked}
use rustcc.Abi.Types.{ClassId, LayoutError}

pub record MsvcState : Type 0 where
  pub size : ℕ
  pub align : ℕ
  pub cursor : ℕ
  pub has_vptr : Bool
  pub has_vbptr : Bool
  pub field_offsets : List ℕ
  pub field_bit_offsets : List ℕ
  pub field_bit_widths : List ℕ
  pub base_offsets : List (ClassId × ℕ)
  pub virtual_base_offsets : List (ClassId × ℕ)
  pub empty_subobjects : List (ClassId × ℕ)
  pub pragma_pack : Option ℕ

abbrev pub MsvcStep : Type 0
MsvcStep = Outcome LayoutError MsvcState

-- `State::new`.
unfoldable pub initial : Option ℕ → MsvcState
initial pack = record {
  size = 0;
  align = 1;
  cursor = 0;
  has_vptr = false;
  has_vbptr = false;
  field_offsets = [];
  field_bit_offsets = [];
  field_bit_widths = [];
  base_offsets = [];
  virtual_base_offsets = [];
  empty_subobjects = [];
  pragma_pack = pack;
}

unfoldable pub cap : Option ℕ → ℕ → ℕ
cap none natural = natural
cap (some n) natural = if ltb n natural then n else natural

unfoldable pub bump_align : ℕ → MsvcState → MsvcState
unfolding cap
bump_align a st = record st {
  align = if ltb st.align (cap st.pragma_pack a) then cap st.pragma_pack a else st.align;
}

-- `value` up to a multiple of `align`.
unfoldable pub round_up : ℕ → ℕ → Outcome LayoutError ℕ
round_up value align =
    if leb align 1
    then ok value
    else if value % align == 0
    then ok value
    else checked (value + (align - value % align))

-- The cursor at a position, and the size at least there.
abbrev pub moved : ℕ → MsvcState → MsvcState
moved c st = record st { cursor = c; size = max st.size c }

unfoldable pub round_up_cursor : ℕ → MsvcState → MsvcStep
unfolding cap round_up
round_up_cursor a st = do c ← round_up st.cursor (cap st.pragma_pack a); ok (moved c st)

-- `st.cursor += n`.
unfoldable pub advance : ℕ → MsvcState → MsvcStep
advance n st = do c ← checked (st.cursor + n); ok (moved c st)
