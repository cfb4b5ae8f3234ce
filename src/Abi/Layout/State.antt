-- ===== src/Abi/Layout/State.antt =====
-- The result and the working state of the layout engine, and its arithmetic (layout.rs).
use rustcc.Prelude.{ℕ, ◌+◌, ◌-◌, ◌*◌, ◌/◌, Bool, false, leb, if◌then◌else◌}
use rustcc.Prelude.{Option, none, List, [], Outcome, ok, ◌>>=◌, checked}
use rustcc.Abi.Types.{ClassId}

pub data HfaElem : Type 0 where
  f32 f64 : HfaElem

pub record HfaKind : Type 0 where
  pub elem : HfaElem
  pub count : ℕ

pub record RecordLayout : Type 0 where
  pub size_bytes : ℕ
  pub align_bytes : ℕ
  pub data_size_bytes : ℕ
  pub nv_size_bytes : ℕ
  pub nv_align_bytes : ℕ
  pub has_vptr : Bool
  pub field_offsets : List ℕ
  pub field_bit_offsets : List ℕ
  pub field_bit_widths : List ℕ
  pub base_offsets : List (ClassId × ℕ)
  pub virtual_base_offsets : List (ClassId × ℕ)
  pub empty_subobjects : List (ClassId × ℕ)
  pub hfa_kind : Option HfaKind

-- An open allocation unit of bit-fields.
pub record BitfieldAu : Type 0 where
  pub offset : ℕ
  pub size_bytes : ℕ
  pub used_bits : ℕ

pub record LayoutState : Type 0 where
  pub size : ℕ
  pub align : ℕ
  pub dsize : ℕ
  pub has_vptr : Bool
  pub field_offsets : List ℕ
  pub field_bit_offsets : List ℕ
  pub field_bit_widths : List ℕ
  pub base_offsets : List (ClassId × ℕ)
  pub virtual_base_offsets : List (ClassId × ℕ)
  pub empty_subobjects : List (ClassId × ℕ)
  pub bitfield_au : Option BitfieldAu

unfoldable pub new : LayoutState
new = record {
  size = 0;
  align = 1;
  dsize = 0;
  has_vptr = false;
  field_offsets = [];
  field_bit_offsets = [];
  field_bit_widths = [];
  base_offsets = [];
  virtual_base_offsets = [];
  empty_subobjects = [];
  bitfield_au = none;
}

-- `(val + align - 1) / align * align` on `u64`; the sum may overflow.
unfoldable pub align_up {ℓ} : {E : Type ℓ} → ℕ → ℕ → Outcome E ℕ
align_up val align =
    if leb align 1 then ok val else do sum ← checked (val + align); ok ((sum - 1) / align * align)
