-- ===== src/Abi/Layout/Disjoint.antt =====
-- The geometry of a struct or class that `compute_layout` of layout.rs returns.
use rustcc.Prelude.{ℕ, suc, ◌*◌, ◌≤◌, ◌≡◌}
use rustcc.Prelude.{Bool, Option, none, some, [], ok}
use rustcc.Abi.Types.{ClassId, ClassDef, BaseSpec}
use rustcc.Prelude.{All, false}
use rustcc.Abi.Context.{CxxTypeCtx}
use rustcc.Abi.Layout.State.{RecordLayout, LayoutState}
use rustcc.Abi.Layout.Classify.{pick_primary_base, collect_virtual_bases}
use rustcc.Abi.Layout.BaseOrder.{Adds, primary_entry, other_bases, placed_classes}
use rustcc.Abi.Layout.Place.{type_size_align}
use rustcc.Abi.Layout.Compute.{compute_layout, needs_vptr}
use rustcc.Abi.Layout.Members.{InOrder}
use rustcc.Abi.Layout.Regions.{Regions, head_bytes}

-- The members of `class`, measured one level down, from bit `lo` to bit `hi` of the layout.
abbrev pub MembersInOrder : CxxTypeCtx → ℕ → ClassId → ClassDef → RecordLayout → ℕ → ℕ → Type 0
MembersInOrder ctx fuel id class r lo hi =
    InOrder ctx (type_size_align ctx (compute_layout ctx fuel) fuel) id none lo 0 class.fields
      r.field_offsets r.field_bit_offsets r.field_bit_widths hi

-- Bytes `[0, head)` are a vptr of the class's own or nothing, `[head, lo)` the non-virtual bases,
-- `[lo, mid)` the members, and `[mid, hi)` the virtual bases. The non-virtual bases are the primary
-- one, at 0, and the others in declaration order; the virtual ones are those that
-- `collect_virtual_bases` lists, in its order.
pub record Geometry (ctx : CxxTypeCtx) (fuel : ℕ) (id : ClassId) (class : ClassDef)
    (r : RecordLayout) : Type 0 where
  pub primary : Option ClassId
  pub needs : Bool
  pub lo : ℕ
  pub mid : ℕ
  pub hi : ℕ
  pub primary_eq : pick_primary_base ctx class ≡ ok primary
  pub needs_eq : needs_vptr ctx (suc fuel) id class ≡ ok needs
  pub bases :
      Regions
        (compute_layout ctx fuel)
        (head_bytes (compute_layout ctx fuel) ctx primary needs)
        r.base_offsets
        lo
  pub base_list : Adds (primary_entry primary) (other_bases primary class.bases) r.base_offsets
  pub members : MembersInOrder ctx fuel id class r (8 * lo) (8 * mid)
  pub virtual_bases : Regions (compute_layout ctx fuel) mid r.virtual_base_offsets hi
  pub virtual_list :
      collect_virtual_bases ctx (suc fuel) id ≡ ok (placed_classes r.virtual_base_offsets)
  pub within : hi ≤ r.size_bytes

-- The fields that placing members leaves alone.
abbrev SameBases : LayoutState → LayoutState → Type 0
SameBases s t =
    (t.base_offsets ≡ s.base_offsets) × (t.virtual_base_offsets ≡ s.virtual_base_offsets)

-- The members behind the bases, up to the cursor of the state with everything placed.
record Filled (ctx : CxxTypeCtx) (fuel : ℕ) (id : ClassId) (class : ClassDef) (t : LayoutState)
    : Type 0 where
  primary : Option ClassId
  needs : Bool
  lo : ℕ
  primary_eq : pick_primary_base ctx class ≡ ok primary
  needs_eq : needs_vptr ctx (suc fuel) id class ≡ ok needs
  bases :
      Regions
        (compute_layout ctx fuel)
        (head_bytes (compute_layout ctx fuel) ctx primary needs)
        t.base_offsets
        lo
  base_list : Adds (primary_entry primary) (other_bases primary class.bases) t.base_offsets
  members :
      InOrder ctx
        (type_size_align ctx (compute_layout ctx fuel) fuel)
        id
        none
        (8 * lo)
        0
        class.fields
        t.field_offsets
        t.field_bit_offsets
        t.field_bit_widths
        (8 * t.dsize)
  no_virtual : t.virtual_base_offsets ≡ []

-- The primary base is not a virtual one.
abbrev pub HasPlainPrimary : CxxTypeCtx → ClassDef → Type 0
HasPlainPrimary ctx class =
    (p : ClassId)
    → pick_primary_base ctx class ≡ ok (some p)
    → All (λ (b : BaseSpec). b.class ≡ p → b.is_virtual ≡ false) class.bases
