-- ===== src/Abi/Msvc/Regions.antt =====
-- The places of bases and fields in an MSVC layout (layout_msvc.rs).
use rustcc.Prelude.{ℕ, ◌+◌, ◌-◌, ◌%◌, ◌≤◌, ◌≡◌, refl, sym, ◌∙◌, ap, arith, Bool, true, not}
use rustcc.Prelude.{leb, ◌==◌, Bool-cases, inl, inr, ◌⊎◌, Option, none, some, List, [], ◌∷◌, ◌++◌}
use rustcc.Prelude.{push, ok, >>=-eq-ok, ok_inj, checked, checked-ok}
use mathlib.Core.List.{append_assoc, append-nil}
use mathlib.Core.Path.{subst}
use rustcc.Abi.Types.{ClassId, TypeId, BaseSpec, FieldDef}
use rustcc.Abi.Context.{CxxTypeCtx, bitfield_width}
use rustcc.Abi.Layout.State.{RecordLayout}
use rustcc.Abi.Layout.Compute.{Measure}
use rustcc.Abi.Msvc.State.{MsvcState, bump_align, round_up, round_up_cursor, advance, moved, cap}
use rustcc.Abi.Msvc.Engine.{
  Sizes, is_empty_layout, put_member, raised, put_sized, msvc_place_fields,
}

-- Fields one after the other between two bytes, each with the size of its type.
pub data LaidFields (sizes : TypeId → Sizes) : List FieldDef → List ℕ → ℕ → ℕ → Type 0 where
  no_field : {lo hi : ℕ} → lo ≤ hi → LaidFields sizes [] [] lo hi
  next_field :
      {f : FieldDef} {fs : List FieldDef} {o : ℕ} {os : List ℕ} {lo hi : ℕ} (size align : ℕ)
      → sizes f.ty ≡ ok (size, align)
      → lo ≤ o
      → LaidFields sizes fs os (o + size) hi
      → LaidFields sizes (f ∷ fs) (o ∷ os) lo hi

-- The bytes of a base: all of its layout, or none for a collapsed empty base.
abbrev pub Takes : RecordLayout → ℕ → Type 0
Takes l size = (size ≡ l.size_bytes) ⊎ ((is_empty_layout l ≡ true) × (size ≡ 0))

-- Of the bases those that are virtual, or those that are not, one after the other between two
-- bytes.
pub data LaidBases (measure : Measure) (virtual : Bool)
    : List BaseSpec → List (ClassId × ℕ) → ℕ → ℕ → Type 0 where
  no_base : {lo hi : ℕ} → lo ≤ hi → LaidBases measure virtual [] [] lo hi
  other_base :
      {b : BaseSpec} {bs : List BaseSpec} {os : List (ClassId × ℕ)} {lo hi : ℕ}
      → b.is_virtual ≡ not virtual
      → LaidBases measure virtual bs os lo hi
      → LaidBases measure virtual (b ∷ bs) os lo hi
  next_base :
      {b : BaseSpec} {bs : List BaseSpec} {o : ℕ} {os : List (ClassId × ℕ)} {lo hi : ℕ}
      (l : RecordLayout) (size : ℕ)
      → b.is_virtual ≡ virtual
      → measure b.class ≡ ok l
      → Takes l size
      → lo ≤ o
      → LaidBases measure virtual bs os (o + size) hi
      → LaidBases measure virtual (b ∷ bs) ((b.class, o) ∷ os) lo hi

-- What a step leaves alone, and that the cursor stays within the size.
pub record Frame (st st' : MsvcState) : Type 0 where
  pub fields : st'.field_offsets ≡ st.field_offsets
  pub bases : st'.base_offsets ≡ st.base_offsets
  pub virtual_bases : st'.virtual_base_offsets ≡ st.virtual_base_offsets
  pub sized : st.cursor ≤ st.size → st'.cursor ≤ st'.size

pub round_up-le : (v a c : ℕ) → round_up v a ≡ ok c → v ≤ c
unfolding round_up
round_up-le v a c h = elim (Bool-cases (leb a 1)) [
  | inl y ↦ let e = ok_inj (rw y at h) in omega (arith, e)
  | inr n ↦ elim (Bool-cases (v % a == 0)) [
    | inl z ↦ let e = ok_inj (rw (n, z) at h) in omega (arith, e)
    | inr k ↦ let e = checked-ok (v + (a - v % a)) (rw (n, k) at h) in omega (arith, e)
  ]
]

-- A round and an advance, in terms of the cursor.
pub round_up_cursor_lem :
    (a : ℕ) (st st' : MsvcState)
    → round_up_cursor a st ≡ ok st'
    → (c : ℕ) × (st.cursor ≤ c) × (moved c st ≡ st')
unfolding round_up_cursor
round_up_cursor_lem a st st' h =
    let (c, e, f) = >>=-eq-ok (round_up st.cursor (cap st.pragma_pack a)) _ h in
    (c, round_up-le st.cursor (cap st.pragma_pack a) c e, ok_inj f)

pub advance_lem :
    (n : ℕ) (st st' : MsvcState) → advance n st ≡ ok st' → moved (st.cursor + n) st ≡ st'
unfolding advance
advance_lem n st st' h =
    let (c, e, f) = >>=-eq-ok (checked (st.cursor + n)) _ h in
    ap (λ k. moved k st) (sym (checked-ok (st.cursor + n) e)) ∙ ok_inj f

-- A member stands at or behind the cursor, which then stands behind it.
abbrev Put : ℕ → MsvcState → MsvcState → Type 0
Put size st st' =
    (o : ℕ) × (st.cursor ≤ o)
    × (st'.field_offsets ≡ push st.field_offsets o)
    × (st'.cursor ≡ o + size)
    × (st'.base_offsets ≡ st.base_offsets)
    × (st'.virtual_base_offsets ≡ st.virtual_base_offsets)
    × (st'.cursor ≤ st'.size)

put_member-Put :
    (size align width : ℕ) (st st' : MsvcState)
    → put_member size align width st ≡ ok st'
    → Put size st st'
unfolding put_member bump_align
put_member-Put size align width st st' h =
    let (st1, a, b) = >>=-eq-ok (round_up_cursor align (bump_align align st)) _ h in
    let (o, le, e) = round_up_cursor_lem align (bump_align align st) st1 a in
    let end =
      subst
        (λ s.
          moved (s.cursor + size) (record s {
            field_offsets = push s.field_offsets s.cursor;
            field_bit_offsets = push s.field_bit_offsets 0;
            field_bit_widths = push s.field_bit_widths width;
          })
          ≡ st')
        (sym e) (advance_lem size _ st' b) in
    subst (Put size st) end (o, le, refl, refl, refl, refl, omega arith)

put_sized-Put :
    (width : Option ℕ) (f : FieldDef) (size align : ℕ) (st st' : MsvcState)
    → put_sized width f (size, align) st ≡ ok st'
    → Put size st st'
unfolding put_sized
put_sized-Put none f size align st st' h =
    put_member-Put size (raised f.explicit_align align) 0 st st' h
put_sized-Put (some w) f size align st st' h = put_member-Put size align w st st' h

abbrev pub FieldsPut : (TypeId → Sizes) → List FieldDef → MsvcState → MsvcState → Type 0
FieldsPut sizes fs st st' =
    (os : List ℕ) × (st'.field_offsets ≡ st.field_offsets ++ os)
    × LaidFields sizes fs os st.cursor st'.cursor
    × (st'.base_offsets ≡ st.base_offsets)
    × (st'.virtual_base_offsets ≡ st.virtual_base_offsets)
    × (st.cursor ≤ st.size → st'.cursor ≤ st'.size)

pub fields-FieldsPut :
    (ctx : CxxTypeCtx) (sizes : TypeId → Sizes) (id : ClassId) (fs : List FieldDef) (idx : ℕ)
    (st st' : MsvcState)
    → msvc_place_fields ctx sizes id fs idx st ≡ ok st'
    → FieldsPut sizes fs st st'
unfolding msvc_place_fields
fields-FieldsPut ctx sizes id [] idx st st' h =
    subst (FieldsPut sizes [] st) (ok_inj h)
      ([], sym (append-nil st.field_offsets), no_field (omega arith), refl, refl, λ c. c)
fields-FieldsPut ctx sizes id (f ∷ fs) idx st st' h =
    let ((size, align), a, b) = >>=-eq-ok (sizes f.ty) _ h in
    let (mid, c, d) = >>=-eq-ok (put_sized (bitfield_width ctx id idx) f (size, align) st) _ b in
    let (o, le, off, end, bases, vbases, fit) =
      put_sized-Put (bitfield_width ctx id idx) f size align st mid c in
    let (os, offs, laid, bases', vbases', fit') =
      fields-FieldsPut ctx sizes id fs (idx + 1) mid st' d in
    (
      o ∷ os,
      offs ∙ ap (λ q. q ++ os) off ∙ append_assoc st.field_offsets (o ∷ []) os,
      next_field size align a le (subst (λ q. LaidFields sizes fs os q st'.cursor) end laid),
      bases' ∙ bases,
      vbases' ∙ vbases,
      λ _. fit' fit,
    )
