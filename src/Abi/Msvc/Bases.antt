-- ===== src/Abi/Msvc/Bases.antt =====
-- The places of the bases in an MSVC layout (layout_msvc.rs).
use rustcc.Prelude.{ℕ, ◌+◌, ◌≤◌, ◌≡◌, refl, sym, ◌∙◌, ap, arith, max, true, false}
use rustcc.Prelude.{◌||◌, if◌then◌else◌, Bool-cases, inl, inr, List, [], ◌∷◌, ◌++◌}
use rustcc.Prelude.{push, ok, >>=-eq-ok, ok_inj, or_panic}
use mathlib.Core.List.{append_assoc, append-nil}
use mathlib.Core.Path.{subst}
use rustcc.Abi.Types.{ClassId, BaseSpec}
use rustcc.Abi.Context.{CxxTypeCtx, class_of}
use rustcc.Abi.Layout.State.{RecordLayout}
use rustcc.Abi.Layout.Compute.{Measure}
use rustcc.Abi.Msvc.State.{MsvcState, bump_align, round_up_cursor, advance, moved}
use rustcc.Abi.Msvc.Engine.{
  is_empty_layout, may_collapse, collapse, put_base, msvc_place_base, msvc_place_bases,
  msvc_virtual_bases,
}
use rustcc.Abi.Msvc.Regions.{
  LaidBases, no_base, other_base, next_base, Takes, round_up_cursor_lem, advance_lem,
}

abbrev pub BasesPut : Measure → List BaseSpec → MsvcState → MsvcState → Type 0
BasesPut measure bs st st' =
    (os : List (ClassId × ℕ)) × (st'.base_offsets ≡ st.base_offsets ++ os)
    × LaidBases measure false bs os st.cursor st'.cursor
    × (st'.field_offsets ≡ st.field_offsets)
    × (st'.virtual_base_offsets ≡ st.virtual_base_offsets)
    × (st.cursor ≤ st.size → st'.cursor ≤ st'.size)

-- One base: its place, and where the cursor goes.
abbrev BasePut : Measure → ClassId → MsvcState → MsvcState → Type 0
BasePut measure id st st' =
    (o : ℕ) × (l : RecordLayout) × (size : ℕ) × (measure id ≡ ok l)
    × Takes l size
    × (st.cursor ≤ o)
    × (st'.base_offsets ≡ push st.base_offsets (id, o))
    × (st'.cursor ≡ o + size)
    × (st'.field_offsets ≡ st.field_offsets)
    × (st'.virtual_base_offsets ≡ st.virtual_base_offsets)
    × (st.cursor ≤ st.size → st'.cursor ≤ st'.size)

put_base-BasePut :
    (measure : Measure) (id : ClassId) (l : RecordLayout) (st st' : MsvcState)
    → measure id ≡ ok l
    → put_base id l st ≡ ok st'
    → BasePut measure id st st'
unfolding put_base bump_align
put_base-BasePut measure id l st st' m h =
    let (st1, a, b) = >>=-eq-ok (round_up_cursor (max l.align_bytes 1) st) _ h in
    let (o, le, e) = round_up_cursor_lem (max l.align_bytes 1) st st1 a in
    let (st2, c, d) =
      >>=-eq-ok
        (advance l.size_bytes
          (record st1 { base_offsets = push st1.base_offsets (id, st1.cursor) }))
        _ b in
    let end =
      subst
        (λ s.
          moved (s.cursor + l.size_bytes)
            (record s { base_offsets = push s.base_offsets (id, s.cursor) })
          ≡ st2)
        (sym e) (advance_lem l.size_bytes _ st2 c) in
    subst (BasePut measure id st) (ok_inj d) (
      subst
        (λ s.
          BasePut measure id st
            (record (bump_align (max l.align_bytes 1) s) { has_vptr = l.has_vptr || s.has_vptr }))
        end (o, l, l.size_bytes, m, inl refl, le, refl, refl, refl, refl, λ _. omega arith))

collapse-BasePut :
    (measure : Measure) (id : ClassId) (l : RecordLayout) (st : MsvcState)
    → measure id ≡ ok l
    → may_collapse l st ≡ true
    → BasePut measure id st (collapse id st)
unfolding collapse may_collapse
collapse-BasePut measure id l st m y =
    let empty : is_empty_layout l ≡ true = ground (arith, y) in
    (st.cursor, l, 0, m, inr (empty, refl), omega arith, refl, omega arith, refl, refl, λ c. c)

place_base-BasePut :
    (ctx : CxxTypeCtx) (measure : Measure) (id : ClassId) (st st' : MsvcState)
    → msvc_place_base ctx measure id st ≡ ok st'
    → BasePut measure id st st'
unfolding msvc_place_base
place_base-BasePut ctx measure id st st' h =
    let (l, a, b) = >>=-eq-ok (measure id) _ h in
    elim (Bool-cases (may_collapse l st)) [
      | inr n ↦ put_base-BasePut measure id l st st' a (rw n at b)
      | inl y ↦
          let (def, c, d) = >>=-eq-ok (or_panic (class_of ctx id)) _ (rw y at b) in
          elim (Bool-cases def.is_polymorphic) [
            | inl p ↦ put_base-BasePut measure id l st st' a (rw p at d)
            | inr q ↦
                subst (BasePut measure id st) (ok_inj (rw q at d))
                  (collapse-BasePut measure id l st a y)
          ]
    ]

pub bases-BasesPut :
    (ctx : CxxTypeCtx) (measure : Measure) (bs : List BaseSpec) (st st' : MsvcState)
    → msvc_place_bases ctx measure bs st ≡ ok st'
    → BasesPut measure bs st st'
unfolding msvc_place_bases
bases-BasesPut ctx measure [] st st' h =
    subst (BasesPut measure [] st) (ok_inj h)
      ([], sym (append-nil st.base_offsets), no_base (omega arith), refl, refl, λ c. c)
bases-BasesPut ctx measure (b ∷ bs) st st' h =
    let (mid, a, c) =
      >>=-eq-ok (if b.is_virtual then ok st else msvc_place_base ctx measure b.class st) _ h in
    let (os, offs, laid, fields, vbases, fit) = bases-BasesPut ctx measure bs mid st' c in
    elim (Bool-cases b.is_virtual) [
      | inl y ↦
          let same : st ≡ mid = ok_inj (rw y at a) in
          (
            os,
            offs ∙ ap (λ s. s.base_offsets ++ os) (sym same),
            other_base y
                (subst (λ s. LaidBases measure false bs os s.cursor st'.cursor) (sym same) laid),
            fields ∙ ap (λ s. s.field_offsets) (sym same),
            vbases ∙ ap (λ s. s.virtual_base_offsets) (sym same),
            subst (λ s. s.cursor ≤ s.size → st'.cursor ≤ st'.size) (sym same) fit,
          )
      | inr n ↦
          let (o, l, size, m, takes, le, off, end, fields', vbases', fit') =
            place_base-BasePut ctx measure b.class st mid (rw n at a) in
          (
            (b.class, o) ∷ os,
            offs ∙ ap (λ q. q ++ os) off ∙ append_assoc st.base_offsets ((b.class, o) ∷ []) os,
            next_base l size n m takes le
                (subst (λ q. LaidBases measure false bs os q st'.cursor) end laid),
            fields ∙ fields',
            vbases ∙ vbases',
            λ c. fit (fit' c),
          )
    ]

abbrev pub VirtualPut : Measure → List BaseSpec → MsvcState → MsvcState → Type 0
VirtualPut measure bs st st' =
    (os : List (ClassId × ℕ)) × (st'.virtual_base_offsets ≡ st.virtual_base_offsets ++ os)
    × LaidBases measure true bs os st.cursor st'.cursor
    × (st'.field_offsets ≡ st.field_offsets)
    × (st'.base_offsets ≡ st.base_offsets)
    × (st.cursor ≤ st.size → st'.cursor ≤ st'.size)

pub virtual_bases-VirtualPut :
    (measure : Measure) (bs : List BaseSpec) (st st' : MsvcState)
    → msvc_virtual_bases measure bs st ≡ ok st'
    → VirtualPut measure bs st st'
unfolding msvc_virtual_bases bump_align
virtual_bases-VirtualPut measure [] st st' h =
    subst (VirtualPut measure [] st) (ok_inj h)
      ([], sym (append-nil st.virtual_base_offsets), no_base (omega arith), refl, refl, λ c. c)
virtual_bases-VirtualPut measure (b ∷ bs) st st' h = elim (Bool-cases b.is_virtual) [
  | inr n ↦
      let (os, offs, laid, fields, bases, fit) =
        virtual_bases-VirtualPut measure bs st st' (rw n at h) in
      (os, offs, other_base n laid, fields, bases, fit)
  | inl y ↦
      let (l, a, c) = >>=-eq-ok (measure b.class) _ (rw y at h) in
      let (st1, d, e) =
        >>=-eq-ok (round_up_cursor (max l.align_bytes 1) (bump_align (max l.align_bytes 1) st)) _
          c in
      let (o, le, f) =
        round_up_cursor_lem (max l.align_bytes 1) (bump_align (max l.align_bytes 1) st) st1 d in
      let (st2, g, i) =
        >>=-eq-ok
          (advance l.size_bytes (record st1 {
            virtual_base_offsets = push st1.virtual_base_offsets (b.class, st1.cursor);
          }))
          _ e in
      let end =
        subst
          (λ s.
            moved (s.cursor + l.size_bytes)
              (record s { virtual_base_offsets = push s.virtual_base_offsets (b.class, s.cursor) })
            ≡ st2)
          (sym f) (advance_lem l.size_bytes _ st2 g) in
      let (os, offs, laid, fields, bases, fit) = virtual_bases-VirtualPut measure bs st2 st' i in
      (
        (b.class, o) ∷ os,
        offs
            ∙ ap (λ s. s.virtual_base_offsets ++ os) (sym end)
            ∙ append_assoc st.virtual_base_offsets ((b.class, o) ∷ []) os,
        next_base l l.size_bytes y a (inl refl) le
            (subst (λ s. LaidBases measure true bs os s.cursor st'.cursor) (sym end) laid),
        fields ∙ ap (λ s. s.field_offsets) (sym end),
        bases ∙ ap (λ s. s.base_offsets) (sym end),
        λ _. fit (subst (λ s. s.cursor ≤ s.size) end (omega arith)),
      )
]
