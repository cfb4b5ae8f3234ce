-- ===== src/Abi/Msvc/Ends.antt =====
-- Termination of the MSVC engine (layout_msvc.rs) on ranked contexts.
use rustcc.Prelude.{
  ℕ, zero, suc, ◌+◌, ◌-◌, ◌*◌, ◌%◌, ◌≤◌, ◌<◌, ◌≡◌, ◌≢◌, refl, arith, ◌∈◌, inl, inr, true, false,
  not, ◌&&◌,
}
use rustcc.Prelude.{
  leb, ◌==◌, if◌then◌else◌, Option, none, some, max, List, [], ◌∷◌, ok, stuck, checked,
}
use rustcc.Prelude.{
  or_panic, >>=-ne-stuck, or_panic-eq-ok, or_panic-ne-stuck, ok-ne-stuck, checked-ne-stuck,
}
use rustcc.Abi.Types.{ClassId, TypeId, ClassDef, BaseSpec, FieldDef, CxxType, LayoutError}
use rustcc.Abi.Types.{array, record_type, enum_type}
use rustcc.Abi.Context.{CxxTypeCtx, class_of, type_of, bitfield_width, pragma_pack}
use rustcc.Abi.Layout.State.{RecordLayout}
use rustcc.Abi.Layout.Classify.{any_virtual_base}
use rustcc.Abi.Layout.Hfa.{detect_hfa}
use rustcc.Abi.Layout.Compute.{Measure}
use rustcc.Abi.Layout.Terminates.{IsRanked, if-ne-stuck}
use rustcc.Abi.Layout.WalksEnd.{detect_hfa-ne-stuck}
use rustcc.Abi.Msvc.State.{
  MsvcState, initial, round_up, round_up_cursor, advance, moved, cap, bump_align,
}
use rustcc.Abi.Msvc.Engine.{
  Sizes, msvc_size_of, msvc_size_align, any_polymorphic_base, place_vptr, may_collapse, collapse,
  put_base, msvc_place_base, msvc_place_bases, inherits_vbptr, place_vbptr, put_member, raised,
  put_sized, msvc_place_fields, place_own, msvc_virtual_bases, layout_msvc,
}

round_up-ne-stuck : (v a : ℕ) → round_up v a ≢ stuck
unfolding round_up
round_up-ne-stuck v a = if-ne-stuck (leb a 1) (ok v) _ (ok-ne-stuck LayoutError v) (
    if-ne-stuck (v % a == 0) (ok v) _ (ok-ne-stuck LayoutError v)
      (checked-ne-stuck (v + (a - v % a))))

cursor-ne-stuck : (a : ℕ) (st : MsvcState) → round_up_cursor a st ≢ stuck
unfolding round_up_cursor
cursor-ne-stuck a st =
    >>=-ne-stuck (round_up st.cursor (cap st.pragma_pack a)) _
      (round_up-ne-stuck st.cursor (cap st.pragma_pack a)) (λ c _. ok-ne-stuck LayoutError _)

advance-ne-stuck : (n : ℕ) (st : MsvcState) → advance n st ≢ stuck
unfolding advance
advance-ne-stuck n st =
    >>=-ne-stuck (checked (st.cursor + n)) _ (checked-ne-stuck (st.cursor + n))
      (λ c _. ok-ne-stuck LayoutError _)

put_member-ne-stuck :
    (size align width : ℕ) (st : MsvcState) → put_member size align width st ≢ stuck
unfolding put_member
put_member-ne-stuck size align width st =
    >>=-ne-stuck (round_up_cursor align (bump_align align st)) _
      (cursor-ne-stuck align (bump_align align st)) (λ s _. advance-ne-stuck size _)

put_sized-ne-stuck :
    (w : Option ℕ) (f : FieldDef) (s : ℕ × ℕ) (st : MsvcState) → put_sized w f s st ≢ stuck
unfolding put_sized
put_sized-ne-stuck none f (size, align) st =
    put_member-ne-stuck size (raised f.explicit_align align) 0 st
put_sized-ne-stuck (some w) f (size, align) st = put_member-ne-stuck size align w st

fields-ne-stuck :
    (ctx : CxxTypeCtx) (sizes : TypeId → Sizes) (id : ClassId) (fs : List FieldDef) (idx : ℕ)
    (st : MsvcState)
    → ((f : FieldDef) → f ∈ fs → sizes f.ty ≢ stuck)
    → msvc_place_fields ctx sizes id fs idx st ≢ stuck
unfolding msvc_place_fields
fields-ne-stuck ctx sizes id [] idx st k = ok-ne-stuck LayoutError st
fields-ne-stuck ctx sizes id (f ∷ fs) idx st k =
    >>=-ne-stuck (sizes f.ty) _ (k f (inl refl)) (λ s _.
      >>=-ne-stuck (put_sized (bitfield_width ctx id idx) f s st) _
        (put_sized-ne-stuck (bitfield_width ctx id idx) f s st)
        (λ st' _. fields-ne-stuck ctx sizes id fs (idx + 1) st' (λ g m. k g (inr m))))

put_base-ne-stuck : (id : ClassId) (l : RecordLayout) (st : MsvcState) → put_base id l st ≢ stuck
unfolding put_base
put_base-ne-stuck id l st =
    >>=-ne-stuck (round_up_cursor (max l.align_bytes 1) st) _
      (cursor-ne-stuck (max l.align_bytes 1) st)
      (λ s _. >>=-ne-stuck _ _ (advance-ne-stuck l.size_bytes _) (λ t _. ok-ne-stuck LayoutError _))

place_base-ne-stuck :
    (ctx : CxxTypeCtx) (measure : Measure) (id : ClassId) (st : MsvcState)
    → measure id ≢ stuck
    → msvc_place_base ctx measure id st ≢ stuck
unfolding msvc_place_base
place_base-ne-stuck ctx measure id st h = >>=-ne-stuck (measure id) _ h (λ l _.
    if-ne-stuck (not (may_collapse l st)) (put_base id l st) _ (put_base-ne-stuck id l st) (
      >>=-ne-stuck (or_panic (class_of ctx id)) _ (or_panic-ne-stuck (class_of ctx id)) (λ def _.
        if-ne-stuck def.is_polymorphic (put_base id l st) (ok (collapse id st))
          (put_base-ne-stuck id l st) (ok-ne-stuck LayoutError _))))

bases-ne-stuck :
    (ctx : CxxTypeCtx) (measure : Measure) (bs : List BaseSpec) (st : MsvcState)
    → ((b : BaseSpec) → b ∈ bs → measure b.class ≢ stuck)
    → msvc_place_bases ctx measure bs st ≢ stuck
unfolding msvc_place_bases
bases-ne-stuck ctx measure [] st k = ok-ne-stuck LayoutError st
bases-ne-stuck ctx measure (b ∷ bs) st k =
    >>=-ne-stuck (if b.is_virtual then ok st else msvc_place_base ctx measure b.class st) _
      (if-ne-stuck b.is_virtual (ok st) (msvc_place_base ctx measure b.class st)
        (ok-ne-stuck LayoutError st) (place_base-ne-stuck ctx measure b.class st (k b (inl refl))))
      (λ st' _. bases-ne-stuck ctx measure bs st' (λ c m. k c (inr m)))

virtual_bases-ne-stuck :
    (measure : Measure) (bs : List BaseSpec) (st : MsvcState)
    → ((b : BaseSpec) → b ∈ bs → measure b.class ≢ stuck)
    → msvc_virtual_bases measure bs st ≢ stuck
unfolding msvc_virtual_bases
virtual_bases-ne-stuck measure [] st k = ok-ne-stuck LayoutError st
virtual_bases-ne-stuck measure (b ∷ bs) st k =
    if-ne-stuck (not b.is_virtual) (msvc_virtual_bases measure bs st) _
      (virtual_bases-ne-stuck measure bs st (λ c m. k c (inr m)))
      (>>=-ne-stuck (measure b.class) _ (k b (inl refl)) (λ l _.
        >>=-ne-stuck (round_up_cursor (max l.align_bytes 1) (bump_align (max l.align_bytes 1) st)) _
          (cursor-ne-stuck (max l.align_bytes 1) (bump_align (max l.align_bytes 1) st))
          (λ s _.
            >>=-ne-stuck _ _ (advance-ne-stuck l.size_bytes _)
              (λ t _. virtual_bases-ne-stuck measure bs t (λ c m. k c (inr m))))))

any_polymorphic-ne-stuck :
    (ctx : CxxTypeCtx) (bs : List BaseSpec) → any_polymorphic_base ctx bs ≢ stuck
unfolding any_polymorphic_base
any_polymorphic-ne-stuck ctx [] = ok-ne-stuck LayoutError false
any_polymorphic-ne-stuck ctx (b ∷ bs) =
    if-ne-stuck b.is_virtual (any_polymorphic_base ctx bs) _ (any_polymorphic-ne-stuck ctx bs) (
      >>=-ne-stuck (or_panic (class_of ctx b.class)) _ (or_panic-ne-stuck (class_of ctx b.class))
        (λ def _.
          if-ne-stuck def.is_polymorphic (ok true) (any_polymorphic_base ctx bs)
            (ok-ne-stuck LayoutError true) (any_polymorphic-ne-stuck ctx bs)))

inherits-ne-stuck : (ctx : CxxTypeCtx) (bs : List BaseSpec) → inherits_vbptr ctx bs ≢ stuck
unfolding inherits_vbptr
inherits-ne-stuck ctx [] = ok-ne-stuck LayoutError false
inherits-ne-stuck ctx (b ∷ bs) =
    if-ne-stuck b.is_virtual (inherits_vbptr ctx bs) _ (inherits-ne-stuck ctx bs) (
      >>=-ne-stuck (or_panic (class_of ctx b.class)) _ (or_panic-ne-stuck (class_of ctx b.class))
        (λ def _.
          if-ne-stuck (any_virtual_base def.bases) (ok true) (inherits_vbptr ctx bs)
            (ok-ne-stuck LayoutError true) (inherits-ne-stuck ctx bs)))

vptr-ne-stuck :
    (ctx : CxxTypeCtx) (class : ClassDef) (st : MsvcState) → place_vptr ctx class st ≢ stuck
unfolding place_vptr
vptr-ne-stuck ctx class st =
    if-ne-stuck (not class.is_polymorphic) (ok st) _ (ok-ne-stuck LayoutError st) (
      >>=-ne-stuck (any_polymorphic_base ctx class.bases) _
        (any_polymorphic-ne-stuck ctx class.bases) (λ p _. ok-ne-stuck LayoutError _))

vbptr-ne-stuck :
    (ctx : CxxTypeCtx) (class : ClassDef) (st : MsvcState) → place_vbptr ctx class st ≢ stuck
unfolding place_vbptr
vbptr-ne-stuck ctx class st =
    >>=-ne-stuck (inherits_vbptr ctx class.bases) _ (inherits-ne-stuck ctx class.bases) (λ i _.
      if-ne-stuck (not (any_virtual_base class.bases && not i)) (ok st) _
        (ok-ne-stuck LayoutError st)
        (>>=-ne-stuck (round_up_cursor 8 (bump_align 8 st)) _ (cursor-ne-stuck 8 (bump_align 8 st))
          (λ s _. advance-ne-stuck 8 _)))

module _ (ctx : CxxTypeCtx) {class_rank : ClassId → ℕ} {type_rank : TypeId → ℕ}
    (ranked : IsRanked ctx class_rank type_rank) where
  size_of-ne-stuck :
      (inner : TypeId → Sizes) (measure : Measure) (ty : TypeId)
      → ((c : ClassId) → class_rank c ≤ type_rank ty → measure c ≢ stuck)
      → ((u : TypeId) → type_rank u < type_rank ty → inner u ≢ stuck)
      → (t : CxxType) → type_of ctx ty ≡ some t
      → msvc_size_of ctx inner measure t ≢ stuck
  unfolding msvc_size_of
  size_of-ne-stuck inner measure ty classes types (array el len) e =
      >>=-ne-stuck (inner el) _ (types el (ranked.array_lt ty el len e)) (λ (s, a) _.
        >>=-ne-stuck (checked (s * len)) _ (checked-ne-stuck (s * len))
          (λ n _. ok-ne-stuck LayoutError _))
  size_of-ne-stuck inner measure ty classes types (record_type c) e =
      >>=-ne-stuck (measure c) _ (classes c (ranked.record_le ty c e))
        (λ l _. ok-ne-stuck LayoutError _)
  size_of-ne-stuck inner measure ty classes types (enum_type n u scoped) e =
      types u (ranked.enum_lt ty u n scoped e)
  size_of-ne-stuck inner measure ty classes types _ e = λ s. cc s

  size_align-ne-stuck :
      (measure : Measure) (fuel : ℕ) (ty : TypeId)
      → ((c : ClassId) → class_rank c ≤ type_rank ty → measure c ≢ stuck)
      → type_rank ty < fuel
      → msvc_size_align ctx measure fuel ty ≢ stuck
  unfolding msvc_size_align
  size_align-ne-stuck measure zero ty classes lt = elim lt [ ]
  size_align-ne-stuck measure (suc fuel) ty classes lt =
      >>=-ne-stuck (or_panic (type_of ctx ty)) _ (or_panic-ne-stuck (type_of ctx ty)) (λ t e.
        size_of-ne-stuck (msvc_size_align ctx measure fuel) measure ty classes
          (λ u less.
            size_align-ne-stuck measure fuel u (λ c le. classes c (omega arith)) (omega arith))
          t (or_panic-eq-ok (type_of ctx ty) e))

  own-ne-stuck :
      (measure : Measure) (fuel : ℕ) (c : ClassId) (d : ClassDef)
      → class_of ctx c ≡ some d
      → class_rank c < suc fuel
      → ((b : ClassId) → class_rank b < class_rank c → measure b ≢ stuck)
      → place_own ctx measure fuel c d ≢ stuck
  unfolding place_own
  own-ne-stuck measure fuel c d known lt deeper =
      >>=-ne-stuck (place_vptr ctx d (initial (pragma_pack ctx c))) _
        (vptr-ne-stuck ctx d (initial (pragma_pack ctx c)))
        (λ st1 _.
          >>=-ne-stuck (msvc_place_bases ctx measure d.bases st1) _
            (bases-ne-stuck ctx measure d.bases st1
              (λ b m. deeper b.class (ranked.base_lt c d b known m)))
            (λ st2 _. >>=-ne-stuck (place_vbptr ctx d st2) _ (vbptr-ne-stuck ctx d st2) (λ st3 _.
              >>=-ne-stuck
                (msvc_place_fields ctx (msvc_size_align ctx measure fuel) c d.fields 0 st3) _
                (fields-ne-stuck ctx (msvc_size_align ctx measure fuel) c d.fields 0 st3 (λ f m.
                  let less = ranked.field_lt c d f known m in
                  size_align-ne-stuck measure fuel f.ty (λ b le. deeper b (omega arith))
                    (omega arith)))
                (λ st4 _. ok-ne-stuck LayoutError _))))

  -- On a ranked context the MSVC engine ends: with any bound on the depth above the rank of the
  -- class it does not run out, whatever the class.
  pub layout_msvc-ne-stuck :
      (fuel : ℕ) (c : ClassId) → class_rank c < fuel → layout_msvc ctx fuel c ≢ stuck
  unfolding layout_msvc
  layout_msvc-ne-stuck zero c lt = elim lt [ ]
  layout_msvc-ne-stuck (suc fuel) c lt =
      let measure = layout_msvc ctx fuel in
      let deeper = λ (b : ClassId) (less : class_rank b < class_rank c).
        layout_msvc-ne-stuck fuel b (omega arith) in
      >>=-ne-stuck (or_panic (class_of ctx c)) _ (or_panic-ne-stuck (class_of ctx c)) (λ d e.
        let known = or_panic-eq-ok (class_of ctx c) e in
        >>=-ne-stuck (place_own ctx measure fuel c d) _
          (own-ne-stuck measure fuel c d known lt deeper)
          (λ own _.
            >>=-ne-stuck (round_up own.size (max own.align 1)) _
              (round_up-ne-stuck own.size (max own.align 1))
              (λ nv _.
                >>=-ne-stuck (msvc_virtual_bases measure d.bases (moved nv own)) _
                  (virtual_bases-ne-stuck measure d.bases (moved nv own)
                    (λ b m. deeper b.class (ranked.base_lt c d b known m)))
                  (λ st _.
                    >>=-ne-stuck (round_up st.size (max st.align 1)) _
                      (round_up-ne-stuck st.size (max st.align 1))
                      (λ r _.
                        >>=-ne-stuck (detect_hfa ctx (suc fuel) c) _
                          (detect_hfa-ne-stuck ctx ranked (suc fuel) c lt)
                          (λ hfa _. ok-ne-stuck LayoutError _))))))
