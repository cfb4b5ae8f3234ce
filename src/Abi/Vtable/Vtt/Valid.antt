-- ===== src/Abi/Vtable/Vtt/Valid.antt =====
-- A table of tables against the table of the class and its construction tables (vtt.rs).
use rustcc.Prelude.{ℕ, ◌<◌, ◌≡◌, sym, ◌∙◌, ap, arith, not, if◌then◌else◌}
use rustcc.Prelude.{Bool-cases, inl, inr, Option, none, some, List, [], ◌∷◌, length, push, All, ok}
use rustcc.Prelude.{◌>>=◌, >>=-eq-ok, ok_inj, or_panic, or_panic-eq-ok}
use mathlib.Core.Path.{subst}
use mathlib.Core.Option.{some-injective}
use rustcc.Abi.Types.{ClassId, ClassDef}
use rustcc.Abi.Context.{CxxTypeCtx, class_of}
use rustcc.Abi.Layout.Classify.{has_virtual_base_chain, collect_virtual_bases, pick_primary_base}
use rustcc.Abi.Mangle.Symbols.{Symbol, mangle_itanium}
use rustcc.Abi.Vtable.Entries.{VTableSubTable, VTable}
use rustcc.Abi.Vtable.Tables.{
  Offsets, TableState, virtual_bases, direct_bases, build_primary_entries, build_secondary_entries,
  add_sub_table, add_polymorphic, is_primary, add_bases, first_table, polymorphic_table,
  vtable_itanium,
}
use rustcc.Abi.Vtable.Vtt.{
  Vtt, VttEntry, ConstructionVtable, is_itanium, vtable_class_mangled, secondary_vtts,
  virtual_pointers, other_pointers, secondary_pointers, build_vtt, vtt, constructions_of,
  construction_vtables,
}
use rustcc.Abi.Vtable.Vtt.Entries.{
  Exists, AllBacked, All-append, secondary_vtts-Exist, virtual_pointers-Exist, other_pointers-Exist,
}

-- There is a sub-table.
abbrev IsStarted : TableState → Type 0
IsStarted st = 0 < length st.sub_tables

not_some : (t : VTable) → ◌≡◌ {A = Option VTable} none (some t) → ⊥
not_some t e = ground arith

not_some_vtt : (v : Vtt) → ◌≡◌ {A = Option Vtt} none (some v) → ⊥
not_some_vtt v e = ground arith

push-positive : (ts : List VTableSubTable) (t : VTableSubTable) → 0 < length (push ts t)
push-positive [] t = omega arith
push-positive (u ∷ us) t = omega arith

module _ (ctx : CxxTypeCtx) (fuel : ℕ) (class : ClassId) where
  polymorphic-IsStarted :
      (base offset : ℕ) (st st' : TableState)
      → add_polymorphic ctx fuel class base offset st ≡ ok st'
      → IsStarted st
      → IsStarted st'
  unfolding add_polymorphic add_sub_table
  polymorphic-IsStarted base offset st st' h s =
      let (def, a, b) = >>=-eq-ok (or_panic (class_of ctx base)) _ h in
      elim (Bool-cases (not def.is_polymorphic)) [
        | inl y ↦ subst IsStarted (ok_inj (rw y at b)) s
        | inr n ↦
            let (es, c, d) =
              >>=-eq-ok (build_secondary_entries ctx fuel class base offset) _ (rw n at b) in
            subst IsStarted (ok_inj d) (push-positive _ _)
      ]

  bases-IsStarted :
      (primary : Option ClassId) (bases : Offsets) (st st' : TableState)
      → add_bases ctx fuel class primary bases st ≡ ok st'
      → IsStarted st
      → IsStarted st'
  unfolding add_bases
  bases-IsStarted primary [] st st' h s = subst IsStarted (ok_inj h) s
  bases-IsStarted primary ((base, offset) ∷ bases) st st' h s =
      let (mid, a, b) =
        >>=-eq-ok
          (if is_primary primary base then ok st else add_polymorphic ctx fuel class base offset st)
          _ h in
      elim (Bool-cases (is_primary primary base)) [
        | inl y ↦ bases-IsStarted primary bases mid st' b (subst IsStarted (ok_inj (rw y at a)) s)
        | inr n ↦
            bases-IsStarted primary bases mid st' b
              (polymorphic-IsStarted base offset st mid (rw n at a) s)
      ]

  table-IsStarted : (t : VTable) → polymorphic_table ctx fuel class ≡ ok t → 0 < length t.sub_tables
  unfolding polymorphic_table first_table
  table-IsStarted t h =
      let (st, a, b) = >>=-eq-ok (first_table ctx fuel class) _ h in
      let (vs, a1, a2) = >>=-eq-ok (virtual_bases ctx fuel class) _ a in
      let (es, a3, a4) = >>=-eq-ok (build_primary_entries ctx fuel class) _ a2 in
      let (def, c, d) = >>=-eq-ok (or_panic (class_of ctx class)) _ b in
      let (primary, e, f) = >>=-eq-ok (pick_primary_base ctx def) _ d in
      let (bases, g, i) = >>=-eq-ok (direct_bases ctx fuel class) _ f in
      let (vbases, j, k) = >>=-eq-ok (virtual_bases ctx fuel class) _ i in
      let (st1, l, m) = >>=-eq-ok (add_bases ctx fuel class primary bases st) _ k in
      let (st2, n, o) = >>=-eq-ok (add_bases ctx fuel class none vbases st1) _ m in
      let (symbol, p, q) = >>=-eq-ok (mangle_itanium ctx fuel (Symbol.vtable class)) _ o in
      let positive =
        bases-IsStarted none vbases st1 st2 n
          (bases-IsStarted primary bases st st1 l (subst IsStarted (ok_inj a4) (omega arith))) in
      subst (λ t. 0 < length t.sub_tables) (ok_inj q) positive

  vtable_itanium-first :
      (t : VTable) → vtable_itanium ctx fuel class ≡ ok (some t) → 0 < length t.sub_tables
  unfolding vtable_itanium
  vtable_itanium-first t h =
      let (def, a, b) = >>=-eq-ok (or_panic (class_of ctx class)) _ h in
      elim (Bool-cases (not def.is_polymorphic)) [
        | inl y ↦ absurd (not_some t (ok_inj (rw y at b)))
        | inr n ↦
            let (u, c, d) = >>=-eq-ok (polymorphic_table ctx fuel class) _ (rw n at b) in
            table-IsStarted t (c ∙ ap (λ q. ok q) (some-injective u t (ok_inj d)))
      ]

  build_vtt-Exist :
      (v : Vtt) (t : VTable) (name : List ℕ) (offsets : Offsets) (cs : List ConstructionVtable)
      → ((def : ClassDef) → class_of ctx class ≡ some def → AllBacked ctx fuel def.bases)
      → build_vtt ctx fuel class ≡ ok v
      → vtable_itanium ctx fuel class ≡ ok (some t)
      → direct_bases ctx fuel class ≡ ok offsets
      → (or_panic (class_of ctx class) >>= λ def. constructions_of ctx fuel name offsets def.bases)
        ≡ ok cs
      → All (Exists ctx fuel t.sub_tables cs) v.entries
  unfolding build_vtt secondary_pointers
  build_vtt-Exist v t name offsets cs backed h table known made =
      let (name', a, b) = >>=-eq-ok (vtable_class_mangled ctx fuel class) _ h in
      let (def, c, d) = >>=-eq-ok (or_panic (class_of ctx class)) _ b in
      let (offsets', e, f) = >>=-eq-ok (direct_bases ctx fuel class) _ d in
      let (es, g, i) = >>=-eq-ok (secondary_vtts ctx fuel offsets' def.bases) _ f in
      let (o, j, k) = >>=-eq-ok (vtable_itanium ctx fuel class) _ i in
      let (ps, l, m) = >>=-eq-ok (secondary_pointers ctx fuel class o) _ k in
      let (def', c', made') = >>=-eq-ok (or_panic (class_of ctx class)) _ made in
      let same_def : def' ≡ def = ok_inj (sym c' ∙ c) in
      let same : offsets' ≡ offsets = ok_inj (sym e ∙ known) in
      let same_table : o ≡ some t = ok_inj (sym j ∙ table) in
      let (vbases, n, p) =
        >>=-eq-ok (collect_virtual_bases ctx fuel class) _
          (subst (λ q. secondary_pointers ctx fuel class q ≡ ok ps) same_table l) in
      let P : (VttEntry → Type 0) = Exists ctx fuel t.sub_tables cs in
      let pointers = subst (All P) (ok_inj p) (
        All-append P (virtual_pointers t.sub_tables vbases) (other_pointers vbases 0 t.sub_tables)
          (virtual_pointers-Exist ctx fuel t.sub_tables cs vbases)
          (other_pointers-Exist ctx fuel t.sub_tables cs vbases 0 t.sub_tables (omega arith))) in
      let constructions =
        secondary_vtts-Exist ctx fuel t.sub_tables name offsets def.bases es cs
          (backed def (or_panic-eq-ok (class_of ctx class) c))
          (subst (λ q. secondary_vtts ctx fuel q def.bases ≡ ok es) same g)
          (subst (λ q. constructions_of ctx fuel name offsets q.bases ≡ ok cs) same_def made') in
      subst (λ q. All P q.entries) (ok_inj m)
        (vtable_itanium-first t table, All-append P es ps constructions pointers)

  -- Where the table of tables, the class's own table and its construction tables are returned, every
  -- entry of the first refers to a sub-table that exists: of the class's own table, or of one of the
  -- construction tables, which has the sub-tables of its base's table. For each base that needs a
  -- construction table, its own layout and table are returned, and all its virtual bases are
  -- polymorphic.
  pub vtt-Exist :
      (def : ClassDef) (v : Vtt) (t : VTable) (cs : List ConstructionVtable)
      → class_of ctx class ≡ some def
      → AllBacked ctx fuel def.bases
      → vtt ctx fuel class ≡ ok (some v)
      → vtable_itanium ctx fuel class ≡ ok (some t)
      → construction_vtables ctx fuel class ≡ ok cs
      → All (Exists ctx fuel t.sub_tables cs) v.entries
  unfolding vtt construction_vtables
  vtt-Exist top v t cs found backed h table made =
      elim (Bool-cases (is_itanium ctx.target.abi_flavor)) [
        | inr n ↦ absurd (not_some_vtt v (ok_inj (rw n at h)))
        | inl y ↦
            let (def, a, b) = >>=-eq-ok (or_panic (class_of ctx class)) _ (rw y at h) in
            let (has', a', b') =
              >>=-eq-ok (has_virtual_base_chain ctx fuel class) _ (rw y at made) in
            elim (Bool-cases (not def.is_polymorphic)) [
              | inl p ↦ absurd (not_some_vtt v (ok_inj (rw p at b)))
              | inr p ↦
                  let (has, c, d) =
                    >>=-eq-ok (has_virtual_base_chain ctx fuel class) _ (rw p at b) in
                  let same : has' ≡ has = ok_inj (sym a' ∙ c) in
                  elim (Bool-cases has) [
                    | inr q ↦ absurd (not_some_vtt v (ok_inj (rw q at d)))
                    | inl q ↦
                        let (u, e, f) = >>=-eq-ok (build_vtt ctx fuel class) _ (rw q at d) in
                        let (name, g, i) =
                          >>=-eq-ok (vtable_class_mangled ctx fuel class) _ (rw (same, q) at b') in
                        let (def', j, k) = >>=-eq-ok (or_panic (class_of ctx class)) _ i in
                        let (offsets, l, m) = >>=-eq-ok (direct_bases ctx fuel class) _ k in
                        build_vtt-Exist v t name offsets cs
                          (λ (w : ClassDef) e.
                            subst (λ (q : ClassDef). AllBacked ctx fuel q.bases)
                              (some-injective top w (sym found ∙ e)) backed)
                          (e ∙ ap (λ w. ok w) (some-injective u v (ok_inj f))) table l
                          (ap (λ o. o >>= λ w. constructions_of ctx fuel name offsets w.bases) j
                            ∙ m)
                  ]
            ]
      ]
