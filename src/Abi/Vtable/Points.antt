-- ===== src/Abi/Vtable/Points.antt =====
-- Address points: where the virtual pointers of a class point in its table (`vtable_itanium` of
-- vtable.rs).
use rustcc.Prelude.{ℕ, suc, ◌+◌, ◌*◌, ◌≡◌, refl, sym, ◌∙◌, ap, arith, not, if◌then◌else◌}
use rustcc.Prelude.{
  Bool-cases, inl, inr, Option, none, some, List, [], ◌∷◌, ◌++◌, map, reverse, length,
  length-append, push,
}
use rustcc.Prelude.{Bool, true, false, ok, >>=-eq-ok, ok_inj, or_panic, or_panic-eq-ok}
use mathlib.Core.List.{reverse-cons, append_assoc, append-nil}
use mathlib.Core.Path.{subst}
use mathlib.Core.Option.{some-injective}
use rustcc.Abi.Types.{ClassId, ClassDef, ℤ, pos}
use rustcc.Abi.Context.{CxxTypeCtx, class_of}
use rustcc.Abi.Layout.Classify.{pick_primary_base}
use rustcc.Abi.Layout.Place.{pointer_size}
use rustcc.Abi.Mangle.Symbols.{Symbol, mangle_itanium}
use rustcc.Abi.Vtable.Slots.{VSlot, build_virtual_slots}
use rustcc.Abi.Vtable.Entries.{
  VTableEntry, vbase_offset, offset_to_top, rtti, VTableSubTable, VTable, as_i64, negated,
  slot_to_entry,
}
use rustcc.Abi.Vtable.Tables.{
  Offsets, virtual_bases, direct_bases, lower, rtti_symbol, build_primary_entries, secondary_entry,
  build_secondary_entries, TableState, add_sub_table, add_polymorphic, is_primary, add_bases,
  first_table, polymorphic_table, vtable_itanium,
}
use rustcc.Abi.Vtable.Pointers.{
  Pointers, slot_to_entry-IsPointer, secondary_entry-IsPointer, lower-Pointers, Matches,
  lower-Matches, IsSecondary, secondary_entry-IsSecondary,
}

map-offsets :
    (vs : Offsets)
    → map (λ v. vbase_offset (as_i64 v.1)) vs ≡ map (λ z. vbase_offset z) (map (λ v. as_i64 v.1) vs)
map-offsets [] = refl
map-offsets (v ∷ vs) = ap (λ q. vbase_offset (as_i64 v.1) ∷ q) (map-offsets vs)

length-offsets : (vs : Offsets) → length (map (λ v. as_i64 v.1) vs) ≡ length vs
length-offsets [] = refl
length-offsets (v ∷ vs) = ap suc (length-offsets vs)

length-reverse : (vs : Offsets) → length (reverse vs) ≡ length vs
length-reverse [] = refl
length-reverse (v ∷ vs) =
    ap length (reverse-cons v vs)
    ∙ length-append (reverse vs) (v ∷ [])
    ∙ (let rest = length-reverse vs in omega arith)

abbrev pub is_polymorphic_class : CxxTypeCtx → ClassId → Bool
is_polymorphic_class ctx c = elim (class_of ctx c) [ none ↦ false | some def ↦ def.is_polymorphic ]

-- The bases of polymorphic classes, in their order.
abbrev pub polymorphic_of : CxxTypeCtx → Offsets → Offsets
polymorphic_of ctx [] = []
polymorphic_of ctx (p ∷ ps) =
    let rest = polymorphic_of ctx ps in if is_polymorphic_class ctx p.0 then p ∷ rest else rest

-- The bases but the primary one.
abbrev pub not_primary : Option ClassId → Offsets → Offsets
not_primary primary [] = []
not_primary primary (p ∷ ps) =
    let rest = not_primary primary ps in if is_primary primary p.0 then rest else p ∷ rest

-- The subobjects that sub-tables serve.
abbrev pub subobjects : List VTableSubTable → Offsets
subobjects [] = []
subobjects (t ∷ ts) = (t.for_subobject, t.subobject_offset) ∷ subobjects ts

subobjects-push :
    (ts : List VTableSubTable) (t : VTableSubTable)
    → subobjects (push ts t) ≡ push (subobjects ts) (t.for_subobject, t.subobject_offset)
subobjects-push [] t = refl
subobjects-push (u ∷ us) t =
    ap (λ (q : Offsets). (u.for_subobject, u.subobject_offset) ∷ q) (subobjects-push us t)

polymorphic_of-cons :
    (ctx : CxxTypeCtx) (p : ClassId × ℕ) (ps : Offsets)
    → polymorphic_of ctx (p ∷ []) ++ polymorphic_of ctx ps ≡ polymorphic_of ctx (p ∷ ps)
polymorphic_of-cons ctx p ps = elim (Bool-cases (is_polymorphic_class ctx p.0)) [
  | inl y ↦ rw y refl
  | inr n ↦ rw n refl
]

not_primary-none : (ps : Offsets) → not_primary none ps ≡ ps
not_primary-none [] = refl
not_primary-none (p ∷ ps) = ap (λ (q : Offsets). p ∷ q) (not_primary-none ps)

module _ (ctx : CxxTypeCtx) (fuel : ℕ) (name : List ℕ) where
  -- A sub-table that begins `start` words behind the symbol: the given offsets of virtual bases,
  -- the way back to the top, the type information of the class, and a function for each slot of the
  -- subobject, related to it by `R`; the address point is the word of the first function.
  pub record IsSubTable (start : ℕ) (vbases : List ℤ) (R : VSlot → VTableEntry → Type 0)
      (t : VTableSubTable) : Type 0 where
    pub top : ℤ
    pub functions : List VTableEntry
    pub slots : List VSlot
    pub shape :
        t.entries ≡ map (λ z. vbase_offset z) vbases ++ (offset_to_top top ∷ rtti name ∷ functions)
    pub back : negated t.subobject_offset ≡ ok top
    pub resolved : build_virtual_slots ctx fuel t.for_subobject ≡ ok slots
    pub matched : Matches R slots functions
    pub pointers : Pointers functions (length slots)
    pub address : t.address_point_offset ≡ (start + (length vbases + 2)) * pointer_size ctx

  -- The entry of a slot in the first sub-table.
  abbrev pub IsDirect : VSlot → VTableEntry → Type 0
  IsDirect s e = slot_to_entry ctx fuel s ≡ ok e

  module _ (class : ClassId) where
    -- Sub-tables of bases, one after the other from word `start` on, up to word `end`.
    abbrev pub Consecutive : ℕ → ℕ → List VTableSubTable → Type 0
    Consecutive start end [] = end ≡ start
    Consecutive start end (t ∷ ts) =
        IsSubTable start [] (IsSecondary ctx fuel class t.subobject_offset) t
        × Consecutive (start + length t.entries) end ts

    -- The table of a class: its own sub-table, then those of the polymorphic direct bases but the
    -- primary one, then those of the polymorphic virtual bases.
    pub record IsTable (t : VTable) : Type 0 where
      pub def : ClassDef
      pub primary : Option ClassId
      pub bases : Offsets
      pub vbases : Offsets
      pub first : VTableSubTable
      pub rest : List VTableSubTable
      pub end : ℕ
      pub def_eq : class_of ctx class ≡ some def
      pub primary_eq : pick_primary_base ctx def ≡ ok primary
      pub bases_eq : direct_bases ctx fuel class ≡ ok bases
      pub vbases_eq : virtual_bases ctx fuel class ≡ ok vbases
      pub symbol : mangle_itanium ctx fuel (Symbol.vtable class) ≡ ok t.symbol
      pub tables : t.sub_tables ≡ first ∷ rest
      pub of_class : (first.for_subobject ≡ class) × (first.subobject_offset ≡ 0)
      pub own : IsSubTable 0 (map (λ v. as_i64 v.1) (reverse vbases)) IsDirect first
      pub later : Consecutive (length first.entries) end rest
      pub of_bases :
          subobjects rest
          ≡ polymorphic_of ctx (not_primary primary bases) ++ polymorphic_of ctx vbases

    Consecutive-push :
        (start end : ℕ) (ts : List VTableSubTable) (t : VTableSubTable)
        → Consecutive start end ts
        → IsSubTable end [] (IsSecondary ctx fuel class t.subobject_offset) t
        → Consecutive start (end + length t.entries) (push ts t)
    Consecutive-push start end [] t e h = (
      subst (λ n. IsSubTable n [] (IsSecondary ctx fuel class t.subobject_offset) t) e h,
      ap (λ n. n + length t.entries) e,
    )
    Consecutive-push start end (u ∷ us) t (g, c) h =
        (g, Consecutive-push (start + length u.entries) end us t c h)

    -- The state behind the first sub-table and those of the subobjects `done`.
    record Laid (first : VTableSubTable) (done : Offsets) (st : TableState) : Type 0 where
      end : ℕ
      rest : List VTableSubTable
      tables : st.sub_tables ≡ first ∷ rest
      later : Consecutive (length first.entries) end rest
      running : st.running_offset ≡ end * pointer_size ctx
      of_bases : subobjects rest ≡ done

  module _ (class : ClassId) (named : rtti_symbol ctx fuel class ≡ ok name) where
    IsSecondary-IsSubTable :
        (start base offset : ℕ) (es : List VTableEntry)
        → build_secondary_entries ctx fuel class base offset ≡ ok es
        → IsSubTable start [] (IsSecondary ctx fuel class offset) (record {
          for_subobject = base;
          subobject_offset = offset;
          entries = es;
          address_point_offset = start * pointer_size ctx + 2 * pointer_size ctx;
        })
    unfolding build_secondary_entries
    IsSecondary-IsSubTable start base offset es h =
        let (top, a, b) = >>=-eq-ok (negated offset) _ h in
        let (name', c, d) = >>=-eq-ok (rtti_symbol ctx fuel class) _ b in
        let (slots, e, f) = >>=-eq-ok (build_virtual_slots ctx fuel base) _ d in
        let (fs, g, i) = >>=-eq-ok (lower (secondary_entry ctx fuel class offset) slots) _ f in
        let same : name' ≡ name = ok_inj (sym c ∙ named) in
        record {
          top = top;
          functions = fs;
          slots = slots;
          shape = sym (ok_inj i) ∙ ap (λ q. offset_to_top top ∷ rtti q ∷ fs) same;
          back = a;
          resolved = e;
          matched =
              lower-Matches (IsSecondary ctx fuel class offset)
                (secondary_entry ctx fuel class offset) slots fs
                (secondary_entry-IsSecondary ctx fuel class offset) g;
          pointers =
              lower-Pointers (secondary_entry ctx fuel class offset) slots fs
                (secondary_entry-IsPointer ctx fuel class offset) g;
          address = grind arith;
        }

    add_sub_table-Laid :
        (first : VTableSubTable) (done : Offsets) (base offset : ℕ) (st st' : TableState)
        → add_sub_table ctx fuel class base offset st ≡ ok st'
        → Laid class first done st
        → Laid class first (push done (base, offset)) st'
    unfolding add_sub_table
    add_sub_table-Laid first done base offset st st' h laid =
        let (es, a, b) = >>=-eq-ok (build_secondary_entries ctx fuel class base offset) _ h in
        let t : VTableSubTable = record {
          for_subobject = base;
          subobject_offset = offset;
          entries = es;
          address_point_offset = laid.end * pointer_size ctx + 2 * pointer_size ctx;
        } in
        subst (Laid class first (push done (base, offset))) (ok_inj b) (record {
          end = laid.end + length es;
          rest = push laid.rest t;
          tables = rw (laid.running, laid.tables) refl;
          later =
              Consecutive-push class (length first.entries) laid.end laid.rest t laid.later
                (IsSecondary-IsSubTable laid.end base offset es a);
          running = (let r = laid.running in grind arith);
          of_bases =
              subobjects-push laid.rest t
              ∙ ap (λ (q : Offsets). push q (base, offset)) laid.of_bases;
        })

    add_polymorphic-Laid :
        (first : VTableSubTable) (done : Offsets) (base offset : ℕ) (st st' : TableState)
        → add_polymorphic ctx fuel class base offset st ≡ ok st'
        → Laid class first done st
        → Laid class first (done ++ polymorphic_of ctx ((base, offset) ∷ [])) st'
    unfolding add_polymorphic
    add_polymorphic-Laid first done base offset st st' h laid =
        let (def, a, b) = >>=-eq-ok (or_panic (class_of ctx base)) _ h in
        let found = or_panic-eq-ok (class_of ctx base) a in
        elim (Bool-cases (not def.is_polymorphic)) [
          | inl y ↦
              let plain : is_polymorphic_class ctx base ≡ false =
                rw (found, is_polymorphic_class) (ground arith) in
              let laid' = subst (Laid class first done) (ok_inj (rw y at b)) laid in
              rw plain (subst (λ q. Laid class first q st') (sym (append-nil done)) laid')
          | inr n ↦
              let poly : is_polymorphic_class ctx base ≡ true =
                rw (found, is_polymorphic_class) (ground arith) in
              rw poly (add_sub_table-Laid first done base offset st st' (rw n at b) laid)
        ]

    add_bases-Laid :
        (first : VTableSubTable) (primary : Option ClassId) (bases : Offsets) (done : Offsets)
        (st st' : TableState)
        → add_bases ctx fuel class primary bases st ≡ ok st'
        → Laid class first done st
        → Laid class first (done ++ polymorphic_of ctx (not_primary primary bases)) st'
    unfolding add_bases
    add_bases-Laid first primary [] done st st' h laid =
        subst (λ q. Laid class first q st') (sym (append-nil done))
          (subst (Laid class first done) (ok_inj h) laid)
    add_bases-Laid first primary ((base, offset) ∷ bases) done st st' h laid =
        let (mid, a, b) =
          >>=-eq-ok
            (if is_primary primary base
              then ok st
              else add_polymorphic ctx fuel class base offset st)
            _ h in
        let others = not_primary primary bases in
        let here = polymorphic_of ctx ((base, offset) ∷ []) in
        elim (Bool-cases (is_primary primary base)) [
          | inl y ↦
              let laid' = subst (Laid class first done) (ok_inj (rw y at a)) laid in
              rw y (add_bases-Laid first primary bases done mid st' b laid')
          | inr n ↦
              let one = add_polymorphic-Laid first done base offset st mid (rw n at a) laid in
              rw n (
                subst (λ q. Laid class first q st')
                  (append_assoc done here (polymorphic_of ctx others)
                    ∙ ap (λ (q : Offsets). done ++ q)
                        (polymorphic_of-cons ctx (base, offset) others))
                  (add_bases-Laid first primary bases (done ++ here) mid st' b one))
        ]

    primary-IsSubTable :
        (vbases : Offsets) (es : List VTableEntry)
        → virtual_bases ctx fuel class ≡ ok vbases
        → build_primary_entries ctx fuel class ≡ ok es
        → IsSubTable 0 (map (λ v. as_i64 v.1) (reverse vbases)) IsDirect (record {
          for_subobject = class;
          subobject_offset = 0;
          entries = es;
          address_point_offset = (length vbases + 2) * pointer_size ctx;
        })
    unfolding build_primary_entries negated
    primary-IsSubTable vbases es v h =
        let (vbases', a, b) = >>=-eq-ok (virtual_bases ctx fuel class) _ h in
        let (name', c, d) = >>=-eq-ok (rtti_symbol ctx fuel class) _ b in
        let (slots, e, f) = >>=-eq-ok (build_virtual_slots ctx fuel class) _ d in
        let (fs, g, i) = >>=-eq-ok (lower (slot_to_entry ctx fuel) slots) _ f in
        let same_name : name' ≡ name = ok_inj (sym c ∙ named) in
        let same : vbases' ≡ vbases = ok_inj (sym a ∙ v) in
        record {
          top = pos 0;
          functions = fs;
          slots = slots;
          shape =
              sym (ok_inj i)
              ∙ ap
                  (λ q.
                    map (λ w. vbase_offset (as_i64 w.1)) (reverse q)
                    ++ (offset_to_top (pos 0) ∷ rtti name' ∷ fs))
                  same
              ∙ ap
                  (λ q.
                    map (λ w. vbase_offset (as_i64 w.1)) (reverse vbases)
                    ++ (offset_to_top (pos 0) ∷ rtti q ∷ fs))
                  same_name
              ∙ ap (λ q. q ++ (offset_to_top (pos 0) ∷ rtti name ∷ fs))
                  (map-offsets (reverse vbases));
          back = refl;
          resolved = e;
          matched = lower-Matches IsDirect (slot_to_entry ctx fuel) slots fs (λ u e q. q) g;
          pointers =
              lower-Pointers (slot_to_entry ctx fuel) slots fs (slot_to_entry-IsPointer ctx fuel) g;
          address =
              ap (λ n. n * pointer_size ctx)
                (omega (arith, length-offsets (reverse vbases), length-reverse vbases));
        }

    polymorphic_table-IsTable :
        (t : VTable) → polymorphic_table ctx fuel class ≡ ok t → IsTable class t
    unfolding polymorphic_table first_table
    polymorphic_table-IsTable t h =
        let (st, a, b) = >>=-eq-ok (first_table ctx fuel class) _ h in
        let (vs, a0, a1) = >>=-eq-ok (virtual_bases ctx fuel class) _ a in
        let (es, a2, a3) = >>=-eq-ok (build_primary_entries ctx fuel class) _ a1 in
        let (def, c, d) = >>=-eq-ok (or_panic (class_of ctx class)) _ b in
        let (primary, e, f) = >>=-eq-ok (pick_primary_base ctx def) _ d in
        let (bases, g, i) = >>=-eq-ok (direct_bases ctx fuel class) _ f in
        let (vbases, j, k) = >>=-eq-ok (virtual_bases ctx fuel class) _ i in
        let (st1, l, m) = >>=-eq-ok (add_bases ctx fuel class primary bases st) _ k in
        let (st2, n, o) = >>=-eq-ok (add_bases ctx fuel class none vbases st1) _ m in
        let (symbol, p, q) = >>=-eq-ok (mangle_itanium ctx fuel (Symbol.vtable class)) _ o in
        let first : VTableSubTable = record {
          for_subobject = class;
          subobject_offset = 0;
          entries = es;
          address_point_offset = (length vbases + 2) * pointer_size ctx;
        } in
        let same : vs ≡ vbases = ok_inj (sym a0 ∙ j) in
        let laid : Laid class first [] st = subst (Laid class first []) (ok_inj a3) (record {
          end = length es;
          rest = [];
          tables = rw same refl;
          later = refl;
          running = refl;
          of_bases = refl;
        }) in
        let laid1 = add_bases-Laid first primary bases [] st st1 l laid in
        let laid2 = add_bases-Laid first none vbases _ st1 st2 n laid1 in
        subst (IsTable class) (ok_inj q) (record {
          def = def;
          primary = primary;
          bases = bases;
          vbases = vbases;
          first = first;
          rest = laid2.rest;
          end = laid2.end;
          def_eq = or_panic-eq-ok (class_of ctx class) c;
          primary_eq = e;
          bases_eq = g;
          vbases_eq = j;
          symbol = p;
          tables = laid2.tables;
          of_class = (refl, refl);
          own = primary-IsSubTable vbases es j a2;
          later = laid2.later;
          of_bases =
              laid2.of_bases
              ∙ ap
                  (λ (q : Offsets).
                    polymorphic_of ctx (not_primary primary bases) ++ polymorphic_of ctx q)
                  (not_primary-none vbases);
        })

-- A table that is returned has the symbol of the type information of its class.
pub vtable_itanium-rtti_symbol :
    (ctx : CxxTypeCtx) (fuel : ℕ) (class : ClassId) (t : VTable)
    → vtable_itanium ctx fuel class ≡ ok (some t)
    → (name : List ℕ) × (rtti_symbol ctx fuel class ≡ ok name)
unfolding vtable_itanium polymorphic_table first_table build_primary_entries
vtable_itanium-rtti_symbol ctx fuel class t h =
    let (def, a, b) = >>=-eq-ok (or_panic (class_of ctx class)) _ h in
    elim (Bool-cases (not def.is_polymorphic)) [
      | inl y ↦ absurd (cc (rw y at b))
      | inr n ↦
          let (u, c, d) = >>=-eq-ok (polymorphic_table ctx fuel class) _ (rw n at b) in
          let (st, e, f) = >>=-eq-ok (first_table ctx fuel class) _ c in
          let (vs, g, i) = >>=-eq-ok (virtual_bases ctx fuel class) _ e in
          let (es, j, k) = >>=-eq-ok (build_primary_entries ctx fuel class) _ i in
          let (vs', l, m) = >>=-eq-ok (virtual_bases ctx fuel class) _ j in
          let (name, o, p) = >>=-eq-ok (rtti_symbol ctx fuel class) _ m in (name, o)
    ]

-- A virtual table that is returned, for a class whose type information has the symbol `name`,
-- carries the mangled symbol of the class. Its sub-tables are that of the class itself, at 0, then
-- one for each polymorphic direct base but the primary one, then one for each polymorphic virtual
-- base, in the order of the layout and at the offsets of the layout. They follow each other without
-- a gap. Each consists of offsets of virtual bases (in the first those of all virtual bases, from
-- the last to the first, in the others none), the way back from its subobject to the top, the type
-- information of the class, and a function for each slot of its subobject: in the first the one
-- that `slot_to_entry` gives, in the others that of the override that the most derived class sees,
-- behind a thunk by the offset of the subobject where the class itself overrides it, and directly
-- or behind such a thunk where it is inherited. The address point is the byte of the first function.
pub vtable_itanium-Consecutive :
    (ctx : CxxTypeCtx) (fuel : ℕ) (class : ClassId) (t : VTable) (name : List ℕ)
    → vtable_itanium ctx fuel class ≡ ok (some t)
    → rtti_symbol ctx fuel class ≡ ok name
    → IsTable ctx fuel name class t
unfolding vtable_itanium
vtable_itanium-Consecutive ctx fuel class t name h named =
    let (def, a, b) = >>=-eq-ok (or_panic (class_of ctx class)) _ h in
    elim (Bool-cases (not def.is_polymorphic)) [
      | inl y ↦ absurd (cc (rw y at b))
      | inr n ↦
          let (u, c, d) = >>=-eq-ok (polymorphic_table ctx fuel class) _ (rw n at b) in
          let same : u ≡ t = some-injective u t (ok_inj d) in
          polymorphic_table-IsTable ctx fuel name class named t (c ∙ ap (λ q. ok q) same)
    ]
