-- ===== src/Abi/Vtable/Vtt/Entries.antt =====
-- What the entries of a table of tables refer to (vtt.rs).
use rustcc.Prelude.{
  ℕ, zero, suc, ◌+◌, ◌≤◌, ◌<◌, ◌≡◌, refl, sym, ◌∙◌, ap, arith, ◌==◌, if◌then◌else◌,
}
use rustcc.Prelude.{
  true, Bool-cases, inl, inr, ◌⊎◌, Option, none, some, List, [], ◌∷◌, ◌++◌, length, All, ok,
}
use rustcc.Prelude.{>>=-eq-ok, ok_inj}
use mathlib.Core.Path.{subst}
use rustcc.Abi.Types.{ClassId, BaseSpec}
use rustcc.Abi.Context.{CxxTypeCtx}
use rustcc.Abi.Layout.Classify.{collect_virtual_bases}
use rustcc.Abi.Vtable.Entries.{VTableSubTable, VTable}
use rustcc.Abi.Vtable.Tables.{Offsets, vtable_itanium}
use rustcc.Abi.Vtable.Vtt.Counts.{Backed, Backed-sub_tables}
use rustcc.Abi.Vtable.Vtt.{
  VttEntry, VttVtableRef, most_derived, construction, ConstructionVtable, offset_of,
  construction_entries, base_entries, needs_construction, secondary_vtts, position_from, entry_if,
  virtual_pointers, contains, other_pointers, constructions_of, construction_vtable,
  vtable_class_mangled,
}

-- A construction table for a base at an offset is among those of the class.
abbrev pub Offered : ClassId → ℕ → List ConstructionVtable → Type 0
Offered base offset [] = ⊥
Offered base offset (c ∷ cs) = ((c.base ≡ base) × (c.offset ≡ offset)) ⊎ Offered base offset cs

-- An entry names a sub-table that exists: one of the class's own table, or of a construction table
-- of the class, which has the sub-tables of its base's table.
abbrev pub ExistsIn :
    CxxTypeCtx → ℕ → List VTableSubTable → List ConstructionVtable → VttVtableRef → ℕ → Type 0
ExistsIn ctx fuel tables cs most_derived i = i < length tables
ExistsIn ctx fuel tables cs (construction base offset) i =
    Offered base offset cs
    × ((t : VTable) × (vtable_itanium ctx fuel base ≡ ok (some t)) × (i < length t.sub_tables))

-- Each base that needs a construction table is backed.
abbrev pub AllBacked : CxxTypeCtx → ℕ → List BaseSpec → Type 0
AllBacked ctx fuel bs =
    All (λ (b : BaseSpec). needs_construction ctx fuel b ≡ ok true → Backed ctx fuel b.class) bs

pub All-append {κ} :
    (P : VttEntry → Type κ) (xs ys : List VttEntry) → All P xs → All P ys → All P (xs ++ ys)
All-append P [] ys h k = k
All-append P (x ∷ xs) ys (p, h) k = (p, All-append P xs ys h k)

module _ (ctx : CxxTypeCtx) (fuel : ℕ) (tables : List VTableSubTable) where
  abbrev pub Exists : List ConstructionVtable → VttEntry → Type 0
  Exists cs e = ExistsIn ctx fuel tables cs e.vtable e.sub_table

  more :
      (c : ConstructionVtable) (cs : List ConstructionVtable) (es : List VttEntry)
      → All (Exists cs) es
      → All (Exists (c ∷ cs)) es
  more c cs [] h = tt
  more c cs (e ∷ es) (p, h) = (one e.vtable e.sub_table p, more c cs es h)
    where
      one :
          (r : VttVtableRef) (i : ℕ)
          → ExistsIn ctx fuel tables cs r i
          → ExistsIn ctx fuel tables (c ∷ cs) r i
      one most_derived i p = p
      one (construction base offset) i p = (inr p.0, p.1)

  construction_entries-Exist :
      (cs : List ConstructionVtable) (base offset i count : ℕ) (t : VTable)
      → Offered base offset cs
      → vtable_itanium ctx fuel base ≡ ok (some t)
      → i + count ≤ length t.sub_tables
      → All (Exists cs) (construction_entries base offset i count)
  unfolding construction_entries
  construction_entries-Exist cs base offset i zero t o e le = tt
  construction_entries-Exist cs base offset i (suc count) t o e le = (
    (o, (t, e, omega arith)),
    construction_entries-Exist cs base offset (i + 1) count t o e (omega arith),
  )

  base_entries-Exist :
      (cs : List ConstructionVtable) (offsets : Offsets) (base : ClassId) (es : List VttEntry)
      → Backed ctx fuel base
      → Offered base (offset_of base offsets) cs
      → base_entries ctx fuel offsets base ≡ ok es
      → All (Exists cs) es
  unfolding base_entries
  base_entries-Exist cs offsets base es k o h =
      let (vbases, a, b) = >>=-eq-ok (collect_virtual_bases ctx fuel base) _ h in
      subst (All (Exists cs)) (ok_inj b) (
        let same : vbases ≡ k.vbases = ok_inj (sym a ∙ k.vbases_eq) in
        construction_entries-Exist cs base (offset_of base offsets) 0 (suc (length vbases)) k.table
          o k.table_eq (omega (arith, Backed-sub_tables ctx fuel base k, ap length same)))

  construction_vtable-Offered :
      (name : List ℕ) (offsets : Offsets) (base : ClassId) (c : ConstructionVtable)
      (cs : List ConstructionVtable)
      → construction_vtable ctx fuel name offsets base ≡ ok c
      → Offered base (offset_of base offsets) (c ∷ cs)
  unfolding construction_vtable
  construction_vtable-Offered name offsets base c cs h =
      let (base_name, a, b) = >>=-eq-ok (vtable_class_mangled ctx fuel base) _ h in
      inl (sym (ap (λ q. q.base) (ok_inj b)), sym (ap (λ q. q.offset) (ok_inj b)))

  pub secondary_vtts-Exist :
      (name : List ℕ) (offsets : Offsets) (bs : List BaseSpec) (es : List VttEntry)
      (cs : List ConstructionVtable)
      → AllBacked ctx fuel bs
      → secondary_vtts ctx fuel offsets bs ≡ ok es
      → constructions_of ctx fuel name offsets bs ≡ ok cs
      → All (Exists cs) es
  unfolding secondary_vtts constructions_of
  secondary_vtts-Exist name offsets [] es cs v h k = subst (All (Exists cs)) (ok_inj h) tt
  secondary_vtts-Exist name offsets (b ∷ bs) es cs v h k =
      let (needed, a, h1) = >>=-eq-ok (needs_construction ctx fuel b) _ h in
      let (es1, c, h2) =
        >>=-eq-ok (if needed then base_entries ctx fuel offsets b.class else ok []) _ h1 in
      let (rest, d, h3) = >>=-eq-ok (secondary_vtts ctx fuel offsets bs) _ h2 in
      let (needed', a', k1) = >>=-eq-ok (needs_construction ctx fuel b) _ k in
      let same : needed' ≡ needed = ok_inj (sym a' ∙ a) in
      elim (Bool-cases needed) [
        | inl y ↦
            let (c1, e, k2) =
              >>=-eq-ok (construction_vtable ctx fuel name offsets b.class) _
                (rw (same, y) at k1) in
            let (cs1, f, k3) = >>=-eq-ok (constructions_of ctx fuel name offsets bs) _ k2 in
            let offered = construction_vtable-Offered name offsets b.class c1 cs1 e in
            let here =
              base_entries-Exist (c1 ∷ cs1) offsets b.class es1 (v.0 (a ∙ ap ok y)) offered
                (rw y at c) in
            let there = more c1 cs1 rest (secondary_vtts-Exist name offsets bs rest cs1 v.1 d f) in
            subst (λ q. All (Exists q) es) (ok_inj k3)
              (subst (All (Exists (c1 ∷ cs1))) (ok_inj h3)
                (All-append (Exists (c1 ∷ cs1)) es1 rest here there))
        | inr n ↦
            let there = secondary_vtts-Exist name offsets bs rest cs v.1 d (rw (same, n) at k1) in
            let none_here : [] ≡ es1 = ok_inj (rw n at c) in
            subst (All (Exists cs)) (ok_inj h3)
              (All-append (Exists cs) es1 rest (subst (All (Exists cs)) none_here tt) there)
      ]

position_from-lt :
    (i : ℕ) (vb : ClassId) (ts : List VTableSubTable) (j : ℕ)
    → position_from i vb ts ≡ some j
    → j < i + length ts
unfolding position_from
position_from-lt i vb [] j h = absurd (ground arith)
position_from-lt i vb (t ∷ ts) j h = elim (Bool-cases (t.for_subobject == vb)) [
  | inl y ↦ let e : some i ≡ some j = rw y at h in ground arith
  | inr n ↦ let lt = position_from-lt (i + 1) vb ts j (rw n at h) in omega (arith, lt)
]

module _ (ctx : CxxTypeCtx) (fuel : ℕ) (tables : List VTableSubTable)
    (cs : List ConstructionVtable) where
  pub virtual_pointers-Exist :
      (vbs : List ClassId) → All (Exists ctx fuel tables cs) (virtual_pointers tables vbs)
  unfolding virtual_pointers
  virtual_pointers-Exist [] = tt
  virtual_pointers-Exist (vb ∷ vbs) =
      go (position_from 0 vb tables) refl (virtual_pointers-Exist vbs)
    where
      go :
          (o : Option ℕ)
          → position_from 0 vb tables ≡ o
          → All (Exists ctx fuel tables cs) (virtual_pointers tables vbs)
          → All (Exists ctx fuel tables cs) (entry_if o (virtual_pointers tables vbs))
      go none e h = h
      go (some i) e h = (omega (arith, position_from-lt 0 vb tables i e), h)

  pub other_pointers-Exist :
      (vbases : List ClassId) (i : ℕ) (ts : List VTableSubTable)
      → i + length ts ≤ length tables
      → All (Exists ctx fuel tables cs) (other_pointers vbases i ts)
  unfolding other_pointers
  other_pointers-Exist vbases i [] le = tt
  other_pointers-Exist vbases i (t ∷ ts) le =
      let rest = other_pointers-Exist vbases (i + 1) ts (omega arith) in
      elim (Bool-cases (i == 0)) [
        | inl y ↦ rw y rest
        | inr n ↦ elim (Bool-cases (contains t.for_subobject vbases)) [
          | inl v ↦ rw (n, v) rest
          | inr o ↦ rw (n, o) (omega arith, rest)
        ]
      ]
