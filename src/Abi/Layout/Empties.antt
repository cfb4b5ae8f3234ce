-- ===== src/Abi/Layout/Empties.antt =====
-- The empty base optimisation: `find_empty_base_offset` of layout.rs.
use rustcc.Prelude.{ℕ, zero, suc, ◌+◌, ◌*◌, ◌≤◌, ◌<◌, max, ◌≡◌, ◌≢◌, refl, sym, arith}
use rustcc.Prelude.{
  true, false, ◌&&◌, ◌||◌, ◌==◌, leb, if◌then◌else◌, Bool-cases, inl, inr, List, [],
}
use rustcc.Prelude.{◌∷◌, length, push, ok, stuck, >>=-eq-ok, >>=-ne-stuck, checked, checked-ok}
use rustcc.Prelude.{checked-ne-stuck}
use rustcc.Abi.Types.{ClassId}
use rustcc.Abi.Layout.State.{RecordLayout}
use rustcc.Abi.Layout.Place.{occupied, search_offset, find_empty_base_offset}

abbrev Empties : Type 0
Empties = List (ClassId × ℕ)

-- How many entries of the class stand at `from` or behind it.
ahead : ClassId → ℕ → Empties → ℕ
ahead id from [] = 0
ahead id from ((j, o) ∷ rest) = (if j == id && leb from o then 1 else 0) + ahead id from rest

ahead-le-length : (id : ClassId) (from : ℕ) (xs : Empties) → ahead id from xs ≤ length xs
unfolding ahead
ahead-le-length id from [] = omega arith
ahead-le-length id from ((j, o) ∷ xs) = ground (arith, ahead-le-length id from xs)

ahead_anti :
    (id : ClassId) (from step : ℕ) (xs : Empties) → ahead id (from + step) xs ≤ ahead id from xs
unfolding ahead
ahead_anti id from step [] = omega arith
ahead_anti id from step ((j, o) ∷ xs) = ground (arith, ahead_anti id from step xs)

-- A step past an occupied offset leaves an entry behind.
ahead-lt :
    (id : ClassId) (from step : ℕ) (xs : Empties)
    → 0 < step
    → occupied id from xs ≡ true
    → ahead id (from + step) xs < ahead id from xs
unfolding ahead occupied
ahead-lt id from step [] pos h = cc
ahead-lt id from step ((j, o) ∷ xs) pos h =
    ground (arith, ahead_anti id from step xs, ahead-lt id from step xs pos)

-- The search does not run out while fewer entries stand ahead than rounds are left.
search_offset-ne-stuck :
    (id : ClassId) (step : ℕ) (xs : Empties) (fuel from : ℕ)
    → 0 < step
    → ahead id from xs < fuel
    → search_offset id step xs fuel from ≢ stuck
unfolding search_offset
search_offset-ne-stuck id step xs zero from pos lt = elim lt [ ]
search_offset-ne-stuck id step xs (suc fuel) from pos lt = elim (Bool-cases (occupied id from xs)) [
  | inl o ↦ rw o (
      >>=-ne-stuck (checked (from + step)) _ (checked-ne-stuck (from + step)) (λ next e.
        let n : next ≡ from + step = checked-ok (from + step) e in
        rw n (
          search_offset-ne-stuck id step xs fuel (from + step) pos
            (omega (arith, ahead-lt id from step xs pos o)))))
  | inr f ↦ rw f (λ e. cc e)
]

-- The search for a place of an empty base ends: one round more than there are recorded empty
-- subobjects is enough, whatever the offsets are.
pub find_empty_base_offset-ne-stuck :
    (xs : Empties) (id : ClassId) (layout : RecordLayout)
    → find_empty_base_offset xs id layout ≢ stuck
unfolding find_empty_base_offset
find_empty_base_offset-ne-stuck xs id layout =
    search_offset-ne-stuck id (max layout.align_bytes 1) xs (suc (length xs)) 0 (omega arith)
      (omega (arith, ahead-le-length id 0 xs))

search_offset_lem :
    (id : ClassId) (step : ℕ) (xs : Empties) (fuel k : ℕ) {off : ℕ}
    → search_offset id step xs fuel (k * step) ≡ ok off
    → (occupied id off xs ≡ false)
      × ((m : ℕ) × (off ≡ m * step)
          × (k ≤ m)
          × ((i : ℕ) → k ≤ i → i < m → occupied id (i * step) xs ≡ true))
unfolding search_offset
search_offset_lem id step xs zero k h = cc
search_offset_lem id step xs (suc fuel) k {off} h = elim (Bool-cases (occupied id (k * step) xs)) [
  | inl o ↦
      let (next, e, g) = >>=-eq-ok (checked (k * step + step)) _ (rw o at h) in
      let n : next ≡ (k + 1) * step = omega (arith, checked-ok (k * step + step) e) in
      let (free, found) = search_offset_lem id step xs fuel (k + 1) {off = off} (rw n at g) in
      let (m, at, le, all) = found in
      (
        free,
        (
          m,
          at,
          omega arith,
          λ i lo hi. elim (Bool-cases (i == k)) [
            | inl e' ↦ let same : i ≡ k = ground arith in rw same o
            | inr ne ↦ all i (ground arith) hi
          ],
        ),
      )
  | inr f ↦
      let at : k * step ≡ off = ground (arith, rw f at h) in
      (rw (← at) f, (k, sym at, omega arith, λ i lo hi. absurd (omega arith)))
]

-- The offset that is found is free for the class, is a multiple of the alignment of the base (0
-- counts as 1), and every smaller multiple is taken by an empty subobject of the same class.
pub find_empty_base_offset_lem :
    (xs : Empties) (id : ClassId) (layout : RecordLayout) {off : ℕ}
    → find_empty_base_offset xs id layout ≡ ok off
    → (occupied id off xs ≡ false)
      × ((m : ℕ) × (off ≡ m * max layout.align_bytes 1)
          × ((i : ℕ) → i < m → occupied id (i * max layout.align_bytes 1) xs ≡ true))
unfolding find_empty_base_offset
find_empty_base_offset_lem xs id layout {off} h =
    let (free, found) =
      search_offset_lem id (max layout.align_bytes 1) xs (suc (length xs)) 0 {off = off}
        (from_zero h) in
    let (m, at, _, all) = found in (free, (m, at, λ i hi. all i (omega arith) hi))
  where
    from_zero :
        search_offset id (max layout.align_bytes 1) xs (suc (length xs)) 0 ≡ ok off
        → search_offset id
            (max layout.align_bytes 1)
            xs
            (suc (length xs))
            (0 * max layout.align_bytes 1)
          ≡ ok off
    from_zero g = let z : 0 * max layout.align_bytes 1 ≡ 0 = omega arith in rw z g

-- No two recorded empty subobjects of one class stand at one offset.
abbrev pub Distinct : Empties → Type 0
Distinct [] = Unit
Distinct ((j, o) ∷ xs) = (occupied j o xs ≡ false) × Distinct xs

occupied-push :
    (id off : ℕ) (xs : Empties) (j o : ℕ)
    → occupied id off (push xs (j, o)) ≡ (occupied id off xs || (j == id && o == off))
unfolding occupied
occupied-push id off [] j o = ground arith
occupied-push id off ((i, p) ∷ xs) j o = ground (arith, occupied-push id off xs j o)

pub Distinct-push :
    (xs : Empties) (id off : ℕ)
    → Distinct xs
    → occupied id off xs ≡ false
    → Distinct (push xs (id, off))
unfolding occupied
Distinct-push [] id off d free = (refl, tt)
Distinct-push ((j, o) ∷ xs) id off d free =
    (ground (arith, occupied-push j o xs id off), Distinct-push xs id off d.1 (ground arith))
