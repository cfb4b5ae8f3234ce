-- ===== src/Abi/Vtable/Prefix.antt =====
-- The slots of a class against those of the base that its chain goes through (vtable.rs).
use rustcc.Prelude.{ℕ, zero, suc, ◌+◌, ◌≡◌, refl, sym, ◌∙◌, ap, true, false, Bool-cases}
use rustcc.Prelude.{Option, none, some, List, [], ◌∷◌, map, push, Outcome, ok, ◌>>=◌, or_panic}
use rustcc.Prelude.{>>=-eq-ok, ok_inj, inl, inr, get_elem?, get_elem?-append, get_elem?-lt}
use mathlib.Core.Option.{some-injective}
use mathlib.Core.Path.{subst}
use rustcc.Abi.Types.{ClassId, ClassDef, MethodDef, LayoutError}
use rustcc.Abi.Context.{CxxTypeCtx, class_of}
use rustcc.Abi.Vtable.Slots.{
  VSlotKind, VSlot, SlotState, Build, is_non_virtual, is_dtor, first_non_virtual, Chain, behind,
  collect_chain, match_slot, find_from, find_override_target, dtor_slot, put_dtor, method_slot,
  override_at, put_method, add_method, add_methods, add_classes, no_slots, build_virtual_slots,
}

-- What a slot stands for: its kind and the declaration that introduced it.
abbrev pub Origin : Type 0
Origin = VSlotKind × (ClassId × Option ℕ)

abbrev pub origin : VSlot → Origin
origin s = (s.kind, (s.originator_class, s.originator_method_idx))

-- The search reads the origins alone.
find_origin : CxxTypeCtx → ℕ → List Origin → MethodDef → Outcome LayoutError (Option ℕ)
find_origin ctx i [] m = ok none
find_origin ctx i ((k, (c, d)) ∷ os) m = match_slot ctx i m k c d (find_origin ctx (i + 1) os m)

find_from-find_origin :
    (ctx : CxxTypeCtx) (i : ℕ) (ss : List VSlot) (m : MethodDef)
    → find_from ctx i ss m ≡ find_origin ctx i (map origin ss) m
unfolding find_from find_origin
find_from-find_origin ctx i [] m = refl
find_from-find_origin ctx i (s ∷ ss) m =
    ap (match_slot ctx i m s.kind s.originator_class s.originator_method_idx)
      (find_from-find_origin ctx (i + 1) ss m)

override_at-origin :
    (c : ClassId) (idx : ℕ) (ss : List VSlot) (k : ℕ)
    → map origin (override_at c idx ss k) ≡ map origin ss
unfolding override_at
override_at-origin c idx [] k = refl
override_at-origin c idx (s ∷ ss) zero = refl
override_at-origin c idx (s ∷ ss) (suc k) = ap (λ os. origin s ∷ os) (override_at-origin c idx ss k)

-- Two states that differ in the overriders at most.
abbrev IsLike : SlotState → SlotState → Type 0
IsLike s t = (map origin s.slots ≡ map origin t.slots) × (s.dtor_emitted ≡ t.dtor_emitted)

map-push : (ss : List VSlot) (s : VSlot) → map origin (push ss s) ≡ push (map origin ss) (origin s)
map-push [] s = refl
map-push (x ∷ ss) s = ap (λ os. origin x ∷ os) (map-push ss s)

abbrev after_pair : ClassId → List Origin → List Origin
after_pair c os = push (push os (VSlotKind.dtor_d1, (c, none))) (VSlotKind.dtor_d0, (c, none))

map-push_pair :
    (d c : ClassId) (ss : List VSlot)
    → map origin
        (push (push ss (dtor_slot d c VSlotKind.dtor_d1)) (dtor_slot d c VSlotKind.dtor_d0))
      ≡ after_pair c (map origin ss)
map-push_pair d c ss =
    map-push (push ss (dtor_slot d c VSlotKind.dtor_d1)) (dtor_slot d c VSlotKind.dtor_d0)
    ∙ ap (λ os. push os (origin (dtor_slot d c VSlotKind.dtor_d0)))
        (map-push ss (dtor_slot d c VSlotKind.dtor_d1))

put_dtor-IsLike :
    (d e c : ClassId) (s t : SlotState) → IsLike s t → IsLike (put_dtor d c s) (put_dtor e c t)
unfolding put_dtor
put_dtor-IsLike d e c s t l = elim (Bool-cases s.dtor_emitted) [
  | inl y ↦ let y' : t.dtor_emitted ≡ true = cc (l.1, y) in rw (y, y') (l.0, cc)
  | inr n ↦
      let n' : t.dtor_emitted ≡ false = cc (l.1, n) in
      rw (n, n')
        (map-push_pair d c s.slots ∙ ap (after_pair c) l.0 ∙ sym (map-push_pair e c t.slots), refl)
]

put_method-IsLike :
    (c : ClassId) (idx : ℕ) (target : Option ℕ) (s t : SlotState)
    → IsLike s t
    → IsLike (put_method c idx target s) (put_method c idx target t)
unfolding put_method
put_method-IsLike c idx none s t l = (
  map-push s.slots _
      ∙ ap (λ os. push os (origin (method_slot c idx))) l.0
      ∙ sym (map-push t.slots _),
  l.1,
)
put_method-IsLike c idx (some k) s t l =
    (override_at-origin c idx s.slots k ∙ l.0 ∙ sym (override_at-origin c idx t.slots k), l.1)

-- Two builds from like states end in like states.
abbrev Follows : Build → SlotState → Type 0
Follows m t = (t' : SlotState) × (m ≡ ok t') × IsLike t t'

add_method-IsLike :
    (ctx : CxxTypeCtx) (d e c : ClassId) (idx : ℕ) (m : MethodDef) (s s' t : SlotState)
    → IsLike s s'
    → add_method ctx d c idx m s ≡ ok t
    → Follows (add_method ctx e c idx m s') t
unfolding add_method
add_method-IsLike ctx d e c idx m s s' t l h = elim (Bool-cases (is_non_virtual m.virtuality)) [
  | inl y ↦ let same = ok_inj (rw y at h) in (s', rw y refl, subst (λ x. IsLike x s') same l)
  | inr n ↦ elim (Bool-cases (is_dtor m.special)) [
    | inl y ↦
        let same = ok_inj (rw (n, y) at h) in
        (
          put_dtor e c s',
          rw (n, y) refl,
          subst (λ x. IsLike x (put_dtor e c s')) same (put_dtor-IsLike d e c s s' l),
        )
    | inr y ↦
        let (target, f, g) = >>=-eq-ok (find_override_target ctx s.slots m) _ (rw (n, y) at h) in
        let f' : find_override_target ctx s'.slots m ≡ ok target =
          find_from-find_origin ctx 0 s'.slots m
          ∙ ap (λ os. find_origin ctx 0 os m) (sym l.0)
          ∙ sym (find_from-find_origin ctx 0 s.slots m)
          ∙ f in
        (
          put_method c idx target s',
          rw (n, y, f') refl,
          subst (λ x. IsLike x (put_method c idx target s')) (ok_inj g)
              (put_method-IsLike c idx target s s' l),
        )
  ]
]

add_methods-IsLike :
    (ctx : CxxTypeCtx) (d e c : ClassId) (idx : ℕ) (ms : List MethodDef) (s s' t : SlotState)
    → IsLike s s'
    → add_methods ctx d c idx ms s ≡ ok t
    → Follows (add_methods ctx e c idx ms s') t
unfolding add_methods
add_methods-IsLike ctx d e c idx [] s s' t l h = (s', refl, subst (λ x. IsLike x s') (ok_inj h) l)
add_methods-IsLike ctx d e c idx (m ∷ ms) s s' t l h =
    let (u, f, g) = >>=-eq-ok (add_method ctx d c idx m s) _ h in
    let (u', f', l') = add_method-IsLike ctx d e c idx m s s' u l f in
    let (t', g', k) = add_methods-IsLike ctx d e c (idx + 1) ms u u' t l' g in (t', rw f' g', k)

add_classes-IsLike :
    (ctx : CxxTypeCtx) (d e : ClassId) (cs : List ClassId) (s s' t : SlotState)
    → IsLike s s'
    → add_classes ctx d cs s ≡ ok t
    → Follows (add_classes ctx e cs s') t
unfolding add_classes
add_classes-IsLike ctx d e [] s s' t l h = (s', refl, subst (λ x. IsLike x s') (ok_inj h) l)
add_classes-IsLike ctx d e (c ∷ cs) s s' t l h =
    let (class, k, h') = >>=-eq-ok (or_panic (class_of ctx c)) _ h in
    let (u, f, g) = >>=-eq-ok (add_methods ctx d c 0 class.methods s) _ h' in
    let (u', f', l') = add_methods-IsLike ctx d e c 0 class.methods s s' u l f in
    let (t', g', r) = add_classes-IsLike ctx d e cs u u' t l' g in (t', rw (k, f') g', r)

-- Every slot stays at its index, with its origin.
abbrev Stays : SlotState → SlotState → Type 0
Stays s t =
    (i : ℕ) (o : Origin)
    → get_elem? (map origin s.slots) i ≡ some o
    → get_elem? (map origin t.slots) i ≡ some o

Stays-push :
    (os : List Origin) (p : Origin) (i : ℕ) (o : Origin)
    → get_elem? os i ≡ some o
    → get_elem? (push os p) i ≡ some o
Stays-push os p i o h = get_elem?-append os (p ∷ []) i (get_elem?-lt os i h) ∙ h

put_dtor-Stays : (d c : ClassId) (s : SlotState) → Stays s (put_dtor d c s)
unfolding put_dtor
put_dtor-Stays d c s i o h = elim (Bool-cases s.dtor_emitted) [
  | inl y ↦ rw y h
  | inr n ↦ rw n (
      ap (λ os. get_elem? os i) (map-push_pair d c s.slots)
      ∙ Stays-push _ _ i o (Stays-push (map origin s.slots) _ i o h))
]

put_method-Stays :
    (c : ClassId) (idx : ℕ) (target : Option ℕ) (s : SlotState)
    → Stays s (put_method c idx target s)
unfolding put_method
put_method-Stays c idx none s i o h =
    ap (λ os. get_elem? os i) (map-push s.slots (method_slot c idx))
    ∙ Stays-push (map origin s.slots) _ i o h
put_method-Stays c idx (some k) s i o h =
    ap (λ os. get_elem? os i) (override_at-origin c idx s.slots k) ∙ h

add_method-Stays :
    (ctx : CxxTypeCtx) (d c : ClassId) (idx : ℕ) (m : MethodDef) (s t : SlotState)
    → add_method ctx d c idx m s ≡ ok t
    → Stays s t
unfolding add_method
add_method-Stays ctx d c idx m s t h = elim (Bool-cases (is_non_virtual m.virtuality)) [
  | inl y ↦ subst (Stays s) (ok_inj (rw y at h)) (λ i o e. e)
  | inr n ↦ elim (Bool-cases (is_dtor m.special)) [
    | inl y ↦ subst (Stays s) (ok_inj (rw (n, y) at h)) (put_dtor-Stays d c s)
    | inr y ↦
        let (target, f, g) = >>=-eq-ok (find_override_target ctx s.slots m) _ (rw (n, y) at h) in
        subst (Stays s) (ok_inj g) (put_method-Stays c idx target s)
  ]
]

add_methods-Stays :
    (ctx : CxxTypeCtx) (d c : ClassId) (idx : ℕ) (ms : List MethodDef) (s t : SlotState)
    → add_methods ctx d c idx ms s ≡ ok t
    → Stays s t
unfolding add_methods
add_methods-Stays ctx d c idx [] s t h = subst (Stays s) (ok_inj h) (λ i o e. e)
add_methods-Stays ctx d c idx (m ∷ ms) s t h =
    let (u, f, g) = >>=-eq-ok (add_method ctx d c idx m s) _ h in
    let here = add_method-Stays ctx d c idx m s u f in
    let there = add_methods-Stays ctx d c (idx + 1) ms u t g in λ i o e. there i o (here i o e)

-- A chain is walked class by class.
add_classes-push :
    (ctx : CxxTypeCtx) (d c : ClassId) (cs : List ClassId) (s t : SlotState)
    → add_classes ctx d (push cs c) s ≡ ok t
    → (u : SlotState) × (add_classes ctx d cs s ≡ ok u) × Stays u t
unfolding add_classes
add_classes-push ctx d c [] s t h =
    let (class, k, h') = >>=-eq-ok (or_panic (class_of ctx c)) _ h in
    let (u, f, g) = >>=-eq-ok (add_methods ctx d c 0 class.methods s) _ h' in
    (s, refl, subst (Stays s) (ok_inj g) (add_methods-Stays ctx d c 0 class.methods s u f))
add_classes-push ctx d c (x ∷ cs) s t h =
    let (class, k, h') = >>=-eq-ok (or_panic (class_of ctx x)) _ h in
    let (u, f, g) = >>=-eq-ok (add_methods ctx d x 0 class.methods s) _ h' in
    let (v, e, r) = add_classes-push ctx d c cs u t g in (v, rw (k, f) e, r)

get_elem?-map :
    (ss : List VSlot) (i : ℕ) (s : VSlot)
    → get_elem? ss i ≡ some s
    → get_elem? (map origin ss) i ≡ some (origin s)
get_elem?-map [] i s h = absurd (cc h)
get_elem?-map (x ∷ ss) zero s h = ap (λ r. some (origin r)) (some-injective x s h)
get_elem?-map (x ∷ ss) (suc i) s h = get_elem?-map ss i s h

get_elem?-of_map :
    (ss : List VSlot) (i : ℕ) (o : Origin)
    → get_elem? (map origin ss) i ≡ some o
    → (s : VSlot) × (get_elem? ss i ≡ some s) × (origin s ≡ o)
get_elem?-of_map [] i o h = absurd (cc h)
get_elem?-of_map (x ∷ ss) zero o h = (x, refl, some-injective (origin x) o h)
get_elem?-of_map (x ∷ ss) (suc i) o h = get_elem?-of_map ss i o h

collect_chain-base :
    (ctx : CxxTypeCtx) (fuel : ℕ) (id base : ClassId) (class : ClassDef) (cs : List ClassId)
    → class_of ctx id ≡ some class
    → first_non_virtual class.bases ≡ some base
    → collect_chain ctx fuel base ≡ ok cs
    → collect_chain ctx (suc fuel) id ≡ ok (push cs id)
unfolding collect_chain behind
collect_chain-base ctx fuel id base class cs known first e = rw known (
    ap (behind (collect_chain ctx fuel) id) first
    ∙ ap (λ (r : Chain). r >>= λ above. ok (push above id)) e)

-- If the first non-virtual base of a class is `base`, and the slots of both can be built, then each
-- slot of the base has a slot of the class at the same index, of the same kind and introduced by the
-- same declaration: the table of the class extends the table of the base.
pub build_virtual_slots-origin :
    (ctx : CxxTypeCtx) (fuel : ℕ) (id base : ClassId) (class : ClassDef) (bs ds : List VSlot)
    → class_of ctx id ≡ some class
    → first_non_virtual class.bases ≡ some base
    → build_virtual_slots ctx fuel base ≡ ok bs
    → build_virtual_slots ctx (suc fuel) id ≡ ok ds
    → (i : ℕ) (s : VSlot) → get_elem? bs i ≡ some s
    → (t : VSlot) × (get_elem? ds i ≡ some t) × (origin t ≡ origin s)
unfolding build_virtual_slots
build_virtual_slots-origin ctx fuel id base class bs ds known first b h i s at =
    let (cs, e, b') = >>=-eq-ok (collect_chain ctx fuel base) _ b in
    let (sb, f, b'') = >>=-eq-ok (add_classes ctx base cs no_slots) _ b' in
    let up = collect_chain-base ctx fuel id base class cs known first e in
    let (cs', e', h') = >>=-eq-ok (collect_chain ctx (suc fuel) id) _ h in
    let chain : cs' ≡ push cs id = ok_inj (sym e' ∙ up) in
    let (sd, f', h'') = >>=-eq-ok (add_classes ctx id cs' no_slots) _ h' in
    let (u, g, stays) =
      add_classes-push ctx id id cs no_slots sd
        (subst (λ x. add_classes ctx id x no_slots ≡ ok sd) chain f') in
    let (u', g', like) = add_classes-IsLike ctx base id cs no_slots no_slots sb (refl, refl) f in
    let same : u' ≡ u = ok_inj (sym g' ∙ g) in
    let at' : get_elem? sb.slots i ≡ some s = ap (λ x. get_elem? x i) (ok_inj b'') ∙ at in
    let in_u : get_elem? (map origin u.slots) i ≡ some (origin s) =
      subst (λ (x : SlotState). get_elem? (map origin x.slots) i ≡ some (origin s)) same
        (ap (λ os. get_elem? os i) (sym like.0) ∙ get_elem?-map sb.slots i s at') in
    let (t, p, q) = get_elem?-of_map sd.slots i (origin s) (stays i (origin s) in_u) in
    (t, ap (λ x. get_elem? x i) (sym (ok_inj h'')) ∙ p, q)
