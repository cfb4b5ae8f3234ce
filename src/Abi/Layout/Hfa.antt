-- ===== src/Abi/Layout/Hfa.antt =====
-- Homogeneous float aggregates (`detect_hfa` and `HfaProbe` of layout.rs).
use rustcc.Prelude.{ℕ, zero, suc, ◌+◌, Bool, true, false, ◌||◌, ◌==◌, ltb, min, if◌then◌else◌}
use rustcc.Prelude.{Option, none, some, List, [], ◌∷◌, Outcome, ok, stuck, ◌>>=◌, or_panic}
use rustcc.Abi.Types.{ClassId, TypeId, BaseSpec, FieldDef, LayoutError, CxxType, FloatKind}
use rustcc.Abi.Types.{float, array, record_type}
use rustcc.Abi.Context.{CxxTypeCtx, class_of, type_of}
use rustcc.Abi.Layout.State.{HfaElem, HfaKind, f32, f64}

pub record HfaProbe : Type 0 where
  pub elem : Option HfaElem
  pub count : ℕ

-- A `&mut self` method that answers whether to go on.
abbrev pub Probing : Type 0
Probing = HfaProbe → Outcome LayoutError (HfaProbe × Bool)

abbrev same_elem : HfaElem → HfaElem → Bool
same_elem f32 f32 = true
same_elem f64 f64 = true
same_elem _ _ = false

-- `saturating_add(1)` on the `u8` count.
unfoldable pub counted : HfaElem → HfaProbe → HfaProbe
counted e p = record { elem = some e; count = min (p.count + 1) 255 }

unfoldable pub record_leaf : HfaElem → Probing
unfolding counted
record_leaf e p = elim p.elem [
  | none ↦ ok (counted e p, true)
  | some existing ↦ if same_elem existing e then ok (counted e p, true) else ok (p, false)
]

-- `for _ in 0..len` over the elements of an array; a count above 4 is taken back.
unfoldable pub walk_elements : Probing → ℕ → ℕ → Probing
walk_elements elem saved zero p = ok (p, true)
walk_elements elem saved (suc len) p = do
  (q, good) ← elem p
  let rest = walk_elements elem saved len q
  if good
      then (if ltb 4 q.count then ok (record q { count = saved }, false) else rest)
      else ok (q, false)

-- The cases of `walk_type`: `inner` walks the element of an array, `rec` a class.
unfoldable pub on_type : (TypeId → Probing) → (ClassId → Probing) → CxxType → Probing
unfolding record_leaf walk_elements
on_type inner rec (float FloatKind.f32) p = record_leaf f32 p
on_type inner rec (float FloatKind.f64) p = record_leaf f64 p
on_type inner rec (array elem len) p = walk_elements (inner elem) p.count len p
on_type inner rec (record_type id) p = rec id p
on_type inner rec _ p = ok (p, false)

unfoldable pub walk_type : CxxTypeCtx → (ClassId → Probing) → ℕ → TypeId → Probing
unfolding on_type
walk_type ctx rec zero ty p = stuck
walk_type ctx rec (suc fuel) ty p = do
  t ← or_panic (type_of ctx ty)
  on_type (walk_type ctx rec fuel) rec t p

unfoldable pub walk_fields : (TypeId → Probing) → List FieldDef → Probing
walk_fields on_type [] p = ok (p, true)
walk_fields on_type (f ∷ fs) p = do
  (q, good) ← on_type f.ty p
  let rest = walk_fields on_type fs q
  if good then rest else ok (q, false)

-- The loop over the bases, and what follows it.
unfoldable pub walk_bases : (ClassId → Probing) → List BaseSpec → Probing → Probing
walk_bases rec [] k p = k p
walk_bases rec (b ∷ bs) k p = if b.is_virtual then ok (p, false) else do
  (q, good) ← rec b.class p
  let rest = walk_bases rec bs k q
  if good then rest else ok (q, false)

unfoldable pub walk_class : CxxTypeCtx → ℕ → ClassId → Probing
unfolding walk_type walk_fields walk_bases
walk_class ctx zero id p = stuck
walk_class ctx (suc fuel) id p = do
  class ← or_panic (class_of ctx id)
  walk_bases (walk_class ctx fuel) class.bases
      (walk_fields (walk_type ctx (walk_class ctx fuel) fuel) class.fields) p

-- The verdict on what the walk found.
unfoldable pub verdict : HfaProbe × Bool → Option HfaKind
verdict (p, false) = none
verdict (p, true) = elim p.elem [
  | none ↦ none
  | some e ↦
      if p.count == 0 || ltb 4 p.count then none else some (record { elem = e; count = p.count })
]

unfoldable pub detect_hfa : CxxTypeCtx → ℕ → ClassId → Outcome LayoutError (Option HfaKind)
unfolding walk_class verdict
detect_hfa ctx fuel id = do
  class ← or_panic (class_of ctx id)
  if class.is_polymorphic
      then ok none
      else do found ← walk_class ctx fuel id (record { elem = none; count = 0 }); ok (verdict found)
