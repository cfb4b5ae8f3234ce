-- ===== src/Abi/Layout/Classify.antt =====
-- The classifications of a class that the engine asks for (layout.rs). They recur on the class
-- graph; `fuel` bounds how deep, and a class of the graph that is not defined is a panic.
use rustcc.Prelude.{ℕ, zero, suc, Bool, true, false, not, ◌&&◌, ◌||◌, ◌==◌, if◌then◌else◌}
use rustcc.Prelude.{Option, none, some, List, [], ◌∷◌, push, Outcome, ok, stuck, ◌>>=◌, or_panic}
use rustcc.Abi.Types.{ClassId, ClassDef, BaseSpec, FieldDef, MethodDef, LayoutError, CxxType}
use rustcc.Abi.Types.{ref, record_type}
use rustcc.Abi.Context.{CxxTypeCtx, class_of, type_of}

abbrev pub Answer : Type 0
Answer = Outcome LayoutError Bool

-- `for base in &class.bases { if base.virtual_ { return true } if rec(base) { return true } }`.
unfoldable pub any_virtual : (ClassId → Answer) → List BaseSpec → Answer
any_virtual rec [] = ok false
any_virtual rec (b ∷ bs) =
    let rest = any_virtual rec bs in
    if b.is_virtual then ok true else do found ← rec b.class; if found then ok true else rest

unfoldable pub has_virtual_base_chain : CxxTypeCtx → ℕ → ClassId → Answer
unfolding any_virtual
has_virtual_base_chain ctx zero id = stuck
has_virtual_base_chain ctx (suc fuel) id = do
  class ← or_panic (class_of ctx id)
  any_virtual (has_virtual_base_chain ctx fuel) class.bases

-- `Vec::contains`.
unfoldable pub contains : List ClassId → ClassId → Bool
contains [] a = false
contains (x ∷ xs) a = x == a || contains xs a

unfoldable pub add_virtual : BaseSpec → List ClassId → List ClassId
unfolding contains
add_virtual b out = if b.is_virtual && not (contains out b.class) then push out b.class else out

abbrev pub Walk : Type 0
Walk = List ClassId → Outcome LayoutError (List ClassId)

unfoldable pub walk_bases : (ClassId → Walk) → List BaseSpec → Walk
unfolding add_virtual
walk_bases rec [] out = ok out
walk_bases rec (b ∷ bs) out = do deeper ← rec b.class out; walk_bases rec bs (add_virtual b deeper)

unfoldable pub walk : CxxTypeCtx → ℕ → ClassId → Walk
unfolding walk_bases
walk ctx zero id out = stuck
walk ctx (suc fuel) id out = do
  class ← or_panic (class_of ctx id)
  walk_bases (walk ctx fuel) class.bases out

unfoldable pub collect_virtual_bases : CxxTypeCtx → ℕ → ClassId → Outcome LayoutError (List ClassId)
unfolding walk
collect_virtual_bases ctx fuel id = walk ctx fuel id []

unfoldable pub first_polymorphic : CxxTypeCtx → List BaseSpec → Outcome LayoutError (Option ClassId)
first_polymorphic ctx [] = ok none
first_polymorphic ctx (b ∷ bs) =
    let rest = first_polymorphic ctx bs in
    do
      base ← or_panic (class_of ctx b.class)
      if base.is_polymorphic then ok (some b.class) else rest

unfoldable pub pick_primary_base : CxxTypeCtx → ClassDef → Outcome LayoutError (Option ClassId)
unfolding first_polymorphic
pick_primary_base ctx class =
    if not class.is_polymorphic then ok none else first_polymorphic ctx class.bases

abbrev pub any_special : List MethodDef → Bool
any_special [] = false
any_special (m ∷ ms) = elim m.special [ none ↦ any_special ms | some s ↦ true ]

abbrev pub any_virtual_base : List BaseSpec → Bool
any_virtual_base [] = false
any_virtual_base (b ∷ bs) = b.is_virtual || any_virtual_base bs

-- `for base in &class.bases { if !rec(base) { return false } }`, and what follows the loop.
unfoldable pub all_bases : (ClassId → Answer) → List BaseSpec → Answer → Answer
all_bases rec [] k = k
all_bases rec (b ∷ bs) k =
    let rest = all_bases rec bs k in do good ← rec b.class; if good then rest else ok false

-- The case of one field type: a reference taints the class, a record if it is not POD itself.
unfoldable pub pod_type : (ClassId → Answer) → CxxType → Answer
pod_type rec (ref pointee kind cv) = ok false
pod_type rec (record_type inner) = rec inner
pod_type rec t = ok true

unfoldable pub pod_fields : CxxTypeCtx → (ClassId → Answer) → List FieldDef → Answer
unfolding pod_type
pod_fields ctx rec [] = ok true
pod_fields ctx rec (f ∷ fs) =
    let rest = pod_fields ctx rec fs in
    do t ← or_panic (type_of ctx f.ty); good ← pod_type rec t; if good then rest else ok false

unfoldable pub is_pod_for_layout : CxxTypeCtx → ℕ → ClassId → Answer
unfolding all_bases pod_fields
is_pod_for_layout ctx zero id = stuck
is_pod_for_layout ctx (suc fuel) id = do
  class ← or_panic (class_of ctx id)
  if class.is_polymorphic || any_special class.methods || any_virtual_base class.bases
      then ok false
      else all_bases (is_pod_for_layout ctx fuel) class.bases
          (pod_fields ctx (is_pod_for_layout ctx fuel) class.fields)

abbrev pub is_nil {ℓ} : {A : Type ℓ} → List A → Bool
is_nil [] = true
is_nil (x ∷ xs) = false

unfoldable pub is_empty_class : CxxTypeCtx → ℕ → ClassId → Answer
unfolding all_bases
is_empty_class ctx zero id = stuck
is_empty_class ctx (suc fuel) id = do
  class ← or_panic (class_of ctx id)
  if class.is_polymorphic || not (is_nil class.fields)
      then ok false
      else all_bases (is_empty_class ctx fuel) class.bases (ok true)
