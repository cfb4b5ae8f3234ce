-- ===== src/Abi/Layout/TypeSizes.antt =====
-- The size and the alignment of a type (`type_size_align` of layout.rs).
use rustcc.Prelude.{ℕ, zero, suc, ◌-◌, ◌*◌, ◌/◌, ◌%◌, ◌≤◌, ◌<◌, ◌≡◌, sym, ◌∙◌, ap, arith}
use rustcc.Prelude.{◌⊎◌, inl, inr, ok, or_panic, map_err, >>=-eq-ok, ok_inj, u64_limit}
use rustcc.Prelude.{saturating_mul, map_err-eq-ok, leb, Bool-cases}
use native.Mathlib.Nat.{div-add-mod', mul-mod_left}
use mathlib.Core.Path.{subst}
use rustcc.Abi.Types.{TypeId, CxxType, IntWidth, FloatKind}
use rustcc.Abi.Context.{CxxTypeCtx, type_of}
use rustcc.Abi.Layout.Place.{
  pointer_size, int_bytes, float_bytes, SizeAlign, size_of, type_size_align,
}
use rustcc.Abi.Layout.Compute.{compute_layout}
use rustcc.Abi.Layout.Sizes.{compute_layout-IsSized}

-- A positive alignment that divides the size, unless the size is the saturated one.
abbrev pub IsStride : ℕ × ℕ → Type 0
IsStride (size, align) = (0 < align) × ((size % align ≡ 0) ⊎ (size ≡ u64_limit - 1))

IsStride-self : (n : ℕ) → 0 < n → IsStride (n, n)
IsStride-self n h = (h, inl (grind arith))

mul-mod_zero : (a b c : ℕ) → a % c ≡ 0 → a * b % c ≡ 0
mul-mod_zero a b c h =
    let whole : a ≡ a / c * c = sym (div-add-mod' a c) ∙ rw h (omega arith) in
    let turn : a / c * c * b ≡ a / c * b * c = grind arith in
    let split : a * b ≡ a / c * b * c = ap (λ x. x * b) whole ∙ turn in
    rw split (mul-mod_left (a / c * b) c)

int_bytes-pos : (w : IntWidth) → 0 < int_bytes w
unfolding int_bytes
int_bytes-pos IntWidth.i8 = omega arith
int_bytes-pos IntWidth.i16 = omega arith
int_bytes-pos IntWidth.i32 = omega arith
int_bytes-pos IntWidth.i64 = omega arith
int_bytes-pos IntWidth.i128 = omega arith

float_bytes-pos : (ctx : CxxTypeCtx) (k : FloatKind) → 0 < float_bytes ctx k
unfolding float_bytes
float_bytes-pos ctx FloatKind.f32 = omega arith
float_bytes-pos ctx FloatKind.f64 = omega arith
float_bytes-pos ctx FloatKind.long_double = ground arith

-- An array of elements that fill their stride.
array-IsStride : (es ea len : ℕ) → IsStride (es, ea) → IsStride (saturating_mul es len, ea)
array-IsStride es ea len (pos, inl e) = elim (Bool-cases (leb (es * len) (u64_limit - 1))) [
  | inl small ↦
      let same : saturating_mul es len ≡ es * len = ground arith in
      (pos, inl (rw same (mul-mod_zero es len ea e)))
  | inr big ↦ (pos, inr (ground arith))
]
array-IsStride es ea zero (pos, inr e) = (pos, inl (grind arith))
array-IsStride es ea (suc len) (pos, inr e) =
    let more : u64_limit - 1 ≤ es * suc len = rw e (omega arith) in (pos, inr (omega arith))

module _ (ctx : CxxTypeCtx) (n : ℕ) (pointers : 0 < pointer_size ctx) where
  size_of-IsStride :
      (inner : TypeId → SizeAlign) (t : CxxType) (r : ℕ × ℕ)
      → ((e : TypeId) (s : ℕ × ℕ) → inner e ≡ ok s → IsStride s)
      → size_of ctx inner (compute_layout ctx n) t ≡ ok r
      → IsStride r
  unfolding size_of
  size_of-IsStride inner CxxType.void r ih h = absurd (cc h)
  size_of-IsStride inner CxxType.bool r ih h =
      subst IsStride (ok_inj h) (IsStride-self 1 (omega arith))
  size_of-IsStride inner (CxxType.int signed w) r ih h =
      subst IsStride (ok_inj h) (IsStride-self (int_bytes w) (int_bytes-pos w))
  size_of-IsStride inner (CxxType.float k) r ih h =
      subst IsStride (ok_inj h) (IsStride-self (float_bytes ctx k) (float_bytes-pos ctx k))
  size_of-IsStride inner (CxxType.ptr t cv) r ih h =
      subst IsStride (ok_inj h) (IsStride-self (pointer_size ctx) pointers)
  size_of-IsStride inner (CxxType.ref t k cv) r ih h =
      subst IsStride (ok_inj h) (IsStride-self (pointer_size ctx) pointers)
  size_of-IsStride inner (CxxType.fn sig) r ih h =
      subst IsStride (ok_inj h) (IsStride-self (pointer_size ctx) pointers)
  size_of-IsStride inner (CxxType.member_ptr c t) r ih h = absurd (cc h)
  size_of-IsStride inner (CxxType.enum_type name u scoped) r ih h = ih u r h
  size_of-IsStride inner (CxxType.array e len) r ih h =
      let ((es, ea), f, g) = >>=-eq-ok (inner e) _ h in
      subst IsStride (ok_inj g) (array-IsStride es ea len (ih e (es, ea) f))
  size_of-IsStride inner (CxxType.record_type c) r ih h =
      let (l, f, g) = >>=-eq-ok (map_err (λ _. tt) (compute_layout ctx n c)) _ h in
      let v =
        compute_layout-IsSized ctx n c l (map_err-eq-ok (λ _. tt) (compute_layout ctx n c) f) in
      subst IsStride (ok_inj g) (v.aligned, inl v.multiple)

  -- On a target with pointers of at least one byte, whatever `type_size_align` measures has a
  -- positive alignment that divides the size, so that the elements of an array stay aligned, unless
  -- the size is that of an array that does not fit 64 bits and was saturated.
  pub type_size_align-IsStride :
      (fuel : ℕ) (t : TypeId) (r : ℕ × ℕ)
      → type_size_align ctx (compute_layout ctx n) fuel t ≡ ok r
      → IsStride r
  unfolding type_size_align
  type_size_align-IsStride zero t r h = absurd (cc h)
  type_size_align-IsStride (suc fuel) t r h =
      let (ty, e, g) = >>=-eq-ok (or_panic (type_of ctx t)) _ h in
      size_of-IsStride (type_size_align ctx (compute_layout ctx n) fuel) ty r
        (type_size_align-IsStride fuel) g
