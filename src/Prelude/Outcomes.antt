-- ===== src/Prelude/Outcomes.antt =====
-- How a call ends: with a value, with an error of the crate, with a panic (an index out of range,
-- or a sum or product that leaves 64 bits under overflow checks), or with the model's fuel used up.
use Prim.Native.Nat.{ℕ, ◌-◌, ◌*◌, ◌^◌, min}
use mathlib.Core.Path.{◌≡◌, refl}
use mathlib.Core.Logic.{◌≢◌}
use mathlib.Core.Option.{Option, none, some}
use native.Mathlib.Omega.{arith}
use rustcc.Prelude.Tests.{ltb, if◌then◌else◌}

pub data Outcome {ℓ κ} (E : Type ℓ) (A : Type κ) : Type (ℓ ⊔ κ) where
  ok : A → Outcome E A
  err : E → Outcome E A
  panic : Outcome E A
  stuck : Outcome E A

infixl 5 ◌>>=◌ ◌>>◌
abbrev pub ◌>>=◌ {ℓ κ μ} :
    {E : Type ℓ} {A : Type κ} {B : Type μ} → Outcome E A → (A → Outcome E B) → Outcome E B
ok x >>= rest = rest x
err e >>= rest = err e
panic >>= rest = panic
stuck >>= rest = stuck

abbrev pub ◌>>◌ {ℓ κ μ} :
    {E : Type ℓ} {A : Type κ} {B : Type μ} → Outcome E A → Outcome E B → Outcome E B
first >> second = first >>= λ _. second

-- `map_err`.
abbrev pub map_err {ℓ κ μ} :
    {E : Type ℓ} {F : Type κ} {A : Type μ} → (E → F) → Outcome E A → Outcome F A
map_err g (ok a) = ok a
map_err g (err e) = err (g e)
map_err g panic = panic
map_err g stuck = stuck

-- An index into a vector.
abbrev pub or_panic {ℓ κ} : {E : Type ℓ} {A : Type κ} → Option A → Outcome E A
or_panic (some a) = ok a
or_panic none = panic

abbrev pub u64_limit : ℕ
u64_limit = 2 ^ 64

-- A `u64` result under overflow checks.
abbrev pub checked {ℓ} : {E : Type ℓ} → ℕ → Outcome E ℕ
checked n = if ltb n u64_limit then ok n else panic

-- `saturating_mul` on `u64`.
abbrev pub saturating_mul : ℕ → ℕ → ℕ
saturating_mul a b = min (a * b) (u64_limit - 1)

pub checked-ok {ℓ} : {E : Type ℓ} (n : ℕ) {m : ℕ} → checked {E = E} n ≡ ok m → m ≡ n
checked-ok n h = ground arith

-- The inversions of a bind.
pub >>=-eq-ok {ℓ κ μ} :
    {E : Type ℓ} {A : Type κ} {B : Type μ} (call : Outcome E A) (rest : A → Outcome E B) {end : B}
    → (call >>= rest) ≡ ok end
    → (x : A) × (call ≡ ok x) × (rest x ≡ ok end)
>>=-eq-ok (ok x) rest h = (x, refl, h)
>>=-eq-ok (err e) rest h = cc
>>=-eq-ok panic rest h = cc
>>=-eq-ok stuck rest h = cc

pub map_err-eq-ok {ℓ κ μ} :
    {E : Type ℓ} {F : Type κ} {A : Type μ} (g : E → F) (m : Outcome E A) {a : A}
    → map_err g m ≡ ok a
    → m ≡ ok a
map_err-eq-ok g (ok a) h = cc
map_err-eq-ok g (err e) h = cc
map_err-eq-ok g panic h = cc
map_err-eq-ok g stuck h = cc

-- A chain uses its fuel up only where one of its steps does.
pub >>=-ne-stuck {ℓ κ μ} :
    {E : Type ℓ} {A : Type κ} {B : Type μ} (m : Outcome E A) (f : A → Outcome E B)
    → m ≢ stuck
    → ((a : A) → m ≡ ok a → f a ≢ stuck)
    → (m >>= f) ≢ stuck
>>=-ne-stuck (ok a) f h k = k a refl
>>=-ne-stuck (err e) f h k = cc
>>=-ne-stuck panic f h k = cc
>>=-ne-stuck stuck f h k = absurd (h refl)

pub map_err-ne-stuck {ℓ κ μ} :
    {E : Type ℓ} {F : Type κ} {A : Type μ} (g : E → F) (m : Outcome E A)
    → m ≢ stuck
    → map_err g m ≢ stuck
map_err-ne-stuck g (ok a) h = cc
map_err-ne-stuck g (err e) h = cc
map_err-ne-stuck g panic h = cc
map_err-ne-stuck g stuck h = absurd (h refl)

pub or_panic-eq-ok {ℓ κ} :
    {E : Type ℓ} {A : Type κ} (o : Option A) {a : A} → or_panic {E = E} o ≡ ok a → o ≡ some a
or_panic-eq-ok (some a) h = cc
or_panic-eq-ok none h = cc

pub or_panic-ne-stuck {ℓ κ} : {E : Type ℓ} {A : Type κ} (o : Option A) → or_panic {E = E} o ≢ stuck
or_panic-ne-stuck (some a) = cc
or_panic-ne-stuck none = cc

pub checked-ne-stuck {ℓ} : {E : Type ℓ} (n : ℕ) → checked {E = E} n ≢ stuck
checked-ne-stuck n = ground arith

pub ok-ne-stuck {ℓ κ} : (E : Type ℓ) {A : Type κ} (a : A) → ◌≢◌ {A = Outcome E A} (ok a) stuck
ok-ne-stuck E a = cc

pub ok_inj {ℓ κ} : {E : Type ℓ} {A : Type κ} {a b : A} → ◌≡◌ {A = Outcome E A} (ok a) (ok b) → a ≡ b
ok_inj h = cc
