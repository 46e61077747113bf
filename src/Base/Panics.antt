-- ===== src/Base/Panics.antt =====
-- A computation that may panic, Rust's `Result`, and the 256-bit unsigned integers.
-- The operators of `U256` panic when the result does not fit, and on a division by zero;
-- the operators of the primitive widths panic in the same way (overflow checks on).
use Prim.Native.Nat.{ℕ, ◌+◌, ◌-◌, ◌*◌, ◌/◌, ◌^◌, ◌≤◌, ◌<◌}
use mathlib.Core.Option.{Option, none, some}
use mathlib.Core.Path.{◌≡◌}
use native.Mathlib.Omega.{arith}
use sando_rs.Base.Tests.{ltb, ◌==◌, if◌then◌else◌}

pub data Checked {ℓ} (A : Type ℓ) : Type ℓ where
  val : A → Checked A
  panic : Checked A

infixl 5 ◌>>=◌ ◌>>◌
abbrev pub ◌>>=◌ {ℓ κ} : {A : Type ℓ} {B : Type κ} → Checked A → (A → Checked B) → Checked B
val a >>= f = f a
panic >>= f = panic

abbrev pub ◌>>◌ {ℓ κ} : {A : Type ℓ} {B : Type κ} → Checked A → Checked B → Checked B
m >> k = m >>= λ _. k

pub data Result {ℓ κ} (A : Type ℓ) (E : Type κ) : Type (ℓ ⊔ κ) where
  ok : A → Result A E
  err : E → Result A E

-- `.unwrap()` on an `Option`
abbrev pub unwrap {ℓ} : {A : Type ℓ} → Option A → Checked A
unwrap none = panic
unwrap (some a) = val a

-- A value of a type with `bound` values, or a panic.
abbrev pub fit : ℕ → ℕ → Checked ℕ
fit bound n = if ltb n bound then val n else panic

abbrev pub u256_bound : ℕ
u256_bound = 2 ^ 256

abbrev pub add_u256 : ℕ → ℕ → Checked ℕ
add_u256 a b = fit u256_bound (a + b)

abbrev pub mul_u256 : ℕ → ℕ → Checked ℕ
mul_u256 a b = fit u256_bound (a * b)

abbrev pub pow_u256 : ℕ → ℕ → Checked ℕ
pow_u256 a n = fit u256_bound (a ^ n)

-- Subtraction below zero panics at every width.
abbrev pub checked_minus : ℕ → ℕ → Checked ℕ
checked_minus a b = if ltb a b then panic else val (a - b)

abbrev pub checked_div : ℕ → ℕ → Checked ℕ
checked_div a b = if b == 0 then panic else val (a / b)

-- `U256::checked_sub`
abbrev pub checked_sub : ℕ → ℕ → Option ℕ
checked_sub a b = if ltb a b then none else some (a - b)

pub fit-val : (bound n : ℕ) → n < bound → fit bound n ≡ val n
fit-val bound n h = ground arith

pub checked_minus-val : (a b : ℕ) → b ≤ a → checked_minus a b ≡ val (a - b)
checked_minus-val a b h = ground arith

pub checked_div-val : (a b : ℕ) → 0 < b → checked_div a b ≡ val (a / b)
checked_div-val a b h = ground arith
