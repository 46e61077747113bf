-- ===== src/Block/BaseFee.antt =====
-- How far the base fee can move from one block to the next, and in which direction.
use native.Mathlib.Nat.{div-le_of_le-mul}
use sando_rs.Base.{
  ℕ, ◌+◌, ◌-◌, ◌*◌, ◌/◌, ◌≤◌, ◌<◌, ◌≡◌, ◌⊎◌, val, panic, fit-val, u256_bound, arith, ltb, ◌==◌,
  if◌then◌else◌,
}
use sando_rs.Block.{Block, fee_delta, calculate_next_block_base_fee, unwrap_or_default}

abbrev pub fee_of : Block → ℕ
fee_of b = unwrap_or_default b.base_fee_per_gas

abbrev pub target_of : Block → ℕ
target_of b = b.gas_limit / 2

share_le : (fee delta target : ℕ) → delta ≤ target → fee * delta / target ≤ fee
share_le fee delta target h = div-le_of_le-mul target (grind arith)

product_le : (fee delta target : ℕ) → delta ≤ target → fee * delta ≤ fee * target
product_le fee delta target h = grind arith

pub fee_delta-val :
    (fee delta target : ℕ)
    → 0 < target
    → delta ≤ target
    → fee * target < u256_bound
    → fee_delta fee delta target ≡ val (fee * delta / target / 8)
unfolding fee_delta
fee_delta-val fee delta target pos below room =
    rw (fit-val u256_bound (fee * delta) (omega (arith, product_le fee delta target below)))
      (ground arith)

-- The next base fee in exact arithmetic.
next_fee : ℕ → ℕ → ℕ → ℕ
next_fee fee used target =
    if used == target
    then fee
    else (if ltb target used
        then fee + fee * (used - target) / target / 8
        else fee - fee * (target - used) / target / 8)

next_fee-val :
    (b : Block)
    → 0 < target_of b
    → b.gas_used ≤ 2 * target_of b
    → fee_of b * target_of b < u256_bound
    → fee_of b + fee_of b / 8 < u256_bound
    → calculate_next_block_base_fee b ≡ val (next_fee (fee_of b) b.gas_used (target_of b))
unfolding calculate_next_block_base_fee next_fee
next_fee-val b pos used room room' =
    let fee = fee_of b in
    let target = target_of b in
    ground (
      arith,
      share_le fee (b.gas_used - target) target,
      share_le fee (target - b.gas_used) target,
      fee_delta-val fee (b.gas_used - target) target,
      fee_delta-val fee (target - b.gas_used) target,
    )

-- For a block that used at most twice its gas target, which is positive, and a fee that leaves room
-- in 256 bits, the next base fee exists, differs from the block's by at most an eighth of it, and
-- is no lower unless less gas than the target was used, and no higher unless more was.
pub base_fee_bounds :
    (b : Block)
    → 0 < target_of b
    → b.gas_used ≤ 2 * target_of b
    → fee_of b * target_of b < u256_bound
    → fee_of b + fee_of b / 8 < u256_bound
    → (next : ℕ) × (calculate_next_block_base_fee b ≡ val next)
      × (next ≤ fee_of b + fee_of b / 8)
      × (fee_of b ≤ next + fee_of b / 8)
      × ((b.gas_used < target_of b) ⊎ (fee_of b ≤ next))
      × ((target_of b < b.gas_used) ⊎ (next ≤ fee_of b))
base_fee_bounds b pos used room room' =
    let fee = fee_of b in
    let target = target_of b in
    let up = share_le fee (b.gas_used - target) target (omega arith) in
    let down = share_le fee (target - b.gas_used) target (omega arith) in
    (
      next_fee fee b.gas_used target,
      next_fee-val b pos used room room',
      unfold next_fee in ground (arith, up, down),
      unfold next_fee in ground (arith, up, down),
      unfold next_fee in ground (arith, up, down),
      unfold next_fee in ground (arith, up, down),
    )

-- A block with a gas limit below 2 that used gas has no target to divide by: the code panics.
base_fee_panics :
    (b : Block) → target_of b ≡ 0 → 0 < b.gas_used → calculate_next_block_base_fee b ≡ panic
unfolding calculate_next_block_base_fee fee_delta
base_fee_panics b none used = ground arith
