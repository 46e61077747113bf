-- ===== src/Bribe.antt =====
-- `calculate_bribe_for_max_fee` of bot/src/runner/bundle_sender.rs. `draw` is what
-- `rng.gen_range(0..10000000)` gives, a number below 10000000.
pub mod Verdict
mod Examples
use sando_rs.Base.{
  ℕ, ◌+◌, ◌/◌, Bool, Option, none, some, List, [], ◌∷◌, Checked, val, ◌>>=◌, Result, ok, err,
  add_u256, mul_u256, checked_div, checked_sub, ltb, if◌then◌else◌,
}
use sando_rs.Block.{BlockInfo}
use sando_rs.Pool.{Pool}
use sando_rs.Recipe.{OptimalRecipe}

-- The errors of bot/src/types/errors.rs that the bribe gives.
pub data SendBundleError : Type 0 where
  max_fee_less_than_next_base_fee : SendBundleError
  negative_miner_tip : SendBundleError
  frontrun_gas_fees_not_covered : SendBundleError

-- For each pool without dust, the gas for the first token balance on the contract.
unfoldable pub overpay : (base_fee : ℕ) → List Pool → ℕ → Checked ℕ
overpay base_fee [] revenue = val revenue
overpay base_fee (pool ∷ pools) revenue =
    let rest = λ (covered : ℕ). overpay base_fee pools covered in
    if pool.has_dust
    then rest revenue
    else (do bonus ← mul_u256 base_fee 11000; covered ← add_u256 revenue bonus; rest covered)

-- The fee per gas that a bribe pays for, if it is enough.
unfoldable pub check_max_fee : (max_fee base_fee : ℕ) → Result ℕ SendBundleError
check_max_fee max_fee base_fee =
    if ltb max_fee base_fee
    then err max_fee_less_than_next_base_fee
    else elim (checked_sub max_fee base_fee) [
      | none ↦ err negative_miner_tip
      | some effective_miner_tip ↦ ok max_fee
    ]

unfoldable pub bribe_from :
    (draw base_fee backrun_gas_used : ℕ) → List Pool → Option ℕ → Checked (Result ℕ SendBundleError)
unfolding overpay check_max_fee
bribe_from draw base_fee backrun_gas_used pools none = val (err frontrun_gas_fees_not_covered)
bribe_from draw base_fee backrun_gas_used pools (some revenue) = do
  covered ← overpay base_fee pools revenue
  share ← mul_u256 covered (990000000 + draw)
  let bribe_amount = share / 1000000000
  max_fee ← checked_div bribe_amount backrun_gas_used
  val (check_max_fee max_fee base_fee)

unfoldable pub calculate_bribe_for_max_fee :
    {Transaction AccountDiff : Type 0} (draw : ℕ)
    → OptimalRecipe Transaction AccountDiff
    → BlockInfo
    → Checked (Result ℕ SendBundleError)
unfolding bribe_from
calculate_bribe_for_max_fee draw recipe target_block = do
  frontrun_fee ← mul_u256 recipe.frontrun_gas_used target_block.base_fee
  bribe_from draw target_block.base_fee recipe.backrun_gas_used recipe.target_pools
      (checked_sub recipe.revenue frontrun_fee)
