-- ===== src/Simulate/Revenue.antt =====
-- `evaluate_sandwich_revenue` of bot/src/simulate/make_sandwich.rs: the sandwich as the braindance
-- contract simulates it.
use sando_rs.Base.{ℕ, ◌^◌, List, [], ◌∷◌, Checked, val, panic, Result, ok, err, fit, checked_sub}
use sando_rs.Pool.{PoolVariant, uniswap_v2, uniswap_v3}
use sando_rs.Block.{BlockInfo}
use sando_rs.Search.{or_zero}
use sando_rs.Simulate.{
  Transaction, RawIngredients, Machine, Evm, Execution, success, revert, halt, Outcome, returns,
  fails, panics, ◌>>=◌, lift, or_fail, failed_to_decode_output,
}
use sando_rs.Simulate.Queries.{
  braindance_address, braindance_controller_address, braindance_starting_balance, setup_block_state,
}
use sando_rs.Simulate.Meats.{meat_tx, unwrap_or_default}
use sando_rs.Simulate.Legs.{Leg, frontrun, backrun, leg_evm_error, leg_reverted, leg_halted}

-- The call of the contract for a swap; V3 takes an amount of 128 bits.
unfoldable pub braindance_data :
    (m : Machine) → PoolVariant → (amount_in target_pool token_in token_out : ℕ) → Checked (List ℕ)
braindance_data m uniswap_v2 amount_in target_pool token_in token_out =
    val (m.build_swap_v2_data amount_in target_pool token_in token_out)
braindance_data m uniswap_v3 amount_in target_pool token_in token_out =
    elim (fit (2 ^ 128) amount_in) [
      | val narrow ↦ val (m.build_swap_v3_data narrow target_pool token_in token_out)
      | panic ↦ panic
    ]

module _ {m : Machine} where
  unfoldable pub decode_swap_result : PoolVariant → List ℕ → Outcome m (ℕ × ℕ)
  decode_swap_result uniswap_v2 output =
      or_fail failed_to_decode_output (m.decode_swap_v2_result output)
  decode_swap_result uniswap_v3 output =
      or_fail failed_to_decode_output (m.decode_swap_v3_result output)

  -- A committed call of the contract: its output.
  unfoldable pub output_of :
      Leg → Evm m → Result Execution m.EvmError × m.World → Outcome m (List ℕ × Evm m)
  unfolding leg_evm_error leg_reverted leg_halted
  output_of leg evm (err e, world) = fails (leg_evm_error leg e)
  output_of leg evm (ok (success _ output), world) = returns (output, record evm { world = world })
  output_of leg evm (ok (revert _ output), world) = fails (leg_reverted leg output)
  output_of leg evm (ok (halt _ reason), world) = fails (leg_halted leg reason)

  -- A swap: what comes out, and what the contract then has of the token.
  unfoldable pub braindance_swap :
      Leg
      → PoolVariant
      → BlockInfo
      → (amount_in target_pool token_in token_out : ℕ) → Evm m
      → Outcome m (ℕ × ℕ × Evm m)
  unfolding braindance_data decode_swap_result output_of
  braindance_swap leg variant next_block amount_in target_pool token_in token_out evm = do
    bytes ← lift (braindance_data m variant amount_in target_pool token_in token_out)
    let called : Evm m = record evm {
      tx = record evm.tx {
        caller = braindance_controller_address;
        transact_to = braindance_address;
        tx_data = bytes;
        value = 0;
        gas_limit = 700000;
        gas_price = next_block.base_fee;
      };
    }
    (output, next) ← output_of leg called (m.transact_commit called.block called.tx called.world)
    (amount_out, balance) ← decode_swap_result variant output
    returns (amount_out, balance, next)

  -- The victims' transactions, whatever comes of them.
  unfoldable pub feed_meats : List Transaction → Evm m → Outcome m (Evm m)
  unfolding meat_tx
  feed_meats [] evm = returns evm
  feed_meats (meat ∷ meats) evm = do
    tx ← lift (meat_tx (λ price. val (unwrap_or_default price)) meat evm.tx)
    let (_, world) = m.transact_commit evm.block tx evm.world
    feed_meats meats (record evm { tx = tx; world = world })

  -- `evm` is a new machine on the fork, with the default environment.
  unfoldable pub evaluate_sandwich_revenue :
      {D : Type 0} → (frontrun_in : ℕ) → RawIngredients D → BlockInfo → Evm m → Outcome m ℕ
  unfolding braindance_swap feed_meats setup_block_state
  evaluate_sandwich_revenue frontrun_in ingredients next_block evm = do
    let variant = ingredients.target_pool.pool_variant
    let pool = ingredients.target_pool.address
    let startend = ingredients.startend_token
    let intermediary = ingredients.intermediary_token
    (_, backrun_in, front) ←
        braindance_swap frontrun variant next_block frontrun_in pool startend intermediary
          (setup_block_state evm next_block)
    fed ← feed_meats ingredients.meats front
    (_, post_sandwich_balance, _) ←
        braindance_swap backrun variant next_block backrun_in pool intermediary startend fed
    returns (or_zero (checked_sub post_sandwich_balance braindance_starting_balance))

  -- What the search takes from a simulation: zero for an error, and a panic for a panic.
  unfoldable pub reported : Outcome m ℕ → Checked ℕ
  reported (returns revenue) = val revenue
  reported (fails _) = val 0
  reported panics = panic

  unfoldable pub simulated_revenue :
      {D : Type 0} → BlockInfo → Evm m → RawIngredients D → (frontrun_in : ℕ) → Checked ℕ
  unfolding evaluate_sandwich_revenue reported
  simulated_revenue next_block evm ingredients frontrun_in =
      reported (evaluate_sandwich_revenue frontrun_in ingredients next_block evm)
