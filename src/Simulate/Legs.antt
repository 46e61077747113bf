-- ===== src/Simulate/Legs.antt =====
-- What `sanity_check` (bot/src/simulate/make_sandwich.rs) does with its own transactions, the
-- frontrun and the backrun: the choice of the functions by the pool's variant, and the checked
-- execution.
use sando_rs.Base.{ℕ, ◌^◌, Bool, true, false, List, [], ◌∷◌, Result, ok, err, fit}
use sando_rs.Pool.{Pool, PoolVariant, uniswap_v2, uniswap_v3}
use sando_rs.Labels.V2.{SandwichLogicV2}
use sando_rs.Labels.V3.{SandwichLogicV3}
use sando_rs.Payload.V2 as V2
use sando_rs.Payload.V3 as V3
use sando_rs.Swap.V2 as Amount2
use sando_rs.Swap.V3 as Amount3
use sando_rs.Swap.{encode_weth}
use sando_rs.AccessList.{new as new_access_list, run as run_access_list, into_access_list}
use sando_rs.Salmonella.{
  new as new_salmonella, run as run_salmonella, IsSandoSafu, safu, not_safu, is_sando_safu, OpCode,
}
use sando_rs.AccessList.{Instruction}
use sando_rs.Simulate.{
  Machine, Evm, Execution, success, revert, halt, gas_used_of, Outcome, returns, fails, panics,
  ◌>>=◌, lift, SimulationError, frontrun_evm_error, frontrun_halted, frontrun_reverted,
  frontrun_not_safu, backrun_evm_error, backrun_halted, backrun_reverted, backrun_not_safu,
}
use sando_rs.Simulate.Queries.{get_amount_out_evm_v2, get_amount_out_evm_v3}

-- bot/src/utils/tx_builder/sandwich/mod.rs
pub record SandwichMaker : Type 0 where
  pub v2 : SandwichLogicV2
  pub v3 : SandwichLogicV3

-- The two transactions of the bot, whose errors have constructors of their own.
pub data Leg : Type 0 where
  frontrun backrun : Leg

-- The opcodes that an inspector sees.
abbrev pub ops_of : List Instruction → List ℕ
ops_of [] = []
ops_of (i ∷ is) = i.op ∷ ops_of is

module _ {m : Machine} where
  unfoldable pub leg_evm_error : Leg → m.EvmError → SimulationError m
  leg_evm_error frontrun e = frontrun_evm_error e
  leg_evm_error backrun e = backrun_evm_error e

  unfoldable pub leg_reverted : Leg → List ℕ → SimulationError m
  leg_reverted frontrun output = frontrun_reverted output
  leg_reverted backrun output = backrun_reverted output

  unfoldable pub leg_halted : Leg → ℕ → SimulationError m
  leg_halted frontrun reason = frontrun_halted reason
  leg_halted backrun reason = backrun_halted reason

  unfoldable pub leg_not_safu : Leg → List OpCode → SimulationError m
  leg_not_safu frontrun found = frontrun_not_safu found
  leg_not_safu backrun found = backrun_not_safu found

  -- `as_u128`, which panics on more than 128 bits.
  abbrev pub as_u128 : ℕ → Outcome m ℕ
  as_u128 n = lift (fit (2 ^ 128) n)

  -- What the frontrun gets for its amount, and what is left of that after encoding.
  unfoldable pub frontrun_out_of :
      Evm m
      → PoolVariant
      → (frontrun_in : ℕ) → Pool
      → (token_in token_out : ℕ) → Outcome m (ℕ × Evm m)
  unfolding get_amount_out_evm_v2 get_amount_out_evm_v3
  frontrun_out_of evm uniswap_v2 frontrun_in pool token_in token_out = do
    (amount_out, next) ← get_amount_out_evm_v2 evm frontrun_in pool.address token_in token_out
    out ← lift (Amount2.decode_intermediary amount_out true token_out)
    returns (out, next)
  frontrun_out_of evm uniswap_v3 frontrun_in pool token_in token_out = do
    (amount_out, next) ← get_amount_out_evm_v3 evm frontrun_in token_in token_out pool.swap_fee
    out ← lift (Amount3.decode_intermediary amount_out)
    returns (out, next)

  -- What the backrun gets back.
  unfoldable pub backrun_out_of :
      Evm m
      → PoolVariant
      → (backrun_in : ℕ) → Pool
      → (token_in token_out : ℕ) → Outcome m (ℕ × Evm m)
  unfolding get_amount_out_evm_v2 get_amount_out_evm_v3
  backrun_out_of evm uniswap_v2 backrun_in pool token_in token_out = do
    (amount_out, next) ← get_amount_out_evm_v2 evm backrun_in pool.address token_in token_out
    out ← lift (encode_weth amount_out)
    returns (out, next)
  backrun_out_of evm uniswap_v3 backrun_in pool token_in token_out = do
    (amount_out, next) ← get_amount_out_evm_v3 evm backrun_in token_in token_out pool.swap_fee
    out ← lift (encode_weth amount_out)
    returns (out, next)

  unfoldable pub backrun_in_of : PoolVariant → (frontrun_out token_in : ℕ) → Outcome m ℕ
  backrun_in_of uniswap_v2 frontrun_out token_in =
      lift (Amount2.encode_intermediary_token frontrun_out false token_in)
  backrun_in_of uniswap_v3 frontrun_out token_in =
      lift (Amount3.encode_intermediary_token frontrun_out)

  -- The bytes and the call value of one swap of the frontrun.
  unfoldable pub frontrun_payload :
      SandwichMaker
      → PoolVariant
      → (is_multiple is_first : Bool)
      → (block_number frontrun_in frontrun_out startend intermediary : ℕ) → Pool
      → Outcome m (List ℕ × ℕ)
  frontrun_payload maker uniswap_v2 true is_first block_number frontrun_in frontrun_out startend
        intermediary pool =
      lift (
        V2.create_multi_payload_weth_is_input m.hex_encode maker.v2 block_number frontrun_in
          frontrun_out intermediary pool is_first)
  frontrun_payload maker uniswap_v2 false is_first block_number frontrun_in frontrun_out startend
        intermediary pool =
      lift (
        V2.create_payload_weth_is_input m.hex_encode maker.v2 block_number frontrun_in frontrun_out
          intermediary pool)
  frontrun_payload maker uniswap_v3 true is_first block_number frontrun_in frontrun_out startend
        intermediary pool =
      do
        amount_in ← as_u128 frontrun_in
        amount_out ← as_u128 frontrun_out
        lift (
            V3.create_multi_payload_weth_is_input m.hex_encode m.hashing maker.v3 block_number
              amount_in amount_out startend intermediary pool is_first)
  frontrun_payload maker uniswap_v3 false is_first block_number frontrun_in frontrun_out startend
        intermediary pool =
      do
        amount_in ← as_u128 frontrun_in
        amount_out ← as_u128 frontrun_out
        lift (
            V3.create_payload_weth_is_input m.hex_encode m.hashing maker.v3 block_number amount_in
              amount_out startend intermediary pool)

  -- The bytes and the call value of one swap of the backrun.
  unfoldable pub backrun_payload :
      SandwichMaker
      → PoolVariant
      → (is_multiple is_first : Bool)
      → (block_number backrun_in backrun_out startend intermediary : ℕ) → Pool
      → Outcome m (List ℕ × ℕ)
  backrun_payload maker uniswap_v2 true is_first block_number backrun_in backrun_out startend
        intermediary pool =
      lift (
        V2.create_multi_payload_weth_is_output m.hex_encode maker.v2 block_number backrun_in
          backrun_out intermediary pool is_first)
  backrun_payload maker uniswap_v2 false is_first block_number backrun_in backrun_out startend
        intermediary pool =
      lift (
        V2.create_payload_weth_is_output m.hex_encode maker.v2 block_number backrun_in backrun_out
          intermediary pool)
  backrun_payload maker uniswap_v3 true is_first block_number backrun_in backrun_out startend
        intermediary pool =
      do
        amount_in ← as_u128 backrun_in
        amount_out ← as_u128 backrun_out
        lift (
            V3.create_multi_payload_weth_is_output m.hex_encode m.hashing maker.v3 block_number
              amount_in amount_out intermediary startend pool is_first)
  backrun_payload maker uniswap_v3 false is_first block_number backrun_in backrun_out startend
        intermediary pool =
      do
        amount_in ← as_u128 backrun_in
        amount_out ← as_u128 backrun_out
        lift (
            V3.create_payload_weth_is_output m.hex_encode m.hashing maker.v3 block_number amount_in
              amount_out intermediary startend pool)

  -- The access list that a first run with the inspector gives: an error of the machine panics.
  unfoldable pub access_list_of : Evm m → Outcome m (List (ℕ × List ℕ))
  unfolding new_access_list run_access_list into_access_list
  access_list_of evm = elim (m.transact_ref evm.block evm.tx evm.world) [
    | err _ ↦ panics
    | ok _ ↦ returns (
        into_access_list (
          run_access_list m.access_opcodes
            (new_access_list m.precompiles m.searcher m.sandwich_contract)
            (m.instructions evm.block evm.tx evm.world)))
  ]

  -- The verdict of the salmonella inspector.
  unfoldable pub check_safu : Leg → IsSandoSafu → Outcome m Unit
  unfolding leg_not_safu
  check_safu leg safu = returns tt
  check_safu leg (not_safu found) = fails (leg_not_safu leg found)

  -- A run that is committed and must succeed: the gas used, and the machine after it.
  unfoldable pub check_success :
      Leg → Evm m → Result Execution m.EvmError × m.World → Outcome m (ℕ × Evm m)
  unfolding leg_evm_error leg_reverted leg_halted gas_used_of
  check_success leg evm (err e, world) = fails (leg_evm_error leg e)
  check_success leg evm (ok (success gas output), world) =
      returns (gas, record evm { world = world })
  check_success leg evm (ok (revert gas output), world) = fails (leg_reverted leg output)
  check_success leg evm (ok (halt gas reason), world) = fails (leg_halted leg reason)

  -- The run for the access list, then the run with it and the salmonella inspector.
  unfoldable pub execute : Leg → Evm m → Outcome m (ℕ × List (ℕ × List ℕ) × Evm m)
  unfolding access_list_of check_safu check_success new_salmonella
  execute leg evm = do
    access_list ← access_list_of evm
    let listed : Evm m = record evm { tx = record evm.tx { access_list = access_list } }
    inspector ← lift (
        run_salmonella m.opcodes new_salmonella
          (ops_of (m.instructions listed.block listed.tx listed.world)))
    (gas_used, next) ←
        check_success leg listed (m.transact_commit listed.block listed.tx listed.world)
    _ ← check_safu leg (is_sando_safu m.opcodes inspector)
    returns (gas_used, access_list, next)
