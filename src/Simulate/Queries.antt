-- ===== src/Simulate/Queries.antt =====
-- bot/src/simulate/helpers.rs: calls that read the state.
use sando_rs.Base.{ℕ, ◌^◌, ◌*◌, List, [], ◌∷◌, ok, err, unwrap, ltb}
use sando_rs.Constants.{weth_address, eth_dev, uniswap_v3_quoter_address, sqrt_price_limit_x96}
use sando_rs.Block.{BlockInfo}
use sando_rs.AmountOut.{in_and_out, amount_out_of}
use sando_rs.Simulate.{
  Machine, Evm, success, revert, halt, Outcome, returns, fails, ◌>>=◌, lift, or_fail, evm_error,
  evm_halted, evm_reverted, abi_error,
}

abbrev pub braindance_address : ℕ
braindance_address = 0xF3370000

abbrev pub braindance_controller_address : ℕ
braindance_controller_address = 0x420BABE

-- 420 ether
abbrev pub braindance_starting_balance : ℕ
braindance_starting_balance = 420 * 10 ^ 18

module _ {m : Machine} where
  -- The block that the simulated transactions are in.
  unfoldable pub setup_block_state : Evm m → BlockInfo → Evm m
  setup_block_state evm next_block = record evm {
    block = record {
      number = next_block.number;
      timestamp = next_block.timestamp;
      basefee = next_block.base_fee;
      coinbase = 0xDecafC0FFEe15BAD000000000000000000000000;
    };
  }

  -- A call whose changes are dropped: its output, or an error.
  unfoldable pub read_call : Evm m → Outcome m (List ℕ)
  read_call evm = elim (m.transact_ref evm.block evm.tx evm.world) [
    | err e ↦ fails (evm_error e)
    | ok (success _ output) ↦ returns output
    | ok (revert _ output) ↦ fails (evm_reverted output)
    | ok (halt _ reason) ↦ fails (evm_halted reason)
  ]

  -- The environment stays as it is set here.
  unfoldable pub get_amount_out_evm_v2 :
      Evm m → (amount_in target_pool token_in token_out : ℕ) → Outcome m (ℕ × Evm m)
  unfolding read_call
  get_amount_out_evm_v2 evm amount_in target_pool token_in token_out = do
    let tx = record evm.tx {
      transact_to = target_pool;
      caller = eth_dev;
      value = 0;
      tx_data = 0x09 ∷ 0x02 ∷ 0xf1 ∷ 0xac ∷ [];
    }
    let called : Evm m = record evm { tx = tx }
    output ← read_call called
    reserves ← lift (unwrap (m.decode_reserves output))
    let (reserve_in, reserve_out) = in_and_out token_in token_out reserves
    amount_out ← lift (amount_out_of amount_in reserve_in reserve_out)
    returns (amount_out, called)

  unfoldable pub get_amount_out_evm_v3 :
      Evm m → (amount_in token_in token_out swap_fee : ℕ) → Outcome m (ℕ × Evm m)
  unfolding read_call
  get_amount_out_evm_v3 evm amount_in token_in token_out swap_fee = do
    let limit = sqrt_price_limit_x96 (ltb token_in token_out)
    let tx = record evm.tx {
      transact_to = uniswap_v3_quoter_address;
      caller = eth_dev;
      value = 0;
      tx_data = m.encode_quote token_in token_out swap_fee amount_in limit;
    }
    let called : Evm m = record evm { tx = tx }
    output ← read_call called
    amount_out ← or_fail abi_error (m.decode_quote output)
    returns (amount_out, called)

  unfoldable pub get_balance_of_evm : (token owner : ℕ) → BlockInfo → Evm m → Outcome m (ℕ × Evm m)
  unfolding read_call
  get_balance_of_evm token owner next_block evm = do
    let tx = record evm.tx {
      transact_to = token;
      tx_data = m.encode_balance_of owner;
      caller = eth_dev;
      gas_price = next_block.base_fee;
      gas_limit = 700000;
      value = 0;
    }
    let called : Evm m = record evm { tx = tx }
    output ← read_call called
    tokens ← or_fail abi_error (m.decode_balance_of output)
    returns (tokens, called)

  -- The balance before the next block; `evm` is a new machine on the fork.
  unfoldable pub get_sandwich_weth_balance_evm : BlockInfo → Evm m → Outcome m (ℕ × Evm m)
  unfolding setup_block_state get_balance_of_evm
  get_sandwich_weth_balance_evm next_block evm =
      get_balance_of_evm weth_address m.sandwich_contract next_block
        (setup_block_state evm next_block)
