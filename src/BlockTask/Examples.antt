-- ===== src/BlockTask/Examples.antt =====
-- A block of the stream and the request for weth on concrete values.
use Prim.Native.String.{String}
use sando_rs.Base.{
  ◌%◌, ◌==◌, ◌&&◌, if◌then◌else◌, ℕ, ◌*◌, ◌/◌, ◌^◌, ◌≡◌, ◌≢◌, refl, Bool, true, some, List, [], ◌∷◌,
  val,
}
use sando_rs.Block.{
  Block, BlockInfo, find_next_block_info, calculate_next_block_base_fee, fee_delta,
}
use sando_rs.Labels.Gates.{Gate, entry}
use sando_rs.Labels.Dispatch.{v3_callback, jump, dispatch}
use sando_rs.Payload.Layout.{weth_amount}
use sando_rs.BlockTask.{Shared, goes, get_recover_weth_payload_value, handle_block}
use sando_rs.BlockTask.Handled.{oracle_of, recovery, handle_block-goes}
use sando_rs.BlockTask.Recovery.{get_recover_weth_payload_value-no_gate}

abbrev no_text : List ℕ → String
no_text bytes = ""

abbrev mined : Block
mined = record {
  number = some 16000000;
  timestamp = 1668000000;
  base_fee_per_gas = some 20000000000;
  gas_used = 30000000;
  gas_limit = 30000000;
}

abbrev next : BlockInfo
next = record { number = 16000001; timestamp = 1668000012; base_fee = 22500000000 }

-- Five weth, of which half a one is asked for.
abbrev rich : Shared ℕ
rich = record {
  bot = record { pending = []; weth_balance = 5000000000000000000; bundles = [] };
  oracle = record { latest_block = next; next_block = next };
  nonce = 41;
  recoveries = [];
  waiting = [];
}

handle_block-goes_example :
    handle_block no_text 88 77 (record { transaction_count = some 42; sent = true }) mined rich
    ≡ goes (record rich {
      oracle = oracle_of 16000000 mined next;
      nonce = 42;
      recoveries = recovery 88 77 ∷ [];
      waiting = mined ∷ [];
    })
unfolding find_next_block_info calculate_next_block_base_fee fee_delta
handle_block-goes_example = handle_block-goes no_text 88 77 rich mined 42 16000000 next refl refl

get_recover_weth_payload_value-no_gate_example :
    (payload : List ℕ) × (value : ℕ) × (get_recover_weth_payload_value no_text (5 * 10 ^ 17)
      ≡ val (payload, value))
    × (weth_amount value ≡ 5 * 10 ^ 17 / 2 ^ 32 * 2 ^ 32)
    × ((block_number : ℕ) (caller_is_searcher : Bool)
        → (dispatch block_number caller_is_searcher payload
            ≡ (if (124 == block_number % 256) && caller_is_searcher then jump 0 else v3_callback))
          × ((gate : Gate) → dispatch block_number caller_is_searcher payload ≢ jump (entry gate)))
get_recover_weth_payload_value-no_gate_example =
    get_recover_weth_payload_value-no_gate no_text (5 * 10 ^ 17)
