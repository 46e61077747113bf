-- ===== src/Simulate/Examples.antt =====
-- The simulation's theorems on a concrete machine and sandwich.
use sando_rs.Base.{
  if◌then◌else◌, lt→ltb, ℕ, Bool, Option, ltb, err, ◌*◌, ◌^◌, ◌≤◌, ◌≡◌, refl, false, none, some,
  List, [], ◌∷◌, ok, arith,
}
use sando_rs.Block.{BlockInfo}
use sando_rs.Pool.{Pool, uniswap_v2}
use sando_rs.Recipe.{OptimalRecipe}
use sando_rs.Labels.V2.{new as new_v2, find_swap_type}
use sando_rs.Swap.{encode_weth, scale_down, decode}
use sando_rs.Swap.V2.{encode_four_bytes, encode_intermediary_token, decode_intermediary}
use sando_rs.AmountOut.{amount_out_of}
use sando_rs.Payload.V2.{create_payload_weth_is_input, create_payload_weth_is_output}
use sando_rs.Packed.{encode_packed}
use sando_rs.Salmonella.{run as run_salmonella, is_sando_safu}
use sando_rs.Labels.V3.{new as new_v3}
use sando_rs.Constants.{weth_address}
use sando_rs.Simulate.{
  Transaction, RawIngredients, Machine, Evm, success, Outcome, returns, fails, panics,
}
use sando_rs.Simulate.Legs.{SandwichMaker}
use sando_rs.Simulate.Sanity.{sanity_check}
use sando_rs.Simulate.Outcomes.{is_returned}
use sando_rs.Simulate.Tips.{RejectsTips, sanity_check-last_priority_fee}
use sando_rs.Simulate.Skipped.{sanity_check-input_below_unit}
use sando_rs.Simulate.Recipes.{Sound, sanity_check-Sound}

-- Every call succeeds; the reserves are equal, and the contract has four units of every token.
abbrev pub machine : Machine
machine = record {
  World = ℕ;
  EvmError = ℕ;
  AbiError = ℕ;
  transact_ref = λ block tx world. ok (success 21000 []);
  transact_commit = λ block tx world. (ok (success 90000 []), world);
  instructions = λ block tx world. [];
  encode_balance_of = λ owner. owner ∷ [];
  decode_balance_of = λ output. ok (4 * 10 ^ 18);
  encode_quote = λ token_in token_out fee amount limit. [];
  decode_quote = λ output. ok 0;
  decode_reserves = λ output. some (10 ^ 21, 10 ^ 21);
  build_swap_v2_data = λ amount pool token_in token_out. [];
  build_swap_v3_data = λ amount pool token_in token_out. [];
  decode_swap_v2_result = λ output. ok (0, 0);
  decode_swap_v3_result = λ output. ok (0, 0);
  opcodes = record {
    jumpmap = λ code. none;
    balance = 0x31;
    gasprice = 0x3A;
    extcodehash = 0x3F;
    blockhash = 0x40;
    coinbase = 0x41;
    difficulty = 0x44;
    gaslimit = 0x45;
    selfbalance = 0x47;
    basefee = 0x48;
    create = 0xF0;
    create2 = 0xF5;
    selfdestruct = 0xFF;
    call = 0xF1;
    delegatecall = 0xF4;
    staticcall = 0xFA;
    gas = 0x5A;
  };
  access_opcodes = record { storage = 0x54 ∷ 0x55 ∷ []; account = 0x31 ∷ []; calls = 0xF1 ∷ [] };
  precompiles = 1 ∷ 2 ∷ [];
  hex_encode = λ bytes. "";
  hashing = record { abi_encode = λ tokens. []; keccak256 = λ bytes. [] };
  same_transaction = λ t u. false;
  searcher = 77;
  sandwich_contract = 88;
}

-- Whether a priority fee is set and above the price.
abbrev above : Option ℕ → ℕ → Bool
above none price = false
above (some fee) price = ltb price fee

abbrev pub evm : Evm machine
evm = record {
  block = record { number = 0; timestamp = 0; basefee = 0; coinbase = 0 };
  tx = record {
    caller = 0;
    transact_to = 0;
    tx_data = [];
    value = 0;
    gas_limit = 0;
    gas_price = 0;
    gas_priority_fee = none;
    chain_id = none;
    access_list = [];
  };
  world = 0;
}

-- A transaction that pays a tip of 3 on a fee of 100 at most.
abbrev pub meat : Transaction
meat = record {
  hash = 5;
  from = 6;
  to = some 7;
  input = [];
  value = 0;
  chain_id = some 1;
  gas = 100000;
  gas_price = none;
  max_priority_fee_per_gas = some 3;
  max_fee_per_gas = some 100;
  transaction_type = some 2;
}

abbrev earlier : Transaction
earlier = record meat { hash = 4 }

abbrev pub pool : Pool
pool = record {
  address = 9;
  token_0 = 11;
  token_1 = weth_address;
  swap_fee = 3000;
  pool_variant = uniswap_v2;
  has_dust = false;
}

abbrev multi : List (RawIngredients ℕ)
multi =
    record {
      startend_token = weth_address;
      intermediary_token = 11;
      from = 77;
      sandwich_contract = 88;
      meats = meat ∷ earlier ∷ [];
      target_pool = pool;
      state_diffs = (9, 1) ∷ [];
    }
    ∷ []

-- A base fee of 2, below the tip.
abbrev pub next_block : BlockInfo
next_block = record { number = 100; timestamp = 1200; base_fee = 2 }

abbrev pub maker : SandwichMaker
maker = record { v2 = new_v2; v3 = new_v3 }

abbrev no_recipe : OptimalRecipe Transaction ℕ
no_recipe = record {
  frontrun_data = [];
  frontrun_value = 0;
  frontrun_gas_used = 0;
  frontrun_access_list = [];
  backrun_data = [];
  backrun_value = 0;
  backrun_gas_used = 0;
  backrun_access_list = [];
  meats = [];
  target_pools = [];
  revenue = 0;
  state_diffs = [];
}

-- What is returned, or else a value given.
abbrev or_else : {A : Type 0} → A → Outcome machine A → A
or_else a (returns b) = b
or_else a (fails _) = a
or_else a panics = a

abbrev outcome : Outcome machine (OptimalRecipe Transaction ℕ)
outcome = sanity_check (3 * 10 ^ 18) (10 ^ 18 ∷ []) multi next_block maker evm

sanity_check-input_below_unit_example :
    is_returned (sanity_check (3 * 10 ^ 18) (1000 ∷ []) multi next_block maker evm) ≡ false
sanity_check-input_below_unit_example =
    sanity_check-input_below_unit (3 * 10 ^ 18) (1000 ∷ []) multi next_block maker evm 0 1000
      (omega arith) refl (omega arith)

sanity_check-Sound_example : Sound (λ t. t.gas ≤ 100000) multi (or_else no_recipe outcome)
unfolding sanity_check encode_weth amount_out_of decode_intermediary encode_four_bytes scale_down
    decode create_payload_weth_is_input find_swap_type new_v2 encode_packed run_salmonella
    is_sando_safu encode_intermediary_token create_payload_weth_is_output
sanity_check-Sound_example =
    sanity_check-Sound (3 * 10 ^ 18) (10 ^ 18 ∷ []) multi next_block maker evm
      (or_else no_recipe outcome) (λ t. t.gas ≤ 100000) (omega arith, (omega arith, tt)) refl

-- As `machine`, but without the transactions whose priority fee is above what they pay at most.
abbrev strict : Machine
strict = record machine {
  transact_ref = λ block tx world.
      if above tx.gas_priority_fee tx.gas_price then err 0 else ok (success 21000 []);
}

strict-RejectsTips : RejectsTips strict
strict-RejectsTips run fee set over = (0, rw (set, lt→ltb _ _ over) refl)

abbrev strict_evm : Evm strict
strict_evm = record { block = evm.block; tx = evm.tx; world = 0 }

-- A tip of 3 on a base fee of 2.
sanity_check-last_priority_fee_example :
    is_returned (sanity_check (3 * 10 ^ 18) (10 ^ 18 ∷ []) multi next_block maker strict_evm)
    ≡ false
sanity_check-last_priority_fee_example =
    sanity_check-last_priority_fee (3 * 10 ^ 18) (10 ^ 18 ∷ []) multi next_block maker strict_evm 3
      strict-RejectsTips refl (omega arith)
