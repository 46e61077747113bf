-- ===== src/Block.antt =====
-- bot/src/types/block.rs, `calculate_next_block_base_fee` of bot/src/utils/mod.rs, and the part of
-- `start_block_oracle` (bot/src/runner/oracles.rs) that takes a new block in.
pub mod BaseFee
pub mod Oracle
mod Examples
use sando_rs.Base.{
  ℕ, ◌+◌, ◌/◌, ◌^◌, Option, none, some, Checked, val, ◌>>=◌, Result, ok, err, unwrap, fit, add_u256,
  mul_u256, checked_minus, checked_div, ltb, ◌==◌, if◌then◌else◌,
}

-- The fields of an ethers `Block<TxHash>` that the program reads.
pub record Block : Type 0 where
  pub number : Option ℕ
  pub timestamp : ℕ
  pub base_fee_per_gas : Option ℕ
  pub gas_used : ℕ
  pub gas_limit : ℕ

abbrev pub unwrap_or_default : Option ℕ → ℕ
unwrap_or_default none = 0
unwrap_or_default (some n) = n

-- `U64` addition
abbrev pub add_u64 : ℕ → ℕ → Checked ℕ
add_u64 a b = fit (2 ^ 64) (a + b)

-- `fee * delta / target / 8`
unfoldable pub fee_delta : (fee delta target : ℕ) → Checked ℕ
fee_delta fee delta target = do
  product ← mul_u256 fee delta
  share ← checked_div product target
  val (share / 8)

unfoldable pub calculate_next_block_base_fee : Block → Checked ℕ
calculate_next_block_base_fee block =
    let fee = unwrap_or_default block.base_fee_per_gas in
    let target = block.gas_limit / 2 in
    if block.gas_used == target
    then val fee
    else (if ltb target block.gas_used
        then (do
          gas_used_delta ← checked_minus block.gas_used target
          delta ← fee_delta fee gas_used_delta target
          add_u256 fee delta)
        else (do
          gas_used_delta ← checked_minus target block.gas_used
          delta ← fee_delta fee gas_used_delta target
          checked_minus fee delta))

pub record BlockInfo : Type 0 where
  pub number : ℕ
  pub timestamp : ℕ
  pub base_fee : ℕ

unfoldable pub find_next_block_info : Block → Checked BlockInfo
find_next_block_info prev_block = do
  number ← add_u64 (unwrap_or_default prev_block.number) 1
  timestamp ← add_u256 prev_block.timestamp 12
  base_fee ← calculate_next_block_base_fee prev_block
  val (record { number = number; timestamp = timestamp; base_fee = base_fee })

pub record BlockOracle : Type 0 where
  pub latest_block : BlockInfo
  pub next_block : BlockInfo

pub data ProviderError (E : Type 0) : Type 0 where
  custom_error : ProviderError E
  other : E → ProviderError E

-- `BlockOracle::new`, given what `client.get_block(Latest)` answers; `custom_error` is the error
-- with the text "Block not found".
new_oracle_of : Block → Checked BlockOracle
new_oracle_of lb = do
  number ← unwrap lb.number
  next_number ← add_u64 number 1
  next_timestamp ← add_u256 lb.timestamp 12
  next_base_fee ← calculate_next_block_base_fee lb
  val (record {
    latest_block = record {
      number = number;
      timestamp = lb.timestamp;
      base_fee = unwrap_or_default lb.base_fee_per_gas;
    };
    next_block = record {
      number = next_number;
      timestamp = next_timestamp;
      base_fee = next_base_fee;
    };
  })

pub new_oracle :
    {E : Type 0}
    → Result (Option Block) (ProviderError E)
    → Checked (Result BlockOracle (ProviderError E))
unfolding new_oracle_of
new_oracle (err e) = val (err e)
new_oracle (ok none) = val (err custom_error)
new_oracle (ok (some lb)) = do oracle ← new_oracle_of lb; val (ok oracle)

unfoldable pub update_block_number : BlockOracle → ℕ → Checked BlockOracle
update_block_number oracle block_number = do
  next ← add_u64 block_number 1
  val (record {
    latest_block = record oracle.latest_block { number = block_number };
    next_block = record oracle.next_block { number = next };
  })

unfoldable pub update_block_timestamp : BlockOracle → ℕ → Checked BlockOracle
update_block_timestamp oracle timestamp = do
  next ← add_u256 timestamp 12
  val (record {
    latest_block = record oracle.latest_block { timestamp = timestamp };
    next_block = record oracle.next_block { timestamp = next };
  })

unfoldable pub update_base_fee : BlockOracle → Block → Checked BlockOracle
update_base_fee oracle latest_block = do
  next ← calculate_next_block_base_fee latest_block
  val (record {
    latest_block = record oracle.latest_block {
      base_fee = unwrap_or_default latest_block.base_fee_per_gas;
    };
    next_block = record oracle.next_block { base_fee = next };
  })

-- The three updates under the oracle's write lock, for each block of the stream.
pub take_block : BlockOracle → Block → Checked BlockOracle
unfolding update_block_number update_block_timestamp update_base_fee
take_block oracle block = do
  number ← unwrap block.number
  numbered ← update_block_number oracle number
  stamped ← update_block_timestamp numbered block.timestamp
  update_base_fee stamped block
