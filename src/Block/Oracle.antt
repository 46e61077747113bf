-- ===== src/Block/Oracle.antt =====
-- The oracle after a block, whatever it held before.
use sando_rs.Base.{ℕ, ◌≡◌, some, none, val, panic, ok, ◌>>=◌, arith}
use sando_rs.Block.{
  Block, BlockOracle, find_next_block_info, new_oracle, take_block, unwrap_or_default,
}

-- Taking a block with a number in, whatever the oracle held before, makes the block itself the
-- latest one and what `find_next_block_info` computes from it the next one, and panics where that
-- does.
take_block_lem :
    (oracle : BlockOracle) (b : Block) (n : ℕ)
    → b.number ≡ some n
    → take_block oracle b ≡ (
        find_next_block_info b >>= λ next. val (record {
          latest_block = record {
            number = n;
            timestamp = b.timestamp;
            base_fee = unwrap_or_default b.base_fee_per_gas;
          };
          next_block = next;
        }))
unfolding take_block find_next_block_info
take_block_lem oracle b n e = ground arith

pub take_block-panic :
    (oracle : BlockOracle) (b : Block) → b.number ≡ none → take_block oracle b ≡ panic
unfolding take_block
take_block-panic oracle b e = ground arith

-- A new oracle, made from the latest block that the client answers with, is the oracle that any
-- other becomes by taking that block in.
pub new_oracle-take_block :
    {E : Type 0} (oracle : BlockOracle) (b : Block)
    → new_oracle {E = E} (ok (some b)) ≡ (take_block oracle b >>= λ taken. val (ok taken))
unfolding take_block new_oracle
new_oracle-take_block oracle b = ground arith
