-- ===== src/Block/Examples.antt =====
-- Tests of the base fee, and the theorems on it at concrete blocks.
use sando_rs.Base.{ℕ, ◌+◌, ◌≤◌, ◌<◌, ◌≡◌, ◌⊎◌, refl, some, val, arith}
use sando_rs.Block.{Block, calculate_next_block_base_fee, fee_delta}
use sando_rs.Block.BaseFee.{base_fee_bounds}

abbrev full : Block
full = record {
  number = some 16000000;
  timestamp = 1668000000;
  base_fee_per_gas = some 20000000000;
  gas_used = 30000000;
  gas_limit = 30000000;
}

abbrev no_limit : Block
no_limit = record full { gas_limit = 1 }

full_block_raises : calculate_next_block_base_fee full ≡ val 22500000000
unfolding calculate_next_block_base_fee fee_delta
full_block_raises = refl

base_fee_bounds_example :
    (next : ℕ) × (calculate_next_block_base_fee full ≡ val next)
    × (next ≤ 22500000000)
    × (20000000000 ≤ next + 2500000000)
    × ((30000000 < 15000000) ⊎ (20000000000 ≤ next))
    × ((15000000 < 30000000) ⊎ (next ≤ 20000000000))
base_fee_bounds_example =
    base_fee_bounds full (omega arith) (omega arith) (omega arith) (omega arith)
