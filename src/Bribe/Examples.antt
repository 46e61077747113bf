-- ===== src/Bribe/Examples.antt =====
-- The theorem on the bribe at a concrete recipe.
use sando_rs.Base.{ℕ, ◌≡◌, false, [], ◌∷◌, val, Result, arith}
use sando_rs.Block.{BlockInfo}
use sando_rs.Pool.{Pool, uniswap_v2}
use sando_rs.Recipe.{OptimalRecipe}
use sando_rs.Bribe.{SendBundleError, calculate_bribe_for_max_fee}
use sando_rs.Bribe.Verdict.{Verdict, bonus, calculate_bribe_for_max_fee-Verdict}

abbrev pool : Pool
pool = record {
  address = 1;
  token_0 = 2;
  token_1 = 3;
  swap_fee = 3000;
  pool_variant = uniswap_v2;
  has_dust = false;
}

abbrev recipe : OptimalRecipe ℕ ℕ
recipe = record {
  frontrun_data = [];
  frontrun_value = 0;
  frontrun_gas_used = 100000;
  frontrun_access_list = [];
  backrun_data = [];
  backrun_value = 0;
  backrun_gas_used = 80000;
  backrun_access_list = [];
  meats = [];
  target_pools = pool ∷ [];
  revenue = 10000000000000000;
  state_diffs = [];
}

abbrev block : BlockInfo
block = record { number = 16000000; timestamp = 1668000000; base_fee = 20000000000 }

calculate_bribe_for_max_fee_example :
    (r : Result ℕ SendBundleError) × (calculate_bribe_for_max_fee 5000000 recipe block ≡ val r)
    × Verdict 5000000 2000000000000000 10000000000000000 220000000000000 20000000000 80000 r
unfolding bonus
calculate_bribe_for_max_fee_example =
    calculate_bribe_for_max_fee-Verdict 5000000 recipe block (omega arith) (omega arith)
      (omega arith) (omega arith)
