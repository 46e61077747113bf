-- ===== src/Recipe.antt =====
-- bot/src/types/sandwich_types/optimal_recipe.rs. The libraries' transactions and account diffs are
-- parameters; bytes are lists of numbers, an access list pairs an address with its storage keys, and
-- the ordered map of diffs is the list of its entries.
use sando_rs.Base.{ℕ, List}
use sando_rs.Pool.{Pool}

pub record OptimalRecipe (Transaction AccountDiff : Type 0) : Type 0 where
  pub frontrun_data : List ℕ
  pub frontrun_value : ℕ
  pub frontrun_gas_used : ℕ
  pub frontrun_access_list : List (ℕ × List (List ℕ))
  pub backrun_data : List ℕ
  pub backrun_value : ℕ
  pub backrun_gas_used : ℕ
  pub backrun_access_list : List (ℕ × List (List ℕ))
  pub meats : List Transaction
  pub target_pools : List Pool
  pub revenue : ℕ
  pub state_diffs : List (ℕ × AccountDiff)
