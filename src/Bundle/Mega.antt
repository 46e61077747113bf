-- ===== src/Bundle/Mega.antt =====
-- `make_mega_sandwich` of bot/src/runner/bundle_sender.rs, with `RawIngredients::new` of
-- bot/src/types/sandwich_types/raw_ingredients.rs. The fork that is simulated on is a parameter.
pub mod Meats
use sando_rs.Base.{
  ℕ, Bool, Option, none, some, List, [], ◌∷◌, ◌++◌, Checked, val, panic, Result, ok, err, leb, ltb,
  ◌==◌, if◌then◌else◌,
}
use sando_rs.Constants.{weth_address}
use sando_rs.Pool.{Pool}
use sando_rs.Block.{BlockInfo}
use sando_rs.Recipe.{OptimalRecipe}
use sando_rs.Bundle.{BundleRequest, SendError, Sender, send_bundle}
use sando_rs.Simulate.{Transaction, RawIngredients, Machine, Evm, Outcome, returns, fails, panics}
use sando_rs.Simulate.Legs.{SandwichMaker}
use sando_rs.Simulate.Sanity.{insert_diffs, create_optimal_sandwich}

module _ {D : Type 0} where
  -- `RawIngredients::new`, which never fails. The addresses are those of the configuration.
  unfoldable pub new_ingredients :
      (from sandwich_contract : ℕ)
      → Pool
      → List Transaction
      → (start_token : ℕ) → List (ℕ × D)
      → RawIngredients D
  new_ingredients from sandwich_contract target_pair victim_txs start_token state_diffs =
      let swapped = start_token == target_pair.token_1 in
      record {
        startend_token = if swapped then target_pair.token_1 else target_pair.token_0;
        intermediary_token = if swapped then target_pair.token_0 else target_pair.token_1;
        from = from;
        sandwich_contract = sandwich_contract;
        meats = victim_txs;
        target_pool = target_pair;
        state_diffs = state_diffs;
      }

  -- `recipes.sort_by(|a, b| a.revenue.cmp(&b.revenue))`
  unfoldable pub insert_by_revenue :
      OptimalRecipe Transaction D
      → List (OptimalRecipe Transaction D)
      → List (OptimalRecipe Transaction D)
  insert_by_revenue r [] = r ∷ []
  insert_by_revenue r (s ∷ ss) =
      let rest = insert_by_revenue r ss in if leb r.revenue s.revenue then r ∷ s ∷ ss else s ∷ rest

  unfoldable pub sort_by_revenue :
      List (OptimalRecipe Transaction D) → List (OptimalRecipe Transaction D)
  unfolding insert_by_revenue
  sort_by_revenue [] = []
  sort_by_revenue (r ∷ rs) = insert_by_revenue r (sort_by_revenue rs)

  -- The diffs of recipes on top of others, and their victims' transactions.
  unfoldable pub combine_recipes : List (OptimalRecipe Transaction D) → List (ℕ × D) → List (ℕ × D)
  unfolding insert_diffs
  combine_recipes [] combined = combined
  combine_recipes (r ∷ rs) combined = combine_recipes rs (insert_diffs r.state_diffs combined)

  abbrev pub recipe_meats : List (OptimalRecipe Transaction D) → List Transaction
  recipe_meats [] = []
  recipe_meats (r ∷ rs) = r.meats ++ recipe_meats rs

  module _ (from sandwich_contract : ℕ) where
    -- The ingredients of each pool with pending recipes.
    unfoldable pub mega_ingredients :
        List (Pool × List (OptimalRecipe Transaction D)) → List (RawIngredients D)
    unfolding new_ingredients sort_by_revenue combine_recipes
    mega_ingredients [] = []
    mega_ingredients ((target_pool, recipes) ∷ pending) =
        let sorted = sort_by_revenue recipes in
        new_ingredients from sandwich_contract target_pool (recipe_meats sorted) weth_address
          (combine_recipes sorted [])
        ∷ mega_ingredients pending

  -- All their diffs, which the fork starts from.
  unfoldable pub multi_combined_diffs :
      List (Pool × List (OptimalRecipe Transaction D)) → List (ℕ × D) → List (ℕ × D)
  unfolding sort_by_revenue combine_recipes
  multi_combined_diffs [] combined = combined
  multi_combined_diffs ((_, recipes) ∷ pending) combined =
      multi_combined_diffs pending (combine_recipes (sort_by_revenue recipes) combined)

  -- A recipe of some revenue is sent; an error of sending is only logged.
  unfoldable pub send_if_earns :
      {m : Machine} {W : Type 0}
      → Sender W Transaction
      → BlockInfo
      → (draw : ℕ) → Outcome m (OptimalRecipe Transaction D)
      → Checked (Result {0, 0} (List (ℕ × BundleRequest)) (SendError W))
  unfolding send_bundle
  send_if_earns sender next_block draw (fails _) = val (ok [])
  send_if_earns sender next_block draw panics = panic
  send_if_earns sender next_block draw (returns recipe) =
      if ltb 0 recipe.revenue then send_bundle sender recipe next_block draw else val (ok [])

  -- `fork` makes the machine of the diffs; `none` is a search that is not done within its fuel.
  unfoldable pub make_mega_sandwich :
      {m : Machine} {W : Type 0}
      → (fork : List (ℕ × D) → Evm m) (fuel : ℕ) → List (Pool × List (OptimalRecipe Transaction D))
      → (weth_balance : ℕ) → BlockInfo
      → SandwichMaker
      → Sender W Transaction
      → (draw : ℕ) → Option (Checked (Result {0, 0} (List (ℕ × BundleRequest)) (SendError W)))
  unfolding mega_ingredients multi_combined_diffs create_optimal_sandwich send_if_earns
  make_mega_sandwich {m} fork fuel pending weth_balance next_block maker sender draw =
      let multi_ingredients = mega_ingredients m.searcher m.sandwich_contract pending in
      elim (create_optimal_sandwich fuel multi_ingredients weth_balance next_block maker
        (fork (multi_combined_diffs pending []))) [
          | none ↦ none
          | some outcome ↦ some (send_if_earns sender next_block draw outcome)
        ]
