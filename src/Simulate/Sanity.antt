-- ===== src/Simulate/Sanity.antt =====
-- `sanity_check` and `create_optimal_sandwich` of bot/src/simulate/make_sandwich.rs: the sandwich as
-- the contract would run it, and the recipe that comes of it.
use sando_rs.Base.{
  Checked, Result, ℕ, Bool, true, false, Option, none, some, List, [], ◌∷◌, ◌++◌, map, val, panic,
  ok, err, unwrap, checked_sub, length, ltb, ◌==◌, if◌then◌else◌,
}
use sando_rs.Constants.{weth_address, end_of_multi_payload}
use sando_rs.Block.{BlockInfo}
use sando_rs.Recipe.{OptimalRecipe}
use sando_rs.Search as Search
use sando_rs.Search.{or_zero, choose_optimals}
use sando_rs.Simulate.{
  Transaction, RawIngredients, Machine, Evm, TxEnv, Execution, success, revert, halt, Outcome,
  returns, fails, panics, ◌>>=◌, lift, evm_error, no_meat, zero_optimal,
}
use sando_rs.Simulate.Queries.{setup_block_state, get_balance_of_evm}
use sando_rs.AccessList.Convert.{convert_access_list}
use sando_rs.Simulate.Revenue.{simulated_revenue}
use sando_rs.Simulate.Meats.{meat_tx, sort_by_hash, dedup}
use sando_rs.Simulate.Swaps.{Frontrun, Backrun, prepare_frontrun, prepare_backrun, leg_tx}
use sando_rs.Simulate.Legs.{SandwichMaker, frontrun, backrun, execute}

-- The bytes of a transaction, ended by a byte of their own where it has several swaps.
abbrev pub ended : Bool → List ℕ → List ℕ
ended true bytes = bytes ++ end_of_multi_payload ∷ []
ended false bytes = bytes

-- The victims' transactions of all ingredients.
abbrev pub meats_of : {D : Type 0} → List (RawIngredients D) → List Transaction
meats_of [] = []
meats_of (ingredients ∷ rest) = ingredients.meats ++ meats_of rest

-- `BTreeMap::insert`, on the entries in the order of their keys.
unfoldable pub insert_diff : {D : Type 0} → (key : ℕ) → D → List (ℕ × D) → List (ℕ × D)
insert_diff key diff [] = (key, diff) ∷ []
insert_diff key diff ((other, old) ∷ entries) =
    let rest = insert_diff key diff entries in
    if key == other
    then (key, diff) ∷ entries
    else (if ltb key other then (key, diff) ∷ (other, old) ∷ entries else (other, old) ∷ rest)

unfoldable pub insert_diffs : {D : Type 0} → List (ℕ × D) → List (ℕ × D) → List (ℕ × D)
unfolding insert_diff
insert_diffs [] combined = combined
insert_diffs ((key, diff) ∷ diffs) combined = insert_diffs diffs (insert_diff key diff combined)

-- The diffs of all ingredients; of several for one account the last.
unfoldable pub combine_diffs : {D : Type 0} → List (RawIngredients D) → List (ℕ × D) → List (ℕ × D)
unfolding insert_diffs
combine_diffs [] combined = combined
combine_diffs (ingredients ∷ rest) combined =
    combine_diffs rest (insert_diffs ingredients.state_diffs combined)

module _ {m : Machine} where
  -- What has come of a victim's transaction: whether it succeeds, and the machine after it.
  abbrev pub met : Evm m → TxEnv → Result Execution m.EvmError × m.World → Outcome m (Bool × Evm m)
  met evm tx (err e, world) = fails (evm_error e)
  met evm tx (ok (success _ _), world) = returns (true, record evm { tx = tx; world = world })
  met evm tx (ok (revert _ _), world) = returns (false, record evm { tx = tx; world = world })
  met evm tx (ok (halt _ _), world) = returns (false, record evm { tx = tx; world = world })

  unfoldable pub run_meat : Transaction → Evm m → Outcome m (Bool × Evm m)
  unfolding meat_tx
  run_meat meat evm = do
    tx ← lift (meat_tx unwrap meat evm.tx)
    met evm tx (m.transact_commit evm.block tx evm.world)

  -- All of them in their order, and those of them that succeed.
  unfoldable pub run_meats : List Transaction → Evm m → Outcome m (List Transaction × Evm m)
  unfolding run_meat
  run_meats [] evm = returns ([], evm)
  run_meats (meat ∷ meats) evm = run_meat meat evm >>= λ (good, next).
      run_meats meats next >>= λ (good_meats, last).
      returns (if good then meat ∷ good_meats else good_meats, last)

  -- An error where no victim's transaction succeeds.
  unfoldable pub require_meats : List Transaction → Outcome m Unit
  require_meats [] = fails no_meat
  require_meats (_ ∷ _) = returns tt

  -- From the backrun's swaps on: its run, and the recipe.
  unfoldable pub close_sandwich :
      {D : Type 0}
      → (sandwich_start_balance : ℕ) → BlockInfo
      → (ingredients_len : ℕ) → Frontrun m D
      → (frontrun_gas_used : ℕ) (frontrun_access_list : List (ℕ × List ℕ))
        (good_meats : List Transaction)
      → Backrun m
      → Outcome m (OptimalRecipe Transaction D)
  unfolding get_balance_of_evm leg_tx execute combine_diffs convert_access_list
  close_sandwich sandwich_start_balance next_block ingredients_len front frontrun_gas_used
        frontrun_access_list good_meats back =
      do
        let is_multiple = ltb 1 ingredients_len
        let backrun_data = ended is_multiple back.backrun_data
        backrun_evm ←
            leg_tx next_block backrun ingredients_len backrun_data back.backrun_value back.evm
        (backrun_gas_used, backrun_access_list, closed) ← execute backrun backrun_evm
        (post_sandwich_balance, _) ←
            get_balance_of_evm weth_address m.sandwich_contract next_block closed
        returns (record {
          frontrun_data = ended is_multiple front.frontrun_data;
          frontrun_value = front.frontrun_value;
          frontrun_gas_used = frontrun_gas_used;
          frontrun_access_list = convert_access_list frontrun_access_list;
          backrun_data = backrun_data;
          backrun_value = back.backrun_value;
          backrun_gas_used = backrun_gas_used;
          backrun_access_list = convert_access_list backrun_access_list;
          meats = good_meats;
          target_pools = map (λ i. i.target_pool) front.done;
          revenue = or_zero (checked_sub post_sandwich_balance sandwich_start_balance);
          state_diffs = combine_diffs front.done [];
        })

  -- `evm` is a new machine on the fork, with the default environment.
  unfoldable pub sanity_check :
      {D : Type 0}
      → (sandwich_start_balance : ℕ) (frontrun_ins : List ℕ) → List (RawIngredients D)
      → BlockInfo
      → SandwichMaker
      → Evm m
      → Outcome m (OptimalRecipe Transaction D)
  unfolding setup_block_state prepare_frontrun prepare_backrun leg_tx execute run_meats
      require_meats sort_by_hash dedup close_sandwich
  sanity_check sandwich_start_balance frontrun_ins multi_ingredients next_block maker evm = do
    let ingredients_len = length multi_ingredients
    let is_multiple = ltb 1 ingredients_len
    front ← prepare_frontrun next_block maker is_multiple frontrun_ins 0 multi_ingredients (record {
      evm = setup_block_state evm next_block;
      frontrun_data = [];
      frontrun_value = 0;
      backrun_ins = [];
      done = [];
    })
    let ingredients = front.done
    let frontrun_data = ended is_multiple front.frontrun_data
    frontrun_evm ←
        leg_tx next_block frontrun ingredients_len frontrun_data front.frontrun_value front.evm
    (frontrun_gas_used, frontrun_access_list, fronted) ← execute frontrun frontrun_evm
    (succeeded, fed) ← run_meats (meats_of ingredients) fronted
    let good_meats = dedup m.same_transaction (sort_by_hash succeeded)
    _ ← require_meats good_meats
    back ←
        prepare_backrun next_block maker is_multiple front.backrun_ins 0 ingredients
          (record { evm = fed; backrun_data = []; backrun_value = 0 })
    close_sandwich sandwich_start_balance next_block ingredients_len front frontrun_gas_used
        frontrun_access_list good_meats back

  -- What the search has chosen is checked; `none` is a search that is not done within its fuel.
  abbrev pub check_choice :
      {D : Type 0}
      → (sandwich_balance : ℕ) → BlockInfo
      → SandwichMaker
      → Evm m
      → Checked (Option (Result (List ℕ × List (RawIngredients D)) Search.SimulationError))
      → Option (Outcome m (OptimalRecipe Transaction D))
  check_choice sandwich_balance next_block maker evm panic = some panics
  check_choice sandwich_balance next_block maker evm (val none) = none
  check_choice sandwich_balance next_block maker evm (val (some (err _))) =
      some (fails zero_optimal)
  check_choice sandwich_balance next_block maker evm
        (val (some (ok (optimals, good_ingredients)))) =
      some (sanity_check sandwich_balance optimals good_ingredients next_block maker evm)

  -- The search for the inputs and the check of the sandwich, on forks that have the module of the
  -- search. `fuel` is what the search is given.
  unfoldable pub create_optimal_sandwich :
      {D : Type 0}
      → (fuel : ℕ) → List (RawIngredients D)
      → (sandwich_balance : ℕ) → BlockInfo
      → SandwichMaker
      → Evm m
      → Option (Outcome m (OptimalRecipe Transaction D))
  unfolding simulated_revenue
  create_optimal_sandwich fuel multi_ingredients sandwich_balance next_block maker evm =
      check_choice sandwich_balance next_block maker evm
        (choose_optimals (simulated_revenue next_block evm) fuel sandwich_balance multi_ingredients)
