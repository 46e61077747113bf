-- ===== src/Runner.antt =====
-- The handling of pending transactions in `run` of bot/src/runner/mod.rs. What is read from outside
-- for a transaction is given. The tasks of its pools are taken one after another; a panic of a task
-- ends that task, and one of `run` ends it.
pub mod Pending
pub mod Earning
pub mod Aimed
pub mod Examples
use sando_rs.Base.{
  ℕ, Bool, true, false, Option, none, some, List, [], ◌∷◌, ◌++◌, Checked, val, panic, Result, ok,
  err, ltb, if◌then◌else◌,
}
use sando_rs.Constants.{weth_address}
use sando_rs.Pool.{Pool}
use sando_rs.Block.{BlockInfo}
use sando_rs.Recipe.{OptimalRecipe}
use sando_rs.CacheDb.{AccountInfo, CacheDb}
use sando_rs.StateDiff.Cache.{to_cache_db}
use sando_rs.StateDiff.{AccountDiff, SandwichablePool, get_from_txs, extract_pools}
use sando_rs.Bundle.{BundleRequest, SendError, Sender, send_bundle, add_recipe}
use sando_rs.Bundle.Mega.{new_ingredients}
use sando_rs.Simulate.{Transaction, RawIngredients, Machine, Evm, Outcome, returns, fails, panics}
use sando_rs.Simulate.Meats.{unwrap_or_default}
use sando_rs.Simulate.Queries.{get_sandwich_weth_balance_evm}
use sando_rs.Simulate.Legs.{SandwichMaker}
use sando_rs.Simulate.Sanity.{create_optimal_sandwich}

-- The recipes that wait, the balance last read, and what came of the bundles.
pub record Bot (W : Type 0) : Type 0 where
  pub pending : List (Pool × List (OptimalRecipe Transaction AccountDiff))
  pub weth_balance : ℕ
  pub bundles : List (Checked (Result {0, 0} (List (ℕ × BundleRequest)) (SendError W)))

-- What is read for a transaction: the block oracle, the sender recovered from the signature, the
-- answer of the trace, the provider's answers for the accounts of the diffs, and a new machine on a
-- fork with a database in front, without and with the module of the search. `fuel` is that of the
-- search, `draw` the random draw for the bribe.
pub record Given (m : Machine) (cache : CacheDb) (W : Type 0) : Type 0 where
  pub next_block : BlockInfo
  pub sender : Sender W Transaction
  pub recovered : Option ℕ
  pub block_traces : Option (List (Option (List (ℕ × AccountDiff))))
  pub get_transaction_count : (address : ℕ) → Result ℕ W
  pub get_balance : (address : ℕ) → Result ℕ W
  pub get_code : (address : ℕ) → Result (List ℕ) W
  pub new_account : (balance nonce : ℕ) → List ℕ → AccountInfo
  pub empty : cache.Db
  pub fork : cache.Db → Evm m
  pub attached : cache.Db → Evm m
  pub fuel : ℕ
  pub draw : ℕ

module _ {m : Machine} {cache : CacheDb} {W : Type 0} (storage_key : ℕ → ℕ)
    (all_pools : ℕ → Option Pool) (maker : SandwichMaker) where
  -- A recipe with some revenue is kept and sent.
  unfoldable pub take_outcome :
      Given m cache W
      → Bot W
      → Pool
      → Option (Outcome m (OptimalRecipe Transaction AccountDiff))
      → Bot W
  unfolding add_recipe send_bundle
  take_outcome given s pool none = s
  take_outcome given s pool (some (fails _)) = s
  take_outcome given s pool (some panics) = s
  take_outcome given s pool (some (returns recipe)) =
      if ltb 0 recipe.revenue
      then record s {
        pending = add_recipe s.pending recipe pool;
        bundles = s.bundles ++ send_bundle given.sender recipe given.next_block given.draw ∷ [];
      }
      else s

  -- One of the pools that the transaction touches, if weth goes into it. `evm` is a new machine on
  -- the fork.
  unfoldable pub handle_pool :
      Given m cache W
      → Transaction
      → List (ℕ × AccountDiff)
      → Evm m
      → (sandwich_balance : ℕ) → SandwichablePool
      → Bot W
      → Bot W
  unfolding take_outcome new_ingredients create_optimal_sandwich
  handle_pool given victim_tx diffs evm sandwich_balance sandwichable s =
      let ingredients =
        new_ingredients m.searcher m.sandwich_contract sandwichable.pool (victim_tx ∷ [])
          weth_address diffs in
      let outcome =
        create_optimal_sandwich given.fuel (ingredients ∷ []) sandwich_balance given.next_block
          maker evm in
      if sandwichable.is_weth_input then take_outcome given s sandwichable.pool outcome else s

  unfoldable pub handle_pools :
      Given m cache W
      → Transaction
      → List (ℕ × AccountDiff)
      → Evm m
      → (sandwich_balance : ℕ) → List SandwichablePool
      → Bot W
      → Bot W
  unfolding handle_pool
  handle_pools given victim_tx diffs evm sandwich_balance [] s = s
  handle_pools given victim_tx diffs evm sandwich_balance (sandwichable ∷ rest) s =
      handle_pools given victim_tx diffs evm sandwich_balance rest
        (handle_pool given victim_tx diffs evm sandwich_balance sandwichable s)

  -- From the balance on, which is unwrapped.
  unfoldable pub handle_balance :
      Given m cache W
      → Transaction
      → List (ℕ × AccountDiff)
      → Evm m
      → List SandwichablePool
      → Bot W
      → Outcome m (ℕ × Evm m)
      → Checked (Bot W)
  unfolding handle_pools
  handle_balance given victim_tx diffs evm pools s (returns (balance, _)) =
      val
        (handle_pools given victim_tx diffs evm balance pools (record s { weth_balance = balance }))
  handle_balance given victim_tx diffs evm pools s (fails _) = panic
  handle_balance given victim_tx diffs evm pools s panics = panic

  -- From the database of the diffs on, which is unwrapped.
  unfoldable pub handle_forked :
      Given m cache W
      → Transaction
      → List (ℕ × AccountDiff)
      → List SandwichablePool
      → Bot W
      → Checked (Result cache.Db W)
      → Checked (Bot W)
  unfolding get_sandwich_weth_balance_evm handle_balance
  handle_forked given victim_tx diffs pools s panic = panic
  handle_forked given victim_tx diffs pools s (val (err _)) = panic
  handle_forked given victim_tx diffs pools s (val (ok initial_db)) =
      handle_balance given victim_tx diffs (given.attached initial_db) pools s
        (get_sandwich_weth_balance_evm given.next_block (given.fork initial_db))

  -- A transaction whose sender or diffs are not found is passed over, as is one of which the pools
  -- are not found.
  unfoldable pub handle_found :
      Given m cache W
      → Transaction
      → Option ℕ
      → Option (List (ℕ × AccountDiff))
      → Bot W
      → Checked (Bot W)
  unfolding extract_pools to_cache_db handle_forked
  handle_found given victim_tx none diffs s = val s
  handle_found given victim_tx (some from) none s = val s
  handle_found given victim_tx (some from) (some diffs) s =
      elim (extract_pools storage_key diffs all_pools) [
        | none ↦ val s
        | some pools ↦
            handle_forked given (record victim_tx { from = from }) diffs pools s
              (to_cache_db cache given.new_account given.get_transaction_count given.get_balance
                given.get_code given.empty diffs)
      ]

  -- A transaction that does not pay the next base fee is passed over.
  unfoldable pub handle_victim : Given m cache W → Transaction → Bot W → Checked (Bot W)
  unfolding get_from_txs handle_found
  handle_victim given victim_tx s =
      let handled =
        handle_found given victim_tx given.recovered (get_from_txs given.block_traces) s in
      if ltb (unwrap_or_default victim_tx.max_fee_per_gas) given.next_block.base_fee
      then val s
      else handled

  -- The transactions of the stream in their order.
  unfoldable pub handle_stream : List (Given m cache W × Transaction) → Bot W → Checked (Bot W)
  unfolding handle_victim
  handle_stream [] s = val s
  handle_stream ((given, victim_tx) ∷ stream) s = elim (handle_victim given victim_tx s) [
    | panic ↦ panic
    | val t ↦ handle_stream stream t
  ]
