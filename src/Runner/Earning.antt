-- ===== src/Runner/Earning.antt =====
-- The recipes that the bot keeps.
use mathlib.Core.Path.{subst}
use sando_rs.Base.{
  ℕ, ◌≡◌, refl, Option, none, some, List, [], ◌∷◌, Checked, val, panic, Result, ok, err, ltb,
  ltb→lt, Bool-cases, inl, inr, ◌⊎◌,
}
use sando_rs.Pool.{Pool}
use sando_rs.Recipe.{OptimalRecipe}
use sando_rs.Search as Search
use sando_rs.CacheDb.{CacheDb}
use sando_rs.StateDiff.Cache.{to_cache_db}
use sando_rs.StateDiff.{AccountDiff, SandwichablePool, get_from_txs, extract_pools}
use sando_rs.Simulate.Queries.{get_sandwich_weth_balance_evm}
use sando_rs.Backend.Inv.{Option-cases}
use sando_rs.Bundle.Mega.{new_ingredients}
use sando_rs.Constants.{weth_address}
use sando_rs.Simulate.{Transaction, Machine, Evm, Outcome, returns, fails, panics}
use sando_rs.Simulate.Meats.{unwrap_or_default}
use sando_rs.Simulate.Legs.{SandwichMaker}
use sando_rs.Simulate.Revenue.{simulated_revenue}
use sando_rs.Simulate.Sanity.{check_choice, create_optimal_sandwich}
use sando_rs.Runner.{
  Bot, Given, take_outcome, handle_pool, handle_pools, handle_balance, handle_forked, handle_found,
  handle_victim, handle_stream,
}
use sando_rs.Runner.Pending.{PendingEarn, Fed, add_recipe-PendingEarn, check_choice-Fed}

-- What holds of the value, unless there is a panic.
abbrev pub Kept : {A : Type 0} → (A → Type 0) → Checked A → Type 0
Kept P panic = Unit
Kept P (val a) = P a

Checked-cases : {A : Type 0} → (x : Checked A) → (x ≡ panic) ⊎ ((a : A) × (x ≡ val a))
Checked-cases panic = inl refl
Checked-cases (val a) = inr (a, refl)

module _ {m : Machine} {cache : CacheDb} {W : Type 0} (storage_key : ℕ → ℕ)
    (all_pools : ℕ → Option Pool) (maker : SandwichMaker) where
  -- The database of the diffs.
  abbrev pub cached : Given m cache W → List (ℕ × AccountDiff) → Checked (Result cache.Db W)
  cached given diffs =
      to_cache_db cache given.new_account given.get_transaction_count given.get_balance
        given.get_code given.empty diffs

  take_outcome-PendingEarn :
      (given : Given m cache W) (s : Bot W) (pool : Pool)
      (outcome : Option (Outcome m (OptimalRecipe Transaction AccountDiff)))
      → PendingEarn s.pending
      → Fed outcome
      → PendingEarn (take_outcome storage_key all_pools maker given s pool outcome).pending
  unfolding take_outcome
  take_outcome-PendingEarn given s pool none h fed = h
  take_outcome-PendingEarn given s pool (some (fails _)) h fed = h
  take_outcome-PendingEarn given s pool (some panics) h fed = h
  take_outcome-PendingEarn given s pool (some (returns recipe)) h fed =
      elim (Bool-cases (ltb 0 recipe.revenue)) [
        | inl e ↦
            rw e (add_recipe-PendingEarn s.pending recipe pool h (ltb→lt 0 recipe.revenue e, fed))
        | inr e ↦ rw e h
      ]

  pub handle_pool-PendingEarn :
      (given : Given m cache W) (victim_tx : Transaction) (diffs : List (ℕ × AccountDiff))
      (evm : Evm m) (balance : ℕ) (sandwichable : SandwichablePool) (s : Bot W)
      → PendingEarn s.pending
      → PendingEarn
          (handle_pool storage_key all_pools maker given victim_tx diffs evm balance sandwichable
            s).pending
  unfolding handle_pool create_optimal_sandwich
  handle_pool-PendingEarn given victim_tx diffs evm balance sandwichable s h =
      let ingredients =
        new_ingredients m.searcher m.sandwich_contract sandwichable.pool (victim_tx ∷ [])
          weth_address diffs in
      let choice =
        Search.choose_optimals (simulated_revenue given.next_block evm) given.fuel balance
          (ingredients ∷ []) in
      let outcome = check_choice balance given.next_block maker evm choice in
      let fed = check_choice-Fed balance given.next_block maker evm choice in
      elim (Bool-cases sandwichable.is_weth_input) [
        | inl e ↦ rw e (take_outcome-PendingEarn given s sandwichable.pool outcome h fed)
        | inr e ↦ rw e h
      ]

  handle_pools-PendingEarn :
      (given : Given m cache W) (victim_tx : Transaction) (diffs : List (ℕ × AccountDiff))
      (evm : Evm m) (balance : ℕ) (pools : List SandwichablePool) (s : Bot W)
      → PendingEarn s.pending
      → PendingEarn
          (handle_pools storage_key all_pools maker given victim_tx diffs evm balance pools
            s).pending
  unfolding handle_pools
  handle_pools-PendingEarn given victim_tx diffs evm balance [] s h = h
  handle_pools-PendingEarn given victim_tx diffs evm balance (first ∷ rest) s h =
      handle_pools-PendingEarn given victim_tx diffs evm balance rest _
        (handle_pool-PendingEarn given victim_tx diffs evm balance first s h)

  handle_balance-PendingEarn :
      (given : Given m cache W) (victim_tx : Transaction) (diffs : List (ℕ × AccountDiff))
      (evm : Evm m) (pools : List SandwichablePool) (s : Bot W) (read : Outcome m (ℕ × Evm m))
      → PendingEarn s.pending
      → Kept
          (λ t. PendingEarn t.pending)
          (handle_balance storage_key all_pools maker given victim_tx diffs evm pools s read)
  unfolding handle_balance
  handle_balance-PendingEarn given victim_tx diffs evm pools s (returns (balance, _)) h =
      handle_pools-PendingEarn given victim_tx diffs evm balance pools
        (record s { weth_balance = balance }) h
  handle_balance-PendingEarn given victim_tx diffs evm pools s (fails _) h = tt
  handle_balance-PendingEarn given victim_tx diffs evm pools s panics h = tt

  handle_forked-PendingEarn :
      (given : Given m cache W) (victim_tx : Transaction) (diffs : List (ℕ × AccountDiff))
      (pools : List SandwichablePool) (s : Bot W) (made : Checked (Result cache.Db W))
      → PendingEarn s.pending
      → Kept
          (λ t. PendingEarn t.pending)
          (handle_forked storage_key all_pools maker given victim_tx diffs pools s made)
  unfolding handle_forked
  handle_forked-PendingEarn given victim_tx diffs pools s panic h = tt
  handle_forked-PendingEarn given victim_tx diffs pools s (val (err _)) h = tt
  handle_forked-PendingEarn given victim_tx diffs pools s (val (ok db)) h =
      handle_balance-PendingEarn given victim_tx diffs (given.attached db) pools s
        (get_sandwich_weth_balance_evm given.next_block (given.fork db)) h

  handle_found-PendingEarn :
      (given : Given m cache W) (victim_tx : Transaction) (recovered : Option ℕ)
      (diffs : Option (List (ℕ × AccountDiff))) (s : Bot W)
      → PendingEarn s.pending
      → Kept
          (λ t. PendingEarn t.pending)
          (handle_found storage_key all_pools maker given victim_tx recovered diffs s)
  unfolding handle_found
  handle_found-PendingEarn given victim_tx none diffs s h = h
  handle_found-PendingEarn given victim_tx (some from) none s h = h
  handle_found-PendingEarn given victim_tx (some from) (some diffs) s h =
      elim (Option-cases (extract_pools storage_key diffs all_pools)) [
        | inl e ↦ rw (e, handle_found) h
        | inr (pools, e) ↦
            rw (e, handle_found)
              (handle_forked-PendingEarn given (record victim_tx { from = from }) diffs pools s
                (cached given diffs) h)
      ]

  handle_victim-PendingEarn :
      (given : Given m cache W) (victim_tx : Transaction) (s : Bot W)
      → PendingEarn s.pending
      → Kept
          (λ t. PendingEarn t.pending)
          (handle_victim storage_key all_pools maker given victim_tx s)
  unfolding handle_victim
  handle_victim-PendingEarn given victim_tx s h =
      elim (Bool-cases
        (ltb (unwrap_or_default victim_tx.max_fee_per_gas) given.next_block.base_fee)) [
          | inl e ↦ rw e h
          | inr e ↦ rw e (
              handle_found-PendingEarn given victim_tx given.recovered
                (get_from_txs given.block_traces) s h)
        ]

  handle_stream-Kept :
      (stream : List (Given m cache W × Transaction)) (s : Bot W)
      → PendingEarn s.pending
      → Kept (λ t. PendingEarn t.pending) (handle_stream storage_key all_pools maker stream s)
  unfolding handle_stream
  handle_stream-Kept [] s h = h
  handle_stream-Kept ((given, victim_tx) ∷ stream) s h =
      let first = handle_victim-PendingEarn given victim_tx s h in
      elim (Checked-cases (handle_victim storage_key all_pools maker given victim_tx s)) [
        | inl e ↦ rw (e, handle_stream) tt
        | inr (t, e) ↦
            rw (e, handle_stream)
              (handle_stream-Kept stream t (subst (Kept (λ u. PendingEarn u.pending)) e first))
      ]

  -- Every account of the diffs is answered for, and the balance can be read on every fork.
  abbrev pub Answered : Given m cache W → Type 0
  Answered given =
      ((diffs : List (ℕ × AccountDiff)) → (db : cache.Db) × (cached given diffs ≡ val (ok db)))
      × ((db : cache.Db)
          → (read : ℕ × Evm m) × (get_sandwich_weth_balance_evm given.next_block (given.fork db)
              ≡ returns read))

  abbrev pub AllAnswered : List (Given m cache W × Transaction) → Type 0
  AllAnswered [] = Unit
  AllAnswered ((given, _) ∷ stream) = Answered given × AllAnswered stream

  handle_found-val :
      (given : Given m cache W) (victim_tx : Transaction) (recovered : Option ℕ)
      (diffs : Option (List (ℕ × AccountDiff))) (s : Bot W)
      → Answered given
      → (t : Bot W) × (handle_found storage_key all_pools maker given victim_tx recovered diffs s
          ≡ val t)
  unfolding handle_found handle_forked handle_balance
  handle_found-val given victim_tx none diffs s h = (s, refl)
  handle_found-val given victim_tx (some from) none s h = (s, refl)
  handle_found-val given victim_tx (some from) (some diffs) s (forks, reads) =
      elim (Option-cases (extract_pools storage_key diffs all_pools)) [
        | inl e ↦ (s, rw (e, handle_found) refl)
        | inr (pools, e) ↦
            let (db, made) = forks diffs in
            let ((balance, after), read) = reads db in
            (
              handle_pools storage_key all_pools maker given (record victim_tx { from = from })
                  diffs (given.attached db) balance pools (record s { weth_balance = balance }),
              rw (e, handle_found, made, handle_forked, read) refl,
            )
      ]

  handle_victim-val :
      (given : Given m cache W) (victim_tx : Transaction) (s : Bot W)
      → Answered given
      → (t : Bot W) × (handle_victim storage_key all_pools maker given victim_tx s ≡ val t)
  unfolding handle_victim
  handle_victim-val given victim_tx s h =
      elim (Bool-cases
        (ltb (unwrap_or_default victim_tx.max_fee_per_gas) given.next_block.base_fee)) [
          | inl e ↦ (s, rw e refl)
          | inr e ↦
              let (t, q) =
                handle_found-val given victim_tx given.recovered (get_from_txs given.block_traces) s
                  h in
              (t, rw e q)
        ]

  handle_stream-val :
      (stream : List (Given m cache W × Transaction)) (s : Bot W)
      → AllAnswered stream
      → (t : Bot W) × (handle_stream storage_key all_pools maker stream s ≡ val t)
  unfolding handle_stream
  handle_stream-val [] s h = (s, refl)
  handle_stream-val ((given, victim_tx) ∷ stream) s (h, hs) =
      let (next, e) = handle_victim-val given victim_tx s h in
      let (t, q) = handle_stream-val stream next hs in (t, rw (e, handle_stream) q)

  -- Where the provider answers for every account of the diffs and the balance can be read, the
  -- transactions of a stream are all handled, and if every recipe that waited before has some revenue
  -- and at least one victim's transaction, every recipe that waits then has.
  pub handle_stream-PendingEarn :
      (stream : List (Given m cache W × Transaction)) (s : Bot W)
      → AllAnswered stream
      → PendingEarn s.pending
      → (t : Bot W) × (handle_stream storage_key all_pools maker stream s ≡ val t)
        × PendingEarn t.pending
  handle_stream-PendingEarn stream s answered h =
      let (t, e) = handle_stream-val stream s answered in
      (t, e, subst (Kept (λ u. PendingEarn u.pending)) e (handle_stream-Kept stream s h))
