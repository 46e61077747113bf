-- ===== src/StateDiff.antt =====
-- bot/src/utils/state_diff.rs: the diffs of the victims' transactions and the pools they touch.
-- A map is the list of its entries, the first entry of a key counting. `storage_key` is the slot of
-- an address in the balances of weth: the hash of the ABI encoding of the address and 3.
pub mod Merge
pub mod Pools
pub mod Cache
mod Examples
use sando_rs.Base.{
  ℕ, Bool, true, false, Option, none, some, List, [], ◌∷◌, ◌++◌, ltb, ◌==◌, if◌then◌else◌,
}
use sando_rs.Constants.{weth_address}
use sando_rs.Pool.{Pool}

-- `ethers::types::Diff` of a word: `same`, `born`, `died` or `changed` from one value to another.
pub data Diff : Type 0 where
  same : Diff
  born : ℕ → Diff
  died : ℕ → Diff
  changed : (from to : ℕ) → Diff

-- What the program reads of an account's diff.
pub record AccountDiff : Type 0 where
  pub storage : List (ℕ × Diff)

unfoldable pub lookup {ℓ} : {A : Type ℓ} → ℕ → List (ℕ × A) → Option A
lookup key [] = none
lookup key ((other, value) ∷ entries) = if key == other then some value else lookup key entries

-- A vacant entry is filled; an occupied one stays.
unfoldable pub insert_vacant {ℓ} : {A : Type ℓ} → ℕ → A → List (ℕ × A) → List (ℕ × A)
insert_vacant key value [] = (key, value) ∷ []
insert_vacant key value ((other, old) ∷ entries) =
    let rest = insert_vacant key value entries in
    if key == other then (other, old) ∷ entries else (other, old) ∷ rest

-- `for_each` over the entries of the traces.
unfoldable pub merge_into {ℓ} : {A : Type ℓ} → List (ℕ × A) → List (ℕ × A) → List (ℕ × A)
unfolding insert_vacant
merge_into merged [] = merged
merge_into merged ((address, diff) ∷ entries) =
    merge_into (insert_vacant address diff merged) entries

-- The entries of the traces that have a state diff, one trace after another.
unfoldable pub entries_of : List (Option (List (ℕ × AccountDiff))) → List (ℕ × AccountDiff)
entries_of [] = []
entries_of (none ∷ traces) = entries_of traces
entries_of (some diffs ∷ traces) = diffs ++ entries_of traces

-- `trace_call_many` has answered with the state diffs of the traces, or with nothing on an error.
unfoldable pub get_from_txs :
    Option (List (Option (List (ℕ × AccountDiff)))) → Option (List (ℕ × AccountDiff))
unfolding merge_into entries_of
get_from_txs none = none
get_from_txs (some block_traces) = some (merge_into [] (entries_of block_traces))

pub record SandwichablePool : Type 0 where
  pub pool : Pool
  pub is_weth_input : Bool

-- The addresses that are pools, in the order of the diffs.
unfoldable pub touched_pools : (all_pools : ℕ → Option Pool) → List (ℕ × AccountDiff) → List Pool
touched_pools all_pools [] = []
touched_pools all_pools ((address, _) ∷ diffs) =
    let rest = touched_pools all_pools diffs in
    elim (all_pools address) [ none ↦ rest | some pool ↦ pool ∷ rest ]

-- A pool whose weth balance changed, before those found behind it.
abbrev pub add_pool : Pool → Diff → Option (List SandwichablePool) → Option (List SandwichablePool)
add_pool pool diff none = none
add_pool pool same (some rest) = some rest
add_pool pool (born _) (some rest) = some rest
add_pool pool (died _) (some rest) = some rest
add_pool pool (changed from to) (some rest) =
    some (record { pool = pool; is_weth_input = ltb from to } ∷ rest)

module _ (storage_key : ℕ → ℕ) where
  -- The loop over the touched pools; a pool without a slot in the diff of weth ends it with nothing.
  unfoldable pub directions : List (ℕ × Diff) → List Pool → Option (List SandwichablePool)
  unfolding lookup
  directions weth_state_diff [] = some []
  directions weth_state_diff (pool ∷ pools) =
      let rest = directions weth_state_diff pools in
      elim (lookup (storage_key pool.address) weth_state_diff) [
        | none ↦ none
        | some diff ↦ add_pool pool diff rest
      ]

  unfoldable pub extract_pools :
      List (ℕ × AccountDiff) → (all_pools : ℕ → Option Pool) → Option (List SandwichablePool)
  unfolding lookup directions touched_pools
  extract_pools state_diffs all_pools = elim (lookup weth_address state_diffs) [
    | none ↦ none
    | some weth ↦ directions weth.storage (touched_pools all_pools state_diffs)
  ]
