-- ===== src/Exchange.antt =====
-- bot/src/cfmm/dex.rs: the pools that the exchanges' factories have created.
-- Decoding an event is the ABI library's, and a parameter: `decode_v2` and `decode_v3` give what the
-- event holds, or nothing where it cannot be decoded. `get_logs` is the provider's answer for the
-- events with a signature that a contract has emitted in a range of blocks.
pub mod Found
pub mod Synced
use sando_rs.Base.{
  ℕ, zero, suc, ◌+◌, ◌-◌, ◌/◌, ◌||◌, Bool, true, false, Option, none, some, List, [], ◌∷◌, ◌++◌,
  Checked, val, panic, ◌>>=◌, Result, ok, err, checked_minus, ltb, ◌==◌, if◌then◌else◌,
}
use sando_rs.Block.{add_u64}
use sando_rs.Constants.{weth_address}
use sando_rs.Pool.{
  PoolVariant, uniswap_v2, uniswap_v3, pool_created_event_signature, Pool, new_pool,
}

pub record Dex : Type 0 where
  pub factory_address : ℕ
  pub pool_variant : PoolVariant
  pub creation_block : ℕ

-- The request for the events of the exchange's factory.
abbrev pub asked :
    {A : Type 0}
    → ((topic0 address from_block to_block : ℕ) → A)
    → Dex
    → (from_block to_block : ℕ) → A
asked get_logs dex = get_logs (pool_created_event_signature dex.pool_variant) dex.factory_address

-- One of the two tokens is weth.
abbrev pub has_weth : (token_0 token_1 : ℕ) → Bool
has_weth token_0 token_1 = (token_0 == weth_address) || (token_1 == weth_address)

-- `BlockNumber::as_number().unwrap()` of an optional start block, the exchange's own otherwise.
abbrev pub first_block : Dex → Option ℕ → ℕ
first_block dex none = dex.creation_block
first_block dex (some block) = block

abbrev pub step : ℕ
step = 100000

-- How many numbers `(first..=last).step_by(step)` has, and those from `from` on.
abbrev pub count : (first last : ℕ) → ℕ
count first last = if ltb last first then 0 else suc ((last - first) / step)

unfoldable pub from_blocks : (from left : ℕ) → List ℕ
from_blocks from zero = []
from_blocks from (suc left) = from ∷ from_blocks (from + step) left

pub data PairSyncError (E : Type 0) : Type 0 where
  provider_error : E → PairSyncError E
  join_error : PairSyncError E

-- What a task has come to: a panic in it is an error of the join.
unfoldable pub joined : {A E : Type 0} → Checked (Result A E) → Result A (PairSyncError E)
joined panic = err join_error
joined (val (err e)) = err (provider_error e)
joined (val (ok a)) = ok a

-- A panic in the task of an exchange is an error of the join too.
unfoldable pub flat :
    {A E : Type 0} → Checked (Result A (PairSyncError E)) → Result A (PairSyncError E)
flat panic = err join_error
flat (val found) = found

abbrev pub extend : {A E : Type 0} → Result (List A) E → Result (List A) E → Result (List A) E
extend (err e) rest = err e
extend (ok xs) (err e) = err e
extend (ok xs) (ok ys) = ok (xs ++ ys)

module _ {Log : Type 0} (decode_v2 : Log → Option (ℕ × ℕ × ℕ))
    (decode_v3 : Log → Option (ℕ × ℕ × ℕ × ℕ)) where
  -- `decode_v2` gives the tokens and the address, `decode_v3` the tokens, the fee and the address.
  unfoldable pub new_pool_from_event : Dex → Log → Option Pool
  unfolding new_pool
  new_pool_from_event dex log = elim dex.pool_variant [
    | uniswap_v2 ↦ elim (decode_v2 log) [
      | none ↦ none
      | some (token_0, token_1, address) ↦
          if has_weth token_0 token_1
          then some (new_pool address token_0 token_1 3000 uniswap_v2)
          else none
    ]
    | uniswap_v3 ↦ elim (decode_v3 log) [
      | none ↦ none
      | some (token_0, token_1, fee, address) ↦
          if has_weth token_0 token_1
          then some (new_pool address token_0 token_1 fee uniswap_v3)
          else none
    ]
  ]

  -- The pools of a list of events.
  unfoldable pub pools_of : Dex → List Log → List Pool
  pools_of dex [] = []
  pools_of dex (log ∷ logs) =
      let rest = pools_of dex logs in
      elim (new_pool_from_event dex log) [ some pool ↦ pool ∷ rest | none ↦ rest ]

module _ {Log E : Type 0} (decode_v2 : Log → Option (ℕ × ℕ × ℕ))
    (decode_v3 : Log → Option (ℕ × ℕ × ℕ × ℕ))
    (get_logs : (topic0 address from_block to_block : ℕ) → Result (List Log) E) where
  -- The task for the range that starts at `from_block`.
  unfoldable pub range_pools : Dex → ℕ → Checked (Result (List Pool) E)
  unfolding pools_of
  range_pools dex from_block = do
    to_block ← add_u64 from_block step
    val (elim (asked get_logs dex from_block to_block) [
      | err e ↦ err e
      | ok logs ↦ ok (pools_of decode_v2 decode_v3 dex logs)
    ])

  unfoldable pub aggregate : Dex → List ℕ → Result (List Pool) (PairSyncError E)
  unfolding joined range_pools
  aggregate dex [] = ok []
  aggregate dex (from_block ∷ blocks) =
      extend (joined (range_pools dex from_block)) (aggregate dex blocks)

  -- The length of the progress bar panics where the exchange is newer than the current block.
  pub get_all_pools :
      Dex → (current_block : ℕ) → Option ℕ → Checked (Result (List Pool) (PairSyncError E))
  unfolding from_blocks aggregate
  get_all_pools dex current_block start_block = do
    let creation_block = first_block dex start_block
    length ← checked_minus current_block creation_block
    val (aggregate dex (from_blocks creation_block (count creation_block current_block)))

  -- The pools of several exchanges, each found by a task of its own.
  pub sync_dex : List Dex → (current_block : ℕ) → Option ℕ → Result (List Pool) (PairSyncError E)
  unfolding get_all_pools flat
  sync_dex [] current_block start_block = ok []
  sync_dex (dex ∷ dexes) current_block start_block =
      extend (flat (get_all_pools dex current_block start_block))
        (sync_dex dexes current_block start_block)
