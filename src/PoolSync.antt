-- ===== src/PoolSync.antt =====
-- How the bot comes to its pools: the start of bot/src/main.rs, `Bot::new` of bot/src/runner/mod.rs
-- and `start_add_new_pools` of bot/src/runner/oracles.rs. A map is the list of its entries. A panic
-- of the task ends it.
pub mod Map
pub mod Known
pub mod Missed
mod Examples
use sando_rs.Base.{
  ℕ, Bool, Option, none, some, List, [], ◌∷◌, ◌++◌, Checked, val, panic, ◌>>=◌, Result, ok, err,
  unwrap, ◌==◌, if◌then◌else◌,
}
use sando_rs.Block.{add_u64}
use sando_rs.Pool.{Pool, uniswap_v2, uniswap_v3}
use sando_rs.Exchange.{Dex, PairSyncError, sync_dex}

-- The exchanges of `main`.
abbrev pub dexes : List Dex
dexes =
    record {
      factory_address = 0x5C69bEe701ef814a2B6a3EDD4B1652CB9cc5aA6f;
      pool_variant = uniswap_v2;
      creation_block = 10000835;
    }
    ∷ record {
      factory_address = 0xC0AEe478e3658e2610c5F7A4A2E1777cE9e4f2Ac;
      pool_variant = uniswap_v2;
      creation_block = 10794229;
    }
    ∷ record {
      factory_address = 0x9DEB29c9a4c7A88a3C0257393b7f3335338D9A9D;
      pool_variant = uniswap_v2;
      creation_block = 10828414;
    }
    ∷ record {
      factory_address = 0x4eef5746ED22A2fD368629C1852365bf5dcb79f1;
      pool_variant = uniswap_v2;
      creation_block = 12385067;
    }
    ∷ record {
      factory_address = 0x1097053Fd2ea711dad45caCcc45EfF7548fCB362;
      pool_variant = uniswap_v2;
      creation_block = 15614590;
    }
    ∷ record {
      factory_address = 0x115934131916C8b277DD010Ee02de363c09d037c;
      pool_variant = uniswap_v2;
      creation_block = 12771526;
    }
    ∷ record {
      factory_address = 0x35113a300ca0D7621374890ABFEAC30E88f214b1;
      pool_variant = uniswap_v2;
      creation_block = 15210780;
    }
    ∷ record {
      factory_address = 0x1F98431c8aD98523631AE4a59f267346ea31F984;
      pool_variant = uniswap_v3;
      creation_block = 12369621;
    }
    ∷ record {
      factory_address = 0x41ff9AA7e16B8B1a8a8dc4f0eFacd93D02d071c9;
      pool_variant = uniswap_v3;
      creation_block = 16950672;
    }
    ∷ record {
      factory_address = 0xbaceb8ec6b9355dfc0269c18bac9d6e2bdc29c4f;
      pool_variant = uniswap_v3;
      creation_block = 16955547;
    }
    ∷ []

-- What is read from and written to the file of pools.
pub record AllPoolsInfo : Type 0 where
  pub last_block_number : ℕ
  pub pools : List Pool

-- `DashMap::insert`
unfoldable pub insert_pool : Pool → List (ℕ × Pool) → List (ℕ × Pool)
insert_pool pool [] = (pool.address, pool) ∷ []
insert_pool pool ((other, old) ∷ entries) =
    let rest = insert_pool pool entries in
    if pool.address == other then (other, pool) ∷ entries else (other, old) ∷ rest

-- The loop of `Bot::new`, and that over the pools that have been found.
unfoldable pub insert_pools : List Pool → List (ℕ × Pool) → List (ℕ × Pool)
unfolding insert_pool
insert_pools [] map = map
insert_pools (pool ∷ pools) map = insert_pools pools (insert_pool pool map)

-- The task's counter, the block up to which it has asked for pools, and the map it shares.
pub record PoolSync : Type 0 where
  pub counter : ℕ
  pub current_block_num : ℕ
  pub all_pools : List (ℕ × Pool)

-- What the file holds, if it is there.
abbrev pub start_block_of : Option AllPoolsInfo → Option ℕ
start_block_of none = none
start_block_of (some info) = some info.last_block_number

abbrev pub pools_from_file : Option AllPoolsInfo → List Pool
pools_from_file none = []
pools_from_file (some info) = info.pools

-- The map of `Bot::new`.
unfoldable pub pool_map : List Pool → List (ℕ × Pool)
unfolding insert_pools
pool_map pools = insert_pools pools []

-- A connection of the task, on the shared map: the counter is zero, and the block is what the client
-- then names.
unfoldable pub connect : List (ℕ × Pool) → (block_number : ℕ) → PoolSync
connect all_pools block_number = record {
  counter = 0;
  current_block_num = block_number;
  all_pools = all_pools;
}

module _ {Log E : Type 0} (decode_v2 : Log → Option (ℕ × ℕ × ℕ))
    (decode_v3 : Log → Option (ℕ × ℕ × ℕ × ℕ))
    (get_logs : (topic0 address from_block to_block : ℕ) → Result (List Log) E)
    (exchanges : List Dex) where
  -- The pools that `main` starts with, and writes to the file.
  unfoldable pub initial_pools : Option AllPoolsInfo → (current_block : ℕ) → Checked AllPoolsInfo
  initial_pools file current_block =
      elim (sync_dex decode_v2 decode_v3 get_logs exchanges current_block (start_block_of file)) [
        | err _ ↦ panic
        | ok pools ↦
            val
              (record { last_block_number = current_block; pools = pools_from_file file ++ pools })
      ]

  -- The pools since the block that was asked for last; the number of the block is unwrapped.
  unfoldable pub add_new_pools : PoolSync → Option ℕ → Checked PoolSync
  unfolding insert_pools
  add_new_pools s none = panic
  add_new_pools s (some latest_block_number) =
      elim (sync_dex decode_v2 decode_v3 get_logs exchanges latest_block_number
        (some s.current_block_num)) [
          | err _ ↦ panic
          | ok pools ↦ val (record {
            counter = 0;
            current_block_num = latest_block_number;
            all_pools = insert_pools pools s.all_pools;
          })
        ]

  module _ (interval_block_new_pool : ℕ) where
    -- A block of the stream, by its number.
    unfoldable pub sync_block : PoolSync → Option ℕ → Checked PoolSync
    unfolding add_new_pools
    sync_block s number = add_u64 s.counter 1 >>= λ counter.
        if counter == interval_block_new_pool
        then add_new_pools s number
        else val (record s { counter = counter })

    unfoldable pub sync_blocks : PoolSync → List (Option ℕ) → Checked PoolSync
    unfolding sync_block
    sync_blocks s [] = val s
    sync_blocks s (number ∷ numbers) = elim (sync_block s number) [
      | panic ↦ panic
      | val t ↦ sync_blocks t numbers
    ]
