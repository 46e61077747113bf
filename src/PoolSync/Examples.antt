-- ===== src/PoolSync/Examples.antt =====
-- The bot's pools on a chain with one event.
use mathlib.Core.List as List
use mathlib.Core.List.{Memᴰ}
use mathlib.Core.List.Memᴰ
use sando_rs.Base.{
  ℕ, ◌≡◌, ◌≤◌, ◌<◌, ◌⊎◌, refl, Option, some, none, List, [], ◌∷◌, val, leb, le→leb, lt→leb, ◌==◌,
  ◌&&◌, arith, if◌then◌else◌,
}
use sando_rs.Constants.{weth_address}
use sando_rs.Pool.{Pool, new_pool, uniswap_v2}
use sando_rs.StateDiff.{lookup}
use sando_rs.Exchange.{Dex, new_pool_from_event}
use sando_rs.PoolSync.{PoolSync, AllPoolsInfo, dexes, initial_pools, pool_map, connect, sync_blocks}
use sando_rs.PoolSync.Map.{Present}
use sando_rs.PoolSync.Known.{get_logs, sync_blocks-Present}
use sando_rs.PoolSync.Missed.{sync_blocks-missed}

-- The one event of the chain, of the first exchange's factory in block 17000500: its number stands
-- for it.
abbrev logs : (topic0 address from_block to_block : ℕ) → List ℕ
logs topic0 address from_block to_block =
    if leb from_block 17000500
      && leb 17000500 to_block
      && (topic0 == 0x0d3648bd0f6ba80134a33ba9275ac585d9d315f0ad8355cddefde31afa28d0e9)
      && (address == 0x5C69bEe701ef814a2B6a3EDD4B1652CB9cc5aA6f)
    then 7 ∷ []
    else []

abbrev decode : ℕ → Option (ℕ × ℕ × ℕ)
decode _ = some (5, weth_address, 6)

abbrev no_v3 : ℕ → Option (ℕ × ℕ × ℕ × ℕ)
no_v3 _ = none

abbrev first_dex : Dex
first_dex = record {
  factory_address = 0x5C69bEe701ef814a2B6a3EDD4B1652CB9cc5aA6f;
  pool_variant = uniswap_v2;
  creation_block = 10000835;
}

abbrev pair : Pool
pair = new_pool 6 5 weth_address 3000 uniswap_v2

abbrev numbers : List (Option ℕ)
numbers = some 17000400 ∷ some 17001000 ∷ some 17001100 ∷ []

sync_blocks-Present_example :
    (info : AllPoolsInfo) × (initial_pools decode no_v3
        (get_logs ℕ decode no_v3 logs dexes)
        dexes
        none
        17000000
      ≡ val info)
    × ((t : PoolSync) × (sync_blocks decode no_v3
            (get_logs ℕ decode no_v3 logs dexes)
            dexes
            2
            (connect (pool_map info.pools) 17000300)
            numbers
          ≡ val t)
        × ((17000500 ≤ 17000000) ⊎ ((17000300 ≤ 17000500) × (17000500 < t.current_block_num))
            → Present 6 t.all_pools))
unfolding new_pool_from_event new_pool
sync_blocks-Present_example =
    sync_blocks-Present ℕ decode no_v3 logs dexes first_dex (List.Memᴰ.head refl) 7 pair 17000500
      refl
      (λ f t before after.
        rw (le→leb f 17000500 before, le→leb 17000500 t after) (List.Memᴰ.head refl))
      none 17000000 17000300 2 numbers (omega arith) (omega arith) (omega arith) (omega arith)
      (omega arith)

no_member : {x : ℕ} → Memᴰ {A = ℕ} x [] → ⊥
no_member m = elim m [ ]

-- The task connects after the event.
sync_blocks-missed_example :
    (t : PoolSync) × (sync_blocks decode no_v3
        (get_logs ℕ decode no_v3 logs dexes)
        dexes
        2
        (connect [] 17000600)
        (some 17000700 ∷ some 17000800 ∷ [])
      ≡ val t)
    × (lookup 6 t.all_pools ≡ lookup 6 [])
sync_blocks-missed_example =
    sync_blocks-missed ℕ decode no_v3 logs 6 dexes 17000600 2
      (λ dex listed f t late log pool m made.
        absurd (no_member (rw (lt→leb {a = f} {b = 17000500} (omega (arith, late))) at m)))
      [] (some 17000700 ∷ some 17000800 ∷ []) (omega arith) (omega arith)
