-- ===== src/StateDiff/Examples.antt =====
-- The theorems on state diffs at concrete ones.
use mathlib.Core.List.{Memᴰ}
use sando_rs.Base.{ℕ, ◌+◌, ◌≡◌, ◌==◌, refl, Option, some, none, List, [], ◌∷◌, true, if◌then◌else◌}
use sando_rs.Constants.{weth_address}
use sando_rs.Pool.{Pool, new_pool, uniswap_v2}
use sando_rs.StateDiff.{
  AccountDiff, lookup, changed, get_from_txs, extract_pools, directions, touched_pools,
}
use sando_rs.StateDiff.Merge.{first_diff, get_from_txs-first_diff}
use sando_rs.StateDiff.Pools.{extract_pools-none}

abbrev pair : ℕ → Pool
pair address = new_pool address 5 weth_address 3000 uniswap_v2

-- Two pools, at 100 and 200; the diff of weth has the slot of the first only.
abbrev known : ℕ → Option Pool
known address =
    if address == 100 then some (pair 100) else (if address == 200 then some (pair 200) else none)

abbrev empty : AccountDiff
empty = record { storage = [] }

abbrev weth : AccountDiff
weth = record { storage = (103, changed 7 9) ∷ [] }

abbrev diffs : List (ℕ × AccountDiff)
diffs = (100, empty) ∷ (200, empty) ∷ (weth_address, weth) ∷ []

one_pool :
    extract_pools (λ address. address + 3) ((100, empty) ∷ (weth_address, weth) ∷ []) known
    ≡ some (record { pool = pair 100; is_weth_input = true } ∷ [])
unfolding extract_pools lookup directions touched_pools new_pool
one_pool = refl

get_from_txs_example :
    (merged : List (ℕ × AccountDiff)) × (get_from_txs
        (some (none ∷ some ((100, weth) ∷ []) ∷ some ((100, empty) ∷ []) ∷ []))
      ≡ some merged)
    × (lookup 100 merged ≡ some weth)
unfolding first_diff lookup
get_from_txs_example =
    get_from_txs-first_diff 100 (none ∷ some ((100, weth) ∷ []) ∷ some ((100, empty) ∷ []) ∷ [])

extract_pools-none_example : extract_pools (λ address. address + 3) diffs known ≡ none
unfolding lookup new_pool
extract_pools-none_example =
    extract_pools-none (λ address. address + 3) diffs known weth empty 200 (pair 200) refl
      (Memᴰ.tail (Memᴰ.head refl)) refl refl
