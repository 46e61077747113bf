-- ===== src/Search/Examples.antt =====
-- The theorems on the search at concrete balances.
use sando_rs.Base.{ℕ, ◌/◌, ◌≤◌, ◌≡◌, List, [], ◌∷◌, length, some, val, arith}
use sando_rs.Search.{juiced_quadratic_search, find_optimals}
use sando_rs.Search.Loop.{juiced_quadratic_search_lem}
use sando_rs.Search.Optimal.{sum, AllPositive, find_optimals-within}

abbrev ether : ℕ
ether = 1000000000000000000

-- A revenue that grows with the input.
abbrev tenth : ℕ → ℕ
tenth x = x / 10

juiced_quadratic_search_example :
    (r : ℕ) × (juiced_quadratic_search (λ x. val (tenth x)) 1000000000000000013 0 ether
      ≡ val (some r))
    × (r ≤ ether)
juiced_quadratic_search_example =
    juiced_quadratic_search_lem tenth ether 1000000000000000013 (omega arith) (omega arith)

find_optimals-within_example :
    (optimals good : List ℕ) × (find_optimals
        (λ scale x. val (x / scale))
        1000000000000000013
        ether
        (10 ∷ 20 ∷ [])
      ≡ val (some (optimals, good)))
    × (sum optimals ≤ ether)
    × AllPositive optimals
    × (length optimals ≡ length good)
find_optimals-within_example =
    find_optimals-within (λ scale x. x / scale) 1000000000000000013 ether (10 ∷ 20 ∷ [])
      (omega arith) (omega arith)
