-- ===== src/Search.antt =====
-- `juiced_quadratic_search` and `create_optimal_sandwich` of bot/src/simulate/make_sandwich.rs.
-- `revenue` is what the simulation of an input in the fork that the search is given reports, or its
-- panic: the simulations of one search run on copies of the same fork, so it is a function.
pub mod Intervals
pub mod Rounds
pub mod Loop
pub mod Nothing
pub mod Optimal
mod Examples
use sando_rs.Base.{
  ℕ, zero, suc, ◌+◌, ◌-◌, ◌*◌, ◌/◌, ◌||◌, Bool, true, false, Option, none, some, List, [], ◌∷◌, map,
  Checked, val, ◌>>=◌, Result, ok, err, unwrap, add_u256, mul_u256, checked_minus, checked_sub,
  get_elem?, length, ltb, leb, ◌==◌, if◌then◌else◌,
}

-- `number_of_intervals`
abbrev pub number_of_intervals : ℕ
number_of_intervals = 15

-- `.unwrap_or_default()` on a difference
abbrev pub or_zero : Option ℕ → ℕ
or_zero none = 0
or_zero (some n) = n

pub tolerance_of : (lower_bound upper_bound : ℕ) → Checked ℕ
tolerance_of lower_bound upper_bound = do
  sum ← add_u256 upper_bound lower_bound
  tolerance ← mul_u256 1 (sum / 2)
  val (tolerance / 1000000)

pub should_loop_terminate : (tolerance lower_bound upper_bound : ℕ) → Bool
should_loop_terminate tolerance lower_bound upper_bound =
    elim (checked_sub upper_bound lower_bound) [
      | none ↦ true
      | some search_range ↦ ltb upper_bound lower_bound || ltb search_range tolerance
    ]

-- The bound with index `i`.
unfoldable pub interval : (lower_bound upper_bound i : ℕ) → Checked ℕ
interval lower_bound upper_bound i = do
  search_range ← checked_minus upper_bound lower_bound
  product ← mul_u256 search_range i
  add_u256 lower_bound (product / number_of_intervals)

-- `left` intervals from index `i` on.
unfoldable pub intervals_from : (lower_bound upper_bound i left : ℕ) → Checked (List ℕ)
unfolding interval
intervals_from lower_bound upper_bound i zero = val []
intervals_from lower_bound upper_bound i (suc left) = do
  bound ← interval lower_bound upper_bound i
  rest ← intervals_from lower_bound upper_bound (i + 1) left
  val (bound ∷ rest)

-- `iter().enumerate().max_by(..)`: of several highest elements the last, with its index.
pub highest_from : (best_index best i : ℕ) → List ℕ → ℕ × ℕ
highest_from best_index best i [] = (best_index, best)
highest_from best_index best i (r ∷ rs) =
    if leb best r then highest_from i r (i + 1) rs else highest_from best_index best (i + 1) rs

unfoldable pub highest : List ℕ → Option (ℕ × ℕ)
unfolding highest_from
highest [] = none
highest (r ∷ rs) = some (highest_from 0 r 1 rs)

-- How a round of the loop ends.
pub data Round : Type 0 where
  returns : ℕ → Round
  continues : (lower_bound upper_bound highest_sando_input : ℕ) → Round

-- The bounds after a round, from the index with the highest revenue.
pub next_bounds :
    (counter lower_bound upper_bound : ℕ) (intervals : List ℕ) (index revenue : ℕ) → Checked Round
next_bounds counter lower_bound upper_bound intervals index revenue =
    unwrap (get_elem? intervals index) >>= λ highest_sando_input.
    if revenue == 0
    then (if counter == 10 then val (returns 0) else (do
      third ← unwrap (get_elem? intervals (length intervals / 3))
      val (continues lower_bound (or_zero (checked_sub third 1)) highest_sando_input)))
    else (if index == length intervals - 1
        then (do
          left ← unwrap (get_elem? intervals (index - 1))
          lower ← add_u256 left 1
          val (continues lower upper_bound highest_sando_input))
        else (if index == 0
            then (do
              right ← unwrap (get_elem? intervals (index + 1))
              upper ← checked_minus right 1
              val (continues lower_bound upper highest_sando_input))
            else (do
              left ← unwrap (get_elem? intervals (index - 1))
              lower ← add_u256 left 1
              right ← unwrap (get_elem? intervals (index + 1))
              upper ← checked_minus right 1
              val (continues lower upper highest_sando_input))))

-- The end of the loop, or its next round.
abbrev pub after_round : (ℕ → ℕ → ℕ → Checked (Option ℕ)) → Round → Checked (Option ℕ)
after_round rest (returns input) = val (some input)
after_round rest (continues lower upper input) = rest lower upper input

-- The simulations of all bounds, whose results are unwrapped.
unfoldable pub revenues_of : (ℕ → Checked ℕ) → List ℕ → Checked (List ℕ)
revenues_of revenue [] = val []
revenues_of revenue (bound ∷ bounds) = do
  first ← revenue bound
  rest ← revenues_of revenue bounds
  val (first ∷ rest)

module _ (revenue : ℕ → Checked ℕ) where
  pub search_round : (counter lower_bound upper_bound : ℕ) → Checked Round
  unfolding intervals_from revenues_of highest next_bounds
  search_round counter lower_bound upper_bound = do
    intervals ← intervals_from lower_bound upper_bound 0 (number_of_intervals + 1)
    revenues ← revenues_of revenue intervals
    (index, highest_revenue) ← unwrap (highest revenues)
    next_bounds counter lower_bound upper_bound intervals index highest_revenue

  -- The loop, with `fuel` rounds at most; `none` is a loop that is not done by then.
  pub search_loop :
      (tolerance fuel counter lower_bound upper_bound highest_sando_input : ℕ) → Checked (Option ℕ)
  unfolding should_loop_terminate search_round
  search_loop tolerance zero counter lower_bound upper_bound highest_sando_input = val none
  search_loop tolerance (suc fuel) counter lower_bound upper_bound highest_sando_input =
      let rest = search_loop tolerance fuel in
      if should_loop_terminate tolerance lower_bound upper_bound
      then val (some highest_sando_input)
      else (search_round (counter + 1) lower_bound upper_bound >>= after_round (rest (counter + 1)))

  pub juiced_quadratic_search : (fuel lower_bound upper_bound : ℕ) → Checked (Option ℕ)
  unfolding tolerance_of search_loop
  juiced_quadratic_search fuel lower_bound upper_bound = do
    tolerance ← tolerance_of lower_bound upper_bound
    search_loop tolerance fuel 0 lower_bound upper_bound 0

-- The errors of bot/src/types/errors.rs that the search gives.
pub data SimulationError : Type 0 where
  zero_optimal : SimulationError

-- What is kept of an ingredient with its optimal input: nothing where that is zero.
abbrev pub keep_optimal : {A : Type 0} → A → ℕ → List ℕ × List A → List ℕ × List A
keep_optimal ingredients optimal (optimals, good) =
    if optimal == 0 then (optimals, good) else (optimal ∷ optimals, ingredients ∷ good)

abbrev pub keep_all : {A : Type 0} → A → ℕ → Option (List ℕ × List A) → Option (List ℕ × List A)
keep_all ingredients optimal none = none
keep_all ingredients optimal (some kept) = some (keep_optimal ingredients optimal kept)

-- The loop of `create_optimal_sandwich` over the ingredients, each with what its simulations
-- report: the optimal inputs and the ingredients that they are for. `none` is a search that is not
-- done within its fuel.
module _ {A : Type 0} (revenue : A → ℕ → Checked ℕ) (fuel : ℕ) where
  pub find_optimals : (upper_bound : ℕ) → List A → Checked (Option (List ℕ × List A))
  find_optimals upper_bound [] = val (some ([], []))
  find_optimals upper_bound (ingredients ∷ rest) =
      juiced_quadratic_search (revenue ingredients) fuel 0 upper_bound >>= λ found. elim found [
        | none ↦ val none
        | some optimal ↦
            (find_optimals
                (if optimal == 0 then upper_bound else or_zero (checked_sub upper_bound optimal))
                rest
              >>= λ kept. val (keep_all ingredients optimal kept))
      ]

  -- The inputs of a sandwich on several pools, or an error where no pool has one.
  pub choose_optimals :
      (sandwich_balance : ℕ) → List A → Checked (Option (Result (List ℕ × List A) SimulationError))
  unfolding find_optimals
  choose_optimals sandwich_balance multi_ingredients =
      find_optimals sandwich_balance multi_ingredients >>= λ found. elim found [
        | none ↦ val none
        | some (optimals, []) ↦ val (some (err zero_optimal))
        | some (optimals, good ∷ goods) ↦ val (some (ok (optimals, good ∷ goods)))
      ]
