-- ===== src/Search/Loop.antt =====
-- The search ends, without a panic, within its bounds.
use sando_rs.Base.{
  ℕ, zero, suc, ◌+◌, ◌-◌, ◌*◌, ◌/◌, ◌≤◌, ◌<◌, ◌≡◌, ◌⊎◌, inl, inr, refl, some, Option, Checked, val,
  fit-val, u256_bound, Bool-cases, false, arith,
}
use sando_rs.Search.{
  Round, search_loop, after_round, should_loop_terminate, tolerance_of, juiced_quadratic_search,
}
use sando_rs.Search.Rounds.{reports, RoundEnd, gives_up, cuts, narrows, search_round-RoundEnd}

-- The loop goes on only with bounds in order.
pub should_loop_terminate-ordered :
    (tolerance lower upper : ℕ)
    → should_loop_terminate tolerance lower upper ≡ false
    → lower ≤ upper
unfolding should_loop_terminate
should_loop_terminate-ordered tolerance lower upper e = ground arith

-- Before a round, after the counter's first ten, either the lower bound has moved or it earns.
Live : (revenue : ℕ → ℕ) (counter lower : ℕ) → Type 0
Live revenue counter lower = (counter ≤ 9) ⊎ (0 < lower) ⊎ (0 < revenue lower)

-- The rounds that can still come.
abbrev rounds_left : (counter lower upper : ℕ) → ℕ
rounds_left counter lower upper = (suc upper - lower) + (10 - counter)

module _ (revenue : ℕ → ℕ) (tolerance top : ℕ) (room : top * 15 < u256_bound) where
  -- The loop returns within `fuel` rounds from such bounds.
  Returns : (ℕ → ℕ → ℕ → Checked (Option ℕ)) → (counter fuel : ℕ) → Type 0
  Returns rest counter fuel =
      (l u h : ℕ)
      → h ≤ top
      → u ≤ top
      → Live revenue counter l
      → rounds_left counter l u < fuel
      → (r : ℕ) × (rest l u h ≡ val (some r)) × (r ≤ top)

  after_round-Returns :
      (rest : ℕ → ℕ → ℕ → Checked (Option ℕ)) (fuel counter lower upper : ℕ) (round : Round)
      → lower ≤ upper
      → upper ≤ top
      → Live revenue counter lower
      → rounds_left counter lower upper < suc fuel
      → Returns rest (counter + 1) fuel
      → RoundEnd revenue (counter + 1) lower upper round
      → (r : ℕ) × (after_round rest round ≡ val (some r)) × (r ≤ top)
  unfolding Returns Live
  after_round-Returns rest fuel counter lower upper _ ordered below live enough ih (gives_up ten) =
      (0, refl, omega arith)
  after_round-Returns rest fuel counter lower upper _ ordered below live enough ih
        (cuts h more none small) =
      ih lower (lower + (upper - lower) * 5 / 15 - 1) h (omega (arith, small, below))
        (omega (arith, below, ordered))
        (elim live [
          | inl early ↦ inl (omega (arith, early, more))
          | inr (inl moved) ↦ inr (inl moved)
          | inr (inr earns) ↦ absurd (omega (arith, earns, none))
        ])
        (elim live [
          | inl early ↦ omega (arith, early, ordered, enough)
          | inr (inl moved) ↦ omega (arith, moved, ordered, enough)
          | inr (inr earns) ↦ absurd (omega (arith, earns, none))
        ])
  after_round-Returns rest fuel counter lower upper _ ordered below live enough ih
        (narrows l u h small earns fits shrinks kept) =
      ih l u h (omega (arith, small, below)) (omega (arith, fits, below))
        (elim kept [
          | inl (same, first) ↦ inr (inr (rw same first))
          | inr moved ↦ inr (inl (omega (arith, moved)))
        ])
        (omega (arith, shrinks, ordered, enough))

  search_loop-returns :
      (fuel counter lower upper input : ℕ)
      → input ≤ top
      → upper ≤ top
      → Live revenue counter lower
      → rounds_left counter lower upper < fuel
      → (r : ℕ) × (search_loop (reports revenue) tolerance fuel counter lower upper input
          ≡ val (some r))
        × (r ≤ top)
  unfolding search_loop Live Returns
  search_loop-returns zero counter lower upper input small below live enough = absurd (omega arith)
  search_loop-returns (suc fuel) counter lower upper input small below live enough =
      elim (Bool-cases (should_loop_terminate tolerance lower upper)) [
        | inl stop ↦ (input, rw stop refl, small)
        | inr go ↦
            let ordered = should_loop_terminate-ordered tolerance lower upper go in
            let (round, e, ends) =
              search_round-RoundEnd revenue (counter + 1) lower upper ordered
                (omega (arith, room, below)) in
            let (r, done, small_r) =
              after_round-Returns (search_loop (reports revenue) tolerance fuel (counter + 1)) fuel
                counter lower upper round ordered below live enough
                (search_loop-returns fuel (counter + 1)) ends in
            (r, rw (go, e) done, small_r)
      ]

-- A search from zero for inputs up to `upper` that leave room for the factor 15 in 256 bits, with
-- fuel for `upper + 13` rounds, returns an input of at most `upper`, whatever the simulations
-- report, where none panics: no subtraction falls below zero, no index is out of range and the loop
-- ends.
pub juiced_quadratic_search_lem :
    (revenue : ℕ → ℕ) (upper fuel : ℕ)
    → upper * 15 < u256_bound
    → upper + 13 ≤ fuel
    → (r : ℕ) × (juiced_quadratic_search (reports revenue) fuel 0 upper ≡ val (some r))
      × (r ≤ upper)
unfolding juiced_quadratic_search tolerance_of
juiced_quadratic_search_lem revenue upper fuel room enough =
    let (r, e, small) =
      search_loop-returns revenue (1 * ((upper + 0) / 2) / 1000000) upper room fuel 0 0 upper 0
        (omega arith) (omega arith) (unfold Live in inl (omega arith)) (omega (arith, enough)) in
    (
      r,
      rw (fit-val u256_bound (upper + 0) (omega (arith, room)))
          (rw (fit-val u256_bound (1 * ((upper + 0) / 2)) (omega (arith, room))) e),
      small,
    )
