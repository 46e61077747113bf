-- ===== src/Search/Nothing.antt =====
-- The search where no input earns anything.
use sando_rs.Base.{
  ℕ, zero, suc, ◌+◌, ◌-◌, ◌*◌, ◌/◌, ◌≤◌, ◌<◌, ◌≡◌, ◌≢◌, ◌⊎◌, inl, inr, refl, some, Option, Checked,
  val, fit-val, u256_bound, ltb, ltb→lt, ltb→le, Bool-cases, false, arith,
}
use sando_rs.Search.{
  Round, search_loop, after_round, should_loop_terminate, tolerance_of, juiced_quadratic_search,
}
use sando_rs.Search.Rounds.{reports, RoundEnd, gives_up, cuts, narrows, search_round-RoundEnd}

-- An upper bound that stays at least `tolerance` for `k` more cuts.
unfoldable enough_for : (k tolerance : ℕ) → ℕ
enough_for zero tolerance = tolerance
enough_for (suc k) tolerance = 3 * enough_for k tolerance + 3

enough_for-ge : (k tolerance : ℕ) → tolerance ≤ enough_for k tolerance
unfolding enough_for
enough_for-ge zero tolerance = omega arith
enough_for-ge (suc k) tolerance = omega (arith, enough_for-ge k tolerance)

abbrev Holds : (k tolerance upper : ℕ) → Type 0
Holds k tolerance upper = (tolerance ≡ 0) ⊎ (enough_for k tolerance ≤ upper)

goes_on :
    (k tolerance upper : ℕ)
    → Holds k tolerance upper
    → should_loop_terminate tolerance 0 upper ≡ false
unfolding should_loop_terminate
goes_on k tolerance upper (inl none) = ground arith
goes_on k tolerance upper (inr large) =
    let wide : tolerance ≤ upper = omega (arith, large, enough_for-ge k tolerance) in
    ground (arith, wide)

after_cut :
    (k tolerance upper : ℕ)
    → Holds (suc k) tolerance upper
    → Holds k tolerance (0 + (upper - 0) * 5 / 15 - 1)
unfolding enough_for
after_cut k tolerance upper (inl none) = inl none
after_cut k tolerance upper (inr large) = inr (omega (arith, large))

module _ (revenue : ℕ → ℕ) (tolerance top : ℕ) (room : top * 15 < u256_bound)
    (nothing : (x : ℕ) → x ≤ top → revenue x ≡ 0) where
  -- Round ten ends the search with zero.
  after_round-last :
      (rest : ℕ → ℕ → ℕ → Checked (Option ℕ)) (upper : ℕ) (round : Round)
      → upper ≤ top
      → RoundEnd revenue 10 0 upper round
      → after_round rest round ≡ val (some 0)
  after_round-last rest upper _ below (gives_up ten) = refl
  after_round-last rest upper _ below (cuts h more none small) = absurd (more refl)
  after_round-last rest upper _ below (narrows l u h small earns fits shrinks kept) =
      absurd (omega (arith, earns, nothing h (omega (arith, small, below))))

  -- A round before cuts the range.
  after_round-cut :
      (rest : ℕ → ℕ → ℕ → Checked (Option ℕ)) (counter upper : ℕ) (round : Round)
      → upper ≤ top
      → counter ≢ 10
      → ((h : ℕ) → rest 0 (0 + (upper - 0) * 5 / 15 - 1) h ≡ val (some 0))
      → RoundEnd revenue counter 0 upper round
      → after_round rest round ≡ val (some 0)
  after_round-cut rest counter upper _ below early ih (gives_up ten) = absurd (early ten)
  after_round-cut rest counter upper _ below early ih (cuts h more none small) = ih h
  after_round-cut rest counter upper _ below early ih
        (narrows l u h small earns fits shrinks kept) =
      absurd (omega (arith, earns, nothing h (omega (arith, small, below))))

  search_loop-nothing :
      (k fuel counter upper input : ℕ)
      → counter + k ≡ 9
      → k < fuel
      → upper ≤ top
      → Holds k tolerance upper
      → search_loop (reports revenue) tolerance fuel counter 0 upper input ≡ val (some 0)
  unfolding search_loop
  search_loop-nothing k zero counter upper input count fueled below holds = absurd (omega arith)
  search_loop-nothing zero (suc fuel) counter upper input count fueled below holds =
      let nine : counter ≡ 9 = omega (arith, count) in
      let (round, e, ends) =
        search_round-RoundEnd revenue 10 0 upper (omega arith) (omega (arith, room, below)) in
      rw (goes_on 0 tolerance upper holds, nine, e)
        (after_round-last (search_loop (reports revenue) tolerance fuel 10) upper round below ends)
  search_loop-nothing (suc k) (suc fuel) counter upper input count fueled below holds =
      let (round, e, ends) =
        search_round-RoundEnd revenue (counter + 1) 0 upper (omega arith)
          (omega (arith, room, below)) in
      rw (goes_on (suc k) tolerance upper holds, e)
        (after_round-cut (search_loop (reports revenue) tolerance fuel (counter + 1)) (counter + 1)
          upper round below (λ ten. omega (arith, ten, count))
          (λ h.
            search_loop-nothing k fuel (counter + 1) (0 + (upper - 0) * 5 / 15 - 1) h
              (omega (arith, count)) (omega arith) (omega (arith, below))
              (after_cut k tolerance upper holds))
          ends)

large_enough : (upper : ℕ) → Holds 9 (1 * ((upper + 0) / 2) / 1000000) upper
unfolding enough_for
large_enough upper = elim (Bool-cases (ltb (1 * ((upper + 0) / 2) / 1000000) 1)) [
  | inl h ↦ inl (omega (arith, ltb→lt _ _ h))
  | inr h ↦ inr (omega (arith, ltb→le _ _ h))
]

-- Where no input up to `upper` earns anything, a search from zero gives up in its tenth round and
-- returns zero; the tolerance never ends it before, with a bound that earns nothing.
juiced_quadratic_search-nothing :
    (revenue : ℕ → ℕ) (upper fuel : ℕ)
    → upper * 15 < u256_bound
    → 10 ≤ fuel
    → ((x : ℕ) → x ≤ upper → revenue x ≡ 0)
    → juiced_quadratic_search (reports revenue) fuel 0 upper ≡ val (some 0)
unfolding juiced_quadratic_search tolerance_of
juiced_quadratic_search-nothing revenue upper fuel room enough nothing =
    rw (fit-val u256_bound (upper + 0) (omega (arith, room))) (
      rw (fit-val u256_bound (1 * ((upper + 0) / 2)) (omega (arith, room))) (
        search_loop-nothing revenue (1 * ((upper + 0) / 2) / 1000000) upper room nothing 9 fuel 0
          upper 0 (omega arith) (omega arith) (omega arith) (large_enough upper)))
