-- ===== src/Search/Rounds.antt =====
-- What one round of the search does to its bounds.
use sando_rs.Base.{
  ℕ, ◌+◌, ◌-◌, ◌*◌, ◌/◌, ◌≤◌, ◌<◌, ◌≡◌, ◌≢◌, ◌⊎◌, inl, inr, refl, ap, ◌∙◌, sym, some, List, map, [],
  ◌∷◌, Checked, val, fit-val, u256_bound, checked_minus-val, checked_sub, get_elem?, length, ltb,
  ◌==◌, ==_iff, Bool-cases, ltb→lt, ltb→le, false, arith,
}
use sando_rs.Search.{
  Round, returns, continues, next_bounds, revenues_of, search_round, or_zero, highest,
}
use sando_rs.Search.Intervals.{
  point, points, intervals_from-val, get_elem?-points, length-points, get_elem?-map,
  highest-IsHighest, IsHighest,
}

-- Simulations of which none panics.
abbrev pub reports : (ℕ → ℕ) → ℕ → Checked ℕ
reports revenue input = val (revenue input)

revenues_of-reports :
    (revenue : ℕ → ℕ) (bounds : List ℕ)
    → revenues_of (reports revenue) bounds ≡ val (map revenue bounds)
unfolding revenues_of
revenues_of-reports revenue [] = refl
revenues_of-reports revenue (bound ∷ bounds) = rw (revenues_of-reports revenue bounds) refl

-- How a round that starts with ordered bounds can end.
pub data RoundEnd (revenue : ℕ → ℕ) (counter lower upper : ℕ) : Round → Type 0 where
  gives_up : counter ≡ 10 → RoundEnd revenue counter lower upper (returns 0)
  cuts :
      (h : ℕ)
      → counter ≢ 10
      → revenue lower ≡ 0
      → h ≤ upper
      → RoundEnd revenue counter lower upper
          (continues lower (lower + (upper - lower) * 5 / 15 - 1) h)
  narrows :
      (l u h : ℕ)
      → h ≤ upper
      → 0 < revenue h
      → u ≤ upper
      → u + lower < upper + l
      → ((l ≡ lower) × (0 < revenue lower)) ⊎ (lower < l)
      → RoundEnd revenue counter lower upper (continues l u h)

pub point_le : (lower range k : ℕ) → k ≤ 15 → point lower range k ≤ lower + range
unfolding point
point_le lower range k h = let small : range * k ≤ range * 15 = grind arith in omega (arith, small)

point_step : (lower range k : ℕ) → point lower range k ≤ point lower range (k + 1)
unfolding point
point_step lower range k =
    let more : range * k ≤ range * (k + 1) = grind arith in omega (arith, more)

point_ge : (lower range k : ℕ) → lower ≤ point lower range k
unfolding point
point_ge lower range k = omega arith

point_first : (lower range : ℕ) → point lower range 0 ≡ lower
unfolding point
point_first lower range = omega arith

or_zero_minus : (n : ℕ) → or_zero (checked_sub n 1) ≡ n - 1
or_zero_minus n = ground arith

not_equal : (n m : ℕ) → (n == m) ≡ false → n ≢ m
not_equal n m e = ground arith

pub not_zero : (n : ℕ) → (n == 0) ≡ false → 0 < n
not_zero n e = ground arith

module _ (revenue : ℕ → ℕ) (counter lower upper : ℕ) where
  -- The bound with index `k`.
  abbrev at : ℕ → ℕ
  at k = point lower (upper - lower) k

  -- The index that a round finds.
  record Found (index best : ℕ) : Type 0 where
    pub in_range : index ≤ 15
    pub earns : revenue (at index) ≡ best
    pub at_most : (k : ℕ) → k ≤ 15 → revenue (at k) ≤ best
    pub last : (k : ℕ) → index < k → k ≤ 15 → revenue (at k) < best

  abbrev bounds : List ℕ
  bounds = points lower (upper - lower) 0 16

  get : (k : ℕ) → k ≤ 15 → get_elem? bounds k ≡ some (at k)
  get k h =
      get_elem?-points lower (upper - lower) 0 16 k (omega arith)
      ∙ ap (λ j. some (at j)) (let w : 0 + k ≡ k = omega arith in w)

  right_pos : (index best : ℕ) → Found index best → index < 15 → 0 < at (index + 1)
  right_pos index best f h = elim (Bool-cases (ltb 0 (at (index + 1)))) [
    | inl e ↦ ltb→lt 0 (at (index + 1)) e
    | inr e ↦
        let step : at index ≤ at (index + 1) = point_step lower (upper - lower) index in
        let none : at (index + 1) ≤ 0 = ltb→le 0 (at (index + 1)) e in
        let same : at index ≡ at (index + 1) = omega (arith, step, none) in
        let less : revenue (at (index + 1)) < best =
          f.last (index + 1) (omega arith) (omega arith) in
        let earn : revenue (at (index + 1)) ≡ best = ap revenue (sym same) ∙ f.earns in
        absurd (omega (arith, less, earn))
  ]

  at_bounds : lower ≤ upper → (k : ℕ) → k ≤ 15 → at k ≤ upper
  at_bounds ordered k h =
      let top : at k ≤ lower + (upper - lower) = point_le lower (upper - lower) k h in
      omega (arith, top, ordered)

  Found-of_highest : (index best : ℕ) → IsHighest (map revenue bounds) index best → Found index best
  Found-of_highest index best is =
      let size : length (map revenue bounds) ≡ 16 = unfold points in refl in
      let inside : index ≤ 15 = omega (arith, size, is.in_range) in
      let value : (k : ℕ) → k ≤ 15 → get_elem? (map revenue bounds) k ≡ some (revenue (at k)) =
        λ k h. get_elem?-map revenue bounds k (at k) (get k h) in
      record {
        in_range = inside;
        earns = ap or_zero (sym (value index inside) ∙ is.found);
        at_most = λ k h. is.at_most k (revenue (at k)) (value k h);
        last = λ k above h. is.last k (revenue (at k)) above (value k h);
      }

  search_round-next :
      lower ≤ upper
      → upper * 15 < u256_bound
      → (index best : ℕ) × Found index best
        × (search_round (reports revenue) counter lower upper
            ≡ next_bounds counter lower upper bounds index best)
  unfolding search_round
  search_round-next ordered room =
      let (index, best, e, is) =
        highest-IsHighest (revenue (at 0)) (map revenue (points lower (upper - lower) 1 15)) in
      let e' : highest (map revenue bounds) ≡ some (index, best) = unfold points in e in
      (
        index,
        best,
        Found-of_highest index best (unfold points in is),
        rw
            (
              intervals_from-val lower upper 0 16 ordered (omega arith) room,
              revenues_of-reports revenue bounds,
              e',
            )
            refl,
      )

  first_earns : (index best : ℕ) → Found index best → best ≡ 0 → revenue lower ≡ 0
  first_earns index best f e =
      let most : revenue (at 0) ≤ best = f.at_most 0 (omega arith) in
      ap revenue (sym (point_first lower (upper - lower)))
      ∙ (let q : revenue (at 0) ≡ 0 = omega (arith, most, e) in q)

  left_end :
      (index best : ℕ)
      → 0 < best
      → lower ≤ upper
      → upper * 15 < u256_bound
      → Found index best
      → index ≡ 15
      → (round : Round) × (next_bounds counter lower upper bounds index best ≡ val round)
        × RoundEnd revenue counter lower upper round
  unfolding next_bounds
  left_end index best pos ordered room f is =
      let size : length bounds ≡ 16 = length-points lower (upper - lower) 0 16 in
      let here : get_elem? bounds index ≡ some (at index) = get index f.in_range in
      let left : get_elem? bounds (index - 1) ≡ some (at (index - 1)) =
        get (index - 1) (omega (arith, is)) in
      let below : at (index - 1) ≤ upper = at_bounds ordered (index - 1) (omega (arith, is)) in
      let above : lower ≤ at (index - 1) = point_ge lower (upper - lower) (index - 1) in
      (
        continues (at (index - 1) + 1) upper (at index),
        rw (here, size, left)
            (ground (
              arith,
              is,
              pos,
              fit-val u256_bound (at (index - 1) + 1) (omega (arith, below, room)),
            )),
        narrows (at (index - 1) + 1) upper (at index) (at_bounds ordered index f.in_range)
            (omega (arith, pos, f.earns)) (omega arith) (omega (arith, above))
            (inr (omega (arith, above))),
      )

  right_end :
      (index best : ℕ)
      → 0 < best
      → lower ≤ upper
      → upper * 15 < u256_bound
      → Found index best
      → index ≡ 0
      → (round : Round) × (next_bounds counter lower upper bounds index best ≡ val round)
        × RoundEnd revenue counter lower upper round
  unfolding next_bounds
  right_end index best pos ordered room f is =
      let size : length bounds ≡ 16 = length-points lower (upper - lower) 0 16 in
      let here : get_elem? bounds index ≡ some (at index) = get index f.in_range in
      let right : get_elem? bounds (index + 1) ≡ some (at (index + 1)) =
        get (index + 1) (omega (arith, is)) in
      let below : at (index + 1) ≤ upper = at_bounds ordered (index + 1) (omega (arith, is)) in
      let some_right : 0 < at (index + 1) = right_pos index best f (omega (arith, is)) in
      let first : at index ≡ lower = ap at is ∙ point_first lower (upper - lower) in
      let earns : revenue lower ≡ best = ap revenue (sym first) ∙ f.earns in
      (
        continues lower (at (index + 1) - 1) (at index),
        rw (here, size, right)
            (ground (arith, is, pos, checked_minus-val (at (index + 1)) 1 some_right)),
        narrows lower (at (index + 1) - 1) (at index) (at_bounds ordered index f.in_range)
            (omega (arith, pos, f.earns)) (omega (arith, below)) (omega (arith, below, some_right))
            (inl (refl, omega (arith, pos, earns))),
      )

  inside :
      (index best : ℕ)
      → 0 < best
      → lower ≤ upper
      → upper * 15 < u256_bound
      → Found index best
      → 0 < index
      → index < 15
      → (round : Round) × (next_bounds counter lower upper bounds index best ≡ val round)
        × RoundEnd revenue counter lower upper round
  unfolding next_bounds
  inside index best pos ordered room f after before =
      let size : length bounds ≡ 16 = length-points lower (upper - lower) 0 16 in
      let here : get_elem? bounds index ≡ some (at index) = get index f.in_range in
      let left : get_elem? bounds (index - 1) ≡ some (at (index - 1)) =
        get (index - 1) (omega (arith, before)) in
      let right : get_elem? bounds (index + 1) ≡ some (at (index + 1)) =
        get (index + 1) (omega (arith, before)) in
      let left_below : at (index - 1) ≤ upper =
        at_bounds ordered (index - 1) (omega (arith, before)) in
      let above : lower ≤ at (index - 1) = point_ge lower (upper - lower) (index - 1) in
      let below : at (index + 1) ≤ upper = at_bounds ordered (index + 1) (omega (arith, before)) in
      let some_right : 0 < at (index + 1) = right_pos index best f before in
      (
        continues (at (index - 1) + 1) (at (index + 1) - 1) (at index),
        rw (here, size, left, right)
            (ground (
              arith,
              after,
              before,
              pos,
              checked_minus-val (at (index + 1)) 1 some_right,
              fit-val u256_bound (at (index - 1) + 1) (omega (arith, left_below, room)),
            )),
        narrows (at (index - 1) + 1) (at (index + 1) - 1) (at index)
            (at_bounds ordered index f.in_range) (omega (arith, pos, f.earns))
            (omega (arith, below)) (omega (arith, below, some_right, above))
            (inr (omega (arith, above))),
      )

  -- The round, for the index that it found.
  next_bounds-RoundEnd :
      (index best : ℕ)
      → lower ≤ upper
      → upper * 15 < u256_bound
      → Found index best
      → (round : Round) × (next_bounds counter lower upper bounds index best ≡ val round)
        × RoundEnd revenue counter lower upper round
  unfolding next_bounds
  next_bounds-RoundEnd index best ordered room f =
      let size : length bounds ≡ 16 = length-points lower (upper - lower) 0 16 in
      let here : get_elem? bounds index ≡ some (at index) = get index f.in_range in
      let reached : at index ≤ upper = at_bounds ordered index f.in_range in
      elim (Bool-cases (best == 0)) [
        | inl z ↦ elim (Bool-cases (counter == 10)) [
          | inl ten ↦ (returns 0, rw (here, z, ten) refl, gives_up ((==_iff counter 10).0 ten))
          | inr more ↦ (
            continues lower (at 5 - 1) (at index),
            rw (here, z, more, size, get 5 (omega arith))
                (ap (λ u. val (continues lower u (at index))) (or_zero_minus (at 5))),
            unfold point in
                cuts (at index) (λ q. ground arith) (first_earns index best f ((==_iff best 0).0 z))
                  reached,
          )
        ]
        | inr pos ↦ elim (Bool-cases (index == 15)) [
          | inl final ↦
              left_end index best (not_zero best pos) ordered room f ((==_iff index 15).0 final)
          | inr inner ↦ elim (Bool-cases (index == 0)) [
            | inl start ↦
                right_end index best (not_zero best pos) ordered room f ((==_iff index 0).0 start)
            | inr middle ↦
                inside index best (not_zero best pos) ordered room f (not_zero index middle)
                  (omega (arith, f.in_range, not_equal index 15 inner))
          ]
        ]
      ]

-- How a round ends that starts with ordered bounds.
pub search_round-RoundEnd :
    (revenue : ℕ → ℕ) (counter lower upper : ℕ)
    → lower ≤ upper
    → upper * 15 < u256_bound
    → (round : Round) × (search_round (reports revenue) counter lower upper ≡ val round)
      × RoundEnd revenue counter lower upper round
search_round-RoundEnd revenue counter lower upper ordered room =
    let (index, best, f, e) = search_round-next revenue counter lower upper ordered room in
    let (round, e', ends) =
      next_bounds-RoundEnd revenue counter lower upper index best ordered room f in
    (round, e ∙ e', ends)
