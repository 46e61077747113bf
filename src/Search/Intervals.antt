-- ===== src/Search/Intervals.antt =====
-- The bounds of a round of the search and the index with the highest revenue.
use sando_rs.Base.{
  ℕ, zero, suc, ◌+◌, ◌-◌, ◌*◌, ◌/◌, ◌≤◌, ◌<◌, ◌≡◌, refl, ap, ◌∙◌, sym, some, List, [], ◌∷◌, map,
  val, fit-val, u256_bound, checked_minus-val, get_elem?, length, ltb, leb, leb→le, leb→lt, ltb→lt,
  ltb→le, Bool-cases, ◌⊎◌, inl, inr, arith,
}
use sando_rs.Search.{interval, intervals_from, highest, highest_from, or_zero}

-- The bound with index `i` of `range` above `lower`.
unfoldable pub point : (lower range i : ℕ) → ℕ
point lower range i = lower + range * i / 15

unfoldable pub points : (lower range i left : ℕ) → List ℕ
points lower range i zero = []
points lower range i (suc left) = point lower range i ∷ points lower range (i + 1) left

interval-val :
    (lower upper i : ℕ)
    → lower ≤ upper
    → i ≤ 15
    → upper * 15 < u256_bound
    → interval lower upper i ≡ val (point lower (upper - lower) i)
unfolding interval point
interval-val lower upper i h k room =
    let small : (upper - lower) * i ≤ upper * 15 = grind arith in
    rw (checked_minus-val upper lower h) (
      rw (fit-val u256_bound ((upper - lower) * i) (omega (arith, small, room)))
        (fit-val u256_bound (lower + (upper - lower) * i / 15) (omega (arith, small, room))))

pub intervals_from-val :
    (lower upper i left : ℕ)
    → lower ≤ upper
    → i + left ≤ 16
    → upper * 15 < u256_bound
    → intervals_from lower upper i left ≡ val (points lower (upper - lower) i left)
unfolding intervals_from points
intervals_from-val lower upper i zero h k room = refl
intervals_from-val lower upper i (suc left) h k room =
    rw (interval-val lower upper i h (omega arith) room)
      (rw (intervals_from-val lower upper (i + 1) left h (omega arith) room) refl)

pub get_elem?-points :
    (lower range i left k : ℕ)
    → k < left
    → get_elem? (points lower range i left) k ≡ some (point lower range (i + k))
unfolding points
get_elem?-points lower range i zero k h = absurd (omega arith)
get_elem?-points lower range i (suc left) zero h =
    ap (λ j. some (point lower range j)) (let w : i ≡ i + 0 = omega arith in w)
get_elem?-points lower range i (suc left) (suc k) h =
    get_elem?-points lower range (i + 1) left k (omega arith)
    ∙ ap (λ j. some (point lower range j)) (let w : i + 1 + k ≡ i + suc k = omega arith in w)

pub get_elem?-map :
    (f : ℕ → ℕ) (xs : List ℕ) (k x : ℕ)
    → get_elem? xs k ≡ some x
    → get_elem? (map f xs) k ≡ some (f x)
get_elem?-map f [] k x e = ground arith
get_elem?-map f (y ∷ ys) zero x e = ap (λ m. some (f (or_zero m))) e
get_elem?-map f (y ∷ ys) (suc k) x e = get_elem?-map f ys k x e

pub length-points : (lower range i left : ℕ) → length (points lower range i left) ≡ left
unfolding points
length-points lower range i zero = refl
length-points lower range i (suc left) = omega (arith, length-points lower range (i + 1) left)

-- A last highest element and its index.
pub record IsHighest (rs : List ℕ) (index best : ℕ) : Type 0 where
  pub found : get_elem? rs index ≡ some best
  pub in_range : index < length rs
  pub at_most : (j r : ℕ) → get_elem? rs j ≡ some r → r ≤ best
  pub last : (j r : ℕ) → index < j → get_elem? rs j ≡ some r → r < best

-- What the search for the highest element knows after the elements before index `i`.
record SoFar (rs : List ℕ) (i index best : ℕ) : Type 0 where
  found : get_elem? rs index ≡ some best
  before : index < i
  at_most : (j r : ℕ) → j < i → get_elem? rs j ≡ some r → r ≤ best
  last : (j r : ℕ) → index < j → j < i → get_elem? rs j ≡ some r → r < best

pub get_elem?-lt : (rs : List ℕ) (j r : ℕ) → get_elem? rs j ≡ some r → j < length rs
get_elem?-lt [] j r h = ground arith
get_elem?-lt (x ∷ xs) zero r h = omega arith
get_elem?-lt (x ∷ xs) (suc j) r h = omega (arith, get_elem?-lt xs j r h)

at_or_before :
    (rs : List ℕ) (i j r w : ℕ)
    → get_elem? rs i ≡ some r
    → get_elem? rs j ≡ some w
    → j < i + 1
    → (j < i) ⊎ (w ≡ r)
at_or_before rs i j r w here e below = elim (Bool-cases (ltb j i)) [
  | inl h ↦ inl (ltb→lt j i h)
  | inr h ↦
      let q : j ≡ i = omega (arith, ltb→le j i h) in
      inr (ap or_zero (sym e ∙ ap (get_elem? rs) q ∙ here))
]

extend_higher :
    (rs : List ℕ) (i b v r : ℕ)
    → get_elem? rs i ≡ some r
    → v ≤ r
    → SoFar rs i b v
    → SoFar rs (i + 1) i r
extend_higher rs i b v r here higher so = record {
  found = here;
  before = omega arith;
  at_most = λ j w below e. elim (at_or_before rs i j r w here e below) [
    | inl h ↦ omega (arith, higher, so.at_most j w h e)
    | inr q ↦ omega (arith, q)
  ];
  last = λ j w above below e. absurd (omega arith);
}

extend_lower :
    (rs : List ℕ) (i b v r : ℕ)
    → get_elem? rs i ≡ some r
    → r < v
    → SoFar rs i b v
    → SoFar rs (i + 1) b v
extend_lower rs i b v r here lower so = record {
  found = so.found;
  before = omega (arith, so.before);
  at_most = λ j w below e. elim (at_or_before rs i j r w here e below) [
    | inl h ↦ so.at_most j w h e
    | inr q ↦ omega (arith, q, lower)
  ];
  last = λ j w above below e. elim (at_or_before rs i j r w here e below) [
    | inl h ↦ so.last j w above h e
    | inr q ↦ omega (arith, q, lower)
  ];
}

highest_from-IsHighest :
    (all rest : List ℕ) (b v i : ℕ)
    → length all ≡ i + length rest
    → ((k : ℕ) → get_elem? rest k ≡ get_elem? all (i + k))
    → SoFar all i b v
    → (index best : ℕ) × (highest_from b v i rest ≡ (index, best)) × IsHighest all index best
unfolding highest_from
highest_from-IsHighest all [] b v i size same so = (
  b,
  v,
  refl,
  record {
    found = so.found;
    in_range = omega (arith, so.before, size);
    at_most = λ j r e. so.at_most j r (omega (arith, size, get_elem?-lt all j r e)) e;
    last = λ j r above e. so.last j r above (omega (arith, size, get_elem?-lt all j r e)) e;
  },
)
highest_from-IsHighest all (r ∷ rs) b v i size same so =
    let here : get_elem? all i ≡ some r =
      ap (get_elem? all) (let w : i ≡ i + 0 = omega arith in w) ∙ sym (same 0) in
    let size' : length all ≡ i + 1 + length rs = omega (arith, size) in
    let same' : (k : ℕ) → get_elem? rs k ≡ get_elem? all (i + 1 + k) =
      λ k. same (suc k) ∙ ap (get_elem? all) (let w : i + suc k ≡ i + 1 + k = omega arith in w) in
    elim (Bool-cases (leb v r)) [
      | inl h ↦
          let (index, best, e, is) =
            highest_from-IsHighest all rs i r (i + 1) size' same'
              (extend_higher all i b v r here (leb→le v r h) so) in
          (index, best, rw h e, is)
      | inr h ↦
          let (index, best, e, is) =
            highest_from-IsHighest all rs b v (i + 1) size' same'
              (extend_lower all i b v r here (leb→lt v r h) so) in
          (index, best, rw h e, is)
    ]

-- Of the revenues of a list that is not empty, the highest is found, at the last index that has it.
pub highest-IsHighest :
    (r : ℕ) (rs : List ℕ)
    → (index best : ℕ) × (highest (r ∷ rs) ≡ some (index, best)) × IsHighest (r ∷ rs) index best
unfolding highest
highest-IsHighest r rs =
    let (index, best, e, is) =
      highest_from-IsHighest (r ∷ rs) rs 0 r 1 (omega arith)
        (λ k. ap (get_elem? (r ∷ rs)) (let w : suc k ≡ 1 + k = omega arith in w)) first in
    (index, best, ap some e, is)
  where
    first : SoFar (r ∷ rs) 1 0 r
    first = record {
      found = refl;
      before = omega arith;
      at_most = λ j w below e.
          let q : j ≡ 0 = omega arith in
          let same : w ≡ r = ap or_zero (sym e ∙ ap (get_elem? (r ∷ rs)) q) in omega (arith, same);
      last = λ j w above below e. absurd (omega arith);
    }
