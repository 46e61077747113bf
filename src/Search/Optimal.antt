-- ===== src/Search/Optimal.antt =====
-- The inputs of a sandwich on several pools share the balance.
use sando_rs.Base.{
  ℕ, ◌+◌, ◌-◌, ◌*◌, ◌≤◌, ◌<◌, ◌≡◌, refl, inl, inr, List, [], ◌∷◌, some, val, u256_bound, length,
  checked_sub, ◌==◌, Bool-cases, true, false, arith,
}
use sando_rs.Search.{find_optimals, juiced_quadratic_search, or_zero}
use sando_rs.Search.Rounds.{reports, not_zero}
use sando_rs.Search.Loop.{juiced_quadratic_search_lem}

unfoldable pub sum : List ℕ → ℕ
sum [] = 0
sum (x ∷ xs) = x + sum xs

unfoldable pub AllPositive : List ℕ → Type 0
AllPositive [] = Unit
AllPositive (x ∷ xs) = (0 < x) × AllPositive xs

-- One more ingredient, whose search returns zero, or a positive input.
module _ {A : Type 0} (revenue : A → ℕ → ℕ) (fuel balance r : ℕ) (x : A) (xs : List A) where
  without :
      (optimals : List ℕ) (good : List A)
      → juiced_quadratic_search (reports (revenue x)) fuel 0 balance ≡ val (some r)
      → (r == 0) ≡ true
      → find_optimals (λ a. reports (revenue a)) fuel balance xs ≡ val (some (optimals, good))
      → find_optimals (λ a. reports (revenue a)) fuel balance (x ∷ xs) ≡ val (some (optimals, good))
  unfolding find_optimals
  without optimals good e zero_in e' = rw (e, zero_in, e', zero_in) refl

  with_input :
      (optimals : List ℕ) (good : List A)
      → juiced_quadratic_search (reports (revenue x)) fuel 0 balance ≡ val (some r)
      → (r == 0) ≡ false
      → r ≤ balance
      → find_optimals (λ a. reports (revenue a)) fuel (balance - r) xs ≡ val (some (optimals, good))
      → find_optimals (λ a. reports (revenue a)) fuel balance (x ∷ xs)
        ≡ val (some (r ∷ optimals, x ∷ good))
  unfolding find_optimals
  with_input optimals good e some_in small e' =
      let left : or_zero (checked_sub balance r) ≡ balance - r = ground arith in
      rw (e, some_in, left, e', some_in) refl

-- For a balance that leaves room for the factor 15 in 256 bits, and fuel for as many rounds and 13
-- more, the optimal inputs are found, positive, one for each ingredient that is kept, and together
-- no more than the balance, whatever the simulations report, where none panics.
pub find_optimals-within :
    {A : Type 0} (revenue : A → ℕ → ℕ) (fuel balance : ℕ) (all : List A)
    → balance * 15 < u256_bound
    → balance + 13 ≤ fuel
    → (optimals : List ℕ) × (good : List A) × (find_optimals
          (λ a. reports (revenue a))
          fuel
          balance
          all
        ≡ val (some (optimals, good)))
      × (sum optimals ≤ balance)
      × AllPositive optimals
      × (length optimals ≡ length good)
unfolding find_optimals sum AllPositive
find_optimals-within revenue fuel balance [] room enough = ([], [], refl, omega arith, tt, refl)
find_optimals-within revenue fuel balance (x ∷ xs) room enough =
    let (r, e, small) = juiced_quadratic_search_lem (revenue x) balance fuel room enough in
    elim (Bool-cases (r == 0)) [
      | inl none ↦
          let (optimals, good, e', fits, pos, same) =
            find_optimals-within revenue fuel balance xs room enough in
          (
            optimals,
            good,
            without revenue fuel balance r x xs optimals good e none e',
            fits,
            pos,
            same,
          )
      | inr some_in ↦
          let (optimals, good, e', fits, pos, same) =
            find_optimals-within revenue fuel (balance - r) xs (omega (arith, room))
              (omega (arith, enough)) in
          (
            r ∷ optimals,
            x ∷ good,
            with_input revenue fuel balance r x xs optimals good e some_in small e',
            omega (arith, fits, small),
            (not_zero r some_in, pos),
            omega (arith, same),
          )
    ]
