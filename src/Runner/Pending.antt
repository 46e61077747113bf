-- ===== src/Runner/Pending.antt =====
-- The recipes that wait and the outcomes of a search.
use sando_rs.Base.{
  ℕ, ◌<◌, ◌≡◌, ◌≢◌, refl, Option, none, some, List, [], ◌∷◌, ◌++◌, Checked, val, panic, Result, ok,
  err, Bool-cases, inl, inr,
}
use sando_rs.Pool.{Pool}
use sando_rs.Block.{BlockInfo}
use sando_rs.Recipe.{OptimalRecipe}
use sando_rs.Search as Search
use sando_rs.Bundle.{same_pool, add_recipe}
use sando_rs.Simulate.{Transaction, RawIngredients, Machine, Evm, Outcome, returns, fails, panics}
use sando_rs.Simulate.Legs.{SandwichMaker}
use sando_rs.Simulate.Outcomes.{Ensures}
use sando_rs.Simulate.Recipes.{sanity_check-Sound}
use sando_rs.Simulate.Hashes.{AllOf}
use sando_rs.Simulate.Sanity.{meats_of, sanity_check, check_choice}

module _ {D : Type 0} where
  -- A recipe that earns, with victims.
  abbrev pub Earns : OptimalRecipe Transaction D → Type 0
  Earns recipe = (0 < recipe.revenue) × (recipe.meats ≢ [])

  abbrev pub AllEarn : List (OptimalRecipe Transaction D) → Type 0
  AllEarn [] = Unit
  AllEarn (r ∷ rs) = Earns r × AllEarn rs

  -- All recipes that wait.
  abbrev pub PendingEarn : List (Pool × List (OptimalRecipe Transaction D)) → Type 0
  PendingEarn [] = Unit
  PendingEarn ((_, recipes) ∷ pending) = AllEarn recipes × PendingEarn pending

  AllEarn-append :
      (rs : List (OptimalRecipe Transaction D)) (r : OptimalRecipe Transaction D)
      → AllEarn rs
      → Earns r
      → AllEarn (rs ++ r ∷ [])
  AllEarn-append [] r h e = (e, tt)
  AllEarn-append (s ∷ ss) r (p, h) e = (p, AllEarn-append ss r h e)

  pub add_recipe-PendingEarn :
      (pending : List (Pool × List (OptimalRecipe Transaction D)))
      (recipe : OptimalRecipe Transaction D) (pool : Pool)
      → PendingEarn pending
      → Earns recipe
      → PendingEarn (add_recipe pending recipe pool)
  unfolding add_recipe
  add_recipe-PendingEarn [] recipe pool h e = ((e, tt), tt)
  add_recipe-PendingEarn ((other, recipes) ∷ pending) recipe pool (p, h) e =
      elim (Bool-cases (same_pool pool other)) [
        | inl q ↦ rw q (AllEarn-append recipes recipe p e, h)
        | inr q ↦ rw q (p, add_recipe-PendingEarn pending recipe pool h e)
      ]

-- That what is returned has victims.
abbrev pub Fed :
    {m : Machine} {D : Type 0} → Option (Outcome m (OptimalRecipe Transaction D)) → Type 0
Fed none = Unit
Fed (some outcome) = Ensures (λ recipe. recipe.meats ≢ []) outcome

every : (ts : List Transaction) → AllOf (λ _. Unit) ts
every [] = tt
every (t ∷ ts) = (tt, every ts)

ensured :
    {m : Machine} {A : Type 0} (P : A → Type 0) (x : Outcome m A)
    → ((a : A) → x ≡ returns a → P a)
    → Ensures P x
ensured P (returns a) h = h a refl
ensured P (fails _) h = tt
ensured P panics h = tt

pub check_choice-Fed :
    {m : Machine} {D : Type 0} (balance : ℕ) (next_block : BlockInfo) (maker : SandwichMaker)
    (evm : Evm m)
    (choice : Checked (Option (Result (List ℕ × List (RawIngredients D)) Search.SimulationError)))
    → Fed (check_choice balance next_block maker evm choice)
check_choice-Fed balance next_block maker evm panic = tt
check_choice-Fed balance next_block maker evm (val none) = tt
check_choice-Fed balance next_block maker evm (val (some (err _))) = tt
check_choice-Fed balance next_block maker evm (val (some (ok (optimals, good)))) =
    ensured (λ recipe. recipe.meats ≢ []) (sanity_check balance optimals good next_block maker evm)
      (λ recipe e.
        (sanity_check-Sound balance optimals good next_block maker evm recipe (λ _. Unit)
          (every (meats_of good)) e).0)
