-- ===== src/Bundle/Mega/Meats.antt =====
-- The victims' transactions that a mega sandwich is made of.
use sando_rs.Base.{
  ℕ, ◌+◌, ◌≡◌, refl, Bool, List, [], ◌∷◌, ◌++◌, leb, Bool-cases, inl, inr, if◌then◌else◌, arith,
}
use sando_rs.Pool.{Pool}
use sando_rs.Recipe.{OptimalRecipe}
use sando_rs.Bundle.{same_pool, add_recipe}
use sando_rs.Bundle.Mega.{
  new_ingredients, insert_by_revenue, sort_by_revenue, recipe_meats, mega_ingredients,
}
use sando_rs.Simulate.{Transaction}
use sando_rs.Simulate.Sanity.{meats_of}

-- How many transactions pass a test.
abbrev pub count : (Transaction → Bool) → List Transaction → ℕ
count p [] = 0
count p (t ∷ ts) = (if p t then 1 else 0) + count p ts

count-append :
    (p : Transaction → Bool) (ts us : List Transaction)
    → count p (ts ++ us) ≡ count p ts + count p us
count-append p [] us = omega arith
count-append p (t ∷ ts) us = omega (arith, count-append p ts us)

module _ {D : Type 0} (p : Transaction → Bool) where
  -- Of all recipes.
  abbrev total : List (OptimalRecipe Transaction D) → ℕ
  total [] = 0
  total (r ∷ rs) = count p r.meats + total rs

  recipe_meats-total :
      (rs : List (OptimalRecipe Transaction D)) → count p (recipe_meats rs) ≡ total rs
  recipe_meats-total [] = refl
  recipe_meats-total (r ∷ rs) =
      omega (arith, count-append p r.meats (recipe_meats rs), recipe_meats-total rs)

  insert_by_revenue-total :
      (r : OptimalRecipe Transaction D) (rs : List (OptimalRecipe Transaction D))
      → total (insert_by_revenue r rs) ≡ count p r.meats + total rs
  unfolding insert_by_revenue
  insert_by_revenue-total r [] = refl
  insert_by_revenue-total r (s ∷ ss) = elim (Bool-cases (leb r.revenue s.revenue)) [
    | inl e ↦ rw e refl
    | inr e ↦ rw e (omega (arith, insert_by_revenue-total r ss))
  ]

  sort_by_revenue-total :
      (rs : List (OptimalRecipe Transaction D)) → total (sort_by_revenue rs) ≡ total rs
  unfolding sort_by_revenue
  sort_by_revenue-total [] = refl
  sort_by_revenue-total (r ∷ rs) =
      omega (arith, insert_by_revenue-total r (sort_by_revenue rs), sort_by_revenue-total rs)

  total-append :
      (rs : List (OptimalRecipe Transaction D)) (r : OptimalRecipe Transaction D)
      → total (rs ++ r ∷ []) ≡ total rs + count p r.meats
  total-append [] r = omega arith
  total-append (s ∷ ss) r = omega (arith, total-append ss r)

  -- Of all pending recipes.
  abbrev all_pending : List (Pool × List (OptimalRecipe Transaction D)) → ℕ
  all_pending [] = 0
  all_pending ((_, recipes) ∷ pending) = total recipes + all_pending pending

  mega_ingredients-all_pending :
      (from contract : ℕ) (pending : List (Pool × List (OptimalRecipe Transaction D)))
      → count p (meats_of (mega_ingredients from contract pending)) ≡ all_pending pending
  unfolding mega_ingredients new_ingredients
  mega_ingredients-all_pending from contract [] = refl
  mega_ingredients-all_pending from contract ((pool, recipes) ∷ pending) =
      let sorted = sort_by_revenue recipes in
      omega (
        arith,
        count-append p (recipe_meats sorted) (meats_of (mega_ingredients from contract pending)),
        recipe_meats-total sorted,
        sort_by_revenue-total recipes,
        mega_ingredients-all_pending from contract pending,
      )

  add_recipe-all_pending :
      (pending : List (Pool × List (OptimalRecipe Transaction D)))
      (recipe : OptimalRecipe Transaction D) (pool : Pool)
      → all_pending (add_recipe pending recipe pool) ≡ count p recipe.meats + all_pending pending
  unfolding add_recipe
  add_recipe-all_pending [] recipe pool = omega arith
  add_recipe-all_pending ((other, recipes) ∷ pending) recipe pool =
      elim (Bool-cases (same_pool pool other)) [
        | inl e ↦ rw e (omega (arith, total-append recipes recipe))
        | inr e ↦ rw e (omega (arith, add_recipe-all_pending pending recipe pool))
      ]

-- Adding a recipe to those pending adds its victims' transactions to the ingredients of the mega
-- sandwich, each as often as the recipe has it, and takes none away: so counts any test of them.
pub mega_ingredients-add_recipe :
    {D : Type 0} (from contract : ℕ) (pending : List (Pool × List (OptimalRecipe Transaction D)))
    (recipe : OptimalRecipe Transaction D) (pool : Pool) (p : Transaction → Bool)
    → count p (meats_of (mega_ingredients from contract (add_recipe pending recipe pool)))
      ≡ count p recipe.meats + count p (meats_of (mega_ingredients from contract pending))
mega_ingredients-add_recipe from contract pending recipe pool p = omega (
  arith,
  mega_ingredients-all_pending p from contract (add_recipe pending recipe pool),
  mega_ingredients-all_pending p from contract pending,
  add_recipe-all_pending p pending recipe pool,
)
