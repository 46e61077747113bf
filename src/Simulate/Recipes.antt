-- ===== src/Simulate/Recipes.antt =====
-- What holds of a recipe that the check of the sandwich gives.
use mathlib.Core.Path.{subst}
use mathlib.Core.Bool.{true≢false}
use sando_rs.Base.{
  ℕ, ◌≡◌, ◌≢◌, refl, sym, ap, ◌∙◌, Bool, true, false, List, [], ◌∷◌, map, length, ltb,
  if◌then◌else◌,
}
use sando_rs.Block.{BlockInfo}
use sando_rs.Recipe.{OptimalRecipe}
use sando_rs.Constants.{weth_address}
use sando_rs.Simulate.{Transaction, RawIngredients, Machine, Evm, returns}
use sando_rs.Simulate.Outcomes.{Ensures, returned, bind, bind_any}
use sando_rs.Simulate.Queries.{setup_block_state, get_balance_of_evm}
use sando_rs.Simulate.Meats.{sort_by_hash, dedup}
use sando_rs.Simulate.Gone.{addresses, Gone, prepare_frontrun-Gone}
use sando_rs.Simulate.Hashes.{
  AllOf, HashOrdered, AllOf-sort, sort_by_hash-HashOrdered, AllOf-dedup, dedup-HashOrdered,
}
use sando_rs.Simulate.Legs.{SandwichMaker, frontrun, backrun, execute}
use sando_rs.Simulate.Swaps.{Frontrun, Backrun, prepare_frontrun, prepare_backrun, leg_tx}
use sando_rs.Simulate.Sanity.{
  ended, meats_of, run_meat, run_meats, require_meats, close_sandwich, sanity_check,
}

-- That all victims' transactions of the ingredients have a property.
abbrev pub AllMeats : {D : Type 0} → (Transaction → Type 0) → List (RawIngredients D) → Type 0
AllMeats P ingredients = AllOf P (meats_of ingredients)

module _ {m : Machine} (P : Transaction → Type 0) where
  run_meats-AllOf :
      (meats : List Transaction) (evm : Evm m)
      → AllOf P meats
      → Ensures (λ (good, next). AllOf P good) (run_meats meats evm)
  unfolding run_meats
  run_meats-AllOf [] evm h = tt
  run_meats-AllOf (meat ∷ meats) evm (p, h) =
      let Good : List Transaction × Evm m → Type 0 = λ (good, next). AllOf P good in
      bind_any Good (run_meat meat evm) _ (λ (good, next).
        bind Good Good (run_meats meats next) _ (run_meats-AllOf meats next h)
          (λ (goods, last) k. kept good meat goods p k))
    where
      kept :
          (good : Bool) (meat : Transaction) (goods : List Transaction)
          → P meat
          → AllOf P goods
          → AllOf P (if good then meat ∷ goods else goods)
      kept true meat goods p k = (p, k)
      kept false meat goods p k = k

require_meats-some :
    (m : Machine) (ts : List Transaction) → Ensures {m = m} (λ _. ts ≢ []) (require_meats ts)
unfolding require_meats
require_meats-some m [] = tt
require_meats-some m (t ∷ ts) = λ e. true≢false (sym (ap is_empty e))
  where
    is_empty : List Transaction → Bool
    is_empty [] = true
    is_empty (_ ∷ _) = false

target_pools-addresses :
    {D : Type 0} (is : List (RawIngredients D))
    → map (λ p. p.address) (map (λ i. i.target_pool) is) ≡ addresses is
target_pools-addresses [] = refl
target_pools-addresses (i ∷ is) = ap (◌∷◌ i.target_pool.address) (target_pools-addresses is)

-- What is known of a recipe: its victims' transactions are some, in the order of their hashes, and
-- have what all of those of the ingredients have; its pools are those of the ingredients.
abbrev pub Sound :
    {D : Type 0}
    → (Transaction → Type 0)
    → List (RawIngredients D)
    → OptimalRecipe Transaction D
    → Type 0
Sound P multi recipe =
    (recipe.meats ≢ [])
    × HashOrdered recipe.meats
    × AllOf P recipe.meats
    × (map (λ p. p.address) recipe.target_pools ≡ addresses multi)

close_sandwich-Sound :
    {m : Machine} {D : Type 0} (P : Transaction → Type 0) (multi : List (RawIngredients D))
    (start : ℕ) (next_block : BlockInfo) (n : ℕ) (front : Frontrun m D) (gas : ℕ)
    (listed : List (ℕ × List ℕ)) (good_meats : List Transaction) (back : Backrun m)
    → good_meats ≢ []
    → HashOrdered good_meats
    → AllOf P good_meats
    → addresses front.done ≡ addresses multi
    → Ensures (Sound P multi) (close_sandwich start next_block n front gas listed good_meats back)
unfolding close_sandwich
close_sandwich-Sound {m} {D} P multi start next_block n front gas listed good_meats back some_meats
      ordered all pools =
    let S = Sound P multi in
    let bytes = ended (ltb 1 n) back.backrun_data in
    bind_any S (leg_tx next_block backrun n bytes back.backrun_value back.evm) _ (λ backrun_evm.
      bind_any S (execute backrun backrun_evm) _ (λ (backrun_gas, backrun_list, closed).
        bind_any S (get_balance_of_evm weth_address m.sandwich_contract next_block closed) _
          (λ (balance, asked).
            (some_meats, ordered, all, target_pools-addresses front.done ∙ pools))))

-- The recipe of a checked sandwich has transactions of victims, in the order of their hashes and
-- with any property that all those of the ingredients have, and it has the pools of the ingredients
-- in their order.
pub sanity_check-Sound :
    {m : Machine} {D : Type 0} (sandwich_start_balance : ℕ) (frontrun_ins : List ℕ)
    (multi_ingredients : List (RawIngredients D)) (next_block : BlockInfo) (maker : SandwichMaker)
    (evm : Evm m) (recipe : OptimalRecipe Transaction D) (P : Transaction → Type 0)
    → AllMeats P multi_ingredients
    → sanity_check sandwich_start_balance frontrun_ins multi_ingredients next_block maker evm
      ≡ returns recipe
    → Sound P multi_ingredients recipe
unfolding sanity_check
sanity_check-Sound {m} {D} start ins multi next_block maker evm recipe P all e =
    let n = length multi in
    let is_multiple = ltb 1 n in
    let S = Sound P multi in
    let first : Frontrun m D = record {
      evm = setup_block_state evm next_block;
      frontrun_data = [];
      frontrun_value = 0;
      backrun_ins = [];
      done = [];
    } in
    returned S (sanity_check start ins multi next_block maker evm) recipe
      (bind (Gone next_block maker is_multiple first multi) S
        (prepare_frontrun next_block maker is_multiple ins 0 multi first) _
        (prepare_frontrun-Gone next_block maker is_multiple ins 0 multi first)
        (λ front gone.
          let frontrun_data = ended is_multiple front.frontrun_data in
          bind_any S (leg_tx next_block frontrun n frontrun_data front.frontrun_value front.evm) _
            (λ frontrun_evm.
              bind_any S (execute frontrun frontrun_evm) _
                (λ (frontrun_gas, frontrun_list, fronted).
                  bind (λ (good, next). AllOf P good) S (run_meats (meats_of front.done) fronted) _
                    (run_meats-AllOf P (meats_of front.done) fronted
                      (subst (AllOf P) (sym gone.meats) all))
                    (λ (succeeded, fed) good.
                      let good_meats = dedup m.same_transaction (sort_by_hash succeeded) in
                      bind (λ _. good_meats ≢ []) S (require_meats good_meats) _
                        (require_meats-some m good_meats)
                        (λ _ some_meats.
                          bind_any S
                            (prepare_backrun next_block maker is_multiple front.backrun_ins 0
                              front.done
                              (record { evm = fed; backrun_data = []; backrun_value = 0 }))
                            _
                            (λ back.
                              close_sandwich-Sound P multi start next_block n front frontrun_gas
                                frontrun_list good_meats back some_meats
                                (dedup-HashOrdered m.same_transaction (sort_by_hash succeeded)
                                  (sort_by_hash-HashOrdered succeeded))
                                (AllOf-dedup m.same_transaction P (sort_by_hash succeeded)
                                  (AllOf-sort P succeeded good))
                                gone.pools)))))))
      e
