-- ===== src/Runner/Aimed.antt =====
-- The bundles that are sent, and the blocks that they are for.
use mathlib.Core.Path.{subst}
use mathlib.Core.List as List
use mathlib.Core.List.{Memᴰ}
use sando_rs.Base.{
  ℕ, ◌≡◌, ◌⊎◌, inl, inr, refl, ap, Option, none, some, List, [], ◌∷◌, ◌++◌, Checked, val, panic,
  Result, ok, err, ltb, ltb→lt, Bool-cases,
}
use sando_rs.Block.{BlockInfo}
use sando_rs.Pool.{Pool}
use sando_rs.Recipe.{OptimalRecipe}
use sando_rs.StateDiff.{AccountDiff, SandwichablePool}
use sando_rs.CacheDb.{CacheDb}
use sando_rs.Constants.{weth_address}
use sando_rs.Search as Search
use sando_rs.Bundle.{BundleRequest, SendError, Sender, send_bundle}
use sando_rs.Bundle.Sent.{Sent, send_bundle-Sent}
use sando_rs.Bundle.Mega.{
  new_ingredients, mega_ingredients, multi_combined_diffs, send_if_earns, make_mega_sandwich,
}
use sando_rs.Simulate.{RawIngredients, Transaction, Machine, Evm, Outcome, returns, fails, panics}
use sando_rs.Simulate.Legs.{SandwichMaker}
use sando_rs.Simulate.Revenue.{simulated_revenue}
use sando_rs.Simulate.Sanity.{check_choice, create_optimal_sandwich}
use sando_rs.Runner.{Bot, Given, take_outcome, handle_pool}
use sando_rs.Runner.Pending.{Earns, Fed, check_choice-Fed}

or_first : {A : Type 0} → A → Option A → A
or_first a none = a
or_first a (some b) = b

some_same : {A : Type 0} {a b : A} → some a ≡ some b → a ≡ b
unfolding or_first
some_same {a} e = ap (or_first a) e

-- What has come of a bundle.
abbrev pub Bundled : Type 0 → Type 0
Bundled W = Checked (Result {0, 0} (List (ℕ × BundleRequest)) (SendError W))

-- The recipe comes of a search and a check for the block.
abbrev pub Came : (m : Machine) → BlockInfo → OptimalRecipe Transaction AccountDiff → Type 0
Came m target recipe =
    (fuel balance : ℕ) × (ingredients : List (RawIngredients AccountDiff)) × (maker : SandwichMaker)
    × (evm : Evm m) × (create_optimal_sandwich fuel ingredients balance target maker evm
        ≡ some (returns recipe))

-- What is returned, if anything, comes of a search for the block.
abbrev AllCame :
    (m : Machine) → BlockInfo → Option (Outcome m (OptimalRecipe Transaction AccountDiff)) → Type 0
AllCame m target outcome =
    (recipe : OptimalRecipe Transaction AccountDiff)
    → outcome ≡ some (returns recipe)
    → Came m target recipe

-- The whole sandwich of a recipe that comes of a search and earns, for one of the blocks.
pub record Sandwich (m : Machine) (W : Type 0) (seen : List BlockInfo)
    (sent : List (ℕ × BundleRequest)) : Type 0 where
  pub sender : Sender W Transaction
  pub recipe : OptimalRecipe Transaction AccountDiff
  pub target : BlockInfo
  pub draw : ℕ
  pub listed : Memᴰ target seen
  pub came : Came m target recipe
  pub earns : Earns recipe
  pub result : send_bundle sender recipe target draw ≡ val (ok sent)
  pub complete : Sent sender recipe target sent

module _ (m : Machine) {W : Type 0} where
  -- What is sent, if anything, is a sandwich for one of the blocks.
  abbrev pub Aimed : List BlockInfo → Bundled W → Type 0
  Aimed seen panic = Unit
  Aimed seen (val (err _)) = Unit
  Aimed seen (val (ok sent)) = (sent ≡ []) ⊎ Sandwich m W seen sent

  abbrev pub AllAimed : List BlockInfo → List (Bundled W) → Type 0
  AllAimed seen [] = Unit
  AllAimed seen (b ∷ bs) = Aimed seen b × AllAimed seen bs

  pub AllAimed-append :
      (seen : List BlockInfo) (bs : List (Bundled W)) (b : Bundled W)
      → AllAimed seen bs
      → Aimed seen b
      → AllAimed seen (bs ++ b ∷ [])
  AllAimed-append seen [] b h a = (a, tt)
  AllAimed-append seen (c ∷ bs) b (h, hs) a = (h, AllAimed-append seen bs b hs a)

  Aimed-cons :
      (next : BlockInfo) (seen : List BlockInfo) (b : Bundled W)
      → Aimed seen b
      → Aimed (next ∷ seen) b
  Aimed-cons next seen panic h = tt
  Aimed-cons next seen (val (err _)) h = tt
  Aimed-cons next seen (val (ok sent)) (inl h) = inl h
  Aimed-cons next seen (val (ok sent)) (inr h) = inr (record {
    sender = h.sender;
    recipe = h.recipe;
    target = h.target;
    draw = h.draw;
    listed = List.Memᴰ.tail h.listed;
    came = h.came;
    earns = h.earns;
    result = h.result;
    complete = h.complete;
  })

  pub AllAimed-cons :
      (next : BlockInfo) (seen : List BlockInfo) (bs : List (Bundled W))
      → AllAimed seen bs
      → AllAimed (next ∷ seen) bs
  AllAimed-cons next seen [] h = tt
  AllAimed-cons next seen (b ∷ bs) (h, hs) =
      (Aimed-cons next seen b h, AllAimed-cons next seen bs hs)

  Aimed-of_sent :
      (seen : List BlockInfo) (b : Bundled W)
      → ((sent : List (ℕ × BundleRequest)) → b ≡ val (ok sent) → Sandwich m W seen sent)
      → Aimed seen b
  Aimed-of_sent seen panic h = tt
  Aimed-of_sent seen (val (err _)) h = tt
  Aimed-of_sent seen (val (ok sent)) h = inr (h sent refl)

  send_bundle-Aimed :
      (seen : List BlockInfo) (sender : Sender W Transaction)
      (recipe : OptimalRecipe Transaction AccountDiff) (target : BlockInfo) (draw : ℕ)
      → Memᴰ target seen
      → Came m target recipe
      → Earns recipe
      → Aimed seen (send_bundle sender recipe target draw)
  send_bundle-Aimed seen sender recipe target draw listed came earns =
      Aimed-of_sent seen (send_bundle sender recipe target draw) (λ sent e. record {
        sender = sender;
        recipe = recipe;
        target = target;
        draw = draw;
        listed = listed;
        came = came;
        earns = earns;
        result = e;
        complete = send_bundle-Sent sender recipe target draw sent e;
      })

  send_if_earns-Aimed :
      (seen : List BlockInfo) (sender : Sender W Transaction) (next_block : BlockInfo) (draw : ℕ)
      (outcome : Outcome m (OptimalRecipe Transaction AccountDiff))
      → Memᴰ next_block seen
      → AllCame m next_block (some outcome)
      → Fed (some outcome)
      → Aimed seen (send_if_earns sender next_block draw outcome)
  unfolding send_if_earns
  send_if_earns-Aimed seen sender next_block draw (fails _) listed came fed = inl refl
  send_if_earns-Aimed seen sender next_block draw panics listed came fed = tt
  send_if_earns-Aimed seen sender next_block draw (returns recipe) listed came fed =
      elim (Bool-cases (ltb 0 recipe.revenue)) [
        | inl e ↦ rw e (
            send_bundle-Aimed seen sender recipe next_block draw listed (came recipe refl)
              (ltb→lt 0 recipe.revenue e, fed))
        | inr e ↦ rw e (inl refl)
      ]

  of_outcome :
      (seen : List BlockInfo) (sender : Sender W Transaction) (next_block : BlockInfo) (draw : ℕ)
      (made : Bundled W)
      → Memᴰ next_block seen
      → (outcome : Option (Outcome m (OptimalRecipe Transaction AccountDiff)))
      → AllCame m next_block outcome
      → Fed outcome
      → (elim outcome [ none ↦ none | some o ↦ some (send_if_earns sender next_block draw o) ])
        ≡ some made
      → Aimed seen made
  of_outcome seen sender next_block draw made listed none came fed e = cc
  of_outcome seen sender next_block draw made listed (some o) came fed e =
      subst (Aimed seen) (some_same e)
        (send_if_earns-Aimed seen sender next_block draw o listed came fed)

  -- The mega sandwich, where its search is done within its fuel.
  pub make_mega_sandwich-Aimed :
      (seen : List BlockInfo) (fork : List (ℕ × AccountDiff) → Evm m) (fuel : ℕ)
      (pending : List (Pool × List (OptimalRecipe Transaction AccountDiff))) (weth_balance : ℕ)
      (next_block : BlockInfo) (maker : SandwichMaker) (sender : Sender W Transaction) (draw : ℕ)
      (made : Bundled W)
      → Memᴰ next_block seen
      → make_mega_sandwich fork fuel pending weth_balance next_block maker sender draw ≡ some made
      → Aimed seen made
  unfolding make_mega_sandwich create_optimal_sandwich
  make_mega_sandwich-Aimed seen fork fuel pending weth_balance next_block maker sender draw made
        listed e =
      let ingredients = mega_ingredients m.searcher m.sandwich_contract pending in
      let evm = fork (multi_combined_diffs pending []) in
      let choice =
        Search.choose_optimals (simulated_revenue next_block evm) fuel weth_balance ingredients in
      of_outcome seen sender next_block draw made listed
        (check_choice weth_balance next_block maker evm choice)
        (λ recipe q. (fuel, weth_balance, ingredients, maker, evm, q))
        (check_choice-Fed weth_balance next_block maker evm choice) e

  module _ {cache : CacheDb} (storage_key : ℕ → ℕ) (all_pools : ℕ → Option Pool)
      (maker : SandwichMaker) where
    take_outcome-Aimed :
        (seen : List BlockInfo) (given : Given m cache W) (s : Bot W) (pool : Pool)
        (outcome : Option (Outcome m (OptimalRecipe Transaction AccountDiff)))
        → Memᴰ given.next_block seen
        → AllCame m given.next_block outcome
        → Fed outcome
        → AllAimed seen s.bundles
        → AllAimed seen (take_outcome storage_key all_pools maker given s pool outcome).bundles
    unfolding take_outcome
    take_outcome-Aimed seen given s pool none listed came fed h = h
    take_outcome-Aimed seen given s pool (some (fails _)) listed came fed h = h
    take_outcome-Aimed seen given s pool (some panics) listed came fed h = h
    take_outcome-Aimed seen given s pool (some (returns recipe)) listed came fed h =
        elim (Bool-cases (ltb 0 recipe.revenue)) [
          | inl e ↦ rw e (
              AllAimed-append seen s.bundles
                (send_bundle given.sender recipe given.next_block given.draw) h
                (send_bundle-Aimed seen given.sender recipe given.next_block given.draw listed
                  (came recipe refl) (ltb→lt 0 recipe.revenue e, fed)))
          | inr e ↦ rw e h
        ]

    pub handle_pool-Aimed :
        (seen : List BlockInfo) (given : Given m cache W) (victim_tx : Transaction)
        (diffs : List (ℕ × AccountDiff)) (evm : Evm m) (balance : ℕ)
        (sandwichable : SandwichablePool) (s : Bot W)
        → Memᴰ given.next_block seen
        → AllAimed seen s.bundles
        → AllAimed seen
            (handle_pool storage_key all_pools maker given victim_tx diffs evm balance sandwichable
              s).bundles
    unfolding handle_pool create_optimal_sandwich
    handle_pool-Aimed seen given victim_tx diffs evm balance sandwichable s listed h =
        let ingredients =
          new_ingredients m.searcher m.sandwich_contract sandwichable.pool (victim_tx ∷ [])
            weth_address diffs in
        let choice =
          Search.choose_optimals (simulated_revenue given.next_block evm) given.fuel balance
            (ingredients ∷ []) in
        let outcome = check_choice balance given.next_block maker evm choice in
        let fed = check_choice-Fed balance given.next_block maker evm choice in
        elim (Bool-cases sandwichable.is_weth_input) [
          | inl e ↦ rw e (
              take_outcome-Aimed seen given s sandwichable.pool outcome listed
                (λ recipe q. (given.fuel, balance, ingredients ∷ [], maker, evm, q)) fed h)
          | inr e ↦ rw e h
        ]
