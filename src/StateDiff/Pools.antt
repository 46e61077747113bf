-- ===== src/StateDiff/Pools.antt =====
-- The pools that a victim's transactions touch, and the direction of their swaps.
use mathlib.Core.List as List
use mathlib.Core.List.{Memᴰ}
use sando_rs.Base.{ℕ, ◌≡◌, refl, sym, ap, ◌∙◌, Option, none, some, List, ◌∷◌}
use sando_rs.Constants.{weth_address}
use sando_rs.Pool.{Pool}
use sando_rs.StateDiff.{
  lookup, Diff, same, born, died, changed, AccountDiff, SandwichablePool, touched_pools, add_pool,
  directions, extract_pools,
}

add_pool-none : (pool : Pool) (diff : Diff) → add_pool pool diff none ≡ none
add_pool-none pool same = refl
add_pool-none pool (born _) = refl
add_pool-none pool (died _) = refl
add_pool-none pool (changed _ _) = refl

module _ (storage_key : ℕ → ℕ) where
  directions-none :
      (slots : List (ℕ × Diff)) (pool : Pool) (pools : List Pool)
      → Memᴰ pool pools
      → lookup (storage_key pool.address) slots ≡ none
      → directions storage_key slots pools ≡ none
  unfolding directions
  directions-none slots pool _ (List.Memᴰ.head {x} {xs} e) missing =
      ends (lookup (storage_key x.address) slots)
        (ap (λ (p : Pool). lookup (storage_key p.address) slots) (sym e) ∙ missing)
    where
      ends :
          (found : Option Diff)
          → found ≡ none
          → Path
              (Option (List SandwichablePool))
              (elim found [
                | none ↦ none
                | some diff ↦ add_pool x diff (directions storage_key slots xs)
              ])
              none
      ends found q = rw q refl
  directions-none slots pool _ (List.Memᴰ.tail {x} {xs} m) missing =
      ends (lookup (storage_key x.address) slots) (directions-none slots pool xs m missing)
    where
      ends :
          (found : Option Diff)
          → directions storage_key slots xs ≡ none
          → Path
              (Option (List SandwichablePool))
              (elim found [
                | none ↦ none
                | some diff ↦ add_pool x diff (directions storage_key slots xs)
              ])
              none
      ends none q = refl
      ends (some diff) q = ap (add_pool x diff) q ∙ add_pool-none x diff

  touched_pools-Memᴰ :
      (all_pools : ℕ → Option Pool) (address : ℕ) (diff : AccountDiff) (pool : Pool)
      (diffs : List (ℕ × AccountDiff))
      → Memᴰ (address, diff) diffs
      → all_pools address ≡ some pool
      → Memᴰ pool (touched_pools all_pools diffs)
  unfolding touched_pools
  touched_pools-Memᴰ all_pools address diff pool _ (List.Memᴰ.head {x} {xs} e) known =
      first (all_pools x.0) (ap (λ (p : ℕ × AccountDiff). all_pools p.0) (sym e) ∙ known)
    where
      first :
          (found : Option Pool)
          → found ≡ some pool
          → Memᴰ pool (elim found [
            | none ↦ touched_pools all_pools xs
            | some other ↦ other ∷ touched_pools all_pools xs
          ])
      first found q = rw q (List.Memᴰ.head refl)
  touched_pools-Memᴰ all_pools address diff pool _ (List.Memᴰ.tail {x} {xs} m) known =
      later (all_pools x.0) (touched_pools-Memᴰ all_pools address diff pool xs m known)
    where
      later :
          (found : Option Pool)
          → Memᴰ pool (touched_pools all_pools xs)
          → Memᴰ pool (elim found [
            | none ↦ touched_pools all_pools xs
            | some other ↦ other ∷ touched_pools all_pools xs
          ])
      later none n = n
      later (some other) n = List.Memᴰ.tail n

-- Where one address of the diffs is a pool whose weth balance is not among the slots in the diff of
-- weth, nothing is returned, though other pools may have been swapped on.
pub extract_pools-none :
    (storage_key : ℕ → ℕ) (state_diffs : List (ℕ × AccountDiff)) (all_pools : ℕ → Option Pool)
    (weth diff : AccountDiff) (address : ℕ) (pool : Pool)
    → lookup weth_address state_diffs ≡ some weth
    → Memᴰ (address, diff) state_diffs
    → all_pools address ≡ some pool
    → lookup (storage_key pool.address) weth.storage ≡ none
    → extract_pools storage_key state_diffs all_pools ≡ none
unfolding extract_pools
extract_pools-none storage_key state_diffs all_pools weth diff address pool has member known
      missing =
    ends (lookup weth_address state_diffs) has
  where
    ends :
        (found : Option AccountDiff)
        → found ≡ some weth
        → Path
            (Option (List SandwichablePool))
            (elim found [
              | none ↦ none
              | some other ↦
                  directions storage_key other.storage (touched_pools all_pools state_diffs)
            ])
            none
    ends found q = rw q (
        directions-none storage_key weth.storage pool (touched_pools all_pools state_diffs)
          (touched_pools-Memᴰ storage_key all_pools address diff pool state_diffs member known)
          missing)
