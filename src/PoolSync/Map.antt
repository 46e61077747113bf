-- ===== src/PoolSync/Map.antt =====
-- The map of the pools, with a pool put in.
use mathlib.Core.List as List
use mathlib.Core.List.{Memᴰ}
use mathlib.Core.List.Memᴰ
use sando_rs.Base.{
  ℕ, ◌≡◌, ◌≢◌, inl, inr, refl, ap, ◌∙◌, some, List, [], ◌∷◌, ◌==◌, ==_iff, Bool-cases, arith,
}
use sando_rs.Pool.{Pool}
use sando_rs.StateDiff.{lookup}
use sando_rs.StateDiff.Cache.Slots.{eq_or_ne}
use sando_rs.PoolSync.{insert_pool, insert_pools}

-- The map has a pool at the address.
abbrev pub Present : ℕ → List (ℕ × Pool) → Type 0
Present address map = (pool : Pool) × (lookup address map ≡ some pool)

lookup-insert_pool_self :
    (pool : Pool) (map : List (ℕ × Pool)) → lookup pool.address (insert_pool pool map) ≡ some pool
unfolding lookup insert_pool
lookup-insert_pool_self pool [] = rw ((==_iff pool.address pool.address).1 refl) refl
lookup-insert_pool_self pool ((other, old) ∷ entries) = elim (Bool-cases (pool.address == other)) [
  | inl e ↦ rw (e, e) refl
  | inr e ↦ rw (e, e) (lookup-insert_pool_self pool entries)
]

pub lookup-insert_pool_other :
    (pool : Pool) (address : ℕ) (map : List (ℕ × Pool))
    → address ≢ pool.address
    → lookup address (insert_pool pool map) ≡ lookup address map
unfolding lookup insert_pool
lookup-insert_pool_other pool address [] ne = ground arith
lookup-insert_pool_other pool address ((other, old) ∷ entries) ne =
    ground (arith, lookup-insert_pool_other pool address entries ne)

insert_pool-Present :
    (pool : Pool) (address : ℕ) (map : List (ℕ × Pool))
    → Present address map
    → Present address (insert_pool pool map)
insert_pool-Present pool address map (found, e) = elim (eq_or_ne address pool.address) [
  | inl (_, same) ↦
      (pool, ap (λ a. lookup a (insert_pool pool map)) same ∙ lookup-insert_pool_self pool map)
  | inr (_, ne) ↦ (found, lookup-insert_pool_other pool address map ne ∙ e)
]

pub insert_pools-Present :
    (pools : List Pool) (address : ℕ) (map : List (ℕ × Pool))
    → Present address map
    → Present address (insert_pools pools map)
unfolding insert_pools
insert_pools-Present [] address map h = h
insert_pools-Present (pool ∷ pools) address map h =
    insert_pools-Present pools address (insert_pool pool map)
      (insert_pool-Present pool address map h)

pub insert_pools-Memᴰ :
    (pool : Pool) (pools : List Pool) (map : List (ℕ × Pool))
    → Memᴰ pool pools
    → Present pool.address (insert_pools pools map)
unfolding insert_pools
insert_pools-Memᴰ pool _ map (List.Memᴰ.head {x} {xs} e) =
    insert_pools-Present xs pool.address (insert_pool x map)
      (x, ap (λ p. lookup p.address (insert_pool x map)) e ∙ lookup-insert_pool_self x map)
insert_pools-Memᴰ pool _ map (List.Memᴰ.tail {x} {xs} m) =
    insert_pools-Memᴰ pool xs (insert_pool x map) m
