-- ===== src/PoolSync/Missed.antt =====
-- The pools that the bot does not come to know.
use mathlib.Core.List as List
use mathlib.Core.List.{Memᴰ}
use mathlib.Core.List.Memᴰ
use sando_rs.Base.{
  ℕ, zero, suc, ◌+◌, ◌-◌, ◌/◌, ◌^◌, ◌≤◌, ◌<◌, ◌≡◌, ◌≢◌, inl, inr, refl, ◌∙◌, Option, none, some,
  List, [], ◌∷◌, ◌++◌, length, val, arith,
}
use sando_rs.Pool.{Pool, pool_created_event_signature}
use sando_rs.StateDiff.{lookup}
use sando_rs.Backend.Inv.{Option-cases}
use sando_rs.Exchange.{asked, Dex, step, new_pool_from_event, pools_of}
use sando_rs.Exchange.Found.{all_pools, pools_between}
use sando_rs.Exchange.Synced.{synced}
use sando_rs.PoolSync.{PoolSync, insert_pools, connect, sync_blocks}
use sando_rs.PoolSync.Map.{lookup-insert_pool_other}
use sando_rs.PoolSync.Known.{Rising, Rising-le, get_logs, caught_up, sync_block-cases}

-- No pool of the list has the address.
abbrev Apart : ℕ → List Pool → Type 0
Apart address [] = Unit
Apart address (pool ∷ pools) = (address ≢ pool.address) × Apart address pools

Apart-append :
    (address : ℕ) (ps qs : List Pool)
    → Apart address ps
    → Apart address qs
    → Apart address (ps ++ qs)
Apart-append address [] qs h k = k
Apart-append address (_ ∷ ps) qs (ne, h) k = (ne, Apart-append address ps qs h k)

lookup-insert_pools-Apart :
    (address : ℕ) (pools : List Pool) (map : List (ℕ × Pool))
    → Apart address pools
    → lookup address (insert_pools pools map) ≡ lookup address map
unfolding insert_pools
lookup-insert_pools-Apart address [] map h = refl
lookup-insert_pools-Apart address (pool ∷ pools) map (ne, h) =
    lookup-insert_pools-Apart address pools _ h ∙ lookup-insert_pool_other pool address map ne

module _ {Log : Type 0} (E : Type 0) (decode_v2 : Log → Option (ℕ × ℕ × ℕ))
    (decode_v3 : Log → Option (ℕ × ℕ × ℕ × ℕ))
    (logs : (topic0 address from_block to_block : ℕ) → List Log) (address : ℕ) where
  -- No event of the logs makes a pool at the address.
  abbrev Unmade : Dex → List Log → Type 0
  Unmade dex events =
      (log : Log) (pool : Pool)
      → Memᴰ log events
      → new_pool_from_event decode_v2 decode_v3 dex log ≡ some pool
      → address ≢ pool.address

  -- The same of the factory's events of the exchange's kind, in every range from a block on.
  abbrev pub UnmadeFrom : (block_number : ℕ) → Dex → Type 0
  UnmadeFrom block_number dex =
      (f t : ℕ)
      → block_number ≤ f
      → Unmade dex (logs (pool_created_event_signature dex.pool_variant) dex.factory_address f t)

  pools_of-Apart :
      (dex : Dex) (events : List Log)
      → Unmade dex events
      → Apart address (pools_of decode_v2 decode_v3 dex events)
  unfolding pools_of
  pools_of-Apart dex [] h = tt
  pools_of-Apart dex (log ∷ events) h =
      let rest = pools_of-Apart dex events (λ other pool m. h other pool (List.Memᴰ.tail m)) in
      elim (Option-cases (new_pool_from_event decode_v2 decode_v3 dex log)) [
        | inl e ↦ rw (e, pools_of) rest
        | inr (pool, e) ↦ rw (e, pools_of) (h log pool (List.Memᴰ.head refl) e, rest)
      ]

  all_pools-Apart :
      (block_number : ℕ) (dex : Dex) (from left : ℕ)
      → UnmadeFrom block_number dex
      → block_number ≤ from
      → Apart address (all_pools decode_v2 decode_v3 logs dex from left)
  unfolding all_pools
  all_pools-Apart block_number dex from zero h after = tt
  all_pools-Apart block_number dex from (suc left) h after =
      Apart-append address _ _
        (pools_of-Apart dex (asked logs dex from (from + step)) (h from (from + step) after))
        (all_pools-Apart block_number dex (from + step) left h (omega (arith, after)))

  synced-Apart :
      (block_number : ℕ) (dexes : List Dex) (latest first : ℕ)
      → ((dex : Dex) → Memᴰ dex dexes → UnmadeFrom block_number dex)
      → block_number ≤ first
      → Apart address (synced decode_v2 decode_v3 logs dexes latest (some first))
  unfolding synced pools_between
  synced-Apart block_number [] latest first h after = tt
  synced-Apart block_number (dex ∷ dexes) latest first h after =
      Apart-append address _ _
        (all_pools-Apart block_number dex first (suc ((latest - first) / step))
          (h dex (List.Memᴰ.head refl)) after)
        (synced-Apart block_number dexes latest first (λ other m. h other (List.Memᴰ.tail m)) after)

  module _ (exchanges : List Dex) (block_number interval : ℕ)
      (unmade : (dex : Dex) → Memᴰ dex exchanges → UnmadeFrom block_number dex) where
    sync_blocks-lookup :
        (numbers : List (Option ℕ)) (s : PoolSync)
        → s.counter + length numbers < 2 ^ 64
        → block_number ≤ s.current_block_num
        → Rising s.current_block_num numbers
        → (t : PoolSync) × (sync_blocks decode_v2 decode_v3
              (get_logs E decode_v2 decode_v3 logs exchanges)
              exchanges
              interval
              s
              numbers
            ≡ val t)
          × (lookup address t.all_pools ≡ lookup address s.all_pools)
    unfolding sync_blocks
    sync_blocks-lookup [] s small late rising = (s, refl, refl)
    sync_blocks-lookup (none ∷ numbers) s small late rising = absurd rising
    sync_blocks-lookup (some number ∷ numbers) s small late (after, room, rising) =
        elim (sync_block-cases E decode_v2 decode_v3 logs exchanges interval s number
          (omega (arith, small)) after room) [
            | inl e ↦
                let counted = Rising-le s.current_block_num number numbers after rising in
                let (t, q, same) =
                  sync_blocks-lookup numbers (record s { counter = s.counter + 1 })
                    (omega (arith, small)) late counted in
                (t, rw (e, sync_blocks) q, same)
            | inr e ↦
                let u = caught_up E decode_v2 decode_v3 logs exchanges s number in
                let pools =
                  synced decode_v2 decode_v3 logs exchanges number (some s.current_block_num) in
                let (t, q, same) =
                  sync_blocks-lookup numbers u (omega (arith, small)) (omega (arith, late, after))
                    rising in
                (
                  t,
                  rw (e, sync_blocks) q,
                  same
                      ∙ lookup-insert_pools-Apart address pools s.all_pools (
                          synced-Apart block_number exchanges number s.current_block_num unmade
                            late),
                )
          ]

    -- Where no event that the provider gives for the ranges from the block of a connection on, asked
    -- for the factory and the topic of an exchange, makes a pool at an address, a stream of blocks
    -- that do not fall leaves the entry of the map at the address as it was when the task connected,
    -- with no panic: a pool that was made before and is not in the map is not found.
    pub sync_blocks-missed :
        (map : List (ℕ × Pool)) (numbers : List (Option ℕ))
        → length numbers < 2 ^ 64
        → Rising block_number numbers
        → (t : PoolSync) × (sync_blocks decode_v2 decode_v3
              (get_logs E decode_v2 decode_v3 logs exchanges)
              exchanges
              interval
              (connect map block_number)
              numbers
            ≡ val t)
          × (lookup address t.all_pools ≡ lookup address map)
    unfolding connect
    sync_blocks-missed map numbers small rising =
        sync_blocks-lookup numbers (connect map block_number) (omega (arith, small)) (omega arith)
          rising
