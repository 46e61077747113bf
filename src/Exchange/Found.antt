-- ===== src/Exchange/Found.antt =====
-- No pool between the first and the current block is missed.
use mathlib.Core.List as List
use mathlib.Core.List.{Memᴰ}
use mathlib.Core.List.Memᴰ
use sando_rs.Base.{
  ℕ, zero, suc, ◌+◌, ◌-◌, ◌*◌, ◌/◌, ◌^◌, ◌≤◌, ◌<◌, ◌≡◌, inl, inr, refl, sym, ap, ◌∙◌, Option, some,
  none, List, [], ◌∷◌, ◌++◌, val, Result, ok, fit-val, ltb, ltb→lt, ltb→le, le→ltb, Bool-cases,
  arith, false,
}
use sando_rs.Pool.{Pool}
use sando_rs.Exchange.{
  asked, Dex, step, first_block, from_blocks, joined, new_pool_from_event, pools_of, range_pools,
  aggregate, get_all_pools,
}

keep :
    {pool : Pool} (found : Option Pool) (rest : List Pool)
    → Memᴰ pool rest
    → Memᴰ pool (elim found [ some other ↦ other ∷ rest | none ↦ rest ])
keep none rest m = m
keep (some other) rest m = List.Memᴰ.tail m

keep_first :
    {pool : Pool} (found : Option Pool) (rest : List Pool)
    → found ≡ some pool
    → Memᴰ pool (elim found [ some other ↦ other ∷ rest | none ↦ rest ])
keep_first found rest e = rw e (List.Memᴰ.head refl)

module _ {Log : Type 0} (decode_v2 : Log → Option (ℕ × ℕ × ℕ))
    (decode_v3 : Log → Option (ℕ × ℕ × ℕ × ℕ))
    (logs : (topic0 address from_block to_block : ℕ) → List Log) (dex : Dex) where
  abbrev pub answer : {E : Type 0} → ℕ → ℕ → ℕ → ℕ → Result (List Log) E
  answer topic0 address from_block to_block = ok (logs topic0 address from_block to_block)

  pools_of-Memᴰ :
      (log : Log) (pool : Pool) (events : List Log)
      → new_pool_from_event decode_v2 decode_v3 dex log ≡ some pool
      → Memᴰ log events
      → Memᴰ pool (pools_of decode_v2 decode_v3 dex events)
  unfolding pools_of
  pools_of-Memᴰ log pool _ made (List.Memᴰ.head {x} {xs} e) =
      keep_first (new_pool_from_event decode_v2 decode_v3 dex x)
        (pools_of decode_v2 decode_v3 dex xs)
        (ap (new_pool_from_event decode_v2 decode_v3 dex) (sym e) ∙ made)
  pools_of-Memᴰ log pool _ made (List.Memᴰ.tail {x} {xs} m) =
      keep (new_pool_from_event decode_v2 decode_v3 dex x) (pools_of decode_v2 decode_v3 dex xs)
        (pools_of-Memᴰ log pool xs made m)

  range_pools-ok :
      {E : Type 0} (from : ℕ)
      → from + step < 2 ^ 64
      → joined (range_pools decode_v2 decode_v3 (answer {E = E}) dex from)
        ≡ ok (pools_of decode_v2 decode_v3 dex (asked logs dex from (from + step)))
  unfolding joined range_pools
  range_pools-ok from room = rw (fit-val (2 ^ 64) (from + step) room) refl

  -- The pools of `left` ranges from `from` on.
  unfoldable pub all_pools : (from left : ℕ) → List Pool
  all_pools from zero = []
  all_pools from (suc left) =
      pools_of decode_v2 decode_v3 dex (asked logs dex from (from + step))
      ++ all_pools (from + step) left

  aggregate-ok :
      {E : Type 0} (from left : ℕ)
      → from + step * left < 2 ^ 64
      → aggregate decode_v2 decode_v3 (answer {E = E}) dex (from_blocks from left)
        ≡ ok (all_pools from left)
  unfolding aggregate from_blocks all_pools
  aggregate-ok {E} from zero room = refl
  aggregate-ok {E} from (suc left) room =
      rw
        (
          range_pools-ok {E = E} from (omega (arith, room)),
          aggregate-ok {E = E} (from + step) left (omega (arith, room)),
        )
        refl

  all_pools-Memᴰ :
      (log : Log) (pool : Pool) (block from left : ℕ)
      → new_pool_from_event decode_v2 decode_v3 dex log ≡ some pool
      → ((f t : ℕ) → f ≤ block → block ≤ t → Memᴰ log (asked logs dex f t))
      → from ≤ block
      → block < from + step * left
      → Memᴰ pool (all_pools from left)
  unfolding all_pools
  all_pools-Memᴰ log pool block from zero made answers after before =
      absurd (omega (arith, after, before))
  all_pools-Memᴰ log pool block from (suc left) made answers after before =
      elim (Bool-cases (ltb block (from + step))) [
        | inl here ↦ Memᴰ.append_left (all_pools (from + step) left) (
            pools_of-Memᴰ log pool (asked logs dex from (from + step)) made
              (answers from (from + step) after (omega (arith, ltb→lt block (from + step) here))))
        | inr later ↦
            Memᴰ.append_right (pools_of decode_v2 decode_v3 dex (asked logs dex from (from + step)))
              (all_pools-Memᴰ log pool block (from + step) left made answers
                (ltb→le block (from + step) later) (omega (arith, before)))
      ]

  -- The pools of the ranges from the block `first` to the current one.
  unfoldable pub pools_between : (first current_block : ℕ) → List Pool
  pools_between first current_block = all_pools first (suc ((current_block - first) / step))

  pub get_all_pools-between :
      {E : Type 0} (current_block : ℕ) (start_block : Option ℕ)
      → first_block dex start_block ≤ current_block
      → current_block + step < 2 ^ 64
      → get_all_pools decode_v2 decode_v3 (answer {E = E}) dex current_block start_block
        ≡ val (ok (pools_between (first_block dex start_block) current_block))
  unfolding get_all_pools pools_between
  get_all_pools-between {E} current_block start_block after room =
      let first = first_block dex start_block in
      let left = suc ((current_block - first) / step) in
      let ordered : ltb current_block first ≡ false = le→ltb after in
      rw (ordered, aggregate-ok {E = E} first left (omega (arith, room, after))) refl

  pub pools_between-Memᴰ :
      (log : Log) (pool : Pool) (block first current_block : ℕ)
      → new_pool_from_event decode_v2 decode_v3 dex log ≡ some pool
      → ((f t : ℕ) → f ≤ block → block ≤ t → Memᴰ log (asked logs dex f t))
      → first ≤ block
      → block ≤ current_block
      → Memᴰ pool (pools_between first current_block)
  unfolding pools_between
  pools_between-Memᴰ log pool block first current_block made answers after before =
      all_pools-Memᴰ log pool block first (suc ((current_block - first) / step)) made answers after
        (omega (arith, after, before))

-- Where the provider answers every request with logs, and the logs of the exchange's factory in every
-- range that holds the block of an event have the event, an event from which a pool is made puts that pool in the
-- result, if its block is between the first and the current one, and the current block leaves room
-- for one more range in 64 bits.
get_all_pools-Memᴰ :
    {Log E : Type 0} (decode_v2 : Log → Option (ℕ × ℕ × ℕ))
    (decode_v3 : Log → Option (ℕ × ℕ × ℕ × ℕ))
    (logs : (topic0 address from_block to_block : ℕ) → List Log) (dex : Dex) (current_block : ℕ)
    (start_block : Option ℕ) (log : Log) (pool : Pool) (block : ℕ)
    → ((f t : ℕ) → f ≤ block → block ≤ t → Memᴰ log (asked logs dex f t))
    → new_pool_from_event decode_v2 decode_v3 dex log ≡ some pool
    → first_block dex start_block ≤ block
    → block ≤ current_block
    → current_block + step < 2 ^ 64
    → (pools : List Pool) × (get_all_pools {E = E} decode_v2 decode_v3
          (λ topic0 address f t. ok (logs topic0 address f t))
          dex
          current_block
          start_block
        ≡ val (ok pools))
      × Memᴰ pool pools
get_all_pools-Memᴰ {E} decode_v2 decode_v3 logs dex current_block start_block log pool block answers
      made after before room =
    let first = first_block dex start_block in
    (
      pools_between decode_v2 decode_v3 logs dex first current_block,
      get_all_pools-between decode_v2 decode_v3 logs dex {E = E} current_block start_block
          (omega (arith, after, before)) room,
      pools_between-Memᴰ decode_v2 decode_v3 logs dex log pool block first current_block made
          answers after before,
    )
