-- ===== src/PoolSync/Known.antt =====
-- The pools that the bot knows.
use mathlib.Core.List.{Memᴰ}
use mathlib.Core.List.Memᴰ
use sando_rs.Base.{
  ℕ, ◌+◌, ◌^◌, ◌≤◌, ◌<◌, ◌≡◌, ◌⊎◌, inl, inr, refl, Option, none, some, List, [], ◌∷◌, ◌++◌, length,
  val, Result, ok, fit-val, ◌==◌, ltb, ltb→lt, ltb→le, Bool-cases, arith,
}
use sando_rs.Pool.{Pool, pool_created_event_signature}
use sando_rs.Exchange.{Dex, step, first_block, new_pool_from_event}
use sando_rs.Exchange.Synced.{AllStarted, synced, sync_dex-synced, synced-Memᴰ}
use sando_rs.PoolSync.Map.{Present, insert_pools-Present, insert_pools-Memᴰ}
use sando_rs.PoolSync.{
  PoolSync, AllPoolsInfo, start_block_of, pools_from_file, insert_pools, pool_map, connect,
  initial_pools, add_new_pools, sync_block, sync_blocks,
}

-- The numbers of the blocks are there and do not fall, and leave room for one range more in 64 bits.
abbrev pub Rising : (from : ℕ) → List (Option ℕ) → Type 0
Rising from [] = Unit
Rising from (none ∷ numbers) = ⊥
Rising from (some number ∷ numbers) =
    (from ≤ number) × (number + step < 2 ^ 64) × Rising number numbers

pub Rising-le :
    (from to : ℕ) (numbers : List (Option ℕ)) → from ≤ to → Rising to numbers → Rising from numbers
Rising-le from to [] h r = tt
Rising-le from to (none ∷ numbers) h r = r
Rising-le from to (some number ∷ numbers) h (after, room, rising) =
    (omega (arith, h, after), room, rising)

module _ {Log : Type 0} (E : Type 0) (decode_v2 : Log → Option (ℕ × ℕ × ℕ))
    (decode_v3 : Log → Option (ℕ × ℕ × ℕ × ℕ))
    (logs : (topic0 address from_block to_block : ℕ) → List Log) (exchanges : List Dex) where
  abbrev pub get_logs : (topic0 address from_block to_block : ℕ) → Result (List Log) E
  get_logs topic0 address from_block to_block = ok (logs topic0 address from_block to_block)

  all_started :
      (dexes : List Dex) (first latest : ℕ)
      → first ≤ latest
      → AllStarted decode_v2 decode_v3 logs dexes latest (some first)
  all_started [] first latest h = tt
  all_started (_ ∷ dexes) first latest h = (h, all_started dexes first latest h)

  -- The state after pools have been asked for up to a block.
  abbrev pub caught_up : PoolSync → (latest : ℕ) → PoolSync
  caught_up s latest = record {
    counter = 0;
    current_block_num = latest;
    all_pools =
        insert_pools (synced decode_v2 decode_v3 logs exchanges latest (some s.current_block_num))
          s.all_pools;
  }

  pub add_new_pools-caught_up :
      (s : PoolSync) (latest : ℕ)
      → s.current_block_num ≤ latest
      → latest + step < 2 ^ 64
      → add_new_pools decode_v2 decode_v3 get_logs exchanges s (some latest)
        ≡ val (caught_up s latest)
  unfolding add_new_pools
  add_new_pools-caught_up s latest after room =
      rw
        (
          sync_dex-synced decode_v2 decode_v3 logs {E = E} exchanges latest
              (some s.current_block_num) (all_started exchanges s.current_block_num latest after)
              room,
          add_new_pools,
        )
        refl

  -- What a block does: it is counted, or the pools are asked for.
  pub sync_block-cases :
      (interval : ℕ) (s : PoolSync) (number : ℕ)
      → s.counter + 1 < 2 ^ 64
      → s.current_block_num ≤ number
      → number + step < 2 ^ 64
      → (sync_block decode_v2 decode_v3 get_logs exchanges interval s (some number)
          ≡ val (record s { counter = s.counter + 1 }))
        ⊎ (sync_block decode_v2 decode_v3 get_logs exchanges interval s (some number)
            ≡ val (caught_up s number))
  unfolding sync_block
  sync_block-cases interval s number small after room =
      elim (Bool-cases (s.counter + 1 == interval)) [
        | inl e ↦ inr (
            rw (fit-val (2 ^ 64) (s.counter + 1) small, e)
              (add_new_pools-caught_up s number after room))
        | inr e ↦ inl (rw (fit-val (2 ^ 64) (s.counter + 1) small, e) refl)
      ]

  -- An event that makes a pool, in the answers to a request for the factory's events of the
  -- exchange's kind.
  module _ (dex : Dex) (listed : Memᴰ dex exchanges) (log : Log) (pool : Pool) (block : ℕ)
      (made : new_pool_from_event decode_v2 decode_v3 dex log ≡ some pool)
      (answers : (f t : ℕ)
        → f ≤ block
        → block ≤ t
        → Memᴰ log
            (logs (pool_created_event_signature dex.pool_variant) dex.factory_address f t)) where
    caught_up-Present :
        (s : PoolSync) (latest : ℕ)
        → s.current_block_num ≤ block
        → block ≤ latest
        → Present pool.address (caught_up s latest).all_pools
    caught_up-Present s latest after before =
        insert_pools-Memᴰ pool
          (synced decode_v2 decode_v3 logs exchanges latest (some s.current_block_num)) s.all_pools
          (synced-Memᴰ decode_v2 decode_v3 logs dex exchanges log pool block latest
            (some s.current_block_num) listed made answers after before)

    -- The pool is known, or its block is still to be asked for.
    abbrev Pending : PoolSync → Type 0
    Pending s = Present pool.address s.all_pools ⊎ (s.current_block_num ≤ block)

    settle :
        (s : PoolSync) → Pending s → block < s.current_block_num → Present pool.address s.all_pools
    settle s (inl h) small = h
    settle s (inr h) small = absurd (omega (arith, h, small))

    caught_up-Pending : (s : PoolSync) (latest : ℕ) → Pending s → Pending (caught_up s latest)
    caught_up-Pending s latest (inl h) = inl (
        insert_pools-Present
          (synced decode_v2 decode_v3 logs exchanges latest (some s.current_block_num)) pool.address
          s.all_pools h)
    caught_up-Pending s latest (inr h) = elim (Bool-cases (ltb latest block)) [
      | inl later ↦ inr (omega (arith, ltb→lt latest block later))
      | inr reached ↦ inl (caught_up-Present s latest h (ltb→le latest block reached))
    ]

    -- What a run keeps.
    abbrev Advances : (s t : PoolSync) → Type 0
    Advances s t =
        (Present pool.address s.all_pools → Present pool.address t.all_pools)
        × (Pending s → Pending t)

    sync_blocks-Advances :
        (interval : ℕ) (numbers : List (Option ℕ)) (s : PoolSync)
        → s.counter + length numbers < 2 ^ 64
        → Rising s.current_block_num numbers
        → (t : PoolSync) × (sync_blocks decode_v2 decode_v3 get_logs exchanges interval s numbers
            ≡ val t)
          × Advances s t
    unfolding sync_blocks
    sync_blocks-Advances interval [] s small rising = (s, refl, (λ h. h, λ h. h))
    sync_blocks-Advances interval (none ∷ numbers) s small rising = absurd rising
    sync_blocks-Advances interval (some number ∷ numbers) s small (after, room, rising) =
        elim (sync_block-cases interval s number (omega (arith, small)) after room) [
          | inl e ↦
              let counted = Rising-le s.current_block_num number numbers after rising in
              let (t, q, (kept, pending)) =
                sync_blocks-Advances interval numbers (record s { counter = s.counter + 1 })
                  (omega (arith, small)) counted in
              (t, rw (e, sync_blocks) q, (kept, pending))
          | inr e ↦
              let pools =
                synced decode_v2 decode_v3 logs exchanges number (some s.current_block_num) in
              let (t, q, (kept, pending)) =
                sync_blocks-Advances interval numbers (caught_up s number) (omega (arith, small))
                  rising in
              (
                t,
                rw (e, sync_blocks) q,
                (
                  λ h. kept (insert_pools-Present pools pool.address s.all_pools h),
                  λ h. pending (caught_up-Pending s number h),
                ),
              )
        ]

    -- What `main` starts with.
    abbrev started_with : Option AllPoolsInfo → (current_block : ℕ) → AllPoolsInfo
    started_with file current_block = record {
      last_block_number = current_block;
      pools =
          pools_from_file file
          ++ synced decode_v2 decode_v3 logs exchanges current_block (start_block_of file);
    }

    initial_pools-started_with :
        (file : Option AllPoolsInfo) (current_block : ℕ)
        → AllStarted decode_v2 decode_v3 logs exchanges current_block (start_block_of file)
        → current_block + step < 2 ^ 64
        → initial_pools decode_v2 decode_v3 get_logs exchanges file current_block
          ≡ val (started_with file current_block)
    unfolding initial_pools
    initial_pools-started_with file current_block started room =
        rw
          (
            sync_dex-synced decode_v2 decode_v3 logs {E = E} exchanges current_block
                (start_block_of file) started room,
            initial_pools,
          )
          refl

    started_with-Present :
        (file : Option AllPoolsInfo) (current_block : ℕ)
        → first_block dex (start_block_of file) ≤ block
        → block ≤ current_block
        → Present pool.address (pool_map (started_with file current_block).pools)
    unfolding pool_map
    started_with-Present file current_block after before =
        insert_pools-Memᴰ pool (started_with file current_block).pools [] (
          Memᴰ.append_right (pools_from_file file) (
            synced-Memᴰ decode_v2 decode_v3 logs dex exchanges log pool block current_block
              (start_block_of file) listed made answers after before))

    -- Where no exchange starts after the current block, `main` starts with pools and a stream of
    -- blocks that do not fall is worked through with no panic; then the bot knows each pool made by
    -- an event that the provider gives for every range with its block, asked for the factory of its
    -- exchange and the topic of the exchange's kind, if the block is from the first of the exchange,
    -- or that of the file, up to the block at which the bot was started, or from the block at which
    -- the task connected up to before the last that it asked for.
    pub sync_blocks-Present :
        (file : Option AllPoolsInfo) (current_block block_number interval : ℕ)
        (numbers : List (Option ℕ))
        → AllStarted decode_v2 decode_v3 logs exchanges current_block (start_block_of file)
        → current_block + step < 2 ^ 64
        → first_block dex (start_block_of file) ≤ block
        → length numbers < 2 ^ 64
        → Rising block_number numbers
        → (info : AllPoolsInfo) × (initial_pools decode_v2 decode_v3 get_logs exchanges file
              current_block
            ≡ val info)
          × ((t : PoolSync) × (sync_blocks decode_v2 decode_v3 get_logs exchanges interval
                  (connect (pool_map info.pools) block_number)
                  numbers
                ≡ val t)
              × ((block ≤ current_block) ⊎ ((block_number ≤ block) × (block < t.current_block_num))
                  → Present pool.address t.all_pools))
    unfolding connect
    sync_blocks-Present file current_block block_number interval numbers started room first small
          rising =
        let info = started_with file current_block in
        let s = connect (pool_map info.pools) block_number in
        let (t, e, (kept, pending)) =
          sync_blocks-Advances interval numbers s (omega (arith, small)) rising in
        (
          info,
          initial_pools-started_with file current_block started room,
          (
            t,
            e,
            λ reached. elim reached [
              | inl before ↦ kept (started_with-Present file current_block first before)
              | inr (after, before) ↦ settle t (pending (inr after)) before
            ],
          ),
        )
