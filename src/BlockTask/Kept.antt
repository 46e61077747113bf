-- ===== src/BlockTask/Kept.antt =====
-- What a block of the stream keeps, however the task ends.
use Prim.Native.String.{String}
use sando_rs.Base.{
  ℕ, ◌≡◌, ◌⊎◌, inl, inr, refl, sym, ap, ◌∙◌, Bool, true, false, Option, none, some, List, [], ◌∷◌,
  ◌++◌, Checked, val, panic, ltb, Bool-cases, arith,
}
use sando_rs.Block.{
  Block, BlockOracle, find_next_block_info, update_block_number, update_block_timestamp,
  update_base_fee,
}
use sando_rs.Runner.{Bot}
use sando_rs.BlockTask.{
  Shared, Ended, goes, dies, BlockGiven, and_then, update_searcher_nonce, clear_pending,
  update_oracle, request_recovery, recover_weth, get_recover_weth_payload_value, handle_block,
}

module _ {W : Type 0} where
  -- What holds of the state in which the task goes on, and of that in which it panics.
  abbrev pub Ends : (P Q : Shared W → Type 0) → Ended (Shared W) → Type 0
  Ends P Q (goes s) = P s
  Ends P Q (dies s) = Q s

  bind_ends :
      (P Q R : Shared W → Type 0) (e : Ended (Shared W)) (f : Shared W → Ended (Shared W))
      → Ends P Q e
      → ((s : Shared W) → P s → Ends R Q (f s))
      → Ends R Q (and_then e f)
  bind_ends P Q R (goes s) f h k = k s h
  bind_ends P Q R (dies s) f h k = h

  weaken_ends :
      (P P' Q Q' : Shared W → Type 0) (e : Ended (Shared W))
      → ((s : Shared W) → P s → P' s)
      → ((s : Shared W) → Q s → Q' s)
      → Ends P Q e
      → Ends P' Q' e
  weaken_ends P P' Q Q' (goes s) p q h = p s h
  weaken_ends P P' Q Q' (dies s) p q h = q s h

  update_oracle-Ends :
      (s : Shared W) (block : Block)
      → Ends
          (λ t.
            (find_next_block_info block ≡ val t.oracle.next_block)
            × (t.bot ≡ s.bot)
            × (t.waiting ≡ s.waiting))
          (λ t. (t.bot ≡ s.bot) × (t.waiting ≡ s.waiting))
          (update_oracle block s)
  unfolding update_oracle find_next_block_info update_block_number update_block_timestamp
      update_base_fee
  update_oracle-Ends s block = ground arith

  abbrev pub cleared : Bot W → Bot W
  cleared bot = record bot { pending = [] }

  module _ (hex_encode : List ℕ → String) (sandwich_address searcher : ℕ) where
    request :
        (sent : Bool) (s : Shared W) (payload : Checked (List ℕ × ℕ))
        → Ends
            (λ t. (t.oracle ≡ s.oracle) × (t.bot ≡ s.bot) × (t.waiting ≡ s.waiting))
            (λ t. (t.bot ≡ s.bot) × (t.waiting ≡ s.waiting))
            (request_recovery hex_encode sandwich_address searcher sent s payload)
    request sent s panic = (refl, refl)
    request false s (val _) = (refl, refl)
    request true s (val (payload, value)) = (refl, refl, refl)

    recover_weth-Ends :
        (sent : Bool) (s : Shared W)
        → Ends
            (λ t. (t.oracle ≡ s.oracle) × (t.bot ≡ s.bot) × (t.waiting ≡ s.waiting))
            (λ t. (t.bot ≡ s.bot) × (t.waiting ≡ s.waiting))
            (recover_weth hex_encode sandwich_address searcher sent s)
    unfolding recover_weth
    recover_weth-Ends sent s = elim (Bool-cases (ltb 4500000000000000000 s.bot.weth_balance)) [
      | inr e ↦ rw e (refl, refl, refl)
      | inl e ↦ rw e (request sent s (get_recover_weth_payload_value hex_encode 500000000000000000))
    ]

    -- The next block that the oracle then has, where the task goes on, is the prediction from the
    -- block, and the recipes are gone; no bundle is touched.
    abbrev pub GoesOn : (s : Shared W) → Block → Shared W → Type 0
    GoesOn s block t =
        (find_next_block_info block ≡ val t.oracle.next_block)
        × (t.bot ≡ cleared s.bot)
        × (t.waiting ≡ s.waiting ++ block ∷ [])

    -- What is left of the bot and the waiting blocks by a part of the task that panics.
    abbrev Left : Shared W → Shared W → Type 0
    Left c t = (t.bot ≡ c.bot) × (t.waiting ≡ c.waiting)

    abbrev Done : Shared W → Block → Shared W → Type 0
    Done c block v =
        (find_next_block_info block ≡ val v.oracle.next_block)
        × (v.bot ≡ c.bot)
        × (v.waiting ≡ c.waiting ++ block ∷ [])

    recovered-Ends :
        (sent : Bool) (c u : Shared W) (block : Block)
        → find_next_block_info block ≡ val u.oracle.next_block
        → Left c u
        → Ends (Done c block) (Left c) (
            and_then
              (recover_weth hex_encode sandwich_address searcher sent u)
              (λ v. goes (record v { waiting = v.waiting ++ block ∷ [] })))
    recovered-Ends sent c u block found (bot, waiting) =
        bind_ends (λ t. (t.oracle ≡ u.oracle) × Left c t) (Left c) (Done c block)
          (recover_weth hex_encode sandwich_address searcher sent u)
          (λ v. goes (record v { waiting = v.waiting ++ block ∷ [] }))
          (weaken_ends (λ t. (t.oracle ≡ u.oracle) × (t.bot ≡ u.bot) × (t.waiting ≡ u.waiting))
            (λ t. (t.oracle ≡ u.oracle) × Left c t) (λ t. (t.bot ≡ u.bot) × (t.waiting ≡ u.waiting))
            (Left c) (recover_weth hex_encode sandwich_address searcher sent u)
            (λ t (o, b, w). (o, (b ∙ bot, w ∙ waiting))) (λ t (b, w). (b ∙ bot, w ∙ waiting))
            (recover_weth-Ends sent u))
          (λ v (o, (b, w)). (
            found ∙ ap (λ (k : BlockOracle). val k.next_block) (sym o),
            b,
            ap (λ ws. ws ++ block ∷ []) w,
          ))

    updated-Ends :
        (sent : Bool) (c : Shared W) (block : Block)
        → Ends (Done c block) (Left c) (
            and_then (update_oracle block c) (λ u.
              and_then
                (recover_weth hex_encode sandwich_address searcher sent u)
                (λ v. goes (record v { waiting = v.waiting ++ block ∷ [] }))))
    updated-Ends sent c block =
        bind_ends
          (λ t.
            (find_next_block_info block ≡ val t.oracle.next_block)
            × (t.bot ≡ c.bot)
            × (t.waiting ≡ c.waiting))
          (Left c) (Done c block) (update_oracle block c)
          (λ u.
            and_then (recover_weth hex_encode sandwich_address searcher sent u)
              (λ v. goes (record v { waiting = v.waiting ++ block ∷ [] })))
          (update_oracle-Ends c block)
          (λ u (found, bot, waiting). recovered-Ends sent c u block found (bot, waiting))

    abbrev pub Stops : Shared W → Shared W → Type 0
    Stops s t = (t.bot ≡ s.bot ⊎ t.bot ≡ cleared s.bot) × (t.waiting ≡ s.waiting)

    counted-Ends :
        (sent : Bool) (s : Shared W) (block : Block) (count : Option ℕ)
        → Ends (GoesOn s block) (Stops s) (
            and_then (update_searcher_nonce count s) (λ t.
              and_then (update_oracle block (clear_pending t)) (λ u.
                and_then
                  (recover_weth hex_encode sandwich_address searcher sent u)
                  (λ v. goes (record v { waiting = v.waiting ++ block ∷ [] })))))
    unfolding update_searcher_nonce clear_pending
    counted-Ends sent s block none = (inl refl, refl)
    counted-Ends sent s block (some n) =
        let c = clear_pending (record s { nonce = n }) in
        weaken_ends (Done c block) (GoesOn s block) (Left c) (Stops s)
          (and_then (update_oracle block c) (λ u.
            and_then (recover_weth hex_encode sandwich_address searcher sent u)
              (λ v. goes (record v { waiting = v.waiting ++ block ∷ [] }))))
          (λ t h. h) (λ t (b, w). (inr b, w)) (updated-Ends sent c block)

    pub handle_block-Ends :
        (given : BlockGiven) (block : Block) (s : Shared W)
        → Ends
            (GoesOn s block)
            (Stops s)
            (handle_block hex_encode sandwich_address searcher given block s)
    unfolding handle_block
    handle_block-Ends given block s = counted-Ends given.sent s block given.transaction_count
