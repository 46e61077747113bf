-- ===== src/System/Invariant.antt =====
-- What holds of the tasks together, in whatever order they go on.
use Prim.Native.String.{String}
use mathlib.Core.Path.{subst}
use mathlib.Core.List as List
use mathlib.Core.List.{Memᴰ}
use sando_rs.Base.{ℕ, ◌≡◌, inr, refl, sym, ap, ◌∙◌, List, [], ◌∷◌, ◌++◌}
use sando_rs.Block.{Block, BlockOracle}
use sando_rs.CacheDb.{CacheDb}
use sando_rs.Simulate.{Machine}
use sando_rs.Simulate.Legs.{SandwichMaker}
use sando_rs.Runner.{Bot}
use sando_rs.Runner.Pending.{PendingEarn}
use sando_rs.Runner.Earning.{handle_pool-PendingEarn}
use sando_rs.Runner.Aimed.{AllAimed, AllAimed-append, make_mega_sandwich-Aimed, handle_pool-Aimed}
use sando_rs.BlockTask.{Shared, goes, dies, BlockGiven, handle_block}
use sando_rs.BlockTask.Kept.{Ends, GoesOn, Stops, handle_block-Ends}
use sando_rs.System.{PoolTask, System, spawn, finished, initial, Step, Reach}
use sando_rs.System as System
use sando_rs.System.Every.{Every, Every-append, Every-without, Every-weaken}
use sando_rs.System.Inv.{
  val_same, Due, Due-cons, kept_pending, kept_bundles, Begun, Held, Inv, spawn-Begun, after_block,
}

module _ {m : Machine} {cache : CacheDb} {W : Type 0} where
  module _ (storage_key : ℕ → ℕ) (maker : SandwichMaker) (hex_encode : List ℕ → String)
      (sandwich_address searcher : ℕ) where
    block-Inv :
        (s : System m cache W) (given : BlockGiven) (b : Block) (t : Shared W)
        → handle_block hex_encode sandwich_address searcher given b s.shared ≡ goes t
        → Inv s
        → Inv (record s { shared = t; seen = t.oracle.next_block ∷ s.seen })
    block-Inv s given b t e h =
        let (found, bot, waiting) =
          subst
            (Ends (GoesOn hex_encode sandwich_address searcher s.shared b)
              (Stops hex_encode sandwich_address searcher s.shared))
            e (handle_block-Ends hex_encode sandwich_address searcher given b s.shared) in
        let seen = t.oracle.next_block ∷ s.seen in
        after_block s t h (inr (ap (λ (k : Bot W). k.pending) bot))
          (ap (λ (k : Bot W). k.bundles) bot)
          (subst (Every (Due seen)) (sym waiting) (
            Every-append (Due seen) s.shared.waiting (b ∷ [])
              (Every-weaken (Due s.seen) (Due seen) s.shared.waiting
                (Due-cons t.oracle.next_block s.seen) h.due)
              ((t.oracle.next_block, found, List.Memᴰ.head refl), tt)))

    block_dies-Inv :
        (s : System m cache W) (given : BlockGiven) (b : Block) (t : Shared W)
        → handle_block hex_encode sandwich_address searcher given b s.shared ≡ dies t
        → Inv s
        → Inv (record s { shared = t; seen = t.oracle.next_block ∷ s.seen })
    block_dies-Inv s given b t e h =
        let (bot, waiting) =
          subst
            (Ends (GoesOn hex_encode sandwich_address searcher s.shared b)
              (Stops hex_encode sandwich_address searcher s.shared))
            e (handle_block-Ends hex_encode sandwich_address searcher given b s.shared) in
        let seen = t.oracle.next_block ∷ s.seen in
        after_block s t h (kept_pending s.shared.bot t.bot bot)
          (kept_bundles s.shared.bot t.bot bot)
          (subst (Every (Due seen)) (sym waiting) (
            Every-weaken (Due s.seen) (Due seen) s.shared.waiting
              (Due-cons t.oracle.next_block s.seen) h.due))

    pool-Inv :
        (s : System m cache W) (before after : List (PoolTask m cache W))
        (task : PoolTask m cache W)
        → s.tasks ≡ before ++ task ∷ after
        → Inv s
        → Inv (record s {
          shared = finished storage_key maker hex_encode sandwich_address searcher task s.shared;
          tasks = before ++ after;
        })
    pool-Inv s before after task e h =
        let (listed, rest) =
          Every-without (Begun s.seen) before after task (subst (Every (Begun s.seen)) e h.begun) in
        record {
          earning =
              handle_pool-PendingEarn storage_key task.all_pools maker task.given task.victim_tx
                task.diffs task.evm task.sandwich_balance task.sandwichable s.shared.bot h.earning;
          aimed =
              handle_pool-Aimed m storage_key task.all_pools maker s.seen task.given task.victim_tx
                task.diffs task.evm task.sandwich_balance task.sandwichable s.shared.bot listed
                h.aimed;
          asked = h.asked;
          held = h.held;
          begun = rest;
          due = h.due;
        }

    step-Inv :
        {s t : System m cache W}
        → Step storage_key maker hex_encode sandwich_address searcher s t
        → Inv s
        → Inv t
    step-Inv (System.Step.block s given b t e) h = block-Inv s given b t e h
    step-Inv (System.Step.block_dies s given b t e) h = block_dies-Inv s given b t e h
    step-Inv (System.Step.arrives s given victim_tx now _) h = record {
      earning = h.earning;
      aimed = h.aimed;
      asked = h.asked;
      held = subst (λ n. Memᴰ n s.seen) (sym now) h.asked;
      begun = h.begun;
      due = h.due;
    }
    step-Inv
          (System.Step.transaction s given victim_tx all_pools from balance diffs pools db after e _
            _ _ _ _)
          h =
        record {
          earning = h.earning;
          aimed = h.aimed;
          asked = h.asked;
          held = tt;
          begun = Every-append (Begun s.seen) s.tasks _ h.begun (
              spawn-Begun s.seen given (record victim_tx { from = from }) diffs (given.attached db)
                balance all_pools pools (subst (Held s.seen) e h.held));
          due = h.due;
        }
    step-Inv (System.Step.pool s before after task e) h = pool-Inv s before after task e h
    step-Inv (System.Step.mega s before after b next fork fuel sender draw made e found sent) h =
        let ((other, same, listed), rest) =
          Every-without (Due s.seen) before after b (subst (Every (Due s.seen)) e h.due) in
        record {
          earning = h.earning;
          aimed = AllAimed-append m s.seen s.shared.bot.bundles made h.aimed (
              make_mega_sandwich-Aimed m s.seen fork fuel s.shared.bot.pending
                s.shared.bot.weth_balance next maker sender draw made
                (subst (λ n. Memᴰ n s.seen) (val_same (sym same ∙ found)) listed) sent);
          asked = h.asked;
          held = h.held;
          begun = h.begun;
          due = rest;
        }

    run-Inv :
        {s t : System m cache W}
        → Reach storage_key maker hex_encode sandwich_address searcher s t
        → Inv s
        → Inv t
    run-Inv System.Reach.here h = h
    run-Inv (System.Reach.next r step) h = step-Inv step (run-Inv r h)

    -- In whatever order the tasks of a new bot go on, every recipe that waits has some revenue and a
    -- victim's transaction, and whatever `send_bundle` has sent is what it gives for a recipe, with
    -- some revenue and a victim's transaction, to which a search and its check have come for a block
    -- that has been the oracle's next, and is the recipe's whole sandwich for that block.
    pub Reach-Aimed :
        (oracle : BlockOracle) (nonce weth_balance : ℕ) (t : System m cache W)
        → Reach storage_key maker hex_encode sandwich_address searcher
            (initial storage_key maker hex_encode sandwich_address searcher oracle nonce
              weth_balance)
            t
        → PendingEarn t.shared.bot.pending × AllAimed m t.seen t.shared.bot.bundles
    Reach-Aimed oracle nonce weth_balance t r =
        let h = run-Inv r (record {
          earning = tt;
          aimed = tt;
          asked = List.Memᴰ.head refl;
          held = tt;
          begun = tt;
          due = tt;
        }) in
        (h.earning, h.aimed)
