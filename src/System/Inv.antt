-- ===== src/System/Inv.antt =====
-- What every step keeps, and what a block leaves of it.
use mathlib.Core.Path.{subst}
use mathlib.Core.List as List
use mathlib.Core.List.{Memᴰ}
use sando_rs.Base.{
  ℕ, ◌≡◌, ◌⊎◌, inl, inr, refl, sym, ap, Option, none, some, List, [], ◌∷◌, Checked, val, panic,
}
use sando_rs.Block.{Block, BlockInfo, find_next_block_info}
use sando_rs.Pool.{Pool}
use sando_rs.CacheDb.{CacheDb}
use sando_rs.StateDiff.{AccountDiff, SandwichablePool}
use sando_rs.Simulate.{Transaction, Machine, Evm}
use sando_rs.Runner.{Bot, Given}
use sando_rs.Runner.Pending.{PendingEarn}
use sando_rs.Runner.Aimed.{AllAimed, AllAimed-cons}
use sando_rs.BlockTask.{Shared}
use sando_rs.BlockTask.Kept.{cleared}
use sando_rs.System.{PoolTask, System, spawn}
use sando_rs.System.Every.{Every, Every-weaken}

or_first : {A : Type 0} → A → Checked A → A
or_first a panic = a
or_first a (val b) = b

pub val_same : {A : Type 0} {a b : A} → val a ≡ val b → a ≡ b
unfolding or_first
val_same {a} e = ap (or_first a) e

-- The mega sandwich of a block is for one of the blocks that the oracle has had.
abbrev pub Due : List BlockInfo → Block → Type 0
Due seen b = (next : BlockInfo) × (find_next_block_info b ≡ val next) × Memᴰ next seen

pub Due-cons :
    (first : BlockInfo) (seen : List BlockInfo) (b : Block) → Due seen b → Due (first ∷ seen) b
Due-cons first seen b (next, e, h) = (next, e, List.Memᴰ.tail h)

module _ {W : Type 0} where
  cleared-PendingEarn :
      (before after : Bot W)
      → after.pending ≡ before.pending ⊎ after.pending ≡ []
      → PendingEarn before.pending
      → PendingEarn after.pending
  cleared-PendingEarn before after (inl e) h = subst PendingEarn (sym e) h
  cleared-PendingEarn before after (inr e) h = subst PendingEarn (sym e) tt

  pub kept_pending :
      (before after : Bot W)
      → after ≡ before ⊎ after ≡ cleared before
      → after.pending ≡ before.pending ⊎ after.pending ≡ []
  kept_pending before after (inl e) = inl (ap (λ (k : Bot W). k.pending) e)
  kept_pending before after (inr e) = inr (ap (λ (k : Bot W). k.pending) e)

  pub kept_bundles :
      (before after : Bot W)
      → after ≡ before ⊎ after ≡ cleared before
      → after.bundles ≡ before.bundles
  kept_bundles before after (inl e) = ap (λ (k : Bot W). k.bundles) e
  kept_bundles before after (inr e) = ap (λ (k : Bot W). k.bundles) e

module _ {m : Machine} {cache : CacheDb} {W : Type 0} where
  abbrev pub Begun : List BlockInfo → PoolTask m cache W → Type 0
  Begun seen task = Memᴰ task.given.next_block seen

  abbrev pub Held : List BlockInfo → Option (Given m cache W × Transaction) → Type 0
  Held seen none = Unit
  Held seen (some (given, _)) = Memᴰ given.next_block seen

  Held-cons :
      (first : BlockInfo) (seen : List BlockInfo) (in_hand : Option (Given m cache W × Transaction))
      → Held seen in_hand
      → Held (first ∷ seen) in_hand
  Held-cons first seen none h = tt
  Held-cons first seen (some (given, _)) h = List.Memᴰ.tail h

  pub record Inv (s : System m cache W) : Type 0 where
    pub earning : PendingEarn s.shared.bot.pending
    pub aimed : AllAimed m s.seen s.shared.bot.bundles
    pub asked : Memᴰ s.shared.oracle.next_block s.seen
    pub held : Held s.seen s.in_hand
    pub begun : Every (Begun s.seen) s.tasks
    pub due : Every (Due s.seen) s.shared.waiting

  pub spawn-Begun :
      (seen : List BlockInfo) (given : Given m cache W) (victim_tx : Transaction)
      (diffs : List (ℕ × AccountDiff)) (evm : Evm m) (balance : ℕ) (all_pools : ℕ → Option Pool)
      (pools : List SandwichablePool)
      → Memᴰ given.next_block seen
      → Every (Begun seen) (spawn given victim_tx diffs evm balance all_pools pools)
  unfolding spawn
  spawn-Begun seen given victim_tx diffs evm balance all_pools [] h = tt
  spawn-Begun seen given victim_tx diffs evm balance all_pools (p ∷ pools) h =
      (h, spawn-Begun seen given victim_tx diffs evm balance all_pools pools h)

  -- A block leaves the bundles, and the waiting blocks but for itself.
  pub after_block :
      (s : System m cache W) (t : Shared W)
      → Inv s
      → t.bot.pending ≡ s.shared.bot.pending ⊎ t.bot.pending ≡ []
      → t.bot.bundles ≡ s.shared.bot.bundles
      → Every (Due (t.oracle.next_block ∷ s.seen)) t.waiting
      → Inv (record s { shared = t; seen = t.oracle.next_block ∷ s.seen })
  after_block s t h pending bundles due =
      let seen = t.oracle.next_block ∷ s.seen in
      record {
        earning = cleared-PendingEarn s.shared.bot t.bot pending h.earning;
        aimed =
            subst (AllAimed m seen) (sym bundles)
              (AllAimed-cons m t.oracle.next_block s.seen s.shared.bot.bundles h.aimed);
        asked = List.Memᴰ.head refl;
        held = Held-cons t.oracle.next_block s.seen s.in_hand h.held;
        begun =
            Every-weaken (Begun s.seen) (Begun seen) s.tasks (λ task k. List.Memᴰ.tail k) h.begun;
        due = due;
      }
