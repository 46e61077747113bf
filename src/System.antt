-- ===== src/System.antt =====
-- The tasks of a bot together, as steps in any order: the blocks of bot/src/runner/oracles.rs, the
-- transactions of `run` of bot/src/runner/mod.rs, the task of each of their pools, and the mega
-- sandwich of a block. The map of the pools is given with a transaction, since another task fills it.
-- The steps allow more than the code does: the block task may go on after it has panicked, and a
-- task may end before one that was started earlier.
mod Every
mod Inv
pub mod Invariant
mod Examples
use Prim.Native.String.{String}
use sando_rs.Base.{
  ℕ, ◌≡◌, Bool, true, false, Option, none, some, List, [], ◌∷◌, ◌++◌, Checked, val, ok, ltb,
}
use sando_rs.Block.{Block, BlockInfo, BlockOracle, find_next_block_info}
use sando_rs.Pool.{Pool}
use sando_rs.CacheDb.{CacheDb}
use sando_rs.StateDiff.{AccountDiff, SandwichablePool, get_from_txs, extract_pools}
use sando_rs.StateDiff.Cache.{to_cache_db}
use sando_rs.Bundle.{Sender}
use sando_rs.Bundle.Mega.{make_mega_sandwich}
use sando_rs.Simulate.{Transaction, RawIngredients, Machine, Evm, returns}
use sando_rs.Simulate.Meats.{unwrap_or_default}
use sando_rs.Simulate.Queries.{get_sandwich_weth_balance_evm}
use sando_rs.Simulate.Legs.{SandwichMaker}
use sando_rs.Runner.{Bot, Given, handle_pool}
use sando_rs.Runner.Aimed.{Bundled}
use sando_rs.BlockTask.{Shared, Ended, goes, dies, BlockGiven, handle_block}

-- The task of a pool that a transaction touches, with what it was started with.
pub record PoolTask (m : Machine) (cache : CacheDb) (W : Type 0) : Type 0 where
  pub given : Given m cache W
  pub victim_tx : Transaction
  pub diffs : List (ℕ × AccountDiff)
  pub evm : Evm m
  pub sandwich_balance : ℕ
  pub sandwichable : SandwichablePool
  pub all_pools : ℕ → Option Pool

-- What the tasks share, the transaction that `run` is at, the tasks of pools that are under way, and
-- what the oracle has had as its next block so far, which nothing reads.
pub record System (m : Machine) (cache : CacheDb) (W : Type 0) : Type 0 where
  pub shared : Shared W
  pub in_hand : Option (Given m cache W × Transaction)
  pub tasks : List (PoolTask m cache W)
  pub seen : List BlockInfo

-- A task of each pool; that of a pool into which the transaction brings no weth does nothing.
unfoldable pub spawn :
    {m : Machine} {cache : CacheDb} {W : Type 0}
    → Given m cache W
    → Transaction
    → List (ℕ × AccountDiff)
    → Evm m
    → ℕ
    → (ℕ → Option Pool)
    → List SandwichablePool
    → List (PoolTask m cache W)
spawn given victim_tx diffs evm sandwich_balance all_pools [] = []
spawn given victim_tx diffs evm sandwich_balance all_pools (sandwichable ∷ pools) =
    record {
      given = given;
      victim_tx = victim_tx;
      diffs = diffs;
      evm = evm;
      sandwich_balance = sandwich_balance;
      sandwichable = sandwichable;
      all_pools = all_pools;
    }
    ∷ spawn given victim_tx diffs evm sandwich_balance all_pools pools

module _ {m : Machine} {cache : CacheDb} {W : Type 0} (storage_key : ℕ → ℕ) (maker : SandwichMaker)
    (hex_encode : List ℕ → String) (sandwich_address searcher : ℕ) where
  -- What a pool's task does to what is shared.
  abbrev pub finished : PoolTask m cache W → Shared W → Shared W
  finished task s = record s {
    bot =
        handle_pool storage_key task.all_pools maker task.given task.victim_tx task.diffs task.evm
          task.sandwich_balance task.sandwichable s.bot;
  }

  -- The bot of a new oracle.
  abbrev pub initial : BlockOracle → (nonce weth_balance : ℕ) → System m cache W
  initial oracle nonce weth_balance = record {
    shared = record {
      bot = record { pending = []; weth_balance = weth_balance; bundles = [] };
      oracle = oracle;
      nonce = nonce;
      recoveries = [];
      waiting = [];
    };
    in_hand = none;
    tasks = [];
    seen = oracle.next_block ∷ [];
  }

  pub data Step : System m cache W → System m cache W → Type 0 where
    -- A block, with which the block task goes on.
    block :
        (s : System m cache W) (given : BlockGiven) (b : Block) (t : Shared W)
        → handle_block hex_encode sandwich_address searcher given b s.shared ≡ goes t
        → Step s (record s { shared = t; seen = t.oracle.next_block ∷ s.seen })
    -- A block at which it panics.
    block_dies :
        (s : System m cache W) (given : BlockGiven) (b : Block) (t : Shared W)
        → handle_block hex_encode sandwich_address searcher given b s.shared ≡ dies t
        → Step s (record s { shared = t; seen = t.oracle.next_block ∷ s.seen })
    -- A transaction that pays the base fee of the oracle's next block, which is read once. If there
    -- still is one in hand, it is passed over.
    arrives :
        (s : System m cache W) (given : Given m cache W) (victim_tx : Transaction)
        → given.next_block ≡ s.shared.oracle.next_block
        → ltb (unwrap_or_default victim_tx.max_fee_per_gas) given.next_block.base_fee ≡ false
        → Step s (record s { in_hand = some (given, victim_tx) })
    -- The tasks of the transaction are started, with the pools as they then are.
    transaction :
        (s : System m cache W) (given : Given m cache W) (victim_tx : Transaction)
        (all_pools : ℕ → Option Pool) (from balance : ℕ) (diffs : List (ℕ × AccountDiff))
        (pools : List SandwichablePool) (db : cache.Db) (after : Evm m)
        → s.in_hand ≡ some (given, victim_tx)
        → given.recovered ≡ some from
        → get_from_txs given.block_traces ≡ some diffs
        → extract_pools storage_key diffs all_pools ≡ some pools
        → to_cache_db cache given.new_account given.get_transaction_count given.get_balance
            given.get_code given.empty diffs
          ≡ val (ok db)
        → get_sandwich_weth_balance_evm given.next_block (given.fork db) ≡ returns (balance, after)
        → Step s (record s {
          shared = record s.shared { bot = record s.shared.bot { weth_balance = balance } };
          in_hand = none;
          tasks =
              s.tasks
              ++ spawn given
                  (record victim_tx { from = from })
                  diffs
                  (given.attached db)
                  balance
                  all_pools
                  pools;
        })
    -- The end of a pool's task.
    pool :
        (s : System m cache W) (before after : List (PoolTask m cache W))
        (task : PoolTask m cache W)
        → s.tasks ≡ before ++ task ∷ after
        → Step s (record s { shared = finished task s.shared; tasks = before ++ after })
    -- The mega sandwich of a block, of the recipes that wait then.
    mega :
        (s : System m cache W) (before after : List Block) (b : Block) (next : BlockInfo)
        (fork : List (ℕ × AccountDiff) → Evm m) (fuel : ℕ) (sender : Sender W Transaction)
        (draw : ℕ) (made : Bundled W)
        → s.shared.waiting ≡ before ++ b ∷ after
        → find_next_block_info b ≡ val next
        → make_mega_sandwich fork fuel s.shared.bot.pending s.shared.bot.weth_balance next maker
            sender draw
          ≡ some made
        → Step s (record s {
          shared = record s.shared {
            waiting = before ++ after;
            bot = record s.shared.bot { bundles = s.shared.bot.bundles ++ made ∷ [] };
          };
        })

  -- What can come of a state.
  pub data Reach (s : System m cache W) : System m cache W → Type 0 where
    here : Reach s s
    next : {t u : System m cache W} → Reach s t → Step t u → Reach s u
