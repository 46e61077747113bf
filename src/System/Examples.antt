-- ===== src/System/Examples.antt =====
-- A run of the tasks on a concrete machine: a transaction, a block, then the end of the task of
-- the transaction's pool, which keeps and sends a recipe.
use Prim.Native.String.{String}
use sando_rs.Base.{ℕ, true, refl, arith, some, List, [], ◌∷◌}
use sando_rs.Block.{
  Block, BlockInfo, BlockOracle, find_next_block_info, calculate_next_block_base_fee, fee_delta,
}
use sando_rs.StateDiff.{AccountDiff, SandwichablePool, changed, get_from_txs, extract_pools}
use sando_rs.CacheDb.Model.{tables, no_tables, tables-CacheLaws}
use sando_rs.StateDiff.Cache.Before.{filled, to_cache_db-filled}
use sando_rs.Simulate.{Evm}
use sando_rs.Simulate.Queries.{get_sandwich_weth_balance_evm}
use sando_rs.Simulate.Examples.{machine, evm, meat, pool, next_block, maker}
use sando_rs.Runner.Pending.{PendingEarn}
use sando_rs.Runner.Aimed.{AllAimed}
use sando_rs.Runner.Examples.{given, all_pools, new_account, or_first}
use sando_rs.BlockTask.{Shared}
use sando_rs.BlockTask.Handled.{oracle_of, recoveries_after, handle_block-goes}
use sando_rs.System.{PoolTask, System, spawn, finished, initial, Step, Reach}
use sando_rs.System.Invariant.{Reach-Aimed}

abbrev no_text : List ℕ → String
no_text bytes = ""

abbrev oracle : BlockOracle
oracle = record { latest_block = next_block; next_block = next_block }

abbrev first : System machine tables ℕ
first = initial (λ a. a) maker no_text 88 77 oracle 41 0

abbrev diffs : List (ℕ × AccountDiff)
diffs =
    (0xC02aaA39b223FE8D0A0e5C4F27eAD9083C756Cc2, record { storage = (9, changed 0 5) ∷ [] })
    ∷ (9, record { storage = [] })
    ∷ []

abbrev touched : SandwichablePool
touched = record { pool = pool; is_weth_input = true }

abbrev balance : ℕ
unfolding get_sandwich_weth_balance_evm
balance = (or_first (get_sandwich_weth_balance_evm next_block evm)).0

abbrev fork : Evm machine
fork =
    given.attached (filled tables-CacheLaws new_account (λ a. 1) (λ a. a) (λ a. []) no_tables diffs)

abbrev with_meat : System machine tables ℕ
with_meat = record first { in_hand = some (given, meat) }

arrived : Step (λ a. a) maker no_text 88 77 first with_meat
arrived = Step.arrives first given meat refl refl

abbrev second : System machine tables ℕ
second = record first {
  shared = record first.shared { bot = record first.shared.bot { weth_balance = balance } };
  tasks = spawn given (record meat { from = 6 }) diffs fork balance all_pools (touched ∷ []);
}

started : Step (λ a. a) maker no_text 88 77 with_meat second
unfolding get_from_txs extract_pools get_sandwich_weth_balance_evm
started =
    Step.transaction with_meat given meat all_pools 6 balance diffs (touched ∷ [])
      (filled tables-CacheLaws new_account (λ a. 1) (λ a. a) (λ a. []) no_tables diffs)
      (or_first (get_sandwich_weth_balance_evm next_block evm)).1 refl refl refl refl
      (to_cache_db-filled tables-CacheLaws new_account (λ a. 1) (λ a. a) (λ a. []) {E = ℕ} diffs
        no_tables (λ a. omega arith))
      refl

abbrev mined : Block
mined = record {
  number = some 100;
  timestamp = 1200;
  base_fee_per_gas = some 8;
  gas_used = 10000000;
  gas_limit = 20000000;
}

abbrev after_mined : BlockInfo
after_mined = record { number = 101; timestamp = 1212; base_fee = 8 }

abbrev counted : Shared ℕ
counted = record {
  bot = record second.shared.bot { pending = [] };
  oracle = oracle_of 100 mined after_mined;
  nonce = 43;
  recoveries = recoveries_after no_text 88 77 second.shared;
  waiting = mined ∷ [];
}

abbrev third : System machine tables ℕ
third = record second { shared = counted; seen = after_mined ∷ second.seen }

came : Step (λ a. a) maker no_text 88 77 second third
unfolding find_next_block_info calculate_next_block_base_fee fee_delta
came =
    Step.block second (record { transaction_count = some 43; sent = true }) mined counted
      (handle_block-goes no_text 88 77 second.shared mined 43 100 after_mined refl refl)

abbrev task : PoolTask machine tables ℕ
task = record {
  given = given;
  victim_tx = record meat { from = 6 };
  diffs = diffs;
  evm = fork;
  sandwich_balance = balance;
  sandwichable = touched;
  all_pools = all_pools;
}

abbrev fourth : System machine tables ℕ
fourth = record third {
  shared = finished (λ a. a) maker no_text 88 77 task third.shared;
  tasks = [];
}

ended : Step (λ a. a) maker no_text 88 77 third fourth
unfolding spawn
ended = Step.pool third [] [] task refl

Reach-Aimed_example :
    PendingEarn fourth.shared.bot.pending × AllAimed machine fourth.seen fourth.shared.bot.bundles
Reach-Aimed_example =
    Reach-Aimed (λ a. a) maker no_text 88 77 oracle 41 0 fourth
      (Reach.next (Reach.next (Reach.next (Reach.next Reach.here arrived) started) came) ended)
