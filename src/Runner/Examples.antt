-- ===== src/Runner/Examples.antt =====
-- The handling of pending transactions on a concrete machine.
use sando_rs.Base.{
  ◌≡◌, refl, val, arith, List, ℕ, ◌==◌, none, some, [], ◌∷◌, ok, Option, if◌then◌else◌,
}
use sando_rs.Pool.{Pool}
use sando_rs.StateDiff.{changed}
use sando_rs.Bundle.{Sender}
use sando_rs.Simulate.{Transaction}
use sando_rs.Simulate.Examples.{machine, evm, meat, pool, next_block, maker}
use sando_rs.Runner.{Given, Bot, handle_stream}
use sando_rs.CacheDb.{AccountInfo}
use sando_rs.CacheDb.Model.{tables, no_tables, tables-CacheLaws}
use sando_rs.StateDiff.Cache.Before.{filled, to_cache_db-filled}
use sando_rs.Simulate.{Evm, Outcome, returns, fails, panics}
use sando_rs.Simulate.Queries.{get_sandwich_weth_balance_evm}
use sando_rs.Runner.Pending.{PendingEarn}
use sando_rs.Runner.Earning.{Answered, handle_stream-PendingEarn}

abbrev pub sender : Sender ℕ Transaction
sender = record {
  sandwich_address = 88;
  searcher = 77;
  nonce = 41;
  sign_eip1559 = λ request. ok (request.nonce ∷ []);
  rlp = λ t. t.hash ∷ [];
  relays = 1 ∷ [];
}

abbrev pub new_account : (balance nonce : ℕ) → List ℕ → AccountInfo
new_account balance nonce code = record {
  balance = balance;
  nonce = nonce;
  code = some code;
  code_hash = 8;
}

-- The transaction brings weth into the pool.
abbrev pub given : Given machine tables ℕ
given = record {
  next_block = next_block;
  sender = sender;
  recovered = some 6;
  block_traces = some (
      some (
        (0xC02aaA39b223FE8D0A0e5C4F27eAD9083C756Cc2, record { storage = (9, changed 0 5) ∷ [] })
        ∷ (9, record { storage = [] })
        ∷ [])
      ∷ []);
  get_transaction_count = λ a. ok 1;
  get_balance = λ a. ok a;
  get_code = λ a. ok [];
  new_account = new_account;
  empty = no_tables;
  fork = λ db. evm;
  attached = λ db. evm;
  fuel = 60;
  draw = 5000000;
}

abbrev pub all_pools : ℕ → Option Pool
all_pools address = if address == 9 then some pool else none

abbrev start : Bot ℕ
start = record { pending = []; weth_balance = 0; bundles = [] }

abbrev stream : List (Given machine tables ℕ × Transaction)
stream = (given, meat) ∷ (given, meat) ∷ []

abbrev pub or_first : Outcome machine (ℕ × Evm machine) → ℕ × Evm machine
or_first (returns read) = read
or_first (fails _) = (0, evm)
or_first panics = (0, evm)

given-Answered : Answered (λ address. address) all_pools maker given
unfolding get_sandwich_weth_balance_evm
given-Answered = (
  λ diffs. (
    filled tables-CacheLaws new_account (λ a. 1) (λ a. a) (λ a. []) no_tables diffs,
    to_cache_db-filled tables-CacheLaws new_account (λ a. 1) (λ a. a) (λ a. []) {E = ℕ} diffs
        no_tables (λ a. omega arith),
  ),
  λ db. (or_first (get_sandwich_weth_balance_evm next_block evm), refl),
)

handle_stream-PendingEarn_example :
    (t : Bot ℕ) × (handle_stream (λ address. address) all_pools maker stream start ≡ val t)
    × PendingEarn t.pending
handle_stream-PendingEarn_example =
    handle_stream-PendingEarn (λ address. address) all_pools maker stream start
      (given-Answered, (given-Answered, tt)) tt
