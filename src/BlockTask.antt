-- ===== src/BlockTask.antt =====
-- The task of `start_block_oracle` of bot/src/runner/oracles.rs, for one block of its stream. What
-- the provider answers is given. A panic ends the task, and leaves what was changed before.
pub mod Handled
pub mod Kept
pub mod Recovery
mod Examples
use Prim.Native.String.{String}
use sando_rs.Base.{
  ℕ, ◌*◌, ◌^◌, Bool, true, false, Option, none, some, List, [], ◌∷◌, ◌++◌, Checked, val, panic,
  ◌>>=◌, checked_div, ltb, if◌then◌else◌,
}
use sando_rs.Block.{
  Block, BlockOracle, unwrap_or_default, update_block_number, update_block_timestamp,
  update_base_fee,
}
use sando_rs.Packed.{number_with_shift, encode_packed}
use sando_rs.Swap.{weth_encode_divisor}
use sando_rs.Runner.{Bot}

-- `TransactionRequest`
pub record TransactionRequest : Type 0 where
  pub to : ℕ
  pub from : ℕ
  pub value : ℕ
  pub request_data : List ℕ

-- What the tasks of the bot share: the recipes, the oracle and the searcher's nonce; the requests
-- that have been sent to recover weth, and the blocks of which the mega sandwich is due.
pub record Shared (W : Type 0) : Type 0 where
  pub bot : Bot W
  pub oracle : BlockOracle
  pub nonce : ℕ
  pub recoveries : List TransactionRequest
  pub waiting : List Block

-- What a piece of the task comes to: the state with which it goes on, or with which it panics.
pub data Ended (S : Type 0) : Type 0 where
  goes : S → Ended S
  dies : S → Ended S

abbrev pub and_then : {S : Type 0} → Ended S → (S → Ended S) → Ended S
and_then (goes s) f = f s
and_then (dies s) f = dies s

-- What the provider answers: the searcher's nonce, and whether it takes a transaction.
pub record BlockGiven : Type 0 where
  pub transaction_count : Option ℕ
  pub sent : Bool

unfoldable pub get_recover_weth_payload_value :
    (hex_encode : List ℕ → String) (recover_amount : ℕ) → Checked (List ℕ × ℕ)
get_recover_weth_payload_value hex_encode recover_amount = do
  (payload, _) ← encode_packed hex_encode (number_with_shift 124 8 ∷ [])
  value ← checked_div recover_amount weth_encode_divisor
  val (payload, value)

-- An update of the oracle, with what it leaves when it panics.
abbrev pub changed_oracle :
    {W : Type 0} → Shared W → (left : BlockOracle) → Checked BlockOracle → Ended (Shared W)
changed_oracle s left panic = dies (record s { oracle = left })
changed_oracle s left (val oracle) = goes (record s { oracle = oracle })

-- Each update sets the latest block first.
abbrev pub latest_number : BlockOracle → Option ℕ → BlockOracle
latest_number oracle none = oracle
latest_number oracle (some number) = record oracle {
  latest_block = record oracle.latest_block { number = number };
}

abbrev pub latest_timestamp : BlockOracle → ℕ → BlockOracle
latest_timestamp oracle timestamp = record oracle {
  latest_block = record oracle.latest_block { timestamp = timestamp };
}

abbrev pub latest_base_fee : BlockOracle → Option ℕ → BlockOracle
latest_base_fee oracle fee = record oracle {
  latest_block = record oracle.latest_block { base_fee = unwrap_or_default fee };
}

-- The number of the block is unwrapped.
abbrev pub numbered : BlockOracle → Option ℕ → Checked BlockOracle
numbered oracle none = panic
numbered oracle (some number) = update_block_number oracle number

module _ {W : Type 0} where
  unfoldable pub update_searcher_nonce : Option ℕ → Shared W → Ended (Shared W)
  update_searcher_nonce none s = dies s
  update_searcher_nonce (some n) s = goes (record s { nonce = n })

  unfoldable pub clear_pending : Shared W → Shared W
  clear_pending s = record s { bot = record s.bot { pending = [] } }

  -- The three updates under the oracle's write lock.
  unfoldable pub update_oracle : Block → Shared W → Ended (Shared W)
  update_oracle block s =
      and_then
        (changed_oracle s (latest_number s.oracle block.number) (numbered s.oracle block.number))
        (λ t.
          and_then
            (changed_oracle t (latest_timestamp t.oracle block.timestamp)
              (update_block_timestamp t.oracle block.timestamp))
            (λ u.
              changed_oracle u (latest_base_fee u.oracle block.base_fee_per_gas)
                (update_base_fee u.oracle block)))

  module _ (hex_encode : List ℕ → String) (sandwich_address searcher : ℕ) where
    -- The request for 0.5 ether, which is unwrapped.
    abbrev pub request_recovery : (sent : Bool) → Shared W → Checked (List ℕ × ℕ) → Ended (Shared W)
    request_recovery sent s panic = dies s
    request_recovery false s (val _) = dies s
    request_recovery true s (val (payload, value)) = goes (record s {
      recoveries =
          s.recoveries
          ++ record {
            to = sandwich_address;
            from = searcher;
            value = value;
            request_data = payload;
          }
            ∷ [];
    })

    -- With more than 4.5 weth some of it is taken out.
    unfoldable pub recover_weth : (sent : Bool) → Shared W → Ended (Shared W)
    unfolding get_recover_weth_payload_value
    recover_weth sent s =
        if ltb 4500000000000000000 s.bot.weth_balance
        then request_recovery sent s (get_recover_weth_payload_value hex_encode 500000000000000000)
        else goes s

    unfoldable pub handle_block : BlockGiven → Block → Shared W → Ended (Shared W)
    unfolding update_searcher_nonce clear_pending update_oracle recover_weth
    handle_block given block s = and_then (update_searcher_nonce given.transaction_count s) (λ t.
        and_then (update_oracle block (clear_pending t)) (λ u.
          and_then (recover_weth given.sent u)
            (λ v. goes (record v { waiting = v.waiting ++ block ∷ [] }))))
