-- ===== src/BlockTask/Handled.antt =====
-- What a block of the stream leaves.
use Prim.Native.String.{String}
use sando_rs.Base.{
  ℕ, ◌/◌, ◌^◌, ◌≡◌, refl, true, some, List, [], ◌∷◌, ◌++◌, val, ltb, inl, inr, if◌then◌else◌,
  Bool-cases, arith,
}
use sando_rs.Block.{
  Block, BlockInfo, BlockOracle, find_next_block_info, update_block_number, update_block_timestamp,
  update_base_fee, unwrap_or_default,
}
use sando_rs.BlockTask.{
  TransactionRequest, Shared, goes, update_searcher_nonce, clear_pending, update_oracle,
  recover_weth, handle_block,
}
use sando_rs.BlockTask.Recovery.{recover_payload}

-- The oracle of a block and the prediction from it.
abbrev pub oracle_of : (number : ℕ) → Block → BlockInfo → BlockOracle
oracle_of number block next = record {
  latest_block = record {
    number = number;
    timestamp = block.timestamp;
    base_fee = unwrap_or_default block.base_fee_per_gas;
  };
  next_block = next;
}

-- The request for 0.5 ether.
abbrev pub recovery : (sandwich_address searcher : ℕ) → TransactionRequest
recovery sandwich_address searcher = record {
  to = sandwich_address;
  from = searcher;
  value = 500000000000000000 / 2 ^ 32;
  request_data = 124 ∷ [];
}

module _ {W : Type 0} where
  update_oracle-goes :
      (s : Shared W) (block : Block) (number : ℕ) (next : BlockInfo)
      → block.number ≡ some number
      → find_next_block_info block ≡ val next
      → update_oracle block s ≡ goes (record s { oracle = oracle_of number block next })
  unfolding update_oracle find_next_block_info update_block_number update_block_timestamp
      update_base_fee
  update_oracle-goes s block number next e f = ground arith

  module _ (hex_encode : List ℕ → String) (sandwich_address searcher : ℕ) where
    abbrev pub recoveries_after : Shared W → List TransactionRequest
    recoveries_after s =
        if ltb 4500000000000000000 s.bot.weth_balance
        then s.recoveries ++ recovery sandwich_address searcher ∷ []
        else s.recoveries

    recover_weth-goes :
        (s : Shared W)
        → recover_weth hex_encode sandwich_address searcher true s
          ≡ goes (record s { recoveries = recoveries_after s })
    unfolding recover_weth
    recover_weth-goes s = elim (Bool-cases (ltb 4500000000000000000 s.bot.weth_balance)) [
      | inl e ↦ rw (e, recover_payload hex_encode 500000000000000000) refl
      | inr e ↦ rw e refl
    ]

    -- Where the provider gives the nonce and takes transactions, and the next block can be predicted
    -- from a block with a number, the task goes on: the recipes are gone, the block is the oracle's
    -- latest and the prediction its next, weth is asked for exactly if there is more than 4.5, and
    -- the mega sandwich of the block is due.
    pub handle_block-goes :
        (s : Shared W) (block : Block) (n number : ℕ) (next : BlockInfo)
        → block.number ≡ some number
        → find_next_block_info block ≡ val next
        → handle_block hex_encode sandwich_address searcher
            (record { transaction_count = some n; sent = true })
            block
            s
          ≡ goes (record {
            bot = record s.bot { pending = [] };
            oracle = oracle_of number block next;
            nonce = n;
            recoveries = recoveries_after s;
            waiting = s.waiting ++ block ∷ [];
          })
    unfolding handle_block update_searcher_nonce clear_pending
    handle_block-goes s block n number next e f =
        rw
          (
            update_oracle-goes (record s { nonce = n; bot = record s.bot { pending = [] } }) block
                number next e f,
            recover_weth-goes (record s {
              nonce = n;
              bot = record s.bot { pending = [] };
              oracle = oracle_of number block next;
            }),
          )
          refl
