-- ===== src/Dust.antt =====
-- `BotState::new` of bot/src/runner/state.rs, with `find_all_dust`: the tokens of which the contract
-- holds some. The answers of the provider are parameters: the addresses of the tokens whose
-- transfers in a range of blocks are from the contract, those to it, and the contract's balance of a
-- token. The order of a `HashSet` is not specified, and that of a list here.
pub mod Found
mod Examples
use sando_rs.Base.{
  ℕ, zero, suc, ◌+◌, List, [], ◌∷◌, ◌++◌, Checked, val, ◌>>=◌, Result, ok, err, ◌==◌, ltb, ◌-◌, ◌/◌,
  if◌then◌else◌,
}
use sando_rs.Constants.{weth_address}
use sando_rs.Block.{add_u64}
use sando_rs.AccessList.{contains}

pub data DustError (E : Type 0) : Type 0 where
  no_current_block : DustError E
  provider_error : E → DustError E

pub record BotState : Type 0 where
  pub token_dust : List ℕ
  pub weth_balance : ℕ

abbrev pub step : ℕ
step = 10000

-- How many numbers `(start..=current).step_by(step)` has.
abbrev pub count : (start current : ℕ) → ℕ
count start current = if ltb current start then 0 else suc ((current - start) / step)

-- `HashSet::insert`, for each.
unfoldable pub insert_all : List ℕ → List ℕ → List ℕ
unfolding contains
insert_all [] set = set
insert_all (address ∷ addresses) set =
    insert_all addresses (if contains address set then set else address ∷ set)

-- The second is asked for when the first has been answered.
abbrev pub both :
    {E : Type 0} → Result (List ℕ) E → Result (List ℕ) E → Result (List ℕ) (DustError E)
both (err e) _ = err (provider_error e)
both (ok _) (err e) = err (provider_error e)
both (ok transfers) (ok receipts) = ok (transfers ++ receipts)

-- The token, if the contract holds some of it, before what is found behind it.
abbrev pub add_dust :
    {E : Type 0} → ℕ → Result ℕ E → Result (List ℕ) (DustError E) → Result (List ℕ) (DustError E)
add_dust token (err e) rest = err (provider_error e)
add_dust token (ok balance) (err e) = err e
add_dust token (ok balance) (ok rest) = if balance == 0 then ok rest else ok (token ∷ rest)

module _ {E : Type 0} (transfer_logs receive_logs : (from_block to_block : ℕ) → Result (List ℕ) E)
    (balance_of : ℕ → Result ℕ E) where
  -- The loop over the ranges of blocks; the arguments are its next start, the starts left and the
  -- set.
  unfoldable pub interacted : (from left : ℕ) → List ℕ → Checked (Result (List ℕ) (DustError E))
  unfolding insert_all
  interacted from zero set = val (ok set)
  interacted from (suc left) set = do
    to_block ← add_u64 from step
    elim (both (transfer_logs from to_block) (receive_logs from to_block)) [
      | err e ↦ val (err e)
      | ok logs ↦ interacted (from + step) left (insert_all logs set)
    ]

  -- The loop over the tokens, which drops those without a balance.
  unfoldable pub with_balance : List ℕ → Result (List ℕ) (DustError E)
  with_balance [] = ok []
  with_balance (token ∷ tokens) = add_dust token (balance_of token) (with_balance tokens)

  abbrev pub then_balances : Result (List ℕ) (DustError E) → Result (List ℕ) (DustError E)
  then_balances (err e) = err e
  then_balances (ok tokens) = with_balance tokens

  unfoldable pub find_all_dust :
      (block_number : Result ℕ E) (start_block : ℕ) → Checked (Result (List ℕ) (DustError E))
  unfolding interacted with_balance
  find_all_dust (err _) start_block = val (err no_current_block)
  find_all_dust (ok current_block) start_block = do
    tokens ← interacted start_block (count start_block current_block) []
    val (then_balances tokens)

  abbrev pub with_weth : Result (List ℕ) (DustError E) → Result ℕ E → Result BotState (DustError E)
  with_weth (err e) _ = err e
  with_weth (ok token_dust) (err e) = err (provider_error e)
  with_weth (ok token_dust) (ok weth_balance) =
      ok (record { token_dust = token_dust; weth_balance = weth_balance })

  -- `BotState::new`
  unfoldable pub new_state :
      (block_number : Result ℕ E) (sandwich_inception_block : ℕ)
      → Checked (Result BotState (DustError E))
  unfolding find_all_dust
  new_state block_number sandwich_inception_block = do
    token_dust ← find_all_dust block_number sandwich_inception_block
    val (with_weth token_dust (balance_of weth_address))
