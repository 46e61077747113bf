-- ===== src/AmountOut.antt =====
-- `get_amount_out_evm_v2` of bot/src/simulate/helpers.rs. `reserves` is what the simulated call of
-- `getReserves` gives, decoded, or the error of the call.
pub mod Product
mod Examples
use sando_rs.Base.{
  ℕ, ◌+◌, ◌*◌, ◌/◌, Checked, val, ◌>>=◌, Result, ok, err, add_u256, mul_u256, ltb, ◌==◌,
  if◌then◌else◌,
}

-- The reserves of the token that goes in and of the token that comes out.
abbrev pub in_and_out : (token_in token_out : ℕ) → ℕ × ℕ → ℕ × ℕ
in_and_out token_in token_out (reserves_0, reserves_1) =
    if ltb token_in token_out then (reserves_0, reserves_1) else (reserves_1, reserves_0)

-- The `k = x * y` formula, with 997 parts in 1000 of the amount.
unfoldable pub amount_out_of : (amount_in reserve_in reserve_out : ℕ) → Checked ℕ
amount_out_of amount_in reserve_in reserve_out = do
  a_in_with_fee ← mul_u256 amount_in 997
  numerator ← mul_u256 a_in_with_fee reserve_out
  scaled ← mul_u256 reserve_in 1000
  denominator ← add_u256 scaled a_in_with_fee
  val (if denominator == 0 then 0 else numerator / denominator)

pub get_amount_out_evm_v2 :
    {E : Type 0} → Result (ℕ × ℕ) E → (amount_in token_in token_out : ℕ) → Checked (Result ℕ E)
unfolding amount_out_of
get_amount_out_evm_v2 (err e) amount_in token_in token_out = val (err e)
get_amount_out_evm_v2 (ok reserves) amount_in token_in token_out = do
  let (reserve_in, reserve_out) = in_and_out token_in token_out reserves
  amount_out ← amount_out_of amount_in reserve_in reserve_out
  val (ok amount_out)
