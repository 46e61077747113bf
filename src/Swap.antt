-- ===== src/Swap.antt =====
-- Swap amounts cut to a few bytes and a byte shift: bot/src/utils/tx_builder/sandwich/mod.rs and
-- the encoding functions at the end of v2.rs and v3.rs beside it.
pub mod Scale
pub mod Rounding
pub mod V2
pub mod V3
mod Examples
use sando_rs.Base.{
  ℕ, zero, suc, ◌+◌, ◌*◌, ◌/◌, ◌^◌, Bool, Checked, val, ◌>>=◌, fit, mul_u256, pow_u256, checked_div,
  if◌then◌else◌,
}

pub record EncodedSwapValue : Type 0 where
  pub encoded_value : ℕ
  pub mem_offset : ℕ
  pub byte_shift : ℕ

unfoldable pub decode : EncodedSwapValue → Checked ℕ
decode v = do
  bits ← mul_u256 8 v.byte_shift
  scale ← pow_u256 2 bits
  mul_u256 v.encoded_value scale

abbrev pub weth_encode_divisor : ℕ
weth_encode_divisor = 4294967296

-- The loop `for i in 0u8..32u8`, with `left` rounds left, over a test that breaks out of it. The
-- power is of type `u128`, so it panics from the sixteenth round on.
unfoldable pub scale_down : (accept : ℕ → Checked Bool) → ℕ → ℕ → ℕ → Checked (ℕ × ℕ)
scale_down accept amount zero i = val (0, 0)
scale_down accept amount (suc left) i =
    let rest = scale_down accept amount left (i + 1) in
    do
      scale ← fit (2 ^ 128) (2 ^ (8 * i))
      let encoded_amount = amount / scale
      accepted ← accept encoded_amount
      if accepted then val (encoded_amount, i) else rest

-- `encode_weth`, the same text in v2.rs and v3.rs: the amount that the call value stands for.
unfoldable pub encode_weth : ℕ → Checked ℕ
encode_weth amount_in = do
  units ← checked_div amount_in weth_encode_divisor
  mul_u256 units weth_encode_divisor
