-- ===== src/Swap/V3.antt =====
-- The encodings of bot/src/utils/tx_builder/sandwich/v3.rs.
pub mod Laws
use sando_rs.Base.{
  ℕ, ◌+◌, ◌-◌, ◌*◌, ◌^◌, Bool, Checked, val, ◌>>=◌, fit, pow_u256, checked_minus, ltb,
}
use sando_rs.Swap.{EncodedSwapValue, decode, scale_down}

-- `num_bytes * 8` is a product of type `u8`.
num_bytes_accept : ℕ → ℕ → Checked Bool
num_bytes_accept num_bytes n = do
  bits ← fit 256 (num_bytes * 8)
  limit ← pow_u256 2 bits
  val (ltb n limit)

pub encode_num_bytes : ℕ → ℕ → Checked EncodedSwapValue
unfolding num_bytes_accept
encode_num_bytes amount num_bytes = do
  (encoded_value, byte_shift) ← scale_down (num_bytes_accept num_bytes) amount 32 0
  width_offset ← checked_minus 68 num_bytes
  mem_offset ← checked_minus width_offset byte_shift
  val (record { encoded_value = encoded_value; mem_offset = mem_offset; byte_shift = byte_shift })

-- One unit less than the encoded amount, so that some token dust stays on the contract.
pub encode_intermediary_token : ℕ → Checked ℕ
encode_intermediary_token amount_in = do
  backrun_in ← encode_num_bytes amount_in 5
  encoded_value ← checked_minus backrun_in.encoded_value 1
  decode (record backrun_in { encoded_value = encoded_value })

-- The amount that is left after encoding and decoding.
pub decode_intermediary : ℕ → Checked ℕ
decode_intermediary amount_in = do encoded ← encode_num_bytes amount_in 5; decode encoded
