-- ===== src/Swap/V2.antt =====
-- The encodings of bot/src/utils/tx_builder/sandwich/v2.rs.
pub mod Laws
use sando_rs.Base.{
  ℕ, ◌+◌, ◌-◌, ◌/◌, ◌^◌, Bool, true, false, Checked, val, ◌>>=◌, checked_minus, ltb, leb,
  if◌then◌else◌,
}
use sando_rs.Constants.{weth_address}
use sando_rs.Swap.{EncodedSwapValue, decode, scale_down}

-- The code compares with 2 ^ 31, though its comment speaks of four full bytes.
abbrev pub four_bytes_accept : ℕ → Bool
four_bytes_accept n = leb n (2 ^ 31)

abbrev pub five_bytes_accept : ℕ → Bool
five_bytes_accept n = leb n (2 ^ 39)

-- The last byte of the word that the value is stored in, less the four bytes of the value.
unfoldable pub four_bytes_base : Bool → Bool → ℕ
four_bytes_base false _ = 64
four_bytes_base true true = 64
four_bytes_base true false = 32

unfoldable pub encode_four_bytes : ℕ → Bool → Bool → Checked EncodedSwapValue
unfolding four_bytes_base
encode_four_bytes amount is_weth_input is_weth_token0 = do
  (four_byte_encoded_value, byte_shift) ← scale_down (λ n. val (four_bytes_accept n)) amount 32 0
  mem_offset ← checked_minus (four_bytes_base is_weth_input is_weth_token0) byte_shift
  val (record {
    encoded_value = four_byte_encoded_value;
    mem_offset = mem_offset;
    byte_shift = byte_shift;
  })

pub encode_five_bytes : ℕ → Bool → Checked EncodedSwapValue
encode_five_bytes amount is_weth_token0 = do
  (five_byte_encoded_value, byte_shift) ← scale_down (λ n. val (five_bytes_accept n)) amount 32 0
  mem_offset ← checked_minus (if is_weth_token0 then 68 else 100) byte_shift
  val (record {
    encoded_value = five_byte_encoded_value;
    mem_offset = mem_offset;
    byte_shift = byte_shift;
  })

-- One unit less than the encoded amount, so that some token dust stays on the contract.
unfoldable pub encode_intermediary_token : ℕ → Bool → ℕ → Checked ℕ
encode_intermediary_token amount_in is_weth_input intermediary_address = do
  backrun_in ← encode_four_bytes amount_in is_weth_input (ltb weth_address intermediary_address)
  encoded_value ← checked_minus backrun_in.encoded_value 1
  decode (record backrun_in { encoded_value = encoded_value })

-- The amount that is left after encoding and decoding.
unfoldable pub decode_intermediary : ℕ → Bool → ℕ → Checked ℕ
decode_intermediary amount_in is_weth_input intermediary_address = do
  encoded ← encode_four_bytes amount_in is_weth_input (ltb weth_address intermediary_address)
  decode encoded
