-- ===== src/Payload/V3.antt =====
-- The `create_*payload*` functions of bot/src/utils/tx_builder/sandwich/v3.rs.
-- The amounts come as `I256` values made from a `u128`, and are read back as `u128`: they are the
-- same numbers, below 2 ^ 128.
pub mod Single
use Prim.Native.String.{String}
use sando_rs.Base.{
  ℕ, ◌*◌, Bool, true, false, List, [], ◌∷◌, Checked, val, ◌>>=◌, checked_minus, checked_div,
  mul_u256, if◌then◌else◌,
}
use sando_rs.Library.{AbiToken, Hashing}
use sando_rs.Constants.{prepare_stack_payload}
use sando_rs.Packed.{PackedToken, address, bytes, number_with_shift, encode_packed}
use sando_rs.Pool.{Pool}
use sando_rs.Swap.{EncodedSwapValue, weth_encode_divisor}
use sando_rs.Swap.V3.{encode_num_bytes}
use sando_rs.Labels.V3.{SandwichLogicV3, find_swap_type}

-- `(32 - num_bytes - byte_shift) * 8`: how far the contract shifts the word to the right.
pub right_shift : (num_bytes : ℕ) → EncodedSwapValue → Checked ℕ
right_shift num_bytes encoded = do
  width ← checked_minus 32 num_bytes
  left ← checked_minus width encoded.byte_shift
  val (left * 8)

-- `keccak256(abi::encode(&[token_0, token_1, fee]))`
abbrev pub pool_key_hash : Hashing → Pool → List ℕ
pool_key_hash hashing pool = hashing.keccak256 (
    hashing.abi_encode (
      AbiToken.address pool.token_0
      ∷ AbiToken.address pool.token_1
      ∷ AbiToken.uint pool.swap_fee
      ∷ []))

module _ (hex_encode : List ℕ → String) (hashing : Hashing) (logic : SandwichLogicV3) where
  pub create_payload_weth_is_input :
      (block_number amount_in amount_out input output : ℕ) (pool : Pool) → Checked (List ℕ × ℕ)
  create_payload_weth_is_input block_number amount_in amount_out input output pool = do
    swap_type ← find_swap_type logic false true input output
    encoded_swap_value ← encode_num_bytes amount_out 5
    shift ← right_shift 5 encoded_swap_value
    (payload, _) ← encode_packed hex_encode (
        number_with_shift block_number 8
        ∷ number_with_shift swap_type 8
        ∷ address pool.address
        ∷ number_with_shift shift 8
        ∷ number_with_shift encoded_swap_value.encoded_value 40
        ∷ bytes (pool_key_hash hashing pool)
        ∷ [])
    encoded_call_value ← checked_div amount_in weth_encode_divisor
    val (payload, encoded_call_value)

  pub create_payload_weth_is_output :
      (block_number amount_in amount_out input output : ℕ) (pool : Pool) → Checked (List ℕ × ℕ)
  create_payload_weth_is_output block_number amount_in amount_out input output pool = do
    swap_type ← find_swap_type logic false false input output
    encoded_swap_value ← encode_num_bytes amount_in 5
    shift ← right_shift 5 encoded_swap_value
    (payload, _) ← encode_packed hex_encode (
        number_with_shift block_number 8
        ∷ number_with_shift swap_type 8
        ∷ address pool.address
        ∷ number_with_shift shift 8
        ∷ number_with_shift encoded_swap_value.encoded_value 40
        ∷ address input
        ∷ bytes (pool_key_hash hashing pool)
        ∷ [])
    encoded_call_value ← checked_div amount_out weth_encode_divisor
    val (payload, encoded_call_value)

  -- The first payload asks the contract to prepare its stack.
  pub with_header : (block_number : ℕ) (is_first : Bool) → List ℕ → Checked (List ℕ × String)
  with_header block_number is_first payload_data =
      if is_first
      then encode_packed hex_encode (
          number_with_shift block_number 8
          ∷ number_with_shift prepare_stack_payload 8
          ∷ bytes payload_data
          ∷ [])
      else encode_packed hex_encode (number_with_shift block_number 8 ∷ bytes payload_data ∷ [])

  pub create_multi_payload_weth_is_input :
      (block_number amount_in amount_out input output : ℕ) (pool : Pool) (is_first : Bool)
      → Checked (List ℕ × ℕ)
  unfolding with_header
  create_multi_payload_weth_is_input block_number amount_in amount_out input output pool is_first =
      do
        swap_type ← find_swap_type logic true true input output
        encoded_in ← encode_num_bytes amount_in 4
        encoded_out ← encode_num_bytes amount_out 5
        shift_in ← right_shift 4 encoded_in
        shift_out ← right_shift 5 encoded_out
        (payload_data, _) ← encode_packed hex_encode (
            number_with_shift swap_type 8
            ∷ address pool.address
            ∷ number_with_shift shift_in 8
            ∷ number_with_shift encoded_in.encoded_value 32
            ∷ number_with_shift shift_out 8
            ∷ number_with_shift encoded_out.encoded_value 40
            ∷ bytes (pool_key_hash hashing pool)
            ∷ [])
        (payload, _) ← with_header block_number is_first payload_data
        val (payload, 0)

  pub create_multi_payload_weth_is_output :
      (block_number amount_in amount_out input output : ℕ) (pool : Pool) (is_first : Bool)
      → Checked (List ℕ × ℕ)
  unfolding with_header
  create_multi_payload_weth_is_output block_number amount_in amount_out input output pool is_first =
      do
        swap_type ← find_swap_type logic true false input output
        encoded_in ← encode_num_bytes amount_in 5
        encoded_out ← encode_num_bytes amount_out 4
        shift_out ← right_shift 4 encoded_out
        shift_in ← right_shift 5 encoded_in
        (payload_data, _) ← encode_packed hex_encode (
            number_with_shift swap_type 8
            ∷ address pool.address
            ∷ number_with_shift shift_out 8
            ∷ number_with_shift encoded_out.encoded_value 32
            ∷ number_with_shift shift_in 8
            ∷ number_with_shift encoded_in.encoded_value 40
            ∷ address input
            ∷ bytes (pool_key_hash hashing pool)
            ∷ [])
        (payload, _) ← with_header block_number is_first payload_data
        val (payload, 0)
