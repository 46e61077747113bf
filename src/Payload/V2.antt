-- ===== src/Payload/V2.antt =====
-- The `create_*payload*` functions of bot/src/utils/tx_builder/sandwich/v2.rs.
pub mod Single
pub mod Output
pub mod Multi
use Prim.Native.String.{String}
use sando_rs.Base.{
  ℕ, Bool, true, false, List, [], ◌∷◌, Checked, val, ◌>>=◌, checked_div, ltb, if◌then◌else◌,
}
use sando_rs.Constants.{weth_address}
use sando_rs.Packed.{PackedToken, address, number_with_shift, encode_packed}
use sando_rs.Pool.{Pool}
use sando_rs.Swap.{EncodedSwapValue, weth_encode_divisor}
use sando_rs.Swap.V2.{encode_four_bytes, encode_five_bytes}
use sando_rs.Labels.V2.{SandwichLogicV2, find_swap_type}

module _ (hex_encode : List ℕ → String) (logic : SandwichLogicV2) where
  unfoldable pub create_payload_weth_is_input :
      (block_number amount_in amount_out other_token : ℕ) (pair : Pool) → Checked (List ℕ × ℕ)
  create_payload_weth_is_input block_number amount_in amount_out other_token pair = do
    encoded_swap_value ← encode_four_bytes amount_out true (ltb weth_address other_token)
    swap_type ← find_swap_type logic false false true other_token
    (payload, _) ← encode_packed hex_encode (
        number_with_shift block_number 8
        ∷ number_with_shift swap_type 8
        ∷ number_with_shift encoded_swap_value.mem_offset 8
        ∷ address pair.address
        ∷ number_with_shift encoded_swap_value.encoded_value 32
        ∷ [])
    encoded_call_value ← checked_div amount_in weth_encode_divisor
    val (payload, encoded_call_value)

  unfoldable pub create_payload_weth_is_output :
      (block_number amount_in amount_out other_token : ℕ) (pair : Pool) → Checked (List ℕ × ℕ)
  create_payload_weth_is_output block_number amount_in amount_out other_token pair = do
    encoded_swap_value ← encode_four_bytes amount_in false (ltb weth_address other_token)
    swap_type ← find_swap_type logic false false false other_token
    (payload, _) ← encode_packed hex_encode (
        number_with_shift block_number 8
        ∷ number_with_shift swap_type 8
        ∷ number_with_shift encoded_swap_value.mem_offset 8
        ∷ address pair.address
        ∷ address other_token
        ∷ number_with_shift encoded_swap_value.encoded_value 32
        ∷ [])
    encoded_call_value ← checked_div amount_out weth_encode_divisor
    val (payload, encoded_call_value)

  -- Only the first payload carries the amount in as call value; a later one carries it in 5 bytes.
  pub create_multi_payload_weth_is_input :
      (block_number amount_in amount_out other_token : ℕ) (pair : Pool) (is_first : Bool)
      → Checked (List ℕ × ℕ)
  create_multi_payload_weth_is_input block_number amount_in amount_out other_token pair is_first =
      do
        encoded_out ← encode_four_bytes amount_out true (ltb weth_address other_token)
        swap_type ← find_swap_type logic true is_first true other_token
        encoded_amount_in ← checked_div amount_in weth_encode_divisor
        (payload, _) ←
            (if is_first
              then encode_packed hex_encode (
                  number_with_shift block_number 8
                  ∷ number_with_shift swap_type 8
                  ∷ number_with_shift encoded_out.mem_offset 8
                  ∷ address pair.address
                  ∷ number_with_shift encoded_out.encoded_value 32
                  ∷ [])
              else encode_packed hex_encode (
                  number_with_shift block_number 8
                  ∷ number_with_shift swap_type 8
                  ∷ number_with_shift encoded_out.mem_offset 8
                  ∷ address pair.address
                  ∷ number_with_shift encoded_out.encoded_value 32
                  ∷ number_with_shift encoded_amount_in 40
                  ∷ []))
        val (payload, if is_first then encoded_amount_in else 0)

  pub create_multi_payload_weth_is_output :
      (block_number amount_in amount_out other_token : ℕ) (pair : Pool) (is_first : Bool)
      → Checked (List ℕ × ℕ)
  create_multi_payload_weth_is_output block_number amount_in amount_out other_token pair is_first =
      do
        encoded_out ← encode_five_bytes amount_out (ltb weth_address other_token)
        swap_type ← find_swap_type logic true is_first false other_token
        encoded_in ← encode_four_bytes amount_in false (ltb weth_address other_token)
        (payload, _) ←
            (if is_first
              then encode_packed hex_encode (
                  number_with_shift block_number 8
                  ∷ number_with_shift swap_type 8
                  ∷ number_with_shift encoded_in.mem_offset 8
                  ∷ address pair.address
                  ∷ address other_token
                  ∷ number_with_shift encoded_in.encoded_value 32
                  ∷ number_with_shift encoded_out.mem_offset 8
                  ∷ [])
              else encode_packed hex_encode (
                  number_with_shift block_number 8
                  ∷ number_with_shift swap_type 8
                  ∷ number_with_shift encoded_in.mem_offset 8
                  ∷ address pair.address
                  ∷ address other_token
                  ∷ number_with_shift encoded_in.encoded_value 32
                  ∷ number_with_shift encoded_out.encoded_value 40
                  ∷ number_with_shift encoded_out.mem_offset 8
                  ∷ []))
        val (payload, if is_first then encoded_out.encoded_value else 0)
