-- ===== src/Payload/V2/Output.antt =====
-- What the contract reads from the payload of a single V2 swap into weth (`v2_output0_single`,
-- `v2_output1_single`).
use Prim.Native.String.{String}
use mathlib.Core.Path.{ap₂}
use sando_rs.Base.{
  ℕ, ◌+◌, ◌*◌, ◌/◌, ◌%◌, ◌^◌, ◌≤◌, ◌≡◌, refl, ap, ◌∙◌, Bool, true, false, List, [], ◌∷◌, length,
  val, arith, ltb, if◌then◌else◌,
}
use sando_rs.Base.Bytes.{be_bytes, be_value, be_value-be_bytes, be_value-be_bytes_lt}
use sando_rs.Constants.{weth_address}
use sando_rs.Packed.{PackedToken, address, number_with_shift}
use sando_rs.Packed.Laws.{concat_bytes, encode_packed-eq}
use sando_rs.Pool.{Pool}
use sando_rs.Swap.{EncodedSwapValue}
use sando_rs.Swap.V2.{four_bytes_base, decode_intermediary}
use sando_rs.Swap.V2.Laws.{FitsFour, IsEncoded, encode_four_bytes-IsEncoded}
use sando_rs.Labels.V2.{new, find_swap_type-new, offset}
use sando_rs.Payload.V2.{create_payload_weth_is_output}
use sando_rs.Payload.V2.Single.{mem_offset_lt}
use sando_rs.Labels.Gates.{Gate, entry, position, v2_output0_single, v2_output1_single}
use sando_rs.Labels.Dispatch.{Runs, dispatch-Runs_gate}
use sando_rs.Payload.Layout.{field, stored, transfer_value_end, weth_amount}

-- The fields of a payload for a swap into weth, with the label of its code.
abbrev output_tokens : ℕ → ℕ → EncodedSwapValue → ℕ → ℕ → List PackedToken
output_tokens block label v pair token =
    number_with_shift block 8
    ∷ number_with_shift label 8
    ∷ number_with_shift v.mem_offset 8
    ∷ address pair
    ∷ address token
    ∷ number_with_shift v.encoded_value 32
    ∷ []

-- The gate for a swap into weth, by the order of the two tokens.
abbrev pub output_gate : Bool → Gate
output_gate weth_is_token0 = if weth_is_token0 then v2_output0_single else v2_output1_single

label_entry : (z : Bool) → offset false false false z ≡ entry (output_gate z)
unfolding entry position
label_entry true = refl
label_entry false = refl

stored_value :
    (z : Bool) (v : EncodedSwapValue)
    → v.encoded_value ≤ 2 ^ 31
    → v.mem_offset + v.byte_shift ≡ four_bytes_base false z
    → stored transfer_value_end 4
        (be_value (be_bytes 1 v.mem_offset))
        (be_value (be_bytes 4 v.encoded_value))
      ≡ v.encoded_value * 256 ^ v.byte_shift
stored_value z v small e =
    ap₂ (stored transfer_value_end 4)
      (be_value-be_bytes_lt 1 v.mem_offset (mem_offset_lt false z v.mem_offset v.byte_shift e))
      (be_value-be_bytes_lt 4 v.encoded_value (omega arith))
    ∙ ap (λ (k : ℕ). v.encoded_value * 256 ^ k) (unfold four_bytes_base in omega arith)

module _ (hex_encode : List ℕ → String) (block_number amount_in amount_out other_token : ℕ)
    (pair : Pool) where
  output-returns :
      (e : IsEncoded amount_in false (ltb weth_address other_token))
      → create_payload_weth_is_output hex_encode new block_number amount_in amount_out other_token
          pair
        ≡ val (
          concat_bytes (
              output_tokens block_number
                (offset false false false (ltb weth_address other_token))
                e.encoded
                pair.address
                other_token),
          amount_out / 2 ^ 32,
        )
  unfolding create_payload_weth_is_output
  output-returns e = rw e.returns (
      rw (find_swap_type-new false false false other_token) (
        rw
          (encode_packed-eq hex_encode
            (output_tokens block_number (offset false false false (ltb weth_address other_token))
              e.encoded pair.address other_token)
            (omega arith))
          refl))

-- For an amount in that the four-byte encoding can hold, the payload of a single swap into weth is
-- 47 bytes, for which the contract runs its code for the order of the two tokens, if the searcher
-- sends it in a block whose number has the same low byte; in it the contract reads the pair, the
-- token, and an amount that is, once stored, the amount in after encoding and decoding; the call
-- value stands for the amount out, rounded down to a multiple of 2 ^ 32.
pub create_payload_weth_is_output_lem :
    (hex_encode : List ℕ → String) (block_number amount_in amount_out other_token : ℕ) (pair : Pool)
    → FitsFour amount_in
    → (payload : List ℕ) × (value d : ℕ) × (create_payload_weth_is_output hex_encode new
          block_number amount_in amount_out other_token pair
        ≡ val (payload, value))
      × (decode_intermediary amount_in false other_token ≡ val d)
      × (length payload ≡ 47)
      × Runs block_number (entry (output_gate (ltb weth_address other_token))) payload
      × (field 3 20 payload ≡ pair.address % 256 ^ 20)
      × (field 23 20 payload ≡ other_token % 256 ^ 20)
      × (stored transfer_value_end 4 (field 2 1 payload) (field 43 4 payload) ≡ d)
      × (weth_amount value ≡ amount_out / 2 ^ 32 * 2 ^ 32)
create_payload_weth_is_output_lem hex_encode block_number amount_in amount_out other_token pair h =
    let z = ltb weth_address other_token in
    let e = encode_four_bytes-IsEncoded amount_in false z h in
    let v = e.encoded in
    (
      concat_bytes
          (output_tokens block_number (offset false false false z) v pair.address other_token),
      amount_out / 2 ^ 32,
      v.encoded_value * 256 ^ v.byte_shift,
      output-returns hex_encode block_number amount_in amount_out other_token pair e,
      e.keeps false other_token,
      refl,
      dispatch-Runs_gate block_number (offset false false false z) (output_gate z) _
          (label_entry z),
      be_value-be_bytes 20 pair.address,
      be_value-be_bytes 20 other_token,
      stored_value z v e.four_bytes e.offset,
      refl,
    )
