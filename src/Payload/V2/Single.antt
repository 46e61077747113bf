-- ===== src/Payload/V2/Single.antt =====
-- What the contract reads from the payload of a single V2 swap from weth (`v2_input_single`).
use Prim.Native.String.{String}
use mathlib.Core.Path.{ap₂}
use sando_rs.Base.{
  ℕ, ◌+◌, ◌*◌, ◌/◌, ◌%◌, ◌^◌, ◌≤◌, ◌<◌, ◌≡◌, refl, ap, ◌∙◌, Bool, true, false, List, [], ◌∷◌,
  length, val, arith, ltb,
}
use sando_rs.Base.Bytes.{be_bytes, be_value, be_value-be_bytes, be_value-be_bytes_lt}
use sando_rs.Constants.{weth_address}
use sando_rs.Packed.{PackedToken, address, number_with_shift}
use sando_rs.Packed.Laws.{concat_bytes, encode_packed-eq}
use sando_rs.Pool.{Pool}
use sando_rs.Swap.{EncodedSwapValue}
use sando_rs.Swap.V2.{four_bytes_base, decode_intermediary}
use sando_rs.Swap.V2.Laws.{FitsFour, IsEncoded, encode_four_bytes-IsEncoded}
use sando_rs.Labels.V2.{new, find_swap_type-new}
use sando_rs.Payload.V2.{create_payload_weth_is_input}
use sando_rs.Labels.Gates.{entry, position, v2_input_single}
use sando_rs.Labels.Dispatch.{Runs, dispatch-Runs_gate}
use sando_rs.Payload.Layout.{field, stored, amount_out_end, weth_amount}

-- The fields of a payload for a swap from weth, with the label of its code.
abbrev pub input_tokens : ℕ → ℕ → EncodedSwapValue → ℕ → List PackedToken
input_tokens block label v pair =
    number_with_shift block 8
    ∷ number_with_shift label 8
    ∷ number_with_shift v.mem_offset 8
    ∷ address pair
    ∷ number_with_shift v.encoded_value 32
    ∷ []

-- The word of the swap call that the value is stored in ends 36 or 68 bytes into the memory.
stored_input :
    (z : Bool) (m s value : ℕ)
    → m + s ≡ four_bytes_base true z
    → stored (amount_out_end z) 4 m value ≡ value * 256 ^ s
unfolding four_bytes_base
stored_input true m s value e = ap (λ (k : ℕ). value * 256 ^ k) (omega arith)
stored_input false m s value e = ap (λ (k : ℕ). value * 256 ^ k) (omega arith)

pub mem_offset_lt : (i z : Bool) (m s : ℕ) → m + s ≡ four_bytes_base i z → m < 256 ^ 1
unfolding four_bytes_base
mem_offset_lt false z m s e = omega arith
mem_offset_lt true true m s e = omega arith
mem_offset_lt true false m s e = omega arith

pub stored_field :
    (z : Bool) (v : EncodedSwapValue)
    → v.encoded_value ≤ 2 ^ 31
    → v.mem_offset + v.byte_shift ≡ four_bytes_base true z
    → stored
        (amount_out_end z)
        4
        (be_value (be_bytes 1 v.mem_offset))
        (be_value (be_bytes 4 v.encoded_value))
      ≡ v.encoded_value * 256 ^ v.byte_shift
stored_field z v small e =
    ap₂ (stored (amount_out_end z) 4)
      (be_value-be_bytes_lt 1 v.mem_offset (mem_offset_lt true z v.mem_offset v.byte_shift e))
      (be_value-be_bytes_lt 4 v.encoded_value (omega arith))
    ∙ stored_input z v.mem_offset v.byte_shift v.encoded_value e

module _ (hex_encode : List ℕ → String) (block_number amount_in amount_out other_token : ℕ)
    (pair : Pool) where
  input-returns :
      (e : IsEncoded amount_out true (ltb weth_address other_token))
      → create_payload_weth_is_input hex_encode new block_number amount_in amount_out other_token
          pair
        ≡ val
            (concat_bytes (input_tokens block_number 48 e.encoded pair.address), amount_in / 2 ^ 32)
  unfolding create_payload_weth_is_input
  input-returns e = rw e.returns (
      rw (find_swap_type-new false false true other_token) (
        rw
          (encode_packed-eq hex_encode (input_tokens block_number 48 e.encoded pair.address)
            (omega arith))
          refl))

-- For an amount out that the four-byte encoding can hold, the payload of a single swap from weth is
-- 27 bytes, for which the contract runs its code for such a swap, if the searcher sends it in a
-- block whose number has the same low byte; in it the contract reads the pair, and an amount out
-- that is, once stored, the amount out after encoding and decoding; the call value stands for the
-- amount in, rounded down to a multiple of 2 ^ 32.
pub create_payload_weth_is_input_lem :
    (hex_encode : List ℕ → String) (block_number amount_in amount_out other_token : ℕ) (pair : Pool)
    → FitsFour amount_out
    → (payload : List ℕ) × (value d : ℕ) × (create_payload_weth_is_input hex_encode new block_number
          amount_in amount_out other_token pair
        ≡ val (payload, value))
      × (decode_intermediary amount_out true other_token ≡ val d)
      × (length payload ≡ 27)
      × Runs block_number (entry v2_input_single) payload
      × (field 3 20 payload ≡ pair.address % 256 ^ 20)
      × (stored
            (amount_out_end (ltb weth_address other_token))
            4
            (field 2 1 payload)
            (field 23 4 payload)
          ≡ d)
      × (weth_amount value ≡ amount_in / 2 ^ 32 * 2 ^ 32)
create_payload_weth_is_input_lem hex_encode block_number amount_in amount_out other_token pair h =
    let z = ltb weth_address other_token in
    let e = encode_four_bytes-IsEncoded amount_out true z h in
    let v = e.encoded in
    (
      concat_bytes (input_tokens block_number 48 v pair.address),
      amount_in / 2 ^ 32,
      v.encoded_value * 256 ^ v.byte_shift,
      input-returns hex_encode block_number amount_in amount_out other_token pair e,
      e.keeps true other_token,
      refl,
      dispatch-Runs_gate block_number 48 v2_input_single _
          (unfold entry in unfold position in refl),
      be_value-be_bytes 20 pair.address,
      stored_field z v e.four_bytes e.offset,
      refl,
    )
