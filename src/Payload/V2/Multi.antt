-- ===== src/Payload/V2/Multi.antt =====
-- A multi payload that follows another one: where the contract looks for the label of its code.
use Prim.Native.String.{String}
use sando_rs.Base.{
  ℕ, suc, ◌/◌, ◌%◌, ◌^◌, ◌≡◌, refl, true, false, List, [], ◌∷◌, ◌++◌, length, val, arith, ltb,
}
use sando_rs.Base.Bytes.{be_value-be_bytes}
use sando_rs.Constants.{weth_address}
use sando_rs.Packed.{PackedToken, address, number_with_shift}
use sando_rs.Packed.Laws.{concat_bytes, encode_packed-eq}
use sando_rs.Pool.{Pool}
use sando_rs.Swap.{EncodedSwapValue}
use sando_rs.Swap.V2.Laws.{FitsFour, IsEncoded, encode_four_bytes-IsEncoded}
use sando_rs.Labels.V2.{new, find_swap_type-new}
use sando_rs.Payload.V2.{create_multi_payload_weth_is_input}
use sando_rs.Payload.V2.Single.{input_tokens}
use sando_rs.Payload.Layout.{field}

abbrev next_tokens : ℕ → EncodedSwapValue → ℕ → ℕ → List PackedToken
next_tokens block v pair amount =
    number_with_shift block 8
    ∷ number_with_shift 88 8
    ∷ number_with_shift v.mem_offset 8
    ∷ address pair
    ∷ number_with_shift v.encoded_value 32
    ∷ number_with_shift amount 40
    ∷ []

module _ (hex_encode : List ℕ → String) (block_number amount_in amount_out other_token : ℕ)
    (pair : Pool) (e : IsEncoded amount_out true (ltb weth_address other_token)) where
  first-returns :
      create_multi_payload_weth_is_input hex_encode new block_number amount_in amount_out
        other_token pair true
      ≡ val (concat_bytes (input_tokens block_number 83 e.encoded pair.address), amount_in / 2 ^ 32)
  unfolding create_multi_payload_weth_is_input
  first-returns = rw e.returns (
      rw (find_swap_type-new true true true other_token) (
        rw
          (encode_packed-eq hex_encode (input_tokens block_number 83 e.encoded pair.address)
            (omega arith))
          refl))

  next-returns :
      create_multi_payload_weth_is_input hex_encode new block_number amount_in amount_out
        other_token pair false
      ≡ val (concat_bytes (next_tokens block_number e.encoded pair.address (amount_in / 2 ^ 32)), 0)
  unfolding create_multi_payload_weth_is_input
  next-returns = rw e.returns (
      rw (find_swap_type-new true false true other_token) (
        rw
          (encode_packed-eq hex_encode
            (next_tokens block_number e.encoded pair.address (amount_in / 2 ^ 32)) (omega arith))
          refl))

-- Where the code of `v2_input_multi_first` reads the label of the next swap, behind the 27 bytes of
-- the first payload.
abbrev pub next_label_at : ℕ
next_label_at = 27

-- Of two payloads for swaps from weth of amounts that the encoding can hold, one behind the other
-- as the bot joins them, the byte that the contract takes for the second swap's label is the low
-- byte of the block number; the label, 88, is the byte after it.
next_payload_starts_with_block :
    (hex_encode : List ℕ → String) (block_number in1 out1 token1 in2 out2 token2 : ℕ)
    (pair1 pair2 : Pool)
    → FitsFour out1
    → FitsFour out2
    → (p1 p2 : List ℕ) × (v1 v2 : ℕ) × (create_multi_payload_weth_is_input hex_encode new
          block_number in1 out1 token1 pair1 true
        ≡ val (p1, v1))
      × (create_multi_payload_weth_is_input hex_encode new block_number in2 out2 token2 pair2 false
          ≡ val (p2, v2))
      × (length p1 ≡ next_label_at)
      × (field next_label_at 1 (p1 ++ p2) ≡ block_number % 256)
      × (field (suc next_label_at) 1 (p1 ++ p2) ≡ 88)
next_payload_starts_with_block hex_encode block_number in1 out1 token1 in2 out2 token2 pair1 pair2
      h1 h2 =
    let e1 = encode_four_bytes-IsEncoded out1 true (ltb weth_address token1) h1 in
    let e2 = encode_four_bytes-IsEncoded out2 true (ltb weth_address token2) h2 in
    (
      concat_bytes (input_tokens block_number 83 e1.encoded pair1.address),
      concat_bytes (next_tokens block_number e2.encoded pair2.address (in2 / 2 ^ 32)),
      in1 / 2 ^ 32,
      0,
      first-returns hex_encode block_number in1 out1 token1 pair1 e1,
      next-returns hex_encode block_number in2 out2 token2 pair2 e2,
      refl,
      be_value-be_bytes 1 block_number,
      refl,
    )
