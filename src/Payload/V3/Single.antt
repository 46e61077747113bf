-- ===== src/Payload/V3/Single.antt =====
-- What the contract reads from the payload of a single V3 swap (`v3_input0`, `v3_input1`,
-- `v3_output0`, `v3_output1`).
use Prim.Native.String.{String}
use mathlib.Core.Path.{ap₂}
use mathlib.Core.Path.{subst}
use native.Mathlib.Nat.{div-le_of_le-mul, mul-div_cancel, mul_assoc, mul_comm}
use sando_rs.Base.{
  ℕ, ◌+◌, ◌-◌, ◌*◌, ◌/◌, ◌%◌, ◌^◌, ◌≤◌, ◌<◌, ◌≡◌, not, refl, sym, ap, ◌∙◌, Bool, true, false, List,
  [], ◌∷◌, ◌++◌, take, drop, val, checked_minus-val, arith, ltb,
}
use mathlib.Core.List.{append-nil}
use sando_rs.Base.Bytes.{
  be_bytes, be_value, be_value-be_bytes, be_value-be_bytes_lt, be_bytes-append, pow-add,
  two-pow-bits, pow_pos,
}
use sando_rs.Library.{Hashing}
use sando_rs.Packed.{PackedToken, address, bytes, number_with_shift}
use sando_rs.Packed.Laws.{concat_bytes, encode_packed-eq}
use sando_rs.Pool.{Pool}
use sando_rs.Swap.{EncodedSwapValue}
use sando_rs.Swap.V3.{decode_intermediary}
use sando_rs.Swap.V3.Laws.{FitsBytes, IsEncoded, encode_num_bytes-IsEncoded}
use sando_rs.Labels.V3.{new, find_swap_type-new, offset}
use sando_rs.Payload.V3.{
  right_shift, pool_key_hash, create_payload_weth_is_input, create_payload_weth_is_output,
}
use sando_rs.Labels.Gates.{entry, v3_gate, v3_offset-entry}
use sando_rs.Labels.Dispatch.{Runs, dispatch-Runs_gate}
use sando_rs.Payload.Layout.{input_hash_start, field, shifted, weth_amount}

right_shift-val :
    (v : EncodedSwapValue) → v.byte_shift ≤ 15 → right_shift 5 v ≡ val ((27 - v.byte_shift) * 8)
unfolding right_shift
right_shift-val v h = rw (checked_minus-val 27 v.byte_shift (omega arith))

split : (s value : ℕ) → s ≤ 15 → value * 256 ^ 27 ≡ value * 256 ^ s * 256 ^ (27 - s)
split s value h =
    (let w : 27 ≡ s + (27 - s) = omega arith in ap (λ (k : ℕ). value * 256 ^ k) w)
    ∙ ap (λ (k : ℕ). value * k) (pow-add 256 s (27 - s))
    ∙ sym (mul_assoc value (256 ^ s) (256 ^ (27 - s)))

bits : (s : ℕ) → 2 ^ ((27 - s) * 8) ≡ 256 ^ (27 - s)
bits s = ap (λ (b : ℕ). 2 ^ b) (mul_comm (27 - s) 8) ∙ two-pow-bits (27 - s)

shifted-eq : (s value : ℕ) → s ≤ 15 → shifted 5 ((27 - s) * 8) value ≡ value * 256 ^ s
shifted-eq s value h =
    ap₂ (λ (n d : ℕ). n / d) (split s value h) (bits s)
    ∙ mul-div_cancel (value * 256 ^ s) (pow_pos (27 - s))

-- Without its last byte, the value stands for no more.
shifted-cut : (s value : ℕ) → s ≤ 15 → shifted 4 ((27 - s) * 8) (value / 256) ≤ value * 256 ^ s
shifted-cut s value h =
    let least : value / 256 * 256 ^ 28 ≤ value * 256 ^ 27 = omega arith in
    let whole : value * 256 ^ 27 ≡ 256 ^ (27 - s) * (value * 256 ^ s) =
      split s value h ∙ mul_comm (value * 256 ^ s) (256 ^ (27 - s)) in
    rw (bits s) (
      div-le_of_le-mul (256 ^ (27 - s)) {m = value / 256 * 256 ^ 28} {n = value * 256 ^ s}
        (subst (λ n. value / 256 * 256 ^ 28 ≤ n) whole least))

-- The amount that the contract computes from the shift byte and the five bytes behind it.
shifted_field :
    (v : EncodedSwapValue)
    → v.encoded_value < 256 ^ 5
    → v.byte_shift ≤ 15
    → shifted 5
        (be_value (be_bytes 1 ((27 - v.byte_shift) * 8)))
        (be_value (be_bytes 5 v.encoded_value))
      ≡ v.encoded_value * 256 ^ v.byte_shift
shifted_field v small h =
    ap₂ (shifted 5) (be_value-be_bytes_lt 1 ((27 - v.byte_shift) * 8) (omega arith))
      (be_value-be_bytes_lt 5 v.encoded_value small)
    ∙ shifted-eq v.byte_shift v.encoded_value h

-- The same from the first four bytes of the five.
shifted_cut :
    (v : EncodedSwapValue)
    → v.encoded_value < 256 ^ 5
    → v.byte_shift ≤ 15
    → shifted 4
        (be_value (be_bytes 1 ((27 - v.byte_shift) * 8)))
        (be_value (take 4 (be_bytes 5 v.encoded_value)))
      ≤ v.encoded_value * 256 ^ v.byte_shift
shifted_cut v small h =
    let first : be_value (take 4 (be_bytes 5 v.encoded_value)) ≡ v.encoded_value / 256 =
      ap (λ bs. be_value (take 4 bs)) (be_bytes-append 4 1 v.encoded_value)
      ∙ be_value-be_bytes_lt 4 (v.encoded_value / 256 ^ 1) (omega arith) in
    rw (first, be_value-be_bytes_lt 1 ((27 - v.byte_shift) * 8) (omega arith))
      (shifted-cut v.byte_shift v.encoded_value h)

output_entry : (o : Bool) → offset false false o ≡ entry (v3_gate false false (not o))
output_entry true = v3_offset-entry false false false
output_entry false = v3_offset-entry false false true

abbrev input_tokens : ℕ → ℕ → EncodedSwapValue → ℕ → List ℕ → List PackedToken
input_tokens block label v pool key =
    number_with_shift block 8
    ∷ number_with_shift label 8
    ∷ address pool
    ∷ number_with_shift ((27 - v.byte_shift) * 8) 8
    ∷ number_with_shift v.encoded_value 40
    ∷ bytes key
    ∷ []

abbrev output_tokens : ℕ → ℕ → EncodedSwapValue → ℕ → ℕ → List ℕ → List PackedToken
output_tokens block label v pool token key =
    number_with_shift block 8
    ∷ number_with_shift label 8
    ∷ address pool
    ∷ number_with_shift ((27 - v.byte_shift) * 8) 8
    ∷ number_with_shift v.encoded_value 40
    ∷ address token
    ∷ bytes key
    ∷ []

module _ (hex_encode : List ℕ → String) (hashing : Hashing)
    (block_number amount_in amount_out input output : ℕ) (pool : Pool) where
  input-returns :
      (e : IsEncoded amount_out)
      → create_payload_weth_is_input hex_encode hashing new block_number amount_in amount_out input
          output pool
        ≡ val (
          concat_bytes (
              input_tokens block_number
                (offset false true (ltb input output))
                e.encoded
                pool.address
                (pool_key_hash hashing pool)),
          amount_in / 2 ^ 32,
        )
  unfolding create_payload_weth_is_input
  input-returns e = rw (find_swap_type-new false true input output) (
      rw e.returns (
        rw (right_shift-val e.encoded e.shift_le) (
          rw
            (encode_packed-eq hex_encode
              (input_tokens block_number (offset false true (ltb input output)) e.encoded
                pool.address (pool_key_hash hashing pool))
              (omega arith))
            refl)))

  output-returns :
      (e : IsEncoded amount_in)
      → create_payload_weth_is_output hex_encode hashing new block_number amount_in amount_out input
          output pool
        ≡ val (
          concat_bytes (
              output_tokens block_number
                (offset false false (ltb input output))
                e.encoded
                pool.address
                input
                (pool_key_hash hashing pool)),
          amount_out / 2 ^ 32,
        )
  unfolding create_payload_weth_is_output
  output-returns e = rw (find_swap_type-new false false input output) (
      rw e.returns (
        rw (right_shift-val e.encoded e.shift_le) (
          rw
            (encode_packed-eq hex_encode
              (output_tokens block_number (offset false false (ltb input output)) e.encoded
                pool.address input (pool_key_hash hashing pool))
              (omega arith))
            refl)))

-- For an amount out that the five-byte encoding can hold, the payload of a single V3 swap from weth
-- makes the contract run its code for the order of the tokens, if the searcher sends it in a block
-- whose number has the same low byte, and has the pool. From the shift and the five bytes that
-- `v3_input0` reads, the amount out after encoding and decoding is computed, but from the four that
-- `v3_input1` reads no more than it. The pool's key hash stands behind the first 28 bytes, but the
-- word behind the first 27, which the contract reads as the hash, is the last byte of the amount
-- and 31 bytes of the hash. The call value stands for the amount in, rounded down to a multiple of
-- 2 ^ 32.
pub v3_create_payload_weth_is_input_lem :
    (hex_encode : List ℕ → String) (hashing : Hashing)
    (block_number amount_in amount_out input output : ℕ) (pool : Pool)
    → FitsBytes 5 amount_out
    → (payload : List ℕ) × (value d last : ℕ) × (create_payload_weth_is_input hex_encode hashing new
          block_number amount_in amount_out input output pool
        ≡ val (payload, value))
      × (decode_intermediary amount_out ≡ val d)
      × Runs block_number (entry (v3_gate false true (ltb input output))) payload
      × (field 2 20 payload ≡ pool.address % 256 ^ 20)
      × (shifted 5 (field 22 1 payload) (field 23 5 payload) ≡ d)
      × (shifted 4 (field 22 1 payload) (field 23 4 payload) ≤ d)
      × (drop 28 payload ≡ pool_key_hash hashing pool)
      × (take 5 (drop 23 payload) ≡ take 4 (drop 23 payload) ++ last ∷ [])
      × (take 32 (drop input_hash_start payload) ≡ last ∷ take 31 (pool_key_hash hashing pool))
      × (weth_amount value ≡ amount_in / 2 ^ 32 * 2 ^ 32)
v3_create_payload_weth_is_input_lem hex_encode hashing block_number amount_in amount_out input
      output pool h =
    let e = encode_num_bytes-IsEncoded amount_out h in
    let v = e.encoded in
    let o = ltb input output in
    (
      concat_bytes (
          input_tokens block_number (offset false true o) v pool.address
            (pool_key_hash hashing pool)),
      amount_in / 2 ^ 32,
      v.encoded_value * 256 ^ v.byte_shift,
      v.encoded_value / 256 ^ 0 % 256,
      input-returns hex_encode hashing block_number amount_in amount_out input output pool e,
      e.keeps,
      dispatch-Runs_gate block_number (offset false true o) (v3_gate false true o) _
          (v3_offset-entry false true o),
      be_value-be_bytes 20 pool.address,
      shifted_field v e.five_bytes e.shift_le,
      shifted_cut v e.five_bytes e.shift_le,
      append-nil (pool_key_hash hashing pool),
      refl,
      ap (λ bs. (v.encoded_value / 256 ^ 0 % 256) ∷ take 31 bs)
          (append-nil (pool_key_hash hashing pool)),
      refl,
    )

-- For an amount in that the five-byte encoding can hold, the payload of a single V3 swap into weth
-- makes the contract run its code for the order of the tokens, if the searcher sends it in a block
-- whose number has the same low byte, and has the pool, a shift
-- and a value from which the contract computes the amount in after encoding and decoding, the token
-- that goes in, and the pool's key hash behind the first 48 bytes; the call value stands for the
-- amount out, rounded down to a multiple of 2 ^ 32.
pub v3_create_payload_weth_is_output_lem :
    (hex_encode : List ℕ → String) (hashing : Hashing)
    (block_number amount_in amount_out input output : ℕ) (pool : Pool)
    → FitsBytes 5 amount_in
    → (payload : List ℕ) × (value d : ℕ) × (create_payload_weth_is_output hex_encode hashing new
          block_number amount_in amount_out input output pool
        ≡ val (payload, value))
      × (decode_intermediary amount_in ≡ val d)
      × Runs block_number (entry (v3_gate false false (not (ltb input output)))) payload
      × (field 2 20 payload ≡ pool.address % 256 ^ 20)
      × (shifted 5 (field 22 1 payload) (field 23 5 payload) ≡ d)
      × (field 28 20 payload ≡ input % 256 ^ 20)
      × (drop 48 payload ≡ pool_key_hash hashing pool)
      × (weth_amount value ≡ amount_out / 2 ^ 32 * 2 ^ 32)
v3_create_payload_weth_is_output_lem hex_encode hashing block_number amount_in amount_out input
      output pool h =
    let e = encode_num_bytes-IsEncoded amount_in h in
    let v = e.encoded in
    let o = ltb input output in
    (
      concat_bytes (
          output_tokens block_number (offset false false o) v pool.address input
            (pool_key_hash hashing pool)),
      amount_out / 2 ^ 32,
      v.encoded_value * 256 ^ v.byte_shift,
      output-returns hex_encode hashing block_number amount_in amount_out input output pool e,
      e.keeps,
      dispatch-Runs_gate block_number (offset false false o) (v3_gate false false (not o)) _
          (output_entry o),
      be_value-be_bytes 20 pool.address,
      shifted_field v e.five_bytes e.shift_le,
      be_value-be_bytes 20 input,
      append-nil (pool_key_hash hashing pool),
      refl,
    )
