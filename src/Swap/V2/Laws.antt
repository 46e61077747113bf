-- ===== src/Swap/V2/Laws.antt =====
-- What the four-byte encoding of v2.rs keeps of an amount.
use native.Mathlib.Nat.{le_trans}
use sando_rs.Base.{
  ◌⊎◌, inl, inr, ℕ, ◌+◌, ◌-◌, ◌*◌, ◌/◌, ◌^◌, ◌≤◌, ◌<◌, ◌≡◌, refl, ap, ◌∙◌, Bool, true, false, val,
  panic, checked_minus-val, u256_bound, arith, le→leb, leb→le, leb→lt, lt→leb, ltb,
}
use sando_rs.Base.Bytes.{pow_pos}
use sando_rs.Constants.{weth_address}
use sando_rs.Swap.{EncodedSwapValue, scale_down}
use sando_rs.Swap.Scale.{IsScaled, scale_down-IsScaled, scale_down-panic, div-pow_antitone}
use sando_rs.Swap.Rounding.{
  one_less, decode-val, rounded, rounded-le, rounded-loss, rounded_exact, units_pos,
}
use sando_rs.Swap.V2.{
  four_bytes_accept, four_bytes_base, encode_four_bytes, encode_intermediary_token,
  decode_intermediary,
}

-- Some shift of at most 15 bytes brings the amount down to 2 ^ 31.
abbrev pub FitsFour : ℕ → Type 0
FitsFour amount = amount / 2 ^ 120 ≤ 2 ^ 31

scaled :
    (amount : ℕ)
    → FitsFour amount
    → IsScaled four_bytes_accept amount 0 (scale_down (λ n. val (four_bytes_accept n)) amount 32 0)
scaled amount h =
    scale_down-IsScaled four_bytes_accept amount 32 0 (omega arith) (omega arith)
      (le→leb (amount / 256 ^ 15) (2 ^ 31) h)

base_large : (i z : Bool) → 15 ≤ four_bytes_base i z
unfolding four_bytes_base
base_large false z = omega arith
base_large true true = omega arith
base_large true false = omega arith

encode_four_bytes-val :
    (amount : ℕ) (i z : Bool) (h : FitsFour amount)
    → let s = (scaled amount h).shift in
      encode_four_bytes amount i z
      ≡ val (record {
        encoded_value = amount / 256 ^ s;
        mem_offset = four_bytes_base i z - s;
        byte_shift = s;
      })
unfolding encode_four_bytes
encode_four_bytes-val amount i z h = rw ((scaled amount h).returns) (
    rw
      (checked_minus-val (four_bytes_base i z) (scaled amount h).shift
        (le_trans (scaled amount h).at_most (base_large i z)))
      refl)

refused : (n : ℕ) → four_bytes_accept n ≡ false → 256 * 2 ^ 23 ≤ n
refused n h = omega (arith, leb→lt n (2 ^ 31) h)

room : (amount d : ℕ) → FitsFour amount → d ≤ amount → d < u256_bound
room amount d h le = omega arith

-- What decoding gives back of an amount in range.
kept : (amount : ℕ) → FitsFour amount → ℕ
kept amount h = rounded (scaled amount h)

decode_intermediary-kept :
    (amount : ℕ) (i : Bool) (a : ℕ) (h : FitsFour amount)
    → decode_intermediary amount i a ≡ val (kept amount h)
unfolding decode_intermediary kept
decode_intermediary-kept amount i a h = rw (encode_four_bytes-val amount i (ltb weth_address a) h) (
    decode-val _ (scaled amount h).at_most
      (room amount (rounded (scaled amount h)) h (rounded-le (scaled amount h))))

-- A number of accepted units is kept whole.
kept_exact :
    (k t : ℕ) (h : FitsFour (k * 256 ^ t)) → k ≤ 2 ^ 31 → kept (k * 256 ^ t) h ≡ k * 256 ^ t
unfolding kept
kept_exact k t h small = rounded_exact (scaled (k * 256 ^ t) h) k t refl (le→leb k (2 ^ 31) small)

decode_units :
    (k t : ℕ)
    → FitsFour (k * 256 ^ t)
    → k ≤ 2 ^ 31
    → (j : Bool) (b : ℕ) → decode_intermediary (k * 256 ^ t) j b ≡ val (k * 256 ^ t)
decode_units k t h small j b =
    decode_intermediary-kept (k * 256 ^ t) j b h ∙ ap val (kept_exact k t h small)

FitsFour-le : (amount d : ℕ) → FitsFour amount → d ≤ amount → FitsFour d
FitsFour-le amount d h le = omega arith

-- All that a payload needs of an encoded amount.
pub record IsEncoded (amount : ℕ) (i z : Bool) : Type 0 where
  pub encoded : EncodedSwapValue
  pub returns : encode_four_bytes amount i z ≡ val encoded
  pub four_bytes : encoded.encoded_value ≤ 2 ^ 31
  pub offset : encoded.mem_offset + encoded.byte_shift ≡ four_bytes_base i z
  pub keeps :
      (j : Bool) (a : ℕ)
      → decode_intermediary amount j a ≡ val (encoded.encoded_value * 256 ^ encoded.byte_shift)

pub encode_four_bytes-IsEncoded : (amount : ℕ) (i z : Bool) → FitsFour amount → IsEncoded amount i z
unfolding kept
encode_four_bytes-IsEncoded amount i z h =
    let e = scaled amount h in
    record {
      encoded = record {
        encoded_value = amount / 256 ^ e.shift;
        mem_offset = four_bytes_base i z - e.shift;
        byte_shift = e.shift;
      };
      returns = encode_four_bytes-val amount i z h;
      four_bytes = leb→le _ _ e.accepted;
      offset = omega (arith, base_large i z, e.at_most);
      keeps = λ j a. decode_intermediary-kept amount j a h;
    }

-- For an amount in range, decoding after encoding gives no more than the amount, loses at most one
-- part in 2 ^ 23 of what it gives, and, done again, whatever the direction and the token, gives
-- the same.
pub decode_intermediary_lem :
    (amount : ℕ) (i j : Bool) (a b : ℕ)
    → FitsFour amount
    → (d : ℕ) × (decode_intermediary amount i a ≡ val d)
      × (d ≤ amount)
      × ((amount - d) * 2 ^ 23 ≤ d)
      × (decode_intermediary d j b ≡ val d)
decode_intermediary_lem amount i j a b h = (
  kept amount h,
  decode_intermediary-kept amount i a h,
  unfold kept in rounded-le (scaled amount h),
  unfold kept in rounded-loss (scaled amount h) (2 ^ 23) refused,
  unfold kept in
      decode_units (amount / 256 ^ (scaled amount h).shift) (scaled amount h).shift
        (FitsFour-le amount (rounded (scaled amount h)) h (rounded-le (scaled amount h)))
        (leb→le _ _ (scaled amount h).accepted) j b,
)

token-val :
    (amount : ℕ) (i : Bool) (a : ℕ) (h : FitsFour amount)
    → 0 < amount / 256 ^ (scaled amount h).shift
    → encode_intermediary_token amount i a
      ≡ val ((amount / 256 ^ (scaled amount h).shift - 1) * 256 ^ (scaled amount h).shift)
unfolding encode_intermediary_token
token-val amount i a h pos = rw (encode_four_bytes-val amount i (ltb weth_address a) h) (
    rw (checked_minus-val (amount / 256 ^ (scaled amount h).shift) 1 pos) (
      decode-val _ (scaled amount h).at_most (
        room amount _ h (
          le_trans
            (less_units (amount / 256 ^ (scaled amount h).shift) (256 ^ (scaled amount h).shift))
            (rounded-le (scaled amount h))))))
  where
    less_units : (units p : ℕ) → (units - 1) * p ≤ units * p
    less_units units p = grind arith

-- For a positive amount in range, `encode_intermediary_token` gives strictly less than decoding
-- after encoding does, and a number that the encoding keeps whole.
pub encode_intermediary_token-lt :
    (amount : ℕ) (i j : Bool) (a b : ℕ)
    → FitsFour amount
    → 0 < amount
    → (r d : ℕ) × (encode_intermediary_token amount i a ≡ val r)
      × (decode_intermediary amount i a ≡ val d)
      × (r < d)
      × (decode_intermediary r j b ≡ val r)
encode_intermediary_token-lt amount i j a b h pos =
    let e = scaled amount h in
    let s = e.shift in
    let units = amount / 256 ^ s in
    let some_units : 0 < units = units_pos e pos (λ n f. omega (arith, refused n f)) in
    let less : (units - 1) * 256 ^ s < units * 256 ^ s =
      one_less units (256 ^ s) some_units (pow_pos s) in
    let fits : FitsFour ((units - 1) * 256 ^ s) =
      FitsFour-le amount _ h (le_trans (omega (arith, less)) (rounded-le e)) in
    (
      (units - 1) * 256 ^ s,
      kept amount h,
      token-val amount i a h some_units,
      decode_intermediary-kept amount i a h,
      unfold kept in less,
      decode_units (units - 1) s fits (omega (arith, leb→le _ _ e.accepted)) j b,
    )

zero_scaled : scale_down (λ n. val (four_bytes_accept n)) 0 32 0 ≡ val (0, 0)
unfolding scale_down
zero_scaled = refl

zero_panics : (i : Bool) (a : ℕ) → encode_intermediary_token 0 i a ≡ panic
unfolding encode_intermediary_token encode_four_bytes
zero_panics i a =
    rw zero_scaled (rw (checked_minus-val (four_bytes_base i (ltb weth_address a)) 0 (omega arith)))

out_of_range : (amount : ℕ) (i z : Bool) → ¬ FitsFour amount → encode_four_bytes amount i z ≡ panic
unfolding encode_four_bytes
out_of_range amount i z h =
    let overflow =
      scale_down-panic four_bytes_accept amount 32 0 (omega arith) (omega arith)
        (λ j below. lt→leb (omega (arith, div-pow_antitone amount j 15 below))) in
    rw overflow

-- `encode_intermediary_token` panics on zero, of which no unit can be left to take away, and on an
-- amount that does not fit within 15 bytes of shift.
encode_intermediary_token-panic :
    (amount : ℕ) (i : Bool) (a : ℕ)
    → (amount ≡ 0) ⊎ (¬ FitsFour amount)
    → encode_intermediary_token amount i a ≡ panic
encode_intermediary_token-panic amount i a (inl e) = rw e (zero_panics i a)
encode_intermediary_token-panic amount i a (inr h) =
    unfold encode_intermediary_token in rw (out_of_range amount i (ltb weth_address a) h)
