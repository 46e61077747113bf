-- ===== src/Swap/V3/Laws.antt =====
-- What the encoding of v3.rs in a given number of bytes keeps of an amount.
use mathlib.Core.Path.{fun_ext}
use native.Mathlib.Nat.{le_trans, mul_comm, pow-le-pow_right}
use sando_rs.Base.{
  ℕ, ◌-◌, ◌*◌, ◌/◌, ◌^◌, ◌≤◌, ◌<◌, ◌≡◌, refl, ap, ◌∙◌, Bool, false, val, fit-val, checked_minus-val,
  u256_bound, arith, ltb, lt→ltb, ltb→lt, ltb→le,
}
use sando_rs.Base.Bytes.{pow_pos, two-pow-bits}
use sando_rs.Swap.{EncodedSwapValue, scale_down}
use sando_rs.Swap.Scale.{IsScaled, scale_down-IsScaled}
use sando_rs.Swap.Rounding.{
  one_less, decode-val, rounded, rounded-le, rounded-loss, rounded_exact, units_pos,
}
use sando_rs.Swap.V3.{
  num_bytes_accept, encode_num_bytes, encode_intermediary_token, decode_intermediary,
}

-- Below this the test of the loop is `n < 256 ^ num_bytes`.
abbrev pub accepts : ℕ → ℕ → Bool
accepts num_bytes n = ltb n (256 ^ num_bytes)

abbrev pub FitsBytes : ℕ → ℕ → Type 0
FitsBytes num_bytes amount = amount / 2 ^ 120 < 256 ^ num_bytes

accept-eq : (k : ℕ) → k ≤ 31 → num_bytes_accept k ≡ (λ n. val (accepts k n))
unfolding num_bytes_accept
accept-eq k h = fun_ext λ n. rw (fit-val 256 (k * 8) (omega arith)) (
    rw (mul_comm k 8) (
      rw (two-pow-bits k) (
        rw
          (fit-val u256_bound (256 ^ k) (omega (arith, pow-le-pow_right {n = 256} (omega arith) h)))
          refl)))

pub scaled :
    (k amount : ℕ)
    → FitsBytes k amount
    → IsScaled (accepts k) amount 0 (scale_down (λ n. val (accepts k n)) amount 32 0)
scaled k amount h =
    scale_down-IsScaled (accepts k) amount 32 0 (omega arith) (omega arith)
      (lt→ltb (amount / 256 ^ 15) (256 ^ k) h)

pub encode_num_bytes-val :
    (k amount : ℕ)
    → k ≤ 31
    → (h : FitsBytes k amount)
    → let s = (scaled k amount h).shift in
      encode_num_bytes amount k
      ≡ val (record { encoded_value = amount / 256 ^ s; mem_offset = 68 - k - s; byte_shift = s })
unfolding encode_num_bytes
encode_num_bytes-val k amount small h =
    let e = scaled k amount h in
    rw (accept-eq k small) (
      rw (e.returns) (
        rw (checked_minus-val 68 k (omega arith))
          (rw (checked_minus-val (68 - k) e.shift (omega (arith, e.at_most))) refl)))

refused : (n : ℕ) → accepts 5 n ≡ false → 256 * 2 ^ 32 ≤ n
refused n h = omega (arith, ltb→le n (256 ^ 5) h)

room : (amount d : ℕ) → FitsBytes 5 amount → d ≤ amount → d < u256_bound
room amount d h le = omega arith

FitsBytes-le : (amount d : ℕ) → FitsBytes 5 amount → d ≤ amount → FitsBytes 5 d
FitsBytes-le amount d h le = omega arith

-- What decoding gives back of an amount in range.
kept : (amount : ℕ) → FitsBytes 5 amount → ℕ
kept amount h = rounded (scaled 5 amount h)

decode_intermediary-kept :
    (amount : ℕ) (h : FitsBytes 5 amount) → decode_intermediary amount ≡ val (kept amount h)
unfolding decode_intermediary kept
decode_intermediary-kept amount h =
    let e = scaled 5 amount h in
    rw (encode_num_bytes-val 5 amount (omega arith) h)
      (decode-val _ e.at_most (room amount (rounded e) h (rounded-le e)))

decode_units :
    (k t : ℕ)
    → FitsBytes 5 (k * 256 ^ t)
    → k < 256 ^ 5
    → decode_intermediary (k * 256 ^ t) ≡ val (k * 256 ^ t)
unfolding kept
decode_units k t h small =
    decode_intermediary-kept (k * 256 ^ t) h
    ∙ ap val (rounded_exact (scaled 5 (k * 256 ^ t) h) k t refl (lt→ltb k (256 ^ 5) small))

-- All that a payload needs of an amount encoded in five bytes.
pub record IsEncoded (amount : ℕ) : Type 0 where
  pub encoded : EncodedSwapValue
  pub returns : encode_num_bytes amount 5 ≡ val encoded
  pub five_bytes : encoded.encoded_value < 256 ^ 5
  pub shift_le : encoded.byte_shift ≤ 15
  pub keeps : decode_intermediary amount ≡ val (encoded.encoded_value * 256 ^ encoded.byte_shift)

pub encode_num_bytes-IsEncoded : (amount : ℕ) → FitsBytes 5 amount → IsEncoded amount
unfolding kept
encode_num_bytes-IsEncoded amount h =
    let e = scaled 5 amount h in
    record {
      encoded = record {
        encoded_value = amount / 256 ^ e.shift;
        mem_offset = 68 - 5 - e.shift;
        byte_shift = e.shift;
      };
      returns = encode_num_bytes-val 5 amount (omega arith) h;
      five_bytes = ltb→lt _ _ e.accepted;
      shift_le = e.at_most;
      keeps = decode_intermediary-kept amount h;
    }

-- For an amount in range, decoding after encoding gives no more than the amount, loses at most one
-- part in 2 ^ 32 of what it gives, and, done again, gives the same.
pub v3_decode_intermediary_lem :
    (amount : ℕ)
    → FitsBytes 5 amount
    → (d : ℕ) × (decode_intermediary amount ≡ val d)
      × (d ≤ amount)
      × ((amount - d) * 2 ^ 32 ≤ d)
      × (decode_intermediary d ≡ val d)
v3_decode_intermediary_lem amount h =
    let e = scaled 5 amount h in
    (
      kept amount h,
      decode_intermediary-kept amount h,
      unfold kept in rounded-le e,
      unfold kept in rounded-loss e (2 ^ 32) refused,
      unfold kept in
          decode_units (amount / 256 ^ e.shift) e.shift
            (FitsBytes-le amount (rounded e) h (rounded-le e)) (ltb→lt _ _ e.accepted),
    )

-- For a positive amount in range, `encode_intermediary_token` gives strictly less than decoding
-- after encoding does, and a number that the encoding keeps whole.
v3_encode_intermediary_token-lt :
    (amount : ℕ)
    → FitsBytes 5 amount
    → 0 < amount
    → (r d : ℕ) × (encode_intermediary_token amount ≡ val r)
      × (decode_intermediary amount ≡ val d)
      × (r < d)
      × (decode_intermediary r ≡ val r)
v3_encode_intermediary_token-lt amount h pos =
    let e = scaled 5 amount h in
    let s = e.shift in
    let units = amount / 256 ^ s in
    let some_units : 0 < units = units_pos e pos (λ n f. omega (arith, refused n f)) in
    let less : (units - 1) * 256 ^ s < units * 256 ^ s =
      one_less units (256 ^ s) some_units (pow_pos s) in
    let below : (units - 1) * 256 ^ s ≤ amount = le_trans (omega (arith, less)) (rounded-le e) in
    (
      (units - 1) * 256 ^ s,
      kept amount h,
      unfold encode_intermediary_token in
          rw (encode_num_bytes-val 5 amount (omega arith) h) (
            rw (checked_minus-val units 1 some_units)
              (decode-val _ e.at_most (room amount _ h below))),
      decode_intermediary-kept amount h,
      unfold kept in less,
      decode_units (units - 1) s (FitsBytes-le amount _ h below)
          (omega (arith, ltb→lt _ _ e.accepted)),
    )
