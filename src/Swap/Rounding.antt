-- ===== src/Swap/Rounding.antt =====
-- What decoding gives back of an encoded amount: never more, how much less, and nothing less when
-- the amount is already a whole number of scaled units.
use native.Mathlib.Nat.{
  div-mul-le_self, lt-div-mul-add, mul-div_cancel, div-div-eq-div-mul, pow-le-pow_right, mul_assoc,
  pow-suc,
}
use native.Mathlib.Decide.{dec_le}
use sando_rs.Base.{
  ℕ, zero, suc, ◌+◌, ◌-◌, ◌*◌, ◌/◌, ◌^◌, ◌≤◌, ◌<◌, ◌≡◌, sym, ap, ◌∙◌, Bool, true, false, Checked,
  val, fit-val, u256_bound, arith,
}
use sando_rs.Base.Bytes.{two-pow-bits, pow_pos, pow-add}
use sando_rs.Swap.{EncodedSwapValue, decode, encode_weth, weth_encode_divisor}
use sando_rs.Swap.Scale.{IsScaled, true≢false}

pub decode-val :
    (v : EncodedSwapValue)
    → v.byte_shift ≤ 15
    → v.encoded_value * 256 ^ v.byte_shift < u256_bound
    → decode v ≡ val (v.encoded_value * 256 ^ v.byte_shift)
unfolding decode
decode-val v shift room = rw (fit-val u256_bound (8 * v.byte_shift) (omega arith)) (
    rw (two-pow-bits v.byte_shift) (
      rw (fit-val u256_bound (256 ^ v.byte_shift) small)
        (fit-val u256_bound (v.encoded_value * 256 ^ v.byte_shift) room)))
  where
    small : 256 ^ v.byte_shift < u256_bound
    small = omega (arith, pow-le-pow_right {n = 256} (omega arith) shift)

-- What is lost is less than one scaled unit, and there are at least `unit` of those.
share_lost :
    (amount p unit : ℕ)
    → 0 < p
    → unit ≤ amount / p
    → (amount - amount / p * p) * unit ≤ amount / p * p
share_lost amount p unit pos enough =
    mul_le (amount - amount / p * p) p unit (amount / p)
      (omega (arith, lt-div-mul-add {a = amount} pos)) enough
  where
    mul_le : (a b c d : ℕ) → a ≤ b → c ≤ d → a * c ≤ d * b
    mul_le a b c d h k = grind arith

loss_zero : (amount unit : ℕ) → (amount - amount / 1 * 1) * unit ≤ amount / 1 * 1
loss_zero amount unit =
    let none : amount - amount / 1 * 1 ≡ 0 = omega arith in rw none (omega arith)

loss_at :
    (amount s unit : ℕ)
    → ((j : ℕ) → j < s → 256 * unit ≤ amount / 256 ^ j)
    → (amount - amount / 256 ^ s * 256 ^ s) * unit ≤ amount / 256 ^ s * 256 ^ s
loss_at amount zero unit refused = loss_zero amount unit
loss_at amount (suc s) unit refused =
    share_lost amount (256 ^ suc s) unit (pow_pos (suc s))
      (rw (pow-suc 256 s) (rw (← div-div-eq-div-mul) (omega (arith, refused s (omega arith)))))

units_at :
    (amount s : ℕ) → 0 < amount → ((j : ℕ) → j < s → 256 ≤ amount / 256 ^ j) → 0 < amount / 256 ^ s
units_at amount zero pos refused = units_zero amount pos
  where
    units_zero : (n : ℕ) → 0 < n → 0 < n / 1
    units_zero n h = omega arith
units_at amount (suc s) pos refused =
    rw (pow-suc 256 s) (rw (← div-div-eq-div-mul) (omega (arith, refused s (omega arith))))

exact_at : (amount s k t : ℕ) → amount ≡ k * 256 ^ t → s ≤ t → amount / 256 ^ s * 256 ^ s ≡ amount
exact_at amount s k t whole h =
    rw units (ap (λ (q : ℕ). q * 256 ^ s) (mul-div_cancel (k * 256 ^ (t - s)) (pow_pos s)))
  where
    units : amount ≡ k * 256 ^ (t - s) * 256 ^ s
    units =
        whole
        ∙ ap (λ (n : ℕ). k * 256 ^ n) (omega arith)
        ∙ ap (λ (n : ℕ). k * n) (pow-add 256 (t - s) s)
        ∙ sym (mul_assoc k (256 ^ (t - s)) (256 ^ s))

module _ {accept : ℕ → Bool} {amount : ℕ} {r : Checked (ℕ × ℕ)}
    (e : IsScaled accept amount 0 r) where
  -- The amount that decoding gives back.
  abbrev pub rounded : ℕ
  rounded = amount / 256 ^ e.shift * 256 ^ e.shift

  pub rounded-le : rounded ≤ amount
  rounded-le = div-mul-le_self amount (256 ^ e.shift)

  pub lt-rounded-add : amount < rounded + 256 ^ e.shift
  lt-rounded-add = lt-div-mul-add (pow_pos e.shift)

  -- Where every refused value is at least `256 * unit`, at most one part in `unit` is lost.
  pub rounded-loss :
      (unit : ℕ)
      → ((n : ℕ) → accept n ≡ false → 256 * unit ≤ n)
      → (amount - rounded) * unit ≤ rounded
  rounded-loss unit refused =
      loss_at amount e.shift unit (λ j p. refused _ (e.first j (omega arith) p))

  -- A positive amount keeps at least one unit.
  pub units_pos : 0 < amount → ((n : ℕ) → accept n ≡ false → 256 ≤ n) → 0 < amount / 256 ^ e.shift
  units_pos pos refused = units_at amount e.shift pos (λ j p. refused _ (e.first j (omega arith) p))

  -- The shift is no larger than any accepted one.
  pub shift-le : (t : ℕ) → accept (amount / 256 ^ t) ≡ true → e.shift ≤ t
  shift-le t ok = elim (dec_le e.shift t) [
    | yes p ↦ p
    | no p ↦ absurd (true≢false (sym ok ∙ e.first t (omega arith) (omega arith)))
  ]

  -- A whole number of accepted units loses nothing.
  pub rounded_exact : (k t : ℕ) → amount ≡ k * 256 ^ t → accept k ≡ true → rounded ≡ amount
  rounded_exact k t whole ok =
      exact_at amount e.shift k t whole
        (shift-le t (rw whole (rw (mul-div_cancel k (pow_pos t)) ok)))

pub one_less : (units p : ℕ) → 0 < units → 0 < p → (units - 1) * p < units * p
one_less units p h q = grind arith

-- An amount below the divisor is encoded as zero.
pub encode_weth-zero : (amount : ℕ) → amount < weth_encode_divisor → encode_weth amount ≡ val 0
unfolding encode_weth
encode_weth-zero amount h = let q : amount / 4294967296 ≡ 0 = omega arith in ground (arith, q)
