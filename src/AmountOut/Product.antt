-- ===== src/AmountOut/Product.antt =====
-- What the formula for the amount out keeps of the product of the reserves.
use native.Mathlib.Nat.{div-mul-le_self, div-le_of_le-mul}
use sando_rs.Base.{
  ℕ, ◌+◌, ◌-◌, ◌*◌, ◌/◌, ◌^◌, ◌≤◌, ◌<◌, ◌≡◌, refl, ap, Bool-cases, inl, inr, val, ok, u256_bound,
  fit-val, ltb, ltb→lt, ltb→le, ◌==◌, ==_iff, arith,
}
use sando_rs.AmountOut.{amount_out_of, get_amount_out_evm_v2}

keeps_product :
    (x a out left : ℕ) → out * (x + a) ≤ a * (out + left) → x * (out + left) ≤ (x + a) * left
keeps_product x a out left h = grind arith

out_le : (x a r : ℕ) → a * r / (x + a) ≤ r
out_le x a r = div-le_of_le-mul (x + a) (grind arith)

formula_keeps : (x a r : ℕ) → x * r ≤ (x + a) * (r - a * r / (x + a))
formula_keeps x a r =
    let out = a * r / (x + a) in
    let left = r - out in
    let split : r ≡ out + left = omega (arith, out_le x a r) in
    let under : out * (x + a) ≤ a * r = div-mul-le_self (a * r) (x + a) in
    let whole : a * r ≡ a * (out + left) = ap (λ k. a * k) split in
    let whole_x : x * r ≡ x * (out + left) = ap (λ k. x * k) split in
    let kept : x * (out + left) ≤ (x + a) * left =
      keeps_product x a out left
        (let w : out * (x + a) ≤ a * (out + left) = omega (arith, under, whole) in w) in
    omega (arith, kept, whole_x)

amount_out_of-val :
    (amount_in x r : ℕ)
    → amount_in < 2 ^ 118
    → x < 2 ^ 128
    → r < 2 ^ 128
    → (out : ℕ) × (amount_out_of amount_in x r ≡ val out)
      × (out ≤ r)
      × (x * 1000 * r ≤ (x * 1000 + amount_in * 997) * (r - out))
unfolding amount_out_of
amount_out_of-val amount_in x r a_small x_small r_small =
    let a = amount_in * 997 in
    let top : a * r ≤ 2 ^ 128 * a = grind arith in
    let fit_a = fit-val u256_bound a (omega arith) in
    let fit_product = fit-val u256_bound (a * r) (omega (arith, top)) in
    let fit_x = fit-val u256_bound (x * 1000) (omega arith) in
    let fit_sum = fit-val u256_bound (x * 1000 + a) (omega arith) in
    elim (Bool-cases (x * 1000 + a == 0)) [
      | inl e ↦
          let none : x * 1000 ≡ 0 =
            (let w : x * 1000 + a ≡ 0 = (==_iff (x * 1000 + a) 0).0 e in omega (arith, w)) in
          let gone : x * 1000 * r ≡ 0 * r = ap (λ k. k * r) none in
          (0, rw (fit_a, fit_product, fit_x, fit_sum, e) refl, omega arith, omega (arith, gone))
      | inr e ↦ (
        a * r / (x * 1000 + a),
        rw (fit_a, fit_product, fit_x, fit_sum, e) refl,
        out_le (x * 1000) a r,
        formula_keeps (x * 1000) a r,
      )
    ]

-- What holds of an amount out, given the reserve of the token that goes in and that of the other.
abbrev pub KeepsProduct : (amount_in reserve_in reserve_out out : ℕ) → Type 0
KeepsProduct amount_in reserve_in reserve_out out =
    (out ≤ reserve_out)
    × (reserve_in * 1000 * reserve_out
        ≤ (reserve_in * 1000 + amount_in * 997) * (reserve_out - out))

-- For an amount below 2 ^ 118 and reserves below 2 ^ 128, the amount out is computed without an
-- overflow, is no more than the reserve of the token that comes out, and leaves a product of the
-- reserves, the amount in counted with 997 parts in 1000, that is no lower than before; the reserve
-- of the token with the lower address is the first.
pub get_amount_out_evm_v2-product :
    {E : Type 0} (reserves_0 reserves_1 amount_in token_in token_out : ℕ)
    → amount_in < 2 ^ 118
    → reserves_0 < 2 ^ 128
    → reserves_1 < 2 ^ 128
    → (out : ℕ) × (get_amount_out_evm_v2 {E = E}
          (ok (reserves_0, reserves_1))
          amount_in
          token_in
          token_out
        ≡ val (ok out))
      × (token_in < token_out → KeepsProduct amount_in reserves_0 reserves_1 out)
      × (token_out ≤ token_in → KeepsProduct amount_in reserves_1 reserves_0 out)
unfolding get_amount_out_evm_v2
get_amount_out_evm_v2-product reserves_0 reserves_1 amount_in token_in token_out small small_0
      small_1 =
    elim (Bool-cases (ltb token_in token_out)) [
      | inl e ↦
          let (out, returns, least, product) =
            amount_out_of-val amount_in reserves_0 reserves_1 small small_0 small_1 in
          let below = ltb→lt token_in token_out e in
          (
            out,
            rw (e, returns) refl,
            λ _. (least, product),
            λ above. absurd (omega (arith, below, above)),
          )
      | inr e ↦
          let (out, returns, least, product) =
            amount_out_of-val amount_in reserves_1 reserves_0 small small_1 small_0 in
          let above = ltb→le token_in token_out e in
          (
            out,
            rw (e, returns) refl,
            λ below. absurd (omega (arith, below, above)),
            λ _. (least, product),
          )
    ]
