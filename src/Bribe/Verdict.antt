-- ===== src/Bribe/Verdict.antt =====
-- What the bribe may be, against the revenue of the sandwich.
use native.Mathlib.Nat.{div-mul-le_self, lt-div-mul-add}
use sando_rs.Base.{
  ℕ, ◌+◌, ◌-◌, ◌*◌, ◌/◌, ◌≤◌, ◌<◌, ◌≡◌, inl, inr, refl, ap, List, [], ◌∷◌, val, Result, ok, err,
  u256_bound, fit-val, checked_div-val, ltb, ltb→lt, ltb→le, Bool-cases, arith, if◌then◌else◌,
}
use sando_rs.Block.{BlockInfo}
use sando_rs.Pool.{Pool}
use sando_rs.Recipe.{OptimalRecipe}
use sando_rs.Bribe.{
  SendBundleError, max_fee_less_than_next_base_fee, frontrun_gas_fees_not_covered, overpay,
  check_max_fee, bribe_from, calculate_bribe_for_max_fee,
}

-- The gas for the first balances on the contract, at the base fee, of the pools without dust.
unfoldable pub bonus : (base_fee : ℕ) → List Pool → ℕ
bonus base_fee [] = 0
bonus base_fee (pool ∷ pools) =
    (if pool.has_dust then 0 else base_fee * 11000) + bonus base_fee pools

overpay-val :
    (base_fee : ℕ) (pools : List Pool) (revenue : ℕ)
    → revenue + bonus base_fee pools < u256_bound
    → overpay base_fee pools revenue ≡ val (revenue + bonus base_fee pools)
unfolding overpay bonus
overpay-val base_fee [] revenue room = ap val (let w : revenue ≡ revenue + 0 = omega arith in w)
overpay-val base_fee (pool ∷ pools) revenue room = elim (Bool-cases pool.has_dust) [
  | inl e ↦
      let room' : revenue + bonus base_fee pools < u256_bound = omega (arith, room) in
      rw (e, overpay-val base_fee pools revenue room')
        (ap val (
          let w : revenue + bonus base_fee pools ≡ revenue + (0 + bonus base_fee pools) =
            omega arith in
          w))
  | inr e ↦
      let room' : revenue + (base_fee * 11000 + bonus base_fee pools) < u256_bound =
        (let w : revenue + ((if pool.has_dust then 0 else base_fee * 11000) + bonus base_fee pools)
              < u256_bound =
            room in
          ground (arith, w, e)) in
      rw
        (
          e,
          fit-val u256_bound (base_fee * 11000) (omega (arith, room')),
          fit-val u256_bound (revenue + base_fee * 11000) (omega (arith, room')),
          overpay-val base_fee pools (revenue + base_fee * 11000) (omega (arith, room')),
        )
        (ap val (
          let w : revenue + base_fee * 11000 + bonus base_fee pools
              ≡ revenue + (base_fee * 11000 + bonus base_fee pools) =
            omega arith in
          w))
]

-- What is paid for the backrun, of what the frontrun leaves and the bonus.
abbrev pub bribe : (draw covered : ℕ) → ℕ
bribe draw covered = covered * (990000000 + draw) / 1000000000

-- The outcomes of the bribe, with what each of them says of a sandwich: `fee` is the frontrun's.
pub data Verdict (draw fee revenue extra base_fee gas : ℕ) : Result ℕ SendBundleError → Type 0 where
  uncovered :
      revenue < fee
      → Verdict draw fee revenue extra base_fee gas (err frontrun_gas_fees_not_covered)
  too_low :
      fee ≤ revenue
      → bribe draw (revenue - fee + extra) < base_fee * gas
      → Verdict draw fee revenue extra base_fee gas (err max_fee_less_than_next_base_fee)
  pays :
      (max_fee : ℕ)
      → base_fee ≤ max_fee
      → fee + max_fee * gas ≤ revenue + extra
      → bribe draw (revenue - fee + extra) < max_fee * gas + gas
      → Verdict draw fee revenue extra base_fee gas (ok max_fee)

bribe_le : (draw covered : ℕ) → draw < 10000000 → bribe draw covered ≤ covered
bribe_le draw covered small =
    let less : covered * (990000000 + draw) ≤ covered * 1000000000 = grind arith in
    omega (arith, less)

check-Verdict :
    (draw fee revenue extra base_fee gas : ℕ)
    → draw < 10000000
    → 0 < gas
    → fee ≤ revenue
    → Verdict draw fee revenue extra base_fee gas
        (check_max_fee (bribe draw (revenue - fee + extra) / gas) base_fee)
unfolding check_max_fee
check-Verdict draw fee revenue extra base_fee gas small pos covered =
    let amount = bribe draw (revenue - fee + extra) in
    let most : amount ≤ revenue - fee + extra = bribe_le draw (revenue - fee + extra) small in
    let under : amount / gas * gas ≤ amount = div-mul-le_self amount gas in
    let over : amount < amount / gas * gas + gas = lt-div-mul-add {a = amount} {b = gas} pos in
    elim (Bool-cases (ltb (amount / gas) base_fee)) [
      | inl e ↦
          let low = ltb→lt (amount / gas) base_fee e in
          let scaled : amount / gas * gas + gas ≤ base_fee * gas = grind (arith, low) in
          rw e (too_low covered (omega (arith, over, scaled)))
      | inr e ↦ rw e (
          pays (amount / gas) (ltb→le (amount / gas) base_fee e)
            (omega (arith, most, under, covered)) over)
    ]

-- For a draw below 10000000, a backrun that uses gas, and a revenue that leaves room in 256 bits,
-- the bribe is computed without a panic, and either the revenue does not cover the frontrun's fee,
-- or the bribe is below the base fee of the backrun's gas, or the max fee is at least the base fee
-- and both fees together are no more than the revenue and the bonus, while one more unit of it
-- would cost more than the bribe. A negative miner tip never comes out.
pub calculate_bribe_for_max_fee-Verdict :
    {Transaction AccountDiff : Type 0} (draw : ℕ) (recipe : OptimalRecipe Transaction AccountDiff)
    (block : BlockInfo)
    → draw < 10000000
    → 0 < recipe.backrun_gas_used
    → recipe.frontrun_gas_used * block.base_fee < u256_bound
    → (recipe.revenue + bonus block.base_fee recipe.target_pools) * 1000000000 < u256_bound
    → (r : Result ℕ SendBundleError) × (calculate_bribe_for_max_fee draw recipe block ≡ val r)
      × Verdict draw
          (recipe.frontrun_gas_used * block.base_fee)
          recipe.revenue
          (bonus block.base_fee recipe.target_pools)
          block.base_fee
          recipe.backrun_gas_used
          r
unfolding calculate_bribe_for_max_fee bribe_from
calculate_bribe_for_max_fee-Verdict draw recipe block small pos fee_room room =
    let fee = recipe.frontrun_gas_used * block.base_fee in
    let extra = bonus block.base_fee recipe.target_pools in
    elim (Bool-cases (ltb recipe.revenue fee)) [
      | inl e ↦ (
        err frontrun_gas_fees_not_covered,
        rw (fit-val u256_bound fee fee_room, e) refl,
        uncovered (ltb→lt recipe.revenue fee e),
      )
      | inr e ↦
          let covered = ltb→le recipe.revenue fee e in
          let left = recipe.revenue - fee + extra in
          let scaled : left * (990000000 + draw) ≤ (recipe.revenue + extra) * 1000000000 =
            (let less : left ≤ recipe.revenue + extra = omega arith in
              grind (arith, less, small)) in
          (
            check_max_fee (bribe draw left / recipe.backrun_gas_used) block.base_fee,
            rw
                (
                  fit-val u256_bound fee fee_room,
                  e,
                  overpay-val block.base_fee recipe.target_pools (recipe.revenue - fee)
                      (omega (arith, room)),
                  fit-val u256_bound (left * (990000000 + draw)) (omega (arith, scaled, room)),
                  checked_div-val (bribe draw left) recipe.backrun_gas_used pos,
                )
                refl,
            check-Verdict draw fee recipe.revenue extra block.base_fee recipe.backrun_gas_used small
                pos covered,
          )
    ]
