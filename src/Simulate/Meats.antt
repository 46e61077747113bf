-- ===== src/Simulate/Meats.antt =====
-- The victims' transactions in the simulations of bot/src/simulate/make_sandwich.rs.
use sando_rs.Base.{
  ℕ, ◌^◌, Bool, Option, none, some, List, [], ◌∷◌, Checked, val, ◌>>=◌, fit, leb, ◌==◌,
  if◌then◌else◌,
}
use sando_rs.Simulate.{Transaction, TxEnv}

abbrev pub unwrap_or_default : Option ℕ → ℕ
unwrap_or_default none = 0
unwrap_or_default (some n) = n

-- `.map(|id| id.as_u64())`, which panics on a number of more than 64 bits.
unfoldable pub chain_id_of : Option ℕ → Checked (Option ℕ)
chain_id_of none = val none
chain_id_of (some id) = do narrow ← fit (2 ^ 64) id; val (some narrow)

-- The prices of a transaction by its type: the priority fee is only set where the type is not the
-- legacy one. `untyped` reads the gas price where there is no type.
unfoldable pub with_prices : (untyped : Option ℕ → Checked ℕ) → Transaction → TxEnv → Checked TxEnv
with_prices untyped meat tx = elim meat.transaction_type [
  | none ↦ (do price ← untyped meat.gas_price; val (record tx { gas_price = price }))
  | some type ↦ val (
      if type == 0 then record tx { gas_price = unwrap_or_default meat.gas_price } else record tx {
        gas_priority_fee = meat.max_priority_fee_per_gas;
        gas_price = unwrap_or_default meat.max_fee_per_gas;
      })
]

-- The environment for a victim's transaction.
unfoldable pub meat_tx : (untyped : Option ℕ → Checked ℕ) → Transaction → TxEnv → Checked TxEnv
unfolding chain_id_of with_prices
meat_tx untyped meat tx = do
  chain_id ← chain_id_of meat.chain_id
  gas ← fit (2 ^ 64) meat.gas
  with_prices untyped meat (record tx {
    caller = meat.from;
    transact_to = unwrap_or_default meat.to;
    tx_data = meat.input;
    value = meat.value;
    chain_id = chain_id;
    gas_limit = gas;
  })

-- `sort_by(|a, b| a.hash.cmp(&b.hash))`, which is stable.
unfoldable pub insert_by_hash : Transaction → List Transaction → List Transaction
insert_by_hash t [] = t ∷ []
insert_by_hash t (u ∷ us) =
    let rest = insert_by_hash t us in if leb t.hash u.hash then t ∷ u ∷ us else u ∷ rest

unfoldable pub sort_by_hash : List Transaction → List Transaction
unfolding insert_by_hash
sort_by_hash [] = []
sort_by_hash (t ∷ ts) = insert_by_hash t (sort_by_hash ts)

-- `dedup()`: of equal transactions in a row the first is kept.
module _ (same : Transaction → Transaction → Bool) where
  unfoldable pub dedup_after : Transaction → List Transaction → List Transaction
  dedup_after t [] = []
  dedup_after t (u ∷ us) =
      let dropped = dedup_after t us in
      let kept = dedup_after u us in if same t u then dropped else u ∷ kept

  unfoldable pub dedup : List Transaction → List Transaction
  unfolding dedup_after
  dedup [] = []
  dedup (t ∷ ts) = t ∷ dedup_after t ts
