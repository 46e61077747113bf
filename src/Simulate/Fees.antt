-- ===== src/Simulate/Fees.antt =====
-- The priority fee that the transactions of a simulation run with.
use sando_rs.Base.{
  ℕ, suc, ◌≡◌, refl, ap, ◌∙◌, ◌^◌, Bool, Option, none, some, List, [], ◌∷◌, Checked, Result, ok,
  err, unwrap, fit, add_u256, get_elem?, ltb, ◌*◌, ◌==◌, Bool-cases, inl, inr, if◌then◌else◌,
}
use mathlib.Core.Path.{subst}
use sando_rs.Constants.{eth_dev, uniswap_v3_quoter_address, sqrt_price_limit_x96}
use sando_rs.AmountOut.{in_and_out, amount_out_of}
use sando_rs.Swap.{encode_weth}
use sando_rs.Block.{BlockInfo}
use sando_rs.Simulate.{
  Transaction, RawIngredients, Machine, Evm, TxEnv, Execution, success, revert, halt, lift, or_fail,
  abi_error,
}
use sando_rs.Simulate.Queries.{read_call, get_amount_out_evm_v2, get_amount_out_evm_v3}
use sando_rs.Simulate.Meats.{meat_tx, unwrap_or_default, with_prices, chain_id_of}
use sando_rs.Simulate.Legs.{SandwichMaker, Leg, backrun_out_of, backrun_in_of, backrun_payload}
use sando_rs.Simulate.Swaps.{Backrun, prepare_backrun, backrun_swap, leg_tx}
use sando_rs.Simulate.Sanity.{met, run_meat, run_meats}
use sando_rs.Backend.Inv.{Option-cases}
use sando_rs.Simulate.Outcomes.{Ensures, EnsuresVal, bind, bind_any, bind_val, lifted}
use sando_rs.Pool.{Pool, PoolVariant, uniswap_v2, uniswap_v3}

-- The priority fee that is set after victims' transactions.
abbrev pub priority_after : Transaction → Option ℕ → Option ℕ
priority_after meat fee = elim meat.transaction_type [
  | none ↦ fee
  | some type ↦ if type == 0 then fee else meat.max_priority_fee_per_gas
]

abbrev pub last_priority_fee : List Transaction → Option ℕ → Option ℕ
last_priority_fee [] fee = fee
last_priority_fee (meat ∷ meats) fee = last_priority_fee meats (priority_after meat fee)

with_prices-fee :
    (untyped : Option ℕ → Checked ℕ) (meat : Transaction) (tx : TxEnv)
    → EnsuresVal
        (λ next. next.gas_priority_fee ≡ priority_after meat tx.gas_priority_fee)
        (with_prices untyped meat tx)
unfolding with_prices
with_prices-fee untyped meat tx = elim (Option-cases meat.transaction_type) [
  | inl e ↦ rw (e, with_prices) (bind_val _ (untyped meat.gas_price) _ (λ price. refl))
  | inr (type, e) ↦ elim (Bool-cases (type == 0)) [
    | inl z ↦ rw (e, with_prices, z) refl
    | inr z ↦ rw (e, with_prices, z) refl
  ]
]

meat_tx-fee :
    (untyped : Option ℕ → Checked ℕ) (meat : Transaction) (tx : TxEnv)
    → EnsuresVal
        (λ next. next.gas_priority_fee ≡ priority_after meat tx.gas_priority_fee)
        (meat_tx untyped meat tx)
unfolding meat_tx
meat_tx-fee untyped meat tx = bind_val _ (chain_id_of meat.chain_id) _ (λ id.
    bind_val _ (fit (2 ^ 64) meat.gas) _ (λ gas. with_prices-fee untyped meat (record tx {
      caller = meat.from;
      transact_to = unwrap_or_default meat.to;
      tx_data = meat.input;
      value = meat.value;
      chain_id = id;
      gas_limit = gas;
    })))

module _ {m : Machine} where
  -- That a machine's priority fee is a given one.
  abbrev pub Fee : Option ℕ → Evm m → Type 0
  Fee fee evm = evm.tx.gas_priority_fee ≡ fee

  after_commit :
      (meat : Transaction) (evm : Evm m) (tx : TxEnv)
      (committed : Result Execution m.EvmError × m.World)
      → tx.gas_priority_fee ≡ priority_after meat evm.tx.gas_priority_fee
      → Ensures
          (λ (good, next). Fee (priority_after meat evm.tx.gas_priority_fee) next)
          (met evm tx committed)
  after_commit meat evm tx (err e, world) h = tt
  after_commit meat evm tx (ok (success _ _), world) h = h
  after_commit meat evm tx (ok (revert _ _), world) h = h
  after_commit meat evm tx (ok (halt _ _), world) h = h

  run_meat-Fee :
      (meat : Transaction) (evm : Evm m)
      → Ensures
          (λ (good, next). Fee (priority_after meat evm.tx.gas_priority_fee) next)
          (run_meat meat evm)
  unfolding run_meat
  run_meat-Fee meat evm =
      bind (λ tx. tx.gas_priority_fee ≡ priority_after meat evm.tx.gas_priority_fee) _
        (lift (meat_tx unwrap meat evm.tx)) _
        (lifted m _ (meat_tx unwrap meat evm.tx) (meat_tx-fee unwrap meat evm.tx))
        (λ tx h. after_commit meat evm tx (m.transact_commit evm.block tx evm.world) h)

  pub run_meats-Fee :
      (meats : List Transaction) (evm : Evm m)
      → Ensures
          (λ (good, next). Fee (last_priority_fee meats evm.tx.gas_priority_fee) next)
          (run_meats meats evm)
  unfolding run_meats
  run_meats-Fee [] evm = refl
  run_meats-Fee (meat ∷ meats) evm =
      bind (λ (good, next). Fee (priority_after meat evm.tx.gas_priority_fee) next) _
        (run_meat meat evm) _ (run_meat-Fee meat evm)
        (λ (good, next) h.
          bind (λ (good, last). Fee (last_priority_fee meats next.tx.gas_priority_fee) last) _
            (run_meats meats next) _ (run_meats-Fee meats next)
            (λ (goods, last) k. k ∙ ap (last_priority_fee meats) h))

  -- What keeps a machine's priority fee.
  abbrev Keeps : Evm m → ℕ × Evm m → Type 0
  Keeps evm (out, next) = Fee evm.tx.gas_priority_fee next

  abbrev pub KeptBy : Backrun m → Backrun m → Type 0
  KeptBy s t = Fee s.evm.tx.gas_priority_fee t.evm

  v2-Fee :
      (evm : Evm m) (amount pool token_in token_out : ℕ)
      → Ensures (Keeps evm) (get_amount_out_evm_v2 evm amount pool token_in token_out)
  unfolding get_amount_out_evm_v2
  v2-Fee evm amount pool token_in token_out =
      let called : Evm m = record evm {
        tx = record evm.tx {
          transact_to = pool;
          caller = eth_dev;
          value = 0;
          tx_data = 0x09 ∷ 0x02 ∷ 0xf1 ∷ 0xac ∷ [];
        };
      } in
      bind_any (Keeps evm) (read_call called) _ (λ output.
        bind_any (Keeps evm) (lift (unwrap (m.decode_reserves output))) _ (λ reserves.
          let (reserve_in, reserve_out) = in_and_out token_in token_out reserves in
          bind_any (Keeps evm) (lift (amount_out_of amount reserve_in reserve_out)) _
            (λ out. refl)))

  v3-Fee :
      (evm : Evm m) (amount token_in token_out swap_fee : ℕ)
      → Ensures (Keeps evm) (get_amount_out_evm_v3 evm amount token_in token_out swap_fee)
  unfolding get_amount_out_evm_v3
  v3-Fee evm amount token_in token_out swap_fee =
      let limit = sqrt_price_limit_x96 (ltb token_in token_out) in
      let called : Evm m = record evm {
        tx = record evm.tx {
          transact_to = uniswap_v3_quoter_address;
          caller = eth_dev;
          value = 0;
          tx_data = m.encode_quote token_in token_out swap_fee amount limit;
        };
      } in
      bind_any (Keeps evm) (read_call called) _
        (λ output. bind_any (Keeps evm) (or_fail abi_error (m.decode_quote output)) _ (λ out. refl))

  backrun_out_of-Fee :
      (evm : Evm m) (variant : PoolVariant) (backrun_in : ℕ) (pool : Pool) (token_in token_out : ℕ)
      → Ensures (Keeps evm) (backrun_out_of evm variant backrun_in pool token_in token_out)
  unfolding backrun_out_of
  backrun_out_of-Fee evm uniswap_v2 backrun_in pool token_in token_out =
      bind (Keeps evm) (Keeps evm)
        (get_amount_out_evm_v2 evm backrun_in pool.address token_in token_out) _
        (v2-Fee evm backrun_in pool.address token_in token_out)
        (λ (amount, next) h. bind_any (Keeps evm) (lift (encode_weth amount)) _ (λ out. h))
  backrun_out_of-Fee evm uniswap_v3 backrun_in pool token_in token_out =
      bind (Keeps evm) (Keeps evm)
        (get_amount_out_evm_v3 evm backrun_in token_in token_out pool.swap_fee) _
        (v3-Fee evm backrun_in token_in token_out pool.swap_fee)
        (λ (amount, next) h. bind_any (Keeps evm) (lift (encode_weth amount)) _ (λ out. h))

  module _ {D : Type 0} (next_block : BlockInfo) (maker : SandwichMaker) (is_multiple : Bool)
      (backrun_ins : List ℕ) where
    backrun_swap-Fee :
        (index : ℕ) (ingredients : RawIngredients D) (s : Backrun m)
        → Ensures
            (KeptBy s)
            (backrun_swap next_block maker is_multiple backrun_ins index ingredients s)
    unfolding backrun_swap
    backrun_swap-Fee index ingredients s =
        let pool = ingredients.target_pool in
        let token_in = ingredients.intermediary_token in
        let token_out = ingredients.startend_token in
        bind_any (KeptBy s) (lift (unwrap (get_elem? backrun_ins index))) _ (λ amount.
          bind_any (KeptBy s) (backrun_in_of pool.pool_variant amount token_in) _ (λ backrun_in.
            bind (Keeps s.evm) (KeptBy s)
              (backrun_out_of s.evm pool.pool_variant backrun_in pool token_in token_out) _
              (backrun_out_of-Fee s.evm ingredients.target_pool.pool_variant backrun_in
                ingredients.target_pool ingredients.intermediary_token ingredients.startend_token)
              (λ (out, next) h.
                bind_any (KeptBy s)
                  (backrun_payload maker pool.pool_variant is_multiple (index == 0)
                    next_block.number backrun_in out token_out token_in pool)
                  _
                  (λ (bytes, value).
                    bind_any (KeptBy s) (lift (add_u256 s.backrun_value value)) _ (λ total. h)))))

    pub prepare_backrun-Fee :
        (index : ℕ) (ingredients : List (RawIngredients D)) (s : Backrun m)
        → Ensures
            (KeptBy s)
            (prepare_backrun next_block maker is_multiple backrun_ins index ingredients s)
    unfolding prepare_backrun
    prepare_backrun-Fee index [] s = refl
    prepare_backrun-Fee index (first ∷ rest) s =
        bind (KeptBy s) (KeptBy s)
          (backrun_swap next_block maker is_multiple backrun_ins index first s) _
          (backrun_swap-Fee index first s)
          (λ t h.
            subst
              (λ fee.
                Ensures (λ u. Fee fee u.evm)
                  (prepare_backrun next_block maker is_multiple backrun_ins (suc index) rest t))
              h (prepare_backrun-Fee (suc index) rest t))

  pub leg_tx-Fee :
      (next_block : BlockInfo) (leg : Leg) (ingredients_len : ℕ) (bytes : List ℕ) (value : ℕ)
      (evm : Evm m)
      → Ensures
          (λ ready. Fee evm.tx.gas_priority_fee ready × (ready.tx.gas_price ≡ next_block.base_fee))
          (leg_tx next_block leg ingredients_len bytes value evm)
  unfolding leg_tx
  leg_tx-Fee next_block leg ingredients_len bytes value evm =
      bind_any
        (λ ready. Fee evm.tx.gas_priority_fee ready × (ready.tx.gas_price ≡ next_block.base_fee))
        (lift (fit (2 ^ 64) (700000 * ingredients_len))) _ (λ gas. (refl, refl))
