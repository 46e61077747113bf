-- ===== src/Simulate/Swaps.antt =====
-- The loops of `sanity_check` (bot/src/simulate/make_sandwich.rs) that put the bytes of the frontrun
-- and of the backrun together.
use sando_rs.Base.{
  ℕ, suc, ◌*◌, ◌^◌, Bool, true, List, [], ◌∷◌, ◌++◌, unwrap, fit, add_u256, get_elem?, ltb, ◌==◌,
  if◌then◌else◌,
}
use sando_rs.Block.{BlockInfo}
use sando_rs.Swap.{encode_weth}
use sando_rs.Simulate.{RawIngredients, Machine, Evm, Outcome, returns, ◌>>=◌, lift}
use sando_rs.Simulate.Queries.{get_balance_of_evm}
use sando_rs.Simulate.Legs.{
  SandwichMaker, Leg, frontrun, backrun, frontrun_out_of, backrun_out_of, backrun_in_of,
  frontrun_payload, backrun_payload,
}

-- What the first loop has gathered: the machine, the frontrun's bytes and value, what each swap
-- gives, and the ingredients gone through, whose pools may have been marked.
pub record Frontrun (m : Machine) (D : Type 0) : Type 0 where
  pub evm : Evm m
  pub frontrun_data : List ℕ
  pub frontrun_value : ℕ
  pub backrun_ins : List ℕ
  pub done : List (RawIngredients D)

pub record Backrun (m : Machine) : Type 0 where
  pub evm : Evm m
  pub backrun_data : List ℕ
  pub backrun_value : ℕ

-- The ingredients with the pool marked where the contract holds some of the token.
unfoldable pub mark_dust : {D : Type 0} → ℕ → RawIngredients D → RawIngredients D
mark_dust balance ingredients =
    if ltb 0 balance
    then record ingredients { target_pool = record ingredients.target_pool { has_dust = true } }
    else ingredients

module _ {m : Machine} (next_block : BlockInfo) where
  -- The machine before a swap is priced.
  unfoldable pub priced : Evm m → Evm m
  priced evm = record evm {
    tx = record evm.tx { gas_price = next_block.base_fee; gas_limit = 700000; value = 0 };
  }

  -- The machine with the bot's transaction; the frontrun begins with an empty access list, the
  -- backrun with the one that is there.
  unfoldable pub leg_tx :
      Leg → (ingredients_len : ℕ) (bytes : List ℕ) (value : ℕ) → Evm m → Outcome m (Evm m)
  leg_tx leg ingredients_len bytes value evm = do
    gas_limit ← lift (fit (2 ^ 64) (700000 * ingredients_len))
    returns (record evm {
      tx = record evm.tx {
        caller = m.searcher;
        transact_to = m.sandwich_contract;
        tx_data = bytes;
        value = value;
        gas_limit = gas_limit;
        gas_price = next_block.base_fee;
        access_list = elim leg [ frontrun ↦ [] | backrun ↦ evm.tx.access_list ];
      };
    })

module _ {m : Machine} {D : Type 0} (next_block : BlockInfo) (maker : SandwichMaker) where
  -- One swap of the frontrun, for an amount that is not zero.
  unfoldable pub frontrun_swap :
      (is_multiple is_first : Bool) (frontrun_in : ℕ)
      → RawIngredients D
      → Frontrun m D
      → Outcome m (Frontrun m D)
  unfolding priced mark_dust get_balance_of_evm frontrun_out_of frontrun_payload
  frontrun_swap is_multiple is_first frontrun_in ingredients s = do
    let variant = ingredients.target_pool.pool_variant
    let token_in = ingredients.startend_token
    let token_out = ingredients.intermediary_token
    (balance, asked) ←
        get_balance_of_evm token_out m.sandwich_contract next_block (priced next_block s.evm)
    let marked = mark_dust balance ingredients
    (frontrun_out, quoted) ←
        frontrun_out_of asked variant frontrun_in marked.target_pool token_in token_out
    (bytes, value) ←
        frontrun_payload maker variant is_multiple is_first next_block.number frontrun_in
          frontrun_out token_in token_out marked.target_pool
    total ← lift (add_u256 s.frontrun_value value)
    returns (record {
      evm = quoted;
      frontrun_data = s.frontrun_data ++ bytes;
      frontrun_value = total;
      backrun_ins = s.backrun_ins ++ frontrun_out ∷ [];
      done = s.done ++ marked ∷ [];
    })

  -- An amount that encodes to zero is passed over.
  unfoldable pub frontrun_step :
      (is_multiple : Bool) (frontrun_ins : List ℕ) (index : ℕ)
      → RawIngredients D
      → Frontrun m D
      → Outcome m (Frontrun m D)
  unfolding frontrun_swap
  frontrun_step is_multiple frontrun_ins index ingredients s = do
    amount ← lift (unwrap (get_elem? frontrun_ins index))
    frontrun_in ← lift (encode_weth amount)
    if frontrun_in == 0
        then returns (record s { done = s.done ++ ingredients ∷ [] })
        else frontrun_swap is_multiple (index == 0) frontrun_in ingredients s

  unfoldable pub prepare_frontrun :
      (is_multiple : Bool) (frontrun_ins : List ℕ) (index : ℕ)
      → List (RawIngredients D)
      → Frontrun m D
      → Outcome m (Frontrun m D)
  unfolding frontrun_step
  prepare_frontrun is_multiple frontrun_ins index [] s = returns s
  prepare_frontrun is_multiple frontrun_ins index (ingredients ∷ rest) s =
      frontrun_step is_multiple frontrun_ins index ingredients s >>= λ next.
      prepare_frontrun is_multiple frontrun_ins (suc index) rest next

  -- One swap of the backrun, for the amount with the same index as the ingredients.
  unfoldable pub backrun_swap :
      (is_multiple : Bool) (backrun_ins : List ℕ) (index : ℕ)
      → RawIngredients D
      → Backrun m
      → Outcome m (Backrun m)
  unfolding backrun_in_of backrun_out_of backrun_payload
  backrun_swap is_multiple backrun_ins index ingredients s = do
    let variant = ingredients.target_pool.pool_variant
    let token_in = ingredients.intermediary_token
    let token_out = ingredients.startend_token
    amount ← lift (unwrap (get_elem? backrun_ins index))
    backrun_in ← backrun_in_of variant amount token_in
    (backrun_out, quoted) ←
        backrun_out_of s.evm variant backrun_in ingredients.target_pool token_in token_out
    (bytes, value) ←
        backrun_payload maker variant is_multiple (index == 0) next_block.number backrun_in
          backrun_out token_out token_in ingredients.target_pool
    total ← lift (add_u256 s.backrun_value value)
    returns (record { evm = quoted; backrun_data = s.backrun_data ++ bytes; backrun_value = total })

  unfoldable pub prepare_backrun :
      (is_multiple : Bool) (backrun_ins : List ℕ) (index : ℕ)
      → List (RawIngredients D)
      → Backrun m
      → Outcome m (Backrun m)
  unfolding backrun_swap
  prepare_backrun is_multiple backrun_ins index [] s = returns s
  prepare_backrun is_multiple backrun_ins index (ingredients ∷ rest) s =
      backrun_swap is_multiple backrun_ins index ingredients s >>= λ next.
      prepare_backrun is_multiple backrun_ins (suc index) rest next
