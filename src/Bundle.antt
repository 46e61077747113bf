-- ===== src/Bundle.antt =====
-- `send_bundle` and the pending recipes of bot/src/runner/bundle_sender.rs, and `construct_bundle` of
-- bot/src/relay.rs. Signing, the encoding of a victim's transaction and the list of relays are
-- parameters; what is sent is the list of the bundles with the relays that get them.
pub mod Sent
pub mod Mega
mod Examples
use sando_rs.Base.{
  ℕ, ◌+◌, ◌*◌, ◌==◌, ◌&&◌, true, false, not, ◌/◌, ◌^◌, Bool, List, [], ◌∷◌, ◌++◌, map, Checked, val,
  panic, ◌>>=◌, Result, ok, err, fit, add_u256, mul_u256, checked_minus, if◌then◌else◌,
}
use sando_rs.Block.{BlockInfo}
use sando_rs.Pool.{Pool, PoolVariant, uniswap_v2, uniswap_v3}
use sando_rs.Recipe.{OptimalRecipe}
use sando_rs.Bribe.{SendBundleError, calculate_bribe_for_max_fee}

-- `Eip1559TransactionRequest`
pub record Eip1559Request : Type 0 where
  pub to : ℕ
  pub from : ℕ
  pub request_data : List ℕ
  pub chain_id : ℕ
  pub max_priority_fee_per_gas : ℕ
  pub max_fee_per_gas : ℕ
  pub gas : ℕ
  pub nonce : ℕ
  pub value : ℕ
  pub access_list : List (ℕ × List (List ℕ))

-- `BundleRequest`
pub record BundleRequest : Type 0 where
  pub transactions : List (List ℕ)
  pub block : ℕ
  pub simulation_block : ℕ
  pub simulation_timestamp : ℕ
  pub min_timestamp : ℕ
  pub max_timestamp : ℕ

-- The errors of bot/src/types/errors.rs that sending gives; `W` are those of the wallet.
pub data SendError (W : Type 0) : Type 0 where
  signing_error : W → SendError W
  bribe_error : SendBundleError → SendError W

-- What a bundle is sent with.
pub record Sender (W : Type 0) (Transaction : Type 0) : Type 0 where
  pub sandwich_address : ℕ
  pub searcher : ℕ
  pub nonce : ℕ
  pub sign_eip1559 : Eip1559Request → Result (List ℕ) W
  pub rlp : Transaction → List ℕ
  pub relays : List ℕ

-- `?`
abbrev pub question :
    {A B E F : Type 0} → (E → F) → Result A E → (A → Checked (Result B F)) → Checked (Result B F)
question f (ok a) k = k a
question f (err e) k = val (err (f e))

-- `target_block - 1` panics at block 0.
unfoldable pub construct_bundle :
    (signed_txs : List (List ℕ)) (target_block target_timestamp : ℕ) → Checked BundleRequest
construct_bundle signed_txs target_block target_timestamp = do
  simulation_block ← checked_minus target_block 1
  val (record {
    transactions = signed_txs;
    block = target_block;
    simulation_block = simulation_block;
    simulation_timestamp = target_timestamp;
    min_timestamp = target_timestamp;
    max_timestamp = target_timestamp;
  })

-- The gas used is taken as 7 parts in 10 of the limit.
unfoldable pub gas_limit_of : (gas_used : ℕ) → Checked ℕ
gas_limit_of gas_used = do scaled ← mul_u256 gas_used 10; val (scaled / 7)

module _ {W Transaction AccountDiff : Type 0} (sender : Sender W Transaction)
    (recipe : OptimalRecipe Transaction AccountDiff) (target_block : BlockInfo) where
  unfoldable pub front_slice : Checked Eip1559Request
  unfolding gas_limit_of
  front_slice = do
    gas ← gas_limit_of recipe.frontrun_gas_used
    val (record {
      to = sender.sandwich_address;
      from = sender.searcher;
      request_data = recipe.frontrun_data;
      chain_id = 1;
      max_priority_fee_per_gas = 0;
      max_fee_per_gas = target_block.base_fee;
      gas = gas;
      nonce = sender.nonce;
      value = recipe.frontrun_value;
      access_list = recipe.frontrun_access_list;
    })

  unfoldable pub back_slice : (max_fee : ℕ) → Checked Eip1559Request
  unfolding gas_limit_of
  back_slice max_fee = do
    gas ← gas_limit_of recipe.backrun_gas_used
    nonce ← add_u256 sender.nonce 1
    val (record {
      to = sender.sandwich_address;
      from = sender.searcher;
      request_data = recipe.backrun_data;
      chain_id = 1;
      max_priority_fee_per_gas = max_fee;
      max_fee_per_gas = max_fee;
      gas = gas;
      nonce = nonce;
      value = recipe.backrun_value;
      access_list = recipe.backrun_access_list;
    })

  -- The costs that are logged before anything is sent.
  unfoldable pub cost_of : (max_fee : ℕ) → Checked ℕ
  cost_of max_fee = do
    frontrun_transaction_fee ← mul_u256 recipe.frontrun_gas_used target_block.base_fee
    backrun_transaction_fee ← mul_u256 recipe.backrun_gas_used max_fee
    add_u256 frontrun_transaction_fee backrun_transaction_fee

  -- The bundle of the signed transactions, to every relay.
  unfoldable pub send_signed :
      (raw_front raw_back : List ℕ) (max_fee : ℕ)
      → Checked (Result (List (ℕ × BundleRequest)) (SendError W))
  unfolding construct_bundle cost_of
  send_signed raw_front raw_back max_fee = do
    timestamp ← fit (2 ^ 64) target_block.timestamp
    bundle ←
        construct_bundle (raw_front ∷ (map sender.rlp recipe.meats ++ raw_back ∷ []))
          target_block.number timestamp
    _ ← cost_of max_fee
    val (ok (map (λ relay. (relay, bundle)) sender.relays))

  unfoldable pub send_bundle :
      (draw : ℕ) → Checked (Result (List (ℕ × BundleRequest)) (SendError W))
  unfolding front_slice back_slice send_signed
  send_bundle draw = front_slice >>= λ front.
      question signing_error (sender.sign_eip1559 front) (λ raw_front.
        calculate_bribe_for_max_fee draw recipe target_block >>= λ bribe.
        question bribe_error bribe (λ max_fee. back_slice max_fee >>= λ back.
        question signing_error (sender.sign_eip1559 back)
          (λ raw_back. send_signed raw_front raw_back max_fee)))

-- The derived equality of pools.
unfoldable pub same_variant : PoolVariant → PoolVariant → Bool
same_variant uniswap_v2 uniswap_v2 = true
same_variant uniswap_v3 uniswap_v3 = true
same_variant uniswap_v2 uniswap_v3 = false
same_variant uniswap_v3 uniswap_v2 = false

unfoldable pub same_pool : Pool → Pool → Bool
unfolding same_variant
same_pool a b =
    (a.address == b.address)
    && (a.token_0 == b.token_0)
    && (a.token_1 == b.token_1)
    && (a.swap_fee == b.swap_fee)
    && same_variant a.pool_variant b.pool_variant
    && (if a.has_dust then b.has_dust else not b.has_dust)

-- The recipes that wait for the mega sandwich, by pool.
module _ {Recipe : Type 0} where
  unfoldable pub add_recipe : List (Pool × List Recipe) → Recipe → Pool → List (Pool × List Recipe)
  unfolding same_pool
  add_recipe [] recipe pool = (pool, recipe ∷ []) ∷ []
  add_recipe ((other, recipes) ∷ pending) recipe pool =
      let rest = add_recipe pending recipe pool in
      if same_pool pool other
      then (other, recipes ++ recipe ∷ []) ∷ pending
      else (other, recipes) ∷ rest
