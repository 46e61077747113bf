-- ===== src/Bundle/Examples.antt =====
-- The theorems on bundles at concrete recipes.
use sando_rs.Base.{Bool, ◌==◌, ◌≡◌, none, some, List, ℕ, refl, false, [], ◌∷◌, ok}
use sando_rs.Block.{BlockInfo}
use sando_rs.Pool.{Pool, uniswap_v2}
use sando_rs.Recipe.{OptimalRecipe}
use sando_rs.Bribe.{calculate_bribe_for_max_fee}
use sando_rs.Bundle.{BundleRequest, Sender, add_recipe, send_bundle}
use sando_rs.Bundle.Mega.{mega_ingredients}
use sando_rs.Bundle.Mega.Meats.{count, mega_ingredients-add_recipe}
use sando_rs.Simulate.{Transaction}
use sando_rs.Simulate.Sanity.{meats_of}
use sando_rs.Bundle.Sent.{Sent, send_bundle-Sent}

abbrev pool : Pool
pool = record {
  address = 1;
  token_0 = 2;
  token_1 = 3;
  swap_fee = 3000;
  pool_variant = uniswap_v2;
  has_dust = false;
}

abbrev recipe : OptimalRecipe ℕ ℕ
recipe = record {
  frontrun_data = 1 ∷ [];
  frontrun_value = 0;
  frontrun_gas_used = 100000;
  frontrun_access_list = [];
  backrun_data = 2 ∷ [];
  backrun_value = 0;
  backrun_gas_used = 80000;
  backrun_access_list = [];
  meats = 5 ∷ 6 ∷ [];
  target_pools = pool ∷ [];
  revenue = 10000000000000000;
  state_diffs = [];
}

abbrev block : BlockInfo
block = record { number = 16000000; timestamp = 1668000000; base_fee = 20000000000 }

-- A wallet that signs a request as its nonce, and two relays.
abbrev sender : Sender ℕ ℕ
sender = record {
  sandwich_address = 88;
  searcher = 77;
  nonce = 41;
  sign_eip1559 = λ request. ok (request.nonce ∷ []);
  rlp = λ meat. meat ∷ [];
  relays = 1 ∷ 2 ∷ [];
}

abbrev bundle : BundleRequest
bundle = record {
  transactions = (41 ∷ []) ∷ (5 ∷ []) ∷ (6 ∷ []) ∷ (42 ∷ []) ∷ [];
  block = 16000000;
  simulation_block = 15999999;
  simulation_timestamp = 1668000000;
  min_timestamp = 1668000000;
  max_timestamp = 1668000000;
}

send_bundle-Sent_example : Sent sender recipe block ((1, bundle) ∷ (2, bundle) ∷ [])
unfolding send_bundle calculate_bribe_for_max_fee
send_bundle-Sent_example =
    send_bundle-Sent sender recipe block 5000000 ((1, bundle) ∷ (2, bundle) ∷ []) refl

abbrev meat : Transaction
meat = record {
  hash = 5;
  from = 6;
  to = some 7;
  input = [];
  value = 0;
  chain_id = some 1;
  gas = 100000;
  gas_price = none;
  max_priority_fee_per_gas = some 3;
  max_fee_per_gas = some 100;
  transaction_type = some 2;
}

abbrev with_meats : List Transaction → OptimalRecipe Transaction ℕ
with_meats meats = record {
  frontrun_data = [];
  frontrun_value = 0;
  frontrun_gas_used = 0;
  frontrun_access_list = [];
  backrun_data = [];
  backrun_value = 0;
  backrun_gas_used = 0;
  backrun_access_list = [];
  meats = meats;
  target_pools = [];
  revenue = 9;
  state_diffs = [];
}

abbrev is_five : Transaction → Bool
is_five t = t.hash == 5

-- One recipe with the transaction twice is pending; another with it comes.
mega_ingredients-add_recipe_example :
    count is_five (
      meats_of (
        mega_ingredients 77 88 (
          add_recipe
            ((pool, with_meats (meat ∷ meat ∷ []) ∷ []) ∷ [])
            (with_meats (meat ∷ []))
            pool)))
    ≡ 3
unfolding mega_ingredients
mega_ingredients-add_recipe_example =
    mega_ingredients-add_recipe 77 88 ((pool, with_meats (meat ∷ meat ∷ []) ∷ []) ∷ [])
      (with_meats (meat ∷ [])) pool is_five
