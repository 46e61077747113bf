-- ===== src/Pool.antt =====
-- bot/src/cfmm/pool.rs: a pool with its two tokens in the order of their addresses.
use sando_rs.Base.{ℕ, Bool, false, ltb, if◌then◌else◌}

pub data PoolVariant : Type 0 where
  uniswap_v2 uniswap_v3 : PoolVariant

-- The signature of the event by which a factory tells of a new pool.
abbrev pub pool_created_event_signature : PoolVariant → ℕ
pool_created_event_signature uniswap_v2 =
    0x0d3648bd0f6ba80134a33ba9275ac585d9d315f0ad8355cddefde31afa28d0e9
pool_created_event_signature uniswap_v3 =
    0x783cca1c0412dd0d695e784568c96da2e9c22ff989357a2e8b1d9b2b4e6b7118

pub record Pool : Type 0 where
  pub address : ℕ
  pub token_0 : ℕ
  pub token_1 : ℕ
  pub swap_fee : ℕ
  pub pool_variant : PoolVariant
  pub has_dust : Bool

unfoldable pub new_pool : (address token_a token_b swap_fee : ℕ) → PoolVariant → Pool
new_pool address token_a token_b swap_fee pool_variant =
    let in_order = ltb token_a token_b in
    record {
      address = address;
      token_0 = if in_order then token_a else token_b;
      token_1 = if in_order then token_b else token_a;
      swap_fee = swap_fee;
      pool_variant = pool_variant;
      has_dust = false;
    }
