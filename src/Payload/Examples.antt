-- ===== src/Payload/Examples.antt =====
-- The theorems on the payloads at concrete swaps.
use Prim.Native.String.{String}
use sando_rs.Base.{ℕ, ◌≡◌, true, false, List, [], ◌∷◌, val, length, take, drop, ◌++◌, ◌≤◌, arith}
use sando_rs.Constants.{weth_address}
use sando_rs.Library.{Hashing}
use sando_rs.Pool.{Pool, uniswap_v2}
use sando_rs.Labels.Gates.{
  entry, v2_input_single, v2_output1_single, v3_input1, v3_output1, v3_gate,
}
use sando_rs.Labels.Dispatch.{Runs}
use sando_rs.Payload.Layout.{field, stored, shifted, weth_amount}
use sando_rs.Payload.V2
use sando_rs.Payload.V3
use sando_rs.Payload.V2.Single.{create_payload_weth_is_input_lem}
use sando_rs.Payload.V2.Output.{create_payload_weth_is_output_lem}
use sando_rs.Payload.V3.Single.{
  v3_create_payload_weth_is_input_lem, v3_create_payload_weth_is_output_lem,
}
use sando_rs.Swap.V2.{decode_intermediary}
use sando_rs.Swap.V3.{decode_intermediary as v3_decode_intermediary}
use sando_rs.Labels.V2.{new}
use sando_rs.Labels.V3.{new as v3_new}

abbrev ether : ℕ
ether = 1000000000000000000

abbrev token : ℕ
token = 0x6B175474E89094C44Da98b954EedeAC495271d0F

abbrev pair : Pool
pair = record {
  address = 0xA478c2975Ab1Ea89e8196811F51A7B7Ade33eB11;
  token_0 = token;
  token_1 = weth_address;
  swap_fee = 3000;
  pool_variant = uniswap_v2;
  has_dust = true;
}

abbrev no_hex : List ℕ → String
no_hex _ = ""

-- A stand-in for the library's functions.
abbrev short_hash : Hashing
short_hash = record { abi_encode = λ _. []; keccak256 = λ _. 1 ∷ 2 ∷ [] }

create_payload_weth_is_input_example :
    (payload : List ℕ) × (value d : ℕ) × (V2.create_payload_weth_is_input no_hex new 16000000 ether
        ether token pair
      ≡ val (payload, value))
    × (decode_intermediary ether true token ≡ val d)
    × (length payload ≡ 27)
    × Runs 16000000 (entry v2_input_single) payload
    × (field 3 20 payload ≡ pair.address)
    × (stored 36 4 (field 2 1 payload) (field 23 4 payload) ≡ d)
    × (weth_amount value ≡ 999999997191651328)
create_payload_weth_is_input_example =
    create_payload_weth_is_input_lem no_hex 16000000 ether ether token pair (omega arith)

create_payload_weth_is_output_example :
    (payload : List ℕ) × (value d : ℕ) × (V2.create_payload_weth_is_output no_hex new 16000000 ether
        ether token pair
      ≡ val (payload, value))
    × (decode_intermediary ether false token ≡ val d)
    × (length payload ≡ 47)
    × Runs 16000000 (entry v2_output1_single) payload
    × (field 3 20 payload ≡ pair.address)
    × (field 23 20 payload ≡ token)
    × (stored 68 4 (field 2 1 payload) (field 43 4 payload) ≡ d)
    × (weth_amount value ≡ 999999997191651328)
create_payload_weth_is_output_example =
    create_payload_weth_is_output_lem no_hex 16000000 ether ether token pair (omega arith)

v3_create_payload_weth_is_input_example :
    (payload : List ℕ) × (value d last : ℕ) × (V3.create_payload_weth_is_input no_hex short_hash
        v3_new 16000000 ether ether weth_address token pair
      ≡ val (payload, value))
    × (v3_decode_intermediary ether ≡ val d)
    × Runs 16000000 (entry v3_input1) payload
    × (field 2 20 payload ≡ pair.address)
    × (shifted 5 (field 22 1 payload) (field 23 5 payload) ≡ d)
    × (shifted 4 (field 22 1 payload) (field 23 4 payload) ≤ d)
    × (drop 28 payload ≡ 1 ∷ 2 ∷ [])
    × (take 5 (drop 23 payload) ≡ take 4 (drop 23 payload) ++ last ∷ [])
    × (take 32 (drop 27 payload) ≡ last ∷ 1 ∷ 2 ∷ [])
    × (weth_amount value ≡ 999999997191651328)
unfolding v3_gate
v3_create_payload_weth_is_input_example =
    v3_create_payload_weth_is_input_lem no_hex short_hash 16000000 ether ether weth_address token
      pair (omega arith)

v3_create_payload_weth_is_output_example :
    (payload : List ℕ) × (value d : ℕ) × (V3.create_payload_weth_is_output no_hex short_hash v3_new
        16000000 ether ether token weth_address pair
      ≡ val (payload, value))
    × (v3_decode_intermediary ether ≡ val d)
    × Runs 16000000 (entry v3_output1) payload
    × (field 2 20 payload ≡ pair.address)
    × (shifted 5 (field 22 1 payload) (field 23 5 payload) ≡ d)
    × (field 28 20 payload ≡ token)
    × (drop 48 payload ≡ 1 ∷ 2 ∷ [])
    × (weth_amount value ≡ 999999997191651328)
unfolding v3_gate
v3_create_payload_weth_is_output_example =
    v3_create_payload_weth_is_output_lem no_hex short_hash 16000000 ether ether token weth_address
      pair (omega arith)
