-- ===== src/Swap/Examples.antt =====
-- The theorems on the encodings of swap amounts at concrete inputs.
use sando_rs.Base.{ℕ, ◌-◌, ◌*◌, ◌^◌, ◌≤◌, ◌<◌, ◌≡◌, true, false, val, arith}
use sando_rs.Swap.V2
use sando_rs.Swap.V3
use sando_rs.Swap.V2.Laws.{decode_intermediary_lem, encode_intermediary_token-lt}
use sando_rs.Swap.V3.Laws.{v3_decode_intermediary_lem}

abbrev ether : ℕ
ether = 1000000000000000000

abbrev token : ℕ
token = 0x6B175474E89094C44Da98b954EedeAC495271d0F

decode_intermediary_example :
    (d : ℕ) × (V2.decode_intermediary ether true token ≡ val d)
    × (d ≤ ether)
    × ((ether - d) * 2 ^ 23 ≤ d)
    × (V2.decode_intermediary d false 7 ≡ val d)
decode_intermediary_example = decode_intermediary_lem ether true false token 7 (omega arith)

encode_intermediary_token-lt_example :
    (r d : ℕ) × (V2.encode_intermediary_token ether true token ≡ val r)
    × (V2.decode_intermediary ether true token ≡ val d)
    × (r < d)
    × (V2.decode_intermediary r false 7 ≡ val r)
encode_intermediary_token-lt_example =
    encode_intermediary_token-lt ether true false token 7 (omega arith) (omega arith)

v3_decode_intermediary_example :
    (d : ℕ) × (V3.decode_intermediary ether ≡ val d)
    × (d ≤ ether)
    × ((ether - d) * 2 ^ 32 ≤ d)
    × (V3.decode_intermediary d ≡ val d)
v3_decode_intermediary_example = v3_decode_intermediary_lem ether (omega arith)
