-- ===== src/Labels/Examples.antt =====
-- The theorems on the jump labels at concrete swaps.
use sando_rs.Base.{ℕ, ◌<◌, ◌≡◌, ◌≢◌, true, false, val, arith}
use sando_rs.Constants.{weth_address, prepare_stack_payload, end_of_multi_payload}
use sando_rs.Labels.V2
use sando_rs.Labels.V3
use sando_rs.Labels.Gates.{
  prepare_stack, position, entry, v2_gate, v3_gate, exit_entry, v2_swap_type-entry,
  v3_swap_type-entry, payload_constants_stale,
}

abbrev low_token : ℕ
low_token = 0x6B175474E89094C44Da98b954EedeAC495271d0F

abbrev high_token : ℕ
high_token = 0xdAC17F958D2ee523a2206206994597C13D831ec7

v2_swap_type-entry_example :
    (V2.find_swap_type V2.new false true false high_token ≡ val 53) × (53 < 256)
unfolding entry position v2_gate
v2_swap_type-entry_example = v2_swap_type-entry false true false high_token

v3_swap_type-entry_example :
    (V3.find_swap_type V3.new true true weth_address low_token ≡ val 113)
    × (V3.find_swap_type V3.new true false low_token weth_address ≡ val 123)
    × (113 < 256)
    × (123 < 256)
unfolding entry position v3_gate
v3_swap_type-entry_example = v3_swap_type-entry true low_token (omega arith)

payload_constants_stale_example :
    (prepare_stack_payload ≢ 103)
    × (end_of_multi_payload ≢ 103)
    × (prepare_stack_payload ≢ exit_entry)
    × (end_of_multi_payload ≢ exit_entry)
unfolding entry position
payload_constants_stale_example = payload_constants_stale prepare_stack
