-- ===== src/Labels/Gates.antt =====
-- The gates at the start of contract/src/sandwich.huff: from byte 48 on, in the order of `MAIN`,
-- each a `JUMPDEST`, a two-byte push and a `JUMP`, five bytes; before them `exit` at byte 46.
use sando_rs.Base.{
  ℕ, ◌+◌, ◌*◌, ◌≡◌, ◌≢◌, ◌<◌, ◌≤◌, ◌∙◌, ap, not, if◌then◌else◌, refl, Bool, true, false, val, ltb,
  arith,
}
use sando_rs.Constants.{weth_address, end_of_multi_payload, prepare_stack_payload}
use sando_rs.Labels.V2
use sando_rs.Labels.V3

pub data Gate : Type 0 where
  v2_input_single : Gate
  v2_output0_single : Gate
  v2_output1_single : Gate
  v3_input0 : Gate
  v3_input1 : Gate
  v3_output0 : Gate
  v3_output1 : Gate
  v2_input_multi_first : Gate
  v2_input_multi_next : Gate
  v2_output_multi_first : Gate
  v2_output_multi_next : Gate
  prepare_stack : Gate
  v3_input0_multi : Gate
  v3_input1_multi : Gate
  v3_output0_multi : Gate
  v3_output1_multi : Gate
  arbitrage_weth_input : Gate
  arbitrage_v2_swap_to_other : Gate
  arbitrage_v2_swap_to_this : Gate
  seppuku : Gate
  recover_weth : Gate
  deposit_weth : Gate

-- The place of a gate in `MAIN`.
unfoldable pub position : Gate → ℕ
position v2_input_single = 0
position v2_output0_single = 1
position v2_output1_single = 2
position v3_input0 = 3
position v3_input1 = 4
position v3_output0 = 5
position v3_output1 = 6
position v2_input_multi_first = 7
position v2_input_multi_next = 8
position v2_output_multi_first = 9
position v2_output_multi_next = 10
position prepare_stack = 11
position v3_input0_multi = 12
position v3_input1_multi = 13
position v3_output0_multi = 14
position v3_output1_multi = 15
position arbitrage_weth_input = 16
position arbitrage_v2_swap_to_other = 17
position arbitrage_v2_swap_to_this = 18
position seppuku = 19
position recover_weth = 20
position deposit_weth = 21

unfoldable pub entry : Gate → ℕ
entry gate = 48 + 5 * position gate

abbrev pub exit_entry : ℕ
exit_entry = 46

position_small : (gate : Gate) → position gate ≤ 21
unfolding position
position_small v2_input_single = omega arith
position_small v2_output0_single = omega arith
position_small v2_output1_single = omega arith
position_small v3_input0 = omega arith
position_small v3_input1 = omega arith
position_small v3_output0 = omega arith
position_small v3_output1 = omega arith
position_small v2_input_multi_first = omega arith
position_small v2_input_multi_next = omega arith
position_small v2_output_multi_first = omega arith
position_small v2_output_multi_next = omega arith
position_small prepare_stack = omega arith
position_small v3_input0_multi = omega arith
position_small v3_input1_multi = omega arith
position_small v3_output0_multi = omega arith
position_small v3_output1_multi = omega arith
position_small arbitrage_weth_input = omega arith
position_small arbitrage_v2_swap_to_other = omega arith
position_small arbitrage_v2_swap_to_this = omega arith
position_small seppuku = omega arith
position_small recover_weth = omega arith
position_small deposit_weth = omega arith

pub entry_small : (gate : Gate) → entry gate < 256
unfolding entry
entry_small gate = omega (arith, position_small gate)

-- The gate for a V2 swap, from what the macro of that name does.
unfoldable pub v2_gate : (multiple first input weth_is_token0 : Bool) → Gate
v2_gate true true true _ = v2_input_multi_first
v2_gate true false true _ = v2_input_multi_next
v2_gate true true false _ = v2_output_multi_first
v2_gate true false false _ = v2_output_multi_next
v2_gate false _ true _ = v2_input_single
v2_gate false _ false true = v2_output0_single
v2_gate false _ false false = v2_output1_single

-- The gate for a V3 swap, in which weth is the token that goes in, or that comes out, and is token
-- 0 or token 1.
unfoldable pub v3_gate : (multiple input weth_is_token0 : Bool) → Gate
v3_gate true true true = v3_input0_multi
v3_gate true true false = v3_input1_multi
v3_gate true false true = v3_output0_multi
v3_gate true false false = v3_output1_multi
v3_gate false true true = v3_input0
v3_gate false true false = v3_input1
v3_gate false false true = v3_output0
v3_gate false false false = v3_output1

pub v2_offset-entry : (m f i z : Bool) → V2.offset m f i z ≡ entry (v2_gate m f i z)
unfolding entry position v2_gate
v2_offset-entry true true true z = refl
v2_offset-entry true true false z = refl
v2_offset-entry true false true z = refl
v2_offset-entry true false false z = refl
v2_offset-entry false f true z = refl
v2_offset-entry false f false true = refl
v2_offset-entry false f false false = refl

-- The swap type that v2.rs computes for a swap is the entry of the contract's gate for it, and
-- stands in one byte.
pub v2_swap_type-entry :
    (multiple first input : Bool) (other_token : ℕ)
    → (V2.find_swap_type V2.new multiple first input other_token
        ≡ val (entry (v2_gate multiple first input (ltb weth_address other_token))))
      × (entry (v2_gate multiple first input (ltb weth_address other_token)) < 256)
v2_swap_type-entry multiple first input other_token = (
  V2.find_swap_type-new multiple first input other_token
      ∙ ap val (v2_offset-entry multiple first input (ltb weth_address other_token)),
  entry_small (v2_gate multiple first input (ltb weth_address other_token)),
)

pub v3_offset-entry :
    (m i z : Bool) → V3.offset m i (if i then z else not z) ≡ entry (v3_gate m i z)
unfolding entry position v3_gate
v3_offset-entry true true true = refl
v3_offset-entry true true false = refl
v3_offset-entry true false true = refl
v3_offset-entry true false false = refl
v3_offset-entry false true true = refl
v3_offset-entry false true false = refl
v3_offset-entry false false true = refl
v3_offset-entry false false false = refl

ltb_flip : (a b : ℕ) → a ≢ b → ltb a b ≡ not (ltb b a)
ltb_flip a b ne = ground arith

-- The swap type that v3.rs computes for a swap of weth for another token, and of another token for
-- weth, is the entry of the contract's gate for it, and stands in one byte.
pub v3_swap_type-entry :
    (multiple : Bool) (token : ℕ)
    → token ≢ weth_address
    → (V3.find_swap_type V3.new multiple true weth_address token
        ≡ val (entry (v3_gate multiple true (ltb weth_address token))))
      × (V3.find_swap_type V3.new multiple false token weth_address
          ≡ val (entry (v3_gate multiple false (ltb weth_address token))))
      × (entry (v3_gate multiple true (ltb weth_address token)) < 256)
      × (entry (v3_gate multiple false (ltb weth_address token)) < 256)
v3_swap_type-entry multiple token ne =
    let z = ltb weth_address token in
    (
      V3.find_swap_type-new multiple true weth_address token
          ∙ ap val (v3_offset-entry multiple true z),
      V3.find_swap_type-new multiple false token weth_address
          ∙ ap (λ o. val (V3.offset multiple false o)) (ltb_flip token weth_address ne)
          ∙ ap val (v3_offset-entry multiple false z),
      entry_small (v3_gate multiple true z),
      entry_small (v3_gate multiple false z),
    )

-- The bytes that the bot sends to prepare the stack and to end a multi payload are not the entry
-- of any gate, nor that of `exit`.
pub payload_constants_stale :
    (gate : Gate)
    → (prepare_stack_payload ≢ entry gate)
      × (end_of_multi_payload ≢ entry gate)
      × (prepare_stack_payload ≢ exit_entry)
      × (end_of_multi_payload ≢ exit_entry)
unfolding entry
payload_constants_stale gate = (omega arith, omega arith, omega arith, omega arith)
