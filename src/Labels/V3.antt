-- ===== src/Labels/V3.antt =====
-- The table and `_find_swap_type` of bot/src/utils/tx_builder/sandwich/v3.rs.
use sando_rs.Base.{ℕ, ◌≡◌, refl, Bool, true, false, [], ◌∷◌, Checked, val, ltb}
use sando_rs.Labels.{JumpLabels, insert_labels, label_at}

pub record SandwichLogicV3 : Type 0 where
  pub jump_labels : JumpLabels

pub new : SandwichLogicV3
unfolding insert_labels
new = record {
  jump_labels =
      insert_labels 108 0
        ("v3_input0_multi" ∷ "v3_input1_multi" ∷ "v3_output0_multi" ∷ "v3_output1_multi" ∷ [])
        (insert_labels 63 0 ("v3_input0" ∷ "v3_input1" ∷ "v3_output0" ∷ "v3_output1" ∷ []) []);
}

-- `is_multiple`, `is_weth_input`, and the order of the two tokens
find_label : SandwichLogicV3 → (multiple input in_order : Bool) → Checked ℕ
unfolding label_at
find_label logic true true true = label_at logic.jump_labels "v3_input0_multi"
find_label logic true true false = label_at logic.jump_labels "v3_input1_multi"
find_label logic true false true = label_at logic.jump_labels "v3_output1_multi"
find_label logic true false false = label_at logic.jump_labels "v3_output0_multi"
find_label logic false true true = label_at logic.jump_labels "v3_input0"
find_label logic false true false = label_at logic.jump_labels "v3_input1"
find_label logic false false true = label_at logic.jump_labels "v3_output1"
find_label logic false false false = label_at logic.jump_labels "v3_output0"

pub find_swap_type : SandwichLogicV3 → Bool → Bool → ℕ → ℕ → Checked ℕ
unfolding find_label
find_swap_type logic is_multiple is_weth_input input output =
    find_label logic is_multiple is_weth_input (ltb input output)

-- The offset of each kind of swap.
abbrev pub offset : (multiple input in_order : Bool) → ℕ
offset true true true = 108
offset true true false = 113
offset true false true = 123
offset true false false = 118
offset false true true = 63
offset false true false = 68
offset false false true = 78
offset false false false = 73

find_label-new : (m i o : Bool) → find_label new m i o ≡ val (offset m i o)
unfolding find_label new
find_label-new true true true = refl
find_label-new true true false = refl
find_label-new true false true = refl
find_label-new true false false = refl
find_label-new false true true = refl
find_label-new false true false = refl
find_label-new false false true = refl
find_label-new false false false = refl

pub find_swap_type-new :
    (m i : Bool) (input output : ℕ)
    → find_swap_type new m i input output ≡ val (offset m i (ltb input output))
unfolding find_swap_type
find_swap_type-new m i input output = find_label-new m i (ltb input output)
