-- ===== src/Labels/V2.antt =====
-- The table and `_find_swap_type` of bot/src/utils/tx_builder/sandwich/v2.rs.
use sando_rs.Base.{ℕ, ◌≡◌, refl, Bool, true, false, [], ◌∷◌, Checked, val, ltb}
use sando_rs.Constants.{weth_address}
use sando_rs.Labels.{JumpLabels, insert_labels, label_at}

pub record SandwichLogicV2 : Type 0 where
  pub jump_labels : JumpLabels

unfoldable pub new : SandwichLogicV2
unfolding insert_labels
new = record {
  jump_labels =
      insert_labels 83 0
        ("v2_input_multi_first" ∷ "v2_input_multi_next" ∷ "v2_output_multi_first"
          ∷ "v2_output_multi_next" ∷ [])
        (insert_labels 48 0 ("v2_input_single" ∷ "v2_output0_single" ∷ "v2_output1_single" ∷ [])
          []);
}

-- `is_multiple`, `is_first_of_payload`, `is_weth_input`, and the order of the token and weth
find_label : SandwichLogicV2 → (multiple first input weth_is_token0 : Bool) → Checked ℕ
unfolding label_at
find_label logic true true true _ = label_at logic.jump_labels "v2_input_multi_first"
find_label logic true false true _ = label_at logic.jump_labels "v2_input_multi_next"
find_label logic true true false _ = label_at logic.jump_labels "v2_output_multi_first"
find_label logic true false false _ = label_at logic.jump_labels "v2_output_multi_next"
find_label logic false _ true _ = label_at logic.jump_labels "v2_input_single"
find_label logic false _ false true = label_at logic.jump_labels "v2_output0_single"
find_label logic false _ false false = label_at logic.jump_labels "v2_output1_single"

unfoldable pub find_swap_type : SandwichLogicV2 → Bool → Bool → Bool → ℕ → Checked ℕ
unfolding find_label
find_swap_type logic is_multiple is_first_of_payload is_weth_input other_token_addr =
    find_label logic is_multiple is_first_of_payload is_weth_input
      (ltb weth_address other_token_addr)

-- The offset of each kind of swap.
abbrev pub offset : (multiple first input weth_is_token0 : Bool) → ℕ
offset true true true _ = 83
offset true false true _ = 88
offset true true false _ = 93
offset true false false _ = 98
offset false _ true _ = 48
offset false _ false true = 53
offset false _ false false = 58

find_label-new : (m f i z : Bool) → find_label new m f i z ≡ val (offset m f i z)
unfolding find_label new
find_label-new true true true _ = refl
find_label-new true false true _ = refl
find_label-new true true false _ = refl
find_label-new true false false _ = refl
find_label-new false true true true = refl
find_label-new false true true false = refl
find_label-new false true false true = refl
find_label-new false true false false = refl
find_label-new false false true true = refl
find_label-new false false true false = refl
find_label-new false false false true = refl
find_label-new false false false false = refl

pub find_swap_type-new :
    (m f i : Bool) (token : ℕ)
    → find_swap_type new m f i token ≡ val (offset m f i (ltb weth_address token))
unfolding find_swap_type
find_swap_type-new m f i token = find_label-new m f i (ltb weth_address token)
