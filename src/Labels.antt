-- ===== src/Labels.antt =====
-- The tables of jump labels of bot/src/utils/tx_builder/sandwich/v2.rs and v3.rs: each name stands
-- for the byte offset of the piece of the sandwich contract that handles a kind of swap.
pub mod V2
pub mod V3
pub mod Gates
pub mod Dispatch
mod Examples
use Prim.Native.String.{String}
use text.Mathlib.Text.{◌==◌ as str_eq}
use sando_rs.Base.{ℕ, ◌+◌, ◌*◌, Option, none, some, List, [], ◌∷◌, Checked, unwrap, if◌then◌else◌}

abbrev pub JumpLabels : Type 0
JumpLabels = List (String × ℕ)

-- The newest entry is found first, as a later `insert` of the same key replaces an older one.
abbrev pub insert : String → ℕ → JumpLabels → JumpLabels
insert name offset labels = (name, offset) ∷ labels

unfoldable pub lookup : String → JumpLabels → Option ℕ
lookup name [] = none
lookup name ((other, offset) ∷ labels) =
    if str_eq other name then some offset else lookup name labels

-- `for x in 0..names.len() { insert(names[x], start_offset + 5 * x) }`, from `x` on
unfoldable pub insert_labels : (start_offset x : ℕ) → List String → JumpLabels → JumpLabels
insert_labels start_offset x [] labels = labels
insert_labels start_offset x (name ∷ names) labels =
    insert_labels start_offset (x + 1) names (insert name (start_offset + 5 * x) labels)

-- `jump_labels[name]`, which panics on a missing key
unfoldable pub label_at : JumpLabels → String → Checked ℕ
unfolding lookup
label_at labels name = unwrap (lookup name labels)
