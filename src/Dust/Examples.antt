-- ===== src/Dust/Examples.antt =====
-- The search for dust on concrete logs.
use mathlib.Core.List as List
use mathlib.Core.List.{Memᴰ}
use mathlib.Core.List.Memᴰ
use sando_rs.Base.{
  ℕ, ◌≡◌, ◌==◌, ◌&&◌, leb, le→leb, inl, refl, List, [], ◌∷◌, val, ok, if◌then◌else◌, arith,
}
use sando_rs.Dust.{BotState, new_state}
use sando_rs.Dust.Found.{AllHeld, new_state-held}

-- One transfer of a token from the contract, in block 16025000.
abbrev transfers : (from_block to_block : ℕ) → List ℕ
transfers from_block to_block =
    if leb from_block 16025000 && leb 16025000 to_block then 7 ∷ [] else []

abbrev receipts : (from_block to_block : ℕ) → List ℕ
receipts from_block to_block = 8 ∷ 7 ∷ []

abbrev balances : ℕ → ℕ
balances token = if token == 7 then 1 else 0

new_state-held_example :
    (state : BotState) × (new_state {E = ℕ}
        (λ f t. ok (transfers f t))
        (λ f t. ok (receipts f t))
        (λ a. ok (balances a))
        (ok 16100000)
        16000000
      ≡ val (ok state))
    × Memᴰ 7 state.token_dust
    × AllHeld transfers receipts balances state.token_dust
    × (state.weth_balance ≡ 0)
new_state-held_example =
    new_state-held transfers receipts balances 16100000 16000000 7 16025000
      (λ f t before after.
        inl (rw (le→leb f 16025000 before, le→leb 16025000 t after) (List.Memᴰ.head refl)))
      (omega arith) (omega arith) (omega arith) (omega arith)
