-- ===== src/BlockTask/Recovery.antt =====
-- What the request for weth does at the contract.
use Prim.Native.String.{String}
use sando_rs.Base.{
  if◌then◌else◌, ℕ, ◌*◌, ◌/◌, ◌%◌, ◌^◌, ◌≡◌, ◌≢◌, ◌==◌, ◌&&◌, refl, Bool, List, [], ◌∷◌, val,
  Bool-cases, inl, inr, arith,
}
use sando_rs.Packed.{number_with_shift}
use sando_rs.Packed.Laws.{encode_packed-eq}
use sando_rs.Labels.Gates.{Gate, entry}
use sando_rs.Labels.Dispatch.{v3_callback, jump, dispatch}
use sando_rs.Payload.Layout.{weth_amount}
use sando_rs.BlockTask.{get_recover_weth_payload_value}

pub recover_payload :
    (hex_encode : List ℕ → String) (recover_amount : ℕ)
    → get_recover_weth_payload_value hex_encode recover_amount
      ≡ val (124 ∷ [], recover_amount / 2 ^ 32)
unfolding get_recover_weth_payload_value
recover_payload hex_encode recover_amount =
    rw (encode_packed-eq hex_encode (number_with_shift 124 8 ∷ []) (omega arith)) refl

jump_ne : (gate : Gate) → jump 0 ≢ jump (entry gate)
unfolding entry
jump_ne gate e = ground arith

no_gate :
    (n : ℕ) (caller_is_searcher : Bool) (gate : Gate)
    → dispatch n caller_is_searcher (124 ∷ []) ≢ jump (entry gate)
unfolding dispatch entry
no_gate n caller_is_searcher gate e = elim (Bool-cases ((124 == n % 256) && caller_is_searcher)) [
  | inl t ↦ jump_ne gate (rw t at e)
  | inr f ↦ cc (rw f at e)
]

-- The request to recover weth is made with no panic, and its value stands for the amount rounded down
-- to a multiple of 2 ^ 32; but the contract, called with its payload, jumps to byte 0, where it has no
-- entry, if the searcher calls it in a block whose number has the low byte 124, and to the callback for
-- V3 pools otherwise: whoever calls and whatever the block, it dispatches to no gate, `recover_weth`
-- included.
pub get_recover_weth_payload_value-no_gate :
    (hex_encode : List ℕ → String) (recover_amount : ℕ)
    → (payload : List ℕ) × (value : ℕ) × (get_recover_weth_payload_value hex_encode recover_amount
        ≡ val (payload, value))
      × (weth_amount value ≡ recover_amount / 2 ^ 32 * 2 ^ 32)
      × ((block_number : ℕ) (caller_is_searcher : Bool)
          → (dispatch block_number caller_is_searcher payload
              ≡ (if (124 == block_number % 256) && caller_is_searcher then jump 0 else v3_callback))
            × ((gate : Gate)
                → dispatch block_number caller_is_searcher payload ≢ jump (entry gate)))
unfolding dispatch
get_recover_weth_payload_value-no_gate hex_encode recover_amount = (
  124 ∷ [],
  recover_amount / 2 ^ 32,
  recover_payload hex_encode recover_amount,
  refl,
  λ n s. (refl, no_gate n s),
)
