-- ===== src/Labels/Dispatch.antt =====
-- `MAIN` of contract/src/sandwich.huff: which code a call of the contract runs.
use mathlib.Core.Path.{subst}
use sando_rs.Labels.Gates.{Gate, entry, entry_small}
use sando_rs.Base.{
  ℕ, sym, ◌≡◌, ◌/◌, ◌%◌, ◌^◌, ◌<◌, refl, arith, ◌&&◌, ◌==◌, zero, suc, Bool, List, [], ◌∷◌,
  if◌then◌else◌,
}

-- The byte of the call data, and zero behind its end; a word has 32 of them.
abbrev pub byte_at : ℕ → List ℕ → ℕ
byte_at i [] = 0
byte_at zero (b ∷ bytes) = b
byte_at (suc i) (b ∷ bytes) = byte_at i bytes

-- A jump to a label, or to the callback for V3 pools, which goes on to check its caller: it pays a
-- pool, and for any other that the searcher's transaction calls it from it jumps to `exit` in the end.
pub data Dispatch : Type 0 where
  jump : ℕ → Dispatch
  v3_callback : Dispatch

-- The first byte has to be the low byte of the block's number, and the caller the searcher. The byte
-- at the place of the chain's number, which is 1, is the label.
unfoldable pub dispatch : (block_number : ℕ) (caller_is_searcher : Bool) → List ℕ → Dispatch
dispatch block_number caller_is_searcher calldata =
    if (byte_at 0 calldata == block_number % 256) && caller_is_searcher
    then jump (byte_at 1 calldata)
    else v3_callback

-- The call data runs the code at the label, if the searcher sends it in a block whose number has the
-- same low byte, and the V3 callback otherwise.
abbrev pub Runs : (block_number label : ℕ) → List ℕ → Type 0
Runs block_number label calldata =
    (n : ℕ) (caller_is_searcher : Bool)
    → dispatch n caller_is_searcher calldata
      ≡ (if (block_number % 256 == n % 256) && caller_is_searcher then jump label else v3_callback)

low_byte : (n : ℕ) → n / 256 ^ 0 % 256 ≡ n % 256
low_byte n = omega arith

label_byte : (label : ℕ) → label < 256 → label / 256 ^ 0 % 256 ≡ label
label_byte label h = omega arith

dispatch-Runs :
    (block_number label : ℕ) (rest : List ℕ)
    → label < 256
    → Runs block_number label ((block_number / 256 ^ 0 % 256) ∷ (label / 256 ^ 0 % 256) ∷ rest)
unfolding dispatch
dispatch-Runs block_number label rest h n caller_is_searcher =
    rw (low_byte block_number, label_byte label h) refl

pub dispatch-Runs_gate :
    (block_number label : ℕ) (gate : Gate) (rest : List ℕ)
    → label ≡ entry gate
    → Runs block_number
        (entry gate)
        ((block_number / 256 ^ 0 % 256) ∷ (label / 256 ^ 0 % 256) ∷ rest)
dispatch-Runs_gate block_number label gate rest e =
    subst
      (λ l.
        Runs block_number (entry gate)
          ((block_number / 256 ^ 0 % 256) ∷ (l / 256 ^ 0 % 256) ∷ rest))
      (sym e) (dispatch-Runs block_number (entry gate) rest (entry_small gate))
