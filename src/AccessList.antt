-- ===== src/AccessList.antt =====
-- bot/src/simulate/inspectors/access_list.rs. The hash maps and sets are lists without order; the
-- opcodes' numbers are revm's, and parameters.
pub mod Convert
pub mod Excluded
mod Examples
use sando_rs.Base.{
  ℕ, ◌%◌, ◌^◌, ◌||◌, Bool, true, false, Option, none, some, List, [], ◌∷◌, ◌++◌, ◌==◌,
  if◌then◌else◌,
}
use sando_rs.StateDiff.{lookup}

pub record AccessOpcodes : Type 0 where
  pub storage : List ℕ
  pub account : List ℕ
  pub calls : List ℕ

-- What the inspector reads of the interpreter: the opcode, the address of the contract, and the
-- two topmost words of the stack, if they are there.
pub record Instruction : Type 0 where
  pub op : ℕ
  pub contract : ℕ
  pub peek_0 : Option ℕ
  pub peek_1 : Option ℕ

pub record AccessListInspector : Type 0 where
  pub excluded : List ℕ
  pub access_list : List (ℕ × List ℕ)

unfoldable pub contains : ℕ → List ℕ → Bool
contains x [] = false
contains x (y ∷ ys) = (x == y) || contains x ys

-- The sender, the receiver and the precompiles are excluded.
unfoldable pub new : (precompiles : List ℕ) (from to : ℕ) → AccessListInspector
new precompiles from to = record { excluded = from ∷ to ∷ precompiles; access_list = [] }

-- `HashSet::insert`
unfoldable pub insert_slot : ℕ → List ℕ → List ℕ
insert_slot slot slots = if contains slot slots then slots else slot ∷ slots

-- `entry(key).or_default()`, changed by `f`.
unfoldable pub modify : ℕ → (List ℕ → List ℕ) → List (ℕ × List ℕ) → List (ℕ × List ℕ)
modify key f [] = (key, f []) ∷ []
modify key f ((other, slots) ∷ entries) =
    let rest = modify key f entries in
    if key == other then (other, f slots) ∷ entries else (other, slots) ∷ rest

-- The low 20 bytes of a word.
abbrev pub to_address : ℕ → ℕ
to_address slot = slot % 2 ^ 160

-- `SLOAD` and `SSTORE`.
unfoldable pub touch_slot : AccessListInspector → (contract : ℕ) → Option ℕ → AccessListInspector
unfolding modify insert_slot
touch_slot s contract none = s
touch_slot s contract (some slot) = record s {
  access_list = modify contract (insert_slot slot) s.access_list;
}

-- An account that the word names.
unfoldable pub touch_account : AccessListInspector → Option ℕ → AccessListInspector
unfolding modify contains
touch_account s none = s
touch_account s (some slot) =
    if contains (to_address slot) s.excluded
    then s
    else record s { access_list = modify (to_address slot) (λ slots. slots) s.access_list }

module _ (opcodes : AccessOpcodes) where
  unfoldable pub step : AccessListInspector → Instruction → AccessListInspector
  unfolding touch_slot touch_account contains
  step s instruction =
      if contains instruction.op opcodes.storage
      then touch_slot s instruction.contract instruction.peek_0
      else (if contains instruction.op opcodes.account
          then touch_account s instruction.peek_0
          else (if contains instruction.op opcodes.calls
              then touch_account s instruction.peek_1
              else s))

  unfoldable pub run : AccessListInspector → List Instruction → AccessListInspector
  unfolding step
  run s [] = s
  run s (instruction ∷ instructions) = run (step s instruction) instructions

-- The addresses with their slots.
unfoldable pub into_access_list : AccessListInspector → List (ℕ × List ℕ)
into_access_list s = s.access_list
