-- ===== src/AccessList/Excluded.antt =====
-- Which of the excluded addresses come into an access list.
use mathlib.Core.Bool.{true≢false}
use sando_rs.Base.{
  ℕ, Bool, ◌&&◌, ◌||◌, ◌≡◌, ◌≢◌, refl, ap, sym, ◌∙◌, true, false, Option, none, some, List, [], ◌∷◌,
  ◌==◌, ==_iff, Bool-cases, inl, inr, arith,
}
use sando_rs.StateDiff.{lookup}
use sando_rs.AccessList.{
  AccessOpcodes, Instruction, AccessListInspector, contains, new, modify, insert_slot, to_address,
  touch_slot, touch_account, step, run, into_access_list,
}

abbrev pub is_some : {A : Type 0} → Option A → Bool
is_some none = false
is_some (some _) = true

-- The address has an entry.
abbrev pub listed : ℕ → List (ℕ × List ℕ) → Bool
listed a entries = is_some (lookup a entries)

different : (a b : ℕ) → a ≢ b → (a == b) ≡ false
different a b ne = ground arith

lookup-modify_other :
    (a key : ℕ) (f : List ℕ → List ℕ) (entries : List (ℕ × List ℕ))
    → a ≢ key
    → lookup a (modify key f entries) ≡ lookup a entries
unfolding lookup modify
lookup-modify_other a key f [] ne = rw (different a key ne) refl
lookup-modify_other a key f ((other, slots) ∷ entries) ne = elim (Bool-cases (key == other)) [
  | inl e ↦
      let apart : (a == other) ≡ false =
        ap (λ k. a == k) (sym ((==_iff key other).0 e)) ∙ different a key ne in
      rw (e, apart) refl
  | inr e ↦ elim (Bool-cases (a == other)) [
    | inl k ↦ rw (e, k) refl
    | inr k ↦ rw (e, k) (lookup-modify_other a key f entries ne)
  ]
]

lookup-modify_self :
    (a : ℕ) (f : List ℕ → List ℕ) (entries : List (ℕ × List ℕ))
    → listed a (modify a f entries) ≡ true
unfolding lookup modify
lookup-modify_self a f [] = rw ((==_iff a a).1 refl) refl
lookup-modify_self a f ((other, slots) ∷ entries) = elim (Bool-cases (a == other)) [
  | inl e ↦ rw (e, e) refl
  | inr e ↦ rw (e, e) (lookup-modify_self a f entries)
]

-- The storage of the address is read or written.
unfoldable pub stores_in : AccessOpcodes → (a : ℕ) → Instruction → Bool
stores_in opcodes a instruction =
    contains instruction.op opcodes.storage
    && (a == instruction.contract)
    && is_some instruction.peek_0

unfoldable pub some_stores_in : AccessOpcodes → (a : ℕ) → List Instruction → Bool
some_stores_in opcodes a [] = false
some_stores_in opcodes a (instruction ∷ instructions) =
    stores_in opcodes a instruction || some_stores_in opcodes a instructions

touch_slot-listed :
    (a contract : ℕ) (s : AccessListInspector) (word : Option ℕ)
    → listed a (touch_slot s contract word).access_list
      ≡ ((a == contract) && is_some word) || listed a s.access_list
unfolding touch_slot
touch_slot-listed a contract s none = ground arith
touch_slot-listed a contract s (some slot) = elim (Bool-cases (a == contract)) [
  | inl e ↦ rw e (
      ap (λ k. listed a (modify k (insert_slot slot) s.access_list)) (sym ((==_iff a contract).0 e))
      ∙ lookup-modify_self a (insert_slot slot) s.access_list)
  | inr e ↦ rw e (
      ap is_some (
        lookup-modify_other a contract (insert_slot slot) s.access_list
          (λ q. true≢false (sym ((==_iff a contract).1 q) ∙ e))))
]

touch_account-listed :
    (a : ℕ) (s : AccessListInspector) (word : Option ℕ)
    → contains a s.excluded ≡ true
    → listed a (touch_account s word).access_list ≡ listed a s.access_list
unfolding touch_account
touch_account-listed a s none excluded = refl
touch_account-listed a s (some slot) excluded =
    elim (Bool-cases (contains (to_address slot) s.excluded)) [
      | inl e ↦ rw e refl
      | inr e ↦
          let ne : a ≢ to_address slot =
            λ q. true≢false (sym excluded ∙ ap (λ k. contains k s.excluded) q ∙ e) in
          rw e
            (ap is_some (lookup-modify_other a (to_address slot) (λ slots. slots) s.access_list ne))
    ]

touch_slot-excluded :
    (s : AccessListInspector) (contract : ℕ) (word : Option ℕ)
    → (touch_slot s contract word).excluded ≡ s.excluded
unfolding touch_slot
touch_slot-excluded s contract none = refl
touch_slot-excluded s contract (some slot) = refl

touch_account-excluded :
    (s : AccessListInspector) (word : Option ℕ) → (touch_account s word).excluded ≡ s.excluded
unfolding touch_account
touch_account-excluded s none = refl
touch_account-excluded s (some slot) = elim (Bool-cases (contains (to_address slot) s.excluded)) [
  | inl e ↦ rw e refl
  | inr e ↦ rw e refl
]

module _ (opcodes : AccessOpcodes) (a : ℕ) where
  step-listed :
      (s : AccessListInspector) (instruction : Instruction)
      → contains a s.excluded ≡ true
      → (listed a (step opcodes s instruction).access_list
          ≡ stores_in opcodes a instruction || listed a s.access_list)
        × ((step opcodes s instruction).excluded ≡ s.excluded)
  unfolding step stores_in
  step-listed s instruction excluded = elim (Bool-cases (contains instruction.op opcodes.storage)) [
    | inl e ↦ rw e (
      touch_slot-listed a instruction.contract s instruction.peek_0,
      touch_slot-excluded s instruction.contract instruction.peek_0,
    )
    | inr e ↦ elim (Bool-cases (contains instruction.op opcodes.account)) [
      | inl e' ↦
          rw (e, e')
            (
              touch_account-listed a s instruction.peek_0 excluded,
              touch_account-excluded s instruction.peek_0,
            )
      | inr e' ↦ elim (Bool-cases (contains instruction.op opcodes.calls)) [
        | inl c ↦
            rw (e, e', c)
              (
                touch_account-listed a s instruction.peek_1 excluded,
                touch_account-excluded s instruction.peek_1,
              )
        | inr c ↦ rw (e, e', c) (refl, refl)
      ]
    ]
  ]

  or_swap : (x y z : Bool) → y || (x || z) ≡ (x || y) || z
  or_swap true true z = refl
  or_swap true false z = refl
  or_swap false y z = refl

  run-listed :
      (s : AccessListInspector) (instructions : List Instruction)
      → contains a s.excluded ≡ true
      → listed a (run opcodes s instructions).access_list
        ≡ some_stores_in opcodes a instructions || listed a s.access_list
  unfolding run some_stores_in
  run-listed s [] excluded = refl
  run-listed s (instruction ∷ instructions) excluded =
      let (now, same) = step-listed s instruction excluded in
      run-listed (step opcodes s instruction) instructions (ap (contains a) same ∙ excluded)
      ∙ ap (λ b. some_stores_in opcodes a instructions || b) now
      ∙ or_swap (stores_in opcodes a instruction) (some_stores_in opcodes a instructions)
          (listed a s.access_list)

-- The sender, the receiver or a precompile is in the access list of a transaction exactly if an
-- instruction of the transaction that runs in it reads or writes a slot of its storage, whatever
-- accounts the transaction reads or calls.
pub into_access_list-excluded :
    (opcodes : AccessOpcodes) (precompiles : List ℕ) (from to a : ℕ)
    (instructions : List Instruction)
    → contains a (from ∷ to ∷ precompiles) ≡ true
    → listed a (into_access_list (run opcodes (new precompiles from to) instructions))
      ≡ some_stores_in opcodes a instructions
unfolding into_access_list new
into_access_list-excluded opcodes precompiles from to a instructions excluded =
    run-listed opcodes a (new precompiles from to) instructions excluded
    ∙ (unfold lookup in or_false (some_stores_in opcodes a instructions))
  where
    or_false : (b : Bool) → b || false ≡ b
    or_false true = refl
    or_false false = refl
