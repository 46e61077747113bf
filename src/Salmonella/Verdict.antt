-- ===== src/Salmonella/Verdict.antt =====
-- When the inspector calls a transaction safe.
use text.Mathlib.Text.{◌==◌ as str_eq}
use mathlib.Core.List.{append_assoc, append-nil}
use sando_rs.Base.{
  ℕ, ◌+◌, ◌^◌, ◌<◌, ◌≤◌, ◌≡◌, ◌↔◌, refl, sym, ◌∙◌, Bool, true, false, List, [], ◌∷◌, ◌++◌, Checked,
  val, ◌>>=◌, fit-val, length, if◌then◌else◌, arith,
}
use sando_rs.Salmonella.{
  Opcodes, OpCode, safu, SalmonellaInspector, new, Action, add_suspicious, increment_call_counter,
  increment_gas_counter, ignore, new_from_code, action, push, act, step, run, is_sando_safu,
}

-- What an opcode adds to the three fields.
unfoldable pub flags : Action → OpCode → List OpCode
flags add_suspicious opcode = opcode ∷ []
flags increment_call_counter opcode = []
flags increment_gas_counter opcode = []
flags ignore opcode = []

gas_of : Action → ℕ
gas_of increment_gas_counter = 1
gas_of _ = 0

call_of : Action → ℕ
call_of increment_call_counter = 1
call_of _ = 0

gas_le : (a : Action) → gas_of a ≤ 1
unfolding gas_of
gas_le add_suspicious = omega arith
gas_le increment_call_counter = omega arith
gas_le increment_gas_counter = omega arith
gas_le ignore = omega arith

call_le : (a : Action) → call_of a ≤ 1
unfolding call_of
call_le add_suspicious = omega arith
call_le increment_call_counter = omega arith
call_le increment_gas_counter = omega arith
call_le ignore = omega arith

-- The inspector with more flagged opcodes and higher counters.
abbrev add : SalmonellaInspector → List OpCode → ℕ → ℕ → SalmonellaInspector
add s opcodes gas calls = record {
  suspicious_opcodes = s.suspicious_opcodes ++ opcodes;
  gas_opcode_counter = s.gas_opcode_counter + gas;
  call_opcode_counter = s.call_opcode_counter + calls;
}

abbrev made : List OpCode → ℕ → ℕ → Checked SalmonellaInspector
made x g c =
    val (record { suspicious_opcodes = x; gas_opcode_counter = g; call_opcode_counter = c })

add-eq : (x y : List OpCode) (g h c d : ℕ) → x ≡ y → g ≡ h → c ≡ d → made x g c ≡ made y h d
add-eq x y g h c d p q r = rw (p, q, r) refl

module _ (opcodes : Opcodes) where
  -- The opcodes that one opcode adds.
  unfoldable pub flagged_one : ℕ → List OpCode
  flagged_one code =
      flags (action opcodes code) (new_from_code opcodes code)
      ++ (if str_eq (new_from_code opcodes code).name "UNKNOWN"
          then new_from_code opcodes code ∷ []
          else [])

  -- The opcodes that the inspector flags, in order: an unknown one, or one that can tell a
  -- simulation from the chain.
  unfoldable pub flagged : List ℕ → List OpCode
  flagged [] = []
  flagged (code ∷ codes) = flagged_one code ++ flagged codes

  act-val :
      (a : Action) (unknown : Bool) (opcode : OpCode) (s : SalmonellaInspector)
      → s.gas_opcode_counter + 1 < 2 ^ 64
      → s.call_opcode_counter + 1 < 2 ^ 64
      → (act opcodes a opcode s >>= λ acted.
          val (if unknown then push opcodes acted opcode else acted))
        ≡ val
            (add s (flags a opcode ++ (if unknown then opcode ∷ [] else [])) (gas_of a) (call_of a))
  unfolding flags gas_of call_of
  act-val add_suspicious true opcode s g c =
      add-eq _ _ _ _ _ _ (append_assoc s.suspicious_opcodes (opcode ∷ []) (opcode ∷ []))
        (omega arith) (omega arith)
  act-val add_suspicious false opcode s g c = add-eq _ _ _ _ _ _ refl (omega arith) (omega arith)
  act-val increment_call_counter true opcode s g c =
      rw (fit-val (2 ^ 64) (s.call_opcode_counter + 1) c)
        (add-eq _ _ _ _ _ _ refl (omega arith) refl)
  act-val increment_call_counter false opcode s g c =
      rw (fit-val (2 ^ 64) (s.call_opcode_counter + 1) c)
        (add-eq _ _ _ _ _ _ (sym (append-nil s.suspicious_opcodes)) (omega arith) refl)
  act-val increment_gas_counter true opcode s g c =
      rw (fit-val (2 ^ 64) (s.gas_opcode_counter + 1) g)
        (add-eq _ _ _ _ _ _ refl refl (omega arith))
  act-val increment_gas_counter false opcode s g c =
      rw (fit-val (2 ^ 64) (s.gas_opcode_counter + 1) g)
        (add-eq _ _ _ _ _ _ (sym (append-nil s.suspicious_opcodes)) refl (omega arith))
  act-val ignore true opcode s g c = add-eq _ _ _ _ _ _ refl (omega arith) (omega arith)
  act-val ignore false opcode s g c =
      add-eq _ _ _ _ _ _ (sym (append-nil s.suspicious_opcodes)) (omega arith) (omega arith)

  run-flags :
      (codes : List ℕ) (s : SalmonellaInspector)
      → s.gas_opcode_counter + length codes < 2 ^ 64
      → s.call_opcode_counter + length codes < 2 ^ 64
      → (after : SalmonellaInspector) × (run opcodes s codes ≡ val after)
        × (after.suspicious_opcodes ≡ s.suspicious_opcodes ++ flagged codes)
  unfolding run step flagged flagged_one
  run-flags [] s g c = (s, refl, sym (append-nil s.suspicious_opcodes))
  run-flags (code ∷ codes) s g c =
      let op = new_from_code opcodes code in
      let a = action opcodes code in
      let one_gas : gas_of a ≤ 1 = gas_le a in
      let one_call : call_of a ≤ 1 = call_le a in
      let next = add s (flagged_one code) (gas_of a) (call_of a) in
      let (after, e, same) =
        run-flags codes next (omega (arith, g, one_gas)) (omega (arith, c, one_call)) in
      (
        after,
        rw (act-val a (str_eq op.name "UNKNOWN") op s (omega (arith, g)) (omega (arith, c))) e,
        same ∙ append_assoc s.suspicious_opcodes (flagged_one code) (flagged codes),
      )

  safu_iff :
      (s : SalmonellaInspector) (xs : List OpCode)
      → s.suspicious_opcodes ≡ xs
      → (is_sando_safu opcodes s ≡ safu) ↔ (xs ≡ [])
  unfolding is_sando_safu
  safu_iff s [] e = (λ _. refl, λ _. rw e refl)
  safu_iff s (x ∷ xs) e = (λ h. ground arith, λ h. ground arith)

-- After a transaction of fewer than 2 ^ 64 opcodes, the inspector calls it safe exactly where it
-- has flagged no opcode, however many times it has called without reading the gas.
pub is_sando_safu-flagged :
    (opcodes : Opcodes) (codes : List ℕ)
    → length codes < 2 ^ 64
    → (after : SalmonellaInspector) × (run opcodes new codes ≡ val after)
      × ((is_sando_safu opcodes after ≡ safu) ↔ (flagged opcodes codes ≡ []))
unfolding new
is_sando_safu-flagged opcodes codes short =
    let (after, e, same) =
      run-flags opcodes codes new (omega (arith, short)) (omega (arith, short)) in
    (after, e, safu_iff opcodes after (flagged opcodes codes) same)
