-- ===== src/Salmonella.antt =====
-- bot/src/simulate/inspectors/is_sando_safu.rs. The table of opcode names and the opcodes' numbers
-- are revm's, and parameters.
pub mod Verdict
mod Examples
use Prim.Native.String.{String}
use text.Mathlib.Text.{◌==◌ as str_eq}
use sando_rs.Base.{
  ℕ, suc, ◌+◌, ◌^◌, Bool, true, false, ◌||◌, Option, none, some, List, [], ◌∷◌, ◌++◌, Checked, val,
  ◌>>=◌, fit, length, ltb, ◌==◌, if◌then◌else◌,
}

-- What the inspector uses of revm's opcodes.
pub record Opcodes : Type 0 where
  pub jumpmap : ℕ → Option String
  pub balance : ℕ
  pub gasprice : ℕ
  pub extcodehash : ℕ
  pub blockhash : ℕ
  pub coinbase : ℕ
  pub difficulty : ℕ
  pub gaslimit : ℕ
  pub selfbalance : ℕ
  pub basefee : ℕ
  pub create : ℕ
  pub create2 : ℕ
  pub selfdestruct : ℕ
  pub call : ℕ
  pub delegatecall : ℕ
  pub staticcall : ℕ
  pub gas : ℕ

pub record OpCode : Type 0 where
  pub name : String
  pub code : ℕ

pub data IsSandoSafu : Type 0 where
  safu : IsSandoSafu
  not_safu : List OpCode → IsSandoSafu

pub record SalmonellaInspector : Type 0 where
  pub suspicious_opcodes : List OpCode
  pub gas_opcode_counter : ℕ
  pub call_opcode_counter : ℕ

unfoldable pub new : SalmonellaInspector
new = record { suspicious_opcodes = []; gas_opcode_counter = 0; call_opcode_counter = 0 }

-- `code` is one of `codes`.
abbrev pub one_of : List ℕ → ℕ → Bool
one_of [] code = false
one_of (c ∷ codes) code = (code == c) || one_of codes code

-- What the arms of the match do with an opcode.
pub data Action : Type 0 where
  add_suspicious increment_call_counter increment_gas_counter ignore : Action

module _ (opcodes : Opcodes) where
  unfoldable pub new_from_code : ℕ → OpCode
  new_from_code code = record {
    name = elim (opcodes.jumpmap code) [ some name ↦ name | none ↦ "UNKNOWN" ];
    code = code;
  }

  unfoldable pub action : ℕ → Action
  action code =
      if one_of
        (opcodes.balance ∷ opcodes.gasprice ∷ opcodes.extcodehash ∷ opcodes.blockhash
          ∷ opcodes.coinbase ∷ opcodes.difficulty ∷ opcodes.gaslimit ∷ opcodes.selfbalance
          ∷ opcodes.basefee ∷ opcodes.create ∷ opcodes.create2 ∷ opcodes.selfdestruct ∷ [])
        code
      then add_suspicious
      else (if one_of (opcodes.call ∷ opcodes.delegatecall ∷ opcodes.staticcall ∷ []) code
          then increment_call_counter
          else (if code == opcodes.gas then increment_gas_counter else ignore))

  abbrev pub push : SalmonellaInspector → OpCode → SalmonellaInspector
  push s opcode = record s { suspicious_opcodes = s.suspicious_opcodes ++ opcode ∷ [] }

  abbrev pub act : Action → OpCode → SalmonellaInspector → Checked SalmonellaInspector
  act add_suspicious opcode s = val (push s opcode)
  act increment_call_counter opcode s = do
    count ← fit (2 ^ 64) (s.call_opcode_counter + 1)
    val (record s { call_opcode_counter = count })
  act increment_gas_counter opcode s = do
    count ← fit (2 ^ 64) (s.gas_opcode_counter + 1)
    val (record s { gas_opcode_counter = count })
  act ignore opcode s = val s

  -- One executed opcode.
  pub step : SalmonellaInspector → ℕ → Checked SalmonellaInspector
  unfolding new_from_code action
  step s code = do
    let executed_opcode = new_from_code code
    acted ← act (action code) executed_opcode s
    val (if str_eq executed_opcode.name "UNKNOWN" then push acted executed_opcode else acted)

  -- The opcodes of a transaction, one after another.
  unfoldable pub run : SalmonellaInspector → List ℕ → Checked SalmonellaInspector
  unfolding step
  run s [] = val s
  run s (code ∷ codes) = do next ← step s code; run next codes

  unfoldable pub is_sando_safu : SalmonellaInspector → IsSandoSafu
  unfolding new_from_code
  is_sando_safu s =
      let suspicious_opcodes =
        if ltb s.gas_opcode_counter s.call_opcode_counter
        then new_from_code opcodes.gas ∷ s.suspicious_opcodes
        else s.suspicious_opcodes in
      if length s.suspicious_opcodes == 0 then safu else not_safu suspicious_opcodes
