-- ===== src/Salmonella/Examples.antt =====
-- Tests of the inspector, and its theorem at a concrete trace.
use sando_rs.Base.{ℕ, ◌≡◌, ◌↔◌, refl, some, none, List, [], ◌∷◌, val, arith, if◌then◌else◌, ltb}
use sando_rs.Salmonella.{
  Opcodes, SalmonellaInspector, safu, new, new_from_code, action, run, is_sando_safu,
}
use sando_rs.Salmonella.Verdict.{flags, flagged, flagged_one, is_sando_safu-flagged}

-- The numbers of the opcodes, with one name for all that are defined.
abbrev table : Opcodes
table = record {
  jumpmap = λ code.
      if ltb code 0x0c then some "KNOWN" else (if ltb code 0xf0 then none else some "KNOWN");
  balance = 0x31;
  gasprice = 0x3a;
  extcodehash = 0x3f;
  blockhash = 0x40;
  coinbase = 0x41;
  difficulty = 0x44;
  gaslimit = 0x45;
  selfbalance = 0x47;
  basefee = 0x48;
  create = 0xf0;
  create2 = 0xf5;
  selfdestruct = 0xff;
  call = 0xf1;
  delegatecall = 0xf4;
  staticcall = 0xfa;
  gas = 0x5a;
}

-- Two calls, and no gas read.
abbrev trace : List ℕ
trace = 0xf1 ∷ 0xf1 ∷ []

calls_unflagged : flagged table trace ≡ []
unfolding flagged flagged_one flags action new_from_code
calls_unflagged = refl

is_sando_safu-flagged_example :
    (after : SalmonellaInspector) × (run table new trace ≡ val after)
    × ((is_sando_safu table after ≡ safu) ↔ (flagged table trace ≡ []))
is_sando_safu-flagged_example = is_sando_safu-flagged table trace (omega arith)
