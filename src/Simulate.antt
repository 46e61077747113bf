-- ===== src/Simulate.antt =====
-- What bot/src/simulate shares: the machine that runs transactions, its environment, the errors of
-- bot/src/types/errors.rs, the ingredients of a sandwich, and computations that return, fail or
-- panic.
pub mod Queries
pub mod Meats
pub mod Legs
pub mod Swaps
pub mod Revenue
pub mod Sanity
pub mod Outcomes
pub mod Fees
pub mod Tips
pub mod Skipped
pub mod Hashes
pub mod Gone
pub mod Recipes
pub mod Examples
use Prim.Native.String.{String}
use sando_rs.Base.{ℕ, Bool, Option, none, some, List, Checked, val, panic, Result, ok, err}
use sando_rs.Library.{Hashing}
use sando_rs.Pool.{Pool}
use sando_rs.Salmonella.{Opcodes, OpCode}
use sando_rs.AccessList.{AccessOpcodes, Instruction}

-- The fields of a transaction of the mempool that the simulations read.
pub record Transaction : Type 0 where
  pub hash : ℕ
  pub from : ℕ
  pub to : Option ℕ
  pub input : List ℕ
  pub value : ℕ
  pub chain_id : Option ℕ
  pub gas : ℕ
  pub gas_price : Option ℕ
  pub max_priority_fee_per_gas : Option ℕ
  pub max_fee_per_gas : Option ℕ
  pub transaction_type : Option ℕ

-- bot/src/types/sandwich_types/raw_ingredients.rs
pub record RawIngredients (AccountDiff : Type 0) : Type 0 where
  pub startend_token : ℕ
  pub intermediary_token : ℕ
  pub from : ℕ
  pub sandwich_contract : ℕ
  pub meats : List Transaction
  pub target_pool : Pool
  pub state_diffs : List (ℕ × AccountDiff)

-- revm's `env.block` and `env.tx`.
pub record BlockEnv : Type 0 where
  pub number : ℕ
  pub timestamp : ℕ
  pub basefee : ℕ
  pub coinbase : ℕ

pub record TxEnv : Type 0 where
  pub caller : ℕ
  pub transact_to : ℕ
  pub tx_data : List ℕ
  pub value : ℕ
  pub gas_limit : ℕ
  pub gas_price : ℕ
  pub gas_priority_fee : Option ℕ
  pub chain_id : Option ℕ
  pub access_list : List (ℕ × List ℕ)

-- `ExecutionResult`; a reason to halt is a number.
pub data Execution : Type 0 where
  success : (gas_used : ℕ) (output : List ℕ) → Execution
  revert : (gas_used : ℕ) (output : List ℕ) → Execution
  halt : (gas_used reason : ℕ) → Execution

unfoldable pub gas_used_of : Execution → ℕ
gas_used_of (success gas_used _) = gas_used
gas_used_of (revert gas_used _) = gas_used
gas_used_of (halt gas_used _) = gas_used

-- Code that is not the program's: revm on a forked database (`World`), the ABI coder, the opcodes,
-- the equality of transactions, and the addresses of the configuration.
pub record Machine : Type 1 where
  pub World : Type 0
  pub EvmError : Type 0
  pub AbiError : Type 0
  -- `transact_ref` and `transact_commit`, and what an inspector sees of a transaction
  pub transact_ref : BlockEnv → TxEnv → World → Result Execution EvmError
  pub transact_commit : BlockEnv → TxEnv → World → Result Execution EvmError × World
  pub instructions : BlockEnv → TxEnv → World → List Instruction
  -- `balanceOf(owner)`, and its answer
  pub encode_balance_of : (owner : ℕ) → List ℕ
  pub decode_balance_of : List ℕ → Result ℕ AbiError
  -- `quoteExactInputSingle(..)`, and its answer
  pub encode_quote : (token_in token_out swap_fee amount_in sqrt_price_limit_x96 : ℕ) → List ℕ
  pub decode_quote : List ℕ → Result ℕ AbiError
  -- the answer of `getReserves()`
  pub decode_reserves : List ℕ → Option (ℕ × ℕ)
  -- the calls of the braindance contract, and their answers
  pub build_swap_v2_data : (amount_in target_pool token_in token_out : ℕ) → List ℕ
  pub build_swap_v3_data : (amount_in target_pool token_in token_out : ℕ) → List ℕ
  pub decode_swap_v2_result : List ℕ → Result (ℕ × ℕ) AbiError
  pub decode_swap_v3_result : List ℕ → Result (ℕ × ℕ) AbiError
  pub opcodes : Opcodes
  pub access_opcodes : AccessOpcodes
  pub precompiles : List ℕ
  pub hex_encode : List ℕ → String
  pub hashing : Hashing
  pub same_transaction : Transaction → Transaction → Bool
  pub searcher : ℕ
  pub sandwich_contract : ℕ

-- `SimulationError` of bot/src/types/errors.rs.
pub data SimulationError (m : Machine) : Type 0 where
  frontrun_evm_error : m.EvmError → SimulationError m
  frontrun_halted : (reason : ℕ) → SimulationError m
  frontrun_reverted : List ℕ → SimulationError m
  frontrun_not_safu : List OpCode → SimulationError m
  backrun_evm_error : m.EvmError → SimulationError m
  backrun_halted : (reason : ℕ) → SimulationError m
  backrun_reverted : List ℕ → SimulationError m
  backrun_not_safu : List OpCode → SimulationError m
  failed_to_decode_output : m.AbiError → SimulationError m
  evm_error : m.EvmError → SimulationError m
  evm_halted : (reason : ℕ) → SimulationError m
  evm_reverted : List ℕ → SimulationError m
  abi_error : m.AbiError → SimulationError m
  zero_optimal : SimulationError m
  no_meat : SimulationError m

pub record Evm (m : Machine) : Type 0 where
  pub block : BlockEnv
  pub tx : TxEnv
  pub world : m.World

-- What a simulation comes to.
pub data Outcome (m : Machine) (A : Type 0) : Type 0 where
  returns : A → Outcome m A
  fails : SimulationError m → Outcome m A
  panics : Outcome m A

infixl 5 ◌>>=◌
abbrev pub ◌>>=◌ : {m : Machine} {A B : Type 0} → Outcome m A → (A → Outcome m B) → Outcome m B
returns a >>= f = f a
fails e >>= f = fails e
panics >>= f = panics

abbrev pub lift : {m : Machine} {A : Type 0} → Checked A → Outcome m A
lift (val a) = returns a
lift panic = panics

-- `map_err(..)?`
abbrev pub or_fail :
    {m : Machine} {A E : Type 0} → (E → SimulationError m) → Result A E → Outcome m A
or_fail error (ok a) = returns a
or_fail error (err e) = fails (error e)
