-- ===== src/ForkDb/Inject.antt =====
-- What bot/src/simulate/helpers.rs puts into a factory before a simulation: the braindance contract
-- with its balance, and the sandwich contract for tests. The bytes of the contracts are parameters,
-- as are revm's `AccountInfo::new`, `Bytecode::new_raw` and `Bytecode::default`. `storage_key` is the
-- slot of an address in the balances of weth: the hash of the ABI encoding of the address and 3.
pub mod Seeded
use sando_rs.Base.{ℕ, ◌*◌, ◌^◌, List, Checked, val, panic, Result, ok, err}
use sando_rs.Constants.{weth_address}
use sando_rs.CacheDb.{AccountInfo, CacheDb}
use sando_rs.Backend.{Key, Value, DatabaseError}
use sando_rs.Simulate.Queries.{
  braindance_address, braindance_controller_address, braindance_starting_balance,
}
use sando_rs.ForkDb.{ForkFactory, factory_insert_account_info, factory_insert_account_storage}

-- What the code takes of revm, of the configuration and of the constants.
pub record Injected : Type 1 where
  pub Bytecode : Type 0
  pub new_account : (balance nonce : ℕ) → Bytecode → AccountInfo
  pub new_raw : List ℕ → Bytecode
  pub default : Bytecode
  pub braindance_code : List ℕ
  pub test_sandwich_code : List ℕ
  pub searcher : ℕ
  pub sandwich_contract : ℕ
  pub storage_key : ℕ → ℕ

-- `parse_ether`
abbrev pub ether : ℕ → ℕ
ether amount = amount * 10 ^ 18

-- `.unwrap()` of an insertion
abbrev pub inserted : {A E : Type 0} → Result {0, 0} Unit E × A → Checked A
inserted (ok _, s) = val s
inserted (err _, s) = panic

module _ (i : Injected) {cache : CacheDb} where
  unfoldable pub inject_braindance_code : ForkFactory cache → ForkFactory cache
  unfolding factory_insert_account_info
  inject_braindance_code fork_factory =
      let contract =
        factory_insert_account_info fork_factory braindance_address
          (i.new_account 0 0 (i.new_raw i.braindance_code)) in
      factory_insert_account_info contract braindance_controller_address
        (i.new_account (ether 69) 0 i.default)

  module _ {E : Type 0} (fetch : (key : Key) → Result (Value key) (DatabaseError E)) where
    -- The balance of an address in weth.
    unfoldable pub insert_weth_balance :
        ForkFactory cache → (owner value : ℕ) → Checked (ForkFactory cache)
    unfolding factory_insert_account_storage
    insert_weth_balance fork_factory owner value =
        inserted (
          factory_insert_account_storage fetch fork_factory weth_address (i.storage_key owner)
            value)

    unfoldable pub attach_braindance_module : ForkFactory cache → Checked (ForkFactory cache)
    unfolding inject_braindance_code insert_weth_balance
    attach_braindance_module fork_factory =
        insert_weth_balance (inject_braindance_code fork_factory) braindance_address
          braindance_starting_balance

    unfoldable pub inject_sando :
        ForkFactory cache → (starting_weth_balance : ℕ) → Checked (ForkFactory cache)
    unfolding factory_insert_account_info insert_weth_balance
    inject_sando fork_factory starting_weth_balance =
        let funded =
          factory_insert_account_info fork_factory i.searcher
            (i.new_account (ether 100) 0 i.default) in
        let ready =
          factory_insert_account_info funded i.sandwich_contract
            (i.new_account 0 0 (i.new_raw i.test_sandwich_code)) in
        insert_weth_balance ready i.sandwich_contract starting_weth_balance
