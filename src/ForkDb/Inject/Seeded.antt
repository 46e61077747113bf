-- ===== src/ForkDb/Inject/Seeded.antt =====
-- What the forks of a factory see of what has been put into it.
use mathlib.Core.Path.{subst}
use mathlib.Core.Bool.{true≢false}
use sando_rs.Base.{
  ℕ, ◌≡◌, ◌≢◌, refl, ap, sym, ◌∙◌, Checked, val, panic, Result, ok, some, inl, inr, true, arith,
}
use sando_rs.Constants.{weth_address}
use sando_rs.CacheDb.{AccountInfo, CacheDb, CacheLaws}
use sando_rs.Backend.{Key, basic, Value, DatabaseError}
use sando_rs.Backend.Inv.{Option-cases}
use sando_rs.Simulate.Queries.{
  braindance_address, braindance_controller_address, braindance_starting_balance,
}
use sando_rs.ForkDb.{
  ForkFactory, basic_of, storage_of, do_get_basic, keep_account, new_sandbox_fork,
  factory_insert_account_info, factory_insert_account_storage,
}
use sando_rs.ForkDb.Reads.{basic_there, storage_there, is_ok, Result-cases}
use sando_rs.ForkDb.Inject.{
  Injected, ether, inject_braindance_code, insert_weth_balance, attach_braindance_module,
  inject_sando,
}

abbrev value_or : {A : Type 0} → A → Checked A → A
value_or a panic = a
value_or a (val b) = b

panic_ne : {A : Type 0} {a : A} → panic ≢ val a
panic_ne e = cc

module _ (i : Injected) {cache : CacheDb} (laws : CacheLaws cache) {E : Type 0}
    (fetch : (key : Key) → Result (Value key) (DatabaseError E)) where
  open cache use {info, slot, insert_contract, insert_account_info, insert_account_storage}

  -- What an insertion of a balance of weth leaves, where it succeeds.
  pub record Funded (s t : ForkFactory cache) (owner value : ℕ) : Type 0 where
    pub balance : slot t.initial_db weth_address (i.storage_key owner) ≡ some value
    pub others : (a : ℕ) → a ≢ weth_address → info t.initial_db a ≡ info s.initial_db a
    pub slots :
        (a j : ℕ)
        → (a ≡ weth_address → j ≢ i.storage_key owner)
        → slot t.initial_db a j ≡ slot s.initial_db a j

  stored-Funded :
      (s : ForkFactory cache) (db : cache.Db) (owner value : ℕ)
      → ((a : ℕ) → a ≢ weth_address → info db a ≡ info s.initial_db a)
      → ((a j : ℕ) → slot db a j ≡ slot s.initial_db a j)
      → Funded s
          (record {
            initial_db = insert_account_storage db weth_address (i.storage_key owner) value;
          })
          owner
          value
  stored-Funded s db owner value same_infos same_slots = record {
    balance = laws.slot-storage_self db weth_address (i.storage_key owner) value;
    others = λ a ne.
        laws.info-storage_other db weth_address (i.storage_key owner) value a ne ∙ same_infos a ne;
    slots = λ a j ne.
        laws.slot-storage_other db weth_address (i.storage_key owner) value a j ne ∙ same_slots a j;
  }

  insert_weth_balance-Funded :
      (s t : ForkFactory cache) (owner value : ℕ)
      → insert_weth_balance i fetch s owner value ≡ val t
      → Funded s t owner value
  unfolding insert_weth_balance factory_insert_account_storage do_get_basic keep_account
  insert_weth_balance-Funded s t owner value h =
      elim (Option-cases (info s.initial_db weth_address)) [
        | inr (account, e) ↦
            let kept = stored-Funded s s.initial_db owner value (λ a ne. refl) (λ a j. refl) in
            let reached : insert_weth_balance i fetch s owner value
                ≡ val (record {
                  initial_db =
                      insert_account_storage s.initial_db weth_address (i.storage_key owner) value;
                }) =
              rw (e, factory_insert_account_storage) refl in
            subst (λ u. Funded s u owner value) (ap (value_or s) (sym reached ∙ h)) kept
        | inl e ↦ elim (Result-cases (fetch (basic weth_address))) [
          | inl (x, f) ↦
              let failed : insert_weth_balance i fetch s owner value ≡ panic =
                rw (e, factory_insert_account_storage, f, do_get_basic) refl in
              absurd (panic_ne (sym failed ∙ h))
          | inr (account, f) ↦
              let db = insert_account_info s.initial_db weth_address account in
              let kept =
                stored-Funded s db owner value
                  (λ a ne. laws.info-info_other s.initial_db weth_address a account ne)
                  (λ a j. laws.slot-info s.initial_db weth_address a j account) in
              let reached : insert_weth_balance i fetch s owner value
                  ≡ val (record {
                    initial_db = insert_account_storage db weth_address (i.storage_key owner) value;
                  }) =
                rw (e, factory_insert_account_storage, f, do_get_basic) refl in
              subst (λ u. Funded s u owner value) (ap (value_or s) (sym reached ∙ h)) kept
        ]
      ]

  insert_weth_balance-val :
      (s : ForkFactory cache) (owner value : ℕ)
      → is_ok (fetch (basic weth_address)) ≡ true
      → (t : ForkFactory cache) × (insert_weth_balance i fetch s owner value ≡ val t)
  unfolding insert_weth_balance factory_insert_account_storage do_get_basic keep_account
  insert_weth_balance-val s owner value answered =
      elim (Option-cases (info s.initial_db weth_address)) [
        | inr (account, e) ↦ (
          record {
            initial_db =
                insert_account_storage s.initial_db weth_address (i.storage_key owner) value;
          },
          rw (e, factory_insert_account_storage) refl,
        )
        | inl e ↦ elim (Result-cases (fetch (basic weth_address))) [
          | inl (x, f) ↦ absurd (true≢false (sym answered ∙ ap is_ok f))
          | inr (account, f) ↦ (
            record {
              initial_db =
                  insert_account_storage (insert_account_info s.initial_db weth_address account)
                    weth_address (i.storage_key owner) value;
            },
            rw (e, factory_insert_account_storage, f, do_get_basic) refl,
          )
        ]
      ]

  -- That a fork reads an account and stays as it is, whatever the backend would answer.
  abbrev pub Reads : ForkFactory cache → ℕ → AccountInfo → Type 0
  Reads t a account =
      (later : (key : Key) → Result (Value key) (DatabaseError E))
      → basic_of later (new_sandbox_fork t) a
        ≡ (ok (some (insert_contract account)), new_sandbox_fork t)

  -- The same of an amount of weth.
  abbrev pub ReadsWeth : ForkFactory cache → (owner value : ℕ) → Type 0
  ReadsWeth t owner value =
      (later : (key : Key) → Result (Value key) (DatabaseError E))
      → storage_of later (new_sandbox_fork t) weth_address (i.storage_key owner)
        ≡ (ok value, new_sandbox_fork t)

  abbrev pub KeepsSlots : (s t : ForkFactory cache) (owner : ℕ) → Type 0
  KeepsSlots s t owner =
      (a j : ℕ)
      → (a ≡ weth_address → j ≢ i.storage_key owner)
      → slot t.initial_db a j ≡ slot s.initial_db a j

  Funded-ReadsWeth :
      (s t : ForkFactory cache) (owner value : ℕ) → Funded s t owner value → ReadsWeth t owner value
  unfolding new_sandbox_fork
  Funded-ReadsWeth s t owner value f later =
      storage_there later (new_sandbox_fork t) weth_address (i.storage_key owner) value f.balance

  Funded-Reads :
      (s t : ForkFactory cache) (owner value a : ℕ) (account : AccountInfo)
      → Funded s t owner value
      → a ≢ weth_address
      → info s.initial_db a ≡ some (insert_contract account)
      → Reads t a account
  unfolding new_sandbox_fork
  Funded-Reads s t owner value a account f ne e later =
      basic_there later (new_sandbox_fork t) a (insert_contract account) (f.others a ne ∙ e)

  two_infos :
      (db : cache.Db) (a b : ℕ) (x y : AccountInfo)
      → a ≢ b
      → (info (insert_account_info (insert_account_info db a x) b y) a ≡ some (insert_contract x))
        × (info (insert_account_info (insert_account_info db a x) b y) b ≡ some (insert_contract y))
        × ((c j : ℕ)
            → slot (insert_account_info (insert_account_info db a x) b y) c j ≡ slot db c j)
  two_infos db a b x y ne = (
    laws.info-info_other (insert_account_info db a x) b a y ne ∙ laws.info-info_self db a x,
    laws.info-info_self (insert_account_info db a x) b y,
    λ c j. laws.slot-info (insert_account_info db a x) b c j y ∙ laws.slot-info db a c j x,
  )

  -- Where the backend answers for weth, the braindance module is attached to a factory with no
  -- panic, and the factory's forks read from their own database the contract and its controller with
  -- 69 ether, and a balance of 420 weth of the contract; no other slot has changed.
  pub attach_braindance_module-Reads :
      (s : ForkFactory cache)
      → is_ok (fetch (basic weth_address)) ≡ true
      → (t : ForkFactory cache) × (attach_braindance_module i fetch s ≡ val t)
        × Reads t braindance_address (i.new_account 0 0 (i.new_raw i.braindance_code))
        × Reads t braindance_controller_address (i.new_account (ether 69) 0 i.default)
        × ReadsWeth t braindance_address braindance_starting_balance
        × KeepsSlots s t braindance_address
  unfolding attach_braindance_module inject_braindance_code factory_insert_account_info
  attach_braindance_module-Reads s answered =
      let code = i.new_account 0 0 (i.new_raw i.braindance_code) in
      let rich = i.new_account (ether 69) 0 i.default in
      let ready = inject_braindance_code i s in
      let (t, h) =
        insert_weth_balance-val ready braindance_address braindance_starting_balance answered in
      let funded =
        insert_weth_balance-Funded ready t braindance_address braindance_starting_balance h in
      let (contract, controller, slots) =
        two_infos s.initial_db braindance_address braindance_controller_address code rich
          (omega arith) in
      (
        t,
        h,
        Funded-Reads ready t braindance_address braindance_starting_balance braindance_address code
            funded (omega arith) contract,
        Funded-Reads ready t braindance_address braindance_starting_balance
            braindance_controller_address rich funded (omega arith) controller,
        Funded-ReadsWeth ready t braindance_address braindance_starting_balance funded,
        λ a j ne. funded.slots a j ne ∙ slots a j,
      )

  -- Where the backend answers for weth, and the contract, the searcher and weth are three accounts,
  -- the sandwich contract for tests is injected into a factory with no panic, and its forks read
  -- from their own database the contract, the searcher with 100 ether, and the balance of weth that
  -- the contract starts with; no other slot has changed.
  pub inject_sando-Reads :
      (s : ForkFactory cache) (starting_weth_balance : ℕ)
      → i.searcher ≢ i.sandwich_contract
      → i.searcher ≢ weth_address
      → i.sandwich_contract ≢ weth_address
      → is_ok (fetch (basic weth_address)) ≡ true
      → (t : ForkFactory cache) × (inject_sando i fetch s starting_weth_balance ≡ val t)
        × Reads t i.sandwich_contract (i.new_account 0 0 (i.new_raw i.test_sandwich_code))
        × Reads t i.searcher (i.new_account (ether 100) 0 i.default)
        × ReadsWeth t i.sandwich_contract starting_weth_balance
        × KeepsSlots s t i.sandwich_contract
  unfolding inject_sando factory_insert_account_info
  inject_sando-Reads s starting_weth_balance apart searcher_apart contract_apart answered =
      let code = i.new_account 0 0 (i.new_raw i.test_sandwich_code) in
      let rich = i.new_account (ether 100) 0 i.default in
      let ready =
        factory_insert_account_info (factory_insert_account_info s i.searcher rich)
          i.sandwich_contract code in
      let (t, h) =
        insert_weth_balance-val ready i.sandwich_contract starting_weth_balance answered in
      let funded = insert_weth_balance-Funded ready t i.sandwich_contract starting_weth_balance h in
      let (searcher, contract, slots) =
        two_infos s.initial_db i.searcher i.sandwich_contract rich code apart in
      (
        t,
        h,
        Funded-Reads ready t i.sandwich_contract starting_weth_balance i.sandwich_contract code
            funded contract_apart contract,
        Funded-Reads ready t i.sandwich_contract starting_weth_balance i.searcher rich funded
            searcher_apart searcher,
        Funded-ReadsWeth ready t i.sandwich_contract starting_weth_balance funded,
        λ a j ne. funded.slots a j ne ∙ slots a j,
      )
