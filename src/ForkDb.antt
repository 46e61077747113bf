-- ===== src/ForkDb.antt =====
-- bot/src/forked_db/fork_db.rs and fork_factory.rs: a database of its own in front of the shared
-- backend. The channel to the backend is a parameter: what sending a request and waiting for its
-- answer gives, errors of the channel included.
pub mod Reads
pub mod Forks
pub mod Inject
mod Examples
use sando_rs.Base.{
  ℕ, Bool, true, false, Option, none, some, List, ◌-◌, ◌^◌, ltb, Result, ok, err, if◌then◌else◌,
}
use sando_rs.CacheDb.{AccountInfo, CacheDb}
use sando_rs.Backend.{Key, basic, storage, block_hash, Value, DatabaseError, missing_code}

pub record ForkDb (cache : CacheDb) : Type 0 where
  pub db : cache.Db

pub record ForkFactory (cache : CacheDb) : Type 0 where
  pub initial_db : cache.Db

-- `if info.is_some() { insert_account_info(address, info.unwrap()) }`
unfoldable pub keep_account : (cache : CacheDb) → cache.Db → ℕ → Option AccountInfo → cache.Db
keep_account cache db address none = db
keep_account cache db address (some account) = cache.insert_account_info db address account

module _ {E : Type 0} (fetch : (key : Key) → Result (Value key) (DatabaseError E)) where
  -- `do_get_basic` of both files
  unfoldable pub do_get_basic : ℕ → Result (Option AccountInfo) (DatabaseError E)
  do_get_basic address = elim (fetch (basic address)) [
    | ok account ↦ ok (some account)
    | err e ↦ err e
  ]

  unfoldable pub do_get_storage : (address index : ℕ) → Result ℕ (DatabaseError E)
  do_get_storage address index = fetch (storage address index)

  unfoldable pub do_get_block_hash : (number : ℕ) → Result ℕ (DatabaseError E)
  do_get_block_hash number = fetch (block_hash number)

  -- `block_hash` of `DatabaseRef`, where `keccak_empty` is revm's `KECCAK_EMPTY`.
  unfoldable pub block_hash_ref : (keccak_empty : ℕ) → (number : ℕ) → Result ℕ (DatabaseError E)
  unfolding do_get_block_hash
  block_hash_ref keccak_empty number =
      let fetched = do_get_block_hash number in
      if ltb (2 ^ 64 - 1) number then ok keccak_empty else fetched

  module _ {cache : CacheDb} where
    open cache use {
      Db, info, slot, hash, insert_account_info, insert_account_storage, insert_block_hash,
    }

    unfoldable pub basic_of :
        ForkDb cache → ℕ → Result (Option AccountInfo) (DatabaseError E) × ForkDb cache
    unfolding do_get_basic keep_account
    basic_of s address = elim (info s.db address) [
      | some account ↦ (ok (some account), s)
      | none ↦ elim (do_get_basic address) [
        | err e ↦ (err e, s)
        | ok found ↦ (ok found, record s { db = keep_account cache s.db address found })
      ]
    ]

    unfoldable pub storage_of :
        ForkDb cache → (address index : ℕ) → Result ℕ (DatabaseError E) × ForkDb cache
    unfolding do_get_basic do_get_storage keep_account
    storage_of s address index = elim (slot s.db address index) [
      | some entry ↦ (ok entry, s)
      | none ↦ elim (do_get_basic address) [
        | err e ↦ (err e, s)
        | ok found ↦
            let db = keep_account cache s.db address found in
            elim (do_get_storage address index) [
              | err e ↦ (err e, record s { db = db })
              | ok value ↦
                  (ok value, record s { db = insert_account_storage db address index value })
            ]
      ]
    ]

    unfoldable pub block_hash_of :
        ForkDb cache → (number : ℕ) → Result ℕ (DatabaseError E) × ForkDb cache
    unfolding do_get_block_hash
    block_hash_of s number = elim (hash s.db number) [
      | some found ↦ (ok found, s)
      | none ↦ elim (do_get_block_hash number) [
        | err e ↦ (err e, s)
        | ok found ↦ (ok found, record s { db = insert_block_hash s.db number found })
      ]
    ]

    -- The functions of `DatabaseRef`, which keep nothing.
    unfoldable pub basic_ref : ForkDb cache → ℕ → Result (Option AccountInfo) (DatabaseError E)
    unfolding do_get_basic
    basic_ref s address = elim (info s.db address) [
      | some account ↦ ok (some account)
      | none ↦ do_get_basic address
    ]

    unfoldable pub storage_ref : ForkDb cache → (address index : ℕ) → Result ℕ (DatabaseError E)
    unfolding do_get_storage
    storage_ref s address index = elim (slot s.db address index) [
      | some entry ↦ ok entry
      | none ↦ do_get_storage address index
    ]

    -- `insert_account_storage` of the factory
    unfoldable pub factory_insert_account_storage :
        ForkFactory cache
        → (address slot value : ℕ) → Result {0, 0} Unit (DatabaseError E) × ForkFactory cache
    unfolding do_get_basic keep_account
    factory_insert_account_storage s address index value = elim (info s.initial_db address) [
      | some _ ↦
          (ok tt, record s { initial_db = insert_account_storage s.initial_db address index value })
      | none ↦ elim (do_get_basic address) [
        | err e ↦ (err e, s)
        | ok found ↦
            let db = keep_account cache s.initial_db address found in
            (ok tt, record s { initial_db = insert_account_storage db address index value })
      ]
    ]

module _ {cache : CacheDb} where
  unfoldable pub commit : ForkDb cache → cache.Changes → ForkDb cache
  commit s changes = record s { db = cache.commit s.db changes }

  unfoldable pub factory_insert_account_info :
      ForkFactory cache → ℕ → AccountInfo → ForkFactory cache
  factory_insert_account_info s address account = record s {
    initial_db = cache.insert_account_info s.initial_db address account;
  }

  unfoldable pub new_sandbox_fork : ForkFactory cache → ForkDb cache
  new_sandbox_fork s = record { db = s.initial_db }

  -- Of `Database` and of `DatabaseRef` alike.
  unfoldable pub code_by_hash_of :
      {E : Type 0} → ForkDb cache → (code_hash : ℕ) → Result (List ℕ) (DatabaseError E)
  code_by_hash_of s code_hash = elim (cache.code_by_hash s.db code_hash) [
    | some code ↦ ok code
    | none ↦ err (missing_code code_hash)
  ]
