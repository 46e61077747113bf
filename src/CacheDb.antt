-- ===== src/CacheDb.antt =====
-- What the forked databases (bot/src/forked_db) use of revm's `CacheDB<EmptyDB>`: an interface of
-- its operations, and what they are documented to do.
pub mod Model
use sando_rs.Base.{ℕ, ◌≡◌, ◌≢◌, Option, none, some, List}

-- revm's account information.
pub record AccountInfo : Type 0 where
  pub balance : ℕ
  pub nonce : ℕ
  pub code : Option (List ℕ)
  pub code_hash : ℕ

-- `info` is `accounts.get(address)` and its information, `slot` what is in the storage of an account
-- that is there, `hash` is `block_hashes.get(number)`. `insert_contract` is what the insertion of an
-- account does to its code hash, `not_existing` the information of an account that is made only
-- because a slot of it is inserted.
pub record CacheDb : Type 1 where
  pub Db : Type 0
  pub info : Db → ℕ → Option AccountInfo
  pub slot : Db → ℕ → ℕ → Option ℕ
  pub hash : Db → ℕ → Option ℕ
  pub insert_contract : AccountInfo → AccountInfo
  pub not_existing : AccountInfo
  pub code_by_hash : Db → ℕ → Option (List ℕ)
  pub insert_account_info : Db → ℕ → AccountInfo → Db
  pub insert_account_storage : Db → (address index value : ℕ) → Db
  pub insert_block_hash : Db → (number value : ℕ) → Db
  pub Changes : Type 0
  pub commit : Db → Changes → Db

-- An insertion is seen at its key and nowhere else; inserting into the storage of an account that is
-- there keeps the account's information.
module _ (cache : CacheDb) where
  open cache use {
    Db, info, slot, hash, insert_contract, not_existing, insert_account_info,
    insert_account_storage, insert_block_hash,
  }

  pub record CacheLaws : Type 0 where
    pub info-info_self :
        (db : Db) (a : ℕ) (i : AccountInfo)
        → info (insert_account_info db a i) a ≡ some (insert_contract i)
    pub info-info_other :
        (db : Db) (a b : ℕ) (i : AccountInfo)
        → b ≢ a
        → info (insert_account_info db a i) b ≡ info db b
    pub slot-info :
        (db : Db) (a b j : ℕ) (i : AccountInfo)
        → slot (insert_account_info db a i) b j ≡ slot db b j
    pub hash-info :
        (db : Db) (a n : ℕ) (i : AccountInfo) → hash (insert_account_info db a i) n ≡ hash db n
    pub slot-storage_self :
        (db : Db) (a j value : ℕ) → slot (insert_account_storage db a j value) a j ≡ some value
    pub slot-storage_other :
        (db : Db) (a j value b k : ℕ)
        → (b ≡ a → k ≢ j)
        → slot (insert_account_storage db a j value) b k ≡ slot db b k
    pub info-storage :
        (db : Db) (a j value : ℕ) (i : AccountInfo)
        → info db a ≡ some i
        → info (insert_account_storage db a j value) a ≡ some i
    pub info-storage_absent :
        (db : Db) (a j value : ℕ)
        → info db a ≡ none
        → info (insert_account_storage db a j value) a ≡ some not_existing
    pub info-storage_other :
        (db : Db) (a j value b : ℕ)
        → b ≢ a
        → info (insert_account_storage db a j value) b ≡ info db b
    pub hash-storage :
        (db : Db) (a j value n : ℕ) → hash (insert_account_storage db a j value) n ≡ hash db n
    pub hash-hash_self :
        (db : Db) (n value : ℕ) → hash (insert_block_hash db n value) n ≡ some value
    pub hash-hash_other :
        (db : Db) (n value m : ℕ) → m ≢ n → hash (insert_block_hash db n value) m ≡ hash db m
    pub info-hash : (db : Db) (n value b : ℕ) → info (insert_block_hash db n value) b ≡ info db b
    pub slot-hash :
        (db : Db) (n value b j : ℕ) → slot (insert_block_hash db n value) b j ≡ slot db b j
