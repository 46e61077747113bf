-- ===== src/StateDiff/Cache.antt =====
-- `to_cache_db` of bot/src/utils/state_diff.rs: the database of the values before the victims'
-- transactions. `AccountInfo::new` is revm's, and a parameter, as are the provider's answers. The
-- accounts are taken in the order in which their requests are answered.
pub mod Slots
pub mod Before
mod Examples
use sando_rs.Base.{
  ℕ, ◌^◌, Option, none, some, List, [], ◌∷◌, Checked, val, panic, fit, ◌>>=◌, Result, ok, err,
}
use sando_rs.CacheDb.{AccountInfo, CacheDb}
use sando_rs.StateDiff.{Diff, same, born, died, changed, AccountDiff}

-- The value of a slot before the transactions, where it is not zero for want of one.
unfoldable pub old_value : Diff → Option ℕ
old_value same = none
old_value (born _) = none
old_value (died value) = some value
old_value (changed from to) = some from

-- The three requests for an account, one after another; the first error is theirs.
abbrev pub answers :
    {E : Type 0} → Result ℕ E → Result ℕ E → Result (List ℕ) E → Result (ℕ × ℕ × List ℕ) E
answers (err e) _ _ = err e
answers (ok nonce) (err e) _ = err e
answers (ok nonce) (ok balance) (err e) = err e
answers (ok nonce) (ok balance) (ok code) = ok (nonce, balance, code)

module _ (cache : CacheDb) where
  open cache use {Db, insert_account_info, insert_account_storage}

  -- `CacheDB::insert_account_storage` cannot fail here, where the account is in the database.
  unfoldable pub insert_old : Db → (address index : ℕ) → Option ℕ → Db
  insert_old db address index none = db
  insert_old db address index (some value) = insert_account_storage db address index value

  unfoldable pub insert_slots : Db → (address : ℕ) → List (ℕ × Diff) → Db
  unfolding old_value insert_old
  insert_slots db address [] = db
  insert_slots db address ((index, diff) ∷ storage) =
      insert_slots (insert_old db address index (old_value diff)) address storage

  module _ {E : Type 0} (new_account : (balance nonce : ℕ) → List ℕ → AccountInfo)
      (get_transaction_count get_balance : (address : ℕ) → Result ℕ E)
      (get_code : (address : ℕ) → Result (List ℕ) E) where
    -- An account whose requests are answered; `nonce.as_u64()` panics on a larger number.
    unfoldable pub insert_answered : Db → (address : ℕ) → AccountDiff → ℕ × ℕ × List ℕ → Checked Db
    unfolding insert_slots
    insert_answered db address diff (nonce, balance, code) = do
      nonce_u64 ← fit (2 ^ 64) nonce
      val (
          insert_slots (insert_account_info db address (new_account balance nonce_u64 code)) address
            diff.storage)

    unfoldable pub to_cache_db : Db → List (ℕ × AccountDiff) → Checked (Result Db E)
    unfolding insert_answered
    to_cache_db db [] = val (ok db)
    to_cache_db db ((address, diff) ∷ state) =
        elim (answers (get_transaction_count address) (get_balance address) (get_code address)) [
          | err e ↦ val (err e)
          | ok answered ↦
              insert_answered db address diff answered >>= λ next. to_cache_db next state
        ]
