-- ===== src/ForkDb/Forks.antt =====
-- Forks that a factory makes.
use sando_rs.Base.{ℕ, ◌≡◌, refl, true, Result, ok, inl, inr}
use sando_rs.CacheDb.{CacheDb, CacheLaws}
use sando_rs.Backend.{Key, basic, Value, DatabaseError}
use sando_rs.Backend.Inv.{Option-cases}
use sando_rs.ForkDb.{
  ForkFactory, do_get_basic, keep_account, storage_of, factory_insert_account_storage,
  new_sandbox_fork,
}
use sando_rs.ForkDb.Reads.{Result-cases, is_ok, not_ok, storage_there}

module _ {cache : CacheDb} (laws : CacheLaws cache) {E : Type 0}
    (fetch later : (key : Key) → Result (Value key) (DatabaseError E)) where
  -- Where the insertion of a slot into a factory succeeds, a fork made after it reads the value
  -- inserted from its own database, whatever the backend would answer, and stays as it is.
  factory_insert_account_storage-storage_of :
      (s : ForkFactory cache) (a i value : ℕ)
      → is_ok (factory_insert_account_storage fetch s a i value).0 ≡ true
      → storage_of later (new_sandbox_fork (factory_insert_account_storage fetch s a i value).1) a i
        ≡ (ok value, new_sandbox_fork (factory_insert_account_storage fetch s a i value).1)
  unfolding factory_insert_account_storage do_get_basic keep_account new_sandbox_fork
  factory_insert_account_storage-storage_of s a i value h =
      elim (Option-cases (cache.info s.initial_db a)) [
        | inr (account, e) ↦
            rw (e, factory_insert_account_storage)
              (storage_there later _ a i value (laws.slot-storage_self s.initial_db a i value))
        | inl e ↦ elim (Result-cases (fetch (basic a))) [
          | inl (x, f) ↦
              not_ok (factory_insert_account_storage fetch s a i value) x s
                (rw (e, factory_insert_account_storage, f, do_get_basic) refl) h
          | inr (account, f) ↦
              rw (e, factory_insert_account_storage, f, do_get_basic)
                (storage_there later _ a i value (
                  laws.slot-storage_self (cache.insert_account_info s.initial_db a account) a i
                    value))
        ]
      ]
