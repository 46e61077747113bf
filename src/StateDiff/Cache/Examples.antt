-- ===== src/StateDiff/Cache/Examples.antt =====
-- `to_cache_db` on the diffs of two accounts.
use sando_rs.Base.{ℕ, ◌≡◌, refl, some, List, [], ◌∷◌, val, ok, arith}
use sando_rs.CacheDb.{AccountInfo}
use sando_rs.CacheDb.Model.{Tables, tables, no_tables, tables-CacheLaws}
use sando_rs.StateDiff.{AccountDiff, same, born, died, changed, lookup}
use sando_rs.StateDiff.Cache.{to_cache_db}
use sando_rs.StateDiff.Cache.Slots.{before}
use sando_rs.StateDiff.Cache.Before.{account_of, to_cache_db-before}

abbrev new_account : (balance nonce : ℕ) → List ℕ → AccountInfo
new_account balance nonce code = record {
  balance = balance;
  nonce = nonce;
  code = some code;
  code_hash = 8;
}

abbrev state : List (ℕ × AccountDiff)
state =
    (5, record { storage = (1, changed 7 9) ∷ (2, born 4) ∷ [] })
    ∷ (6, record { storage = (1, died 3) ∷ (3, same) ∷ [] })
    ∷ []

to_cache_db-before_example :
    (db : Tables) × (to_cache_db tables {E = ℕ} new_account
        (λ a. ok 1)
        (λ a. ok a)
        (λ a. ok [])
        no_tables
        state
      ≡ val (ok db))
    × ((a : ℕ)
        → tables.info db a
          ≡ account_of tables-CacheLaws new_account (λ a. 1) (λ a. a) (λ a. []) a (lookup a state))
    × ((a j : ℕ) → tables.slot db a j ≡ before j (lookup a state))
unfolding lookup
to_cache_db-before_example =
    to_cache_db-before tables-CacheLaws new_account (λ a. 1) (λ a. a) (λ a. []) no_tables state
      (λ a. refl) (λ a j. refl) (λ a. omega arith) (refl, (refl, tt))
      ((refl, (refl, tt)), ((refl, (refl, tt)), tt))
