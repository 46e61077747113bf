-- ===== src/ForkDb/Examples.antt =====
-- The forked databases' theorems at concrete inputs.
use sando_rs.Base.{ℕ, ◌≡◌, refl, none, some, [], ◌∷◌, Result, ok, err, List, val, arith}
use sando_rs.CacheDb.{AccountInfo}
use sando_rs.CacheDb.Model.{tables, no_tables, tables-CacheLaws}
use sando_rs.Backend.{Key, basic, storage, block_hash, Value, DatabaseError, recv}
use sando_rs.ForkDb.{
  ForkDb, ForkFactory, do_get_basic, do_get_storage, storage_of, new_sandbox_fork,
}
use sando_rs.Simulate.Queries.{braindance_address, braindance_controller_address}
use sando_rs.ForkDb.Inject.{Injected, ether, attach_braindance_module, inject_sando}
use sando_rs.ForkDb.Inject.Seeded.{
  Reads, ReadsWeth, KeepsSlots, attach_braindance_module-Reads, inject_sando-Reads,
}
use sando_rs.ForkDb.Reads.{read, read-again, storage-replaces_account}

abbrev account : AccountInfo
account = record { balance = 7; nonce = 1; code = some (96 ∷ []); code_hash = 8 }

abbrev fetch : (key : Key) → Result (Value key) (DatabaseError ℕ)
fetch (basic a) = ok account
fetch (storage a i) = ok i
fetch (block_hash n) = err recv

abbrev failing : (key : Key) → Result (Value key) (DatabaseError ℕ)
failing (basic a) = err recv
failing (storage a i) = err recv
failing (block_hash n) = err recv

abbrev fresh : ForkDb tables
fresh = record { db = no_tables }

abbrev rich : ForkFactory tables
rich = record {
  initial_db =
      tables.insert_account_info no_tables 5
        (record { balance = 1000; nonce = 3; code = none; code_hash = 0 });
}

read-again_example :
    read failing (read fetch fresh (storage 5 9)).1 (storage 5 9) ≡ read fetch fresh (storage 5 9)
unfolding storage_of do_get_basic do_get_storage
read-again_example =
    read-again tables-CacheLaws fetch failing fresh (storage 5 9) (λ a found e. refl) refl

-- The balance of 1000 that the factory has been given is replaced.
storage-replaces_account_example :
    tables.info (storage_of fetch (new_sandbox_fork rich) 5 9).1.db 5 ≡ some account
unfolding new_sandbox_fork
storage-replaces_account_example =
    storage-replaces_account tables-CacheLaws fetch (new_sandbox_fork rich) 5 9 9 account refl refl
      refl

-- Addresses are their own slots.
abbrev injected : Injected
injected = record {
  Bytecode = List ℕ;
  new_account = λ balance nonce code. record {
    balance = balance;
    nonce = nonce;
    code = some code;
    code_hash = 8;
  };
  new_raw = λ bytes. bytes;
  default = 0 ∷ [];
  braindance_code = 96 ∷ 1 ∷ [];
  test_sandwich_code = 96 ∷ 2 ∷ [];
  searcher = 77;
  sandwich_contract = 88;
  storage_key = λ owner. owner;
}

attach_braindance_module-Reads_example :
    (t : ForkFactory tables) × (attach_braindance_module injected fetch rich ≡ val t)
    × Reads injected tables-CacheLaws fetch t braindance_address
        (injected.new_account 0 0 (96 ∷ 1 ∷ []))
    × Reads injected tables-CacheLaws fetch t braindance_controller_address
        (injected.new_account (ether 69) 0 (0 ∷ []))
    × ReadsWeth injected tables-CacheLaws fetch t braindance_address (ether 420)
    × KeepsSlots injected tables-CacheLaws fetch rich t braindance_address
attach_braindance_module-Reads_example =
    attach_braindance_module-Reads injected tables-CacheLaws fetch rich refl

inject_sando-Reads_example :
    (t : ForkFactory tables) × (inject_sando injected fetch rich 5000 ≡ val t)
    × Reads injected tables-CacheLaws fetch t 88 (injected.new_account 0 0 (96 ∷ 2 ∷ []))
    × Reads injected tables-CacheLaws fetch t 77 (injected.new_account (ether 100) 0 (0 ∷ []))
    × ReadsWeth injected tables-CacheLaws fetch t 88 5000
    × KeepsSlots injected tables-CacheLaws fetch rich t 88
inject_sando-Reads_example =
    inject_sando-Reads injected tables-CacheLaws fetch rich 5000 (omega arith) (omega arith)
      (omega arith) refl
