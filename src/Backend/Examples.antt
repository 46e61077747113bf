-- ===== src/Backend/Examples.antt =====
-- The backend's theorems at concrete inputs.
use sando_rs.Base.{
  ℕ, ◌≡◌, refl, true, Option, none, some, List, [], ◌∷◌, Result, ok, err, if◌then◌else◌,
}
use sando_rs.CacheDb.Model.{tables, no_tables, tables-CacheLaws}
use sando_rs.Backend.{
  Key, basic, storage, block_hash, same_key, Fetched, BackendFetchRequest, GlobalBackend, new,
  round, on_request, send_all, complete, CodeHashes, poll_pending, cached,
}
use sando_rs.Backend.Counts.{keys}
use sando_rs.Backend.Inv.{Inv, present, answered}
use sando_rs.Backend.Polls.{is_ready, poll_pending-keys}
use sando_rs.Backend.Rounds.{RoundInput, asked, run, run_from_new, run-all_answered}
use sando_rs.Backend.Answers.{complete-account_of_slot}

abbrev hashes : CodeHashes
hashes = record { keccak256 = λ bytes. 7; keccak_empty = 5 }

-- The fetches of accounts fail, those of slots give the slot's index, hashes are still fetched.
abbrev some_ready : (key : Key) → Option (Result (Fetched key) ℕ)
some_ready (basic a) = some (err 9)
some_ready (storage a i) = some (ok i)
some_ready (block_hash n) = none

abbrev all_ready : (key : Key) → Option (Result (Fetched key) ℕ)
all_ready (basic a) = some (ok (1, 2, []))
all_ready (storage a i) = some (err 3)
all_ready (block_hash n) = some (ok 4)

abbrev asking : List BackendFetchRequest
asking =
    record { key = basic 1; sender = 10 }
    ∷ record { key = storage 1 2; sender = 11 }
    ∷ record { key = basic 1; sender = 10 }
    ∷ record { key = block_hash 3; sender = 12 }
    ∷ []

abbrev inputs : List (RoundInput ℕ)
inputs =
    record { ready = some_ready; incoming = asking }
    ∷ record { ready = some_ready; incoming = asking }
    ∷ []

abbrev start : GlobalBackend tables ℕ
start = run hashes inputs (new no_tables)

run_from_new_example : Inv start × (present 10 start ≡ 4)
unfolding asked
run_from_new_example = run_from_new tables ℕ hashes no_tables inputs 10

all_ready-is_ready : (key : Key) → is_ready (all_ready key) ≡ true
all_ready-is_ready (basic a) = refl
all_ready-is_ready (storage a i) = refl
all_ready-is_ready (block_hash n) = refl

run-all_answered_example : answered 10 (round hashes all_ready [] start).sent ≡ 4
unfolding asked
run-all_answered_example =
    run-all_answered tables ℕ hashes no_tables inputs 10 all_ready [] all_ready-is_ready

poll_pending-keys_example :
    keys (storage 1 2) (poll_pending hashes some_ready start).pending_requests
    ≡ (if is_ready (some_ready (storage 1 2)) then 0 else keys (storage 1 2) start.pending_requests)
poll_pending-keys_example =
    poll_pending-keys hashes some_ready start run_from_new_example.0 (storage 1 2)

complete-account_of_slot_example :
    on_request (complete hashes start (storage 8 2) (ok 5)) (record { key = basic 8; sender = 3 })
    ≡ send_all
        (complete hashes start (storage 8 2) (ok 5))
        (basic 8)
        (ok tables.not_existing)
        (3 ∷ [])
unfolding cached new run round same_key
complete-account_of_slot_example =
    complete-account_of_slot tables-CacheLaws hashes start 8 2 5 3 refl
