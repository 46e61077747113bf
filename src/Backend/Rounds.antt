-- ===== src/Backend/Rounds.antt =====
-- Rounds of the backend's loop, from its start on.
use sando_rs.Base.{
  ℕ, ◌+◌, ◌≡◌, ap, ◌∙◌, Bool, true, Option, List, [], ◌∷◌, ◌++◌, Result, if◌then◌else◌, arith,
}
use sando_rs.CacheDb.{CacheDb}
use sando_rs.Backend.{
  Key, Fetched, BackendFetchRequest, GlobalBackend, new, drain, receive, CodeHashes, round,
}
use sando_rs.Backend.Counts.{keys, waiting, entries-waiting}
use sando_rs.Backend.Inv.{
  Inv, present, queued, answered, drain-Inv, drain-queued_requests, drain-present, receive-present,
  new-Inv, new-present,
}
use sando_rs.Backend.Polls.{
  is_ready, poll_pending-Inv, poll_pending-present, poll_pending-queued_requests, poll_pending-keys,
}

-- What a round meets: the fetches that are done, and what the channel holds.
pub record RoundInput (E : Type 0) : Type 0 where
  pub ready : (key : Key) → Option (Result (Fetched key) E)
  pub incoming : List BackendFetchRequest

-- How often a sender asks.
unfoldable pub asked : {E : Type 0} → ℕ → List (RoundInput E) → ℕ
unfolding queued
asked x [] = 0
asked x (input ∷ inputs) = queued x input.incoming + asked x inputs

none_left : (b : Bool) (count : ℕ) → b ≡ true → (if b then 0 else count) ≡ 0
none_left b count e = ground arith

module _ {cache : CacheDb} {E : Type 0} (hashes : CodeHashes) where
  unfoldable pub run : List (RoundInput E) → GlobalBackend cache E → GlobalBackend cache E
  unfolding round
  run [] s = s
  run (input ∷ inputs) s = run inputs (round hashes input.ready input.incoming s)

  module _ (ready : (key : Key) → Option (Result (Fetched key) E))
      (incoming : List BackendFetchRequest) where
    receive-Inv : (s : GlobalBackend cache E) → Inv s → Inv (receive s incoming)
    unfolding receive
    receive-Inv s inv = record { fetched = inv.fetched; single = inv.single }

    received : (s : GlobalBackend cache E) → Inv s → Inv (receive (drain s) incoming)
    received s inv = receive-Inv (drain s) (drain-Inv s inv)

    round-Inv : (s : GlobalBackend cache E) → Inv s → Inv (round hashes ready incoming s)
    unfolding round
    round-Inv s inv = poll_pending-Inv hashes ready _ (received s inv)

    round-present :
        (x : ℕ) (s : GlobalBackend cache E)
        → Inv s
        → present x (round hashes ready incoming s) ≡ present x s + queued x incoming
    unfolding round
    round-present x s inv = omega (
      arith,
      poll_pending-present hashes ready x _ (received s inv),
      receive-present x (drain s) incoming,
      drain-present x s,
    )

    round-queued_requests :
        (s : GlobalBackend cache E)
        → Inv s
        → (round hashes ready incoming s).queued_requests ≡ incoming
    unfolding round receive
    round-queued_requests s inv =
        poll_pending-queued_requests hashes ready _ (received s inv)
        ∙ ap (λ queue. queue ++ incoming) (drain-queued_requests s)

    -- Nobody waits after a round in which all fetches are done.
    round-waiting :
        (x : ℕ) (s : GlobalBackend cache E)
        → ((key : Key) → is_ready (ready key) ≡ true)
        → Inv s
        → waiting x (round hashes ready incoming s).requests ≡ 0
    unfolding round
    round-waiting x s all inv = entries-waiting x _ (λ g.
        (round-Inv s inv).fetched g
        ∙ poll_pending-keys hashes ready (receive (drain s) incoming) (received s inv) g
        ∙ none_left (is_ready (ready g)) (keys g (receive (drain s) incoming).pending_requests)
            (all g))

  run-Inv : (inputs : List (RoundInput E)) (s : GlobalBackend cache E) → Inv s → Inv (run inputs s)
  unfolding run
  run-Inv [] s inv = inv
  run-Inv (input ∷ inputs) s inv = run-Inv inputs _ (round-Inv input.ready input.incoming s inv)

  run-present :
      (x : ℕ) (inputs : List (RoundInput E)) (s : GlobalBackend cache E)
      → Inv s
      → present x (run inputs s) ≡ present x s + asked x inputs
  unfolding run asked
  run-present x [] s inv = omega arith
  run-present x (input ∷ inputs) s inv = omega (
    arith,
    run-present x inputs _ (round-Inv input.ready input.incoming s inv),
    round-present input.ready input.incoming x s inv,
  )

module _ (cache : CacheDb) (E : Type 0) (hashes : CodeHashes) where
  -- From the start of the backend and whatever the rounds met: the fetches in progress are those of
  -- the listeners, one for a key at most, and each sender is as often in the queue, among the
  -- listeners and among those answered, taken together, as it has asked.
  pub run_from_new :
      (db : cache.Db) (inputs : List (RoundInput E)) (x : ℕ)
      → Inv (run {cache = cache} {E = E} hashes inputs (new db))
        × (present x (run {cache = cache} {E = E} hashes inputs (new db)) ≡ asked x inputs)
  run_from_new db inputs x = (
    run-Inv hashes inputs (new db) (new-Inv cache E db),
    let p = run-present hashes x inputs (new db) (new-Inv cache E db) in
        let q = new-present cache E x db in omega (arith, p, q),
  )

  -- After any rounds from the start of the backend, one more round in which every fetch is done
  -- leaves each sender answered exactly as often as it asked in the rounds before.
  pub run-all_answered :
      (db : cache.Db) (inputs : List (RoundInput E)) (x : ℕ)
      (ready : (key : Key) → Option (Result (Fetched key) E)) (incoming : List BackendFetchRequest)
      → ((key : Key) → is_ready (ready key) ≡ true)
      → answered x
          (round hashes ready incoming (run {cache = cache} {E = E} hashes inputs (new db))).sent
        ≡ asked x inputs
  unfolding present
  run-all_answered db inputs x ready incoming all =
      let (inv, p) = run_from_new db inputs x in
      let s = run {cache = cache} {E = E} hashes inputs (new db) in
      omega (
        arith,
        p,
        round-present hashes ready incoming x s inv,
        round-waiting hashes ready incoming x s all inv,
        ap (queued x) (round-queued_requests hashes ready incoming s inv),
      )
