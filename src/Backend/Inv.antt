-- ===== src/Backend/Inv.antt =====
-- The state of the backend: a fetch is in progress for exactly the keys that have listeners, and no
-- sender is lost or answered twice.
use sando_rs.Base.{
  ℕ, ◌+◌, ◌≤◌, ◌≡◌, ◌⊎◌, refl, ap, ◌∙◌, Option, none, some, List, [], ◌∷◌, ◌++◌, map, ok, ◌==◌,
  Bool-cases, inl, inr, arith,
}
use sando_rs.CacheDb.{CacheDb}
use sando_rs.Backend.{
  Key, same_key, BackendFetchRequest, Reply, Listeners, listeners_of, cached, GlobalBackend, new,
  request, send_all, on_request, on_requests, drain, receive,
}
use sando_rs.Backend.Counts.{
  one, keys, keys-append, entries, times, waiting, listeners_of-none, entries-add_listener,
  waiting-add_listener, same_key-eq,
}

pub Option-cases : {A : Type 0} (m : Option A) → (m ≡ none) ⊎ ((a : A) × (m ≡ some a))
Option-cases none = inl refl
Option-cases (some a) = inr (a, refl)

-- How often a sender is among the requests, and among those answered.
unfoldable pub queued : ℕ → List BackendFetchRequest → ℕ
queued x [] = 0
queued x (req ∷ reqs) = one (x == req.sender) + queued x reqs

unfoldable pub answered : {E : Type 0} → ℕ → List (ℕ × Reply E) → ℕ
answered x [] = 0
answered x ((sender, _) ∷ sent) = one (x == sender) + answered x sent

queued-append :
    (x : ℕ) (rs qs : List BackendFetchRequest) → queued x (rs ++ qs) ≡ queued x rs + queued x qs
unfolding queued
queued-append x [] qs = omega arith
queued-append x (r ∷ rs) qs = omega (arith, queued-append x rs qs)

pub answered-append :
    {E : Type 0} (x : ℕ) (rs qs : List (ℕ × Reply E))
    → answered x (rs ++ qs) ≡ answered x rs + answered x qs
unfolding answered
answered-append x [] qs = omega arith
answered-append x ((sender, reply) ∷ rs) qs = omega (arith, answered-append x rs qs)

pub answered-map :
    {E : Type 0} (x : ℕ) (reply : Reply E) (senders : List ℕ)
    → answered x (map (λ l. (l, reply)) senders) ≡ times x senders
unfolding answered times
answered-map x reply [] = refl
answered-map x reply (l ∷ ls) = omega (arith, answered-map x reply ls)

new_entry :
    (g key : Key) (table : Listeners)
    → listeners_of key table ≡ none
    → (senders : List ℕ) → entries g table ≤ 1
    → entries g ((key, senders) ∷ table) ≤ 1
unfolding entries
new_entry g key table e senders h = elim (Bool-cases (same_key g key)) [
  | inl s ↦
      let q : entries g table ≡ 0 =
        ap (λ k. entries k table) (same_key-eq g key s) ∙ listeners_of-none key table e in
      rw s (omega (arith, q))
  | inr s ↦ rw s (omega (arith, h))
]

module _ {cache : CacheDb} {E : Type 0} where
  open cache use {Db}

  -- What is known of a state: its fetches are those of its listeners, one for a key at most.
  pub record Inv (s : GlobalBackend cache E) : Type 0 where
    pub fetched : (g : Key) → entries g s.requests ≡ keys g s.pending_requests
    pub single : (g : Key) → entries g s.requests ≤ 1

  -- How often a sender is in a state: queued, waiting or answered.
  unfoldable pub present : ℕ → GlobalBackend cache E → ℕ
  present x s = queued x s.queued_requests + waiting x s.requests + answered x s.sent

  request-Inv :
      (s : GlobalBackend cache E) (key : Key) (sender : ℕ) → Inv s → Inv (request s key sender)
  unfolding request
  request-Inv s key sender inv = elim (Option-cases (listeners_of key s.requests)) [
    | inl e ↦
        rw (e, request)
          (record {
            fetched = λ g.
                let p = keys-append g s.pending_requests (key ∷ []) in
                let q = inv.fetched g in unfold entries keys in omega (arith, p, q);
            single = λ g. new_entry g key s.requests e (sender ∷ []) (inv.single g);
          })
    | inr (senders, e) ↦
        rw (e, request)
          (record {
            fetched = λ g. entries-add_listener g key sender s.requests ∙ inv.fetched g;
            single = λ g. omega (arith, entries-add_listener g key sender s.requests, inv.single g);
          })
  ]

  request-present :
      (x : ℕ) (s : GlobalBackend cache E) (key : Key) (sender : ℕ)
      → present x (request s key sender) ≡ present x s + one (x == sender)
  unfolding request present waiting times
  request-present x s key sender = elim (Option-cases (listeners_of key s.requests)) [
    | inl e ↦ rw (e, request) (omega arith)
    | inr (senders, e) ↦
        rw (e, request) (omega (arith, waiting-add_listener x key sender s.requests senders e))
  ]

  on_request-Inv :
      (s : GlobalBackend cache E) (req : BackendFetchRequest) → Inv s → Inv (on_request s req)
  unfolding on_request send_all
  on_request-Inv s req inv = elim (Option-cases (cached cache s.db req.key)) [
    | inl e ↦ rw (e, on_request) (request-Inv s req.key req.sender inv)
    | inr (value, e) ↦ rw (e, on_request) (record { fetched = inv.fetched; single = inv.single })
  ]

  on_request-present :
      (x : ℕ) (s : GlobalBackend cache E) (req : BackendFetchRequest)
      → present x (on_request s req) ≡ present x s + one (x == req.sender)
  unfolding on_request send_all present answered
  on_request-present x s req = elim (Option-cases (cached cache s.db req.key)) [
    | inl e ↦ rw (e, on_request) (unfold present in request-present x s req.key req.sender)
    | inr (value, e) ↦
        rw (e, on_request)
          (omega (
            arith,
            answered-append x s.sent
                ((req.sender, record { key = req.key; value = ok value }) ∷ []),
          ))
  ]

  request-queued_requests :
      (s : GlobalBackend cache E) (key : Key) (sender : ℕ)
      → (request s key sender).queued_requests ≡ s.queued_requests
  unfolding request
  request-queued_requests s key sender = elim (Option-cases (listeners_of key s.requests)) [
    | inl e ↦ rw (e, request) refl
    | inr (_, e) ↦ rw (e, request) refl
  ]

  on_request-queued_requests :
      (s : GlobalBackend cache E) (req : BackendFetchRequest)
      → (on_request s req).queued_requests ≡ s.queued_requests
  unfolding on_request send_all
  on_request-queued_requests s req = elim (Option-cases (cached cache s.db req.key)) [
    | inl e ↦ rw (e, on_request) (request-queued_requests s req.key req.sender)
    | inr (_, e) ↦ rw (e, on_request) refl
  ]

  on_requests-Inv :
      (reqs : List BackendFetchRequest) (s : GlobalBackend cache E)
      → Inv s
      → Inv (on_requests s reqs)
  unfolding on_requests
  on_requests-Inv [] s inv = inv
  on_requests-Inv (req ∷ reqs) s inv =
      on_requests-Inv reqs (on_request s req) (on_request-Inv s req inv)

  on_requests-present :
      (x : ℕ) (reqs : List BackendFetchRequest) (s : GlobalBackend cache E)
      → present x (on_requests s reqs) ≡ present x s + queued x reqs
  unfolding on_requests queued
  on_requests-present x [] s = omega arith
  on_requests-present x (req ∷ reqs) s =
      omega (arith, on_requests-present x reqs (on_request s req), on_request-present x s req)

  on_requests-queued_requests :
      (reqs : List BackendFetchRequest) (s : GlobalBackend cache E)
      → (on_requests s reqs).queued_requests ≡ s.queued_requests
  unfolding on_requests
  on_requests-queued_requests [] s = refl
  on_requests-queued_requests (req ∷ reqs) s =
      on_requests-queued_requests reqs (on_request s req) ∙ on_request-queued_requests s req

  -- Draining the queue answers its requests or has their senders wait.
  pub drain-Inv : (s : GlobalBackend cache E) → Inv s → Inv (drain s)
  unfolding drain
  drain-Inv s inv =
      on_requests-Inv s.queued_requests _ (record { fetched = inv.fetched; single = inv.single })

  pub drain-queued_requests : (s : GlobalBackend cache E) → (drain s).queued_requests ≡ []
  unfolding drain
  drain-queued_requests s =
      on_requests-queued_requests s.queued_requests (record s { queued_requests = [] })

  pub drain-present : (x : ℕ) (s : GlobalBackend cache E) → present x (drain s) ≡ present x s
  unfolding drain present queued
  drain-present x s =
      let p = on_requests-present x s.queued_requests (record s { queued_requests = [] }) in
      unfold present in omega (arith, p)

  pub receive-present :
      (x : ℕ) (s : GlobalBackend cache E) (incoming : List BackendFetchRequest)
      → present x (receive s incoming) ≡ present x s + queued x incoming
  unfolding receive present
  receive-present x s incoming = omega (arith, queued-append x s.queued_requests incoming)

pub new-Inv : (cache : CacheDb) (E : Type 0) (db : cache.Db) → Inv {cache = cache} (new {E = E} db)
unfolding new entries keys
new-Inv cache E db = record { fetched = λ g. refl; single = λ g. omega arith }

pub new-present :
    (cache : CacheDb) (E : Type 0) (x : ℕ) (db : cache.Db)
    → present {cache = cache} x (new {E = E} db) ≡ 0
unfolding new present queued waiting answered
new-present cache E x db = refl
