-- ===== src/Backend/Polls.antt =====
-- Polling the fetches: what one of them does to the state, and the loop over all of them.
use mathlib.Core.Bool.{true≢false}
use sando_rs.Base.{
  ℕ, zero, suc, ◌+◌, ◌≤◌, ◌≡◌, refl, sym, ap, ◌∙◌, Bool, true, false, Option, none, some, List, [],
  ◌∷◌, map, length, take, Result, ok, err, length-append, inl, inr, if◌then◌else◌, arith,
}
use sando_rs.CacheDb.{CacheDb}
use sando_rs.Backend.{
  Key, same_key, Fetched, Value, DatabaseError, Reply, listeners_of, GlobalBackend, send_all,
  notify, CodeHashes, complete, poll_request, poll_below, poll_pending, fetch_error, to_value,
  store,
}
use sando_rs.Backend.Counts.{
  one, keys, keys-append, entries, listeners_of-none, entries-remove, waiting-remove, same_key-eq,
  same_key_refl, swap_remove-Removed, take-keys,
}
use sando_rs.Backend.Inv.{Inv, present, answered-append, answered-map, Option-cases}

module _ {cache : CacheDb} {E : Type 0} where
  -- A state out of which the fetch of a key has been taken.
  record Taken (key : Key) (s : GlobalBackend cache E) : Type 0 where
    pub fetched :
        (g : Key) → entries g s.requests ≡ keys g s.pending_requests + one (same_key g key)
    pub single : (g : Key) → entries g s.requests ≤ 1

  Taken-listeners :
      (key : Key) (s : GlobalBackend cache E)
      → Taken key s
      → (listeners : List ℕ) × (listeners_of key s.requests ≡ some listeners)
  Taken-listeners key s taken = elim (Option-cases (listeners_of key s.requests)) [
    | inl e ↦ absurd (
        omega (
          arith,
          listeners_of-none key s.requests e,
          taken.fetched key,
          ap one (same_key_refl key),
        ))
    | inr found ↦ found
  ]

  -- Notifying the listeners of a key whose fetch is taken out.
  record Notified (s t : GlobalBackend cache E) : Type 0 where
    pub inv : Inv t
    pub kept : (x : ℕ) → present x t ≡ present x s
    pub queue : t.queued_requests ≡ s.queued_requests
    pub pending : t.pending_requests ≡ s.pending_requests

  notify-Notified :
      (s : GlobalBackend cache E) (key : Key) (value : Result (Value key) (DatabaseError E))
      → Taken key s
      → Notified s (notify s key value)
  unfolding notify send_all present
  notify-Notified s key value taken =
      let (listeners, e) = Taken-listeners key s taken in
      rw (e, notify)
        (record {
          inv = record {
            fetched =
                λ g. omega (arith, entries-remove g key s.requests listeners e, taken.fetched g);
            single =
                λ g. omega (arith, entries-remove g key s.requests listeners e, taken.single g);
          };
          kept = λ x.
              let reply : Reply E = record { key = key; value = value } in
              omega (
                arith,
                waiting-remove x key s.requests listeners e,
                answered-append x s.sent (map (λ l. (l, reply)) listeners),
                answered-map x reply listeners,
              );
          queue = refl;
          pending = refl;
        })

-- The count of a key after one more fetch `m` says is the key's: `b` whether the key is ready, `c`
-- the fetch.
step_total :
    (b c m : Bool)
    → (m ≡ true → b ≡ c)
    → (final rest : ℕ) → {taken polled front next before : ℕ}
    → final + (if b then taken else 0) ≡ polled
    → polled ≡ rest + (if c then 0 else one m)
    → taken ≡ front
    → next ≡ front + one m
    → before ≡ one m + rest
    → final + (if b then next else 0) ≡ before
step_total true true m h final rest f p t n r = ground arith
step_total false false m h final rest f p t n r = ground arith
step_total true false false h final rest f p t n r = omega arith
step_total false true false h final rest f p t n r = omega arith
step_total true false true h final rest f p t n r = absurd (true≢false (h refl))
step_total false true true h final rest f p t n r = absurd (true≢false (sym (h refl)))

all_total :
    (b : Bool)
    → {final taken before : ℕ} → final + (if b then taken else 0) ≡ before
    → taken ≡ before
    → final ≡ (if b then 0 else before)
all_total true f t = omega arith
all_total false f t = omega arith

take-length : {A : Type 0} (xs : List A) → take (length xs) xs ≡ xs
take-length [] = refl
take-length (x ∷ xs) = ap (◌∷◌ x) (take-length xs)

-- What a fetch gives.
abbrev pub is_ready {ℓ} : {A : Type ℓ} → Option A → Bool
is_ready none = false
is_ready (some _) = true

module _ {cache : CacheDb} {E : Type 0} (hashes : CodeHashes) where
  complete-Notified :
      (s : GlobalBackend cache E) (key : Key) (response : Result (Fetched key) E)
      → Taken key s
      → Notified s (complete hashes s key response)
  unfolding complete present
  complete-Notified s key (err e) taken = notify-Notified s key (err (fetch_error key e)) taken
  complete-Notified s key (ok fetched) taken =
      let value = to_value hashes key fetched in
      let t : GlobalBackend cache E = record s { db = store cache s.db key value } in
      let r =
        notify-Notified t key (ok value)
          (record { fetched = taken.fetched; single = taken.single }) in
      record { inv = r.inv; kept = r.kept; queue = r.queue; pending = r.pending }

  module _ (ready : (key : Key) → Option (Result (Fetched key) E)) where
    -- What polling a fetch that is taken out does.
    record Polled (key : Key) (s t : GlobalBackend cache E) : Type 0 where
      pub inv : Inv t
      pub kept : (x : ℕ) → present x t ≡ present x s
      pub queue : t.queued_requests ≡ s.queued_requests
      pub total :
          (g : Key)
          → keys g t.pending_requests
            ≡ keys g s.pending_requests + (if is_ready (ready key) then 0 else one (same_key g key))
      pub front :
          (g : Key) (n : ℕ)
          → n ≤ length s.pending_requests
          → keys g (take n t.pending_requests) ≡ keys g (take n s.pending_requests)
      pub size : length s.pending_requests ≤ length t.pending_requests

    poll_request-Polled :
        (s : GlobalBackend cache E) (key : Key)
        → Taken key s
        → Polled key s (poll_request hashes ready s key)
    unfolding poll_request present keys
    poll_request-Polled s key taken = elim (Option-cases (ready key)) [
      | inl e ↦
          rw (e, poll_request)
            (record {
              inv = record {
                fetched = λ g.
                    omega (arith, keys-append g s.pending_requests (key ∷ []), taken.fetched g);
                single = taken.single;
              };
              kept = λ x. refl;
              queue = refl;
              total = λ g. rw e (omega (arith, keys-append g s.pending_requests (key ∷ [])));
              front = λ g n h. take-keys g n s.pending_requests (key ∷ []) h;
              size = omega (arith, length-append s.pending_requests (key ∷ []));
            })
      | inr (response, e) ↦
          let r = complete-Notified s key response taken in
          rw (e, poll_request)
            (record {
              inv = r.inv;
              kept = r.kept;
              queue = r.queue;
              total = λ g. rw e (omega (arith, ap (keys g) r.pending));
              front = λ g n h. ap (λ l. keys g (take n l)) r.pending;
              size = omega (arith, ap length r.pending);
            })
    ]

    -- What the loop does, from the indices below `n`.
    record PolledBelow (n : ℕ) (s t : GlobalBackend cache E) : Type 0 where
      pub inv : Inv t
      pub kept : (x : ℕ) → present x t ≡ present x s
      pub queue : t.queued_requests ≡ s.queued_requests
      pub total :
          (g : Key)
          → keys g t.pending_requests
              + (if is_ready (ready g) then keys g (take n s.pending_requests) else 0)
            ≡ keys g s.pending_requests

    poll_below-PolledBelow :
        (n : ℕ) (s : GlobalBackend cache E)
        → n ≤ length s.pending_requests
        → Inv s
        → PolledBelow n s (poll_below hashes ready n s)
    unfolding poll_below present keys
    poll_below-PolledBelow zero s h inv = record {
      inv = inv;
      kept = λ x. refl;
      queue = refl;
      total = λ g. ground arith;
    }
    poll_below-PolledBelow (suc n) s h inv =
        let (key, rest, e, removed) = swap_remove-Removed n s.pending_requests (omega arith) in
        let s' : GlobalBackend cache E = record s { pending_requests = rest } in
        let taken : Taken key s' = record {
          fetched = λ g. omega (arith, inv.fetched g, removed.total g);
          single = inv.single;
        } in
        let p = poll_request-Polled s' key taken in
        let fits : n ≤ length rest = omega (arith, removed.size) in
        let below =
          poll_below-PolledBelow n (poll_request hashes ready s' key) (omega (arith, fits, p.size))
            p.inv in
        rw (e, poll_below)
          (record {
            inv = below.inv;
            kept = λ x. below.kept x ∙ p.kept x;
            queue = below.queue ∙ p.queue;
            total = λ g.
                step_total (is_ready (ready g)) (is_ready (ready key)) (same_key g key)
                  (λ m. ap (λ k. is_ready (ready k)) (same_key-eq g key m)) _ _ (below.total g)
                  (p.total g) (p.front g n fits ∙ removed.front g) (removed.next g)
                  (removed.total g);
          })

    -- Polling all: the invariant and every sender stay, and what is ready is no longer pending.
    pub poll_pending-Inv : (s : GlobalBackend cache E) → Inv s → Inv (poll_pending hashes ready s)
    unfolding poll_pending
    poll_pending-Inv s inv =
        (poll_below-PolledBelow (length s.pending_requests) s (omega arith) inv).inv

    pub poll_pending-present :
        (x : ℕ) (s : GlobalBackend cache E)
        → Inv s
        → present x (poll_pending hashes ready s) ≡ present x s
    unfolding poll_pending
    poll_pending-present x s inv =
        (poll_below-PolledBelow (length s.pending_requests) s (omega arith) inv).kept x

    pub poll_pending-queued_requests :
        (s : GlobalBackend cache E)
        → Inv s
        → (poll_pending hashes ready s).queued_requests ≡ s.queued_requests
    unfolding poll_pending
    poll_pending-queued_requests s inv =
        (poll_below-PolledBelow (length s.pending_requests) s (omega arith) inv).queue

    -- In a state where the fetches are those of the listeners, polling them all takes out each fetch
    -- that is ready and keeps each of the others, as often as it was there.
    pub poll_pending-keys :
        (s : GlobalBackend cache E)
        → Inv s
        → (g : Key)
        → keys g (poll_pending hashes ready s).pending_requests
          ≡ (if is_ready (ready g) then 0 else keys g s.pending_requests)
    unfolding poll_pending
    poll_pending-keys s inv g =
        let below = poll_below-PolledBelow (length s.pending_requests) s (omega arith) inv in
        all_total (is_ready (ready g)) (below.total g)
          (ap (keys g) (take-length s.pending_requests))
