-- ===== src/Backend/Answers.antt =====
-- What the backend answers from its cache.
use sando_rs.Base.{ℕ, ◌≡◌, refl, ap, ◌∙◌, none, some, [], ◌∷◌, Result, ok, inl, inr}
use sando_rs.CacheDb.{CacheDb, CacheLaws}
use sando_rs.Backend.{
  Key, basic, storage, block_hash, Fetched, Value, DatabaseError, listeners_of, cached, store,
  GlobalBackend, send_all, on_request, notify, CodeHashes, to_value, complete,
}
use sando_rs.Backend.Inv.{Option-cases}

-- A value as the cache keeps it: that of an account with the code hash that `insert_contract` gives.
abbrev pub kept : CacheDb → (key : Key) → Value key → Value key
kept cache (basic _) account = cache.insert_contract account
kept cache (storage _ _) word = word
kept cache (block_hash _) word = word

cached-store :
    (cache : CacheDb)
    → CacheLaws cache
    → (db : cache.Db) (key : Key) (value : Value key)
    → cached cache (store cache db key value) key ≡ some (kept cache key value)
unfolding cached store
cached-store cache laws db (basic a) value = laws.info-info_self db a value
cached-store cache laws db (storage a j) value = laws.slot-storage_self db a j value
cached-store cache laws db (block_hash n) value = laws.hash-hash_self db n value

module _ {cache : CacheDb} {E : Type 0} (laws : CacheLaws cache) (hashes : CodeHashes) where
  notify-db :
      (s : GlobalBackend cache E) (key : Key) (value : Result (Value key) (DatabaseError E))
      → (notify s key value).db ≡ s.db
  unfolding notify send_all
  notify-db s key value = elim (Option-cases (listeners_of key s.requests)) [
    | inl e ↦ rw (e, notify) refl
    | inr (_, e) ↦ rw (e, notify) refl
  ]

  on_request-cached :
      (s : GlobalBackend cache E) (key : Key) (sender : ℕ) (value : Value key)
      → cached cache s.db key ≡ some value
      → on_request s (record { key = key; sender = sender })
        ≡ send_all s key (ok value) (sender ∷ [])
  unfolding on_request
  on_request-cached s key sender value e = rw (e, on_request) refl

  -- Once a fetch has succeeded, a request for its key is answered at once with what the cache keeps
  -- of the value fetched, to its sender alone, and starts no fetch.
  pub complete-on_request :
      (s : GlobalBackend cache E) (key : Key) (fetched : Fetched key) (sender : ℕ)
      → on_request (complete hashes s key (ok fetched)) (record { key = key; sender = sender })
        ≡ send_all
            (complete hashes s key (ok fetched))
            key
            (ok (kept cache key (to_value hashes key fetched)))
            (sender ∷ [])
  unfolding complete
  complete-on_request s key fetched sender =
      let value = to_value hashes key fetched in
      on_request-cached (complete hashes s key (ok fetched)) key sender (kept cache key value) (
        ap (λ db. cached cache db key)
          (notify-db (record s { db = store cache s.db key value }) key (ok value))
        ∙ cached-store cache laws s.db key value)

  -- Once a slot of an account that the cache lacks has been fetched, a request for that account is
  -- answered at once as for an account that does not exist, and none of its data are fetched.
  pub complete-account_of_slot :
      (s : GlobalBackend cache E) (address index word : ℕ) (sender : ℕ)
      → cached cache s.db (basic address) ≡ none
      → on_request
          (complete hashes s (storage address index) (ok word))
          (record { key = basic address; sender = sender })
        ≡ send_all
            (complete hashes s (storage address index) (ok word))
            (basic address)
            (ok cache.not_existing)
            (sender ∷ [])
  unfolding complete cached store to_value
  complete-account_of_slot s address index word sender absent =
      on_request-cached (complete hashes s (storage address index) (ok word)) (basic address) sender
        cache.not_existing
        (ap (λ db. cached cache db (basic address)) (notify-db _ (storage address index) (ok word))
          ∙ laws.info-storage_absent s.db address index word absent)
