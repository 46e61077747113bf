-- ===== src/Backend.antt =====
-- bot/src/forked_db/global_backend.rs: the task that fetches missing state from the provider and
-- answers everyone who asked. A sender is a number, and `sent` lists what has gone to the senders.
-- The three maps of listeners are one table, whose keys say which of the maps they are in, as the
-- variants of the requests and of the fetches do.
pub mod Counts
pub mod Inv
pub mod Answers
pub mod Polls
pub mod Rounds
mod Examples
use Prim.Native.String.{String}
use sando_rs.Base.{
  ℕ, zero, suc, ◌&&◌, Bool, true, false, Option, none, some, List, [], ◌∷◌, ◌++◌, map, Result, ok,
  err, length, ◌==◌, if◌then◌else◌, ◌^◌, ltb, Checked, val, panic,
}
use sando_rs.CacheDb.{AccountInfo, CacheDb}

-- What a request asks for, and a fetch is for.
pub data Key : Type 0 where
  basic : (address : ℕ) → Key
  storage : (address index : ℕ) → Key
  block_hash : (number : ℕ) → Key

unfoldable pub same_key : Key → Key → Bool
same_key (basic a) (basic b) = a == b
same_key (storage a i) (storage b j) = (a == b) && (i == j)
same_key (block_hash n) (block_hash m) = n == m
same_key (basic _) (storage _ _) = false
same_key (basic _) (block_hash _) = false
same_key (storage _ _) (basic _) = false
same_key (storage _ _) (block_hash _) = false
same_key (block_hash _) (basic _) = false
same_key (block_hash _) (storage _ _) = false

-- What the provider's fetch gives: balance, nonce and code, or a word.
abbrev pub Fetched : Key → Type 0
Fetched (basic _) = ℕ × ℕ × List ℕ
Fetched (storage _ _) = ℕ
Fetched (block_hash _) = ℕ

-- What a listener is sent.
abbrev pub Value : Key → Type 0
Value (basic _) = AccountInfo
Value (storage _ _) = ℕ
Value (block_hash _) = ℕ

-- The errors of bot/src/forked_db/database_error.rs.
pub data DatabaseError (E : Type 0) : Type 0 where
  missing_account : (address : ℕ) → DatabaseError E
  missing_code : (code_hash : ℕ) → DatabaseError E
  recv : DatabaseError E
  send : DatabaseError E
  message : String → DatabaseError E
  get_account : (address : ℕ) → E → DatabaseError E
  get_storage : (address index : ℕ) → E → DatabaseError E
  get_block_hash : (number : ℕ) → E → DatabaseError E

unfoldable pub fetch_error : {E : Type 0} → Key → E → DatabaseError E
fetch_error (basic address) e = get_account address e
fetch_error (storage address index) e = get_storage address index e
fetch_error (block_hash number) e = get_block_hash number e

pub record BackendFetchRequest : Type 0 where
  pub key : Key
  pub sender : ℕ

pub record Reply (E : Type 0) : Type 0 where
  pub key : Key
  pub value : Result (Value key) (DatabaseError E)

-- The listeners of one key, and the others.
abbrev pub Listeners : Type 0
Listeners = List (Key × List ℕ)

unfoldable pub listeners_of : Key → Listeners → Option (List ℕ)
listeners_of key [] = none
listeners_of key ((other, senders) ∷ entries) =
    if same_key key other then some senders else listeners_of key entries

-- `entry.get_mut().push(listener)`
unfoldable pub add_listener : Key → ℕ → Listeners → Listeners
add_listener key sender [] = []
add_listener key sender ((other, senders) ∷ entries) =
    let rest = add_listener key sender entries in
    if same_key key other
    then (other, senders ++ sender ∷ []) ∷ entries
    else (other, senders) ∷ rest

-- `remove(&key)`
unfoldable pub remove : Key → Listeners → Listeners
remove key [] = []
remove key ((other, senders) ∷ entries) =
    let rest = remove key entries in if same_key key other then entries else (other, senders) ∷ rest

-- `Vec::swap_remove`: the last element takes the place of the one removed.
unfoldable pub split_last {ℓ} : {A : Type ℓ} → A → List A → A × List A
split_last x [] = (x, [])
split_last x (y ∷ ys) = let (last, init) = split_last y ys in (last, x ∷ init)

unfoldable pub last_first {ℓ} : {A : Type ℓ} → List A → List A
unfolding split_last
last_first [] = []
last_first (x ∷ xs) = let (last, init) = split_last x xs in last ∷ init

unfoldable pub swap_remove {ℓ} : {A : Type ℓ} → ℕ → List A → Option (A × List A)
unfolding last_first
swap_remove n [] = none
swap_remove zero (x ∷ xs) = some (x, last_first xs)
swap_remove (suc n) (x ∷ xs) = elim (swap_remove n xs) [
  | none ↦ none
  | some (y, rest) ↦ some (y, x ∷ rest)
]

module _ (cache : CacheDb) where
  open cache use {
    Db, info, slot, hash, insert_account_info, insert_account_storage, insert_block_hash,
  }

  -- What the cache has for a request.
  unfoldable pub cached : Db → (key : Key) → Option (Value key)
  cached db (basic address) = info db address
  cached db (storage address index) = slot db address index
  cached db (block_hash number) = hash db number

  -- The cache with the value of a key.
  unfoldable pub store : Db → (key : Key) → Value key → Db
  store db (basic address) value = insert_account_info db address value
  store db (storage address index) value = insert_account_storage db address index value
  store db (block_hash number) value = insert_block_hash db number value

module _ (cache : CacheDb) (E : Type 0) where
  open cache use {Db}

  pub record GlobalBackend : Type 0 where
    pub db : Db
    pub pending_requests : List Key
    pub requests : Listeners
    pub queued_requests : List BackendFetchRequest
    pub sent : List (ℕ × Reply E)

module _ {cache : CacheDb} {E : Type 0} where
  open cache use {Db}

  unfoldable pub new : Db → GlobalBackend cache E
  new initial_db = record {
    db = initial_db;
    pending_requests = [];
    requests = [];
    queued_requests = [];
    sent = [];
  }

  -- `request_account`, `request_account_storage` and `request_hash`
  unfoldable pub request : GlobalBackend cache E → Key → ℕ → GlobalBackend cache E
  unfolding listeners_of add_listener
  request s key listener = elim (listeners_of key s.requests) [
    | some _ ↦ record s { requests = add_listener key listener s.requests }
    | none ↦ record s {
      requests = (key, listener ∷ []) ∷ s.requests;
      pending_requests = s.pending_requests ++ key ∷ [];
    }
  ]

  unfoldable pub send_all :
      GlobalBackend cache E
      → (key : Key) → Result (Value key) (DatabaseError E)
      → List ℕ
      → GlobalBackend cache E
  send_all s key value listeners = record s {
    sent = s.sent ++ map (λ l. (l, record { key = key; value = value })) listeners;
  }

  unfoldable pub on_request : GlobalBackend cache E → BackendFetchRequest → GlobalBackend cache E
  unfolding cached request send_all
  on_request s req = elim (cached cache s.db req.key) [
    | some value ↦ send_all s req.key (ok value) (req.sender ∷ [])
    | none ↦ request s req.key req.sender
  ]

  -- `while let Some(req) = queued_requests.pop_front()`: handling a request queues none.
  unfoldable pub on_requests :
      GlobalBackend cache E → List BackendFetchRequest → GlobalBackend cache E
  unfolding on_request
  on_requests s [] = s
  on_requests s (req ∷ reqs) = on_requests (on_request s req) reqs

  unfoldable pub drain : GlobalBackend cache E → GlobalBackend cache E
  unfolding on_requests
  drain s = on_requests (record s { queued_requests = [] }) s.queued_requests

  unfoldable pub receive : GlobalBackend cache E → List BackendFetchRequest → GlobalBackend cache E
  receive s incoming = record s { queued_requests = s.queued_requests ++ incoming }

  -- All listeners of a key are told, and forgotten.
  unfoldable pub notify :
      GlobalBackend cache E
      → (key : Key) → Result (Value key) (DatabaseError E)
      → GlobalBackend cache E
  unfolding listeners_of remove send_all
  notify s key value = elim (listeners_of key s.requests) [
    | none ↦ s
    | some listeners ↦ send_all (record s { requests = remove key s.requests }) key value listeners
  ]

-- `keccak256` of a code, and the hash of the empty one, as numbers.
pub record CodeHashes : Type 0 where
  pub keccak256 : List ℕ → ℕ
  pub keccak_empty : ℕ

-- What the future of an account makes of the provider's answers, in the order of `try_join!`, and of
-- a nonce that fits no 64 bits.
unfoldable pub account_response :
    {E : Type 0}
    → Result {0, 0} ℕ E
    → Result {0, 0} ℕ E
    → Result {0, 0} (List ℕ) E
    → Checked (Result {0, 0} (Fetched (basic 0)) E)
account_response (err e) nonce code = val (err e)
account_response (ok balance) (err e) code = val (err e)
account_response (ok balance) (ok nonce) (err e) = val (err e)
account_response (ok balance) (ok nonce) (ok code) =
    if ltb nonce (2 ^ 64) then val (ok (balance, nonce, code)) else panic

module _ (hashes : CodeHashes) where
  -- What the future of a block hash makes of the provider's block, which may have no hash.
  unfoldable pub block_hash_response :
      {E : Type 0} → Result {0, 0} (Option (Option ℕ)) E → Checked (Result {0, 0} ℕ E)
  block_hash_response (err e) = val (err e)
  block_hash_response (ok none) = val (ok hashes.keccak_empty)
  block_hash_response (ok (some none)) = panic
  block_hash_response (ok (some (some found))) = val (ok found)

  unfoldable pub to_account : ℕ × ℕ × List ℕ → AccountInfo
  to_account (balance, nonce, []) = record {
    balance = balance;
    nonce = nonce;
    code = some [];
    code_hash = hashes.keccak_empty;
  }
  to_account (balance, nonce, b ∷ bytes) = record {
    balance = balance;
    nonce = nonce;
    code = some (b ∷ bytes);
    code_hash = hashes.keccak256 (b ∷ bytes);
  }

  -- A response in revm's types.
  unfoldable pub to_value : (key : Key) → Fetched key → Value key
  unfolding to_account
  to_value (basic _) fetched = to_account fetched
  to_value (storage _ _) word = word
  to_value (block_hash _) word = word

module _ {cache : CacheDb} {E : Type 0} (hashes : CodeHashes) where
  -- A fetch that is done.
  unfoldable pub complete :
      GlobalBackend cache E → (key : Key) → Result (Fetched key) E → GlobalBackend cache E
  unfolding notify to_value store fetch_error
  complete s key (err e) = notify s key (err (fetch_error key e))
  complete s key (ok fetched) =
      let value = to_value hashes key fetched in
      notify (record s { db = store cache s.db key value }) key (ok value)

  -- What polling a fetch gives: nothing while it is not ready.
  module _ (ready : (key : Key) → Option (Result (Fetched key) E)) where
    -- One pending request, taken out: it is done, or put back at the end.
    unfoldable pub poll_request : GlobalBackend cache E → Key → GlobalBackend cache E
    unfolding complete
    poll_request s key = elim (ready key) [
      | none ↦ record s { pending_requests = s.pending_requests ++ key ∷ [] }
      | some response ↦ complete s key response
    ]

    -- `for n in (0..len).rev()`: the indices below `n`, the highest first. `none` is the panic of
    -- `swap_remove` out of bounds, which is never reached.
    unfoldable pub poll_below : ℕ → GlobalBackend cache E → GlobalBackend cache E
    unfolding swap_remove poll_request
    poll_below zero s = s
    poll_below (suc n) s = elim (swap_remove n s.pending_requests) [
      | none ↦ s
      | some (key, rest) ↦ poll_below n (poll_request (record s { pending_requests = rest }) key)
    ]

    unfoldable pub poll_pending : GlobalBackend cache E → GlobalBackend cache E
    unfolding poll_below
    poll_pending s = poll_below (length s.pending_requests) s

  -- A round of the loop of `poll`, with the channel open: what the channel holds, and what the
  -- fetches give. The loop goes on at once while requests are queued, and otherwise when it is
  -- woken.
  unfoldable pub round :
      (ready : (key : Key) → Option (Result (Fetched key) E))
      → List BackendFetchRequest
      → GlobalBackend cache E
      → GlobalBackend cache E
  unfolding drain receive poll_pending
  round ready incoming s = poll_pending ready (receive (drain s) incoming)
