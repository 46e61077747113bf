-- ===== src/ForkDb/Reads.antt =====
-- Reading from a forked database.
use sando_rs.Base.{
  ℕ, ◌≡◌, ◌⊎◌, refl, sym, ap, ◌∙◌, Bool, true, false, Option, none, some, Result, ok, err, inl, inr,
}
use mathlib.Core.Bool.{true≢false}
use sando_rs.CacheDb.{AccountInfo, CacheDb, CacheLaws}
use sando_rs.Backend.{Key, basic, storage, block_hash, Value, DatabaseError}
use sando_rs.Backend.Inv.{Option-cases}
use sando_rs.ForkDb.{
  ForkDb, do_get_basic, do_get_storage, do_get_block_hash, keep_account, basic_of, storage_of,
  block_hash_of,
}

pub Result-cases :
    {A E : Type 0} (r : Result A E) → ((e : E) × (r ≡ err e)) ⊎ ((a : A) × (r ≡ ok a))
Result-cases (err e) = inl (e, refl)
Result-cases (ok a) = inr (a, refl)

abbrev pub is_ok : {A E : Type 0} → Result A E → Bool
is_ok (ok _) = true
is_ok (err _) = false

-- What a read of a key answers.
abbrev pub Answer : Key → Type 0
Answer (basic _) = Option AccountInfo
Answer (storage _ _) = ℕ
Answer (block_hash _) = ℕ

-- The reading function of a key.
module _ {cache : CacheDb} {E : Type 0}
    (fetch : (key : Key) → Result (Value key) (DatabaseError E)) where
  abbrev pub read :
      ForkDb cache → (key : Key) → Result (Answer key) (DatabaseError E) × ForkDb cache
  read s (basic address) = basic_of fetch s address
  read s (storage address index) = storage_of fetch s address index
  read s (block_hash number) = block_hash_of fetch s number

-- What the functions do where the value is there.
module _ {cache : CacheDb} {E : Type 0} (fetch : (key : Key) → Result (Value key) (DatabaseError E))
    (s : ForkDb cache) where
  pub basic_there :
      (a : ℕ) (account : AccountInfo)
      → cache.info s.db a ≡ some account
      → basic_of fetch s a ≡ (ok (some account), s)
  unfolding basic_of
  basic_there a account e = rw (e, basic_of) refl

  pub storage_there :
      (a i word : ℕ) → cache.slot s.db a i ≡ some word → storage_of fetch s a i ≡ (ok word, s)
  unfolding storage_of
  storage_there a i word e = rw (e, storage_of) refl

  block_hash_there :
      (n word : ℕ) → cache.hash s.db n ≡ some word → block_hash_of fetch s n ≡ (ok word, s)
  unfolding block_hash_of
  block_hash_there n word e = rw (e, block_hash_of) refl

-- An answer that is an error, or one that is given again.
again :
    {A S E : Type 0} (first second : S → Result A E × S) (s : S) (answer : Result A E) (t : S)
    → first s ≡ (answer, t)
    → second t ≡ (answer, t)
    → second (first s).1 ≡ first s
again first second s answer t p q = ap (λ r. second r.1) p ∙ q ∙ sym p

pub not_ok :
    {A S E : Type 0} {C : Type 0} (r : Result A E × S) (e : E) (t : S)
    → r ≡ (err e, t)
    → is_ok r.0 ≡ true
    → C
not_ok r e t p h = absurd (true≢false (sym h ∙ ap (λ x. is_ok x.0) p))

module _ {cache : CacheDb} (laws : CacheLaws cache) {E : Type 0}
    (fetch later : (key : Key) → Result (Value key) (DatabaseError E)) where
  basic_again :
      (s : ForkDb cache) (a : ℕ)
      → ((account : AccountInfo)
          → fetch (basic a) ≡ ok account
          → cache.insert_contract account ≡ account)
      → is_ok (basic_of fetch s a).0 ≡ true
      → basic_of later (basic_of fetch s a).1 a ≡ basic_of fetch s a
  unfolding basic_of do_get_basic keep_account
  basic_again s a settled h = elim (Option-cases (cache.info s.db a)) [
    | inr (account, e) ↦
        again (λ t. basic_of fetch t a) (λ t. basic_of later t a) s (ok (some account)) s
          (basic_there fetch s a account e) (basic_there later s a account e)
    | inl e ↦ elim (Result-cases (fetch (basic a))) [
      | inl (x, f) ↦ not_ok (basic_of fetch s a) x s (rw (e, basic_of, f, do_get_basic) refl) h
      | inr (account, f) ↦
          let t : ForkDb cache = record { db = cache.insert_account_info s.db a account } in
          again (λ t. basic_of fetch t a) (λ t. basic_of later t a) s (ok (some account)) t
            (rw (e, basic_of, f, do_get_basic) refl)
            (basic_there later t a account
              (laws.info-info_self s.db a account ∙ ap some (settled account f)))
    ]
  ]

  storage_again :
      (s : ForkDb cache) (a i : ℕ)
      → is_ok (storage_of fetch s a i).0 ≡ true
      → storage_of later (storage_of fetch s a i).1 a i ≡ storage_of fetch s a i
  unfolding storage_of do_get_basic do_get_storage keep_account
  storage_again s a i h = elim (Option-cases (cache.slot s.db a i)) [
    | inr (word, e) ↦
        again (λ t. storage_of fetch t a i) (λ t. storage_of later t a i) s (ok word) s
          (storage_there fetch s a i word e) (storage_there later s a i word e)
    | inl e ↦ elim (Result-cases (fetch (basic a))) [
      | inl (x, f) ↦
          not_ok (storage_of fetch s a i) x s (rw (e, storage_of, f, do_get_basic) refl) h
      | inr (account, f) ↦
          let db = cache.insert_account_info s.db a account in
          elim (Result-cases (fetch (storage a i))) [
            | inl (x, g) ↦
                not_ok (storage_of fetch s a i) x (record { db = db })
                  (rw (e, storage_of, f, do_get_basic, g, do_get_storage) refl) h
            | inr (word, g) ↦
                let t : ForkDb cache = record { db = cache.insert_account_storage db a i word } in
                again (λ t. storage_of fetch t a i) (λ t. storage_of later t a i) s (ok word) t
                  (rw (e, storage_of, f, do_get_basic, g, do_get_storage) refl)
                  (storage_there later t a i word (laws.slot-storage_self db a i word))
          ]
    ]
  ]

  block_hash_again :
      (s : ForkDb cache) (n : ℕ)
      → is_ok (block_hash_of fetch s n).0 ≡ true
      → block_hash_of later (block_hash_of fetch s n).1 n ≡ block_hash_of fetch s n
  unfolding block_hash_of do_get_block_hash
  block_hash_again s n h = elim (Option-cases (cache.hash s.db n)) [
    | inr (word, e) ↦
        again (λ t. block_hash_of fetch t n) (λ t. block_hash_of later t n) s (ok word) s
          (block_hash_there fetch s n word e) (block_hash_there later s n word e)
    | inl e ↦ elim (Result-cases (fetch (block_hash n))) [
      | inl (x, f) ↦
          not_ok (block_hash_of fetch s n) x s (rw (e, block_hash_of, f, do_get_block_hash) refl) h
      | inr (word, f) ↦
          let t : ForkDb cache = record { db = cache.insert_block_hash s.db n word } in
          again (λ t. block_hash_of fetch t n) (λ t. block_hash_of later t n) s (ok word) t
            (rw (e, block_hash_of, f, do_get_block_hash) refl)
            (block_hash_there later t n word (laws.hash-hash_self s.db n word))
    ]
  ]

  -- A read that has succeeded gives the same answer when it is made again, from the database alone,
  -- whatever the backend would answer by then, and changes nothing; for accounts that the cache
  -- keeps as they are fetched.
  pub read-again :
      (s : ForkDb cache) (key : Key)
      → ((a : ℕ) (account : AccountInfo)
          → fetch (basic a) ≡ ok account
          → cache.insert_contract account ≡ account)
      → is_ok (read fetch s key).0 ≡ true
      → read later (read fetch s key).1 key ≡ read fetch s key
  read-again s (basic a) settled h = basic_again s a (settled a) h
  read-again s (storage a i) settled h = storage_again s a i h
  read-again s (block_hash n) settled h = block_hash_again s n h

-- Reading a slot that is not there replaces what the database has of the account's information,
-- changes of a transaction included, by what the backend gives.
pub storage-replaces_account :
    {cache : CacheDb} (laws : CacheLaws cache) {E : Type 0}
    (fetch : (key : Key) → Result (Value key) (DatabaseError E)) (s : ForkDb cache) (a i word : ℕ)
    (account : AccountInfo)
    → cache.slot s.db a i ≡ none
    → fetch (basic a) ≡ ok account
    → fetch (storage a i) ≡ ok word
    → cache.info (storage_of fetch s a i).1.db a ≡ some (cache.insert_contract account)
unfolding storage_of do_get_basic do_get_storage keep_account
storage-replaces_account {cache} laws fetch s a i word account e f g =
    let db = cache.insert_account_info s.db a account in
    rw (e, storage_of, f, do_get_basic, g, do_get_storage)
      (laws.info-storage db a i word (cache.insert_contract account)
        (laws.info-info_self s.db a account))
