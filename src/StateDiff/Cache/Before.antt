-- ===== src/StateDiff/Cache/Before.antt =====
-- The database holds the values before the transactions.
use sando_rs.Base.{
  ℕ, ◌^◌, ◌<◌, ◌≡◌, ◌≢◌, inl, inr, refl, ap, sym, ◌∙◌, Option, none, some, List, [], ◌∷◌, val,
  fit-val, ok,
}
use sando_rs.CacheDb.{AccountInfo, CacheDb, CacheLaws}
use sando_rs.StateDiff.{AccountDiff, lookup}
use sando_rs.StateDiff.Cache.{insert_slots, insert_answered, to_cache_db}
use sando_rs.StateDiff.Cache.Slots.{
  Distinct, old_of, before, or_else, or_else-none, eq_or_ne, slot-insert_slots,
  slot-insert_slots_other, info-insert_slots, info-insert_slots_other,
}

abbrev or_info : Option AccountInfo → Option AccountInfo → Option AccountInfo
or_info none other = other
or_info (some i) other = some i

or_info-none : (x : Option AccountInfo) → or_info x none ≡ x
or_info-none none = refl
or_info-none (some _) = refl

-- Each account has each slot once.
abbrev pub AllDistinct : List (ℕ × AccountDiff) → Type 0
AllDistinct [] = Unit
AllDistinct ((_, diff) ∷ state) = Distinct diff.storage × AllDistinct state

module _ {cache : CacheDb} (laws : CacheLaws cache) where
  open cache use {Db, info, slot, insert_contract, insert_account_info}

  module _ (new_account : (balance nonce : ℕ) → List ℕ → AccountInfo) (nonce balance : ℕ → ℕ)
      (code : ℕ → List ℕ) where
    abbrev pub account_at : ℕ → AccountInfo
    account_at a = new_account (balance a) (nonce a) (code a)

    abbrev pub account_of : ℕ → Option AccountDiff → Option AccountInfo
    account_of a none = none
    account_of a (some _) = some (insert_contract (account_at a))

    insert_one : Db → ℕ → AccountDiff → Db
    insert_one db a diff =
        insert_slots cache (insert_account_info db a (account_at a)) a diff.storage

    pub filled : Db → List (ℕ × AccountDiff) → Db
    filled db [] = db
    filled db ((a, diff) ∷ state) = filled (insert_one db a diff) state

    slot-insert_one :
        (db : Db) (a j : ℕ) (diff : AccountDiff)
        → Distinct diff.storage
        → slot (insert_one db a diff) a j ≡ or_else (old_of (lookup j diff.storage)) (slot db a j)
    unfolding insert_one
    slot-insert_one db a j diff d =
        slot-insert_slots laws diff.storage (insert_account_info db a (account_at a)) a j d
        ∙ ap (or_else (old_of (lookup j diff.storage))) (laws.slot-info db a a j (account_at a))

    slot-insert_one_other :
        (db : Db) (a b j : ℕ) (diff : AccountDiff)
        → b ≢ a
        → slot (insert_one db a diff) b j ≡ slot db b j
    unfolding insert_one
    slot-insert_one_other db a b j diff ne =
        slot-insert_slots_other laws diff.storage (insert_account_info db a (account_at a)) a b j ne
        ∙ laws.slot-info db a b j (account_at a)

    info-insert_one :
        (db : Db) (a : ℕ) (diff : AccountDiff)
        → info (insert_one db a diff) a ≡ some (insert_contract (account_at a))
    unfolding insert_one
    info-insert_one db a diff =
        info-insert_slots laws diff.storage (insert_account_info db a (account_at a)) a
          (insert_contract (account_at a)) (laws.info-info_self db a (account_at a))

    info-insert_one_other :
        (db : Db) (a b : ℕ) (diff : AccountDiff) → b ≢ a → info (insert_one db a diff) b ≡ info db b
    unfolding insert_one
    info-insert_one_other db a b diff ne =
        info-insert_slots_other laws diff.storage (insert_account_info db a (account_at a)) a b ne
        ∙ laws.info-info_other db a b (account_at a) ne

    slot-filled :
        (state : List (ℕ × AccountDiff)) (db : Db) (a j : ℕ)
        → Distinct state
        → AllDistinct state
        → slot (filled db state) a j ≡ or_else (before j (lookup a state)) (slot db a j)
    unfolding filled lookup
    slot-filled [] db a j d e = refl
    slot-filled ((b, diff) ∷ state) db a j (fresh, d) (f, e) = elim (eq_or_ne a b) [
      | inl (q, p) ↦
          let gone : lookup a state ≡ none = ap (λ k. lookup k state) p ∙ fresh in
          rw (q, slot-filled state (insert_one db b diff) a j d e, gone)
            (ap (λ k. slot (insert_one db b diff) k j) p
              ∙ slot-insert_one db b j diff f
              ∙ ap (λ k. or_else (old_of (lookup j diff.storage)) (slot db k j)) (sym p))
      | inr (q, ne) ↦
          rw
            (
              q,
              slot-filled state (insert_one db b diff) a j d e,
              slot-insert_one_other db b a j diff ne,
            )
            refl
    ]

    info-filled :
        (state : List (ℕ × AccountDiff)) (db : Db) (a : ℕ)
        → Distinct state
        → info (filled db state) a ≡ or_info (account_of a (lookup a state)) (info db a)
    unfolding filled lookup
    info-filled [] db a d = refl
    info-filled ((b, diff) ∷ state) db a (fresh, d) = elim (eq_or_ne a b) [
      | inl (q, p) ↦
          let gone : lookup a state ≡ none = ap (λ k. lookup k state) p ∙ fresh in
          rw (q, info-filled state (insert_one db b diff) a d, gone)
            (ap (info (insert_one db b diff)) p
              ∙ info-insert_one db b diff
              ∙ ap (λ k. some (insert_contract (account_at k))) (sym p))
      | inr (q, ne) ↦
          rw (q, info-filled state (insert_one db b diff) a d, info-insert_one_other db b a diff ne)
            refl
    ]

    pub to_cache_db-filled :
        {E : Type 0} (state : List (ℕ × AccountDiff)) (db : Db)
        → ((a : ℕ) → nonce a < 2 ^ 64)
        → to_cache_db cache {E = E} new_account
            (λ a. ok (nonce a))
            (λ a. ok (balance a))
            (λ a. ok (code a))
            db
            state
          ≡ val (ok (filled db state))
    unfolding to_cache_db insert_answered filled insert_one
    to_cache_db-filled [] db room = refl
    to_cache_db-filled {E} ((a, diff) ∷ state) db room =
        rw (fit-val (2 ^ 64) (nonce a) (room a))
          (to_cache_db-filled {E = E} state (insert_one db a diff) room)

    -- Where the provider answers every request, with nonces of 64 bits, and the diffs have each
    -- account and each slot of an account once, `to_cache_db` makes of an empty database one that has
    -- just the accounts of the diffs, with what the provider answers for them, and just the slots
    -- that the diffs have changed or removed, with their values before.
    pub to_cache_db-before :
        {E : Type 0} (empty : Db) (state : List (ℕ × AccountDiff))
        → ((a : ℕ) → info empty a ≡ none)
        → ((a j : ℕ) → slot empty a j ≡ none)
        → ((a : ℕ) → nonce a < 2 ^ 64)
        → Distinct state
        → AllDistinct state
        → (db : Db) × (to_cache_db cache {E = E} new_account
              (λ a. ok (nonce a))
              (λ a. ok (balance a))
              (λ a. ok (code a))
              empty
              state
            ≡ val (ok db))
          × ((a : ℕ) → info db a ≡ account_of a (lookup a state))
          × ((a j : ℕ) → slot db a j ≡ before j (lookup a state))
    to_cache_db-before {E} empty state no_info no_slot room d e = (
      filled empty state,
      to_cache_db-filled {E = E} state empty room,
      λ a.
          info-filled state empty a d
          ∙ ap (or_info (account_of a (lookup a state))) (no_info a)
          ∙ or_info-none (account_of a (lookup a state)),
      λ a j.
          slot-filled state empty a j d e
          ∙ ap (or_else (before j (lookup a state))) (no_slot a j)
          ∙ or_else-none (before j (lookup a state)),
    )
