-- ===== src/StateDiff/Cache/Slots.antt =====
-- The slots that are inserted for one account.
use sando_rs.Base.{
  ℕ, ◌≡◌, ◌≢◌, ◌⊎◌, inl, inr, refl, ap, sym, ◌∙◌, Option, none, some, List, [], ◌∷◌, true, false,
  ◌==◌, arith,
}
use sando_rs.CacheDb.{AccountInfo, CacheDb, CacheLaws}
use sando_rs.StateDiff.{Diff, AccountDiff, same, born, died, changed, lookup}
use sando_rs.StateDiff.Cache.{old_value, insert_old, insert_slots}

-- No key stands twice.
abbrev pub Distinct : {A : Type 0} → List (ℕ × A) → Type 0
Distinct [] = Unit
Distinct ((key, _) ∷ entries) = (lookup key entries ≡ none) × Distinct entries

-- What a slot with a diff held before, if it held anything: a slot that the transactions have made
-- held nothing, and of one that they leave nothing is told.
abbrev pub old_of : Option Diff → Option ℕ
old_of none = none
old_of (some same) = none
old_of (some (born to)) = none
old_of (some (died from)) = some from
old_of (some (changed from to)) = some from

old_value-old_of : (diff : Diff) → old_value diff ≡ old_of (some diff)
unfolding old_value
old_value-old_of same = refl
old_value-old_of (born to) = refl
old_value-old_of (died from) = refl
old_value-old_of (changed from to) = refl

-- The slots of an account of which the diffs have an old value.
abbrev pub before : ℕ → Option AccountDiff → Option ℕ
before index none = none
before index (some diff) = old_of (lookup index diff.storage)

abbrev pub or_else : Option ℕ → Option ℕ → Option ℕ
or_else none other = other
or_else (some value) other = some value

pub eq_or_ne : (a b : ℕ) → ((a == b) ≡ true × (a ≡ b)) ⊎ ((a == b) ≡ false × (a ≢ b))
eq_or_ne a b = ground arith

pub or_else-none : (x : Option ℕ) → or_else x none ≡ x
or_else-none none = refl
or_else-none (some _) = refl

module _ {cache : CacheDb} (laws : CacheLaws cache) where
  open cache use {Db, info, slot, insert_contract, insert_account_info, insert_account_storage}

  slot-insert_old :
      (db : Db) (a j : ℕ) (old : Option ℕ)
      → slot (insert_old cache db a j old) a j ≡ or_else old (slot db a j)
  unfolding insert_old
  slot-insert_old db a j none = refl
  slot-insert_old db a j (some value) = laws.slot-storage_self db a j value

  slot-insert_old_other :
      (db : Db) (a i b j : ℕ) (old : Option ℕ)
      → (b ≡ a → j ≢ i)
      → slot (insert_old cache db a i old) b j ≡ slot db b j
  unfolding insert_old
  slot-insert_old_other db a i b j none ne = refl
  slot-insert_old_other db a i b j (some value) ne = laws.slot-storage_other db a i value b j ne

  info-insert_old :
      (db : Db) (a j : ℕ) (old : Option ℕ) (i : AccountInfo)
      → info db a ≡ some i
      → info (insert_old cache db a j old) a ≡ some i
  unfolding insert_old
  info-insert_old db a j none i e = e
  info-insert_old db a j (some value) i e = laws.info-storage db a j value i e

  info-insert_old_other :
      (db : Db) (a j b : ℕ) (old : Option ℕ)
      → b ≢ a
      → info (insert_old cache db a j old) b ≡ info db b
  unfolding insert_old
  info-insert_old_other db a j b none ne = refl
  info-insert_old_other db a j b (some value) ne = laws.info-storage_other db a j value b ne

  pub slot-insert_slots :
      (storage : List (ℕ × Diff)) (db : Db) (a j : ℕ)
      → Distinct storage
      → slot (insert_slots cache db a storage) a j
        ≡ or_else (old_of (lookup j storage)) (slot db a j)
  unfolding insert_slots lookup
  slot-insert_slots [] db a j d = refl
  slot-insert_slots ((i, diff) ∷ storage) db a j (fresh, d) =
      let next = insert_old cache db a i (old_value diff) in
      elim (eq_or_ne j i) [
        | inl (e, p) ↦
            let gone : lookup j storage ≡ none = ap (λ k. lookup k storage) p ∙ fresh in
            rw (e, slot-insert_slots storage next a j d, gone)
              (ap (slot next a) p
                ∙ slot-insert_old db a i (old_value diff)
                ∙ ap (λ old. or_else old (slot db a i)) (old_value-old_of diff)
                ∙ ap (λ k. or_else (old_of (some diff)) (slot db a k)) (sym p))
        | inr (e, ne) ↦
            rw
              (
                e,
                slot-insert_slots storage next a j d,
                slot-insert_old_other db a i a j (old_value diff) (λ _. ne),
              )
              refl
      ]

  pub slot-insert_slots_other :
      (storage : List (ℕ × Diff)) (db : Db) (a b j : ℕ)
      → b ≢ a
      → slot (insert_slots cache db a storage) b j ≡ slot db b j
  unfolding insert_slots
  slot-insert_slots_other [] db a b j ne = refl
  slot-insert_slots_other ((i, diff) ∷ storage) db a b j ne =
      slot-insert_slots_other storage (insert_old cache db a i (old_value diff)) a b j ne
      ∙ slot-insert_old_other db a i b j (old_value diff) (λ p. absurd (ne p))

  pub info-insert_slots :
      (storage : List (ℕ × Diff)) (db : Db) (a : ℕ) (i : AccountInfo)
      → info db a ≡ some i
      → info (insert_slots cache db a storage) a ≡ some i
  unfolding insert_slots
  info-insert_slots [] db a i e = e
  info-insert_slots ((j, diff) ∷ storage) db a i e =
      info-insert_slots storage (insert_old cache db a j (old_value diff)) a i
        (info-insert_old db a j (old_value diff) i e)

  pub info-insert_slots_other :
      (storage : List (ℕ × Diff)) (db : Db) (a b : ℕ)
      → b ≢ a
      → info (insert_slots cache db a storage) b ≡ info db b
  unfolding insert_slots
  info-insert_slots_other [] db a b ne = refl
  info-insert_slots_other ((j, diff) ∷ storage) db a b ne =
      info-insert_slots_other storage (insert_old cache db a j (old_value diff)) a b ne
      ∙ info-insert_old_other db a j b (old_value diff) ne
