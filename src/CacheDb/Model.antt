-- ===== src/CacheDb/Model.antt =====
-- A cache of functions, which has the documented behaviour.
use sando_rs.Base.{ℕ, ◌≡◌, ◌≢◌, refl, Option, none, some, ◌&&◌, ◌==◌, ==_iff, if◌then◌else◌, arith}
use sando_rs.CacheDb.{AccountInfo, CacheDb, CacheLaws}

pub record Tables : Type 0 where
  pub info : ℕ → Option AccountInfo
  pub slot : ℕ → ℕ → Option ℕ
  pub hash : ℕ → Option ℕ

abbrev empty_account : AccountInfo
empty_account = record { balance = 0; nonce = 0; code = none; code_hash = 0 }

abbrev or_empty : Option AccountInfo → AccountInfo
or_empty none = empty_account
or_empty (some i) = i

abbrev pub tables : CacheDb
tables = record {
  Db = Tables;
  info = λ db. db.info;
  slot = λ db. db.slot;
  hash = λ db. db.hash;
  insert_contract = λ i. i;
  not_existing = empty_account;
  code_by_hash = λ db h. none;
  insert_account_info = λ db a i. record db { info = λ b. if b == a then some i else db.info b };
  insert_account_storage = λ db a j value. record db {
    info = λ b. if b == a then some (or_empty (db.info a)) else db.info b;
    slot = λ b k. if (b == a) && (k == j) then some value else db.slot b k;
  };
  insert_block_hash =
      λ db n value. record db { hash = λ m. if m == n then some value else db.hash m };
  Changes = Tables;
  commit = λ db changes. changes;
}

-- The cache in which nothing is.
abbrev pub no_tables : Tables
no_tables = record { info = λ a. none; slot = λ a j. none; hash = λ n. none }

same : {A : Type 0} (a : ℕ) (x y : A) → (if a == a then x else y) ≡ x
same a x y = rw ((==_iff a a).1 refl) refl

other : {A : Type 0} (b a : ℕ) (x y : A) → b ≢ a → (if b == a then x else y) ≡ y
other b a x y h = ground arith

other_slot :
    {A : Type 0} (b a k j : ℕ) (x y : A)
    → (b ≡ a → k ≢ j)
    → (if (b == a) && (k == j) then x else y) ≡ y
other_slot b a k j x y h = ground arith

pub tables-CacheLaws : CacheLaws tables
tables-CacheLaws = record {
  info-info_self = λ db a i. same a _ _;
  info-info_other = λ db a b i h. other b a _ _ h;
  slot-info = λ db a b j i. refl;
  hash-info = λ db a n i. refl;
  slot-storage_self = λ db a j value. rw ((==_iff a a).1 refl, (==_iff j j).1 refl) refl;
  slot-storage_other = λ db a j value b k h. other_slot b a k j _ _ h;
  info-storage = λ db a j value i h. rw ((==_iff a a).1 refl, h) refl;
  info-storage_absent = λ db a j value h. rw ((==_iff a a).1 refl, h) refl;
  info-storage_other = λ db a j value b h. other b a _ _ h;
  hash-storage = λ db a j value n. refl;
  hash-hash_self = λ db n value. same n _ _;
  hash-hash_other = λ db n value m h. other m n _ _ h;
  info-hash = λ db n value b. refl;
  slot-hash = λ db n value b j. refl;
}
