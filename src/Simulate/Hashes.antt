-- ===== src/Simulate/Hashes.antt =====
-- The victims' transactions in the order of their hashes.
use sando_rs.Base.{◌≤◌, Bool, List, [], ◌∷◌, leb, leb→le, leb→lt, Bool-cases, inl, inr, arith}
use sando_rs.Simulate.{Transaction}
use sando_rs.Simulate.Meats.{insert_by_hash, sort_by_hash, dedup_after, dedup}

-- That all transactions of a list have a property.
abbrev pub AllOf : (Transaction → Type 0) → List Transaction → Type 0
AllOf P [] = Unit
AllOf P (t ∷ ts) = P t × AllOf P ts

-- That the hashes do not decrease.
abbrev pub HashOrdered : List Transaction → Type 0
HashOrdered [] = Unit
HashOrdered (t ∷ ts) = AllOf (λ u. t.hash ≤ u.hash) ts × HashOrdered ts

pub AllOf-map :
    (P Q : Transaction → Type 0)
    → ((t : Transaction) → P t → Q t)
    → (ts : List Transaction) → AllOf P ts
    → AllOf Q ts
AllOf-map P Q f [] h = tt
AllOf-map P Q f (t ∷ ts) (p, h) = (f t p, AllOf-map P Q f ts h)

AllOf-insert :
    (P : Transaction → Type 0) (t : Transaction) (ts : List Transaction)
    → P t
    → AllOf P ts
    → AllOf P (insert_by_hash t ts)
unfolding insert_by_hash
AllOf-insert P t [] p h = (p, tt)
AllOf-insert P t (u ∷ us) p (q, h) = elim (Bool-cases (leb t.hash u.hash)) [
  | inl e ↦ rw e (p, (q, h))
  | inr e ↦ rw e (q, AllOf-insert P t us p h)
]

pub AllOf-sort :
    (P : Transaction → Type 0) (ts : List Transaction) → AllOf P ts → AllOf P (sort_by_hash ts)
unfolding sort_by_hash
AllOf-sort P [] h = tt
AllOf-sort P (t ∷ ts) (p, h) = AllOf-insert P t (sort_by_hash ts) p (AllOf-sort P ts h)

insert_by_hash-HashOrdered :
    (t : Transaction) (ts : List Transaction) → HashOrdered ts → HashOrdered (insert_by_hash t ts)
unfolding insert_by_hash
insert_by_hash-HashOrdered t [] h = (tt, tt)
insert_by_hash-HashOrdered t (u ∷ us) (b, h) = elim (Bool-cases (leb t.hash u.hash)) [
  | inl e ↦
      let le = leb→le t.hash u.hash e in
      rw e (
        (le, AllOf-map (λ v. u.hash ≤ v.hash) (λ v. t.hash ≤ v.hash) (λ v q. omega arith) us b),
        (b, h),
      )
  | inr e ↦
      let lt = leb→lt t.hash u.hash e in
      let le : u.hash ≤ t.hash = omega arith in
      rw e (AllOf-insert (λ v. u.hash ≤ v.hash) t us le b, insert_by_hash-HashOrdered t us h)
]

pub sort_by_hash-HashOrdered : (ts : List Transaction) → HashOrdered (sort_by_hash ts)
unfolding sort_by_hash
sort_by_hash-HashOrdered [] = tt
sort_by_hash-HashOrdered (t ∷ ts) =
    insert_by_hash-HashOrdered t (sort_by_hash ts) (sort_by_hash-HashOrdered ts)

module _ (same : Transaction → Transaction → Bool) where
  AllOf-dedup_after :
      (P : Transaction → Type 0) (t : Transaction) (ts : List Transaction)
      → AllOf P ts
      → AllOf P (dedup_after same t ts)
  unfolding dedup_after
  AllOf-dedup_after P t [] h = tt
  AllOf-dedup_after P t (u ∷ us) (p, h) = elim (Bool-cases (same t u)) [
    | inl e ↦ rw e (AllOf-dedup_after P t us h)
    | inr e ↦ rw e (p, AllOf-dedup_after P u us h)
  ]

  pub AllOf-dedup :
      (P : Transaction → Type 0) (ts : List Transaction) → AllOf P ts → AllOf P (dedup same ts)
  unfolding dedup
  AllOf-dedup P [] h = tt
  AllOf-dedup P (t ∷ ts) (p, h) = (p, AllOf-dedup_after P t ts h)

  dedup_after-HashOrdered :
      (t : Transaction) (ts : List Transaction)
      → HashOrdered ts
      → HashOrdered (dedup_after same t ts)
  unfolding dedup_after
  dedup_after-HashOrdered t [] h = tt
  dedup_after-HashOrdered t (u ∷ us) (b, h) = elim (Bool-cases (same t u)) [
    | inl e ↦ rw e (dedup_after-HashOrdered t us h)
    | inr e ↦ rw e (AllOf-dedup_after (λ v. u.hash ≤ v.hash) u us b, dedup_after-HashOrdered u us h)
  ]

  pub dedup-HashOrdered : (ts : List Transaction) → HashOrdered ts → HashOrdered (dedup same ts)
  unfolding dedup
  dedup-HashOrdered [] h = tt
  dedup-HashOrdered (t ∷ ts) (b, h) =
      (AllOf-dedup_after (λ v. t.hash ≤ v.hash) t ts b, dedup_after-HashOrdered t ts h)
