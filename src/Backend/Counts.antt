-- ===== src/Backend/Counts.antt =====
-- Counting keys, listeners and answers.
use mathlib.Core.Path.{ap₂}
use mathlib.Core.Bool.{true≢false}
use sando_rs.Base.{
  ℕ, zero, suc, ◌+◌, ◌≤◌, ◌<◌, ◌≡◌, refl, sym, ap, Bool, true, none, some, List, [], ◌∷◌, ◌++◌,
  length, take, ◌==◌, ==_iff, Bool-cases, inl, inr, if◌then◌else◌, arith,
}
use sando_rs.Backend.{
  Key, basic, storage, block_hash, same_key, Listeners, listeners_of, add_listener, remove,
  split_last, last_first, swap_remove,
}

-- 1 where a test holds.
abbrev pub one : Bool → ℕ
one b = if b then 1 else 0

pub same_key-eq : (k l : Key) → same_key k l ≡ true → k ≡ l
unfolding same_key
same_key-eq (basic a) (basic b) e = ap basic ((==_iff a b).0 e)
same_key-eq (storage a i) (storage b j) e =
    let p : a ≡ b = ground arith in let q : i ≡ j = ground arith in ap₂ storage p q
same_key-eq (block_hash n) (block_hash m) e = ap block_hash ((==_iff n m).0 e)
same_key-eq (basic _) (storage _ _) e = absurd (true≢false (sym e))
same_key-eq (basic _) (block_hash _) e = absurd (true≢false (sym e))
same_key-eq (storage _ _) (basic _) e = absurd (true≢false (sym e))
same_key-eq (storage _ _) (block_hash _) e = absurd (true≢false (sym e))
same_key-eq (block_hash _) (basic _) e = absurd (true≢false (sym e))
same_key-eq (block_hash _) (storage _ _) e = absurd (true≢false (sym e))

pub same_key_refl : (k : Key) → same_key k k ≡ true
unfolding same_key
same_key_refl (basic a) = (==_iff a a).1 refl
same_key_refl (storage a i) = rw ((==_iff a a).1 refl, (==_iff i i).1 refl) refl
same_key_refl (block_hash n) = (==_iff n n).1 refl

-- How often a key is among keys.
unfoldable pub keys : Key → List Key → ℕ
keys k [] = 0
keys k (l ∷ ls) = one (same_key k l) + keys k ls

pub keys-append : (k : Key) (xs ys : List Key) → keys k (xs ++ ys) ≡ keys k xs + keys k ys
unfolding keys
keys-append k [] ys = omega arith
keys-append k (x ∷ xs) ys = omega (arith, keys-append k xs ys)

-- How many entries a key has in a table, and how often a sender is among the listeners.
unfoldable pub entries : Key → Listeners → ℕ
entries k [] = 0
entries k ((l, senders) ∷ rest) = one (same_key k l) + entries k rest

unfoldable pub times : ℕ → List ℕ → ℕ
times x [] = 0
times x (y ∷ ys) = one (x == y) + times x ys

pub times-append : (x : ℕ) (ys zs : List ℕ) → times x (ys ++ zs) ≡ times x ys + times x zs
unfolding times
times-append x [] zs = omega arith
times-append x (y ∷ ys) zs = omega (arith, times-append x ys zs)

unfoldable pub waiting : ℕ → Listeners → ℕ
unfolding times
waiting x [] = 0
waiting x ((l, senders) ∷ rest) = times x senders + waiting x rest

-- A table without entries of any key is empty.
pub entries-waiting :
    (x : ℕ) (table : Listeners) → ((k : Key) → entries k table ≡ 0) → waiting x table ≡ 0
unfolding entries waiting
entries-waiting x [] h = refl
entries-waiting x ((l, senders) ∷ rest) h = absurd (omega (arith, h l, ap one (same_key_refl l)))

-- Where a key has no listeners it has no entry.
pub listeners_of-none :
    (k : Key) (table : Listeners) → listeners_of k table ≡ none → entries k table ≡ 0
unfolding listeners_of entries
listeners_of-none k [] e = refl
listeners_of-none k ((l, senders) ∷ rest) e = ground (arith, listeners_of-none k rest)

pub entries-add_listener :
    (g k : Key) (sender : ℕ) (table : Listeners)
    → entries g (add_listener k sender table) ≡ entries g table
unfolding add_listener entries
entries-add_listener g k sender [] = refl
entries-add_listener g k sender ((l, senders) ∷ rest) =
    ground (arith, entries-add_listener g k sender rest)

pub waiting-add_listener :
    (x : ℕ) (k : Key) (sender : ℕ) (table : Listeners) (senders : List ℕ)
    → listeners_of k table ≡ some senders
    → waiting x (add_listener k sender table) ≡ waiting x table + one (x == sender)
unfolding add_listener waiting listeners_of times
waiting-add_listener x k sender [] senders e = ground arith
waiting-add_listener x k sender ((l, others) ∷ rest) senders e =
    ground
      (arith, waiting-add_listener x k sender rest senders, times-append x others (sender ∷ []))

-- Removing a key that has listeners takes one entry of it away, and those listeners.
pub entries-remove :
    (g k : Key) (table : Listeners) (senders : List ℕ)
    → listeners_of k table ≡ some senders
    → entries g (remove k table) + one (same_key g k) ≡ entries g table
unfolding remove entries listeners_of
entries-remove g k [] senders e = ground arith
entries-remove g k ((l, others) ∷ rest) senders e = elim (Bool-cases (same_key k l)) [
  | inl h ↦ rw h (
      let q : one (same_key g k) ≡ one (same_key g l) =
        ap (λ m. one (same_key g m)) (same_key-eq k l h) in
      omega (arith, q))
  | inr h ↦ ground (arith, entries-remove g k rest senders)
]

pub waiting-remove :
    (x : ℕ) (k : Key) (table : Listeners) (senders : List ℕ)
    → listeners_of k table ≡ some senders
    → waiting x (remove k table) + times x senders ≡ waiting x table
unfolding remove waiting listeners_of
waiting-remove x k [] senders e = ground arith
waiting-remove x k ((l, others) ∷ rest) senders e = ground (arith, waiting-remove x k rest senders)

-- What `swap_remove` takes out of a list, with what it leaves of the elements before the index.
pub record Removed (n : ℕ) (before : List Key) (key : Key) (rest : List Key) : Type 0 where
  pub total : (g : Key) → keys g before ≡ one (same_key g key) + keys g rest
  pub front : (g : Key) → keys g (take n rest) ≡ keys g (take n before)
  pub next :
      (g : Key) → keys g (take (suc n) before) ≡ keys g (take n before) + one (same_key g key)
  pub size : length before ≡ suc (length rest)

split_last-keys :
    (g : Key) (x : Key) (xs : List Key)
    → one (same_key g (split_last x xs).0) + keys g (split_last x xs).1
      ≡ one (same_key g x) + keys g xs
unfolding split_last keys
split_last-keys g x [] = refl
split_last-keys g x (y ∷ ys) = omega (arith, split_last-keys g y ys)

split_last-length : (x : Key) (xs : List Key) → length (split_last x xs).1 ≡ length xs
unfolding split_last
split_last-length x [] = refl
split_last-length x (y ∷ ys) = ap suc (split_last-length y ys)

last_first-keys : (g : Key) (xs : List Key) → keys g (last_first xs) ≡ keys g xs
unfolding last_first keys
last_first-keys g [] = refl
last_first-keys g (x ∷ xs) = split_last-keys g x xs

last_first-length : (xs : List Key) → length (last_first xs) ≡ length xs
unfolding last_first
last_first-length [] = refl
last_first-length (x ∷ xs) = ap suc (split_last-length x xs)

pub swap_remove-Removed :
    (n : ℕ) (before : List Key)
    → n < length before
    → (key : Key) × (rest : List Key) × (swap_remove n before ≡ some (key, rest))
      × Removed n before key rest
unfolding swap_remove keys
swap_remove-Removed n [] h = absurd (omega arith)
swap_remove-Removed zero (x ∷ xs) h = (
  x,
  last_first xs,
  refl,
  record {
    total = λ g. omega (arith, last_first-keys g xs);
    front = λ g. refl;
    next = λ g. omega arith;
    size = ap suc (sym (last_first-length xs));
  },
)
swap_remove-Removed (suc n) (x ∷ xs) h =
    let (key, rest, e, r) = swap_remove-Removed n xs (omega arith) in
    (
      key,
      x ∷ rest,
      rw e refl,
      record {
        total = λ g. omega (arith, r.total g);
        front = λ g. omega (arith, r.front g);
        next = λ g. omega (arith, r.next g);
        size = ap suc r.size;
      },
    )

-- Taking no more than there are is the same with something behind.
pub take-keys :
    (g : Key) (n : ℕ) (xs ys : List Key)
    → n ≤ length xs
    → keys g (take n (xs ++ ys)) ≡ keys g (take n xs)
unfolding keys
take-keys g zero xs ys h = refl
take-keys g (suc n) [] ys h = absurd (omega arith)
take-keys g (suc n) (x ∷ xs) ys h = omega (arith, take-keys g n xs ys (omega arith))
