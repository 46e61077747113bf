-- ===== src/StateDiff/Merge.antt =====
-- The merged diffs start where the first transaction that touches an account starts.
use sando_rs.Base.{
  ℕ, ◌≡◌, refl, ap, ◌∙◌, Option, none, some, List, [], ◌∷◌, ◌++◌, ◌==◌, Bool, Bool-cases, inl, inr,
  true, false, ==_iff, if◌then◌else◌,
}
use sando_rs.StateDiff.{lookup, insert_vacant, merge_into, entries_of, get_from_txs, AccountDiff}

-- The first of two answers.
abbrev pub or_else {ℓ} : {A : Type ℓ} → Option A → Option A → Option A
or_else none other = other
or_else (some a) other = some a

or_else-none {ℓ} : {A : Type ℓ} (m : Option A) → m ≡ or_else m none
or_else-none none = refl
or_else-none (some a) = refl

or_else_assoc {ℓ} :
    {A : Type ℓ} (m n k : Option A) → or_else (or_else m n) k ≡ or_else m (or_else n k)
or_else_assoc none n k = refl
or_else_assoc (some a) n k = refl

or_else-if {ℓ} :
    {A : Type ℓ} (b : Bool) (a : A) (k : Option A)
    → or_else (if b then some a else none) k ≡ (if b then some a else k)
or_else-if true a k = refl
or_else-if false a k = refl

lookup-insert_vacant {ℓ} :
    {A : Type ℓ} (key address : ℕ) (value : A) (entries : List (ℕ × A))
    → lookup key (insert_vacant address value entries)
      ≡ or_else (lookup key entries) (if key == address then some value else none)
unfolding lookup insert_vacant
lookup-insert_vacant key address value [] = refl
lookup-insert_vacant key address value ((other, old) ∷ entries) =
    let ih = lookup-insert_vacant key address value entries in
    elim (Bool-cases (address == other)) [
      | inl e ↦ elim (Bool-cases (key == other)) [
        | inl k ↦ rw (e, k) refl
        | inr k ↦
            let apart : (key == address) ≡ false =
              ap (λ a. key == a) ((==_iff address other).0 e) ∙ k in
            rw (e, k, apart) (or_else-none (lookup key entries))
      ]
      | inr e ↦ elim (Bool-cases (key == other)) [ inl k ↦ rw (e, k) refl | inr k ↦ rw (e, k) ih ]
    ]

lookup-merge_into {ℓ} :
    {A : Type ℓ} (key : ℕ) (merged entries : List (ℕ × A))
    → lookup key (merge_into merged entries) ≡ or_else (lookup key merged) (lookup key entries)
unfolding lookup merge_into
lookup-merge_into key merged [] = or_else-none (lookup key merged)
lookup-merge_into key merged ((address, diff) ∷ entries) =
    lookup-merge_into key (insert_vacant address diff merged) entries
    ∙ ap (λ m. or_else m (lookup key entries)) (lookup-insert_vacant key address diff merged)
    ∙ or_else_assoc (lookup key merged) (if key == address then some diff else none)
        (lookup key entries)
    ∙ ap (or_else (lookup key merged)) (or_else-if (key == address) diff (lookup key entries))

lookup-append {ℓ} :
    {A : Type ℓ} (key : ℕ) (xs ys : List (ℕ × A))
    → lookup key (xs ++ ys) ≡ or_else (lookup key xs) (lookup key ys)
unfolding lookup
lookup-append key [] ys = refl
lookup-append key ((other, value) ∷ xs) ys = elim (Bool-cases (key == other)) [
  | inl k ↦ rw (k) refl
  | inr k ↦ rw (k) (lookup-append key xs ys)
]

-- The diff of an account in the first trace that has one.
unfoldable pub first_diff : ℕ → List (Option (List (ℕ × AccountDiff))) → Option AccountDiff
first_diff key [] = none
first_diff key (none ∷ traces) = first_diff key traces
first_diff key (some diffs ∷ traces) = or_else (lookup key diffs) (first_diff key traces)

first_diff-entries_of :
    (key : ℕ) (traces : List (Option (List (ℕ × AccountDiff))))
    → lookup key (entries_of traces) ≡ first_diff key traces
unfolding first_diff entries_of lookup
first_diff-entries_of key [] = refl
first_diff-entries_of key (none ∷ traces) = first_diff-entries_of key traces
first_diff-entries_of key (some diffs ∷ traces) =
    lookup-append key diffs (entries_of traces)
    ∙ ap (or_else (lookup key diffs)) (first_diff-entries_of key traces)

-- From the traces that the provider answers with, the merged diffs hold for each account the diff
-- of the first trace that has one, and nothing for any other.
pub get_from_txs-first_diff :
    (key : ℕ) (traces : List (Option (List (ℕ × AccountDiff))))
    → (merged : List (ℕ × AccountDiff)) × (get_from_txs (some traces) ≡ some merged)
      × (lookup key merged ≡ first_diff key traces)
unfolding get_from_txs
get_from_txs-first_diff key traces = (
  merge_into [] (entries_of traces),
  refl,
  lookup-merge_into key [] (entries_of traces)
      ∙ (unfold lookup in first_diff-entries_of key traces),
)
