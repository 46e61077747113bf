-- ===== src/Dust/Found.antt =====
-- What the search for dust finds.
use mathlib.Core.Path.{subst}
use mathlib.Core.Bool.{true≢false}
use mathlib.Core.List as List
use mathlib.Core.List.{Memᴰ}
use mathlib.Core.List.Memᴰ
use sando_rs.Base.{
  ℕ, zero, suc, ◌+◌, ◌-◌, ◌*◌, ◌/◌, ◌^◌, ◌≤◌, ◌<◌, ◌≡◌, ◌≢◌, ◌⊎◌, inl, inr, refl, sym, ap, ◌∙◌,
  List, [], ◌∷◌, ◌++◌, val, ◌||◌, ok, fit-val, ltb, ltb→lt, ltb→le, le→ltb, ◌==◌, ==_iff,
  Bool-cases, if◌then◌else◌, arith, true, false,
}
use sando_rs.AccessList.{contains}
use sando_rs.Constants.{weth_address}
use sando_rs.Dust.{BotState, new_state, step, insert_all, interacted, with_balance, find_all_dust}

contains-Memᴰ : (x : ℕ) (xs : List ℕ) → contains x xs ≡ true → Memᴰ x xs
unfolding contains
contains-Memᴰ x [] h = absurd (true≢false (sym h))
contains-Memᴰ x (y ∷ ys) h = elim (Bool-cases (x == y)) [
  | inl e ↦ List.Memᴰ.head ((==_iff x y).0 e)
  | inr e ↦ List.Memᴰ.tail (contains-Memᴰ x ys (ap (λ b. b || contains x ys) (sym e) ∙ h))
]

insert_one-keeps :
    (x address : ℕ) (set : List ℕ)
    → Memᴰ x set
    → Memᴰ x (if contains address set then set else address ∷ set)
insert_one-keeps x address set m = elim (Bool-cases (contains address set)) [
  | inl e ↦ rw e m
  | inr e ↦ rw e (List.Memᴰ.tail m)
]

insert_one-adds :
    (address : ℕ) (set : List ℕ)
    → Memᴰ address (if contains address set then set else address ∷ set)
insert_one-adds address set = elim (Bool-cases (contains address set)) [
  | inl e ↦ rw e (contains-Memᴰ address set e)
  | inr e ↦ rw e (List.Memᴰ.head refl)
]

insert_all-keeps : (x : ℕ) (addresses set : List ℕ) → Memᴰ x set → Memᴰ x (insert_all addresses set)
unfolding insert_all
insert_all-keeps x [] set m = m
insert_all-keeps x (address ∷ addresses) set m =
    insert_all-keeps x addresses _ (insert_one-keeps x address set m)

insert_all-adds :
    (x : ℕ) (addresses set : List ℕ) → Memᴰ x addresses → Memᴰ x (insert_all addresses set)
unfolding insert_all
insert_all-adds a _ set (List.Memᴰ.head {x} {xs} e) =
    insert_all-keeps a xs _ (
      subst (λ z. Memᴰ z (if contains x set then set else x ∷ set)) (sym e) (insert_one-adds x set))
insert_all-adds a _ set (List.Memᴰ.tail {x} {xs} m) = insert_all-adds a xs _ m

module _ (transfers receipts : (from_block to_block : ℕ) → List ℕ) (balances : ℕ → ℕ) where
  -- The tokens of all ranges from `from` on.
  collect : (from left : ℕ) → List ℕ → List ℕ
  collect from zero set = set
  collect from (suc left) set =
      collect (from + step) left
        (insert_all (transfers from (from + step) ++ receipts from (from + step)) set)

  interacted-ok :
      {E : Type 0} (from left : ℕ) (set : List ℕ)
      → from + step * left < 2 ^ 64
      → interacted {E = E}
          (λ f t. ok (transfers f t))
          (λ f t. ok (receipts f t))
          (λ a. ok (balances a))
          from
          left
          set
        ≡ val (ok (collect from left set))
  unfolding interacted collect
  interacted-ok from zero set room = refl
  interacted-ok {E} from (suc left) set room =
      rw (fit-val (2 ^ 64) (from + step) (omega (arith, room))) (
        interacted-ok {E = E} (from + step) left
          (insert_all (transfers from (from + step) ++ receipts from (from + step)) set)
          (omega (arith, room)))

  collect-keeps : (x from left : ℕ) (set : List ℕ) → Memᴰ x set → Memᴰ x (collect from left set)
  unfolding collect
  collect-keeps x from zero set m = m
  collect-keeps x from (suc left) set m =
      collect-keeps x (from + step) left _
        (insert_all-keeps x (transfers from (from + step) ++ receipts from (from + step)) set m)

  either :
      (x f t : ℕ)
      → (Memᴰ x (transfers f t)) ⊎ (Memᴰ x (receipts f t))
      → Memᴰ x (transfers f t ++ receipts f t)
  either x f t (inl m) = Memᴰ.append_left (receipts f t) m
  either x f t (inr m) = Memᴰ.append_right (transfers f t) m

  collect-Memᴰ :
      (x block from left : ℕ) (set : List ℕ)
      → ((f t : ℕ) → f ≤ block → block ≤ t → (Memᴰ x (transfers f t)) ⊎ (Memᴰ x (receipts f t)))
      → from ≤ block
      → block < from + step * left
      → Memᴰ x (collect from left set)
  unfolding collect
  collect-Memᴰ x block from zero set answers after before = absurd (omega (arith, after, before))
  collect-Memᴰ x block from (suc left) set answers after before =
      elim (Bool-cases (ltb block (from + step))) [
        | inl here ↦ collect-keeps x (from + step) left _ (
            insert_all-adds x (transfers from (from + step) ++ receipts from (from + step)) set (
              either x from (from + step) (
                answers from (from + step) after (omega (arith, ltb→lt block (from + step) here)))))
        | inr later ↦
            collect-Memᴰ x block (from + step) left _ answers (ltb→le block (from + step) later)
              (omega (arith, before))
      ]

  held : List ℕ → List ℕ
  held [] = []
  held (token ∷ tokens) = if balances token == 0 then held tokens else token ∷ held tokens

  with_balance-ok :
      {E : Type 0} (tokens : List ℕ)
      → with_balance {E = E}
          (λ f t. ok (transfers f t))
          (λ f t. ok (receipts f t))
          (λ a. ok (balances a))
          tokens
        ≡ ok (held tokens)
  unfolding with_balance held
  with_balance-ok [] = refl
  with_balance-ok {E} (token ∷ tokens) = elim (Bool-cases (balances token == 0)) [
    | inl e ↦ rw (with_balance-ok {E = E} tokens, e) refl
    | inr e ↦ rw (with_balance-ok {E = E} tokens, e) refl
  ]

  held-Memᴰ : (x : ℕ) (tokens : List ℕ) → balances x ≢ 0 → Memᴰ x tokens → Memᴰ x (held tokens)
  unfolding held
  held-Memᴰ a _ some_left (List.Memᴰ.head {x} {xs} e) = elim (Bool-cases (balances x == 0)) [
    | inl q ↦ absurd (some_left (ap balances e ∙ (==_iff (balances x) 0).0 q))
    | inr q ↦ rw q (List.Memᴰ.head e)
  ]
  held-Memᴰ a _ some_left (List.Memᴰ.tail {x} {xs} m) = elim (Bool-cases (balances x == 0)) [
    | inl q ↦ rw q (held-Memᴰ a xs some_left m)
    | inr q ↦ rw q (List.Memᴰ.tail (held-Memᴰ a xs some_left m))
  ]

  -- The contract holds some of each.
  abbrev pub AllHeld : List ℕ → Type 0
  AllHeld [] = Unit
  AllHeld (token ∷ tokens) = (0 < balances token) × AllHeld tokens

  held-AllHeld : (tokens : List ℕ) → AllHeld (held tokens)
  unfolding held
  held-AllHeld [] = tt
  held-AllHeld (token ∷ tokens) = elim (Bool-cases (balances token == 0)) [
    | inl e ↦ rw e (held-AllHeld tokens)
    | inr e ↦ rw e (ground arith, held-AllHeld tokens)
  ]

find_all_dust-held :
    {E : Type 0} (transfers receipts : (from_block to_block : ℕ) → List ℕ) (balances : ℕ → ℕ)
    (current_block start_block token block : ℕ)
    → ((f t : ℕ)
        → f ≤ block
        → block ≤ t
        → (Memᴰ token (transfers f t)) ⊎ (Memᴰ token (receipts f t)))
    → balances token ≢ 0
    → start_block ≤ block
    → block ≤ current_block
    → current_block + step < 2 ^ 64
    → (dust : List ℕ) × (find_all_dust {E = E}
          (λ f t. ok (transfers f t))
          (λ f t. ok (receipts f t))
          (λ a. ok (balances a))
          (ok current_block)
          start_block
        ≡ val (ok dust))
      × Memᴰ token dust
      × AllHeld transfers receipts balances dust
unfolding find_all_dust
find_all_dust-held {E} transfers receipts balances current_block start_block token block answers
      some_left after before room =
    let left = suc ((current_block - start_block) / step) in
    let tokens = collect transfers receipts balances start_block left [] in
    let ordered : ltb current_block start_block ≡ false = le→ltb (omega (arith, after, before)) in
    (
      held transfers receipts balances tokens,
      rw
          (
            ordered,
            interacted-ok transfers receipts balances {E = E} start_block left []
                (omega (arith, room, after, before)),
            with_balance-ok transfers receipts balances {E = E} tokens,
          )
          refl,
      held-Memᴰ transfers receipts balances token tokens some_left (
          collect-Memᴰ transfers receipts balances token block start_block left [] answers after
            (omega (arith, after, before))),
      held-AllHeld transfers receipts balances tokens,
    )

-- Where the provider answers every request, and a token has a transfer from or to the contract in
-- the logs of every range that holds some block between the start and the current one, and the
-- contract holds some of it, the state of the bot is made with the token in its dust; the contract
-- holds some of every token of the dust, and the state has the contract's balance of weth. The
-- current block leaves room for one more range in 64 bits.
pub new_state-held :
    {E : Type 0} (transfers receipts : (from_block to_block : ℕ) → List ℕ) (balances : ℕ → ℕ)
    (current_block start_block token block : ℕ)
    → ((f t : ℕ)
        → f ≤ block
        → block ≤ t
        → (Memᴰ token (transfers f t)) ⊎ (Memᴰ token (receipts f t)))
    → balances token ≢ 0
    → start_block ≤ block
    → block ≤ current_block
    → current_block + step < 2 ^ 64
    → (state : BotState) × (new_state {E = E}
          (λ f t. ok (transfers f t))
          (λ f t. ok (receipts f t))
          (λ a. ok (balances a))
          (ok current_block)
          start_block
        ≡ val (ok state))
      × Memᴰ token state.token_dust
      × AllHeld transfers receipts balances state.token_dust
      × (state.weth_balance ≡ balances weth_address)
unfolding new_state
new_state-held {E} transfers receipts balances current_block start_block token block answers
      some_left after before room =
    let (dust, e, known, all) =
      find_all_dust-held {E = E} transfers receipts balances current_block start_block token block
        answers some_left after before room in
    (
      record { token_dust = dust; weth_balance = balances weth_address },
      rw e refl,
      known,
      all,
      refl,
    )
