-- ===== src/Bundle/Sent.antt =====
-- What a bundle that is sent consists of.
use sando_rs.Base.{
  ℕ, ◌+◌, ◌*◌, ◌/◌, ◌^◌, ◌≤◌, ◌≡◌, refl, List, [], ◌∷◌, ◌++◌, map, Option, none, some, Checked, val,
  panic, ◌>>=◌, Result, ok, err, fit, add_u256, mul_u256, checked_minus, checked_div, checked_sub,
  ltb, ltb→le, Bool-cases, inl, inr, u256_bound, arith,
}
use mathlib.Core.Path.{subst}
use sando_rs.Block.{BlockInfo}
use sando_rs.Pool.{Pool}
use sando_rs.Recipe.{OptimalRecipe}
use sando_rs.Bribe.{
  SendBundleError, overpay, check_max_fee, bribe_from, calculate_bribe_for_max_fee,
}
use sando_rs.Simulate.Outcomes.{EnsuresVal, bind_val}
use sando_rs.Bundle.{
  Eip1559Request, BundleRequest, SendError, signing_error, bribe_error, Sender, question,
  construct_bundle, gas_limit_of, front_slice, back_slice, cost_of, send_signed, send_bundle,
}

-- A predicate on what is not an error.
abbrev pub Okay : {A E : Type 0} → (A → Type 0) → Result A E → Type 0
Okay P (ok a) = P a
Okay P (err _) = Unit

bind_val_with :
    {A B : Type 0} (P : A → Type 0) (Q : B → Type 0) (x : Checked A) (f : A → Checked B)
    → EnsuresVal P x
    → ((a : A) → P a → EnsuresVal Q (f a))
    → EnsuresVal Q (x >>= f)
bind_val_with P Q (val a) f h k = k a h
bind_val_with P Q panic f h k = tt

-- A bribe that is given is at least the base fee.
check_max_fee-Okay :
    (max_fee base_fee : ℕ) → Okay (λ fee. base_fee ≤ fee) (check_max_fee max_fee base_fee)
unfolding check_max_fee
check_max_fee-Okay max_fee base_fee = elim (Bool-cases (ltb max_fee base_fee)) [
  | inl e ↦ rw e tt
  | inr e ↦ rw (e, check_max_fee) (ltb→le max_fee base_fee e)
]

bribe_from-Okay :
    (draw base_fee gas : ℕ) (pools : List Pool) (left : Option ℕ)
    → EnsuresVal (Okay (λ fee. base_fee ≤ fee)) (bribe_from draw base_fee gas pools left)
unfolding bribe_from
bribe_from-Okay draw base_fee gas pools none = tt
bribe_from-Okay draw base_fee gas pools (some revenue) =
    let Q : Result ℕ SendBundleError → Type 0 = Okay (λ fee. base_fee ≤ fee) in
    bind_val Q (overpay base_fee pools revenue) _ (λ covered.
      bind_val Q (mul_u256 covered (990000000 + draw)) _ (λ share.
        bind_val Q (checked_div (share / 1000000000) gas) _
          (λ max_fee. check_max_fee-Okay max_fee base_fee)))

gas_limit_of-le : (gas_used : ℕ) → EnsuresVal (λ gas. gas_used ≤ gas) (gas_limit_of gas_used)
unfolding gas_limit_of
gas_limit_of-le gas_used = elim (Bool-cases (ltb (gas_used * 10) u256_bound)) [
  | inl e ↦ rw e (omega arith)
  | inr e ↦ rw e tt
]

module _ {W Transaction AccountDiff : Type 0} (sender : Sender W Transaction)
    (recipe : OptimalRecipe Transaction AccountDiff) (target_block : BlockInfo) where
  calculate_bribe-Okay :
      (draw : ℕ)
      → EnsuresVal
          (Okay (λ fee. target_block.base_fee ≤ fee))
          (calculate_bribe_for_max_fee draw recipe target_block)
  unfolding calculate_bribe_for_max_fee
  calculate_bribe-Okay draw =
      bind_val (Okay (λ fee. target_block.base_fee ≤ fee))
        (mul_u256 recipe.frontrun_gas_used target_block.base_fee) _
        (λ fee.
          bribe_from-Okay draw target_block.base_fee recipe.backrun_gas_used recipe.target_pools
            (checked_sub recipe.revenue fee))

  -- The frontrun's request, and the backrun's.
  pub record Front (front : Eip1559Request) : Type 0 where
    pub goes_to : front.to ≡ sender.sandwich_address
    pub carries : front.request_data ≡ recipe.frontrun_data
    pub pays : front.max_fee_per_gas ≡ target_block.base_fee
    pub nonce : front.nonce ≡ sender.nonce
    pub enough : recipe.frontrun_gas_used ≤ front.gas

  pub record Back (back : Eip1559Request) : Type 0 where
    pub goes_to : back.to ≡ sender.sandwich_address
    pub carries : back.request_data ≡ recipe.backrun_data
    pub pays : target_block.base_fee ≤ back.max_fee_per_gas
    pub nonce : back.nonce ≡ sender.nonce + 1
    pub enough : recipe.backrun_gas_used ≤ back.gas

  front_slice-Front : EnsuresVal Front (front_slice sender recipe target_block)
  unfolding front_slice
  front_slice-Front =
      bind_val_with (λ gas. recipe.frontrun_gas_used ≤ gas) Front
        (gas_limit_of recipe.frontrun_gas_used) _ (gas_limit_of-le recipe.frontrun_gas_used)
        (λ gas h. record { goes_to = refl; carries = refl; pays = refl; nonce = refl; enough = h })

  add_u256-eq : (a b : ℕ) → EnsuresVal (λ c. c ≡ a + b) (add_u256 a b)
  add_u256-eq a b = elim (Bool-cases (ltb (a + b) u256_bound)) [
    | inl e ↦ rw e refl
    | inr e ↦ rw e tt
  ]

  back_slice-Back :
      (max_fee : ℕ)
      → target_block.base_fee ≤ max_fee
      → EnsuresVal Back (back_slice sender recipe target_block max_fee)
  unfolding back_slice
  back_slice-Back max_fee high =
      bind_val_with (λ gas. recipe.backrun_gas_used ≤ gas) Back
        (gas_limit_of recipe.backrun_gas_used) _ (gas_limit_of-le recipe.backrun_gas_used)
        (λ gas h.
          bind_val_with (λ nonce. nonce ≡ sender.nonce + 1) Back (add_u256 sender.nonce 1) _
            (add_u256-eq sender.nonce 1)
            (λ nonce k. record {
              goes_to = refl;
              carries = refl;
              pays = high;
              nonce = k;
              enough = h;
            }))

  -- What is sent: one bundle to every relay, for the target block, of the signed frontrun, the
  -- victims' transactions in their order, and the signed backrun.
  pub record Sent (sent : List (ℕ × BundleRequest)) : Type 0 where
    pub front : Eip1559Request
    pub back : Eip1559Request
    pub raw_front : List ℕ
    pub raw_back : List ℕ
    pub bundle : BundleRequest
    pub front_is : Front front
    pub back_is : Back back
    pub front_signed : sender.sign_eip1559 front ≡ ok raw_front
    pub back_signed : sender.sign_eip1559 back ≡ ok raw_back
    pub delivered : sent ≡ map (λ relay. (relay, bundle)) sender.relays
    pub holds : bundle.transactions ≡ raw_front ∷ (map sender.rlp recipe.meats ++ raw_back ∷ [])
    pub aims : bundle.block ≡ target_block.number

  construct_bundle-eq :
      (txs : List (List ℕ)) (number timestamp : ℕ)
      → EnsuresVal
          (λ bundle. (bundle.transactions ≡ txs) × (bundle.block ≡ number))
          (construct_bundle txs number timestamp)
  unfolding construct_bundle
  construct_bundle-eq txs number timestamp =
      bind_val (λ bundle. (bundle.transactions ≡ txs) × (bundle.block ≡ number))
        (checked_minus number 1) _ (λ before. (refl, refl))

  -- The rest of a computation after `?`.
  after_question :
      {A B F G : Type 0} (Q : B → Type 0) (f : F → G) (r : Result A F)
      (k : A → Checked (Result B G))
      → ((a : A) → r ≡ ok a → EnsuresVal (Okay Q) (k a))
      → EnsuresVal (Okay Q) (question f r k)
  after_question Q f (ok a) k h = h a refl
  after_question Q f (err e) k h = tt

  send_bundle-EnsuresSent :
      (draw : ℕ) → EnsuresVal (Okay Sent) (send_bundle sender recipe target_block draw)
  unfolding send_bundle send_signed
  send_bundle-EnsuresSent draw =
      let R : Result (List (ℕ × BundleRequest)) (SendError W) → Type 0 = Okay Sent in
      bind_val_with Front R (front_slice sender recipe target_block) _ front_slice-Front
        (λ front front_is.
          after_question Sent signing_error (sender.sign_eip1559 front) _ (λ raw_front front_signed.
            bind_val_with (Okay (λ fee. target_block.base_fee ≤ fee)) R
              (calculate_bribe_for_max_fee draw recipe target_block) _ (calculate_bribe-Okay draw)
              (λ bribe high. after_question Sent bribe_error bribe _ (λ max_fee paid.
                bind_val_with Back R (back_slice sender recipe target_block max_fee) _
                  (back_slice-Back max_fee
                    (subst (Okay (λ fee. target_block.base_fee ≤ fee)) paid high))
                  (λ back back_is.
                    after_question Sent signing_error (sender.sign_eip1559 back) _
                      (λ raw_back back_signed.
                        let txs = raw_front ∷ (map sender.rlp recipe.meats ++ raw_back ∷ []) in
                        bind_val R (fit (2 ^ 64) target_block.timestamp) _ (λ timestamp.
                          bind_val_with
                            (λ bundle.
                              (bundle.transactions ≡ txs) × (bundle.block ≡ target_block.number))
                            R (construct_bundle txs target_block.number timestamp) _
                            (construct_bundle-eq txs target_block.number timestamp)
                            (λ bundle (holds, aims).
                              bind_val R (cost_of sender recipe target_block max_fee) _ (λ cost.
                                record {
                                  front = front;
                                  back = back;
                                  raw_front = raw_front;
                                  raw_back = raw_back;
                                  bundle = bundle;
                                  front_is = front_is;
                                  back_is = back_is;
                                  front_signed = front_signed;
                                  back_signed = back_signed;
                                  delivered = refl;
                                  holds = holds;
                                  aims = aims;
                                })))))))))

  -- What `send_bundle` sends goes to every relay as one bundle for the target block, of the signed
  -- frontrun, the recipe's victims' transactions in their order, and the signed backrun: the frontrun
  -- has the nonce of the wallet and pays the base fee, the backrun has the next nonce and pays at
  -- least the base fee, and the gas limits are at least the gas used.
  pub send_bundle-Sent :
      (draw : ℕ) (sent : List (ℕ × BundleRequest))
      → send_bundle sender recipe target_block draw ≡ val (ok sent)
      → Sent sent
  send_bundle-Sent draw sent e = subst (EnsuresVal (Okay Sent)) e (send_bundle-EnsuresSent draw)
