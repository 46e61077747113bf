-- ===== src/Simulate/Tips.antt =====
-- `sanity_check` of a sandwich whose last tip is above the base fee.
use mathlib.Core.Path.{subst}
use sando_rs.Base.{
  ℕ, ◌<◌, ◌≡◌, refl, sym, ap, ◌∙◌, false, Option, none, some, List, [], ◌∷◌, err, ltb, ◌==◌, length,
  Bool-cases, inl, inr,
}
use sando_rs.Block.{BlockInfo}
use sando_rs.Backend.Inv.{Option-cases}
use sando_rs.Simulate.{Transaction, RawIngredients, Machine, Evm, Outcome, panics, ◌>>=◌}
use sando_rs.Simulate.Outcomes.{Ensures, bind, bind_any, never, is_returned}
use sando_rs.Simulate.Queries.{setup_block_state}
use sando_rs.Simulate.Meats.{sort_by_hash, dedup}
use sando_rs.Simulate.Gone.{Gone, prepare_frontrun-Gone}
use sando_rs.Simulate.Legs.{SandwichMaker, Leg, frontrun, backrun, execute, access_list_of}
use sando_rs.Simulate.Swaps.{Frontrun, Backrun, prepare_frontrun, prepare_backrun, leg_tx}
use sando_rs.Simulate.Sanity.{
  ended, meats_of, run_meats, require_meats, close_sandwich, sanity_check,
}
use sando_rs.Simulate.Fees.{
  last_priority_fee, Fee, KeptBy, run_meats-Fee, prepare_backrun-Fee, leg_tx-Fee,
}

-- Whether some transaction sets the fee or none, the fee before matters only if none does.
last_priority_fee-any :
    (meats : List Transaction) (fee : Option ℕ) (p : ℕ)
    → last_priority_fee meats none ≡ some p
    → last_priority_fee meats fee ≡ some p
last_priority_fee-any [] fee p e = cc
last_priority_fee-any (meat ∷ meats) fee p e = elim (Option-cases meat.transaction_type) [
  | inl q ↦ rw q (last_priority_fee-any meats fee p (rw q at e))
  | inr (type, q) ↦ elim (Bool-cases (type == 0)) [
    | inl z ↦ rw (q, z) (last_priority_fee-any meats fee p (rw (q, z) at e))
    | inr z ↦ rw (q, z) (rw (q, z) at e)
  ]
]

-- A machine that does not run a transaction with a priority fee above the most that it pays, as revm.
abbrev pub RejectsTips : Machine → Type 0
RejectsTips m =
    (evm : Evm m) (fee : ℕ)
    → evm.tx.gas_priority_fee ≡ some fee
    → evm.tx.gas_price < fee
    → (e : m.EvmError) × (m.transact_ref evm.block evm.tx evm.world ≡ err e)

nothing_after :
    {m : Machine} {A B : Type 0} (x : Outcome m A) (f : A → Outcome m B)
    → Ensures (λ _. ⊥) x
    → Ensures (λ _. ⊥) (x >>= f)
nothing_after x f h = bind (λ _. ⊥) (λ _. ⊥) x f h (λ a none. absurd none)

module _ {m : Machine} (rejects : RejectsTips m) where
  access_list_of-panics :
      (evm : Evm m) (fee : ℕ)
      → evm.tx.gas_priority_fee ≡ some fee
      → evm.tx.gas_price < fee
      → access_list_of evm ≡ panics
  unfolding access_list_of
  access_list_of-panics evm fee set above =
      let (e, q) = rejects evm fee set above in rw (q, access_list_of) refl

  execute-never :
      (leg : Leg) (evm : Evm m) (fee : ℕ)
      → evm.tx.gas_priority_fee ≡ some fee
      → evm.tx.gas_price < fee
      → Ensures (λ _. ⊥) (execute leg evm)
  unfolding execute
  execute-never leg evm fee set above =
      nothing_after (access_list_of evm) _
        (subst (Ensures (λ _. ⊥)) (sym (access_list_of-panics evm fee set above)) tt)

  close_sandwich-never :
      {D : Type 0} (start : ℕ) (next_block : BlockInfo) (n : ℕ) (front : Frontrun m D) (gas : ℕ)
      (listed : List (ℕ × List ℕ)) (good_meats : List Transaction) (back : Backrun m) (fee : ℕ)
      → back.evm.tx.gas_priority_fee ≡ some fee
      → next_block.base_fee < fee
      → Ensures (λ _. ⊥) (close_sandwich start next_block n front gas listed good_meats back)
  unfolding close_sandwich
  close_sandwich-never start next_block n front gas listed good_meats back fee set above =
      let bytes = ended (ltb 1 n) back.backrun_data in
      bind
        (λ ready.
          Fee back.evm.tx.gas_priority_fee ready × (ready.tx.gas_price ≡ next_block.base_fee))
        (λ _. ⊥) (leg_tx next_block backrun n bytes back.backrun_value back.evm) _
        (leg_tx-Fee next_block backrun n bytes back.backrun_value back.evm)
        (λ ready (kept, price).
          nothing_after (execute backrun ready) _
            (execute-never backrun ready fee (kept ∙ set) (subst (λ k. k < fee) (sym price) above)))

-- On a machine that does not run a transaction whose priority fee is above the most that it pays, the
-- check of a sandwich gives no recipe where the last of the victims' transactions that is not a
-- legacy one has a priority fee above the base fee of the next block.
pub sanity_check-last_priority_fee :
    {m : Machine} {D : Type 0} (sandwich_start_balance : ℕ) (frontrun_ins : List ℕ)
    (multi_ingredients : List (RawIngredients D)) (next_block : BlockInfo) (maker : SandwichMaker)
    (evm : Evm m) (fee : ℕ)
    → RejectsTips m
    → last_priority_fee (meats_of multi_ingredients) none ≡ some fee
    → next_block.base_fee < fee
    → is_returned
        (sanity_check sandwich_start_balance frontrun_ins multi_ingredients next_block maker evm)
      ≡ false
unfolding sanity_check
sanity_check-last_priority_fee {m} {D} start ins multi next_block maker evm fee rejects last above =
    let n = length multi in
    let is_multiple = ltb 1 n in
    let first : Frontrun m D = record {
      evm = setup_block_state evm next_block;
      frontrun_data = [];
      frontrun_value = 0;
      backrun_ins = [];
      done = [];
    } in
    never (sanity_check start ins multi next_block maker evm) (
      bind (Gone next_block maker is_multiple first multi) (λ _. ⊥)
        (prepare_frontrun next_block maker is_multiple ins 0 multi first) _
        (prepare_frontrun-Gone next_block maker is_multiple ins 0 multi first)
        (λ front gone.
          let frontrun_data = ended is_multiple front.frontrun_data in
          bind_any (λ _. ⊥)
            (leg_tx next_block frontrun n frontrun_data front.frontrun_value front.evm) _
            (λ frontrun_evm.
              bind_any (λ _. ⊥) (execute frontrun frontrun_evm) _
                (λ (frontrun_gas, frontrun_list, fronted).
                  bind
                    (λ (good, next).
                      Fee (last_priority_fee (meats_of front.done) fronted.tx.gas_priority_fee)
                        next)
                    (λ _. ⊥) (run_meats (meats_of front.done) fronted) _
                    (run_meats-Fee (meats_of front.done) fronted)
                    (λ (succeeded, fed) set.
                      let good_meats = dedup m.same_transaction (sort_by_hash succeeded) in
                      let tip : fed.tx.gas_priority_fee ≡ some fee =
                        set
                        ∙ ap (λ ms. last_priority_fee ms fronted.tx.gas_priority_fee) gone.meats
                        ∙ last_priority_fee-any (meats_of multi) fronted.tx.gas_priority_fee fee
                            last in
                      bind_any (λ _. ⊥) (require_meats good_meats) _
                        (λ _.
                          bind (KeptBy (record { evm = fed; backrun_data = []; backrun_value = 0 }))
                            (λ _. ⊥)
                            (prepare_backrun next_block maker is_multiple front.backrun_ins 0
                              front.done
                              (record { evm = fed; backrun_data = []; backrun_value = 0 }))
                            _
                            (prepare_backrun-Fee next_block maker is_multiple front.backrun_ins 0
                              front.done
                              (record { evm = fed; backrun_data = []; backrun_value = 0 }))
                            (λ back kept.
                              close_sandwich-never rejects start next_block n front frontrun_gas
                                frontrun_list good_meats back fee (kept ∙ tip) above)))))))
