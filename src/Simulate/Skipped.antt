-- ===== src/Simulate/Skipped.antt =====
-- What becomes of an input that the contract's encoding makes zero.
use sando_rs.Base.{
  ℕ, zero, suc, ◌+◌, ◌≤◌, ◌<◌, ◌≡◌, sym, ap, ◌∙◌, Bool, false, some, List, [], ◌∷◌, unwrap,
  add_u256, get_elem?, length, length-append, ltb, ◌==◌, Bool-cases, inl, inr, arith,
}
use sando_rs.Backend.Inv.{Option-cases}
use sando_rs.Recipe.{OptimalRecipe}
use sando_rs.Block.{BlockInfo}
use sando_rs.Swap.{encode_weth, weth_encode_divisor}
use sando_rs.Swap.Rounding.{encode_weth-zero}
use sando_rs.Simulate.{Transaction, RawIngredients, Machine, Evm, lift}
use sando_rs.Simulate.Outcomes.{is_returned, Ensures, bind, bind_any, constant, weaken, never}
use sando_rs.Simulate.Queries.{setup_block_state, get_balance_of_evm}
use sando_rs.Simulate.Meats.{sort_by_hash, dedup}
use sando_rs.Simulate.Legs.{SandwichMaker, frontrun, frontrun_out_of, frontrun_payload, execute}
use sando_rs.Simulate.Swaps.{
  Frontrun, Backrun, priced, mark_dust, frontrun_swap, frontrun_step, prepare_frontrun,
  backrun_swap, prepare_backrun, leg_tx,
}
use sando_rs.Simulate.Sanity.{ended, meats_of, run_meats, require_meats, sanity_check}

elem_length : {A : Type 0} (xs : List A) (i : ℕ) (a : A) → get_elem? xs i ≡ some a → i < length xs
elem_length [] i a e = absurd (ground arith)
elem_length (x ∷ xs) zero a e = omega arith
elem_length (x ∷ xs) (suc i) a e = omega (arith, elem_length xs i a e)

unwrap-length :
    (m : Machine) {A : Type 0} (xs : List A) (i : ℕ)
    → Ensures {m = m} (λ _. i < length xs) (lift (unwrap (get_elem? xs i)))
unwrap-length m xs i = elim (Option-cases (get_elem? xs i)) [
  | inl e ↦ rw e tt
  | inr (a, e) ↦ rw e (elem_length xs i a e)
]

module _ {m : Machine} {D : Type 0} (next_block : BlockInfo) (maker : SandwichMaker)
    (is_multiple : Bool) where
  -- The backrun's loop only returns where there is an amount for each of the ingredients.
  backrun_swap-length :
      (ins : List ℕ) (index : ℕ) (ingredients : RawIngredients D) (s : Backrun m)
      → Ensures
          (λ _. index < length ins)
          (backrun_swap next_block maker is_multiple ins index ingredients s)
  unfolding backrun_swap
  backrun_swap-length ins index ingredients s =
      bind (λ _. index < length ins) (λ _. index < length ins) (lift (unwrap (get_elem? ins index)))
        _ (unwrap-length m ins index) (λ amount h. constant (index < length ins) _ h)

  prepare_backrun-length :
      (ins : List ℕ) (index : ℕ) (ingredients : List (RawIngredients D)) (s : Backrun m)
      → index ≤ length ins
      → Ensures
          (λ _. index + length ingredients ≤ length ins)
          (prepare_backrun next_block maker is_multiple ins index ingredients s)
  unfolding prepare_backrun
  prepare_backrun-length ins index [] s h = omega arith
  prepare_backrun-length ins index (first ∷ rest) s h =
      bind (λ _. index < length ins) (λ _. index + suc (length rest) ≤ length ins)
        (backrun_swap next_block maker is_multiple ins index first s) _
        (backrun_swap-length ins index first s)
        (λ t k.
          weaken (λ _. suc index + length rest ≤ length ins)
            (λ _. index + suc (length rest) ≤ length ins) (λ _ q. omega arith)
            (prepare_backrun next_block maker is_multiple ins (suc index) rest t)
            (prepare_backrun-length ins (suc index) rest t (omega arith)))

  -- How far the frontrun's loop has come: all ingredients gone through, and amounts for some of them.
  record Counted (s : Frontrun m D) (count amounts : ℕ) (t : Frontrun m D) : Type 0 where
    pub gone : length t.done ≡ length s.done + count
    pub got : length t.backrun_ins ≤ length s.backrun_ins + amounts

  frontrun_swap-Counted :
      (is_first : Bool) (frontrun_in : ℕ) (ingredients : RawIngredients D) (s : Frontrun m D)
      → Ensures
          (Counted s 1 1)
          (frontrun_swap next_block maker is_multiple is_first frontrun_in ingredients s)
  unfolding frontrun_swap
  frontrun_swap-Counted is_first frontrun_in ingredients s =
      let variant = ingredients.target_pool.pool_variant in
      let token_in = ingredients.startend_token in
      let token_out = ingredients.intermediary_token in
      bind_any (Counted s 1 1)
        (get_balance_of_evm token_out m.sandwich_contract next_block (priced next_block s.evm)) _
        (λ (balance, asked).
          let marked = mark_dust balance ingredients in
          bind_any (Counted s 1 1)
            (frontrun_out_of asked variant frontrun_in marked.target_pool token_in token_out) _
            (λ (out, quoted).
              bind_any (Counted s 1 1)
                (frontrun_payload maker variant is_multiple is_first next_block.number frontrun_in
                  out token_in token_out marked.target_pool)
                _
                (λ (bytes, value).
                  bind_any (Counted s 1 1) (lift (add_u256 s.frontrun_value value)) _ (λ total.
                    record {
                      gone = length-append s.done (marked ∷ []);
                      got = omega (arith, length-append s.backrun_ins (out ∷ []));
                    }))))

  frontrun_step-Counted :
      (ins : List ℕ) (index : ℕ) (ingredients : RawIngredients D) (s : Frontrun m D)
      → Ensures (Counted s 1 1) (frontrun_step next_block maker is_multiple ins index ingredients s)
  unfolding frontrun_step
  frontrun_step-Counted ins index ingredients s =
      bind_any (Counted s 1 1) (lift (unwrap (get_elem? ins index))) _ (λ amount.
        bind_any (Counted s 1 1) (lift (encode_weth amount)) _ (λ frontrun_in.
          elim (Bool-cases (frontrun_in == 0)) [
            | inl z ↦
                rw z (record { gone = length-append s.done (ingredients ∷ []); got = omega arith })
            | inr z ↦ rw z (frontrun_swap-Counted (index == 0) frontrun_in ingredients s)
          ]))

  -- An input below the divisor is passed over.
  frontrun_step-skips :
      (ins : List ℕ) (index amount : ℕ) (ingredients : RawIngredients D) (s : Frontrun m D)
      → get_elem? ins index ≡ some amount
      → amount < weth_encode_divisor
      → Ensures (Counted s 1 0) (frontrun_step next_block maker is_multiple ins index ingredients s)
  unfolding frontrun_step
  frontrun_step-skips ins index amount ingredients s e h =
      rw (e, encode_weth-zero amount h)
        (record { gone = length-append s.done (ingredients ∷ []); got = omega arith })

  prepare_frontrun-Counted :
      (ins : List ℕ) (index : ℕ) (ingredients : List (RawIngredients D)) (s : Frontrun m D)
      → Ensures
          (Counted s (length ingredients) (length ingredients))
          (prepare_frontrun next_block maker is_multiple ins index ingredients s)
  unfolding prepare_frontrun
  prepare_frontrun-Counted ins index [] s = record { gone = omega arith; got = omega arith }
  prepare_frontrun-Counted ins index (first ∷ rest) s =
      bind (Counted s 1 1) (Counted s (suc (length rest)) (suc (length rest)))
        (frontrun_step next_block maker is_multiple ins index first s) _
        (frontrun_step-Counted ins index first s)
        (λ t c.
          weaken (Counted t (length rest) (length rest))
            (Counted s (suc (length rest)) (suc (length rest)))
            (λ u d. record {
              gone = omega (arith, c.gone, d.gone);
              got = omega (arith, c.got, d.got);
            })
            (prepare_frontrun next_block maker is_multiple ins (suc index) rest t)
            (prepare_frontrun-Counted ins (suc index) rest t))

  -- Where one of the inputs is below the divisor, there are fewer amounts than ingredients.
  prepare_frontrun-skips :
      (ins : List ℕ) (index j amount : ℕ) (ingredients : List (RawIngredients D)) (s : Frontrun m D)
      → j < length ingredients
      → get_elem? ins (index + j) ≡ some amount
      → amount < weth_encode_divisor
      → Ensures
          (λ t.
            (length t.done ≡ length s.done + length ingredients)
            × (length t.backrun_ins < length s.backrun_ins + length ingredients))
          (prepare_frontrun next_block maker is_multiple ins index ingredients s)
  unfolding prepare_frontrun
  prepare_frontrun-skips ins index j amount [] s l e h = absurd (omega arith)
  prepare_frontrun-skips ins index zero amount (first ∷ rest) s l e h =
      let here : index ≡ index + 0 = omega arith in
      bind (Counted s 1 0) _ (frontrun_step next_block maker is_multiple ins index first s) _
        (frontrun_step-skips ins index amount first s (ap (get_elem? ins) here ∙ e) h)
        (λ t c.
          weaken (Counted t (length rest) (length rest)) _
            (λ u d. (omega (arith, c.gone, d.gone), omega (arith, c.got, d.got)))
            (prepare_frontrun next_block maker is_multiple ins (suc index) rest t)
            (prepare_frontrun-Counted ins (suc index) rest t))
  prepare_frontrun-skips ins index (suc j) amount (first ∷ rest) s l e h =
      let moved : index + suc j ≡ suc index + j = omega arith in
      bind (Counted s 1 1) _ (frontrun_step next_block maker is_multiple ins index first s) _
        (frontrun_step-Counted ins index first s)
        (λ t c.
          weaken
            (λ u.
              (length u.done ≡ length t.done + length rest)
              × (length u.backrun_ins < length t.backrun_ins + length rest))
            _ (λ u (p, q). (omega (arith, c.gone, p), omega (arith, c.got, q)))
            (prepare_frontrun next_block maker is_multiple ins (suc index) rest t)
            (prepare_frontrun-skips ins (suc index) j amount rest t (omega arith)
              (sym (ap (get_elem? ins) moved) ∙ e) h))

-- Where one of the inputs is below the unit of the contract's encoding of weth, the check of the
-- sandwich never gives a recipe: it fails, or it panics at the index of an amount that is missing.
pub sanity_check-input_below_unit :
    {m : Machine} {D : Type 0} (sandwich_start_balance : ℕ) (frontrun_ins : List ℕ)
    (multi_ingredients : List (RawIngredients D)) (next_block : BlockInfo) (maker : SandwichMaker)
    (evm : Evm m) (j amount : ℕ)
    → j < length multi_ingredients
    → get_elem? frontrun_ins j ≡ some amount
    → amount < weth_encode_divisor
    → is_returned
        (sanity_check sandwich_start_balance frontrun_ins multi_ingredients next_block maker evm)
      ≡ false
unfolding sanity_check
sanity_check-input_below_unit {m} {D} start ins multi next_block maker evm j amount l e h =
    let n = length multi in
    let is_multiple = ltb 1 n in
    let first : Frontrun m D = record {
      evm = setup_block_state evm next_block;
      frontrun_data = [];
      frontrun_value = 0;
      backrun_ins = [];
      done = [];
    } in
    let none_before : 0 + j ≡ j = omega arith in
    let Nothing : OptimalRecipe Transaction D → Type 0 = λ _. ⊥ in
    never (sanity_check start ins multi next_block maker evm) (
      bind (λ front. (length front.done ≡ 0 + n) × (length front.backrun_ins < 0 + n)) Nothing
        (prepare_frontrun next_block maker is_multiple ins 0 multi first) _
        (prepare_frontrun-skips next_block maker is_multiple ins 0 j amount multi first l
          (ap (get_elem? ins) none_before ∙ e) h)
        (λ front (p, q).
          bind_any Nothing
            (leg_tx next_block frontrun n (ended is_multiple front.frontrun_data)
              front.frontrun_value front.evm)
            _
            (λ frontrun_evm.
              bind_any Nothing (execute frontrun frontrun_evm) _ (λ (gas, listed, fronted).
                bind_any Nothing (run_meats (meats_of front.done) fronted) _ (λ (succeeded, fed).
                  bind_any Nothing
                    (require_meats (dedup m.same_transaction (sort_by_hash succeeded))) _
                    (λ _.
                      let fresh : Backrun m = record {
                        evm = fed;
                        backrun_data = [];
                        backrun_value = 0;
                      } in
                      bind (λ _. ⊥) Nothing
                        (prepare_backrun next_block maker is_multiple front.backrun_ins 0 front.done
                          fresh)
                        _
                        (weaken (λ _. 0 + length front.done ≤ length front.backrun_ins) (λ _. ⊥)
                          (λ _ r. omega (arith, p, q, r))
                          (prepare_backrun next_block maker is_multiple front.backrun_ins 0
                            front.done fresh)
                          (prepare_backrun-length next_block maker is_multiple front.backrun_ins 0
                            front.done fresh (omega arith)))
                        (λ back r. absurd r)))))))
