-- ===== src/Simulate/Gone.antt =====
-- The ingredients that the frontrun's loop has gone through.
use sando_rs.Base.{
  ℕ, suc, ◌≡◌, refl, sym, ap, ◌∙◌, Bool, List, [], ◌∷◌, ◌++◌, unwrap, add_u256, get_elem?, ltb,
  ◌==◌, Bool-cases, inl, inr,
}
use sando_rs.Block.{BlockInfo}
use sando_rs.Swap.{encode_weth}
use sando_rs.Simulate.{RawIngredients, Machine, lift}
use sando_rs.Simulate.Outcomes.{Ensures, bind, bind_any, weaken}
use sando_rs.Simulate.Queries.{get_balance_of_evm}
use sando_rs.Simulate.Legs.{SandwichMaker, frontrun_out_of, frontrun_payload}
use sando_rs.Simulate.Swaps.{
  Frontrun, priced, mark_dust, frontrun_swap, frontrun_step, prepare_frontrun,
}
use sando_rs.Simulate.Sanity.{meats_of}

append_assoc : {A : Type 0} (xs ys zs : List A) → (xs ++ ys) ++ zs ≡ xs ++ (ys ++ zs)
append_assoc [] ys zs = refl
append_assoc (x ∷ xs) ys zs = ap (◌∷◌ x) (append_assoc xs ys zs)

append_nil : {A : Type 0} (xs : List A) → xs ++ [] ≡ xs
append_nil [] = refl
append_nil (x ∷ xs) = ap (◌∷◌ x) (append_nil xs)

abbrev pub addresses : {D : Type 0} → List (RawIngredients D) → List ℕ
addresses [] = []
addresses (i ∷ is) = i.target_pool.address ∷ addresses is

addresses-append :
    {D : Type 0} (xs ys : List (RawIngredients D))
    → addresses (xs ++ ys) ≡ addresses xs ++ addresses ys
addresses-append [] ys = refl
addresses-append (x ∷ xs) ys = ap (◌∷◌ x.target_pool.address) (addresses-append xs ys)

meats_of-append :
    {D : Type 0} (xs ys : List (RawIngredients D))
    → meats_of (xs ++ ys) ≡ meats_of xs ++ meats_of ys
meats_of-append [] ys = refl
meats_of-append (x ∷ xs) ys =
    ap (λ l. x.meats ++ l) (meats_of-append xs ys)
    ∙ sym (append_assoc x.meats (meats_of xs) (meats_of ys))

mark_dust-same :
    {D : Type 0} (balance : ℕ) (i : RawIngredients D)
    → ((mark_dust balance i).meats ≡ i.meats)
      × ((mark_dust balance i).target_pool.address ≡ i.target_pool.address)
unfolding mark_dust
mark_dust-same balance i = elim (Bool-cases (ltb 0 balance)) [
  | inl e ↦ rw e (refl, refl)
  | inr e ↦ rw e (refl, refl)
]

module _ {m : Machine} {D : Type 0} (next_block : BlockInfo) (maker : SandwichMaker)
    (is_multiple : Bool) where
  -- The ingredients gone through keep their transactions and pools.
  pub record Gone (s : Frontrun m D) (ingredients : List (RawIngredients D)) (t : Frontrun m D)
      : Type 0 where
    pub meats : meats_of t.done ≡ meats_of s.done ++ meats_of ingredients
    pub pools : addresses t.done ≡ addresses s.done ++ addresses ingredients

  frontrun_swap-Gone :
      (is_first : Bool) (frontrun_in : ℕ) (ingredients : RawIngredients D) (s : Frontrun m D)
      → Ensures
          (Gone s (ingredients ∷ []))
          (frontrun_swap next_block maker is_multiple is_first frontrun_in ingredients s)
  unfolding frontrun_swap
  frontrun_swap-Gone is_first frontrun_in ingredients s =
      let variant = ingredients.target_pool.pool_variant in
      let token_in = ingredients.startend_token in
      let token_out = ingredients.intermediary_token in
      let G = Gone s (ingredients ∷ []) in
      bind_any G
        (get_balance_of_evm token_out m.sandwich_contract next_block (priced next_block s.evm)) _
        (λ (balance, asked).
          let marked = mark_dust balance ingredients in
          bind_any G
            (frontrun_out_of asked variant frontrun_in marked.target_pool token_in token_out) _
            (λ (out, quoted).
              bind_any G
                (frontrun_payload maker variant is_multiple is_first next_block.number frontrun_in
                  out token_in token_out marked.target_pool)
                _
                (λ (bytes, value). bind_any G (lift (add_u256 s.frontrun_value value)) _ (λ total.
                  let (same_meats, same_pool) = mark_dust-same balance ingredients in
                  record {
                    meats =
                        meats_of-append s.done (marked ∷ [])
                        ∙ ap (λ l. meats_of s.done ++ (l ++ [])) same_meats;
                    pools =
                        addresses-append s.done (marked ∷ [])
                        ∙ ap (λ a. addresses s.done ++ (a ∷ [])) same_pool;
                  }))))

  frontrun_step-Gone :
      (ins : List ℕ) (index : ℕ) (ingredients : RawIngredients D) (s : Frontrun m D)
      → Ensures
          (Gone s (ingredients ∷ []))
          (frontrun_step next_block maker is_multiple ins index ingredients s)
  unfolding frontrun_step
  frontrun_step-Gone ins index ingredients s =
      let G = Gone s (ingredients ∷ []) in
      bind_any G (lift (unwrap (get_elem? ins index))) _ (λ amount.
        bind_any G (lift (encode_weth amount)) _ (λ frontrun_in.
          elim (Bool-cases (frontrun_in == 0)) [
            | inl z ↦ rw z (record {
              meats = meats_of-append s.done (ingredients ∷ []);
              pools = addresses-append s.done (ingredients ∷ []);
            })
            | inr z ↦ rw z (frontrun_swap-Gone (index == 0) frontrun_in ingredients s)
          ]))

  pub prepare_frontrun-Gone :
      (ins : List ℕ) (index : ℕ) (ingredients : List (RawIngredients D)) (s : Frontrun m D)
      → Ensures
          (Gone s ingredients)
          (prepare_frontrun next_block maker is_multiple ins index ingredients s)
  unfolding prepare_frontrun
  prepare_frontrun-Gone ins index [] s = record {
    meats = sym (append_nil (meats_of s.done));
    pools = sym (append_nil (addresses s.done));
  }
  prepare_frontrun-Gone ins index (first ∷ rest) s =
      bind (Gone s (first ∷ [])) (Gone s (first ∷ rest))
        (frontrun_step next_block maker is_multiple ins index first s) _
        (frontrun_step-Gone ins index first s)
        (λ t c.
          weaken (Gone t rest) (Gone s (first ∷ rest))
            (λ u d. record {
              meats =
                  d.meats
                  ∙ ap (λ l. l ++ meats_of rest) c.meats
                  ∙ append_assoc (meats_of s.done) (first.meats ++ []) (meats_of rest)
                  ∙ ap (λ l. meats_of s.done ++ (l ++ meats_of rest)) (append_nil first.meats);
              pools =
                  d.pools
                  ∙ ap (λ l. l ++ addresses rest) c.pools
                  ∙ append_assoc (addresses s.done) (first.target_pool.address ∷ [])
                      (addresses rest);
            })
            (prepare_frontrun next_block maker is_multiple ins (suc index) rest t)
            (prepare_frontrun-Gone ins (suc index) rest t))
