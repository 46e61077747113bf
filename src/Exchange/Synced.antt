-- ===== src/Exchange/Synced.antt =====
-- What `sync_dex` gives where the provider answers.
use mathlib.Core.Path.{subst}
use mathlib.Core.List as List
use mathlib.Core.List.{Memᴰ}
use mathlib.Core.List.Memᴰ
use sando_rs.Base.{ℕ, ◌+◌, ◌^◌, ◌≤◌, ◌<◌, ◌≡◌, refl, Option, some, List, [], ◌∷◌, ◌++◌, ok}
use sando_rs.Pool.{Pool}
use sando_rs.Exchange.{asked, Dex, step, first_block, new_pool_from_event, flat, sync_dex}
use sando_rs.Exchange.Found.{pools_between, get_all_pools-between, pools_between-Memᴰ}

module _ {Log : Type 0} (decode_v2 : Log → Option (ℕ × ℕ × ℕ))
    (decode_v3 : Log → Option (ℕ × ℕ × ℕ × ℕ))
    (logs : (topic0 address from_block to_block : ℕ) → List Log) where
  -- No exchange starts later than the current block.
  abbrev pub AllStarted : List Dex → (current_block : ℕ) → Option ℕ → Type 0
  AllStarted [] current_block start_block = Unit
  AllStarted (dex ∷ dexes) current_block start_block =
      (first_block dex start_block ≤ current_block) × AllStarted dexes current_block start_block

  -- The pools of all exchanges up to the current block.
  unfoldable pub synced : List Dex → (current_block : ℕ) → Option ℕ → List Pool
  synced [] current_block start_block = []
  synced (dex ∷ dexes) current_block start_block =
      pools_between decode_v2 decode_v3 logs dex (first_block dex start_block) current_block
      ++ synced dexes current_block start_block

  pub sync_dex-synced :
      {E : Type 0} (dexes : List Dex) (current_block : ℕ) (start_block : Option ℕ)
      → AllStarted dexes current_block start_block
      → current_block + step < 2 ^ 64
      → sync_dex {E = E} decode_v2 decode_v3
          (λ topic0 address f t. ok (logs topic0 address f t))
          dexes
          current_block
          start_block
        ≡ ok (synced dexes current_block start_block)
  unfolding sync_dex synced flat
  sync_dex-synced [] current_block start_block started room = refl
  sync_dex-synced {E} (dex ∷ dexes) current_block start_block (first, started) room =
      rw
        (
          get_all_pools-between decode_v2 decode_v3 logs dex {E = E} current_block start_block first
              room,
          sync_dex-synced {E = E} dexes current_block start_block started room,
        )
        refl

  pub synced-Memᴰ :
      (dex : Dex) (dexes : List Dex) (log : Log) (pool : Pool) (block current_block : ℕ)
      (start_block : Option ℕ)
      → Memᴰ dex dexes
      → new_pool_from_event decode_v2 decode_v3 dex log ≡ some pool
      → ((f t : ℕ) → f ≤ block → block ≤ t → Memᴰ log (asked logs dex f t))
      → first_block dex start_block ≤ block
      → block ≤ current_block
      → Memᴰ pool (synced dexes current_block start_block)
  unfolding synced
  synced-Memᴰ dex _ log pool block current_block start_block (List.Memᴰ.head {x} {xs} e) made
        answers after before =
      Memᴰ.append_left (synced xs current_block start_block) (
        subst
          (λ d.
            Memᴰ pool
              (pools_between decode_v2 decode_v3 logs d (first_block d start_block) current_block))
          e
          (pools_between-Memᴰ decode_v2 decode_v3 logs dex log pool block
            (first_block dex start_block) current_block made answers after before))
  synced-Memᴰ dex _ log pool block current_block start_block (List.Memᴰ.tail {x} {xs} m) made
        answers after before =
      Memᴰ.append_right
        (pools_between decode_v2 decode_v3 logs x (first_block x start_block) current_block)
        (synced-Memᴰ dex xs log pool block current_block start_block m made answers after before)
