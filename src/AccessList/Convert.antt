-- ===== src/AccessList/Convert.antt =====
-- `convert_access_list` of bot/src/simulate/helpers.rs. An `H256` is the list of its 32 bytes.
use sando_rs.Base.{ℕ, ◌^◌, ◌<◌, ◌≡◌, refl, List, [], ◌∷◌, map}
use sando_rs.Base.Bytes.{be_bytes, be_value, be_value-be_bytes_lt}

unfoldable pub convert_access_list : List (ℕ × List ℕ) → List (ℕ × List (List ℕ))
convert_access_list [] = []
convert_access_list ((address, keys) ∷ access_list) =
    (address, map (be_bytes 32) keys) ∷ convert_access_list access_list

-- The slots that a converted list is about.
abbrev slots_of : List (ℕ × List (List ℕ)) → List (ℕ × List ℕ)
slots_of [] = []
slots_of ((address, keys) ∷ access_list) = (address, map be_value keys) ∷ slots_of access_list

abbrev AllWords : List ℕ → Type 0
AllWords [] = Unit
AllWords (slot ∷ slots) = (slot < 256 ^ 32) × AllWords slots

abbrev AllSlotsWords : List (ℕ × List ℕ) → Type 0
AllSlotsWords [] = Unit
AllSlotsWords ((_, slots) ∷ access_list) = AllWords slots × AllSlotsWords access_list

map-be_bytes : (slots : List ℕ) → AllWords slots → map be_value (map (be_bytes 32) slots) ≡ slots
map-be_bytes [] h = refl
map-be_bytes (slot ∷ slots) (small, h) =
    rw (be_value-be_bytes_lt 32 slot small, map-be_bytes slots h) refl

-- A list of 256-bit slots is the one that its conversion is about, in the same order.
slots_of-convert_access_list :
    (access_list : List (ℕ × List ℕ))
    → AllSlotsWords access_list
    → slots_of (convert_access_list access_list) ≡ access_list
unfolding convert_access_list
slots_of-convert_access_list [] h = refl
slots_of-convert_access_list ((address, slots) ∷ access_list) (words, h) =
    rw (map-be_bytes slots words, slots_of-convert_access_list access_list h) refl
