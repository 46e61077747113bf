-- ===== src/Packed.antt =====
-- bot/src/utils/encode_packed.rs: Solidity's packed encoding, one token after another.
-- `hex_encode` is `hex::encode`, whose result no caller in the program reads.
pub mod Laws
mod Examples
use Prim.Native.String.{String}
use mathlib.Core.List.{reverse, foldl, flatten}
use sando_rs.Base.{
  ℕ, ◌+◌, ◌/◌, ◌%◌, ◌^◌, Bool, List, [], ◌∷◌, ◌++◌, Checked, val, ◌>>=◌, checked_minus, length,
  drop, if◌then◌else◌,
}
use sando_rs.Base.Bytes.{be_bytes}

-- A string is given by its UTF-8 bytes, an address by its number. `number_with_shift n bits` is
-- `NumberWithShift(n, TakeLastXBytes(bits))`: the code divides the width by 8.
pub data PackedToken : Type 0 where
  string : List ℕ → PackedToken
  address : ℕ → PackedToken
  bytes : List ℕ → PackedToken
  bool : Bool → PackedToken
  number : ℕ → PackedToken
  number_with_shift : ℕ → ℕ → PackedToken

-- The four 64-bit words inside a `U256`, the least significant first.
abbrev pub limbs : ℕ → List ℕ
limbs n =
    (n % 2 ^ 64) ∷ (n / 2 ^ 64 % 2 ^ 64) ∷ (n / 2 ^ 128 % 2 ^ 64) ∷ (n / 2 ^ 192 % 2 ^ 64) ∷ []

-- `n.0.iter().rev()`, each word extended by its big-endian bytes
limb_bytes : ℕ → List ℕ
limb_bytes n = foldl (λ acc i. acc ++ be_bytes 8 i) [] (reverse (limbs n))

pub pack : PackedToken → Checked (List ℕ)
unfolding limb_bytes
pack (string s) = val s
pack (address a) = val (be_bytes 20 a)
pack (number n) = val (limb_bytes n)
pack (bytes b) = val b
pack (bool b) = val (if b then 1 ∷ [] else 0 ∷ [])
pack (number_with_shift n to_take) = do
  let local_res = limb_bytes n
  to_skip ← checked_minus (length local_res) (to_take / 8)
  val (drop to_skip local_res)

pub pack_all : List PackedToken → Checked (List (List ℕ))
pack_all [] = val []
pack_all (item ∷ items) = do packed ← pack item; rest ← pack_all items; val (packed ∷ rest)

unfoldable pub encode_packed :
    (hex_encode : List ℕ → String) → List PackedToken → Checked (List ℕ × String)
unfolding pack_all pack
encode_packed hex_encode items = do
  packs ← pack_all items
  let res = flatten packs
  val (res, hex_encode res)
