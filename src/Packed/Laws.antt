-- ===== src/Packed/Laws.antt =====
-- What a packed token is, byte for byte, and the bytes of a list of tokens.
use Prim.Native.String.{String}
use mathlib.Core.Path.{ap₂}
use mathlib.Core.List.{flatten}
use sando_rs.Base.{
  ℕ, ◌+◌, ◌-◌, ◌*◌, ◌/◌, ◌%◌, ◌^◌, ◌≤◌, ◌<◌, ◌≡◌, refl, sym, ap, ◌∙◌, List, [], ◌∷◌, ◌++◌, val,
  panic, checked_minus-val, length, drop, drop-append, arith, if◌then◌else◌,
}
use sando_rs.Base.Bytes.{
  be_bytes, be_value, be_bytes-append, be_bytes-mod, length-be_bytes, be_value-be_bytes,
}
use sando_rs.Packed.{
  PackedToken, string, address, bytes, bool, number, number_with_shift, limb_bytes, pack, pack_all,
  encode_packed,
}

limb : (n : ℕ) → be_bytes 8 (n % 2 ^ 64) ≡ be_bytes 8 n
limb n = be_bytes-mod 8 8 n (omega arith)

-- The four words, high to low, are the number's 32 big-endian bytes.
limb_bytes-eq : (n : ℕ) → limb_bytes n ≡ be_bytes 32 n
unfolding limb_bytes
limb_bytes-eq n =
    ap₂ ◌++◌ (limb (n / 2 ^ 192))
      (ap₂ ◌++◌ (limb (n / 2 ^ 128)) (ap₂ ◌++◌ (limb (n / 2 ^ 64)) (limb n)))
    ∙ sym whole
  where
    whole :
        be_bytes 32 n
        ≡ be_bytes 8 (n / 2 ^ 192)
          ++ (be_bytes 8 (n / 2 ^ 128) ++ (be_bytes 8 (n / 2 ^ 64) ++ be_bytes 8 n))
    whole =
        be_bytes-append 8 24 n
        ∙ ap (λ (low : List ℕ). be_bytes 8 (n / 2 ^ 192) ++ low)
            (be_bytes-append 8 16 n
              ∙ ap (λ (low : List ℕ). be_bytes 8 (n / 2 ^ 128) ++ low) (be_bytes-append 8 8 n))

-- The last `k` of 32 bytes are the number in `k` bytes.
drop-be_bytes : (k n : ℕ) → k ≤ 32 → drop (32 - k) (be_bytes 32 n) ≡ be_bytes k n
drop-be_bytes k n h =
    ap (λ (w : ℕ). drop (32 - k) (be_bytes w n)) whole
    ∙ ap (drop (32 - k)) (be_bytes-append (32 - k) k n)
    ∙ drop-append (32 - k) _ (be_bytes k n) (length-be_bytes (32 - k) (n / 256 ^ k))
  where
    whole : 32 ≡ 32 - k + k
    whole = omega arith

-- The bytes that a token stands for.
abbrev pub token_bytes : PackedToken → List ℕ
token_bytes (string s) = s
token_bytes (address a) = be_bytes 20 a
token_bytes (bytes b) = b
token_bytes (bool b) = if b then 1 ∷ [] else 0 ∷ []
token_bytes (number n) = be_bytes 32 n
token_bytes (number_with_shift n to_take) = be_bytes (to_take / 8) n

abbrev pub concat_bytes : List PackedToken → List ℕ
concat_bytes [] = []
concat_bytes (item ∷ items) = token_bytes item ++ concat_bytes items

-- No number is asked for more bytes than it has.
abbrev pub Fits : PackedToken → Type 0
Fits (number_with_shift n to_take) = to_take / 8 ≤ 32
Fits _ = Unit

abbrev pub AllFit : List PackedToken → Type 0
AllFit [] = Unit
AllFit (item ∷ items) = Fits item × AllFit items

pack-eq : (item : PackedToken) → Fits item → pack item ≡ val (token_bytes item)
unfolding pack
pack-eq (number_with_shift n to_take) h =
    rw (limb_bytes-eq n)
      (rw (checked_minus-val 32 (to_take / 8) h) (ap val (drop-be_bytes (to_take / 8) n h)))
pack-eq (number n) h = ap val (limb_bytes-eq n)
pack-eq _ h = refl

pack_all-flatten :
    (items : List PackedToken)
    → AllFit items
    → (packs : List (List ℕ)) × (pack_all items ≡ val packs) × (flatten packs ≡ concat_bytes items)
unfolding pack_all flatten
pack_all-flatten [] h = ([], refl, refl)
pack_all-flatten (item ∷ items) h =
    let (rest, packed, flat) = pack_all-flatten items h.1 in
    (
      token_bytes item ∷ rest,
      rw (pack-eq item h.0) (rw packed),
      ap (λ (bs : List ℕ). token_bytes item ++ bs) flat,
    )

-- If no token asks for more than 32 bytes of a number, packing a list of tokens does not panic and
-- gives the bytes of the tokens one after another.
pub encode_packed-eq :
    (hex_encode : List ℕ → String) (items : List PackedToken)
    → AllFit items
    → encode_packed hex_encode items ≡ val (concat_bytes items, hex_encode (concat_bytes items))
unfolding encode_packed
encode_packed-eq hex_encode items h =
    let (packs, packed, flat) = pack_all-flatten items h in rw (packed, flat)

-- A number packed into `k` bytes, `k` at most 32, is `k` bytes that read big-endian give the number
-- modulo 256 to the `k`.
pub pack-number_with_shift :
    (n k : ℕ)
    → k ≤ 32
    → (bs : List ℕ) × (pack (number_with_shift n (8 * k)) ≡ val bs)
      × (length bs ≡ k)
      × (be_value bs ≡ n % 256 ^ k)
pack-number_with_shift n k h = (
  be_bytes k n,
  pack-eq (number_with_shift n (8 * k)) (omega arith)
      ∙ ap (λ (w : ℕ). val (be_bytes w n)) (omega arith),
  length-be_bytes k n,
  be_value-be_bytes k n,
)

pub pack-number_with_shift_panic : (n k : ℕ) → 32 < k → pack (number_with_shift n (8 * k)) ≡ panic
unfolding pack
pack-number_with_shift_panic n k h = rw (limb_bytes-eq n) (ground arith)
