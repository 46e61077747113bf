-- ===== src/Packed/Examples.antt =====
-- Tests of the packed encoding, and its theorems at concrete inputs.
use sando_rs.Base.{◌≡◌, refl, true, [], ◌∷◌, val, panic}
use sando_rs.Packed.{number_with_shift, bool, pack, encode_packed}

low_two_bytes : pack (number_with_shift 0x1234567 16) ≡ val (0x45 ∷ 0x67 ∷ [])
unfolding pack
low_two_bytes = refl

too_wide : pack (number_with_shift 0x1234567 264) ≡ panic
unfolding pack
too_wide = refl

one_after_another :
    encode_packed (λ _. "") (number_with_shift 0x1234567 16 ∷ bool true ∷ [])
    ≡ val (0x45 ∷ 0x67 ∷ 1 ∷ [], "")
unfolding encode_packed mathlib.Core.List.flatten
one_after_another = refl
