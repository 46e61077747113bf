-- ===== src/Base/Bytes.antt =====
-- Big-endian bytes of a number, the number that bytes stand for, and both ways between them.
use Prim.Native.Nat.add
use Prim.Native.Nat.{ℕ, zero, suc, ◌+◌, ◌-◌, ◌*◌, ◌/◌, ◌%◌, ◌^◌, ◌≤◌, ◌<◌}
use mathlib.Core.List.{List, [], ◌∷◌, ◌++◌}
use mathlib.Core.Path.{◌≡◌, refl, sym, ap, ap₂, ◌∙◌, ◌≡⟨◌⟩◌, ◌∎}
use native.Mathlib.Nat.{
  div-add-mod, mod-lt, mod-eq_of_lt, mul-add-mod_self_left, pow-suc, one-le-pow, div-div-eq-div-mul,
  mul_comm, div-eq_of_lt-le, mod-mod_of_dvd, dvd-mul_right, pow-succ', pow-zero,
}
use native.Mathlib.Omega.{arith}
use sando_rs.Base.Lists.{length}

-- `to_be_bytes` of a number of `k` bytes: the most significant byte first.
abbrev pub be_bytes : ℕ → ℕ → List ℕ
be_bytes zero n = []
be_bytes (suc k) n = (n / 256 ^ k % 256) ∷ be_bytes k n

abbrev pub be_value : List ℕ → ℕ
be_value [] = 0
be_value (b ∷ bs) = b * 256 ^ length bs + be_value bs

pub length-be_bytes : (k n : ℕ) → length (be_bytes k n) ≡ k
length-be_bytes zero n = refl
length-be_bytes (suc k) n = ap suc (length-be_bytes k n)

pub pow_pos : (k : ℕ) → 0 < 256 ^ k
pow_pos k = one-le-pow k 256 (omega arith)

below_mul : (q r m d : ℕ) → q < d → r < m → q * m + r < m * d
below_mul q r m d hq hr = grind arith

mul-add-div_right' : (q r m : ℕ) → r < m → (q * m + r) / m ≡ q
mul-add-div_right' q r m h = div-eq_of_lt-le m (omega arith) (grind arith)

-- The remainder by a product, one factor at a time.
mod-mul : (n m d : ℕ) → 0 < m → 0 < d → n % (m * d) ≡ n / m % d * m + n % m
mod-mul n m d pm pd =
    n % (m * d)
    ≡⟨ ap (λ (t : ℕ). t % (m * d)) split ⟩ (m * d * (n / m / d) + (n / m % d * m + n % m)) % (m * d)
    ≡⟨ mul-add-mod_self_left (m * d) (n / m / d) (n / m % d * m + n % m) ⟩
      (n / m % d * m + n % m) % (m * d)
    ≡⟨ mod-eq_of_lt below ⟩ n / m % d * m + n % m ∎
  where
    split : n ≡ m * d * (n / m / d) + (n / m % d * m + n % m)
    split = omega (arith, div-add-mod n m, ap (λ (t : ℕ). t * m) (div-add-mod (n / m) d))

    below : n / m % d * m + n % m < m * d
    below = below_mul (n / m % d) (n % m) m d (mod-lt (n / m) pd) (mod-lt n pm)

-- Reading the bytes back gives the number modulo the width.
pub be_value-be_bytes : (k n : ℕ) → be_value (be_bytes k n) ≡ n % 256 ^ k
be_value-be_bytes zero n = omega arith
be_value-be_bytes (suc k) n = rw (length-be_bytes k n) (
    rw (be_value-be_bytes k n)
      (rw (pow-suc 256 k) (sym (mod-mul n (256 ^ k) 256 (pow_pos k) (omega arith)))))

pub be_value-be_bytes_lt : (k n : ℕ) → n < 256 ^ k → be_value (be_bytes k n) ≡ n
be_value-be_bytes_lt k n h = be_value-be_bytes k n ∙ mod-eq_of_lt h

pub pow-add : (b j k : ℕ) → b ^ (j + k) ≡ b ^ j * b ^ k
pow-add b zero k = rw add.zero (rw pow-zero (omega arith))
pow-add b (suc j) k =
    rw add.suc (rw (pow-suc b (j + k)) (rw (pow-add b j k) (rw (pow-suc b j) (grind arith))))

-- Eight bits to the byte.
pub two-pow-bits : (k : ℕ) → 2 ^ (8 * k) ≡ 256 ^ k
two-pow-bits zero = refl
two-pow-bits (suc k) =
    ap (λ (e : ℕ). 2 ^ e) (omega arith)
    ∙ pow-add 2 8 (8 * k)
    ∙ ap (λ (t : ℕ). 256 * t) (two-pow-bits k)
    ∙ sym (pow-succ' 256 k)

-- The bytes of a number are those of its high part before those of its low part.
pub be_bytes-append : (j k n : ℕ) → be_bytes (j + k) n ≡ be_bytes j (n / 256 ^ k) ++ be_bytes k n
be_bytes-append zero k n = rw add.zero
be_bytes-append (suc j) k n = rw add.suc (ap₂ ◌∷◌ top (be_bytes-append j k n))
  where
    top : n / 256 ^ (j + k) % 256 ≡ n / 256 ^ k / 256 ^ j % 256
    top =
        rw div-div-eq-div-mul
          (rw (pow-add 256 j k) (ap (λ (t : ℕ). n / t % 256) (mul_comm (256 ^ j) (256 ^ k))))

byte_of_mod : (k e n : ℕ) → n % (256 ^ k * (256 * 256 ^ e)) / 256 ^ k % 256 ≡ n / 256 ^ k % 256
byte_of_mod k e n =
    rw (mod-mul n (256 ^ k) (256 * 256 ^ e) (pow_pos k) (wide (256 ^ e) (pow_pos e))) (
      rw
        (mul-add-div_right' (n / 256 ^ k % (256 * 256 ^ e)) (n % 256 ^ k) (256 ^ k)
          (mod-lt n (pow_pos k)))
        (mod-mod_of_dvd 256 (n / 256 ^ k) (dvd-mul_right 256 (256 ^ e))))
  where
    wide : (t : ℕ) → 0 < t → 0 < 256 * t
    wide t h = omega arith

-- Bytes below the width do not see what is above it.
pub be_bytes-mod : (k w n : ℕ) → k ≤ w → be_bytes k (n % 256 ^ w) ≡ be_bytes k n
be_bytes-mod zero w n h = refl
be_bytes-mod (suc k) w n h = ap₂ ◌∷◌ top (be_bytes-mod k w n (omega arith))
  where
    power : 256 ^ w ≡ 256 ^ k * (256 * 256 ^ (w - suc k))
    power =
        256 ^ w
        ≡⟨ ap (λ (t : ℕ). 256 ^ t) (omega arith) ⟩ 256 ^ (k + suc (w - suc k))
        ≡⟨ pow-add 256 k (suc (w - suc k)) ⟩ 256 ^ k * 256 ^ suc (w - suc k)
        ≡⟨ ap (λ (t : ℕ). 256 ^ k * t) (pow-succ' 256 (w - suc k)) ⟩
          256 ^ k * (256 * 256 ^ (w - suc k)) ∎

    top : n % 256 ^ w / 256 ^ k % 256 ≡ n / 256 ^ k % 256
    top = ap (λ (t : ℕ). n % t / 256 ^ k % 256) power ∙ byte_of_mod k (w - suc k) n
