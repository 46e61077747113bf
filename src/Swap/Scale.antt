-- ===== src/Swap/Scale.antt =====
-- The scaling loop: what it stops at, when it panics, and that what it encodes decodes.
use native.Mathlib.Nat.{pow-le-pow_right, div-le_self, div-div-eq-div-mul}
use native.Mathlib.Decide.{dec_le, dec_lt, ℕ_discrete}
use sando_rs.Base.{
  ℕ, zero, suc, ◌+◌, ◌-◌, ◌*◌, ◌/◌, ◌^◌, ◌≤◌, ◌<◌, ◌≡◌, refl, sym, ap, ◌∙◌, inl, inr, Bool, true,
  false, Checked, val, panic, fit, fit-val, arith, if◌then◌else◌, Bool-cases,
}
use sando_rs.Base.Bytes.{two-pow-bits, pow-add}
use sando_rs.Swap.{scale_down}

-- The first accepted shift from `lo` on, at most 15, and what the loop returns for it.
pub record IsScaled (accept : ℕ → Bool) (amount lo : ℕ) (result : Checked (ℕ × ℕ)) : Type 0 where
  pub shift : ℕ
  pub returns : result ≡ val (amount / 256 ^ shift, shift)
  pub at_least : lo ≤ shift
  pub at_most : shift ≤ 15
  pub accepted : accept (amount / 256 ^ shift) ≡ true
  pub first : (j : ℕ) → lo ≤ j → j < shift → accept (amount / 256 ^ j) ≡ false

-- A larger shift leaves no more.
pub div-pow_antitone : (n j k : ℕ) → j ≤ k → n / 256 ^ k ≤ n / 256 ^ j
div-pow_antitone n j k h = rw (ap (λ (e : ℕ). 256 ^ e) split) (
    rw (pow-add 256 j (k - j))
      (rw (← div-div-eq-div-mul) (div-le_self (n / 256 ^ j) (256 ^ (k - j)))))
  where
    split : k ≡ j + (k - j)
    split = omega arith

u128_power : (i : ℕ) → i ≤ 15 → fit (2 ^ 128) (2 ^ (8 * i)) ≡ val (256 ^ i)
u128_power i h =
    rw (two-pow-bits i)
      (fit-val (2 ^ 128) (256 ^ i) (omega (arith, pow-le-pow_right {n = 256} (omega arith) h)))

the_end : (i : ℕ) → i ≤ 16 → ¬ (i ≤ 15) → i ≡ 16
the_end i h p = omega arith

pub true≢false : true ≡ false → ⊥
true≢false e = cc

module _ (accept : ℕ → Bool) (amount : ℕ) where
  abbrev loop : ℕ → ℕ → Checked (ℕ × ℕ)
  loop = scale_down (λ n. val (accept n)) amount

  loop-suc :
      (left i : ℕ)
      → i ≤ 15
      → loop (suc left) i
        ≡ (if accept (amount / 256 ^ i) then val (amount / 256 ^ i, i) else loop left (i + 1))
  unfolding scale_down
  loop-suc left i h = rw (u128_power i h)

  not_last :
      (i : ℕ)
      → i ≤ 15
      → accept (amount / 256 ^ 15) ≡ true
      → accept (amount / 256 ^ i) ≡ false
      → i < 15
  not_last i h top later = elim (dec_lt i 15) [
    | yes p ↦ p
    | no p ↦
        let last : i ≡ 15 = omega arith in
        absurd (true≢false (sym top ∙ ap (λ (k : ℕ). accept (amount / 256 ^ k)) (sym last) ∙ later))
  ]

  first_from :
      (i j : ℕ) {s : ℕ}
      → i ≤ j
      → accept (amount / 256 ^ i) ≡ false
      → (i + 1 ≤ j → j < s → accept (amount / 256 ^ j) ≡ false)
      → j < s
      → accept (amount / 256 ^ j) ≡ false
  first_from i j p here rest q = elim (ℕ_discrete i j) [
    | yes same ↦ ap (λ (k : ℕ). accept (amount / 256 ^ k)) (sym same) ∙ here
    | no other ↦ rest (omega arith) q
  ]

  pub scale_down-IsScaled :
      (left i : ℕ)
      → i + left ≡ 32
      → i ≤ 15
      → accept (amount / 256 ^ 15) ≡ true
      → IsScaled accept amount i (loop left i)
  scale_down-IsScaled zero i e h top = absurd (omega arith)
  scale_down-IsScaled (suc left) i e h top = elim (Bool-cases (accept (amount / 256 ^ i))) [
    | inl here ↦ record {
      shift = i;
      returns = loop-suc left i h ∙ rw here;
      at_least = omega arith;
      at_most = h;
      accepted = here;
      first = λ j p q. absurd (omega arith);
    }
    | inr later ↦
        let below : i < 15 = not_last i h top later in
        let rest = scale_down-IsScaled left (i + 1) (omega arith) (omega arith) top in
        record {
          shift = rest.shift;
          returns = loop-suc left i h ∙ rw later rest.returns;
          at_least = omega (arith, rest.at_least);
          at_most = rest.at_most;
          accepted = rest.accepted;
          first = λ j p q. first_from i j p later (rest.first j) q;
        }
  ]

  -- If no shift up to 15 is accepted, the power overflows and the loop panics.
  pub scale_down-panic :
      (left i : ℕ)
      → i + left ≡ 32
      → i ≤ 16
      → ((j : ℕ) → j ≤ 15 → accept (amount / 256 ^ j) ≡ false)
      → loop left i ≡ panic
  scale_down-panic zero i e h none_fits = absurd (omega arith)
  scale_down-panic (suc left) i e h none_fits = elim (dec_le i 15) [
    | yes p ↦
        loop-suc left i p
        ∙ rw (none_fits i p) (scale_down-panic left (i + 1) (omega arith) (omega arith) none_fits)
    | no p ↦ rw (the_end i h p) (unfold scale_down in refl)
  ]
