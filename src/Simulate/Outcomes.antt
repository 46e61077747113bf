-- ===== src/Simulate/Outcomes.antt =====
-- What holds of the values that a computation returns.
use mathlib.Core.Path.{subst}
use sando_rs.Base.{◌≡◌, refl, Bool, true, false, Checked, val, panic, ◌>>=◌ as bind_checked}
use sando_rs.Simulate.{Machine, Outcome, returns, fails, panics, ◌>>=◌, lift}

abbrev pub is_returned : {m : Machine} {A : Type 0} → Outcome m A → Bool
is_returned (returns _) = true
is_returned (fails _) = false
is_returned panics = false

-- A predicate on the values returned.
abbrev pub Ensures : {m : Machine} {A : Type 0} → (A → Type 0) → Outcome m A → Type 0
Ensures P (returns a) = P a
Ensures P (fails _) = Unit
Ensures P panics = Unit

abbrev pub EnsuresVal : {A : Type 0} → (A → Type 0) → Checked A → Type 0
EnsuresVal P (val a) = P a
EnsuresVal P panic = Unit

pub returned :
    {m : Machine} {A : Type 0} (P : A → Type 0) (x : Outcome m A) (a : A)
    → Ensures P x
    → x ≡ returns a
    → P a
returned P x a h e = subst (λ y. Ensures P y) e h

pub bind :
    {m : Machine} {A B : Type 0} (P : A → Type 0) (Q : B → Type 0) (x : Outcome m A)
    (f : A → Outcome m B)
    → Ensures P x
    → ((a : A) → P a → Ensures Q (f a))
    → Ensures Q (x >>= f)
bind P Q (returns a) f h k = k a h
bind P Q (fails _) f h k = tt
bind P Q panics f h k = tt

pub bind_any :
    {m : Machine} {A B : Type 0} (Q : B → Type 0) (x : Outcome m A) (f : A → Outcome m B)
    → ((a : A) → Ensures Q (f a))
    → Ensures Q (x >>= f)
bind_any Q (returns a) f k = k a
bind_any Q (fails _) f k = tt
bind_any Q panics f k = tt

pub bind_val :
    {A B : Type 0} (Q : B → Type 0) (x : Checked A) (f : A → Checked B)
    → ((a : A) → EnsuresVal Q (f a))
    → EnsuresVal Q (bind_checked x f)
bind_val Q (val a) f k = k a
bind_val Q panic f k = tt

pub lifted :
    (m : Machine) {A : Type 0} (P : A → Type 0) (x : Checked A)
    → EnsuresVal P x
    → Ensures P (lift {m = m} x)
lifted m P (val a) h = h
lifted m P panic h = tt

-- Whether a value has been returned, and what it is known of it.
pub never :
    {m : Machine} {A : Type 0} (x : Outcome m A) → Ensures (λ _. ⊥) x → is_returned x ≡ false
never (returns a) h = absurd h
never (fails _) h = refl
never panics h = refl

pub constant : {m : Machine} {A : Type 0} (Q : Type 0) (x : Outcome m A) → Q → Ensures (λ _. Q) x
constant Q (returns a) q = q
constant Q (fails _) q = tt
constant Q panics q = tt

pub weaken :
    {m : Machine} {A : Type 0} (P Q : A → Type 0)
    → ((a : A) → P a → Q a)
    → (x : Outcome m A) → Ensures P x
    → Ensures Q x
weaken P Q f (returns a) p = f a p
weaken P Q f (fails _) p = tt
weaken P Q f panics p = tt
