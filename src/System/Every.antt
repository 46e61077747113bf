-- ===== src/System/Every.antt =====
-- What holds of every element of a list.
use sando_rs.Base.{List, [], ◌∷◌, ◌++◌}

module _ {A : Type 0} (P : A → Type 0) where
  abbrev pub Every : List A → Type 0
  Every [] = Unit
  Every (a ∷ rest) = P a × Every rest

  pub Every-append : (rest bs : List A) → Every rest → Every bs → Every (rest ++ bs)
  Every-append [] bs h k = k
  Every-append (a ∷ rest) bs (p, h) k = (p, Every-append rest bs h k)

  -- One element is taken out.
  pub Every-without :
      (before after : List A) (a : A) → Every (before ++ a ∷ after) → P a × Every (before ++ after)
  Every-without [] after a h = h
  Every-without (b ∷ before) after a (p, h) =
      let (q, k) = Every-without before after a h in (q, (p, k))

pub Every-weaken :
    {A : Type 0} (P Q : A → Type 0) (rest : List A)
    → ((a : A) → P a → Q a)
    → Every P rest
    → Every Q rest
Every-weaken P Q [] f h = tt
Every-weaken P Q (a ∷ rest) f (p, h) = (f a p, Every-weaken P Q rest f h)
