-- ===== src/Common/Results.antt =====
-- Go's pair of a value and an error, where the value counts only without an error.
use mathlib.Core.Path.{◌≡◌, refl, subst}

pub data Result {ℓ} (E : Type 0) (A : Type ℓ) : Type ℓ where
  ok : A → Result E A
  fail : E → Result E A

infixl 5 ◌>>=◌
abbrev pub ◌>>=◌ {ℓ κ} :
    {E : Type 0} {A : Type ℓ} {B : Type κ} → Result E A → (A → Result E B) → Result E B
ok a >>= f = f a
fail e >>= f = fail e

-- What holds of the value, if there is one.
abbrev pub Returns {ℓ κ} : {E : Type 0} {A : Type ℓ} → (A → Type κ) → Result E A → Type κ
Returns P (ok a) = P a
Returns P (fail e) = Unit

-- A chain returns what its second part does, for every value of the first.
pub bind-Returns {ℓ κ μ} :
    {E : Type 0} {A : Type ℓ} {B : Type κ} (P : B → Type μ) (m : Result E A) (f : A → Result E B)
    → ((a : A) → m ≡ ok a → Returns P (f a))
    → Returns P (m >>= f)
bind-Returns P (ok a) f h = h a refl
bind-Returns P (fail e) f h = tt

-- What holds of a result holds of the value that it is known to have.
pub returned {ℓ κ} :
    {E : Type 0} {A : Type ℓ} (P : A → Type κ) {m : Result E A} {a : A}
    → Returns P m
    → m ≡ ok a
    → P a
returned P h e = subst (Returns P) e h

pub Returns-implies {ℓ κ μ} :
    {E : Type 0} {A : Type ℓ} (P : A → Type κ) (Q : A → Type μ) (m : Result E A)
    → ((a : A) → P a → Q a)
    → Returns P m
    → Returns Q m
Returns-implies P Q (ok a) f h = f a h
Returns-implies P Q (fail e) f h = tt
