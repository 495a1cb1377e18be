-- ===== src/Prelude/Outcome.antt =====
-- The result of a Go call that may panic.
use totally_not_a_fork_of_ce.Prelude.{Option, none, some, ◌≡◌, ◌⊎◌, inl, inr, refl, ap}

pub data Outcome {ℓ} (A : Type ℓ) : Type ℓ where
  done : A → Outcome A
  panic : Outcome A

infixl 5 ◌>>=◌
abbrev pub ◌>>=◌ {ℓ κ} : {A : Type ℓ} {B : Type κ} → Outcome A → (A → Outcome B) → Outcome B
done a >>= f = f a
panic >>= f = panic

-- An index out of range, or a nil pointer read, panics.
abbrev pub or_panic {ℓ} : {A : Type ℓ} → Option A → Outcome A
or_panic none = panic
or_panic (some a) = done a

pub Outcome-cases {ℓ} : {A : Type ℓ} (o : Outcome A) → (o ≡ panic) ⊎ ((a : A) × (o ≡ done a))
Outcome-cases (done a) = inr (a, refl)
Outcome-cases panic = inl refl

-- What a call returns, if it does not panic, satisfies `P`.
abbrev pub Returns {ℓ} : {A : Type ℓ} → (A → Type 0) → Outcome A → Type 0
Returns P (done a) = P a
Returns P panic = Unit

pub Returns-bind {ℓ κ} :
    {A : Type ℓ} {B : Type κ} (P : B → Type 0) (o : Outcome A) (f : A → Outcome B)
    → ((a : A) → o ≡ done a → Returns P (f a))
    → Returns P (o >>= f)
Returns-bind P (done a) f h = h a refl
Returns-bind P panic f h = tt

abbrev or_else {ℓ} : {A : Type ℓ} → A → Outcome A → A
or_else d (done a) = a
or_else d panic = d

pub done_inj {ℓ} : {A : Type ℓ} {a b : A} → done a ≡ done b → a ≡ b
done_inj {a = a} e = ap (or_else a) e
