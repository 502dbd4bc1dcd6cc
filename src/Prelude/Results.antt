-- ===== src/Prelude/Results.antt =====
-- `Result<T, String>`, with `?` as bind.
use mathlib.Core.Path.{◌≡◌, refl}
use mathlib.Core.Logic.{◌⊎◌, inl, inr}
use plugkill.Prelude.Strings.{Text}

pub data Result {ℓ} (A : Type ℓ) : Type ℓ where
  ok : A → Result A
  err : Text → Result A

infixl 5 ◌>>=◌
-- `?`: the first error is the result.
abbrev pub ◌>>=◌ {i j} :
    {Value : Type i} {Next : Type j} → Result Value → (Value → Result Next) → Result Next
err reason >>= next = err reason
ok value >>= next = next value

pub Result-cases {ℓ} :
    {A : Type ℓ} (r : Result A) → ((e : Text) × (r ≡ err e)) ⊎ ((a : A) × (r ≡ ok a))
Result-cases (err e) = inl (e, refl)
Result-cases (ok a) = inr (a, refl)
