-- ===== src/Base/Results.antt =====
-- `core::result::Result`, its `?` operator, and the conversions between it and `Option`.
use mathlib.Core.Path.{◌≡◌, refl}
use mathlib.Core.Logic.{◌⊎◌, ◌≢◌, inl, inr}
use mathlib.Core.Option.{Option, none, some}

-- The error type comes first.
pub data Result {ℓ} (E V : Type ℓ) : Type ℓ where
  err : E → Result E V
  ok : V → Result E V

module _ {ℓ} {E V : Type ℓ} where
  pub err-ne-ok : {e : E} {v : V} → err e ≢ ok v
  err-ne-ok h = cc

  pub Result-cases :
      (outcome : Result E V) → ((v : V) × (outcome ≡ ok v)) ⊎ ((e : E) × (outcome ≡ err e))
  Result-cases (err e) = inr (e, refl)
  Result-cases (ok v) = inl (v, refl)

  abbrev pub ok_or : Option V → E → Result E V
  ok_or (some v) e = ok v
  ok_or none e = err e

  -- `Result::ok`.
  abbrev pub to_option : Result E V → Option V
  to_option (err e) = none
  to_option (ok v) = some v

infixl 5 ◌>>=◌
abbrev pub ◌>>=◌ {ℓ} : {E V W : Type ℓ} → Result E V → (V → Result E W) → Result E W
err e >>= rest = err e
ok v >>= rest = rest v

-- A chain that succeeds has succeeded in its first step.
pub >>=-eq-ok {ℓ} :
    {E V W : Type ℓ} (first : Result E V) (rest : V → Result E W) {w : W}
    → (first >>= rest) ≡ ok w
    → (v : V) × (first ≡ ok v) × (rest v ≡ ok w)
>>=-eq-ok (err e) rest chain = absurd (err-ne-ok chain)
>>=-eq-ok (ok v) rest chain = (v, refl, chain)
