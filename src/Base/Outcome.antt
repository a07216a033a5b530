-- ===== src/Base/Outcome.antt =====
-- `anyhow::Result`: an error is the text that its `Display` prints.
use mathlib.Core.Path.{◌≡◌, ap}
use aircd.Base.Text.{Str}

pub data Result {ℓ} (A : Type ℓ) : Type ℓ where
  ok : A → Result A
  err : Str → Result A

abbrev value_or {ℓ} : {A : Type ℓ} → A → Result A → A
value_or d (ok a) = a
value_or d (err e) = d

pub ok-injective {ℓ} : {A : Type ℓ} {a b : A} → ok a ≡ ok b → a ≡ b
ok-injective {a} e = ap (value_or a) e
