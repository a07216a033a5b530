-- ===== src/Strings/Numbers/AsWord.antt =====
-- A printed number is a word of a line.
use mathlib.Core.List.{cons-ne-nil, concat-ne-nil}
use aircd.Base.{
  refl, ℕ, zero, suc, ◌/◌, ◌≤◌, ◌≢◌, Bool-cases, inl, inr, [], ◌∷◌, Str, ltb, All, All-append, ℤ,
  pos, negsuc, arith,
}
use aircd.Strings.{is_whitespace}
use aircd.Strings.Words.{IsVisible, IsWord}
use aircd.Strings.Numbers.{digits, show_ℕ, show_i64}

abbrev IsDigit : ℕ → Type 0
IsDigit c = (b'0' ≤ c) × (c ≤ b'9')

digits-All : (fuel n : ℕ) → All IsDigit (digits fuel n)
unfolding digits
digits-All zero n = tt
digits-All (suc fuel) n = elim (Bool-cases (ltb n 10)) [
  | inl small ↦ rw small ((omega arith, ground arith), tt)
  | inr large ↦ rw large (
      All-append IsDigit (digits fuel (n / 10)) _ (digits-All fuel (n / 10))
        ((omega arith, omega arith), tt))
]

digit-IsVisible : (c : ℕ) → IsDigit c → IsVisible c
unfolding is_whitespace
digit-IsVisible c h = ground arith

All-IsVisible : (s : Str) → All IsDigit s → All IsVisible s
All-IsVisible [] h = tt
All-IsVisible (c ∷ s) (d, h) = (digit-IsVisible c d, All-IsVisible s h)

IsWord-of_digits : (s : Str) → s ≢ [] → All IsDigit s → IsWord s
IsWord-of_digits [] n h = absurd (n refl)
IsWord-of_digits (c ∷ s) n (d, h) = (omega arith, digit-IsVisible c d, All-IsVisible s h)

digits-ne-nil : (fuel n : ℕ) → digits (suc fuel) n ≢ []
unfolding digits
digits-ne-nil fuel n h = elim (Bool-cases (ltb n 10)) [
  | inl small ↦ cons-ne-nil _ _ (rw small at h)
  | inr large ↦ concat-ne-nil _ _ (rw large at h)
]

pub show_i64-IsWord : (v : ℤ) → IsWord (show_i64 v)
unfolding show_i64 show_ℕ is_whitespace
show_i64-IsWord (pos n) =
    IsWord-of_digits (digits (suc n) n) (digits-ne-nil n n) (digits-All (suc n) n)
show_i64-IsWord (negsuc n) = (
  omega arith,
  refl,
  All-IsVisible (digits (suc (suc n)) (suc n)) (digits-All (suc (suc n)) (suc n)),
)

-- a character of a printed number, the minus sign included
abbrev pub IsNumeric : ℕ → Type 0
IsNumeric c = c ≤ b'9'

digits-IsNumeric : (s : Str) → All IsDigit s → All IsNumeric s
digits-IsNumeric [] h = tt
digits-IsNumeric (c ∷ s) (d, h) = (omega (arith, d), digits-IsNumeric s h)

pub show_i64-IsNumeric : (v : ℤ) → All IsNumeric (show_i64 v)
unfolding show_i64 show_ℕ
show_i64-IsNumeric (pos n) = digits-IsNumeric (digits (suc n) n) (digits-All (suc n) n)
show_i64-IsNumeric (negsuc n) = (
  omega arith,
  digits-IsNumeric (digits (suc (suc n)) (suc n)) (digits-All (suc (suc n)) (suc n)),
)
