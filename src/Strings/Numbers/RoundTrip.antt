-- ===== src/Strings/Numbers/RoundTrip.antt =====
-- `str::parse::<i64>` on what `Display` prints.
use aircd.Base.{
  ℕ, zero, suc, ◌+◌, ◌-◌, ◌*◌, ◌/◌, ◌%◌, ◌≤◌, ◌<◌, ◌≡◌, refl, sym, ap, ◌∙◌, Bool-cases, inl, inr,
  none, some, [], ◌∷◌, ◌++◌, append_assoc, append-nil, Str, ltb, ltb_ℤ, i64_min, i64_max, not, ◌&&◌,
  if◌then◌else◌, ℤ, pos, negsuc, InI64, arith,
}
use aircd.Strings.Numbers.{
  read_digits, read_magnitude, to_positive, to_negative, parse_i64, digits, show_ℕ, show_i64,
}

read_digit :
    (n d : ℕ) (rest : Str)
    → d < 10
    → read_digits n ((b'0' + d) ∷ rest) ≡ read_digits (n * 10 + d) rest
unfolding read_digits
read_digit n d rest h =
    let e : n * 10 + ((b'0' + d) - b'0') ≡ n * 10 + d = omega arith in rw e (ground arith)

-- fuel above the number prints it whole, and reading gives it back
read-digits :
    (fuel n : ℕ) (rest : Str)
    → n < fuel
    → read_digits 0 (digits fuel n ++ rest) ≡ read_digits n rest
unfolding digits
read-digits zero n rest h = absurd (omega arith)
read-digits (suc fuel) n rest h = elim (Bool-cases (ltb n 10)) [
  | inl small ↦
      rw small (read_digit 0 n rest (ground arith) ∙ ap (λ m. read_digits m rest) (omega arith))
  | inr large ↦
      rw (large, append_assoc (digits fuel (n / 10)) ((b'0' + n % 10) ∷ []) rest)
        (read-digits fuel (n / 10) ((b'0' + n % 10) ∷ rest) (ground arith)
          ∙ read_digit (n / 10) (n % 10) rest (omega arith)
          ∙ ap (λ m. read_digits m rest) (omega arith))
]

-- a text that begins with a digit
abbrev StartsDigit : Str → Type 0
StartsDigit [] = ⊥
StartsDigit (c ∷ s) = (b'0' ≤ c) × (c ≤ b'9')

StartsDigit-append : (s t : Str) → StartsDigit s → StartsDigit (s ++ t)
StartsDigit-append [] t h = absurd h
StartsDigit-append (c ∷ s) t h = h

StartsDigit-digits : (fuel n : ℕ) → n < fuel → StartsDigit (digits fuel n)
unfolding digits
StartsDigit-digits zero n h = absurd (omega arith)
StartsDigit-digits (suc fuel) n h = elim (Bool-cases (ltb n 10)) [
  | inl small ↦ rw small (omega arith, ground arith)
  | inr large ↦ rw large (StartsDigit-append _ _ (StartsDigit-digits fuel (n / 10) (ground arith)))
]

read_magnitude-show : (n : ℕ) → read_magnitude (show_ℕ n) ≡ some n
unfolding show_ℕ read_digits
read_magnitude-show n =
    magnitude (digits (suc n) n) (StartsDigit-digits (suc n) n (omega arith))
    ∙ ap (read_digits 0) (sym (append-nil (digits (suc n) n)))
    ∙ read-digits (suc n) n [] (omega arith)
  where
    magnitude : (s : Str) → StartsDigit s → read_magnitude s ≡ read_digits 0 s
    magnitude [] h = absurd h
    magnitude (c ∷ s) h = unfold read_magnitude in refl

parse-unsigned : (s : Str) → StartsDigit s → parse_i64 s ≡ to_positive (read_magnitude s)
unfolding parse_i64
parse-unsigned [] h = absurd h
parse-unsigned (c ∷ s) h = ground arith

-- Every `i64` that is printed is read back as itself.
pub parse_i64-show_i64 : (v : ℤ) → InI64 v → parse_i64 (show_i64 v) ≡ some v
unfolding show_i64
parse_i64-show_i64 (pos n) h =
    parse-unsigned (show_ℕ n) (unfold show_ℕ in StartsDigit-digits (suc n) n (omega arith))
    ∙ ap to_positive (read_magnitude-show n)
    ∙ ground arith
parse_i64-show_i64 (negsuc n) h =
    unfold parse_i64 in (ap to_negative (read_magnitude-show (suc n)) ∙ ground arith)

-- A number that is printed is read back if an `i64` holds it, and is refused otherwise.
pub parse_i64-show :
    (v : ℤ)
    → parse_i64 (show_i64 v)
      ≡ (if not (ltb_ℤ v i64_min) && not (ltb_ℤ i64_max v) then some v else none)
unfolding show_i64
parse_i64-show (pos n) =
    parse-unsigned (show_ℕ n) (unfold show_ℕ in StartsDigit-digits (suc n) n (omega arith))
    ∙ ap to_positive (read_magnitude-show n)
    ∙ ground arith
parse_i64-show (negsuc n) =
    unfold parse_i64 in (ap to_negative (read_magnitude-show (suc n)) ∙ ground arith)
