-- ===== src/Strings/Numbers.antt =====
-- `str::parse::<i64>` and the `Display` of `i64`.
pub mod RoundTrip
pub mod AsWord
use aircd.Base.{
  ℕ, zero, suc, ◌+◌, ◌-◌, ◌*◌, ◌/◌, ◌%◌, ◌≡◌, refl, ◌&&◌, Option, none, some, [], ◌∷◌, ◌++◌, Str,
  codes, ltb, leb, eqb, if◌then◌else◌, ℤ, pos, negsuc, ltb_ℤ, i64_max, i64_min,
}

-- The digits behind `n`, read as one number; `none` at any other character.
unfoldable pub read_digits : ℕ → Str → Option ℕ
read_digits n [] = some n
read_digits n (c ∷ s) =
    let rest = read_digits (n * 10 + (c - b'0')) s in
    if leb b'0' c && leb c b'9' then rest else none

-- A magnitude is refused when empty.
unfoldable pub read_magnitude : Str → Option ℕ
unfolding read_digits
read_magnitude [] = none
read_magnitude (c ∷ s) = read_digits 0 (c ∷ s)

abbrev pub to_positive : Option ℕ → Option ℤ
to_positive none = none
to_positive (some n) = if ltb_ℤ i64_max (pos n) then none else some (pos n)

abbrev pub opposite : ℕ → ℤ
opposite zero = pos zero
opposite (suc n) = negsuc n

abbrev pub to_negative : Option ℕ → Option ℤ
to_negative none = none
to_negative (some n) = if ltb_ℤ (opposite n) i64_min then none else some (opposite n)

-- `none` is Rust's `Err`: no digit, another character, or a value outside `i64`.
unfoldable pub parse_i64 : Str → Option ℤ
unfolding read_magnitude
parse_i64 [] = none
parse_i64 (c ∷ s) =
    if eqb c b'+'
    then to_positive (read_magnitude s)
    else if eqb c b'-'
    then to_negative (read_magnitude s)
    else to_positive (read_magnitude (c ∷ s))

-- The decimal digits of `n`; a number below `10 ^ fuel` is printed whole.
unfoldable pub digits : ℕ → ℕ → Str
digits zero n = []
digits (suc fuel) n =
    let more = digits fuel (n / 10) ++ (b'0' + n % 10) ∷ [] in
    if ltb n 10 then (b'0' + n) ∷ [] else more

unfoldable pub show_ℕ : ℕ → Str
unfolding digits
show_ℕ n = digits (suc n) n

unfoldable pub show_i64 : ℤ → Str
unfolding show_ℕ
show_i64 (pos n) = show_ℕ n
show_i64 (negsuc n) = b'-' ∷ show_ℕ (suc n)

reads : parse_i64 (codes "-42") ≡ some (negsuc 41)
unfolding parse_i64 codes
reads = refl

refuses : parse_i64 (codes "9223372036854775808") ≡ none
unfolding parse_i64 codes
refuses = refl

shows : show_i64 (negsuc 1776250000) ≡ codes "-1776250001"
unfolding show_i64 codes
shows = refl
