-- ===== src/Strings.antt =====
-- The functions of Rust's standard `str` and `char` that the server calls, on lists of Unicode
-- scalar values.
pub mod Numbers
pub mod Words
pub mod Pieces
use aircd.Base.{
  ℕ, ◌-◌, ◌≡◌, refl, Bool, true, false, ◌&&◌, ◌||◌, Option, none, some, List, [], ◌∷◌, ◌++◌, map,
  Str, codes, ◌==◌, leb, eqb, if◌then◌else◌, is_empty,
}

-- `char::is_whitespace`: the Unicode property White_Space.
unfoldable pub is_whitespace : ℕ → Bool
is_whitespace c =
    (leb 0x9 c && leb c 0xd)
    || eqb c 0x20
    || eqb c 0x85
    || eqb c 0xa0
    || eqb c 0x1680
    || (leb 0x2000 c && leb c 0x200a)
    || eqb c 0x2028
    || eqb c 0x2029
    || eqb c 0x202f
    || eqb c 0x205f
    || eqb c 0x3000

unfoldable pub ascii_upper : ℕ → ℕ
ascii_upper c = if leb b'a' c && leb c b'z' then c - 32 else c

-- `str::to_ascii_uppercase`
unfoldable pub to_ascii_uppercase : Str → Str
unfolding ascii_upper
to_ascii_uppercase = map ascii_upper

-- `str::eq_ignore_ascii_case`
unfoldable pub eq_ignore_ascii_case : Str → Str → Bool
unfolding to_ascii_uppercase
eq_ignore_ascii_case s t = to_ascii_uppercase s == to_ascii_uppercase t

-- `strip_prefix p s` is Rust's `s.strip_prefix(p)`.
unfoldable pub strip_prefix : Str → Str → Option Str
strip_prefix [] s = some s
strip_prefix (p ∷ ps) [] = none
strip_prefix (p ∷ ps) (c ∷ s) = let rest = strip_prefix ps s in if eqb p c then rest else none

abbrev pub is_some {ℓ} : {A : Type ℓ} → Option A → Bool
is_some none = false
is_some (some a) = true

unfoldable pub starts_with : Str → Str → Bool
unfolding strip_prefix
starts_with p s = is_some (strip_prefix p s)

abbrev pub onto_head : ℕ → Option (Str × Str) → Option (Str × Str)
onto_head c none = none
onto_head c (some (a, b)) = some (c ∷ a, b)

abbrev pub or_later : Option Str → Option (Str × Str) → Option (Str × Str)
or_later none later = later
or_later (some rest) later = some ([], rest)

-- `split_once p s` is Rust's `s.split_once(p)`: the texts before and after the first `p`.
unfoldable pub split_once : Str → Str → Option (Str × Str)
unfolding strip_prefix
split_once p [] = or_later (strip_prefix p []) none
split_once p (c ∷ s) = or_later (strip_prefix p (c ∷ s)) (onto_head c (split_once p s))

unfoldable pub trim_start : Str → Str
unfolding is_whitespace
trim_start [] = []
trim_start (c ∷ s) = let rest = trim_start s in if is_whitespace c then rest else c ∷ s

unfoldable pub trim_end : Str → Str
unfolding is_whitespace
trim_end [] = []
trim_end (c ∷ s) =
    let rest = trim_end s in if is_whitespace c && is_empty rest then [] else c ∷ rest

unfoldable pub trim : Str → Str
unfolding trim_start trim_end
trim s = trim_end (trim_start s)

abbrev pub push_word : Str × List Str → List Str
push_word ([], ws) = ws
push_word (c ∷ w, ws) = (c ∷ w) ∷ ws

-- The word that a text begins with, perhaps empty, and the words behind it.
unfoldable pub first_word : Str → Str × List Str
unfolding is_whitespace
first_word [] = ([], [])
first_word (c ∷ s) =
    let next = first_word s in
    if is_whitespace c then ([], push_word next) else (c ∷ next.0, next.1)

-- `str::split_whitespace`
unfoldable pub split_whitespace : Str → List Str
unfolding first_word
split_whitespace s = push_word (first_word s)

-- `[String]::join`
unfoldable pub join : Str → List Str → Str
join sep [] = []
join sep (w ∷ []) = w
join sep (w ∷ v ∷ ws) = w ++ sep ++ join sep (v ∷ ws)

splits : split_whitespace (codes "  a  bc d ") ≡ codes "a" ∷ codes "bc" ∷ codes "d" ∷ []
unfolding split_whitespace codes
splits = refl

splits_once : split_once (codes " :") (codes "x : y :z") ≡ some (codes "x", codes " y :z")
unfolding split_once codes
splits_once = refl

trims : trim (codes "  a b ") ≡ codes "a b"
unfolding trim codes
trims = refl

-- the pieces of a `format!`
unfoldable pub concat : List Str → Str
concat [] = []
concat (s ∷ ss) = s ++ concat ss
