-- ===== src/Tags/Escaping.antt =====
-- The escaping of tag values against the Python client's `_unescape_tag_value`, and what an escaped
-- value cannot hold.
use aircd.Base.{ℕ, ◌≡◌, ◌≢◌, refl, [], ◌∷◌, ◌++◌, Str, eqb, if◌then◌else◌, All, All-append, arith}
use aircd.Tags.{escape_char, escape_tag_value}

-- the character that an escape stands for; the client's table keeps any other
unfoldable pub unescape_char : ℕ → ℕ
unescape_char c =
    if eqb c b':'
    then b';'
    else if eqb c b's'
    then b' '
    else if eqb c b'\\'
    then b'\\'
    else if eqb c b'r'
    then 0xd
    else if eqb c b'n'
    then 0xa
    else c

-- clients/python/aircd/client.py, `_unescape_tag_value`: the loop on `index`
unfoldable pub unescape_tag_value : Str → Str
unfolding unescape_char
unescape_tag_value [] = []
unescape_tag_value (c ∷ []) = c ∷ []
unescape_tag_value (c ∷ d ∷ value) =
    let plain = c ∷ unescape_tag_value (d ∷ value) in
    let escaped = unescape_char d ∷ unescape_tag_value value in
    if eqb c b'\\' then escaped else plain

unescape-escape_char :
    (c : ℕ) (rest : Str) → unescape_tag_value (escape_char c ++ rest) ≡ c ∷ unescape_tag_value rest
unfolding unescape_tag_value escape_char
unescape-escape_char c [] = ground arith
unescape-escape_char c (d ∷ rest) = ground arith

pub unescape-escape : (value : Str) → unescape_tag_value (escape_tag_value value) ≡ value
unfolding escape_tag_value
unescape-escape [] = unfold unescape_tag_value in refl
unescape-escape (c ∷ value) =
    rw (unescape-escape_char c (escape_tag_value value), unescape-escape value)

-- The characters that separate tags, end the tags, or end the line.
abbrev pub IsPlain : ℕ → Type 0
IsPlain c = (c ≢ b';') × (c ≢ b' ') × (c ≢ 0xd) × (c ≢ 0xa)

escape_char-IsPlain : (c : ℕ) → All IsPlain (escape_char c)
unfolding escape_char
escape_char-IsPlain c = ground arith

pub escape-IsPlain : (value : Str) → All IsPlain (escape_tag_value value)
unfolding escape_tag_value
escape-IsPlain [] = tt
escape-IsPlain (c ∷ value) =
    All-append IsPlain (escape_char c) (escape_tag_value value) (escape_char-IsPlain c)
      (escape-IsPlain value)

-- The client reads back every value that the server escaped; and no value, whatever a client put into
-- it, can end its tag, the tags or the line.
escape_tag_value_lem :
    (value : Str)
    → (unescape_tag_value (escape_tag_value value) ≡ value) × All IsPlain (escape_tag_value value)
escape_tag_value_lem value = (unescape-escape value, escape-IsPlain value)
