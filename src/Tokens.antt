-- ===== src/Tokens.antt =====
-- src/tokens.rs: tokens `airc_<token_id_hex>_<secret>`. The argon2 hash and its check are a library:
-- its two calls are parameters of `Hashing`.
pub mod RoundTrip
pub mod Hashing
use aircd.Base.{
  ℕ, ◌+◌, ◌-◌, ◌/◌, ◌%◌, ◌||◌, Option, none, some, List, [], ◌∷◌, ◌++◌, Str, ltb, if◌then◌else◌,
  is_empty,
}
use aircd.Strings.{strip_prefix, split_once}

abbrev pub token_prefix : Str
token_prefix = b'a' ∷ b'i' ∷ b'r' ∷ b'c' ∷ b'_' ∷ []

abbrev pub token_id_bytes : ℕ
token_id_bytes = 16

abbrev pub secret_bytes : ℕ
secret_bytes = 32

-- one digit of `{byte:02x}`
unfoldable pub hex_digit : ℕ → ℕ
hex_digit d = if ltb d 10 then b'0' + d else b'a' + (d - 10)

unfoldable pub hex_encode : List ℕ → Str
hex_encode [] = []
hex_encode (byte ∷ bytes) = hex_digit (byte / 16) ∷ hex_digit (byte % 16) ∷ hex_encode bytes

-- The random bytes are an argument: `OsRng` fills the two arrays.
unfoldable pub generate : List ℕ → List ℕ → Str × Str × Str
generate id_bytes random_secret =
    let token_id_hex = hex_encode id_bytes in
    let secret_hex = hex_encode random_secret in
    (token_prefix ++ token_id_hex ++ b'_' ∷ secret_hex, token_id_hex, secret_hex)

-- the guard on empty halves
unfoldable pub both_present : Option (Str × Str) → Option (Str × Str)
both_present none = none
both_present (some (token_id, secret)) =
    if is_empty token_id || is_empty secret then none else some (token_id, secret)

unfoldable pub split_body : Option Str → Option (Str × Str)
unfolding both_present
split_body none = none
split_body (some body) = both_present (split_once (b'_' ∷ []) body)

unfoldable pub parse : Str → Option (Str × Str)
unfolding split_body
parse token = split_body (strip_prefix token_prefix token)
