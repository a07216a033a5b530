-- ===== src/Auth.antt =====
-- src/auth.rs: a token as a principal. `verify`, the argon2 check of src/tokens.rs, is a parameter:
-- it calls a library that is not part of the repository.
pub mod Soundness
pub mod Issue
use aircd.Base.{
  is_null, ℕ, ◌+◌, ◌%◌, ◌^◌, Bool, true, false, ◌&&◌, Option, none, some, List, [], ◌∷◌, Str, codes,
  ◌==◌, if◌then◌else◌, find, Result, ok, err,
}
use aircd.Database.{Database, PrincipalRow, TokenRow}
use aircd.Tokens

pub record Principal : Type 0 where
  pub id : Str
  pub nick : Str
  pub team : Option Str

abbrev pub principal_of : PrincipalRow → Principal
principal_of p = record { id = p.id; nick = p.nick; team = p.team }

-- `WHERE t.token_id = ?1 AND t.revoked_at IS NULL`
abbrev pub is_live : Str → TokenRow → Bool
is_live token_id t = t.token_id == token_id && is_null t.revoked_at

abbrev pub with_token : TokenRow → Option PrincipalRow → Option (PrincipalRow × TokenRow)
with_token t none = none
with_token t (some p) = some (p, t)

abbrev pub or_else {ℓ} : {A : Type ℓ} → Option A → Option A → Option A
or_else none later = later
or_else (some a) later = some a

-- The first row of `principal_tokens t JOIN principals p ON p.id = t.principal_id` that is live.
unfoldable pub find_token :
    Str → List PrincipalRow → List TokenRow → Option (PrincipalRow × TokenRow)
unfolding find
find_token token_id principals [] = none
find_token token_id principals (t ∷ ts) =
    let later = find_token token_id principals ts in
    if is_live token_id t
    then or_else (with_token t (find (λ p. p.id == t.principal_id) principals)) later
    else later

module _ (verify : Str → Str → Result Bool) where
  abbrev pub accept : PrincipalRow → Result Bool → Result (Option Principal)
  accept p (ok true) = ok (some (principal_of p))
  accept p (ok false) = ok none
  accept p (err e) = err e

  abbrev pub check_hash : Str → Option (PrincipalRow × TokenRow) → Result (Option Principal)
  check_hash secret none = ok none
  check_hash secret (some (p, t)) = accept p (verify secret t.token_hash)

  unfoldable pub authenticate_new : Str → Str → Database → Result (Option Principal)
  unfolding find_token
  authenticate_new token_id secret db =
      check_hash secret (find_token token_id db.principals db.principal_tokens)

abbrev pub row_or_invalid : Option PrincipalRow → Result Principal
row_or_invalid none = err (codes "invalid token")
row_or_invalid (some p) = ok (principal_of p)

unfoldable pub authenticate_legacy : Str → Database → Result Principal
unfolding find
authenticate_legacy token db = row_or_invalid (find (λ p. p.token == token) db.principals)

-- The counter is an `AtomicU64`, and `fetch_add` wraps around.
abbrev pub count_hit : Result Principal → ℕ → Result Principal × ℕ
count_hit (ok p) legacy_hits = (ok p, (legacy_hits + 1) % 2 ^ 64)
count_hit (err e) legacy_hits = (err e, legacy_hits)

unfoldable pub legacy_path : Str → Database → ℕ → Result Principal × ℕ
unfolding authenticate_legacy
legacy_path token db legacy_hits = count_hit (authenticate_legacy token db) legacy_hits

module _ (verify : Str → Str → Result Bool) where
  -- what `authenticate` does with the result of the new path
  abbrev pub or_legacy : Str → Database → ℕ → Result (Option Principal) → Result Principal × ℕ
  or_legacy token db legacy_hits (ok (some p)) = (ok p, legacy_hits)
  or_legacy token db legacy_hits (ok none) = legacy_path token db legacy_hits
  or_legacy token db legacy_hits (err e) = (err e, legacy_hits)

  abbrev pub by_parts : Str → Database → ℕ → Option (Str × Str) → Result Principal × ℕ
  by_parts token db legacy_hits none = legacy_path token db legacy_hits
  by_parts token db legacy_hits (some (token_id, secret)) =
      or_legacy token db legacy_hits (authenticate_new verify token_id secret db)

  unfoldable pub authenticate : Str → Database → ℕ → Result Principal × ℕ
  unfolding legacy_path authenticate_new
  authenticate token db legacy_hits = by_parts token db legacy_hits (Tokens.parse token)
