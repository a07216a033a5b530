-- ===== src/Auth/Issue.antt =====
-- A token from its generation in src/tokens.rs to the login with it in src/auth.rs.
use mathlib.Core.List.{Memᴰ}
use aircd.Base.{
  arith, ℕ, ◌≡◌, ◌≢◌, subst, ap, sym, ◌∙◌, true, false, none, some, List, [], ◌∷◌, Str, find, All,
  ok, ◌==◌,
}
use aircd.Database.{Database, PrincipalRow, TokenRow}
use aircd.Tokens.{generate}
use aircd.Tokens.RoundTrip.{parse-generate}
use aircd.Tokens.Hashing.{Argon2, hash, verify, IsSound, verify-hash}
use aircd.Auth.{
  principal_of, is_live, find_token, accept, check_hash, authenticate_new, or_legacy, by_parts,
  authenticate,
}

-- The UNIQUE constraint on `token_id`.
abbrev pub UniqueTokens : List TokenRow → Type 0
UniqueTokens [] = Unit
UniqueTokens (t ∷ ts) = All (λ u. u.token_id ≢ t.token_id) ts × UniqueTokens ts

All-at : {A : Type 0} (P : A → Type 0) (x : A) (xs : List A) → All P xs → Memᴰ x xs → P x
All-at P x [] h m = elim m [ ]
All-at P x (y ∷ ys) (p, h) (Memᴰ.head e) = subst P (sym e) p
All-at P x (y ∷ ys) (p, h) (Memᴰ.tail m) = All-at P x ys h m

live_row :
    (token_id : Str) (t : TokenRow)
    → t.token_id ≡ token_id
    → t.revoked_at ≡ none
    → is_live token_id t ≡ true
live_row token_id t same live = ground (arith, same, live)

other_row : (token_id : Str) (t : TokenRow) → t.token_id ≢ token_id → is_live token_id t ≡ false
other_row token_id t h = ground (arith, h)

find_token_complete :
    (token_id : Str) (principals : List PrincipalRow) (ts : List TokenRow) (t : TokenRow)
    (p : PrincipalRow)
    → UniqueTokens ts
    → Memᴰ t ts
    → t.token_id ≡ token_id
    → t.revoked_at ≡ none
    → find (λ q. q.id == t.principal_id) principals ≡ some p
    → find_token token_id principals ts ≡ some (p, t)
unfolding find_token
find_token_complete token_id principals [] t p h m same live owner = elim m [ ]
find_token_complete token_id principals (u ∷ ts) t p (fresh, unique) (Memᴰ.head e) same live owner =
    let live_u = subst (λ x. is_live token_id x ≡ true) e (live_row token_id t same live) in
    let owner_u = subst (λ x. find (λ q. q.id == x.principal_id) principals ≡ some p) e owner in
    rw (live_u, owner_u) (ap (λ x. some (p, x)) (sym e))
find_token_complete token_id principals (u ∷ ts) t p (fresh, unique) (Memᴰ.tail m) same live owner =
    let other = All-at (λ x. x.token_id ≢ u.token_id) t ts fresh m in
    rw (other_row token_id u (λ e. other (same ∙ sym e)))
      (find_token_complete token_id principals ts t p unique m same live owner)

module _ {Phc : Type 0} (argon2 : Argon2 Phc) where
  -- A token that was issued works: if the row that stores the hash of a generated token's secret is in
  -- the database under the token's id and is not revoked, the token logs its owner in, by the new path,
  -- so that the counter of legacy logins stays. Token ids are unique, the random bytes are there, and
  -- argon2 accepts the password that a hash was made from.
  pub issued_token_works :
      IsSound argon2
      → (id_bytes secret_bytes : List ℕ) → id_bytes ≢ []
      → secret_bytes ≢ []
      → (draw : ℕ) (phc : Str) → hash argon2 draw (generate id_bytes secret_bytes).2 ≡ ok phc
      → (db : Database) (hits : ℕ) (t : TokenRow) (p : PrincipalRow)
      → UniqueTokens db.principal_tokens
      → Memᴰ t db.principal_tokens
      → t.token_id ≡ (generate id_bytes secret_bytes).1
      → t.token_hash ≡ phc
      → t.revoked_at ≡ none
      → find (λ q. q.id == t.principal_id) db.principals ≡ some p
      → authenticate (verify argon2) (generate id_bytes secret_bytes).0 db hits
        ≡ (ok (principal_of p), hits)
  unfolding authenticate authenticate_new
  issued_token_works sound ids secrets some_id some_secret draw phc hashed db hits t p unique stored
        same stored_hash live owner =
      let (full, token_id, secret) = generate ids secrets in
      ap (by_parts (verify argon2) full db hits)
        ((parse-generate ids secrets some_id some_secret).0)
      ∙ ap (λ f. or_legacy (verify argon2) full db hits (check_hash (verify argon2) secret f))
          (find_token_complete token_id db.principals db.principal_tokens t p unique stored same
            live owner)
      ∙ ap (λ r. or_legacy (verify argon2) full db hits (accept (verify argon2) p r))
          (ap (verify argon2 secret) stored_hash ∙ verify-hash argon2 sound draw secret phc hashed)
