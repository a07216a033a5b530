-- ===== src/Auth/Soundness.antt =====
-- Whom `authenticate` of src/auth.rs lets in.
use mathlib.Core.List.{Memᴰ}
use mathlib.Core.Option.{some-injective, none-ne-some}
use aircd.Base.{
  ℤ, arith, ℕ, ◌+◌, ◌%◌, ◌^◌, ◌≡◌, ◌⊎◌, inl, inr, refl, ap, sym, ◌∙◌, Bool, true, false, Bool-cases,
  Option, none, some, List, [], ◌∷◌, Str, find, Result, ok, err, ok-injective, ◌==◌, is_null,
}
use aircd.Database.{Database, PrincipalRow, TokenRow}
use aircd.Tokens
use aircd.Auth.{
  Principal, principal_of, is_live, with_token, or_else, find_token, accept, check_hash,
  authenticate_new, row_or_invalid, authenticate_legacy, count_hit, legacy_path, or_legacy,
  by_parts, authenticate,
}

module _ {A : Type 0} (p : A → Bool) where
  find_sound : (xs : List A) (x : A) → find p xs ≡ some x → Memᴰ x xs × (p x ≡ true)
  unfolding find
  find_sound [] x h = absurd (none-ne-some _ h)
  find_sound (y ∷ ys) x h = elim (Bool-cases (p y)) [
    | inl e ↦
        let same = some-injective _ _ (rw e at h) in (Memᴰ.head (sym same), ap p (sym same) ∙ e)
    | inr e ↦ let (later, passes) = find_sound ys x (rw e at h) in (Memᴰ.tail later, passes)
  ]

-- A login by the new path: a live token of a stored principal, whose hash the secret matches.
pub record TokenLogin (verify : Str → Str → Result Bool) (token : Str) (db : Database)
    (p : Principal) : Type 0 where
  pub token_id : Str
  pub secret : Str
  pub principal_row : PrincipalRow
  pub token_row : TokenRow
  pub parts : Tokens.parse token ≡ some (token_id, secret)
  pub principal_stored : Memᴰ principal_row db.principals
  pub token_stored : Memᴰ token_row db.principal_tokens
  pub same_id : token_row.token_id ≡ token_id
  pub not_revoked : token_row.revoked_at ≡ none
  pub owner : principal_row.id ≡ token_row.principal_id
  pub verified : verify secret token_row.token_hash ≡ ok true
  pub is_principal : principal_of principal_row ≡ p

-- A login by the legacy path: a stored principal with the token itself.
pub record LegacyLogin (token : Str) (db : Database) (p : Principal) : Type 0 where
  pub principal_row : PrincipalRow
  pub principal_stored : Memᴰ principal_row db.principals
  pub same_token : principal_row.token ≡ token
  pub is_principal : principal_of principal_row ≡ p

abbrev owner_of : List PrincipalRow → TokenRow → Option PrincipalRow
owner_of principals t = find (λ p. p.id == t.principal_id) principals

find_token_sound :
    (token_id : Str) (principals : List PrincipalRow) (ts : List TokenRow) (p : PrincipalRow)
    (t : TokenRow)
    → find_token token_id principals ts ≡ some (p, t)
    → Memᴰ t ts × (is_live token_id t ≡ true) × (owner_of principals t ≡ some p)
unfolding find_token
find_token_sound token_id principals [] p t h = absurd (none-ne-some _ h)
find_token_sound token_id principals (u ∷ ts) p t h = elim (Bool-cases (is_live token_id u)) [
  | inl live ↦
      go live (owner_of principals u) refl (rw live at h)
        (find_token_sound token_id principals ts p t)
  | inr e ↦
      let (stored, live, owned) = find_token_sound token_id principals ts p t (rw e at h) in
      (Memᴰ.tail stored, live, owned)
]
  where
    go :
        is_live token_id u ≡ true
        → (found : Option PrincipalRow) → owner_of principals u ≡ found
        → or_else (with_token u found) (find_token token_id principals ts) ≡ some (p, t)
        → (find_token token_id principals ts ≡ some (p, t)
            → Memᴰ t ts × (is_live token_id t ≡ true) × (owner_of principals t ≡ some p))
        → Memᴰ t (u ∷ ts) × (is_live token_id t ≡ true) × (owner_of principals t ≡ some p)
    go _ none e h later = let (stored, live, owned) = later h in (Memᴰ.tail stored, live, owned)
    go live (some q) e h later =
        let same = some-injective _ _ h in
        let row : t ≡ u = sym (ap (λ r. r.1) same) in
        (
          Memᴰ.head row,
          ap (is_live token_id) row ∙ live,
          ap (owner_of principals) row ∙ e ∙ ap (λ r. some r.0) same,
        )

is_null_sound : (o : Option ℤ) → is_null o ≡ true → o ≡ none
is_null_sound none h = refl
is_null_sound (some x) h = ground (arith, h)

row_of_live :
    (token_id : Str) (t : TokenRow)
    → is_live token_id t ≡ true
    → (t.token_id ≡ token_id) × (t.revoked_at ≡ none)
row_of_live token_id t live =
    (ground (arith, live), is_null_sound t.revoked_at (ground (arith, live)))

module _ (verify : Str → Str → Result Bool) (token : Str) (db : Database) where
  by_token :
      (token_id secret : Str)
      → Tokens.parse token ≡ some (token_id, secret)
      → (p : Principal) → authenticate_new verify token_id secret db ≡ ok (some p)
      → TokenLogin verify token db p
  unfolding authenticate_new
  by_token token_id secret parts p h =
      go (find_token token_id db.principals db.principal_tokens) refl h
    where
      go :
          (found : Option (PrincipalRow × TokenRow))
          → find_token token_id db.principals db.principal_tokens ≡ found
          → check_hash verify secret found ≡ ok (some p)
          → TokenLogin verify token db p
      go none e h = absurd (none-ne-some _ (ok-injective h))
      go (some (row, t)) e h =
          let (stored, live, owned) =
            find_token_sound token_id db.principals db.principal_tokens row t e in
          let (row_stored, owns) =
            find_sound (λ q. q.id == t.principal_id) db.principals row owned in
          let (same, unrevoked) = row_of_live token_id t live in
          let (matches, is_p) = accepted row t (verify secret t.token_hash) refl h in
          record {
            token_id = token_id;
            secret = secret;
            principal_row = row;
            token_row = t;
            parts = parts;
            principal_stored = row_stored;
            token_stored = stored;
            same_id = same;
            not_revoked = unrevoked;
            owner = ground (arith, owns);
            verified = matches;
            is_principal = is_p;
          }
        where
          accepted :
              (row : PrincipalRow) (t : TokenRow)
              → (outcome : Result Bool) → verify secret t.token_hash ≡ outcome
              → accept verify row outcome ≡ ok (some p)
              → (verify secret t.token_hash ≡ ok true) × (principal_of row ≡ p)
          accepted row t (ok true) e h = (e, some-injective _ _ (ok-injective h))
          accepted row t (ok false) e h = absurd (none-ne-some _ (ok-injective h))
          accepted row t (err s) e h = absurd (cc h)

  -- Only two kinds of token are let in: the id and secret of a stored token that is not revoked and
  -- whose hash the secret matches, for the principal who owns it, and the token that is stored with a
  -- principal itself; only a login of the second kind adds one to the counter of legacy logins, which
  -- wraps around at 2^64.
  pub authenticate_sound :
      (hits : ℕ) (p : Principal) (hits' : ℕ)
      → authenticate verify token db hits ≡ (ok p, hits')
      → (TokenLogin verify token db p × (hits' ≡ hits))
        ⊎ (LegacyLogin token db p × (hits' ≡ (hits + 1) % 2 ^ 64))
  unfolding authenticate legacy_path authenticate_legacy
  authenticate_sound hits p hits' h = go (Tokens.parse token) refl h
    where
      legacy :
          (found : Option PrincipalRow)
          → find (λ q. q.token == token) db.principals ≡ found
          → count_hit (row_or_invalid found) hits ≡ (ok p, hits')
          → LegacyLogin token db p × (hits' ≡ (hits + 1) % 2 ^ 64)
      legacy none e h = absurd (cc (ap (λ r. r.0) h))
      legacy (some row) e h =
          let (stored, same) = find_sound (λ q. q.token == token) db.principals row e in
          (
            record {
              principal_row = row;
              principal_stored = stored;
              same_token = ground (arith, same);
              is_principal = ok-injective (ap (λ r. r.0) h);
            },
            sym (ap (λ r. r.1) h),
          )

      by_legacy :
          legacy_path token db hits ≡ (ok p, hits')
          → LegacyLogin token db p × (hits' ≡ (hits + 1) % 2 ^ 64)
      by_legacy h = legacy (find (λ q. q.token == token) db.principals) refl h

      decided :
          (token_id secret : Str)
          → Tokens.parse token ≡ some (token_id, secret)
          → (outcome : Result (Option Principal))
          → authenticate_new verify token_id secret db ≡ outcome
          → or_legacy verify token db hits outcome ≡ (ok p, hits')
          → (TokenLogin verify token db p × (hits' ≡ hits))
            ⊎ (LegacyLogin token db p × (hits' ≡ (hits + 1) % 2 ^ 64))
      decided token_id secret parts (ok (some q)) e h = inl (
        by_token token_id secret parts p
            (e ∙ ap (λ x. ok (some x)) (ok-injective (ap (λ r. r.0) h))),
        sym (ap (λ r. r.1) h),
      )
      decided token_id secret parts (ok none) e h = inr (by_legacy h)
      decided token_id secret parts (err s) e h = absurd (cc (ap (λ r. r.0) h))

      go :
          (q : Option (Str × Str))
          → Tokens.parse token ≡ q
          → by_parts verify token db hits q ≡ (ok p, hits')
          → (TokenLogin verify token db p × (hits' ≡ hits))
            ⊎ (LegacyLogin token db p × (hits' ≡ (hits + 1) % 2 ^ 64))
      go none e h = inr (by_legacy h)
      go (some (token_id, secret)) e h =
          decided token_id secret e (authenticate_new verify token_id secret db) refl h
