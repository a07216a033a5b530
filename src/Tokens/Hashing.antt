-- ===== src/Tokens/Hashing.antt =====
-- `hash` and `verify` of src/tokens.rs. The argon2 crate is a parameter: its salts, by the number of the
-- draw, and its three calls. An error of a call is the text that it displays.
use aircd.Base.{◌≡◌, refl, Bool, true, false, ◌++◌, Str, ℕ, codes, Result, ok, err}

-- the outcome of `verify_password`
pub data Verdict : Type 0 where
  accepted wrong_password : Verdict
  failed : Str → Verdict

pub record Argon2 (Phc : Type 0) : Type 0 where
  pub salt : ℕ → Str
  pub hash_password : Str → Str → Result Str
  pub read_phc : Str → Result Phc
  pub verify_password : Str → Phc → Verdict

-- `map_err(|error| anyhow!("{prefix}{error}"))`
abbrev pub map_err {ℓ} : {A : Type ℓ} → Str → Result A → Result A
map_err prefix (ok a) = ok a
map_err prefix (err e) = err (prefix ++ e)

abbrev pub of_verdict : Verdict → Result Bool
of_verdict accepted = ok true
of_verdict wrong_password = ok false
of_verdict (failed e) = err (codes "argon2 verify failed: " ++ e)

module _ {Phc : Type 0} (argon2 : Argon2 Phc) where
  unfoldable pub hash : ℕ → Str → Result Str
  hash draw secret =
      map_err (codes "argon2 hash failed: ") (argon2.hash_password secret (argon2.salt draw))

  abbrev pub verify_parsed : Str → Result Phc → Result Bool
  verify_parsed secret (err e) = err e
  verify_parsed secret (ok parsed) = of_verdict (argon2.verify_password secret parsed)

  unfoldable pub verify : Str → Str → Result Bool
  verify secret phc =
      verify_parsed secret (map_err (codes "parse argon2 PHC string: ") (argon2.read_phc phc))

  -- What the crate documents: the text of a hash can be read, and it accepts the password it was made
  -- from.
  pub record IsSound : Type 0 where
    pub accepts :
        (secret salt phc : Str)
        → argon2.hash_password secret salt ≡ ok phc
        → (parsed : Phc) × (argon2.read_phc phc ≡ ok parsed)
          × (argon2.verify_password secret parsed ≡ accepted)

  map_err-ok :
      {A : Type 0} (prefix : Str) (r : Result A) {a : A} → map_err prefix r ≡ ok a → r ≡ ok a
  map_err-ok prefix (ok b) h = h
  map_err-ok prefix (err e) h = absurd (cc h)

  -- a secret is verified against its own hash
  pub verify-hash :
      IsSound
      → (draw : ℕ) (secret phc : Str) → hash draw secret ≡ ok phc
      → verify secret phc ≡ ok true
  unfolding hash verify
  verify-hash sound draw secret phc h =
      let (parsed, reads, accepts) =
        sound.accepts secret (argon2.salt draw) phc (map_err-ok _ _ h) in
      rw (reads, accepts) refl
