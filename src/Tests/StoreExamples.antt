-- ===== src/Tests/StoreExamples.antt =====
-- The start of the database and a login, at a file that holds one principal without a token row.
use aircd.Base.{
  ◌≡◌, ◌⊎◌, refl, true, List, [], ◌∷◌, ◌++◌, codes, ok, pos, ℕ, ◌+◌, ◌%◌, ◌^◌, All, none,
}
use aircd.Database.{PrincipalRow, empty}
use aircd.Auth.{authenticate, Principal}
use aircd.Auth.Soundness.{TokenLogin, LegacyLogin, authenticate_sound}
use aircd.Store.{
  Entropy, File, has_token, init, migrate_principals, migrate_channel_memberships, add_column,
  seed_principal, seed_principals, mirror_token, token_row_conflicts, backfill_rows,
  backfill_principal_tokens,
}
use aircd.Store.Seeding.{init_prepares}
use aircd.Tests.Samples.{env, agent}
use aircd.Tests.Running.{running}

abbrev pub entropy : Entropy
entropy = record {
  id_bytes = λ n. n ∷ [];
  secret_bytes = λ n. n ∷ [];
  hash = λ n secret. ok secret;
}

abbrev pub old_file : File
old_file = record {
  db = record empty { principals = agent (codes "old") (codes "old-token") ∷ [] };
  principal_columns = codes "id" ∷ [];
  membership_columns = codes "channel" ∷ [];
  draws = 0;
}

abbrev pub new_file : File
new_file = (init entropy (pos 7) old_file).1

-- `opening` opens the functions that prepare a file.
unfoldable pub opening : Unit {0}
unfolding init migrate_principals migrate_channel_memberships add_column seed_principals
    seed_principal mirror_token token_row_conflicts backfill_rows backfill_principal_tokens
opening = tt

init_succeeds : (init entropy (pos 7) old_file).0 ≡ ok tt
unfolding running opening
init_succeeds = refl

init_prepares_example :
    ((more : List PrincipalRow) × (new_file.db.principals ≡ old_file.db.principals ++ more))
    × All
        (λ p. has_token entropy (pos 7) new_file.db.principal_tokens p ≡ true)
        new_file.db.principals
init_prepares_example = init_prepares entropy (pos 7) old_file init_succeeds

abbrev old_principal : Principal
old_principal = record { id = codes "old"; nick = codes "old"; team = none }

abbrev hits : ℕ
hits = 5

abbrev after_login : ℕ
after_login = 6

legacy_login :
    authenticate env.verify (codes "old-token") old_file.db hits ≡ (ok old_principal, after_login)
unfolding running
legacy_login = refl

authenticate_sound_example :
    (TokenLogin env.verify (codes "old-token") old_file.db old_principal × (after_login ≡ hits))
    ⊎ (LegacyLogin (codes "old-token") old_file.db old_principal
        × (after_login ≡ (hits + 1) % 2 ^ 64))
authenticate_sound_example =
    authenticate_sound env.verify (codes "old-token") old_file.db hits old_principal after_login
      legacy_login
