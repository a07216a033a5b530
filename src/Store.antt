-- ===== src/Store.antt =====
-- src/store.rs: the migrations, the seeded principals and the backfill of `principal_tokens`.
-- Random bytes and the salted argon2 hash come from libraries: they are an `Entropy`, whose members
-- take the number of the draw. Rows carry the default of a column that their table does not have
-- yet, which is what ALTER TABLE fills in.
pub mod Backfill
pub mod Seeding
use aircd.Base.{
  ℕ, ◌+◌, Bool, false, ◌&&◌, ◌||◌, not, Option, none, some, List, [], ◌∷◌, ◌++◌, Str, codes, ◌==◌,
  if◌then◌else◌, any, select, ℤ, pos, Result, ok, err,
}
use aircd.Database.{Database, PrincipalRow, TokenRow}
use aircd.Tokens.{generate}

pub record Entropy : Type 0 where
  pub id_bytes : ℕ → List ℕ
  pub secret_bytes : ℕ → List ℕ
  -- the outcome of hashing a secret with the salt of a draw
  pub hash : ℕ → Str → Result Str

-- The database file: its tables, the columns of the two tables that are migrated, and the number of
-- draws made so far.
pub record File : Type 0 where
  pub db : Database
  pub principal_columns : List Str
  pub membership_columns : List Str
  pub draws : ℕ

abbrev pub migrated_legacy_label : Str
migrated_legacy_label = codes "migrated-legacy"

abbrev pub seed_label : Str
seed_label = codes "seed"

-- the count over `pragma_table_info`, and ALTER TABLE if it is 0
unfoldable pub add_column : Str → List Str → List Str
add_column column columns =
    if any (λ c. c == column) columns then columns else columns ++ column ∷ []

unfoldable pub migrate_principals : File → File
unfolding add_column
migrate_principals file = record file {
  principal_columns = add_column (codes "disconnected_at") (
      add_column (codes "connected_at")
        (add_column (codes "last_seen_seq") file.principal_columns));
}

unfoldable pub migrate_channel_memberships : File → File
unfolding add_column
migrate_channel_memberships file = record file {
  membership_columns = add_column (codes "last_seen_seq") file.membership_columns;
}

abbrev pub is_labelled : Str → Option Str → Bool
is_labelled label none = false
is_labelled label (some l) = l == label

-- the UNIQUE constraints on `token_id` and on `(principal_id, label)`
unfoldable pub token_row_conflicts : Str → Str → Str → TokenRow → Bool
token_row_conflicts principal_id token_id label t =
    t.token_id == token_id || (t.principal_id == principal_id && is_labelled label t.label)

abbrev pub insert_token_row : Str → Str → Str → Str → ℤ → Str → File → Result (Unit {0}) × File
insert_token_row principal_id token_id token_hash label now failure file =
    let row : TokenRow = record {
      principal_id = principal_id;
      token_id = token_id;
      token_hash = token_hash;
      label = some label;
      created_at = now;
      revoked_at = none;
    } in
    if any (token_row_conflicts principal_id token_id label) file.db.principal_tokens
    then (err failure, file)
    else (
      ok tt,
      record file {
        db = record file.db { principal_tokens = file.db.principal_tokens ++ row ∷ [] };
      },
    )

module _ (entropy : Entropy) (now : ℤ) where
  abbrev pub insert_hashed : Str → Str → Str → Str → File → Result Str → Result (Unit {0}) × File
  insert_hashed principal_id token_id label failure file (err e) = (err e, file)
  insert_hashed principal_id token_id label failure file (ok token_hash) =
      insert_token_row principal_id token_id token_hash label now failure file

  -- `tokens::generate`, `tokens::hash` and the INSERT into `principal_tokens`
  unfoldable pub mirror_token : Str → Str → Str → Str → File → Result (Unit {0}) × File
  unfolding generate token_row_conflicts
  mirror_token principal_id plaintext label failure file =
      let n = file.draws in
      let (_, token_id_hex, _) = generate (entropy.id_bytes n) (entropy.secret_bytes n) in
      insert_hashed principal_id token_id_hex label failure (record file { draws = n + 1 })
        (entropy.hash n plaintext)

  abbrev pub new_principal : Str → Str → Str → Str → PrincipalRow
  new_principal id nick token team = record {
    id = id;
    nick = nick;
    token = token;
    team = some team;
    last_seen_seq = pos 0;
    connected_at = none;
    disconnected_at = none;
    created_at = now;
  }

  -- INSERT OR IGNORE: a row with the id or the token is there already, and nothing is written
  unfoldable pub seed_principal : Str → Str → Str → Str → File → Result (Unit {0}) × File
  unfolding mirror_token
  seed_principal id nick token team file =
      if any (λ p. p.id == id || p.token == token) file.db.principals
      then (ok tt, file)
      else mirror_token id token seed_label (codes "seed principal_tokens row") (record file {
        db = record file.db {
          principals = file.db.principals ++ new_principal id nick token team ∷ [];
        };
      })

  abbrev pub then_seed :
      Result (Unit {0}) × File → (File → Result (Unit {0}) × File) → Result (Unit {0}) × File
  then_seed (ok _, file) next = next file
  then_seed (err e, file) next = (err e, file)

  -- `LEFT JOIN principal_tokens t ON t.principal_id = p.id WHERE t.id IS NULL`
  abbrev pub has_token : List TokenRow → PrincipalRow → Bool
  has_token tokens p = any (λ t. t.principal_id == p.id) tokens

  abbrev pub needs_backfill : Database → List PrincipalRow
  needs_backfill db = select (λ p. not (has_token db.principal_tokens p)) db.principals

  unfoldable pub backfill_rows : List PrincipalRow → File → Result (Unit {0}) × File
  unfolding mirror_token
  backfill_rows [] file = (ok tt, file)
  backfill_rows (p ∷ rows) file =
      then_seed
        (mirror_token p.id p.token migrated_legacy_label
          (codes "insert migrated-legacy principal_tokens row") file)
        (backfill_rows rows)

  unfoldable pub backfill_principal_tokens : File → Result (Unit {0}) × File
  unfolding backfill_rows select
  backfill_principal_tokens file = backfill_rows (needs_backfill file.db) file

  abbrev pub demo_principals : List (Str × Str × Str × Str)
  demo_principals =
      (codes "human", codes "human", codes "human-token", codes "demo")
      ∷ (codes "agent-a", codes "agent-a", codes "agent-a-token", codes "demo")
      ∷ (codes "agent-b", codes "agent-b", codes "agent-b-token", codes "demo")
      ∷ (codes "agent-c", codes "agent-c", codes "agent-c-token", codes "demo")
      ∷ (codes "agent-1", codes "agent-1", codes "test-token-1", codes "test")
      ∷ (codes "agent-2", codes "agent-2", codes "test-token-2", codes "test")
      ∷ (codes "agent-3", codes "agent-3", codes "test-token-3", codes "test")
      ∷ []

  unfoldable pub seed_principals : List (Str × Str × Str × Str) → File → Result (Unit {0}) × File
  unfolding seed_principal
  seed_principals [] file = (ok tt, file)
  seed_principals ((id, nick, token, team) ∷ seeds) file =
      then_seed (seed_principal id nick token team file) (seed_principals seeds)

  -- what `init` does behind the CREATE statements
  unfoldable pub init : File → Result (Unit {0}) × File
  unfolding migrate_principals migrate_channel_memberships seed_principals backfill_principal_tokens
  init file =
      then_seed
        (seed_principals demo_principals (migrate_channel_memberships (migrate_principals file)))
        backfill_principal_tokens
