-- ===== src/Store/Backfill.antt =====
-- `init` of src/store.rs: the backfill of `principal_tokens` behind the seeds.
use aircd.Base.{
  arith, ◌+◌, ℤ, ◌≡◌, refl, subst, sym, ◌∙◌, true, Bool-cases, inl, inr, List, [], ◌∷◌, ◌++◌, Str,
  any, select, not, Result, ok, err, if◌then◌else◌, All,
}
use aircd.Database.{Database, PrincipalRow, TokenRow}
use aircd.Store.{
  Entropy, File, token_row_conflicts, insert_token_row, insert_hashed, mirror_token, then_seed,
  has_token, needs_backfill, backfill_rows, backfill_principal_tokens, migrated_legacy_label,
}

module _ (entropy : Entropy) (now : ℤ) (p : PrincipalRow) where
  has_token-append :
      (ts us : List TokenRow)
      → has_token entropy now (ts ++ us) p
        ≡ (if has_token entropy now ts p then true else has_token entropy now us p)
  has_token-append [] us = ground arith
  has_token-append (t ∷ ts) us = ground (arith, has_token-append ts us)

-- the file behind a token row that was written for a principal
pub record Mirrored (principal_id : Str) (file file' : File) : Type 0 where
  row : TokenRow
  owner : row.principal_id ≡ principal_id
  pub principals_kept : file'.db.principals ≡ file.db.principals
  row_added : file'.db.principal_tokens ≡ file.db.principal_tokens ++ row ∷ []

module _ (entropy : Entropy) (now : ℤ) where
  insert_token_row-adds :
      (principal_id token_id token_hash label failure : Str) (file : File)
      → (insert_token_row principal_id token_id token_hash label now failure file).0 ≡ ok tt
      → Mirrored principal_id file
          (insert_token_row principal_id token_id token_hash label now failure file).1
  insert_token_row-adds principal_id token_id token_hash label failure file h =
      elim (Bool-cases
        (any (token_row_conflicts principal_id token_id label) file.db.principal_tokens)) [
          | inl e ↦ absurd (cc (rw e at h))
          | inr e ↦
              rw e (record { row = _; owner = refl; principals_kept = refl; row_added = refl })
        ]

  insert_hashed-adds :
      (principal_id token_id label failure : Str) (file : File) (hashed : Result Str)
      → (insert_hashed entropy now principal_id token_id label failure file hashed).0 ≡ ok tt
      → Mirrored principal_id file
          (insert_hashed entropy now principal_id token_id label failure file hashed).1
  insert_hashed-adds principal_id token_id label failure file (err e) h = absurd (cc h)
  insert_hashed-adds principal_id token_id label failure file (ok token_hash) h =
      insert_token_row-adds principal_id token_id token_hash label failure file h

  pub mirror_token-adds :
      (principal_id plaintext label failure : Str) (file : File)
      → (mirror_token entropy now principal_id plaintext label failure file).0 ≡ ok tt
      → Mirrored principal_id file
          (mirror_token entropy now principal_id plaintext label failure file).1
  unfolding mirror_token
  mirror_token-adds principal_id plaintext label failure file h =
      let added =
        insert_hashed-adds principal_id _ label failure (record file { draws = file.draws + 1 })
          (entropy.hash file.draws plaintext) h in
      record {
        row = added.row;
        owner = added.owner;
        principals_kept = added.principals_kept;
        row_added = added.row_added;
      }

  abbrev HasToken : File → PrincipalRow → Type 0
  HasToken file p = has_token entropy now file.db.principal_tokens p ≡ true

  Mirrored-keeps :
      (id : Str) (file file' : File) (p : PrincipalRow)
      → Mirrored id file file'
      → HasToken file p
      → HasToken file' p
  Mirrored-keeps id file file' p m h =
      ground (
        arith,
        m.row_added,
        has_token-append entropy now p file.db.principal_tokens (m.row ∷ []),
        h,
      )

  Mirrored-has :
      (file file' : File) (p : PrincipalRow) → Mirrored p.id file file' → HasToken file' p
  Mirrored-has file file' p m = ground (
    arith,
    m.row_added,
    has_token-append entropy now p file.db.principal_tokens (m.row ∷ []),
    m.owner,
  )

  -- what the backfill of some rows has done
  record Backfilled (rows : List PrincipalRow) (file file' : File) : Type 0 where
    principals_kept : file'.db.principals ≡ file.db.principals
    tokens_kept : (p : PrincipalRow) → HasToken file p → HasToken file' p
    covered : All (HasToken file') rows

  then-Backfilled :
      (p : PrincipalRow) (rows : List PrincipalRow) (file : File) (first : Result (Unit {0}) × File)
      (rest : File → Result (Unit {0}) × File)
      → (first.0 ≡ ok tt → Mirrored p.id file first.1)
      → ((rest first.1).0 ≡ ok tt → Backfilled rows first.1 (rest first.1).1)
      → (then_seed entropy now first rest).0 ≡ ok tt
      → Backfilled (p ∷ rows) file (then_seed entropy now first rest).1
  then-Backfilled p rows file (err e, file') rest mirrored later h = absurd (cc h)
  then-Backfilled p rows file (ok u, file') rest mirrored later h =
      let m = mirrored refl in
      let b = later h in
      record {
        principals_kept = b.principals_kept ∙ m.principals_kept;
        tokens_kept = λ q k. b.tokens_kept q (Mirrored-keeps p.id file file' q m k);
        covered = (b.tokens_kept p (Mirrored-has file file' p m), b.covered);
      }

  backfill_rows-covers :
      (rows : List PrincipalRow) (file : File)
      → (backfill_rows entropy now rows file).0 ≡ ok tt
      → Backfilled rows file (backfill_rows entropy now rows file).1
  unfolding backfill_rows
  backfill_rows-covers [] file h = record {
    principals_kept = refl;
    tokens_kept = λ p k. k;
    covered = tt;
  }
  backfill_rows-covers (p ∷ rows) file h =
      then-Backfilled p rows file _ (backfill_rows entropy now rows)
        (mirror_token-adds p.id p.token migrated_legacy_label _ file) (backfill_rows-covers rows _)
        h

  covered-All :
      (db : Database) (P : PrincipalRow → Type 0)
      → ((p : PrincipalRow) → has_token entropy now db.principal_tokens p ≡ true → P p)
      → (ps : List PrincipalRow)
      → All P (select (λ p. not (has_token entropy now db.principal_tokens p)) ps)
      → All P ps
  unfolding select
  covered-All db P had [] h = tt
  covered-All db P had (p ∷ ps) h =
      elim (Bool-cases (has_token entropy now db.principal_tokens p)) [
        | inl e ↦ (had p e, covered-All db P had ps (rw e at h))
        | inr e ↦ let (new, later) = rw e at h in (new, covered-All db P had ps later)
      ]

  -- behind a backfill that succeeds, every principal has a row in `principal_tokens`
  pub every_principal_has_a_token :
      (file : File)
      → (backfill_principal_tokens entropy now file).0 ≡ ok tt
      → All
          (λ p.
            has_token entropy now
              (backfill_principal_tokens entropy now file).1.db.principal_tokens
              p
            ≡ true)
          (backfill_principal_tokens entropy now file).1.db.principals
        × ((backfill_principal_tokens entropy now file).1.db.principals ≡ file.db.principals)
  unfolding backfill_principal_tokens
  every_principal_has_a_token file h =
      let b = backfill_rows-covers (needs_backfill entropy now file.db) file h in
      (
        subst
            (All (HasToken (backfill_rows entropy now (needs_backfill entropy now file.db) file).1))
            (sym b.principals_kept)
            (covered-All file.db _ b.tokens_kept file.db.principals b.covered),
        b.principals_kept,
      )
