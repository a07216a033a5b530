-- ===== src/Store/Seeding.antt =====
-- `init` of src/store.rs: what seeding and backfill leave of the principals that are there.
use aircd.Base.{
  ℤ, ◌≡◌, refl, append-nil, append_assoc, ◌||◌, ap, sym, ◌∙◌, true, Bool-cases, inl, inr, List, [],
  ◌∷◌, ◌++◌, Str, any, Result, ok, err, ◌==◌, All,
}
use aircd.Database.{PrincipalRow}
use aircd.Store.Backfill.{mirror_token-adds, every_principal_has_a_token}
use aircd.Store.{
  Entropy, File, then_seed, has_token, seed_principal, new_principal, seed_label,
  backfill_principal_tokens, seed_principals, demo_principals, migrate_principals,
  migrate_channel_memberships, init,
}

module _ (entropy : Entropy) (now : ℤ) where
  -- the principals of a file that has at least those of another, in the same order
  Extends : File → File → Type 0
  Extends file file' =
      (more : List PrincipalRow) × (file'.db.principals ≡ file.db.principals ++ more)

  seed_principal-Extends :
      (id nick token team : Str) (file : File)
      → (seed_principal entropy now id nick token team file).0 ≡ ok tt
      → Extends file (seed_principal entropy now id nick token team file).1
  unfolding seed_principal Extends
  seed_principal-Extends id nick token team file h =
      elim (Bool-cases (any (λ p. p.id == id || p.token == token) file.db.principals)) [
        | inl e ↦ rw e ([], sym (append-nil file.db.principals))
        | inr e ↦ rw e (
          new_principal entropy now id nick token team ∷ [],
          (mirror_token-adds entropy now id token seed_label _ _ (rw e at h)).principals_kept,
        )
      ]

  seed_principals-Extends :
      (seeds : List (Str × Str × Str × Str)) (file : File)
      → (seed_principals entropy now seeds file).0 ≡ ok tt
      → Extends file (seed_principals entropy now seeds file).1
  unfolding seed_principals Extends
  seed_principals-Extends [] file h = ([], sym (append-nil file.db.principals))
  seed_principals-Extends ((id, nick, token, team) ∷ seeds) file h =
      go (seed_principal entropy now id nick token team file)
        (seed_principal-Extends id nick token team file) (λ f. seed_principals-Extends seeds f) h
    where
      go :
          (first : Result (Unit {0}) × File)
          → (first.0 ≡ ok tt → Extends file first.1)
          → ((f : File)
              → (seed_principals entropy now seeds f).0 ≡ ok tt
              → Extends f (seed_principals entropy now seeds f).1)
          → (then_seed entropy now first (seed_principals entropy now seeds)).0 ≡ ok tt
          → Extends file (then_seed entropy now first (seed_principals entropy now seeds)).1
      go (err e, f) one rest h = absurd (cc h)
      go (ok u, f) one rest h =
          let (more, same) = one refl in
          let (later, same') = rest f h in
          (
            more ++ later,
            same' ∙ ap (λ ps. ps ++ later) same ∙ append_assoc file.db.principals more later,
          )

  -- When `init` succeeds, the principals that the file had are there as before, in front of those that
  -- were seeded, and every principal has a row in `principal_tokens`, whatever the file held.
  pub init_prepares :
      (file : File)
      → (init entropy now file).0 ≡ ok tt
      → ((more : List PrincipalRow) × ((init entropy now file).1.db.principals
            ≡ file.db.principals ++ more))
        × All
            (λ p. has_token entropy now (init entropy now file).1.db.principal_tokens p ≡ true)
            (init entropy now file).1.db.principals
  unfolding init Extends migrate_principals migrate_channel_memberships
  init_prepares file h =
      let migrated = migrate_channel_memberships (migrate_principals file) in
      go (seed_principals entropy now (demo_principals entropy now) migrated)
        (seed_principals-Extends (demo_principals entropy now) migrated) h
    where
      go :
          (first : Result (Unit {0}) × File)
          → (first.0 ≡ ok tt → Extends file first.1)
          → (then_seed entropy now first (backfill_principal_tokens entropy now)).0 ≡ ok tt
          → ((more : List PrincipalRow) × ((then_seed entropy now first
                  (backfill_principal_tokens entropy now)).1.db.principals
                ≡ file.db.principals ++ more))
            × All
                (λ p.
                  has_token entropy now
                    (then_seed entropy now first
                      (backfill_principal_tokens entropy now)).1.db.principal_tokens
                    p
                  ≡ true)
                (then_seed entropy now first
                  (backfill_principal_tokens entropy now)).1.db.principals
      go (err e, f) seeded h = absurd (cc h)
      go (ok u, f) seeded h =
          let (more, same) = seeded refl in
          let (covered, kept) = every_principal_has_a_token entropy now f h in
          ((more, kept ∙ same), covered)
