-- ===== src/Startup/Outcome.antt =====
-- A process that src/main.rs starts, or fails to start, and why.
use aircd.Base.{
  ◌≡◌, ◌⊎◌, inl, inr, refl, sym, ap, true, Option, none, some, Str, codes, ℤ, All, Result, ok, err,
}
use aircd.Store.{Entropy, has_token}
use aircd.Startup.{
  ◌>>=◌, Outside, unwrap_var, Started, open_store, load_tls_config, listeners_for, prepare,
  unless_ended, Sockets, await_listeners, main,
}
use aircd.Startup.Configuration.{bind_addr, IsAsConfigured, prepare_sound}
use aircd.Startup.Listening.{AllUp, OneDown, Awaited, await_listeners-Awaited}

abbrev error_or : {A : Type 0} → Str → Result A → Str
error_or d (ok a) = d
error_or d (err e) = e

err-injective : {A : Type 0} {d e : Str} → ◌≡◌ {A = Result A} (err d) (err e) → d ≡ e
err-injective {d} h = ap (error_or d) h

-- Where the whole fails, a part has failed.
stopped :
    {A B : Type 0} (result : Result A) (next : A → Result B) {e : Str}
    → (result >>= next) ≡ err e
    → (result ≡ err e) ⊎ ((a : A) × (result ≡ ok a) × (next a ≡ err e))
stopped (err e) next h = inl (ap err (err-injective h))
stopped (ok a) next h = inr (a, refl, h)

module _ {Cert PrivateKey Acceptor : Type 0} (outside : Outside Cert PrivateKey Acceptor)
    (entropy : Entropy) (now : ℤ) where
  abbrev db_path : Str
  db_path = unwrap_var (outside.var (codes "AIRCD_DB")) (codes "aircd.sqlite3")

  -- Exactly one of the TLS variables is set.
  abbrev pub IsHalf : Option Str → Option Str → Type 0
  IsHalf (some cert) none = Unit
  IsHalf none (some key) = Unit
  IsHalf _ _ = ⊥

  -- The database does not open, or one TLS variable alone is set, or the TLS files do not load.
  abbrev pub IsReason : Str → Type 0
  IsReason e =
      (open_store outside entropy now db_path ≡ err e)
      ⊎ ((IsHalf (outside.var (codes "AIRCD_TLS_CERT")) (outside.var (codes "AIRCD_TLS_KEY"))
            × (e ≡ codes "both AIRCD_TLS_CERT and AIRCD_TLS_KEY must be set to enable TLS"))
          ⊎ ((cert : Str) × (key : Str) × (outside.var (codes "AIRCD_TLS_CERT") ≡ some cert)
              × (outside.var (codes "AIRCD_TLS_KEY") ≡ some key)
              × (load_tls_config outside entropy now cert key ≡ err e)))

  listeners_for-IsReason :
      (cert key : Option Str) {e : Str}
      → outside.var (codes "AIRCD_TLS_CERT") ≡ cert
      → outside.var (codes "AIRCD_TLS_KEY") ≡ key
      → listeners_for outside entropy now (bind_addr outside entropy now) cert key ≡ err e
      → IsReason e
  unfolding listeners_for
  listeners_for-IsReason (some cert) (some key) c k h =
      elim (stopped (load_tls_config outside entropy now cert key) _ h) [
        | inl fails ↦ inr (inr (cert, key, c, k, fails))
        | inr (acceptor, loaded, same) ↦ absurd (cc same)
      ]
  listeners_for-IsReason (some cert) none c k h = inr (inl (rw (c, k) tt, sym (err-injective h)))
  listeners_for-IsReason none (some key) c k h = inr (inl (rw (c, k) tt, sym (err-injective h)))
  listeners_for-IsReason none none c k h = absurd (cc h)

  prepare_fails : {e : Str} → prepare outside entropy now ≡ err e → IsReason e
  unfolding prepare
  prepare_fails h = elim (stopped (open_store outside entropy now db_path) _ h) [
    | inl fails ↦ inl fails
    | inr (file, opened, h1) ↦
        elim (stopped (listeners_for outside entropy now (bind_addr outside entropy now) _ _) _
          h1) [
            | inl fails ↦ listeners_for-IsReason _ _ refl refl fails
            | inr (listeners, chosen, same) ↦ absurd (cc same)
          ]
  ]

  -- What was prepared is as it is configured, and every principal has a row in `principal_tokens`.
  abbrev pub IsPrepared : Started Acceptor → Type 0
  IsPrepared started =
      IsAsConfigured outside entropy now started.listeners
      × All (λ p. has_token entropy now started.file.db.principal_tokens p ≡ true)
          started.file.db.principals

  module _ {Stream Tls : Type 0} (sockets : Sockets Stream Tls Acceptor) where
    abbrev pub Outcome : Result (Started Acceptor) → Type 0
    Outcome (ok started) = IsPrepared started × AllUp sockets started.listeners
    Outcome (err e) =
        IsReason e
        ⊎ ((started : Started Acceptor) × IsPrepared started × OneDown sockets started.listeners e)

    awaited :
        (started : Started Acceptor) (end : Option Str)
        → IsPrepared started
        → Awaited sockets started.listeners end
        → Outcome (unless_ended end started)
    awaited started none prepared up = (prepared, up)
    awaited started (some e) prepared down = inr (started, prepared, down)

    -- The process either listens as it is configured or says why not. If it listens, it is in plaintext
    -- alone only if neither TLS variable is set, and with TLS only if both are, by a certificate and a
    -- key from the files that they name; every principal has a row in `principal_tokens`; and the
    -- address of every listener is bound, and nothing but streams has come from its `accept`. If it
    -- fails, the database does not open, or exactly one TLS variable is set, or the TLS files do not
    -- load, or, of the listeners that are configured in this way, one has an address that cannot be
    -- bound or an `accept` that fails; and the error is the one of that step.
    pub main_decides : Outcome (main sockets outside entropy now)
    unfolding main
    main_decides = go (prepare outside entropy now) refl
      where
        go :
            (r : Result (Started Acceptor))
            → prepare outside entropy now ≡ r
            → Outcome
                (r >>= λ started. unless_ended (await_listeners sockets started.listeners) started)
        go (ok started) h =
            awaited started _ (prepare_sound outside entropy now started h)
              (await_listeners-Awaited sockets started.listeners)
        go (err e) h = inl (prepare_fails h)
