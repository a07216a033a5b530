-- ===== src/Startup/Configuration.antt =====
-- What a process that src/main.rs starts listens to, and with which certificate.
use mathlib.Core.List.{cons-ne-nil}
use aircd.Base.{
  ℕ, ◌≡◌, ◌≢◌, refl, ap, subst, ◌∙◌, true, Option, none, some, List, [], ◌∷◌, Str, codes, ℤ, All,
  Result, ok, err, ok-injective,
}
use aircd.Store.{Entropy, File, init, has_token}
use aircd.Store.Seeding.{init_prepares}
use aircd.Startup.{
  ◌>>=◌, Outside, unwrap_var, with_context, collect, ok_or, some_of, Listeners, plain,
  plain_and_tls, Started, initialised, open_store, load_tls_config, listeners_for, prepare,
}

-- Where `?` is passed there is a value behind it.
passed :
    {A B : Type 0} (result : Result A) (next : A → Result B) {value : B}
    → (result >>= next) ≡ ok value
    → (a : A) × (result ≡ ok a) × (next a ≡ ok value)
passed (err e) next h = absurd (cc h)
passed (ok a) next h = (a, refl, h)

module _ {A : Type 0} (text : Str) where
  with_context-eq-ok : (r : Result A) {a : A} → with_context text r ≡ ok a → r ≡ ok a
  with_context-eq-ok (ok a) h = h
  with_context-eq-ok (err e) h = absurd (cc h)

  ok_or-eq-ok : (o : Option A) {a : A} → ok_or text o ≡ ok a → o ≡ some a
  ok_or-eq-ok none h = absurd (cc h)
  ok_or-eq-ok (some a) h = ap some (ok-injective h)

  some_of-eq-ok : (xs : List A) {ys : List A} → some_of text xs ≡ ok ys → (xs ≡ ys) × (ys ≢ [])
  some_of-eq-ok [] h = absurd (cc h)
  some_of-eq-ok (x ∷ xs) h = (ok-injective h, λ e. cons-ne-nil x xs (ok-injective h ∙ e))

module _ {Cert PrivateKey Acceptor : Type 0} (outside : Outside Cert PrivateKey Acceptor) where
  -- The acceptor is built from the certificates and the key that the two files hold, and there is a
  -- certificate.
  pub record IsFrom (cert_path key_path : Str) (acceptor : Acceptor) : Type 0 where
    pub cert_data : List ℕ
    pub key_data : List ℕ
    pub certs : List Cert
    pub key : PrivateKey
    pub cert_read : outside.read cert_path ≡ ok cert_data
    pub key_read : outside.read key_path ≡ ok key_data
    pub certs_parsed : collect (outside.certs cert_data) ≡ ok certs
    pub some_cert : certs ≢ []
    pub key_parsed : outside.private_key key_data ≡ ok (some key)
    pub built : outside.with_single_cert certs key ≡ ok acceptor

  module _ (entropy : Entropy) (now : ℤ) where
    load_tls_config-IsFrom :
        (cert_path key_path : Str) {acceptor : Acceptor}
        → load_tls_config outside entropy now cert_path key_path ≡ ok acceptor
        → IsFrom cert_path key_path acceptor
    unfolding load_tls_config
    load_tls_config-IsFrom cert_path key_path h =
        let (cert_data, c, h1) = passed (with_context _ (outside.read cert_path)) _ h in
        let (key_data, k, h2) = passed (with_context _ (outside.read key_path)) _ h1 in
        let (parsed, s, h3) = passed (with_context _ (collect (outside.certs cert_data))) _ h2 in
        let (certs, n, h4) = passed (some_of _ parsed) _ h3 in
        let (found, f, h5) = passed (with_context _ (outside.private_key key_data)) _ h4 in
        let (key, g, h6) = passed (ok_or _ found) _ h5 in
        let (same, some_cert) = some_of-eq-ok _ parsed n in
        record {
          cert_data = cert_data;
          key_data = key_data;
          certs = certs;
          key = key;
          cert_read = with_context-eq-ok _ (outside.read cert_path) c;
          key_read = with_context-eq-ok _ (outside.read key_path) k;
          certs_parsed = with_context-eq-ok _ (collect (outside.certs cert_data)) s ∙ ap ok same;
          some_cert = some_cert;
          key_parsed =
              with_context-eq-ok _ (outside.private_key key_data) f ∙ ap ok (ok_or-eq-ok _ found g);
          built = with_context-eq-ok _ (outside.with_single_cert certs key) h6;
        }

    abbrev pub bind_addr : Str
    bind_addr = unwrap_var (outside.var (codes "AIRCD_BIND")) (codes "127.0.0.1:6667")

    abbrev tls_bind : Str
    tls_bind = unwrap_var (outside.var (codes "AIRCD_TLS_BIND")) (codes "127.0.0.1:6697")

    -- Plaintext only where neither TLS variable is set, and TLS only with the files that both name.
    abbrev pub IsAsConfigured : Listeners Acceptor → Type 0
    IsAsConfigured (plain addr) =
        (addr ≡ bind_addr)
        × (outside.var (codes "AIRCD_TLS_CERT") ≡ none)
        × (outside.var (codes "AIRCD_TLS_KEY") ≡ none)
    IsAsConfigured (plain_and_tls addr tls_addr acceptor) =
        (addr ≡ bind_addr)
        × (tls_addr ≡ tls_bind)
        × ((cert_path : Str) × (key_path : Str) × (outside.var (codes "AIRCD_TLS_CERT")
              ≡ some cert_path)
            × (outside.var (codes "AIRCD_TLS_KEY") ≡ some key_path)
            × IsFrom cert_path key_path acceptor)

    listeners_for-IsAsConfigured :
        (cert key : Option Str) {listeners : Listeners Acceptor}
        → outside.var (codes "AIRCD_TLS_CERT") ≡ cert
        → outside.var (codes "AIRCD_TLS_KEY") ≡ key
        → listeners_for outside entropy now bind_addr cert key ≡ ok listeners
        → IsAsConfigured listeners
    unfolding listeners_for
    listeners_for-IsAsConfigured (some cert) (some key) c k h =
        let (acceptor, loaded, same) = passed (load_tls_config outside entropy now cert key) _ h in
        subst IsAsConfigured (ok-injective same)
          (refl, refl, (cert, key, c, k, load_tls_config-IsFrom cert key loaded))
    listeners_for-IsAsConfigured (some cert) none c k h = absurd (cc h)
    listeners_for-IsAsConfigured none (some key) c k h = absurd (cc h)
    listeners_for-IsAsConfigured none none c k h =
        subst IsAsConfigured (ok-injective h) (refl, c, k)

    initialised-eq-ok :
        (r : Result (Unit {0}) × File) {file : File}
        → initialised r ≡ ok file
        → (r.0 ≡ ok tt) × (r.1 ≡ file)
    initialised-eq-ok (ok u, file) h = (refl, ok-injective h)
    initialised-eq-ok (err e, file) h = absurd (cc h)

    open_store-covers :
        (path : Str) {file : File}
        → open_store outside entropy now path ≡ ok file
        → All (λ p. has_token entropy now file.db.principal_tokens p ≡ true) file.db.principals
    unfolding open_store
    open_store-covers path h =
        let (opened, o, i) = passed (with_context _ (outside.open_connection path)) _ h in
        let (done, same) = initialised-eq-ok (init entropy now opened) i in
        subst
          (λ (f : File).
            All (λ p. has_token entropy now f.db.principal_tokens p ≡ true) f.db.principals)
          same ((init_prepares entropy now opened done).1)

    pub prepare_sound :
        (started : Started Acceptor)
        → prepare outside entropy now ≡ ok started
        → IsAsConfigured started.listeners
          × All
              (λ p. has_token entropy now started.file.db.principal_tokens p ≡ true)
              started.file.db.principals
    unfolding prepare
    prepare_sound started h =
        let (file, opened, h1) = passed (open_store outside entropy now _) _ h in
        let (listeners, chosen, same) =
          passed (listeners_for outside entropy now bind_addr _ _) _ h1 in
        (
          subst IsAsConfigured (ap (λ (s : Started Acceptor). s.listeners) (ok-injective same))
              (listeners_for-IsAsConfigured _ _ refl refl chosen),
          subst
              (λ (f : File).
                All (λ p. has_token entropy now f.db.principal_tokens p ≡ true) f.db.principals)
              (ap (λ (s : Started Acceptor). s.file) (ok-injective same))
              (open_store-covers _ opened),
        )
