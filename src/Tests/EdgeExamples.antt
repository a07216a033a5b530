-- ===== src/Tests/EdgeExamples.antt =====
-- The process around the server: a token with its hash, a start with TLS, and an accept loop.
use mathlib.Core.List.{Memᴰ}
use aircd.Base.{
  ◌≡◌, refl, arith, ℕ, Option, none, some, List, [], ◌∷◌, Str, codes, pos, ok, err, Result, ◌==◌,
  false, if◌then◌else◌, ok-injective, eq_refl, sym, find, ◌+◌, ◌%◌, eqb,
}
use aircd.Database.{Database, TokenRow, empty}
use aircd.Tokens.{generate}
use aircd.Tokens.Hashing.{Argon2, accepted, wrong_password, IsSound, hash, verify}
use aircd.Auth.{principal_of, authenticate}
use aircd.Auth.Issue.{issued_token_works}
use aircd.Startup.{
  Outside, Started, plain_and_tls, main, prepare, Sockets, await_listeners, accept_loop, collect,
  open_store, load_tls_config, listeners_for, listen, listen_tls, accept_loop_tls,
}
use aircd.Startup.Outcome.{Outcome, main_decides}
use aircd.Protocol.Understood.{IsChannel}
use aircd.Tests.Samples.{agent}
use aircd.Tests.StoreExamples.{entropy, old_file, new_file, opening}
use aircd.Tests.Running.{running}

-- A hash that is its password.
abbrev plain_hash : Argon2 Str
plain_hash = record {
  salt = λ n. n ∷ [];
  hash_password = λ secret salt. ok secret;
  read_phc = λ phc. ok phc;
  verify_password = λ secret phc. if secret == phc then accepted else wrong_password;
}

plain_hash-IsSound : IsSound plain_hash
plain_hash-IsSound = record {
  accepts = λ secret salt phc h. (phc, refl, rw (sym (ok-injective h), eq_refl secret) refl);
}

abbrev id_bytes : List ℕ
id_bytes = 15 ∷ []

abbrev secret_bytes : List ℕ
secret_bytes = 160 ∷ 7 ∷ []

abbrev issued : TokenRow
issued = record {
  principal_id = codes "agent-a";
  token_id = codes "0f";
  token_hash = codes "a007";
  label = some (codes "laptop");
  created_at = pos 1;
  revoked_at = none;
}

abbrev with_token : Database
with_token = record empty {
  principals = agent (codes "agent-a") (codes "other") ∷ [];
  principal_tokens = issued ∷ [];
}

secret_hashed : hash plain_hash 0 (generate id_bytes secret_bytes).2 ≡ ok (codes "a007")
unfolding running hash
secret_hashed = refl

id_generated : codes "0f" ≡ (generate id_bytes secret_bytes).1
unfolding running
id_generated = refl

owner_found :
    find (λ q. q.id == codes "agent-a") with_token.principals
    ≡ some (agent (codes "agent-a") (codes "other"))
unfolding running
owner_found = refl

issued_token_works_example :
    authenticate (verify plain_hash) (generate id_bytes secret_bytes).0 with_token 3
    ≡ (ok (principal_of (agent (codes "agent-a") (codes "other"))), 3)
issued_token_works_example =
    issued_token_works plain_hash plain_hash-IsSound id_bytes secret_bytes (λ e. cc) (λ e. cc) 0
      (codes "a007") secret_hashed with_token 3 issued (agent (codes "agent-a") (codes "other"))
      (tt, tt) (Memᴰ.head refl) id_generated refl refl owner_found

-- Both TLS variables are set, and a file is its one certificate or its key.
abbrev tls_var : Str → Option Str
tls_var name =
    if name == codes "AIRCD_TLS_CERT"
    then some (codes "cert.pem")
    else if name == codes "AIRCD_TLS_KEY"
    then some (codes "key.pem")
    else none

abbrev outside : Outside Str Str Str
outside = record {
  var = tls_var;
  read = λ path. ok path;
  certs = λ bytes. ok bytes ∷ [];
  private_key = λ bytes. ok (some bytes);
  with_single_cert = λ certs key. ok key;
  open_connection = λ path. ok old_file;
}

abbrev tls_started : Started Str
tls_started = record {
  file = new_file;
  lease_seconds = pos 300;
  listeners = plain_and_tls (codes "127.0.0.1:6667") (codes "127.0.0.1:6697") (codes "key.pem");
}

prepared : prepare outside entropy (pos 7) ≡ ok tls_started
unfolding running opening prepare collect open_store load_tls_config listeners_for
prepared = refl

-- A handshake that succeeds on odd streams.
abbrev handshake : Str → ℕ → Result ℕ
handshake acceptor n = if eqb (n % 2) 1 then ok (n + 100) else err (codes "bad handshake")

-- three connections, and then no file for a fourth
abbrev rounds : List (Result ℕ)
rounds = ok 1 ∷ ok 2 ∷ ok 3 ∷ err (codes "too many files") ∷ []

-- the plaintext listener has no connection yet
abbrev sockets : Sockets ℕ ℕ Str
sockets = record {
  bind = λ addr. ok tt;
  accepts = λ addr. if addr == codes "127.0.0.1:6697" then rounds else [];
  handshake = handshake;
  is_tls_first = false;
}

out_of_files : await_listeners sockets tls_started.listeners ≡ some (codes "too many files")
unfolding running await_listeners listen listen_tls accept_loop accept_loop_tls
out_of_files = refl

main_decides_example :
    Outcome outside entropy (pos 7) sockets (main sockets outside entropy (pos 7))
main_decides_example = main_decides outside entropy (pos 7) sockets

first_and_third :
    listen_tls (handshake (codes "key.pem")) (codes "127.0.0.1:6697") (ok tt) rounds
    ≡ record { spawned = some 101 ∷ none ∷ some 103 ∷ []; ended_by = some (codes "too many files") }
unfolding listen_tls accept_loop_tls
first_and_third = refl

pub work-IsChannel : IsChannel (codes "#work")
unfolding running
work-IsChannel = ((omega arith, refl, (refl, (refl, (refl, (refl, tt))))), refl)
