-- ===== src/Startup.antt =====
-- src/main.rs, `open` of src/store.rs, and the accept loops of src/server.rs: what the process starts
-- from its environment, which connections a listener hands to `handle_stream`, and what ends the process. The file system,
-- rustls, SQLite's `open` and the sockets are parameters. An error is the text that `Display` prints,
-- which is that of its outermost context.
pub mod Configuration
pub mod Outcome
pub mod Listening
use aircd.Base.{
  ℕ, Bool, true, false, Option, none, some, List, [], ◌∷◌, ◌++◌, Str, codes, ℤ, Result, ok, err,
}
use aircd.Store.{Entropy, File, init}
use aircd.Server.Connection.{lease_from_env}

-- `?`
module _ {A B : Type 0} where
  infixl 10 ◌>>=◌ ◌>>◌
  abbrev pub ◌>>=◌ : (result : Result A) → (A → Result B) → Result B
  (err e) >>= next = err e
  (ok a) >>= next = next a

  abbrev ◌>>◌ : Result A → Result B → Result B
  result >> later = result >>= (λ (ignored : A). later)

-- What is called: `env::var` (`none` where it fails), `fs::read`, the parsers of rustls_pemfile,
-- `with_single_cert`, and `Connection::open`.
pub record Outside (Cert PrivateKey Acceptor : Type 0) : Type 0 where
  pub var : Str → Option Str
  pub read : Str → Result (List ℕ)
  pub certs : List ℕ → List (Result Cert)
  pub private_key : List ℕ → Result (Option PrivateKey)
  pub with_single_cert : List Cert → PrivateKey → Result Acceptor
  pub open_connection : Str → Result File

abbrev pub unwrap_var : Option Str → Str → Str
unwrap_var none default = default
unwrap_var (some value) default = value

module _ {A : Type 0} where
  abbrev pub with_context : Str → Result A → Result A
  with_context text (ok a) = ok a
  with_context text (err e) = err text

  -- `collect::<Result<Vec<_>, _>>()`
  unfoldable pub collect : List (Result A) → Result (List A)
  collect [] = ok []
  collect (err e ∷ rs) = err e
  collect (ok a ∷ rs) = do others ← collect rs; ok (a ∷ others)

  -- `.ok_or_else(|| anyhow!(text))`
  abbrev pub ok_or : Str → Option A → Result A
  ok_or text none = err text
  ok_or text (some a) = ok a

  -- `if certs.is_empty() { bail!(text) }`
  abbrev pub some_of : Str → List A → Result (List A)
  some_of text [] = err text
  some_of text (a ∷ others) = ok (a ∷ others)

-- the listeners that `main` awaits
pub data Listeners (Acceptor : Type 0) : Type 0 where
  plain : Str → Listeners Acceptor
  plain_and_tls : Str → Str → Acceptor → Listeners Acceptor

-- A running process: its database, the lease of its `TaskStore`, and its listeners.
pub record Started (Acceptor : Type 0) : Type 0 where
  pub file : File
  pub lease_seconds : ℤ
  pub listeners : Listeners Acceptor

abbrev pub initialised : Result (Unit {0}) × File → Result File
initialised (ok _, file) = ok file
initialised (err e, file) = err e

module _ {Cert PrivateKey Acceptor : Type 0} (outside : Outside Cert PrivateKey Acceptor)
    (entropy : Entropy) (now : ℤ) where
  unfoldable pub open_store : Str → Result File
  open_store path = do
    file ← with_context (codes "open sqlite database") (outside.open_connection path)
    initialised (init entropy now file)

  unfoldable pub load_tls_config : Str → Str → Result Acceptor
  load_tls_config cert_path key_path = do
    cert_data ← with_context (codes "read TLS cert: " ++ cert_path) (outside.read cert_path)
    key_data ← with_context (codes "read TLS key: " ++ key_path) (outside.read key_path)
    parsed ← with_context (codes "parse TLS certificates") (collect (outside.certs cert_data))
    certs ← some_of (codes "no certificates found in " ++ cert_path) parsed
    found ← with_context (codes "parse TLS private key") (outside.private_key key_data)
    key ← ok_or (codes "no private key found in " ++ key_path) found
    with_context (codes "build TLS server config") (outside.with_single_cert certs key)

  -- the `match` on the two TLS variables
  unfoldable pub listeners_for : Str → Option Str → Option Str → Result (Listeners Acceptor)
  listeners_for bind_addr (some cert) (some key) = do
    acceptor ← load_tls_config cert key
    let tls_bind = unwrap_var (outside.var (codes "AIRCD_TLS_BIND")) (codes "127.0.0.1:6697")
    ok (plain_and_tls bind_addr tls_bind acceptor)
  listeners_for bind_addr (some cert) none =
      err (codes "both AIRCD_TLS_CERT and AIRCD_TLS_KEY must be set to enable TLS")
  listeners_for bind_addr none (some key) =
      err (codes "both AIRCD_TLS_CERT and AIRCD_TLS_KEY must be set to enable TLS")
  listeners_for bind_addr none none = ok (plain bind_addr)

  -- `main`, up to the listeners that it awaits
  unfoldable pub prepare : Result (Started Acceptor)
  prepare = do
    let bind_addr = unwrap_var (outside.var (codes "AIRCD_BIND")) (codes "127.0.0.1:6667")
    let db_path = unwrap_var (outside.var (codes "AIRCD_DB")) (codes "aircd.sqlite3")
    file ← open_store db_path
    listeners ←
        listeners_for bind_addr (outside.var (codes "AIRCD_TLS_CERT"))
          (outside.var (codes "AIRCD_TLS_KEY"))
    ok (record {
      file = file;
      lease_seconds = lease_from_env (outside.var (codes "AIRCD_TASK_LEASE_SECONDS"));
      listeners = listeners;
    })

-- What became of an accept loop: what it handed to the tasks that it spawned, in the order in which it
-- spawned them, and the error that ended it, if one did. The tasks run at the same time: nothing is said
-- of the order in which they do their work.
pub record Served (Task : Type 0) : Type 0 where
  pub spawned : List Task
  pub ended_by : Option Str

abbrev pub spawn : {Task : Type 0} → Task → Served Task → Served Task
spawn task later = record { spawned = task ∷ later.spawned; ended_by = later.ended_by }

abbrev pub ended : {Task : Type 0} → Str → Served Task
ended e = record { spawned = []; ended_by = some e }

abbrev pub bound : {Task : Type 0} → Str → Result (Unit {0}) → Served Task → Served Task
bound bind_addr (ok _) served = served
bound bind_addr (err e) served = ended (codes "bind " ++ bind_addr)

module _ {Stream : Type 0} where
  -- the loop of `listen`, by what `accept` yields: a task runs `handle_stream` on the stream
  unfoldable pub accept_loop : List (Result Stream) → Served Stream
  accept_loop [] = record { spawned = []; ended_by = none }
  accept_loop (err e ∷ rounds) = ended e
  accept_loop (ok stream ∷ rounds) = spawn stream (accept_loop rounds)

  unfoldable pub listen : Str → Result (Unit {0}) → List (Result Stream) → Served Stream
  listen bind_addr bind rounds = bound bind_addr bind (accept_loop rounds)

module _ {Stream Tls : Type 0} (handshake : Stream → Result Tls) where
  -- what a task of `listen_tls` runs `handle_stream` on: nothing where the handshake fails
  abbrev pub secured : Result Tls → Option Tls
  secured (ok tls_stream) = some tls_stream
  secured (err e) = none

  -- the loop of `listen_tls`: the handshake is the task's, and its failure ends that task alone
  unfoldable pub accept_loop_tls : List (Result Stream) → Served (Option Tls)
  accept_loop_tls [] = record { spawned = []; ended_by = none }
  accept_loop_tls (err e ∷ rounds) = ended e
  accept_loop_tls (ok stream ∷ rounds) = spawn (secured (handshake stream)) (accept_loop_tls rounds)

  unfoldable pub listen_tls : Str → Result (Unit {0}) → List (Result Stream) → Served (Option Tls)
  listen_tls bind_addr bind rounds = bound bind_addr bind (accept_loop_tls rounds)

-- What the process meets at its sockets: the outcome of `bind` at an address, what `accept` yields there
-- from the start on, the handshakes, and which listener's error comes first if both end.
pub record Sockets (Stream Tls Acceptor : Type 0) : Type 0 where
  pub bind : Str → Result (Unit {0})
  pub accepts : Str → List (Result Stream)
  pub handshake : Acceptor → Stream → Result Tls
  pub is_tls_first : Bool

-- the error that `try_join!` returns
abbrev pub first_error : Bool → Option Str → Option Str → Option Str
first_error is_tls_first none tls = tls
first_error is_tls_first (some e) none = some e
first_error true (some e) (some tls) = some tls
first_error false (some e) (some tls) = some e

abbrev pub unless_ended : {A : Type 0} → Option Str → A → Result A
unless_ended none a = ok a
unless_ended (some e) a = err e

module _ {Stream Tls Acceptor : Type 0} (sockets : Sockets Stream Tls Acceptor) where
  -- the error that ends `listen(..).await` or the `try_join!` of both listeners
  unfoldable pub await_listeners : Listeners Acceptor → Option Str
  await_listeners (plain addr) = (listen addr (sockets.bind addr) (sockets.accepts addr)).ended_by
  await_listeners (plain_and_tls addr tls_addr acceptor) =
      first_error sockets.is_tls_first
        (listen addr (sockets.bind addr) (sockets.accepts addr)).ended_by
        (listen_tls (sockets.handshake acceptor) tls_addr (sockets.bind tls_addr)
          (sockets.accepts tls_addr)).ended_by

  -- `main`: the error that ends the process, or the process, which listens on
  unfoldable pub main :
      {Cert PrivateKey : Type 0}
      → Outside Cert PrivateKey Acceptor
      → Entropy
      → ℤ
      → Result (Started Acceptor)
  main outside entropy now = do
    started ← prepare outside entropy now
    unless_ended (await_listeners started.listeners) started
