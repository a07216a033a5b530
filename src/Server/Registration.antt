-- ===== src/Server/Registration.antt =====
-- `try_register`, `ensure_registered` and `disconnect` of src/server.rs.
use aircd.Base.{
  Bool, true, false, Option, none, some, List, [], ◌∷◌, ◌++◌, map, Str, codes, ◌==◌, ℤ, pos, eqb,
  if◌then◌else◌, length, update_where, Result, ok, err,
}
use aircd.Strings.{concat}
use aircd.Strings.Numbers.{show_ℕ}
use aircd.Maps.{lookup, insert, remove}
use aircd.Database.{Database}
use aircd.Auth.{Principal, authenticate}
use aircd.World.{
  World, ServerInner, ClientHandle, Session, Env, Exec, ◌>>=◌, ◌>>◌, pure, lift, gets, modify,
  unix_timestamp, send, say, session_principal,
}
use aircd.Server.Members.{Membership, mark_connected_and_memberships}
use aircd.Server.Chat.{enter_channel, replay_history}

abbrev pub handle_of : Session → ClientHandle
handle_of session = record {
  session_id = session.session_id;
  tx = session.tx;
  shutdown_tx = session.shutdown_tx;
}

-- the notice to the session that `clients.insert` replaced
unfoldable pub shut_down : Str → Option ClientHandle → Exec (Unit {0})
shut_down id none = pure tt
shut_down id (some old_client) = do
  send old_client.shutdown_tx (codes "Replaced by a newer session for " ++ id)
  pure tt

unfoldable pub enter_channels : Str → List Str → ServerInner → ServerInner
enter_channels id [] inner = inner
enter_channels id (channel ∷ channels) inner =
    enter_channels id channels (enter_channel id channel inner)

-- the block that holds the lock on `inner`
unfoldable pub attach : Session → Str → List Str → Exec (Unit {0})
attach session id channels = do
  old_client ← gets (λ w. lookup id w.inner.clients)
  modify (λ w. record w {
    inner = record w.inner { clients = insert id (handle_of session) w.inner.clients };
  })
  shut_down id old_client
  modify (λ w. record w { inner = enter_channels id channels w.inner })

abbrev pub team_suffix : Option Str → Str
team_suffix none = []
team_suffix (some team) = concat (codes " (" ∷ team ∷ codes ")" ∷ [])

abbrev pub welcome : Principal → Str
welcome p =
    concat (
      codes ":aircd 001 "
      ∷ p.nick
      ∷ codes " :Welcome to aircd, "
      ∷ p.nick
      ∷ team_suffix p.team
      ∷ [])

unfoldable pub say_joins : Session → Str → List Str → Exec (Unit {0})
say_joins session nick [] = pure tt
say_joins session nick (channel ∷ channels) = do
  say session (concat (codes ":" ∷ nick ∷ codes " JOIN " ∷ channel ∷ []))
  say_joins session nick channels

unfoldable pub replay_each : Session → List Membership → Exec (Unit {0})
replay_each session [] = pure tt
replay_each session (m ∷ ms) = do
  replay_history session (m.channel ∷ []) m.last_seen_seq (pos 200)
  replay_each session ms

unfoldable pub replay_missed : Session → Str → List Membership → Exec (Unit {0})
replay_missed session nick [] = pure tt
replay_missed session nick (m ∷ ms) = do
  say session (
      concat (
        codes ":aircd NOTICE "
        ∷ nick
        ∷ codes " :Replaying missed messages for "
        ∷ show_ℕ (length (m ∷ ms))
        ∷ codes " channel(s)"
        ∷ []))
  replay_each session (m ∷ ms)

-- what `try_register` does for an authenticated principal; `session` is registered already
unfoldable pub enter_server : Env → Session → Principal → Exec (Unit {0})
enter_server env session principal = do
  memberships ← mark_connected_and_memberships env principal.id
  attach session principal.id (map (λ m. m.channel) memberships)
  say session (welcome principal)
  say_joins session principal.nick (map (λ m. m.channel) memberships)
  replay_missed session principal.nick memberships

abbrev pub registered_as : Principal → Session → Session
registered_as p session = record session {
  nick = some p.nick;
  principal = some p;
  registered = true;
}

abbrev pub with_session {ℓ} : {A : Type ℓ} → Session → Result A × World → Result A × Session × World
with_session session (r, w) = (r, session, w)

-- the `match` on the outcome of `authenticate`
unfoldable pub admit :
    Env → Session → World → Result Principal → Result (Unit {0}) × Session × World
admit env session w (err _) =
    with_session session (say session (codes ":aircd 464 * :Password incorrect") w)
admit env session w (ok principal) =
    let session' = registered_as principal session in
    with_session session' (enter_server env session' principal w)

unfoldable pub authenticate_session :
    Env → Str → Session → World → Result (Unit {0}) × Session × World
authenticate_session env token session w =
    let (outcome, legacy_hits) = authenticate env.verify token w.db w.legacy_hits in
    admit env session (record w { legacy_hits = legacy_hits }) outcome

-- the guards on the token and the nick
abbrev pub with_token_and_nick :
    Env → Option Str → Option Str → Session → World → Result (Unit {0}) × Session × World
with_token_and_nick env none nick session w = (ok tt, session, w)
with_token_and_nick env (some token) none session w = (ok tt, session, w)
with_token_and_nick env (some token) (some nick) session w =
    authenticate_session env token session w

unfoldable pub try_register : Env → Session → World → Result (Unit {0}) × Session × World
try_register env session w =
    if session.registered
    then (ok tt, session, w)
    else with_token_and_nick env session.pass_token session.nick session w

abbrev pub is_this_session : Session → Option ClientHandle → Bool
is_this_session session none = false
is_this_session session (some client) = client.session_id == session.session_id

unfoldable pub active_or_error : Session → Bool → Exec Bool
active_or_error session true = pure true
active_or_error session false = do
  say session (codes ":aircd ERROR :Session replaced by a newer connection")
  lift (err (codes "session replaced"))

unfoldable pub ensure_active : Session → Exec Bool
ensure_active session = do
  principal ← session_principal session
  is_active ← gets (λ w. is_this_session session (lookup principal.id w.inner.clients))
  active_or_error session is_active

unfoldable pub refuse : Session → Exec Bool
refuse session = do say session (codes ":aircd 451 * :You have not registered"); pure false

unfoldable pub ensure_registered : Session → Exec Bool
ensure_registered session = if session.registered then ensure_active session else refuse session

abbrev pub is_this_channel : Session → Option ClientHandle → Bool
is_this_channel session none = false
is_this_channel session (some client) = eqb client.tx session.tx

unfoldable pub set_disconnected : Str → ℤ → Database → Database
set_disconnected id now db = record db {
  principals =
      update_where (λ p. p.id == id) (λ p. record p { disconnected_at = some now }) db.principals;
}

unfoldable pub mark_disconnected : Env → Str → Exec (Unit {0})
mark_disconnected env id = do
  now ← unix_timestamp env
  modify (λ w. record w { db = set_disconnected id now w.db })

abbrev pub drop_client : Str → World → World
drop_client id w = record w { inner = record w.inner { clients = remove id w.inner.clients } }

unfoldable pub disconnect_if : Env → Str → Bool → Exec (Unit {0})
disconnect_if env id false = pure tt
disconnect_if env id true = do modify (drop_client id); mark_disconnected env id

abbrev pub disconnect_principal : Env → Session → Option Principal → Exec (Unit {0})
disconnect_principal env session none = pure tt
disconnect_principal env session (some p) = do
  should_remove ← gets (λ w. is_this_channel session (lookup p.id w.inner.clients))
  disconnect_if env p.id should_remove

unfoldable pub disconnect : Env → Session → Exec (Unit {0})
disconnect env session = disconnect_principal env session session.principal
