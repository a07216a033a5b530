-- ===== src/Server/Connection.antt =====
-- `handle_command` and `handle_stream` of src/server.rs, and the lease of `Server::new`.
use aircd.Base.{
  ℕ, Bool, true, false, Option, none, some, List, [], ◌∷◌, map, ◌++◌, Str, codes, ℤ, pos, ltb_ℤ,
  if◌then◌else◌, Result, ok, err,
}
use aircd.Strings.{concat}
use aircd.Strings.Numbers.{parse_i64}
use aircd.Tags.{normalize_channel}
use aircd.Protocol.{
  Command, pass, nick, user, join_channel, part, privmsg, ping, quit, cap_negotiation, history,
  task_create, task_claim, task_done, task_release, task_list, unknown, parse_command,
}
use aircd.World.{World, Session, Env, Exec, ◌>>=◌, ◌>>◌, pure, say, session_principal}
use aircd.Server.Members.{memberships}
use aircd.Server.Chat
use aircd.Server.Chat.{cap, replay_history}
use aircd.Server.TaskCommands
use aircd.Server.Registration.{try_register, ensure_registered, disconnect, with_session}

abbrev pub positive_or_300 : Option ℤ → ℤ
positive_or_300 none = pos 300
positive_or_300 (some value) = if ltb_ℤ (pos 0) value then value else pos 300

abbrev pub parsed : Option Str → Option ℤ
parsed none = none
parsed (some value) = parse_i64 value

-- the lease that `Server::new` reads from AIRCD_TASK_LEASE_SECONDS
unfoldable pub lease_from_env : Option Str → ℤ
lease_from_env variable = positive_or_300 (parsed variable)

-- `if !self.ensure_registered(session)? { return Ok(false); }` before an operation, and `Ok(false)`
-- behind it
unfoldable pub if_registered : Bool → Exec (Unit {0}) → Exec Bool
if_registered false operation = pure false
if_registered true operation = do operation; pure false

unfoldable pub guarded : Session → Exec (Unit {0}) → Exec Bool
guarded session operation = do
  registered ← ensure_registered session
  if_registered registered operation

unfoldable pub channels_to_replay : Session → Option Str → Exec (List Str)
channels_to_replay session (some channel) = pure (normalize_channel channel ∷ [])
channels_to_replay session none = do
  principal ← session_principal session
  rows ← memberships principal.id
  pure (map (λ m. m.channel) rows)

unfoldable pub replay_requested : Session → Option Str → ℤ → ℤ → Exec (Unit {0})
replay_requested session channel after_seq limit = do
  channels ← channels_to_replay session channel
  replay_history session channels after_seq limit

-- the commands that leave the session as it is
unfoldable pub serve_command : Env → Session → Command → Exec Bool
serve_command env session (ping token) = do
  say session (concat (codes ":aircd PONG aircd :" ∷ token ∷ []))
  pure false
serve_command env session (cap_negotiation subcommand capabilities) = do
  cap session subcommand capabilities
  pure false
serve_command env session (join_channel channel) =
    guarded session (Chat.join env session (normalize_channel channel))
serve_command env session (part channel) =
    guarded session (Chat.part session (normalize_channel channel))
serve_command env session (privmsg target body) =
    guarded session (Chat.privmsg env session (normalize_channel target) body)
serve_command env session (history channel after_seq limit) =
    guarded session (replay_requested session channel after_seq limit)
serve_command env session (task_create channel title) =
    guarded session (TaskCommands.task_create env session (normalize_channel channel) title)
serve_command env session (task_claim task_id) =
    guarded session (TaskCommands.task_claim env session task_id)
serve_command env session (task_done task_id) =
    guarded session (TaskCommands.task_done env session task_id)
serve_command env session (task_release task_id) =
    guarded session (TaskCommands.task_release env session task_id)
serve_command env session (task_list channel) =
    guarded session (TaskCommands.task_list session (normalize_channel channel))
serve_command env session quit = pure true
serve_command env session (unknown name) = do
  say session (concat (codes ":aircd 421 * " ∷ name ∷ codes " :Unknown command" ∷ []))
  pure false
serve_command env session _ = pure false

-- `self.try_register(session)?`, and `Ok(false)` behind it
abbrev pub not_quitting : Result (Unit {0}) × Session × World → Result Bool × Session × World
not_quitting (ok _, session, w) = (ok false, session, w)
not_quitting (err e, session, w) = (err e, session, w)

unfoldable pub handle_command : Env → Session → Command → World → Result Bool × Session × World
handle_command env session (pass token) w =
    not_quitting (try_register env (record session { pass_token = some token }) w)
handle_command env session (nick name) w =
    not_quitting (try_register env (record session { nick = some name }) w)
handle_command env session (user _) w = not_quitting (try_register env session w)
handle_command env session command w = with_session session (serve_command env session command w)

-- What one round of the loop selects: a line, the end of the input, a failure to read the input, or a
-- message on the shutdown channel (`none` when that channel is closed).
pub data Input : Type 0 where
  line : Str → Input
  end_of_input : Input
  read_failure : Str → Input
  shutdown : Option Str → Input

-- A connection waits for input, has returned, or has returned an error.
pub data Progress : Type 0 where
  waiting : Session → Progress
  returned : Progress
  failed : Str → Progress

-- `self.disconnect(&session)?; writer_task.abort(); Ok(())`
abbrev pub aborted : Session → Result (Unit {0}) × World → Progress × World
aborted session (ok _, w) = (returned, record w { closed = session.tx ∷ w.closed })
aborted session (err e, w) = (failed e, w)

unfoldable pub leave : Env → Session → World → Progress × World
leave env session w = aborted session (disconnect env session w)

abbrev pub after_command : Env → Result Bool × Session × World → Progress × World
after_command env (ok true, session, w) = leave env session w
after_command env (ok false, session, w) = (waiting session, w)
after_command env (err e, session, w) = (failed e, w)

abbrev pub state_of {ℓ} : {A : Type ℓ} → Result A × World → World
state_of (_, w) = w

-- one round of the loop
unfoldable pub on_input : Env → Session → Input → World → Progress × World
on_input env session (line text) w =
    after_command env (handle_command env session (parse_command text) w)
on_input env session end_of_input w = leave env session w
on_input env session (read_failure e) w = (failed e, w)
on_input env session (shutdown none) w = leave env session w
on_input env session (shutdown (some reason)) w =
    leave env session (state_of (say session (concat (codes ":aircd ERROR :" ∷ reason ∷ [])) w))

unfoldable pub rounds : Env → Progress → List Input → World → Progress × World
rounds env progress [] w = (progress, w)
rounds env returned (input ∷ inputs) w = (returned, w)
rounds env (failed e) (input ∷ inputs) w = (failed e, w)
rounds env (waiting session) (input ∷ inputs) w =
    let (progress, w') = on_input env session input w in rounds env progress inputs w'

abbrev pub new_session : Str → ℕ → ℕ → Session
new_session uuid tx shutdown_tx = record {
  session_id = codes "sess_" ++ uuid;
  principal = none;
  nick = none;
  pass_token = none;
  registered = false;
  tx = tx;
  shutdown_tx = shutdown_tx;
}

-- A connection from its first notice through the inputs that it selects; `tx` and `shutdown_tx` are
-- its two new tokio channels. A round is one step: what other connections do between the locks of a
-- round is not modelled. The task that writes the lines of `tx` is not modelled either; it ends with
-- `writer_task.abort()`, from where on `tx` is among the channels without a receiver. After an error of
-- a read or of a command (`failed`) the source neither disconnects the session nor aborts that task: the
-- client stays in `clients`, and `tx` keeps its receiver.
unfoldable pub handle_stream : Env → Str → ℕ → ℕ → List Input → World → Progress × World
handle_stream env uuid tx shutdown_tx inputs w =
    let session = new_session uuid tx shutdown_tx in
    rounds env (waiting session) inputs
      (state_of (say session (codes ":aircd NOTICE * :Welcome to aircd prototype") w))
