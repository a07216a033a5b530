-- ===== src/Server/Invariants/Connections.antt =====
-- Every command and every round of a connection keep what the operations keep, and so does the server,
-- whatever its connections do and in whatever order.
use aircd.Base.{Bool, true, false, Option, none, some, [], ◌∷◌, Str, codes, ℤ, Result, ok, err}
use aircd.Strings.{concat}
use aircd.Auth.{Principal}
use aircd.Protocol.{
  Command, pass, nick, user, join_channel, part, privmsg, ping, quit, cap_negotiation, history,
  task_create, task_claim, task_done, task_release, task_list, unknown, parse_command,
}
use aircd.World.{World, Session, Env, Exec, say}
use aircd.World.Keeps.{
  Keeps-if, Keeps, Core, core, keeps_rules, Keeps-say, Keeps-bind, Keeps-modify,
}
use aircd.Server.Registration.{
  active_or_error, ensure_active, refuse, ensure_registered, mark_disconnected, disconnect_if,
  disconnect_principal, disconnect,
}
use aircd.Server.Connection.{
  if_registered, guarded, channels_to_replay, replay_requested, serve_command, not_quitting,
  handle_command, Input, line, end_of_input, read_failure, shutdown, leave, after_command, on_input,
  aborted,
}
use aircd.Server.Invariants.{IsKept}
use aircd.Server.Invariants.Broadcasts.{memberships-Keeps}
use aircd.Server.Invariants.Chatting.{
  privmsg-Keeps, join-Keeps, part-Keeps, cap-Keeps, replay_history-Keeps,
}
use aircd.Server.Invariants.Tasking.{
  task_create-Keeps, task_claim-Keeps, task_done-Keeps, task_release-Keeps, task_list-Keeps,
}
use aircd.Server.Invariants.Registering.{try_register_keeps}

module _ {P : Core → Type 0} (kept : IsKept P) where
  active_or_error-Keeps : (session : Session) (b : Bool) → Keeps P (active_or_error session b)
  unfolding active_or_error
  active_or_error-Keeps session true = search keeps_rules
  active_or_error-Keeps session false = search keeps_rules

  ensure_active-Keeps : (session : Session) → Keeps P (ensure_active session)
  unfolding ensure_active
  ensure_active-Keeps session = search (keeps_rules, active_or_error-Keeps)

  refuse-Keeps : (session : Session) → Keeps P (refuse session)
  unfolding refuse
  refuse-Keeps session = search keeps_rules

  ensure_registered-Keeps : (session : Session) → Keeps P (ensure_registered session)
  unfolding ensure_registered
  ensure_registered-Keeps session =
      Keeps-if _ _ _ (ensure_active-Keeps session) (refuse-Keeps session)

  if_registered-Keeps : (b : Bool) (m : Exec (Unit {0})) → Keeps P m → Keeps P (if_registered b m)
  unfolding if_registered
  if_registered-Keeps true m k = search keeps_rules
  if_registered-Keeps false m k = search keeps_rules

  guarded-Keeps :
      (session : Session) (m : Exec (Unit {0})) → Keeps P m → Keeps P (guarded session m)
  unfolding guarded
  guarded-Keeps session m k =
      Keeps-bind _ _ (ensure_registered-Keeps session) (λ b. if_registered-Keeps b m k)

  channels-Keeps :
      (session : Session) (channel : Option Str) → Keeps P (channels_to_replay session channel)
  unfolding channels_to_replay
  channels-Keeps session (some channel) = search keeps_rules
  channels-Keeps session none = search (keeps_rules, memberships-Keeps)

  replay_requested-Keeps :
      (session : Session) (channel : Option Str) (after limit : ℤ)
      → Keeps P (replay_requested session channel after limit)
  unfolding replay_requested
  replay_requested-Keeps session channel after limit =
      search (keeps_rules, channels-Keeps, replay_history-Keeps)

  serve_command-Keeps :
      (env : Env) (session : Session) (c : Command) → Keeps P (serve_command env session c)
  unfolding serve_command
  serve_command-Keeps env session (ping token) = search keeps_rules
  serve_command-Keeps env session (cap_negotiation sub caps) = search (keeps_rules, cap-Keeps)
  serve_command-Keeps env session (join_channel channel) =
      guarded-Keeps session _ (join-Keeps kept env session _)
  serve_command-Keeps env session (part channel) =
      guarded-Keeps session _ (part-Keeps kept session _)
  serve_command-Keeps env session (privmsg target body) =
      guarded-Keeps session _ (privmsg-Keeps kept env session _ body)
  serve_command-Keeps env session (history channel after limit) =
      guarded-Keeps session _ (replay_requested-Keeps session channel after limit)
  serve_command-Keeps env session (task_create channel title) =
      guarded-Keeps session _ (task_create-Keeps kept env session _ title)
  serve_command-Keeps env session (task_claim j) =
      guarded-Keeps session _ (task_claim-Keeps kept env session j)
  serve_command-Keeps env session (task_done j) =
      guarded-Keeps session _ (task_done-Keeps kept env session j)
  serve_command-Keeps env session (task_release j) =
      guarded-Keeps session _ (task_release-Keeps kept env session j)
  serve_command-Keeps env session (task_list channel) =
      guarded-Keeps session _ (task_list-Keeps kept session _)
  serve_command-Keeps env session quit = search keeps_rules
  serve_command-Keeps env session (unknown name) = search keeps_rules
  serve_command-Keeps env session _ = search keeps_rules

  not_quitting_keeps :
      (r : Result (Unit {0}) × Session × World) → P (core r.2) → P (core (not_quitting r).2)
  not_quitting_keeps (ok _, session, w) h = h
  not_quitting_keeps (err e, session, w) h = h

  handle_command_keeps :
      (env : Env) (session : Session) (c : Command) (w : World)
      → P (core w)
      → P (core (handle_command env session c w).2)
  unfolding handle_command
  handle_command_keeps env session (pass token) w h =
      not_quitting_keeps _ (try_register_keeps kept env _ w h)
  handle_command_keeps env session (nick name) w h =
      not_quitting_keeps _ (try_register_keeps kept env _ w h)
  handle_command_keeps env session (user name) w h =
      not_quitting_keeps _ (try_register_keeps kept env _ w h)
  handle_command_keeps env session c w h = (serve_command-Keeps env session c).at w h

  mark_disconnected-Keeps : (env : Env) (id : Str) → Keeps P (mark_disconnected env id)
  unfolding mark_disconnected
  mark_disconnected-Keeps env id =
      Keeps-bind _ _ (search keeps_rules)
        (λ now. Keeps-modify _ (λ w h. kept.set_disconnected id now w.db w.inner h))

  disconnect_if-Keeps : (env : Env) (id : Str) (b : Bool) → Keeps P (disconnect_if env id b)
  unfolding disconnect_if
  disconnect_if-Keeps env id false = search keeps_rules
  disconnect_if-Keeps env id true =
      Keeps-bind _ _ (Keeps-modify _ (λ w h. kept.dropped id w.db w.inner h))
        (λ _. mark_disconnected-Keeps env id)

  disconnect-Keeps : (env : Env) (session : Session) → Keeps P (disconnect env session)
  unfolding disconnect
  disconnect-Keeps env session = go session.principal
    where
      go : (o : Option Principal) → Keeps P (disconnect_principal env session o)
      go none = search keeps_rules
      go (some p) = search (keeps_rules, disconnect_if-Keeps)

  aborted_keeps :
      (session : Session) (r : Result (Unit {0}) × World)
      → P (core r.1)
      → P (core (aborted session r).1)
  aborted_keeps session (ok _, w) h = h
  aborted_keeps session (err e, w) h = h

  leave-Keeps :
      (env : Env) (session : Session) (w : World) → P (core w) → P (core (leave env session w).1)
  unfolding leave
  leave-Keeps env session w h = aborted_keeps session _ ((disconnect-Keeps env session).at w h)

  after_command_keeps :
      (env : Env) (r : Result Bool × Session × World)
      → P (core r.2)
      → P (core (after_command env r).1)
  after_command_keeps env (ok true, session, w) h = leave-Keeps env session w h
  after_command_keeps env (ok false, session, w) h = h
  after_command_keeps env (err e, session, w) h = h

  pub on_input_keeps :
      (env : Env) (session : Session) (i : Input) (w : World)
      → P (core w)
      → P (core (on_input env session i w).1)
  unfolding on_input
  on_input_keeps env session (line text) w h =
      after_command_keeps env _ (handle_command_keeps env session (parse_command text) w h)
  on_input_keeps env session end_of_input w h = leave-Keeps env session w h
  on_input_keeps env session (read_failure e) w h = h
  on_input_keeps env session (shutdown none) w h = leave-Keeps env session w h
  on_input_keeps env session (shutdown (some reason)) w h =
      let text = concat (codes ":aircd ERROR :" ∷ reason ∷ []) in
      leave-Keeps env session (say session text w).1 ((Keeps-say {P = P} session text).at w h)
