-- ===== src/Server/Invariants/Chatting.antt =====
-- The chat commands keep what the operations on the database keep.
use aircd.Base.{Bool, true, false, Option, none, some, List, [], ◌∷◌, Str, ℤ}
use aircd.Database.{StoredMessage}
use aircd.World.{Session, Env, ◌>>=◌, modify, unix_timestamp}
use aircd.Server.Members.{add_membership, remove_membership}
use aircd.World.Keeps.{
  Keeps-if, Keeps, keeps_rules, Keeps-pure, Keeps-say, Keeps-bind, Keeps-session_principal, Core,
  Keeps-on_db,
}
use aircd.Server.Chat
use aircd.Server.Invariants.{IsKept}
use aircd.Server.Invariants.Broadcasts.{
  mark_seen-Keeps, display_name-Keeps, is_member-Keeps, broadcast_raw-Keeps,
  broadcast_message-Keeps,
}

module _ {P : Core → Type 0} (kept : IsKept P) where
  pub append_message-Keeps :
      (env : Env) (channel sender body : Str)
      → Keeps P (Chat.append_message env channel sender body)
  unfolding Chat.append_message
  append_message-Keeps env channel sender body = Keeps-bind _ _ (search keeps_rules) (λ uuid.
      Keeps-bind _ _ (search keeps_rules)
        (λ now. Keeps-on_db _ (kept.append channel sender body uuid now)))

  pub post-Keeps :
      (env : Env) (session : Session) (id nick channel body : Str) (member : Bool)
      → Keeps P (Chat.post env session id nick channel body member)
  unfolding Chat.post
  post-Keeps env session id nick channel body false = search keeps_rules
  post-Keeps env session id nick channel body true =
      search (keeps_rules, append_message-Keeps, broadcast_message-Keeps kept)

  pub privmsg-Keeps :
      (env : Env) (session : Session) (channel body : Str)
      → Keeps P (Chat.privmsg env session channel body)
  unfolding Chat.privmsg
  privmsg-Keeps env session channel body = search (keeps_rules, is_member-Keeps kept, post-Keeps)

  -- the row and the set of members are written together
  pub join-Keeps :
      (env : Env) (session : Session) (channel : Str) → Keeps P (Chat.join env session channel)
  unfolding Chat.join add_membership modify unix_timestamp ◌>>=◌
  join-Keeps env session channel = Keeps-bind _ _ (Keeps-session_principal session) (λ p. record {
    at = λ w h.
        (broadcast_raw-Keeps kept channel _).at _
          (kept.joined p.id channel (env.clock w.readings) w.db w.inner h);
  })

  pub part-Keeps : (session : Session) (channel : Str) → Keeps P (Chat.part session channel)
  unfolding Chat.part remove_membership modify ◌>>=◌
  part-Keeps session channel = Keeps-bind _ _ (Keeps-session_principal session) (λ p. record {
    at = λ w h. (broadcast_raw-Keeps kept channel _).at _ (kept.parted p.id channel w.db w.inner h);
  })

  pub say_if-Keeps : (session : Session) (text : Option Str) → Keeps P (Chat.say_if session text)
  unfolding Chat.say_if
  say_if-Keeps session none = search keeps_rules
  say_if-Keeps session (some text) = search keeps_rules

  pub cap-Keeps :
      (session : Session) (subcommand : Str) (requested : List Str)
      → Keeps P (Chat.cap session subcommand requested)
  unfolding Chat.cap
  cap-Keeps session subcommand requested = say_if-Keeps session _

  pub replay_messages-Keeps :
      (session : Session) (messages : List StoredMessage) (seen : ℤ)
      → Keeps P (Chat.replay_messages session messages seen)
  unfolding Chat.replay_messages
  replay_messages-Keeps session [] seen = search keeps_rules
  replay_messages-Keeps session (m ∷ ms) seen =
      Keeps-bind _ _ (display_name-Keeps kept m.sender_id)
        (λ sender. Keeps-bind _ _ (Keeps-say session _) (λ _. replay_messages-Keeps session ms _))

  pub seen_if_more-Keeps :
      (id channel : Str) (after seen : ℤ) → Keeps P (Chat.seen_if_more id channel after seen)
  unfolding Chat.seen_if_more
  seen_if_more-Keeps id channel after seen =
      Keeps-if _ _ _ (mark_seen-Keeps kept id channel seen) (Keeps-pure tt)

  pub replay_channel-Keeps :
      (session : Session) (id : Str) (after limit : ℤ) (channel : Str)
      → Keeps P (Chat.replay_channel session id after limit channel)
  unfolding Chat.replay_channel
  replay_channel-Keeps session id after limit channel =
      search (keeps_rules, replay_messages-Keeps, seen_if_more-Keeps)

  pub replay_channels-Keeps :
      (session : Session) (id : Str) (after limit : ℤ) (channels : List Str)
      → Keeps P (Chat.replay_channels session id after limit channels)
  unfolding Chat.replay_channels
  replay_channels-Keeps session id after limit [] = search keeps_rules
  replay_channels-Keeps session id after limit (channel ∷ channels) =
      Keeps-bind _ _ (replay_channel-Keeps session id after limit channel)
        (λ _. replay_channels-Keeps session id after limit channels)

  pub replay_history-Keeps :
      (session : Session) (channels : List Str) (after limit : ℤ)
      → Keeps P (Chat.replay_history session channels after limit)
  unfolding Chat.replay_history
  replay_history-Keeps session channels after limit = search (keeps_rules, replay_channels-Keeps)
