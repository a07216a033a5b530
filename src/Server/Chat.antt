-- ===== src/Server/Chat.antt =====
-- `cap`, `join`, `part`, `privmsg` and `replay_history` of src/server.rs.
use aircd.Base.{
  Bool, true, false, Option, none, some, List, [], ◌∷◌, Str, codes, ◌==◌, ℤ, ltb_ℤ, max_ℤ,
  if◌then◌else◌, any, all,
}
use aircd.Strings.{join as join_text, concat}
use aircd.Tags.{metadata_tags}
use aircd.Maps.{lookup, insert, insert_member, remove_member}
use aircd.Database.{StoredMessage}
use aircd.History.{append, after}
use aircd.World.{
  ServerInner, Session, Env, Exec, ◌>>=◌, ◌>>◌, pure, gets, on_db, modify, unix_timestamp, new_v4,
  say, session_principal,
}
use aircd.Server.Members.{add_membership, remove_membership, is_member, display_name, mark_seen}
use aircd.Server.Delivery.{broadcast_raw, broadcast_message}

abbrev pub metadata_capabilities : List Str
metadata_capabilities = codes "message-tags" ∷ []

abbrev pub or_star : Option Str → Str
or_star none = codes "*"
or_star (some nick) = nick

-- the `match` on the subcommand; `none` where nothing is sent
unfoldable pub cap_reply : Str → Str → List Str → Option Str
cap_reply nick subcommand requested =
    let advertised = join_text (codes " ") metadata_capabilities in
    let all_supported = all (λ c. any (λ a. a == c) metadata_capabilities) requested in
    if subcommand == codes "LS"
    then some (concat (codes ":aircd CAP " ∷ nick ∷ codes " LS :" ∷ advertised ∷ []))
    else if subcommand == codes "LIST"
    then some (concat (codes ":aircd CAP " ∷ nick ∷ codes " LIST :" ∷ advertised ∷ []))
    else if subcommand == codes "REQ"
    then some (
        concat (
          codes ":aircd CAP "
          ∷ nick
          ∷ codes " "
          ∷ (if all_supported then codes "ACK" else codes "NAK")
          ∷ codes " :"
          ∷ join_text (codes " ") requested
          ∷ []))
    else if subcommand == codes "END"
    then none
    else some (
        concat (
          codes ":aircd 410 " ∷ nick ∷ codes " " ∷ subcommand ∷ codes " :Invalid CAP command" ∷ []))

unfoldable pub say_if : Session → Option Str → Exec (Unit {0})
say_if session none = pure tt
say_if session (some line) = say session line

unfoldable pub cap : Session → Str → List Str → Exec (Unit {0})
cap session subcommand requested =
    say_if session (cap_reply (or_star session.nick) subcommand requested)

-- `inner.channels.entry(channel).or_default().insert(principal_id)`
abbrev pub or_default : Option (List Str) → List Str
or_default none = []
or_default (some members) = members

unfoldable pub enter_channel : Str → Str → ServerInner → ServerInner
enter_channel principal_id channel inner = record inner {
  channels =
      insert channel (insert_member principal_id (or_default (lookup channel inner.channels)))
        inner.channels;
}

-- `if let Some(members) = inner.channels.get_mut(channel) { members.remove(principal_id); }`
abbrev pub without_member : Str → Str → ServerInner → Option (List Str) → ServerInner
without_member principal_id channel inner none = inner
without_member principal_id channel inner (some members) = record inner {
  channels = insert channel (remove_member principal_id members) inner.channels;
}

unfoldable pub leave_channel : Str → Str → ServerInner → ServerInner
leave_channel principal_id channel inner =
    without_member principal_id channel inner (lookup channel inner.channels)

unfoldable pub join : Env → Session → Str → Exec (Unit {0})
join env session channel = do
  principal ← session_principal session
  add_membership env principal.id channel
  modify (λ w. record w { inner = enter_channel principal.id channel w.inner })
  broadcast_raw channel (concat (codes ":" ∷ principal.nick ∷ codes " JOIN " ∷ channel ∷ []))

unfoldable pub part : Session → Str → Exec (Unit {0})
part session channel = do
  principal ← session_principal session
  remove_membership principal.id channel
  modify (λ w. record w { inner = leave_channel principal.id channel w.inner })
  broadcast_raw channel (concat (codes ":" ∷ principal.nick ∷ codes " PART " ∷ channel ∷ []))

-- `self.history.append`, which draws a uuid and reads the clock first
unfoldable pub append_message : Env → Str → Str → Str → Exec StoredMessage
append_message env channel sender_id body = do
  uuid ← new_v4 env
  created_at ← unix_timestamp env
  on_db (append channel sender_id body uuid created_at)

abbrev pub message_line : Bool → Str → Str → Str → StoredMessage → Str
message_line replay sender channel body m = concat (
    metadata_tags m.seq m.msg_id m.created_at replay
    ∷ codes " :"
    ∷ sender
    ∷ codes " PRIVMSG "
    ∷ channel
    ∷ codes " :"
    ∷ body
    ∷ [])

-- the two ways behind the test of membership
unfoldable pub post : Env → Session → Str → Str → Str → Str → Bool → Exec (Unit {0})
post env session id nick channel body false = say session (
    concat (
      codes ":aircd 442 " ∷ nick ∷ codes " " ∷ channel ∷ codes " :You're not on that channel" ∷ []))
post env session id nick channel body true = do
  message ← append_message env channel id body
  broadcast_message channel (message_line false nick channel body message) message.seq

unfoldable pub privmsg : Env → Session → Str → Str → Exec (Unit {0})
privmsg env session channel body = do
  principal ← session_principal session
  member ← is_member principal.id channel
  post env session principal.id principal.nick channel body member

-- the inner loop; it returns `channel_max_seq`
unfoldable pub replay_messages : Session → List StoredMessage → ℤ → Exec ℤ
replay_messages session [] channel_max_seq = pure channel_max_seq
replay_messages session (m ∷ ms) channel_max_seq = do
  sender ← display_name m.sender_id
  say session (message_line true sender m.channel m.body m)
  replay_messages session ms (max_ℤ channel_max_seq m.seq)

unfoldable pub seen_if_more : Str → Str → ℤ → ℤ → Exec (Unit {0})
seen_if_more id channel after_seq channel_max_seq =
    if ltb_ℤ after_seq channel_max_seq then mark_seen id channel channel_max_seq else pure tt

unfoldable pub replay_channel : Session → Str → ℤ → ℤ → Str → Exec (Unit {0})
replay_channel session id after_seq limit channel = do
  messages ← gets (λ w. after channel after_seq limit w.db)
  channel_max_seq ← replay_messages session messages after_seq
  seen_if_more id channel after_seq channel_max_seq

unfoldable pub replay_channels : Session → Str → ℤ → ℤ → List Str → Exec (Unit {0})
replay_channels session id after_seq limit [] = pure tt
replay_channels session id after_seq limit (channel ∷ channels) = do
  replay_channel session id after_seq limit channel
  replay_channels session id after_seq limit channels

unfoldable pub replay_history : Session → List Str → ℤ → ℤ → Exec (Unit {0})
replay_history session channels after_seq limit = do
  principal ← session_principal session
  replay_channels session principal.id after_seq limit channels
