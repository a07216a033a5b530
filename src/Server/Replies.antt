-- ===== src/Server/Replies.antt =====
-- The parts of src/server.rs that cannot fail once the session has a principal: deliveries, replays
-- and the greetings of `try_register`.
use aircd.Base.{◌≡◌, Option, none, some, List, [], ◌∷◌, Str, ℤ, max_ℤ, ltb_ℤ}
use aircd.Database.{StoredMessage}
use aircd.Auth.{Principal}
use aircd.World.{Session, Env, ClientHandle}
use aircd.World.Succeeds.{
  Succeeds, Succeeds-pure, Succeeds-gets, Succeeds-modify_db, Succeeds-unix_timestamp,
  Succeeds-bind, Succeeds-send, Succeeds-say, Succeeds-session_principal, Succeeds-if,
}
use aircd.Server.Members.{
  Membership, raise_seen, set_connected, memberships, mark_seen, display_name,
  mark_connected_and_memberships,
}
use aircd.Server.Delivery.{seen_if, deliver_each, broadcast_message, send_each, broadcast_raw}
use aircd.Server.Chat.{
  replay_messages, seen_if_more, replay_channel, replay_channels, replay_history,
}
use aircd.Server.Registration.{say_joins, replay_each, replay_missed, shut_down}

pub Succeeds-mark_seen : (id channel : Str) (seq : ℤ) → Succeeds (mark_seen id channel seq)
unfolding mark_seen
Succeeds-mark_seen id channel seq = Succeeds-modify_db (raise_seen id channel seq)

pub Succeeds-display_name : (id : Str) → Succeeds (display_name id)
unfolding display_name
Succeeds-display_name id = Succeeds-gets _

pub Succeeds-mark_connected :
    (env : Env) (id : Str) → Succeeds (mark_connected_and_memberships env id)
unfolding mark_connected_and_memberships memberships
Succeeds-mark_connected env id =
    Succeeds-bind _ _ (Succeeds-unix_timestamp env)
      (λ now. Succeeds-bind _ _ (Succeeds-modify_db (set_connected id now)) (λ _. Succeeds-gets _))

Succeeds-send_each : (clients : List ClientHandle) (text : Str) → Succeeds (send_each clients text)
unfolding send_each
Succeeds-send_each [] text = Succeeds-pure tt
Succeeds-send_each (c ∷ cs) text =
    Succeeds-bind _ _ (Succeeds-send c.tx text) (λ _. Succeeds-send_each cs text)

pub Succeeds-broadcast_raw : (channel text : Str) → Succeeds (broadcast_raw channel text)
unfolding broadcast_raw
Succeeds-broadcast_raw channel text =
    Succeeds-bind _ _ (Succeeds-gets _) (λ clients. Succeeds-send_each clients text)

Succeeds-deliver_each :
    (clients : List (Str × ClientHandle)) (channel text : Str) (seq : ℤ)
    → Succeeds (deliver_each clients channel text seq)
unfolding deliver_each seen_if
Succeeds-deliver_each [] channel text seq = Succeeds-pure tt
Succeeds-deliver_each ((id, c) ∷ cs) channel text seq =
    Succeeds-bind _ _ (Succeeds-send c.tx text) (λ sent.
      Succeeds-bind _ _
        (Succeeds-if sent _ _ (Succeeds-mark_seen id channel seq) (Succeeds-pure tt))
        (λ _. Succeeds-deliver_each cs channel text seq))

pub Succeeds-broadcast_message :
    (channel text : Str) (seq : ℤ) → Succeeds (broadcast_message channel text seq)
unfolding broadcast_message
Succeeds-broadcast_message channel text seq =
    Succeeds-bind _ _ (Succeeds-gets _) (λ clients. Succeeds-deliver_each clients channel text seq)

module _ (session : Session) where
  Succeeds-replay_messages :
      (ms : List StoredMessage) (seq : ℤ) → Succeeds (replay_messages session ms seq)
  unfolding replay_messages
  Succeeds-replay_messages [] seq = Succeeds-pure seq
  Succeeds-replay_messages (m ∷ ms) seq =
      Succeeds-bind _ _ (Succeeds-display_name m.sender_id) (λ _.
        Succeeds-bind _ _ (Succeeds-say session _)
          (λ _. Succeeds-replay_messages ms (max_ℤ seq m.seq)))

  Succeeds-replay_channel :
      (id : Str) (after_seq limit : ℤ) (channel : Str)
      → Succeeds (replay_channel session id after_seq limit channel)
  unfolding replay_channel seen_if_more
  Succeeds-replay_channel id after_seq limit channel = Succeeds-bind _ _ (Succeeds-gets _) (λ ms.
      Succeeds-bind _ _ (Succeeds-replay_messages ms after_seq) (λ seq.
        Succeeds-if (ltb_ℤ after_seq seq) _ _ (Succeeds-mark_seen id channel seq)
          (Succeeds-pure tt)))

  Succeeds-replay_channels :
      (id : Str) (after_seq limit : ℤ) (channels : List Str)
      → Succeeds (replay_channels session id after_seq limit channels)
  unfolding replay_channels
  Succeeds-replay_channels id after_seq limit [] = Succeeds-pure tt
  Succeeds-replay_channels id after_seq limit (channel ∷ channels) =
      Succeeds-bind _ _ (Succeeds-replay_channel id after_seq limit channel)
        (λ _. Succeeds-replay_channels id after_seq limit channels)

  pub Succeeds-say_joins :
      (nick : Str) (channels : List Str) → Succeeds (say_joins session nick channels)
  unfolding say_joins
  Succeeds-say_joins nick [] = Succeeds-pure tt
  Succeeds-say_joins nick (channel ∷ channels) =
      Succeeds-bind _ _ (Succeeds-say session _) (λ _. Succeeds-say_joins nick channels)

  module _ (p : Principal) (known : session.principal ≡ some p) where
    pub Succeeds-replay_history :
        (channels : List Str) (after_seq limit : ℤ)
        → Succeeds (replay_history session channels after_seq limit)
    unfolding replay_history
    Succeeds-replay_history channels after_seq limit =
        Succeeds-bind _ _ (Succeeds-session_principal session p known)
          (λ q. Succeeds-replay_channels q.id after_seq limit channels)

    Succeeds-replay_each : (ms : List Membership) → Succeeds (replay_each session ms)
    unfolding replay_each
    Succeeds-replay_each [] = Succeeds-pure tt
    Succeeds-replay_each (m ∷ ms) =
        Succeeds-bind _ _ (Succeeds-replay_history _ _ _) (λ _. Succeeds-replay_each ms)

    pub Succeeds-replay_missed :
        (nick : Str) (ms : List Membership) → Succeeds (replay_missed session nick ms)
    unfolding replay_missed
    Succeeds-replay_missed nick [] = Succeeds-pure tt
    Succeeds-replay_missed nick (m ∷ ms) =
        Succeeds-bind _ _ (Succeeds-say session _) (λ _. Succeeds-replay_each (m ∷ ms))

pub Succeeds-shut_down : (id : Str) (client : Option ClientHandle) → Succeeds (shut_down id client)
unfolding shut_down
Succeeds-shut_down id none = Succeeds-pure tt
Succeeds-shut_down id (some client) =
    Succeeds-bind _ _ (Succeeds-send client.shutdown_tx _) (λ _. Succeeds-pure tt)
