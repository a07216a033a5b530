-- ===== src/Server/Posting.antt =====
-- PRIVMSG of src/server.rs from the test of membership to the last delivery.
use aircd.Base.{
  ◌≡◌, refl, ap, ◌∙◌, Bool, true, false, some, [], ◌∷◌, ◌++◌, Str, codes, ◌+◌, ℤ, Result, ok, err,
  take, select, ◌≤ℤ◌, ◌⊎◌, inl, inr, Bool-cases, any, pos, ◌+ℤ◌, ltb_ℤ, i64_max, sym, ◌==◌,
}
use aircd.Strings.{concat}
use aircd.Database.{Database, StoredMessage}
use aircd.Auth.{Principal}
use aircd.History.{append, can_insert, after, clamp_limit, wanted}
use aircd.History.Log.{after-messages, IsLog, after-append, append-failed, append-value}
use aircd.World.{
  World, Session, Env, ◌>>=◌, lift, gets, on_db, unix_timestamp, new_v4, session_principal,
  principal_or_error,
}
use aircd.World.Returns.{bind_ok, bind_err, told, say-returns}
use aircd.Server.Members.{has_membership, is_member}
use aircd.Server.Delivery.{recipients_with_ids}
use aircd.Server.Chat.{append_message, message_line, post, privmsg}
use aircd.Server.Fanout.{delivered, copies, broadcast_message_lem, is_listening, seen_by-messages}

module _ (env : Env) (session : Session) (p : Principal) (channel body : Str) (w : World) where
  abbrev pub not_on_channel : Str
  not_on_channel = concat (
      codes ":aircd 442 "
      ∷ p.nick
      ∷ codes " "
      ∷ channel
      ∷ codes " :You're not on that channel"
      ∷ [])

  to_post :
      session.principal ≡ some p
      → (b : Bool) → has_membership p.id channel w.db ≡ b
      → privmsg env session channel body w ≡ post env session p.id p.nick channel body b w
  unfolding privmsg session_principal is_member lift gets
  to_post known b member =
      bind_ok (session_principal session) _ w w p (ap (λ q. (principal_or_error q, w)) known)
      ∙ bind_ok (is_member p.id channel) _ w w b (ap (λ c. (ok c, w)) member)

  -- Whoever is not a member of the channel is told so with the error 442: nothing is stored, and nobody
  -- else gets a line.
  outsider_is_refused :
      session.principal ≡ some p
      → has_membership p.id channel w.db ≡ false
      → privmsg env session channel body w ≡ (ok tt, told session not_on_channel w)
  unfolding post
  outsider_is_refused known outside =
      to_post known false outside ∙ say-returns session not_on_channel w

  -- the state behind the insertion into the log: a uuid is drawn and the clock read
  abbrev pub logged : Database → World
  logged db = record w { db = db; readings = w.readings + 1; uuids = w.uuids + 1 }

  abbrev pub attempted : Result StoredMessage × Database
  attempted = append channel p.id body (env.uuid w.uuids) (env.clock w.readings) w.db

  append_message_lem : append_message env channel p.id body w ≡ (attempted.0, logged attempted.1)
  unfolding append_message new_v4 unix_timestamp on_db ◌>>=◌
  append_message_lem = refl

  -- A member's message that the log accepts is stored, and then delivered under its number to the
  -- recipients of the channel.
  pub member_is_heard :
      session.principal ≡ some p
      → has_membership p.id channel w.db ≡ true
      → (m : StoredMessage) → attempted.0 ≡ ok m
      → privmsg env session channel body w ≡ (
        ok tt,
        delivered channel
            (message_line false p.nick channel body m)
            m.seq
            (recipients_with_ids channel w.inner)
            (logged attempted.1),
      )
  unfolding post
  member_is_heard known inside m accepted =
      to_post known true inside
      ∙ bind_ok (append_message env channel p.id body) _ w (logged attempted.1) m
          (append_message_lem ∙ ap (λ r. (r, logged attempted.1)) accepted)
      ∙ broadcast_message_lem channel _ m.seq (logged attempted.1)

  -- If the log does not accept the message, PRIVMSG fails: the database stays as it is, and nobody gets
  -- a line.
  failed_append_reaches_nobody :
      session.principal ≡ some p
      → has_membership p.id channel w.db ≡ true
      → (e : Str) → attempted.0 ≡ err e
      → privmsg env session channel body w ≡ (err e, logged w.db)
  unfolding post
  failed_append_reaches_nobody known inside e failed =
      to_post known true inside
      ∙ bind_err (append_message env channel p.id body) _ w (logged attempted.1) e
          (append_message_lem ∙ ap (λ r. (r, logged attempted.1)) failed)
      ∙ ap (λ db. (err e, logged db))
          (append-failed channel p.id body (env.uuid w.uuids) (env.clock w.readings) w.db failed)

  -- The message that PRIVMSG sends: the next number, a new id, and the channel, sender, body and time.
  abbrev pub posted : StoredMessage
  posted = record {
    seq = w.db.last_message_seq +ℤ pos 1;
    msg_id = codes "msg_" ++ env.uuid w.uuids;
    channel = channel;
    sender_id = p.id;
    body = body;
    created_at = env.clock w.readings;
  }

  -- no message of the log has the new id
  abbrev pub id_taken : Bool
  id_taken = any (λ m. m.msg_id == posted.msg_id) w.db.messages

  abbrev pub numbers_left : Bool
  numbers_left = ltb_ℤ w.db.last_message_seq i64_max

  append_accepts : id_taken ≡ false → numbers_left ≡ true → attempted.0 ≡ ok posted
  unfolding append can_insert
  append_accepts free left = rw (free, left) refl

  append_refuses_id : id_taken ≡ true → attempted.0 ≡ err (codes "insert message")
  unfolding append can_insert
  append_refuses_id taken = rw taken refl

  append_refuses_number :
      id_taken ≡ false → numbers_left ≡ false → attempted.0 ≡ err (codes "insert message")
  unfolding append can_insert
  append_refuses_number free used_up = rw (free, used_up) refl

  -- A message that the log accepts is the one that was sent, and is in the table behind PRIVMSG.
  pub accepted_is_stored :
      session.principal ≡ some p
      → has_membership p.id channel w.db ≡ true
      → (m : StoredMessage) → attempted.0 ≡ ok m
      → (posted ≡ m)
        × ((privmsg env session channel body w).1.db.messages ≡ w.db.messages ++ m ∷ [])
  accepted_is_stored known inside m accepted =
      let (same, stored) =
        append-value channel p.id body (env.uuid w.uuids) (env.clock w.readings) w.db accepted in
      (
        same,
        ap (λ (r : Result (Unit {0}) × World). r.1.db.messages)
              (member_is_heard known inside m accepted)
            ∙ seen_by-messages
                (select (is_listening w.closed) (recipients_with_ids channel w.inner)) channel m.seq
                attempted.1
            ∙ ap (λ (d : Database). d.messages) stored,
      )

  -- what PRIVMSG does for a member when the log accepts the message
  abbrev pub IsPosted : Type 0
  IsPosted =
      (w' : World) × (privmsg env session channel body w ≡ (ok tt, w'))
      × (w'.db.messages ≡ w.db.messages ++ posted ∷ [])
      × (w'.outbox
          ≡ w.outbox
            ++ copies (message_line false p.nick channel body posted) w.closed
                (recipients_with_ids channel w.inner))

  abbrev pub IsNotPosted : Type 0
  IsNotPosted = privmsg env session channel body w ≡ (err (codes "insert message"), logged w.db)

  -- PRIVMSG does one of three things. Whoever is not a member of the channel is told so with the error
  -- 442, and nothing is stored. A member's message is put behind the messages of the log, with the next
  -- number and the member, channel and body that it was sent with, and one copy of its line goes to
  -- each recipient of the channel that listens, in their order, if its id is new and there is a number
  -- left. Otherwise PRIVMSG fails: the database stays as it is, and nobody gets a line.
  pub privmsg_decides :
      session.principal ≡ some p
      → ((has_membership p.id channel w.db ≡ false)
          × (privmsg env session channel body w ≡ (ok tt, told session not_on_channel w)))
        ⊎ (((has_membership p.id channel w.db ≡ true)
              × ((id_taken ≡ false) × (numbers_left ≡ true))
              × IsPosted)
            ⊎ ((has_membership p.id channel w.db ≡ true)
                × ((id_taken ≡ true) ⊎ (numbers_left ≡ false))
                × IsNotPosted))
  privmsg_decides known = elim (Bool-cases (has_membership p.id channel w.db)) [
    | inr outside ↦ inl (outside, outsider_is_refused known outside)
    | inl inside ↦ elim (Bool-cases id_taken) [
      | inl taken ↦ inr (
          inr (
            inside,
            inl taken,
            failed_append_reaches_nobody known inside _ (append_refuses_id taken),
          ))
      | inr free ↦ elim (Bool-cases numbers_left) [
        | inr used_up ↦ inr (
            inr (
              inside,
              inr used_up,
              failed_append_reaches_nobody known inside _ (append_refuses_number free used_up),
            ))
        | inl left ↦
            let heard = member_is_heard known inside posted (append_accepts free left) in
            let (_, stored) = accepted_is_stored known inside posted (append_accepts free left) in
            inr (
              inl (
                inside,
                (free, left),
                (
                  _,
                  heard,
                  ap (λ (r : Result (Unit {0}) × World). r.1.db.messages) (sym heard) ∙ stored,
                  refl,
                ),
              ))
      ]
    ]
  ]

  -- A message that a member has sent is in the history behind PRIVMSG: a reader of the channel that has
  -- seen at most the messages before it gets those that it has not seen and then this one, as far as
  -- its limit goes. The log is in order, and it accepts the message.
  pub posted_is_readable :
      IsLog w.db
      → session.principal ≡ some p
      → has_membership p.id channel w.db ≡ true
      → (m : StoredMessage) → attempted.0 ≡ ok m
      → (after_seq limit : ℤ) → after_seq ≤ℤ w.db.last_message_seq
      → after channel after_seq limit (privmsg env session channel body w).1.db
        ≡ take (clamp_limit limit) (select (wanted channel after_seq) w.db.messages ++ m ∷ [])
  posted_is_readable log known inside m accepted after_seq limit unseen =
      ap (λ (r : Result (Unit {0}) × World). after channel after_seq limit r.1.db)
        (member_is_heard known inside m accepted)
      ∙ after-messages channel after_seq limit _ _ (
          seen_by-messages (select (is_listening w.closed) (recipients_with_ids channel w.inner))
            channel m.seq attempted.1)
      ∙ after-append channel p.id body (env.uuid w.uuids) (env.clock w.readings) w.db after_seq
          limit log accepted unseen
