-- ===== src/Daemon/Redelivery.antt =====
-- At-least-once delivery between the inbox of clients/python/aircd/daemon.py and Claude.
use aircd.Base.{
  arith, ◌≡◌, ◌⊎◌, inl, inr, refl, ap, ◌∙◌, ◌<◌, Bool, true, false, ◌||◌, Bool-cases, List, [], ◌∷◌,
  ◌++◌, Str, ◌==◌, any, select, All-select, length, length-append,
}
use aircd.Maps.{holds}
use aircd.Daemon.{
  Held, Inbox, max_pending, is_expired, requeue_expired_in_flight, ack_messages, check_messages,
  append_pending, put_back, deliver_pending_idle, receive_new, receive, message_to_dict,
}
use aircd.Daemon.Holding.{
  is_called, is_in_flight, is_held, IsKeyed, requeue-IsKeyed, deliver-IsKeyed, ack_each-IsKeyed,
  requeue-is_held, deliver-lookup, ack_each-in_flight, ack_each-pending,
}

-- What happens at the inbox: Claude asks for its messages, or acknowledges some; the reaper comes round;
-- a message arrives, while Claude is busy or not; or the daemon writes what is pending to an idle Claude,
-- and the write succeeds or fails.
pub data Event (Time : Type 0) : Type 0 where
  checks : Time → Event Time
  acks : List Str → Event Time
  reaps : Time → Event Time
  arrives : Bool → Held → Event Time
  idles : Bool → Event Time

put_back-nil : (messages : List Held) → put_back messages [] ≡ messages
unfolding put_back
put_back-nil [] = refl
put_back-nil (m ∷ messages) = ap (λ ms. m ∷ ms) (put_back-nil messages)

module _ {Time : Type 0} (has_expired : Time → Time → Bool) (nick : Str) where
  abbrev pub happen : Event Time → Inbox Time → Inbox Time
  happen (checks now) inbox = (check_messages has_expired now inbox).1
  happen (acks ids) inbox = (ack_messages ids inbox).1
  happen (reaps now) inbox = (requeue_expired_in_flight has_expired now inbox).1
  happen (arrives is_busy held) inbox = receive is_busy held nick inbox
  happen (idles is_written) inbox = (deliver_pending_idle is_written inbox).1

  abbrev pub happen_all : List (Event Time) → Inbox Time → Inbox Time
  happen_all [] inbox = inbox
  happen_all (event ∷ events) inbox = happen_all events (happen event inbox)

  -- Claude does not acknowledge the message, it is not written to Claude directly, and no message arrives
  -- for a full inbox while Claude is busy.
  abbrev pub Spares : Str → Event Time → Inbox Time → Type 0
  Spares id (checks now) inbox = Unit {0}
  Spares id (acks ids) inbox = holds id ids ≡ false
  Spares id (reaps now) inbox = Unit {0}
  Spares id (arrives is_busy held) inbox =
      (is_busy ≡ false) ⊎ (length inbox.pending_inbox < max_pending)
  Spares id (idles is_written) inbox =
      (is_written ≡ false) ⊎ (any (is_called id) inbox.pending_inbox ≡ false)

  abbrev pub SparesAll : Str → List (Event Time) → Inbox Time → Type 0
  SparesAll id [] inbox = Unit {0}
  SparesAll id (event ∷ events) inbox =
      Spares id event inbox × SparesAll id events (happen event inbox)

  module _ (id : Str) where
    pub reaped-is_held :
        (now : Time) (inbox : Inbox Time)
        → IsKeyed inbox.in_flight
        → is_held id inbox ≡ true
        → is_held id (requeue_expired_in_flight has_expired now inbox).1 ≡ true
    unfolding requeue_expired_in_flight
    reaped-is_held now inbox keyed held =
        requeue-is_held id (select (is_expired has_expired now) inbox.in_flight) inbox
          (All-select _ (is_expired has_expired now) inbox.in_flight keyed) held

    checked-is_held :
        (now : Time) (inbox : Inbox Time)
        → IsKeyed inbox.in_flight
        → is_held id inbox ≡ true
        → is_held id (check_messages has_expired now inbox).1 ≡ true
    unfolding check_messages
    checked-is_held now inbox keyed held =
        let ready = (requeue_expired_in_flight has_expired now inbox).1 in
        deliver-lookup id now ready.pending_inbox ready.in_flight
        ∙ reaped-is_held now inbox keyed held

    acked-is_held :
        (ids : List Str) (inbox : Inbox Time)
        → holds id ids ≡ false
        → is_held id inbox ≡ true
        → is_held id (ack_messages ids inbox).1 ≡ true
    unfolding ack_messages
    acked-is_held [] inbox unacked held = held
    acked-is_held (mid ∷ ids) inbox unacked held =
        rw
          (ack_each-pending (mid ∷ ids) 0 inbox, ack_each-in_flight id (mid ∷ ids) 0 inbox, unacked)
          held

    appended :
        (is_busy : Bool) (held : Held) (pending : List Held)
        → (is_busy ≡ false) ⊎ (length pending < max_pending)
        → append_pending is_busy held pending ≡ pending ++ held ∷ []
    unfolding append_pending
    appended is_busy held pending w = ground (arith, length-append pending (held ∷ []), w)

    any-snoc :
        (m : Held) (pending : List Held)
        → any (is_called id) (pending ++ m ∷ []) ≡ (any (is_called id) pending || is_called id m)
    any-snoc m [] = ground arith
    any-snoc m (n ∷ pending) = ground (arith, any-snoc m pending)

    put-is_held :
        (is_busy : Bool) (m : Held) (inbox : Inbox Time)
        → (is_busy ≡ false) ⊎ (length inbox.pending_inbox < max_pending)
        → is_held id inbox ≡ true
        → (any (is_called id) (append_pending is_busy m inbox.pending_inbox)
            || is_in_flight id inbox)
          ≡ true
    put-is_held is_busy m inbox room held =
        rw (appended is_busy m inbox.pending_inbox room, any-snoc m inbox.pending_inbox)
          (ground (arith, held))

    received_new-is_held :
        (is_busy : Bool) (m : Held) (msg_id : Str) (inbox : Inbox Time)
        → (is_busy ≡ false) ⊎ (length inbox.pending_inbox < max_pending)
        → is_held id inbox ≡ true
        → is_held id (receive_new is_busy m msg_id inbox) ≡ true
    received_new-is_held is_busy m [] inbox room held = put-is_held is_busy m inbox room held
    received_new-is_held is_busy m (c ∷ msg_id) inbox room held =
        elim (Bool-cases (holds (c ∷ msg_id) inbox.seen_msg_ids)) [
          | inl e ↦ rw e held
          | inr e ↦ rw e (put-is_held is_busy m inbox room held)
        ]

    arrived-is_held :
        (is_busy : Bool) (m : Held) (inbox : Inbox Time)
        → (is_busy ≡ false) ⊎ (length inbox.pending_inbox < max_pending)
        → is_held id inbox ≡ true
        → is_held id (receive is_busy m nick inbox) ≡ true
    unfolding receive
    arrived-is_held is_busy m inbox room held = elim (Bool-cases (m.message.sender == nick)) [
      | inl e ↦ rw e held
      | inr e ↦
          rw e (received_new-is_held is_busy m (message_to_dict m.message).msg_id inbox room held)
    ]

    idled-is_held :
        (is_written : Bool) (inbox : Inbox Time)
        → (is_written ≡ false) ⊎ (any (is_called id) inbox.pending_inbox ≡ false)
        → is_held id inbox ≡ true
        → is_held id (deliver_pending_idle is_written inbox).1 ≡ true
    unfolding deliver_pending_idle
    idled-is_held false inbox spared held = rw (put_back-nil inbox.pending_inbox) held
    idled-is_held true inbox spared held = ground (arith, held, spared)

    pub happen-is_held :
        (event : Event Time) (inbox : Inbox Time)
        → IsKeyed inbox.in_flight
        → Spares id event inbox
        → is_held id inbox ≡ true
        → is_held id (happen event inbox) ≡ true
    happen-is_held (checks now) inbox keyed spared held = checked-is_held now inbox keyed held
    happen-is_held (acks ids) inbox keyed spared held = acked-is_held ids inbox spared held
    happen-is_held (reaps now) inbox keyed spared held = reaped-is_held now inbox keyed held
    happen-is_held (arrives is_busy m) inbox keyed spared held =
        arrived-is_held is_busy m inbox spared held
    happen-is_held (idles is_written) inbox keyed spared held =
        idled-is_held is_written inbox spared held

  received_new-in_flight :
      (is_busy : Bool) (m : Held) (msg_id : Str) (inbox : Inbox Time)
      → (receive_new is_busy m msg_id inbox).in_flight ≡ inbox.in_flight
  received_new-in_flight is_busy m [] inbox = refl
  received_new-in_flight is_busy m (c ∷ msg_id) inbox =
      elim (Bool-cases (holds (c ∷ msg_id) inbox.seen_msg_ids)) [
        | inl e ↦ rw e refl
        | inr e ↦ rw e refl
      ]

  receive-in_flight :
      (is_busy : Bool) (m : Held) (inbox : Inbox Time)
      → (receive is_busy m nick inbox).in_flight ≡ inbox.in_flight
  unfolding receive
  receive-in_flight is_busy m inbox = elim (Bool-cases (m.message.sender == nick)) [
    | inl e ↦ rw e refl
    | inr e ↦ rw e (received_new-in_flight is_busy m (message_to_dict m.message).msg_id inbox)
  ]

  idled-in_flight :
      (is_written : Bool) (inbox : Inbox Time)
      → (deliver_pending_idle is_written inbox).1.in_flight ≡ inbox.in_flight
  unfolding deliver_pending_idle
  idled-in_flight true inbox = refl
  idled-in_flight false inbox = refl

  pub happen-IsKeyed :
      (event : Event Time) (inbox : Inbox Time)
      → IsKeyed inbox.in_flight
      → IsKeyed (happen event inbox).in_flight
  unfolding check_messages requeue_expired_in_flight ack_messages
  happen-IsKeyed (checks now) inbox keyed =
      let ready = (requeue_expired_in_flight has_expired now inbox).1 in
      deliver-IsKeyed now ready.pending_inbox ready.in_flight
        (requeue-IsKeyed (select (is_expired has_expired now) inbox.in_flight) inbox keyed)
  happen-IsKeyed (acks []) inbox keyed = keyed
  happen-IsKeyed (acks (mid ∷ ids)) inbox keyed = ack_each-IsKeyed (mid ∷ ids) 0 inbox keyed
  happen-IsKeyed (reaps now) inbox keyed =
      requeue-IsKeyed (select (is_expired has_expired now) inbox.in_flight) inbox keyed
  happen-IsKeyed (arrives is_busy m) inbox keyed = rw (receive-in_flight is_busy m inbox) keyed
  happen-IsKeyed (idles is_written) inbox keyed = rw (idled-in_flight is_written inbox) keyed
