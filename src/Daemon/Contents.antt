-- ===== src/Daemon/Contents.antt =====
-- What all messages that reach the inbox of clients/python/aircd/daemon.py have in common, all messages
-- that it holds have.
use aircd.Base.{
  ℕ, Bool, true, false, Bool-cases, inl, inr, List, [], ◌∷◌, Str, ◌==◌, All, All-append, All-select,
  if◌then◌else◌,
}
use aircd.Maps.{remove, insert, holds}
use aircd.Daemon.{
  Held, Inbox, delivery_id, is_expired, requeue, requeue_expired_in_flight, deliver, ack_one,
  ack_each, ack_messages, check_messages, append_pending, popleft, put_back, deliver_pending_idle,
  receive_new, receive, message_to_dict,
}
use aircd.Daemon.Holding.{is_in_flight}
use aircd.Daemon.Redelivery.{Event, checks, acks, reaps, arrives, idles, happen, happen_all}

module _ (P : Held → Type 0) where
  popleft-All : (pending : List Held) → All P pending → All P (popleft pending)
  popleft-All [] h = tt
  popleft-All (m ∷ pending) (p, h) = h

  if-All : (b : Bool) (xs ys : List Held) → All P xs → All P ys → All P (if b then xs else ys)
  if-All true xs ys h k = h
  if-All false xs ys h k = k

  append_pending-All :
      (is_busy : Bool) (m : Held) (pending : List Held)
      → P m
      → All P pending
      → All P (append_pending is_busy m pending)
  unfolding append_pending
  append_pending-All is_busy m pending p h =
      let both = All-append P pending (m ∷ []) h (p, tt) in
      if-All is_busy _ _ (if-All _ _ _ (popleft-All _ both) both) both

  put_back-All :
      (messages pending : List Held)
      → All P messages
      → All P pending
      → All P (put_back messages pending)
  unfolding put_back
  put_back-All [] pending h k = k
  put_back-All (m ∷ messages) pending (p, h) k = (p, put_back-All messages pending h k)

module _ {Time : Type 0} (P : Held → Type 0) where
  abbrev pub InFlight : List (Str × (Held × Time)) → Type 0
  InFlight = All (λ e. P e.1.0)

  -- every message of the inbox, pending or in flight
  abbrev pub HoldsOnly : Inbox Time → Type 0
  HoldsOnly inbox = All P inbox.pending_inbox × InFlight inbox.in_flight

  -- the message that arrives, if this is an arrival
  abbrev pub Brings : Event Time → Type 0
  Brings (checks now) = Unit {0}
  Brings (acks ids) = Unit {0}
  Brings (reaps now) = Unit {0}
  Brings (arrives is_busy m) = P m
  Brings (idles is_written) = Unit {0}

  remove-InFlight :
      (mid : Str) (in_flight : List (Str × (Held × Time)))
      → InFlight in_flight
      → InFlight (remove mid in_flight)
  unfolding remove
  remove-InFlight mid [] h = tt
  remove-InFlight mid ((j, (m, t)) ∷ in_flight) (k, h) = elim (Bool-cases (j == mid)) [
    | inl e ↦ rw e (remove-InFlight mid in_flight h)
    | inr e ↦ rw e (k, remove-InFlight mid in_flight h)
  ]

  insert-InFlight :
      (mid : Str) (m : Held) (now : Time) (in_flight : List (Str × (Held × Time)))
      → P m
      → InFlight in_flight
      → InFlight (insert mid (m, now) in_flight)
  unfolding insert
  insert-InFlight mid m now [] p h = (p, tt)
  insert-InFlight mid m now ((j, (n, t)) ∷ in_flight) p (k, h) = elim (Bool-cases (j == mid)) [
    | inl e ↦ rw e (p, h)
    | inr e ↦ rw e (k, insert-InFlight mid m now in_flight p h)
  ]

  requeue-HoldsOnly :
      (expired : List (Str × (Held × Time))) (inbox : Inbox Time)
      → InFlight expired
      → HoldsOnly inbox
      → HoldsOnly (requeue expired inbox)
  unfolding requeue
  requeue-HoldsOnly [] inbox h held = held
  requeue-HoldsOnly ((mid, (m, t)) ∷ expired) inbox (p, h) (pending, in_flight) =
      requeue-HoldsOnly expired _ h ((p, pending), remove-InFlight mid inbox.in_flight in_flight)

  deliver-InFlight :
      (now : Time) (pending : List Held) (in_flight : List (Str × (Held × Time)))
      → All P pending
      → InFlight in_flight
      → InFlight (deliver now pending in_flight)
  unfolding deliver
  deliver-InFlight now [] in_flight h held = held
  deliver-InFlight now (m ∷ pending) in_flight (p, h) held =
      deliver-InFlight now pending _ h (insert-InFlight (delivery_id m) m now in_flight p held)

  ack_one-HoldsOnly :
      (mid : Str) (acked : ℕ) (inbox : Inbox Time)
      → HoldsOnly inbox
      → HoldsOnly (ack_one mid (acked, inbox)).1
  unfolding ack_one
  ack_one-HoldsOnly mid acked inbox (p, h) = elim (Bool-cases (is_in_flight mid inbox)) [
    | inl e ↦ rw e (p, remove-InFlight mid inbox.in_flight h)
    | inr e ↦ rw e (p, h)
  ]

  ack_each-HoldsOnly :
      (ids : List Str) (acked : ℕ) (inbox : Inbox Time)
      → HoldsOnly inbox
      → HoldsOnly (ack_each ids (acked, inbox)).1
  unfolding ack_each
  ack_each-HoldsOnly [] acked inbox h = h
  ack_each-HoldsOnly (mid ∷ ids) acked inbox h =
      let (acked', inbox') = ack_one mid (acked, inbox) in
      ack_each-HoldsOnly ids acked' inbox' (ack_one-HoldsOnly mid acked inbox h)

  receive_new-HoldsOnly :
      (is_busy : Bool) (m : Held) (msg_id : Str) (inbox : Inbox Time)
      → P m
      → HoldsOnly inbox
      → HoldsOnly (receive_new is_busy m msg_id inbox)
  receive_new-HoldsOnly is_busy m [] inbox p (h, k) =
      (append_pending-All P is_busy m inbox.pending_inbox p h, k)
  receive_new-HoldsOnly is_busy m (c ∷ msg_id) inbox p (h, k) =
      elim (Bool-cases (holds (c ∷ msg_id) inbox.seen_msg_ids)) [
        | inl e ↦ rw e (h, k)
        | inr e ↦ rw e (append_pending-All P is_busy m inbox.pending_inbox p h, k)
      ]

  module _ (has_expired : Time → Time → Bool) (nick : Str) where
    pub reaped-HoldsOnly :
        (now : Time) (inbox : Inbox Time)
        → HoldsOnly inbox
        → HoldsOnly (requeue_expired_in_flight has_expired now inbox).1
    unfolding requeue_expired_in_flight
    reaped-HoldsOnly now inbox (p, h) =
        requeue-HoldsOnly _ inbox (All-select _ (is_expired has_expired now) inbox.in_flight h)
          (p, h)

    happen-HoldsOnly :
        (event : Event Time) (inbox : Inbox Time)
        → Brings event
        → HoldsOnly inbox
        → HoldsOnly (happen has_expired nick event inbox)
    unfolding check_messages ack_messages receive deliver_pending_idle
    happen-HoldsOnly (checks now) inbox b h =
        let (p, k) = reaped-HoldsOnly now inbox h in (tt, deliver-InFlight now _ _ p k)
    happen-HoldsOnly (acks []) inbox b h = h
    happen-HoldsOnly (acks (mid ∷ ids)) inbox b h = ack_each-HoldsOnly (mid ∷ ids) 0 inbox h
    happen-HoldsOnly (reaps now) inbox b h = reaped-HoldsOnly now inbox h
    happen-HoldsOnly (arrives is_busy m) inbox b h = elim (Bool-cases (m.message.sender == nick)) [
      | inl e ↦ rw e h
      | inr e ↦ rw e (receive_new-HoldsOnly is_busy m (message_to_dict m.message).msg_id inbox b h)
    ]
    happen-HoldsOnly (idles true) inbox b (p, k) = (tt, k)
    happen-HoldsOnly (idles false) inbox b (p, k) = (put_back-All P inbox.pending_inbox [] p tt, k)

    pub happen_all-HoldsOnly :
        (events : List (Event Time)) (inbox : Inbox Time)
        → All Brings events
        → HoldsOnly inbox
        → HoldsOnly (happen_all has_expired nick events inbox)
    happen_all-HoldsOnly [] inbox b h = h
    happen_all-HoldsOnly (event ∷ events) inbox (b, bs) h =
        happen_all-HoldsOnly events (happen has_expired nick event inbox) bs
          (happen-HoldsOnly event inbox b h)
