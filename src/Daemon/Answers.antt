-- ===== src/Daemon/Answers.antt =====
-- What Claude is answered when it asks the inbox of clients/python/aircd/daemon.py for its messages.
use mathlib.Core.List.{Memᴰ}
use aircd.Base.{
  arith, ◌≡◌, ◌⊎◌, refl, ap, ◌∙◌, Bool, true, false, not, ◌||◌, ◌&&◌, List, [], ◌∷◌, map, Str, ◌==◌,
  any, select, All, ◌≢◌, sym, ◌++◌, codes, Bool-cases, inl, inr,
}
use aircd.Strings.{is_some, strip_prefix, starts_with}
use aircd.Maps.{lookup, remove, lookup-remove}
use aircd.Daemon.{
  Held, Inbox, MessageDict, is_expired, requeue, requeue_expired_in_flight, check_messages,
  answer_of, delivery_id, message_to_dict, id_or_object, or_empty, search_tag,
}
use aircd.Daemon.Holding.{is_called, is_in_flight, is_held, IsKeyed}
use aircd.Daemon.Contents.{HoldsOnly, Brings, reaped-HoldsOnly, happen_all-HoldsOnly}
use aircd.Daemon.Redelivery.{
  Event, happen, happen_all, SparesAll, reaped-is_held, happen-is_held, happen-IsKeyed,
}

-- what `check_messages` answers holds a message of this id
abbrev pub is_answered : Str → List (Str × MessageDict) → Bool
is_answered id answers = any (λ a. a.0 == id) answers

answered :
    (id : Str) (pending : List Held)
    → is_answered id (map answer_of pending) ≡ any (is_called id) pending
answered id [] = refl
answered id (m ∷ pending) = ap (λ b. is_called id m || b) (answered id pending)

module _ {Time : Type 0} (id : Str) where
  under_key :
      (in_flight : List (Str × (Held × Time)))
      → is_some (lookup id in_flight) ≡ any (λ e. e.0 == id) in_flight
  unfolding lookup
  under_key [] = refl
  under_key ((mid, m) ∷ in_flight) = ground (arith, under_key in_flight)

  removed :
      (mid : Str) (in_flight : List (Str × (Held × Time)))
      → is_some (lookup id (remove mid in_flight))
        ≡ (not (mid == id) && is_some (lookup id in_flight))
  removed mid in_flight = rw (lookup-remove mid id in_flight) (ground arith)

  requeue-in_flight :
      (expired : List (Str × (Held × Time))) (inbox : Inbox Time)
      → is_in_flight id (requeue expired inbox)
        ≡ (not (any (λ e. e.0 == id) expired) && is_in_flight id inbox)
  unfolding requeue
  requeue-in_flight [] inbox = refl
  requeue-in_flight ((mid, (m, t)) ∷ expired) inbox =
      requeue-in_flight expired _
      ∙ ap (λ b. not (any (λ e. e.0 == id) expired) && b) (removed mid inbox.in_flight)
      ∙ ground arith

module _ {Time : Type 0} (has_expired : Time → Time → Bool) where
  -- a message in flight under this id, if there is one, has been there for too long
  abbrev pub HasWaited : Str → Time → Inbox Time → Type 0
  HasWaited id now inbox =
      All (λ e. ((e.0 == id) ≡ false) ⊎ (is_expired has_expired now e ≡ true)) inbox.in_flight

  waited-select :
      (id : Str) (now : Time) (in_flight : List (Str × (Held × Time)))
      → All (λ e. ((e.0 == id) ≡ false) ⊎ (is_expired has_expired now e ≡ true)) in_flight
      → any (λ e. e.0 == id) (select (is_expired has_expired now) in_flight)
        ≡ any (λ e. e.0 == id) in_flight
  unfolding select
  waited-select id now [] h = refl
  waited-select id now ((mid, (m, t)) ∷ in_flight) (w, h) =
      ground (arith, waited-select id now in_flight h, w)

  none_left :
      (id : Str) (now : Time) (inbox : Inbox Time)
      → HasWaited id now inbox
      → is_in_flight id (requeue_expired_in_flight has_expired now inbox).1 ≡ false
  unfolding requeue_expired_in_flight
  none_left id now inbox waited =
      requeue-in_flight id (select (is_expired has_expired now) inbox.in_flight) inbox
      ∙ rw (waited-select id now inbox.in_flight waited, under_key id inbox.in_flight)
          (ground arith)

  check_returns :
      (nick id : Str) (now : Time) (inbox : Inbox Time)
      → IsKeyed inbox.in_flight
      → is_held id inbox ≡ true
      → HasWaited id now inbox
      → is_answered id (check_messages has_expired now inbox).0 ≡ true
  unfolding check_messages
  check_returns nick id now inbox keyed held waited =
      let ready = (requeue_expired_in_flight has_expired now inbox).1 in
      answered id ready.pending_inbox
      ∙ only_pending (any (is_called id) ready.pending_inbox) (is_in_flight id ready)
          (none_left id now inbox waited) (reaped-is_held has_expired nick id now inbox keyed held)
    where
      only_pending : (a b : Bool) → b ≡ false → (a || b) ≡ true → a ≡ true
      only_pending a b none either = ground (arith, none, either)

happen_all-is_held :
    {Time : Type 0} (has_expired : Time → Time → Bool) (nick id : Str) (events : List (Event Time))
    (inbox : Inbox Time)
    → IsKeyed inbox.in_flight
    → SparesAll has_expired nick id events inbox
    → is_held id inbox ≡ true
    → IsKeyed (happen_all has_expired nick events inbox).in_flight
      × (is_held id (happen_all has_expired nick events inbox) ≡ true)
happen_all-is_held has_expired nick id [] inbox keyed spared held = (keyed, held)
happen_all-is_held has_expired nick id (event ∷ events) inbox keyed (spared, later) held =
    happen_all-is_held has_expired nick id events (happen has_expired nick event inbox)
      (happen-IsKeyed has_expired nick event inbox keyed) later
      (happen-is_held has_expired nick id event inbox keyed spared held)

-- Another message than `h`: it has another msg-id, or both have none and are different objects. No
-- msg-id begins with `noid_`, as the daemon's ids for messages without one do.
abbrev pub IsOther : Held → Held → Type 0
IsOther h m =
    let a = (message_to_dict h.message).msg_id in
    let b = (message_to_dict m.message).msg_id in
    ((a ≢ b) × (starts_with (codes "noid_") a ≡ false) × (starts_with (codes "noid_") b ≡ false))
    ⊎ ((a ≡ []) × (b ≡ []) × (h.object ≢ m.object))

-- `h`, or another message
abbrev pub IsThisOrOther : Held → Held → Type 0
IsThisOrOther h m = (m ≡ h) ⊎ IsOther h m

made_up : (object : Str) → starts_with (codes "noid_") (codes "noid_" ++ object) ≡ true
unfolding starts_with strip_prefix codes
made_up object = refl

not_made_up : (o : Str) (s : Str) → starts_with (codes "noid_") s ≡ false → codes "noid_" ++ o ≢ s
not_made_up o s own e = cc (made_up o, own, e)

made_up_apart : (o o' : Str) → o ≢ o' → codes "noid_" ++ o ≢ codes "noid_" ++ o'
unfolding codes
made_up_apart o o' apart e = apart cc

ids_apart :
    (o o' a b : Str)
    → ((a ≢ b) × (starts_with (codes "noid_") a ≡ false) × (starts_with (codes "noid_") b ≡ false))
      ⊎ ((a ≡ []) × (b ≡ []) × (o ≢ o'))
    → id_or_object o a ≢ id_or_object o' b
ids_apart o o' [] [] (inl (n, _, _)) e = n refl
ids_apart o o' [] [] (inr (_, _, n)) e = made_up_apart o o' n e
ids_apart o o' [] (d ∷ b) (inl (n, _, own)) e = not_made_up o (d ∷ b) own e
ids_apart o o' [] (d ∷ b) (inr (_, h, n)) e = cc
ids_apart o o' (c ∷ a) [] (inl (n, own, _)) e = not_made_up o' (c ∷ a) own (sym e)
ids_apart o o' (c ∷ a) [] (inr (h, _, n)) e = cc
ids_apart o o' (c ∷ a) (d ∷ b) (inl (n, _, _)) e = n e
ids_apart o o' (c ∷ a) (d ∷ b) (inr (h, _, n)) e = cc

-- what Claude is told of a message
abbrev pub told_of : Held → Str × MessageDict
told_of h = (
  delivery_id h,
  record {
    channel = h.message.channel;
    sender = h.message.sender;
    content = h.message.content;
    msg_id = or_empty (search_tag (codes "msg-id=") h.message.raw);
    time = or_empty (search_tag (codes "time=") h.message.raw);
    seq = h.message.seq;
    is_replay = h.message.is_replay;
  },
)

this_one : (h m : Held) → IsThisOrOther h m → is_called (delivery_id h) m ≡ true → m ≡ h
unfolding delivery_id
this_one h m (inl same) called = same
this_one h m (inr other) called =
    absurd (ids_apart h.object m.object _ _ other (sym (ground (arith, called))))

its_answer :
    (h : Held) (pending : List Held)
    → All (IsThisOrOther h) pending
    → any (is_called (delivery_id h)) pending ≡ true
    → Memᴰ (told_of h) (map answer_of pending)
unfolding message_to_dict
its_answer h [] ps called = absurd cc
its_answer h (m ∷ pending) (p, ps) called = elim (Bool-cases (is_called (delivery_id h) m)) [
  | inl e ↦ Memᴰ.head (ap answer_of (sym (this_one h m p e)))
  | inr e ↦ Memᴰ.tail (its_answer h pending ps (ground (arith, e, called)))
]

module _ {Time : Type 0} (has_expired : Time → Time → Bool) (nick : Str) (h : Held) where
  -- Claude's question for its messages is answered with the message.
  asked :
      (now : Time) (inbox : Inbox Time)
      → IsKeyed inbox.in_flight
      → is_held (delivery_id h) inbox ≡ true
      → HoldsOnly (IsThisOrOther h) inbox
      → HasWaited has_expired (delivery_id h) now inbox
      → Memᴰ (told_of h) (check_messages has_expired now inbox).0
  unfolding check_messages
  asked now inbox keyed held only waited =
      let ready = (requeue_expired_in_flight has_expired now inbox).1 in
      let answers = check_returns has_expired nick (delivery_id h) now inbox keyed held waited in
      its_answer h ready.pending_inbox
        (reaped-HoldsOnly (IsThisOrOther h) has_expired nick now inbox only).0
        (sym (answered (delivery_id h) ready.pending_inbox) ∙ answers)

  -- Delivery to Claude is at least once: a message that the inbox holds, pending or in flight, is among
  -- the answers when Claude asks for its messages once again, with its channel, sender, text and number
  -- and the id to acknowledge it with, whatever has happened before, as long as Claude has not
  -- acknowledged it, it has not been written to an idle Claude, and no message has arrived for a full
  -- inbox while Claude was busy, and if it is in flight, it has been so for longer than the visibility
  -- timeout. Messages in flight stand under their delivery ids. Every other message of the inbox, or that
  -- arrives, has another msg-id, or both messages have none and are different objects; no msg-id begins
  -- with `noid_`.
  pub at_least_once :
      (inbox : Inbox Time) (events : List (Event Time)) (now : Time)
      → IsKeyed inbox.in_flight
      → is_held (delivery_id h) inbox ≡ true
      → HoldsOnly (IsThisOrOther h) inbox
      → All (Brings (IsThisOrOther h)) events
      → SparesAll has_expired nick (delivery_id h) events inbox
      → HasWaited has_expired (delivery_id h) now (happen_all has_expired nick events inbox)
      → Memᴰ
          (told_of h)
          (check_messages has_expired now (happen_all has_expired nick events inbox)).0
  at_least_once inbox events now keyed held only brought spared waited =
      let (keyed', held') =
        happen_all-is_held has_expired nick (delivery_id h) events inbox keyed spared held in
      asked now (happen_all has_expired nick events inbox) keyed' held'
        (happen_all-HoldsOnly (IsThisOrOther h) has_expired nick events inbox brought only) waited
