-- ===== src/Daemon/Once.antt =====
-- A message that the server sends twice, at the inbox of clients/python/aircd/daemon.py.
use aircd.Base.{
  arith, ◌≡◌, refl, sym, subst, ℕ, suc, ◌+◌, ◌<◌, Bool, true, false, Bool-cases, inl, inr, List, [],
  ◌∷◌, Str, ◌==◌, select,
}
use aircd.Maps.{holds}
use aircd.Daemon.{
  Held, Inbox, max_dedup_entries, is_expired, requeue_expired_in_flight, check_messages,
  ack_messages, deliver_pending_idle, receive_new, receive, message_to_dict,
}
use aircd.Daemon.Redelivery.{Event, checks, acks, reaps, arrives, idles, happen_all}
use aircd.Daemon.Dedup.{
  IsRecent, IsRecent-holds, IsRecent-weaken, move_to_end-newest, remember-newest, requeue-seen,
  ack_each-seen, received_new-IsRecent, arrivals,
}

idled-seen :
    {Time : Type 0} (is_written : Bool) (inbox : Inbox Time)
    → (deliver_pending_idle is_written inbox).1.seen_msg_ids ≡ inbox.seen_msg_ids
unfolding deliver_pending_idle
idled-seen true inbox = refl
idled-seen false inbox = refl

module _ {Time : Type 0} (has_expired : Time → Time → Bool) (nick : Str) where
  received-IsRecent :
      (id : Str) (n : ℕ) (is_busy : Bool) (m : Held) (inbox : Inbox Time)
      → suc n < max_dedup_entries
      → IsRecent id n inbox.seen_msg_ids
      → IsRecent id (suc n) (receive is_busy m nick inbox).seen_msg_ids
  unfolding receive
  received-IsRecent id n is_busy m inbox room recent =
      elim (Bool-cases (m.message.sender == nick)) [
        | inl e ↦ rw e (IsRecent-weaken id n (suc n) _ (omega arith) recent)
        | inr e ↦ rw e (
            received_new-IsRecent id n is_busy m (message_to_dict m.message).msg_id inbox room
              recent)
      ]

  happen_all-IsRecent :
      (id : Str) (n : ℕ) (events : List (Event Time)) (inbox : Inbox Time)
      → n + arrivals events < max_dedup_entries
      → IsRecent id n inbox.seen_msg_ids
      → IsRecent id (n + arrivals events) (happen_all has_expired nick events inbox).seen_msg_ids
  unfolding check_messages requeue_expired_in_flight ack_messages
  happen_all-IsRecent id n [] inbox room recent = IsRecent-weaken id n _ _ (omega arith) recent
  happen_all-IsRecent id n (checks now ∷ events) inbox room recent =
      happen_all-IsRecent id n events _ room (
        subst (IsRecent id n)
          (sym (requeue-seen (select (is_expired has_expired now) inbox.in_flight) inbox)) recent)
  happen_all-IsRecent id n (reaps now ∷ events) inbox room recent =
      happen_all-IsRecent id n events _ room (
        subst (IsRecent id n)
          (sym (requeue-seen (select (is_expired has_expired now) inbox.in_flight) inbox)) recent)
  happen_all-IsRecent id n (acks [] ∷ events) inbox room recent =
      happen_all-IsRecent id n events _ room recent
  happen_all-IsRecent id n (acks (mid ∷ ids) ∷ events) inbox room recent =
      happen_all-IsRecent id n events _ room
        (subst (IsRecent id n) (sym (ack_each-seen (mid ∷ ids) 0 inbox)) recent)
  happen_all-IsRecent id n (idles is_written ∷ events) inbox room recent =
      happen_all-IsRecent id n events _ room
        (subst (IsRecent id n) (sym (idled-seen is_written inbox)) recent)
  happen_all-IsRecent id n (arrives is_busy m ∷ events) inbox room recent =
      IsRecent-weaken id (suc n + arrivals events) _ _ (omega arith) (
        happen_all-IsRecent id (suc n) events _ (omega (arith, room))
          (received-IsRecent id n is_busy m inbox (omega (arith, room)) recent))

  receive_new-newest :
      (is_busy : Bool) (m : Held) (c : ℕ) (msg_id : Str) (inbox : Inbox Time)
      → IsRecent (c ∷ msg_id) 0 (receive_new is_busy m (c ∷ msg_id) inbox).seen_msg_ids
  receive_new-newest is_busy m c msg_id inbox =
      elim (Bool-cases (holds (c ∷ msg_id) inbox.seen_msg_ids)) [
        | inl e ↦ rw e (move_to_end-newest (c ∷ msg_id) inbox.seen_msg_ids)
        | inr e ↦ rw e (remember-newest (c ∷ msg_id) inbox.seen_msg_ids)
      ]

  receive-newest :
      (is_busy : Bool) (m : Held) (c : ℕ) (msg_id : Str) (inbox : Inbox Time)
      → (m.message.sender == nick) ≡ false
      → (message_to_dict m.message).msg_id ≡ c ∷ msg_id
      → IsRecent (c ∷ msg_id) 0 (receive is_busy m nick inbox).seen_msg_ids
  unfolding receive
  receive-newest is_busy m c msg_id inbox other named =
      rw (other, named) (receive_new-newest is_busy m c msg_id inbox)

  receive-known :
      (is_busy : Bool) (m : Held) (c : ℕ) (msg_id : Str) (inbox : Inbox Time)
      → (message_to_dict m.message).msg_id ≡ c ∷ msg_id
      → holds (c ∷ msg_id) inbox.seen_msg_ids ≡ true
      → (receive is_busy m nick inbox).pending_inbox ≡ inbox.pending_inbox
  unfolding receive
  receive-known is_busy m c msg_id inbox named known =
      elim (Bool-cases (m.message.sender == nick)) [
        | inl e ↦ rw e refl
        | inr e ↦ rw (e, named, known) refl
      ]

-- A message comes to the inbox once, however often the server sends it: once a message of another agent
-- has arrived, one with the same msg-id that arrives later changes nothing of what is pending, whatever
-- Claude and the reaper have done in between, if fewer than MAX_DEDUP_ENTRIES other messages have arrived
-- in between.
pub arrives_once :
    {Time : Type 0} (has_expired : Time → Time → Bool) (nick : Str) (first second : Held)
    (is_busy later_busy : Bool) (c : ℕ) (msg_id : Str) (inbox : Inbox Time)
    (events : List (Event Time))
    → (first.message.sender == nick) ≡ false
    → (message_to_dict first.message).msg_id ≡ c ∷ msg_id
    → (message_to_dict second.message).msg_id ≡ c ∷ msg_id
    → arrivals events < max_dedup_entries
    → (receive later_busy second nick
        (happen_all has_expired nick events (receive is_busy first nick inbox))).pending_inbox
      ≡ (happen_all has_expired nick events (receive is_busy first nick inbox)).pending_inbox
arrives_once has_expired nick first second is_busy later_busy c msg_id inbox events other named
      again few =
    let inbox' = happen_all has_expired nick events (receive is_busy first nick inbox) in
    receive-known has_expired nick later_busy second c msg_id inbox' again (
      IsRecent-holds (c ∷ msg_id) _ inbox'.seen_msg_ids (
        happen_all-IsRecent has_expired nick (c ∷ msg_id) 0 events _ (omega (arith, few))
          (receive-newest has_expired nick is_busy first c msg_id inbox other named)))
