-- ===== src/Tests/DaemonExamples.antt =====
-- The daemon's inbox on messages of #work, as clients/python/tests/test_delivery.py and test_daemon.py
-- use it. Time is in seconds.
use mathlib.Core.List.{Memᴰ}
use aircd.Base.{
  ◌≡◌, ◌⊎◌, inl, inr, refl, true, false, some, none, List, [], ◌∷◌, ◌++◌, Str, codes, ℕ, ◌-◌, Bool,
  ltb, ne_of_test, ◌==◌, arith, pos, map, All, ◌<◌,
}
use aircd.Base
use aircd.Strings
use aircd.Maps
use aircd.Client
use aircd.Client.{Message}
use aircd.Daemon
use aircd.Daemon.{
  Held, Inbox, MessageDict, max_pending, max_dedup_entries, delivery_id, check_messages,
  ack_messages, receive, message_to_dict,
}
use aircd.Daemon.Holding.{is_held}
use aircd.Daemon.Redelivery.{Event, checks, acks, reaps, arrives, idles, happen_all, SparesAll}
use aircd.Daemon.Answers.{IsOther, IsThisOrOther, told_of, HasWaited, at_least_once}
use aircd.Daemon.Contents.{HoldsOnly, Brings}
use aircd.Daemon.Dedup.{arrivals}
use aircd.Daemon.MsgIds.{IsMsgId}
use aircd.Daemon.Replayed.{replay_is_refused}
use aircd.Database.{StoredMessage}
use aircd.Client.Reading.{received}
use aircd.Daemon.Once.{arrives_once}

unfoldable serving : Unit {0}
unfolding Base.codes Base.Str-discrete Base.same Base.select Strings.strip_prefix
    Strings.is_whitespace Maps.lookup Maps.insert Maps.remove Maps.remove_member Client.is_space
    Daemon.value_run Daemon.search_tag Daemon.message_to_dict Daemon.delivery_id Daemon.requeue
    Daemon.requeue_expired_in_flight Daemon.deliver Daemon.check_messages Daemon.ack_one
    Daemon.ack_each Daemon.ack_messages Daemon.evict Daemon.move_to_end Daemon.append_pending
    Daemon.put_back Daemon.deliver_pending_idle Daemon.receive
serving = tt

abbrev too_long : ℕ → ℕ → Bool
too_long now delivered_at = ltb 30 (now - delivered_at)

abbrev text_of : Str → Str → Held
text_of object raw = record {
  object = object;
  message = record {
    seq = some (pos 1);
    channel = codes "#work";
    sender = codes "agent-b";
    content = codes "hi";
    raw = raw;
    tags = [];
    is_replay = false;
  };
}

abbrev hi : Held
hi = text_of (codes "7") (codes "@seq=1;msg-id=msg_a;time=3 :agent-b PRIVMSG #work :hi")

abbrev hi_again : Held
hi_again =
    text_of (codes "9") (codes "@seq=1;msg-id=msg_a;time=3;replay=1 :agent-b PRIVMSG #work :hi")

abbrev no_id : Held
no_id = text_of (codes "8") (codes ":agent-b PRIVMSG #work :hi")

abbrev pub empty_inbox : Inbox ℕ
empty_inbox = record { pending_inbox = []; in_flight = []; seen_msg_ids = [] }

abbrev with_hi : Inbox ℕ
with_hi = record empty_inbox { pending_inbox = hi ∷ [] }

check_moves_to_in_flight :
    (check_messages too_long 100 with_hi).1.in_flight ≡ (codes "msg_a", (hi, 100)) ∷ []
unfolding serving
check_moves_to_in_flight = refl

no_id_gets_delivery_id : delivery_id no_id ≡ codes "noid_8"
unfolding serving
no_id_gets_delivery_id = refl

ack_prevents_redelivery :
    (check_messages too_long 200
      (ack_messages (codes "msg_a" ∷ []) (check_messages too_long 100 with_hi).1).1).0
    ≡ []
unfolding serving
ack_prevents_redelivery = refl

abbrev a_while : List (Event ℕ)
a_while =
    checks 100 ∷ arrives true no_id ∷ idles false ∷ acks (codes "noid_8" ∷ []) ∷ reaps 115 ∷ []

abbrev another : Held
another = text_of (codes "10") (codes ":agent-c PRIVMSG #work :hello")

abbrev with_both : Inbox ℕ
with_both = record empty_inbox { pending_inbox = hi ∷ no_id ∷ [] }

-- another message without an id arrives while this one is in flight
abbrev busy_while : List (Event ℕ)
busy_while =
    checks 100 ∷ arrives true another ∷ idles false ∷ acks (codes "msg_a" ∷ []) ∷ reaps 115 ∷ []

held_first : is_held (delivery_id no_id) with_both ≡ true
unfolding serving
held_first = refl

no_msg_id : (message_to_dict no_id.message).msg_id ≡ []
unfolding serving
no_msg_id = refl

another_object : IsOther no_id another
unfolding serving
another_object = inr (refl, refl, ne_of_test no_id.object another.object refl)

hi-IsOther : IsOther no_id hi
unfolding serving Strings.starts_with
hi-IsOther = inl (λ e. cc, refl, refl)

both_known : HoldsOnly (IsThisOrOther no_id) with_both
both_known = ((inr hi-IsOther, (inl refl, tt)), tt)

brought : All (Brings (IsThisOrOther no_id)) busy_while
brought = (tt, (inr another_object, (tt, (tt, (tt, tt)))))

spared : SparesAll too_long (codes "agent-a") (delivery_id no_id) busy_while with_both
unfolding serving
spared = (tt, (inr (omega arith), (inl refl, (refl, (tt, tt)))))

waited :
    HasWaited too_long
      (delivery_id no_id)
      131
      (happen_all too_long (codes "agent-a") busy_while with_both)
unfolding serving
waited = (inr refl, tt)

at_least_once_example :
    Memᴰ
      (told_of no_id)
      (check_messages too_long 131 (happen_all too_long (codes "agent-a") busy_while with_both)).0
at_least_once_example =
    at_least_once too_long (codes "agent-a") no_id with_both busy_while 131 (tt) held_first
      both_known brought spared waited

from_other : (hi.message.sender == codes "agent-a") ≡ false
unfolding serving
from_other = refl

named : (message_to_dict hi.message).msg_id ≡ b'm' ∷ codes "sg_a"
unfolding serving
named = refl

named_again : (message_to_dict hi_again.message).msg_id ≡ b'm' ∷ codes "sg_a"
unfolding serving
named_again = refl

few : arrivals a_while < max_dedup_entries
few = omega arith

arrives_once_example :
    (receive false hi_again (codes "agent-a") (
      happen_all too_long
        (codes "agent-a")
        a_while
        (receive true hi (codes "agent-a") empty_inbox))).pending_inbox
    ≡ (happen_all too_long
        (codes "agent-a")
        a_while
        (receive true hi (codes "agent-a") empty_inbox)).pending_inbox
arrives_once_example =
    arrives_once too_long (codes "agent-a") hi hi_again true false b'm' (codes "sg_a") empty_inbox
      a_while from_other named named_again few

-- the stored message of agent-b, delivered and then replayed
abbrev stored : StoredMessage
stored = record {
  seq = pos 4;
  msg_id = codes "msg_0";
  channel = codes "#work";
  sender_id = codes "agent-b";
  body = codes "hi";
  created_at = pos 1000;
}

abbrev live : Held
live = record {
  object = codes "7";
  message = received false (codes "agent-b") (codes "#work") (codes "hi") stored;
}

abbrev replayed : Held
replayed = record {
  object = codes "9";
  message = received true (codes "agent-b") (codes "#work") (codes "hi") stored;
}

stored_IsMsgId : IsMsgId stored.msg_id
unfolding serving
stored_IsMsgId = (
  (refl, omega arith, omega arith),
  (
    (refl, omega arith, omega arith),
    (
      (refl, omega arith, omega arith),
      ((refl, omega arith, omega arith), ((refl, omega arith, omega arith), tt)),
    ),
  ),
)

replay_is_refused_example :
    (receive false replayed (codes "agent-a") (
      happen_all too_long
        (codes "agent-a")
        a_while
        (receive true live (codes "agent-a") empty_inbox))).pending_inbox
    ≡ (happen_all too_long
        (codes "agent-a")
        a_while
        (receive true live (codes "agent-a") empty_inbox)).pending_inbox
replay_is_refused_example =
    replay_is_refused too_long (codes "agent-a") live replayed true false false true
      (codes "agent-b") (codes "agent-b") (codes "#work") (codes "hi") stored empty_inbox a_while
      refl refl from_other stored_IsMsgId few
