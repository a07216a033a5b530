-- ===== src/Daemon.antt =====
-- clients/python/aircd/daemon.py: the inbox between the IRC client and Claude. A message stands with its
-- object's `id`, as text. Of the clock it is a parameter whether `now - delivered_at` exceeds
-- MESSAGE_VISIBILITY_TIMEOUT; `OrderedDict` is the list of its keys, oldest first.
pub mod Holding
pub mod Redelivery
pub mod Contents
pub mod Answers
pub mod Dedup
pub mod Once
pub mod TaskActions
pub mod Routing
pub mod TaskAnswers
pub mod Winner
pub mod MsgIds
pub mod Replayed
pub mod Loser
use aircd.Base.{
  ℕ, suc, Bool, true, false, not, ◌||◌, Option, none, some, List, [], ◌∷◌, ◌++◌, map, Str, codes,
  ◌==◌, eqb, ltb, if◌then◌else◌, length, select, ℤ,
}
use aircd.Strings.{strip_prefix, is_some}
use aircd.Maps.{lookup, insert, remove, remove_member, holds}
use aircd.Client.{is_space, Message}

abbrev pub max_pending : ℕ
max_pending = 200

abbrev pub max_dedup_entries : ℕ
max_dedup_entries = 10000

-- the longest run of `[^\s;]` in front
unfoldable pub value_run : Str → Str
value_run [] = []
value_run (c ∷ s) = let rest = value_run s in if is_space c || eqb c b';' then [] else c ∷ rest

abbrev pub run_or : Str → Option Str → Option Str
run_or [] later = later
run_or (c ∷ s) later = some (c ∷ s)

abbrev pub run_behind : Option Str → Option Str → Option Str
run_behind none later = later
run_behind (some rest) later = run_or (value_run rest) later

-- group 1 of `re.search(key + r"([^\s;]+)", raw)`
unfoldable pub search_tag : Str → Str → Option Str
unfolding value_run
search_tag key [] = none
search_tag key (c ∷ raw) = run_behind (strip_prefix key (c ∷ raw)) (search_tag key raw)

abbrev pub or_empty : Option Str → Str
or_empty none = []
or_empty (some s) = s

-- `message_to_dict`
pub record MessageDict : Type 0 where
  pub channel : Str
  pub sender : Str
  pub content : Str
  pub msg_id : Str
  pub time : Str
  pub seq : Option ℤ
  pub is_replay : Bool

unfoldable pub message_to_dict : Message → MessageDict
unfolding search_tag
message_to_dict m = record {
  channel = m.channel;
  sender = m.sender;
  content = m.content;
  msg_id = or_empty (search_tag (codes "msg-id=") m.raw);
  time = or_empty (search_tag (codes "time=") m.raw);
  seq = m.seq;
  is_replay = m.is_replay;
}

pub record Held : Type 0 where
  pub object : Str
  pub message : Message

-- `msg_dict.get("msg_id") or f"noid_{id(msg)}"`
abbrev pub id_or_object : Str → Str → Str
id_or_object object [] = codes "noid_" ++ object
id_or_object object (c ∷ msg_id) = c ∷ msg_id

unfoldable pub delivery_id : Held → Str
unfolding message_to_dict
delivery_id held = id_or_object held.object (message_to_dict held.message).msg_id

-- `pending_inbox`, `in_flight` and `seen_msg_ids` of `AgentState`
pub record Inbox (Time : Type 0) : Type 0 where
  pub pending_inbox : List Held
  pub in_flight : List (Str × (Held × Time))
  pub seen_msg_ids : List Str

module _ {Time : Type 0} where
  -- the loop over `expired`
  unfoldable pub requeue : List (Str × (Held × Time)) → Inbox Time → Inbox Time
  requeue [] inbox = inbox
  requeue ((mid, (held, delivered_at)) ∷ expired) inbox = requeue expired (record inbox {
    pending_inbox = held ∷ inbox.pending_inbox;
    in_flight = remove mid inbox.in_flight;
  })

module _ {Time : Type 0} (has_expired : Time → Time → Bool) where
  -- the messages of `expired`
  abbrev pub is_expired : Time → Str × (Held × Time) → Bool
  is_expired now (mid, (held, delivered_at)) = has_expired now delivered_at

  unfoldable pub requeue_expired_in_flight : Time → Inbox Time → ℕ × Inbox Time
  unfolding requeue select
  requeue_expired_in_flight now inbox =
      let expired = select (is_expired now) inbox.in_flight in
      (length expired, requeue expired inbox)

-- what `/messages` answers of a message: its dictionary, with `delivery_id`
abbrev pub answer_of : Held → Str × MessageDict
answer_of held = (delivery_id held, message_to_dict held.message)

module _ {Time : Type 0} where
  -- the loop that delivers the pending messages; it returns `in_flight`
  unfoldable pub deliver :
      Time → List Held → List (Str × (Held × Time)) → List (Str × (Held × Time))
  unfolding delivery_id
  deliver now [] in_flight = in_flight
  deliver now (held ∷ pending) in_flight =
      deliver now pending (insert (delivery_id held) (held, now) in_flight)

  -- `del in_flight[mid]`, and `acked += 1`
  unfoldable pub ack_one : Str → ℕ × Inbox Time → ℕ × Inbox Time
  ack_one mid (acked, inbox) =
      if is_some (lookup mid inbox.in_flight)
      then (suc acked, record inbox { in_flight = remove mid inbox.in_flight })
      else (acked, inbox)

  unfoldable pub ack_each : List Str → ℕ × Inbox Time → ℕ × Inbox Time
  unfolding ack_one
  ack_each [] state = state
  ack_each (mid ∷ msg_ids) state = ack_each msg_ids (ack_one mid state)

  -- `_handle_ack_messages`; `none` is the answer 400
  unfoldable pub ack_messages : List Str → Inbox Time → Option ℕ × Inbox Time
  unfolding ack_each
  ack_messages [] inbox = (none, inbox)
  ack_messages (mid ∷ msg_ids) inbox =
      let (acked, inbox') = ack_each (mid ∷ msg_ids) (0, inbox) in (some acked, inbox')

-- `_handle_check_messages`
unfoldable pub check_messages :
    {Time : Type 0}
    → (Time → Time → Bool)
    → Time
    → Inbox Time
    → List (Str × MessageDict) × Inbox Time
unfolding requeue_expired_in_flight deliver
check_messages has_expired now inbox =
    let (requeued, ready) = requeue_expired_in_flight has_expired now inbox in
    (
      map answer_of ready.pending_inbox,
      record ready {
        pending_inbox = [];
        in_flight = deliver now ready.pending_inbox ready.in_flight;
      },
    )

-- `for m in reversed(messages): pending_inbox.appendleft(m)`
unfoldable pub put_back : List Held → List Held → List Held
put_back [] pending = pending
put_back (m ∷ messages) pending = m ∷ put_back messages pending

-- `_deliver_pending_idle` for an idle Claude, the write in one step with what follows it: the messages
-- that its standard input gets, and the inbox; `is_written` is whether the write succeeds.
unfoldable pub deliver_pending_idle : {Time : Type 0} → Bool → Inbox Time → List Held × Inbox Time
unfolding put_back
deliver_pending_idle is_written inbox =
    let drained = record inbox { pending_inbox = [] } in
    if is_written
    then (inbox.pending_inbox, drained)
    else ([], record drained { pending_inbox = put_back inbox.pending_inbox drained.pending_inbox })

-- `while len(seen_msg_ids) > MAX_DEDUP_ENTRIES: seen_msg_ids.popitem(last=False)`
unfoldable pub evict : List Str → List Str
evict [] = []
evict (oldest ∷ seen) =
    let rest = evict seen in
    if ltb max_dedup_entries (length (oldest ∷ seen)) then rest else oldest ∷ seen

-- `seen_msg_ids.move_to_end(msg_id)` for one that is there
unfoldable pub move_to_end : Str → List Str → List Str
unfolding remove_member
move_to_end msg_id seen = remove_member msg_id seen ++ msg_id ∷ []

abbrev pub popleft : List Held → List Held
popleft [] = []
popleft (oldest ∷ pending) = pending

-- `pending_inbox.append`, bounded while Claude is busy
unfoldable pub append_pending : Bool → Held → List Held → List Held
append_pending is_busy held pending =
    let appended = pending ++ held ∷ [] in
    if is_busy
    then (if ltb max_pending (length appended) then popleft appended else appended)
    else appended

module _ {Time : Type 0} (is_busy : Bool) (held : Held) where
  abbrev pub put_pending : Inbox Time → Inbox Time
  put_pending inbox = record inbox {
    pending_inbox = append_pending is_busy held inbox.pending_inbox;
  }

  -- the dedup by msg-id, and the delivery to the inbox behind it
  abbrev pub receive_new : Str → Inbox Time → Inbox Time
  receive_new [] inbox = put_pending inbox
  receive_new (c ∷ msg_id) inbox =
      if holds (c ∷ msg_id) inbox.seen_msg_ids
      then record inbox { seen_msg_ids = move_to_end (c ∷ msg_id) inbox.seen_msg_ids }
      else put_pending
          (record inbox { seen_msg_ids = evict (inbox.seen_msg_ids ++ (c ∷ msg_id) ∷ []) })

  -- `_irc_reader_loop` behind the handlers of synchronous requests
  unfoldable pub receive : Str → Inbox Time → Inbox Time
  unfolding message_to_dict append_pending evict move_to_end
  receive nick inbox =
      if held.message.sender == nick
      then inbox
      else receive_new (message_to_dict held.message).msg_id inbox
