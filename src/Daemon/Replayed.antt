-- ===== src/Daemon/Replayed.antt =====
-- A message of src/server.rs that is delivered and then replayed, at the inbox of
-- clients/python/aircd/daemon.py.
use aircd.Base.{◌≡◌, ap, ◌∙◌, ◌<◌, Bool, false, List, [], ◌∷◌, Str, codes, ◌==◌}
use aircd.Database.{StoredMessage}
use aircd.Server.Chat.{message_line}
use aircd.Client.{Message}
use aircd.Daemon.{Held, Inbox, max_dedup_entries, or_empty, search_tag, receive, message_to_dict}
use aircd.Daemon.Redelivery.{Event, happen_all}
use aircd.Daemon.Dedup.{arrivals}
use aircd.Daemon.Once.{arrives_once}
use aircd.Daemon.MsgIds.{IsMsgId, search_tag-message_line}

msg_id-message_line :
    (msg : Message) (replay : Bool) (sender channel body : Str) (m : StoredMessage)
    → msg.raw ≡ message_line replay sender channel body m
    → IsMsgId m.msg_id
    → (message_to_dict msg).msg_id ≡ m.msg_id
unfolding message_to_dict
msg_id-message_line msg replay sender channel body m line h =
    ap (λ raw. or_empty (search_tag (codes "msg-id=") raw)) line
    ∙ ap or_empty (search_tag-message_line replay sender channel body m h)

-- A stored message comes to the inbox of an agent once: where another agent's message has arrived from
-- its line, the line of the same stored message that arrives later, be it a replay or not and under
-- whichever name of the sender, changes nothing of what is pending, whatever Claude and the reaper have
-- done in between, if fewer than MAX_DEDUP_ENTRIES other messages have arrived in between. The id of the
-- message is made of visible characters that a tag does not escape.
pub replay_is_refused :
    {Time : Type 0} (has_expired : Time → Time → Bool) (nick : Str) (first second : Held)
    (is_busy later_busy replay later_replay : Bool) (sender later_sender channel body : Str)
    (m : StoredMessage) (inbox : Inbox Time) (events : List (Event Time))
    → first.message.raw ≡ message_line replay sender channel body m
    → second.message.raw ≡ message_line later_replay later_sender channel body m
    → (first.message.sender == nick) ≡ false
    → IsMsgId m.msg_id
    → arrivals events < max_dedup_entries
    → (receive later_busy second nick
        (happen_all has_expired nick events (receive is_busy first nick inbox))).pending_inbox
      ≡ (happen_all has_expired nick events (receive is_busy first nick inbox)).pending_inbox
replay_is_refused has_expired nick first second is_busy later_busy replay later_replay sender
      later_sender channel body m inbox events line again other h few =
    go m.msg_id h (msg_id-message_line first.message replay sender channel body m line h)
      (msg_id-message_line second.message later_replay later_sender channel body m again h)
  where
    go :
        (id : Str)
        → IsMsgId id
        → (message_to_dict first.message).msg_id ≡ id
        → (message_to_dict second.message).msg_id ≡ id
        → (receive later_busy second nick
            (happen_all has_expired nick events (receive is_busy first nick inbox))).pending_inbox
          ≡ (happen_all has_expired nick events (receive is_busy first nick inbox)).pending_inbox
    go [] void e f = absurd void
    go (c ∷ id) ok e f =
        arrives_once has_expired nick first second is_busy later_busy c id inbox events other e f
          few
