-- ===== src/Daemon/TaskAnswers.antt =====
-- The event of a TASK CLAIM that src/server.rs grants, at the client and at the daemon of
-- clients/python/aircd.
use aircd.Base.{
  arith, ◌≡◌, ◌≢◌, refl, ap, ◌∙◌, false, none, some, List, [], ◌∷◌, ◌++◌, Str, codes, ◌==◌,
  Str-discrete, is_empty, if◌then◌else◌, ok,
}
use aircd.Maps.{lookup, insert}
use aircd.Strings.{concat}
use aircd.Auth.{Principal}
use aircd.Database.{StoredMessage}
use aircd.Tasks.{Task}
use aircd.World.{World, Session, Env, server_name}
use aircd.World.Returns.{bind_ok}
use aircd.Server.Chat.{append_message}
use aircd.Server.Delivery.{recipients_with_ids}
use aircd.Server.Fanout.{delivered, broadcast_message_lem}
use aircd.Server.TaskCommands.{event_tags, event_body, broadcast_task_event, report, task_claim}
use aircd.Server.Racing.{tried, behind_try, to_report}
use aircd.Client.{Python, Client, Message, message_of, queue_message, on_line}
use aircd.Client.Lines.{IsName}
use aircd.Client.Reading.{tagged_line}
use aircd.Client.Notices.{notice_line, on_line-notice_line, event_tags-IsTag, event_tags-distinct}
use aircd.Daemon.TaskActions.{
  Patterns, Answer, success, Requests, key_of, respond, answer_by_tags, on_task_notice,
}

pub ne-is_empty : (s : Str) → s ≢ [] → is_empty s ≡ false
ne-is_empty [] h = absurd (h refl)
ne-is_empty (c ∷ s) h = refl

pub waits-is_empty :
    (key : Str) (answers : List Answer) (requests : Requests)
    → lookup key requests ≡ some answers
    → is_empty requests ≡ false
unfolding lookup
waits-is_empty key answers [] waits = absurd (ground (arith, waits))
waits-is_empty key answers (r ∷ requests) waits = refl

-- A daemon that waits for a claim takes the event of the claim as its answer if the claim was its own.
pub claim_event_answers :
    (patterns : Patterns) (nick : Str) (requests : Requests) (answers : List Answer)
    (m : StoredMessage) (task : Task) (actor : Str) (msg : Message)
    → msg.tags ≡ event_tags m task (codes "claim") (codes "success") actor
    → msg.sender ≡ codes "aircd"
    → task.id ≢ []
    → lookup (key_of (codes "claim") task.id) requests ≡ some answers
    → on_task_notice patterns nick requests msg ≡ (
        if actor == nick
        then some (
            insert
              (key_of (codes "claim") task.id)
              (answers ++ success (codes "claimed") msg.content ∷ [])
              requests)
        else none)
unfolding on_task_notice answer_by_tags respond event_tags lookup codes Str-discrete
claim_event_answers patterns nick requests answers m task actor msg tags sender named waits =
    rw
      (
        tags,
        sender,
        ne-is_empty task.id named,
        waits-is_empty (key_of (codes "claim") task.id) answers requests waits,
        waits,
      )
      refl

-- the notice that a claim was granted
abbrev pub claim_event : StoredMessage → Task → Str → Str
claim_event m task actor =
    notice_line (event_tags m task (codes "claim") (codes "success") actor) task.channel
      (event_body (codes " claimed by ") actor task)

event_body-ne-nil : (verb actor : Str) (task : Task) → event_body verb actor task ≢ []
unfolding concat codes
event_body-ne-nil verb actor task e = cc

pub claim_event_is_read :
    (python : Python) (client : Client) (m : StoredMessage) (task : Task) (actor : Str)
    → IsName task.channel
    → python.upper (codes "NOTICE") ≡ codes "NOTICE"
    → on_line python (claim_event m task actor) client
      ≡ some (
          queue_message
            (message_of python
              (claim_event m task actor)
              (tagged_line
                (event_tags m task (codes "claim") (codes "success") actor)
                (codes "aircd")
                (codes "NOTICE")
                task.channel
                (event_body (codes " claimed by ") actor task))
              task.channel
              (event_body (codes " claimed by ") actor task))
            client)
unfolding event_tags
claim_event_is_read python client m task actor word upper =
    on_line-notice_line python client _ _ task.channel
      (event_body (codes " claimed by ") actor task)
      (event_tags-IsTag m task (codes "claim") (codes "success") actor)
      (event_tags-distinct m task (codes "claim") (codes "success") actor) word upper
      (event_body-ne-nil (codes " claimed by ") actor task)

pub granted_is_broadcast :
    (env : Env) (session : Session) (p : Principal) (task_id : Str) (w v : World) (task : Task)
    (m : StoredMessage)
    → session.principal ≡ some p
    → (tried env session p task_id w).0 ≡ ok task
    → append_message env task.channel server_name
        (event_body (codes " claimed by ") p.nick task)
        (behind_try env session p task_id w)
      ≡ (ok m, v)
    → task_claim env session task_id w ≡ (
      ok tt,
      delivered task.channel
          (claim_event m task p.nick)
          m.seq
          (recipients_with_ids task.channel v.inner)
          v,
    )
unfolding report broadcast_task_event
granted_is_broadcast env session p task_id w v task m known granted stored =
    to_report env session p task_id w known
    ∙ ap
        (λ r.
          report env session p.nick (codes "claim") (codes "TASK CLAIM ") (codes " claimed by ")
            task_id r (behind_try env session p task_id w))
        granted
    ∙ bind_ok
        (append_message env task.channel server_name
          (event_body (codes " claimed by ") p.nick task))
        _ (behind_try env session p task_id w) v m stored
    ∙ broadcast_message_lem task.channel (claim_event m task p.nick) m.seq v
