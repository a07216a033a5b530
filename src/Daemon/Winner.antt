-- ===== src/Daemon/Winner.antt =====
-- From TASK CLAIM of src/server.rs to the answer that the daemons of clients/python/aircd/daemon.py give
-- the agents that wait for it.
use aircd.Base.{
  ◌≡◌, ◌≢◌, refl, ap, ◌∙◌, Bool, true, false, ◌||◌, Bool-cases, inl, inr, Option, none, some, List,
  [], ◌∷◌, ◌++◌, Str, codes, ◌==◌, Str-discrete, is_empty, if◌then◌else◌, ok,
}
use aircd.Maps.{lookup, insert}
use aircd.Strings.{split_once, strip_prefix, is_some}
use aircd.Auth.{Principal}
use aircd.Database.{StoredMessage}
use aircd.Tasks.{Task}
use aircd.World.{World, Session, Env, server_name}
use aircd.Server.Chat.{append_message}
use aircd.Server.Delivery.{recipients_with_ids}
use aircd.Server.Fanout.{delivered}
use aircd.Server.TaskCommands.{event_tags, event_body, task_claim}
use aircd.Server.Racing.{tried, behind_try}
use aircd.Client.{
  is_text, extract_nick, Python, Client, Message, message_of, queue_message, on_line,
}
use aircd.Client.Lines.{IsName}
use aircd.Client.Reading.{tagged_line}
use aircd.Daemon.{Held, Inbox, receive}
use aircd.Daemon.TaskActions.{Patterns, Answer, success, Requests, key_of, on_task_notice}
use aircd.Daemon.Routing.{
  ListedTask, Waiting, on_replay, on_listing, with_actions, answer_requests, or_receive, on_message,
}
use aircd.Daemon.TaskAnswers.{
  claim_event, claim_event_is_read, granted_is_broadcast, claim_event_answers,
}

event_is_live :
    (m : StoredMessage) (task : Task) (action status actor : Str)
    → (is_text (lookup (codes "replay") (event_tags m task action status actor)) (codes "1")
        || is_some (lookup (codes "batch") (event_tags m task action status actor)))
      ≡ false
unfolding event_tags lookup codes Str-discrete
event_is_live m task action status actor = elim (Bool-cases (is_empty task.title)) [
  | inl e ↦ rw e refl
  | inr e ↦ rw e refl
]

-- a message that no list waits for and that is no replay is for the claims and completions
pub to_task_notice :
    (patterns : Patterns) (task_match : Str → Option ListedTask) (nick : Str) (msg : Message)
    (waiting : Waiting)
    → msg.is_replay ≡ false
    → waiting.task_list_requests ≡ []
    → answer_requests patterns task_match nick msg waiting
      ≡ with_actions waiting (on_task_notice patterns nick waiting.task_action_requests msg)
unfolding answer_requests on_replay on_listing
to_task_notice patterns task_match nick msg waiting live no_list = rw (live, no_list) refl

module _ {Time : Type 0} (is_busy : Bool) (held : Held) (nick : Str) (waiting : Waiting)
    (inbox : Inbox Time) where
  if_answered :
      (b : Bool) (requests : Requests)
      → or_receive is_busy held nick waiting inbox
          (with_actions waiting (if b then some requests else none))
        ≡ (if b
            then (record waiting { task_action_requests = requests }, inbox)
            else (waiting, receive is_busy held nick inbox))
  if_answered true requests = refl
  if_answered false requests = refl

-- Of the agents that race for a task, the daemon of the winner alone says so: where the server grants a
-- TASK CLAIM, it delivers one line to the recipients of the task's channel, and any client reads it as a
-- message which a daemon that waits for a claim of this task takes as the answer "claimed" exactly if its
-- nick is the winner's; for any other daemon it is a message like others, and its claim waits on. No
-- list of tasks is waited for, the log accepts the event, the channel is one word, the task has an id, and
-- Python's `upper` reads the command as it is written.
pub winner_alone_is_answered :
    {Time : Type 0} (python : Python) (patterns : Patterns) (task_match : Str → Option ListedTask)
    (env : Env) (session : Session) (p : Principal) (task_id : Str) (w v : World) (task : Task)
    (m : StoredMessage) (client : Client) (object nick : Str) (is_busy : Bool) (waiting : Waiting)
    (inbox : Inbox Time) (answers : List Answer)
    → session.principal ≡ some p
    → (tried env session p task_id w).0 ≡ ok task
    → append_message env task.channel server_name
        (event_body (codes " claimed by ") p.nick task)
        (behind_try env session p task_id w)
      ≡ (ok m, v)
    → IsName task.channel
    → task.id ≢ []
    → python.upper (codes "NOTICE") ≡ codes "NOTICE"
    → waiting.task_list_requests ≡ []
    → lookup (key_of (codes "claim") task.id) waiting.task_action_requests ≡ some answers
    → (raw : Str) × (msg : Message) × (task_claim env session task_id w
        ≡ (ok tt, delivered task.channel raw m.seq (recipients_with_ids task.channel v.inner) v))
      × (on_line python raw client ≡ some (queue_message msg client))
      × (on_message patterns task_match is_busy nick
            (record { object = object; message = msg })
            waiting
            inbox
          ≡ (if p.nick == nick
              then (
                record waiting {
                  task_action_requests =
                      insert
                        (key_of (codes "claim") task.id)
                        (answers ++ success (codes "claimed") msg.content ∷ [])
                        waiting.task_action_requests;
                },
                inbox,
              )
              else (
                waiting,
                receive is_busy (record { object = object; message = msg }) nick inbox,
              )))
unfolding message_of extract_nick split_once strip_prefix codes on_message
winner_alone_is_answered python patterns task_match env session p task_id w v task m client object
      nick is_busy waiting inbox answers known granted stored word named upper no_list waits =
    let body = event_body (codes " claimed by ") p.nick task in
    let tags = event_tags m task (codes "claim") (codes "success") p.nick in
    let raw = claim_event m task p.nick in
    let msg : Message =
      message_of python raw (tagged_line tags (codes "aircd") (codes "NOTICE") task.channel body)
        task.channel body in
    let held : Held = record { object = object; message = msg } in
    (
      raw,
      msg,
      granted_is_broadcast env session p task_id w v task m known granted stored,
      claim_event_is_read python client m task p.nick word upper,
      ap (or_receive is_busy held nick waiting inbox) (
            to_task_notice patterns task_match nick msg waiting
              (event_is_live m task (codes "claim") (codes "success") p.nick) no_list
            ∙ ap (with_actions waiting) (
                claim_event_answers patterns nick waiting.task_action_requests answers m task p.nick
                  msg refl refl named waits))
          ∙ if_answered is_busy held nick waiting inbox (p.nick == nick) _,
    )
