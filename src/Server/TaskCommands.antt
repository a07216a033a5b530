-- ===== src/Server/TaskCommands.antt =====
-- `task_create`, `task_claim`, `task_done`, `task_release`, `task_list` and `broadcast_task_event` of
-- src/server.rs.
use aircd.Base.{
  Option, none, some, List, [], ◌∷◌, Str, codes, ℤ, if◌then◌else◌, is_empty, Result, ok, err,
}
use aircd.Strings.{trim, concat}
use aircd.Strings.Numbers.{show_i64}
use aircd.Tags.{format_message_tags, task_failure_tags}
use aircd.Database.{StoredMessage}
use aircd.Tasks.{Task, status_text}
use aircd.Tasks
use aircd.World.{
  Session, Env, Exec, ◌>>=◌, ◌>>◌, pure, gets, on_db, attempt, unix_timestamp, new_v4, say,
  session_principal, server_name,
}
use aircd.Server.Delivery.{broadcast_message}
use aircd.Server.Chat.{append_message}

unfoldable pub event_tags : StoredMessage → Task → Str → Str → Str → List (Str × Str)
event_tags message task action status actor =
    (codes "seq", show_i64 message.seq)
    ∷ (codes "msg-id", message.msg_id)
    ∷ (codes "time", show_i64 message.created_at)
    ∷ (codes "task-id", task.id)
    ∷ (codes "task-action", action)
    ∷ (codes "task-status", status)
    ∷ (codes "task-actor", actor)
    ∷ (if is_empty task.title then [] else (codes "task-title", task.title) ∷ [])

unfoldable pub broadcast_task_event : Env → Task → Str → Str → Str → Str → Exec (Unit {0})
broadcast_task_event env task action status actor body = do
  message ← append_message env task.channel server_name body
  broadcast_message task.channel
      (concat (
        format_message_tags (event_tags message task action status actor)
        ∷ codes " :aircd NOTICE "
        ∷ task.channel
        ∷ codes " :"
        ∷ body
        ∷ []))
      message.seq

-- `format!("TASK {} {verb} by {}: {}", task.id, principal.nick, task.title)`
abbrev pub event_body : Str → Str → Task → Str
event_body verb nick task =
    concat (codes "TASK " ∷ task.id ∷ verb ∷ nick ∷ codes ": " ∷ task.title ∷ [])

unfoldable pub created_task : Env → Str → Str → Exec Task
created_task env channel title = do
  now ← unix_timestamp env
  uuid ← new_v4 env
  on_db (Tasks.create channel title uuid now)

-- the two ways behind the test of the trimmed title
unfoldable pub create_titled : Env → Session → Str → Str → Str → Exec (Unit {0})
create_titled env session nick channel [] =
    say session (
      concat (codes ":aircd NOTICE " ∷ nick ∷ codes " :TASK CREATE failed: title is required" ∷ []))
create_titled env session nick channel (c ∷ title) = do
  task ← created_task env channel (c ∷ title)
  broadcast_task_event env task (codes "create") (codes "success") nick
      (event_body (codes " created by ") nick task)

unfoldable pub task_create : Env → Session → Str → Str → Exec (Unit {0})
task_create env session channel title = do
  principal ← session_principal session
  create_titled env session principal.nick channel (trim title)

-- The `match` on the outcome of `claim`, `done` or `release`: `command` stands in the notice of a
-- failure, `verb` in the event's text.
unfoldable pub report : Env → Session → Str → Str → Str → Str → Str → Result Task → Exec (Unit {0})
report env session nick action command verb task_id (ok task) =
    broadcast_task_event env task action (codes "success") nick (event_body verb nick task)
report env session nick action command verb task_id (err error) = say session (
    concat (
      task_failure_tags action task_id nick
      ∷ codes " :aircd NOTICE "
      ∷ nick
      ∷ codes " :"
      ∷ command
      ∷ task_id
      ∷ codes " failed: "
      ∷ error
      ∷ []))

unfoldable pub task_claim : Env → Session → Str → Exec (Unit {0})
task_claim env session task_id = do
  principal ← session_principal session
  now ← unix_timestamp env
  outcome ← attempt (Tasks.claim env.lease_seconds task_id principal.id now)
  report env session principal.nick (codes "claim") (codes "TASK CLAIM ") (codes " claimed by ")
      task_id outcome

unfoldable pub task_done : Env → Session → Str → Exec (Unit {0})
task_done env session task_id = do
  principal ← session_principal session
  now ← unix_timestamp env
  outcome ← attempt (Tasks.done task_id principal.id now)
  report env session principal.nick (codes "done") (codes "TASK DONE ") (codes " completed by ")
      task_id outcome

unfoldable pub task_release : Env → Session → Str → Exec (Unit {0})
task_release env session task_id = do
  principal ← session_principal session
  now ← unix_timestamp env
  outcome ← attempt (Tasks.release task_id principal.id now)
  report env session principal.nick (codes "release") (codes "TASK RELEASE ")
      (codes " released by ") task_id outcome

abbrev pub text_or_dash : Option Str → Str
text_or_dash none = codes "-"
text_or_dash (some text) = text

abbrev pub time_or_dash : Option ℤ → Str
time_or_dash none = codes "-"
time_or_dash (some t) = show_i64 t

abbrev pub task_line : Str → Task → Str
task_line nick task = concat (
    codes ":aircd NOTICE "
    ∷ nick
    ∷ codes " :TASK "
    ∷ task.id
    ∷ codes " channel="
    ∷ task.channel
    ∷ codes " status="
    ∷ status_text task.status
    ∷ codes " claimed_by="
    ∷ text_or_dash task.claimed_by
    ∷ codes " lease_expires_at="
    ∷ time_or_dash task.lease_expires_at
    ∷ codes " title=:"
    ∷ task.title
    ∷ [])

unfoldable pub say_tasks : Session → Str → List Task → Exec (Unit {0})
say_tasks session nick [] = pure tt
say_tasks session nick (task ∷ tasks) = do
  say session (task_line nick task)
  say_tasks session nick tasks

unfoldable pub list_or_notice : Session → Str → Str → List Task → Exec (Unit {0})
list_or_notice session nick channel [] =
    say session
      (concat (codes ":aircd NOTICE " ∷ nick ∷ codes " :No open tasks in " ∷ channel ∷ []))
list_or_notice session nick channel (task ∷ tasks) = say_tasks session nick (task ∷ tasks)

unfoldable pub task_list : Session → Str → Exec (Unit {0})
task_list session channel = do
  principal ← session_principal session
  tasks ← gets (λ w. Tasks.list channel w.db)
  list_or_notice session principal.nick channel tasks
