-- ===== src/Server/Invariants/Tasking.antt =====
-- The task commands keep what the operations on the database keep.
use aircd.Base.{List, [], ◌∷◌, Str, ℤ, Result, ok, err}
use aircd.Tasks
use aircd.Tasks.{Task}
use aircd.World.{Session, Env, attempt}
use aircd.World.Keeps.{Keeps, Core, keeps_rules, Keeps-say, Keeps-bind, Keeps-on_db, Keeps-attempt}
use aircd.Server.TaskCommands
use aircd.Server.Invariants.{IsKept}
use aircd.Server.Invariants.Broadcasts.{broadcast_message-Keeps}
use aircd.Server.Invariants.Chatting.{append_message-Keeps}

module _ {P : Core → Type 0} (kept : IsKept P) where
  pub event-Keeps :
      (env : Env) (task : Task) (action status actor body : Str)
      → Keeps P (TaskCommands.broadcast_task_event env task action status actor body)
  unfolding TaskCommands.broadcast_task_event
  event-Keeps env task action status actor body =
      search (keeps_rules, append_message-Keeps kept, broadcast_message-Keeps kept)

  pub created_task-Keeps :
      (env : Env) (channel title : Str) → Keeps P (TaskCommands.created_task env channel title)
  unfolding TaskCommands.created_task
  created_task-Keeps env channel title = Keeps-bind _ _ (search keeps_rules) (λ now.
      Keeps-bind _ _ (search keeps_rules)
        (λ uuid. Keeps-on_db _ (kept.create channel title uuid now)))

  pub create_titled-Keeps :
      (env : Env) (session : Session) (nick channel title : Str)
      → Keeps P (TaskCommands.create_titled env session nick channel title)
  unfolding TaskCommands.create_titled
  create_titled-Keeps env session nick channel [] = search keeps_rules
  create_titled-Keeps env session nick channel (c ∷ title) =
      search (keeps_rules, created_task-Keeps, event-Keeps)

  pub task_create-Keeps :
      (env : Env) (session : Session) (channel title : Str)
      → Keeps P (TaskCommands.task_create env session channel title)
  unfolding TaskCommands.task_create
  task_create-Keeps env session channel title = search (keeps_rules, create_titled-Keeps)

  pub report-Keeps :
      (env : Env) (session : Session) (nick action command verb task_id : Str) (r : Result Task)
      → Keeps P (TaskCommands.report env session nick action command verb task_id r)
  unfolding TaskCommands.report
  report-Keeps env session nick action command verb task_id (ok task) = event-Keeps env task _ _ _ _
  report-Keeps env session nick action command verb task_id (err e) = search keeps_rules

  pub attempt_claim-Keeps :
      (lease : ℤ) (j id : Str) (now : ℤ) → Keeps P (attempt (Tasks.claim lease j id now))
  attempt_claim-Keeps lease j id now = Keeps-attempt _ (kept.claim lease j id now)

  pub attempt_done-Keeps : (j id : Str) (now : ℤ) → Keeps P (attempt (Tasks.done j id now))
  attempt_done-Keeps j id now = Keeps-attempt _ (kept.done j id now)

  pub attempt_release-Keeps : (j id : Str) (now : ℤ) → Keeps P (attempt (Tasks.release j id now))
  attempt_release-Keeps j id now = Keeps-attempt _ (kept.release j id now)

  pub task_claim-Keeps :
      (env : Env) (session : Session) (j : Str) → Keeps P (TaskCommands.task_claim env session j)
  unfolding TaskCommands.task_claim
  task_claim-Keeps env session j = search (keeps_rules, attempt_claim-Keeps, report-Keeps)

  pub task_done-Keeps :
      (env : Env) (session : Session) (j : Str) → Keeps P (TaskCommands.task_done env session j)
  unfolding TaskCommands.task_done
  task_done-Keeps env session j = search (keeps_rules, attempt_done-Keeps, report-Keeps)

  pub task_release-Keeps :
      (env : Env) (session : Session) (j : Str) → Keeps P (TaskCommands.task_release env session j)
  unfolding TaskCommands.task_release
  task_release-Keeps env session j = search (keeps_rules, attempt_release-Keeps, report-Keeps)

  pub say_tasks-Keeps :
      (session : Session) (nick : Str) (tasks : List Task)
      → Keeps P (TaskCommands.say_tasks session nick tasks)
  unfolding TaskCommands.say_tasks
  say_tasks-Keeps session nick [] = search keeps_rules
  say_tasks-Keeps session nick (task ∷ tasks) =
      Keeps-bind _ _ (Keeps-say session _) (λ _. say_tasks-Keeps session nick tasks)

  pub list_or_notice-Keeps :
      (session : Session) (nick channel : Str) (tasks : List Task)
      → Keeps P (TaskCommands.list_or_notice session nick channel tasks)
  unfolding TaskCommands.list_or_notice
  list_or_notice-Keeps session nick channel [] = search keeps_rules
  list_or_notice-Keeps session nick channel (task ∷ tasks) =
      say_tasks-Keeps session nick (task ∷ tasks)

  pub task_list-Keeps :
      (session : Session) (channel : Str) → Keeps P (TaskCommands.task_list session channel)
  unfolding TaskCommands.task_list
  task_list-Keeps session channel = search (keeps_rules, list_or_notice-Keeps)
