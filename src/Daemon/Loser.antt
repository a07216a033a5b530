-- ===== src/Daemon/Loser.antt =====
-- The notice of a TASK CLAIM that src/server.rs refuses, at the client and at the daemon of
-- clients/python/aircd.
use aircd.Base.{
  ◌≡◌, ◌≢◌, refl, ap, ◌∙◌, Bool, false, Option, some, List, [], ◌∷◌, ◌++◌, append-nil, Str, codes,
  Str-discrete, ok, All, arith, ◌+◌, ◌≤ℤ◌, add_i64,
}
use aircd.Maps.{lookup, insert}
use aircd.Strings.{concat, split_once, strip_prefix}
use aircd.Auth.{Principal}
use aircd.Tags.{task_failure_tags}
use aircd.Tasks.{Task}
use aircd.Tasks.Outcomes.{claim_refusal}
use aircd.Tasks.Operations.{IsValid}
use aircd.World.{World, Session, Env}
use aircd.World.Returns.{told}
use aircd.Server.TaskCommands.{task_claim}
use aircd.Server.Racing.{tried, claim_failed, loser_is_told}
use aircd.Client.{extract_nick, Python, Client, Message, message_of, queue_message, on_line}
use aircd.Client.Lines.{IsName}
use aircd.Client.Tags.{IsTag, add_tags}
use aircd.Client.Reading.{tagged_line}
use aircd.Client.Notices.{notice_line, on_line-notice_line}
use aircd.Daemon.{Held, Inbox}
use aircd.Daemon.TaskActions.{
  Patterns, Answer, failure, Requests, key_of, respond, answer_by_tags, on_task_notice,
}
use aircd.Daemon.Routing.{ListedTask, Waiting, with_actions, or_receive, on_message}
use aircd.Daemon.TaskAnswers.{ne-is_empty, waits-is_empty}
use aircd.Daemon.Winner.{to_task_notice}

abbrev pub failed_tags : Str → Str → List (Str × Str)
failed_tags task_id actor =
    (codes "task-id", task_id)
    ∷ (codes "task-action", codes "claim")
    ∷ (codes "task-status", codes "failed")
    ∷ (codes "task-actor", actor)
    ∷ []

abbrev pub failed_text : Str → Str → Str
failed_text task_id error = concat (codes "TASK CLAIM " ∷ task_id ∷ codes " failed: " ∷ error ∷ [])

claim_failed-notice_line :
    (task_id nick error : Str)
    → claim_failed task_id nick error
      ≡ notice_line (failed_tags task_id nick) nick (failed_text task_id error)
unfolding task_failure_tags concat codes
claim_failed-notice_line task_id nick error = simp append-nil

failed_text-ne-nil : (task_id error : Str) → failed_text task_id error ≢ []
unfolding concat codes
failed_text-ne-nil task_id error e = cc

failed_tags-IsTag : (task_id actor : Str) → All IsTag (failed_tags task_id actor)
unfolding codes
failed_tags-IsTag task_id actor = omega arith

failed_tags-distinct :
    (task_id actor : Str) → add_tags (failed_tags task_id actor) [] ≡ failed_tags task_id actor
unfolding insert codes Str-discrete
failed_tags-distinct task_id actor = refl

-- the message of the notice
abbrev pub failed_message : Python → Str → Str → Str → Message
failed_message python task_id nick error =
    message_of python (notice_line (failed_tags task_id nick) nick (failed_text task_id error))
      (tagged_line (failed_tags task_id nick) (codes "aircd") (codes "NOTICE") nick
        (failed_text task_id error))
      nick (failed_text task_id error)

failure_answers :
    (python : Python) (patterns : Patterns) (task_id nick error daemon : Str) (requests : Requests)
    (answers : List Answer)
    → task_id ≢ []
    → lookup (key_of (codes "claim") task_id) requests ≡ some answers
    → on_task_notice patterns daemon requests (failed_message python task_id nick error)
      ≡ some (
          insert
            (key_of (codes "claim") task_id)
            (answers ++ failure (failed_text task_id error) ∷ [])
            requests)
unfolding on_task_notice answer_by_tags respond lookup codes Str-discrete message_of extract_nick
    split_once strip_prefix
failure_answers python patterns task_id nick error daemon requests answers named waits =
    rw
      (
        ne-is_empty task_id named,
        waits-is_empty (key_of (codes "claim") task_id) answers requests waits,
        waits,
      )
      refl

failure_is_live :
    (python : Python) (task_id nick error : Str)
    → (failed_message python task_id nick error).is_replay ≡ false
unfolding message_of lookup codes Str-discrete
failure_is_live python task_id nick error = refl

-- The daemon of an agent that loses a race for a task says so: where a session has claimed the task with
-- success, the next session that sends TASK CLAIM for it before the lease ends is sent one line, which
-- its client reads as a message that its daemon, which waits for the claim, takes as the answer "failed".
-- The task table is valid, no list of tasks is waited for, the loser's nick is one word, the task's id is
-- not empty, and Python's `upper` reads the command as it is written.
pub loser_is_answered :
    {Time : Type 0} (python : Python) (patterns : Patterns) (task_match : Str → Option ListedTask)
    (env : Env) (winner loser : Session) (p q : Principal) (task_id : Str) (w : World) {t : Task}
    (client : Client) (object daemon : Str) (is_busy : Bool) (waiting : Waiting)
    (inbox : Inbox Time) (answers : List Answer)
    → IsValid w.db
    → winner.principal ≡ some p
    → loser.principal ≡ some q
    → (tried env winner p task_id w).0 ≡ ok t
    → (w' : World) → w' ≡ (task_claim env winner task_id w).1
    → env.clock w'.readings ≤ℤ add_i64 (env.clock w.readings) env.lease_seconds
    → IsName q.nick
    → task_id ≢ []
    → python.upper (codes "NOTICE") ≡ codes "NOTICE"
    → waiting.task_list_requests ≡ []
    → lookup (key_of (codes "claim") task_id) waiting.task_action_requests ≡ some answers
    → (raw : Str) × (msg : Message) × (task_claim env loser task_id w'
        ≡ (ok tt, told loser raw (record w' { readings = w'.readings + 1 })))
      × (on_line python raw client ≡ some (queue_message msg client))
      × (on_message patterns task_match is_busy daemon
            (record { object = object; message = msg })
            waiting
            inbox
          ≡ (
            record waiting {
              task_action_requests =
                  insert
                    (key_of (codes "claim") task_id)
                    (answers ++ failure (failed_text task_id claim_refusal) ∷ [])
                    waiting.task_action_requests;
            },
            inbox,
          ))
unfolding on_message
loser_is_answered python patterns task_match env winner loser p q task_id w client object daemon
      is_busy waiting inbox answers valid is_p is_q granted w' e early word named upper no_list
      waits =
    let msg = failed_message python task_id q.nick claim_refusal in
    let held : Held = record { object = object; message = msg } in
    let notice = claim_failed-notice_line task_id q.nick claim_refusal in
    (
      notice_line (failed_tags task_id q.nick) q.nick (failed_text task_id claim_refusal),
      msg,
      loser_is_told env winner loser p q task_id w valid is_p is_q granted w' e early
          ∙ ap (λ raw. (ok tt, told loser raw (record w' { readings = w'.readings + 1 }))) notice,
      on_line-notice_line python client _ _ q.nick (failed_text task_id claim_refusal)
          (failed_tags-IsTag task_id q.nick) (failed_tags-distinct task_id q.nick) word upper
          (failed_text-ne-nil task_id claim_refusal),
      ap (or_receive is_busy held daemon waiting inbox) (
          to_task_notice patterns task_match daemon msg waiting
            (failure_is_live python task_id q.nick claim_refusal) no_list
          ∙ ap (with_actions waiting) (
              failure_answers python patterns task_id q.nick claim_refusal daemon
                waiting.task_action_requests answers named waits)),
    )
