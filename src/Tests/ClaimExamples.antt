-- ===== src/Tests/ClaimExamples.antt =====
-- A claim of the free task of the board, from the server to the daemons of its two agents.
use aircd.Base.{
  ◌+◌, false, true, Option, false, ◌≡◌, ◌≢◌, refl, some, none, [], ◌∷◌, ◌++◌, Str, codes, pos, ok,
  arith, if◌then◌else◌, ◌==◌,
}
use aircd.Maps.{lookup, insert}
use aircd.Database.{StoredMessage}
use aircd.Tasks.{Task, from_row, set_claimed}
use aircd.World.{World, server_name}
use aircd.Server.Chat.{append_message}
use aircd.Server.Delivery.{recipients_with_ids}
use aircd.Server.Fanout.{delivered}
use aircd.Server.TaskCommands.{event_body, task_claim}
use aircd.Server.Racing.{behind_try}
use aircd.Client.{Message, is_space, queue_message, on_line}
use aircd.Client.Lines.{IsName}
use aircd.Daemon.TaskActions.{
  Patterns, success, failure, Requests, key_of, on_task_notice, answer_by_tags, respond,
  begin_task_action, end_task_action,
}
use aircd.Daemon.{receive}
use aircd.Daemon.Loser.{failed_text, loser_is_answered}
use aircd.Tasks.Outcomes.{claim_refusal}
use aircd.World.Returns.{told}
use aircd.Daemon.Routing.{ListedTask, Waiting, on_message, answer_requests, on_replay, on_listing}
use aircd.Daemon.Winner.{winner_alone_is_answered}
use aircd.Tests.DaemonExamples.{empty_inbox}
use aircd.Tests.Samples.{env}
use aircd.Tests.Running.{running}
use aircd.Tests.TaskExamples.{free}
use aircd.Tests.SystemExamples.{
  rival, rival_principal, won, in_time, start-IsValid, at_work, start, worker, t1_granted,
}
use aircd.Tests.AgentExamples.{ascii, fresh}

abbrev granted_task : Task
granted_task = from_row (set_claimed (codes "agent-a") (pos 1300) (pos 1000) free)

abbrev event_text : Str
event_text = event_body (codes " claimed by ") (codes "agent-a") granted_task

abbrev event : StoredMessage
event = record {
  seq = pos 4;
  msg_id = codes "msg_0";
  channel = granted_task.channel;
  sender_id = codes "aircd";
  body = event_text;
  created_at = pos 1001;
}

abbrev stored_world : World
stored_world =
    (append_message env granted_task.channel server_name event_text
      (behind_try env at_work worker (codes "t1") start)).1

event_stored :
    append_message env granted_task.channel server_name event_text
      (behind_try env at_work worker (codes "t1") start)
    ≡ (ok event, stored_world)
unfolding running
event_stored = refl

work_IsName : IsName granted_task.channel
unfolding running is_space
work_IsName = (omega arith, refl, (refl, (refl, (refl, (refl, tt)))))

named : granted_task.id ≢ []
unfolding running
named = ground arith

upper_notice : ascii.upper (codes "NOTICE") ≡ codes "NOTICE"
unfolding running
upper_notice = refl

-- no pattern finds anything
abbrev no_patterns : Patterns
no_patterns = record { fail_match = λ s. none; success_match = λ s. none }

abbrev waiting_for_t1 : Requests
waiting_for_t1 = (key_of (codes "claim") (codes "t1"), []) ∷ []

waits : lookup (key_of (codes "claim") granted_task.id) waiting_for_t1 ≡ some []
unfolding running
waits = refl

one_request_at_a_time : begin_task_action (codes "claim") (codes "t1") waiting_for_t1 ≡ none
unfolding running begin_task_action
one_request_at_a_time = refl

-- agent-b waits for its claim of the task, and Claude is busy
abbrev waiting : Waiting
waiting = record {
  history_requests = [];
  task_list_requests = [];
  task_action_requests = waiting_for_t1;
}

abbrev no_listing : Str → Option ListedTask
no_listing s = none

winner_alone_is_answered_example :
    (raw : Str) × (msg : Message) × (task_claim env at_work (codes "t1") start ≡ (
      ok tt,
      delivered granted_task.channel raw
          (pos 4)
          (recipients_with_ids granted_task.channel stored_world.inner)
          stored_world,
    ))
    × (on_line ascii raw fresh ≡ some (queue_message msg fresh))
    × (on_message no_patterns no_listing true
          (codes "agent-b")
          (record { object = codes "3"; message = msg })
          waiting
          empty_inbox
        ≡ (if codes "agent-a" == codes "agent-b"
            then (
              record waiting {
                task_action_requests =
                    insert
                      (key_of (codes "claim") granted_task.id)
                      ([] ++ success (codes "claimed") msg.content ∷ [])
                      waiting_for_t1;
              },
              empty_inbox,
            )
            else (
              waiting,
              receive true
                  (record { object = codes "3"; message = msg })
                  (codes "agent-b")
                  empty_inbox,
            )))
winner_alone_is_answered_example =
    winner_alone_is_answered ascii no_patterns no_listing env at_work worker (codes "t1") start
      stored_world granted_task event fresh (codes "3") (codes "agent-b") true waiting empty_inbox
      [] refl t1_granted event_stored work_IsName named upper_notice refl waits

-- the message of the event, at the daemon of the winner
abbrev event_message : Message
event_message = record {
  seq = some (pos 4);
  channel = codes "#work";
  sender = codes "aircd";
  content = codes "TASK t1 claimed by agent-a: fix";
  raw = [];
  tags =
      (codes "task-id", codes "t1")
      ∷ (codes "task-action", codes "claim")
      ∷ (codes "task-status", codes "success")
      ∷ (codes "task-actor", codes "agent-a")
      ∷ [];
  is_replay = false;
}

-- While a list of tasks is waited for, its handler takes the event, and the claim gets no answer.
listing_takes_event :
    (answer_requests no_patterns no_listing
      (codes "agent-a")
      event_message
      (record waiting { task_list_requests = (codes "#ops", []) ∷ [] }))
    ≡ some (record waiting { task_list_requests = (codes "#ops", []) ∷ [] })
unfolding running answer_requests on_replay on_listing
listing_takes_event = refl

claim_is_answered :
    (answer_requests no_patterns no_listing (codes "agent-a") event_message waiting)
    ≡ some (record waiting {
      task_action_requests =
          (
            key_of (codes "claim") (codes "t1"),
            success (codes "claimed") event_message.content ∷ [],
          )
          ∷ [];
    })
unfolding running answer_requests on_replay on_listing on_task_notice answer_by_tags respond
claim_is_answered = refl

waits_for_t1 : lookup (key_of (codes "claim") (codes "t1")) waiting_for_t1 ≡ some []
unfolding running
waits_for_t1 = refl

rival_IsName : IsName (codes "agent-b")
unfolding running is_space
rival_IsName = (omega arith, refl, (refl, (refl, (refl, (refl, (refl, (refl, tt)))))))

t1_ne_nil : codes "t1" ≢ []
unfolding running
t1_ne_nil = ground arith

loser_is_answered_example :
    (raw : Str) × (msg : Message) × (task_claim env rival (codes "t1") won
      ≡ (ok tt, told rival raw (record won { readings = won.readings + 1 })))
    × (on_line ascii raw fresh ≡ some (queue_message msg fresh))
    × (on_message no_patterns no_listing false
          (codes "agent-b")
          (record { object = codes "3"; message = msg })
          waiting
          empty_inbox
        ≡ (
          record waiting {
            task_action_requests =
                insert
                  (key_of (codes "claim") (codes "t1"))
                  ([] ++ failure (failed_text (codes "t1") claim_refusal) ∷ [])
                  waiting_for_t1;
          },
          empty_inbox,
        ))
loser_is_answered_example =
    loser_is_answered ascii no_patterns no_listing env at_work rival worker rival_principal
      (codes "t1") start fresh (codes "3") (codes "agent-b") false waiting empty_inbox []
      start-IsValid refl refl t1_granted won refl in_time rival_IsName t1_ne_nil upper_notice refl
      waits_for_t1

-- what `_request_task_action` returns then
answer_is_taken :
    end_task_action (codes "claim") (codes "t1") (
      (key_of (codes "claim") (codes "t1"), success (codes "claimed") event_message.content ∷ [])
      ∷ [])
    ≡ (some (success (codes "claimed") event_message.content), [])
unfolding running end_task_action
answer_is_taken = refl
