-- ===== src/Tests/SystemExamples.antt =====
-- The guarantees of the running server at a run in which an agent posts a message and claims a task.
use aircd.Base.{
  pos, length, ◌≡◌, refl, some, [], ◌∷◌, ◌++◌, codes, List, true, false, none, ok, ◌≤ℤ◌, add_i64,
  ◌+◌, arith,
}
use aircd.Database.{StoredMessage, MembershipRow}
use aircd.History.Log.{IsLog}
use aircd.Tasks.Rows.{find_task}
use aircd.Tasks.Operations.{IsValid}
use aircd.World.{World, Session}
use aircd.World.Returns.{told}
use aircd.World.Keeps.{core}
use aircd.Maps.{lookup}
use mathlib.Core.Option.{none-ne-some}
use aircd.Server.Members.{has_membership}
use aircd.Server.Agreement.{Agree, Reach-Agree}
use aircd.Auth.{Principal}
use aircd.Tasks.{from_row, set_claimed}
use aircd.Tasks.Outcomes.{claim_refusal}
use aircd.Server.TaskCommands.{task_claim}
use aircd.Server.Racing.{tried, claim_failed, loser_is_told}
use aircd.Server.Connection.{Input, on_input, line, end_of_input, handle_stream}
use aircd.Server.System.{round, Reach, here, next}
use aircd.Server.Guarantees.{Reach-IsLog, history_is_append_only, Reach-IsValid, finished_stays}
use aircd.Tests.Samples.{env, started}
use aircd.Tests.Running.{running}
use aircd.Tests.LogExamples.{three_messages, three_messages-IsLog}
use aircd.Tests.TaskExamples.{free, board, board-IsValid, finished, finished_found}

abbrev pub at_work : Session
at_work = record {
  session_id = codes "sess_a";
  principal = some (record { id = codes "agent-a"; nick = codes "agent-a"; team = none });
  nick = some (codes "agent-a");
  pass_token = some (codes "agent-a-token");
  registered = true;
  tx = 1;
  shutdown_tx = 2;
}

abbrev member_row : MembershipRow
member_row = record {
  principal_id = codes "agent-a";
  channel = codes "#work";
  joined_at = pos 1;
  last_seen_seq = pos 1;
}

abbrev pub start : World
start = record started {
  inner = record {
    clients =
        (codes "agent-a", record { session_id = codes "sess_a"; tx = 1; shutdown_tx = 2 }) ∷ [];
    channels = (codes "#work", codes "agent-a" ∷ []) ∷ [];
  };
  db = record three_messages {
    principals = started.db.principals;
    tasks = board.tasks;
    memberships = member_row ∷ [];
  };
}

abbrev posted : World
posted = (on_input env at_work (line (codes "PRIVMSG #work :hi")) start).1

abbrev claimed_world : World
claimed_world = (on_input env at_work (line (codes "TASK CLAIM t1")) posted).1

reached : Reach env start claimed_world
reached =
    next (next here (round at_work (line (codes "PRIVMSG #work :hi")) refl))
      (round at_work (line (codes "TASK CLAIM t1")) refl)

pub start-IsLog : IsLog start.db
start-IsLog = record {
  ascending = three_messages-IsLog.ascending;
  bounded = three_messages-IsLog.bounded;
}

pub start-IsValid : IsValid start.db
start-IsValid = record { unique = board-IsValid.unique; rows = board-IsValid.rows }

Reach-IsLog_example : IsLog claimed_world.db
Reach-IsLog_example = Reach-IsLog env reached start-IsLog

history_is_append_only_example :
    (more : List StoredMessage) × (claimed_world.db.messages ≡ start.db.messages ++ more)
history_is_append_only_example = history_is_append_only env reached

Reach-IsValid_example : IsValid claimed_world.db
Reach-IsValid_example = Reach-IsValid env reached start-IsValid

finished_stays_example : find_task (codes "t3") claimed_world.db.tasks ≡ some finished
finished_stays_example = finished_stays env (codes "t3") finished reached finished_found refl

-- Both commands succeed in that run: the message and the notice of the claim are stored.
two_more : length claimed_world.db.messages ≡ 5
unfolding running
two_more = refl

abbrev pub worker : Principal
worker = record { id = codes "agent-a"; nick = codes "agent-a"; team = none }

-- a new connection of agent-a, up to its registration
abbrev logs_in : List Input
logs_in = line (codes "PASS agent-a-token") ∷ line (codes "NICK x") ∷ []

abbrev logged_in : Session
logged_in = record at_work { session_id = codes "sess_c"; tx = 5; shutdown_tx = 6 }

abbrev inside : World
inside = (handle_stream env (codes "c") 5 6 logs_in start).1

abbrev pub rival_principal : Principal
rival_principal = record { id = codes "agent-b"; nick = codes "agent-b"; team = none }

abbrev pub rival : Session
rival = record at_work { session_id = codes "sess_r"; principal = some rival_principal; tx = 8 }

-- the state behind the winner's TASK CLAIM
abbrev pub won : World
won = (task_claim env at_work (codes "t1") start).1

pub t1_granted :
    (tried env at_work worker (codes "t1") start).0
    ≡ ok (from_row (set_claimed (codes "agent-a") (pos 1300) (pos 1000) free))
unfolding running
t1_granted = refl

pub in_time : env.clock won.readings ≤ℤ add_i64 (env.clock 0) (pos 300)
unfolding running
in_time = omega arith

loser_is_told_example : task_claim env rival (codes "t1") won ≡ (
  ok tt,
  told rival
      (claim_failed (codes "t1") (codes "agent-b") claim_refusal)
      (record won { readings = won.readings + 1 }),
)
loser_is_told_example =
    loser_is_told env at_work rival worker rival_principal (codes "t1") start start-IsValid refl
      refl t1_granted won refl in_time

-- An agent that registers, joins a channel and is gone.
abbrev arriving : Session
arriving = record at_work { principal = none; nick = none; registered = false }

abbrev registered_world : World
registered_world = (on_input env arriving (line (codes "NICK agent-a")) started).1

abbrev joined_world : World
joined_world = (on_input env at_work (line (codes "JOIN #ops")) registered_world).1

abbrev left_world : World
left_world = (on_input env at_work end_of_input joined_world).1

came_and_left : Reach env started left_world
came_and_left =
    next
      (next (next here (round arriving (line (codes "NICK agent-a")) refl))
        (round at_work (line (codes "JOIN #ops")) refl))
      (round at_work end_of_input refl)

-- the row stays when the agent has left
row_stays : has_membership (codes "agent-a") (codes "#ops") left_world.db ≡ true
unfolding running
row_stays = refl

started-Agree : Agree (core started)
unfolding lookup
started-Agree = record {
  has_row = λ id channel l. absurd (cc l);
  listed = λ id channel client k m. absurd (none-ne-some _ k);
}

Reach-Agree_example : Agree (core left_world)
Reach-Agree_example = Reach-Agree env came_and_left started-Agree
