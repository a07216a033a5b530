-- ===== src/Tests/AgentExamples.antt =====
-- The agents' client at the server's lines: a message to #work, and the replay of an agent that comes
-- back to it.
use aircd.Base.{◌≡◌, refl, some, List, [], ◌++◌, map, Str, codes, ok, All, ℕ, arith}
use aircd.Strings.{to_ascii_uppercase}
use aircd.Strings.Numbers.{parse_i64}
use aircd.Database.{StoredMessage}
use aircd.World.{World}
use aircd.Server.Members.{memberships_of}
use aircd.Server.Registration.{enter_server}
use aircd.Server.Returning.{missed}
use aircd.Client.{is_space, Python, Client, on_lines}
use aircd.Client.CatchingUp.{replay_of, HasSeen, IsNumbered, IsCarried}
use aircd.Client.Returning.{absent_agent_catches_up}
use aircd.Tests.Samples.{env}
use aircd.Tests.Running.{running}
use aircd.Tests.SystemExamples.{at_work, start, start-IsLog}
use aircd.Tests.ChannelExamples.{agent_a}

-- Python on ASCII
abbrev pub ascii : Python
ascii = record { upper = to_ascii_uppercase; int = parse_i64 }

abbrev pub fresh : Client
fresh = record { last_seen_seq = []; message_queue = []; sent = [] }

upper_privmsg : ascii.upper (codes "PRIVMSG") ≡ codes "PRIVMSG"
unfolding running
upper_privmsg = refl

abbrev missing : List StoredMessage
missing = missed start.db (memberships_of (codes "agent-a") start.db)

missing-IsNumbered : All (IsNumbered ascii) missing
unfolding running
missing-IsNumbered = (refl, tt)

missing-IsCarried : All (IsCarried start.db) missing
unfolding running is_space
missing-IsCarried = (
  (
    omega arith,
    omega arith,
    (omega arith, refl, (refl, (refl, (refl, (refl, tt))))),
    refl,
    ground arith,
  ),
  tt,
)

absent_agent_catches_up_example :
    (w' : World) × (before : List (ℕ × Str)) × (lines : List Str) × (client' : Client)
    × (enter_server env at_work agent_a start ≡ (ok tt, w'))
    × (w'.outbox ≡ before ++ map (λ l. (at_work.tx, l)) lines)
    × (on_lines ascii lines fresh ≡ some client')
    × (client'.message_queue ≡ fresh.message_queue ++ map (replay_of start.db) missing)
    × All (λ m. HasSeen client' m.channel m.seq) missing
absent_agent_catches_up_example =
    absent_agent_catches_up ascii env at_work agent_a start fresh refl start-IsLog refl
      upper_privmsg missing-IsNumbered missing-IsCarried
