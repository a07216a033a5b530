-- ===== src/Tests/Sessions.antt =====
-- A connection from its first notice on, as the unit tests of src/server.rs and the README describe it.
use aircd.Base.{◌≡◌, refl, [], ◌∷◌, codes}
use aircd.World.{World}
use aircd.Server.Connection.{line, handle_stream}
use aircd.Tests.Samples.{env, started}
use aircd.Tests.Running.{running}

abbrev chatting : World
chatting =
    (handle_stream env (codes "a") 1 2
      (line (codes "JOIN #work")
        ∷ line (codes "PASS agent-a-token")
        ∷ line (codes "NICK a")
        ∷ line (codes "JOIN work")
        ∷ line (codes "PRIVMSG #work :hi all")
        ∷ [])
      started).1

chat_lines :
    chatting.outbox
    ≡ (1, codes ":aircd NOTICE * :Welcome to aircd prototype")
      ∷ (1, codes ":aircd 451 * :You have not registered")
      ∷ (1, codes ":aircd 001 agent-a :Welcome to aircd, agent-a")
      ∷ (1, codes ":agent-a JOIN #work")
      ∷ (1, codes "@seq=1;msg-id=msg_0;time=1002 :agent-a PRIVMSG #work :hi all")
      ∷ []
unfolding running
chat_lines = refl
