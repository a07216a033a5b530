-- ===== src/Tests/LogExamples.antt =====
-- The theorems on the message log at a table with three messages in two channels.
use aircd.Base.{
  ◌≡◌, refl, [], ◌∷◌, ◌++◌, codes, Str, ℤ, pos, Str-discrete, select, take, arith, ◌+◌, sort_by,
}
use aircd.Database.{Database, StoredMessage, empty}
use aircd.History.{after, clamp_limit, wanted}
use aircd.History.Log.{IsLog}
use aircd.History.Paging.{after-pages}

abbrev message : ℤ → Str → Str → StoredMessage
message seq channel body = record {
  seq = seq;
  msg_id = codes "msg_" ++ body;
  channel = channel;
  sender_id = codes "agent-a";
  body = body;
  created_at = pos 7;
}

abbrev work : Str
work = codes "#work"

abbrev m1 : StoredMessage
m1 = message (pos 1) work (codes "a")

abbrev m2 : StoredMessage
m2 = message (pos 2) (codes "#ops") (codes "b")

abbrev m3 : StoredMessage
m3 = message (pos 3) work (codes "c")

abbrev pub three_messages : Database
three_messages = record empty { messages = m1 ∷ m2 ∷ m3 ∷ []; last_message_seq = pos 3 }

pub three_messages-IsLog : IsLog three_messages
three_messages-IsLog = omega arith

first_page : after work (pos 0) (pos 1) three_messages ≡ [] ++ m1 ∷ []
unfolding after Str-discrete codes select sort_by clamp_limit
first_page = refl

after-pages_example :
    after work (pos 0) (pos 1) three_messages ++ after work (pos 1) (pos 5) three_messages
    ≡ take
        (clamp_limit (pos 1) + clamp_limit (pos 5))
        (select (wanted work (pos 0)) three_messages.messages)
after-pages_example =
    after-pages work (pos 0) (pos 1) (pos 5) three_messages [] m1 three_messages-IsLog first_page
