-- ===== src/Protocol/Client.antt =====
-- The lines that clients/python/aircd/client.py sends for an agent, and the commands that it means.
use aircd.Base.{some, ◌++◌, Str, codes, ℤ, ℕ, [], ◌∷◌, List}
use aircd.Strings.Numbers.{show_i64}
use aircd.Protocol.{
  Command, join_channel, part, privmsg, history, task_create, task_claim, task_done, task_release,
  task_list,
}

-- the methods of `AircdClient` that send a command
pub data Request : Type 0 where
  join leave : Str → Request
  send : Str → Str → Request
  request_history : Str → ℤ → ℤ → Request
  create_task : Str → Str → Request
  claim_task done_task release_task list_tasks : Str → Request

-- the f-strings
unfoldable pub request_line : Request → Str
unfolding show_i64
request_line (join channel) = codes "JOIN " ++ channel
request_line (leave channel) = codes "PART " ++ channel
request_line (send target text) = codes "PRIVMSG " ++ target ++ codes " :" ++ text
request_line (request_history channel after_seq limit) =
    codes "CHATHISTORY AFTER "
    ++ channel
    ++ codes " "
    ++ show_i64 after_seq
    ++ codes " "
    ++ show_i64 limit
request_line (create_task channel title) = codes "TASK CREATE " ++ channel ++ codes " :" ++ title
request_line (claim_task task_id) = codes "TASK CLAIM " ++ task_id
request_line (done_task task_id) = codes "TASK DONE " ++ task_id
request_line (release_task task_id) = codes "TASK RELEASE " ++ task_id
request_line (list_tasks channel) = codes "TASK LIST " ++ channel

abbrev pub carriage_return : ℕ
carriage_return = 13

abbrev pub line_feed : ℕ
line_feed = 10

-- `_send`: what is written to the stream for a line. A line feed in the line is written as it is.
unfoldable pub wire : Str → Str
wire line = line ++ carriage_return ∷ line_feed ∷ []

-- what is written for some requests, one after the other
unfoldable pub written : List Request → Str
written [] = []
written (r ∷ rs) = wire (request_line r) ++ written rs

-- what the server is asked to do
abbrev pub meant : Request → Command
meant (join channel) = join_channel channel
meant (leave channel) = part channel
meant (send target text) = privmsg target text
meant (request_history channel after_seq limit) = history (some channel) after_seq limit
meant (create_task channel title) = task_create channel title
meant (claim_task task_id) = task_claim task_id
meant (done_task task_id) = task_done task_id
meant (release_task task_id) = task_release task_id
meant (list_tasks channel) = task_list channel
