-- ===== src/Daemon/Routing.antt =====
-- `_irc_reader_loop` of clients/python/aircd/daemon.py: a message goes to the first request that it
-- answers, or else to the inbox. What the pattern of a listed task finds is a parameter. The end of a
-- request for history or a list, half a second after its first answer, is the event loop's.
use aircd.Base.{
  Bool, not, ◌&&◌, ◌||◌, Option, none, some, List, [], ◌∷◌, ◌++◌, Str, codes, ◌==◌, is_empty,
  if◌then◌else◌,
}
use aircd.Strings.{is_some, split_once}
use aircd.Maps.{lookup, insert}
use aircd.Client.{Message}
use aircd.Daemon.{Held, Inbox, MessageDict, message_to_dict, receive}
use aircd.Daemon.TaskActions.{Patterns, Requests, on_task_notice}

pub record ListedTask : Type 0 where
  pub id : Str
  pub channel : Str
  pub status : Str
  pub claimed_by : Str
  pub title : Str

-- `_history_requests`, `_task_list_requests` and `_task_action_requests`, with their responses
pub record Waiting : Type 0 where
  pub history_requests : List (Str × List MessageDict)
  pub task_list_requests : List (Str × List ListedTask)
  pub task_action_requests : Requests

abbrev pub with_history : Message → Waiting → Option (List MessageDict) → Option Waiting
with_history msg waiting none = none
with_history msg waiting (some responses) = some (record waiting {
  history_requests =
      insert msg.channel (responses ++ message_to_dict msg ∷ []) waiting.history_requests;
})

-- the handler of a replay; `none` where the message goes on
unfoldable pub on_replay : Message → Waiting → Option Waiting
on_replay msg waiting =
    let answered = with_history msg waiting (lookup msg.channel waiting.history_requests) in
    if msg.is_replay then answered else none

abbrev pub with_listed : ListedTask → Waiting → Option (List ListedTask) → Waiting
with_listed task waiting none = waiting
with_listed task waiting (some responses) = record waiting {
  task_list_requests = insert task.channel (responses ++ task ∷ []) waiting.task_list_requests;
}

abbrev pub with_match : Waiting → Option ListedTask → Waiting
with_match waiting none = waiting
with_match waiting (some task) =
    with_listed task waiting (lookup task.channel waiting.task_list_requests)

abbrev pub from_server : Message → Bool
from_server msg = msg.sender == codes "aircd" || msg.sender == codes "server"

-- the handler of a listing; `none` where the message goes on
unfoldable pub on_listing : (Str → Option ListedTask) → Message → Waiting → Option Waiting
on_listing task_match msg waiting =
    if not (is_empty waiting.task_list_requests)
      && (from_server msg && is_some (split_once (codes "TASK ") msg.content))
    then some (with_match waiting (task_match msg.content))
    else none

abbrev pub with_actions : Waiting → Option Requests → Option Waiting
with_actions waiting none = none
with_actions waiting (some requests) = some (record waiting { task_action_requests = requests })

abbrev pub first_of : Option Waiting → Option Waiting → Option Waiting
first_of none later = later
first_of (some waiting) later = some waiting

-- the handlers of synchronous requests, in their order
unfoldable pub answer_requests :
    Patterns → (Str → Option ListedTask) → Str → Message → Waiting → Option Waiting
unfolding on_replay on_listing
answer_requests patterns task_match nick msg waiting = first_of (on_replay msg waiting) (
    first_of (on_listing task_match msg waiting)
      (with_actions waiting (on_task_notice patterns nick waiting.task_action_requests msg)))

module _ {Time : Type 0} where
  abbrev pub or_receive :
      Bool → Held → Str → Waiting → Inbox Time → Option Waiting → Waiting × Inbox Time
  or_receive is_busy held nick waiting inbox (some waiting') = (waiting', inbox)
  or_receive is_busy held nick waiting inbox none = (waiting, receive is_busy held nick inbox)

  -- one message of the loop
  unfoldable pub on_message :
      Patterns
      → (Str → Option ListedTask)
      → Bool
      → Str
      → Held
      → Waiting
      → Inbox Time
      → Waiting × Inbox Time
  unfolding answer_requests
  on_message patterns task_match is_busy nick held waiting inbox =
      or_receive is_busy held nick waiting inbox
        (answer_requests patterns task_match nick held.message waiting)
