-- ===== src/Daemon/TaskActions.antt =====
-- The claims and completions of clients/python/aircd/daemon.py that wait for the server's notice:
-- `_request_task_action`, and the handler of `_irc_reader_loop` that answers them. What the patterns of
-- `re.match` find in the text of a notice without tags is a parameter.
use aircd.Base.{
  not, ◌&&◌, ◌||◌, Option, none, some, List, [], ◌∷◌, ◌++◌, Str, codes, ◌==◌, is_empty,
  if◌then◌else◌,
}
use aircd.Strings.{is_some}
use aircd.Maps.{lookup, insert, remove}
use aircd.Client.{Message}
use aircd.Daemon.{or_empty}

-- the groups of the pattern of a failure (the command and the task's id), and of the pattern of a success
-- (the task's id, the verb and who)
pub record Patterns : Type 0 where
  pub fail_match : Str → Option (Str × Str)
  pub success_match : Str → Option (Str × (Str × Str))

-- `{"status": "failed", "error": …}` or `{"status": status, "detail": …}`
pub data Answer : Type 0 where
  failure : Str → Answer
  success : Str → Str → Answer

-- `_task_action_requests`: the responses of each request that waits
abbrev pub Requests : Type 0
Requests = List (Str × List Answer)

abbrev pub key_of : Str → Str → Str
key_of action task_id = action ++ b':' ∷ task_id

-- `_request_task_action` before it sends; `none` where it raises ValueError
unfoldable pub begin_task_action : Str → Str → Requests → Option Requests
begin_task_action action task_id requests =
    let key = key_of action task_id in
    if is_some (lookup key requests) then none else some (insert key [] requests)

abbrev pub first_answer : Option (List Answer) → Option Answer
first_answer none = none
first_answer (some []) = none
first_answer (some (answer ∷ answers)) = some answer

-- `_request_task_action` behind the wait: the answer, `none` where there is none, and what waits on
unfoldable pub end_task_action : Str → Str → Requests → Option Answer × Requests
end_task_action action task_id requests =
    let key = key_of action task_id in (first_answer (lookup key requests), remove key requests)

abbrev pub respond_to : Str → Answer → Requests → Option (List Answer) → Option Requests
respond_to key answer requests none = none
respond_to key answer requests (some answers) = some (insert key (answers ++ answer ∷ []) requests)

-- `req.responses.append(…)` if there is a request; `none` where the message goes on
unfoldable pub respond : Str → Answer → Requests → Option Requests
respond key answer requests = respond_to key answer requests (lookup key requests)

unfoldable pub answer_by_tags : Str → Str → Str → Str → Str → Str → Requests → Option Requests
unfolding respond
answer_by_tags nick task_id action status actor content requests =
    if status == codes "failed"
    then respond (key_of action task_id) (failure content) requests
    else if status == codes "success" && actor == nick
    then respond (key_of action task_id)
        (success (if action == codes "claim" then codes "claimed" else codes "done") content)
        requests
    else none

abbrev pub or_else : Option Requests → Option Requests → Option Requests
or_else none later = later
or_else (some requests) later = some requests

abbrev pub on_fail : Str → Requests → Option (Str × Str) → Option Requests
on_fail content requests none = none
on_fail content requests (some (command, task_id)) =
    respond (key_of (if command == codes "CLAIM" then codes "claim" else codes "done") task_id)
      (failure content) requests

abbrev pub on_success : Str → Str → Requests → Option (Str × (Str × Str)) → Option Requests
on_success nick content requests none = none
on_success nick content requests (some (task_id, (verb, who))) =
    let action = if verb == codes "claimed" then codes "claim" else codes "done" in
    if who == nick
    then respond (key_of action task_id)
        (success (if action == codes "claim" then codes "claimed" else codes "done") content)
        requests
    else none

-- the handler of a message while requests wait; `none` where the message goes on
unfoldable pub on_task_notice : Patterns → Str → Requests → Message → Option Requests
unfolding answer_by_tags
on_task_notice patterns nick requests msg =
    let tag_task_id = or_empty (lookup (codes "task-id") msg.tags) in
    let tag_action = or_empty (lookup (codes "task-action") msg.tags) in
    let tag_status = or_empty (lookup (codes "task-status") msg.tags) in
    let tag_actor = or_empty (lookup (codes "task-actor") msg.tags) in
    if not (is_empty requests) && (msg.sender == codes "aircd" || msg.sender == codes "server")
    then (if not (is_empty tag_task_id) && (not (is_empty tag_action) && not (is_empty tag_status))
        then answer_by_tags nick tag_task_id tag_action tag_status tag_actor msg.content requests
        else or_else (on_fail msg.content requests (patterns.fail_match msg.content))
            (on_success nick msg.content requests (patterns.success_match msg.content)))
    else none
