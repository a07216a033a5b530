-- ===== src/Tasks.antt =====
-- src/tasks.rs: the task table. Each operation holds the database's lock from its first statement to
-- its return, so it is one step; the clock's reading and the uuid are arguments.
pub mod Rows
pub mod Outcomes
pub mod Decisions
pub mod Operations
pub mod Lifecycle
pub mod Board
pub mod View
pub mod Refinement
pub mod Progress
use aircd.Base.{
  is_null, Bool, true, false, ◌&&◌, ◌||◌, not, Option, none, some, List, [], ◌∷◌, ◌++◌, map, Str,
  codes, ◌==◌, eqb, if◌then◌else◌, length, any, find, select, update_where, sort_by, ℤ, ltb_ℤ,
  add_i64, Result, ok, err,
}
use aircd.Database.{Database, Status, opened, claimed, completed, TaskRow}

pub record Task : Type 0 where
  pub id : Str
  pub channel : Str
  pub title : Str
  pub status : Status
  pub claimed_by : Option Str
  pub lease_expires_at : Option ℤ

abbrev pub is_open : Status → Bool
is_open opened = true
is_open _ = false

abbrev pub is_claimed : Status → Bool
is_claimed claimed = true
is_claimed _ = false

abbrev pub is_done : Status → Bool
is_done completed = true
is_done _ = false

abbrev pub status_text : Status → Str
status_text opened = codes "open"
status_text claimed = codes "claimed"
status_text completed = codes "done"

abbrev pub from_row : TaskRow → Task
from_row r = record {
  id = r.id;
  channel = r.channel;
  title = r.title;
  status = r.status;
  claimed_by = r.claimed_by;
  lease_expires_at = r.lease_expires_at;
}

abbrev pub loaded : Option TaskRow → Result Task
loaded none = err (codes "load task")
loaded (some r) = ok (from_row r)

unfoldable pub get_locked : List TaskRow → Str → Result Task
unfolding find
get_locked rows task_id = loaded (find (λ r. r.id == task_id) rows)

abbrev pub new_task : Str → Str → Str → ℤ → TaskRow
new_task channel title uuid now = record {
  id = codes "task_" ++ uuid;
  channel = channel;
  title = title;
  status = opened;
  claimed_by = none;
  lease_expires_at = none;
  created_at = now;
  updated_at = now;
}

unfoldable pub create : Str → Str → Str → ℤ → Database → Result Task × Database
create channel title uuid now db =
    let row = new_task channel title uuid now in
    if any (λ r. r.id == codes "task_" ++ uuid) db.tasks
    then (err (codes "insert task"), db)
    else (ok (from_row row), record db { tasks = db.tasks ++ row ∷ [] })

-- `column < bound` in SQL, as a condition: NULL is not true
abbrev pub before : Option ℤ → ℤ → Bool
before none bound = false
before (some t) bound = ltb_ℤ t bound

-- `column = text` in SQL
abbrev pub is_text : Option Str → Str → Bool
is_text none text = false
is_text (some t) text = t == text

-- `db.execute("UPDATE tasks SET f WHERE id = task_id AND q")`, the test `changed != 1`, and the reload
unfoldable pub execute_update :
    (TaskRow → Bool) → (TaskRow → TaskRow) → Str → Str → Database → Result Task × Database
unfolding select update_where get_locked
execute_update q f refusal task_id db =
    let p = λ (r : TaskRow). r.id == task_id && q r in
    let changed = length (select p db.tasks) in
    let rows = update_where p f db.tasks in
    (if eqb changed 1 then get_locked rows task_id else err refusal, record db { tasks = rows })

-- `status != 'done' AND (status = 'open' OR lease_expires_at IS NULL OR lease_expires_at < ?3)`
unfoldable pub can_be_claimed : ℤ → TaskRow → Bool
can_be_claimed now r =
    not (is_done r.status)
    && (is_open r.status || is_null r.lease_expires_at || before r.lease_expires_at now)

abbrev pub set_claimed : Str → ℤ → ℤ → TaskRow → TaskRow
set_claimed principal_id lease now r = record r {
  status = claimed;
  claimed_by = some principal_id;
  lease_expires_at = some lease;
  updated_at = now;
}

unfoldable pub claim : ℤ → Str → Str → ℤ → Database → Result Task × Database
unfolding execute_update can_be_claimed add_i64
claim lease_seconds task_id principal_id now db =
    let lease_expires_at = add_i64 now lease_seconds in
    execute_update (can_be_claimed now) (set_claimed principal_id lease_expires_at now)
      (codes "task is already claimed or done") task_id db

-- `claimed_by = ?3 AND status = 'claimed'`
unfoldable pub is_held_by : Str → TaskRow → Bool
is_held_by principal_id r = is_text r.claimed_by principal_id && is_claimed r.status

abbrev pub set_done : ℤ → TaskRow → TaskRow
set_done now r = record r { status = completed; updated_at = now }

unfoldable pub done : Str → Str → ℤ → Database → Result Task × Database
unfolding execute_update is_held_by
done task_id principal_id now db =
    execute_update (is_held_by principal_id) (set_done now)
      (codes "task is not claimed by this principal") task_id db

abbrev pub set_released : ℤ → TaskRow → TaskRow
set_released now r = record r {
  status = opened;
  claimed_by = none;
  lease_expires_at = none;
  updated_at = now;
}

unfoldable pub release : Str → Str → ℤ → Database → Result Task × Database
unfolding execute_update is_held_by
release task_id principal_id now db =
    execute_update (is_held_by principal_id) (set_released now)
      (codes "task is not claimed by this principal") task_id db

abbrev pub by_created_at : TaskRow → TaskRow → Bool
by_created_at a b = ltb_ℤ a.created_at b.created_at

unfoldable pub list : Str → Database → List Task
unfolding select sort_by
list channel db =
    map from_row (
      sort_by by_created_at (select (λ r. r.channel == channel && not (is_done r.status)) db.tasks))
