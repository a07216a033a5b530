-- ===== src/Server/Guarantees.antt =====
-- What holds in every state that the running server reaches.
use aircd.Base.{
  ◌≡◌, refl, sym, ap, ◌∙◌, some, List, [], ◌∷◌, ◌++◌, append_assoc, append-nil, Str, codes, ◌==◌,
  any, ℤ, pos, Bool-cases, inl, inr,
}
use aircd.Database.{Database, StoredMessage, TaskRow, completed}
use aircd.History
use aircd.History.Log.{IsLog, append-IsLog}
use aircd.Tasks
use aircd.Tasks.Rows.{find_task}
use aircd.Tasks.Operations.{
  IsValid, apply-IsValid, Operation, creates, claims, finishes, releases, apply, run,
}
use aircd.Tasks.Lifecycle.{done_is_final}
use aircd.World.{World, Env}
use aircd.Server.Members.{
  set_connected, insert_membership, delete_membership, raise_seen, is_row_of,
}
use aircd.Server.Registration.{set_disconnected}
use aircd.Server.Invariants.{IsKept}
use aircd.Server.System.{Reach, Reach-keeps}

-- The part of the database that the log is.
pub record SameLog (a b : Database) : Type 0 where
  pub messages : b.messages ≡ a.messages
  pub counter : b.last_message_seq ≡ a.last_message_seq

create-SameLog :
    (channel title uuid : Str) (now : ℤ) (db : Database)
    → SameLog db (Tasks.create channel title uuid now db).1
unfolding Tasks.create
create-SameLog channel title uuid now db =
    elim (Bool-cases (any (λ r. r.id == codes "task_" ++ uuid) db.tasks)) [
      | inl e ↦ rw e (record { messages = refl; counter = refl })
      | inr e ↦ rw e (record { messages = refl; counter = refl })
    ]

insert_membership-SameLog :
    (id channel : Str) (now : ℤ) (db : Database) → SameLog db (insert_membership id channel now db)
unfolding insert_membership
insert_membership-SameLog id channel now db =
    elim (Bool-cases (any (is_row_of id channel) db.memberships)) [
      | inl e ↦ rw e (record { messages = refl; counter = refl })
      | inr e ↦ rw e (record { messages = refl; counter = refl })
    ]

-- What depends on the log alone is kept if `append` keeps it.
module _ {P : Database → Type 0} (respects : (a b : Database) → SameLog a b → P a → P b)
    (append_keeps : (channel sender body uuid : Str) (now : ℤ) (db : Database)
      → P db
      → P (History.append channel sender body uuid now db).1) where
  log_kept : IsKept (λ c. P c.0)
  unfolding Tasks.claim Tasks.done Tasks.release set_connected set_disconnected delete_membership
      raise_seen
  log_kept = record {
    append =
        λ channel sender body uuid now db inner h. append_keeps channel sender body uuid now db h;
    create = λ channel title uuid now db inner h.
        respects db _ (create-SameLog channel title uuid now db) h;
    claim =
        λ lease j id now db inner h. respects db _ (record { messages = refl; counter = refl }) h;
    done = λ j id now db inner h. respects db _ (record { messages = refl; counter = refl }) h;
    release = λ j id now db inner h. respects db _ (record { messages = refl; counter = refl }) h;
    set_disconnected =
        λ id now db inner h. respects db _ (record { messages = refl; counter = refl }) h;
    joined =
        λ id channel now db inner h. respects db _ (insert_membership-SameLog id channel now db) h;
    parted = λ id channel db inner h. respects db _ (record { messages = refl; counter = refl }) h;
    raise_seen =
        λ id channel seq db inner h. respects db _ (record { messages = refl; counter = refl }) h;
    attached =
        λ id client now db inner h. respects db _ (record { messages = refl; counter = refl }) h;
    dropped = λ id db inner h. h;
  }

pub respects-IsLog : (a b : Database) → SameLog a b → IsLog a → IsLog b
respects-IsLog a b same log = record {
  ascending = rw same.messages log.ascending;
  bounded = rw (same.messages, same.counter) log.bounded;
}

-- In every state that the server reaches the sequence numbers of the messages ascend and are at most the
-- counter, whatever the connections do.
pub Reach-IsLog : (env : Env) {w w' : World} → Reach env w w' → IsLog w.db → IsLog w'.db
Reach-IsLog env r = Reach-keeps (log_kept respects-IsLog append-IsLog) env r

abbrev Extends : List StoredMessage → Database → Type 0
Extends base db = (more : List StoredMessage) × (db.messages ≡ base ++ more)

append-Extends :
    (base : List StoredMessage) (channel sender body uuid : Str) (now : ℤ) (db : Database)
    → Extends base db
    → Extends base (History.append channel sender body uuid now db).1
unfolding History.append
append-Extends base channel sender body uuid now db (more, e) =
    elim (Bool-cases (History.can_insert (codes "msg_" ++ uuid) db)) [
      | inl ok ↦
          let m = History.next_message channel sender body uuid now db in
          rw ok (more ++ m ∷ [], ap (λ ms. ms ++ m ∷ []) e ∙ append_assoc base more (m ∷ []))
      | inr refused ↦ rw refused (more, e)
    ]

-- The history is append-only: a message that is stored is never changed, moved or removed.
pub history_is_append_only :
    (env : Env) {w w' : World}
    → Reach env w w'
    → (more : List StoredMessage) × (w'.db.messages ≡ w.db.messages ++ more)
history_is_append_only env {w} r =
    Reach-keeps
      (log_kept (λ a b same (more, e). (more, same.messages ∙ e)) (append-Extends w.db.messages))
      env r ([], sym (append-nil w.db.messages))

pub append-tasks :
    (channel sender body uuid : Str) (now : ℤ) (db : Database)
    → (History.append channel sender body uuid now db).1.tasks ≡ db.tasks
unfolding History.append
append-tasks channel sender body uuid now db =
    elim (Bool-cases (History.can_insert (codes "msg_" ++ uuid) db)) [
      | inl ok ↦ rw ok refl
      | inr refused ↦ rw refused refl
    ]

insert_membership-tasks :
    (id channel : Str) (now : ℤ) (db : Database)
    → (insert_membership id channel now db).tasks ≡ db.tasks
unfolding insert_membership
insert_membership-tasks id channel now db =
    elim (Bool-cases (any (is_row_of id channel) db.memberships)) [
      | inl e ↦ rw e refl
      | inr e ↦ rw e refl
    ]

-- What depends on the task table alone is kept if the task operations keep it.
module _ {P : Database → Type 0} (respects : (a b : Database) → b.tasks ≡ a.tasks → P a → P b)
    (steps : (lease : ℤ) (op : Operation) (db : Database) → P db → P (apply lease op db)) where
  tasks_kept : IsKept (λ c. P c.0)
  unfolding apply set_connected set_disconnected delete_membership raise_seen
  tasks_kept = record {
    append = λ channel sender body uuid now db inner h.
        respects db _ (append-tasks channel sender body uuid now db) h;
    create =
        λ channel title uuid now db inner h. steps (pos 0) (creates channel title uuid now) db h;
    claim = λ lease j id now db inner h. steps lease (claims j id now) db h;
    done = λ j id now db inner h. steps (pos 0) (finishes j id now) db h;
    release = λ j id now db inner h. steps (pos 0) (releases j id now) db h;
    set_disconnected = λ id now db inner h. respects db _ refl h;
    joined =
        λ id channel now db inner h. respects db _ (insert_membership-tasks id channel now db) h;
    parted = λ id channel db inner h. respects db _ refl h;
    raise_seen = λ id channel seq db inner h. respects db _ refl h;
    attached = λ id client now db inner h. respects db _ refl h;
    dropped = λ id db inner h. h;
  }

-- In every state that the server reaches the task table is valid: ids are unique, an open task has no
-- holder and no lease, and a claimed or finished one has both.
pub Reach-IsValid : (env : Env) {w w' : World} → Reach env w w' → IsValid w.db → IsValid w'.db
Reach-IsValid env r =
    Reach-keeps
      (tasks_kept (λ a b e v. record { unique = rw e v.unique; rows = rw e v.rows }) apply-IsValid)
      env r

-- A finished task stays as it is, whatever the server's clients do.
pub finished_stays :
    (env : Env) {w w' : World} (j : Str) (row : TaskRow)
    → Reach env w w'
    → find_task j w.db.tasks ≡ some row
    → row.status ≡ completed
    → find_task j w'.db.tasks ≡ some row
finished_stays env j row r found h =
    Reach-keeps {P = λ c. find_task j c.0.tasks ≡ some row}
      (tasks_kept (λ a b e f. rw e f)
        (λ lease op db f. unfold run in done_is_final lease (op ∷ []) db j row f h))
      env r found
