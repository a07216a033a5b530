-- ===== src/Tasks/Refinement.antt =====
-- The task table of src/tasks.rs behaves as the board of the tasks that it holds.
use mathlib.Core.Path.{fun_ext, ap₂}
use aircd.Base.{
  not, subst, ◌≡◌, refl, sym, ap, ◌∙◌, Bool, false, Bool-cases, inl, inr, Option, none, some, List,
  [], ◌∷◌, ◌++◌, Str, codes, ◌==◌, if◌then◌else◌, any, find, ℤ, add_i64, arith,
}
use aircd.Database.{Database, TaskRow}
use aircd.Tasks.{
  execute_update, create, new_task, claim, done, release, can_be_claimed, is_held_by, set_claimed,
  set_done, set_released,
}
use aircd.Tasks.Rows.{count_of, find_task, UniqueIds, found_or, find-append, any-find}
use aircd.Tasks.Outcomes.{only_the_task, execute_update-done, execute_update-refused}
use aircd.Tasks.Operations.{
  Operation, creates, claims, finishes, releases, apply, IsValid, apply-IsValid,
}
use aircd.Tasks.Board.{
  Lock, free, held, finished, Board, is_new, put, is_takeable, holds_it, write_if, step,
}
use aircd.Tasks.Board
use aircd.Tasks.View.{
  counted, row_lock, view, reply_of, reply, replies, found-RowIsValid, takeable, holding,
}

placed :
    (task_id j : Str) (lock : Lock) (db : Database) (row : TaskRow)
    → row_lock (some row) ≡ some lock
    → row_lock (if task_id == j then some row else find_task j db.tasks)
      ≡ put task_id lock (view db) j
placed task_id j lock db row e = elim (Bool-cases (task_id == j)) [
  | inl h ↦ rw h e
  | inr h ↦ rw h refl
]

module _ (q : TaskRow → Bool) (f : TaskRow → TaskRow) (refusal task_id : Str) (db : Database)
    (test : Option Lock → Bool) (lock : Lock) where
  -- an UPDATE of one task is a write on the board, if its test is that of the board
  update_refines :
      ((r : TaskRow) → (f r).id ≡ r.id)
      → UniqueIds db.tasks
      → test none ≡ false
      → ((r : TaskRow) → find_task task_id db.tasks ≡ some r → test (row_lock (some r)) ≡ q r)
      → ((r : TaskRow) → find_task task_id db.tasks ≡ some r → row_lock (some (f r)) ≡ some lock)
      → (
        reply_of (execute_update q f refusal task_id db).0,
        view (execute_update q f refusal task_id db).1,
      )
        ≡ write_if (test (view db task_id)) task_id lock (view db)
  update_refines keep u missing same writes =
      decided
      ∙ sym (ap (λ b. write_if b task_id lock (view db)) (tests (find_task task_id db.tasks) refl))
    where
      tests :
          (o : Option TaskRow)
          → find_task task_id db.tasks ≡ o
          → test (row_lock o) ≡ count_of task_id q f o
      tests none e = missing
      tests (some r) e = same r e

      decided :
          (
            reply_of (execute_update q f refusal task_id db).0,
            view (execute_update q f refusal task_id db).1,
          )
          ≡ write_if (count_of task_id q f (find_task task_id db.tasks)) task_id lock (view db)
      decided = elim (Bool-cases (count_of task_id q f (find_task task_id db.tasks))) [
        | inr e ↦ rw (e, execute_update-refused q f refusal task_id db u e) refl
        | inl e ↦
            let (r, found, passes) = counted task_id q f (find_task task_id db.tasks) e in
            let only = only_the_task q f refusal task_id db keep r found passes in
            rw (e, execute_update-done q f refusal task_id db keep u r found passes)
              (ap₂ (λ a b. (a, b)) (writes r found)
                (fun_ext
                  (λ j. ap row_lock (only j) ∙ placed task_id j lock db (f r) (writes r found))))
      ]

new_test :
    (task_id : Str) (rows : List TaskRow)
    → is_new (row_lock (find_task task_id rows)) ≡ not (any (λ r. r.id == task_id) rows)
unfolding find
new_test task_id [] = refl
new_test task_id (r ∷ rows) = ground (arith, new_test task_id rows)

appended :
    (task_id j : Str) (row : TaskRow) (o : Option TaskRow)
    → row_lock (some row) ≡ some free
    → (task_id ≡ j → o ≡ none)
    → row_lock (found_or task_id j row o) ≡ (if task_id == j then some free else row_lock o)
appended task_id j row none e fresh = ground (arith, e)
appended task_id j row (some r) e fresh = ground (arith, fresh)

-- A new task has an id that no task had, and is free.
create_refines :
    (channel title uuid : Str) (now : ℤ) (db : Database)
    → (reply_of (create channel title uuid now db).0, view (create channel title uuid now db).1)
      ≡ write_if (is_new (view db (codes "task_" ++ uuid))) (codes "task_" ++ uuid) free (view db)
unfolding create
create_refines channel title uuid now db =
    let task_id = codes "task_" ++ uuid in
    let row = new_task channel title uuid now in
    elim (Bool-cases (any (λ r. r.id == task_id) db.tasks)) [
      | inl taken ↦ rw (taken, new_test task_id db.tasks, taken) refl
      | inr fresh ↦
          let none_yet = any-find task_id db.tasks fresh in
          rw (fresh, new_test task_id db.tasks, fresh)
            (ap (λ b. (some free, b))
              (fun_ext (λ j.
                ap row_lock (find-append j row db.tasks)
                ∙ appended task_id j row (find_task j db.tasks) refl
                    (λ e. subst (λ k. find_task k db.tasks ≡ none) e none_yet))))
    ]

-- One call: the caller is told what the board tells, and the table holds what the board holds.
pub step_refines :
    (lease : ℤ) (op : Operation) (db : Database)
    → IsValid db
    → (reply lease op db, view (apply lease op db)) ≡ step lease op (view db)
unfolding apply claim done release can_be_claimed is_held_by
step_refines lease (creates channel title uuid now) db v = create_refines channel title uuid now db
step_refines lease (claims task_id p now) db v =
    update_refines _ (set_claimed p (add_i64 now lease) now) _ task_id db (is_takeable now)
      (held p (add_i64 now lease)) (λ _. refl) v.unique refl
      (λ r found.
        takeable now r.status r.claimed_by r.lease_expires_at
          (λ n. ((found-RowIsValid task_id db.tasks r v.rows found).1 n).0))
      (λ r _. refl)
step_refines lease (finishes task_id p now) db v =
    update_refines _ (set_done now) _ task_id db (holds_it p) finished (λ _. refl) v.unique refl
      (λ r found.
        holding p r.status r.claimed_by r.lease_expires_at
          (λ n. ((found-RowIsValid task_id db.tasks r v.rows found).1 n).1))
      (λ r _. refl)
step_refines lease (releases task_id p now) db v =
    update_refines _ (set_released now) _ task_id db (holds_it p) free (λ _. refl) v.unique refl
      (λ r found.
        holding p r.status r.claimed_by r.lease_expires_at
          (λ n. ((found-RowIsValid task_id db.tasks r v.rows found).1 n).1))
      (λ r _. refl)

-- The task table refines the board: whatever calls are made on a valid table, by whichever principals
-- and at whatever times, each is answered as the board of its tasks answers it, refusals included.
pub replies_refine :
    (lease : ℤ) (ops : List Operation) (db : Database)
    → IsValid db
    → replies lease ops db ≡ Board.run lease ops (view db)
unfolding replies Board.run
replies_refine lease [] db v = refl
replies_refine lease (op ∷ ops) db v =
    ap₂ ◌∷◌ (ap (λ (r : Option Lock × Board). r.0) (step_refines lease op db v)) (
      replies_refine lease ops (apply lease op db) (apply-IsValid lease op db v)
      ∙ ap (λ (r : Option Lock × Board). Board.run lease ops r.1) (step_refines lease op db v))
