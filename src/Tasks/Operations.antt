-- ===== src/Tasks/Operations.antt =====
-- The operations of src/tasks.rs as data, and the invariant of the table that they keep.
use aircd.Base.{
  ◌≡◌, ◌≢◌, inl, inr, refl, Bool, true, none, some, List, [], ◌∷◌, ◌++◌, Str, codes, ◌==◌, All, any,
  All-append, All-update_where, ℤ, arith, Bool-cases,
}
use aircd.Database.{Database, opened, claimed, TaskRow}
use aircd.Tasks.{
  execute_update, can_be_claimed, set_claimed, claim, is_held_by, set_done, done, set_released,
  release, create,
}
use aircd.Tasks.Outcomes.{claim_refusal, holder_refusal}
use aircd.Tasks.Rows.{UniqueIds, matches, update_where-UniqueIds, append-UniqueIds, any-find}

-- One call of a method of `TaskStore`, with its time and, for a new task, its uuid.
pub data Operation : Type 0 where
  creates : Str → Str → Str → ℤ → Operation
  claims finishes releases : Str → Str → ℤ → Operation

module _ (lease_seconds : ℤ) where
  unfoldable pub apply : Operation → Database → Database
  apply (creates channel title uuid now) db = (create channel title uuid now db).1
  apply (claims task_id principal_id now) db = (claim lease_seconds task_id principal_id now db).1
  apply (finishes task_id principal_id now) db = (done task_id principal_id now db).1
  apply (releases task_id principal_id now) db = (release task_id principal_id now db).1

  unfoldable pub run : List Operation → Database → Database
  run [] db = db
  run (op ∷ ops) db = run ops (apply op db)

-- An open task has no holder and no lease; any other has both.
abbrev pub HasHolder : TaskRow → Type 0
HasHolder r = ((p : Str) × (r.claimed_by ≡ some p)) × ((t : ℤ) × (r.lease_expires_at ≡ some t))

abbrev pub RowIsValid : TaskRow → Type 0
RowIsValid r =
    (r.status ≡ opened → (r.claimed_by ≡ none) × (r.lease_expires_at ≡ none))
    × (r.status ≢ opened → HasHolder r)

pub record IsValid (db : Database) : Type 0 where
  pub unique : UniqueIds db.tasks
  pub rows : All RowIsValid db.tasks

module _ (q : TaskRow → Bool) (f : TaskRow → TaskRow) (refusal task_id : Str) (db : Database) where
  execute_update-IsValid :
      ((r : TaskRow) → (f r).id ≡ r.id)
      → ((r : TaskRow) → q r ≡ true → RowIsValid r → RowIsValid (f r))
      → IsValid db
      → IsValid (execute_update q f refusal task_id db).1
  unfolding execute_update
  execute_update-IsValid keep step v = record {
    unique = update_where-UniqueIds task_id q f keep db.tasks v.unique;
    rows =
        All-update_where RowIsValid (matches task_id q f) f (λ r h v'. step r (ground arith) v')
          db.tasks v.rows;
  }

set_claimed-RowIsValid :
    (p : Str) (lease now : ℤ) (r : TaskRow) → RowIsValid (set_claimed p lease now r)
set_claimed-RowIsValid p lease now r = (λ h. cc, λ _. ((p, refl), (lease, refl)))

set_done-RowIsValid :
    (now : ℤ) (r : TaskRow) → r.status ≡ claimed → RowIsValid r → RowIsValid (set_done now r)
set_done-RowIsValid now r c v = (λ h. cc, λ _. v.1 (λ e. cc))

set_released-RowIsValid : (now : ℤ) (r : TaskRow) → RowIsValid (set_released now r)
set_released-RowIsValid now r = (λ _. (refl, refl), λ h. absurd (h refl))

create-IsValid :
    (channel title uuid : Str) (now : ℤ) (db : Database)
    → IsValid db
    → IsValid (create channel title uuid now db).1
unfolding create
create-IsValid channel title uuid now db v =
    elim (Bool-cases (any (λ r. r.id == codes "task_" ++ uuid) db.tasks)) [
      | inl taken ↦ rw taken v
      | inr fresh ↦ rw fresh (record {
        unique =
            append-UniqueIds _ db.tasks (any-find (codes "task_" ++ uuid) db.tasks fresh) v.unique;
        rows =
            All-append RowIsValid db.tasks _ v.rows ((λ _. (refl, refl), λ h. absurd (h refl)), tt);
      })
    ]

pub apply-IsValid :
    (lease : ℤ) (op : Operation) (db : Database) → IsValid db → IsValid (apply lease op db)
unfolding apply claim done release
apply-IsValid lease (creates channel title uuid now) db v =
    create-IsValid channel title uuid now db v
apply-IsValid lease (claims task_id p now) db v =
    execute_update-IsValid (can_be_claimed now) _ claim_refusal task_id db (λ _. refl)
      (λ r _ _. set_claimed-RowIsValid p _ now r) v
apply-IsValid lease (finishes task_id p now) db v =
    execute_update-IsValid (is_held_by p) _ holder_refusal task_id db (λ _. refl)
      (λ r h. set_done-RowIsValid now r (unfold is_held_by in ground arith)) v
apply-IsValid lease (releases task_id p now) db v =
    execute_update-IsValid (is_held_by p) _ holder_refusal task_id db (λ _. refl)
      (λ r _ _. set_released-RowIsValid now r) v

-- Whatever operations are made on a valid table, and in whatever order, it stays valid: ids are unique,
-- an open task has no holder and no lease, and a claimed or finished one has both.
pub run-IsValid :
    (lease : ℤ) (ops : List Operation) (db : Database) → IsValid db → IsValid (run lease ops db)
unfolding run
run-IsValid lease [] db v = v
run-IsValid lease (op ∷ ops) db v =
    run-IsValid lease ops (apply lease op db) (apply-IsValid lease op db v)

pub claim-IsValid :
    (lease : ℤ) (j p : Str) (now : ℤ) (db : Database)
    → IsValid db
    → IsValid (claim lease j p now db).1
unfolding apply
claim-IsValid lease j p now db v = apply-IsValid lease (claims j p now) db v
