-- ===== src/Tasks/Outcomes.antt =====
-- What `claim`, `done` and `release` return, and what they write, by the row of the task.
use aircd.Base.{
  if◌then◌else◌, ◌==◌, ◌≡◌, ◌≢◌, ◌⊎◌, inl, inr, refl, Bool, true, false, ◌||◌, Option, none, some,
  Str, codes, update_where, ℤ, ◌<ℤ◌, add_i64, ok, err, arith, Bool-cases, is_null,
}
use aircd.Database.{Database, opened, claimed, completed, TaskRow}
use aircd.Tasks.{
  from_row, get_locked, execute_update, can_be_claimed, set_claimed, claim, is_held_by, set_done,
  done, set_released, release, is_open, before,
}
use aircd.Tasks.Rows.{
  find_task, UniqueIds, matches, count_of, changed_count, update_where-none, find-update_where,
}

abbrev pub claim_refusal : Str
claim_refusal = codes "task is already claimed or done"

abbrev pub holder_refusal : Str
holder_refusal = codes "task is not claimed by this principal"

module _ (q : TaskRow → Bool) (f : TaskRow → TaskRow) (refusal task_id : Str) (db : Database) where
  abbrev pub updated : Database
  updated = record db { tasks = update_where (matches task_id q f) f db.tasks }

  pub execute_update-refused :
      UniqueIds db.tasks
      → count_of task_id q f (find_task task_id db.tasks) ≡ false
      → execute_update q f refusal task_id db ≡ (err refusal, db)
  unfolding execute_update
  execute_update-refused u h =
      rw (changed_count task_id q f db.tasks u, h, update_where-none task_id q f db.tasks u h)

  pub execute_update-done :
      ((r : TaskRow) → (f r).id ≡ r.id)
      → UniqueIds db.tasks
      → (r : TaskRow) → find_task task_id db.tasks ≡ some r
      → q r ≡ true
      → execute_update q f refusal task_id db ≡ (ok (from_row (f r)), updated)
  unfolding execute_update get_locked
  execute_update-done keep u r found passes = ground (
    arith,
    changed_count task_id q f db.tasks u,
    find-update_where task_id q f keep task_id db.tasks,
  )

-- Every later lookup finds this row for the task, and what it found before for any other task.
abbrev pub OnlyTask : Str → TaskRow → Database → Database → Type 0
OnlyTask task_id row db db' =
    (j : Str) → find_task j db'.tasks ≡ (if task_id == j then some row else find_task j db.tasks)

pub only_the_task :
    (q : TaskRow → Bool) (f : TaskRow → TaskRow) (refusal task_id : Str) (db : Database)
    → ((r : TaskRow) → (f r).id ≡ r.id)
    → (r : TaskRow) → find_task task_id db.tasks ≡ some r
    → q r ≡ true
    → OnlyTask task_id (f r) db (updated q f refusal task_id db)
only_the_task q f refusal task_id db keep r found passes j =
    ground (arith, find-update_where task_id q f keep j db.tasks, found, passes)

-- A task can be claimed if it is not done, and is open or has no lease or an expired one.
abbrev pub IsClaimable : ℤ → TaskRow → Type 0
IsClaimable now r =
    (r.status ≢ completed)
    × ((r.status ≡ opened)
        ⊎ ((r.lease_expires_at ≡ none) ⊎ ((t : ℤ) × (r.lease_expires_at ≡ some t) × (t <ℤ now))))

pub claimable_complete : (now : ℤ) (r : TaskRow) → IsClaimable now r → can_be_claimed now r ≡ true
unfolding can_be_claimed
claimable_complete now r (live, inl h) = ground arith
claimable_complete now r (live, inr (inl h)) = ground arith
claimable_complete now r (live, inr (inr (t, h, lt))) = ground arith

lease_sound :
    (now : ℤ) (o : Option ℤ)
    → is_null o || before o now ≡ true
    → (o ≡ none) ⊎ ((t : ℤ) × (o ≡ some t) × (t <ℤ now))
lease_sound now none h = inl refl
lease_sound now (some t) h = inr (t, refl, ground arith)

pub IsClaimable-sound : (now : ℤ) (r : TaskRow) → can_be_claimed now r ≡ true → IsClaimable now r
unfolding can_be_claimed
IsClaimable-sound now r h = elim (Bool-cases (is_open r.status)) [
  | inl o ↦ (ground arith, inl (ground arith))
  | inr c ↦ (ground arith, inr (lease_sound now r.lease_expires_at (ground arith)))
]

-- A row that a principal holds: the task is claimed, by this principal.
abbrev pub IsHeldBy : Str → TaskRow → Type 0
IsHeldBy principal_id r = (r.status ≡ claimed) × (r.claimed_by ≡ some principal_id)

pub held_complete : (p : Str) (r : TaskRow) → IsHeldBy p r → is_held_by p r ≡ true
unfolding is_held_by
held_complete p r h = ground arith

pub held_sound : (p : Str) (r : TaskRow) → is_held_by p r ≡ true → IsHeldBy p r
unfolding is_held_by
held_sound p r h = ground arith

module _ (q : TaskRow → Bool) (f : TaskRow → TaskRow) (task_id : Str) where
  none_passes :
      (o : Option TaskRow)
      → ((r : TaskRow) → o ≡ some r → q r ≡ true → ⊥)
      → count_of task_id q f o ≡ false
  none_passes none h = refl
  none_passes (some r) h = elim (Bool-cases (q r)) [ inl e ↦ absurd (h r refl e) | inr e ↦ e ]

module _ (lease_seconds : ℤ) (task_id principal_id : Str) (now : ℤ) (db : Database) where
  abbrev pub lease_end : ℤ
  lease_end = add_i64 now lease_seconds

  abbrev pub claimed_db : Database
  claimed_db =
      updated (can_be_claimed now) (set_claimed principal_id lease_end now) claim_refusal task_id db

  -- A task that can be claimed (it is there, and is open or has no lease or an expired one, and is not
  -- done) is claimed: the result and the new row name the principal and the end of the lease, and no
  -- other row changes. Ids are unique.
  pub claim-granted :
      UniqueIds db.tasks
      → (r : TaskRow) → find_task task_id db.tasks ≡ some r
      → IsClaimable now r
      → (claim lease_seconds task_id principal_id now db
          ≡ (ok (from_row (set_claimed principal_id lease_end now r)), claimed_db))
        × OnlyTask task_id (set_claimed principal_id lease_end now r) db claimed_db
  unfolding claim
  claim-granted u r found c =
      let passes = claimable_complete now r c in
      (
        execute_update-done (can_be_claimed now) (set_claimed principal_id lease_end now)
            claim_refusal task_id db (λ _. refl) u r found passes,
        only_the_task (can_be_claimed now) (set_claimed principal_id lease_end now) claim_refusal
            task_id db (λ _. refl) r found passes,
      )

  -- If no row of the task can be claimed, the claim is refused and the database stays as it is. Ids are
  -- unique.
  pub claim-refused :
      UniqueIds db.tasks
      → ((r : TaskRow) → find_task task_id db.tasks ≡ some r → ¬ IsClaimable now r)
      → claim lease_seconds task_id principal_id now db ≡ (err claim_refusal, db)
  unfolding claim
  claim-refused u h =
      execute_update-refused (can_be_claimed now) (set_claimed principal_id lease_end now)
        claim_refusal task_id db u
        (none_passes (can_be_claimed now) (set_claimed principal_id lease_end now) task_id _
          (λ r e c. h r e (IsClaimable-sound now r c)))

module _ (task_id principal_id : Str) (now : ℤ) (db : Database) where
  abbrev pub done_db : Database
  done_db = updated (is_held_by principal_id) (set_done now) holder_refusal task_id db

  -- The holder of a claimed task finishes it: the result is the task, done, and only its row is updated.
  -- Ids are unique.
  pub done-granted :
      UniqueIds db.tasks
      → (r : TaskRow) → find_task task_id db.tasks ≡ some r
      → IsHeldBy principal_id r
      → (done task_id principal_id now db ≡ (ok (from_row (set_done now r)), done_db))
        × OnlyTask task_id (set_done now r) db done_db
  unfolding done
  done-granted u r found c =
      let passes = held_complete principal_id r c in
      (
        execute_update-done (is_held_by principal_id) (set_done now) holder_refusal task_id db
            (λ _. refl) u r found passes,
        only_the_task (is_held_by principal_id) (set_done now) holder_refusal task_id db (λ _. refl)
            r found passes,
      )

  -- Whoever does not hold the task is refused, and the database stays as it is. Ids are unique.
  pub done-refused :
      UniqueIds db.tasks
      → ((r : TaskRow) → find_task task_id db.tasks ≡ some r → ¬ IsHeldBy principal_id r)
      → done task_id principal_id now db ≡ (err holder_refusal, db)
  unfolding done
  done-refused u h =
      execute_update-refused (is_held_by principal_id) (set_done now) holder_refusal task_id db u (
        none_passes (is_held_by principal_id) (set_done now) task_id _
          (λ r e c. h r e (held_sound principal_id r c)))

  abbrev pub released_db : Database
  released_db = updated (is_held_by principal_id) (set_released now) holder_refusal task_id db

  -- The holder of a claimed task opens it again: the result is the task, open, without holder and lease,
  -- and only its row is updated. Ids are unique.
  pub release-granted :
      UniqueIds db.tasks
      → (r : TaskRow) → find_task task_id db.tasks ≡ some r
      → IsHeldBy principal_id r
      → (release task_id principal_id now db ≡ (ok (from_row (set_released now r)), released_db))
        × OnlyTask task_id (set_released now r) db released_db
  unfolding release
  release-granted u r found c =
      let passes = held_complete principal_id r c in
      (
        execute_update-done (is_held_by principal_id) (set_released now) holder_refusal task_id db
            (λ _. refl) u r found passes,
        only_the_task (is_held_by principal_id) (set_released now) holder_refusal task_id db
            (λ _. refl) r found passes,
      )

  -- Whoever does not hold the task cannot release it, and the database stays as it is. Ids are unique.
  pub release-refused :
      UniqueIds db.tasks
      → ((r : TaskRow) → find_task task_id db.tasks ≡ some r → ¬ IsHeldBy principal_id r)
      → release task_id principal_id now db ≡ (err holder_refusal, db)
  unfolding release
  release-refused u h =
      execute_update-refused (is_held_by principal_id) (set_released now) holder_refusal task_id db
        u
        (none_passes (is_held_by principal_id) (set_released now) task_id _
          (λ r e c. h r e (held_sound principal_id r c)))
