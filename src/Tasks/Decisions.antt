-- ===== src/Tasks/Decisions.antt =====
-- What `claim`, `done` and `release` decide, at every table: granted or refused.
use mathlib.Core.Option.{none-ne-some, some-injective}
use aircd.Base.{
  ◌≡◌, ◌⊎◌, inl, inr, refl, Bool, true, false, Option, none, some, Str, ℤ, ok, err, Bool-cases,
  Result, add_i64, arith,
}
use aircd.Database.{Database, TaskRow, opened, claimed, completed}
use aircd.Tasks.{Task, can_be_claimed, is_held_by, claim, done, release}
use aircd.Tasks.Rows.{find_task, UniqueIds}
use aircd.Tasks.Outcomes.{
  claim_refusal, holder_refusal, OnlyTask, IsClaimable, IsClaimable-sound, claimable_complete,
  IsHeldBy, held_sound, held_complete, claim-granted, claim-refused, done-granted, done-refused,
  release-granted, release-refused,
}

-- No row is found that satisfies `P`.
abbrev pub Missing : (TaskRow → Type 0) → Option TaskRow → Type 0
Missing P o = (r : TaskRow) → o ≡ some r → ¬ P r

module _ (P : TaskRow → Type 0) (q : TaskRow → Bool) (sound : (r : TaskRow) → q r ≡ true → P r)
    (complete : (r : TaskRow) → P r → q r ≡ true) where
  fails_or_passes : {r : TaskRow} (s : TaskRow) → r ≡ s → q r ≡ false → ¬ P s
  fails_or_passes s e fails p = ground (arith, complete s p)

  found_or_Missing : (o : Option TaskRow) → ((r : TaskRow) × (o ≡ some r) × P r) ⊎ Missing P o
  found_or_Missing none = inr (λ r e p. none-ne-some _ e)
  found_or_Missing (some r) = elim (Bool-cases (q r)) [
    | inl passes ↦ inl (r, refl, sound r passes)
    | inr fails ↦ inr (λ s e p. absurd (fails_or_passes s (some-injective _ _ e) fails p))
  ]

-- The task that a row tells of.
abbrev pub told_task : TaskRow → Task
told_task r = record {
  id = r.id;
  channel = r.channel;
  title = r.title;
  status = r.status;
  claimed_by = r.claimed_by;
  lease_expires_at = r.lease_expires_at;
}

-- The operation succeeds: its result is the task of this row, every later lookup finds this row for the
-- task and the same rows as before for the others, and no other table changes.
abbrev pub Grants : Result Task × Database → Str → TaskRow → Database → Type 0
Grants outcome task_id row db =
    (db' : Database) × (outcome ≡ (ok (told_task row), db'))
    × OnlyTask task_id row db db'
    × (db' ≡ record db { tasks = db'.tasks })

-- The row of a task that the principal has claimed until the end of the lease.
abbrev pub row_in_work : Str → ℤ → ℤ → TaskRow → TaskRow
row_in_work principal_id lease_end now r = record {
  id = r.id;
  channel = r.channel;
  title = r.title;
  status = claimed;
  claimed_by = some principal_id;
  lease_expires_at = some lease_end;
  created_at = r.created_at;
  updated_at = now;
}

-- The row of a task that is done, with the holder and the lease that it had.
abbrev pub row_when_done : ℤ → TaskRow → TaskRow
row_when_done now r = record {
  id = r.id;
  channel = r.channel;
  title = r.title;
  status = completed;
  claimed_by = r.claimed_by;
  lease_expires_at = r.lease_expires_at;
  created_at = r.created_at;
  updated_at = now;
}

-- The row of a task that nobody holds.
abbrev pub row_when_open : ℤ → TaskRow → TaskRow
row_when_open now r = record {
  id = r.id;
  channel = r.channel;
  title = r.title;
  status = opened;
  claimed_by = none;
  lease_expires_at = none;
  created_at = r.created_at;
  updated_at = now;
}

module _ (lease_seconds : ℤ) (task_id principal_id : Str) (now : ℤ) (db : Database) where
  -- A claim is granted if the task is there and can be claimed (it is not done, and is open or has no
  -- lease or an expired one): in the result and in the new row the task is claimed, by the principal
  -- and until the end of the lease, the other fields but the time of the update are those of the old
  -- row, and nothing else in the database changes. In every other case the claim is refused and the
  -- database stays as it is. Ids are unique.
  pub claim_decides :
      UniqueIds db.tasks
      → ((r : TaskRow) × ((find_task task_id db.tasks ≡ some r) × IsClaimable now r)
          × Grants
              (claim lease_seconds task_id principal_id now db)
              task_id
              (row_in_work principal_id (add_i64 now lease_seconds) now r)
              db)
        ⊎ (Missing (IsClaimable now) (find_task task_id db.tasks)
            × (claim lease_seconds task_id principal_id now db ≡ (err claim_refusal, db)))
  claim_decides u =
      elim (found_or_Missing (IsClaimable now) (can_be_claimed now) (IsClaimable-sound now)
        (claimable_complete now) (find_task task_id db.tasks)) [
          | inl (r, found, c) ↦
              let (granted, only) =
                claim-granted lease_seconds task_id principal_id now db u r found c in
              inl (r, (found, c), (_, granted, only, refl))
          | inr missing ↦
              inr (missing, claim-refused lease_seconds task_id principal_id now db u missing)
        ]

module _ (task_id principal_id : Str) (now : ℤ) (db : Database) where
  -- The task is finished if the principal holds it: in the result and in the new row it is done, the
  -- other fields but the time of the update are those of the old row, the holder and the lease
  -- included, and nothing else in the database changes. In every other case the principal is refused
  -- and the database stays as it is. Ids are unique.
  pub done_decides :
      UniqueIds db.tasks
      → ((r : TaskRow) × ((find_task task_id db.tasks ≡ some r) × IsHeldBy principal_id r)
          × Grants (done task_id principal_id now db) task_id (row_when_done now r) db)
        ⊎ (Missing (IsHeldBy principal_id) (find_task task_id db.tasks)
            × (done task_id principal_id now db ≡ (err holder_refusal, db)))
  done_decides u =
      elim (found_or_Missing (IsHeldBy principal_id) (is_held_by principal_id)
        (held_sound principal_id) (held_complete principal_id) (find_task task_id db.tasks)) [
          | inl (r, found, c) ↦
              let (granted, only) = done-granted task_id principal_id now db u r found c in
              inl (r, (found, c), (_, granted, only, refl))
          | inr missing ↦ inr (missing, done-refused task_id principal_id now db u missing)
        ]

  -- The task is opened again if the principal holds it: in the result and in the new row it is open,
  -- without holder and lease, the other fields but the time of the update are those of the old row,
  -- and nothing else in the database changes. In every other case the principal is refused and the
  -- database stays as it is. Ids are unique.
  pub release_decides :
      UniqueIds db.tasks
      → ((r : TaskRow) × ((find_task task_id db.tasks ≡ some r) × IsHeldBy principal_id r)
          × Grants (release task_id principal_id now db) task_id (row_when_open now r) db)
        ⊎ (Missing (IsHeldBy principal_id) (find_task task_id db.tasks)
            × (release task_id principal_id now db ≡ (err holder_refusal, db)))
  release_decides u =
      elim (found_or_Missing (IsHeldBy principal_id) (is_held_by principal_id)
        (held_sound principal_id) (held_complete principal_id) (find_task task_id db.tasks)) [
          | inl (r, found, c) ↦
              let (granted, only) = release-granted task_id principal_id now db u r found c in
              inl (r, (found, c), (_, granted, only, refl))
          | inr missing ↦ inr (missing, release-refused task_id principal_id now db u missing)
        ]
