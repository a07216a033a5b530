-- ===== src/Tasks/Lifecycle.antt =====
-- Sequences of task operations, in any order and by any principals: what a lease protects, and what is
-- final.
use aircd.Base.{
  ◌≡◌, ◌≢◌, inl, inr, refl, Bool, false, some, List, [], ◌∷◌, ◌++◌, Str, codes, ◌==◌, All, any,
  All-map, ℤ, ◌≤ℤ◌, ok, err, arith, Bool-cases, add_i64, ap, ◌∙◌,
}
use aircd.Database.{Database, claimed, completed, TaskRow}
use aircd.Tasks.{
  Task, execute_update, can_be_claimed, set_claimed, claim, is_held_by, done, release, create,
  new_task,
}
use aircd.Tasks.Outcomes.{claim_refusal, holder_refusal, IsClaimable, claim-refused}
use aircd.Tasks.Rows.{find_task, find-update_where, find-append}
use aircd.Tasks.Decisions.{claim_decides}
use aircd.Tasks.Operations.{
  Operation, creates, claims, finishes, releases, apply, run, IsValid, claim-IsValid, run-IsValid,
}

module _ (j : Str) (r : TaskRow) where
  update_keeps :
      (q : TaskRow → Bool) (f : TaskRow → TaskRow) (refusal task_id : Str) (db : Database)
      → ((r : TaskRow) → (f r).id ≡ r.id)
      → find_task j db.tasks ≡ some r
      → (task_id ≡ j → q r ≡ false)
      → find_task j (execute_update q f refusal task_id db).1.tasks ≡ some r
  unfolding execute_update
  update_keeps q f refusal task_id db keep found fails =
      ground (arith, find-update_where task_id q f keep j db.tasks, fails, found)

  create_keeps :
      (channel title uuid : Str) (now : ℤ) (db : Database)
      → find_task j db.tasks ≡ some r
      → find_task j (create channel title uuid now db).1.tasks ≡ some r
  unfolding create
  create_keeps channel title uuid now db found =
      elim (Bool-cases (any (λ r. r.id == codes "task_" ++ uuid) db.tasks)) [
        | inl taken ↦ rw taken found
        | inr fresh ↦ rw (fresh, find-append j (new_task channel title uuid now) db.tasks, found)
      ]

  -- The operation, if it is made on the row, fails its test.
  abbrev pub Leaves : Operation → Type 0
  Leaves (creates _ _ _ _) = Unit
  Leaves (claims _ _ now) = can_be_claimed now r ≡ false
  Leaves (finishes _ p _) = is_held_by p r ≡ false
  Leaves (releases _ p _) = is_held_by p r ≡ false

  apply_keeps :
      (lease : ℤ) (op : Operation) (db : Database)
      → Leaves op
      → find_task j db.tasks ≡ some r
      → find_task j (apply lease op db).tasks ≡ some r
  unfolding apply claim done release
  apply_keeps lease (creates channel title uuid now) db _ found =
      create_keeps channel title uuid now db found
  apply_keeps lease (claims task_id p now) db h found =
      update_keeps (can_be_claimed now) _ claim_refusal task_id db (λ _. refl) found (λ _. h)
  apply_keeps lease (finishes task_id p now) db h found =
      update_keeps (is_held_by p) _ holder_refusal task_id db (λ _. refl) found (λ _. h)
  apply_keeps lease (releases task_id p now) db h found =
      update_keeps (is_held_by p) _ holder_refusal task_id db (λ _. refl) found (λ _. h)

  run_keeps :
      (lease : ℤ) (ops : List Operation) (db : Database)
      → All Leaves ops
      → find_task j db.tasks ≡ some r
      → find_task j (run lease ops db).tasks ≡ some r
  unfolding run
  run_keeps lease [] db h found = found
  run_keeps lease (op ∷ ops) db (h, hs) found =
      run_keeps lease ops (apply lease op db) hs (apply_keeps lease op db h found)

completed-Leaves : (j : Str) (r : TaskRow) → r.status ≡ completed → (op : Operation) → Leaves j r op
unfolding can_be_claimed is_held_by
completed-Leaves j r h (creates _ _ _ _) = tt
completed-Leaves j r h (claims _ _ now) = ground arith
completed-Leaves j r h (finishes _ p _) = ground arith
completed-Leaves j r h (releases _ p _) = ground arith

-- A finished task is final: no sequence of operations changes its row.
pub done_is_final :
    (lease : ℤ) (ops : List Operation) (db : Database) (j : Str) (r : TaskRow)
    → find_task j db.tasks ≡ some r
    → r.status ≡ completed
    → find_task j (run lease ops db).tasks ≡ some r
done_is_final lease ops db j r found h = run_keeps j r lease ops db (every ops) found
  where
    every : (ops : List Operation) → All (Leaves j r) ops
    every [] = tt
    every (op ∷ ops) = (completed-Leaves j r h op, every ops)

-- The operation does not come from the holder, unless it is a claim, and is made before the lease ends.
abbrev pub IsOutside : Str → ℤ → Operation → Type 0
IsOutside holder lease_end (creates _ _ _ _) = Unit
IsOutside holder lease_end (claims _ _ now) = now ≤ℤ lease_end
IsOutside holder lease_end (finishes _ p _) = p ≢ holder
IsOutside holder lease_end (releases _ p _) = p ≢ holder

outside-Leaves :
    (j holder : Str) (lease_end : ℤ) (r : TaskRow)
    → r.status ≡ claimed
    → r.claimed_by ≡ some holder
    → r.lease_expires_at ≡ some lease_end
    → (op : Operation) → IsOutside holder lease_end op
    → Leaves j r op
unfolding can_be_claimed is_held_by
outside-Leaves j holder t r s c l (creates _ _ _ _) h = tt
outside-Leaves j holder t r s c l (claims _ _ now) h = ground arith
outside-Leaves j holder t r s c l (finishes _ p _) h = ground (arith, h)
outside-Leaves j holder t r s c l (releases _ p _) h = ground (arith, h)

-- While a lease runs, nobody but the holder changes the task: not by claiming it (the holder neither),
-- finishing or releasing it, and not by any sequence of such operations on this and other tasks.
pub lease_protects :
    (lease : ℤ) (ops : List Operation) (db : Database) (j holder : Str) (lease_end : ℤ)
    (r : TaskRow)
    → find_task j db.tasks ≡ some r
    → r.status ≡ claimed
    → r.claimed_by ≡ some holder
    → r.lease_expires_at ≡ some lease_end
    → All (IsOutside holder lease_end) ops
    → find_task j (run lease ops db).tasks ≡ some r
lease_protects lease ops db j holder t r found s c l hs =
    run_keeps j r lease ops db
      (All-map (IsOutside holder t) (Leaves j r) (outside-Leaves j holder t r s c l) ops hs) found

module _ (lease : ℤ) (j p : Str) (now : ℤ) (db : Database) where
  -- The row of the task behind a successful claim.
  pub claimed_row :
      {t : Task}
      → IsValid db
      → (claim lease j p now db).0 ≡ ok t
      → (r : TaskRow) × (find_task j (claim lease j p now db).1.tasks
          ≡ some (set_claimed p (add_i64 now lease) now r))
  claimed_row v granted = elim (claim_decides lease j p now db v.unique) [
    | inl (r, _, (_, claims_it, only, _)) ↦
        (r, ap (λ c. find_task j c.1.tasks) claims_it ∙ ground (arith, only j))
    | inr (_, refused) ↦ absurd (cc (refused, granted))
  ]

pub still_leased :
    (p : Str) (t now later : ℤ) (r r' : TaskRow)
    → later ≤ℤ t
    → r' ≡ set_claimed p t now r
    → ¬ IsClaimable later r'
still_leased p t now later r r' early e c =
    ground (arith, ap (λ (x : TaskRow). x.status) e, ap (λ (x : TaskRow). x.lease_expires_at) e)

-- Of two principals that race for a task one gets it: behind a successful claim every claim that is
-- made before the lease ends is refused and changes nothing, whoever makes it, also when other
-- operations that do not come from the holder are made in between.
pub claim_excludes :
    (lease : ℤ) (j p q : Str) (now later : ℤ) (db : Database) (ops : List Operation) {t : Task}
    → IsValid db
    → (claim lease j p now db).0 ≡ ok t
    → All (IsOutside p (add_i64 now lease)) ops
    → later ≤ℤ add_i64 now lease
    → claim lease j q later (run lease ops (claim lease j p now db).1)
      ≡ (err claim_refusal, run lease ops (claim lease j p now db).1)
claim_excludes lease j p q now later db ops v granted outside early =
    let (r, found) = claimed_row lease j p now db v granted in
    let won = (claim lease j p now db).1 in
    let kept =
      lease_protects lease ops won j p (add_i64 now lease) (set_claimed p (add_i64 now lease) now r)
        found refl refl refl outside in
    claim-refused lease j q later (run lease ops won)
      (run-IsValid lease ops won (claim-IsValid lease j p now db v)).unique
      (λ r' e c. still_leased p (add_i64 now lease) now later r r' early (cc (kept, e)) c)
