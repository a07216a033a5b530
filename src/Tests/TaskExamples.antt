-- ===== src/Tests/TaskExamples.antt =====
-- The theorems on tasks at a table with one open, one claimed and one finished task.
use aircd.Base.{
  ◌≡◌, ◌≢◌, refl, some, none, [], ◌∷◌, codes, find, Str-discrete, pos, ℤ, Str, add_i64, ok, err,
  ne_of_test, List, arith, inr, ◌⊎◌, Option, ◌+ℤ◌, select, update_where,
}
use aircd.Database.{Database, TaskRow, Status, opened, claimed, completed, empty}
use aircd.Tasks.{from_row, set_claimed, claim, done, release}
use aircd.Tasks.Rows.{find_task, UniqueIds}
use aircd.Tasks.Outcomes.{claim_refusal, holder_refusal, IsClaimable, IsHeldBy}
use aircd.Tasks.Decisions.{
  Missing, Grants, row_in_work, row_when_done, row_when_open, claim_decides, done_decides,
  release_decides,
}
use aircd.Tasks.View.{replies, view}
use aircd.Tasks.Board.{held}
use aircd.Tasks.Board
use aircd.Tasks.Refinement.{replies_refine}
use aircd.Tasks.Progress.{claimable_can_be_finished}
use aircd.Tasks.Operations.{Operation, creates, claims, finishes, releases, run, IsValid}
use aircd.Tasks.Lifecycle.{claim_excludes, lease_protects}

abbrev pub row : Str → Status → Option Str → Option ℤ → TaskRow
row id status holder lease = record {
  id = id;
  channel = codes "#work";
  title = codes "fix";
  status = status;
  claimed_by = holder;
  lease_expires_at = lease;
  created_at = pos 1;
  updated_at = pos 1;
}

abbrev pub free : TaskRow
free = row (codes "t1") opened none none

abbrev leased : TaskRow
leased = row (codes "t2") claimed (some (codes "agent-a")) (some (pos 400))

abbrev pub finished : TaskRow
finished = row (codes "t3") completed (some (codes "agent-b")) (some (pos 300))

abbrev pub board : Database
board = record empty { tasks = free ∷ leased ∷ finished ∷ [] }

pub board-UniqueIds : UniqueIds board.tasks
unfolding find Str-discrete codes
board-UniqueIds = (refl, (refl, (refl, tt)))

pub board-IsValid : IsValid board
board-IsValid = record {
  unique = board-UniqueIds;
  rows = (
    (λ _. (refl, refl), λ h. absurd (h refl)),
    (
      (λ h. cc, λ _. ((codes "agent-a", refl), (pos 400, refl))),
      ((λ h. cc, λ _. ((codes "agent-b", refl), (pos 300, refl))), tt),
    ),
  );
}

free_found : find_task (codes "t1") board.tasks ≡ some free
unfolding find Str-discrete codes
free_found = refl

leased_found : find_task (codes "t2") board.tasks ≡ some leased
unfolding find Str-discrete codes
leased_found = refl

pub finished_found : find_task (codes "t3") board.tasks ≡ some finished
unfolding find Str-discrete codes
finished_found = refl

claim_decides_example :
    ((r : TaskRow) × ((find_task (codes "t2") board.tasks ≡ some r) × IsClaimable (pos 401) r)
      × Grants
          (claim (pos 300) (codes "t2") (codes "agent-b") (pos 401) board)
          (codes "t2")
          (row_in_work (codes "agent-b") (add_i64 (pos 401) (pos 300)) (pos 401) r)
          board)
    ⊎ (Missing (IsClaimable (pos 401)) (find_task (codes "t2") board.tasks)
        × (claim (pos 300) (codes "t2") (codes "agent-b") (pos 401) board
            ≡ (err claim_refusal, board)))
claim_decides_example =
    claim_decides (pos 300) (codes "t2") (codes "agent-b") (pos 401) board board-UniqueIds

done_decides_example :
    ((r : TaskRow) × ((find_task (codes "t2") board.tasks ≡ some r) × IsHeldBy (codes "agent-a") r)
      × Grants
          (done (codes "t2") (codes "agent-a") (pos 350) board)
          (codes "t2")
          (row_when_done (pos 350) r)
          board)
    ⊎ (Missing (IsHeldBy (codes "agent-a")) (find_task (codes "t2") board.tasks)
        × (done (codes "t2") (codes "agent-a") (pos 350) board ≡ (err holder_refusal, board)))
done_decides_example = done_decides (codes "t2") (codes "agent-a") (pos 350) board board-UniqueIds

release_decides_example :
    ((r : TaskRow) × ((find_task (codes "t2") board.tasks ≡ some r) × IsHeldBy (codes "agent-a") r)
      × Grants
          (release (codes "t2") (codes "agent-a") (pos 350) board)
          (codes "t2")
          (row_when_open (pos 350) r)
          board)
    ⊎ (Missing (IsHeldBy (codes "agent-a")) (find_task (codes "t2") board.tasks)
        × (release (codes "t2") (codes "agent-a") (pos 350) board ≡ (err holder_refusal, board)))
release_decides_example =
    release_decides (codes "t2") (codes "agent-a") (pos 350) board board-UniqueIds

b_not_a : codes "agent-b" ≢ codes "agent-a"
unfolding codes Str-discrete
b_not_a = ne_of_test (codes "agent-b") (codes "agent-a") refl

abbrev meddling : List Operation
meddling =
    claims (codes "t2") (codes "agent-b") (pos 390)
    ∷ finishes (codes "t2") (codes "agent-b") (pos 391)
    ∷ creates (codes "#work") (codes "new") (codes "7") (pos 392)
    ∷ []

lease_protects_example : find_task (codes "t2") (run (pos 300) meddling board).tasks ≡ some leased
lease_protects_example =
    lease_protects (pos 300) meddling board (codes "t2") (codes "agent-a") (pos 400) leased
      leased_found refl refl refl (omega arith, (b_not_a, (tt, tt)))

free_claimed :
    (claim (pos 300) (codes "t1") (codes "agent-a") (pos 10) board).0
    ≡ ok (from_row (set_claimed (codes "agent-a") (pos 310) (pos 10) free))
unfolding claim select update_where find Str-discrete codes ◌+ℤ◌
free_claimed = refl

lease_of_300 : add_i64 (pos 10) (pos 300) ≡ pos 310
unfolding add_i64
lease_of_300 = refl

claim_excludes_example :
    claim (pos 300) (codes "t1") (codes "agent-b") (pos 300) (
      run
        (pos 300)
        (finishes (codes "t1") (codes "agent-b") (pos 20) ∷ [])
        (claim (pos 300) (codes "t1") (codes "agent-a") (pos 10) board).1)
    ≡ (
      err claim_refusal,
      run
          (pos 300)
          (finishes (codes "t1") (codes "agent-b") (pos 20) ∷ [])
          (claim (pos 300) (codes "t1") (codes "agent-a") (pos 10) board).1,
    )
claim_excludes_example =
    claim_excludes (pos 300) (codes "t1") (codes "agent-a") (codes "agent-b") (pos 10) (pos 300)
      board (finishes (codes "t1") (codes "agent-b") (pos 20) ∷ []) board-IsValid free_claimed
      (b_not_a, tt) (rw lease_of_300 (omega arith))

-- Each principal calls while the lease of the other runs, and after it.
abbrev race : List Operation
race =
    claims (codes "t2") (codes "agent-b") (pos 390)
    ∷ claims (codes "t2") (codes "agent-b") (pos 401)
    ∷ finishes (codes "t2") (codes "agent-a") (pos 402)
    ∷ releases (codes "t2") (codes "agent-b") (pos 403)
    ∷ claims (codes "t2") (codes "agent-a") (pos 404)
    ∷ finishes (codes "t2") (codes "agent-a") (pos 405)
    ∷ []

replies_refine_example : replies (pos 300) race board ≡ Board.run (pos 300) race (view board)
replies_refine_example = replies_refine (pos 300) race board board-IsValid

claimable_can_be_finished_example :
    replies
      (pos 300)
      (claims (codes "t2") (codes "agent-b") (pos 401)
        ∷ finishes (codes "t2") (codes "agent-b") (pos 900)
        ∷ [])
      board
    ≡ some (held (codes "agent-b") (add_i64 (pos 401) (pos 300))) ∷ some Board.finished ∷ []
claimable_can_be_finished_example =
    claimable_can_be_finished (pos 300) (codes "t2") (codes "agent-b") (pos 401) (pos 900) board
      board-IsValid leased leased_found ((λ h. cc), inr (inr (pos 400, refl, omega arith)))
