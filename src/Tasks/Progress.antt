-- ===== src/Tasks/Progress.antt =====
-- No task of src/tasks.rs is stuck: whoever finds it claimable can see it through.
use aircd.Base.{
  ◌≡◌, refl, ap, ◌∙◌, true, some, [], ◌∷◌, Str, ℤ, add_i64, eq_refl, if◌then◌else◌, ◌==◌,
}
use aircd.Database.{Database, TaskRow}
use aircd.Tasks.{can_be_claimed}
use aircd.Tasks.Rows.{find_task}
use aircd.Tasks.Outcomes.{IsClaimable, claimable_complete}
use aircd.Tasks.Operations.{claims, finishes, IsValid}
use aircd.Tasks.Board.{held, finished, is_takeable, write_if, put}
use aircd.Tasks.Board
use aircd.Tasks.View.{row_lock, view, replies, found-RowIsValid, takeable}
use aircd.Tasks.Refinement.{replies_refine}

own_lock : {A : Type 0} (j : Str) (a b : A) → (if j == j then a else b) ≡ a
own_lock j a b = rw (eq_refl j) refl

module _ (lease : ℤ) (j p : Str) (now later : ℤ) (db : Database) where
  claims_it :
      IsValid db
      → (r : TaskRow) → find_task j db.tasks ≡ some r
      → IsClaimable now r
      → is_takeable now (view db j) ≡ true
  unfolding can_be_claimed
  claims_it v r found c =
      ap (λ o. is_takeable now (row_lock o)) found
      ∙ takeable now r.status r.claimed_by r.lease_expires_at
          (λ n. ((found-RowIsValid j db.tasks r v.rows found).1 n).0)
      ∙ claimable_complete now r c

  -- On a valid table a task that can be claimed (it is open, or its lease has run out, and it is not
  -- done) can be finished by any principal, at any later reading of the clock: the claim is granted
  -- until the end of the lease, and the report that the task is done is accepted.
  pub claimable_can_be_finished :
      IsValid db
      → (r : TaskRow) → find_task j db.tasks ≡ some r
      → IsClaimable now r
      → replies lease (claims j p now ∷ finishes j p later ∷ []) db
        ≡ some (held p (add_i64 now lease)) ∷ some finished ∷ []
  unfolding Board.run
  claimable_can_be_finished v r found c =
      replies_refine lease (claims j p now ∷ finishes j p later ∷ []) db v
      ∙ rw (claims_it v r found c)
          (rw (own_lock j (some (held p (add_i64 now lease))) (view db j), eq_refl p) refl)
