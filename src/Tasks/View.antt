-- ===== src/Tasks/View.antt =====
-- The board that a task table of src/tasks.rs holds, and the statements' tests on its rows.
use mathlib.Core.Option.{some-injective, none-ne-some}
use aircd.Base.{
  not, ◌&&◌, ◌||◌, ◌≢◌, is_null, subst, ◌≡◌, refl, Bool, true, Bool-cases, inl, inr, Option, none,
  some, List, [], ◌∷◌, Str, ◌==◌, All, find, ℤ, Result, ok, err, arith,
}
use aircd.Database.{Database, Status, opened, claimed, completed, TaskRow}
use aircd.Tasks.{Task, create, claim, done, release, is_done, is_open, before, is_text, is_claimed}
use aircd.Tasks.Rows.{count_of, find_task}
use aircd.Tasks.Operations.{Operation, creates, claims, finishes, releases, apply, RowIsValid}
use aircd.Tasks.Board.{Lock, free, held, finished, Board, is_takeable, holds_it}

abbrev pub lock_of : Status → Option Str → Option ℤ → Lock
lock_of opened p t = free
lock_of claimed (some p) (some t) = held p t
lock_of claimed (some p) none = free
lock_of claimed none t = free
lock_of completed p t = finished

abbrev pub row_lock : Option TaskRow → Option Lock
row_lock none = none
row_lock (some r) = some (lock_of r.status r.claimed_by r.lease_expires_at)

abbrev pub view : Database → Board
view db j = row_lock (find_task j db.tasks)

-- what a caller is told
abbrev pub reply_of : Result Task → Option Lock
reply_of (ok t) = some (lock_of t.status t.claimed_by t.lease_expires_at)
reply_of (err e) = none

module _ (lease_seconds : ℤ) where
  abbrev pub reply : Operation → Database → Option Lock
  reply (creates channel title uuid now) db = reply_of (create channel title uuid now db).0
  reply (claims task_id p now) db = reply_of (claim lease_seconds task_id p now db).0
  reply (finishes task_id p now) db = reply_of (done task_id p now db).0
  reply (releases task_id p now) db = reply_of (release task_id p now db).0

  unfoldable pub replies : List Operation → Database → List (Option Lock)
  replies [] db = []
  replies (op ∷ ops) db = reply op db ∷ replies ops (apply lease_seconds op db)

-- the rows that a lookup yields are valid
pub found-RowIsValid :
    (j : Str) (rows : List TaskRow) (r : TaskRow)
    → All RowIsValid rows
    → find_task j rows ≡ some r
    → RowIsValid r
unfolding find
found-RowIsValid j [] r v h = cc
found-RowIsValid j (x ∷ rows) r (vx, v) h = elim (Bool-cases (x.id == j)) [
  | inl e ↦ subst RowIsValid (some-injective _ _ (rw e at h)) vx
  | inr e ↦ found-RowIsValid j rows r v (rw e at h)
]

-- The tests of the statements against those of the board, on a row's columns.
pub takeable :
    (now : ℤ) (s : Status) (c : Option Str) (l : Option ℤ)
    → (s ≢ opened → (p : Str) × (c ≡ some p))
    → is_takeable now (some (lock_of s c l))
      ≡ (not (is_done s) && (is_open s || is_null l || before l now))
takeable now opened c l h = refl
takeable now claimed (some p) (some t) h = refl
takeable now claimed (some p) none h = refl
takeable now claimed none l h = absurd (none-ne-some _ (h (λ e. cc)).1)
takeable now completed c l h = refl

pub holding :
    (p : Str) (s : Status) (c : Option Str) (l : Option ℤ)
    → (s ≢ opened → (t : ℤ) × (l ≡ some t))
    → holds_it p (some (lock_of s c l)) ≡ (is_text c p && is_claimed s)
holding p opened c l h = ground arith
holding p claimed (some q) (some t) h = ground arith
holding p claimed (some q) none h = absurd (none-ne-some _ (h (λ e. cc)).1)
holding p claimed none l h = refl
holding p completed c l h = ground arith

pub counted :
    (task_id : Str) (q : TaskRow → Bool) (f : TaskRow → TaskRow) (o : Option TaskRow)
    → count_of task_id q f o ≡ true
    → (r : TaskRow) × (o ≡ some r) × (q r ≡ true)
counted task_id q f none h = absurd (cc h)
counted task_id q f (some r) h = (r, refl, h)
