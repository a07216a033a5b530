-- ===== src/Tasks/Rows.antt =====
-- The task table as a map from task ids: what an UPDATE of one task does to every lookup, and how many
-- rows it changes.
use aircd.Base.{
  ◌≡◌, refl, Bool, false, ◌&&◌, Option, none, some, List, [], ◌∷◌, ◌++◌, Str, ◌==◌, eqb,
  if◌then◌else◌, length, any, find, select, update_where, arith, ap, subst, Str-discrete,
}
use aircd.Database.{TaskRow}

abbrev pub find_task : Str → List TaskRow → Option TaskRow
find_task task_id rows = find (λ r. r.id == task_id) rows

-- The primary key: no two rows have one id.
abbrev pub UniqueIds : List TaskRow → Type 0
UniqueIds [] = Unit
UniqueIds (r ∷ rows) = (find_task r.id rows ≡ none) × UniqueIds rows

abbrev pub found_or : Str → Str → TaskRow → Option TaskRow → Option TaskRow
found_or id j row none = if id == j then some row else none
found_or id j row (some r) = some r

module _ (task_id : Str) (q : TaskRow → Bool) (f : TaskRow → TaskRow) where
  abbrev pub matches : TaskRow → Bool
  matches r = r.id == task_id && q r

  abbrev pub changed_row : Option TaskRow → Option TaskRow
  changed_row none = none
  changed_row (some r) = if q r then some (f r) else some r

  abbrev pub count_of : Option TaskRow → Bool
  count_of none = false
  count_of (some r) = q r

  select-none : (rows : List TaskRow) → find_task task_id rows ≡ none → select matches rows ≡ []
  unfolding find select
  select-none [] h = refl
  select-none (r ∷ rows) h = ground (arith, select-none rows)

  -- Exactly one row is changed if the task is there and passes the test, and none otherwise.
  pub changed_count :
      (rows : List TaskRow)
      → UniqueIds rows
      → eqb (length (select matches rows)) 1 ≡ count_of (find_task task_id rows)
  unfolding find select
  changed_count [] u = refl
  changed_count (r ∷ rows) (fresh, u) = elim (Str-discrete r.id task_id) [
    | yes e ↦
        let absent = select-none rows (subst (λ i. find_task i rows ≡ none) e fresh) in
        ground (arith, ap length absent)
    | no n ↦ ground (arith, changed_count rows u)
  ]

  pub update_where-none :
      (rows : List TaskRow)
      → UniqueIds rows
      → count_of (find_task task_id rows) ≡ false
      → update_where matches f rows ≡ rows
  unfolding find update_where
  update_where-none [] u h = refl
  update_where-none (r ∷ rows) (fresh, u) h = elim (Str-discrete r.id task_id) [
    | yes e ↦
        let absent = ap count_of (subst (λ i. find_task i rows ≡ none) e fresh) in
        ground (arith, update_where-none rows u absent)
    | no n ↦ ground (arith, update_where-none rows u)
  ]

  module _ (keep : (r : TaskRow) → (f r).id ≡ r.id) where
    -- Every later lookup, of this task or another.
    pub find-update_where :
        (j : Str) (rows : List TaskRow)
        → find_task j (update_where matches f rows)
          ≡ (if task_id == j then changed_row (find_task task_id rows) else find_task j rows)
    unfolding find update_where
    find-update_where j [] = ground arith
    find-update_where j (r ∷ rows) = ground (arith, keep r, find-update_where j rows)

    pub update_where-UniqueIds :
        (rows : List TaskRow) → UniqueIds rows → UniqueIds (update_where matches f rows)
    unfolding update_where
    update_where-UniqueIds [] u = tt
    update_where-UniqueIds (r ∷ rows) (fresh, u) =
        (ground (arith, keep r, fresh, find-update_where r.id rows), update_where-UniqueIds rows u)

-- A row that is inserted is found behind all others.
pub find-append :
    (j : Str) (row : TaskRow) (rows : List TaskRow)
    → find_task j (rows ++ row ∷ []) ≡ found_or row.id j row (find_task j rows)
unfolding find
find-append j row [] = ground arith
find-append j row (r ∷ rows) = ground (arith, find-append j row rows)

pub append-UniqueIds :
    (row : TaskRow) (rows : List TaskRow)
    → find_task row.id rows ≡ none
    → UniqueIds rows
    → UniqueIds (rows ++ row ∷ [])
unfolding find
append-UniqueIds row [] h u = (refl, tt)
append-UniqueIds row (r ∷ rows) h (fresh, u) =
    (ground (arith, find-append r.id row rows), append-UniqueIds row rows (ground arith) u)

-- The test of the UNIQUE constraint.
pub any-find :
    (j : Str) (rows : List TaskRow) → any (λ r. r.id == j) rows ≡ false → find_task j rows ≡ none
unfolding find
any-find j [] h = refl
any-find j (r ∷ rows) h = ground (arith, any-find j rows)
