-- ===== src/Tasks/Board.antt =====
-- What src/tasks.rs promises, without rows and columns: a board of tasks, each free, held by a principal
-- until some time, or finished.
use aircd.Base.{
  Bool, true, false, Option, none, some, List, [], ◌∷◌, ◌++◌, Str, codes, ◌==◌, if◌then◌else◌, ℤ,
  ltb_ℤ, add_i64,
}
use aircd.Tasks.Operations.{Operation, creates, claims, finishes, releases}

pub data Lock : Type 0 where
  free : Lock
  held : Str → ℤ → Lock
  finished : Lock

abbrev pub Board : Type 0
Board = Str → Option Lock

abbrev pub put : Str → Lock → Board → Board
put task_id lock board j = if task_id == j then some lock else board j

-- A free task can be taken, and one whose holder's time is up.
abbrev pub is_takeable : ℤ → Option Lock → Bool
is_takeable now none = false
is_takeable now (some free) = true
is_takeable now (some (held p t)) = ltb_ℤ t now
is_takeable now (some finished) = false

abbrev pub holds_it : Str → Option Lock → Bool
holds_it p (some (held q t)) = q == p
holds_it p _ = false

abbrev pub is_new : Option Lock → Bool
is_new none = true
is_new (some l) = false

-- The reply is the new lock, or `none` for a refusal, which changes nothing.
abbrev pub write_if : Bool → Str → Lock → Board → Option Lock × Board
write_if true task_id lock board = (some lock, put task_id lock board)
write_if false task_id lock board = (none, board)

module _ (lease_seconds : ℤ) where
  abbrev pub step : Operation → Board → Option Lock × Board
  step (creates channel title uuid now) board =
      let task_id = codes "task_" ++ uuid in write_if (is_new (board task_id)) task_id free board
  step (claims task_id p now) board =
      write_if (is_takeable now (board task_id)) task_id (held p (add_i64 now lease_seconds)) board
  step (finishes task_id p now) board = write_if (holds_it p (board task_id)) task_id finished board
  step (releases task_id p now) board = write_if (holds_it p (board task_id)) task_id free board

  unfoldable pub run : List Operation → Board → List (Option Lock)
  run [] board = []
  run (op ∷ ops) board = let (reply, board') = step op board in reply ∷ run ops board'
