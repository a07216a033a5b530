-- ===== src/Protocol.antt =====
-- src/protocol.rs: one line from a client as a command.
pub mod Lines
pub mod Client
pub mod Understood
pub mod Bounds
pub mod Stream
use aircd.Base.{
  ℕ, Bool, false, Option, none, some, List, [], ◌∷◌, ◌++◌, Str, codes, ◌==◌, if◌then◌else◌,
  get_elem?, drop, ℤ, pos,
}
use aircd.Strings.{
  to_ascii_uppercase, eq_ignore_ascii_case, starts_with, split_once, trim, split_whitespace, join,
}
use aircd.Strings.Numbers.{parse_i64}

pub data Command : Type 0 where
  pass nick user join_channel part : Str → Command
  privmsg : Str → Str → Command
  ping : Str → Command
  pong quit : Command
  cap_negotiation : Str → List Str → Command
  history : Option Str → ℤ → ℤ → Command
  task_create : Str → Str → Command
  task_claim task_done task_release task_list : Str → Command
  unknown : Str → Command

-- `line.split_once(' ').map(|(_, rest)| rest).unwrap_or(line)`
abbrev pub second_or : Str → Option (Str × Str) → Str
second_or line none = line
second_or line (some (_, rest)) = rest

unfoldable pub behind_space : Str → Str
behind_space line = second_or line (split_once (codes " ") line)

unfoldable pub strip_tags_and_prefix : Str → Str
unfolding behind_space
strip_tags_and_prefix line =
    let without_tags = if starts_with (codes "@") line then behind_space line else line in
    if starts_with (codes ":") without_tags then behind_space without_tags else without_tags

abbrev pub head_and_trailing : Str → Option (Str × Str) → Str × Option Str
head_and_trailing line none = (line, none)
head_and_trailing line (some (head, trailing)) = (head, some trailing)

unfoldable pub split_trailing : Str → Str × Option Str
split_trailing line = head_and_trailing line (split_once (codes " :") line)

-- `parts.next()`, and what the iterator holds behind it
abbrev pub next_or : Str → List Str → Str
next_or d [] = d
next_or d (w ∷ ws) = w

abbrev pub rest : List Str → List Str
rest [] = []
rest (w ∷ ws) = ws

abbrev pub unwrap_or {ℓ} : {A : Type ℓ} → Option A → A → A
unwrap_or none d = d
unwrap_or (some a) d = a

-- `parts.get(i).copied().unwrap_or(d)`
abbrev pub get_or : List Str → ℕ → Str → Str
get_or parts i d = unwrap_or (get_elem? parts i) d

-- `text.parse().unwrap_or(d)` at `i64`
unfoldable pub parse_or : Str → ℕ → ℤ
parse_or text d = unwrap_or (parse_i64 text) (pos d)

abbrev pub is_some_and {ℓ} : {A : Type ℓ} → Option A → (A → Bool) → Bool
is_some_and none p = false
is_some_and (some a) p = p a

unfoldable pub parse_chathistory : List Str → Command
parse_chathistory parts =
    if is_some_and (get_elem? parts 0) (λ part. eq_ignore_ascii_case part (codes "AFTER"))
    then (if is_some_and (get_elem? parts 1) (starts_with (codes "#"))
        then history (get_elem? parts 1) (parse_or (get_or parts 2 (codes "0")) 0)
            (parse_or (get_or parts 3 (codes "100")) 100)
        else history none (parse_or (get_or parts 1 (codes "0")) 0)
            (parse_or (get_or parts 2 (codes "100")) 100))
    else history (get_elem? parts 0) (parse_or (get_or parts 1 (codes "0")) 0)
        (parse_or (get_or parts 2 (codes "100")) 100)

-- the `match` on the action, for a command with at least one part
unfoldable pub task_command : Str → List Str → Option Str → Command
task_command action parts trailing =
    if action == codes "CREATE"
    then task_create (get_or parts 1 []) (unwrap_or trailing (join (codes " ") (drop 2 parts)))
    else if action == codes "CLAIM"
    then task_claim (get_or parts 1 [])
    else if action == codes "DONE"
    then task_done (get_or parts 1 [])
    else if action == codes "RELEASE"
    then task_release (get_or parts 1 [])
    else if action == codes "LIST"
    then task_list (get_or parts 1 [])
    else unknown (codes "TASK " ++ action)

unfoldable pub parse_task : List Str → Option Str → Command
unfolding task_command
parse_task [] trailing = unknown (codes "TASK")
parse_task (action ∷ parts) trailing =
    task_command (to_ascii_uppercase action) (action ∷ parts) trailing

-- the `match` on the verb; `parts` is what the iterator holds behind the verb
unfoldable pub dispatch : Str → List Str → Option Str → Command
unfolding parse_chathistory parse_task
dispatch verb parts trailing =
    let text = unwrap_or trailing (join (codes " ") parts) in
    let text_behind = unwrap_or trailing (join (codes " ") (rest parts)) in
    if verb == codes "PASS"
    then pass (join (codes " ") parts)
    else if verb == codes "NICK"
    then nick (next_or [] parts)
    else if verb == codes "USER"
    then user (next_or [] parts)
    else if verb == codes "JOIN"
    then join_channel (next_or [] parts)
    else if verb == codes "PART"
    then part (next_or [] parts)
    else if verb == codes "PRIVMSG"
    then privmsg (next_or [] parts) text_behind
    else if verb == codes "PING"
    then ping text
    else if verb == codes "PONG"
    then pong
    else if verb == codes "QUIT"
    then quit
    else if verb == codes "CAP"
    then cap_negotiation (to_ascii_uppercase (next_or [] parts)) (split_whitespace text_behind)
    else if verb == codes "CHATHISTORY"
    then parse_chathistory parts
    else if verb == codes "HISTORY"
    then history (some (next_or [] parts)) (parse_or (next_or (codes "0") (rest parts)) 0)
        (parse_or (next_or (codes "100") (rest (rest parts))) 100)
    else if verb == codes "TASK"
    then parse_task parts trailing
    else unknown verb

unfoldable pub parse_parts : List Str → Option Str → Command
unfolding dispatch
parse_parts parts trailing = dispatch (to_ascii_uppercase (next_or [] parts)) (rest parts) trailing

unfoldable pub parse_command : Str → Command
unfolding parse_parts strip_tags_and_prefix split_trailing
parse_command line =
    let (head, trailing) = split_trailing (strip_tags_and_prefix (trim line)) in
    parse_parts (split_whitespace head) trailing
