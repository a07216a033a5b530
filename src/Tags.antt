-- ===== src/Tags.antt =====
-- src/server.rs: channel names and IRCv3 message tags.
pub mod Escaping
use aircd.Base.{ℕ, Bool, List, [], ◌∷◌, ◌++◌, map, Str, codes, eqb, if◌then◌else◌, is_empty, ℤ}
use aircd.Strings.{starts_with, trim, join}
use aircd.Strings.Numbers.{show_i64}

-- the text behind the `trim`
unfoldable pub channel_name : Str → Str
channel_name channel =
    if starts_with (b'#' ∷ []) channel
    then channel
    else if is_empty channel
    then codes "#demo"
    else b'#' ∷ channel

unfoldable pub normalize_channel : Str → Str
unfolding channel_name
normalize_channel channel = channel_name (trim channel)

-- what one round of the loop pushes
unfoldable pub escape_char : ℕ → Str
escape_char c =
    if eqb c b';'
    then b'\\' ∷ b':' ∷ []
    else if eqb c b' '
    then b'\\' ∷ b's' ∷ []
    else if eqb c b'\\'
    then b'\\' ∷ b'\\' ∷ []
    else if eqb c 0xd
    then b'\\' ∷ b'r' ∷ []
    else if eqb c 0xa
    then b'\\' ∷ b'n' ∷ []
    else c ∷ []

unfoldable pub escape_tag_value : Str → Str
unfolding escape_char
escape_tag_value [] = []
escape_tag_value (c ∷ value) = escape_char c ++ escape_tag_value value

unfoldable pub format_tag : Str × Str → Str
unfolding escape_tag_value
format_tag (key, value) = key ++ b'=' ∷ escape_tag_value value

unfoldable pub format_message_tags : List (Str × Str) → Str
unfolding format_tag
format_message_tags tags = b'@' ∷ join (b';' ∷ []) (map format_tag tags)

unfoldable pub metadata_tags : ℤ → Str → ℤ → Bool → Str
unfolding format_message_tags
metadata_tags seq msg_id created_at replay = format_message_tags (
    (codes "seq", show_i64 seq)
    ∷ (codes "msg-id", msg_id)
    ∷ (codes "time", show_i64 created_at)
    ∷ (if replay then (codes "replay", codes "1") ∷ [] else []))

unfoldable pub task_failure_tags : Str → Str → Str → Str
unfolding format_message_tags
task_failure_tags action task_id actor = format_message_tags (
    (codes "task-id", task_id)
    ∷ (codes "task-action", action)
    ∷ (codes "task-status", codes "failed")
    ∷ (codes "task-actor", actor)
    ∷ [])
