-- ===== src/Tests/Parsing.antt =====
-- The unit tests of src/protocol.rs, src/tokens.rs and the tag functions of src/server.rs.
use aircd.Base.{◌≡◌, refl, true, none, some, [], ◌∷◌, codes, Str-discrete, pos}
use aircd.Protocol.{privmsg, task_create, history, cap_negotiation, parse_command}
use aircd.Tokens
use aircd.Tags.{metadata_tags, escape_tag_value}
use aircd.Strings.{split_once, trim, split_whitespace, starts_with, to_ascii_uppercase, join}
use aircd.Strings.{eq_ignore_ascii_case, strip_prefix}
use aircd.Strings.Numbers.{parse_i64, show_i64}
use aircd.Protocol.{parse_or}

parses_privmsg_with_trailing_body :
    parse_command (codes "PRIVMSG #demo :hello world")
    ≡ privmsg (codes "#demo") (codes "hello world")
unfolding parse_command codes Str-discrete split_once trim split_whitespace starts_with
    to_ascii_uppercase
parses_privmsg_with_trailing_body = refl

parses_task_create :
    parse_command (codes "TASK CREATE #demo :fix flaky test")
    ≡ task_create (codes "#demo") (codes "fix flaky test")
unfolding parse_command codes Str-discrete split_once trim split_whitespace starts_with
    to_ascii_uppercase
parses_task_create = refl

parses_chathistory_after :
    parse_command (codes "CHATHISTORY AFTER 42 100") ≡ history none (pos 42) (pos 100)
unfolding parse_command codes Str-discrete split_once trim split_whitespace starts_with
    to_ascii_uppercase eq_ignore_ascii_case parse_or parse_i64
parses_chathistory_after = refl

parses_chathistory_after_channel :
    parse_command (codes "CHATHISTORY AFTER #demo 42 100")
    ≡ history (some (codes "#demo")) (pos 42) (pos 100)
unfolding parse_command codes Str-discrete split_once trim split_whitespace starts_with
    to_ascii_uppercase eq_ignore_ascii_case parse_or parse_i64
parses_chathistory_after_channel = refl

parses_cap_req :
    parse_command (codes "CAP REQ :message-tags")
    ≡ cap_negotiation (codes "REQ") (codes "message-tags" ∷ [])
unfolding parse_command codes Str-discrete split_once trim split_whitespace starts_with
    to_ascii_uppercase
parses_cap_req = refl

metadata_tags_use_ircv3_escaping :
    escape_tag_value (codes "hello world;ok\\done\r\n") ≡ codes "hello\\sworld\\:ok\\\\done\\r\\n"
unfolding escape_tag_value codes
metadata_tags_use_ircv3_escaping = refl

metadata_tags_include_replay_flag :
    metadata_tags (pos 42) (codes "msg_abc") (pos 1776250000) true
    ≡ codes "@seq=42;msg-id=msg_abc;time=1776250000;replay=1"
unfolding metadata_tags codes show_i64 join
metadata_tags_include_replay_flag = refl

parse_rejects_empty_halves :
    (Tokens.parse (codes "airc__secret") ≡ none)
    × (Tokens.parse (codes "airc_id_") ≡ none)
    × (Tokens.parse (codes "airc_nosecret") ≡ none)
    × (Tokens.parse (codes "human-token") ≡ none)
unfolding Tokens.parse codes split_once strip_prefix
parse_rejects_empty_halves = (refl, refl, refl, refl)
