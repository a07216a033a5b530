-- ===== src/Client.antt =====
-- clients/python/aircd/client.py: how the agent's client reads a line of the server. Python's `int`,
-- `str.upper` and the texts that they accept are parameters; what else is used of `str` is defined here,
-- and a `dict` is an association list. Of `_reader_loop` it is the body that handles one line.
pub mod Pieces
pub mod Tags
pub mod Lines
pub mod Reading
pub mod Talking
pub mod CatchingUp
pub mod Returning
pub mod Notices
use aircd.Base.{
  ℕ, Bool, true, false, ◌||◌, ◌&&◌, Option, none, some, List, [], ◌∷◌, ◌++◌, Str, codes, ◌==◌, eqb,
  leb, if◌then◌else◌, ℤ, pos, max_ℤ,
}
use aircd.Strings.{is_whitespace, starts_with, split_once, is_some}
use aircd.Maps.{lookup, insert}
use aircd.Tags.Escaping.{unescape_tag_value}

-- `str.upper`, and `int` on a text, `none` where it raises ValueError
pub record Python : Type 0 where
  pub upper : Str → Str
  pub int : Str → Option ℤ

-- `str.isspace` at one character: white space and the four separators of ASCII
unfoldable pub is_space : ℕ → Bool
unfolding is_whitespace
is_space c = is_whitespace c || (leb 0x1c c && leb c 0x1f)

abbrev pub push_piece : Str × List Str → List Str
push_piece ([], pieces) = pieces
push_piece (c ∷ piece, pieces) = (c ∷ piece) ∷ pieces

-- the piece that a text begins with, perhaps empty, and the pieces behind it
unfoldable pub first_piece : Str → Str × List Str
unfolding is_space
first_piece [] = ([], [])
first_piece (c ∷ s) =
    let next = first_piece s in if is_space c then ([], push_piece next) else (c ∷ next.0, next.1)

-- `str.split()`
unfoldable pub split : Str → List Str
unfolding first_piece
split s = push_piece (first_piece s)

abbrev pub onto_first : ℕ → List Str → List Str
onto_first c [] = (c ∷ []) ∷ []
onto_first c (piece ∷ pieces) = (c ∷ piece) ∷ pieces

-- `s.split(separator)` at one character
unfoldable pub split_at : ℕ → Str → List Str
split_at separator [] = [] ∷ []
split_at separator (c ∷ s) =
    let pieces = split_at separator s in
    if eqb c separator then [] ∷ pieces else onto_first c pieces

-- `tags[k] = …` for one part of the tags
abbrev pub set_tag : Str → Option (Str × Str) → List (Str × Str) → List (Str × Str)
set_tag part none tags = insert part [] tags
set_tag part (some (k, v)) tags = insert k (unescape_tag_value v) tags

unfoldable pub read_tags : List Str → List (Str × Str) → List (Str × Str)
read_tags [] tags = tags
read_tags (part ∷ parts) tags = read_tags parts (set_tag part (split_once (b'=' ∷ []) part) tags)

-- a line in parts: `(prefix, command, params, tags)`
pub record IrcLine : Type 0 where
  pub prefix : Str
  pub command : Str
  pub params : List Str
  pub tags : List (Str × Str)

-- `params.append(trailing)`, unless it is empty
abbrev pub with_trailing : List Str → Str → List Str
with_trailing params [] = params
with_trailing params (c ∷ trailing) = params ++ (c ∷ trailing) ∷ []

abbrev pub head_and_trailing : Str → Option (Str × Str) → Str × Str
head_and_trailing line none = (line, [])
head_and_trailing line (some (head, trailing)) = (head, trailing)

-- `line[1:line.index(" ")]` and what is behind the space; `none` where `index` raises ValueError
abbrev pub marked : Str → Option (Str × Str)
marked [] = none
marked (c ∷ line) = split_once (b' ' ∷ []) line

module _ (python : Python) where
  abbrev pub line_of : Str → List (Str × Str) → Str → List Str → IrcLine
  line_of prefix tags trailing [] = record {
    prefix = prefix;
    command = [];
    params = with_trailing [] trailing;
    tags = tags;
  }
  line_of prefix tags trailing (command ∷ params) = record {
    prefix = prefix;
    command = python.upper command;
    params = with_trailing params trailing;
    tags = tags;
  }

  -- behind the tags and the prefix
  unfoldable pub read_command : Str → List (Str × Str) → Str → IrcLine
  unfolding split
  read_command prefix tags line =
      let (head, trailing) = head_and_trailing line (split_once (codes " :") line) in
      line_of prefix tags trailing (split head)

  abbrev pub read_prefixed : List (Str × Str) → Option (Str × Str) → Option IrcLine
  read_prefixed tags none = none
  read_prefixed tags (some (prefix, line)) = some (read_command prefix tags line)

  -- behind the tags
  unfoldable pub read_prefix : List (Str × Str) → Str → Option IrcLine
  unfolding read_command
  read_prefix tags line =
      if starts_with (b':' ∷ []) line
      then read_prefixed tags (marked line)
      else some (read_command [] tags line)

  abbrev pub read_tagged : Option (Str × Str) → Option IrcLine
  read_tagged none = none
  read_tagged (some (tag_str, line)) = read_prefix (read_tags (split_at b';' tag_str) []) line

  -- `_parse_irc_line`, `none` where it raises ValueError
  unfoldable pub parse_irc_line : Str → Option IrcLine
  unfolding read_prefix read_tags split_at
  parse_irc_line line =
      if starts_with (b'@' ∷ []) line then read_tagged (marked line) else read_prefix [] line

abbrev pub before_mark : Str → Option (Str × Str) → Str
before_mark prefix none = prefix
before_mark prefix (some (nick, host)) = nick

unfoldable pub extract_nick : Str → Str
extract_nick prefix = before_mark prefix (split_once (b'!' ∷ []) prefix)

pub record Message : Type 0 where
  pub seq : Option ℤ
  pub channel : Str
  pub sender : Str
  pub content : Str
  pub raw : Str
  pub tags : List (Str × Str)
  pub is_replay : Bool

-- What a line changes in the client: `_state.last_seen_seq`, `_message_queue`, and the lines sent.
pub record Client : Type 0 where
  pub last_seen_seq : List (Str × ℤ)
  pub message_queue : List Message
  pub sent : List Str

abbrev pub and_then : (Client → Option Client) → Option Client → Option Client
and_then f none = none
and_then f (some client) = f client

abbrev pub is_text : Option Str → Str → Bool
is_text none s = false
is_text (some t) s = t == s

abbrev pub or_zero : Option ℤ → ℤ
or_zero none = pos 0
or_zero (some seq) = seq

unfoldable pub track_seq : Str → Option ℤ → List (Str × ℤ) → List (Str × ℤ)
track_seq channel none seen = seen
track_seq channel (some seq) seen =
    if starts_with (b'#' ∷ []) channel
    then insert channel (max_ℤ (or_zero (lookup channel seen)) seq) seen
    else seen

-- the last element, for PONG
abbrev pub last_or_empty : List Str → Str
last_or_empty [] = []
last_or_empty (p ∷ []) = p
last_or_empty (p ∷ q ∷ ps) = last_or_empty (q ∷ ps)

abbrev pub queue_message : Message → Client → Client
queue_message m client = record client {
  last_seen_seq = track_seq m.channel m.seq client.last_seen_seq;
  message_queue = client.message_queue ++ m ∷ [];
}

module _ (python : Python) where
  abbrev pub seq_of : Option Str → Option ℤ
  seq_of none = none
  seq_of (some text) = python.int text

  -- the `Message` of a PRIVMSG or NOTICE
  unfoldable pub message_of : Str → IrcLine → Str → Str → Message
  unfolding extract_nick
  message_of raw line channel content = record {
    seq = seq_of (lookup (codes "seq") line.tags);
    channel = channel;
    sender = extract_nick line.prefix;
    content = content;
    raw = raw;
    tags = line.tags;
    is_replay =
        is_text (lookup (codes "replay") line.tags) (codes "1")
        || is_some (lookup (codes "batch") line.tags);
  }

  -- `len(params) >= 2`
  abbrev pub take_message : Str → IrcLine → List Str → Client → Client
  take_message raw line [] client = client
  take_message raw line (channel ∷ []) client = client
  take_message raw line (channel ∷ content ∷ more) client =
      queue_message (message_of raw line channel content) client

  abbrev pub dispatch_line : Str → IrcLine → Client → Client
  dispatch_line raw line client =
      if line.command == codes "PING"
      then record client {
        sent = client.sent ++ (codes "PONG :" ++ last_or_empty line.params) ∷ [];
      }
      else if line.command == codes "PRIVMSG" || line.command == codes "NOTICE"
      then take_message raw line line.params client
      else client

  abbrev pub on_parsed : Str → Option IrcLine → Client → Option Client
  on_parsed raw none client = none
  on_parsed raw (some line) client = some (dispatch_line raw line client)

  -- the loop's body for one line, `none` where it raises
  unfoldable pub on_line : Str → Client → Option Client
  unfolding parse_irc_line
  on_line raw client = on_parsed raw (parse_irc_line python raw) client

  -- the loop over these lines
  unfoldable pub on_lines : List Str → Client → Option Client
  unfolding on_line
  on_lines [] client = some client
  on_lines (raw ∷ lines) client = and_then (on_lines lines) (on_line raw client)
