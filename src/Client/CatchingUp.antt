-- ===== src/Client/CatchingUp.antt =====
-- The lines of a replay of src/server.rs, one after the other, at the loop of
-- clients/python/aircd/client.py.
use aircd.Base.{
  Bool-cases, inl, inr, eq_refl, arith, ℤ, ◌≤ℤ◌, max_ℤ, ◌==◌, if◌then◌else◌, ◌≡◌, ◌≢◌, refl, ap,
  ◌∙◌, true, some, List, [], ◌∷◌, ◌++◌, append_assoc, append-nil, map, Str, codes, All,
}
use aircd.Maps.{lookup, lookup-insert}
use aircd.Strings.{starts_with}
use aircd.Maps.{lookup, lookup-insert}
use aircd.Strings.{starts_with}
use aircd.Strings.Numbers.{show_i64}
use aircd.Strings.Pieces.{Lacks}
use aircd.Database.{Database, StoredMessage}
use aircd.World.{Session}
use aircd.Server.Members.{display_name_in}
use aircd.Server.Replay.{replay_line}
use aircd.Client.{
  Python, Message, Client, queue_message, track_seq, or_zero, and_then, on_line, on_lines,
}
use aircd.Client.Lines.{IsName}
use aircd.Client.Reading.{received, on_line-message_line}

-- The laws of Python that a reader of the log needs: `upper` keeps the command, and `int` reads the
-- number of a message.
abbrev pub IsNumbered : Python → StoredMessage → Type 0
IsNumbered python m = python.int (show_i64 m.seq) ≡ some m.seq

-- A stored message that a line can carry: its sender's name has no space and no `!`, its channel is one
-- word with `#` in front, and it has a text.
abbrev pub IsCarried : Database → StoredMessage → Type 0
IsCarried db m =
    Lacks b' ' (display_name_in m.sender_id db)
    × Lacks b'!' (display_name_in m.sender_id db)
    × IsName m.channel
    × (starts_with (b'#' ∷ []) m.channel ≡ true)
    × (m.body ≢ [])

-- a message of the log as the agent gets it in a replay
abbrev pub replay_of : Database → StoredMessage → Message
replay_of db m = received true (display_name_in m.sender_id db) m.channel m.body m

abbrev pub queue_all : List Message → Client → Client
queue_all [] client = client
queue_all (m ∷ ms) client = queue_all ms (queue_message m client)

pub queue_all-message_queue :
    (ms : List Message) (client : Client)
    → (queue_all ms client).message_queue ≡ client.message_queue ++ ms
queue_all-message_queue [] client = rw (append-nil client.message_queue) refl
queue_all-message_queue (m ∷ ms) client =
    queue_all-message_queue ms (queue_message m client)
    ∙ append_assoc client.message_queue (m ∷ []) ms

queue_all-sent : (ms : List Message) (client : Client) → (queue_all ms client).sent ≡ client.sent
queue_all-sent [] client = refl
queue_all-sent (m ∷ ms) client = queue_all-sent ms (queue_message m client)

-- the client has seen this number in the channel, or a larger one
abbrev pub HasSeen : Client → Str → ℤ → Type 0
HasSeen client channel seq =
    (seen : ℤ) × (lookup channel client.last_seen_seq ≡ some seen) × (seq ≤ℤ seen)

same_text : (s t : Str) → (s == t) ≡ true → s ≡ t
same_text s t e = ground (arith, e)

max_ℤ-keeps : (a b c : ℤ) → a ≤ℤ b → a ≤ℤ max_ℤ b c
max_ℤ-keeps a b c h = ground (arith, h)

module _ (m : Message) (seq : ℤ) (numbered : m.seq ≡ some seq)
    (in_channel : starts_with (b'#' ∷ []) m.channel ≡ true) (client : Client) where
  track_seq-lookup :
      (other : Str)
      → lookup other (queue_message m client).last_seen_seq ≡ (
          if m.channel == other
          then some (max_ℤ (or_zero (lookup m.channel client.last_seen_seq)) seq)
          else lookup other client.last_seen_seq)
  unfolding track_seq
  track_seq-lookup other =
      rw (numbered, in_channel) (lookup-insert m.channel other _ client.last_seen_seq)

  queue_message-HasSeen : HasSeen (queue_message m client) m.channel seq
  queue_message-HasSeen = (
    max_ℤ (or_zero (lookup m.channel client.last_seen_seq)) seq,
    track_seq-lookup m.channel ∙ rw (eq_refl m.channel) refl,
    ground arith,
  )

  keeps-HasSeen :
      (other : Str) (bound : ℤ)
      → HasSeen client other bound
      → HasSeen (queue_message m client) other bound
  keeps-HasSeen other bound (seen, found, below) = elim (Bool-cases (m.channel == other)) [
    | inl e ↦ (
      max_ℤ (or_zero (lookup m.channel client.last_seen_seq)) seq,
      track_seq-lookup other ∙ rw e refl,
      rw (same_text m.channel other e, found) (max_ℤ-keeps bound seen seq below),
    )
    | inr e ↦ (seen, track_seq-lookup other ∙ rw e found, below)
  ]

on_line-replay :
    (python : Python) (session : Session) (db : Database) (m : StoredMessage) (client : Client)
    → python.upper (codes "PRIVMSG") ≡ codes "PRIVMSG"
    → IsNumbered python m
    → IsCarried db m
    → on_line python (replay_line session db m).1 client
      ≡ some (queue_message (replay_of db m) client)
on_line-replay python session db m client upper int (one_word, no_host, word, hash, text) =
    on_line-message_line python true (display_name_in m.sender_id db) m.channel m.body m client
      upper int one_word no_host word text

queue_all-keeps :
    (db : Database) (channel : Str) (seq : ℤ) (ms : List StoredMessage) (client : Client)
    → All (IsCarried db) ms
    → HasSeen client channel seq
    → HasSeen (queue_all (map (replay_of db) ms) client) channel seq
queue_all-keeps db channel seq [] client h seen = seen
queue_all-keeps db channel seq (m ∷ ms) client ((one_word, no_host, word, hash, text), h) seen =
    queue_all-keeps db channel seq ms (queue_message (replay_of db m) client) h
      (keeps-HasSeen (replay_of db m) m.seq refl hash client channel seq seen)

-- every message of a replay has been seen behind it
pub queue_all-HasSeen :
    (db : Database) (ms : List StoredMessage) (client : Client)
    → All (IsCarried db) ms
    → All (λ m. HasSeen (queue_all (map (replay_of db) ms) client) m.channel m.seq) ms
queue_all-HasSeen db [] client h = tt
queue_all-HasSeen db (m ∷ ms) client ((one_word, no_host, word, hash, text), h) = (
  queue_all-keeps db m.channel m.seq ms (queue_message (replay_of db m) client) h
      (queue_message-HasSeen (replay_of db m) m.seq refl hash client),
  queue_all-HasSeen db ms (queue_message (replay_of db m) client) h,
)

pub replays_are_read :
    (python : Python) (session : Session) (db : Database) (ms : List StoredMessage)
    (client : Client)
    → python.upper (codes "PRIVMSG") ≡ codes "PRIVMSG"
    → All (IsNumbered python) ms
    → All (IsCarried db) ms
    → on_lines python (map (λ m. (replay_line session db m).1) ms) client
      ≡ some (queue_all (map (replay_of db) ms) client)
unfolding on_lines
replays_are_read python session db [] client upper int h = refl
replays_are_read python session db (m ∷ ms) client upper (i, int) (c, h) =
    let rest = map (λ m. (replay_line session db m).1) ms in
    ap (and_then (on_lines python rest)) (on_line-replay python session db m client upper i c)
    ∙ replays_are_read python session db ms (queue_message (replay_of db m) client) upper int h
