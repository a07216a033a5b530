-- ===== src/History.antt =====
-- src/history.rs: the append-only log of messages. The clock's reading and the uuid are arguments.
pub mod Log
pub mod Paging
use aircd.Base.{
  not, ℕ, Bool, ◌&&◌, List, [], ◌∷◌, ◌++◌, Str, codes, ◌==◌, ltb, if◌then◌else◌, take, any, select,
  sort_by, ℤ, pos, negsuc, ltb_ℤ, i64_max, ◌+ℤ◌, Result, ok, err,
}
use aircd.Database.{Database, StoredMessage}

-- the row that `append` inserts, and the value that it returns
abbrev pub next_message : Str → Str → Str → Str → ℤ → Database → StoredMessage
next_message channel sender_id body uuid created_at db = record {
  seq = db.last_message_seq +ℤ pos 1;
  msg_id = codes "msg_" ++ uuid;
  channel = channel;
  sender_id = sender_id;
  body = body;
  created_at = created_at;
}

abbrev pub with_message : StoredMessage → Database → Database
with_message m db = record db { messages = db.messages ++ m ∷ []; last_message_seq = m.seq }

-- `INSERT INTO messages`: a `msg_id` that is taken breaks the UNIQUE constraint, and AUTOINCREMENT
-- fails when the largest rowid is used up.
unfoldable pub can_insert : Str → Database → Bool
can_insert msg_id db =
    not (any (λ m. m.msg_id == msg_id) db.messages) && ltb_ℤ db.last_message_seq i64_max

unfoldable pub append : Str → Str → Str → Str → ℤ → Database → Result StoredMessage × Database
unfolding can_insert
append channel sender_id body uuid created_at db =
    let m = next_message channel sender_id body uuid created_at db in
    if can_insert m.msg_id db then (ok m, with_message m db) else (err (codes "insert message"), db)

-- `limit.clamp(1, 500)`
unfoldable pub clamp_limit : ℤ → ℕ
clamp_limit (negsuc n) = 1
clamp_limit (pos n) = if ltb n 1 then 1 else if ltb 500 n then 500 else n

abbrev pub by_seq : StoredMessage → StoredMessage → Bool
by_seq a b = ltb_ℤ a.seq b.seq

-- `WHERE channel = ?1 AND seq > ?2`
abbrev pub wanted : Str → ℤ → StoredMessage → Bool
wanted channel after_seq m = m.channel == channel && ltb_ℤ after_seq m.seq

unfoldable pub after : Str → ℤ → ℤ → Database → List StoredMessage
unfolding clamp_limit select sort_by
after channel after_seq limit db =
    take (clamp_limit limit) (sort_by by_seq (select (wanted channel after_seq) db.messages))
