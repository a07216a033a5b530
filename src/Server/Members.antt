-- ===== src/Server/Members.antt =====
-- The queries of src/server.rs on `channel_memberships` and `principals`.
use aircd.Base.{
  Bool, ◌&&◌, not, Option, none, some, List, [], ◌∷◌, ◌++◌, map, Str, ◌==◌, ltb, if◌then◌else◌,
  length, any, find, select, update_where, sort_by, text_lt, ℤ, pos, max_ℤ,
}
use aircd.Database.{Database, PrincipalRow, MembershipRow, StoredMessage}
use aircd.World.{Env, Exec, ◌>>=◌, ◌>>◌, gets, modify, unix_timestamp, server_name}

pub record Membership : Type 0 where
  pub channel : Str
  pub last_seen_seq : ℤ

abbrev pub by_channel : MembershipRow → MembershipRow → Bool
by_channel a b = text_lt a.channel b.channel

abbrev pub membership_of : MembershipRow → Membership
membership_of m = record { channel = m.channel; last_seen_seq = m.last_seen_seq }

-- `SELECT channel, last_seen_seq … WHERE principal_id = ?1 ORDER BY channel`
unfoldable pub memberships_of : Str → Database → List Membership
memberships_of principal_id db =
    map membership_of
      (sort_by by_channel (select (λ m. m.principal_id == principal_id) db.memberships))

unfoldable pub memberships : Str → Exec (List Membership)
memberships principal_id = gets (λ w. memberships_of principal_id w.db)

unfoldable pub set_connected : Str → ℤ → Database → Database
set_connected principal_id now db = record db {
  principals =
      update_where (λ p. p.id == principal_id)
        (λ p. record p { connected_at = some now; disconnected_at = none }) db.principals;
}

unfoldable pub mark_connected_and_memberships : Env → Str → Exec (List Membership)
mark_connected_and_memberships env principal_id = do
  now ← unix_timestamp env
  modify (λ w. record w { db = set_connected principal_id now w.db })
  memberships principal_id

-- `SELECT COALESCE(MAX(seq), 0) FROM messages WHERE channel = ?1`
unfoldable pub max_seq : List StoredMessage → ℤ
max_seq [] = pos 0
max_seq (m ∷ []) = m.seq
max_seq (m ∷ n ∷ ms) = max_ℤ m.seq (max_seq (n ∷ ms))

unfoldable pub current_channel_seq : Str → Database → ℤ
current_channel_seq channel db = max_seq (select (λ m. m.channel == channel) db.messages)

abbrev pub is_row_of : Str → Str → MembershipRow → Bool
is_row_of principal_id channel m = m.principal_id == principal_id && m.channel == channel

-- `INSERT OR IGNORE`: the primary key is (principal_id, channel)
unfoldable pub insert_membership : Str → Str → ℤ → Database → Database
insert_membership principal_id channel now db =
    let row : MembershipRow = record {
      principal_id = principal_id;
      channel = channel;
      joined_at = now;
      last_seen_seq = current_channel_seq channel db;
    } in
    if any (is_row_of principal_id channel) db.memberships
    then db
    else record db { memberships = db.memberships ++ row ∷ [] }

unfoldable pub add_membership : Env → Str → Str → Exec (Unit {0})
add_membership env principal_id channel = do
  now ← unix_timestamp env
  modify (λ w. record w { db = insert_membership principal_id channel now w.db })

unfoldable pub delete_membership : Str → Str → Database → Database
delete_membership principal_id channel db = record db {
  memberships = select (λ m. not (is_row_of principal_id channel m)) db.memberships;
}

unfoldable pub remove_membership : Str → Str → Exec (Unit {0})
remove_membership principal_id channel =
    modify (λ w. record w { db = delete_membership principal_id channel w.db })

-- `SELECT COUNT(*) …`, `count > 0`
unfoldable pub has_membership : Str → Str → Database → Bool
has_membership principal_id channel db =
    ltb 0 (length (select (is_row_of principal_id channel) db.memberships))

unfoldable pub is_member : Str → Str → Exec Bool
is_member principal_id channel = gets (λ w. has_membership principal_id channel w.db)

abbrev pub nick_or : Str → Option PrincipalRow → Str
nick_or principal_id none = principal_id
nick_or principal_id (some p) = p.nick

unfoldable pub display_name_in : Str → Database → Str
display_name_in principal_id db =
    if principal_id == server_name
    then server_name
    else nick_or principal_id (find (λ p. p.id == principal_id) db.principals)

unfoldable pub display_name : Str → Exec Str
display_name principal_id = gets (λ w. display_name_in principal_id w.db)

-- the two UPDATE statements of `mark_seen`
unfoldable pub raise_seen : Str → Str → ℤ → Database → Database
raise_seen principal_id channel seq db = record db {
  principals =
      update_where (λ p. p.id == principal_id)
        (λ p. record p { last_seen_seq = max_ℤ p.last_seen_seq seq }) db.principals;
  memberships =
      update_where (is_row_of principal_id channel)
        (λ m. record m { last_seen_seq = max_ℤ m.last_seen_seq seq }) db.memberships;
}

unfoldable pub mark_seen : Str → Str → ℤ → Exec (Unit {0})
mark_seen principal_id channel seq =
    modify (λ w. record w { db = raise_seen principal_id channel seq w.db })
