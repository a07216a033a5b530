-- ===== src/Database.antt =====
-- The tables that src/store.rs creates, as lists of rows in rowid order, with the rows that
-- src/history.rs, src/tasks.rs, src/auth.rs and src/server.rs read and write.
use aircd.Base.{Option, List, [], Str, ℤ, pos}

-- A row of `principals`.
pub record PrincipalRow : Type 0 where
  pub id : Str
  pub nick : Str
  pub token : Str
  pub team : Option Str
  pub last_seen_seq : ℤ
  pub connected_at : Option ℤ
  pub disconnected_at : Option ℤ
  pub created_at : ℤ

-- A row of `channel_memberships`.
pub record MembershipRow : Type 0 where
  pub principal_id : Str
  pub channel : Str
  pub joined_at : ℤ
  pub last_seen_seq : ℤ

-- A row of `messages`, which is also the struct `StoredMessage` of src/history.rs.
pub record StoredMessage : Type 0 where
  pub seq : ℤ
  pub msg_id : Str
  pub channel : Str
  pub sender_id : Str
  pub body : Str
  pub created_at : ℤ

-- The texts that src/tasks.rs writes to the column `status`: 'open', 'claimed' and 'done'.
pub data Status : Type 0 where
  opened claimed completed : Status

-- A row of `tasks`.
pub record TaskRow : Type 0 where
  pub id : Str
  pub channel : Str
  pub title : Str
  pub status : Status
  pub claimed_by : Option Str
  pub lease_expires_at : Option ℤ
  pub created_at : ℤ
  pub updated_at : ℤ

-- A row of `principal_tokens`.
pub record TokenRow : Type 0 where
  pub principal_id : Str
  pub token_id : Str
  pub token_hash : Str
  pub label : Option Str
  pub created_at : ℤ
  pub revoked_at : Option ℤ

-- `last_message_seq` is the entry of AUTOINCREMENT's table `sqlite_sequence` for `messages`.
pub record Database : Type 0 where
  pub principals : List PrincipalRow
  pub memberships : List MembershipRow
  pub messages : List StoredMessage
  pub last_message_seq : ℤ
  pub tasks : List TaskRow
  pub principal_tokens : List TokenRow

abbrev pub empty : Database
empty = record {
  principals = [];
  memberships = [];
  messages = [];
  last_message_seq = pos 0;
  tasks = [];
  principal_tokens = [];
}
