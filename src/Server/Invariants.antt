-- ===== src/Server/Invariants.antt =====
-- The operations that write to the database while the server runs, and that whatever a connection does
-- keeps what they keep.
pub mod Broadcasts
pub mod Chatting
pub mod Tasking
pub mod Registering
pub mod Connections
use aircd.Base.{
  Bool, true, false, Option, none, some, List, [], ◌∷◌, map, Str, ℤ, pos, Result, ok, err,
  if◌then◌else◌,
}
use aircd.Database.{Database, StoredMessage}
use aircd.History
use aircd.Tasks
use aircd.Tasks.{Task}
use aircd.World.{World, ServerInner, Session, ClientHandle, Env, Exec, ◌>>=◌, pure, modify, attempt}
use aircd.World.Keeps.{
  Keeps-if, Keeps, Core, keeps_rules, Keeps-pure, Keeps-say, Keeps-bind, Keeps-on_db, Keeps-attempt,
  Keeps-modify, Keeps-send,
}
use aircd.Maps.{insert, remove}
use aircd.Server.Members.{
  set_connected, insert_membership, delete_membership, raise_seen, mark_connected_and_memberships,
  add_membership, remove_membership, mark_seen, memberships, memberships_of, Membership, is_member,
  display_name,
}
use aircd.Server.Delivery.{send_each, broadcast_raw, seen_if, deliver_each, broadcast_message}
use aircd.Server.Chat
use aircd.Server.TaskCommands
use aircd.Server.Registration
use aircd.Server.Registration.{set_disconnected}
use aircd.Server.Connection

-- `P` is kept by every operation that writes to the database or to the tables in memory while the server
-- runs. The two go together where the code writes both.
pub record IsKept (P : Core → Type 0) : Type 0 where
  pub append :
      (channel sender body uuid : Str) (now : ℤ) (db : Database) (inner : ServerInner)
      → P (db, inner)
      → P ((History.append channel sender body uuid now db).1, inner)
  pub create :
      (channel title uuid : Str) (now : ℤ) (db : Database) (inner : ServerInner)
      → P (db, inner)
      → P ((Tasks.create channel title uuid now db).1, inner)
  pub claim :
      (lease : ℤ) (task_id id : Str) (now : ℤ) (db : Database) (inner : ServerInner)
      → P (db, inner)
      → P ((Tasks.claim lease task_id id now db).1, inner)
  pub done :
      (task_id id : Str) (now : ℤ) (db : Database) (inner : ServerInner)
      → P (db, inner)
      → P ((Tasks.done task_id id now db).1, inner)
  pub release :
      (task_id id : Str) (now : ℤ) (db : Database) (inner : ServerInner)
      → P (db, inner)
      → P ((Tasks.release task_id id now db).1, inner)
  pub set_disconnected :
      (id : Str) (now : ℤ) (db : Database) (inner : ServerInner)
      → P (db, inner)
      → P (set_disconnected id now db, inner)
  pub joined :
      (id channel : Str) (now : ℤ) (db : Database) (inner : ServerInner)
      → P (db, inner)
      → P (insert_membership id channel now db, Chat.enter_channel id channel inner)
  pub parted :
      (id channel : Str) (db : Database) (inner : ServerInner)
      → P (db, inner)
      → P (delete_membership id channel db, Chat.leave_channel id channel inner)
  pub raise_seen :
      (id channel : Str) (seq : ℤ) (db : Database) (inner : ServerInner)
      → P (db, inner)
      → P (raise_seen id channel seq db, inner)
  pub attached :
      (id : Str) (client : ClientHandle) (now : ℤ) (db : Database) (inner : ServerInner)
      → P (db, inner)
      → P (
        set_connected id now db,
        Registration.enter_channels id
            (map (λ m. m.channel) (memberships_of id (set_connected id now db)))
            (record inner { clients = insert id client inner.clients }),
      )
  pub dropped :
      (id : Str) (db : Database) (inner : ServerInner)
      → P (db, inner)
      → P (db, record inner { clients = remove id inner.clients })
