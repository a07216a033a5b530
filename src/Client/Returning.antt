-- ===== src/Client/Returning.antt =====
-- An agent that comes back: `enter_server` of src/server.rs, and the loop of
-- clients/python/aircd/client.py on the lines that it sends.
use aircd.Base.{
  ◌≡◌, refl, ap, false, some, List, [], ◌∷◌, ◌++◌, map, Str, codes, ok, any, eqb, All, ℕ,
}
use aircd.Auth.{Principal}
use aircd.Database.{Database, StoredMessage}
use aircd.History.Log.{IsLog}
use aircd.World.{World, Session, Env}
use aircd.Server.Members.{memberships_of}
use aircd.Server.Registration.{enter_server}
use aircd.Server.Replay.{replay_line}
use aircd.Server.Returning.{missed}
use aircd.Server.Arrival.{arrived, greeted_outbox, enter_server_lem}
use aircd.Client.{Python, Client, on_lines}
use aircd.Client.CatchingUp.{
  IsNumbered, IsCarried, replay_of, queue_all, HasSeen, queue_all-message_queue, queue_all-HasSeen,
  replays_are_read,
}

map-replay_line :
    (session : Session) (db : Database) (ms : List StoredMessage)
    → map (replay_line session db) ms
      ≡ map (λ l. (session.tx, l)) (map (λ m. (replay_line session db m).1) ms)
map-replay_line session db [] = refl
map-replay_line session db (m ∷ ms) =
    ap (λ ls. replay_line session db m ∷ ls) (map-replay_line session db ms)

-- An agent that comes back gets what it missed: the last lines that the server sends its new session
-- are read by its client as the messages behind its read positions, channel by channel and in order, at
-- most 200 of each, every one under its sender's name and marked as replayed, at the end of the queue;
-- and behind them the client has seen their numbers in their channels. The log is in order, the session
-- listens, the messages can be carried by a line, and Python's `upper` and `int` read the command and the
-- numbers as they are written.
pub absent_agent_catches_up :
    (python : Python) (env : Env) (session : Session) (p : Principal) (w : World) (client : Client)
    → session.principal ≡ some p
    → IsLog w.db
    → any (eqb session.tx) w.closed ≡ false
    → python.upper (codes "PRIVMSG") ≡ codes "PRIVMSG"
    → All (IsNumbered python) (missed w.db (memberships_of p.id w.db))
    → All (IsCarried w.db) (missed w.db (memberships_of p.id w.db))
    → (w' : World) × (before : List (ℕ × Str)) × (lines : List Str) × (client' : Client)
      × (enter_server env session p w ≡ (ok tt, w'))
      × (w'.outbox ≡ before ++ map (λ l. (session.tx, l)) lines)
      × (on_lines python lines client ≡ some client')
      × (client'.message_queue
          ≡ client.message_queue ++ map (replay_of w.db) (missed w.db (memberships_of p.id w.db)))
      × All (λ m. HasSeen client' m.channel m.seq) (missed w.db (memberships_of p.id w.db))
absent_agent_catches_up python env session p w client known log listens upper int carried =
    let ms = missed w.db (memberships_of p.id w.db) in
    let before = greeted_outbox session p (memberships_of p.id w.db) w in
    (
      arrived env session p (memberships_of p.id w.db) w,
      before,
      map (λ m. (replay_line session w.db m).1) ms,
      queue_all (map (replay_of w.db) ms) client,
      enter_server_lem env session p w known log listens,
      ap (λ ls. before ++ ls) (map-replay_line session w.db ms),
      replays_are_read python session w.db ms client upper int carried,
      queue_all-message_queue (map (replay_of w.db) ms) client,
      queue_all-HasSeen w.db ms client carried,
    )
