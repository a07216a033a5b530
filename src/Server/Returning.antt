-- ===== src/Server/Returning.antt =====
-- The replay of `try_register` of src/server.rs: what an agent that comes back is sent of each of its
-- channels, from its read position on.
use mathlib.Core.Path.{ap₂}
use aircd.Base.{
  ◌≡◌, refl, sym, ap, ◌∙◌, false, none, some, List, [], ◌∷◌, ◌++◌, append_assoc, append-nil, map,
  map-append, Str, ok, true, any, eqb, ℤ, pos, max_ℤ, find, update_where, ◌==◌, arith,
  if◌then◌else◌,
}
use aircd.Auth.{Principal}
use aircd.Database.{Database, PrincipalRow, StoredMessage}
use aircd.History.{after}
use aircd.History.Log.{IsLog, after-messages}
use aircd.World.{World, Session, lift, pure, session_principal, principal_or_error, server_name}
use aircd.World.Returns.{bind_ok}
use aircd.Server.Members.{Membership, display_name_in, nick_or, raise_seen, set_connected}
use aircd.Server.Chat.{message_line, replay_channel, replay_channels, replay_history}
use aircd.Server.Registration.{replay_each}
use aircd.Server.Guarantees.{SameLog, respects-IsLog}
use aircd.Server.Replay.{replay_line, replayed, read_to, replay_channel_lem}

nick-set_connected :
    (id other : Str) (now : ℤ) (rows : List PrincipalRow)
    → nick_or other (
        find
          (λ p. p.id == other)
          (update_where
            (λ p. p.id == id)
            (λ p. record p { connected_at = some now; disconnected_at = none })
            rows))
      ≡ nick_or other (find (λ p. p.id == other) rows)
unfolding find update_where
nick-set_connected id other now [] = refl
nick-set_connected id other now (r ∷ rows) = ground (arith, nick-set_connected id other now rows)

nick-raise_seen :
    (id other : Str) (seq : ℤ) (rows : List PrincipalRow)
    → nick_or other (
        find
          (λ p. p.id == other)
          (update_where
            (λ p. p.id == id)
            (λ p. record p { last_seen_seq = max_ℤ p.last_seen_seq seq })
            rows))
      ≡ nick_or other (find (λ p. p.id == other) rows)
unfolding find update_where
nick-raise_seen id other seq [] = refl
nick-raise_seen id other seq (r ∷ rows) = ground (arith, nick-raise_seen id other seq rows)

display_name_in-raise_seen :
    (id channel other : Str) (seq : ℤ) (db : Database)
    → display_name_in other (raise_seen id channel seq db) ≡ display_name_in other db
unfolding display_name_in raise_seen
display_name_in-raise_seen id channel other seq db =
    ap (λ n. if other == server_name then server_name else n)
      (nick-raise_seen id other seq db.principals)

-- What a replay reads of the database.
pub record SameReading (a b : Database) : Type 0 where
  pub log : SameLog a b
  pub names : (id : Str) → display_name_in id b ≡ display_name_in id a

pub set_connected-SameReading :
    (id : Str) (now : ℤ) (db : Database) → SameReading db (set_connected id now db)
unfolding set_connected display_name_in
set_connected-SameReading id now db = record {
  log = record { messages = refl; counter = refl };
  names = λ other.
      ap (λ n. if other == server_name then server_name else n)
        (nick-set_connected id other now db.principals);
}

read_to-SameReading :
    (id channel : Str) (ms : List StoredMessage) (db : Database)
    → SameReading db (read_to id channel ms db)
unfolding raise_seen
read_to-SameReading id channel [] db = record {
  log = record { messages = refl; counter = refl };
  names = λ other. refl;
}
read_to-SameReading id channel (m ∷ ms) db = record {
  log = record { messages = refl; counter = refl };
  names = λ other. display_name_in-raise_seen id channel other _ db;
}

-- the messages behind the read position of a membership, at most 200
abbrev pub page_for : Database → Membership → List StoredMessage
page_for db m = after m.channel m.last_seen_seq (pos 200) db

abbrev pub missed : Database → List Membership → List StoredMessage
missed db [] = []
missed db (m ∷ ms) = page_for db m ++ missed db ms

-- the read positions behind these pages
abbrev pub caught_up : Str → Database → List Membership → Database → Database
caught_up id log [] db = db
caught_up id log (m ∷ ms) db = caught_up id log ms (read_to id m.channel (page_for log m) db)

pub missed-SameReading :
    (a b : Database) (ms : List Membership) → SameReading a b → missed b ms ≡ missed a ms
missed-SameReading a b [] same = refl
missed-SameReading a b (m ∷ ms) same =
    ap₂ (λ xs ys. xs ++ ys)
      (after-messages m.channel m.last_seen_seq (pos 200) b a same.log.messages)
      (missed-SameReading a b ms same)

pub caught_up-SameReading :
    (id : Str) (a b : Database) (ms : List Membership) (db : Database)
    → SameReading a b
    → caught_up id b ms db ≡ caught_up id a ms db
caught_up-SameReading id a b [] db same = refl
caught_up-SameReading id a b (m ∷ ms) db same =
    ap (λ page. caught_up id b ms (read_to id m.channel page db))
      (after-messages m.channel m.last_seen_seq (pos 200) b a same.log.messages)
    ∙ caught_up-SameReading id a b ms (read_to id m.channel (page_for a m) db) same

pub replay_line-SameReading :
    (session : Session) (a b : Database) (ms : List StoredMessage)
    → SameReading a b
    → map (replay_line session b) ms ≡ map (replay_line session a) ms
replay_line-SameReading session a b [] same = refl
replay_line-SameReading session a b (m ∷ ms) same =
    ap₂ (λ name lines. (session.tx, message_line true name m.channel m.body m) ∷ lines)
      (same.names m.sender_id) (replay_line-SameReading session a b ms same)

module _ (session : Session) (p : Principal) where
  replay_history_one :
      (channel : Str) (after_seq limit : ℤ) (w w' : World)
      → session.principal ≡ some p
      → replay_channel session p.id after_seq limit channel w ≡ (ok tt, w')
      → replay_history session (channel ∷ []) after_seq limit w ≡ (ok tt, w')
  unfolding replay_history replay_channels session_principal lift pure
  replay_history_one channel after_seq limit w w' known replays =
      bind_ok (session_principal session) _ w w p (ap (λ q. (principal_or_error q, w)) known)
      ∙ bind_ok (replay_channel session p.id after_seq limit channel) _ w w' tt replays

  -- Each channel's page is sent in turn, as the log stood before the first of them.
  pub replay_each_lem :
      (ms : List Membership) (w : World)
      → session.principal ≡ some p
      → IsLog w.db
      → any (eqb session.tx) w.closed ≡ false
      → replay_each session ms w
        ≡ (ok tt, record (replayed session (missed w.db ms) w) { db = caught_up p.id w.db ms w.db })
  unfolding replay_each pure
  replay_each_lem [] w known log listens = rw (append-nil w.outbox) refl
  replay_each_lem (m ∷ ms) w known log listens =
      let page = page_for w.db m in
      let w' : World = record (replayed session page w) { db = read_to p.id m.channel page w.db } in
      let same = read_to-SameReading p.id m.channel page w.db in
      bind_ok (replay_history session (m.channel ∷ []) m.last_seen_seq (pos 200)) _ w w' tt (
        replay_history_one m.channel m.last_seen_seq (pos 200) w w' known
          (replay_channel_lem session p.id m.last_seen_seq (pos 200) m.channel w log listens))
      ∙ replay_each_lem ms w' known (respects-IsLog w.db w'.db same.log log) listens
      ∙ ap₂ (λ db outbox. (ok tt, record w { db = db; outbox = outbox }))
          (caught_up-SameReading p.id w.db w'.db ms w'.db same)
          (append_assoc w.outbox (map (replay_line session w.db) page) _
            ∙ ap (λ ls. w.outbox ++ ls)
                (ap (λ ls. map (replay_line session w.db) page ++ ls) (later w'.db same)
                  ∙ sym (map-append (replay_line session w.db) page (missed w.db ms))))
    where
      later :
          (db : Database)
          → SameReading w.db db
          → map (replay_line session db) (missed db ms)
            ≡ map (replay_line session w.db) (missed w.db ms)
      later db same =
          ap (map (replay_line session db)) (missed-SameReading w.db db ms same)
          ∙ replay_line-SameReading session w.db db (missed w.db ms) same
