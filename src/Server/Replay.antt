-- ===== src/Server/Replay.antt =====
-- `replay_history` of src/server.rs: what a session is sent of the log, and the read position behind it.
use aircd.Base.{
  ◌≡◌, refl, ap, ◌∙◌, true, false, List, [], ◌∷◌, ◌++◌, append_assoc, append-nil, map, Str, ℕ, ok,
  any, eqb, ℤ, ltb_ℤ, max_ℤ, All, All-map, ◌<ℤ◌, arith,
}
use aircd.Database.{Database, StoredMessage}
use aircd.History.{after}
use aircd.History.Log.{IsLog, Ascending}
use aircd.History.Paging.{after_sound}
use aircd.World.{World, Session, pure, gets, modify, say}
use aircd.World.Returns.{told, bind_ok, say-returns}
use aircd.Server.Members.{display_name_in, display_name, mark_seen, raise_seen}
use aircd.Server.Chat.{message_line, replay_messages, seen_if_more, replay_channel}
use aircd.Server.Fanout.{send-open}

-- the line of a stored message, tagged as a replay
abbrev pub replay_line : Session → Database → StoredMessage → ℕ × Str
replay_line session db m =
    (session.tx, message_line true (display_name_in m.sender_id db) m.channel m.body m)

abbrev pub replayed : Session → List StoredMessage → World → World
replayed session ms w = record w { outbox = w.outbox ++ map (replay_line session w.db) ms }

-- the number of the last message, or what came before them
abbrev pub last_seq : ℤ → List StoredMessage → ℤ
last_seq seq [] = seq
last_seq seq (m ∷ ms) = last_seq m.seq ms

-- the read position behind the last message
abbrev pub read_to : Str → Str → List StoredMessage → Database → Database
read_to id channel [] db = db
read_to id channel (m ∷ ms) db = raise_seen id channel (last_seq m.seq ms) db

max-above : (a b : ℤ) → a <ℤ b → max_ℤ a b ≡ b
max-above a b h = ground arith

ltb_ℤ-self : (a : ℤ) → ltb_ℤ a a ≡ false
ltb_ℤ-self a = ground arith

ltb_ℤ-below : (a b : ℤ) → a <ℤ b → ltb_ℤ a b ≡ true
ltb_ℤ-below a b h = ground arith

last_seq-above :
    (a : ℤ) (m : StoredMessage) (ms : List StoredMessage)
    → a <ℤ m.seq
    → Ascending (m ∷ ms)
    → a <ℤ last_seq m.seq ms
last_seq-above a m [] h asc = h
last_seq-above a m (n ∷ ms) h ((newer, k), asc) = last_seq-above a n ms (omega arith) asc

module _ (session : Session) where
  pub told_listens :
      (text : Str) (w : World)
      → any (eqb session.tx) w.closed ≡ false
      → told session text w ≡ record w { outbox = w.outbox ++ (session.tx, text) ∷ [] }
  unfolding say pure
  told_listens text w listens =
      ap (λ r. r.1) (bind_ok _ _ w _ true (send-open session.tx text w listens))

  -- Each message is sent, in order, and the largest number is returned: as they ascend, the last one.
  replay_messages_lem :
      (ms : List StoredMessage) (seq : ℤ) (w : World)
      → any (eqb session.tx) w.closed ≡ false
      → All (λ m. seq <ℤ m.seq) ms
      → Ascending ms
      → replay_messages session ms seq w ≡ (ok (last_seq seq ms), replayed session ms w)
  unfolding replay_messages display_name gets pure
  replay_messages_lem [] seq w listens above asc = rw (append-nil w.outbox) refl
  replay_messages_lem (m ∷ ms) seq w listens (h, above) (newer, asc) =
      let line = (replay_line session w.db m).1 in
      let sent : World = record w { outbox = w.outbox ++ (session.tx, line) ∷ [] } in
      bind_ok (display_name m.sender_id) _ w w _ refl
      ∙ bind_ok (say session line) _ w sent tt
          (say-returns session line w ∙ ap (λ v. (ok tt, v)) (told_listens line w listens))
      ∙ ap (λ s. replay_messages session ms s sent) (max-above seq m.seq h)
      ∙ replay_messages_lem ms m.seq sent listens newer asc
      ∙ ap (λ o. (ok (last_seq m.seq ms), record w { outbox = o }))
          (append_assoc w.outbox ((session.tx, line) ∷ []) (map (replay_line session w.db) ms))

  seen_if_more_lem :
      (id channel : Str) (seq : ℤ) (ms : List StoredMessage) (w : World)
      → All (λ m. seq <ℤ m.seq) ms
      → Ascending ms
      → seen_if_more id channel seq (last_seq seq ms) w
        ≡ (ok tt, record w { db = read_to id channel ms w.db })
  unfolding seen_if_more mark_seen modify pure
  seen_if_more_lem id channel seq [] w above asc = rw (ltb_ℤ-self seq) refl
  seen_if_more_lem id channel seq (m ∷ ms) w (h, above) asc =
      rw (ltb_ℤ-below seq (last_seq m.seq ms) (last_seq-above seq m ms h asc)) refl

-- On a log, a session whose client listens is sent, in order, the messages of the channel behind a
-- number, as many as the clamped limit allows, each tagged as a replay and under its sender's name; and
-- the read position of its principal is raised to the last of them. Nothing else changes.
pub replay_channel_lem :
    (session : Session) (id : Str) (after_seq limit : ℤ) (channel : Str) (w : World)
    → IsLog w.db
    → any (eqb session.tx) w.closed ≡ false
    → replay_channel session id after_seq limit channel w ≡ (
      ok tt,
      record (replayed session (after channel after_seq limit w.db) w) {
        db = read_to id channel (after channel after_seq limit w.db) w.db;
      },
    )
unfolding replay_channel gets
replay_channel_lem session id after_seq limit channel w log listens =
    let page = after channel after_seq limit w.db in
    let (sound, asc, _) = after_sound channel after_seq limit w.db log in
    let above = All-map _ (λ m. after_seq <ℤ m.seq) (λ m h. h.1) page sound in
    bind_ok (gets (λ v. after channel after_seq limit v.db)) _ w w page refl
    ∙ bind_ok (replay_messages session page after_seq) _ w (replayed session page w)
        (last_seq after_seq page) (replay_messages_lem session page after_seq w listens above asc)
    ∙ seen_if_more_lem session id channel after_seq page (replayed session page w) above asc
