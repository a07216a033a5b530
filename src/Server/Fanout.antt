-- ===== src/Server/Fanout.antt =====
-- `broadcast_message` and `recipients_with_ids` of src/server.rs: who gets a message, and whose read
-- position moves.
use aircd.Base.{
  arith, ◌≡◌, refl, ◌∙◌, Bool, true, false, not, Bool-cases, inl, inr, Option, none, some, List, [],
  append-nil, append_assoc, ◌∷◌, ◌++◌, map, Str, ℕ, ℤ, any, eqb, select, ok, All, All-map, ◌==◌,
}
use aircd.Database.{Database}
use aircd.Maps.{lookup}
use aircd.World.{World, ServerInner, ClientHandle, pure, gets, modify, send}
use aircd.World.Returns.{bind_ok}
use aircd.Server.Members.{raise_seen, mark_seen}
use aircd.Server.Delivery.{
  members_of, cons_client, connected, recipients_with_ids, seen_if, deliver_each, broadcast_message,
  recipients, send_each, broadcast_raw,
}

-- the recipient's channel still has a receiver
abbrev pub is_listening : List ℕ → Str × ClientHandle → Bool
is_listening closed (id, client) = not (any (eqb client.tx) closed)

abbrev pub copy_for : Str → Str × ClientHandle → ℕ × Str
copy_for line (id, client) = (client.tx, line)

-- one copy of a line for each recipient that listens, in their order
abbrev pub copies : Str → List ℕ → List (Str × ClientHandle) → List (ℕ × Str)
copies line closed rs = map (copy_for line) (select (is_listening closed) rs)

-- the read positions of these principals, raised to a message's number
abbrev pub seen_by : List (Str × ClientHandle) → Str → ℤ → Database → Database
seen_by [] channel seq db = db
seen_by ((id, client) ∷ rs) channel seq db = seen_by rs channel seq (raise_seen id channel seq db)

pub seen_by-messages :
    (rs : List (Str × ClientHandle)) (channel : Str) (seq : ℤ) (db : Database)
    → (seen_by rs channel seq db).messages ≡ db.messages
unfolding raise_seen
seen_by-messages [] channel seq db = refl
seen_by-messages ((id, client) ∷ rs) channel seq db =
    seen_by-messages rs channel seq (raise_seen id channel seq db)

module _ (tx : ℕ) (line : Str) (w : World) where
  send-closed : any (eqb tx) w.closed ≡ true → send tx line w ≡ (ok false, w)
  unfolding send
  send-closed e = rw e refl

  pub send-open :
      any (eqb tx) w.closed ≡ false
      → send tx line w ≡ (ok true, record w { outbox = w.outbox ++ (tx, line) ∷ [] })
  unfolding send
  send-open e = rw e refl

module _ (channel line : Str) (seq : ℤ) where
  abbrev pub delivered : List (Str × ClientHandle) → World → World
  delivered rs w = record w {
    outbox = w.outbox ++ copies line w.closed rs;
    db = seen_by (select (is_listening w.closed) rs) channel seq w.db;
  }

  pub deliver_each_lem :
      (rs : List (Str × ClientHandle)) (w : World)
      → deliver_each rs channel line seq w ≡ (ok tt, delivered rs w)
  unfolding deliver_each seen_if mark_seen modify pure select
  deliver_each_lem [] w = rw (append-nil w.outbox) refl
  deliver_each_lem ((id, c) ∷ rs) w =
      let others = deliver_each rs channel line seq in
      let sent : World = record w { outbox = w.outbox ++ (c.tx, line) ∷ [] } in
      let seen : World = record sent { db = raise_seen id channel seq w.db } in
      elim (Bool-cases (any (eqb c.tx) w.closed)) [
        | inl e ↦
            bind_ok (send c.tx line) _ w w false (send-closed c.tx line w e)
            ∙ bind_ok (seen_if false id channel seq) (λ _. others) w w tt refl
            ∙ deliver_each_lem rs w
            ∙ rw e refl
        | inr e ↦
            bind_ok (send c.tx line) _ w sent true (send-open c.tx line w e)
            ∙ bind_ok (seen_if true id channel seq) (λ _. others) sent seen tt refl
            ∙ deliver_each_lem rs seen
            ∙ rw (e, append_assoc w.outbox ((c.tx, line) ∷ []) (copies line w.closed rs)) refl
      ]

  -- A message goes once, in order, to each recipient whose channel has a receiver, and the read
  -- positions of exactly these recipients are raised to its number; nothing else changes.
  pub broadcast_message_lem :
      (w : World)
      → broadcast_message channel line seq w
        ≡ (ok tt, delivered (recipients_with_ids channel w.inner) w)
  unfolding broadcast_message gets
  broadcast_message_lem w =
      bind_ok (gets (λ v. recipients_with_ids channel v.inner)) _ w w _ refl
      ∙ deliver_each_lem (recipients_with_ids channel w.inner) w

abbrev pub still_open : List ℕ → ClientHandle → Bool
still_open closed client = not (any (eqb client.tx) closed)

abbrev pub line_for : Str → ClientHandle → ℕ × Str
line_for line client = (client.tx, line)

module _ (line : Str) where
  abbrev pub sent_to : List ClientHandle → World → World
  sent_to clients w = record w {
    outbox = w.outbox ++ map (line_for line) (select (still_open w.closed) clients);
  }

  send_each_lem :
      (clients : List ClientHandle) (w : World)
      → send_each clients line w ≡ (ok tt, sent_to clients w)
  unfolding send_each pure select
  send_each_lem [] w = rw (append-nil w.outbox) refl
  send_each_lem (c ∷ cs) w =
      let sent : World = record w { outbox = w.outbox ++ (c.tx, line) ∷ [] } in
      elim (Bool-cases (any (eqb c.tx) w.closed)) [
        | inl e ↦
            bind_ok (send c.tx line) _ w w false (send-closed c.tx line w e)
            ∙ send_each_lem cs w
            ∙ rw e refl
        | inr e ↦
            bind_ok (send c.tx line) _ w sent true (send-open c.tx line w e)
            ∙ send_each_lem cs sent
            ∙ rw
                (
                  e,
                  append_assoc w.outbox ((c.tx, line) ∷ [])
                      (map (line_for line) (select (still_open w.closed) cs)),
                )
                refl
      ]

  pub broadcast_raw_lem :
      (channel : Str) (w : World)
      → broadcast_raw channel line w ≡ (ok tt, sent_to (recipients channel w.inner) w)
  unfolding broadcast_raw gets
  broadcast_raw_lem channel w =
      bind_ok (gets (λ v. recipients channel v.inner)) _ w w _ refl
      ∙ send_each_lem (recipients channel w.inner) w

abbrev IsRecipient : List (Str × ClientHandle) → List Str → Str × ClientHandle → Type 0
IsRecipient clients members (id, client) =
    (lookup id clients ≡ some client) × (any (λ m. m == id) members ≡ true)

connected_sound :
    (clients : List (Str × ClientHandle)) (members : List Str)
    → All (IsRecipient clients members) (connected clients members)
unfolding connected
connected_sound clients [] = tt
connected_sound clients (m ∷ ms) =
    let rest =
      All-map (IsRecipient clients ms) (IsRecipient clients (m ∷ ms))
        (λ r h. (h.0, ground (arith, h.1))) (connected clients ms) (connected_sound clients ms) in
    go (lookup m clients) refl rest
  where
    go :
        (found : Option ClientHandle)
        → lookup m clients ≡ found
        → All (IsRecipient clients (m ∷ ms)) (connected clients ms)
        → All (IsRecipient clients (m ∷ ms)) (cons_client m found (connected clients ms))
    go none h rest = rest
    go (some c) h rest = ((h, ground arith), rest)

-- Every recipient of a channel's messages is a member of the channel, and is reached at the one client
-- that the server holds for it.
recipients_sound :
    (channel : Str) (inner : ServerInner)
    → All
        (λ r.
          (lookup r.0 inner.clients ≡ some r.1)
          × (any (λ m. m == r.0) (members_of (lookup channel inner.channels)) ≡ true))
        (recipients_with_ids channel inner)
unfolding recipients_with_ids
recipients_sound channel inner =
    connected_sound inner.clients (members_of (lookup channel inner.channels))
