-- ===== src/Server/Delivery.antt =====
-- Broadcasts of src/server.rs to the connected members of a channel.
use aircd.Base.{Bool, Option, none, some, List, [], ◌∷◌, map, Str, ℤ, if◌then◌else◌}
use aircd.Maps.{lookup}
use aircd.World.{ServerInner, ClientHandle, Exec, ◌>>=◌, ◌>>◌, pure, gets, send}
use aircd.Server.Members.{mark_seen}

abbrev pub members_of : Option (List Str) → List Str
members_of none = []
members_of (some members) = members

abbrev pub cons_client :
    Str → Option ClientHandle → List (Str × ClientHandle) → List (Str × ClientHandle)
cons_client principal_id none others = others
cons_client principal_id (some client) others = (principal_id, client) ∷ others

-- the `filter_map` over the members
unfoldable pub connected : List (Str × ClientHandle) → List Str → List (Str × ClientHandle)
connected clients [] = []
connected clients (principal_id ∷ members) =
    cons_client principal_id (lookup principal_id clients) (connected clients members)

unfoldable pub recipients_with_ids : Str → ServerInner → List (Str × ClientHandle)
recipients_with_ids channel inner =
    connected inner.clients (members_of (lookup channel inner.channels))

unfoldable pub recipients : Str → ServerInner → List ClientHandle
recipients channel inner = map (λ r. r.1) (recipients_with_ids channel inner)

unfoldable pub send_each : List ClientHandle → Str → Exec (Unit {0})
send_each [] line = pure tt
send_each (client ∷ clients) line = do send client.tx line; send_each clients line

unfoldable pub broadcast_raw : Str → Str → Exec (Unit {0})
broadcast_raw channel line = do
  clients ← gets (λ w. recipients channel w.inner)
  send_each clients line

-- `if recipient.tx.send(…).is_ok() { self.mark_seen(…)?; }`
unfoldable pub seen_if : Bool → Str → Str → ℤ → Exec (Unit {0})
seen_if sent principal_id channel seq = if sent then mark_seen principal_id channel seq else pure tt

unfoldable pub deliver_each : List (Str × ClientHandle) → Str → Str → ℤ → Exec (Unit {0})
deliver_each [] channel line seq = pure tt
deliver_each ((principal_id, client) ∷ others) channel line seq = do
  sent ← send client.tx line
  seen_if sent principal_id channel seq
  deliver_each others channel line seq

unfoldable pub broadcast_message : Str → Str → ℤ → Exec (Unit {0})
broadcast_message channel line seq = do
  clients ← gets (λ w. recipients_with_ids channel w.inner)
  deliver_each clients channel line seq
