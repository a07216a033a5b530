-- ===== src/Server/Invariants/Broadcasts.antt =====
-- Queries on memberships and broadcasts keep what the operations on the database keep.
use aircd.Base.{Bool, true, false, List, [], ◌∷◌, Str, ℤ}
use aircd.World.{ClientHandle}
use aircd.World.Keeps.{Keeps, Core, keeps_rules, Keeps-bind, Keeps-modify}
use aircd.Server.Members.{mark_seen, memberships, is_member, display_name}
use aircd.Server.Delivery.{send_each, broadcast_raw, seen_if, deliver_each, broadcast_message}
use aircd.Server.Invariants.{IsKept}

module _ {P : Core → Type 0} (kept : IsKept P) where
  pub mark_seen-Keeps : (id channel : Str) (seq : ℤ) → Keeps P (mark_seen id channel seq)
  unfolding mark_seen
  mark_seen-Keeps id channel seq =
      Keeps-modify _ (λ w h. kept.raise_seen id channel seq w.db w.inner h)

  pub memberships-Keeps : (id : Str) → Keeps P (memberships id)
  unfolding memberships
  memberships-Keeps id = search keeps_rules

  pub display_name-Keeps : (id : Str) → Keeps P (display_name id)
  unfolding display_name
  display_name-Keeps id = search keeps_rules

  pub is_member-Keeps : (id channel : Str) → Keeps P (is_member id channel)
  unfolding is_member
  is_member-Keeps id channel = search keeps_rules

  pub send_each-Keeps :
      (clients : List ClientHandle) (text : Str) → Keeps P (send_each clients text)
  unfolding send_each
  send_each-Keeps [] text = search keeps_rules
  send_each-Keeps (client ∷ clients) text =
      Keeps-bind _ _ (search keeps_rules) (λ _. send_each-Keeps clients text)

  pub broadcast_raw-Keeps : (channel text : Str) → Keeps P (broadcast_raw channel text)
  unfolding broadcast_raw
  broadcast_raw-Keeps channel text = search (keeps_rules, send_each-Keeps)

  pub seen_if-Keeps :
      (sent : Bool) (id channel : Str) (seq : ℤ) → Keeps P (seen_if sent id channel seq)
  unfolding seen_if
  seen_if-Keeps true id channel seq = mark_seen-Keeps id channel seq
  seen_if-Keeps false id channel seq = search keeps_rules

  pub deliver_each-Keeps :
      (clients : List (Str × ClientHandle)) (channel text : Str) (seq : ℤ)
      → Keeps P (deliver_each clients channel text seq)
  unfolding deliver_each
  deliver_each-Keeps [] channel text seq = search keeps_rules
  deliver_each-Keeps ((id, client) ∷ clients) channel text seq =
      Keeps-bind _ _ (search keeps_rules) (λ sent.
        Keeps-bind _ _ (seen_if-Keeps sent id channel seq)
          (λ _. deliver_each-Keeps clients channel text seq))

  pub broadcast_message-Keeps :
      (channel text : Str) (seq : ℤ) → Keeps P (broadcast_message channel text seq)
  unfolding broadcast_message
  broadcast_message-Keeps channel text seq = search (keeps_rules, deliver_each-Keeps)
