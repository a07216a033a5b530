-- ===== src/Server/Membership.antt =====
-- JOIN and PART of src/server.rs: what they do to the two views of membership, the table
-- `channel_memberships` and the sets of members that broadcasts read.
use aircd.Base.{
  arith, ◌≡◌, refl, ap, ◌∙◌, Bool, true, false, ◌&&◌, Option, none, some, List, [], ◌∷◌, Str, codes,
  ◌+◌, if◌then◌else◌, ◌==◌, ok,
}
use aircd.Strings.{concat}
use aircd.Maps.{
  lookup, insert_member, remove_member, lookup-insert, holds, holds-insert_member,
  holds-remove_member,
}
use aircd.Auth.{Principal}
use aircd.World.{
  World, ServerInner, Session, Env, ◌>>=◌, lift, modify, unix_timestamp, session_principal,
  principal_or_error,
}
use aircd.World.Returns.{bind_ok}
use aircd.Server.Members.{
  insert_membership, delete_membership, has_membership, add_membership, remove_membership,
}
use aircd.Server.Delivery.{members_of, recipients}
use aircd.Server.Chat.{or_default, enter_channel, without_member, leave_channel, join, part}
use aircd.Server.Fanout.{sent_to, broadcast_raw_lem}
use aircd.Server.Joining.{has_membership-insert, has_membership-delete}

-- membership as broadcasts see it
abbrev pub is_listed : Str → Str → ServerInner → Bool
is_listed id channel inner = holds id (members_of (lookup channel inner.channels))

module _ (id channel : Str) (inner : ServerInner) (other room : Str) where
  pub is_listed-enter_channel :
      is_listed other room (enter_channel id channel inner)
      ≡ (if other == id && room == channel then true else is_listed other room inner)
  unfolding enter_channel
  is_listed-enter_channel =
      ap (λ ms. holds other (members_of ms)) (lookup-insert channel room _ inner.channels)
      ∙ go (lookup channel inner.channels) refl
    where
      go :
          (found : Option (List Str))
          → lookup channel inner.channels ≡ found
          → holds other (
              members_of (
                if channel == room
                then some (insert_member id (or_default found))
                else lookup room inner.channels))
            ≡ (if other == id && room == channel then true else is_listed other room inner)
      go none h = ground (arith, h, holds-insert_member id other [])
      go (some ms) h = ground (arith, h, holds-insert_member id other ms)

  pub is_listed-leave_channel :
      is_listed other room (leave_channel id channel inner)
      ≡ (if other == id && room == channel then false else is_listed other room inner)
  unfolding leave_channel
  is_listed-leave_channel = go (lookup channel inner.channels) refl
    where
      go :
          (found : Option (List Str))
          → lookup channel inner.channels ≡ found
          → is_listed other room (without_member id channel inner found)
            ≡ (if other == id && room == channel then false else is_listed other room inner)
      go none h = ground (arith, h)
      go (some ms) h =
          ap (λ xs. holds other (members_of xs))
            (lookup-insert channel room (remove_member id ms) inner.channels)
          ∙ ground (arith, h, holds-remove_member id other ms)

module _ (env : Env) (session : Session) (p : Principal) (channel : Str) (w : World) where
  abbrev pub joined : World
  joined = record w {
    db = insert_membership p.id channel (env.clock w.readings) w.db;
    inner = enter_channel p.id channel w.inner;
    readings = w.readings + 1;
  }

  abbrev pub join_line : Str
  join_line = concat (codes ":" ∷ p.nick ∷ codes " JOIN " ∷ channel ∷ [])

  join_lem :
      session.principal ≡ some p
      → join env session channel w
        ≡ (ok tt, sent_to join_line (recipients channel joined.inner) joined)
  unfolding join session_principal add_membership unix_timestamp modify lift ◌>>=◌
  join_lem known =
      bind_ok (session_principal session) _ w w p (ap (λ q. (principal_or_error q, w)) known)
      ∙ broadcast_raw_lem join_line channel joined

  -- JOIN makes the session's principal a member of the channel, in the table and for broadcasts, and
  -- changes nobody else's membership, nor that of the principal in other channels.
  pub join_adds :
      session.principal ≡ some p
      → (w' : World) × (join env session channel w ≡ (ok tt, w'))
        × ((other room : Str)
            → (has_membership other room w'.db ≡ (
                if other == p.id && room == channel then true else has_membership other room w.db))
              × (is_listed other room w'.inner ≡ (
                  if other == p.id && room == channel then true else is_listed other room w.inner)))
  join_adds known = (
    _,
    join_lem known,
    λ other room. (
      has_membership-insert p.id channel (env.clock w.readings) w.db other room,
      is_listed-enter_channel p.id channel w.inner other room,
    ),
  )

  abbrev pub parted : World
  parted = record w {
    db = delete_membership p.id channel w.db;
    inner = leave_channel p.id channel w.inner;
  }

  abbrev pub part_line : Str
  part_line = concat (codes ":" ∷ p.nick ∷ codes " PART " ∷ channel ∷ [])

  part_lem :
      session.principal ≡ some p
      → part session channel w ≡ (ok tt, sent_to part_line (recipients channel parted.inner) parted)
  unfolding part session_principal remove_membership modify lift ◌>>=◌
  part_lem known =
      bind_ok (session_principal session) _ w w p (ap (λ q. (principal_or_error q, w)) known)
      ∙ broadcast_raw_lem part_line channel parted

  -- PART ends the principal's membership of the channel, in the table and for broadcasts, and changes
  -- nobody else's membership, nor that of the principal in other channels.
  pub part_removes :
      session.principal ≡ some p
      → (w' : World) × (part session channel w ≡ (ok tt, w'))
        × ((other room : Str)
            → (has_membership other room w'.db ≡ (
                if other == p.id && room == channel then false else has_membership other room w.db))
              × (is_listed other room w'.inner ≡ (
                  if other == p.id && room == channel
                  then false
                  else is_listed other room w.inner)))
  part_removes known = (
    _,
    part_lem known,
    λ other room. (
      has_membership-delete p.id channel w.db other room,
      is_listed-leave_channel p.id channel w.inner other room,
    ),
  )
