-- ===== src/Server/Departure.antt =====
-- `disconnect` of src/server.rs on the table of clients: only the session that is its principal's client
-- removes it when it leaves.
use aircd.Base.{
  ◌≡◌, refl, ap, ◌∙◌, Bool, true, false, none, some, Str, ok, if◌then◌else◌, ◌==◌, ◌⊎◌, inl, inr,
  Bool-cases, map, update_where, ℤ, List, [], ◌∷◌,
}
use aircd.Database.{Database, PrincipalRow}
use aircd.Auth.{Principal}
use aircd.Maps.{lookup, lookup-remove}
use aircd.World.{World, Session, Env, ◌>>=◌, pure, gets, modify, unix_timestamp}
use aircd.Server.Registration.{
  is_this_channel, set_disconnected, mark_disconnected, disconnect_if, disconnect_principal,
  disconnect,
}

-- The row of a principal that has left at this time.
abbrev pub left_at : Str → ℤ → PrincipalRow → PrincipalRow
left_at id now r = if r.id == id then record r { disconnected_at = some now } else r

departures :
    (id : Str) (now : ℤ) (rows : List PrincipalRow)
    → update_where (λ r. r.id == id) (λ r. record r { disconnected_at = some now }) rows
      ≡ map (left_at id now) rows
unfolding update_where
departures id now [] = refl
departures id now (r ∷ rows) = ap (λ rs. left_at id now r ∷ rs) (departures id now rows)

set_disconnected_lem :
    (id : Str) (now : ℤ) (db : Database)
    → set_disconnected id now db ≡ record db { principals = map (left_at id now) db.principals }
unfolding set_disconnected
set_disconnected_lem id now db =
    ap (λ rs. record db { principals = rs }) (departures id now db.principals)

module _ (env : Env) (session : Session) (p : Principal) (w : World) where
  departure :
      session.principal ≡ some p
      → (b : Bool) → is_this_channel session (lookup p.id w.inner.clients) ≡ b
      → disconnect env session w ≡ disconnect_if env p.id b w
  unfolding disconnect gets ◌>>=◌
  departure known b active =
      ap (λ q. disconnect_principal env session q w) known
      ∙ ap (λ c. disconnect_if env p.id c w) active

  pub replaced_session_leaves_nothing :
      session.principal ≡ some p
      → is_this_channel session (lookup p.id w.inner.clients) ≡ false
      → disconnect env session w ≡ (ok tt, w)
  unfolding disconnect_if pure
  replaced_session_leaves_nothing known replaced = departure known false replaced

  pub active_session_leaves :
      session.principal ≡ some p
      → is_this_channel session (lookup p.id w.inner.clients) ≡ true
      → (w' : World) × (disconnect env session w ≡ (ok tt, w'))
        × ((id : Str)
            → lookup id w'.inner.clients ≡ (if p.id == id then none else lookup id w.inner.clients))
        × (w'.db ≡ record w.db {
          principals = map (left_at p.id (env.clock w.readings)) w.db.principals;
        })
  unfolding disconnect_if mark_disconnected modify unix_timestamp ◌>>=◌
  active_session_leaves known active = (
    _,
    departure known true active,
    λ id. lookup-remove p.id id w.inner.clients,
    set_disconnected_lem p.id (env.clock w.readings) w.db,
  )

  -- When the session of a principal leaves that is its client, the principal has no client any more and
  -- the clients of others stay; in its row, the time of the departure is stored, and every other field,
  -- row and table of the database is as before. When it is not the client any more, nothing changes: it cannot remove
  -- the session that replaced it.
  pub departure_decides :
      session.principal ≡ some p
      → ((is_this_channel session (lookup p.id w.inner.clients) ≡ true)
          × ((w' : World) × (disconnect env session w ≡ (ok tt, w'))
              × ((id : Str)
                  → lookup id w'.inner.clients
                    ≡ (if p.id == id then none else lookup id w.inner.clients))
              × (w'.db ≡ record w.db {
                principals = map (left_at p.id (env.clock w.readings)) w.db.principals;
              })))
        ⊎ ((is_this_channel session (lookup p.id w.inner.clients) ≡ false)
            × (disconnect env session w ≡ (ok tt, w)))
  departure_decides known =
      elim (Bool-cases (is_this_channel session (lookup p.id w.inner.clients))) [
        | inl active ↦ inl (active, active_session_leaves known active)
        | inr replaced ↦ inr (replaced, replaced_session_leaves_nothing known replaced)
      ]
