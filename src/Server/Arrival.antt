-- ===== src/Server/Arrival.antt =====
-- `enter_server`, the part of `try_register` of src/server.rs behind the authentication, as a whole.
use mathlib.Core.Path.{ap₂}
use aircd.Base.{◌≡◌, refl, ap, ◌∙◌, false, some, List, ◌++◌, map, Str, ℕ, ◌+◌, ok, any, eqb}
use aircd.Maps.{lookup, insert}
use aircd.Auth.{Principal}
use aircd.History.Log.{IsLog}
use aircd.World.{World, Session, Env, ◌>>=◌, gets, modify, unix_timestamp}
use aircd.World.Returns.{bind_ok}
use aircd.Server.Members.{
  Membership, memberships, memberships_of, set_connected, mark_connected_and_memberships,
}
use aircd.Server.Registration.{handle_of, enter_channels, attach, enter_server}
use aircd.Server.Guarantees.{respects-IsLog}
use aircd.Server.Replay.{replay_line}
use aircd.Server.Returning.{
  set_connected-SameReading, missed, caught_up, missed-SameReading, caught_up-SameReading,
  replay_line-SameReading,
}
use aircd.Server.Greeting.{greeting, replacement, attach_lem, greeted}

marks :
    (env : Env) (id : Str) (w : World)
    → mark_connected_and_memberships env id w ≡ (
      ok (memberships_of id w.db),
      record w { db = set_connected id (env.clock w.readings) w.db; readings = w.readings + 1 },
    )
unfolding mark_connected_and_memberships memberships memberships_of set_connected unix_timestamp
    modify gets ◌>>=◌
marks env id w = refl

-- the outbox behind the greeting
abbrev pub greeted_outbox : Session → Principal → List Membership → World → List (ℕ × Str)
greeted_outbox session p ms w =
    (w.outbox ++ replacement p.id (lookup p.id w.inner.clients) w.closed)
    ++ map (λ l. (session.tx, l)) (greeting p ms)

-- the state behind the arrival of a principal with these memberships
abbrev pub arrived : Env → Session → Principal → List Membership → World → World
arrived env session p ms w = record w {
  db = caught_up p.id w.db ms (set_connected p.id (env.clock w.readings) w.db);
  inner =
      enter_channels p.id (map (λ (m : Membership). m.channel) ms)
        (record w.inner { clients = insert p.id (handle_of session) w.inner.clients });
  outbox = greeted_outbox session p ms w ++ map (replay_line session w.db) (missed w.db ms);
  readings = w.readings + 1;
}

pub enter_server_lem :
    (env : Env) (session : Session) (p : Principal) (w : World)
    → session.principal ≡ some p
    → IsLog w.db
    → any (eqb session.tx) w.closed ≡ false
    → enter_server env session p w ≡ (ok tt, arrived env session p (memberships_of p.id w.db) w)
unfolding enter_server
enter_server_lem env session p w known log listens =
    let ms = memberships_of p.id w.db in
    let channels = map (λ (m : Membership). m.channel) ms in
    let marked : World = record w {
      db = set_connected p.id (env.clock w.readings) w.db;
      readings = w.readings + 1;
    } in
    let same = set_connected-SameReading p.id (env.clock w.readings) w.db in
    let entered : World = record marked {
      inner =
          enter_channels p.id channels
            (record w.inner { clients = insert p.id (handle_of session) w.inner.clients });
      outbox = w.outbox ++ replacement p.id (lookup p.id w.inner.clients) w.closed;
    } in
    bind_ok (mark_connected_and_memberships env p.id) _ w marked ms (marks env p.id w)
    ∙ bind_ok (attach session p.id channels) _ marked entered tt
        (attach_lem session p.id channels marked)
    ∙ greeted session p ms entered known (respects-IsLog w.db marked.db same.log log) listens
    ∙ ap₂
        (λ db replays. (
          ok tt,
          record entered {
            db = db;
            outbox = (entered.outbox ++ map (λ l. (session.tx, l)) (greeting p ms)) ++ replays;
          },
        ))
        (caught_up-SameReading p.id w.db marked.db ms marked.db same)
        (ap (map (replay_line session marked.db)) (missed-SameReading w.db marked.db ms same)
          ∙ replay_line-SameReading session w.db marked.db (missed w.db ms) same)
