-- ===== src/Server/Invariants/Registering.antt =====
-- Registration keeps what the operations keep.
use aircd.Base.{
  map, ◌≡◌, refl, sym, ap, subst, any, eqb, Bool-cases, inl, inr, ◌++◌, ◌+◌, Bool, true, false,
  Option, none, some, List, [], ◌∷◌, Str, codes, Result, ok, err, if◌then◌else◌,
}
use aircd.Auth.{Principal}
use aircd.World.{
  World, Session, ClientHandle, Env, say, send, ◌>>=◌, gets, modify, pure, unix_timestamp,
}
use aircd.World.Returns.{bind_ok}
use aircd.Maps.{lookup, insert}
use aircd.World.Keeps.{Keeps, Core, core, keeps_rules, Keeps-say, Keeps-bind}
use aircd.Server.Members.{
  Membership, memberships, memberships_of, set_connected, mark_connected_and_memberships,
}
use aircd.Server.Registration.{
  shut_down, attach, say_joins, replay_each, replay_missed, enter_server, admit,
  authenticate_session, with_token_and_nick, try_register, registered_as, handle_of, welcome,
  enter_channels,
}
use aircd.Server.Invariants.{IsKept}
use aircd.Server.Invariants.Chatting.{replay_history-Keeps}

-- the block under the lock on `inner` replaces the client and lists it in its channels
shut_down_lem :
    (id : Str) (old : Option ClientHandle) (w : World)
    → (w' : World) × (shut_down id old w ≡ (ok tt, w')) × (core w' ≡ core w)
unfolding shut_down pure send ◌>>=◌
shut_down_lem id none w = (w, refl, refl)
shut_down_lem id (some c) w = elim (Bool-cases (any (eqb c.shutdown_tx) w.closed)) [
  | inl e ↦ (w, rw e refl, refl)
  | inr e ↦ (
    record w {
      outbox = w.outbox ++ (c.shutdown_tx, codes "Replaced by a newer session for " ++ id) ∷ [];
    },
    rw e refl,
    refl,
  )
]

attach_lem :
    (session : Session) (id : Str) (channels : List Str) (w : World)
    → (w' : World) × (attach session id channels w ≡ (ok tt, w'))
      × (core w' ≡ (
        w.db,
        enter_channels id channels
            (record w.inner { clients = insert id (handle_of session) w.inner.clients }),
      ))
unfolding attach gets modify ◌>>=◌
attach_lem session id channels w =
    let old = lookup id w.inner.clients in
    let placed : World = record w {
      inner = record w.inner { clients = insert id (handle_of session) w.inner.clients };
    } in
    let (w', ends, same) = shut_down_lem id old placed in
    (
      record w' { inner = enter_channels id channels w'.inner },
      bind_ok (shut_down id old)
          (λ _. modify (λ v. record v { inner = enter_channels id channels v.inner })) placed w' tt
          ends,
      ap (λ (c : Core). (c.0, enter_channels id channels c.1)) same,
    )

module _ {P : Core → Type 0} (kept : IsKept P) where
  shut_down-Keeps : (id : Str) (old : Option ClientHandle) → Keeps P (shut_down id old)
  unfolding shut_down
  shut_down-Keeps id none = search keeps_rules
  shut_down-Keeps id (some old) = search keeps_rules

  say_joins-Keeps :
      (session : Session) (name : Str) (channels : List Str)
      → Keeps P (say_joins session name channels)
  unfolding say_joins
  say_joins-Keeps session name [] = search keeps_rules
  say_joins-Keeps session name (channel ∷ channels) =
      Keeps-bind _ _ (Keeps-say session _) (λ _. say_joins-Keeps session name channels)

  replay_each-Keeps : (session : Session) (ms : List Membership) → Keeps P (replay_each session ms)
  unfolding replay_each
  replay_each-Keeps session [] = search keeps_rules
  replay_each-Keeps session (m ∷ ms) =
      Keeps-bind _ _ (replay_history-Keeps kept session _ _ _) (λ _. replay_each-Keeps session ms)

  replay_missed-Keeps :
      (session : Session) (name : Str) (ms : List Membership)
      → Keeps P (replay_missed session name ms)
  unfolding replay_missed
  replay_missed-Keeps session name [] = search keeps_rules
  replay_missed-Keeps session name (m ∷ ms) =
      Keeps-bind _ _ (Keeps-say session _) (λ _. replay_each-Keeps session (m ∷ ms))

  greet-Keeps :
      (session : Session) (p : Principal) (ms : List Membership)
      → Keeps P (
          say session (welcome p) >>= λ _.
          say_joins session p.nick (map (λ m. m.channel) ms) >>= λ _.
          replay_missed session p.nick ms)
  greet-Keeps session p ms = search (keeps_rules, say_joins-Keeps, replay_missed-Keeps)

  enter_server-Keeps :
      (env : Env) (session : Session) (p : Principal) → Keeps P (enter_server env session p)
  unfolding enter_server mark_connected_and_memberships memberships gets modify unix_timestamp ◌>>=◌
  enter_server-Keeps env session p = record {
    at = λ w h.
        let now = env.clock w.readings in
        let db = set_connected p.id now w.db in
        let ms = memberships_of p.id db in
        let marked : World = record w { db = db; readings = w.readings + 1 } in
        let (w', entered, same) = attach_lem session p.id (map (λ m. m.channel) ms) marked in
        let step =
          (greet-Keeps session p ms).at w'
            (subst P (sym same) (kept.attached p.id (handle_of session) now w.db w.inner h)) in
        subst (λ (r : Result (Unit {0}) × World). P (core r.1))
          (sym (bind_ok (attach session p.id _) _ marked w' tt entered)) step;
  }

  admit_keeps :
      (env : Env) (session : Session) (w : World) (r : Result Principal)
      → P (core w)
      → P (core (admit env session w r).2)
  unfolding admit
  admit_keeps env session w (err e) h =
      (Keeps-say {P = P} session (codes ":aircd 464 * :Password incorrect")).at w h
  admit_keeps env session w (ok p) h = (enter_server-Keeps env (registered_as p session) p).at w h

  pub try_register_keeps :
      (env : Env) (session : Session) (w : World)
      → P (core w)
      → P (core (try_register env session w).2)
  unfolding try_register
  try_register_keeps env session w h = go session.registered session.pass_token session.nick
    where
      go :
          (b : Bool) (token : Option Str) (name : Option Str)
          → P (
              core
                (if b then (ok tt, session, w) else with_token_and_nick env token name session w).2)
      go true token name = h
      go false none name = h
      go false (some token) none = h
      go false (some token) (some name) =
          unfold authenticate_session in admit_keeps env session _ _ h
