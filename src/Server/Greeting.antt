-- ===== src/Server/Greeting.antt =====
-- `enter_server`, the part of `try_register` of src/server.rs behind the authentication: everything that
-- the new session is sent, and the state behind it.
use aircd.Base.{
  ◌≡◌, refl, sym, ap, ◌∙◌, false, Option, none, some, List, [], ◌∷◌, ◌++◌, append_assoc, append-nil,
  map, map-append, Str, codes, ℕ, ok, any, eqb, if◌then◌else◌, length, Bool-cases, inl, inr,
}
use aircd.Strings.{concat}
use aircd.Strings.Numbers.{show_ℕ}
use aircd.Maps.{lookup, insert}
use aircd.Auth.{Principal}
use aircd.History.Log.{IsLog}
use aircd.World.{World, ClientHandle, Session, ◌>>=◌, ◌>>◌, pure, gets, modify, send, say}
use aircd.World.Returns.{bind_ok, say-returns}
use aircd.Server.Members.{Membership}
use aircd.Server.Registration.{
  handle_of, shut_down, enter_channels, attach, welcome, say_joins, replay_missed,
}
use aircd.Server.Replay.{told_listens, replayed}
use aircd.Server.Returning.{missed, caught_up, replay_each_lem}

abbrev pub join_line : Str → Str → Str
join_line nick channel = concat (codes ":" ∷ nick ∷ codes " JOIN " ∷ channel ∷ [])

-- the notice in front of a replay, if there is a channel
abbrev pub replay_notice : Str → List Membership → List Str
replay_notice nick [] = []
replay_notice nick (m ∷ ms) =
    concat (
      codes ":aircd NOTICE "
      ∷ nick
      ∷ codes " :Replaying missed messages for "
      ∷ show_ℕ (length (m ∷ ms))
      ∷ codes " channel(s)"
      ∷ [])
    ∷ []

abbrev pub greeting : Principal → List Membership → List Str
greeting p ms =
    welcome p ∷ map (λ (m : Membership). join_line p.nick m.channel) ms ++ replay_notice p.nick ms

-- what the session that is replaced is told, if there is one and it listens
abbrev pub replacement : Str → Option ClientHandle → List ℕ → List (ℕ × Str)
replacement id none closed = []
replacement id (some old) closed =
    if any (eqb old.shutdown_tx) closed
    then []
    else (old.shutdown_tx, codes "Replaced by a newer session for " ++ id) ∷ []

abbrev pub hears : Session → List Str → World → World
hears session lines w = record w { outbox = w.outbox ++ map (λ l. (session.tx, l)) lines }

shut_down_lem :
    (id : Str) (old : Option ClientHandle) (w : World)
    → shut_down id old w ≡ (ok tt, record w { outbox = w.outbox ++ replacement id old w.closed })
unfolding shut_down pure send ◌>>=◌
shut_down_lem id none w = rw (append-nil w.outbox) refl
shut_down_lem id (some old) w = elim (Bool-cases (any (eqb old.shutdown_tx) w.closed)) [
  | inl e ↦ rw (e, append-nil w.outbox) refl
  | inr e ↦ rw e refl
]

module _ (session : Session) where
  say_heard :
      (line : Str) (w : World)
      → any (eqb session.tx) w.closed ≡ false
      → say session line w ≡ (ok tt, hears session (line ∷ []) w)
  say_heard line w listens =
      say-returns session line w ∙ ap (λ v. (ok tt, v)) (told_listens session line w listens)

  hears-hears :
      (xs ys : List Str) (w : World)
      → hears session ys (hears session xs w) ≡ hears session (xs ++ ys) w
  hears-hears xs ys w =
      ap (λ o. record w { outbox = o })
        (append_assoc w.outbox (map (λ l. (session.tx, l)) xs) (map (λ l. (session.tx, l)) ys)
          ∙ ap (λ ls. w.outbox ++ ls) (sym (map-append (λ l. (session.tx, l)) xs ys)))

  say_joins_lem :
      (nick : Str) (ms : List Membership) (w : World)
      → any (eqb session.tx) w.closed ≡ false
      → say_joins session nick (map (λ (m : Membership). m.channel) ms) w
        ≡ (ok tt, hears session (map (λ (m : Membership). join_line nick m.channel) ms) w)
  unfolding say_joins pure
  say_joins_lem nick [] w listens = rw (append-nil w.outbox) refl
  say_joins_lem nick (m ∷ ms) w listens =
      bind_ok (say session (join_line nick m.channel)) _ w _ tt (say_heard _ w listens)
      ∙ say_joins_lem nick ms (hears session (join_line nick m.channel ∷ []) w) listens
      ∙ ap (λ v. (ok tt, v)) (hears-hears (join_line nick m.channel ∷ []) _ w)

  replay_missed_lem :
      (p : Principal) (nick : Str) (ms : List Membership) (w : World)
      → session.principal ≡ some p
      → IsLog w.db
      → any (eqb session.tx) w.closed ≡ false
      → replay_missed session nick ms w ≡ (
        ok tt,
        record (replayed session (missed w.db ms) (hears session (replay_notice nick ms) w)) {
          db = caught_up p.id w.db ms w.db;
        },
      )
  unfolding replay_missed pure
  replay_missed_lem p nick [] w known log listens =
      rw (append-nil (w.outbox ++ []), append-nil w.outbox) refl
  replay_missed_lem p nick (m ∷ ms) w known log listens =
      bind_ok _ _ w _ tt (say_heard _ w listens)
      ∙ replay_each_lem session p (m ∷ ms) (hears session (replay_notice nick (m ∷ ms)) w) known log
          listens

  pub attach_lem :
      (id : Str) (channels : List Str) (w : World)
      → attach session id channels w ≡ (
        ok tt,
        record w {
          inner =
              enter_channels id channels
                (record w.inner { clients = insert id (handle_of session) w.inner.clients });
          outbox = w.outbox ++ replacement id (lookup id w.inner.clients) w.closed;
        },
      )
  unfolding attach gets modify ◌>>=◌
  attach_lem id channels w =
      rw
        (shut_down_lem id (lookup id w.inner.clients) (record w {
          inner = record w.inner { clients = insert id (handle_of session) w.inner.clients };
        }))
        refl

  -- everything behind `attach`
  pub greeted :
      (p : Principal) (ms : List Membership) (w : World)
      → session.principal ≡ some p
      → IsLog w.db
      → any (eqb session.tx) w.closed ≡ false
      → (do
        say session (welcome p)
        say_joins session p.nick (map (λ (m : Membership). m.channel) ms)
        replay_missed session p.nick ms)
          w
        ≡ (
          ok tt,
          record (replayed session (missed w.db ms) (hears session (greeting p ms) w)) {
            db = caught_up p.id w.db ms w.db;
          },
        )
  greeted p ms w known log listens =
      let joins = map (λ (m : Membership). join_line p.nick m.channel) ms in
      let welcomed = hears session (welcome p ∷ []) w in
      let joined = hears session joins welcomed in
      bind_ok _ _ w welcomed tt (say_heard _ w listens)
      ∙ bind_ok _ _ welcomed joined tt (say_joins_lem p.nick ms welcomed listens)
      ∙ replay_missed_lem p p.nick ms joined known log listens
      ∙ ap
          (λ v. (
            ok tt,
            record (replayed session (missed w.db ms) v) { db = caught_up p.id w.db ms w.db },
          ))
          (ap (hears session (replay_notice p.nick ms)) (hears-hears (welcome p ∷ []) joins w)
            ∙ hears-hears (welcome p ∷ joins) (replay_notice p.nick ms) w)
