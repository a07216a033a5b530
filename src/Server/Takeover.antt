-- ===== src/Server/Takeover.antt =====
-- `try_register` and `disconnect` of src/server.rs on the table of clients: a principal has one client,
-- the newest session that registered for it, and only that session's departure removes it.
use aircd.Base.{
  ◌≡◌, refl, ap, ◌∙◌, false, some, List, [], ◌∷◌, map, Str, codes, ℕ, Result, ok, err,
  if◌then◌else◌, ◌==◌, true,
}
use aircd.Auth.{Principal, authenticate}
use aircd.Maps.{lookup, insert, lookup-insert}
use aircd.World.{World, ServerInner, ClientHandle, Session, Env, Exec, ◌>>=◌, gets, modify}
use aircd.World.Returns.{bind_ok, told, say-returns}
use aircd.World.Succeeds.{Succeeds, Succeeds-bind, Succeeds-say}
use aircd.Server.Replies.{
  Succeeds-mark_connected, Succeeds-say_joins, Succeeds-replay_missed, Succeeds-shut_down,
}
use aircd.Server.Members.{Membership, mark_connected_and_memberships}
use aircd.Server.Chat.{enter_channel}
use aircd.Server.Registration.{
  handle_of, enter_channels, attach, welcome, enter_server, registered_as, with_session, admit,
  authenticate_session, with_token_and_nick, try_register,
}

enter_channels-clients :
    (id : Str) (channels : List Str) (inner : ServerInner)
    → (enter_channels id channels inner).clients ≡ inner.clients
unfolding enter_channels enter_channel
enter_channels-clients id [] inner = refl
enter_channels-clients id (channel ∷ channels) inner =
    enter_channels-clients id channels (enter_channel id channel inner)

-- an action that ends well with these clients
abbrev Ends : Exec (Unit {0}) → World → List (Str × ClientHandle) → Type 0
Ends m w clients = (w' : World) × (m w ≡ (ok tt, w')) × (w'.inner.clients ≡ clients)

attach_lem :
    (session : Session) (id : Str) (channels : List Str) (w : World)
    → Ends (attach session id channels) w (insert id (handle_of session) w.inner.clients)
unfolding attach gets modify ◌>>=◌
attach_lem session id channels w =
    let entered : World = record w {
      inner = record w.inner { clients = insert id (handle_of session) w.inner.clients };
    } in
    let notified = Succeeds-shut_down id (lookup id w.inner.clients) in
    let w' = notified.state entered in
    (
      record w' { inner = enter_channels id channels w'.inner },
      rw (notified.returns entered) refl,
      enter_channels-clients id channels w'.inner
          ∙ ap (λ (i : ServerInner). i.clients) (notified.inner_kept entered),
    )

-- what follows `attach` leaves the clients alone
then_quietly :
    (m : Exec (Unit {0})) (n : Exec (Unit {0})) (w : World) (clients : List (Str × ClientHandle))
    → Ends m w clients
    → Succeeds n
    → Ends (m >>= λ _. n) w clients
then_quietly m n w clients (w', ends, same) quiet = (
  quiet.state w',
  bind_ok m (λ _. n) w w' tt ends ∙ quiet.returns w',
  ap (λ (i : ServerInner). i.clients) (quiet.inner_kept w') ∙ same,
)

enter_server_lem :
    (env : Env) (session : Session) (p : Principal) (w : World)
    → session.principal ≡ some p
    → Ends (enter_server env session p) w (insert p.id (handle_of session) w.inner.clients)
unfolding enter_server
enter_server_lem env session p w known =
    let marked = Succeeds-mark_connected env p.id in
    let memberships = marked.value w in
    let rest = λ (ms : List Membership). Succeeds-bind _ _ (Succeeds-say session (welcome p)) (λ _.
      Succeeds-bind _ _ (Succeeds-say_joins session p.nick (map (λ (m : Membership). m.channel) ms))
        (λ _. Succeeds-replay_missed session p known p.nick ms)) in
    let (w', ends, same) =
      then_quietly _ _ (marked.state w) _
        (attach_lem session p.id (map (λ (m : Membership). m.channel) memberships) (marked.state w))
        (rest memberships) in
    (
      w',
      bind_ok (mark_connected_and_memberships env p.id) _ w (marked.state w) memberships
            (marked.returns w)
          ∙ ends,
      same
          ∙ ap (λ (i : ServerInner). insert p.id (handle_of session) i.clients)
              (marked.inner_kept w),
    )

module _ (env : Env) (session : Session) (w : World) (token name : Str) where
  to_authenticate :
      session.registered ≡ false
      → session.pass_token ≡ some token
      → session.nick ≡ some name
      → try_register env session w ≡ authenticate_session env token session w
  unfolding try_register
  to_authenticate fresh has_token has_nick =
      ap
        (λ b.
          if b
          then (ok tt, session, w)
          else with_token_and_nick env session.pass_token session.nick session w)
        fresh
      ∙ ap (λ t. with_token_and_nick env t session.nick session w) has_token
      ∙ ap (λ n. with_token_and_nick env (some token) n session w) has_nick

  pub registration_takes_over :
      session.registered ≡ false
      → session.pass_token ≡ some token
      → session.nick ≡ some name
      → (p : Principal) (hits : ℕ) → authenticate env.verify token w.db w.legacy_hits ≡ (ok p, hits)
      → (w' : World) × (try_register env session w ≡ (ok tt, registered_as p session, w'))
        × ((id : Str)
            → lookup id w'.inner.clients
              ≡ (if p.id == id then some (handle_of session) else lookup id w.inner.clients))
  unfolding authenticate_session admit
  registration_takes_over fresh has_token has_nick p hits authentic =
      let session' = registered_as p session in
      let (w', ends, clients) =
        enter_server_lem env session' p (record w { legacy_hits = hits }) refl in
      (
        w',
        to_authenticate fresh has_token has_nick
            ∙ ap (λ r. admit env session (record w { legacy_hits = r.1 }) r.0) authentic
            ∙ ap (with_session session') ends,
        λ id. ap (lookup id) clients ∙ lookup-insert p.id id (handle_of session) w.inner.clients,
      )

  pub registration_refused :
      session.registered ≡ false
      → session.pass_token ≡ some token
      → session.nick ≡ some name
      → (e : Str) (hits : ℕ) → authenticate env.verify token w.db w.legacy_hits ≡ (err e, hits)
      → try_register env session w ≡ (
        ok tt,
        session,
        told session (codes ":aircd 464 * :Password incorrect") (record w { legacy_hits = hits }),
      )
  unfolding authenticate_session admit
  registration_refused fresh has_token has_nick e hits refused =
      to_authenticate fresh has_token has_nick
      ∙ ap (λ r. admit env session (record w { legacy_hits = r.1 }) r.0) refused
      ∙ ap (with_session session) (say-returns session _ (record w { legacy_hits = hits }))

  -- the session that is now the principal's
  abbrev pub session_of : Principal → Session
  session_of p = record {
    session_id = session.session_id;
    principal = some p;
    nick = some p.nick;
    pass_token = session.pass_token;
    registered = true;
    tx = session.tx;
    shutdown_tx = session.shutdown_tx;
  }

  -- the client that writes to this session
  abbrev pub client_of_session : ClientHandle
  client_of_session = record {
    session_id = session.session_id;
    tx = session.tx;
    shutdown_tx = session.shutdown_tx;
  }

  abbrev pub TakesOver : Principal → Type 0
  TakesOver p =
      (w' : World) × (try_register env session w ≡ (ok tt, session_of p, w'))
      × ((id : Str)
          → lookup id w'.inner.clients
            ≡ (if p.id == id then some client_of_session else lookup id w.inner.clients))

  abbrev pub IsRefused : ℕ → Type 0
  IsRefused hits = try_register env session w ≡ (
    ok tt,
    session,
    told session (codes ":aircd 464 * :Password incorrect") (record w { legacy_hits = hits }),
  )

  abbrev pub Decision : Result Principal × ℕ → Type 0
  Decision (ok p, hits) = TakesOver p
  Decision (err e, hits) = IsRefused hits

  -- A session that is not registered, and has given a token and a nick, registers if the token
  -- authenticates a principal: the session is registered, with this principal and the nick of its row
  -- in place of the nick that was given, and keeps its id, its token and its channels; its handle is
  -- the one client of the principal, whichever client was there, and the clients of other principals
  -- stay. If the token authenticates nobody, the session is told so with the error 464 and stays as it
  -- is, and nothing in the server but the outbox and the counter of legacy logins changes.
  pub registration_decides :
      session.registered ≡ false
      → session.pass_token ≡ some token
      → session.nick ≡ some name
      → Decision (authenticate env.verify token w.db w.legacy_hits)
  registration_decides fresh has_token has_nick =
      go (authenticate env.verify token w.db w.legacy_hits) refl
    where
      go :
          (r : Result Principal × ℕ)
          → authenticate env.verify token w.db w.legacy_hits ≡ r
          → Decision r
      go (ok p, hits) e = registration_takes_over fresh has_token has_nick p hits e
      go (err s, hits) e = registration_refused fresh has_token has_nick s hits e
