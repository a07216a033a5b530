-- ===== src/Server/Guards.antt =====
-- `ensure_registered` and `ensure_active` of src/server.rs, in front of every command that needs a
-- registered session which nothing has replaced.
use aircd.Base.{
  arith, ◌≡◌, refl, ◌∙◌, if◌then◌else◌, ap, Bool, true, false, some, Str, codes, ok, err,
}
use aircd.Auth.{Principal}
use aircd.Maps.{lookup}
use aircd.Protocol.{
  Command, pass, nick, user, join_channel, part, privmsg, ping, pong, quit, cap_negotiation,
  history, task_create, task_claim, task_done, task_release, task_list, unknown,
}
use aircd.World.Returns.{bind_ok, bind_err, told, say-then, say-bind}
use aircd.World.{
  World, Session, Env, Exec, ◌>>=◌, pure, lift, gets, session_principal, principal_or_error,
}
use aircd.Server.Registration.{
  refuse, ensure_active, active_or_error, ensure_registered, is_this_session, with_session,
}
use aircd.Server.Connection.{guarded, if_registered, serve_command, handle_command}

-- the commands that a session may give only when it is registered and active
abbrev pub needs_registration : Command → Bool
needs_registration (join_channel _) = true
needs_registration (part _) = true
needs_registration (privmsg _ _) = true
needs_registration (history _ _ _) = true
needs_registration (task_create _ _) = true
needs_registration (task_claim _) = true
needs_registration (task_done _) = true
needs_registration (task_release _) = true
needs_registration (task_list _) = true
needs_registration _ = false

abbrev unregistered_text : Str
unregistered_text = codes ":aircd 451 * :You have not registered"

abbrev replaced_text : Str
replaced_text = codes ":aircd ERROR :Session replaced by a newer connection"

module _ (session : Session) (operation : Exec (Unit {0})) (w : World) where
  guarded_unregistered :
      session.registered ≡ false
      → guarded session operation w ≡ (ok false, told session unregistered_text w)
  unfolding guarded ensure_registered refuse if_registered pure
  guarded_unregistered unregistered =
      ap
        (λ b.
          ((if b then ensure_active session else refuse session) >>= λ r. if_registered r operation)
            w)
        unregistered
      ∙ bind_ok (refuse session) _ w _ false (say-then session unregistered_text false w)

  active_or_error-false :
      active_or_error session false w
      ≡ (err (codes "session replaced"), told session replaced_text w)
  unfolding active_or_error lift
  active_or_error-false = say-bind session replaced_text _ w

  ensure_active-replaced :
      (p : Principal)
      → session.principal ≡ some p
      → is_this_session session (lookup p.id w.inner.clients) ≡ false
      → ensure_active session w ≡ (err (codes "session replaced"), told session replaced_text w)
  unfolding ensure_active session_principal lift gets
  ensure_active-replaced p known replaced =
      bind_ok (session_principal session) _ w w p (ap (λ q. (principal_or_error q, w)) known)
      ∙ bind_ok (gets (λ v. is_this_session session (lookup p.id v.inner.clients)))
          (active_or_error session) w w false (ap (λ b. (ok b, w)) replaced)
      ∙ active_or_error-false

  guarded_replaced :
      (p : Principal)
      → session.registered ≡ true
      → session.principal ≡ some p
      → is_this_session session (lookup p.id w.inner.clients) ≡ false
      → guarded session operation w ≡ (err (codes "session replaced"), told session replaced_text w)
  unfolding guarded ensure_registered
  guarded_replaced p registered known replaced =
      ap
        (λ b.
          ((if b then ensure_active session else refuse session) >>= λ r. if_registered r operation)
            w)
        registered
      ∙ bind_err (ensure_active session) _ w _ (codes "session replaced")
          (ensure_active-replaced p known replaced)

  -- An active session's operation is run, and the connection goes on.
  pub guarded_active :
      (p : Principal) (w' : World)
      → session.registered ≡ true
      → session.principal ≡ some p
      → is_this_session session (lookup p.id w.inner.clients) ≡ true
      → operation w ≡ (ok tt, w')
      → guarded session operation w ≡ (ok false, w')
  unfolding guarded ensure_registered ensure_active active_or_error session_principal lift gets
      if_registered pure
  guarded_active p w' registered known active done =
      ap
        (λ b.
          ((if b then ensure_active session else refuse session) >>= λ r. if_registered r operation)
            w)
        registered
      ∙ bind_ok (ensure_active session) _ w w true (
          bind_ok (session_principal session) _ w w p (ap (λ q. (principal_or_error q, w)) known)
          ∙ bind_ok (gets (λ v. is_this_session session (lookup p.id v.inner.clients)))
              (active_or_error session) w w true (ap (λ b. (ok b, w)) active))
      ∙ bind_ok operation _ w w' tt done

not_true : ¬ (false ≡ true)
not_true h = ground arith

-- every command that needs registration is an operation behind the guard
operation_of :
    (env : Env) (session : Session) (c : Command) (w : World)
    → needs_registration c ≡ true
    → (operation : Exec (Unit {0})) × (handle_command env session c w
        ≡ with_session session (guarded session operation w))
unfolding handle_command serve_command
operation_of env session (join_channel channel) w h = (_, refl)
operation_of env session (part channel) w h = (_, refl)
operation_of env session (privmsg target body) w h = (_, refl)
operation_of env session (history channel after_seq limit) w h = (_, refl)
operation_of env session (task_create channel title) w h = (_, refl)
operation_of env session (task_claim task_id) w h = (_, refl)
operation_of env session (task_done task_id) w h = (_, refl)
operation_of env session (task_release task_id) w h = (_, refl)
operation_of env session (task_list channel) w h = (_, refl)
operation_of env session (pass token) w h = absurd (not_true h)
operation_of env session (nick name) w h = absurd (not_true h)
operation_of env session (user name) w h = absurd (not_true h)
operation_of env session (ping token) w h = absurd (not_true h)
operation_of env session pong w h = absurd (not_true h)
operation_of env session quit w h = absurd (not_true h)
operation_of env session (cap_negotiation subcommand capabilities) w h = absurd (not_true h)
operation_of env session (unknown name) w h = absurd (not_true h)

module _ (env : Env) (session : Session) (c : Command) (w : World) where
  -- A session that is not registered gets the error 451 for every command that needs registration: the
  -- connection goes on, and neither the session nor anything in the server but the outbox changes.
  pub unregistered_is_refused :
      needs_registration c ≡ true
      → session.registered ≡ false
      → handle_command env session c w
        ≡ (ok false, session, told session (codes ":aircd 451 * :You have not registered") w)
  unregistered_is_refused guarded_command unregistered =
      let (operation, runs) = operation_of env session c w guarded_command in
      runs ∙ ap (with_session session) (guarded_unregistered session operation w unregistered)

  -- A registered session that a newer one has replaced, so that the client of its principal is another
  -- session or none, is told so at the next command that needs registration; the command fails, which
  -- ends the connection, and nothing in the server but the outbox changes.
  pub replaced_is_refused :
      needs_registration c ≡ true
      → session.registered ≡ true
      → (p : Principal) → session.principal ≡ some p
      → is_this_session session (lookup p.id w.inner.clients) ≡ false
      → handle_command env session c w ≡ (
        err (codes "session replaced"),
        session,
        told session (codes ":aircd ERROR :Session replaced by a newer connection") w,
      )
  replaced_is_refused guarded_command registered p known replaced =
      let (operation, runs) = operation_of env session c w guarded_command in
      runs
      ∙ ap (with_session session) (guarded_replaced session operation w p registered known replaced)
