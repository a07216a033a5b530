-- ===== src/Server/Endings.antt =====
-- The loop of `handle_stream` of src/server.rs: what a connection leaves behind when it ends.
use aircd.Base.{◌≡◌, true, false, Str, some, any, eqb, ◌==◌}
use aircd.Maps.{lookup}
use aircd.Auth.{Principal}
use aircd.Protocol.{quit, parse_command}
use aircd.World.{World, Session, Env}
use aircd.Server.Registration.{is_this_channel}
use aircd.Server.Connection.{Input, line, end_of_input, read_failure, shutdown, Progress, returned}

-- The end of the input, a message on the shutdown channel, or a QUIT.
abbrev pub IsLast : Input → Type 0
IsLast (line text) = parse_command text ≡ quit
IsLast end_of_input = Unit
IsLast (read_failure e) = ⊥
IsLast (shutdown reason) = Unit

-- The session's channel has no receiver any more, the session is not the client of its principal, and
-- the clients of the other principals are as before.
abbrev pub HasLeft : Session → Principal → World → World → Type 0
HasLeft session p w w' =
    (any (eqb session.tx) w'.closed ≡ true)
    × (is_this_channel session (lookup p.id w'.inner.clients) ≡ false)
    × ((id : Str) → (p.id == id) ≡ false → lookup id w'.inner.clients ≡ lookup id w.inner.clients)

module _ (env : Env) (session : Session) (p : Principal) (known : session.principal ≡ some p) where
  abbrev Leaves : Progress × World → World → Type 0
  Leaves outcome w = (w' : World) × (outcome ≡ (returned, w')) × HasLeft session p w w'
