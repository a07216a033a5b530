-- ===== src/Tests/SessionExamples.antt =====
-- Registration, takeover and departure at two sessions of one agent.
use aircd.Base.{
  ◌≡◌, ◌⊎◌, refl, true, false, some, none, codes, ok, err, Str, if◌then◌else◌, ◌==◌, map,
}
use aircd.Auth.{Principal, authenticate}
use aircd.Maps.{lookup}
use aircd.Protocol.{join_channel}
use aircd.World.{World, Session}
use aircd.World.Returns.{told}
use aircd.Server.Registration.{is_this_session, is_this_channel, disconnect}
use aircd.Server.Connection.{handle_command}
use aircd.Server.Guards.{unregistered_is_refused, replaced_is_refused}
use aircd.Server.Takeover.{Decision, registration_decides}
use aircd.Server.Departure.{departure_decides, left_at}
use aircd.Tests.Samples.{env}
use aircd.Tests.Running.{running}
use aircd.Tests.SystemExamples.{at_work, start}

abbrev agent_a : Principal
agent_a = record { id = codes "agent-a"; nick = codes "agent-a"; team = none }

-- a session that has sent PASS and NICK, with the token of agent-a
abbrev newcomer : Session
newcomer = record {
  session_id = codes "sess_b";
  principal = none;
  nick = some (codes "x");
  pass_token = some (codes "agent-a-token");
  registered = false;
  tx = 3;
  shutdown_tx = 4;
}

abbrev intruder : Session
intruder = record newcomer { pass_token = some (codes "wrong") }

-- a session of agent-a that the one in `start` has replaced
abbrev stale : Session
stale = record at_work { session_id = codes "sess_0"; tx = 9 }

unregistered_is_refused_example :
    handle_command env newcomer (join_channel (codes "#work")) start
    ≡ (ok false, newcomer, told newcomer (codes ":aircd 451 * :You have not registered") start)
unregistered_is_refused_example =
    unregistered_is_refused env newcomer (join_channel (codes "#work")) start refl refl

stale_is_replaced : is_this_session stale (lookup (codes "agent-a") start.inner.clients) ≡ false
unfolding running
stale_is_replaced = refl

replaced_is_refused_example : handle_command env stale (join_channel (codes "#work")) start ≡ (
  err (codes "session replaced"),
  stale,
  told stale (codes ":aircd ERROR :Session replaced by a newer connection") start,
)
replaced_is_refused_example =
    replaced_is_refused env stale (join_channel (codes "#work")) start refl refl agent_a refl
      stale_is_replaced

intruder_is_refused :
    authenticate env.verify (codes "wrong") start.db 0 ≡ (err (codes "invalid token"), 0)
unfolding running
intruder_is_refused = refl

registration_decides_example :
    Decision env newcomer start
      (codes "agent-a-token")
      (codes "x")
      (authenticate env.verify (codes "agent-a-token") start.db 0)
registration_decides_example =
    registration_decides env newcomer start (codes "agent-a-token") (codes "x") refl refl refl

departure_decides_example :
    ((is_this_channel at_work (lookup (codes "agent-a") start.inner.clients) ≡ true)
      × ((w' : World) × (disconnect env at_work start ≡ (ok tt, w'))
          × ((id : Str)
              → lookup id w'.inner.clients
                ≡ (if codes "agent-a" == id then none else lookup id start.inner.clients))
          × (w'.db ≡ record start.db {
            principals = map (left_at (codes "agent-a") (env.clock 0)) start.db.principals;
          })))
    ⊎ ((is_this_channel at_work (lookup (codes "agent-a") start.inner.clients) ≡ false)
        × (disconnect env at_work start ≡ (ok tt, start)))
departure_decides_example = departure_decides env at_work agent_a start refl

-- The session that was replaced leaves nothing, the newer one leaves as the client.
stale_is_not_active : is_this_channel stale (lookup (codes "agent-a") start.inner.clients) ≡ false
unfolding running
stale_is_not_active = refl

worker_is_active : is_this_channel at_work (lookup (codes "agent-a") start.inner.clients) ≡ true
unfolding running
worker_is_active = refl
