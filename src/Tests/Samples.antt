-- ===== src/Tests/Samples.antt =====
-- The concrete data of the tests: an environment, two principals, and a server with them.
use aircd.Base.{◌+◌, none, [], ◌∷◌, codes, pos, ok, Str, ◌==◌}
use aircd.Database.{Database, PrincipalRow, empty}
use aircd.World.{World, Env}
use aircd.Strings.Numbers.{show_ℕ}

abbrev pub env : Env
env = record {
  clock = λ n. pos (1000 + n);
  uuid = λ n. show_ℕ n;
  verify = λ secret phc. ok (secret == phc);
  lease_seconds = pos 300;
}

abbrev pub agent : Str → Str → PrincipalRow
agent name token = record {
  id = name;
  nick = name;
  token = token;
  team = none;
  last_seen_seq = pos 0;
  connected_at = none;
  disconnected_at = none;
  created_at = pos 0;
}

abbrev pub two_agents : Database
two_agents = record empty {
  principals =
      agent (codes "agent-a") (codes "agent-a-token")
      ∷ agent (codes "agent-b") (codes "agent-b-token")
      ∷ [];
}

abbrev pub started : World
started = record {
  db = two_agents;
  legacy_hits = 0;
  inner = record { clients = []; channels = [] };
  outbox = [];
  closed = [];
  readings = 0;
  uuids = 0;
}
