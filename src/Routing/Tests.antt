-- ===== src/Routing/Tests.antt =====
-- Evaluations and queries at concrete inputs.
use openpcc.Base.{ℕ, none, some, List, [], ◌∷◌}
use openpcc.Base.Int.{pos}
use openpcc.Health.{Check, GraderConfig}
use openpcc.Agent.{Agent}
use openpcc.Router.{NodeId}

abbrev healthy : Check
healthy = record {
  node_id = 1 ∷ [];
  url = [];
  retries = pos 0;
  timestamp = pos 90;
  latency = pos 5;
  http_status_code = pos 200;
  error_message = [];
}

abbrev config : GraderConfig
config = record {
  min_checks = 1;
  rate = 9;
  scale = 10;
  max_recent_failure_streak = 3;
  max_age = 30;
}

abbrev agent : Agent ℕ
agent = record {
  last_event_index = pos 3;
  last_event_timestamp = pos 80;
  routing_info = some 7;
  shutdown_at = none;
}

abbrev nodes : List (NodeId × ℕ)
nodes = (1 ∷ [], 7) ∷ (2 ∷ [], 3) ∷ (3 ∷ [], 9) ∷ (4 ∷ [], 8) ∷ []
