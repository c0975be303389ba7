-- ===== src/Router/Tests.antt =====
-- Router states at concrete inputs.
use openpcc.Base.{ℕ, ◌≡◌, false, none, some, [], ◌∷◌, arith}
use openpcc.Base.Int.{pos}
use openpcc.Base.Dict.{list_eq}
use openpcc.Agent.{Agent}
use openpcc.Health.{Check, equal}
use openpcc.Router.{Router}

abbrev check_at : ℕ → ℕ → Check
check_at t status = record {
  node_id = 1 ∷ [];
  url = [];
  retries = pos 0;
  timestamp = pos t;
  latency = pos 5;
  http_status_code = pos status;
  error_message = [];
}

abbrev agent_at : ℕ → Agent ℕ
agent_at t = record {
  last_event_index = pos t;
  last_event_timestamp = pos t;
  routing_info = some 7;
  shutdown_at = none;
}

abbrev ours : Router ℕ
ours = record { agents = (1 ∷ [], agent_at 3) ∷ []; health = (1 ∷ [], check_at 10 200 ∷ []) ∷ [] }

abbrev theirs : Router ℕ
theirs = record {
  agents = (2 ∷ [], agent_at 4) ∷ (1 ∷ [], agent_at 5) ∷ [];
  health = (1 ∷ [], check_at 10 500 ∷ []) ∷ (2 ∷ [], check_at 20 200 ∷ []) ∷ [];
}

different : equal (check_at 10 200) (check_at 10 500) ≡ false
unfolding equal
different = ground arith
