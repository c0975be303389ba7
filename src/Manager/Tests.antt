-- ===== src/Manager/Tests.antt =====
-- A manager at concrete inputs, with the graded evaluation.
use openpcc.Base.{ℕ, none, some, List, [], ◌∷◌}
use openpcc.Base.Int.{ℤ, pos}
use openpcc.Base.Dict.{list_eq}
use openpcc.Health.{GraderConfig}
use openpcc.Agent.{NodeEvent}
use openpcc.Router.{RouterChange, no_change}
use openpcc.Router.Changes.{is_changed}
use openpcc.Routing.Grading.{graded}
use openpcc.Manager.{Evaluator, Manager, evaluate_router_change}
use openpcc.Manager.Evaluation.{Holds, evaluate_router_change_lem}
use openpcc.Manager.Reach.{Op, node_event, delay_over}

abbrev config : GraderConfig
config = record {
  min_checks = 0;
  rate = 0;
  scale = 10;
  max_recent_failure_streak = 3;
  max_age = 30;
}

abbrev evaluator : (now : ℤ) → Evaluator ℕ
evaluator now = graded ℕ config (pos 60) now

abbrev started : NodeEvent ℕ
started = record {
  event_index = pos 1;
  node_id = 1 ∷ [];
  timestamp = pos 100;
  heartbeat = some (some 7);
}

abbrev stopped : NodeEvent ℕ
stopped = record { event_index = pos 2; node_id = 1 ∷ []; timestamp = pos 110; heartbeat = none }

abbrev calls : List (ℤ × Op ℕ)
calls = (pos 100, node_event started) ∷ (pos 110, node_event stopped) ∷ (pos 160, delay_over 0) ∷ []

abbrev known : Manager ℕ
known = record {
  state = record {
    agents =
        (
          1 ∷ [],
          record {
            last_event_index = pos 3;
            last_event_timestamp = pos 80;
            routing_info = some 7;
            shutdown_at = none;
          },
        )
        ∷ [];
    health = [];
  };
  routing_set = (1 ∷ [], 6) ∷ [];
  known_node_count = pos 1;
  bg_evaluations = [];
}

abbrev change : RouterChange
change = record no_change { updated_agents = (1 ∷ [], tt) ∷ [] }

evaluate_router_change_lem_example :
    Holds ℕ
      (evaluator (pos 100))
      (is_changed change (1 ∷ []))
      (1 ∷ [])
      known
      (evaluate_router_change ℕ (evaluator (pos 100)) change known)
evaluate_router_change_lem_example =
    evaluate_router_change_lem ℕ (evaluator (pos 100)) change known (1 ∷ [])
