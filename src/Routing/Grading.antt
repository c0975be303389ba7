-- ===== src/Routing/Grading.antt =====
-- When the graded evaluation routes to a node, and when it fails.
use openpcc.Base.{
  ◌≡◌, ◌↔◌, Bool, true, false, ◌||◌, ◌&&◌, not, Option, none, some, List, [], ◌⊎◌, arith,
}
use openpcc.Base.Int.{ℤ, pos, ◌-ℤ◌, ltb_ℤ}
use openpcc.Agent.{Agent, is_some}
use openpcc.Health.{Check, GraderConfig, grade, status_ok}
use openpcc.Routing.{returns, panics, evaluate_graded, graded_node_evaluator}

module _ (RoutingInfo : Type 0) (cfg : GraderConfig) (interval now : ℤ) where
  abbrev pub history_of : Option (List Check) → List Check
  history_of none = []
  history_of (some h) = h

  abbrev pub is_alive : Option (Agent RoutingInfo) → Bool
  is_alive none = false
  is_alive (some a) =
      not (is_some a.shutdown_at) && not (ltb_ℤ a.last_event_timestamp (now -ℤ pos cfg.max_age))

  abbrev pub info_of : Option (Agent RoutingInfo) → Option RoutingInfo
  info_of none = none
  info_of (some a) = a.routing_info

  -- The evaluation gives routing information just when the agent is there with that information, has not
  -- shut down, and had an event within the maximal age, and the history, empty where there
  -- is none, is graded as healthy; and then the next evaluation is an interval away. It fails just
  -- for a node without an agent state whose history is graded as healthy.
  pub graded_node_evaluator_lem :
      (a : Option (Agent RoutingInfo)) (nh : Option (List Check))
      → (info : RoutingInfo) (next : Option ℤ)
      → ((graded_node_evaluator RoutingInfo cfg interval now a nh ≡ returns (some info) next) ↔ (
          (is_alive a ≡ true)
          × (info_of a ≡ some info)
          × (grade cfg now (history_of nh) ≡ status_ok)
          × (next ≡ some interval)))
        × ((graded_node_evaluator RoutingInfo cfg interval now a nh ≡ panics) ↔ (
            (is_some a ≡ false)
            × (is_some nh ≡ true)
            × (grade cfg now (history_of nh) ≡ status_ok)))
  unfolding graded_node_evaluator evaluate_graded
  graded_node_evaluator_lem a nh info next = (ground arith, ground arith)

  -- What the evaluation returns; a failure evicts.
  abbrev pub graded :
      Option (Agent RoutingInfo) → Option (List Check) → Option RoutingInfo × Option ℤ
  graded a nh = elim (graded_node_evaluator RoutingInfo cfg interval now a nh) [
    | returns info next ↦ (info, next)
    | panics ↦ (none, none)
  ]

  pub graded_contract :
      (a : Option (Agent RoutingInfo)) (nh : Option (List Check))
      → let (info, next) = graded a nh in
        (info ≡ none) ⊎ ((is_some next && (is_some a || is_some nh)) ≡ true)
  unfolding graded_node_evaluator evaluate_graded
  graded_contract a nh = ground arith
