-- ===== src/Manager/Reach.antt =====
-- Runs of the manager: every node of the routing set is known.
use openpcc.Base.{
  remove_at, ℕ, ◌≡◌, refl, Bool, true, ◌||◌, ◌&&◌, Option, none, List, [], ◌∷◌, inl, inr, ◌⊎◌,
  arith, Option-cases, get_elem?,
}
use openpcc.Base.Int.{ℤ}
use openpcc.Base.Dict.{lookup, list_eq, ◌===◌}
use openpcc.Agent.{Agent, NodeEvent, is_some}
use openpcc.Health.{Check}
use openpcc.Router.{NodeId, Router, RouterChange, merge_event, merge_check, merge_router}
use openpcc.Router.Changes.{is_changed}
use openpcc.Router.Known.{is_known, merge_router_known, merge_event_known, merge_check_known}
use openpcc.Manager.{
  Evaluator, Manager, new_manager, evaluate_router_change, bg_evaluation, bg_evaluation_worker,
  merge_router_state, merge_node_event, merge_healthcheck,
}
use openpcc.Manager.Evaluation.{Holds, evaluate_router_change_lem, bg_evaluation_lem}

-- What the manager is called with, and the entry of the pool that comes out.
pub data Op (RoutingInfo : Type 0) : Type 0 where
  router_state : Router RoutingInfo → Op RoutingInfo
  node_event : NodeEvent RoutingInfo → Op RoutingInfo
  healthcheck : Check → Op RoutingInfo
  delay_over : ℕ → Op RoutingInfo

module _ (RoutingInfo : Type 0) where
  -- The contract of an evaluator: routing information comes with a next check, for a node with a state.
  abbrev pub KeepsContract : Evaluator RoutingInfo → Type 0
  KeepsContract evaluate =
      (a : Option (Agent RoutingInfo)) (h : Option (List Check))
      → let (info, next) = evaluate a h in
        (info ≡ none) ⊎ ((is_some next && (is_some a || is_some h)) ≡ true)

  abbrev pub IsRouted : NodeId → Manager RoutingInfo → Type 0
  IsRouted k m = (lookup k m.routing_set ≡ none) ⊎ (is_known RoutingInfo k m.state ≡ true)

  Holds-IsRouted :
      (evaluate : Evaluator RoutingInfo) (touched : Bool) (k : NodeId) (m m' : Manager RoutingInfo)
      → KeepsContract evaluate
      → Holds RoutingInfo evaluate touched k m m'
      → IsRouted k m
      → IsRouted k m'
  Holds-IsRouted evaluate touched k m m' contract holds routed =
      let kept = contract (lookup k m.state.agents) (lookup k m.state.health) in
      ground (arith, holds, routed, kept)

  -- One call of the manager's, or one round of its worker. The evaluator reads the clock.
  pub step :
      (sort_slice : List Check → List Check)
      → Evaluator RoutingInfo
      → Op RoutingInfo
      → Manager RoutingInfo
      → Manager RoutingInfo
  step sort_slice evaluate (router_state s) m = merge_router_state RoutingInfo evaluate s m
  step sort_slice evaluate (node_event ev) m = merge_node_event RoutingInfo evaluate ev m
  step sort_slice evaluate (healthcheck hc) m =
      merge_healthcheck RoutingInfo sort_slice evaluate hc m
  step sort_slice evaluate (delay_over i) m = bg_evaluation_worker RoutingInfo evaluate i m

  pub run :
      (sort_slice : List Check → List Check)
      → (evaluate : (now : ℤ) → Evaluator RoutingInfo) → List (ℤ × Op RoutingInfo)
      → Manager RoutingInfo
      → Manager RoutingInfo
  run sort_slice evaluate [] m = m
  run sort_slice evaluate ((now, op) ∷ ops) m =
      run sort_slice evaluate ops (step sort_slice (evaluate now) op m)

  changed-IsRouted :
      (evaluate : Evaluator RoutingInfo) (change : RouterChange) (merged : Router RoutingInfo)
      → (m : Manager RoutingInfo) (k : NodeId) → KeepsContract evaluate
      → ((is_known RoutingInfo k m.state ≡ true) → is_known RoutingInfo k merged ≡ true)
      → IsRouted k m
      → IsRouted k
          (evaluate_router_change RoutingInfo evaluate change (record m { state = merged }))
  changed-IsRouted evaluate change merged m k contract known routed =
      let m' : Manager RoutingInfo = record m { state = merged } in
      let still : IsRouted k m' = ground (arith, routed, known) in
      Holds-IsRouted evaluate (is_changed change k) k m'
        (evaluate_router_change RoutingInfo evaluate change m') contract
        (evaluate_router_change_lem RoutingInfo evaluate change m' k) still

  step-IsRouted :
      (sort_slice : List Check → List Check) (evaluate : Evaluator RoutingInfo)
      → (op : Op RoutingInfo) (m : Manager RoutingInfo) (k : NodeId) → KeepsContract evaluate
      → IsRouted k m
      → IsRouted k (step sort_slice evaluate op m)
  unfolding step merge_router_state merge_node_event merge_healthcheck bg_evaluation_worker
  step-IsRouted sort_slice evaluate (router_state s) m k contract routed =
      let (change, merged) = merge_router RoutingInfo m.state s in
      changed-IsRouted evaluate change merged m k contract
        (merge_router_known RoutingInfo m.state s k) routed
  step-IsRouted sort_slice evaluate (node_event ev) m k contract routed =
      let (change, merged) = merge_event RoutingInfo m.state ev in
      changed-IsRouted evaluate change merged m k contract
        (merge_event_known RoutingInfo m.state ev k) routed
  step-IsRouted sort_slice evaluate (healthcheck hc) m k contract routed =
      let (change, merged) = merge_check RoutingInfo sort_slice m.state hc in
      changed-IsRouted evaluate change merged m k contract
        (merge_check_known RoutingInfo sort_slice m.state hc k) routed
  step-IsRouted sort_slice evaluate (delay_over i) m k contract routed =
      elim (Option-cases (get_elem? m.bg_evaluations i)) [
        | inl h ↦ rw (IsRouted, step, bg_evaluation_worker, h) routed
        | inr (entry, h) ↦
            let m' : Manager RoutingInfo = record m {
              bg_evaluations = remove_at i m.bg_evaluations;
            } in
            rw (IsRouted, step, bg_evaluation_worker, h)
              (Holds-IsRouted evaluate (k === entry.0) k m'
                (bg_evaluation RoutingInfo evaluate entry.0 m') contract
                (bg_evaluation_lem RoutingInfo evaluate entry.0 m' k) routed)
      ]

  run-IsRouted :
      (sort_slice : List Check → List Check) (evaluate : (now : ℤ) → Evaluator RoutingInfo)
      → (ops : List (ℤ × Op RoutingInfo)) (m : Manager RoutingInfo) (k : NodeId)
      → ((now : ℤ) → KeepsContract (evaluate now))
      → IsRouted k m
      → IsRouted k (run sort_slice evaluate ops m)
  unfolding run
  run-IsRouted sort_slice evaluate [] m k contract routed = routed
  run-IsRouted sort_slice evaluate ((now, op) ∷ ops) m k contract routed =
      run-IsRouted sort_slice evaluate ops (step sort_slice (evaluate now) op m) k contract
        (step-IsRouted sort_slice (evaluate now) op m k (contract now) routed)

  -- Whatever a new manager is told, and in whatever order its background evaluations come, a node that is
  -- in the routing set has an agent state or a health history, if at all times the evaluator gives
  -- routing information only along with a next check, and for a node that has a state.
  pub routed_known :
      (sort_slice : List Check → List Check) (evaluate : (now : ℤ) → Evaluator RoutingInfo)
      → (ops : List (ℤ × Op RoutingInfo)) (k : NodeId) → ((now : ℤ) → KeepsContract (evaluate now))
      → let m = run sort_slice evaluate ops (new_manager RoutingInfo) in
        (lookup k m.routing_set ≡ none) ⊎ (is_known RoutingInfo k m.state ≡ true)
  unfolding new_manager lookup
  routed_known sort_slice evaluate ops k contract =
      run-IsRouted sort_slice evaluate ops (new_manager RoutingInfo) k contract (inl refl)
