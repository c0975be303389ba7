-- ===== src/Manager/Evaluation.antt =====
-- What the manager's routing set and state hold of a node after a change is evaluated.
use openpcc.Base.{
  ◌≡◌, refl, Bool, true, [], ◌∷◌, inl, inr, arith, Bool-cases, Option-cases, if◌then◌else◌,
}
use openpcc.Base.Dict.{lookup, list_eq, ◌===◌, eq_of_beq}
use openpcc.Router.{NodeId, RouterChange, changed_state, node_ids}
use openpcc.Router.Changes.{is_changed, node_ids-HasKeysOnce, has-node_ids, unchanged_none}
use openpcc.Routing.Sets.{lookup-update}
use openpcc.Manager.{
  Evaluator, Manager, evaluate_node, evaluate_nodes, evaluate_router_change, bg_evaluation,
}
use openpcc.Manager.Loop.{kept, verdict, evaluate_nodes-NodesEvaluated, evaluate_node-Evaluated}

module _ (RoutingInfo : Type 0) (evaluate : Evaluator RoutingInfo) where
  -- What a manager holds of a node after an evaluation of it, or, with `false`, as before.
  abbrev pub Holds : Bool → NodeId → (m m' : Manager RoutingInfo) → Type 0
  Holds touched k m m' =
      let (info, next) = verdict RoutingInfo evaluate k m in
      (lookup k m'.routing_set ≡ (if touched then info else lookup k m.routing_set))
      × (lookup k m'.state.agents
          ≡ (if touched then kept next (lookup k m.state.agents) else lookup k m.state.agents))
      × (lookup k m'.state.health
          ≡ (if touched then kept next (lookup k m.state.health) else lookup k m.state.health))

  -- After a change is evaluated, for every node: if the change names it, the routing set holds the routing
  -- information that the evaluator returns for its state and health, none if it returns none, and the
  -- state keeps it just if the evaluator asks for a next check. A node that the change does not
  -- name stays as it is in all three.
  pub evaluate_router_change_lem :
      (change : RouterChange) (m : Manager RoutingInfo) (k : NodeId)
      → Holds (is_changed change k) k m (evaluate_router_change RoutingInfo evaluate change m)
  unfolding evaluate_router_change lookup
  evaluate_router_change_lem change m k = elim (Bool-cases (changed_state change)) [
    | inl h ↦
        let loop =
          evaluate_nodes-NodesEvaluated RoutingInfo evaluate change (node_ids change) [] [] m k
            (node_ids-HasKeysOnce change) tt in
        let (adds, dels, m') =
          evaluate_nodes RoutingInfo evaluate change (node_ids change) [] [] m in
        let (_, _, _, once) = loop in
        rw h (
          ground
            (arith, loop, has-node_ids change k, lookup-update k adds dels m'.routing_set once))
    | inr h ↦ rw h (ground (arith, unchanged_none change k h))
  ]

  pub bg_evaluation_lem :
      (id : NodeId) (m : Manager RoutingInfo) (k : NodeId)
      → Holds (k === id) k m (bg_evaluation RoutingInfo evaluate id m)
  unfolding bg_evaluation lookup
  bg_evaluation_lem id m k =
      let (info, evaluated) = evaluate_node RoutingInfo evaluate id true m in
      let step = evaluate_node-Evaluated RoutingInfo evaluate id k true m in
      elim (Bool-cases (k === id)) [
        | inl same ↦ elim (Option-cases info) [
          | inl h ↦
              rw (Holds, bg_evaluation, h)
                (ground (
                  arith,
                  step,
                  h,
                  same,
                  eq_of_beq k id same,
                  lookup-update k [] (id ∷ []) evaluated.routing_set tt,
                ))
          | inr (i, h) ↦
              rw (Holds, bg_evaluation, h)
                (ground (
                  arith,
                  step,
                  h,
                  same,
                  eq_of_beq k id same,
                  lookup-update k ((id, i) ∷ []) [] evaluated.routing_set (refl, tt),
                ))
        ]
        | inr other ↦ elim (Option-cases info) [
          | inl h ↦
              rw (Holds, bg_evaluation, h)
                (ground
                  (arith, step, h, other, lookup-update k [] (id ∷ []) evaluated.routing_set tt))
          | inr (i, h) ↦
              rw (Holds, bg_evaluation, h)
                (ground (
                  arith,
                  step,
                  h,
                  other,
                  lookup-update k ((id, i) ∷ []) [] evaluated.routing_set (refl, tt),
                ))
        ]
      ]
