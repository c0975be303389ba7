-- ===== src/Manager/Count.antt =====
-- The number of known nodes, and a background evaluation that comes after its node's eviction.
use openpcc.Base.{◌≡◌, none, arith, Bool-cases, inl, inr}
use openpcc.Base.Int.{pos, ◌-ℤ◌}
use openpcc.Base.Dict.{lookup, list_eq, lookup-erase, ◌===◌, eq_of_beq}
use openpcc.Router.{NodeId}
use openpcc.Manager.{Evaluator, Manager, bg_evaluation, evaluate_node}

module _ (RoutingInfo : Type 0) where
  -- Let an evaluator evict a node without any state, and let the manager know neither agent state nor health of a
  -- node. A background evaluation of it lowers the number of known nodes by one, and yet leaves
  -- what is known of every node as it was.
  pub bg_evaluation_unknown :
      (evaluate : Evaluator RoutingInfo) (id k : NodeId) (m : Manager RoutingInfo)
      → evaluate none none ≡ (none, none)
      → lookup id m.state.agents ≡ none
      → lookup id m.state.health ≡ none
      → let m' = bg_evaluation RoutingInfo evaluate id m in
        (m'.known_node_count ≡ m.known_node_count -ℤ pos 1)
        × (lookup k m'.state.agents ≡ lookup k m.state.agents)
        × (lookup k m'.state.health ≡ lookup k m.state.health)
  unfolding bg_evaluation evaluate_node
  bg_evaluation_unknown evaluate id k m evicts no_agent no_health =
      let agents = lookup-erase k id m.state.agents in
      let health = lookup-erase k id m.state.health in
      elim (Bool-cases (k === id)) [
        | inl same ↦
            ground (arith, evicts, no_agent, no_health, same, eq_of_beq k id same, agents, health)
        | inr other ↦ ground (arith, evicts, no_agent, no_health, other, agents, health)
      ]
