-- ===== src/Manager/Loop.antt =====
-- What an evaluation of changed nodes does to each node.
use openpcc.Base.{
  ◌≡◌, Bool, true, false, ◌||◌, not, Option, none, some, List, [], ◌∷◌, ◌++◌, inl, inr, arith,
  Bool-cases, Option-cases, if◌then◌else◌,
}
use openpcc.Base.Int.{ℤ, pos, ◌+ℤ◌}
use openpcc.Base.Dict.{Dict, lookup, insert, list_eq, ◌===◌, eq_of_beq, lookup-insert, lookup-erase}
use openpcc.Base.Keys.{HasKeysOnce, insert-HasKeysOnce}
use openpcc.Agent.{or_else, is_some}
use openpcc.Router.{NodeId, IdSet, RouterChange, has, is_new_node}
use openpcc.Routing.Sets.{listed, listed-append}
use openpcc.Manager.{Evaluator, Manager, evaluate_node, evaluate_nodes}

-- What is kept of a node: all, when it is to be evaluated again, else nothing.
abbrev pub kept : {V : Type 0} → Option ℤ → Option V → Option V
kept none v = none
kept (some duration) v = v

module _ (RoutingInfo : Type 0) (evaluate : Evaluator RoutingInfo) where
  -- The evaluation of a node, on what the manager knows of it.
  abbrev pub verdict : NodeId → Manager RoutingInfo → Option RoutingInfo × Option ℤ
  verdict k m = evaluate (lookup k m.state.agents) (lookup k m.state.health)

  abbrev pub Evaluated : Bool → NodeId → (m m' : Manager RoutingInfo) → Type 0
  Evaluated touched k m m' =
      let next = (verdict k m).1 in
      (lookup k m'.state.agents
        ≡ (if touched then kept next (lookup k m.state.agents) else lookup k m.state.agents))
      × (lookup k m'.state.health
          ≡ (if touched then kept next (lookup k m.state.health) else lookup k m.state.health))
      × (m'.routing_set ≡ m.routing_set)

  pub evaluate_node-Evaluated :
      (id k : NodeId) (schedule : Bool) (m : Manager RoutingInfo)
      → let (info, m') = evaluate_node RoutingInfo evaluate id schedule m in
        (info ≡ (verdict id m).0) × Evaluated (k === id) k m m'
  unfolding evaluate_node
  evaluate_node-Evaluated id k schedule m =
      let agents = lookup-erase k id m.state.agents in
      let health = lookup-erase k id m.state.health in
      elim (Bool-cases (k === id)) [
        | inl same ↦ rw (eq_of_beq k id same) (elim (Option-cases ((verdict id m).1)) [
          | inl h ↦ ground (arith, h, same, eq_of_beq k id same, agents, health)
          | inr (d, h) ↦ ground (arith, h)
        ])
        | inr other ↦ elim (Option-cases ((verdict id m).1)) [
          | inl h ↦ ground (arith, h, other, agents, health)
          | inr (d, h) ↦ ground (arith, h, other)
        ]
      ]

  abbrev pub NodesEvaluated :
      RouterChange
      → IdSet
      → Dict NodeId RoutingInfo
      → List NodeId
      → Manager RoutingInfo
      → NodeId
      → Type 0
  NodesEvaluated change ids adds dels m k =
      let (adds', dels', m') = evaluate_nodes RoutingInfo evaluate change ids adds dels m in
      let info = (verdict k m).0 in
      Evaluated (has k ids) k m m'
      × (lookup k adds' ≡ (if has k ids then or_else info (lookup k adds) else lookup k adds))
      × (listed k dels'
          ≡ (if has k ids then listed k dels || not (is_some info) else listed k dels))
      × HasKeysOnce adds'

  pub evaluate_nodes-NodesEvaluated :
      (change : RouterChange) (ids : IdSet) (adds : Dict NodeId RoutingInfo) (dels : List NodeId)
      → (m : Manager RoutingInfo) (k : NodeId) → HasKeysOnce ids
      → HasKeysOnce adds
      → NodesEvaluated change ids adds dels m k
  unfolding evaluate_nodes lookup
  evaluate_nodes-NodesEvaluated change [] adds dels m k once adds_once = ground (arith, adds_once)
  evaluate_nodes-NodesEvaluated change ((id, found) ∷ ids) adds dels m k once adds_once =
      let is_new = is_new_node change id in
      let p = evaluate_node RoutingInfo evaluate id is_new m in
      let evaluated : Manager RoutingInfo = p.1 in
      let counted : Manager RoutingInfo =
        if is_new
        then record evaluated { known_node_count = evaluated.known_node_count +ℤ pos 1 }
        else evaluated in
      let same_state : counted.state ≡ evaluated.state = ground arith in
      let same_set : counted.routing_set ≡ evaluated.routing_set = ground arith in
      let step = evaluate_node-Evaluated id k is_new m in
      let here : (k === id) ≡ true → (lookup k ids ≡ none) × (k ≡ id) =
        λ same. (rw (eq_of_beq k id same) once.0, eq_of_beq k id same) in
      let unmoved : (k === id) ≡ false → verdict k counted ≡ verdict k m =
        λ other. ground (arith, step, other, same_state) in
      elim (Option-cases p.0) [
        | inl h ↦
            let ih =
              evaluate_nodes-NodesEvaluated change ids adds (dels ++ id ∷ []) counted k once.1
                adds_once in
            elim (Bool-cases (k === id)) [
              | inl same ↦
                  rw (NodesEvaluated, evaluate_nodes, h)
                    (ground (
                      arith,
                      ih,
                      step,
                      h,
                      same,
                      same_state,
                      same_set,
                      here same,
                      listed-append k id dels,
                    ))
              | inr other ↦
                  rw (NodesEvaluated, evaluate_nodes, h)
                    (ground (
                      arith,
                      ih,
                      step,
                      h,
                      other,
                      same_state,
                      same_set,
                      unmoved other,
                      listed-append k id dels,
                    ))
            ]
        | inr (i, h) ↦
            let ih =
              evaluate_nodes-NodesEvaluated change ids (insert id i adds) dels counted k once.1
                (insert-HasKeysOnce id i adds adds_once) in
            elim (Bool-cases (k === id)) [
              | inl same ↦
                  rw (NodesEvaluated, evaluate_nodes, h)
                    (ground (
                      arith,
                      ih,
                      step,
                      h,
                      same,
                      same_state,
                      same_set,
                      here same,
                      lookup-insert k id i adds,
                    ))
              | inr other ↦
                  rw (NodesEvaluated, evaluate_nodes, h)
                    (ground (
                      arith,
                      ih,
                      step,
                      h,
                      other,
                      same_state,
                      same_set,
                      unmoved other,
                      lookup-insert k id i adds,
                    ))
            ]
      ]
