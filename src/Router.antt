-- ===== src/Router.antt =====
-- router/state/router.go and node_health.go: the state that a router keeps of the nodes, merges into it,
-- and the summary of their changes. A UUID is its bytes, a set of UUIDs a map without values, and a
-- nil map an empty one. The maps are walked in the order of their entries: a Go map has none.
-- The routing information is opaque, and the sort of a history the argument of its insertion.
pub mod Merging
pub mod Growth
pub mod Changes
pub mod Known
mod Tests
use openpcc.Base.{
  ℕ, ◌+◌, ◌==◌, Bool, true, false, Option, none, some, List, [], ◌∷◌, length, not, ltb, Result, ok,
  err, if◌then◌else◌,
}
use openpcc.Base.Int.{pos}
use openpcc.Base.Dict.{Dict, lookup, insert, list_eq}
use openpcc.Health.{Check, insert_check, merge}
use openpcc.Agent.{Agent, NodeEvent, merge_node_event, merge_state, zero_time}

-- A node's id.
abbrev pub NodeId : Type 0
NodeId = List ℕ

abbrev pub IdSet : Type 0
IdSet = Dict NodeId (Unit {0})

-- `NodeHealth.MergeHealthcheck`, on the history that it holds.
pub merge_healthcheck : (List Check → List Check) → List Check → Check → Bool × List Check
merge_healthcheck sort_slice h hc = elim (insert_check sort_slice h hc) [
  | err e ↦ (false, h)
  | ok new_history ↦ if length new_history == length h then (false, h) else (true, new_history)
]

-- `NodeHealth.MergeState`
pub merge_health_state : List Check → List Check → Bool × List Check
merge_health_state h other = elim (merge h other) [
  | err e ↦ (false, h)
  | ok new_history ↦ if length new_history == length h then (false, h) else (true, new_history)
]

pub record RouterChange : Type 0 where
  pub new_agents : IdSet
  pub updated_agents : IdSet
  pub new_health : IdSet
  pub updated_health : IdSet

abbrev pub no_change : RouterChange
no_change = record { new_agents = []; updated_agents = []; new_health = []; updated_health = [] }

pub changes : RouterChange → ℕ
changes r =
    length r.new_agents + length r.updated_agents + length r.new_health + length r.updated_health

pub changed_state : RouterChange → Bool
changed_state r = ltb 0 (changes r)

abbrev pub has : NodeId → IdSet → Bool
has id s = elim (lookup id s) [ none ↦ false | some found ↦ true ]

pub is_new_node : RouterChange → NodeId → Bool
is_new_node r id =
    if ltb 0 (length r.new_agents)
    then has id r.new_agents
    else if ltb 0 (length r.new_health)
    then has id r.new_health
    else false

pub merge_node_ids : IdSet → IdSet → IdSet
merge_node_ids [] dst = dst
merge_node_ids ((id, found) ∷ src) dst = merge_node_ids src (insert id tt dst)

pub node_ids : RouterChange → IdSet
node_ids r =
    merge_node_ids r.updated_health (
      merge_node_ids r.new_health
        (merge_node_ids r.updated_agents (merge_node_ids r.new_agents [])))

-- The loop of `MergeState` over the entries of the other state, once for the agents and once for the
-- health: the merge of two values, the entries that are left, the new and the updated ids so far.
pub merge_entries :
    {V : Type 0}
    → (V → V → Bool × V)
    → Dict NodeId V
    → (new updated : IdSet) → Dict NodeId V
    → IdSet × IdSet × Dict NodeId V
merge_entries merge_value [] new updated m = (new, updated, m)
merge_entries merge_value ((key, other) ∷ rest) new updated m = elim (lookup key m) [
  | some known ↦
      let (changed, merged) = merge_value known other in
      merge_entries merge_value rest new (if changed then insert key tt updated else updated)
        (insert key merged m)
  | none ↦ merge_entries merge_value rest (insert key tt new) updated (insert key other m)
]

module _ (RoutingInfo : Type 0) where
  pub record Router : Type 0 where
    pub agents : Dict NodeId (Agent RoutingInfo)
    pub health : Dict NodeId (List Check)

  abbrev pub empty_agent : Agent RoutingInfo
  empty_agent = record {
    last_event_index = pos 0;
    last_event_timestamp = zero_time;
    routing_info = none;
    shutdown_at = none;
  }

  -- `Router.MergeNodeEvent`
  pub merge_event : Router → NodeEvent RoutingInfo → RouterChange × Router
  merge_event r e = elim (lookup e.node_id r.agents) [
    | none ↦
        let (updated, a) = merge_node_event RoutingInfo empty_agent e in
        (
          record no_change { new_agents = insert e.node_id tt [] },
          record r { agents = insert e.node_id a r.agents },
        )
    | some known ↦
        let (updated, a) = merge_node_event RoutingInfo known e in
        (
          record no_change { updated_agents = if updated then insert e.node_id tt [] else [] },
          record r { agents = insert e.node_id a r.agents },
        )
  ]

  -- `Router.MergeHealthcheck`
  pub merge_check : (List Check → List Check) → Router → Check → RouterChange × Router
  merge_check sort_slice r hc = elim (lookup hc.node_id r.health) [
    | none ↦
        let (updated, h) = merge_healthcheck sort_slice [] hc in
        (
          record no_change { new_health = insert hc.node_id tt [] },
          record r { health = insert hc.node_id h r.health },
        )
    | some known ↦
        let (updated, h) = merge_healthcheck sort_slice known hc in
        (
          record no_change { updated_health = if updated then insert hc.node_id tt [] else [] },
          record r { health = insert hc.node_id h r.health },
        )
  ]

  -- `Router.MergeState`
  pub merge_router : Router → Router → RouterChange × Router
  merge_router r other =
      let (new_agents, updated_agents, agents) =
        merge_entries (merge_state RoutingInfo) other.agents [] [] r.agents in
      let (new_health, updated_health, health) =
        merge_entries merge_health_state other.health [] [] r.health in
      (
        record {
          new_agents = new_agents;
          updated_agents = updated_agents;
          new_health = new_health;
          updated_health = updated_health;
        },
        record { agents = agents; health = health },
      )
