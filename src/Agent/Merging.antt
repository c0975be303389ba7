-- ===== src/Agent/Merging.antt =====
-- What a merge of agent states keeps of the two, and that a merge done twice changes nothing more.
use openpcc.Base.{◌≡◌, true, false, Option, none, some, arith, ◌⊎◌}
use openpcc.Base.Int.{◌≤ℤ◌}
use openpcc.Base.Dict.{int_eq}
use openpcc.Agent.{
  Agent, NodeEvent, is_new_agent, merge_node_event, merge_state, is_some, or_else, sent_info,
}

-- Whether a value is the first of two that is there.
abbrev pub IsFirst : {A : Type 0} → (first second result : Option A) → Type 0
IsFirst none second result = result ≡ second
IsFirst (some x) second result = result ≡ some x

module _ (RoutingInfo : Type 0) where
  -- The last event and the shutdown of a merged state: those of the state that another is merged into, unless
  -- the other has the later event.
  abbrev pub KeepsLater : (a other merged : Agent RoutingInfo) → Type 0
  KeepsLater a other merged =
      ((other.last_event_index ≤ℤ a.last_event_index)
        × (merged.last_event_index ≡ a.last_event_index)
        × (merged.last_event_timestamp ≡ a.last_event_timestamp)
        × (merged.shutdown_at ≡ a.shutdown_at))
      ⊎ ((¬ (other.last_event_index ≤ℤ a.last_event_index))
          × (merged.last_event_index ≡ other.last_event_index)
          × (merged.last_event_timestamp ≡ other.last_event_timestamp)
          × IsFirst other.shutdown_at a.shutdown_at merged.shutdown_at)

  -- After a merge of another state: an unreported change is none; merging the state again reports and
  -- changes nothing; routing information that is there stays, and missing information is taken over.
  -- If the other state has the later event, its index and timestamp are taken over, and its shutdown
  -- if it has one, where a shutdown that is known before else stays; otherwise these three stay as
  -- they were.
  pub merge_state_lem :
      (a other : Agent RoutingInfo)
      → let (changed, merged) = merge_state RoutingInfo a other in
        ((changed ≡ true) ⊎ (merged ≡ a))
        × (merge_state RoutingInfo merged other ≡ (false, merged))
        × (a.last_event_index ≤ℤ merged.last_event_index)
        × (other.last_event_index ≤ℤ merged.last_event_index)
        × IsFirst a.routing_info other.routing_info merged.routing_info
        × ((a.shutdown_at ≡ none) ⊎ (is_some merged.shutdown_at ≡ true))
        × KeepsLater a other merged
  unfolding merge_state
  merge_state_lem a other = ground arith

  -- After a merge of a node event: an unreported change is none; merging the event again leaves the
  -- state; the event index does not go down, unless the agent was new; routing information that is
  -- there stays, and missing information is taken over; a known shutdown stays known.
  pub merge_node_event_lem :
      (a : Agent RoutingInfo) (e : NodeEvent RoutingInfo)
      → let (changed, merged) = merge_node_event RoutingInfo a e in
        ((changed ≡ true) ⊎ (merged ≡ a))
        × ((merge_node_event RoutingInfo merged e).1 ≡ merged)
        × ((is_new_agent RoutingInfo a ≡ true) ⊎ (a.last_event_index ≤ℤ merged.last_event_index))
        × (merged.routing_info ≡ or_else a.routing_info (sent_info RoutingInfo e))
        × ((a.shutdown_at ≡ none) ⊎ (is_some merged.shutdown_at ≡ true))
  unfolding merge_node_event is_new_agent
  merge_node_event_lem a e = ground arith

  pub merge_state_self : (a : Agent RoutingInfo) → merge_state RoutingInfo a a ≡ (false, a)
  unfolding merge_state
  merge_state_self a = ground arith
