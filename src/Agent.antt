-- ===== src/Agent.antt =====
-- router/state/agent.go: what a router knows of the agent on a compute node, and how node events and
-- the states of other routers are merged into it. A time is a count of nanoseconds since 1970, and
-- Go's zero time its year 1. The routing information is opaque, of any type.
pub mod Merging
mod Tests
use openpcc.Base.{ℕ, List, not, Bool, true, false, Option, none, some, ◌||◌, ◌&&◌, if◌then◌else◌}
use openpcc.Base.Int.{ℤ, negsuc, ltb_ℤ}
use openpcc.Base.Dict.{◌===◌, int_eq}

-- `time.Time{}`
abbrev pub zero_time : ℤ
zero_time = negsuc 62135596799999999999

abbrev pub is_some : {A : Type 0} → Option A → Bool
is_some none = false
is_some (some a) = true

-- `a`, or `b` where `a` is nil.
abbrev pub or_else : {A : Type 0} → Option A → Option A → Option A
or_else none b = b
or_else (some a) b = some a

module _ (RoutingInfo : Type 0) where
  -- `agent.NodeEvent`, of router/agent: an event without a heartbeat is a shutdown. Of a
  -- heartbeat the merges read the routing information only.
  pub record NodeEvent : Type 0 where
    pub event_index : ℤ
    pub node_id : List ℕ
    pub timestamp : ℤ
    pub heartbeat : Option (Option RoutingInfo)

  pub record Agent : Type 0 where
    pub last_event_index : ℤ
    pub last_event_timestamp : ℤ
    pub routing_info : Option RoutingInfo
    pub shutdown_at : Option ℤ

  pub is_new_agent : Agent → Bool
  is_new_agent a = a.last_event_timestamp === zero_time

  pub can_healthcheck : Agent → Bool
  can_healthcheck a = elim (a.routing_info) [
    | none ↦ false
    | some info ↦ elim (a.shutdown_at) [ none ↦ true | some t ↦ false ]
  ]

  -- `e.Heartbeat.RoutingInfo`, nil where there is no heartbeat.
  abbrev pub sent_info : NodeEvent → Option RoutingInfo
  sent_info e = elim (e.heartbeat) [ none ↦ none | some info ↦ info ]

  abbrev pub shutdown_of : NodeEvent → Option ℤ → Option ℤ
  shutdown_of e before = elim (e.heartbeat) [ none ↦ some e.timestamp | some info ↦ before ]

  -- `a.RoutingInfo == nil && info != nil`
  abbrev pub learns : Agent → Option RoutingInfo → Bool
  learns a info = not (is_some a.routing_info) && is_some info

  pub merge_node_event : Agent → NodeEvent → Bool × Agent
  merge_node_event a e =
      if is_new_agent a || ltb_ℤ a.last_event_index e.event_index
      then (
        true,
        record {
          last_event_index = e.event_index;
          last_event_timestamp = e.timestamp;
          routing_info = or_else a.routing_info (sent_info e);
          shutdown_at = shutdown_of e a.shutdown_at;
        },
      )
      else if learns a (sent_info e)
      then (true, record a { routing_info = sent_info e })
      else (false, a)

  -- The first part of `MergeState`: a later event of the other state.
  abbrev pub later_event : Agent → Agent → Agent
  later_event a other =
      if ltb_ℤ a.last_event_index other.last_event_index
      then record a {
        last_event_index = other.last_event_index;
        last_event_timestamp = other.last_event_timestamp;
        shutdown_at = or_else other.shutdown_at a.shutdown_at;
      }
      else a

  pub merge_state : Agent → Agent → Bool × Agent
  merge_state a other =
      let later = ltb_ℤ a.last_event_index other.last_event_index in
      (
        later || learns a other.routing_info,
        record (later_event a other) { routing_info = or_else a.routing_info other.routing_info },
      )
