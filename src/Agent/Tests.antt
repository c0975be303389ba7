-- ===== src/Agent/Tests.antt =====
-- Merges of agent states at concrete inputs.
use openpcc.Base.{ℕ, ◌≡◌, ◌⊎◌, true, false, none, some, []}
use openpcc.Base.Int.{pos, ◌≤ℤ◌}
use openpcc.Agent.{Agent, NodeEvent, merge_state, is_some}
use openpcc.Agent.Merging.{KeepsLater, IsFirst, merge_state_lem}

abbrev known : Agent ℕ
known = record {
  last_event_index = pos 4;
  last_event_timestamp = pos 400;
  routing_info = none;
  shutdown_at = none;
}

abbrev elsewhere : Agent ℕ
elsewhere = record {
  last_event_index = pos 6;
  last_event_timestamp = pos 600;
  routing_info = some 7;
  shutdown_at = some (pos 600);
}

abbrev heartbeat_event : NodeEvent ℕ
heartbeat_event = record {
  event_index = pos 3;
  node_id = [];
  timestamp = pos 300;
  heartbeat = some (some 7);
}

merge_state_lem_example :
    let (changed, merged) = merge_state ℕ known elsewhere in
    ((changed ≡ true) ⊎ (merged ≡ known))
    × (merge_state ℕ merged elsewhere ≡ (false, merged))
    × (pos 4 ≤ℤ merged.last_event_index)
    × (pos 6 ≤ℤ merged.last_event_index)
    × IsFirst known.routing_info elsewhere.routing_info merged.routing_info
    × ((known.shutdown_at ≡ none) ⊎ (is_some merged.shutdown_at ≡ true))
    × KeepsLater ℕ known elsewhere merged
merge_state_lem_example = merge_state_lem ℕ known elsewhere
