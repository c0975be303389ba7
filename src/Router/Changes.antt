-- ===== src/Router/Changes.antt =====
-- The nodes of a change: each once, and just those of its four sets.
use openpcc.Base.{◌≡◌, refl, Bool, false, ◌||◌, [], ◌∷◌, length, arith}
use openpcc.Base.Dict.{lookup, insert, list_eq, lookup-insert}
use openpcc.Base.Keys.{HasKeysOnce, insert-HasKeysOnce}
use openpcc.Router.{
  NodeId, IdSet, RouterChange, changes, changed_state, has, merge_node_ids, node_ids,
}

abbrev pub is_changed : RouterChange → NodeId → Bool
is_changed change k =
    has k change.new_agents
    || has k change.updated_agents
    || has k change.new_health
    || has k change.updated_health

has-merge_node_ids :
    (k : NodeId) (src dst : IdSet) → has k (merge_node_ids src dst) ≡ has k src || has k dst
unfolding merge_node_ids lookup
has-merge_node_ids k [] dst = refl
has-merge_node_ids k ((id, found) ∷ src) dst =
    ground (arith, has-merge_node_ids k src (insert id tt dst), lookup-insert k id tt dst)

merge_node_ids-HasKeysOnce :
    (src dst : IdSet) → HasKeysOnce dst → HasKeysOnce (merge_node_ids src dst)
unfolding merge_node_ids
merge_node_ids-HasKeysOnce [] dst once = once
merge_node_ids-HasKeysOnce ((id, found) ∷ src) dst once =
    merge_node_ids-HasKeysOnce src (insert id tt dst) (insert-HasKeysOnce id tt dst once)

pub node_ids-HasKeysOnce : (change : RouterChange) → HasKeysOnce (node_ids change)
unfolding node_ids
node_ids-HasKeysOnce change =
    let a = merge_node_ids-HasKeysOnce change.new_agents [] tt in
    let b = merge_node_ids-HasKeysOnce change.updated_agents _ a in
    let c = merge_node_ids-HasKeysOnce change.new_health _ b in
    merge_node_ids-HasKeysOnce change.updated_health _ c

pub has-node_ids :
    (change : RouterChange) (k : NodeId) → has k (node_ids change) ≡ is_changed change k
unfolding node_ids lookup
has-node_ids change k =
    let a = merge_node_ids change.new_agents [] in
    let b = merge_node_ids change.updated_agents a in
    let c = merge_node_ids change.new_health b in
    ground (
      arith,
      has-merge_node_ids k change.new_agents [],
      has-merge_node_ids k change.updated_agents a,
      has-merge_node_ids k change.new_health b,
      has-merge_node_ids k change.updated_health c,
    )

empty : (k : NodeId) (s : IdSet) → length s ≡ 0 → has k s ≡ false
unfolding lookup
empty k [] h = refl
empty k (x ∷ s) h = absurd (omega (arith, h))

pub unchanged_none :
    (change : RouterChange) (k : NodeId)
    → changed_state change ≡ false
    → is_changed change k ≡ false
unfolding changed_state changes
unchanged_none change k h =
    let a = empty k change.new_agents in
    let b = empty k change.updated_agents in
    let c = empty k change.new_health in
    let d = empty k change.updated_health in ground (arith, a, b, c, d)
