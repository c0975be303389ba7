-- ===== src/Router/Growth.antt =====
-- A history grows at every merge with one that holds a check of the same time as its first.
use openpcc.Base.{ℕ, ◌==◌, refl, zero, suc, ◌+◌, ◌≡◌, true, false, List, [], ◌∷◌, length, arith}
use openpcc.Base.Dict.{list_eq}
use openpcc.Health.{Check, equal}
use openpcc.Health.Growth.{merge-same_time}
use openpcc.Router.{merge_health_state}

-- The history after `n` merges of the same other state.
abbrev pub gossip : ℕ → List Check → List Check → List Check
gossip zero h other = h
gossip (suc n) h other = gossip n (merge_health_state h other).1 other

grown :
    (a b : Check) (rest : List Check)
    → a.node_id ≡ b.node_id
    → a.timestamp ≡ b.timestamp
    → equal a b ≡ false
    → merge_health_state (a ∷ rest) (b ∷ []) ≡ (true, a ∷ b ∷ rest)
unfolding merge_health_state
grown a b rest node time differ =
    let longer : (length (a ∷ b ∷ rest) == length (a ∷ rest)) ≡ false = ground arith in
    rw (merge_health_state, merge-same_time a b rest node time differ) (rw longer refl)

-- Let `a` be a history's first check, and let another state hold one check `b` of the same node and
-- the same timestamp that differs from `a`. Then every merge of that state reports a change and makes the
-- history one check longer, whatever it holds: after `n` merges of it there are `n` more checks.
pub length-gossip :
    (n : ℕ) (a b : Check) (rest : List Check)
    → a.node_id ≡ b.node_id
    → a.timestamp ≡ b.timestamp
    → equal a b ≡ false
    → ((merge_health_state (a ∷ rest) (b ∷ [])).0 ≡ true)
      × (length (gossip n (a ∷ rest) (b ∷ [])) ≡ n + length (a ∷ rest))
length-gossip zero a b rest node time differ =
    (rw (grown a b rest node time differ) refl, omega arith)
length-gossip (suc n) a b rest node time differ =
    let first = grown a b rest node time differ in
    let (_, count) = length-gossip n a b (b ∷ rest) node time differ in
    (rw first refl, rw first (omega (arith, count)))
