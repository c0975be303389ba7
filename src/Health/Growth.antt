-- ===== src/Health/Growth.antt =====
-- Merging a check into a history whose first check has the same time.
use openpcc.Base.{ℕ, suc, ◌+◌, ◌≡◌, refl, true, false, List, [], ◌∷◌, length, ok, arith}
use openpcc.Base.Dict.{list_eq, ◌===◌, beq_refl}
use openpcc.Health.{Check, before, equal, merge_loop, merge}

merge_loop-rest : (f : ℕ) (rest : List Check) → merge_loop (suc f) rest [] ≡ rest
unfolding merge_loop
merge_loop-rest f [] = refl
merge_loop-rest f (c ∷ cs) = refl

merge_loop-same_time :
    (f : ℕ) (a b : Check) (rest : List Check)
    → before a b ≡ false
    → before b a ≡ false
    → equal a b ≡ false
    → merge_loop (suc (suc f)) (a ∷ rest) (b ∷ []) ≡ a ∷ b ∷ rest
unfolding merge_loop
merge_loop-same_time f a b rest left right differ =
    rw (left, right, differ, merge_loop-rest f rest) refl

-- Two different checks of a node with one timestamp are both kept, whatever follows the first.
pub merge-same_time :
    (a b : Check) (rest : List Check)
    → a.node_id ≡ b.node_id
    → a.timestamp ≡ b.timestamp
    → equal a b ≡ false
    → merge (a ∷ rest) (b ∷ []) ≡ ok (a ∷ b ∷ rest)
unfolding merge
merge-same_time a b rest node time differ =
    let same : (a.node_id === b.node_id) ≡ true = rw node (beq_refl b.node_id) in
    let left : before a b ≡ false = ground (arith, time) in
    let right : before b a ≡ false = ground (arith, time) in
    let fuel : suc (length rest) + 1 ≡ suc (suc (length rest)) = omega arith in
    rw (same, fuel, merge_loop-same_time (length rest) a b rest left right differ) refl
