-- ===== src/Health/Tests.antt =====
-- Health histories at concrete inputs.
use openpcc.Base.{ℕ, ◌≡◌, refl, List, [], ◌∷◌, ok, All, length, ltb, if◌then◌else◌, arith}
use openpcc.Base.Int.{pos, ◌-ℤ◌}
use openpcc.Health.{
  Check, status_unknown, status_unavailable, GraderConfig, merge, merge_loop, equal, is_successful,
  reverse, stats, stats_loop, search_loop, after, grade, grade_stats,
}
use openpcc.Health.Merge.{IsOrdered, Contains, merge-IsOrdered}
use openpcc.Health.Stats.{count, leading_failures}
use openpcc.Health.Grade.{recent, grade_lem}

abbrev check_at : ℕ → ℕ → Check
check_at t status = record {
  node_id = 1 ∷ 9 ∷ [];
  url = b'/' ∷ [];
  retries = pos 0;
  timestamp = pos t;
  latency = pos 5;
  http_status_code = pos status;
  error_message = [];
}

abbrev history : List Check
history = check_at 10 503 ∷ check_at 20 200 ∷ check_at 30 200 ∷ check_at 40 500 ∷ []

abbrev other : List Check
other = check_at 20 200 ∷ check_at 35 200 ∷ []

abbrev merged : List Check
merged =
    check_at 10 503 ∷ check_at 20 200 ∷ check_at 30 200 ∷ check_at 35 200 ∷ check_at 40 500 ∷ []

merges : merge history other ≡ ok merged
unfolding merge merge_loop equal
merges = refl

history-IsOrdered : IsOrdered history
history-IsOrdered = ground arith

other-IsOrdered : IsOrdered other
other-IsOrdered = ground arith

abbrev IsOfNode : Check → Type 0
IsOfNode c = c.node_id ≡ 1 ∷ 9 ∷ []

merge-IsOrdered_example :
    IsOrdered merged
    × All IsOfNode merged
    × All (λ c. Contains c merged) history
    × All (λ c. Contains c merged) other
merge-IsOrdered_example =
    merge-IsOrdered IsOfNode history other merged history-IsOrdered other-IsOrdered
      (refl, (refl, (refl, (refl, tt)))) (refl, (refl, tt)) merges

abbrev config : GraderConfig
config = record {
  min_checks = 3;
  rate = 9;
  scale = 10;
  max_recent_failure_streak = 3;
  max_age = 30;
}

-- Three of four checks are recent, and the last of them failed.
graded : grade config (pos 50) history ≡ status_unavailable
unfolding grade after search_loop stats stats_loop is_successful grade_stats ◌-ℤ◌
graded = refl

grade_lem_example :
    let window = recent (pos 50 -ℤ pos 30) history in
    grade config (pos 50) history ≡ (
      if ltb (length window) 3
      then status_unknown
      else grade_stats config (record {
        total = length window;
        successes = count window;
        current_failure_streak = leading_failures (reverse window);
      }))
grade_lem_example = grade_lem config (pos 50) history history-IsOrdered
