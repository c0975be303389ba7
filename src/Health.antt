-- ===== src/Health.antt =====
-- router/health/check.go, history.go, grader.go and status.go: the health history of a compute node and
-- the grade that it gets. A time is a count of nanoseconds, an integer; a URL is its string.
-- The minimal success rate, a float64, is a fraction: its rounding is not modelled.
pub mod Merge
pub mod Stats
pub mod Grade
pub mod Insert
pub mod Sorting
pub mod Growth
mod Tests
use openpcc.Base.{
  ℕ, zero, suc, ◌+◌, ◌*◌, ◌/◌, Bool, true, false, Option, none, some, List, [], ◌∷◌, ◌++◌, ltb, leb,
  ◌==◌, not, ◌&&◌, ◌||◌, if◌then◌else◌, length, get_elem?, drop, Result, ok, err,
}
use openpcc.Base.Int.{ℤ, ltb_ℤ, leb_ℤ, ◌-ℤ◌, pos, pos_part}
use openpcc.Base.Dict.{◌===◌, list_eq, int_eq}

pub record Check : Type 0 where
  pub node_id : List ℕ
  pub url : List ℕ
  pub retries : ℤ
  pub timestamp : ℤ
  pub latency : ℤ
  pub http_status_code : ℤ
  pub error_message : List ℕ

unfoldable pub equal : Check → Check → Bool
equal c other =
    (c.node_id === other.node_id)
    && (c.url === other.url)
    && (c.retries === other.retries)
    && (c.timestamp === other.timestamp)
    && (c.latency === other.latency)
    && (c.http_status_code === other.http_status_code)
    && (c.error_message === other.error_message)

pub is_successful : Check → Bool
is_successful c = leb_ℤ (pos 200) c.http_status_code && leb_ℤ c.http_status_code (pos 299)

-- `Timestamp.Before`
abbrev pub before : Check → Check → Bool
before c other = ltb_ℤ c.timestamp other.timestamp

-- The loop of `Merge` and the two rests; the fuel is enough at the sum of the lengths.
pub merge_loop : ℕ → List Check → List Check → List Check
merge_loop zero xs ys = xs ++ ys
merge_loop (suc f) [] ys = ys
merge_loop (suc f) (x ∷ xs) [] = x ∷ xs
merge_loop (suc f) (x ∷ xs) (y ∷ ys) =
    let left = merge_loop f xs (y ∷ ys) in
    let right = merge_loop f (x ∷ xs) ys in
    let both = merge_loop f xs ys in
    if before x y
    then x ∷ left
    else if before y x
    then y ∷ right
    else if equal x y
    then x ∷ both
    else x ∷ y ∷ both

pub data Error : Type 0 where
  different_nodes : Error

-- `History.Merge`
pub merge : List Check → List Check → Result Error (List Check)
merge h [] = ok h
merge [] (y ∷ ys) = ok (y ∷ ys)
merge (x ∷ xs) (y ∷ ys) =
    if not (x.node_id === y.node_id)
    then err different_nodes
    else ok (merge_loop (length (x ∷ xs) + length (y ∷ ys)) (x ∷ xs) (y ∷ ys))

pub record HistoryStats : Type 0 where
  pub total : ℕ
  pub successes : ℕ
  pub current_failure_streak : ℕ

abbrev pub reverse : List Check → List Check
reverse [] = []
reverse (x ∷ xs) = reverse xs ++ x ∷ []

-- The loop of `Stats`, over the history from its end.
pub stats_loop : List Check → Bool → HistoryStats → HistoryStats
stats_loop [] fail_streak stats = stats
stats_loop (c ∷ cs) fail_streak stats =
    if is_successful c
    then stats_loop cs false (record stats { successes = suc stats.successes })
    else if fail_streak
    then stats_loop cs true
        (record stats { current_failure_streak = suc stats.current_failure_streak })
    else stats_loop cs false stats

-- `History.Stats`
pub stats : List Check → HistoryStats
stats h =
    stats_loop (reverse h) true
      (record { total = length h; successes = 0; current_failure_streak = 0 })

-- `sort.Search`: the loop that halves the range from `i` to `j`.
pub search_loop : ℕ → (ℕ → Bool) → (i j : ℕ) → ℕ
search_loop zero f i j = i
search_loop (suc fuel) f i j =
    let h = (i + j) / 2 in
    let right = search_loop fuel f (suc h) j in
    let left = search_loop fuel f i h in if ltb i j then (if f h then left else right) else i

-- `!h[i].Timestamp.Before(cutoff)`
abbrev pub at_or_after : ℤ → Check → Bool
at_or_after cutoff c = not (ltb_ℤ c.timestamp cutoff)

abbrev pub holds_at : ℤ → List Check → ℕ → Bool
holds_at cutoff h i = elim (get_elem? h i) [ none ↦ true | some c ↦ at_or_after cutoff c ]

-- `History.After`: where no check is left, the rest from the index is empty.
pub after : ℤ → List Check → List Check
after cutoff h = drop (search_loop (length h) (holds_at cutoff h) 0 (length h)) h

-- `GraderConfig`, with the success rate `rate / scale`.
pub record GraderConfig : Type 0 where
  pub min_checks : ℕ
  pub rate : ℕ
  pub scale : ℕ
  pub max_recent_failure_streak : ℕ
  pub max_age : ℕ

pub data Status : Type 0 where
  status_ok status_unavailable status_unknown : Status

-- `Grader.Grade`: the last part, on the statistics of the window.
pub grade_stats : GraderConfig → HistoryStats → Status
grade_stats cfg s =
    if not (cfg.max_recent_failure_streak == 0)
      && leb cfg.max_recent_failure_streak s.current_failure_streak
    then status_unavailable
    else if cfg.rate == 0
    then status_ok
    else if s.total == 0
    then status_unknown
    else if ltb (s.successes * cfg.scale) (cfg.rate * s.total)
    then status_unavailable
    else status_ok

pub grade : GraderConfig → (now : ℤ) → List Check → Status
grade cfg now history =
    let window = after (now -ℤ pos cfg.max_age) history in
    if ltb (length window) cfg.min_checks then status_unknown else grade_stats cfg (stats window)

-- `existing.Equal(hc)` for one of the checks.
pub has_equal : Check → List Check → Bool
has_equal hc [] = false
has_equal hc (c ∷ cs) = equal c hc || has_equal hc cs

abbrev other_node : Check → List Check → Bool
other_node hc [] = false
other_node hc (c ∷ cs) = not (c.node_id === hc.node_id)

-- `History.Insert`; the argument is `sort.Slice` by timestamp, which may order equal timestamps
-- in any way.
pub insert_check : (List Check → List Check) → List Check → Check → Result Error (List Check)
insert_check sort_slice h hc =
    if other_node hc h
    then err different_nodes
    else if has_equal hc h
    then ok h
    else ok (sort_slice (h ++ hc ∷ []))

pub data ConfigError : Type 0 where
  too_few_checks bad_success_rate bad_failure_streak no_max_age no_failure_condition : ConfigError

-- `NewGrader`, on a configuration of integers: the checks, the rate over a positive scale, the
-- streak, and the age.
pub new_grader :
    (min_checks rate : ℤ) (scale : ℕ) (streak max_age : ℤ) → Result ConfigError GraderConfig
new_grader min_checks rate scale streak max_age =
    if leb_ℤ min_checks (pos 0)
    then err too_few_checks
    else if ltb_ℤ rate (pos 0) || ltb_ℤ (pos scale) rate
    then err bad_success_rate
    else if ltb_ℤ streak (pos 0)
    then err bad_failure_streak
    else if leb_ℤ max_age (pos 0)
    then err no_max_age
    else if (streak === pos 0) && (rate === pos 0)
    then err no_failure_condition
    else ok (record {
      min_checks = pos_part min_checks;
      rate = pos_part rate;
      scale = scale;
      max_recent_failure_streak = pos_part streak;
      max_age = pos_part max_age;
    })
