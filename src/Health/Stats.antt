-- ===== src/Health/Stats.antt =====
-- The statistics of a health history are what they are named for.
use openpcc.Base.{
  ℕ, suc, ◌+◌, ◌≡◌, refl, true, false, List, [], ◌∷◌, ◌++◌, length, arith, inl, inr, Bool-cases,
  if◌then◌else◌,
}
use openpcc.Health.{Check, HistoryStats, is_successful, reverse, stats_loop, stats}

-- The checks that succeeded.
abbrev pub count : List Check → ℕ
count [] = 0
count (c ∷ cs) = (if is_successful c then 1 else 0) + count cs

-- The failures before the first success.
abbrev pub leading_failures : List Check → ℕ
leading_failures [] = 0
leading_failures (c ∷ cs) =
    let rest = leading_failures cs in if is_successful c then 0 else suc rest

stats_loop-false :
    (cs : List Check) (s : HistoryStats)
    → stats_loop cs false s ≡ record s { successes = s.successes + count cs }
unfolding stats_loop
stats_loop-false [] s = ground arith
stats_loop-false (c ∷ cs) s = elim (Bool-cases (is_successful c)) [
  | inl good ↦ ground (arith, good, stats_loop-false cs (record s { successes = suc s.successes }))
  | inr bad ↦ ground (arith, bad, stats_loop-false cs s)
]

stats_loop-true :
    (cs : List Check) (s : HistoryStats)
    → stats_loop cs true s ≡ record s {
      successes = s.successes + count cs;
      current_failure_streak = s.current_failure_streak + leading_failures cs;
    }
unfolding stats_loop
stats_loop-true [] s = ground arith
stats_loop-true (c ∷ cs) s = elim (Bool-cases (is_successful c)) [
  | inl good ↦ ground (arith, good, stats_loop-false cs (record s { successes = suc s.successes }))
  | inr bad ↦ ground (
    arith,
    bad,
    stats_loop-true cs (record s { current_failure_streak = suc s.current_failure_streak }),
  )
]

count-append : (xs ys : List Check) → count (xs ++ ys) ≡ count xs + count ys
count-append [] ys = omega arith
count-append (x ∷ xs) ys = omega (arith, count-append xs ys)

count-reverse : (xs : List Check) → count (reverse xs) ≡ count xs
count-reverse [] = refl
count-reverse (x ∷ xs) = omega (arith, count-append (reverse xs) (x ∷ []), count-reverse xs)

-- `Stats` counts all checks, those that succeeded, and the failures after the last success.
pub stats_lem :
    (h : List Check)
    → stats h ≡ record {
      total = length h;
      successes = count h;
      current_failure_streak = leading_failures (reverse h);
    }
unfolding stats
stats_lem h = ground (
  arith,
  stats_loop-true (reverse h)
      (record { total = length h; successes = 0; current_failure_streak = 0 }),
  count-reverse h,
)
