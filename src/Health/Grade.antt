-- ===== src/Health/Grade.antt =====
-- The search for the first recent check, and the grade of a history by its recent checks.
use openpcc.Base.{
  ℕ, zero, suc, ◌+◌, ◌/◌, ◌≤◌, ◌<◌, ◌≡◌, refl, ap, Bool, true, false, List, [], ◌∷◌, All, length,
  drop, arith, inl, inr, Bool-cases, if◌then◌else◌, ltb, ltb→lt, ltb-false,
}
use openpcc.Base.Int.{ℤ, pos, ◌≤ℤ◌, ◌-ℤ◌}
use openpcc.Health.{
  Check, status_unknown, GraderConfig, reverse, search_loop, at_or_after, holds_at, after, grade,
  grade_stats,
}
use openpcc.Health.Merge.{IsOrdered}
use openpcc.Health.Stats.{count, leading_failures, stats_lem}

-- The loop of `sort.Search` finds the least index at which a test holds that holds from some index on.
module _ (f : ℕ → Bool) (rises : (i k : ℕ) → i ≤ k → f i ≡ true → f k ≡ true) where
  fails_below : (m k : ℕ) → k ≤ m → f m ≡ false → f k ≡ false
  fails_below m k le fails = elim (Bool-cases (f k)) [
    | inl holds ↦ absurd (cc (fails, rises k m le holds))
    | inr lower ↦ lower
  ]

  pub search_loop_lem :
      (fuel i j : ℕ)
      → i ≤ j
      → j ≤ i + fuel
      → ((k : ℕ) → k < i → f k ≡ false)
      → ((k : ℕ) → j ≤ k → f k ≡ true)
      → ((k : ℕ) → k < search_loop fuel f i j → f k ≡ false)
        × ((k : ℕ) → search_loop fuel f i j ≤ k → f k ≡ true)
  unfolding search_loop
  search_loop_lem zero i j le enough low high = (low, λ k h. high k (omega arith))
  search_loop_lem (suc fuel) i j le enough low high = elim (Bool-cases (ltb i j)) [
    | inr done ↦ rw done (low, λ k h. high k (omega (arith, ltb-false _ _ done)))
    | inl more ↦
        let lt = ltb→lt _ _ more in
        let m = (i + j) / 2 in
        elim (Bool-cases (f m)) [
          | inl holds ↦
              rw (more, holds)
                (search_loop_lem fuel i m (omega arith) (omega arith) low
                  (λ k h. rises m k h holds))
          | inr fails ↦
              rw (more, fails)
                (search_loop_lem fuel (suc m) j (omega arith) (omega arith)
                  (λ k h. fails_below m k (omega arith) fails) high)
        ]
  ]

-- The checks that are not before the cutoff.
abbrev pub recent : ℤ → List Check → List Check
recent cutoff [] = []
recent cutoff (c ∷ cs) =
    let rest = recent cutoff cs in if at_or_after cutoff c then c ∷ rest else rest

module _ (cutoff : ℤ) where
  later_hold :
      (x : Check) (xs : List Check)
      → at_or_after cutoff x ≡ true
      → All (λ y. x.timestamp ≤ℤ y.timestamp) xs
      → (k : ℕ) → holds_at cutoff xs k ≡ true
  later_hold x [] holds above k = refl
  later_hold x (y ∷ ys) holds above zero = ground (arith, above.0)
  later_hold x (y ∷ ys) holds above (suc k) = later_hold x ys holds above.1 k

  holds_at_rises :
      (h : List Check)
      → IsOrdered h
      → (i k : ℕ) → i ≤ k
      → holds_at cutoff h i ≡ true
      → holds_at cutoff h k ≡ true
  holds_at_rises [] ordered i k le holds = refl
  holds_at_rises (x ∷ xs) ordered zero zero le holds = holds
  holds_at_rises (x ∷ xs) ordered zero (suc k) le holds = later_hold x xs holds ordered.0 k
  holds_at_rises (x ∷ xs) ordered (suc i) zero le holds = absurd (omega arith)
  holds_at_rises (x ∷ xs) ordered (suc i) (suc k) le holds =
      holds_at_rises xs ordered.1 i k (omega arith) holds

  past_end : (h : List Check) (k : ℕ) → length h ≤ k → holds_at cutoff h k ≡ true
  past_end [] k le = refl
  past_end (x ∷ xs) zero le = absurd (omega arith)
  past_end (x ∷ xs) (suc k) le = past_end xs k (omega arith)

  drop-recent :
      (r : ℕ) (h : List Check)
      → ((k : ℕ) → k < r → holds_at cutoff h k ≡ false)
      → ((k : ℕ) → r ≤ k → holds_at cutoff h k ≡ true)
      → drop r h ≡ recent cutoff h
  drop-recent zero [] low high = refl
  drop-recent (suc r) [] low high = refl
  drop-recent zero (x ∷ xs) low high = rw (high 0 (omega arith)) (
      ap (λ ys. x ∷ ys)
        (drop-recent zero xs (λ k h. absurd (omega arith)) (λ k h. high (suc k) (omega arith))))
  drop-recent (suc r) (x ∷ xs) low high =
      rw (low 0 (omega arith))
        (drop-recent r xs (λ k h. low (suc k) (omega arith)) (λ k h. high (suc k) (omega arith)))

  -- `After` returns the checks of an ordered history that are not before the cutoff.
  pub after_lem : (h : List Check) → IsOrdered h → after cutoff h ≡ recent cutoff h
  unfolding after
  after_lem h ordered =
      let (low, high) =
        search_loop_lem (holds_at cutoff h) (holds_at_rises h ordered) (length h) 0 (length h)
          (omega arith) (omega arith) (λ k less. absurd (omega arith)) (past_end h) in
      drop-recent (search_loop (length h) (holds_at cutoff h) 0 (length h)) h low high

-- The grade of an ordered history is unknown where it has fewer checks than the minimum within the
-- maximal age, and otherwise goes by the number of those checks, of the successes among them, and
-- of the failures after the last success.
pub grade_lem :
    (cfg : GraderConfig) (now : ℤ) (history : List Check)
    → IsOrdered history
    → let window = recent (now -ℤ pos cfg.max_age) history in
      grade cfg now history ≡ (
        if ltb (length window) cfg.min_checks
        then status_unknown
        else grade_stats cfg (record {
          total = length window;
          successes = count window;
          current_failure_streak = leading_failures (reverse window);
        }))
unfolding grade
grade_lem cfg now history ordered =
    let window = recent (now -ℤ pos cfg.max_age) history in
    rw (after_lem (now -ℤ pos cfg.max_age) history ordered) (rw (stats_lem window))
