-- ===== src/Work/Counters.antt =====
-- The counters of the pool count its goroutines in every run, and no job is lost or made.
use openpcc.Base.{
  ℕ, suc, zero, ◌≡◌, refl, Bool, false, ltb, List, [], ◌∷◌, get_elem?, inl, inr, arith, Bool-cases,
  if◌then◌else◌,
}
use openpcc.Work.{
  Pool, Event, empty_pool, start_worker, start_workers, new_pool, give_up, read_idle, reads_idle,
  sends, gives_up, begin_close, step, run, starts, becomes_idle, takes, stops, finishes_stopping,
  finishes_drained, leaves, begins_close, closes_queue, adds, begins, ends,
}
use openpcc.Work.Counts.{
  IsCounted, start_worker-IsCounted, guarded, add_job-IsCounted, send_at-IsCounted,
  become_idle-IsCounted, stop_worker-IsCounted, finish_stopping-IsCounted, finish_drained-IsCounted,
  leave-IsCounted, take_job-IsCounted, begin_at-IsCounted, end_at-IsCounted,
  close_queue_at-IsCounted,
}

step-IsCounted :
    (test : ℕ → Bool) (e : Event) (p : Pool) → IsCounted test p → IsCounted test (step e p)
unfolding begin_close read_idle give_up
step-IsCounted test starts p counted =
    guarded test p.closed p _ counted
      (λ (opened : _ ≡ false). start_worker-IsCounted test p counted)
step-IsCounted test becomes_idle p counted = become_idle-IsCounted test p counted
step-IsCounted test takes p counted = take_job-IsCounted test p counted
step-IsCounted test stops p counted =
    guarded test p.closed p _ counted (λ (opened : _ ≡ false). stop_worker-IsCounted test p counted)
step-IsCounted test finishes_stopping p counted = finish_stopping-IsCounted test p counted
step-IsCounted test finishes_drained p counted = finish_drained-IsCounted test p counted
step-IsCounted test leaves p counted = leave-IsCounted test p counted
step-IsCounted test begins_close p counted = counted
step-IsCounted test reads_idle p counted = elim (Bool-cases p.closed) [
  | inl over ↦ simp (over) counted
  | inr opened ↦ simp (opened) counted
]
step-IsCounted test closes_queue p counted = close_queue_at-IsCounted test p.idle_read p counted
step-IsCounted test (adds j) p counted = add_job-IsCounted test j p counted
step-IsCounted test (sends i) p counted = send_at-IsCounted test i (get_elem? p.calling i) p counted
step-IsCounted test (gives_up i) p counted = counted
step-IsCounted test (begins i) p counted =
    begin_at-IsCounted test i (get_elem? p.taken i) p refl counted
step-IsCounted test (ends i) p counted =
    end_at-IsCounted test i (get_elem? p.processing i) p refl counted

run-IsCounted :
    (test : ℕ → Bool) (es : List Event) (p : Pool) → IsCounted test p → IsCounted test (run es p)
run-IsCounted test [] p counted = counted
run-IsCounted test (e ∷ es) p counted =
    run-IsCounted test es (step e p) (step-IsCounted test e p counted)

start_workers-IsCounted :
    (test : ℕ → Bool) (n : ℕ) (p : Pool) → IsCounted test p → IsCounted test (start_workers n p)
unfolding start_workers
start_workers-IsCounted test zero p counted = counted
start_workers-IsCounted test (suc n) p counted =
    start_workers-IsCounted test n (start_worker p) (start_worker-IsCounted test p counted)

-- However the goroutines of a new pool and the calls of `AddJob` go on, the wait group counts the goroutines
-- that have not returned, the counters of workers and idle workers count as they are meant to but
-- for the goroutines that are between two counts, the queue keeps to its capacity, and each job
-- that was added is queued, taken, processed or being processed, once. Once a worker has found the
-- queue closed, no job is left in it.
pub new_pool-IsCounted :
    (test : ℕ → Bool) (max_open_jobs starting_workers : ℕ) (es : List Event)
    → IsCounted test (run es (new_pool max_open_jobs starting_workers))
unfolding new_pool
new_pool-IsCounted test max_open_jobs starting_workers es =
    let n = if ltb starting_workers 1 then 1 else starting_workers in
    let start : IsCounted test (empty_pool max_open_jobs) =
      (omega arith, omega arith, omega arith, omega arith, omega arith, inl refl) in
    run-IsCounted test es (start_workers n (empty_pool max_open_jobs))
      (start_workers-IsCounted test n (empty_pool max_open_jobs) start)
