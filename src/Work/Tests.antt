-- ===== src/Work/Tests.antt =====
-- The pool at concrete inputs: a job that is run, and workers that are scaled down twice.
use openpcc.Base.{ℕ, ◌≡◌, refl, Bool, true, ◌==◌, List, [], ◌∷◌, ok}
use openpcc.Work.{
  Pool, Event, new_pool, add_job, send_at, begin_close, read_idle, close_queue_at, start_workers,
  start_worker, become_idle, stop_worker, finish_stopping, leave, scale_workers, repeat, run,
  becomes_idle, takes, adds, sends, begins_close, reads_idle, closes_queue, begins, ends, stops,
  finishes_stopping, leaves,
}
use openpcc.Work.Counts.{IsCounted}
use openpcc.Work.Counters.{new_pool-IsCounted}

abbrev is_seven : ℕ → Bool
is_seven j = j == 7

abbrev one_job : List Event
one_job = becomes_idle ∷ adds 7 ∷ sends 0 ∷ takes ∷ begins 0 ∷ ends 0 ∷ []

new_pool-IsCounted_example : IsCounted is_seven (run one_job (new_pool 4 1))
new_pool-IsCounted_example = new_pool-IsCounted is_seven 4 1 one_job

-- Two idle workers, of which one has taken the signal to stop.
abbrev one_stopping : Pool
one_stopping = run (becomes_idle ∷ becomes_idle ∷ stops ∷ []) (new_pool 4 2)

-- Scaling to one worker then stops the other one as well.
scaled_twice : scale_workers 1 one_stopping ≡ ok (stops ∷ [])
unfolding scale_workers repeat new_pool start_workers start_worker become_idle stop_worker
scaled_twice = refl

no_workers :
    (run
      (stops ∷ finishes_stopping ∷ finishes_stopping ∷ leaves ∷ leaves ∷ [])
      one_stopping).workers
    ≡ 0
unfolding new_pool start_workers start_worker become_idle stop_worker finish_stopping leave
no_workers = refl

-- A call of `AddJob` that is past its check when the pool closes sends on the closed queue.
late_send :
    (run
      (becomes_idle ∷ adds 7 ∷ begins_close ∷ reads_idle ∷ closes_queue ∷ sends 0 ∷ [])
      (new_pool 4 1)).panicked
    ≡ true
unfolding new_pool start_workers start_worker become_idle add_job send_at begin_close read_idle
    close_queue_at
late_send = refl
