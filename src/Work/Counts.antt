-- ===== src/Work/Counts.antt =====
-- What the counters of the pool count, and that no move of a goroutine or a call changes it.
use openpcc.Base.{
  ℕ, ◌+◌, ◌≤◌, ◌⊎◌, remove_at, ◌≡◌, refl, ap, ◌==◌, Bool, true, false, not, ltb, Option, none, some,
  List, [], ◌∷◌, length, get_elem?, count, count-append, count-remove_at, length-append, inl, inr,
  arith, Bool-cases, if◌then◌else◌,
}
use openpcc.Work.{
  Pool, start_worker, add_job, blocks, send_job, send_at, close_queue_at, become_idle, take_job,
  take_from, begin_at, end_at, stop_worker, finish_stopping, finish_drained, leave,
}

-- The wait group counts the goroutines that have not returned, the workers those and the ones that have not
-- yet counted down, and the idle workers those between the two counts and those that a closed
-- queue stopped. The queue is within its capacity, a job that was added is in one place, and once a
-- worker has found the queue closed, nothing is queued.
abbrev pub IsCounted : (ℕ → Bool) → Pool → Type 0
IsCounted test p =
    (p.wg ≡ p.starting + p.waiting + length p.taken + length p.processing + p.stopping + p.drained)
    × (p.workers ≡ p.wg + p.leaving)
    × (p.idle_workers ≡ p.waiting + length p.taken + p.stopping + p.drained_once)
    × (length p.job_queue ≤ p.capacity)
    × (count test p.added
        ≡ count test p.job_queue
          + count test p.taken
          + count test p.processing
          + count test p.processed)
    × ((p.drained_once ≡ 0) ⊎ ((p.queue_closed ≡ true) × (length p.job_queue ≡ 0)))

pub start_worker-IsCounted :
    (test : ℕ → Bool) (p : Pool) → IsCounted test p → IsCounted test (start_worker p)
unfolding start_worker
start_worker-IsCounted test p (wg, workers, idle, room, jobs, done) =
    (omega (arith, wg), omega (arith, workers), idle, room, jobs, done)

pub branched :
    (test : ℕ → Bool) (b : Bool) (p q : Pool)
    → (b ≡ true → IsCounted test p)
    → (b ≡ false → IsCounted test q)
    → IsCounted test (if b then p else q)
branched test true p q yes_case no_case = yes_case refl
branched test false p q yes_case no_case = no_case refl

pub guarded :
    (test : ℕ → Bool) (b : Bool) (p q : Pool)
    → IsCounted test p
    → (b ≡ false → IsCounted test q)
    → IsCounted test (if b then p else q)
guarded test b p q stays moves = branched test b p q (λ held. stays) moves

pub add_job-IsCounted :
    (test : ℕ → Bool) (j : ℕ) (p : Pool) → IsCounted test p → IsCounted test (add_job j p)
unfolding add_job
add_job-IsCounted test j p counted = guarded test _ p _ counted (λ (opened : _ ≡ false). counted)

pub send_job-IsCounted :
    (test : ℕ → Bool) (i j : ℕ) (p : Pool)
    → p.queue_closed ≡ false
    → blocks p ≡ false
    → IsCounted test p
    → IsCounted test (send_job j (record p { calling = remove_at i p.calling }))
unfolding send_job blocks
send_job-IsCounted test i j p opened free (wg, workers, idle, room, jobs, done) =
    elim (Bool-cases (ltb (length p.job_queue) p.capacity)) [
      | inl fits ↦ rw fits (
        wg,
        workers,
        idle,
        ground (arith, fits, length-append p.job_queue (j ∷ [])),
        omega (arith, jobs, count-append test p.job_queue (j ∷ [])),
        ground (arith, opened, done),
      )
      | inr full ↦ rw full (
        ground (arith, wg, free, full),
        workers,
        ground (arith, idle, free, full),
        room,
        omega (arith, jobs),
        ground (arith, opened, done),
      )
    ]

pub send_at-IsCounted :
    (test : ℕ → Bool) (i : ℕ) (o : Option ℕ) (p : Pool)
    → IsCounted test p
    → IsCounted test (send_at i o p)
unfolding send_at
send_at-IsCounted test i none p counted = counted
send_at-IsCounted test i (some j) p counted =
    branched test p.queue_closed _ _ (λ over. counted)
      (λ opened.
        guarded test (blocks p) p _ counted
          (λ free. send_job-IsCounted test i j p opened free counted))

pub become_idle-IsCounted :
    (test : ℕ → Bool) (p : Pool) → IsCounted test p → IsCounted test (become_idle p)
unfolding become_idle
become_idle-IsCounted test p counted = ground arith

pub stop_worker-IsCounted :
    (test : ℕ → Bool) (p : Pool) → IsCounted test p → IsCounted test (stop_worker p)
unfolding stop_worker
stop_worker-IsCounted test p counted = ground arith

pub finish_stopping-IsCounted :
    (test : ℕ → Bool) (p : Pool) → IsCounted test p → IsCounted test (finish_stopping p)
unfolding finish_stopping
finish_stopping-IsCounted test p counted = ground arith

pub finish_drained-IsCounted :
    (test : ℕ → Bool) (p : Pool) → IsCounted test p → IsCounted test (finish_drained p)
unfolding finish_drained
finish_drained-IsCounted test p counted = ground arith

pub leave-IsCounted : (test : ℕ → Bool) (p : Pool) → IsCounted test p → IsCounted test (leave p)
unfolding leave
leave-IsCounted test p counted = ground arith

pub take_from-IsCounted :
    (test : ℕ → Bool) (q : List ℕ) (p : Pool)
    → (p.waiting == 0) ≡ false
    → p.job_queue ≡ q
    → IsCounted test p
    → IsCounted test (take_from q p)
unfolding take_from
take_from-IsCounted test (j ∷ js) p here queue (wg, workers, idle, room, jobs, done) = (
  ground (arith, here, wg),
  workers,
  ground (arith, here, idle),
  omega (arith, room, ap length queue),
  omega (arith, jobs, ap (count test) queue),
  ground (arith, done, ap length queue),
)
take_from-IsCounted test [] p here queue (wg, workers, idle, room, jobs, done) =
    guarded test (not p.queue_closed) p _ (wg, workers, idle, room, jobs, done)
      (λ (drains : _ ≡ false). (
        ground (arith, here, wg),
        workers,
        ground (arith, here, idle),
        room,
        jobs,
        inr (ground (arith, drains), omega (arith, ap length queue)),
      ))

pub take_job-IsCounted :
    (test : ℕ → Bool) (p : Pool) → IsCounted test p → IsCounted test (take_job p)
unfolding take_job
take_job-IsCounted test p counted =
    guarded test (p.waiting == 0) p _ counted
      (λ (here : _ ≡ false). take_from-IsCounted test p.job_queue p here refl counted)

pub begin_at-IsCounted :
    (test : ℕ → Bool) (i : ℕ) (o : Option ℕ) (p : Pool)
    → get_elem? p.taken i ≡ o
    → IsCounted test p
    → IsCounted test (begin_at i o p)
unfolding begin_at
begin_at-IsCounted test i none p found counted = counted
begin_at-IsCounted test i (some j) p found (wg, workers, idle, room, jobs, done) =
    let (counts, lengths) = count-remove_at test i j p.taken found in
    (
      omega (arith, wg, lengths),
      workers,
      omega (arith, idle, lengths),
      room,
      omega (arith, jobs, counts),
      done,
    )

pub end_at-IsCounted :
    (test : ℕ → Bool) (i : ℕ) (o : Option ℕ) (p : Pool)
    → get_elem? p.processing i ≡ o
    → IsCounted test p
    → IsCounted test (end_at i o p)
unfolding end_at
end_at-IsCounted test i none p found counted = counted
end_at-IsCounted test i (some j) p found (wg, workers, idle, room, jobs, done) =
    let (counts, lengths) = count-remove_at test i j p.processing found in
    (omega (arith, wg, lengths), workers, idle, room, omega (arith, jobs, counts), done)

pub closed_queue-IsCounted :
    (test : ℕ → Bool) (p : Pool)
    → IsCounted test p
    → IsCounted test (record p { queue_closed = true })
closed_queue-IsCounted test p (wg, workers, idle, room, jobs, done) =
    (wg, workers, idle, room, jobs, ground (arith, done))

pub close_queue_at-IsCounted :
    (test : ℕ → Bool) (o : Option ℕ) (p : Pool)
    → IsCounted test p
    → IsCounted test (close_queue_at o p)
unfolding close_queue_at
close_queue_at-IsCounted test none p counted = counted
close_queue_at-IsCounted test (some idle) p counted =
    guarded test _ p _ counted (λ (all : _ ≡ false). closed_queue-IsCounted test p counted)
