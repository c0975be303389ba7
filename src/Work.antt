-- ===== src/Work.antt =====
-- work/pool.go: the pool of workers, whose goroutines take jobs from a queue, and what scales it up and down.
-- The goroutines of the pool are counted by where in `startWorker` they stand, and the calls of
-- `AddJob` that are in their `select` are listed by their jobs; what happens is a list of events,
-- and an event that cannot happen where it stands changes nothing. The counters do not go below
-- zero, as the invariant of Work/Counts shows. A job is its number.
pub mod Counts
pub mod Counters
mod Tests
use openpcc.Base.{
  ℕ, suc, zero, ◌+◌, ◌-◌, Bool, true, false, not, ◌&&◌, ◌||◌, ◌==◌, ltb, leb, Option, none, some,
  List, [], ◌∷◌, ◌++◌, length, get_elem?, remove_at, Result, ok, err, if◌then◌else◌,
}

pub record Pool : Type 0 where
  -- `closeCtx` is done, and the queue is closed.
  pub closed : Bool
  pub queue_closed : Bool
  pub capacity : ℕ
  pub job_queue : List ℕ
  -- The jobs of the calls of `AddJob` that are in its `select`, and whether one of them panicked.
  pub calling : List ℕ
  pub panicked : Bool
  -- The number of idle workers that a closing pool has read last.
  pub idle_read : Option ℕ
  -- The counters `workers` and `idleWorkers`, and the wait group.
  pub workers : ℕ
  pub idle_workers : ℕ
  pub wg : ℕ
  -- The goroutines at the top of the loop, in the `select`, with a job that they took, with one that they
  -- process, with a signal to stop, with a closed queue, and between the two deferred calls.
  pub starting : ℕ
  pub waiting : ℕ
  pub taken : List ℕ
  pub processing : List ℕ
  pub stopping : ℕ
  pub drained : ℕ
  pub leaving : ℕ
  -- What was added and what was processed, and how many goroutines left with the queue closed.
  pub added : List ℕ
  pub processed : List ℕ
  pub drained_once : ℕ

abbrev pub empty_pool : ℕ → Pool
empty_pool max_open_jobs = record {
  closed = false;
  queue_closed = false;
  capacity = max_open_jobs;
  job_queue = [];
  calling = [];
  panicked = false;
  idle_read = none;
  workers = 0;
  idle_workers = 0;
  wg = 0;
  starting = 0;
  waiting = 0;
  taken = [];
  processing = [];
  stopping = 0;
  drained = 0;
  leaving = 0;
  added = [];
  processed = [];
  drained_once = 0;
}

-- The counting part of `startWorker`.
pub start_worker : Pool → Pool
start_worker p = record p { workers = p.workers + 1; wg = p.wg + 1; starting = p.starting + 1 }

pub start_workers : ℕ → Pool → Pool
start_workers zero p = p
start_workers (suc n) p = start_workers n (start_worker p)

-- `NewPool`
pub new_pool : (max_open_jobs starting_workers : ℕ) → Pool
new_pool max_open_jobs starting_workers =
    start_workers (if ltb starting_workers 1 then 1 else starting_workers)
      (empty_pool max_open_jobs)

-- `Pool.AddJob`, up to its `select`; the calls are not held up by the closing of the pool.
pub add_job : ℕ → Pool → Pool
add_job j p = if p.closed then p else record p { calling = j ∷ p.calling }

-- `p.jobQueue <- j`: into the buffer, or from hand to hand where there is none.
pub send_job : ℕ → Pool → Pool
send_job j p =
    if ltb (length p.job_queue) p.capacity
    then record p { job_queue = p.job_queue ++ (j ∷ []); added = j ∷ p.added }
    else record p { waiting = p.waiting - 1; taken = j ∷ p.taken; added = j ∷ p.added }

-- A send that cannot go on yet.
pub blocks : Pool → Bool
blocks p = not (ltb (length p.job_queue) p.capacity) && not ((p.capacity == 0) && ltb 0 p.waiting)

-- The send of a call, which panics on a closed queue.
pub send_at : ℕ → Option ℕ → Pool → Pool
send_at i none p = p
send_at i (some j) p =
    if p.queue_closed
    then record p { calling = remove_at i p.calling; panicked = true }
    else if blocks p
    then p
    else send_job j (record p { calling = remove_at i p.calling })

abbrev pub offer_job : ℕ → Pool → Pool
offer_job i p = send_at i (get_elem? p.calling i) p

-- The other cases of the `select`: the pool is closing, or the caller's context is done.
pub give_up : ℕ → Pool → Pool
give_up i p = record p { calling = remove_at i p.calling }

-- `p.idleWorkers.Add(1)`, and the `select`
pub become_idle : Pool → Pool
become_idle p = if p.starting == 0 then p else record p {
  starting = p.starting - 1;
  waiting = p.waiting + 1;
  idle_workers = p.idle_workers + 1;
}

-- `case j, ok := <-p.jobQueue`, on the queue
pub take_from : List ℕ → Pool → Pool
take_from (j ∷ js) p = record p { waiting = p.waiting - 1; job_queue = js; taken = j ∷ p.taken }
take_from [] p = if not p.queue_closed then p else record p {
  waiting = p.waiting - 1;
  drained = p.drained + 1;
  drained_once = p.drained_once + 1;
}

pub take_job : Pool → Pool
take_job p = if p.waiting == 0 then p else take_from p.job_queue p

-- `p.idleWorkers.Add(-1)` before a job
pub begin_at : ℕ → Option ℕ → Pool → Pool
begin_at i none p = p
begin_at i (some j) p = record p {
  taken = remove_at i p.taken;
  processing = j ∷ p.processing;
  idle_workers = p.idle_workers - 1;
}

abbrev pub begin_job : ℕ → Pool → Pool
begin_job i p = begin_at i (get_elem? p.taken i) p

-- The end of `j.Process()`.
pub end_at : ℕ → Option ℕ → Pool → Pool
end_at i none p = p
end_at i (some j) p = record p {
  processing = remove_at i p.processing;
  processed = j ∷ p.processed;
  starting = p.starting + 1;
}

abbrev pub end_job : ℕ → Pool → Pool
end_job i p = end_at i (get_elem? p.processing i) p

-- `p.scaleDown <- struct{}{}`, which a waiting worker takes
pub stop_worker : Pool → Pool
stop_worker p =
    if p.waiting == 0 then p else record p { waiting = p.waiting - 1; stopping = p.stopping + 1 }

-- `p.idleWorkers.Add(-1)`, `return` and the deferred `p.wg.Done()`
pub finish_stopping : Pool → Pool
finish_stopping p = if p.stopping == 0 then p else record p {
  stopping = p.stopping - 1;
  idle_workers = p.idle_workers - 1;
  wg = p.wg - 1;
  leaving = p.leaving + 1;
}

-- `return` where the queue is closed, and the deferred `p.wg.Done()`
pub finish_drained : Pool → Pool
finish_drained p =
    if p.drained == 0
    then p
    else record p { drained = p.drained - 1; wg = p.wg - 1; leaving = p.leaving + 1 }

-- The deferred `p.workers.Add(-1)`.
pub leave : Pool → Pool
leave p =
    if p.leaving == 0 then p else record p { leaving = p.leaving - 1; workers = p.workers - 1 }

-- `Pool.Close`, up to the wait for the workers, and from the wait on.
pub begin_close : Pool → Pool
begin_close p = record p { closed = true }

-- `p.IdleWorkers()` and then `p.Workers()`, in the test of the loop that waits.
pub read_idle : Pool → Pool
read_idle p = if p.closed then record p { idle_read = some p.idle_workers } else p

-- `close(p.jobQueue)`, where the workers are not more than the idle ones that were read.
pub close_queue_at : Option ℕ → Pool → Pool
close_queue_at none p = p
close_queue_at (some idle) p = if ltb idle p.workers then p else record p { queue_closed = true }

abbrev pub close_queue : Pool → Pool
close_queue p = close_queue_at p.idle_read p

pub data Event : Type 0 where
  starts becomes_idle takes stops finishes_stopping finishes_drained leaves : Event
  begins_close reads_idle closes_queue : Event
  adds sends gives_up begins ends : ℕ → Event

pub data Error : Type 0 where
  too_few_workers pool_closed : Error

pub repeat : ℕ → Event → List Event
repeat zero e = []
repeat (suc n) e = e ∷ repeat n e

-- `Pool.ScaleWorkers`, as the events that it brings about.
pub scale_workers : (total_workers : ℕ) → Pool → Result Error (List Event)
scale_workers total_workers p =
    if ltb total_workers 1
    then err too_few_workers
    else if p.closed
    then err pool_closed
    else if ltb p.workers total_workers
    then ok (repeat (total_workers - p.workers) starts)
    else ok (repeat (p.workers - total_workers) stops)

abbrev pub step : Event → Pool → Pool
step starts p = if p.closed then p else start_worker p
step becomes_idle p = become_idle p
step takes p = take_job p
step stops p = if p.closed then p else stop_worker p
step finishes_stopping p = finish_stopping p
step finishes_drained p = finish_drained p
step leaves p = leave p
step begins_close p = begin_close p
step reads_idle p = read_idle p
step closes_queue p = close_queue p
step (adds j) p = add_job j p
step (sends i) p = offer_job i p
step (gives_up i) p = give_up i p
step (begins i) p = begin_job i p
step (ends i) p = end_job i p

abbrev pub run : List Event → Pool → Pool
run [] p = p
run (e ∷ es) p = run es (step e p)
