-- ===== src/Delay/Tests.antt =====
-- A delay pool at a concrete run: an item that is held when the pool is closed is dropped.
use openpcc.Base.{
  ℕ, ◌≡◌, refl, Bool, true, false, none, some, List, [], ◌∷◌, ◌||◌, ◌&&◌, not, ◌==◌, leb, length,
}
use openpcc.Base.Int.{pos}
use openpcc.Delay.{
  Pool, Event, add, pop_ready, drop, stop, first_close, cancel, close_output, new_pool, new_item,
  step, try_add, pop_from_heap, process_ready_item, drop_held, stop_processor, first_close_pool,
  cancel_close, close_output_channel, is_earliest,
}
use openpcc.Delay.Runs.{
  run, added, count, count_all, all_available, held_available, is_none, run-new_pool,
}

abbrev events : List Event
events =
    add 7 (pos 5) (pos 10)
    ∷ pop_ready 0 (pos 15)
    ∷ first_close true
    ∷ cancel
    ∷ drop
    ∷ stop
    ∷ close_output
    ∷ []

abbrev last : Pool
last = record {
  heap = [];
  capacity = 2;
  closed = true;
  respect_delays = true;
  close_cancelled = true;
  is_processing = false;
  held = none;
  output = [];
  is_output_closed = true;
  dropped = (record { val = 7; delay = pos 5; available_after = pos 15 }, pos 15) ∷ [];
}

runs : run events (new_pool 2) ≡ some last
unfolding step new_pool new_item try_add pop_from_heap process_ready_item drop_held stop_processor
    first_close_pool cancel_close close_output_channel is_earliest openpcc.Base.Int.◌+ℤ◌
runs = refl

run-new_pool_example :
    (count_all (λ x. x.val == 7) last ≡ count (λ x. x.val == 7) (added events))
    × (((last.capacity == 0) || leb (length last.heap) last.capacity) ≡ true)
    × ((not last.respect_delays || (all_available last.output && held_available last.held)) ≡ true)
    × ((last.close_cancelled || (length last.dropped == 0)) ≡ true)
    × ((not last.is_output_closed || ((length last.heap == 0) && is_none last.held)) ≡ true)
run-new_pool_example = run-new_pool (λ x. x.val == 7) 2 events last runs
