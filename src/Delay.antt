-- ===== src/Delay.antt =====
-- delay/pool.go and pool_heap.go: the delay pool, whose items are put out once their delay is over. The
-- mutex makes each event below one step; a run is a list of events, in any order that the steps
-- allow. The heap is the list of its items, and of the items with the earliest time any
-- can be popped. The notifications, which only end a wait early, and the context of a caller are left out.
pub mod Runs
mod Tests
use openpcc.Base.{
  remove_at, ℕ, suc, zero, Bool, true, false, not, ◌&&◌, ◌||◌, ◌==◌, leb, ltb, Option, none, some,
  List, [], ◌∷◌, ◌++◌, length, get_elem?, if◌then◌else◌,
}
use openpcc.Base.Int.{ℤ, ◌+ℤ◌, leb_ℤ}

-- `poolItem`
pub record PoolItem : Type 0 where
  pub val : ℕ
  pub delay : ℤ
  pub available_after : ℤ

-- A pool, with the item that its processor holds between the heap and the output, the items that
-- were put out, the latest first, and those that were dropped; each with the time that the
-- processor or the closing took for the current one when it took the item out of the heap.
pub record Pool : Type 0 where
  pub heap : List PoolItem
  pub capacity : ℕ
  pub closed : Bool
  pub respect_delays : Bool
  pub close_cancelled : Bool
  pub is_processing : Bool
  pub held : Option (PoolItem × ℤ)
  pub output : List (PoolItem × ℤ)
  pub is_output_closed : Bool
  pub dropped : List (PoolItem × ℤ)

pub new_pool : ℕ → Pool
new_pool capacity = record {
  heap = [];
  capacity = capacity;
  closed = false;
  respect_delays = true;
  close_cancelled = false;
  is_processing = true;
  held = none;
  output = [];
  is_output_closed = false;
  dropped = [];
}

pub data Event : Type 0 where
  add : (val : ℕ) → (delay now : ℤ) → Event
  pop_ready : ℕ → (now : ℤ) → Event
  send drop stop : Event
  first_close : (respect_delays : Bool) → Event
  cancel : Event
  drain : ℕ → (now : ℤ) → Event
  close_output : Event

-- `Pool.tryAdd`, on the item that `Add` makes: `none` where the pool refuses it for now or for good.
pub try_add : PoolItem → Pool → Option Pool
try_add item p =
    if p.closed
    then none
    else if ltb 0 p.capacity && leb p.capacity (length p.heap)
    then none
    else some (record p { heap = item ∷ p.heap })

pub new_item : (val : ℕ) → (delay now : ℤ) → PoolItem
new_item val delay now = record { val = val; delay = delay; available_after = now +ℤ delay }

-- `poolHeap.Less` holds of no other item and the one that is popped.
pub is_earliest : PoolItem → List PoolItem → Bool
is_earliest item [] = true
is_earliest item (other ∷ items) =
    leb_ℤ item.available_after other.available_after && is_earliest item items

-- `Pool.popFromHeap`: the item at the index, if it is an earliest one, and the others.
pub pop_from_heap : ℕ → List PoolItem → Option (PoolItem × List PoolItem)
pop_from_heap i heap = elim (get_elem? heap i) [
  | none ↦ none
  | some item ↦ if is_earliest item heap then some (item, remove_at i heap) else none
]

-- `Pool.processReadyItems` up to the send: the processor takes an item that is ready.
pub process_ready_item : ℕ → ℤ → Pool → Option Pool
process_ready_item i now p = if not p.is_processing then none else elim (p.held) [
  | some item ↦ none
  | none ↦ elim (pop_from_heap i p.heap) [
    | none ↦ none
    | some popped ↦
        if leb_ℤ popped.0.available_after now
        then some (record p { heap = popped.1; held = some (popped.0, now) })
        else none
  ]
]

-- The `select` of `processReadyItems`: the item is sent, or the pool is being closed.
pub send_held : Pool → Option Pool
send_held p = elim (p.held) [
  | none ↦ none
  | some item ↦ some (record p { held = none; output = item ∷ p.output })
]

pub drop_held : Pool → Option Pool
drop_held p = elim (p.held) [
  | none ↦ none
  | some item ↦
      if p.close_cancelled
      then some (record p { held = none; dropped = item ∷ p.dropped })
      else none
]

-- `Pool.processor` returns.
pub stop_processor : Pool → Option Pool
stop_processor p = elim (p.held) [
  | some item ↦ none
  | none ↦
      if p.is_processing && p.close_cancelled
      then some (record p { is_processing = false })
      else none
]

-- `Pool.firstClose`, as `Close` or `CloseImmediate` calls it.
pub first_close_pool : Bool → Pool → Option Pool
first_close_pool respect_delays p =
    if p.closed then none else some (record p { closed = true; respect_delays = respect_delays })

-- The start of `Pool.drainAndClose`.
pub cancel_close : Pool → Option Pool
cancel_close p = if p.closed then some (record p { close_cancelled = true }) else none

-- A round of `Pool.drainHeap`, which starts when the processor has returned.
pub drain_heap : ℕ → ℤ → Pool → Option Pool
drain_heap i now p =
    if p.is_processing || not p.close_cancelled then none else elim (pop_from_heap i p.heap) [
      | none ↦ none
      | some popped ↦
          if p.respect_delays && not (leb_ℤ popped.0.available_after now)
          then none
          else some (record p { heap = popped.1; output = (popped.0, now) ∷ p.output })
    ]

-- The end of `Pool.drainAndClose`.
pub close_output_channel : Pool → Option Pool
close_output_channel p =
    if p.is_processing || not p.close_cancelled || not (length p.heap == 0)
    then none
    else some (record p { is_output_closed = true })

pub step : Event → Pool → Option Pool
step (add val delay now) p = try_add (new_item val delay now) p
step (pop_ready i now) p = process_ready_item i now p
step send p = send_held p
step drop p = drop_held p
step stop p = stop_processor p
step (first_close respect_delays) p = first_close_pool respect_delays p
step cancel p = cancel_close p
step (drain i now) p = drain_heap i now p
step close_output p = close_output_channel p
