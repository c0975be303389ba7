-- ===== src/Delay/Runs.antt =====
-- Runs of the delay pool, with all orders of its events.
use openpcc.Base.{
  remove_at, ℕ, suc, zero, ◌+◌, ◌≡◌, refl, ap, Bool, true, false, not, ◌&&◌, ◌||◌, ◌==◌, leb,
  Option, none, some, List, [], ◌∷◌, length, get_elem?, inl, inr, arith, Option-cases,
  if◌then◌else◌,
}
use openpcc.Base.Int.{ℤ, leb_ℤ}
use openpcc.Delay.{
  PoolItem, Pool, Event, add, pop_ready, send, drop, stop, first_close, cancel, drain, close_output,
  new_pool, new_item, step, try_add, pop_from_heap, process_ready_item, send_held, drop_held,
  stop_processor, first_close_pool, cancel_close, drain_heap, close_output_channel,
}

abbrev pub run : List Event → Pool → Option Pool
run [] p = some p
run (e ∷ es) p = elim (step e p) [ none ↦ none | some p' ↦ run es p' ]

-- The items that the events of a run add.
abbrev pub added : List Event → List PoolItem
added [] = []
added (add val delay now ∷ es) = new_item val delay now ∷ added es
added (_ ∷ es) = added es

module _ (q : PoolItem → Bool) where
  abbrev pub count : List PoolItem → ℕ
  count [] = 0
  count (x ∷ xs) = (if q x then 1 else 0) + count xs

  abbrev pub count_taken : List (PoolItem × ℤ) → ℕ
  count_taken [] = 0
  count_taken ((x, at) ∷ xs) = (if q x then 1 else 0) + count_taken xs

  abbrev pub count_held : Option (PoolItem × ℤ) → ℕ
  count_held none = 0
  count_held (some (x, at)) = if q x then 1 else 0

  -- How many items of a kind are in the pool, put out, or dropped.
  abbrev pub count_all : Pool → ℕ
  count_all p = count p.heap + count_held p.held + count_taken p.output + count_taken p.dropped

  count-remove_at :
      (i : ℕ) (x : PoolItem) (xs : List PoolItem)
      → get_elem? xs i ≡ some x
      → count xs ≡ (if q x then 1 else 0) + count (remove_at i xs)
  count-remove_at i x [] h = absurd (cc h)
  count-remove_at zero x (y ∷ ys) h = ground (arith, h)
  count-remove_at (suc i) x (y ∷ ys) h = ground (arith, count-remove_at i x ys h)

  count-pop :
      (i : ℕ) (heap rest : List PoolItem) (x : PoolItem)
      → pop_from_heap i heap ≡ some (x, rest)
      → count heap ≡ (if q x then 1 else 0) + count rest
  unfolding pop_from_heap
  count-pop i heap rest x h = elim (Option-cases (get_elem? heap i)) [
    | inl e ↦ ground (arith, e, h)
    | inr (y, e) ↦ ground (arith, e, h, count-remove_at i y heap e)
  ]

  count_all-step :
      (e : Event) (p p' : Pool)
      → step e p ≡ some p'
      → count_all p' ≡ count (added (e ∷ [])) + count_all p
  unfolding step try_add process_ready_item send_held drop_held stop_processor first_close_pool
      cancel_close drain_heap close_output_channel
  count_all-step (add val delay now) p p' h = ground (arith, h)
  count_all-step (pop_ready i now) p p' h = elim (Option-cases (pop_from_heap i p.heap)) [
    | inl e ↦ ground (arith, e, h)
    | inr (popped, e) ↦ ground (arith, e, h, count-pop i p.heap popped.1 popped.0 e)
  ]
  count_all-step send p p' h = ground (arith, h)
  count_all-step drop p p' h = ground (arith, h)
  count_all-step stop p p' h = ground (arith, h)
  count_all-step (first_close r) p p' h = ground (arith, h)
  count_all-step cancel p p' h = ground (arith, h)
  count_all-step (drain i now) p p' h = elim (Option-cases (pop_from_heap i p.heap)) [
    | inl e ↦ ground (arith, e, h)
    | inr (popped, e) ↦ ground (arith, e, h, count-pop i p.heap popped.1 popped.0 e)
  ]
  count_all-step close_output p p' h = ground (arith, h)

  count-added :
      (e : Event) (es : List Event)
      → count (added (e ∷ es)) ≡ count (added (e ∷ [])) + count (added es)
  count-added (add val delay now) es = ground arith
  count-added (pop_ready i now) es = omega arith
  count-added send es = omega arith
  count-added drop es = omega arith
  count-added stop es = omega arith
  count-added (first_close r) es = omega arith
  count-added cancel es = omega arith
  count-added (drain i now) es = omega arith
  count-added close_output es = omega arith

  count_all-run :
      (es : List Event) (p p' : Pool)
      → run es p ≡ some p'
      → count_all p' ≡ count (added es) + count_all p
  count_all-run [] p p' h = ground (arith, h)
  count_all-run (e ∷ es) p p' h = elim (Option-cases (step e p)) [
    | inl stuck ↦ absurd (ground (arith, h, stuck))
    | inr (p₁, first) ↦
        let rest : run es p₁ ≡ some p' = ground (arith, first, h) in
        omega (arith, count-added e es, count_all-step e p p₁ first, count_all-run es p₁ p' rest)
  ]

-- Each item was available when it was taken out, unless the pool was closed without the delays.
abbrev pub all_available : List (PoolItem × ℤ) → Bool
all_available [] = true
all_available ((x, at) ∷ xs) = leb_ℤ x.available_after at && all_available xs

abbrev pub held_available : Option (PoolItem × ℤ) → Bool
held_available none = true
held_available (some (x, at)) = leb_ℤ x.available_after at

abbrev pub is_none : Option (PoolItem × ℤ) → Bool
is_none none = true
is_none (some h) = false

abbrev pub IsSound : Pool → Type 0
IsSound p =
    (((p.capacity == 0) || leb (length p.heap) p.capacity) ≡ true)
    × ((not p.close_cancelled || p.closed) ≡ true)
    × ((p.close_cancelled || (length p.dropped == 0)) ≡ true)
    × ((p.is_processing || is_none p.held) ≡ true)
    × ((p.closed || p.respect_delays) ≡ true)
    × ((not p.respect_delays || (all_available p.output && held_available p.held)) ≡ true)
    × ((not p.is_output_closed || (p.closed && not p.is_processing && (length p.heap == 0))) ≡ true)

length-remove_at :
    (i : ℕ) (x : PoolItem) (xs : List PoolItem)
    → get_elem? xs i ≡ some x
    → length xs ≡ suc (length (remove_at i xs))
length-remove_at i x [] h = absurd (cc h)
length-remove_at zero x (y ∷ ys) h = refl
length-remove_at (suc i) x (y ∷ ys) h = ap suc (length-remove_at i x ys h)

length-pop :
    (i : ℕ) (heap rest : List PoolItem) (x : PoolItem)
    → pop_from_heap i heap ≡ some (x, rest)
    → length heap ≡ suc (length rest)
unfolding pop_from_heap
length-pop i heap rest x h = elim (Option-cases (get_elem? heap i)) [
  | inl e ↦ ground (arith, e, h)
  | inr (y, e) ↦ ground (arith, e, h, length-remove_at i y heap e)
]

step-IsSound : (e : Event) (p p' : Pool) → step e p ≡ some p' → IsSound p → IsSound p'
unfolding step try_add process_ready_item send_held drop_held stop_processor first_close_pool
    cancel_close drain_heap close_output_channel
step-IsSound (add val delay now) p p' h sound = ground (arith, h, sound)
step-IsSound (pop_ready i now) p p' h sound = elim (Option-cases (pop_from_heap i p.heap)) [
  | inl e ↦ ground (arith, e, h)
  | inr (popped, e) ↦ ground (arith, e, h, sound, length-pop i p.heap popped.1 popped.0 e)
]
step-IsSound send p p' h sound = ground (arith, h, sound)
step-IsSound drop p p' h sound = ground (arith, h, sound)
step-IsSound stop p p' h sound = ground (arith, h, sound)
step-IsSound (first_close r) p p' h sound = ground (arith, h, sound)
step-IsSound cancel p p' h sound = ground (arith, h, sound)
step-IsSound (drain i now) p p' h sound = elim (Option-cases (pop_from_heap i p.heap)) [
  | inl e ↦ ground (arith, e, h)
  | inr (popped, e) ↦ ground (arith, e, h, sound, length-pop i p.heap popped.1 popped.0 e)
]
step-IsSound close_output p p' h sound = ground (arith, h, sound)

run-IsSound : (es : List Event) (p p' : Pool) → run es p ≡ some p' → IsSound p → IsSound p'
run-IsSound [] p p' h sound = ground (arith, h, sound)
run-IsSound (e ∷ es) p p' h sound = elim (Option-cases (step e p)) [
  | inl stuck ↦ absurd (ground (arith, h, stuck))
  | inr (p₁, first) ↦
      let rest : run es p₁ ≡ some p' = ground (arith, first, h) in
      run-IsSound es p₁ p' rest (step-IsSound e p p₁ first sound)
]

-- In every run of a new pool, in any order of its events: an item is in the heap, held, put out or dropped
-- as often as it was added; the heap keeps to the capacity, where that is not zero; as long as the
-- pool is not closed without the delays, no item is taken out before it is available; items
-- are dropped just when the pool is being closed; and once the output is closed nothing is left.
pub run-new_pool :
    (q : PoolItem → Bool) (capacity : ℕ) (es : List Event) (p : Pool)
    → run es (new_pool capacity) ≡ some p
    → (count_all q p ≡ count q (added es))
      × (((p.capacity == 0) || leb (length p.heap) p.capacity) ≡ true)
      × ((not p.respect_delays || (all_available p.output && held_available p.held)) ≡ true)
      × ((p.close_cancelled || (length p.dropped == 0)) ≡ true)
      × ((not p.is_output_closed || ((length p.heap == 0) && is_none p.held)) ≡ true)
unfolding new_pool
run-new_pool q capacity es p h =
    let start : IsSound (new_pool capacity) = ground arith in
    let counts = count_all-run q es (new_pool capacity) p h in
    let sound = run-IsSound es (new_pool capacity) p h start in
    (
      omega (arith, counts),
      sound.0,
      ground (arith, sound),
      ground (arith, sound),
      ground (arith, sound),
    )
