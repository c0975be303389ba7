-- ===== src/Client/Ping/Attempts.antt =====
-- How many requests the ping of the router makes, and how it ends.
use mathlib.Core.Path.{subst⁻¹}
use openpcc.Base.{
  ℕ, suc, zero, ◌+◌, ◌<◌, ◌≡◌, ◌≢◌, ◌⊎◌, refl, ap, ◌∙◌, Bool, true, false, ◌==◌, if◌then◌else◌,
  Option, none, some, Result, ok, err, List, inl, inr, arith, Bool-cases,
}
use openpcc.Base.Int.{ℤ, pos_part}
use openpcc.Base.Dict.{list_eq, ◌===◌, eq_of_beq, ne_of_beq}
use openpcc.Client.Ping.{
  Attempt, Answer, PingError, PingResult, pong, sends_nothing, responds, no_request, not_sent,
  unexpected_status, body_not_read, unexpected_body, pinged, panicked, context_done, client_error,
  all_failed, attempt, select, ping_loop, ping_router, ping_router_request, stops,
}

-- Whether the wait before an attempt is drawn, of which the first has none.
abbrev pub Waits : ℕ → Attempt → Type 0
Waits zero a = Unit
Waits (suc i) a = a.draws ≡ true

abbrev pub Panics : ℕ → Attempt → Type 0
Panics zero a = ⊥
Panics (suc i) a = a.draws ≡ false

-- What goes wrong with a request, by its error.
abbrev pub FailsWith : PingError → (makes_request : Bool) → Answer → Type 0
FailsWith no_request makes answer = makes ≡ false
FailsWith (not_sent status) makes answer = (makes ≡ true) × (answer ≡ sends_nothing status)
FailsWith (unexpected_status status) makes answer =
    (makes ≡ true)
    × (data_read : Option (List ℕ)) × (answer ≡ responds status data_read)
    × (status ≢ 200)
FailsWith body_not_read makes answer = (makes ≡ true) × (answer ≡ responds 200 none)
FailsWith unexpected_body makes answer =
    (makes ≡ true) × (bytes : List ℕ) × (answer ≡ responds 200 (some bytes)) × (bytes ≢ pong)

-- How many requests an attempt makes that is the last.
abbrev pub requests : PingResult → ℕ
requests pinged = 1
requests (client_error e) = 1
requests panicked = 0
requests context_done = 0
requests (all_failed e) = 0

-- What a request comes to.
abbrev Outcome : Option PingError → (makes_request : Bool) → Answer → Type 0
Outcome none makes answer = (makes ≡ true) × (answer ≡ responds 200 (some pong))
Outcome (some e) makes answer = FailsWith e makes answer

ping_router_request-Outcome :
    (makes : Bool) (answer : Answer) → Outcome (ping_router_request makes answer) makes answer
unfolding ping_router_request
ping_router_request-Outcome false answer = refl
ping_router_request-Outcome true (sends_nothing status) = (refl, refl)
ping_router_request-Outcome true (responds status data_read) = elim (Bool-cases (status == 200)) [
  | inr other ↦ rw (ping_router_request, other) (refl, data_read, refl, ground (arith, other))
  | inl same ↦ rw (ping_router_request, same) (read data_read (ground (arith, same)))
]
  where
    checked : Option (List ℕ) → Option PingError
    checked o = elim o [
      | none ↦ some body_not_read
      | some bytes ↦ if bytes === pong then none else some unexpected_body
    ]

    read : (o : Option (List ℕ)) → status ≡ 200 → Outcome (checked o) true (responds status o)
    read none same = (refl, ap (λ k. responds k none) same)
    read (some bytes) same = elim (Bool-cases (bytes === pong)) [
      | inl is_pong ↦ rw is_pong (
        refl,
        ap (λ k. responds k (some bytes)) same
            ∙ ap (λ b. responds 200 (some b)) (eq_of_beq bytes pong is_pong),
      )
      | inr other ↦
          rw other (refl, bytes, ap (λ k. responds k (some bytes)) same, ne_of_beq bytes pong other)
    ]

module _ (is_client_error : ℕ → Bool) where
  -- The error of a response that the status blames on the client.
  abbrev pub IsClients : PingError → Type 0
  IsClients e = (status : ℕ) × (e ≡ not_sent (some status)) × (is_client_error status ≡ true)

  -- An attempt that is followed by another, with its error.
  abbrev pub GoesOn : ℕ → Attempt → PingError → Type 0
  GoesOn i a e = Waits i a × (a.ticks ≡ true) × FailsWith e a.makes_request a.answer × ¬ IsClients e

  -- An attempt that is the last, with the result.
  abbrev pub Stops : ℕ → Attempt → PingResult → Type 0
  Stops i a pinged =
      Waits i a
      × (a.ticks ≡ true)
      × (a.makes_request ≡ true)
      × (a.answer ≡ responds 200 (some pong))
  Stops i a (client_error e) =
      Waits i a × (a.ticks ≡ true) × FailsWith e a.makes_request a.answer × IsClients e
  Stops i a panicked = Panics i a
  Stops i a context_done = Waits i a × (a.ticks ≡ false)
  Stops i a (all_failed e) = ⊥

  -- A number of attempts from one on are each followed by another, and the one after them is the last.
  abbrev pub StopsAfter : (ℕ → Attempt) → (count i : ℕ) → PingResult → Type 0
  StopsAfter events zero i result = Stops i (events i) result
  StopsAfter events (suc count) i result =
      (e : PingError) × GoesOn i (events i) e × StopsAfter events count (suc i) result

  -- A number of attempts from one on are each followed by another, and this is the error of the last.
  abbrev pub AllGoOn : (ℕ → Attempt) → (count i : ℕ) → (before last : Option PingError) → Type 0
  AllGoOn events zero i before last = last ≡ before
  AllGoOn events (suc count) i before last =
      (e : PingError) × GoesOn i (events i) e × AllGoOn events count (suc i) (some e) last

  -- How the loop ends: after all of its attempts, or at one of them.
  abbrev pub Ends :
      (ℕ → Attempt) → (rest i : ℕ) → (before : Option PingError) → PingResult × ℕ → Type 0
  Ends events rest i before (result, n) =
      ((last : Option PingError) × (result ≡ all_failed last)
        × (n ≡ rest)
        × AllGoOn events rest i before last)
      ⊎ ((m : ℕ) × (m < rest) × (n ≡ m + requests result) × StopsAfter events m i result)

  abbrev Stepped : ℕ → Attempt → Result PingResult PingError × ℕ → Type 0
  Stepped i a (err result, n) = Stops i a result × (n ≡ requests result)
  Stepped i a (ok e, n) = GoesOn i a e × (n ≡ 1)

  stops-IsClients : (e : PingError) → stops is_client_error e ≡ true → IsClients e
  unfolding stops
  stops-IsClients (not_sent (some status)) h = (status, refl, h)
  stops-IsClients (not_sent none) h = cc
  stops-IsClients (unexpected_status status) h = cc
  stops-IsClients no_request h = cc
  stops-IsClients body_not_read h = cc
  stops-IsClients unexpected_body h = cc

  not_stops : (e : PingError) → stops is_client_error e ≡ false → ¬ IsClients e
  unfolding stops
  not_stops e h (status, same, t) =
      let h' : stops is_client_error (not_sent (some status)) ≡ false = cc (same, h) in cc

  select-Stepped : (i : ℕ) (a : Attempt) → Waits i a → Stepped i a (select is_client_error a)
  unfolding select
  select-Stepped i a waits = elim (Bool-cases a.ticks) [
    | inr h ↦
        let eq : select is_client_error a ≡ (err context_done, 0) = rw (select, h) refl in
        subst⁻¹ (Stepped i a) eq ((waits, h), refl)
    | inl h ↦
        answered (ping_router_request a.makes_request a.answer) refl h
          (ping_router_request-Outcome a.makes_request a.answer)
  ]
    where
      answered :
          (r : Option PingError)
          → ping_router_request a.makes_request a.answer ≡ r
          → a.ticks ≡ true
          → Outcome r a.makes_request a.answer
          → Stepped i a (select is_client_error a)
      answered none here h (made, answer) =
          let eq : select is_client_error a ≡ (err pinged, 1) = rw (select, h, here) refl in
          subst⁻¹ (Stepped i a) eq ((waits, h, made, answer), refl)
      answered (some e) here h fails = elim (Bool-cases (stops is_client_error e)) [
        | inl h₂ ↦
            let eq : select is_client_error a ≡ (err (client_error e), 1) =
              rw (select, h, here, h₂) refl in
            subst⁻¹ (Stepped i a) eq ((waits, h, fails, stops-IsClients e h₂), refl)
        | inr h₂ ↦
            let eq : select is_client_error a ≡ (ok e, 1) = rw (select, h, here, h₂) refl in
            subst⁻¹ (Stepped i a) eq ((waits, h, fails, not_stops e h₂), refl)
      ]

  attempt-Stepped : (i : ℕ) (a : Attempt) → Stepped i a (attempt is_client_error i a)
  unfolding attempt
  attempt-Stepped zero a = select-Stepped zero a tt
  attempt-Stepped (suc i) a = elim (Bool-cases a.draws) [
    | inl h ↦
        let eq : attempt is_client_error (suc i) a ≡ select is_client_error a =
          rw (attempt, h) refl in
        subst⁻¹ (Stepped (suc i) a) eq (select-Stepped (suc i) a h)
    | inr h ↦
        let eq : attempt is_client_error (suc i) a ≡ (err panicked, 0) = rw (attempt, h) refl in
        subst⁻¹ (Stepped (suc i) a) eq (h, refl)
  ]

  next :
      (events : ℕ → Attempt) (rest i made : ℕ) (before : Option PingError) (e : PingError)
      (r : PingResult × ℕ)
      → GoesOn i (events i) e
      → made ≡ 1
      → Ends events rest (suc i) (some e) r
      → Ends events (suc rest) i before (r.0, made + r.1)
  next events rest i made before e (result, n) here one (inl (last, all, same, on)) =
      inl (last, all, omega (arith, one, same), (e, here, on))
  next events rest i made before e (result, n) here one (inr (m, less, same, there)) =
      inr (suc m, omega (arith, less), omega (arith, one, same), (e, here, there))

  ping_loop-Ends :
      (events : ℕ → Attempt) (rest i : ℕ) (before : Option PingError)
      → Ends events rest i before (ping_loop is_client_error events rest i before)
  unfolding ping_loop
  ping_loop-Ends events zero i before = inl (before, refl, refl, refl)
  ping_loop-Ends events (suc rest) i before =
      go (attempt is_client_error i (events i)) (attempt-Stepped i (events i))
        (λ e. ping_loop-Ends events rest (suc i) (some e))
    where
      continue : Result PingResult PingError × ℕ → PingResult × ℕ
      continue (step, made) = elim step [
        | err result ↦ (result, made)
        | ok e ↦
            let (result, n) = ping_loop is_client_error events rest (suc i) (some e) in
            (result, made + n)
      ]

      go :
          (t : Result PingResult PingError × ℕ)
          → Stepped i (events i) t
          → ((e : PingError)
              → Ends events rest
                  (suc i)
                  (some e)
                  (ping_loop is_client_error events rest (suc i) (some e)))
          → Ends events (suc rest) i before (continue t)
      go (err result, made) (here, few) rest_ends = inr (0, omega arith, omega (arith, few), here)
      go (ok e, made) (here, one) rest_ends =
          next events rest i made before e (ping_loop is_client_error events rest (suc i) (some e))
            here one (rest_ends e)

  -- The ping of the router makes its attempts in turn, and ends in one of two ways. Either each attempt was
  -- followed by another: the first has no wait and the others drew theirs, the ticker ticked, and the
  -- request failed with an error that the status does not blame on the client; then it made as many
  -- requests as attempts, and its error is the last of these. Or all of some attempts were like
  -- that and the one after them ended it: by a pong with status 200; by an error of the client; by the end
  -- of the context, or a panic on a wait that is not drawn, which add no request to those before.
  pub ping_router-Ends :
      (events : ℕ → Attempt) (attempts : ℤ)
      → Ends events (pos_part attempts) 0 none (ping_router is_client_error events attempts)
  unfolding ping_router
  ping_router-Ends events attempts = ping_loop-Ends events (pos_part attempts) 0 none
