-- ===== src/Client/Ping.antt =====
-- client.go, pingRouter: the ping of the router that a new client waits for, with its retries. What the
-- random source, the context and the router answer at each attempt is an argument, and so is
-- which statuses the OHTTP package counts as errors of the client.
pub mod Attempts
use openpcc.Base.{
  ℕ, suc, zero, ◌+◌, Bool, true, false, not, ◌==◌, Option, none, some, List, [], ◌∷◌, Result, ok,
  err, if◌then◌else◌,
}
use openpcc.Base.Int.{ℤ, pos_part}
use openpcc.Base.Dict.{list_eq, ◌===◌}

pub data PingError : Type 0 where
  no_request body_not_read unexpected_body : PingError
  not_sent : (response_status : Option ℕ) → PingError
  unexpected_status : ℕ → PingError

pub data Answer : Type 0 where
  sends_nothing : (response_status : Option ℕ) → Answer
  responds : (status : ℕ) → (data_read : Option (List ℕ)) → Answer

-- pong
abbrev pub pong : List ℕ
pong = b'p' ∷ b'o' ∷ b'n' ∷ b'g' ∷ []

-- `Client.pingRouterRequest`, whose error is none where the router answers with a pong.
pub ping_router_request : (makes_request : Bool) → Answer → Option PingError
ping_router_request false answer = some no_request
ping_router_request true (sends_nothing response_status) = some (not_sent response_status)
ping_router_request true (responds status data_read) =
    if not (status == 200) then some (unexpected_status status) else elim data_read [
      | none ↦ some body_not_read
      | some bytes ↦ if bytes === pong then none else some unexpected_body
    ]

-- What happens at an attempt: the draw of a wait fails or not, and the context ends or the ticker ticks.
pub record Attempt : Type 0 where
  pub draws : Bool
  pub ticks : Bool
  pub makes_request : Bool
  pub answer : Answer

pub data PingResult : Type 0 where
  pinged panicked context_done : PingResult
  client_error : PingError → PingResult
  all_failed : (last_err : Option PingError) → PingResult

module _ (is_client_error : ℕ → Bool) where
  -- `errors.As(err, &responseStatusErr) && responseStatusErr.IsClientError()`
  pub stops : PingError → Bool
  stops (not_sent (some status)) = is_client_error status
  stops (not_sent none) = false
  stops (unexpected_status status) = false
  stops no_request = false
  stops body_not_read = false
  stops unexpected_body = false

  -- The `select` of an attempt: the error to go on with, or the end; and the number of requests made.
  pub select : Attempt → Result PingResult PingError × ℕ
  select a =
      if not a.ticks
      then (err context_done, 0)
      else elim (ping_router_request a.makes_request a.answer) [
        | none ↦ (err pinged, 1)
        | some e ↦ if stops e then (err (client_error e), 1) else (ok e, 1)
      ]

  -- The body of the loop. Where the draw of a wait fails, the nil result is added to before the error is
  -- looked at.
  pub attempt : (i : ℕ) → Attempt → Result PingResult PingError × ℕ
  attempt zero a = select a
  attempt (suc i) a = if a.draws then select a else (err panicked, 0)

  -- The loop, with the number of requests made.
  pub ping_loop : (ℕ → Attempt) → (rest i : ℕ) → (last_err : Option PingError) → PingResult × ℕ
  ping_loop events zero i last_err = (all_failed last_err, 0)
  ping_loop events (suc rest) i last_err =
      let (step, made) = attempt i (events i) in
      elim step [
        | err result ↦ (result, made)
        | ok e ↦ let (result, n) = ping_loop events rest (suc i) (some e) in (result, made + n)
      ]

  -- `Client.pingRouter`
  pub ping_router : (ℕ → Attempt) → (attempts : ℤ) → PingResult × ℕ
  ping_router events attempts = ping_loop events (pos_part attempts) 0 none
