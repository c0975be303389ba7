-- ===== src/Retry.antt =====
-- httpretry/httpretry.go: the body of a request that is sent again, which records what is read of it, and the
-- loop over the attempts. How many bytes a read returns, and what the backoff grants and the client
-- answers, is given.
pub mod Rewinding
mod Tests
use openpcc.Base.{
  ℕ, Bool, true, false, ◌+◌, leb, Option, none, some, List, [], ◌∷◌, ◌++◌, take, drop, Result, ok,
  err, if◌then◌else◌,
}

-- `rewindableBody`: the rest of the original body, the buffer, the reader of the recording, the error
-- channel of the first close, and what came out of it.
pub record RewindableBody : Type 0 where
  pub orig : List ℕ
  pub buffer : List ℕ
  pub recording : List ℕ
  pub close_done : Option Bool
  pub orig_closed : Bool
  pub close_failed : Bool

-- `newRewindableBody`
abbrev pub new_rewindable_body : List ℕ → RewindableBody
new_rewindable_body bytes = record {
  orig = bytes;
  buffer = [];
  recording = [];
  close_done = none;
  orig_closed = false;
  close_failed = false;
}

pub data Error : Type 0 where
  failed_to_close waits_for_ever panics : Error

-- `Rewind`, where the original is closed: the recording from its beginning.
abbrev pub rewound : RewindableBody → Result Error (Unit {0}) × RewindableBody
rewound c =
    if c.close_failed then (err failed_to_close, c) else (ok tt, record c { recording = c.buffer })

-- `rewindableBody.Rewind`: the first one waits for the close.
pub rewind : RewindableBody → Result Error (Unit {0}) × RewindableBody
rewind c = if c.orig_closed then rewound c else elim (c.close_done) [
  | none ↦ (err waits_for_ever, c)
  | some failed ↦
      rewound (record c { orig_closed = true; close_failed = failed; recording = c.buffer })
]

-- `rewindableBody.Read`, of `n` bytes or what is left.
pub read_body : (n : ℕ) → RewindableBody → Result Error (List ℕ) × RewindableBody
read_body n c =
    if c.close_failed
    then (err failed_to_close, c)
    else if c.orig_closed
    then (ok (take n c.recording), record c { recording = drop n c.recording })
    else (ok (take n c.orig), record c { orig = drop n c.orig; buffer = c.buffer ++ take n c.orig })

-- `rewindableBody.Close`, on whether closing the original fails. A second close before the rewind sends
-- on a closed channel.
pub close_body : (fails : Bool) → RewindableBody → Result Error (Unit {0}) × RewindableBody
close_body fails c =
    if c.orig_closed
    then (if c.close_failed then (err failed_to_close, c) else (ok tt, c))
    else elim (c.close_done) [
      | some failed ↦ (err panics, c)
      | none ↦ (if fails then err failed_to_close else ok tt, record c { close_done = some fails })
    ]

-- What an attempt of `DoWith` comes to: the body is not rewound, the client fails in a way that is retried
-- or not, or answers, where draining the body for another attempt may fail. Before an attempt, the
-- context may end.
pub data Attempt : Type 0 where
  not_rewound not_retried context_ends : Attempt
  refused_or_timeout : Attempt
  responds : (status : ℕ) → (drain_fails : Bool) → Attempt

pub data DoError : Type 0 where
  rewind_error request_error network_error check_error drain_error context_error err500 : DoError

-- `Retry5xx`, whose error is none.
pub retry_5xx : ℕ → Option Bool
retry_5xx status = some (leb 500 status)

-- The end of the retried function, on what the check returns: the error to retry with, or the result.
pub checked : Option Bool → (drain_fails : Bool) → Result (Option DoError) DoError
checked none drain_fails = err (some check_error)
checked (some false) drain_fails = err none
checked (some true) drain_fails = ok (if drain_fails then drain_error else err500)

-- The retried function, and the loop of the backoff, with the last response and the last error.
pub retry_loop :
    (check_func : ℕ → Option Bool)
    → List Attempt
    → (result : Option ℕ) → (last : Option DoError) → Option ℕ × Option DoError
retry_loop check_func [] result last = (result, last)
retry_loop check_func (not_rewound ∷ attempts) result last = (result, some rewind_error)
retry_loop check_func (not_retried ∷ attempts) result last = (result, some request_error)
retry_loop check_func (context_ends ∷ attempts) result last = (result, some context_error)
retry_loop check_func (refused_or_timeout ∷ attempts) result last =
    retry_loop check_func attempts result (some network_error)
retry_loop check_func (responds status drain_fails ∷ attempts) result last =
    elim (checked (check_func status) drain_fails) [
      | err final ↦ (some status, final)
      | ok e ↦ retry_loop check_func attempts (some status) (some e)
    ]

abbrev pub without_5xx : Option DoError → Option DoError
without_5xx none = none
without_5xx (some err500) = none
without_5xx (some rewind_error) = some rewind_error
without_5xx (some request_error) = some request_error
without_5xx (some network_error) = some network_error
without_5xx (some check_error) = some check_error
without_5xx (some drain_error) = some drain_error
without_5xx (some context_error) = some context_error

-- `DoWith`, which drops the error of a response that was to be retried.
pub do_with : (check_func : ℕ → Option Bool) → List Attempt → Option ℕ × Option DoError
do_with check_func attempts =
    let (result, last) = retry_loop check_func attempts none none in (result, without_5xx last)

-- `Do`
pub do_default : List Attempt → Option ℕ × Option DoError
do_default attempts = do_with retry_5xx attempts
