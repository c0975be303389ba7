-- ===== src/Retry/Tests.antt =====
-- A body that is sent twice: the first attempt reads two of its three bytes.
use openpcc.Base.{◌≡◌, refl, false, some, none, [], ◌∷◌, take, map}
use openpcc.Retry.{
  new_rewindable_body, do_default, do_with, retry_loop, retry_5xx, checked, refused_or_timeout,
  responds,
}
use openpcc.Retry.Rewinding.{sum, all_attempts, all_attempts-new_rewindable_body}

all_attempts-new_rewindable_body_example :
    all_attempts (1 ∷ 1 ∷ []) ((3 ∷ []) ∷ []) (new_rewindable_body (7 ∷ 8 ∷ 9 ∷ []))
    ≡ take 2 (7 ∷ 8 ∷ 9 ∷ []) ∷ map (λ ms. take (sum ms) (take 2 (7 ∷ 8 ∷ 9 ∷ []))) ((3 ∷ []) ∷ [])
all_attempts-new_rewindable_body_example =
    all_attempts-new_rewindable_body (7 ∷ 8 ∷ 9 ∷ []) (1 ∷ 1 ∷ []) ((3 ∷ []) ∷ [])

-- A refused connection, a response with status 503, and one with 200.
answered :
    do_default (refused_or_timeout ∷ responds 503 false ∷ responds 200 false ∷ [])
    ≡ (some 200, none)
unfolding do_default do_with retry_loop retry_5xx checked
answered = refl
