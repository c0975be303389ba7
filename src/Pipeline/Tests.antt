-- ===== src/Pipeline/Tests.antt =====
-- Two steps that share an output: it is open after the first of them, and closed after both.
use openpcc.Base.{ℕ, ◌≡◌, refl, Bool, true, false, [], ◌∷◌, ok}
use openpcc.Base.Int.{pos, ◌+ℤ◌}
use openpcc.Base.Dict.{lookup, insert}
use openpcc.Pipeline.{
  Str, PipelineStep, SharedOutputs, run_pipeline, check_steps, add_many, add_one, steps_done,
}
use openpcc.Pipeline.Closing.{times_closed, closing, uses_all, steps_done-run_pipeline}

abbrev credits : Str
credits = b'c' ∷ []

abbrev withdraw_step : PipelineStep
withdraw_step = record { id = b'w' ∷ []; outputs = (credits, 7) ∷ []; has_func = true }

abbrev consolidate_step : PipelineStep
consolidate_step = record { id = b'o' ∷ []; outputs = (credits, 7) ∷ []; has_func = true }

abbrev shared : SharedOutputs
shared = (credits, record { refs = pos 2; closer = 7 }) ∷ []

runs : run_pipeline (withdraw_step ∷ consolidate_step ∷ []) ≡ ok shared
unfolding run_pipeline check_steps add_many add_one lookup insert ◌+ℤ◌
runs = refl

abbrev closes_well : ℕ → Bool
closes_well closer = false

steps_done-run_pipeline_example :
    times_closed credits
      (steps_done closes_well
        (consolidate_step ∷ withdraw_step ∷ [])
        (record { outputs = shared; closed = [] })).closed
    ≡ closing (uses_all credits (consolidate_step ∷ withdraw_step ∷ [])) 0
steps_done-run_pipeline_example =
    steps_done-run_pipeline closes_well credits (withdraw_step ∷ consolidate_step ∷ [])
      (consolidate_step ∷ withdraw_step ∷ []) 0 shared runs refl
