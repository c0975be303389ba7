-- ===== src/Pipeline.antt =====
-- work/pipeline.go: the steps of a pipeline, which share outputs that are closed when the last of the steps that
-- write to them is done. A closer is its number; the steps run in goroutines, which are done in any order.
pub mod Closing
mod Tests
use openpcc.Base.{
  ℕ, suc, Bool, true, false, not, ◌==◌, Option, none, some, List, [], ◌∷◌, length, Result, ok, err,
  if◌then◌else◌,
}
use openpcc.Base.Int.{ℤ, pos, ◌+ℤ◌, ◌-ℤ◌, ltb_ℤ}
use openpcc.Base.Dict.{Dict, lookup, insert, list_eq, ◌===◌}

abbrev pub Str : Type 0
Str = List ℕ

-- `PipelineStep`, whose outputs are a map.
pub record PipelineStep : Type 0 where
  pub id : Str
  pub outputs : Dict Str ℕ
  pub has_func : Bool

pub data Error : Type 0 where
  empty_id missing_func : ℕ → Error
  duplicate_id different_closers no_shared_closer done_without_add : Str → Error
  not_closed : Str → Error

-- `sharedOutput`
pub record SharedOutput : Type 0 where
  pub refs : ℤ
  pub closer : ℕ

abbrev pub SharedOutputs : Type 0
SharedOutputs = Dict Str SharedOutput

-- An output of `sharedOutputs.addMany`.
pub add_one : Str → ℕ → SharedOutputs → Result Error SharedOutputs
add_one id closer c = elim (lookup id c) [
  | none ↦ ok (insert id (record { refs = pos 1; closer = closer }) c)
  | some sc ↦
      if not (sc.closer == closer)
      then err (different_closers id)
      else ok (insert id (record sc { refs = sc.refs +ℤ pos 1 }) c)
]

-- `sharedOutputs.addMany`
pub add_many : Dict Str ℕ → SharedOutputs → Result Error SharedOutputs
add_many [] c = ok c
add_many ((id, closer) ∷ outputs) c = elim (add_one id closer c) [
  | err e ↦ err e
  | ok c' ↦ add_many outputs c'
]

-- The loop of `RunPipeline`, at the step of an index.
pub check_steps :
    (i : ℕ)
    → (seen_steps : Dict Str (Unit {0})) → List PipelineStep
    → SharedOutputs
    → Result Error SharedOutputs
check_steps i seen_steps [] outputs = ok outputs
check_steps i seen_steps (s ∷ steps) outputs =
    if length s.id == 0 then err (empty_id i) else elim (lookup s.id seen_steps) [
      | some seen ↦ err (duplicate_id s.id)
      | none ↦ if not s.has_func then err (missing_func i) else elim (add_many s.outputs outputs) [
        | err e ↦ err e
        | ok outputs' ↦ check_steps (suc i) (insert s.id tt seen_steps) steps outputs'
      ]
    ]

-- `RunPipeline`, up to the start of the steps.
pub run_pipeline : List PipelineStep → Result Error SharedOutputs
run_pipeline steps = check_steps 0 [] steps []

-- The shared outputs, and the outputs that were closed.
pub record Running : Type 0 where
  pub outputs : SharedOutputs
  pub closed : List Str

-- `sharedOutputs.done`, on which closers fail.
pub done : (fails : ℕ → Bool) → Str → Running → Option Error × Running
done fails id p = elim (lookup id p.outputs) [
  | none ↦ (some (no_shared_closer id), p)
  | some sc ↦
      let result = sc.refs -ℤ pos 1 in
      let p' : Running = record p { outputs = insert id (record sc { refs = result }) p.outputs } in
      if ltb_ℤ result (pos 0)
      then (some (done_without_add id), p')
      else if ltb_ℤ (pos 0) result
      then (none, p')
      else (
        if fails sc.closer then some (not_closed id) else none,
        record p' { closed = id ∷ p.closed },
      )
]

-- `sharedOutputs.manyDone`, whose errors are joined.
pub many_done : (fails : ℕ → Bool) → Dict Str ℕ → Running → List Error × Running
many_done fails [] p = ([], p)
many_done fails ((id, closer) ∷ outputs) p =
    let (e, p') = done fails id p in
    let (errs, p'') = many_done fails outputs p' in
    (elim e [ none ↦ errs | some first ↦ first ∷ errs ], p'')

-- The ends of steps, in the order in which they come.
pub steps_done : (fails : ℕ → Bool) → List PipelineStep → Running → Running
steps_done fails [] p = p
steps_done fails (s ∷ steps) p =
    let (errs, p') = many_done fails s.outputs p in steps_done fails steps p'
