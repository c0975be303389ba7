-- ===== src/Pipeline/Closing.antt =====
-- A shared output is closed once, when the last step that writes to it is done.
use mathlib.Core.Path.{subst, subst⁻¹}
use openpcc.Base.{
  ℕ, suc, ◌+◌, ◌≡◌, refl, sym, ◌∙◌, ap, Bool, false, not, ◌&&◌, ◌==◌, none, some, List, [], ◌∷◌,
  length, ok, inl, inr, arith, Bool-cases, Option-cases, Result-cases, if◌then◌else◌,
}
use openpcc.Base.Int.{ℤ, pos, ◌+ℤ◌, ◌-ℤ◌, ltb_ℤ, int_laws}
use openpcc.Base.Dict.{Dict, lookup, insert, list_eq, ◌===◌, eq_of_beq, beq_refl, lookup-insert}
use openpcc.Pipeline.{
  Str, PipelineStep, SharedOutput, SharedOutputs, Running, add_one, add_many, check_steps,
  run_pipeline, done, many_done, steps_done,
}

abbrev pub refs_of : Str → SharedOutputs → ℤ
refs_of id c = elim (lookup id c) [ none ↦ pos 0 | some sc ↦ sc.refs ]

abbrev HasRefs : Str → SharedOutputs → ℕ → Type 0
HasRefs id c n = refs_of id c ≡ pos n

abbrev one_if : Bool → ℕ
one_if b = if b then 1 else 0

-- How many of the outputs of one step, or of several, are the one with an identifier.
abbrev pub uses : Str → Dict Str ℕ → ℕ
uses j [] = 0
uses j ((id, closer) ∷ outputs) = one_if (j === id) + uses j outputs

abbrev pub uses_all : Str → List PipelineStep → ℕ
uses_all j [] = 0
uses_all j (s ∷ steps) = uses j s.outputs + uses_all j steps

-- How many times an output was closed.
abbrev pub times_closed : Str → List Str → ℕ
times_closed j [] = 0
times_closed j (id ∷ closed) = one_if (j === id) + times_closed j closed

up : (n : ℕ) → pos n +ℤ pos 1 ≡ pos (1 + n)
up n = grind int_laws

down : (n : ℕ) → pos (1 + n) -ℤ pos 1 ≡ pos n
down n = grind int_laws

refs_of-insert :
    (j id : Str) (sc : SharedOutput) (c : SharedOutputs)
    → refs_of j (insert id sc c) ≡ (if j === id then sc.refs else refs_of j c)
refs_of-insert j id sc c = elim (Bool-cases (j === id)) [
  | inl same ↦ rw (refs_of, lookup-insert j id sc c, same) refl
  | inr other ↦ rw (refs_of, lookup-insert j id sc c, other) refl
]

refs_of-none : (id : Str) (c : SharedOutputs) → lookup id c ≡ none → refs_of id c ≡ pos 0
refs_of-none id c h = rw (refs_of, h) refl

refs_of-some :
    (id : Str) (sc : SharedOutput) (c : SharedOutputs)
    → lookup id c ≡ some sc
    → refs_of id c ≡ sc.refs
refs_of-some id sc c h = rw (refs_of, h) refl

-- An entry with one reference more.
insert-HasRefs :
    (j id : Str) (sc : SharedOutput) (n : ℕ) (c : SharedOutputs)
    → sc.refs ≡ refs_of id c +ℤ pos 1
    → HasRefs j c n
    → HasRefs j (insert id sc c) (one_if (j === id) + n)
insert-HasRefs j id sc n c more has = elim (Bool-cases (j === id)) [
  | inl same ↦
      let here : refs_of id c ≡ pos n = subst (λ k. HasRefs k c n) (eq_of_beq j id same) has in
      refs_of-insert j id sc c ∙ rw same (more ∙ ap (λ x. x +ℤ pos 1) here ∙ up n)
  | inr other ↦
      let zero_more : n ≡ 0 + n = omega arith in
      refs_of-insert j id sc c ∙ rw other (has ∙ ap pos zero_more)
]

add_one-HasRefs :
    (j id : Str) (closer n : ℕ) (c c' : SharedOutputs)
    → add_one id closer c ≡ ok c'
    → HasRefs j c n
    → HasRefs j c' (one_if (j === id) + n)
unfolding add_one ◌+ℤ◌
add_one-HasRefs j id closer n c c' added has = elim (Option-cases (lookup id c)) [
  | inl h ↦
      let sc : SharedOutput = record { refs = pos 1; closer = closer } in
      let put : insert id sc c ≡ c' = ground (arith, h, added) in
      let more : pos 1 ≡ refs_of id c +ℤ pos 1 = sym (ap (λ x. x +ℤ pos 1) (refs_of-none id c h)) in
      subst (λ d. HasRefs j d (one_if (j === id) + n)) put (insert-HasRefs j id sc n c more has)
  | inr (sc, h) ↦ elim (Bool-cases (sc.closer == closer)) [
    | inr other ↦ absurd (ground (arith, h, other, added))
    | inl same ↦
        let sc' : SharedOutput = record sc { refs = sc.refs +ℤ pos 1 } in
        let put : insert id sc' c ≡ c' = ground (arith, h, same, added) in
        let more : sc.refs +ℤ pos 1 ≡ refs_of id c +ℤ pos 1 =
          sym (ap (λ x. x +ℤ pos 1) (refs_of-some id sc c h)) in
        subst (λ d. HasRefs j d (one_if (j === id) + n)) put (insert-HasRefs j id sc' n c more has)
  ]
]

add_many-HasRefs :
    (j : Str) (outs : Dict Str ℕ) (n : ℕ) (c c' : SharedOutputs)
    → add_many outs c ≡ ok c'
    → HasRefs j c n
    → HasRefs j c' (uses j outs + n)
unfolding add_many
add_many-HasRefs j [] n c c' added has =
    let same : c ≡ c' = ground (arith, added) in
    let zero_more : n ≡ 0 + n = omega arith in
    subst (λ d. HasRefs j d (0 + n)) same (has ∙ ap pos zero_more)
add_many-HasRefs j ((id, closer) ∷ outs) n c c' added has =
    elim (Result-cases (add_one id closer c)) [
      | inr (e, h) ↦ absurd (ground (arith, h, added))
      | inl (d, h) ↦
          let first = add_one-HasRefs j id closer n c d h has in
          let rest : add_many outs d ≡ ok c' = ground (arith, h, added) in
          let w = one_if (j === id) in
          let swapped : uses j outs + (w + n) ≡ w + uses j outs + n = omega arith in
          add_many-HasRefs j outs (w + n) d c' rest first ∙ ap pos swapped
    ]

check_steps-HasRefs :
    (j : Str) (i : ℕ) (seen : Dict Str (Unit {0})) (steps : List PipelineStep) (n : ℕ)
    (c c' : SharedOutputs)
    → check_steps i seen steps c ≡ ok c'
    → HasRefs j c n
    → HasRefs j c' (uses_all j steps + n)
unfolding check_steps
check_steps-HasRefs j i seen [] n c c' checked has =
    let same : c ≡ c' = ground (arith, checked) in
    let zero_more : n ≡ 0 + n = omega arith in
    subst (λ d. HasRefs j d (0 + n)) same (has ∙ ap pos zero_more)
check_steps-HasRefs j i seen (s ∷ steps) n c c' checked has = elim (Bool-cases (length s.id == 0)) [
  | inl h ↦ absurd (ground (arith, h, checked))
  | inr h ↦ elim (Option-cases (lookup s.id seen)) [
    | inr (u, h₁) ↦ absurd (ground (arith, h, h₁, checked))
    | inl h₁ ↦ elim (Bool-cases s.has_func) [
      | inr h₂ ↦ absurd (ground (arith, h, h₁, h₂, checked))
      | inl h₂ ↦ elim (Result-cases (add_many s.outputs c)) [
        | inr (e, h₃) ↦ absurd (ground (arith, h, h₁, h₂, h₃, checked))
        | inl (d, h₃) ↦
            let first = add_many-HasRefs j s.outputs n c d h₃ has in
            let seen' = insert s.id tt seen in
            let rest : check_steps (suc i) seen' steps d ≡ ok c' =
              ground (arith, h, h₁, h₂, h₃, checked) in
            let w = uses j s.outputs in
            let swapped : uses_all j steps + (w + n) ≡ w + uses_all j steps + n = omega arith in
            check_steps-HasRefs j (suc i) seen' steps (w + n) d c' rest first ∙ ap pos swapped
      ]
    ]
  ]
]

-- Whether the last of some uses of an output is done, where some are left.
abbrev pub closing : (dones left : ℕ) → ℕ
closing dones left = one_if ((left == 0) && not (dones == 0))

-- What ends of steps do to an output with some uses: it keeps those that are left, and is closed by the
-- last end.
abbrev Ended : Str → (dones left : ℕ) → Running → Running → Type 0
Ended j dones left p p' =
    HasRefs j p'.outputs left
    × (times_closed j p'.closed ≡ times_closed j p.closed + closing dones left)

done_other :
    (fails : ℕ → Bool) (j id : Str) (n : ℕ) (p : Running)
    → (j === id) ≡ false
    → HasRefs j p.outputs n
    → let p' = (done fails id p).1 in
      HasRefs j p'.outputs n × (times_closed j p'.closed ≡ times_closed j p.closed)
unfolding done
done_other fails j id n p other has = elim (Option-cases (lookup id p.outputs)) [
  | inl h ↦ rw (done, h) (has, refl)
  | inr (sc, h) ↦
      let result = sc.refs -ℤ pos 1 in
      let sc' : SharedOutput = record sc { refs = result } in
      let kept : HasRefs j (insert id sc' p.outputs) n =
        refs_of-insert j id sc' p.outputs ∙ rw other has in
      elim (Bool-cases (ltb_ℤ result (pos 0))) [
        | inl h₁ ↦ rw (done, h, h₁) (kept, refl)
        | inr h₁ ↦ elim (Bool-cases (ltb_ℤ (pos 0) result)) [
          | inl h₂ ↦ rw (done, h, h₁, h₂) (kept, refl)
          | inr h₂ ↦ rw (done, h, h₁, h₂) (kept, ground (arith, other))
        ]
      ]
]

done_self :
    (fails : ℕ → Bool) (id : Str) (m : ℕ) (p : Running)
    → HasRefs id p.outputs (1 + m)
    → Ended id 1 m p (done fails id p).1
unfolding done
done_self fails id m p has = elim (Option-cases (lookup id p.outputs)) [
  | inl h ↦ absurd (ground (arith, has, refs_of-none id p.outputs h))
  | inr (sc, h) ↦
      let result = sc.refs -ℤ pos 1 in
      let sc' : SharedOutput = record sc { refs = result } in
      let has_m : result ≡ pos m =
        ap (λ x. x -ℤ pos 1) (sym (refs_of-some id sc p.outputs h) ∙ has) ∙ down m in
      let kept : HasRefs id (insert id sc' p.outputs) m =
        refs_of-insert id id sc' p.outputs ∙ rw (beq_refl id) has_m in
      elim (Bool-cases (ltb_ℤ result (pos 0))) [
        | inl h₁ ↦ absurd (ground (arith, h₁, has_m))
        | inr h₁ ↦ elim (Bool-cases (ltb_ℤ (pos 0) result)) [
          | inl h₂ ↦ rw (done, h, h₁, h₂) (kept, ground (arith, h₂, has_m))
          | inr h₂ ↦ rw (done, h, h₁, h₂) (kept, ground (arith, h₂, has_m, beq_refl id))
        ]
      ]
]

done-Ended :
    (fails : ℕ → Bool) (j id : Str) (m : ℕ) (p : Running)
    → HasRefs j p.outputs (one_if (j === id) + m)
    → Ended j (one_if (j === id)) m p (done fails id p).1
done-Ended fails j id m p has = elim (Bool-cases (j === id)) [
  | inl same ↦
      let id_is = eq_of_beq j id same in
      let once : one_if (j === id) ≡ 1 = ap one_if same in
      let has_one = subst (λ w. HasRefs j p.outputs (w + m)) once has in
      let own = done_self fails id m p (subst (λ k. HasRefs k p.outputs (1 + m)) id_is has_one) in
      subst⁻¹ (λ w. Ended j w m p (done fails id p).1) once
        (subst⁻¹ (λ k. Ended k 1 m p (done fails id p).1) id_is own)
  | inr other ↦
      let never : one_if (j === id) ≡ 0 = ap one_if other in
      let has_none = subst (λ w. HasRefs j p.outputs (w + m)) never has in
      let drop_zero : 0 + m ≡ m = omega arith in
      let (kept, same_times) = done_other fails j id m p other (has_none ∙ ap pos drop_zero) in
      subst⁻¹ (λ w. Ended j w m p (done fails id p).1) never (kept, ground (arith, same_times))
]

closing-add : (a b m : ℕ) → closing a (b + m) + closing b m ≡ closing (a + b) m
closing-add a b m = ground arith

-- One end after another.
Ended-trans :
    (j : Str) (a b m : ℕ) (p p' p'' : Running)
    → Ended j a (b + m) p p'
    → Ended j b m p' p''
    → Ended j (a + b) m p p''
Ended-trans j a b m p p' p'' (has, first) (has', second) =
    (has', omega (arith, first, second, closing-add a b m))

many_done-Ended :
    (fails : ℕ → Bool) (j : Str) (outs : Dict Str ℕ) (m : ℕ) (p : Running)
    → HasRefs j p.outputs (uses j outs + m)
    → Ended j (uses j outs) m p (many_done fails outs p).1
unfolding many_done
many_done-Ended fails j [] m p has =
    let drop_zero : 0 + m ≡ m = omega arith in (has ∙ ap pos drop_zero, ground arith)
many_done-Ended fails j ((id, closer) ∷ outs) m p has =
    let w = one_if (j === id) in
    let split : w + uses j outs + m ≡ w + (uses j outs + m) = omega arith in
    let p' = (done fails id p).1 in
    let first = done-Ended fails j id (uses j outs + m) p (has ∙ ap pos split) in
    let second = many_done-Ended fails j outs m p' first.0 in
    Ended-trans j w (uses j outs) m p p' (many_done fails outs p').1 first second

steps_done-Ended :
    (fails : ℕ → Bool) (j : Str) (steps : List PipelineStep) (m : ℕ) (p : Running)
    → HasRefs j p.outputs (uses_all j steps + m)
    → Ended j (uses_all j steps) m p (steps_done fails steps p)
unfolding steps_done
steps_done-Ended fails j [] m p has =
    let drop_zero : 0 + m ≡ m = omega arith in (has ∙ ap pos drop_zero, ground arith)
steps_done-Ended fails j (s ∷ steps) m p has =
    let w = uses j s.outputs in
    let split : w + uses_all j steps + m ≡ w + (uses_all j steps + m) = omega arith in
    let p' = (many_done fails s.outputs p).1 in
    let first = many_done-Ended fails j s.outputs (uses_all j steps + m) p (has ∙ ap pos split) in
    let second = steps_done-Ended fails j steps m p' first.0 in
    Ended-trans j w (uses_all j steps) m p p' (steps_done fails steps p') first second

-- In a pipeline that starts, once some of its steps are done, in whatever order, an output that they write
-- to has been closed once, if no other step writes to it, and not at all if one does. An output
-- that no step writes to is not closed. This holds whether closing it fails or not.
pub steps_done-run_pipeline :
    (fails : ℕ → Bool) (j : Str) (steps ended : List PipelineStep) (left : ℕ) (c : SharedOutputs)
    → run_pipeline steps ≡ ok c
    → uses_all j ended + left ≡ uses_all j steps
    → times_closed j (steps_done fails ended (record { outputs = c; closed = [] })).closed
      ≡ closing (uses_all j ended) left
unfolding run_pipeline lookup
steps_done-run_pipeline fails j steps ended left c runs some_ended =
    let start : refs_of j [] ≡ pos 0 = refs_of-none j [] refl in
    let has = check_steps-HasRefs j 0 [] steps 0 [] c runs start in
    let all : uses_all j steps + 0 ≡ uses_all j ended + left = omega (arith, some_ended) in
    let (left_over, times) =
      steps_done-Ended fails j ended left (record { outputs = c; closed = [] })
        (has ∙ ap pos all) in
    omega (arith, times)
