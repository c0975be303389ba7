-- ===== src/Models/Longest.antt =====
-- The model with the longest context, and the credit amounts that no model is above.
use mathlib.Core.Path.{subst⁻¹}
use openpcc.Base.{Among, ◌≡◌, ◌⊎◌, refl, List, [], ◌∷◌, ok, inl, inr, arith, Bool-cases}
use openpcc.Base.Int.{◌≤ℤ◌, ltb_ℤ, pos, int_laws}
use openpcc.Base.Dict.{list_eq, ◌===◌}
use openpcc.Models.{
  Model, longest, max_credit_amount, max_credit_amount_per_request, get_model, no_model,
}

longest-start :
    (models : List Model) (m : Model) → m.context_length ≤ℤ (longest models m).context_length
unfolding longest
longest-start [] m = omega arith
longest-start (n ∷ models) m = elim (Bool-cases (ltb_ℤ m.context_length n.context_length)) [
  | inl h ↦ rw (longest, h) (ground (arith, longest-start models n))
  | inr h ↦ rw (longest, h) (longest-start models m)
]

longest-above :
    (name : List _) (models : List Model) (m start : Model)
    → get_model name models ≡ ok m
    → m.context_length ≤ℤ (longest models start).context_length
unfolding longest get_model
longest-above name [] m start found = absurd (ground (arith, found))
longest-above name (n ∷ models) m start found = elim (Bool-cases (n.name === name)) [
  | inl same ↦ ground (arith, same, found, longest-start models n, longest-start models start)
  | inr other ↦
      ground (arith, other, found, longest-above name models m n, longest-above name models m start)
]

abbrev StartOrAmong : Model → List Model → Model → Type 0
StartOrAmong start models m = (m ≡ start) ⊎ Among m models

longest-Among :
    (models : List Model) (start : Model) → StartOrAmong start models (longest models start)
unfolding longest
longest-Among [] start = inl refl
longest-Among (n ∷ models) start = elim (Bool-cases (ltb_ℤ start.context_length n.context_length)) [
  | inl h ↦
      let next : longest (n ∷ models) start ≡ longest models n = rw (longest, h) refl in
      subst⁻¹ (StartOrAmong start (n ∷ models)) next (inr (longest-Among models n))
  | inr h ↦
      let next : longest (n ∷ models) start ≡ longest models start = rw (longest, h) refl in
      subst⁻¹ (StartOrAmong start (n ∷ models)) next
        (elim (longest-Among models start) [ inl same ↦ inl same | inr among ↦ inr (inr among) ])
]

-- No model that is found by its name allows more credit than the table as a whole, and what the table
-- allows is not negative, and is what one of its models allows, or nothing.
pub max_credit_amount_per_request_lem :
    (name : List _) (models : List Model) (m : Model)
    → get_model name models ≡ ok m
    → (max_credit_amount m ≤ℤ max_credit_amount_per_request models)
      × (pos 0 ≤ℤ max_credit_amount_per_request models)
      × ((longest models no_model ≡ no_model) ⊎ Among (longest models no_model) models)
unfolding max_credit_amount max_credit_amount_per_request
max_credit_amount_per_request_lem name models m found = (
  grind (int_laws, longest-above name models m no_model found),
  grind (int_laws, longest-start models no_model),
  longest-Among models no_model,
)
