-- ===== src/Models.antt =====
-- models/models.go: the table of the models, with their context lengths and the credit amounts they give.
-- The table, which is read from an embedded YAML file when the program starts, is an argument. A
-- context length is below 2^52, where the product in a float64 is exact.
pub mod Longest
mod Tests
use openpcc.Base.{ℕ, Bool, List, [], ◌∷◌, Result, ok, err, is_ok, if◌then◌else◌}
use openpcc.Base.Int.{ℤ, pos, ◌+ℤ◌, ltb_ℤ}
use openpcc.Base.Dict.{list_eq, ◌===◌}

pub record Model : Type 0 where
  pub name : List ℕ
  pub context_length : ℤ

pub data Error : Type 0 where
  model_not_found : Error

-- `Model.GetMaxCreditAmountPerRequest`: two credits per token.
unfoldable pub max_credit_amount : Model → ℤ
max_credit_amount m = m.context_length +ℤ m.context_length

-- `GetModel`
unfoldable pub get_model : List ℕ → List Model → Result Error Model
get_model name [] = err model_not_found
get_model name (m ∷ models) = if m.name === name then ok m else get_model name models

-- `IsValid`
pub is_valid : List ℕ → List Model → Bool
is_valid name models = is_ok (get_model name models)

-- The loop of `GetMaxCreditAmountPerRequest`.
unfoldable pub longest : List Model → (max_model : Model) → Model
longest [] max_model = max_model
longest (m ∷ models) max_model =
    longest models (if ltb_ℤ max_model.context_length m.context_length then m else max_model)

abbrev pub no_model : Model
no_model = record { name = []; context_length = pos 0 }

-- `GetMaxCreditAmountPerRequest`, of all models.
unfoldable pub max_credit_amount_per_request : List Model → ℤ
max_credit_amount_per_request models = max_credit_amount (longest models no_model)
