-- ===== src/Client/Gateway.antt =====
-- client.go, NewFromConfig: the choice of the gateway's OHTTP key. The key configurations belong to the OHTTP
-- package, which is a parameter, and the clock stands still during the choice.
pub mod Choice
use openpcc.Base.{
  ℕ, Bool, true, false, ◌==◌, Option, none, some, List, [], ◌∷◌, Result, ok, err, filter,
  if◌then◌else◌,
}
use openpcc.Base.Int.{ℤ, ltb_ℤ}
use openpcc.Keys.{Period, is_active}

-- `gateway.KeyRotationPeriodWithID`
pub record KeyPeriod : Type 0 where
  pub period : Period
  pub key_id : ℕ

pub data Error : Type 0 where
  no_active_keys : Error
  no_key_config : ℕ → Error

-- `slices.DeleteFunc`, of the periods that are not active.
pub valid_keys : (now : ℤ) → List KeyPeriod → List KeyPeriod
valid_keys now periods = filter (λ m. is_active now now m.period) periods

-- `slices.MaxFunc`: the first of the periods that are active from the latest time on.
pub max_period : List KeyPeriod → KeyPeriod → KeyPeriod
max_period [] m = m
max_period (k ∷ keys) m =
    max_period keys (if ltb_ℤ m.period.active_from k.period.active_from then k else m)

module _ {KeyConfig : Type 0} (key_id_of : KeyConfig → ℕ) where
  -- `slices.IndexFunc`, with the element at the index.
  pub find_config : ℕ → List KeyConfig → Option KeyConfig
  find_config id [] = none
  find_config id (kc ∷ kcs) = if key_id_of kc == id then some kc else find_config id kcs

  -- The configuration of the latest active key.
  pub config_of_latest : List KeyPeriod → List KeyConfig → Result Error KeyConfig
  config_of_latest [] key_configs = err no_active_keys
  config_of_latest (k ∷ keys) key_configs =
      let desired_key = max_period keys k in
      elim (find_config desired_key.key_id key_configs) [
        | none ↦ err (no_key_config desired_key.key_id)
        | some kc ↦ ok kc
      ]

  -- The choice of `NewFromConfig`.
  pub choose_key : (now : ℤ) → List KeyPeriod → List KeyConfig → Result Error KeyConfig
  choose_key now periods key_configs = config_of_latest (valid_keys now periods) key_configs
