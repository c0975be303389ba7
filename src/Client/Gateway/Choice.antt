-- ===== src/Client/Gateway/Choice.antt =====
-- The chosen key is active, and no active key is active from a later time on.
use mathlib.Core.Path.{subst⁻¹}
use openpcc.Base.{
  ℕ, Bool, true, false, ◌||◌, ◌==◌, ◌≡◌, ◌⊎◌, refl, none, some, List, [], ◌∷◌, Result, ok, err, inl,
  inr, arith, All, Among, filter, filter-Among, Bool-cases, ==→eq,
}
use openpcc.Base.Int.{ℤ, ltb_ℤ, leb_ℤ}
use openpcc.Keys.{is_active}
use openpcc.Client.Gateway.{
  KeyPeriod, Error, no_active_keys, no_key_config, valid_keys, max_period, find_config,
  config_of_latest, choose_key,
}

-- A period does not begin after another one.
abbrev pub not_later : KeyPeriod → KeyPeriod → Bool
not_later m k = leb_ℤ k.period.active_from m.period.active_from

max_period-not_later :
    (keys : List KeyPeriod) (m k : KeyPeriod)
    → not_later m k ≡ true
    → (not_later (max_period keys m) k ≡ true)
      × All (λ q. not_later (max_period keys m) q ≡ true) keys
unfolding max_period
max_period-not_later [] m k h = (h, tt)
max_period-not_later (n ∷ keys) m k h =
    elim (Bool-cases (ltb_ℤ m.period.active_from n.period.active_from)) [
      | inl below ↦
          let later : max_period (n ∷ keys) m ≡ max_period keys n = rw (max_period, below) refl in
          let (to_k, all) = max_period-not_later keys n k (ground (arith, below, h)) in
          let (to_n, all') = max_period-not_later keys n n (ground arith) in
          subst⁻¹ (LatestOf k n keys) later (to_k, (to_n, all))
      | inr above ↦
          let same : max_period (n ∷ keys) m ≡ max_period keys m = rw (max_period, above) refl in
          let (to_k, all) = max_period-not_later keys m k h in
          let (to_n, all') = max_period-not_later keys m n (ground (arith, above)) in
          subst⁻¹ (LatestOf k n keys) same (to_k, (to_n, all))
    ]
  where
    LatestOf : KeyPeriod → KeyPeriod → List KeyPeriod → KeyPeriod → Type 0
    LatestOf k n keys x =
        (not_later x k ≡ true) × ((not_later x n ≡ true) × All (λ q. not_later x q ≡ true) keys)

max_period-Among : (keys : List KeyPeriod) (m : KeyPeriod) → Among (max_period keys m) (m ∷ keys)
unfolding max_period
max_period-Among [] m = inl refl
max_period-Among (n ∷ keys) m =
    elim (Bool-cases (ltb_ℤ m.period.active_from n.period.active_from)) [
      | inl below ↦
          let later : max_period (n ∷ keys) m ≡ max_period keys n = rw (max_period, below) refl in
          subst⁻¹ (λ x. Among x (m ∷ n ∷ keys)) later (inr (max_period-Among keys n))
      | inr above ↦
          let same : max_period (n ∷ keys) m ≡ max_period keys m = rw (max_period, above) refl in
          subst⁻¹ (λ x. Among x (m ∷ n ∷ keys)) same (skip (max_period-Among keys m))
    ]
  where
    skip : {x : KeyPeriod} → Among x (m ∷ keys) → Among x (m ∷ n ∷ keys)
    skip (inl here) = inl here
    skip (inr there) = inr (inr there)

module _ {KeyConfig : Type 0} (key_id_of : KeyConfig → ℕ) where
  -- Whether a configuration has an identifier.
  abbrev pub has_config : ℕ → List KeyConfig → Bool
  has_config id [] = false
  has_config id (kc ∷ kcs) = (key_id_of kc == id) || has_config id kcs

  -- What a choice among the active keys of some periods is.
  abbrev pub Chosen : ℤ → List KeyPeriod → List KeyConfig → Result Error KeyConfig → Type 0
  Chosen now periods key_configs (ok kc) =
      (k : KeyPeriod) × Among k periods
      × (is_active now now k.period ≡ true)
      × (key_id_of kc ≡ k.key_id)
      × All (λ q. not_later k q ≡ true) (filter (λ m. is_active now now m.period) periods)
  Chosen now periods key_configs (err no_active_keys) =
      filter (λ m. is_active now now m.period) periods ≡ []
  Chosen now periods key_configs (err (no_key_config id)) = has_config id key_configs ≡ false

  find_config-has :
      (id : ℕ) (key_configs : List KeyConfig)
      → ((find_config key_id_of id key_configs ≡ none) × (has_config id key_configs ≡ false))
        ⊎ ((kc : KeyConfig) × (find_config key_id_of id key_configs ≡ some kc)
            × (key_id_of kc ≡ id))
  unfolding find_config
  find_config-has id [] = inl (refl, refl)
  find_config-has id (kc ∷ kcs) = elim (Bool-cases (key_id_of kc == id)) [
    | inl same ↦ inr (kc, rw (find_config, same) refl, ==→eq (key_id_of kc) id same)
    | inr other ↦ elim (find_config-has id kcs) [
      | inl (missing, none_has) ↦ inl (rw (find_config, other) missing, rw other none_has)
      | inr (found, here, id_of) ↦ inr (found, rw (find_config, other) here, id_of)
    ]
  ]

  config_of_latest-Chosen :
      (now : ℤ) (periods : List KeyPeriod) (keys : List KeyPeriod) (key_configs : List KeyConfig)
      → filter (λ m. is_active now now m.period) periods ≡ keys
      → Chosen now periods key_configs (config_of_latest key_id_of keys key_configs)
  unfolding config_of_latest
  config_of_latest-Chosen now periods [] key_configs valid = valid
  config_of_latest-Chosen now periods (k ∷ keys) key_configs valid =
      let desired = max_period keys k in
      elim (find_config-has desired.key_id key_configs) [
        | inl (missing, none_has) ↦ rw (config_of_latest, missing) none_has
        | inr (kc, found, id_of) ↦
            let (to_k, all) = max_period-not_later keys k k (ground arith) in
            let among = subst⁻¹ (Among desired) valid (max_period-Among keys k) in
            let (here, active) =
              filter-Among (λ m. is_active now now m.period) desired periods among in
            rw (config_of_latest, found)
              (
                desired,
                here,
                active,
                id_of,
                subst⁻¹ (All (λ q. not_later desired q ≡ true)) valid (to_k, all),
              )
      ]

  -- The configuration that a new client takes for the gateway is the one of an active key, and no active
  -- key is active from a later time on. An error says that no key is active, or that no
  -- configuration has the identifier that it names.
  pub choose_key-Chosen :
      (now : ℤ) (periods : List KeyPeriod) (key_configs : List KeyConfig)
      → Chosen now periods key_configs (choose_key key_id_of now periods key_configs)
  unfolding choose_key valid_keys
  choose_key-Chosen now periods key_configs = config_of_latest-Chosen now periods _ key_configs refl
