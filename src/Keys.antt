-- ===== src/Keys.antt =====
-- keyrotation/period.go and gateway/keypairs.go: the periods in which keys are active, and the gateway's
-- search for the secret key of a request among its key pairs. A time is a count of nanoseconds. The
-- calendar arithmetic of `AddDate`, the keys, their derivation and the lookup of one pair by a request's header
-- belong to other packages: they are arguments.
pub mod Search
mod Tests
use openpcc.Base.{
  ℕ, suc, zero, ◌+◌, ◌%◌, ◌^◌, ◌>>=◌, Bool, true, false, not, ◌&&◌, ltb, Option, none, some, List,
  [], ◌∷◌, length, Result, ok, err, if◌then◌else◌,
}
use openpcc.Base.Int.{ℤ, ltb_ℤ}

pub record Period : Type 0 where
  pub active_from : ℤ
  pub active_until : ℤ

abbrev pub default_key_expiration_months : ℕ
default_key_expiration_months = 6

abbrev pub default_key_activation_days : ℕ
default_key_activation_days = 7

-- `NewPeriodStartingAt`, with `AddDate` of months and days.
pub new_period_starting_at : (add_date : (months days : ℕ) → ℤ → ℤ) → ℤ → Period
new_period_starting_at add_date active_from = record {
  active_from = active_from;
  active_until = add_date default_key_expiration_months 0 active_from;
}

-- `NewPeriodFromSecretCreation`
pub new_period_from_secret_creation : (add_date : (months days : ℕ) → ℤ → ℤ) → ℤ → Period
new_period_from_secret_creation add_date creation_time =
    new_period_starting_at add_date (add_date 0 default_key_activation_days creation_time)

-- `Period.IsExpired`
pub is_expired : (now : ℤ) → Period → Bool
is_expired now p = ltb_ℤ p.active_until now

-- `Period.IsActive`, which reads the clock twice.
pub is_active : (now later : ℤ) → Period → Bool
is_active now later p = ltb_ℤ p.active_from now && not (is_expired later p)

pub data Error : Type 0 where
  key_not_yet_active key_expired too_many_keys index_out_of_range : Error
  not_found : ℕ → Error

-- `Period.CheckIfActive`, with the three readings of the clock.
pub check_if_active : (now₁ now₂ now₃ : ℤ) → Period → Result Error (Unit {0})
check_if_active now₁ now₂ now₃ p =
    if is_expired now₁ p
    then err key_expired
    else if not (is_active now₂ now₃ p)
    then err key_not_yet_active
    else ok tt

-- `ExpiringKeyPair`
pub record ExpiringKeyPair (KeyPair : Type 0) : Type 0 where
  pub key_pair : KeyPair
  pub period : Period

module _ {KeyPair SecretKeyInfo : Type 0} (find : KeyPair → Result Error SecretKeyInfo)
    (now : ℤ) where
  -- `ExpiringKeyPair.FindSecretKey`, on a clock that stands still.
  pub find_pair_secret_key : ExpiringKeyPair KeyPair → Result Error SecretKeyInfo
  find_pair_secret_key k = elim (find k.key_pair) [
    | err e ↦ err e
    | ok key_info ↦ elim (check_if_active now now now k.period) [
      | err e ↦ err e
      | ok active ↦ ok key_info
    ]
  ]

  -- The loop of `KeyPairs.FindSecretKey`. Without an error the empty information is returned.
  pub find_loop :
      (no_info : SecretKeyInfo)
      → List (ExpiringKeyPair KeyPair)
      → (last_err : Option Error) → Result Error SecretKeyInfo
  find_loop no_info [] none = ok no_info
  find_loop no_info [] (some e) = err e
  find_loop no_info (kp ∷ kps) last_err = elim (find_pair_secret_key kp) [
    | err e ↦ find_loop no_info kps (some e)
    | ok info ↦ ok info
  ]

  -- `KeyPairs.FindSecretKey`
  pub find_secret_key :
      (no_info : SecretKeyInfo) → List (ExpiringKeyPair KeyPair) → Result Error SecretKeyInfo
  find_secret_key no_info kps = find_loop no_info kps none

module _ {KeyPair : Type 0} (add_year : ℤ → ℤ) (make : (id : ℕ) (seed : List ℕ) → KeyPair)
    (now : (id : ℕ) → ℤ) where
  -- `generateKeyPair`
  pub generate_key_pair : (id : ℕ) → List ℕ → ℤ → ℤ → ExpiringKeyPair KeyPair
  generate_key_pair id seed active_from active_until = record {
    key_pair = make id seed;
    period = record { active_from = active_from; active_until = active_until };
  }

  -- The loop of `generateKeyPairs`, with the pairs that are left, from the id `i` on.
  pub generate_loop :
      (left i : ℕ) → (seeds : List (List ℕ)) → Result Error (List (ExpiringKeyPair KeyPair))
  generate_loop zero i seeds = ok []
  generate_loop (suc left) i [] = err index_out_of_range
  generate_loop (suc left) i (seed ∷ seeds) = generate_loop left (suc i) (seed ∷ seeds) >>= λ kps.
      ok (generate_key_pair i seed (now i) (add_year (now i)) ∷ kps)

  -- `generateKeyPairs`
  pub generate_key_pairs : List (List ℕ) → Result Error (List (ExpiringKeyPair KeyPair))
  generate_key_pairs seeds =
      if ltb 255 (length seeds)
      then err too_many_keys
      else generate_loop (length seeds % 2 ^ 8) 0 seeds
