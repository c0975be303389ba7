-- ===== src/Transfer.antt =====
-- anonpay/wallet/internal/transfer/transfer.go and source.go: the processing of a transfer, from one
-- place that credits can be withdrawn from to another that they can be deposited in. The two
-- places are interfaces: a state and its operation. The id, which is drawn at random, and how the delays and
-- the calls of the logger end are arguments; a call of the logger is noted however it ends.
pub mod Amounts
pub mod Processing
pub mod Batches
pub mod Repeats
mod Tests
use openpcc.Base.{
  ℕ, suc, zero, ◌+◌, Bool, true, false, not, ◌&&◌, ◌||◌, Option, none, some, List, [], ◌∷◌, ◌++◌,
  length, map, ltb, ◌==◌, Result, ok, err, if◌then◌else◌,
}
use openpcc.Base.Int.{ℤ, pos, negsuc}
use openpcc.Base.Dict.{Dict, insert, ◌===◌, int_eq, nat_eq}
use openpcc.Currency.{Value, amount_or_zero}
use openpcc.Wallet.{
  BlindedCredit, Withdrawal, Error, Origin, is_full, credits_not_available, insufficient_balance,
  withdrawal_error, failed, origin_not_allowed, no_id, no_delay, not_logged, different_values,
  full_from_source, not_a_single_credit, source_origin, blindbank_origin, user_origin,
}

-- `errors.As`, for the two errors that an optimistic withdrawal may end in.
pub is_as_expected : Error → Bool
is_as_expected (credits_not_available credits amount) = true
is_as_expected (insufficient_balance balance) = true
is_as_expected (withdrawal_error w e) = is_as_expected e
is_as_expected (failed e) = is_as_expected e
is_as_expected _ = false

-- `Intent.IsExpectedError`
pub is_expected_error : Withdrawal → Error → Bool
is_expected_error w e = if not w.optimistic then false else is_as_expected e

pub data Entry : Type 0 where
  intent : List ℕ → Withdrawal → Entry
  withdraw_ok : (rounding_gain : ℤ) → List BlindedCredit → Entry
  finish_error_ok finish_unexpected_error : Error → Entry
  finish_deposit_ok : Entry

pub record Transfer : Type 0 where
  pub id : List ℕ
  pub rounding_gain : ℤ
  pub amounts : List Value

-- How the calls of a processing end that are neither the withdrawal nor the deposit.
pub record Surroundings : Type 0 where
  pub id : Option (List ℕ)
  pub delay_before : Bool
  pub delay_between : Bool
  pub log_intent : Bool
  pub log_withdraw_ok : Bool
  pub log_finish_error_ok : Bool
  pub log_finish_deposit_ok : Bool

-- `slices.Contains`
abbrev pub same_origin : Origin → Origin → Bool
same_origin source_origin source_origin = true
same_origin blindbank_origin blindbank_origin = true
same_origin user_origin user_origin = true
same_origin _ _ = false

pub is_allowed : Origin → List Origin → Bool
is_allowed o [] = false
is_allowed o (p ∷ ps) = same_origin p o || is_allowed o ps

-- The loop over the withdrawn credits, with the amount of the credit before.
pub amounts_after : ℤ → List BlindedCredit → Option (List Value)
amounts_after prev [] = some []
amounts_after prev (cred ∷ rest) =
    let later = amounts_after (amount_or_zero cred.value) rest in
    if prev === amount_or_zero cred.value
    then elim later [ none ↦ none | some vs ↦ some (cred.value ∷ vs) ]
    else none

pub amounts_of : List BlindedCredit → Option (List Value)
amounts_of [] = some []
amounts_of (cred ∷ rest) = elim (amounts_after (amount_or_zero cred.value) rest) [
  | none ↦ none
  | some vs ↦ some (cred.value ∷ vs)
]

module _ {From To : Type 0}
    (withdraw : List ℕ → Withdrawal → From → Result Error (List BlindedCredit × ℤ) × From)
    (deposit : List ℕ → List BlindedCredit → To → Result Error (Unit {0}) × To) where
  -- `Process` from the deposit on.
  pub process_deposit :
      Surroundings
      → (id : List ℕ) (rounding_gain : ℤ) (withdrew : List BlindedCredit) (amounts : List Value)
      → From
      → To
      → List Entry
      → Result Error Transfer × From × To × List Entry
  process_deposit s id gain withdrew amounts from to log =
      let (result, to') = deposit id withdrew to in
      elim result [
        | err e ↦ (err (failed e), from, to', log ++ finish_unexpected_error e ∷ [])
        | ok done ↦ (
          if not s.log_finish_deposit_ok
              then err (failed not_logged)
              else ok (record { id = id; rounding_gain = gain; amounts = amounts }),
          from,
          to',
          log ++ finish_deposit_ok ∷ [],
        )
      ]

  -- `Process` after a withdrawal that succeeds.
  pub process_withdrawn :
      Surroundings
      → (id : List ℕ) (rounding_gain : ℤ) (withdrew : List BlindedCredit) → From
      → To
      → List Entry
      → Result Error Transfer × From × To × List Entry
  process_withdrawn s id gain withdrew from to log = elim (amounts_of withdrew) [
    | none ↦ (err different_values, from, to, log ++ finish_unexpected_error different_values ∷ [])
    | some amounts ↦
        let logged = log ++ withdraw_ok gain withdrew ∷ [] in
        if not s.log_withdraw_ok
        then (err (failed not_logged), from, to, logged)
        else if not s.delay_between
        then (err (failed no_delay), from, to, logged ++ finish_unexpected_error no_delay ∷ [])
        else process_deposit s id gain withdrew amounts from to logged
  ]

  -- `Process` from the withdrawal on.
  pub process_withdraw :
      Surroundings
      → (id : List ℕ) → Withdrawal
      → From
      → To
      → List Entry
      → Result Error Transfer × From × To × List Entry
  process_withdraw s id w from to log =
      let (result, from') = withdraw id w from in
      elim result [
        | err e ↦
            if is_expected_error w e
            then (
              if not s.log_finish_error_ok then err not_logged else err e,
              from',
              to,
              log ++ finish_error_ok e ∷ [],
            )
            else (err (failed e), from', to, log ++ finish_unexpected_error (failed e) ∷ [])
        | ok (withdrew, gain) ↦ process_withdrawn s id gain withdrew from' to log
      ]

  -- `Process`
  pub process :
      Surroundings
      → (origin : Origin) (allowed_origins : List Origin) → Withdrawal
      → From
      → To
      → Result Error Transfer × From × To × List Entry
  process s origin allowed_origins w from to =
      if not (is_allowed origin allowed_origins)
      then (err origin_not_allowed, from, to, [])
      else elim (s.id) [
        | none ↦ (err no_id, from, to, [])
        | some id ↦
            if not s.delay_before
            then (err (failed no_delay), from, to, [])
            else if not s.log_intent
            then (err (failed not_logged), from, to, intent id w ∷ [])
            else process_withdraw s id w from to (intent id w ∷ [])
      ]

-- `RepResults`: the indices that were seen, and the length of the group once its last is in.
pub record RepResults : Type 0 where
  pub seen : Dict ℕ (Unit {0})
  pub group_len : Option ℕ

abbrev pub no_results : RepResults
no_results = record { seen = []; group_len = none }

-- `RepResults.Add`
pub add : (idx : ℕ) → (last : Bool) → RepResults → RepResults
add idx last g = record {
  seen = insert idx tt g.seen;
  group_len = if last then some (suc idx) else g.group_len;
}

-- `RepResults.Complete`
pub complete : RepResults → Bool
complete g = elim (g.group_len) [ none ↦ false | some n ↦ length g.seen == n ]

-- `Source.withdraw`, over the source service's.
pub source_withdraw :
    {S : Type 0}
    → (withdraw : List ℕ → Value → S → Result Error BlindedCredit × S) → List ℕ
    → Withdrawal
    → S
    → Result Error (List BlindedCredit × ℤ) × S
source_withdraw withdraw id w s =
    if is_full w
    then (err full_from_source, s)
    else if not (w.credits === pos 1)
    then (err not_a_single_credit, s)
    else (let (result, s') = withdraw id w.amount s in
        (elim result [ err e ↦ err (failed e) | ok credit ↦ ok (credit ∷ [], pos 0) ], s'))
