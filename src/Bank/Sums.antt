-- ===== src/Bank/Sums.antt =====
-- The ledger of the in-memory bank as sums of integers, and what writing an account does to them.
use openpcc.Base.{ℕ, ◌≡◌, sym, ap, List, [], ◌∷◌, ◌++◌, arith, Bool-cases, inl, inr}
use openpcc.Base.Int.{ℤ, pos, ◌+ℤ◌, ◌-ℤ◌, +ℤ_parts, -ℤ_parts, eq_of_parts, pos_part, neg_part}
use openpcc.Base.Dict.{Dict, lookup, insert, list_eq, ◌===◌}
use openpcc.Bank.{Bank, StoredAccount, stored_or_zero}

abbrev pub sum_ℤ : List ℤ → ℤ
sum_ℤ [] = pos 0
sum_ℤ (x ∷ xs) = x +ℤ sum_ℤ xs

-- What an account holds beyond the mutations that it records.
abbrev pub excess : StoredAccount → ℤ
excess stored = stored.balance -ℤ sum_ℤ stored.mutations

abbrev pub excesses : Dict (List ℕ) StoredAccount → ℤ
excesses [] = pos 0
excesses ((k, stored) ∷ m) = excess stored +ℤ excesses m

-- The balances less the mutations, with the rounding mutations.
abbrev pub ledger : Bank → ℤ
ledger b = excesses b.accounts +ℤ sum_ℤ b.rounding_mutations

module _ (a b c : ℤ) where
  swap : (a +ℤ b) +ℤ c ≡ (c +ℤ b) +ℤ a
  swap =
      eq_of_parts _ _
        (omega (arith, +ℤ_parts a b, +ℤ_parts (a +ℤ b) c, +ℤ_parts c b, +ℤ_parts (c +ℤ b) a))

  assoc : (a +ℤ b) +ℤ c ≡ a +ℤ (b +ℤ c)
  assoc =
      eq_of_parts _ _
        (omega (arith, +ℤ_parts a b, +ℤ_parts (a +ℤ b) c, +ℤ_parts b c, +ℤ_parts a (b +ℤ c)))

  zero_comm : a +ℤ pos 0 ≡ pos 0 +ℤ a
  zero_comm = eq_of_parts _ _ (omega (arith, +ℤ_parts (pos 0) a, +ℤ_parts a (pos 0)))

  zero_ends : (a +ℤ pos 0) +ℤ (pos 0 -ℤ pos 0) ≡ pos 0 +ℤ a
  zero_ends = eq_of_parts _ _ (
      omega (
        arith,
        +ℤ_parts (pos 0) a,
        +ℤ_parts a (pos 0),
        -ℤ_parts (pos 0) (pos 0),
        +ℤ_parts (a +ℤ pos 0) (pos 0 -ℤ pos 0),
      ))

  -- A full withdrawal of the balance `a` at the amount `b`.
  pub empties : (pos 0 -ℤ (c +ℤ (pos 0 -ℤ b))) +ℤ (a -ℤ b) ≡ a -ℤ c
  empties = eq_of_parts _ _ (
      omega (
        arith,
        -ℤ_parts a b,
        -ℤ_parts (pos 0) b,
        +ℤ_parts c (pos 0 -ℤ b),
        -ℤ_parts a c,
        -ℤ_parts (pos 0) (c +ℤ (pos 0 -ℤ b)),
        +ℤ_parts (pos 0 -ℤ (c +ℤ (pos 0 -ℤ b))) (a -ℤ b),
      ))

  -- A payment recorded as its opposite.
  pub pays : (a -ℤ b) -ℤ (c +ℤ (pos 0 -ℤ b)) ≡ a -ℤ c
  pays = eq_of_parts _ _ (
      omega (
        arith,
        -ℤ_parts a b,
        -ℤ_parts (pos 0) b,
        +ℤ_parts c (pos 0 -ℤ b),
        -ℤ_parts a c,
        -ℤ_parts (a -ℤ b) (c +ℤ (pos 0 -ℤ b)),
      ))

  pub gains : (a +ℤ b) -ℤ (c +ℤ b) ≡ a -ℤ c
  gains =
      eq_of_parts _ _
        (omega (arith, +ℤ_parts a b, +ℤ_parts c b, -ℤ_parts a c, -ℤ_parts (a +ℤ b) (c +ℤ b)))

module _ (a b c d e : ℤ) where
  under : b +ℤ c ≡ d +ℤ e → (a +ℤ b) +ℤ c ≡ (a +ℤ d) +ℤ e
  under same = rw (assoc a b c, same) (sym (assoc a d e))

  cancel : a +ℤ b ≡ c +ℤ d → b ≡ d → a ≡ c
  cancel same right = eq_of_parts _ _ (
      omega (
        arith,
        +ℤ_parts a b,
        +ℤ_parts c d,
        ap pos_part same,
        ap neg_part same,
        ap pos_part right,
        ap neg_part right,
      ))

pub shift_out : (e' x e n r d : ℤ) → e' +ℤ x ≡ e +ℤ n → n +ℤ d ≡ x → e' +ℤ (r +ℤ d) ≡ e +ℤ r
shift_out e' x e n r d same moved = eq_of_parts _ _ (
    omega (
      arith,
      +ℤ_parts e' x,
      +ℤ_parts e n,
      +ℤ_parts n d,
      +ℤ_parts r d,
      +ℤ_parts e' (r +ℤ d),
      +ℤ_parts e r,
      ap pos_part same,
      ap neg_part same,
      ap pos_part moved,
      ap neg_part moved,
    ))

-- Writing an account changes the excesses by the change of its own.
pub excesses-insert :
    (k : List ℕ) (v : StoredAccount) (m : Dict (List ℕ) StoredAccount)
    → excesses (insert k v m) +ℤ excess (stored_or_zero (lookup k m)) ≡ excesses m +ℤ excess v
unfolding lookup insert
excesses-insert k v [] = zero_ends (excess v) (pos 0) (pos 0)
excesses-insert k v ((j, w) ∷ m) = elim (Bool-cases (k === j)) [
  | inl here ↦ rw here (swap (excess v) (excesses m) (excess w))
  | inr other ↦ rw other (
      under (excess w) (excesses (insert k v m)) (excess (stored_or_zero (lookup k m))) (excesses m)
        (excess v) (excesses-insert k v m))
]

-- An account that is written with the same excess leaves the sum of the excesses.
pub excesses_kept :
    (k : List ℕ) (v : StoredAccount) (m : Dict (List ℕ) StoredAccount)
    → excess (stored_or_zero (lookup k m)) ≡ excess v
    → excesses (insert k v m) ≡ excesses m
excesses_kept k v m same =
    cancel (excesses (insert k v m)) (excess (stored_or_zero (lookup k m))) (excesses m) (excess v)
      (pos 0) (excesses-insert k v m) same

pub sum_ℤ-snoc : (xs : List ℤ) (x : ℤ) → sum_ℤ (xs ++ x ∷ []) ≡ sum_ℤ xs +ℤ x
sum_ℤ-snoc [] x = zero_comm x (pos 0) (pos 0)
sum_ℤ-snoc (y ∷ xs) x = rw (sum_ℤ-snoc xs x) (sym (assoc y (sum_ℤ xs) x))
