-- ===== src/Base/Dict.antt =====
-- Go maps as association lists, over keys with a decidable equality, and the laws of their updates.
use mathlib.Core.Path.{◌≡◌, refl}
use mathlib.Core.Logic.{◌↔◌, ◌≢◌, inl, inr}
use mathlib.Core.Bool.{Bool, true, false, ◌&&◌}
use mathlib.Core.List.{List, [], ◌∷◌}
use mathlib.Core.Option.{Option, none, some}
use Prim.Native.Nat.{ℕ}
use native.Mathlib.Omega.{arith}
use openpcc.Base.Tests.{if◌then◌else◌, Bool-cases}
use openpcc.Base.Tests.{◌==◌ as nat_beq}
use openpcc.Base.Int.{ℤ, pos_part, neg_part}

pub record Key {ℓ} (A : Type ℓ) : Type ℓ where
  pub same : A → A → Bool
  pub same_iff : (x y : A) → (same x y ≡ true) ↔ (x ≡ y)

infix 50 ◌===◌
abbrev pub ◌===◌ {ℓ} : {A : Type ℓ} ⦃e : Key A⦄ → A → A → Bool
◌===◌ ⦃e⦄ = e.same

pub nat_beq_iff : (a b : ℕ) → (nat_beq a b ≡ true) ↔ (a ≡ b)
nat_beq_iff a b = ground arith

instance abbrev pub nat_eq : Key ℕ
nat_eq = record { same = nat_beq; same_iff = nat_beq_iff }

abbrev pub list_beq : List ℕ → List ℕ → Bool
list_beq [] [] = true
list_beq [] (y ∷ ys) = false
list_beq (x ∷ xs) [] = false
list_beq (x ∷ xs) (y ∷ ys) = nat_beq x y && list_beq xs ys

pub list_beq_iff : (a b : List ℕ) → (list_beq a b ≡ true) ↔ (a ≡ b)
list_beq_iff [] [] = (λ _. refl, λ _. refl)
list_beq_iff [] (y ∷ ys) = (λ h. cc, λ h. cc)
list_beq_iff (x ∷ xs) [] = (λ h. cc, λ h. cc)
list_beq_iff (x ∷ xs) (y ∷ ys) = ground (arith, list_beq_iff xs ys)

instance abbrev pub list_eq : Key (List ℕ)
list_eq = record { same = list_beq; same_iff = list_beq_iff }

abbrev pub int_beq : ℤ → ℤ → Bool
int_beq a b = nat_beq (pos_part a) (pos_part b) && nat_beq (neg_part a) (neg_part b)

pub int_beq_iff : (a b : ℤ) → (int_beq a b ≡ true) ↔ (a ≡ b)
int_beq_iff a b = ground arith

instance abbrev pub int_eq : Key ℤ
int_eq = record { same = int_beq; same_iff = int_beq_iff }

pub beq_refl {ℓ} : {A : Type ℓ} ⦃e : Key A⦄ (a : A) → (a === a) ≡ true
beq_refl ⦃e⦄ a = (e.same_iff a a).1 refl

pub beq_false {ℓ} : {A : Type ℓ} ⦃e : Key A⦄ (a b : A) → a ≢ b → (a === b) ≡ false
beq_false ⦃e⦄ a b ne = elim (Bool-cases (a === b)) [
  | inl same ↦ absurd (ne ((e.same_iff a b).0 same))
  | inr other ↦ other
]

pub eq_of_beq {ℓ} : {A : Type ℓ} ⦃e : Key A⦄ (a b : A) → (a === b) ≡ true → a ≡ b
eq_of_beq ⦃e⦄ a b h = (e.same_iff a b).0 h

pub ne_of_beq {ℓ} : {A : Type ℓ} ⦃e : Key A⦄ (a b : A) → (a === b) ≡ false → a ≢ b
ne_of_beq ⦃e⦄ a b h same = cc (h, (e.same_iff a b).1 same)

abbrev pub Dict {ℓ κ} : Type ℓ → Type κ → Type (ℓ ⊔ κ)
Dict K V = List (K × V)

module _ {ℓ κ} {K : Type ℓ} {V : Type κ} ⦃e : Key K⦄ where
  -- `v, ok := m[k]`
  unfoldable pub lookup : K → Dict K V → Option V
  lookup k [] = none
  lookup k ((j, v) ∷ m) = if k === j then some v else lookup k m

  -- `m[k] = v`
  unfoldable pub insert : K → V → Dict K V → Dict K V
  insert k v [] = (k, v) ∷ []
  insert k v ((j, w) ∷ m) = if k === j then (k, v) ∷ m else (j, w) ∷ insert k v m

  -- `delete(m, k)`: a key stands once at most, and all entries of it go.
  unfoldable pub erase : K → Dict K V → Dict K V
  erase k [] = []
  erase k ((j, w) ∷ m) = if k === j then erase k m else (j, w) ∷ erase k m

  pub lookup-insert_self : (k : K) (v : V) (m : Dict K V) → lookup k (insert k v m) ≡ some v
  unfolding lookup insert
  lookup-insert_self k v [] = rw (beq_refl k)
  lookup-insert_self k v ((j, w) ∷ m) = elim (Bool-cases (k === j)) [
    | inl h ↦ rw h (rw (beq_refl k))
    | inr h ↦ rw h (rw h (lookup-insert_self k v m))
  ]

  pub lookup-insert_ne :
      (k j : K) (v : V) (m : Dict K V) → k ≢ j → lookup k (insert j v m) ≡ lookup k m
  unfolding lookup insert
  lookup-insert_ne k j v [] ne = rw (beq_false k j ne)
  lookup-insert_ne k j v ((i, w) ∷ m) ne = elim (Bool-cases (j === i)) [
    | inl h ↦ rw h (rw (beq_false k j ne, ← eq_of_beq j i h, beq_false k j ne))
    | inr h ↦ rw h (elim (Bool-cases (k === i)) [
      | inl hk ↦ rw hk
      | inr hk ↦ rw hk (lookup-insert_ne k j v m ne)
    ])
  ]

  pub lookup-erase_self : (k : K) (m : Dict K V) → lookup k (erase k m) ≡ none
  unfolding lookup erase
  lookup-erase_self k [] = refl
  lookup-erase_self k ((j, w) ∷ m) = elim (Bool-cases (k === j)) [
    | inl h ↦ rw h (lookup-erase_self k m)
    | inr h ↦ rw h (rw h (lookup-erase_self k m))
  ]

  pub lookup-erase_ne : (k j : K) (m : Dict K V) → k ≢ j → lookup k (erase j m) ≡ lookup k m
  unfolding lookup erase
  lookup-erase_ne k j [] ne = refl
  lookup-erase_ne k j ((i, w) ∷ m) ne = elim (Bool-cases (j === i)) [
    | inl h ↦ rw h (rw (← eq_of_beq j i h, beq_false k j ne) (lookup-erase_ne k j m ne))
    | inr h ↦
        rw h (elim (Bool-cases (k === i)) [
          | inl hk ↦ rw hk
          | inr hk ↦ rw hk (lookup-erase_ne k j m ne)
        ])
  ]

  -- The laws with no side condition.
  pub lookup-insert :
      (k j : K) (v : V) (m : Dict K V)
      → lookup k (insert j v m) ≡ (if k === j then some v else lookup k m)
  lookup-insert k j v m = elim (Bool-cases (k === j)) [
    | inl h ↦ rw (h, eq_of_beq k j h) (lookup-insert_self j v m)
    | inr h ↦ rw h (lookup-insert_ne k j v m (λ same. ne_of_beq k j h same))
  ]

  pub lookup-erase :
      (k j : K) (m : Dict K V) → lookup k (erase j m) ≡ (if k === j then none else lookup k m)
  lookup-erase k j m = elim (Bool-cases (k === j)) [
    | inl h ↦ rw (h, eq_of_beq k j h) (lookup-erase_self j m)
    | inr h ↦ rw h (lookup-erase_ne k j m (λ same. ne_of_beq k j h same))
  ]
