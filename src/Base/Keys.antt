-- ===== src/Base/Keys.antt =====
-- Maps that hold a key once, as those that are built by updates.
use mathlib.Core.Path.{◌≡◌, refl, sym}
use mathlib.Core.Logic.{inl, inr}
use mathlib.Core.Bool.{false}
use mathlib.Core.List.{List, [], ◌∷◌}
use mathlib.Core.Option.{none}
use Prim.Native.Nat.{ℕ}
use openpcc.Base.Tests.{Bool-cases}
use openpcc.Base.Dict.{Dict, lookup, insert, list_eq, ◌===◌, eq_of_beq, lookup-insert_ne, ne_of_beq}

module _ {V : Type 0} where
  abbrev pub HasKeysOnce : Dict (List ℕ) V → Type 0
  HasKeysOnce [] = Unit
  HasKeysOnce ((k, v) ∷ m) = (lookup k m ≡ none) × HasKeysOnce m

  insert-absent :
      (j k : List ℕ) (v : V) (m : Dict (List ℕ) V)
      → (k === j) ≡ false
      → lookup j m ≡ none
      → lookup j (insert k v m) ≡ none
  insert-absent j k v m other absent =
      let ne = ne_of_beq k j other in rw (lookup-insert_ne j k v m (λ same. ne (sym same))) absent

  pub insert-HasKeysOnce :
      (k : List ℕ) (v : V) (m : Dict (List ℕ) V) → HasKeysOnce m → HasKeysOnce (insert k v m)
  unfolding insert lookup
  insert-HasKeysOnce k v [] once = (refl, tt)
  insert-HasKeysOnce k v ((j, w) ∷ m) once = elim (Bool-cases (k === j)) [
    | inl same ↦ rw same (rw (eq_of_beq k j same) once.0, once.1)
    | inr other ↦ rw other (insert-absent j k v m other once.0, insert-HasKeysOnce k v m once.1)
  ]
