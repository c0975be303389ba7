-- ===== src/Finder/Shuffle.antt =====
-- A shuffle keeps every node as many times as it was there.
use openpcc.Base.{
  weight, count, ℕ, suc, zero, ◌+◌, ◌-◌, ◌≡◌, refl, ap, ◌<◌, ◌∙◌, Bool, Option, none, some, List,
  [], ◌∷◌, length, get_elem?, inl, inr, arith, Option-cases,
}
use openpcc.Finder.{set_at, swap, shuffle_loop, shuffle_nodes}

module _ {A : Type 0} where
  set_at-count :
      (test : A → Bool) (i : ℕ) (x y : A) (xs : List A)
      → get_elem? xs i ≡ some y
      → count test (set_at i x xs) + weight test y ≡ count test xs + weight test x
  set_at-count test i x y [] h = absurd (ground (arith, h))
  set_at-count test zero x y (z ∷ xs) h =
      let same : z ≡ y = ground (arith, h) in omega (arith, ap (weight test) same)
  set_at-count test (suc i) x y (z ∷ xs) h = omega (arith, set_at-count test i x y xs h)

  get_elem?-set_at :
      (i j : ℕ) (a b : A) (xs : List A)
      → get_elem? xs i ≡ some a
      → get_elem? xs j ≡ some b
      → get_elem? (set_at j a xs) i ≡ some a
  get_elem?-set_at i j a b [] h h' = absurd (ground (arith, h))
  get_elem?-set_at zero zero a b (z ∷ xs) h h' = refl
  get_elem?-set_at zero (suc j) a b (z ∷ xs) h h' = h
  get_elem?-set_at (suc i) zero a b (z ∷ xs) h h' = h
  get_elem?-set_at (suc i) (suc j) a b (z ∷ xs) h h' = get_elem?-set_at i j a b xs h h'

  count-swap : (test : A → Bool) (i j : ℕ) (xs : List A) → count test (swap i j xs) ≡ count test xs
  unfolding swap
  count-swap test i j xs = elim (Option-cases (get_elem? xs i)) [
    | inl h ↦ rw (swap, h) refl
    | inr (a, h) ↦ elim (Option-cases (get_elem? xs j)) [
      | inl h' ↦ rw (swap, h, h') refl
      | inr (b, h') ↦
          rw (swap, h, h')
            (omega (
              arith,
              set_at-count test j a b xs h',
              set_at-count test i b a (set_at j a xs) (get_elem?-set_at i j a b xs h h'),
            ))
    ]
  ]

  -- A shuffle of some nodes: as many of them pass a test as before, or one of the draws failed.
  abbrev pub Shuffled : (A → Bool) → (ℕ → Option ℕ) → (i : ℕ) → List A → Option (List A) → Type 0
  Shuffled test draw i nodes (some ns) = count test ns ≡ count test nodes
  Shuffled test draw i nodes none = (k : ℕ) × (k < i) × (draw (suc k) ≡ none)

  weaken :
      (test : A → Bool) (draw : ℕ → Option ℕ) (i j : ℕ) (nodes : List A) (o : Option (List A))
      → Shuffled test draw i (swap (suc i) j nodes) o
      → Shuffled test draw (suc i) nodes o
  weaken test draw i j nodes (some ns) same = same ∙ count-swap test (suc i) j nodes
  weaken test draw i j nodes none (k, below, fails) = (k, omega (arith, below), fails)

  shuffle_loop-Shuffled :
      (test : A → Bool) (draw : ℕ → Option ℕ) (i : ℕ) (nodes : List A)
      → Shuffled test draw i nodes (shuffle_loop draw i nodes)
  unfolding shuffle_loop
  shuffle_loop-Shuffled test draw zero nodes = refl
  shuffle_loop-Shuffled test draw (suc i) nodes = elim (Option-cases (draw (suc i))) [
    | inl h ↦ rw (shuffle_loop, h) (i, omega arith, h)
    | inr (j, h) ↦
        rw (shuffle_loop, h)
          (weaken test draw i j nodes (shuffle_loop draw i (swap (suc i) j nodes))
            (shuffle_loop-Shuffled test draw i (swap (suc i) j nodes)))
  ]

  -- A shuffle gives back each node as often as it was there, whatever is drawn; it fails only if one
  -- of the draws that it needs does.
  pub shuffle_nodes-Shuffled :
      (test : A → Bool) (draw : ℕ → Option ℕ) (nodes : List A)
      → Shuffled test draw (length nodes - 1) nodes (shuffle_nodes draw nodes)
  unfolding shuffle_nodes
  shuffle_nodes-Shuffled test draw nodes = shuffle_loop-Shuffled test draw (length nodes - 1) nodes
