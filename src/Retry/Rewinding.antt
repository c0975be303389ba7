-- ===== src/Retry/Rewinding.antt =====
-- What a body that is sent again gives to read.
use mathlib.Core.List.{append_assoc, append-nil}
use openpcc.Base.{
  ℕ, suc, zero, ◌+◌, ◌≡◌, refl, sym, ◌∙◌, ap, true, false, none, some, List, [], ◌∷◌, ◌++◌, take,
  drop, Result, ok, err, arith, map,
}
use openpcc.Retry.{RewindableBody, Error, new_rewindable_body, rewind, read_body, close_body}

module _ {A : Type 0} where
  take-nil : (n : ℕ) → take {A = A} n [] ≡ []
  take-nil zero = refl
  take-nil (suc n) = refl

  drop-nil : (n : ℕ) → drop {A = A} n [] ≡ []
  drop-nil zero = refl
  drop-nil (suc n) = refl

  take-add : (n m : ℕ) (xs : List A) → take n xs ++ take m (drop n xs) ≡ take (n + m) xs
  take-add zero m xs = let same : 0 + m ≡ m = omega arith in rw same refl
  take-add (suc n) m [] = rw (take-nil m, take-nil (suc n + m)) refl
  take-add (suc n) m (x ∷ xs) =
      let same : suc n + m ≡ suc (n + m) = omega arith in
      rw same (ap (λ r. x ∷ r) (take-add n m xs))

  drop-add : (n m : ℕ) (xs : List A) → drop m (drop n xs) ≡ drop (n + m) xs
  drop-add zero m xs = let same : 0 + m ≡ m = omega arith in rw same refl
  drop-add (suc n) m [] = rw (drop-nil m, drop-nil (suc n + m)) refl
  drop-add (suc n) m (x ∷ xs) =
      let same : suc n + m ≡ suc (n + m) = omega arith in rw same (drop-add n m xs)

abbrev pub sum : List ℕ → ℕ
sum [] = 0
sum (n ∷ ns) = n + sum ns

abbrev given : Result Error (List ℕ) → List ℕ
given (ok bytes) = bytes
given (err e) = []

-- The bytes of several reads, together.
abbrev pub reads : List ℕ → RewindableBody → List ℕ × RewindableBody
reads [] c = ([], c)
reads (n ∷ ns) c =
    let (result, c') = read_body n c in
    let (bytes, c'') = reads ns c' in (given result ++ bytes, c'')

-- The bytes of each attempt after the first, which rewinds the body, reads, and closes it.
abbrev pub later_attempts : List (List ℕ) → RewindableBody → List (List ℕ)
later_attempts [] c = []
later_attempts (ns ∷ attempts) c =
    let (result, c') = rewind c in
    let (bytes, c'') = reads ns c' in
    let (closed, c₃) = close_body false c'' in bytes ∷ later_attempts attempts c₃

abbrev pub all_attempts : List ℕ → List (List ℕ) → RewindableBody → List (List ℕ)
all_attempts ns attempts c =
    let (bytes, c') = reads ns c in
    let (closed, c'') = close_body false c' in bytes ∷ later_attempts attempts c''

-- A body that records, and one that plays back.
abbrev recorder : (orig buffer : List ℕ) → RewindableBody
recorder orig buffer = record {
  orig = orig;
  buffer = buffer;
  recording = [];
  close_done = none;
  orig_closed = false;
  close_failed = false;
}

abbrev player : (orig buffer recording : List ℕ) → RewindableBody
player orig buffer recording = record {
  orig = orig;
  buffer = buffer;
  recording = recording;
  close_done = some false;
  orig_closed = true;
  close_failed = false;
}

reads-recorder :
    (ns : List ℕ) (orig buffer : List ℕ)
    → reads ns (recorder orig buffer)
      ≡ (take (sum ns) orig, recorder (drop (sum ns) orig) (buffer ++ take (sum ns) orig))
unfolding read_body
reads-recorder [] orig buffer = ap (λ b. ([], recorder orig b)) (sym (append-nil buffer))
reads-recorder (n ∷ ns) orig buffer =
    rw (reads, reads-recorder ns (drop n orig) (buffer ++ take n orig))
      (rw
        (
          append_assoc buffer (take n orig) (take (sum ns) (drop n orig)),
          take-add n (sum ns) orig,
          drop-add n (sum ns) orig,
        )
        refl)

reads-player :
    (ns : List ℕ) (orig buffer recording : List ℕ)
    → reads ns (player orig buffer recording)
      ≡ (take (sum ns) recording, player orig buffer (drop (sum ns) recording))
unfolding read_body
reads-player [] orig buffer recording = refl
reads-player (n ∷ ns) orig buffer recording =
    rw (reads, reads-player ns orig buffer (drop n recording))
      (rw (take-add n (sum ns) recording, drop-add n (sum ns) recording) refl)

later_attempts-player :
    (attempts : List (List ℕ)) (orig buffer recording : List ℕ)
    → later_attempts attempts (player orig buffer recording)
      ≡ map (λ ms. take (sum ms) buffer) attempts
unfolding rewind close_body
later_attempts-player [] orig buffer recording = refl
later_attempts-player (ms ∷ attempts) orig buffer recording =
    rw (later_attempts, reads-player ms orig buffer buffer)
      (ap (λ rest. take (sum ms) buffer ∷ rest)
        (later_attempts-player attempts orig buffer (drop (sum ms) buffer)))

-- A body that the first attempt closed.
abbrev closed_recorder : (orig buffer : List ℕ) → RewindableBody
closed_recorder orig buffer = record (recorder orig buffer) { close_done = some false }

later_attempts-closed :
    (attempts : List (List ℕ)) (orig buffer : List ℕ)
    → later_attempts attempts (closed_recorder orig buffer)
      ≡ map (λ ms. take (sum ms) buffer) attempts
unfolding rewind close_body
later_attempts-closed [] orig buffer = refl
later_attempts-closed (ms ∷ attempts) orig buffer =
    rw (later_attempts, reads-player ms orig buffer buffer)
      (ap (λ rest. take (sum ms) buffer ∷ rest)
        (later_attempts-player attempts orig buffer (drop (sum ms) buffer)))

-- The first attempt reads the body. Each later one, after a rewind, reads again from the beginning, but no
-- further than the first one came: it is given the part of the body that the first one read.
pub all_attempts-new_rewindable_body :
    (bytes ns : List ℕ) (attempts : List (List ℕ))
    → all_attempts ns attempts (new_rewindable_body bytes)
      ≡ take (sum ns) bytes ∷ map (λ ms. take (sum ms) (take (sum ns) bytes)) attempts
unfolding close_body
all_attempts-new_rewindable_body bytes ns attempts =
    ap and_then (reads-recorder ns bytes [])
    ∙ ap (λ rest. take (sum ns) bytes ∷ rest)
        (later_attempts-closed attempts (drop (sum ns) bytes) (take (sum ns) bytes))
  where
    and_then : List ℕ × RewindableBody → List (List ℕ)
    and_then (first, c) = first ∷ later_attempts attempts (close_body false c).1
