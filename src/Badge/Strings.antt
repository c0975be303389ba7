-- ===== src/Badge/Strings.antt =====
-- Strings are read back as they were written, in order, and the loop has fuel enough.
use mathlib.Core.Path.{subst}
use openpcc.Base.{
  ℕ, suc, zero, ◌+◌, ◌-◌, ◌*◌, ◌/◌, ◌%◌, ◌^◌, ◌≤◌, ◌<◌, ◌≡◌, ◌≢◌, refl, ◌∙◌, ap, true, false, ◌==◌,
  ltb, List, [], ◌∷◌, ◌++◌, length, take, drop, length-append, length-drop, Result, ok, err,
  bind-ok, inl, inr, arith, Bool-cases, Result-cases,
}
use openpcc.Base.Strings.{sort_strings, sort_strings-are_sorted}
use openpcc.Badge.{
  Str, Error, out_of_fuel, is_valid_ascii, little_endian, encode_string, encode_loop,
  encode_strings, read_string, decode_string, decode_loop, check_sorted, decode_strings,
}

module _ {A : Type 0} where
  pub take-append : (xs ys : List A) → take (length xs) (xs ++ ys) ≡ xs
  take-append [] ys = refl
  take-append (x ∷ xs) ys = ap (λ r. x ∷ r) (take-append xs ys)

  pub drop-append : (xs ys : List A) → drop (length xs) (xs ++ ys) ≡ ys
  drop-append [] ys = refl
  drop-append (x ∷ xs) ys = drop-append xs ys

little_endian_lem :
    (n : ℕ)
    → n < 2 ^ 32
    → n % 2 ^ 8
        + 2 ^ 8 * (n / 2 ^ 8 % 2 ^ 8)
        + 2 ^ 16 * (n / 2 ^ 16 % 2 ^ 8)
        + 2 ^ 24 * (n / 2 ^ 24 % 2 ^ 8)
      ≡ n
little_endian_lem n h = omega arith

read_string-append :
    (str rest : List ℕ)
    → is_valid_ascii str ≡ true
    → (length str == 0) ≡ false
    → read_string (length str) (str ++ rest) ≡ ok (str, rest)
unfolding read_string
read_string-append str rest valid nonempty =
    let enough : ltb (length (str ++ rest)) (length str) ≡ false =
      ground (arith, length-append str rest) in
    rw (read_string, nonempty, enough, take-append str rest, drop-append str rest, valid) refl

encode_string-ok :
    (str written : List ℕ)
    → encode_string str ≡ ok written
    → (is_valid_ascii str ≡ true)
      × ((length str == 0) ≡ false)
      × (length str < 2 ^ 32)
      × (written ≡ little_endian (length str) ++ str)
unfolding encode_string
encode_string-ok str written wrote = elim (Bool-cases (is_valid_ascii str)) [
  | inr invalid ↦ absurd (ground (arith, invalid, wrote))
  | inl valid ↦ elim (Bool-cases (length str == 0)) [
    | inl empty ↦ absurd (ground (arith, valid, empty, wrote))
    | inr nonempty ↦ elim (Bool-cases (ltb (2 ^ 32 - 1) (length str))) [
      | inl over ↦ absurd (ground (arith, valid, nonempty, over, wrote))
      | inr within ↦
          (valid, nonempty, ground (arith, within), ground (arith, valid, nonempty, within, wrote))
    ]
  ]
]

decode-encode_string :
    (str written rest : List ℕ)
    → encode_string str ≡ ok written
    → decode_string (written ++ rest) ≡ ok (str, rest)
unfolding decode_string little_endian
decode-encode_string str written rest wrote =
    let (valid, nonempty, small, bytes) = encode_string-ok str written wrote in
    rw bytes (
      ap (λ n. read_string n (str ++ rest)) (little_endian_lem (length str) small)
      ∙ read_string-append str rest valid nonempty)

encode_string-long : (str written : List ℕ) → encode_string str ≡ ok written → 4 ≤ length written
unfolding little_endian
encode_string-long str written wrote =
    let (valid, nonempty, small, bytes) = encode_string-ok str written wrote in
    rw bytes (omega arith)

encode_loop-ok :
    (str : Str) (strs : List Str) (bytes : List ℕ)
    → encode_loop (str ∷ strs) ≡ ok bytes
    → (written : List ℕ) × (rest : List ℕ) × (encode_string str ≡ ok written)
      × (encode_loop strs ≡ ok rest)
      × (bytes ≡ written ++ rest)
unfolding encode_loop
encode_loop-ok str strs bytes wrote =
    let (written, h, wrote') = bind-ok (encode_string str) _ bytes wrote in
    let (rest, h', wrote'') = bind-ok (encode_loop strs) _ bytes wrote' in
    (written, rest, h, h', ground (arith, wrote''))

decode_loop-step :
    (fuel : ℕ) (buf : List ℕ) (str : Str) (rest : List ℕ) (strs : List Str)
    → 0 < length buf
    → decode_string buf ≡ ok (str, rest)
    → decode_loop fuel rest ≡ ok strs
    → decode_loop (suc fuel) buf ≡ ok (str ∷ strs)
unfolding decode_loop
decode_loop-step fuel [] str rest strs some_bytes first others = absurd (omega (arith, some_bytes))
decode_loop-step fuel (b ∷ bs) str rest strs some_bytes first others =
    rw (decode_loop, first, others) refl

-- The loop, on what was written, with a byte of fuel for each byte.
decode_loop-encode_loop :
    (strs : List Str) (bytes : List ℕ) (fuel : ℕ)
    → encode_loop strs ≡ ok bytes
    → length bytes ≤ fuel
    → decode_loop fuel bytes ≡ ok strs
unfolding encode_loop decode_loop
decode_loop-encode_loop [] bytes fuel wrote enough =
    let nothing : bytes ≡ [] = ground (arith, wrote) in rw nothing refl
decode_loop-encode_loop (str ∷ strs) bytes zero wrote enough =
    let (written, rest, h, h', parts) = encode_loop-ok str strs bytes wrote in
    absurd (
      omega (
        arith,
        enough,
        ap length parts,
        length-append written rest,
        encode_string-long str written h,
      ))
decode_loop-encode_loop (str ∷ strs) bytes (suc fuel) wrote enough =
    let (written, rest, h, h', parts) = encode_loop-ok str strs bytes wrote in
    let long = encode_string-long str written h in
    let lengths = length-append written rest in
    let total = ap length parts in
    let others =
      decode_loop-encode_loop strs rest fuel h' (omega (arith, enough, total, lengths, long)) in
    decode_loop-step fuel bytes str rest strs (omega (arith, total, lengths, long))
      (ap decode_string parts ∙ decode-encode_string str written rest h) others

-- A list of strings that can be written is read back sorted.
pub decode-encode_strings :
    (strs : List Str) (bytes : List ℕ)
    → encode_strings strs ≡ ok bytes
    → decode_strings bytes ≡ ok (sort_strings strs)
unfolding encode_strings decode_strings check_sorted
decode-encode_strings strs bytes wrote =
    let read =
      decode_loop-encode_loop (sort_strings strs) bytes (length bytes) wrote (omega arith) in
    rw (decode_strings, read) (rw (check_sorted, sort_strings-are_sorted strs) refl)

-- A string that is read leaves no more bytes than there were, and the fuel is no part of an error.
abbrev Shorter : List ℕ → Result Error (Str × List ℕ) → Type 0
Shorter buf (ok (str, rest)) = length rest ≤ length buf
Shorter buf (err e) = e ≢ out_of_fuel

read_string-Shorter : (n : ℕ) (buf : List ℕ) → Shorter buf (read_string n buf)
unfolding read_string
read_string-Shorter n buf = elim (Bool-cases (n == 0)) [
  | inl h ↦ rw (read_string, h) (λ same. cc)
  | inr h ↦ elim (Bool-cases (ltb (length buf) n)) [
    | inl h₁ ↦ rw (read_string, h, h₁) (λ same. cc)
    | inr h₁ ↦ elim (Bool-cases (is_valid_ascii (take n buf))) [
      | inr h₂ ↦ rw (read_string, h, h₁, h₂) (λ same. cc)
      | inl h₂ ↦ rw (read_string, h, h₁, h₂) (omega (arith, length-drop n buf))
    ]
  ]
]

decode_string-Shorter : (b : ℕ) (bs : List ℕ) → Shorter bs (decode_string (b ∷ bs))
unfolding decode_string
decode_string-Shorter b [] = λ same. cc
decode_string-Shorter b (c ∷ []) = λ same. cc
decode_string-Shorter b (c ∷ d ∷ []) = λ same. cc
decode_string-Shorter b (c ∷ d ∷ e ∷ buf) =
    widen (read_string (b + 2 ^ 8 * c + 2 ^ 16 * d + 2 ^ 24 * e) buf) (read_string-Shorter _ buf)
  where
    widen : (r : Result Error (Str × List ℕ)) → Shorter buf r → Shorter (c ∷ d ∷ e ∷ buf) r
    widen (ok (str, rest)) h = omega (arith, h)
    widen (err e') h = h

-- The fuel of `decode_strings` is enough, whatever bytes it is given.
pub decode_loop-fuel :
    (fuel : ℕ) (buf : List ℕ) → length buf ≤ fuel → decode_loop fuel buf ≢ err out_of_fuel
unfolding decode_loop
decode_loop-fuel fuel [] enough = λ same. cc
decode_loop-fuel zero (b ∷ bs) enough = absurd (omega (arith, enough))
decode_loop-fuel (suc fuel) (b ∷ bs) enough =
    let shorter = decode_string-Shorter b bs in
    elim (Result-cases (decode_string (b ∷ bs))) [
      | inr (e, h) ↦
          let other : e ≢ out_of_fuel = subst (Shorter bs) h shorter in
          rw (decode_loop, h) (λ same. other (ground (arith, same)))
      | inl ((str, rest), h) ↦
          let fewer : length rest ≤ length bs = subst (Shorter bs) h shorter in
          let ih = decode_loop-fuel fuel rest (omega (arith, fewer, enough)) in
          elim (Result-cases (decode_loop fuel rest)) [
            | inl (strs, h') ↦ rw (decode_loop, h, h') (λ same. cc)
            | inr (e, h') ↦ rw (decode_loop, h, h') (λ same. ih (h' ∙ same))
          ]
    ]
