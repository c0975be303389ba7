-- ===== src/Cmdline/Printing.antt =====
-- Printing pairs as a command line, and reading them back.
use mathlib.Core.List.{append_assoc, append-nil}
use openpcc.Base.{
  ℕ, ◌≡◌, refl, sym, ◌∙◌, Bool, true, false, not, ◌||◌, ◌==◌, List, [], ◌∷◌, ◌++◌, length, All, ok,
  ◌>>=◌, inl, inr, arith, Bool-cases, if◌then◌else◌,
}
use openpcc.Base.Dict.{Dict, insert, list_eq}
use openpcc.Cmdline.{
  Str, Parser, key, value, value_quoted, run, step, step_char, step_quote, step_space, finish,
  is_space, trim_left, trim_right, parse,
}

-- A character that a key may have.
abbrev pub is_plain : ℕ → Bool
is_plain r = not ((r == 92) || (r == 34) || (r == b'=') || is_space r)

abbrev pub escape : Str → Str
escape [] = []
escape (r ∷ rs) = if (r == 92) || (r == 34) then 92 ∷ r ∷ escape rs else r ∷ escape rs

-- `key="value"`, with the value's quotes and backslashes escaped.
abbrev pub print_pair : Str × Str → Str
print_pair (k, v) = k ++ (b'=' ∷ 34 ∷ (escape v ++ (34 ∷ [])))

abbrev pub print : List (Str × Str) → Str
print [] = []
print (p ∷ []) = print_pair p
print (p ∷ q ∷ ps) = print_pair p ++ (b' ' ∷ print (q ∷ ps))

reading : Dict Str Str → Str → Parser
reading m k = record {
  result = m;
  in_escape = false;
  current_key = k;
  current_value = [];
  state = key;
}

abbrev quoted : Dict Str Str → Str → Str → Parser
quoted m k v = record {
  result = m;
  in_escape = false;
  current_key = k;
  current_value = v;
  state = value_quoted;
}

step-plain :
    (r : ℕ) (m : Dict Str Str) (k : Str)
    → is_plain r ≡ true
    → step r (reading m k) ≡ ok (reading m (k ++ r ∷ []))
unfolding step step_char is_space reading
step-plain r m k plain = ground (arith, plain)

run-key :
    (ks rest : Str) (m : Dict Str Str) (k : Str)
    → All (λ r. is_plain r ≡ true) ks
    → run (ks ++ rest) (reading m k) ≡ run rest (reading m (k ++ ks))
unfolding run
run-key [] rest m k plain = rw (append-nil k) refl
run-key (r ∷ ks) rest m k plain =
    rw (run, step-plain r m k plain.0)
      (run-key ks rest m (k ++ r ∷ []) plain.1 ∙ rw (append_assoc k (r ∷ []) ks) refl)

abbrev escaping : Dict Str Str → Str → Str → Parser
escaping m k v = record (quoted m k v) { in_escape = true }

step-quoted :
    (r : ℕ) (m : Dict Str Str) (k v : Str)
    → ((r == 92) || (r == 34)) ≡ false
    → step r (quoted m k v) ≡ ok (quoted m k (v ++ r ∷ []))
unfolding step step_char
step-quoted r m k v other = ground (arith, other)

run-escape :
    (v rest : Str) (m : Dict Str Str) (k w : Str)
    → run (escape v ++ rest) (quoted m k w) ≡ run rest (quoted m k (w ++ v))
unfolding run step
run-escape [] rest m k w = rw (append-nil w) refl
run-escape (r ∷ v) rest m k w =
    let later = run-escape v rest m k (w ++ r ∷ []) ∙ rw (append_assoc w (r ∷ []) v) refl in
    elim (Bool-cases ((r == 92) || (r == 34))) [
      | inl special ↦ rw special later
      | inr other ↦ rw (other, run, step-quoted r m k w other) later
    ]

run-pair :
    (k v rest : Str) (m : Dict Str Str)
    → All (λ r. is_plain r ≡ true) k
    → (length k == 0) ≡ false
    → run (print_pair (k, v) ++ rest) (reading m [])
      ≡ run rest (record (quoted m k v) { state = value })
unfolding run step reading step_quote
run-pair k v rest m plain nonempty =
    let tail = b'=' ∷ 34 ∷ (escape v ++ (34 ∷ [])) in
    let read = run-key k (tail ++ rest) m [] plain in
    let body = run-escape v (34 ∷ rest) m k [] in
    rw (print_pair, append_assoc k tail rest, read)
      (rw (run, nonempty, append_assoc (escape v) (34 ∷ []) rest, body) refl)

-- The map with all pairs put in, in their order.
abbrev pub insert_all : List (Str × Str) → Dict Str Str → Dict Str Str
insert_all [] m = m
insert_all ((k, v) ∷ ps) m = insert_all ps (insert k v m)

-- A key is not empty, and has no space, quote, backslash or equals sign.
abbrev pub IsKey : Str → Type 0
IsKey k = ((length k == 0) ≡ false) × All (λ r. is_plain r ≡ true) k

run-print :
    (ps : List (Str × Str)) (m : Dict Str Str)
    → All (λ p. IsKey p.0) ps
    → (run (print ps) (reading m []) >>= finish) ≡ ok (insert_all ps m)
unfolding run reading finish step step_space
run-print [] m keys = refl
run-print ((k, v) ∷ []) m keys =
    let pair = run-pair k v [] m keys.0.1 keys.0.0 in
    rw (print, ← append-nil (print_pair (k, v)), pair, run) (rw (finish, keys.0.0) refl)
run-print ((k, v) ∷ q ∷ ps) m keys =
    let pair = run-pair k v (b' ' ∷ print (q ∷ ps)) m keys.0.1 keys.0.0 in
    rw (print, pair) (run-print (q ∷ ps) (insert k v m) keys.1)

trim_left-print :
    (ps : List (Str × Str)) → All (λ p. IsKey p.0) ps → trim_left (print ps) ≡ print ps
unfolding trim_left is_space
trim_left-print [] keys = refl
trim_left-print (([], v) ∷ ps) keys = absurd (cc keys.0.0)
trim_left-print ((r ∷ k, v) ∷ []) keys = ground (arith, keys)
trim_left-print ((r ∷ k, v) ∷ q ∷ ps) keys = ground (arith, keys)

nonempty-append : (xs : Str) (x : ℕ) → (length (xs ++ (x ∷ [])) == 0) ≡ false
nonempty-append [] x = ground arith
nonempty-append (y ∷ xs) x = ground arith

trim_right-quote : (xs : Str) → trim_right (xs ++ (34 ∷ [])) ≡ xs ++ (34 ∷ [])
unfolding trim_right is_space
trim_right-quote [] = refl
trim_right-quote (x ∷ xs) =
    let held : (length (xs ++ (34 ∷ [])) == 0) ≡ false = nonempty-append xs 34 in
    elim (Bool-cases (is_space x)) [
      | inl space ↦ rw (trim_right-quote xs, held, space) refl
      | inr other ↦ rw (trim_right-quote xs, held, other) refl
    ]

print-quote :
    (p : Str × Str) (ps : List (Str × Str)) → (xs : Str) × (print (p ∷ ps) ≡ xs ++ (34 ∷ []))
print-quote (k, v) [] =
    (k ++ (b'=' ∷ 34 ∷ escape v), sym (append_assoc k (b'=' ∷ 34 ∷ escape v) (34 ∷ [])))
print-quote p (q ∷ ps) =
    let (xs, h) = print-quote q ps in
    (print_pair p ++ (b' ' ∷ xs), rw h (sym (append_assoc (print_pair p) (b' ' ∷ xs) (34 ∷ []))))

-- Pairs that are printed with quoted and escaped values are read back, the later value of a key in the place
-- of an earlier one, if no key is empty or has a space, a quote, a backslash or an equals sign.
pub parse-print :
    (ps : List (Str × Str)) → All (λ p. IsKey p.0) ps → parse (print ps) ≡ ok (insert_all ps [])
unfolding parse trim_right trim_left reading
parse-print [] keys = run-print [] [] keys
parse-print (p ∷ ps) keys =
    let (xs, h) = print-quote p ps in
    let trimmed : trim_right (print (p ∷ ps)) ≡ print (p ∷ ps) = rw h (trim_right-quote xs) in
    rw (parse, trim_left-print (p ∷ ps) keys, trimmed) (run-print (p ∷ ps) [] keys)
