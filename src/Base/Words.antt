-- ===== src/Base/Words.antt =====
-- Go's `math/bits` on a uint64, shifts, and the signed reading of a 64-bit pattern.
use Prim.Native.Nat.{ℕ, zero, suc, ◌+◌, ◌-◌, ◌*◌, ◌/◌, ◌%◌, ◌^◌, ◌≤◌, ◌<◌}
use mathlib.Core.Path.{◌≡◌, refl, ap}
use mathlib.Core.Logic.{◌⊎◌, inl, inr}
use native.Mathlib.Omega.{arith}
use native.Mathlib.Nat.{pow-suc, pow-le-pow_right}
use native.Mathlib.Numerals.{towards_suc}
use openpcc.Base.Tests.{ltb, ◌==◌, if◌then◌else◌, Bool-cases, ==→eq, ==_false}
use openpcc.Base.Int.{ℤ, pos, negsuc, pos_part, neg_part}

-- The bit pattern `x % 2 ^ 64` read as an int64.
unfoldable pub int64_of : ℕ → ℤ
int64_of x = let y = x % 2 ^ 64 in if ltb y (2 ^ 63) then pos y else negsuc (2 ^ 64 - 1 - y)

pub int64_of_small : (x : ℕ) → x < 2 ^ 63 → int64_of x ≡ pos x
unfolding int64_of
int64_of_small x h = ground arith

-- What an int64 keeps of an integer.
unfoldable pub wrap64 : ℤ → ℤ
unfolding int64_of
wrap64 (pos n) = int64_of n
wrap64 (negsuc n) = int64_of (2 ^ 64 - 1 - n % 2 ^ 64)

pub wrap64_small : (z : ℤ) → pos_part z < 2 ^ 63 → neg_part z ≤ 2 ^ 63 → wrap64 z ≡ z
unfolding wrap64
wrap64_small (pos n) h k = ground arith
wrap64_small (negsuc n) h k = ground arith

-- The number of digits up to the highest one, of a number below 2 ^ fuel.
unfoldable pub bit_len : ℕ → ℕ → ℕ
bit_len zero x = 0
bit_len (suc f) x = let rest = bit_len f (x / 2) in if x == 0 then 0 else suc rest

-- `bits.Len64`
unfoldable pub len64 : ℕ → ℕ
unfolding bit_len
len64 x = bit_len 64 x

unfoldable pub zeros_loop : ℕ → ℕ → ℕ
zeros_loop zero x = 0
zeros_loop (suc f) x = let rest = zeros_loop f (x / 2) in if x % 2 == 0 then suc rest else 0

-- `bits.TrailingZeros64`, which is 64 at 0
unfoldable pub trailing_zeros64 : ℕ → ℕ
unfolding zeros_loop
trailing_zeros64 x = zeros_loop 64 x

pub pow-pos : (n : ℕ) → 0 < 2 ^ n
pow-pos zero = omega arith
pow-pos (suc n) = rw pow-suc (omega (arith, pow-pos n))

bit_len_zero : (f : ℕ) → bit_len f 0 ≡ 0
unfolding bit_len
bit_len_zero zero = refl
bit_len_zero (suc f) = refl

bit_len_step : (f x : ℕ) → 0 < x → bit_len (suc f) x ≡ suc (bit_len f (x / 2))
unfolding bit_len
bit_len_step f x h = ground arith

lt-pow-bit_len : (f x : ℕ) → x < 2 ^ f → x < 2 ^ bit_len f x
lt-pow-bit_len zero x h = unfold bit_len in h
lt-pow-bit_len (suc f) zero h = rw bit_len_zero (omega arith)
lt-pow-bit_len (suc f) (suc n) h =
    rw (bit_len_step f (suc n) (omega arith), pow-suc)
      (omega (arith, lt-pow-bit_len f (suc n / 2) (omega (arith, pow-suc 2 f))))

pow-bit_len-le : (f x : ℕ) → 0 < x → 2 ^ bit_len f x ≤ 2 * x
pow-bit_len-le zero x h = unfold bit_len in omega arith
pow-bit_len-le (suc f) x h =
    rw (bit_len_step f x h, pow-suc)
      (elim (Bool-cases (x / 2 == 0)) [
        | inl e ↦ rw (==→eq (x / 2) 0 e, bit_len_zero f) (omega arith)
        | inr e ↦ omega (
          arith,
          ==_false (x / 2) 0 e,
          pow-bit_len-le f (x / 2) (omega (arith, ==_false (x / 2) 0 e)),
        )
      ])

-- A nonzero uint64 lies between the power of two below its length and the one at it.
pub len64_bounds : (x : ℕ) → 0 < x → x < 2 ^ 64 → (x < 2 ^ len64 x) × (2 ^ len64 x ≤ 2 * x)
unfolding len64
len64_bounds x p h = (lt-pow-bit_len 64 x h, pow-bit_len-le 64 x p)

zeros_loop_even : (f x : ℕ) → x % 2 ≡ 0 → zeros_loop (suc f) x ≡ suc (zeros_loop f (x / 2))
unfolding zeros_loop
zeros_loop_even f x h = ground arith

zeros_loop_odd : (f x : ℕ) → x % 2 ≡ 1 → zeros_loop (suc f) x ≡ 0
unfolding zeros_loop
zeros_loop_odd f x h = ground arith

-- A number is a multiple of the power of two at its trailing zeros.
pub zeros_loop_divides : (f x : ℕ) → (q : ℕ) × (x ≡ q * 2 ^ zeros_loop f x)
zeros_loop_divides zero x = (x, unfold zeros_loop in omega arith)
zeros_loop_divides (suc f) x = elim (Bool-cases (x % 2 == 0)) [
  | inl e ↦
      let even = ==→eq (x % 2) 0 e in
      let (q, h) = zeros_loop_divides f (x / 2) in
      (q, rw (zeros_loop_even f x even, pow-suc) (omega (arith, ap (λ (t : ℕ). t * 2) h)))
  | inr e ↦ (x, rw (zeros_loop_odd f x (omega (arith, ==_false (x % 2) 0 e))) (omega arith))
]

twice_half : (q t : ℕ) → (q * (t * 2) / 2 ≡ q * t) × (q * (t * 2) % 2 ≡ 0)
twice_half q t = omega arith

-- A power of two that divides a number has at most its trailing zeros.
pub zeros_loop_max : (f e q : ℕ) → e ≤ f → e ≤ zeros_loop f (q * 2 ^ e)
zeros_loop_max f zero q h = omega arith
zeros_loop_max zero (suc e) q h = absurd (omega arith)
zeros_loop_max (suc f) (suc e) q h =
    rw (pow-suc 2 e, zeros_loop_even f _ (twice_half q (2 ^ e)).1, (twice_half q (2 ^ e)).0)
      (omega (arith, zeros_loop_max f e q (omega arith)))

-- The length is one more than the exponent of the power of two just below the number.
pub len64_unique : (k x : ℕ) → 2 ^ k ≤ x → x < 2 ^ suc k → x < 2 ^ 64 → len64 x ≡ suc k
len64_unique k x lo hi h =
    let bounds = len64_bounds x (omega (arith, pow-pos k)) h in
    elim (compare_cases (len64 x) (suc k)) [
      | inl below ↦
          absurd (omega (arith, bounds, pow-le-pow_right {n = 2} (omega arith) (le_pred below)))
      | inr (inl same) ↦ same
      | inr (inr above) ↦
          absurd
            (omega (arith, bounds, pow-suc 2 (suc k), pow-le-pow_right {n = 2} (omega arith) above))
    ]
  where
    compare_cases : (a b : ℕ) → (a < b) ⊎ ((a ≡ b) ⊎ (b < a))
    compare_cases a b = grind arith

    le_pred : {a : ℕ} → a < suc k → a ≤ k
    le_pred below = omega arith

pub pow_four : (e : ℕ) → 2 ^ (e + 4) ≡ 16 * 2 ^ e
pow_four e = simp towards_suc (
    omega (
      arith,
      pow-suc 2 e,
      pow-suc 2 (suc e),
      pow-suc 2 (suc (suc e)),
      pow-suc 2 (suc (suc (suc e))),
    ))

pub pow_add : (a b : ℕ) → 2 ^ (a + b) ≡ 2 ^ a * 2 ^ b
pow_add a zero = let e : a + 0 ≡ a = omega arith in rw e (omega arith)
pow_add a (suc b) =
    let e : a + suc b ≡ suc (a + b) = omega arith in
    rw (e, pow-suc 2 (a + b), pow-suc 2 b, pow_add a b) (omega arith)
