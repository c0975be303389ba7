-- ===== src/Nonce/Expiry.antt =====
-- When a nonce is expired (anonpay/nonce.go), and what the client's timestamps are.
use openpcc.Base.{
  ℕ, ◌+◌, ◌-◌, ◌*◌, ◌/◌, ◌≤◌, ◌<◌, ◌≡◌, ◌↔◌, true, false, ltb, if◌then◌else◌, refl, ltb→lt,
  ltb-false, Bool-cases, inl, inr, ◌⊎◌, ◌%◌, List, arith,
}
use openpcc.Base.Int.{pos, ◌+ℤ◌, ◌-ℤ◌}
use openpcc.Nonce.{
  Nonce, is_expired_at, round_down_nonce_timestamp, safe_nonce_timestamp, random_nonce,
}

-- The start of the hour of a time.
abbrev pub hour : ℕ → ℕ
hour t = t / 3600 * 3600

sub_pos : (a b : ℕ) → b ≤ a → pos a -ℤ pos b ≡ pos (a - b)
unfolding ◌-ℤ◌
sub_pos a b h = ground arith

add_pos : (a b : ℕ) → pos a +ℤ pos b ≡ pos (a + b)
unfolding ◌+ℤ◌
add_pos a b = ground arith

is_expired_at_lem :
    (n : Nonce) (t now : ℕ)
    → n.timestamp ≡ pos t
    → 30 ≤ now
    → is_expired_at n (pos now)
      ≡ (if ltb t (hour (now - 30)) then true else ltb (hour (now + 93630)) t)
unfolding is_expired_at round_down_nonce_timestamp
is_expired_at_lem n t now stamp late =
    rw (sub_pos now 30 late, add_pos now 93630, stamp) (ground arith)

-- From 30 seconds after 1970 on, a nonce is unexpired just when its timestamp lies between the hour
-- of 30 seconds ago and the hour of 26 hours and 30 seconds ahead, both included.
pub not_expired_iff :
    (n : Nonce) (t now : ℕ)
    → n.timestamp ≡ pos t
    → 30 ≤ now
    → (is_expired_at n (pos now) ≡ false) ↔ ((hour (now - 30) ≤ t) × (t ≤ hour (now + 93630)))
not_expired_iff n t now stamp late =
    rw (is_expired_at_lem n t now stamp late) (λ h. ground arith, λ h. ground arith)

safe_nonce_timestamp_lem :
    (made r s : ℕ)
    → safe_nonce_timestamp (pos made) r s ≡ (
        if ltb ((3600 - made % 3600) * s) (r * 3600)
        then (pos (hour made + 3600), ltb (made % 3600) 30)
        else (pos (hour made), false))
unfolding safe_nonce_timestamp round_down_nonce_timestamp
safe_nonce_timestamp_lem made r s =
    let within : made - hour made ≡ made % 3600 = omega arith in
    rw
      (
        sub_pos made (hour made) (omega arith),
        within,
        sub_pos 3600 (made % 3600) (omega arith),
        add_pos (hour made) 3600,
      )
      (ground arith)

-- The timestamp of a nonce that the client makes is the hour of its clock or the next one; it is the
-- next one just when the random factor is above the part of the hour that is left, and the nonce is
-- then marked as not yet safe to use just in the first 30 seconds of the hour.
pub random_nonce_timestamp :
    (made r s : ℕ) (random : List ℕ)
    → let n = random_nonce (pos made) r s random in
      (((3600 - made % 3600) * s < r * 3600)
        × (n.timestamp ≡ pos (hour made + 3600))
        × (n.unsafe_increment ≡ ltb (made % 3600) 30))
      ⊎ ((r * 3600 ≤ (3600 - made % 3600) * s)
          × (n.timestamp ≡ pos (hour made))
          × (n.unsafe_increment ≡ false))
unfolding random_nonce
random_nonce_timestamp made r s random =
    rw (safe_nonce_timestamp_lem made r s)
      (elim (Bool-cases (ltb ((3600 - made % 3600) * s) (r * 3600))) [
        | inl e ↦ rw e (inl (ltb→lt _ _ e, refl, refl))
        | inr e ↦ rw e (inr (ltb-false _ _ e, refl, refl))
      ])

-- A nonce that the client made is unexpired for every clock from 30 seconds behind the client's up
-- to 30 seconds past the end of the client's hour.
pub fresh_not_expired :
    (made r s now : ℕ) (random : List ℕ)
    → 30 ≤ now
    → made ≤ now + 30
    → now < hour made + 3630
    → is_expired_at (random_nonce (pos made) r s random) (pos now) ≡ false
fresh_not_expired made r s now random late early soon =
    let n = random_nonce (pos made) r s random in
    elim (random_nonce_timestamp made r s random) [
      | inl (_, stamp, _) ↦ (not_expired_iff n _ now stamp late).1 (omega arith)
      | inr (_, stamp, _) ↦ (not_expired_iff n _ now stamp late).1 (omega arith)
    ]

-- A nonce is expired for every clock that is an hour and 30 seconds past its timestamp's hour, though
-- the lifespan is 26 hours.
pub expires_after_hour :
    (n : Nonce) (t now : ℕ)
    → n.timestamp ≡ pos (hour t)
    → hour t + 3630 ≤ now
    → is_expired_at n (pos now) ≡ true
expires_after_hour n t now stamp late =
    rw (is_expired_at_lem n (hour t) now stamp (omega arith)) (ground arith)
