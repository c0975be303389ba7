-- ===== src/Base/Bits.antt =====
-- A Boolean test run at every number below a bound, for facts about bit operations.
use Prim.Native.Nat.{ℕ, zero, suc, ◌<◌}
use mathlib.Core.Path.{◌≡◌}
use mathlib.Core.Bool.{Bool, true, ◌&&◌}
use native.Mathlib.Omega.{arith}

unfoldable pub table : (ℕ → Bool) → ℕ → Bool
table test zero = true
table test (suc k) = table test k && test k

pub table-entry :
    (test : ℕ → Bool) (bound i : ℕ) → i < bound → table test bound ≡ true → test i ≡ true
unfolding table
table-entry test zero i below ok = absurd (omega arith)
table-entry test (suc k) i below ok = ground (arith, table-entry test k i)
