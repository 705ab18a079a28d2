-- ===== src/Common/Tables.antt =====
-- Laws found by running a test on each number below a bound.
use Prim.Native.Nat.{ℕ, zero, suc, ◌<◌}
use mathlib.Core.Path.{◌≡◌}
use mathlib.Core.Bool.{Bool, true, false}
use native.Mathlib.Omega.{arith}
use aiguard_siem.Common.Tests.{if◌then◌else◌}

-- A test that holds of every number under a bound, found by running it on each.
unfoldable pub tabulated : (ℕ → Bool) → ℕ → Bool
tabulated test zero = true
tabulated test (suc bound) = if test bound then tabulated test bound else false

pub tabulated-entry :
    (test : ℕ → Bool) (bound i : ℕ) → i < bound → tabulated test bound ≡ true → test i ≡ true
unfolding tabulated
tabulated-entry test zero i below holds = absurd (omega (arith, below))
tabulated-entry test (suc bound) i below holds = ground (arith, tabulated-entry test bound i)
