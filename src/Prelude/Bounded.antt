-- ===== src/Prelude/Bounded.antt =====
-- Tests of all numbers below a bound, by evaluation.
use Prim.Native.Nat.{ℕ, zero, suc, ◌<◌}
use mathlib.Core.Path.{◌≡◌}
use mathlib.Core.Bool.{Bool, true, ◌&&◌}
use native.Mathlib.Omega.{arith}

-- a test of the numbers up to a bound, the largest last
unfoldable pub holds_up_to : (ℕ → Bool) → ℕ → Bool
holds_up_to test zero = true
holds_up_to test (suc bound) = holds_up_to test bound && test bound

pub holds_at :
    (test : ℕ → Bool) (bound b : ℕ) → b < bound → holds_up_to test bound ≡ true → test b ≡ true
unfolding holds_up_to
holds_at test zero b below all = absurd (omega (arith, below))
holds_at test (suc bound) b below all = ground (arith, holds_at test bound b)
