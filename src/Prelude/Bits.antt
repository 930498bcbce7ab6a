-- ===== src/Prelude/Bits.antt =====
-- A test of the bytes, or of the numbers of a few bits, by computation.
use Prim.Native.Nat.{ℕ, zero, suc, ◌<◌}
use mathlib.Core.Path.{◌≡◌}
use mathlib.Core.Bool.{Bool, true, false}
use native.Mathlib.Omega.{arith}
use mudlle.Prelude.Tests.{if◌then◌else◌}

-- The test holds of each number from `bound` down to 0, without `bound`.
unfoldable pub checks : (ℕ → Bool) → ℕ → Bool
checks test zero = true
checks test (suc bound) = let rest = checks test bound in if test bound then rest else false

pub checks-at :
    (test : ℕ → Bool) {bound : ℕ} (byte : ℕ)
    → byte < bound
    → checks test bound ≡ true
    → test byte ≡ true
unfolding checks
checks-at test {bound = zero} byte small passed = absurd (omega arith)
checks-at test {bound = suc bound} byte small passed =
    ground (arith, checks-at test {bound = bound} byte)
