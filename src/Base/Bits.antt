-- ===== src/Base/Bits.antt =====
-- Laws of the native bit operations over small ranges, by evaluation of every case.
use mathlib.Core.Bool.{Bool, true, ◌&&◌}
use mathlib.Core.Path.{◌≡◌}
use native.Mathlib.Omega.{arith}
use Prim.Native.Nat.{ℕ, zero, suc, ◌<◌}

-- The test passes on every number below the bound.
unfoldable pub passes : ℕ → (ℕ → Bool) → Bool
passes zero test = true
passes (suc bound) test = passes bound test && test bound

pub pass_at :
    (bound : ℕ) (test : ℕ → Bool) (i : ℕ) → passes bound test ≡ true → i < bound → test i ≡ true
unfolding passes
pass_at zero test i table in_range = absurd (omega arith)
pass_at (suc bound) test i table in_range = ground (arith, pass_at bound test i)
