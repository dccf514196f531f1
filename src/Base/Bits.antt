-- ===== src/Base/Bits.antt =====
-- Facts on bit operations over a byte are tables that evaluation checks; `read_table` looks one up.
use Prim.Native.Nat.{ℕ, zero, suc, ◌<◌}
use mathlib.Core.Path.{◌≡◌}
use mathlib.Core.Bool.{Bool, true, false}
use native.Mathlib.Omega.{arith}
use wasapi.Base.Tests.{if◌then◌else◌}

-- The test passes at each of the first `count` numbers.
unfoldable pub table : ℕ → (ℕ → Bool) → Bool
table zero test = true
table (suc count) test = let earlier = table count test in if test count then earlier else false

pub read_table :
    (test : ℕ → Bool) (count entry : ℕ)
    → table count test ≡ true
    → entry < count
    → test entry ≡ true
unfolding table
read_table test zero entry checked small = absurd (omega arith)
read_table test (suc count) entry checked small = ground (arith, read_table test count entry)
