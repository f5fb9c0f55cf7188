-- ===== src/Base/Tables.antt =====
-- Facts about small ranges, by evaluating every case.
use Prim.Native.Nat.{ℕ, zero, suc, ◌<◌}
use mathlib.Core.Path.{◌≡◌}
use mathlib.Core.Bool.{Bool, true, ◌&&◌}
use native.Mathlib.Omega.{arith}

-- The test succeeds at each number below the bound.
unfoldable pub every_below : ℕ → (ℕ → Bool) → Bool
every_below zero test = true
every_below (suc bound) test = every_below bound test && test bound

pub every_below_lem :
    (bound : ℕ) (test : ℕ → Bool) (m : ℕ)
    → every_below bound test ≡ true
    → m < bound
    → test m ≡ true
unfolding every_below
every_below_lem zero test m passed inside = elim inside [ ]
every_below_lem (suc bound) test m passed inside = ground (arith, every_below_lem bound test m)
