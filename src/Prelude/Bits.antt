-- ===== src/Prelude/Bits.antt =====
-- Facts about `bit_and`, `bit_or` and `bit_xor` over a byte, from tables checked by evaluation.
use Prim.Native.Nat.{ℕ, zero, suc, ◌<◌}
use mathlib.Core.Path.{◌≡◌}
use mathlib.Core.Bool.{Bool, true, ◌&&◌}
use native.Mathlib.Omega.{arith}

-- A test that holds at every number below `bound`, which evaluation settles.
unfoldable pub holds_below : (ℕ → Bool) → ℕ → Bool
holds_below test zero = true
holds_below test (suc bound) = holds_below test bound && test bound

pub holds_below_at :
    (test : ℕ → Bool) (bound x : ℕ) → holds_below test bound ≡ true → x < bound → test x ≡ true
unfolding holds_below
holds_below_at test zero x h lt = absurd (omega arith)
holds_below_at test (suc bound) x h lt = ground (arith, holds_below_at test bound x)
