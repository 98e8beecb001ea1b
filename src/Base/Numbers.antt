-- ===== src/Base/Numbers.antt =====
-- Products and quotients of native numbers.
use Prim.Native.Nat.{ℕ, ◌+◌, ◌-◌, ◌*◌, ◌≤◌}
use mathlib.Core.Path.{◌≡◌, ap}
use native.Mathlib.Omega.{arith}

pub mul-sub-add : (a b r : ℕ) → a ≤ b → (b - a) * r + a * r ≡ b * r
mul-sub-add a b r h = let e : b - a + a ≡ b = omega arith in omega (arith, ap (λ (t : ℕ). t * r) e)

pub mul-le-mul : (a b r : ℕ) → a ≤ b → a * r ≤ b * r
mul-le-mul a b r h = grind arith
