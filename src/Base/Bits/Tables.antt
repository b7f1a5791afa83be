-- ===== src/Base/Bits/Tables.antt =====
-- Facts over a small range, settled by running through it.
use Prim.Native.Nat.{ℕ, zero, suc, ◌<◌}
use mathlib.Core.Path.{◌≡◌}
use mathlib.Core.Bool.{Bool, true, ◌&&◌}
use native.Mathlib.Omega.{arith}
use stockfish.Base.Tests.{◌==◌, ==_iff}

-- The test passes at every number below the bound.
unfoldable pub passes_below : ℕ → (ℕ → Bool) → Bool
passes_below zero test = true
passes_below (suc n) test = test n && passes_below n test

pub passes_below_sound :
    (n : ℕ) (test : ℕ → Bool) (x : ℕ) → passes_below n test ≡ true → x < n → test x ≡ true
unfolding passes_below
passes_below_sound zero test x h k = absurd (omega arith)
passes_below_sound (suc n) test x h k = ground (arith, passes_below_sound n test x)

-- The same over two ranges: an equation between two functions of two small numbers.
unfoldable pub equal_on_grid : ℕ → ℕ → (ℕ → ℕ → ℕ) → (ℕ → ℕ → ℕ) → Bool
unfolding passes_below
equal_on_grid m n f g = passes_below m (λ x. passes_below n (λ y. f x y == g x y))

pub equal_on_grid_sound :
    (m n : ℕ) (f g : ℕ → ℕ → ℕ) (x y : ℕ)
    → equal_on_grid m n f g ≡ true
    → x < m
    → y < n
    → f x y ≡ g x y
unfolding equal_on_grid
equal_on_grid_sound m n f g x y h hx hy = (==_iff (f x y) (g x y)).0 (
    passes_below_sound n (λ y. f x y == g x y) y
      (passes_below_sound m (λ x. passes_below n (λ y. f x y == g x y)) x h hx) hy)
