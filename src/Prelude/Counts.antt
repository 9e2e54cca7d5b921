-- ===== src/Prelude/Counts.antt =====
-- How often a number stands in a list: two lists that agree on it for every number hold the same
-- things.
use Prim.Native.Nat.{ℕ, ◌+◌}
use mathlib.Core.Path.{◌≡◌, refl}
use mathlib.Core.List.{List, [], ◌∷◌, ◌++◌}
use native.Mathlib.Omega.{arith}
use turbocat.Prelude.Tests.{◌==◌, if◌then◌else◌}

unfoldable pub times : ℕ → List ℕ → ℕ
times k [] = 0
times k (i ∷ ids) = (if i == k then 1 else 0) + times k ids

pub times-nil : (k : ℕ) → times k [] ≡ 0
unfolding times
times-nil k = refl

pub times-cons :
    (k i : ℕ) (ids : List ℕ) → times k (i ∷ ids) ≡ (if i == k then 1 else 0) + times k ids
unfolding times
times-cons k i ids = refl

pub times-append : (k : ℕ) (xs ys : List ℕ) → times k (xs ++ ys) ≡ times k xs + times k ys
unfolding times
times-append k [] ys = omega arith
times-append k (x ∷ xs) ys = omega (arith, times-append k xs ys)
