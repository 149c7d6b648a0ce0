-- ===== src/Shared/Count.antt =====
-- How often a number stands in a list. "At most once" and "exactly one of two lists holds it" are
-- inequations between such counts, which `omega` reads.
use Prim.Native.Nat.{ℕ, zero, suc, ◌+◌}
use mathlib.Core.Path.{◌≡◌}
use mathlib.Core.Bool.{Bool, true, false}
use mathlib.Core.List.{List, [], ◌∷◌, ◌++◌}
use native.Mathlib.Omega.{arith}
use iftopcolor.Shared.Tests.{◌==◌, ltb, leb, if◌then◌else◌}

abbrev pub to_nat : Bool → ℕ
to_nat true = 1
to_nat false = 0

abbrev pub count : ℕ → List ℕ → ℕ
count a [] = 0
count a (x ∷ xs) = to_nat (x == a) + count a xs

pub count-append : (a : ℕ) (l r : List ℕ) → count a (l ++ r) ≡ count a l + count a r
count-append a [] r = omega arith
count-append a (b ∷ l) r = omega (arith, count-append a l r)

-- The numbers from `i` on, `n` of them.
unfoldable pub range : ℕ → ℕ → List ℕ
range i zero = []
range i (suc n) = i ∷ range (suc i) n

pub count-range :
    (a i n : ℕ) → count a (range i n) ≡ (if leb i a then to_nat (ltb a (i + n)) else 0)
unfolding range
count-range a i zero = ground arith
count-range a i (suc n) = ground (arith, count-range a (suc i) n)
