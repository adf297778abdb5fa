-- ===== src/Base/Sets.antt =====
-- `Set` over a list without repetitions, of numbers.
use Prim.Native.Nat.{ℕ}
use mathlib.Core.Bool.{Bool, not}
use mathlib.Core.List.{List, [], ◌∷◌, ◌++◌}
use sandking.Base.Tests.{◌==◌, if◌then◌else◌}
use sandking.Base.Lists.{any, filter}

abbrev pub has : ℕ → List ℕ → Bool
has k = any (λ j. j == k)

abbrev pub add : ℕ → List ℕ → List ℕ
add k ks = if has k ks then ks else ks ++ k ∷ []

abbrev pub delete : ℕ → List ℕ → List ℕ
delete k = filter (λ j. not (j == k))
