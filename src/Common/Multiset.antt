-- ===== src/Common/Multiset.antt =====
-- Lists of byte strings up to their order: how often each text stands in them.
use Prim.Native.Nat.{ℕ, ◌+◌}
use mathlib.Core.Path.{◌≡◌}
use mathlib.Core.List.{List, [], ◌∷◌, ◌++◌}
use native.Mathlib.Omega.{arith}
use mission_control_edge.Common.Tests.{if◌then◌else◌}
use mission_control_edge.Common.Equality.{Bytes, ◌==◌, bytes_eq}

abbrev pub count : Bytes → List Bytes → ℕ
count x [] = 0
count x (y ∷ ys) = (if y == x then 1 else 0) + count x ys

pub count-append : (x : Bytes) (a b : List Bytes) → count x (a ++ b) ≡ count x a + count x b
count-append x [] b = ground arith
count-append x (y ∷ ys) b = ground (arith, count-append x ys b)
