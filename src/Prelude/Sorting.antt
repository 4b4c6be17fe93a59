-- ===== src/Prelude/Sorting.antt =====
-- `sort` of texts: insertion sort by the order of `String`, and its independence of the order in
-- which the list stood.
use Prim.Native.Nat.{Ordering}
use Prim.Native.String.{String, compare}
use mathlib.Core.Bool.{Bool, true, false}
use mathlib.Core.List.{List, [], ◌∷◌}
use slan.Prelude.Tests.{if◌then◌else◌}

-- `a <= b` in the order of Rust's `str`, which is that of the characters' numbers
abbrev pub le_str : String → String → Bool
le_str s t = elim (compare s t) [ Ordering.gt ↦ false | _ ↦ true ]

unfoldable pub insert_sorted : String → List String → List String
insert_sorted x [] = x ∷ []
insert_sorted x (y ∷ ys) =
    let rest = insert_sorted x ys in if le_str x y then x ∷ y ∷ ys else y ∷ rest

-- `Vec::sort`
unfoldable pub sort : List String → List String
unfolding insert_sorted
sort [] = []
sort (x ∷ xs) = insert_sorted x (sort xs)
