-- ===== src/Prelude/Table.antt =====
-- `HashMap` with text keys, as an association list with one entry for each key. The order of the
-- entries shows nowhere: the program asks for a key, for emptiness and for the number of entries.

use Prim.Native.String.{String}
use mathlib.Core.Path.{◌≡◌, refl}
use mathlib.Core.Bool.{Bool, true, false}
use mathlib.Core.Option.{Option, none, some}
use mathlib.Core.List.{List, [], ◌∷◌}
use native.Mathlib.Omega.{arith}
use text.Mathlib.Text.{◌==◌}
use text.Mathlib.TextEquality.{eq_iff}
use slan.Prelude.Tests.{if◌then◌else◌, is_some}
use slan.Prelude.Lists.{null}

abbrev pub Table {ℓ} : Type ℓ → Type ℓ
Table V = List (String × V)

module _ {ℓ} {V : Type ℓ} where
  abbrev pub empty : Table V
  empty = []

  unfoldable pub get : String → Table V → Option V
  get k [] = none
  get k ((j, v) ∷ m) = let rest = get k m in if j == k then some v else rest

  unfoldable pub remove : String → Table V → Table V
  remove k [] = []
  remove k ((j, v) ∷ m) = let rest = remove k m in if j == k then rest else (j, v) ∷ rest

  unfoldable pub insert : String → V → Table V → Table V
  unfolding remove
  insert k v m = (k, v) ∷ remove k m

  abbrev pub contains_key : String → Table V → Bool
  contains_key k m = is_some (get k m)

  pub get-remove :
      (k j : String) (m : Table V) → get j (remove k m) ≡ (if k == j then none else get j m)
  unfolding get remove
  get-remove k j [] = ground arith
  get-remove k j ((i, v) ∷ m) = ground (arith, get-remove k j m, eq_iff i k, eq_iff i j, eq_iff k j)

  pub get-insert :
      (k j : String) (v : V) (m : Table V)
      → get j (insert k v m) ≡ (if k == j then some v else get j m)
  unfolding get insert
  get-insert k j v m = ground (arith, get-remove k j m)

  pub get-remove_self : (k : String) (m : Table V) → get k (remove k m) ≡ none
  get-remove_self k m = ground (arith, get-remove k k m, eq_iff k k)

  pub get-insert_self : (k : String) (v : V) (m : Table V) → get k (insert k v m) ≡ some v
  get-insert_self k v m = ground (arith, get-insert k k v m, eq_iff k k)

  -- A table with an entry has a key.
  pub get-null : (k : String) (m : Table V) → null m ≡ true → get k m ≡ none
  unfolding get
  get-null k [] h = refl
  get-null k (e ∷ m) h = ground arith

  pub null-insert : (k : String) (v : V) (m : Table V) → null (insert k v m) ≡ false
  unfolding insert
  null-insert k v m = refl

  pub null_of_get : (k : String) {v : V} (m : Table V) → get k m ≡ some v → null m ≡ false
  unfolding get
  null_of_get k [] h = ground arith
  null_of_get k (e ∷ m) h = refl
