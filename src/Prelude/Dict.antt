-- ===== src/Prelude/Dict.antt =====
-- Go's map[string]string as an association list: the first entry of a key is its value. The
-- sources sort the keys before any order shows.
use mathlib.Core.Path.{◌≡◌, refl}
use mathlib.Core.Bool.{Bool}
use mathlib.Core.Option.{Option, none, some}
use mathlib.Core.List.{List, [], ◌∷◌}
use native.Mathlib.Omega.{arith}
use esxi_mover.Prelude.Tests.{if◌then◌else◌, get_or}
use esxi_mover.Prelude.Text.{Text, ◌≟◌, ≟_iff, is_some}

module _ {V : Type 0} where
  unfoldable pub lookup : List (Text × V) → Text → Option V
  lookup [] k = none
  lookup ((j, v) ∷ m) k = if j ≟ k then some v else lookup m k

  unfoldable pub has : List (Text × V) → Text → Bool
  unfolding lookup is_some
  has m k = is_some (lookup m k)

  -- m[k] = v
  unfoldable pub put : List (Text × V) → Text → V → List (Text × V)
  put [] k v = (k, v) ∷ []
  put ((j, w) ∷ m) k v = let rest = put m k v in if j ≟ k then (k, v) ∷ m else (j, w) ∷ rest

  -- delete(m, k)
  unfoldable pub remove : List (Text × V) → Text → List (Text × V)
  remove [] k = []
  remove ((j, w) ∷ m) k = let rest = remove m k in if j ≟ k then rest else (j, w) ∷ rest

  pub lookup-put :
      (m : List (Text × V)) (k j : Text) (v : V)
      → lookup (put m k v) j ≡ (if k ≟ j then some v else lookup m j)
  unfolding lookup put
  lookup-put [] k j v = refl
  lookup-put ((i, w) ∷ m) k j v =
      ground (arith, ≟_iff i k, ≟_iff k j, ≟_iff i j, lookup-put m k j v)

  pub lookup-remove :
      (m : List (Text × V)) (k j : Text)
      → lookup (remove m k) j ≡ (if k ≟ j then none else lookup m j)
  unfolding lookup remove
  lookup-remove [] k j = ground arith
  lookup-remove ((i, w) ∷ m) k j =
      ground (arith, ≟_iff i k, ≟_iff k j, ≟_iff i j, lookup-remove m k j)

-- m[k], the empty text if there is none.
unfoldable pub value : List (Text × Text) → Text → Text
unfolding lookup
value m k = get_or (lookup m k) []
