-- ===== src/Prelude/Path.antt =====
-- The functions of Go's package path that the sources call, over the parts between slashes.
use Prim.Native.Nat.{ℕ}
use mathlib.Core.Bool.{Bool, ◌&&◌, ◌||◌, not}
use mathlib.Core.List.{List, [], ◌∷◌, ◌++◌, reverse}
use esxi_mover.Prelude.Tests.{◌==◌, if◌then◌else◌}
use esxi_mover.Prelude.Text.{Text, ◌≟◌, has_prefix, split, join}

unfoldable pub is_abs : Text → Bool
unfolding has_prefix
is_abs p = has_prefix p (b'/' ∷ [])

-- One part of path.Clean: the parts kept so far stand last first.
clean_part : Bool → List Text → Text → List Text
unfolding ◌≟◌
clean_part rooted [] w =
    if w ≟ [] || w ≟ (b'.' ∷ []) || w ≟ (b'.' ∷ b'.' ∷ []) && rooted then [] else w ∷ []
clean_part rooted (top ∷ kept) w =
    if w ≟ [] || w ≟ (b'.' ∷ [])
    then top ∷ kept
    else if w ≟ (b'.' ∷ b'.' ∷ []) && not (top ≟ (b'.' ∷ b'.' ∷ []))
    then kept
    else w ∷ top ∷ kept

clean_parts : Bool → List Text → List Text → List Text
unfolding clean_part
clean_parts rooted kept [] = reverse kept
clean_parts rooted kept (w ∷ ws) = clean_parts rooted (clean_part rooted kept w) ws

or_dot : Text → Text
or_dot [] = b'.' ∷ []
or_dot (c ∷ s) = c ∷ s

-- path.Clean.
unfoldable pub clean : Text → Text
unfolding clean_parts or_dot is_abs split join
clean p =
    let body = join (clean_parts (is_abs p) [] (split p b'/')) (b'/' ∷ []) in
    if is_abs p then b'/' ∷ body else or_dot body

-- path.Join: empty elements are skipped, and the result is cleaned.
unfoldable pub path_join : Text → Text → Text
unfolding clean
path_join [] [] = []
path_join [] (c ∷ s) = clean (c ∷ s)
path_join (c ∷ s) [] = clean (c ∷ s)
path_join (c ∷ s) (d ∷ t) = clean ((c ∷ s) ++ b'/' ∷ d ∷ t)

drop_empty : List Text → List Text
drop_empty [] = []
drop_empty ([] ∷ ws) = drop_empty ws
drop_empty ((c ∷ w) ∷ ws) = (c ∷ w) ∷ ws

last_part : List Text → Text
last_part [] = b'/' ∷ []
last_part (w ∷ ws) = w

-- path.Base: the last part that is not empty, "." of an empty path.
unfoldable pub base : Text → Text
unfolding drop_empty last_part split
base [] = b'.' ∷ []
base (c ∷ s) = last_part (drop_empty (reverse (split (c ∷ s) b'/')))

before_last : List Text → List Text
before_last [] = []
before_last (w ∷ ws) = ws

-- path.Dir: all up to the last slash, cleaned.
unfoldable pub dir : Text → Text
unfolding before_last clean split join
dir p = clean (join (reverse ([] ∷ before_last (reverse (split p b'/')))) (b'/' ∷ []))

ext_from : Text → List ℕ → Text
ext_from acc [] = []
ext_from acc (c ∷ s) =
    let rest = ext_from (c ∷ acc) s in if c == b'/' then [] else if c == b'.' then c ∷ acc else rest

-- path.Ext: from the last dot of the last part.
unfoldable pub ext : Text → Text
unfolding ext_from
ext p = ext_from [] (reverse p)
