-- ===== src/Esxi/Paths.antt =====
-- internal/esxi/inventory.go: paths on datastores, and TargetPath of internal/esxi/detached.go.
use esxi_mover.Prelude.{
  Bool, false, Option, none, some, List, [], ◌∷◌, ◌++◌, ◌&&◌, ◌||◌, not, ltb, length, if◌then◌else◌,
  any,
}
use esxi_mover.Prelude.Text.{Text, text, ◌≟◌, has_prefix, contains_any, cut, cut_prefix, split}
use esxi_mover.Prelude.Path.{is_abs, path_join}
use esxi_mover.Types.{failure, Reply, got, lost, check_that, Datastore}

-- SupportedVMFS and Datastore.Usable.
unfoldable pub usable : Datastore → Bool
unfolding text
usable d = d.mounted && (d.kind ≟ text "VMFS-5" || d.kind ≟ text "VMFS-6")

-- DatastoreOf.
unfoldable pub datastore_of : Text → List Datastore → Option Datastore
unfolding has_prefix path_join text
datastore_of p [] = none
datastore_of p (d ∷ ds) =
    if has_prefix p (path_join (text "/vmfs/volumes") d.uuid ++ b'/' ∷ [])
    then some d
    else datastore_of p ds

is_dots : Text → Bool
is_dots w = w ≟ (b'.' ∷ b'.' ∷ []) || w ≟ (b'.' ∷ [])

-- True for a path that `ValidPath` accepts.
unfoldable pub valid_path : Text → Bool
unfolding is_dots contains_any split
valid_path p =
    not (p ≟ []) && not (contains_any p (0 ∷ 13 ∷ 10 ∷ 92 ∷ [])) && not (any is_dots (split p b'/'))

-- The loop over the datastores: one name may not mean two of them.
unfoldable pub find_named : Text → Text → Text → List Datastore → Reply Text
unfolding ◌≟◌ text check_that path_join
find_named name rest found [] =
    if found ≟ [] then lost (failure (text "referenced datastore not found")) else got found
find_named name rest found (d ∷ ds) =
    let hit = find_named name rest (path_join (path_join (text "/vmfs/volumes") d.uuid) rest) ds in
    let miss = find_named name rest found ds in
    if d.name ≟ name || d.uuid ≟ name
    then check_that (found ≟ []) (failure (text "ambiguous datastore name")) hit
    else miss

-- A reference `[name] rest`: its name, at least one byte long, and what stands behind the bracket.
named_reference : Option (Text × Text) → List Datastore → Reply Text
unfolding check_that is_abs find_named text
named_reference none ds = lost (failure (text "invalid datastore reference"))
named_reference (some (name, rest)) ds =
    check_that (ltb 0 (length name)) (failure (text "invalid datastore reference")) (
      check_that (not (is_abs rest) && not (rest ≟ []))
        (failure (text "invalid relative datastore reference")) (find_named name rest [] ds))

reference_from : Text → Text → List Datastore → Option Text → Reply Text
unfolding named_reference is_abs has_prefix check_that cut path_join text
reference_from ref dir ds (some inner) = named_reference (cut inner (text "] ")) ds
reference_from ref dir ds none =
    if is_abs ref
    then check_that (has_prefix ref (text "/vmfs/volumes/"))
        (failure (text "reference outside datastores")) (got ref)
    else check_that (not (dir ≟ [])) (failure (text "relative path has no base directory"))
        (got (path_join dir ref))

-- ResolveReference.
unfoldable pub resolve_reference : Text → Text → List Datastore → Reply Text
unfolding reference_from cut_prefix valid_path check_that text
resolve_reference ref dir ds =
    check_that (valid_path ref) (failure (text "path is unsupported"))
      (reference_from ref dir ds (cut_prefix ref (b'[' ∷ [])))

two_parts : List Text → Bool
unfolding has_prefix
two_parts (a ∷ b ∷ []) = not (a ≟ []) && not (b ≟ []) && not (has_prefix b (b'.' ∷ []))
two_parts _ = false

below_volumes : Option Text → Bool
unfolding two_parts split
below_volumes none = false
below_volumes (some rest) = two_parts (split rest b'/')

-- TargetPath: a direct child of a datastore, and no hidden one.
unfoldable pub target_path : Text → Bool
unfolding below_volumes valid_path cut_prefix text
target_path p = valid_path p && below_volumes (cut_prefix p (text "/vmfs/volumes/"))
