-- ===== src/Esxi/SnapshotTree.antt =====
-- SnapshotNames of internal/esxi/snapshot.go: the names in what `vim-cmd vmsvc/snapshot.get` prints.
use esxi_mover.Prelude.{
  Bool, true, false, Option, none, some, List, [], ◌∷◌, ◌++◌, ◌||◌, ◌==◌, map, if◌then◌else◌,
}
use esxi_mover.Prelude.Text.{Text, text, ◌≟◌, trim_space, trim_left, cut_prefix, split}
use esxi_mover.Types.{failure, Reply, got, lost}

-- `-+` of the patterns: at least one dash, and then all that follow.
skip_dashes : Text → Text
skip_dashes [] = []
skip_dashes (c ∷ s) = let rest = skip_dashes s in if c == b'-' then rest else c ∷ s

behind_dashes : Text → Option Text
unfolding skip_dashes
behind_dashes [] = none
behind_dashes (c ∷ s) = if c == b'-' then some (skip_dashes s) else none

-- `\s*:` and then the rest of the line.
behind_colon : Text → Option Text
unfolding trim_left cut_prefix
behind_colon s = cut_prefix (trim_left s) (b':' ∷ [])

and_behind : Option Text → Text → Option Text
unfolding cut_prefix behind_colon
and_behind none word = none
and_behind (some s) word = elim (cut_prefix s word) [ none ↦ none | some r ↦ behind_colon r ]

-- The pattern `treeName`.
unfoldable pub tree_name : Text → Option Text
unfolding and_behind behind_dashes text
tree_name t = and_behind (behind_dashes t) (text "Snapshot Name")

is_field : Option Text → Text → Bool
unfolding and_behind
is_field s word = elim (and_behind s word) [ none ↦ false | some r ↦ true ]

-- The pattern `treeField`.
unfoldable pub tree_field : Text → Bool
unfolding is_field behind_dashes text
tree_field t =
    is_field (behind_dashes t) (text "Snapshot Id")
    || is_field (behind_dashes t) (text "Snapshot Desciption")
    || is_field (behind_dashes t) (text "Snapshot Description")
    || is_field (behind_dashes t) (text "Snapshot Created On")
    || is_field (behind_dashes t) (text "Snapshot State")

-- One kind of line; `strange` is the default of the switch.
pub data Line : Type 0 where
  blank header root field strange : Line
  name : Text → Line

named_line : Option Text → Text → Line
unfolding tree_field trim_space
named_line (some r) t = name (trim_space r)
named_line none t = if tree_field t then field else strange

unfoldable pub classify : Text → Line
unfolding named_line tree_name text
classify t =
    if t ≟ [] || t ≟ text "No snapshots."
    then blank
    else if t ≟ text "Get Snapshot:"
    then header
    else if t ≟ text "|-ROOT"
    then root
    else named_line (tree_name t) t

unrecognized : Reply (List Text)
unfolding text
unrecognized = lost (failure (text "unrecognized snapshot tree"))

-- The loop over the lines.
unfoldable pub read_lines : List Line → Bool → List Text → Reply (List Text)
unfolding unrecognized
read_lines [] seen names = if seen then got names else unrecognized
read_lines (blank ∷ ls) seen names = read_lines ls seen names
read_lines (header ∷ ls) seen names = read_lines ls true names
read_lines (root ∷ ls) seen names = read_lines ls seen names
read_lines (field ∷ ls) seen names = read_lines ls seen names
read_lines (strange ∷ ls) seen names = unrecognized
read_lines (name n ∷ ls) seen names = read_lines ls seen (names ++ n ∷ [])

unfoldable pub lines_of : Text → List Line
unfolding classify split trim_space
lines_of s = map (λ line. classify (trim_space line)) (split s 10)

unfoldable pub snapshot_names : Text → Reply (List Text)
unfolding read_lines lines_of
snapshot_names s = read_lines (lines_of s) false []
