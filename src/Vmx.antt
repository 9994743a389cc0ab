-- ===== src/Vmx.antt =====
-- internal/vmx/parser.go: the line-oriented configuration format, read and written.
pub mod Escape
pub mod Analysis
use mathlib.Core.List.{flat_map}
use esxi_mover.Prelude.{
  ℕ, ◌+◌, ◌^◌, Bool, true, Option, none, some, List, [], ◌∷◌, ◌++◌, ◌&&◌, ◌||◌, not, ltb, leb, ◌==◌,
  if◌then◌else◌, length, all,
}
use esxi_mover.Prelude.Text.{
  Text, text, ◌≟◌, to_lower, equal_fold, trim_space, has_prefix, cut, cut_prefix, split, decimal,
  sort_by,
}
use esxi_mover.Prelude.Dict.{lookup, has, put, remove, value}
use esxi_mover.Types.{failure, Reply, got, lost, and_then, check_that, Config}
use Escape.{decode, encode}

key_byte : ℕ → Bool
key_byte c =
    leb b'a' c && leb c b'z'
    || leb b'A' c && leb c b'Z'
    || leb b'0' c && leb c b'9'
    || c == b'_'
    || c == b'.'
    || c == b':'
    || c == b'-'

-- ` at line 12` behind an error.
at_line : Text → ℕ → Text
unfolding decimal text
at_line m n = m ++ text " at line " ++ decimal n

-- A key with the text behind its opening quote.
close_value : ℕ → Config → Text → Option (Text × Text) → Reply Config
unfolding at_line decode and_then check_that trim_space has_prefix has put text
close_value n c k none = lost (failure (at_line (text "unterminated value") n))
close_value n c k (some (raw, behind)) =
    let rest = trim_space behind in
    check_that (rest ≟ [] || has_prefix rest (b'#' ∷ []))
      (failure (at_line (text "trailing data") n))
      (elim (decode raw) [
        | lost e ↦ lost (failure (at_line (text "invalid escape") n))
        | got v ↦
            check_that (not (has c k)) (failure (text "duplicate key " ++ k)) (got (put c k v))
      ])

open_value : ℕ → Config → Text → Option Text → Reply Config
unfolding close_value cut at_line text
open_value n c k none = lost (failure (at_line (text "invalid configuration") n))
open_value n c k (some v) = close_value n c k (cut v (34 ∷ []))

add_pair : ℕ → Config → Option (Text × Text) → Reply Config
unfolding open_value cut_prefix trim_space to_lower key_byte check_that at_line text
add_pair n c none = lost (failure (at_line (text "invalid configuration") n))
add_pair n c (some (before, after)) =
    let k = to_lower (trim_space before) in
    check_that (not (k ≟ []) && all key_byte k) (failure (at_line (text "invalid configuration") n))
      (open_value n c k (cut_prefix (trim_space after) (34 ∷ [])))

-- One line, its surrounding space cut off.
unfoldable pub add_line : ℕ → Config → Text → Reply Config
unfolding add_pair cut has_prefix
add_line n c line =
    if line ≟ [] || has_prefix line (b'#' ∷ []) then got c else add_pair n c (cut line (b'=' ∷ []))

-- The scanner stops at a line of 1 MiB.
unfoldable pub add_lines : ℕ → Config → List Text → Reply Config
unfolding add_line trim_space check_that and_then text
add_lines n c [] = got c
add_lines n c (line ∷ rest) =
    check_that (ltb (length line) (2 ^ 20)) (failure (text "bufio.Scanner: token too long"))
      (and_then (add_line (n + 1) c (trim_space line)) λ d. add_lines (n + 1) d rest)

encoding_fits : Option Text → Bool
unfolding equal_fold text
encoding_fits none = true
encoding_fits (some e) = equal_fold e (text "UTF-8")

unfoldable pub parse : Text → Reply Config
unfolding add_lines and_then check_that lookup encoding_fits split text
parse s = and_then (add_lines 0 [] (split s 10)) λ c.
    check_that (not (length c == 0)) (failure (text "empty configuration")) (
      check_that (encoding_fits (lookup c (text ".encoding")))
        (failure (text "unsupported configuration encoding")) (got c))

print_entry : Text × Text → Text
unfolding encode text
print_entry (k, v) = k ++ text " = " ++ 34 ∷ encode v ++ 34 ∷ 10 ∷ []

entry_key : Text × Text → Text
entry_key (k, v) = k

-- `Config.String`: the entries in the order of their keys.
unfoldable pub print : Config → Text
unfolding print_entry entry_key sort_by
print c = flat_map print_entry (sort_by entry_key c)

-- `Config.True`.
unfoldable pub is_true : Config → Text → Bool
unfolding value to_lower equal_fold text
is_true c k = equal_fold (value c (to_lower k)) (text "true")

-- The generated runtime paths that `Rewrite` drops.
unfoldable pub runtime_keys : List Text
unfolding text
runtime_keys =
    text "sched.swap.derivedname"
    ∷ text "workingdir"
    ∷ text "snapshot.directory"
    ∷ text "checkpoint.vmstate"
    ∷ text "migrate.hostlog"
    ∷ text "log.filename"
    ∷ []

drop_keys : Config → List Text → Config
unfolding remove
drop_keys c [] = c
drop_keys c (k ∷ ks) = drop_keys (remove c k) ks

replace_all : Config → List (Text × Text) → Reply Config
unfolding has put check_that text
replace_all c [] = got c
replace_all c ((k, v) ∷ rs) =
    check_that (has c k) (failure (text "missing rewrite key " ++ k)) (replace_all (put c k v) rs)

-- `Rewrite`.
unfoldable pub rewrite : Config → List (Text × Text) → Reply Config
unfolding replace_all drop_keys runtime_keys and_then
rewrite c replacements = and_then (replace_all c replacements) λ d. got (drop_keys d runtime_keys)
