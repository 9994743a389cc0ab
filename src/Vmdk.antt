-- ===== src/Vmdk.antt =====
-- internal/vmdk/descriptor.go: the text descriptor of a virtual disk.
pub mod Laws
use mathlib.Core.List.{reverse}
use esxi_mover.Prelude.{
  ℕ, ◌+◌, ◌-◌, ◌*◌, ◌/◌, ◌^◌, Bool, false, Option, none, some, List, [], ◌∷◌, ◌++◌, ◌&&◌, ◌||◌, not,
  ltb, leb, ◌==◌, if◌then◌else◌, length, any, all,
}
use esxi_mover.Prelude.Text.{
  Text, text, ◌≟◌, to_lower, equal_fold, trim_space, has_prefix, has_suffix, contains, cut,
  cut_prefix, contains_any, split,
}
use esxi_mover.Prelude.Dict.{has, put, value}
use esxi_mover.Types.{failure, Reply, got, lost, and_then, check_that, Extent, Descriptor}

-- The longest prefix whose bytes pass a test, and the rest.
unfoldable pub span : (ℕ → Bool) → Text → Text × Text
span p [] = ([], [])
span p (c ∷ s) = let (a, b) = span p s in if p c then (c ∷ a, b) else ([], c ∷ s)

-- The same, where the prefix may not be empty.
span_some : (ℕ → Bool) → Text → Option (Text × Text)
unfolding span
span_some p s = let (a, b) = span p s in if a ≟ [] then none else some (a, b)

-- \s of Go's regular expressions.
regex_space : ℕ → Bool
regex_space c = c == 32 || c == 9 || c == 10 || c == 12 || c == 13

is_digit : ℕ → Bool
is_digit c = leb b'0' c && leb c b'9'

is_alnum : ℕ → Bool
unfolding is_digit
is_alnum c = is_digit c || leb b'a' c && leb c b'z' || leb b'A' c && leb c b'Z'

is_hex : ℕ → Bool
unfolding is_digit
is_hex c = is_digit c || leb b'a' c && leb c b'f' || leb b'A' c && leb c b'F'

file_byte : ℕ → Bool
file_byte c = not (c == 34 || c == 13 || c == 10)

field_byte : ℕ → Bool
unfolding is_alnum
field_byte c = is_alnum c || c == b'_' || c == b'.'

infixl 5 ◌>>=◌
◌>>=◌ : {A B : Type 0} → Option A → (A → Option B) → Option B
none >>= f = none
some a >>= f = f a

-- What may follow the closing quote: nothing, or space and a zero.
extent_end : Text → Option (Unit {0})
unfolding span_some regex_space
extent_end [] = some tt
extent_end (c ∷ s) = elim (span_some regex_space (c ∷ s)) [
  | none ↦ none
  | some (a, b) ↦ if b ≟ (b'0' ∷ []) then some tt else none
]

-- The three groups of `extentPattern`.
unfoldable pub match_extent : Text → Option (Text × Text × Text)
unfolding ◌>>=◌ span_some regex_space is_digit is_alnum file_byte extent_end cut_prefix text
match_extent line = do
  s₁ ← cut_prefix line (text "RW")
  (a, s₂) ← span_some regex_space s₁
  (digits, s₃) ← span_some is_digit s₂
  (b, s₄) ← span_some regex_space s₃
  (kind, s₅) ← span_some is_alnum s₄
  (c, s₆) ← span_some regex_space s₅
  s₇ ← cut_prefix s₆ (34 ∷ [])
  (file, s₈) ← span_some file_byte s₇
  s₉ ← cut_prefix s₈ (34 ∷ [])
  tail ← extent_end s₉
  some (digits, kind, file)

-- strconv.ParseInt of decimal digits, before the test of its range.
unfoldable pub number : ℕ → Text → ℕ
number n [] = n
number n (c ∷ s) = number (n * 10 + (c - 48)) s

abbrev pub max_int64 : ℕ
max_int64 = 2 ^ 63 - 1

empty_descriptor : Descriptor
empty_descriptor = record {
  cid = [];
  parent_cid = [];
  parent_hint = [];
  create_type = [];
  extents = [];
  thin = false;
  bytes = 0;
  fields = [];
}

unfoldable pub add_extent : Descriptor → Text × Text × Text → Reply Descriptor
unfolding number text check_that
add_extent d (digits, kind, file) =
    let n = number 0 digits in
    check_that (leb n max_int64 && not (n == 0) && leb n (max_int64 / 512 - d.bytes / 512))
      (failure (text "invalid virtual size"))
      (got (record d {
        extents = d.extents ++ (record { sectors = n; kind = kind; file = file }) ∷ [];
        bytes = d.bytes + n * 512;
      }))

quote : Text
quote = 34 ∷ []

drop_first : Text → Text
drop_first [] = []
drop_first (c ∷ s) = s

-- The value of a field, without its quotes.
unquote : Text → Reply Text
unfolding check_that has_prefix has_suffix contains drop_first quote text
unquote v =
    let inner = reverse (drop_first (reverse (drop_first v))) in
    if has_prefix v quote
    then check_that (leb 2 (length v) && has_suffix v quote)
        (failure (text "invalid quoted descriptor value"))
        (check_that (not (contains inner quote)) (failure (text "ambiguous descriptor value"))
          (got inner))
    else got v

add_field : Descriptor → Option (Text × Text) → Reply Descriptor
unfolding check_that and_then trim_space to_lower field_byte has put unquote text
add_field d none = lost (failure (text "unrecognized descriptor syntax"))
add_field d (some (before, after)) =
    let k = to_lower (trim_space before) in
    let v = trim_space after in
    check_that (not (k ≟ []) && all field_byte k && not (v ≟ []))
      (failure (text "unrecognized descriptor syntax"))
      (and_then (unquote v) λ w.
        check_that (not (has d.fields k)) (failure (text "duplicate descriptor field"))
          (got (record d { fields = put d.fields k w })))

-- One line of the file, its surrounding space cut off.
unfoldable pub add_line : Descriptor → Text → Reply Descriptor
unfolding match_extent add_extent add_field cut has_prefix
add_line d line =
    if line ≟ [] || has_prefix line (b'#' ∷ []) then got d else elim (match_extent line) [
      | some groups ↦ add_extent d groups
      | none ↦ add_field d (cut line (b'=' ∷ []))
    ]

-- The scanner stops at a line of 64 KiB.
unfoldable pub add_lines : Descriptor → List Text → Reply Descriptor
unfolding add_line trim_space check_that and_then text
add_lines d [] = got d
add_lines d (line ∷ rest) =
    check_that (ltb (length line) 65536) (failure (text "bufio.Scanner: token too long"))
      (and_then (add_line d (trim_space line)) λ e. add_lines e rest)

is_cid : Text → Bool
unfolding is_hex
is_cid s = length s == 8 && all is_hex s

-- The named fields, and what every descriptor must have.
-- The message on the version does not quote it.
unfoldable pub finish : Descriptor → Reply Descriptor
unfolding check_that value is_cid text
finish d =
    let named = record d {
      cid = value d.fields (text "cid");
      parent_cid = value d.fields (text "parentcid");
      parent_hint = value d.fields (text "parentfilenamehint");
      create_type = value d.fields (text "createtype");
      thin = value d.fields (text "ddb.thinprovisioned") ≟ (b'1' ∷ []);
    } in
    let version = value d.fields (text "version") in
    check_that (version ≟ (b'1' ∷ []) || version ≟ (b'2' ∷ []) || version ≟ (b'3' ∷ []))
      (failure (text "unsupported descriptor version"))
      (check_that
        (is_cid named.cid
          && is_cid named.parent_cid
          && not (length named.extents == 0)
          && not (named.create_type ≟ []))
        (failure (text "incomplete or invalid descriptor")) (got named))

unfoldable pub parse : Text → Reply Descriptor
unfolding add_lines finish check_that and_then contains_any split empty_descriptor text
parse s =
    check_that (leb (length s) (2 ^ 20) && not (contains_any s (0 ∷ [])))
      (failure (text "binary or oversized descriptor"))
      (and_then (add_lines empty_descriptor (split s 10)) finish)

has_secret : Text × Text → Bool
unfolding contains text
has_secret (k, v) = contains k (text "encrypt") || contains k (text "keyid")

one_vmfs : List Extent → Bool
unfolding text
one_vmfs (e ∷ []) = e.kind ≟ text "VMFS"
one_vmfs _ = false

-- `Descriptor.Standalone`.
unfoldable pub standalone : Descriptor → Reply (Unit {0})
unfolding check_that equal_fold one_vmfs has_secret text
standalone d =
    check_that (equal_fold d.parent_cid (text "ffffffff") && d.parent_hint ≟ [])
      (failure (text "snapshot/linked-clone parent chain"))
      (check_that (d.create_type ≟ text "vmfs")
        (failure (
          text "unsupported disk createType "
          ++ d.create_type
          ++ text " (snapshot, RDM or non-VMFS disk)"))
        (check_that (one_vmfs d.extents)
          (failure (text "only a single standard VMFS extent is supported"))
          (check_that (not (any has_secret d.fields)) (failure (text "encrypted descriptor"))
            (got tt))))
