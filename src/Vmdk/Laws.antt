-- ===== src/Vmdk/Laws.antt =====
-- The size of a descriptor that was read.
use esxi_mover.Prelude.{
  ℕ, ◌+◌, ◌-◌, ◌*◌, ◌/◌, ◌≤◌, ◌≡◌, refl, subst, Bool, true, false, Option, none, some, List, [],
  ◌∷◌, ◌++◌, ◌&&◌, ◌||◌, not, leb, ◌==◌, arith, Bool-cases, inl, inr,
}
use esxi_mover.Prelude.Text.{Text, ◌≟◌, has_prefix, cut, trim_space, to_lower, split}
use esxi_mover.Prelude.Dict.{put}
use esxi_mover.Types.{Err, Reply, got, lost, and_then, check_that, Extent, Descriptor}
use esxi_mover.Vmdk.{
  max_int64, number, add_extent, unquote, add_field, add_line, add_lines, match_extent, finish,
  parse, empty_descriptor,
}

-- All the sectors of the extents.
unfoldable pub sectors : List Extent → ℕ
sectors [] = 0
sectors (e ∷ es) = e.sectors + sectors es

-- The size is what the extents hold, and a signed 64-bit integer.
abbrev pub IsSized : Descriptor → Type 0
IsSized d = (d.bytes ≡ sectors d.extents * 512) × (d.bytes ≤ max_int64)

sectors-append : (es : List Extent) (e : Extent) → sectors (es ++ e ∷ []) ≡ sectors es + e.sectors
unfolding sectors
sectors-append [] e = omega arith
sectors-append (f ∷ es) e = let rest = sectors-append es e in omega arith

-- A reader that fails, or whose descriptor has the size of its extents.
abbrev Holds : Reply Descriptor → Type 0
Holds (got d) = IsSized d
Holds (lost e) = Unit

record SizedReply (r : Reply Descriptor) : Type 0 where
  holds : Holds r

got-Sized : (d : Descriptor) → IsSized d → SizedReply (got d)
got-Sized d h = record { holds = h }

fits_lem :
    (n b : ℕ)
    → (leb n max_int64 && not (n == 0) && leb n (max_int64 / 512 - b / 512)) ≡ true
    → n ≤ max_int64 / 512 - b / 512
fits_lem n b h = ground arith

extent-Sized :
    (d : Descriptor) (groups : Text × Text × Text) → IsSized d → SizedReply (add_extent d groups)
unfolding add_extent check_that
extent-Sized d (digits, kind, file) h =
    elim (Bool-cases (
      leb (number 0 digits) max_int64
      && not (number 0 digits == 0)
      && leb (number 0 digits) (max_int64 / 512 - d.bytes / 512))) [
        | inr bad ↦ rw bad (record { holds = tt })
        | inl good ↦
            let (same, small) = h in
            let fits = fits_lem (number 0 digits) d.bytes good in
            let sum =
              sectors-append d.extents
                (record { sectors = number 0 digits; kind = kind; file = file }) in
            rw good (record { holds = rw sum (omega arith, omega arith) })
      ]

and_then-Sized :
    {A : Type 0} (r : Reply A) (f : A → Reply Descriptor)
    → ((a : A) → SizedReply (f a))
    → SizedReply (and_then r f)
unfolding and_then
and_then-Sized (got a) f h = h a
and_then-Sized (lost e) f h = record { holds = tt }

check_that-Sized :
    (b : Bool) (e : Err) (r : Reply Descriptor) → SizedReply r → SizedReply (check_that b e r)
unfolding check_that
check_that-Sized true e r h = h
check_that-Sized false e r h = record { holds = tt }

field-Sized : (d : Descriptor) (x : Option (Text × Text)) → IsSized d → SizedReply (add_field d x)
unfolding add_field
field-Sized d none h = record { holds = tt }
field-Sized d (some (before, after)) h = check_that-Sized _ _ _ (
    and_then-Sized (unquote (trim_space after)) _ λ w.
      check_that-Sized _ _ _
        (got-Sized (record d { fields = put d.fields (to_lower (trim_space before)) w }) h))

line-Sized : (d : Descriptor) (line : Text) → IsSized d → SizedReply (add_line d line)
unfolding add_line
line-Sized d line h = elim (Bool-cases (line ≟ [] || has_prefix line (b'#' ∷ []))) [
  | inl skip ↦ rw skip (got-Sized d h)
  | inr used ↦ rw used (matched (match_extent line))
]
  where
    matched :
        (x : Option (Text × Text × Text))
        → SizedReply (elim x [
          | some groups ↦ add_extent d groups
          | none ↦ add_field d (cut line (b'=' ∷ []))
        ])
    matched none = field-Sized d _ h
    matched (some groups) = extent-Sized d groups h

bind-Sized :
    (r : Reply Descriptor) (f : Descriptor → Reply Descriptor)
    → SizedReply r
    → ((d : Descriptor) → IsSized d → SizedReply (f d))
    → SizedReply (and_then r f)
unfolding and_then
bind-Sized (got d) f h k = k d h.holds
bind-Sized (lost e) f h k = record { holds = tt }

lines-Sized : (d : Descriptor) (ls : List Text) → IsSized d → SizedReply (add_lines d ls)
unfolding add_lines
lines-Sized d [] h = got-Sized d h
lines-Sized d (line ∷ ls) h =
    check_that-Sized _ _ _
      (bind-Sized _ _ (line-Sized d (trim_space line) h) λ e k. lines-Sized e ls k)

finish-Sized : (d : Descriptor) → IsSized d → SizedReply (finish d)
unfolding finish
finish-Sized d h = check_that-Sized _ _ _ (check_that-Sized _ _ _ (got-Sized _ h))

empty-IsSized : IsSized empty_descriptor
unfolding empty_descriptor sectors
empty-IsSized = (refl, omega arith)

parse-Sized : (s : Text) → SizedReply (parse s)
unfolding parse
parse-Sized s = check_that-Sized _ _ _ (
    bind-Sized (add_lines empty_descriptor (split s 10)) finish
      (lines-Sized empty_descriptor (split s 10) empty-IsSized) λ d h. finish-Sized d h)

-- A descriptor that the reader accepts has 512 bytes for each sector of its extents, and their number
-- fits a signed 64-bit integer.
pub parse-IsSized : (s : Text) (d : Descriptor) → parse s ≡ got d → IsSized d
parse-IsSized s d h = (subst SizedReply h (parse-Sized s)).holds
