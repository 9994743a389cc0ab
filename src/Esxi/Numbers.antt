-- ===== src/Esxi/Numbers.antt =====
-- `positiveNumber` of internal/esxi/inventory.go: a number that a command prints.
use esxi_mover.Prelude.{
  ℕ, ◌+◌, ◌*◌, ◌^◌, ◌-◌, Bool, Option, none, some, [], ◌∷◌, ◌&&◌, ◌==◌, leb, ltb, all,
  if◌then◌else◌,
}
use esxi_mover.Prelude.Text.{Text, text, trim_space}
use esxi_mover.Types.{failure, Reply, got, lost}

is_digit : ℕ → Bool
is_digit c = leb b'0' c && leb c b'9'

-- The value of some digits, and of those before them.
value_of : ℕ → Text → ℕ
value_of n [] = n
value_of n (c ∷ s) = value_of (n * 10 + (c - b'0')) s

-- Digits that an int64 can hold.
digits : Text → Option ℕ
unfolding is_digit value_of
digits [] = none
digits (c ∷ s) =
    let n = value_of 0 (c ∷ s) in if all is_digit (c ∷ s) && ltb n (2 ^ 63) then some n else none

zero_only : Option ℕ → Option ℕ
zero_only none = none
zero_only (some n) = if n == 0 then some 0 else none

-- strconv.Atoi and ParseInt to the base 10, where they do not fail and the number is not negative;
-- every caller refuses the others.
unfoldable pub natural : Text → Option ℕ
unfolding digits zero_only
natural [] = none
natural (c ∷ s) =
    if c == b'+' then digits s else if c == b'-' then zero_only (digits s) else digits (c ∷ s)

-- positiveNumber.
unfoldable pub positive_number : Text → Reply ℕ
unfolding natural trim_space text
positive_number s = elim (natural (trim_space s)) [
  | none ↦ lost (failure (text "unknown numeric output"))
  | some n ↦ got n
]
