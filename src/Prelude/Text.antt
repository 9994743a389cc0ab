-- ===== src/Prelude/Text.antt =====
-- Go strings as lists of bytes, and the functions of packages strings and path that the sources
-- call. Case and white space are those of ASCII.
use Prim.Native.Char.{code}
use Prim.Native.String.{String}
use Prim.Native.Nat.{ℕ, zero, suc, ◌+◌, ◌-◌, ◌/◌, ◌%◌}
use mathlib.Core.Path.{◌≡◌, refl, subst}
use mathlib.Core.Logic.{◌↔◌}
use mathlib.Core.Bool.{Bool, true, false, ◌&&◌, ◌||◌}
use mathlib.Core.Option.{Option, none, some}
use mathlib.Core.List.{List, [], ◌∷◌, ◌++◌, map, reverse}
use native.Mathlib.Omega.{arith}
use esxi_mover.Prelude.Tests.{ltb, leb, ◌==◌, if◌then◌else◌, any, length}

abbrev pub Text : Type 0
Text = List ℕ

-- The bytes of a literal.
unfoldable pub text : String → Text
text String.[] = []
text (String.◌∷◌ c s) = code c ∷ text s

infix 50 ◌≟◌
unfoldable pub ◌≟◌ : Text → Text → Bool
[] ≟ [] = true
[] ≟ (y ∷ ys) = false
(x ∷ xs) ≟ [] = false
(x ∷ xs) ≟ (y ∷ ys) = x == y && xs ≟ ys

pub ≟-sound : (a b : Text) → (a ≟ b) ≡ true → a ≡ b
unfolding ◌≟◌
≟-sound [] [] h = refl
≟-sound [] (y ∷ ys) h = cc
≟-sound (x ∷ xs) [] h = cc
≟-sound (x ∷ xs) (y ∷ ys) h = ground (arith, ≟-sound xs ys)

≟-refl : (a : Text) → (a ≟ a) ≡ true
unfolding ◌≟◌
≟-refl [] = refl
≟-refl (x ∷ xs) = ground (arith, ≟-refl xs)

-- The test is the equality of texts.
pub ≟_iff : (a b : Text) → ((a ≟ b) ≡ true) ↔ (a ≡ b)
≟_iff a b = (≟-sound a b, λ e. subst (λ c. (a ≟ c) ≡ true) e (≟-refl a))

-- strings.ToLower and strings.EqualFold.
unfoldable pub lower_byte : ℕ → ℕ
lower_byte c = if leb b'A' c && leb c b'Z' then c + 32 else c

unfoldable pub to_lower : Text → Text
unfolding lower_byte
to_lower = map lower_byte

unfoldable pub equal_fold : Text → Text → Bool
unfolding to_lower ◌≟◌
equal_fold a b = to_lower a ≟ to_lower b

-- strings.TrimSpace.
unfoldable pub is_space : ℕ → Bool
is_space c = c == 32 || leb 9 c && leb c 13

unfoldable pub trim_left : Text → Text
unfolding is_space
trim_left [] = []
trim_left (c ∷ s) = let rest = trim_left s in if is_space c then rest else c ∷ s

unfoldable pub trim_space : Text → Text
unfolding trim_left
trim_space s = reverse (trim_left (reverse (trim_left s)))

-- strings.CutPrefix, HasPrefix, HasSuffix, TrimPrefix and TrimSuffix.
unfoldable pub cut_prefix : Text → Text → Option Text
cut_prefix s [] = some s
cut_prefix [] (p ∷ ps) = none
cut_prefix (c ∷ s) (p ∷ ps) = let rest = cut_prefix s ps in if c == p then rest else none

unfoldable pub is_some {ℓ} : {A : Type ℓ} → Option A → Bool
is_some none = false
is_some (some a) = true

unfoldable pub has_prefix : Text → Text → Bool
unfolding cut_prefix is_some
has_prefix s p = is_some (cut_prefix s p)

unfoldable pub has_suffix : Text → Text → Bool
unfolding has_prefix
has_suffix s p = has_prefix (reverse s) (reverse p)

trim_to : Text → Option Text → Text
trim_to s none = s
trim_to s (some r) = reverse r

unfoldable pub trim_suffix : Text → Text → Text
unfolding cut_prefix trim_to
trim_suffix s p = trim_to s (cut_prefix (reverse s) (reverse p))

-- strings.Contains, and strings.Cut at a separator: what stands before it and after it.
unfoldable pub contains : Text → Text → Bool
unfolding has_prefix
contains [] p = has_prefix [] p
contains (c ∷ s) p = has_prefix (c ∷ s) p || contains s p

cut_at : ℕ → Option Text → Option (Text × Text) → Option (Text × Text)
cut_at c (some after) _ = some ([], after)
cut_at c none none = none
cut_at c none (some (before, after)) = some (c ∷ before, after)

unfoldable pub cut : Text → Text → Option (Text × Text)
unfolding cut_at cut_prefix
cut [] sep = elim (cut_prefix [] sep) [ none ↦ none | some after ↦ some ([], after) ]
cut (c ∷ s) sep = cut_at c (cut_prefix (c ∷ s) sep) (cut s sep)

-- strings.ContainsAny with a list of bytes.
unfoldable pub contains_any : Text → Text → Bool
contains_any s chars = any (λ c. any (λ d. c == d) chars) s

-- strings.ReplaceAll of a text that is not empty; `skip` counts the bytes that are left of a match.
unfoldable pub replace_from : Text → Text → ℕ → Text → Text
replace_from old new skip [] = []
replace_from old new (suc skip) (c ∷ s) = replace_from old new skip s
replace_from old new zero (c ∷ s) = elim (has_prefix (c ∷ s) old) [
  | true ↦ new ++ replace_from old new (length old - 1) s
  | false ↦ c ∷ replace_from old new zero s
]

module _ (old new : Text) (c : ℕ) (s : Text) where
  no-match :
      (b : Bool) (x y : Text) → b ≡ false → (elim b as (λ _. Text) [ true ↦ x | false ↦ y ]) ≡ y
  no-match true x y h = cc h
  no-match false x y h = refl

  pub replace_from-miss :
      has_prefix (c ∷ s) old ≡ false
      → replace_from old new zero (c ∷ s) ≡ c ∷ replace_from old new zero s
  unfolding replace_from
  replace_from-miss h = no-match (has_prefix (c ∷ s) old) _ _ h

unfoldable pub replace_all : Text → Text → Text → Text
unfolding replace_from has_prefix
replace_all s old new = replace_from old new zero s

push_first : ℕ → List Text → List Text
push_first c [] = (c ∷ []) ∷ []
push_first c (w ∷ ws) = (c ∷ w) ∷ ws

-- strings.Split at one byte.
unfoldable pub split : Text → ℕ → List Text
unfolding push_first
split [] sep = [] ∷ []
split (c ∷ s) sep = let rest = split s sep in if c == sep then [] ∷ rest else push_first c rest

-- strings.Join.
unfoldable pub join : List Text → Text → Text
join [] sep = []
join (w ∷ []) sep = w
join (w ∷ v ∷ ws) sep = w ++ sep ++ join (v ∷ ws) sep

decimal_from : ℕ → ℕ → Text
decimal_from zero n = []
decimal_from (suc fuel) n =
    let rest = decimal_from fuel (n / 10) in
    if ltb n 10 then (n + 48) ∷ [] else rest ++ (n % 10 + 48) ∷ []

-- strconv.Itoa: one digit for each round, and a number has no more digits than its value and one.
unfoldable pub decimal : ℕ → Text
unfolding decimal_from
decimal n = decimal_from (suc n) n

-- The byte order of Go's strings.
unfoldable pub text_lt : Text → Text → Bool
text_lt [] [] = false
text_lt [] (d ∷ t) = true
text_lt (c ∷ s) [] = false
text_lt (c ∷ s) (d ∷ t) = let rest = text_lt s t in ltb c d || c == d && rest

insert_by : {A : Type 0} → (A → Text) → A → List A → List A
insert_by key x [] = x ∷ []
insert_by key x (y ∷ ys) =
    let rest = insert_by key x ys in if text_lt (key y) (key x) then y ∷ rest else x ∷ y ∷ ys

-- sort.Strings and sort.Slice by a text.
unfoldable pub sort_by : {A : Type 0} → (A → Text) → List A → List A
unfolding insert_by text_lt
sort_by key [] = []
sort_by key (x ∷ xs) = insert_by key x (sort_by key xs)
