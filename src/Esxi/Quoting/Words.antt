-- ===== src/Esxi/Quoting/Words.antt =====
-- The words that a POSIX shell reads, and the arguments that `Argv` of internal/esxi/executor.go
-- quotes.
use mathlib.Core.List.{append_assoc, append-nil}
use mathlib.Core.Option.{map as map_option}
use esxi_mover.Prelude.{
  ℕ, ◌≡◌, refl, sym, ap, ◌∙◌, Bool, true, false, Option, none, some, List, [], ◌∷◌, ◌++◌, ◌==◌, any,
  map, if◌then◌else◌, Bool-cases, inl, inr, arith,
}
use esxi_mover.Prelude.Text.{
  Text, text, replace_all, replace_from, replace_from-miss, has_prefix, cut_prefix, is_some, join,
}
use esxi_mover.Esxi.Quoting.{quote, argv, escaped}

-- What a byte is to the shell: a blank, one of the two quotes, a byte that means something else to
-- it, or one that stands for itself.
data Kind : Type 0 where
  blank apostrophe quotation special plain : Kind

unfoldable kind : ℕ → Kind
unfolding text
kind c =
    if c == 39
    then apostrophe
    else if c == 34
    then quotation
    else if c == 32
    then blank
    else if any (λ d. d == c) (text "\t\n\r|&;<>()$`*?[]#~=%{}!\\")
    then special
    else plain

-- Between words, in a word, and inside either quotes.
data Mode : Type 0 where
  gap bare single double : Mode

abbrev push : ℕ → List Text → List Text
push c [] = (c ∷ []) ∷ []
push c (w ∷ ws) = (c ∷ w) ∷ ws

-- The rest of the word, if there is one, and the words after it; nothing where a byte outside the
-- quotes or in double ones means something else to the shell, or where a quote is not closed.
unfoldable scan : Mode → Text → Option (List Text)
unfolding kind
scan gap [] = some []
scan bare [] = some ([] ∷ [])
scan single [] = none
scan double [] = none
scan gap (c ∷ s) = elim (kind c) [
  | blank ↦ scan gap s
  | apostrophe ↦ scan single s
  | quotation ↦ scan double s
  | special ↦ none
  | plain ↦ map_option (push c) (scan bare s)
]
scan bare (c ∷ s) = elim (kind c) [
  | blank ↦ map_option (λ ws. [] ∷ ws) (scan gap s)
  | apostrophe ↦ scan single s
  | quotation ↦ scan double s
  | special ↦ none
  | plain ↦ map_option (push c) (scan bare s)
]
scan single (c ∷ s) = elim (kind c) [
  | apostrophe ↦ scan bare s
  | _ ↦ map_option (push c) (scan single s)
]
scan double (c ∷ s) = elim (kind c) [
  | quotation ↦ scan bare s
  | special ↦ none
  | _ ↦ map_option (push c) (scan double s)
]

pub shell_words : Text → Option (List Text)
unfolding scan
shell_words s = scan gap s

unfoldable swap : Text → Text
swap s = replace_all s (39 ∷ []) escaped

is-apostrophe : (c : ℕ) → (c == 39) ≡ true → c ≡ 39
is-apostrophe c h = ground arith

swap-empty : swap [] ≡ []
unfolding swap replace_all replace_from
swap-empty = refl

swap-apostrophe : (s : Text) → swap (39 ∷ s) ≡ escaped ++ swap s
unfolding swap replace_all replace_from has_prefix
swap-apostrophe s = refl

other-prefix : (c : ℕ) (s : Text) → (c == 39) ≡ false → has_prefix (c ∷ s) (39 ∷ []) ≡ false
unfolding has_prefix cut_prefix is_some
other-prefix c s h = rw h refl

swap-other : (c : ℕ) (s : Text) → (c == 39) ≡ false → swap (c ∷ s) ≡ c ∷ swap s
unfolding swap replace_all
swap-other c s h = replace_from-miss (39 ∷ []) escaped c s (other-prefix c s h)

abbrev closes : Kind → Bool
closes apostrophe = true
closes _ = false

kind-other : (c : ℕ) → (c == 39) ≡ false → closes (kind c) ≡ false
unfolding kind
kind-other c h = ground arith

-- Between apostrophes every other byte stands for itself.
single-other :
    (c : ℕ) (s : Text)
    → (c == 39) ≡ false
    → scan single (c ∷ s) ≡ map_option (push c) (scan single s)
unfolding scan
single-other c s h = other_lem (kind c) (kind-other c h)
  where
    other_lem :
        (k : Kind)
        → closes k ≡ false
        → (elim k as (λ x. Option (List Text)) [
          | apostrophe ↦ scan bare s
          | _ ↦ map_option (push c) (scan single s)
        ])
          ≡ map_option (push c) (scan single s)
    other_lem blank n = refl
    other_lem apostrophe n = cc n
    other_lem quotation n = refl
    other_lem special n = refl
    other_lem plain n = refl

scan-escaped : (s : Text) → scan single (escaped ++ s) ≡ map_option (push 39) (scan single s)
unfolding scan kind
scan-escaped s = refl

scan-close : (s : Text) → scan single (39 ∷ s) ≡ scan bare s
unfolding scan kind
scan-close s = refl

scan-swap :
    (s rest w : Text) (ws : List Text)
    → scan bare rest ≡ some (w ∷ ws)
    → scan single (swap s ++ 39 ∷ rest) ≡ some ((s ++ w) ∷ ws)
scan-swap [] rest w ws h = rw swap-empty (scan-close rest ∙ h)
scan-swap (c ∷ s) rest w ws h =
    let ih = scan-swap s rest w ws h in
    elim (Bool-cases (c == 39)) [
      | inl hit ↦
          rw (is-apostrophe c hit)
            (rw (swap-apostrophe s) (rw (scan-escaped (swap s ++ 39 ∷ rest)) (rw ih refl)))
      | inr miss ↦
          rw (swap-other c s miss) (rw (single-other c (swap s ++ 39 ∷ rest) miss) (rw ih refl))
    ]

quote-split : (s rest : Text) → quote s ++ rest ≡ 39 ∷ (swap s ++ 39 ∷ rest)
unfolding quote swap
quote-split s rest = ap (λ t. 39 ∷ t) (append_assoc (swap s) (39 ∷ []) rest)

scan-open : (s : Text) → scan gap (39 ∷ s) ≡ scan single s
unfolding scan kind
scan-open s = refl

-- A quoted argument is read as it was, up to what follows it.
scan-quote :
    (s rest : Text) (ws : List Text)
    → scan bare rest ≡ some ([] ∷ ws)
    → scan gap (quote s ++ rest) ≡ some (s ∷ ws)
scan-quote s rest ws h = rw (quote-split s rest) (
    scan-open (swap s ++ 39 ∷ rest)
    ∙ scan-swap s rest [] ws h
    ∙ ap (λ t. some (t ∷ ws)) (append-nil s))

scan-blank :
    (s : Text) (ws : List Text) → scan gap s ≡ some ws → scan bare (b' ' ∷ s) ≡ some ([] ∷ ws)
unfolding scan kind
scan-blank s ws h = rw h refl

scan-end : scan bare [] ≡ some ([] ∷ [])
unfolding scan
scan-end = refl

empty_words : scan gap (argv []) ≡ some []
unfolding scan argv join
empty_words = refl

argv-one : (a : Text) → argv (a ∷ []) ≡ quote a
unfolding argv join
argv-one a = refl

argv-more :
    (a b : Text) (args : List Text) → argv (a ∷ b ∷ args) ≡ quote a ++ b' ' ∷ argv (b ∷ args)
unfolding argv join
argv-more a b args = append_assoc (quote a) (b' ' ∷ []) (join (map quote (b ∷ args)) (b' ' ∷ []))

-- Whatever the arguments are, a shell reads the words that `Argv` writes as these arguments, each
-- one as a word of its own, and nothing that means something else to the shell.
pub shell_words-argv : (args : List Text) → shell_words (argv args) ≡ some args
unfolding shell_words
shell_words-argv [] = empty_words
shell_words-argv (a ∷ []) =
    rw (argv-one a) (ap (scan gap) (sym (append-nil (quote a))) ∙ scan-quote a [] [] scan-end)
shell_words-argv (a ∷ b ∷ args) = rw (argv-more a b args) (
    scan-quote a (b' ' ∷ argv (b ∷ args)) (b ∷ args)
      (scan-blank (argv (b ∷ args)) (b ∷ args) (shell_words-argv (b ∷ args))))
