-- ===== src/Esxi/Machine/Laws.antt =====
-- `ParsePower` of internal/esxi/vm.go against the lines of the answer.
use esxi_mover.Prelude.{
  ◌≡◌, refl, ap, subst, ◌↔◌, Bool, true, false, none, some, List, [], ◌∷◌, ◌||◌, ◌⊎◌, inl, inr,
  if◌then◌else◌,
}
use esxi_mover.Prelude.Text.{Text, text, ◌≟◌, ≟-sound, trim_space, split}
use esxi_mover.Types.{got, Power, off, on, suspended, unread}
use esxi_mover.Esxi.Machine.{
  PowerLine, nothing, state, unknown, power_line, find_power, power_lines, parse_power,
}

-- The states that are named, in their order, and whether every line was known.
abbrev states : List PowerLine → List Power
states [] = []
states (nothing ∷ ls) = states ls
states (state p ∷ ls) = p ∷ states ls
states (unknown ∷ ls) = states ls

abbrev all_known : List PowerLine → Bool
all_known [] = true
all_known (unknown ∷ ls) = false
all_known (_ ∷ ls) = all_known ls

-- An answer that is read as a state.
abbrev Names : List PowerLine → Power → Type 0
Names ls p = (states ls ≡ (p ∷ [])) × (all_known ls ≡ true)

found_sound :
    (q p : Power) (ls : List PowerLine)
    → find_power (some q) ls ≡ got p
    → (q ≡ p) × (states ls ≡ []) × (all_known ls ≡ true)
unfolding find_power
found_sound q p [] h = (cc h, refl, refl)
found_sound q p (nothing ∷ ls) h = found_sound q p ls h
found_sound q p (unknown ∷ ls) h = cc h
found_sound q p (state x ∷ ls) h = cc h

none_sound : (p : Power) (ls : List PowerLine) → find_power none ls ≡ got p → Names ls p
unfolding find_power
none_sound p [] h = cc h
none_sound p (nothing ∷ ls) h = none_sound p ls h
none_sound p (unknown ∷ ls) h = cc h
none_sound p (state x ∷ ls) h = let f = found_sound x p ls h in (cc (f.0, f.1), f.2)

found_complete :
    (q : Power) (ls : List PowerLine)
    → states ls ≡ []
    → all_known ls ≡ true
    → find_power (some q) ls ≡ got q
unfolding find_power
found_complete q [] n k = refl
found_complete q (nothing ∷ ls) n k = found_complete q ls n k
found_complete q (unknown ∷ ls) n k = cc k
found_complete q (state x ∷ ls) n k = cc n

none_complete : (p : Power) (ls : List PowerLine) → Names ls p → find_power none ls ≡ got p
unfolding find_power
none_complete p [] h = cc (h.0)
none_complete p (nothing ∷ ls) h = none_complete p ls h
none_complete p (unknown ∷ ls) h = cc (h.1)
none_complete p (state x ∷ ls) h = let f = found_complete x ls (cc (h.0)) (h.1) in cc (f, h.0)

-- A line that names this state.
abbrev pub Shows : Power → Text → Type 0
Shows off line = trim_space line ≡ text "Powered off"
Shows on line = trim_space line ≡ text "Powered on"
Shows suspended line = trim_space line ≡ text "Suspended"
Shows unread line = ⊥

-- A blank line, or the host's own heading.
abbrev pub Silent : Text → Type 0
Silent line = (trim_space line ≡ []) ⊎ (trim_space line ≡ text "Retrieved runtime info")

abbrev pub AllSilent : List Text → Type 0
AllSilent [] = Unit
AllSilent (l ∷ ls) = Silent l × AllSilent ls

-- One line names this state, and all others say nothing.
abbrev pub NamedOnce : Power → List Text → Type 0
NamedOnce p [] = ⊥
NamedOnce p (l ∷ ls) = (Silent l × NamedOnce p ls) ⊎ (Shows p l × AllSilent ls)

-- What a line was read as.
abbrev Reads : PowerLine → Text → Type 0
Reads nothing line = Silent line
Reads (state p) line = Shows p line
Reads unknown line = Unit

if-Reads :
    (line : Text) (b : Bool) (x y : PowerLine)
    → (b ≡ true → Reads x line)
    → (b ≡ false → Reads y line)
    → Reads (if b then x else y) line
if-Reads line true x y f g = f refl
if-Reads line false x y f g = g refl

or-Silent :
    (line : Text) (a b : Bool)
    → (a ≡ true → trim_space line ≡ [])
    → (b ≡ true → trim_space line ≡ text "Retrieved runtime info")
    → (a || b) ≡ true
    → Silent line
or-Silent line true b f g h = inl (f refl)
or-Silent line false b f g h = inr (g h)

power_line-Reads : (line : Text) → Reads (power_line line) line
unfolding power_line
power_line-Reads line =
    if-Reads line _ nothing _ (or-Silent line _ _ (≟-sound _ _) (≟-sound _ _)) λ a.
      if-Reads line _ (state off) _ (≟-sound _ _) λ b.
        if-Reads line _ (state on) _ (≟-sound _ _)
          λ c. if-Reads line _ (state suspended) unknown (≟-sound _ _) λ d. tt

heading_line : (line : Text) → Silent line → power_line line ≡ nothing
unfolding power_line text ◌≟◌
heading_line line (inl h) = rw h refl
heading_line line (inr h) = rw h refl

state_line : (p : Power) (line : Text) → Shows p line → power_line line ≡ state p
unfolding power_line text ◌≟◌
state_line off line h = rw h refl
state_line on line h = rw h refl
state_line suspended line h = rw h refl
state_line unread line h = elim h [ ]

none_named :
    (ls : List Text)
    → states (power_lines ls) ≡ []
    → all_known (power_lines ls) ≡ true
    → AllSilent ls
unfolding power_lines
none_named [] n k = tt
none_named (l ∷ ls) n k =
    quiet (power_line l) (power_line-Reads l) (λ n' k'. none_named ls n' k') n k
  where
    quiet :
        (x : PowerLine)
        → Reads x l
        → (states (power_lines ls) ≡ [] → all_known (power_lines ls) ≡ true → AllSilent ls)
        → states (x ∷ power_lines ls) ≡ []
        → all_known (x ∷ power_lines ls) ≡ true
        → AllSilent (l ∷ ls)
    quiet nothing r f n' k' = (r, f n' k')
    quiet (state q) r f n' k' = cc n'
    quiet unknown r f n' k' = cc k'

once_named : (p : Power) (ls : List Text) → Names (power_lines ls) p → NamedOnce p ls
unfolding power_lines
once_named p [] h = cc (h.0)
once_named p (l ∷ ls) h =
    once (power_line l) (power_line-Reads l) (λ h'. once_named p ls h') (h.0) (h.1)
  where
    once :
        (x : PowerLine)
        → Reads x l
        → (Names (power_lines ls) p → NamedOnce p ls)
        → states (x ∷ power_lines ls) ≡ (p ∷ [])
        → all_known (x ∷ power_lines ls) ≡ true
        → NamedOnce p (l ∷ ls)
    once nothing r f n k = inl (r, f (n, k))
    once (state q) r f n k = inr (subst (λ x. Shows x l) (cc n) r, none_named ls (cc n) k)
    once unknown r f n k = cc k

nothing_lines :
    (ls : List Text)
    → AllSilent ls
    → (states (power_lines ls) ≡ []) × (all_known (power_lines ls) ≡ true)
unfolding power_lines
nothing_lines [] h = (refl, refl)
nothing_lines (l ∷ ls) h = rw (heading_line l (h.0)) (nothing_lines ls (h.1))

named_lines : (p : Power) (ls : List Text) → NamedOnce p ls → Names (power_lines ls) p
unfolding power_lines
named_lines p [] h = elim h [ ]
named_lines p (l ∷ ls) (inl h) = rw (heading_line l (h.0)) (named_lines p ls (h.1))
named_lines p (l ∷ ls) (inr h) =
    rw (state_line p l (h.0)) (let s = nothing_lines ls (h.1) in (ap (λ ps. p ∷ ps) (s.0), s.1))

-- The power of a machine is read as some state exactly if one line of the answer, without the space
-- around it, is the text "Powered off", "Powered on" or "Suspended" of that state, and each of the
-- others is blank or the host's own heading, "Retrieved runtime info".
pub parse_power-got : (s : Text) (p : Power) → (parse_power s ≡ got p) ↔ NamedOnce p (split s 10)
unfolding parse_power
parse_power-got s p = (
  λ h. once_named p (split s 10) (none_sound p (power_lines (split s 10)) h),
  λ h. none_complete p (power_lines (split s 10)) (named_lines p (split s 10) h),
)
