-- ===== src/Esxi/Audit.antt =====
-- `Audit` of internal/esxi/executor.go: the log of the commands, the newest event first. Its mutex
-- is held for the whole of `Add`.
pub mod Laws
use mathlib.Core.Option.{map as map_option}
use esxi_mover.Prelude.{
  ℕ, zero, suc, ◌+◌, Bool, Option, none, some, List, [], ◌∷◌, ◌&&◌, ◌||◌, ◌==◌, if◌then◌else◌, take,
}
use esxi_mover.Prelude.Text.{Text, text, ◌≟◌}

-- Event.
pub record Entry : Type 0 where
  pub time : ℕ
  pub category : Text
  pub command : Text
  pub duration : ℕ
  pub exit_code : ℕ
  pub error : Text
  pub runs : ℕ

-- pollEvent.
unfoldable pub poll_event : Entry → Bool
unfolding text
poll_event e =
    e.error ≟ []
    && e.exit_code == 0
    && (e.category ≟ text "poll-detached-clone" || e.category ≟ text "datastores")

unfoldable pub same_entry : Entry → Entry → Bool
same_entry l e =
    l.category ≟ e.category
    && l.command ≟ e.command
    && l.exit_code == e.exit_code
    && l.error ≟ e.error

behind : Entry → Option (ℕ × List Entry) → Option (ℕ × List Entry)
behind l none = none
behind l (some (n, rest)) = some (n, l ∷ rest)

-- The event that a new one is folded into: its runs, and the events without it.
unfoldable pub folded : Entry → List Entry → Option (ℕ × List Entry)
unfolding behind same_entry poll_event
folded e [] = none
folded e (l ∷ rest) =
    let older = folded e rest in
    if same_entry l e
    then some (l.runs, rest)
    else if poll_event e && poll_event l
    then behind l older
    else none

added : Entry → Option (ℕ × List Entry) → List Entry → List Entry
added e (some (n, rest)) es = record e { runs = n + 1 } ∷ rest
added e none es = take 500 (record e { runs = 1 } ∷ es)

-- Audit.Add.
unfoldable pub add : Entry → List Entry → List Entry
unfolding added folded
add e es = added e (folded e es) es
