-- ===== src/Esxi/Quoting.antt =====
-- `Quote` and `Argv` of internal/esxi/executor.go: the one way in which a text becomes an argument
-- of a shell command.
pub mod Words
use esxi_mover.Prelude.{List, [], ◌∷◌, ◌++◌, map}
use esxi_mover.Prelude.Text.{Text, text, replace_all, join}

-- What stands for an apostrophe: the quotes are closed, one is read in double quotes, and the
-- quotes are opened again.
abbrev pub escaped : Text
escaped = 39 ∷ 34 ∷ 39 ∷ 34 ∷ 39 ∷ []

-- Quote.
unfoldable pub quote : Text → Text
unfolding replace_all
quote s = 39 ∷ replace_all s (39 ∷ []) escaped ++ 39 ∷ []

-- Argv.
unfoldable pub argv : List Text → Text
unfolding quote join
argv args = join (map quote args) (b' ' ∷ [])
