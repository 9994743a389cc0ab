-- ===== src/Esxi/Files.antt =====
-- What is asked of files on the host, of internal/esxi/executor.go.
use esxi_mover.Prelude.{
  ℕ, Bool, false, Option, none, some, List, [], ◌∷◌, ◌++◌, ◌&&◌, ◌||◌, not, ltb, length,
  if◌then◌else◌, ◌*◌, ◌^◌,
}
use esxi_mover.Prelude.Text.{
  Text, text, ◌≟◌, trim_space, trim_suffix, has_prefix, has_suffix, contains_any, split, is_space,
}
use esxi_mover.Types.{failure}
use esxi_mover.Esxi.Numbers.{positive_number}
use esxi_mover.Esxi.Quoting.{argv}
use esxi_mover.Esxi.Shell.{
  Executor, C, ◌>>=◌, ◌>>◌, pure, raise, lift, require, instead, run, command,
}

-- The first of strings.Fields, and whether there is a second.
first_field : Text → Text
unfolding is_space
first_field [] = []
first_field (c ∷ s) = let rest = first_field s in if is_space c then [] else c ∷ rest

has_space : Text → Bool
unfolding is_space
has_space [] = false
has_space (c ∷ s) = is_space c || has_space s

-- A trimmed text has two fields exactly if a space is left in it.
unfoldable two_fields : Text → Option Text
unfolding first_field has_space trim_space
two_fields s = let t = trim_space s in if has_space t then some (first_field t) else none

module _ {W : Type 0} ⦃executor : Executor W⦄ where
  -- ReadFile.
  unfoldable pub read_file : Text → C W Text
  unfolding argv
  read_file p = do
    r ←
        instead (failure (text "cannot read configuration file"))
          (run (text "read-file") (argv (text "head" ∷ text "-c" ∷ text "1048577" ∷ p ∷ [])) [])
    require (not (ltb (2 ^ 20) (length r.stdout)))
        (failure (text "configuration file exceeds 1 MiB"))
    pure r.stdout

  -- Exists.
  unfoldable pub exists : Text → C W Bool
  unfolding argv
  exists p = do
    r ←
        run (text "file-exists")
          (text "if "
            ++ argv (text "test" ∷ text "-e" ∷ p ∷ [])
            ++ text "; then printf yes; else printf no; fi")
          []
    require (r.stdout ≟ text "yes" || r.stdout ≟ text "no")
        (failure (text "unknown file existence response"))
    pure (r.stdout ≟ text "yes")

  -- Canonical.
  unfoldable pub canonical : Text → C W Text
  unfolding trim_suffix has_prefix contains_any trim_space
  canonical p = do
    s ← command (text "canonical-path") (text "readlink" ∷ text "-f" ∷ p ∷ [])
    let t = trim_suffix s (10 ∷ [])
    require
        (has_prefix t (text "/vmfs/volumes/")
          && not (contains_any t (13 ∷ 10 ∷ 0 ∷ []))
          && not (trim_space t ≟ []))
        (failure (text "path is not a canonical datastore path"))
    pure t

  -- List.
  unfoldable pub list_folder : Text → C W (List Text)
  unfolding has_suffix trim_suffix split
  list_folder d = do
    s ← command (text "list-directory") (
        text "find"
        ∷ d
        ∷ text "-mindepth"
        ∷ text "1"
        ∷ text "-maxdepth"
        ∷ text "1"
        ∷ text "-print0"
        ∷ [])
    require (s ≟ [] || has_suffix s (0 ∷ [])) (failure (text "unknown directory listing format"))
    pure (if s ≟ [] then [] else split (trim_suffix s (0 ∷ [])) 0)

  -- Size.
  unfoldable pub size : Text → C W ℕ
  unfolding positive_number
  size p = do
    s ← command (text "file-size") (text "stat" ∷ text "-c" ∷ text "%s" ∷ p ∷ [])
    lift (positive_number s)

  -- Allocated.
  unfoldable pub allocated : Text → C W ℕ
  unfolding positive_number two_fields
  allocated p = do
    s ← command (text "allocated-size") (text "du" ∷ text "-k" ∷ p ∷ [])
    elim (two_fields s) as (λ x. C W ℕ) [
      | none ↦ raise (failure (text "unknown allocated size"))
      | some f ↦ (do
        n ← lift (positive_number f)
        require (not (ltb (2 ^ 52) n)) (failure (text "allocated size overflow"))
        pure (n * 1024))
    ]

  -- VerifyChain.
  unfoldable pub verify_chain : Text → C W (Unit {0})
  unfolding trim_space
  verify_chain p = do
    s ← command (text "verify-chain") (text "vmkfstools" ∷ text "-e" ∷ p ∷ [])
    require
        (trim_space s ≟ text "Disk chain is consistent."
          || trim_space s ≟ text "Disk chain is consistent")
        (failure (text "unrecognized disk-chain verification response"))
