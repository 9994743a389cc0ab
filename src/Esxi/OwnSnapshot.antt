-- ===== src/Esxi/OwnSnapshot.antt =====
-- The snapshot a live migration takes and merges on the host, of internal/esxi/snapshot.go.
pub mod Laws
use esxi_mover.Prelude.{
  ℕ, Bool, true, false, List, [], ◌∷◌, ◌++◌, ◌&&◌, ◌||◌, not, leb, ◌==◌, length, all, none, some,
}
use esxi_mover.Prelude.Text.{Text, text, ◌≟◌, to_lower, has_prefix, cut_prefix, decimal}
use esxi_mover.Prelude.Path.{base, ext, path_join}
use esxi_mover.Types.{failure}
use esxi_mover.Esxi.Paths.{valid_path}
use esxi_mover.Esxi.SnapshotTree.{snapshot_names}
use esxi_mover.Esxi.Quoting.{argv}
use esxi_mover.Esxi.Shell.{Executor, C, ◌>>=◌, ◌>>◌, require, lift}
use esxi_mover.Esxi.Machine.{snapshot}
use esxi_mover.Esxi.Operation.{execute, check_target}

-- ownSnapshot: the prefix, and then 8 digits of a hexadecimal number in lower case.
unfoldable pub own_snapshot : Text → Bool
unfolding text cut_prefix
own_snapshot name = elim (cut_prefix name (text "esxi-mover-")) [
  | none ↦ false
  | some digits ↦
      length digits == 8 && all (λ c. leb 48 c && leb c 57 || leb 97 c && leb c 102) digits
]

-- One name, and it is this one.
unfoldable pub only_own : List Text → Text → Bool
only_own (n ∷ []) name = n ≟ name
only_own names name = false

-- The files that may be copied.
unfoldable pub copyable : Text → Bool
unfolding text ext to_lower
copyable name =
    let e = to_lower (ext name) in e ≟ text ".vmdk" || e ≟ text ".vmsd" || e ≟ text ".vmsn"

module _ {W : Type 0} ⦃executor : Executor W⦄ where
  -- CreateSnapshot.
  unfoldable pub create_snapshot : ℕ → Text → C W (Unit {0})
  unfolding own_snapshot decimal argv
  create_snapshot id name = do
    require (own_snapshot name) (failure (text "invalid snapshot name"))
    execute (text "create-snapshot")
        (argv (
          text "vim-cmd"
          ∷ text "vmsvc/snapshot.create"
          ∷ decimal id
          ∷ name
          ∷ text "ESXi Mover live migration"
          ∷ text "0"
          ∷ text "0"
          ∷ []))
        []

  -- ConsolidateOwnSnapshot, from the names of the tree on.
  unfoldable pub consolidate_only : ℕ → Text → List Text → C W (Unit {0})
  unfolding only_own decimal argv
  consolidate_only id name names = do
    require (only_own names name)
        (failure (text "the snapshot tree is not exactly this job's snapshot; nothing was merged"))
    execute (text "consolidate-own-snapshot")
        (argv (text "vim-cmd" ∷ text "vmsvc/snapshot.removeall" ∷ decimal id ∷ [])) []

  -- ConsolidateOwnSnapshot.
  unfoldable pub consolidate_own_snapshot : ℕ → Text → C W (Unit {0})
  unfolding own_snapshot snapshot_names
  consolidate_own_snapshot id name = do
    require (own_snapshot name) (failure (text "invalid snapshot name"))
    tree ← snapshot id
    names ← lift (snapshot_names tree)
    consolidate_only id name names

  -- CopyToTarget.
  unfoldable pub copy_to_target : Text → Text → C W (Unit {0})
  unfolding valid_path base has_prefix copyable path_join argv
  copy_to_target source d = do
    check_target d
    require
        (valid_path source && has_prefix source (text "/vmfs/volumes/") && valid_path (base source))
        (failure (text "invalid snapshot file"))
    require (copyable (base source)) (failure (text "only snapshot files may be copied"))
    execute (text "copy-snapshot-file")
        (argv (text "test" ∷ text "!" ∷ text "-e" ∷ path_join d (base source) ∷ [])
          ++ text " && "
          ++ argv (text "cp" ∷ source ∷ path_join d (base source) ∷ []))
        []
