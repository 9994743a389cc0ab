-- ===== src/Live/Checks.antt =====
-- What is read back of a live copy: `sameCID`, `verifyDelta`, `verifyCopies`, `sameSize`, `merged`
-- and `sourceNames` of internal/migration/live.go.
use esxi_mover.Prelude.{
  ℕ, Bool, false, Option, none, some, List, [], ◌∷◌, ◌++◌, ◌==◌, if◌then◌else◌, length,
}
use esxi_mover.Prelude.Text.{Text, text, ◌≟◌, equal_fold}
use esxi_mover.Prelude.Path.{base, path_join}
use esxi_mover.Prelude.Dict.{put, value}
use esxi_mover.Types.{failure, wrapped, Reply, got, lost, Disk, Config, Report}
use esxi_mover.Host.{
  Call, Host, M, ◌>>=◌, ◌>>◌, pure, raise, lift, require, try, call, on_option, on_reply,
}
use esxi_mover.Vmdk
use esxi_mover.Vmx
use esxi_mover.Esxi.SnapshotTree.{snapshot_names}
use esxi_mover.Verify.{answers_text, answers_size}
use esxi_mover.Live.Deltas.{Delta}

-- snapshotMeta.
pub record Meta : Type 0 where
  pub vmsd : Text
  pub vmsn : Text
  pub target : Text

-- No name is left, and they could be read.
unfoldable pub none_left : Reply (List Text) → Bool
none_left (got names) = length names == 0
none_left (lost e) = false

-- The first key that does not name its base disk.
unfoldable pub misnamed : Config → List (Text × Text) → Option Text
unfolding value
misnamed cfg [] = none
misnamed cfg ((k, want) ∷ names) = if value cfg k ≟ want then misnamed cfg names else some k

names_of : List (Text × Text) → Config → List Disk → List (Text × Text)
unfolding put value
names_of names cfg [] = names
names_of names cfg (d ∷ ds) = names_of (put names d.key (value cfg d.key)) cfg ds

-- sourceNames.
unfoldable pub source_names : Report → List (Text × Text)
unfolding names_of
source_names r = names_of [] r.config r.disks

module _ {W : Type 0} ⦃host : Host W⦄ where
  -- sameCID.
  unfoldable pub same_cid : Disk → M W (Unit {0})
  unfolding equal_fold
  same_cid d = do
    raw ← call (Call.read_file d.target)
    desc ← lift (Vmdk.parse raw)
    require (equal_fold desc.cid d.descriptor.cid) (
        failure
          (text "the cloned disk has a different CID, so the snapshot delta cannot attach to it"))

  -- sameSize.
  unfoldable pub same_size : Text → Text → M W (Unit {0})
  unfolding answers_size base
  same_size a b = do
    x ← call (Call.size a)
    y ← try (call (Call.size b))
    require (answers_size y x)
        (failure (text "the copy of " ++ base a ++ text " differs in size from the source"))

  -- verifyDelta.
  unfoldable pub verify_delta : Report → Delta → M W (Unit {0})
  unfolding answers_text base path_join
  verify_delta r d = do
    let target = path_join r.target_dir (base d.descriptor)
    a ← call (Call.read_file d.descriptor)
    b ← try (call (Call.read_file target))
    require (answers_text b a)
        (failure (text "the copied delta descriptor differs from the source"))
    chain ← try (call (Call.verify_chain target))
    on_reply chain (λ done. same_size d.extent (path_join r.target_dir (base d.extent)))
        λ e. raise (wrapped (text "the target disk chain is not consistent: ") e [])

  -- verifyCopies.
  unfoldable pub verify_copies : Report → Meta → M W (Unit {0})
  unfolding answers_text base path_join
  verify_copies r m = do
    same_size m.vmsn (path_join r.target_dir (base m.vmsn))
    written ← try (call (Call.read_file (path_join r.target_dir (base m.vmsd))))
    require (answers_text written m.target)
        (failure (text "the target snapshot metadata differs from what was written"))

  -- merged.
  unfoldable pub merged : ℕ → Text → List (Text × Text) → M W (Unit {0})
  unfolding snapshot_names none_left misnamed
  merged id vmx_path names = do
    tree ← call (Call.snapshot id)
    require (none_left (snapshot_names tree))
        (failure (text "a snapshot is still present after merging"))
    raw ← call (Call.read_file vmx_path)
    cfg ← lift (Vmx.parse raw)
    on_option (misnamed cfg names) (pure tt)
        λ k. raise (failure (text "after merging, " ++ k ++ text " does not name the base disk"))
