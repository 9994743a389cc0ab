-- ===== src/Verify.antt =====
-- internal/migration/verify.go: a cloned disk and the written configuration are read back.

use esxi_mover.Prelude.{
  ℕ, Bool, true, false, Option, none, some, List, [], ◌∷◌, ◌&&◌, not, ◌==◌, length,
}
use esxi_mover.Prelude.Text.{Text, text, ◌≟◌, contains_any}
use esxi_mover.Prelude.Path.{base, dir, path_join}
use esxi_mover.Prelude.Dict.{lookup, put, value}
use esxi_mover.Types.{failure, Reply, got, lost, Disk, Extent, ConfigFile, Config, Report}
use esxi_mover.Host.{Call, Host, M, ◌>>=◌, ◌>>◌, pure, lift, require, try, call}
use esxi_mover.Vmdk
use esxi_mover.Vmx
use esxi_mover.Vmx.Analysis.{analyze}
use esxi_mover.Snapshot.{disk_snapshot}

-- The file of the first extent; a standalone descriptor has one.
unfoldable pub first_extent : List Extent → Text
first_extent [] = []
first_extent (e ∷ es) = e.file

-- True for an answer that is this value.
unfoldable pub answers_text : Reply Text → Text → Bool
answers_text (got a) b = a ≟ b
answers_text (lost e) b = false

unfoldable pub answers_size : Reply ℕ → ℕ → Bool
answers_size (got a) b = a == b
answers_size (lost e) b = false

module _ {W : Type 0} ⦃host : Host W⦄ where
  -- verifyDisk.
  unfoldable pub verify_disk : Disk → M W (Unit {0})
  unfolding Vmdk.parse Vmdk.standalone disk_snapshot first_extent answers_text answers_size base dir
      path_join
  verify_disk d = do
    call (Call.verify_chain d.target)
    raw ← call (Call.read_file d.target)
    desc ← lift (Vmdk.parse raw)
    lift (disk_snapshot d.target desc)
    lift (Vmdk.standalone desc)
    require (desc.thin && desc.bytes == d.provisioned)
        (failure (text "target disk is not thin or its virtual capacity changed"))
    let ex = first_extent desc.extents
    require (base ex ≟ ex && not (contains_any ex (13 ∷ 10 ∷ 0 ∷ [])))
        (failure (text "target extent is not local to its descriptor"))
    let expected = path_join (dir d.target) ex
    canonical ← try (call (Call.canonical expected))
    require (answers_text canonical expected)
        (failure (text "target extent escaped target directory"))
    n ← try (call (Call.size expected))
    require (answers_size n d.provisioned) (failure (text "target extent size mismatch"))

  unfoldable pub verify_disks : List Disk → M W (Unit {0})
  verify_disks [] = pure tt
  verify_disks (d ∷ ds) = do verify_disk d; verify_disks ds

named : Option Text → Text → Text
named none own = own
named (some n) own = n

names_from : List (Text × Text) → List Disk → List (Text × Text) → List (Text × Text)
unfolding named put lookup base
names_from names [] deltas = names
names_from names (d ∷ ds) deltas =
    names_from (put names d.key (named (lookup deltas d.key) (base d.target))) ds deltas

-- diskNames.
unfoldable pub disk_names : List Disk → List (Text × Text) → List (Text × Text)
unfolding names_from
disk_names disks deltas = names_from [] disks deltas

-- Every disk's key names the file that it must.
unfoldable pub points_right : Config → List (Text × Text) → List Disk → Bool
unfolding value
points_right parsed names [] = true
points_right parsed names (d ∷ ds) =
    value parsed d.key ≟ value names d.key && points_right parsed names ds

module _ {W : Type 0} ⦃host : Host W⦄ where
  unfoldable pub copy_file : Report → ConfigFile → M W (Unit {0})
  unfolding answers_text path_join
  copy_file r f = do
    contents ← call (Call.read_file f.source)
    call (Call.write_target r.target_dir f.name contents)
    target ← try (call (Call.read_file (path_join r.target_dir f.name)))
    require (answers_text target contents)
        (failure (text "target configuration file verification failed"))

  unfoldable pub copy_files : Report → List ConfigFile → M W (Unit {0})
  copy_files r [] = pure tt
  copy_files r (f ∷ fs) = do copy_file r f; copy_files r fs

  -- The written configuration, read back and analysed.
  unfoldable pub check_written : Report → Text → List (Text × Text) → M W (Unit {0})
  unfolding Vmx.parse Vmx.print analyze points_right
  check_written r serialized names = do
    raw ← call (Call.read_file r.target_vmx)
    parsed ← lift (Vmx.parse raw)
    require (Vmx.print parsed ≟ serialized)
        (failure (text "target VMX does not match the reviewed configuration"))
    let a = analyze parsed
    require (length a.blocks == 0 && length a.disks == length r.disks)
        (failure (text "rewritten VMX has unsupported devices or missing disks"))
    require (points_right parsed names r.disks)
        (failure (text "target VMX points to the wrong disk"))

  -- copyConfig.
  unfoldable pub copy_config : Report → Config → List (Text × Text) → M W (Unit {0})
  unfolding Vmx.print base
  copy_config r config names = do
    copy_files r r.config_files
    let serialized = Vmx.print config
    call (Call.write_target r.target_dir (base r.target_vmx) serialized)
    check_written r serialized names
