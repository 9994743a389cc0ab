-- ===== src/Live/Deltas.antt =====
-- The snapshot deltas that a live source runs on: `ownSnapshotOnly`, `liveDeltas` and `liveGuard`
-- of internal/migration/live.go.
use esxi_mover.Prelude.{
  ℕ, Bool, true, false, List, [], ◌∷◌, ◌++◌, ◌&&◌, ◌||◌, not, ◌==◌, if◌then◌else◌, any, length,
  get_or,
}
use esxi_mover.Prelude.Text.{Text, text, ◌≟◌, to_lower, equal_fold, contains, trim_suffix}
use esxi_mover.Prelude.Path.{base, dir, is_abs, path_join}
use esxi_mover.Prelude.Dict.{lookup, put, value}
use esxi_mover.Types.{
  failure, wrapped, Reply, got, and_then, check_that, Disk, Descriptor, ConfigFile, Config, Report,
}
use esxi_mover.Host.{Call, Host, M, ◌>>=◌, ◌>>◌, pure, raise, lift, require, try, call, on_reply}
use esxi_mover.Vmdk
use esxi_mover.Vmx
use esxi_mover.Esxi.Paths.{valid_path}
use esxi_mover.Esxi.SnapshotTree.{snapshot_names}
use esxi_mover.Verify.{first_extent}
use esxi_mover.Live.Space.{require_live_source_space}
use esxi_mover.Engine.Steps.{registrations}
use esxi_mover.Engine.Clone.{live_source_free}

-- delta.
pub record Delta : Type 0 where
  pub descriptor : Text
  pub extent : Text

abbrev pub Deltas : Type 0
Deltas = List (Text × Delta)

unfoldable pub one_name : List Text → Text → Bool
one_name (n ∷ []) name = n ≟ name
one_name _ name = false

-- The file of a delta that the VMX names, relative to its disk's folder; empty if it is refused.
unfoldable pub delta_file : Report → Disk → Text → Text
unfolding dir base is_abs
delta_file r d file =
    let folder = dir d.source in
    if is_abs file && dir file ≟ folder && (d.external || folder ≟ r.source_dir)
    then base file
    else if d.external
    then []
    else file

-- The VMX runs on a file in the folder of the disk, and not on the disk itself.
unfoldable pub is_delta_name : Disk → Text → Bool
unfolding base valid_path
is_delta_name d file =
    not (file ≟ []) && file ≟ base file && not (file ≟ base d.source) && valid_path file

-- A descriptor that attaches to the source disk.
unfoldable pub attaches : Disk → Descriptor → Bool
unfolding contains to_lower equal_fold base text
attaches d desc =
    contains (to_lower desc.create_type) (text "sparse")
    && equal_fold desc.parent_cid d.descriptor.cid
    && desc.parent_hint ≟ base d.source
    && length desc.extents == 1

unfoldable pub is_local : Text → Bool
unfolding base valid_path
is_local file = file ≟ base file && valid_path file

-- The names that the target folder uses already.
disk_files : List Disk → List Text
unfolding to_lower base trim_suffix text
disk_files [] = []
disk_files (d ∷ ds) =
    to_lower (base d.target)
    ∷ to_lower (trim_suffix (base d.target) (text ".vmdk") ++ text "-flat.vmdk")
    ∷ disk_files ds

config_names : List ConfigFile → List Text
unfolding to_lower
config_names [] = []
config_names (f ∷ fs) = to_lower f.name ∷ config_names fs

unfoldable pub target_names : Report → List Text
unfolding to_lower base disk_files config_names
target_names r = to_lower (base r.target_vmx) ∷ disk_files r.disks ++ config_names r.config_files

-- A name that is taken once.
unfoldable pub take_name : List Text → Text → Reply (List Text)
unfolding to_lower base check_that text
take_name taken file =
    let n = to_lower (base file) in
    check_that (not (any (λ t. t ≟ n) taken))
      (failure (
        text "the snapshot delta "
        ++ base file
        ++ text " would collide with another file in the target folder"))
      (got (n ∷ taken))

no_delta : Delta
no_delta = record { descriptor = []; extent = [] }

unfoldable pub delta_of : Deltas → Text → Delta
unfolding no_delta lookup
delta_of deltas key = get_or (lookup deltas key) no_delta

-- The loop over the names of the deltas.
unfoldable pub take_names : Deltas → List Text → List Disk → Reply (Unit {0})
unfolding delta_of take_name and_then
take_names deltas taken [] = got tt
take_names deltas taken (d ∷ ds) =
    let e = delta_of deltas d.key in
    and_then (take_name taken e.descriptor)
      λ once. and_then (take_name once e.extent) λ twice. take_names deltas twice ds

module _ {W : Type 0} ⦃host : Host W⦄ where
  -- ownSnapshotOnly.
  unfoldable pub own_snapshot_only : ℕ → Text → M W (Unit {0})
  unfolding snapshot_names one_name
  own_snapshot_only id name = do
    tree ← call (Call.snapshot id)
    names ← lift (snapshot_names tree)
    require (one_name names name)
        (failure (text "the snapshot tree is not exactly this job's snapshot"))

  -- The delta of one disk.
  unfoldable pub disk_delta : Report → Config → Disk → M W Delta
  unfolding delta_file is_delta_name attaches is_local first_extent value dir path_join
  disk_delta r cfg d = do
    let file = delta_file r d (value cfg d.key)
    require (is_delta_name d file)
        (failure (text "the VM does not run on a snapshot delta for " ++ d.key))
    let p = path_join (dir d.source) file
    raw ← call (Call.read_file p)
    desc ← lift (Vmdk.parse raw)
    require (attaches d desc) (
        failure (
          text "the snapshot delta for "
          ++ d.key
          ++ text " does not attach to the source disk as expected"))
    let ex = first_extent desc.extents
    require (is_local ex)
        (failure (text "the snapshot delta for " ++ d.key ++ text " has an unexpected extent"))
    pure (record { descriptor = p; extent = path_join (dir d.source) ex })

  unfoldable pub disk_deltas : Report → Config → Deltas → List Disk → M W Deltas
  unfolding put
  disk_deltas r cfg out [] = pure out
  disk_deltas r cfg out (d ∷ ds) = do e ← disk_delta r cfg d; disk_deltas r cfg (put out d.key e) ds

  -- liveDeltas.
  unfoldable pub live_deltas : Report → Text → M W Deltas
  unfolding take_names target_names
  live_deltas r name = do
    own_snapshot_only r.vm.id name
    raw ← call (Call.read_file r.source_vmx)
    cfg ← lift (Vmx.parse raw)
    out ← disk_deltas r cfg [] r.disks
    lift (take_names out (target_names r) r.disks)
    pure out

-- Every delta is still the same one.
unfoldable pub same_deltas : Deltas → Deltas → Bool
unfolding delta_of
same_deltas [] later = true
same_deltas ((k, d) ∷ ds) later =
    let e = delta_of later k in
    d.descriptor ≟ e.descriptor && d.extent ≟ e.extent && same_deltas ds later

module _ {W : Type 0} ⦃host : Host W⦄ where
  -- liveGuard.
  unfoldable pub live_guard : Report → Text → Deltas → M W (Unit {0})
  unfolding same_deltas require_live_source_space
  live_guard r name deltas = do
    p ← registrations r.source_vmx r.target_vmx
    require (p.src == r.vm.id && p.dst == 0)
        (failure (text "VM registration changed during the live migration"))
    later ← live_deltas r name
    require (same_deltas deltas later)
        (failure (text "the VM's disks changed during the live migration"))
    reply ← try (live_source_free r)
    on_reply reply (λ free. lift (require_live_source_space free))
        λ e. raise (wrapped (text "cannot check source free space: ") e [])
