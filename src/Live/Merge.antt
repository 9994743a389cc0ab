-- ===== src/Live/Merge.antt =====
-- The two ends of a live migration that merge its snapshot: `mergeCopy`, and `restoreSource` after a
-- failure, of internal/migration/live.go.
use esxi_mover.Prelude.{
  ℕ, Bool, true, false, List, [], ◌++◌, ◌&&◌, not, ◌==◌, if◌then◌else◌, length,
}
use esxi_mover.Prelude.Text.{Text, text}
use esxi_mover.Types.{failure, Reply, got, lost, Power, Report}
use esxi_mover.Job.{State, Phase, Shown}
use esxi_mover.Host.{
  Call, Host, M, ◌>>=◌, ◌>>◌, pure, raise, lift, require, try, call, update, phase, on_reply,
}
use esxi_mover.Esxi.SnapshotTree.{snapshot_names}
use esxi_mover.Verify.{disk_names}
use esxi_mover.Engine.Steps.{Pair, require_off, registrations, publish}
use esxi_mover.Engine.Commit.{shown}
use esxi_mover.Live.Deltas.{one_name}
use esxi_mover.Live.Checks.{merged, source_names}

-- The answer of the registering, if there was one, is the number that the list has.
unfoldable pub agrees : Reply ℕ → ℕ → Bool
agrees (got id) dst = dst == id
agrees (lost e) dst = true

-- The target is not registered any more, and that could be read.
unfoldable pub target_absent : Reply Pair → Bool
target_absent (got p) = p.dst == 0
target_absent (lost e) = false

-- The source is registered, and the target is not.
unfoldable pub source_returned : Reply Pair → Bool
source_returned (got p) = not (p.src == 0) && p.dst == 0
source_returned (lost e) = false

module _ {W : Type 0} ⦃host : Host W⦄ where
  -- Inventory as it is read after a step whose own reply proves nothing: it must pass a test.
  unfoldable pub settled : Report → (Reply Pair → Bool) → Text → M W Pair
  settled r test m = do
    p ← try (registrations r.source_vmx r.target_vmx)
    require (test p) (failure m)
    lift p

  -- The registered copy is proved off, merged and unregistered.
  unfoldable pub remove_copy : Report → Text → ℕ → M W (Reply (Unit {0}))
  unfolding disk_names
  remove_copy r name dst = do
    require_off dst
    call (Call.consolidate dst name)
    merged dst r.target_vmx (disk_names r.disks [])
    try (call (Call.unregister dst))

  -- The copy is registered, merged and unregistered; it stays off.
  unfoldable pub merge_target : Report → Text → M W (Unit {0})
  unfolding agrees shown target_absent
  merge_target r name = do
    registered ← try (call (Call.register r.target_vmx))
    p ← registrations r.source_vmx r.target_vmx
    require (not (p.dst == 0) && p.src == r.vm.id && agrees registered p.dst) (
        failure (text "the copy could not be registered to merge its snapshot" ++ shown registered))
    unregistered ← remove_copy r name p.dst
    q ←
        settled r target_absent
          (text "the copy stayed registered after merging" ++ shown unregistered)
    pure tt

  -- mergeCopy.
  unfoldable pub merge_copy : Report → Text → M W (Unit {0})
  unfolding source_names
  merge_copy r name = do
    phase Phase.consolidating
        (text "Merging the snapshot into the copy; it is registered only for this and stays off")
    merge_target r name
    phase Phase.consolidating (text "Merging the temporary snapshot back into the source")
    call (Call.consolidate r.vm.id name)
    merged r.vm.id r.source_vmx (source_names r)

-- What the power of the source was read as.
unfoldable pub source_power_is : Power → State → State
source_power_is p s = record s { source_power = Shown.read p }

module _ {W : Type 0} ⦃host : Host W⦄ where
  -- A registered target is proved off and unregistered.
  unfoldable pub remove_target : ℕ → M W (Reply (Unit {0}))
  remove_target dst = do
    checked ← try (require_off dst)
    on_reply checked (λ done. pure tt)
        λ e. raise (failure (text "the target is registered and not powered off"))
    try (call (Call.unregister dst))

  -- A target that got registered is removed.
  unfoldable pub drop_target : Report → Pair → M W Pair
  unfolding target_absent shown
  drop_target r p = if p.dst == 0 then pure p else (do
    unregistered ← remove_target p.dst
    q ← settled r target_absent (text "the target could not be unregistered" ++ shown unregistered)
    publish q
    pure q)

  -- A source that is not registered is registered again.
  unfoldable pub return_source : Report → Pair → M W Pair
  unfolding source_returned shown
  return_source r p =
      if p.src == 0
      then (do
        registered ← try (call (Call.register r.source_vmx))
        q ←
            settled r source_returned
              (text "the source could not be registered again" ++ shown registered)
        publish q
        pure q)
      else pure p

  -- The job's own snapshot is merged, where there is one, and no other is touched.
  unfoldable pub merge_own : ℕ → Text → List Text → M W (Unit {0})
  unfolding one_name
  merge_own id name names =
      if length names == 0
      then pure tt
      else if one_name names name
      then call (Call.consolidate id name)
      else raise (failure (text "the source has snapshots this job did not take"))

  unfoldable pub show_power : Reply Power → M W (Unit {0})
  unfolding source_power_is
  show_power (got p) = update (source_power_is p)
  show_power (lost e) = pure tt

  -- restoreSource.
  unfoldable pub restore_source : Report → Text → M W (Unit {0})
  unfolding snapshot_names source_names
  restore_source r name = do
    p ← registrations r.source_vmx r.target_vmx
    publish p
    q ← drop_target r p
    s ← return_source r q
    tree ← call (Call.snapshot s.src)
    names ← lift (snapshot_names tree)
    merge_own s.src name names
    merged s.src r.source_vmx (source_names r)
    power ← try (call (Call.power s.src))
    show_power power
    call (Call.finish r.id)
