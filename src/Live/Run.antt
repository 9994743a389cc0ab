-- ===== src/Live/Run.antt =====
-- `live` and `runLive` of internal/migration/live.go: a migration that clones the base disks behind
-- a snapshot while the machine runs. The deferred function of `live` runs at the first error; what
-- it does hangs on its two variables, which are known at each part: `undoing` where no clone is
-- pending and nothing is switched, `leave_clone` after a clone, and nothing after the switch.
use esxi_mover.Prelude.{
  ℕ, suc, Bool, true, false, Option, none, some, List, [], ◌∷◌, ◌++◌, take, if◌then◌else◌,
}
use esxi_mover.Prelude.Text.{Text, text, ◌≟◌}
use esxi_mover.Prelude.Path.{base}
use esxi_mover.Prelude.Dict.{put}
use esxi_mover.Types.{
  Err, stopped, failure, wrapped, restored, Reply, got, lost, describe, is_on, is_copy, off, Disk,
  Options, Report, Config,
}
use esxi_mover.Job.{State, Phase, Shown}
use esxi_mover.Host.{
  Call, Host, M, ◌>>=◌, ◌>>◌, pure, raise, require, try, get_job, call, update, phase, proceed,
  on_option, on_reply,
}
use esxi_mover.Verify.{verify_disk, disk_names, copy_config}
use esxi_mover.Engine.Steps.{inspected}
use esxi_mover.Engine.Shutdown.{shutdown}
use esxi_mover.Engine.Clone.{Exit, wait_clone}
use esxi_mover.Engine.Commit.{commit}
use esxi_mover.Engine.Start.{power_on}
use esxi_mover.Engine.Run.{
  naming, lock_meta, autostart_note, verified, start_disk, launch, stop_point, failed_state,
}
use esxi_mover.Live.Deltas.{Deltas, delta_of, live_deltas, live_guard}
use esxi_mover.Live.Checks.{same_cid, verify_delta, verify_copies, merged}
use esxi_mover.Live.Metadata.{live_metadata}
use esxi_mover.Live.Merge.{merge_copy, restore_source}

-- liveSnapshot; a job's id has 32 digits.
unfoldable pub live_snapshot : Text → Text
live_snapshot id = text "esxi-mover-" ++ take 8 id

-- The errors that the deferred function returns.
unfoldable pub not_restored : Err → Err → Err
unfolding describe
not_restored e why =
    failure (describe e ++ text "; restoring the source needs manual review: " ++ describe why)

unfoldable pub retained : Text → Err → Err
retained name e = wrapped [] e (
    text "; clone exit was not confirmed: the source snapshot "
    ++ name
    ++ text
        " and operation lock are retained. Confirm the clone has ended on ESXi before merging the snapshot or archiving the lock")

module _ {W : Type 0} ⦃host : Host W⦄ (r : Report) (name : Text) where
  -- The deferred function where the source can be restored.
  unfoldable pub undo : {A : Type 0} → Err → M W A
  unfolding not_restored
  undo e = do
    phase Phase.restoring
        (text "Restoring the source: registering it as before and merging the temporary snapshot")
    reply ← try (restore_source r name)
    on_reply reply (λ done. raise (restored e)) λ why. raise (not_restored e why)

  unfoldable pub undoing : {A : Type 0} → M W A → M W A
  undoing m = do reply ← try m; on_reply reply (λ a. pure a) λ e. undo e

  -- A clone that failed: its source is restored only if its worker's exit was seen.
  unfoldable pub leave_clone : Exit → M W (Unit {0})
  unfolding retained
  leave_clone x =
      on_option x.error (pure tt) λ e. if x.exited then undo e else raise (retained name e)

module _ {W : Type 0} ⦃host : Host W⦄ (o : Options) (fuel : ℕ) (r : Report) (name : Text) where
  -- The disks, one after the other. The stop and the guard come before a clone, the checks after it.
  unfoldable pub live_disk : Deltas → ℕ → Disk → M W (Unit {0})
  live_disk deltas i d = do
    undoing r name (do
      stop_point
      live_guard r name deltas
      start_disk (text "Cloning the base disk while the VM keeps running") i d)
    launch r i d false
    x ← wait_clone o r i fuel
    leave_clone r name x
    undoing r name (do
      phase Phase.verifying_disk (text "Verifying the cloned base disk")
      naming (text "target disk verification failed: ") (verify_disk d)
      same_cid d)

  unfoldable pub live_disks : Deltas → ℕ → List Disk → M W (Unit {0})
  live_disks deltas i [] = pure tt
  live_disks deltas i (d ∷ ds) = do live_disk deltas i d; live_disks deltas (suc i) ds

module _ {W : Type 0} ⦃host : Host W⦄ where
  -- The deltas are copied, and named.
  unfoldable pub copy_deltas :
      Report → Deltas → List (Text × Text) → List Disk → M W (List (Text × Text))
  unfolding delta_of put base
  copy_deltas r deltas names [] = pure names
  copy_deltas r deltas names (d ∷ ds) = do
    let e = delta_of deltas d.key
    call (Call.copy_to_target e.descriptor r.target_dir)
    call (Call.copy_to_target e.extent r.target_dir)
    copy_deltas r deltas (put names d.key (base e.descriptor)) ds

  -- All the disks and deltas are checked together.
  unfoldable pub verify_chains : Report → Deltas → List Disk → M W (Unit {0})
  unfolding delta_of
  verify_chains r deltas [] = pure tt
  verify_chains r deltas (d ∷ ds) = do
    verify_disk d
    verify_delta r (delta_of deltas d.key)
    verify_chains r deltas ds

-- The target's configuration names the deltas.
unfoldable pub with_names : Config → List (Text × Text) → Config
unfolding put
with_names c [] = c
with_names c ((k, v) ∷ names) = with_names (put c k v) names

module _ {W : Type 0} ⦃host : Host W⦄ (o : Options) (fuel : ℕ) (r fresh : Report) (name : Text)
    (deltas : Deltas) where
  -- The source is shut down, and what changed is copied and verified.
  unfoldable pub cut_over : M W (Unit {0})
  unfolding with_names disk_names verified base
  cut_over = do
    live_guard r name deltas
    proceed Phase.cutover (text "Shutting down the source to copy what changed during the clone")
    shutdown o fresh (live_guard r name deltas) fuel
    live_guard r name deltas
    meta ← live_metadata r name
    phase Phase.cutover (text "Copying the changes and the snapshot metadata to the target")
    names ← copy_deltas r deltas [] r.disks
    call (Call.copy_to_target meta.vmsn r.target_dir)
    call (Call.write_target r.target_dir (base meta.vmsd) meta.target)
    phase Phase.verifying_config
        (text "Writing the target configuration and verifying disks, changes and metadata")
    copy_config r (with_names r.target_config names) (disk_names r.disks names)
    verify_chains r deltas r.disks
    verify_copies r meta
    update verified

copy_done : Text
copy_done =
    text
      "Completed. The copy holds everything up to the shutdown and is left unregistered. The source is off; start it in Host Client when you need it."

move_done : Report → Text
unfolding autostart_note
move_done r =
    text
      "Completed. The VM was down only while the changes were copied. No source VM files were deleted."
    ++ autostart_note r

-- The disk of the first one from another folder.
first_external : List Disk → Option Text
first_external [] = none
first_external (d ∷ ds) = let rest = first_external ds in if d.external then some d.source else rest

never_revert : Option Text → Text
never_revert none = []
never_revert (some p) =
    text " Never revert to it: its saved configuration still names the source disk "
    ++ p
    ++ text "."

warning_text : Report → Text → Text → Text
unfolding never_revert first_external
warning_text r name w =
    text "The target's temporary snapshot "
    ++ name
    ++ text " could not be merged ("
    ++ w
    ++ text "). Consolidate it in Host Client."
    ++ never_revert (first_external r.disks)

-- The last state; a warning becomes its error.
unfoldable pub live_completed : Report → Text → Text → Text → State → State
unfolding warning_text
live_completed r name message warning s = record s {
  phase = Phase.completed;
  message = message;
  complete = true;
  can_rollback = false;
  source_power = Shown.read off;
  error = if warning ≟ [] then s.error else warning_text r name warning;
}

unfoldable pub warning_of : Reply (Unit {0}) → Text
unfolding describe
warning_of (got done) = []
warning_of (lost e) = describe e

module _ {W : Type 0} ⦃host : Host W⦄ (r : Report) where
  unfoldable pub live_finish : M W (Unit {0})
  live_finish =
      naming (text "migration finished but transient lock archive failed; manual review required: ")
        (call (Call.finish r.id))

module _ {W : Type 0} ⦃host : Host W⦄ (r : Report) (name : Text) where
  -- The merge on the target is housekeeping: its failure is a warning.
  unfoldable pub consolidate_target : M W Text
  unfolding warning_of disk_names
  consolidate_target = do
    j ← get_job
    phase Phase.consolidating (text "Merging the temporary snapshot on the target")
    reply ← try (do
      call (Call.consolidate j.state.target_vmid name)
      merged j.state.target_vmid r.target_vmx (disk_names r.disks []))
    pure (warning_of reply)

module _ {W : Type 0} ⦃host : Host W⦄ (o : Options) (fuel : ℕ) (r : Report) (name : Text) where
  -- After the switch an error is not undone.
  unfoldable pub live_switch : M W Text
  live_switch = do
    undoing r name (commit r)
    if r.request.power_on then power_on o r fuel else pure tt
    consolidate_target r name

  -- The end of a live migration: for a copy the lock is given up under the deferred function too.
  unfoldable pub live_end : M W (Unit {0})
  unfolding live_completed copy_done move_done is_copy
  live_end =
      if is_copy r.request.mode
      then (do
        undoing r name (do merge_copy r name; live_finish r)
        update (live_completed r name copy_done []))
      else (do
        warning ← live_switch
        live_finish r
        update (live_completed r name (move_done r) warning))

  -- Everything after the snapshot may exist.
  unfoldable pub live_body : Reply (Unit {0}) → Report → M W (Unit {0})
  live_body taken fresh = do
    deltas ← undoing r name (do
      on_reply taken (λ done. pure tt)
          λ e. raise (wrapped (text "the snapshot could not be taken: ") e [])
      found ← live_deltas r name
      call (Call.create_target r.target_dir)
      pure found)
    live_disks o fuel r name deltas 0 r.disks
    undoing r name (cut_over o fuel r fresh name deltas)
    live_end

module _ {W : Type 0} ⦃host : Host W⦄ (o : Options) (fuel : ℕ) where
  -- `check`: the plan still holds and the machine runs.
  unfoldable pub still_on : Report → Bool → M W Report
  still_on r own = do
    fresh ← inspected r (record { own_lock = own; target_created = false; consumed = 0 })
    require (is_on fresh.power) (
        failure
          (text "the source is no longer running; analyze again without shutting down at the end"))
    pure fresh

  -- live, from the plan of the job.
  unfoldable pub live_plan : Report → M W (Unit {0})
  unfolding lock_meta live_snapshot
  live_plan r = do
    require r.ready (failure (text "analysis was blocked"))
    phase Phase.preflight (text "Repeating all critical safety checks")
    first ← still_on r false
    naming (text "cannot acquire host operation lock: ")
        (call (Call.acquire r.id (lock_meta r (text "live-"))))
    fresh ← still_on r true
    phase Phase.snapshot (text "Taking a temporary snapshot; the VM keeps running")
    taken ← try (call (Call.create_snapshot r.vm.id (live_snapshot r.id)))
    live_body o fuel r (live_snapshot r.id) taken fresh

  unfoldable pub live : M W (Unit {0})
  live = do j ← get_job; live_plan j.plan

-- errors.As for errRestored.
unfoldable pub restored_cause : Err → Option Err
restored_cause stopped = none
restored_cause (failure m) = none
restored_cause (wrapped before e after) = restored_cause e
restored_cause (restored e) = some e

unfoldable pub restored_state : Err → State → State
unfolding describe
restored_state e s = record s {
  phase = Phase.rolled_back;
  error = describe e;
  message =
      text
        "Nothing was switched. The source is registered as before, without the temporary snapshot; if it had already been shut down, start it in Host Client. Files written to the target folder are kept.";
  complete = true;
  can_rollback = false;
}

-- What a failed live migration leaves.
unfoldable pub live_failed : Option Err → Err → State → State
unfolding restored_state failed_state
live_failed (some cause) e s = restored_state cause s
live_failed none e s = failed_state e s

module _ {W : Type 0} ⦃host : Host W⦄ where
  unfoldable pub live_ended : Reply (Unit {0}) → M W (Unit {0})
  unfolding live_failed restored_cause
  live_ended (got done) = pure tt
  live_ended (lost e) = update (live_failed (restored_cause e) e)

module _ {W : Type 0} ⦃host : Host W⦄ (o : Options) (fuel : ℕ) where
  -- runLive.
  unfoldable pub run_live : M W (Unit {0})
  run_live = do reply ← try (live o fuel); live_ended reply
