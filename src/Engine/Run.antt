-- ===== src/Engine/Run.antt =====
-- `Run`, `run` and `stopped` of internal/migration/engine.go for a cold migration, and `markFailed`
-- of internal/migration/live.go.
use esxi_mover.Prelude.{ℕ, suc, ◌+◌, Bool, true, false, List, [], ◌∷◌, ◌++◌, ◌==◌, if◌then◌else◌}
use esxi_mover.Prelude.Text.{Text, text, decimal}
use esxi_mover.Types.{
  Err, stopped, failure, wrapped, Reply, got, lost, describe, is_stopped, is_move, Mode, copy, move,
  other_mode, Power, on, off, suspended, unread, Disk, Options, Report,
}
use esxi_mover.Job.{State, Phase, Shown}
use esxi_mover.Host.{
  Call, Host, M, ◌>>=◌, ◌>>◌, pure, raise, require, try, get_job, modify, now, call, update, phase,
  proceed, on_option, on_reply,
}
use esxi_mover.Host.Frame.{is_unknown}
use esxi_mover.Engine.Steps.{inspected, guard, require_off}
use esxi_mover.Engine.Shutdown.{shutdown}
use esxi_mover.Engine.Clone.{Exit, wait_clone}
use esxi_mover.Engine.Commit.{commit}
use esxi_mover.Engine.Start.{power_on}
use esxi_mover.Verify.{verify_disk, verify_disks, disk_names, copy_config}

-- `fmt.Errorf("...: %w", err)` around the error of an action.
module _ {W A : Type 0} where
  unfoldable pub naming : Text → M W A → M W A
  naming m action = do reply ← try action; on_reply reply (λ a. pure a) λ e. raise (wrapped m e [])

mode_text : Mode → Text
mode_text copy = text "COPY"
mode_text move = text "MOVE"
mode_text (other_mode m) = m

-- The metadata of the operation lock.
unfoldable pub lock_meta : Report → Text → Text
unfolding mode_text
lock_meta r kind =
    text "source="
    ++ r.source_vmx
    ++ text "\ntarget="
    ++ r.target_vmx
    ++ text "\nmode="
    ++ kind
    ++ mode_text r.request.mode
    ++ text "\n"

-- autostartNote.
unfoldable pub autostart_note : Report → Text
unfolding is_move decimal
autostart_note r =
    if is_move r.request.mode
    then if r.autostart == 0
      then []
      else text " The source was in the host's autostart (position "
        ++ decimal r.autostart
        ++ text "); turn autostart on for the migrated VM under Host › Manage › System › Autostart."
    else []

unfoldable pub begin_disk : Text → ℕ → Disk → ℕ → State → State
begin_disk m i d t s = record s {
  phase = Phase.cloning;
  message = m;
  disk_index = i + 1;
  current_disk = d.source;
  progress = 0;
  disk_started = t;
  disk_bytes = d.provisioned;
}

unfoldable pub verified : State → State
verified s = record s { target_verified = true }

unfoldable pub completed : Text → State → State
completed m s = record s {
  phase = Phase.completed;
  message = m;
  complete = true;
  can_rollback = false;
  source_power = Shown.read off;
}

-- The error that the exit of a clone means for the migration.
unfoldable pub exit_error : {W : Type 0} → Exit → M W (Unit {0})
exit_error x = on_option x.error (pure tt) λ e. raise e

module _ {W : Type 0} ⦃host : Host W⦄ where
  unfoldable pub stop_point : M W (Unit {0})
  stop_point = do j ← get_job; if j.stop then raise stopped else pure tt

  unfoldable pub start_disk : Text → ℕ → Disk → M W (Unit {0})
  unfolding begin_disk
  start_disk m i d = do t ← now; update (begin_disk m i d t)

  -- The launch of a clone. Its reply may be lost, and it is never launched again.
  unfoldable pub launch : Report → ℕ → Disk → Bool → M W (Unit {0})
  launch r i d off_only = do
    reply ← try (call (Call.start_clone r.id i r.vm.id d.source d.target off_only))
    on_reply reply (λ done. pure tt)
        λ e.
          phase Phase.reconnecting
            (text "Clone launch result is unknown; inspecting metadata without relaunching")

  -- The last local check of the power; the detached worker checks it again on ESXi.
  unfoldable pub launch_off : Report → ℕ → Disk → M W (Unit {0})
  launch_off r i d = do require_off r.vm.id; launch r i d true

module _ {W : Type 0} ⦃host : Host W⦄ (o : Options) (fuel : ℕ) (r : Report) where
  -- One disk of a cold migration.
  unfoldable pub clone_disk : ℕ → Disk → ℕ → M W (Unit {0})
  clone_disk i d consumed = do
    stop_point
    checked ← guard r true consumed
    start_disk (text "Cloning disk sequentially with vmkfstools") i d
    launch_off r i d
    x ← wait_clone o r i fuel
    exit_error x
    require_off r.vm.id
    phase Phase.verifying_disk
        (text "Verifying target descriptor, extent, capacity, thin format and chain")
    naming (text "target disk verification failed: ") (verify_disk d)

  unfoldable pub clone_disks : ℕ → List Disk → ℕ → M W ℕ
  clone_disks i [] consumed = pure consumed
  clone_disks i (d ∷ ds) consumed = do
    clone_disk i d consumed
    clone_disks (suc i) ds (consumed + d.allocated)

  -- The clones, the configuration and the last look at all of it.
  unfoldable pub build_target : M W (Unit {0})
  unfolding verified
  build_target = do
    call (Call.create_target r.target_dir)
    consumed ← clone_disks 0 r.disks 0
    checked ← guard r true consumed
    proceed Phase.verifying_config
        (text "Copying only selected configuration files and verifying target VMX")
    copy_config r r.target_config (disk_names r.disks [])
    verify_disks r.disks
    again ← guard r true consumed
    update verified

  -- A switch, and the start of the target if it was asked for.
  unfoldable pub switch_over : M W (Unit {0})
  switch_over = do commit r; if r.request.power_on then power_on o r fuel else pure tt

  unfoldable pub finish_run : M W (Unit {0})
  unfolding completed autostart_note is_move
  finish_run = do
    if is_move r.request.mode then switch_over else pure tt
    naming (text "migration finished but transient lock archive failed; manual review required: ")
        (call (Call.finish r.id))
    update (completed (text "Completed. No source VM files were deleted." ++ autostart_note r))

module _ {W : Type 0} ⦃host : Host W⦄ (o : Options) (fuel : ℕ) where
  -- Everything before the first clone: two checks, the lock between them, and the shutdown.
  unfoldable pub prepare : Report → M W Report
  unfolding lock_meta
  prepare r = do
    require r.ready (failure (text "analysis was blocked"))
    phase Phase.preflight (text "Repeating all critical safety checks")
    first ← inspected r (record { own_lock = false; target_created = false; consumed = 0 })
    naming (text "cannot acquire host operation lock: ") (call (Call.acquire r.id (lock_meta r [])))
    fresh ← inspected r (record { own_lock = true; target_created = false; consumed = 0 })
    shutdown o fresh
        (do
          again ← inspected r (record { own_lock = true; target_created = false; consumed = 0 })
          pure tt)
        fuel
    guard r false 0

  unfoldable pub run_plan : Report → M W (Unit {0})
  run_plan plan = do
    cold ← prepare plan
    modify (λ k. record k { plan = cold })
    build_target o fuel cold
    finish_run o fuel cold

  -- run.
  unfoldable pub run : M W (Unit {0})
  run = do j ← get_job; run_plan j.plan

power_text : Power → Text
power_text off = text "Powered off"
power_text on = text "Powered on"
power_text suspended = text "Suspended"
power_text unread = []

shown_text : Shown → Text
unfolding power_text
shown_text (Shown.read p) = power_text p
shown_text Shown.not_running = text "not running (unregistered)"
shown_text Shown.unsure_power = text "unknown"

lock_error : Reply (Unit {0}) → Text → Text
unfolding describe
lock_error (got done) old = old
lock_error (lost e) old = text "The operation lock could not be archived: " ++ describe e

unfoldable pub stopped_state : Reply (Unit {0}) → State → State
unfolding shown_text lock_error
stopped_state reply s = record s {
  phase = Phase.ended;
  complete = true;
  message =
      text "Stopped by you. The source is still registered ("
      ++ shown_text s.source_power
      ++ text
          "); if it was shut down, start it in Host Client. Nothing was registered on the target; its partial folder is kept.";
  error = lock_error reply s.error;
}

-- markFailed: an unknown outcome stays one.
unfoldable pub failed_state : Err → State → State
unfolding describe
failed_state e s = record s {
  phase = if is_unknown s.phase then Phase.unknown else Phase.failed;
  message =
      if is_unknown s.phase
      then s.message
      else text
          "Stopped. Source files are preserved. Review the exact registration state before taking action.";
  error = describe e;
  complete = true;
}

module _ {W : Type 0} ⦃host : Host W⦄ where
  -- stopped.
  unfoldable pub end_stopped : M W (Unit {0})
  unfolding stopped_state
  end_stopped = do
    j ← get_job
    reply ← try (call (Call.finish j.plan.id))
    update (stopped_state reply)

  unfoldable pub ended_with : Reply (Unit {0}) → M W (Unit {0})
  unfolding failed_state is_stopped
  ended_with (got done) = pure tt
  ended_with (lost e) = if is_stopped e then end_stopped else update (failed_state e)

module _ {W : Type 0} ⦃host : Host W⦄ (o : Options) (fuel : ℕ) where
  -- Run, for a request that is not live.
  unfoldable pub run_cold : M W (Unit {0})
  run_cold = do reply ← try (run o fuel); ended_with reply
