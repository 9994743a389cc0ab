-- ===== src/Engine/Frame/Run.antt =====
-- A whole cold migration keeps what its calls keep.
use esxi_mover.Prelude.{
  ℕ, suc, refl, inl, inr, true, false, List, [], ◌∷◌, ◌≡◌, Bool, if◌then◌else◌,
}
use esxi_mover.Prelude.Text.{Text}
use esxi_mover.Types.{Err, is_move, Disk, Options, Report, Reply, got, lost}
use esxi_mover.Job.{State, Phase}
use esxi_mover.Host.{Host, St, M, call, Call, get_job, try, ◌>>=◌, after}
use esxi_mover.Host.Hoare.{
  Keeps, Keeps-then, Keeps-bind, Keeps-if, Keeps-get_job, Keeps-now, Keeps-pure, Keeps-try,
  Keeps-raise, Keeps-require, Keeps-on_option, Keeps-on_reply, Keeps-when,
}
use esxi_mover.Host.Outcome.{Keeps-given}
use esxi_mover.Host.Frame.{Frame, phase-Keeps, Tame, is_unknown}
use esxi_mover.Host.Tasks.{Tasks, Tasks-Watches, Switches}
use esxi_mover.Engine.Frame.Steps.{
  inspected-Keeps, guard-Keeps, require_off-Keeps, verify_disk-Keeps, verify_disks-Keeps,
  copy_config-Keeps, shutdown-Keeps,
}
use esxi_mover.Engine.Frame.Clone.{wait_clone-Keeps}
use esxi_mover.Engine.Frame.Switch.{commit-Keeps, power_on-Keeps}
use esxi_mover.Engine.Commit.{unregister_off}
use esxi_mover.Engine.Clone.{Exit}
use esxi_mover.Engine.Fresh.{prepare-request}
use esxi_mover.Engine.Run.{
  naming, begin_disk, verified, completed, exit_error, stop_point, start_disk, launch, launch_off,
  clone_disk, clone_disks, build_target, switch_over, finish_run, prepare, run_plan, run,
  stopped_state, failed_state, end_stopped, ended_with, run_cold,
}

module _ {W A : Type 0} {I : St W → Type 0} where
  pub naming-Keeps : (m : Text) (action : M W A) → Keeps I action → Keeps I (naming m action)
  unfolding naming
  naming-Keeps m action k =
      Keeps-bind _ _ (Keeps-try action k)
        λ reply. Keeps-on_reply reply _ _ (λ a. Keeps-pure a) (λ e. Keeps-raise _)

module _ {W : Type 0} ⦃host : Host W⦄ {I : St W → Type 0} where
  pub launch-Keeps :
      Frame I
      → (r : Report) (i : ℕ) (d : Disk) (b : Bool)
      → Keeps I (call (Call.start_clone r.id i r.vm.id d.source d.target b))
      → Keeps I (launch r i d b)
  unfolding launch
  launch-Keeps frame r i d b k = Keeps-bind _ _ (Keeps-try _ k) λ reply.
      Keeps-on_reply reply _ _ (λ done. Keeps-pure tt)
        λ e. phase-Keeps frame Phase.reconnecting _ refl

  pub start_disk-Keeps : Frame I → (m : Text) (i : ℕ) (d : Disk) → Keeps I (start_disk m i d)
  unfolding start_disk begin_disk
  start_disk-Keeps frame m i d = Keeps-bind _ _ Keeps-now λ t. frame.updates _ (λ s. inr refl)

  -- A clone whose own call is allowed.
  pub launch_off-Keeps :
      Frame I
      → (r : Report) (i : ℕ) (d : Disk)
      → Keeps I (call (Call.start_clone r.id i r.vm.id d.source d.target true))
      → Keeps I (launch_off r i d)
  unfolding launch_off
  launch_off-Keeps frame r i d k =
      Keeps-then _ _ (require_off-Keeps frame r.vm.id) (launch-Keeps frame r i d true k)

  pub stop_point-Keeps : Keeps I stop_point
  unfolding stop_point
  stop_point-Keeps =
      Keeps-bind _ _ Keeps-get_job λ j. Keeps-if _ _ _ (Keeps-raise _) (Keeps-pure tt)

module _ {W : Type 0} {I : St W → Type 0} where
  exit_error-Keeps : (x : Exit) → Keeps I (exit_error x)
  unfolding exit_error
  exit_error-Keeps x = Keeps-on_option x.error _ _ (Keeps-pure tt) (λ e. Keeps-raise e)

module _ {W : Type 0} ⦃host : Host W⦄ {I : St W → Type 0} (tasks : Tasks I) (o : Options) (fuel : ℕ)
    (r : Report) (launched : (i : ℕ) (d : Disk) → Keeps I (launch_off r i d)) where
  clone_disk-Keeps : (i : ℕ) (d : Disk) (consumed : ℕ) → Keeps I (clone_disk o fuel r i d consumed)
  unfolding clone_disk
  clone_disk-Keeps i d consumed = Keeps-then _ _ stop_point-Keeps (
      Keeps-bind _ _ (guard-Keeps tasks.frame r true consumed) λ checked.
        Keeps-then _ _ (start_disk-Keeps tasks.frame _ i d) (
          Keeps-then _ _ (launched i d) (
            Keeps-bind _ _ (wait_clone-Keeps (Tasks-Watches tasks) o r i fuel) λ x.
              Keeps-then _ _ (exit_error-Keeps x) (
                Keeps-then _ _ (require_off-Keeps tasks.frame r.vm.id) (
                  Keeps-then _ _ (phase-Keeps tasks.frame Phase.verifying_disk _ refl)
                    (naming-Keeps _ _ (verify_disk-Keeps tasks.frame d)))))))

  clone_disks-Keeps :
      (i : ℕ) (ds : List Disk) (consumed : ℕ) → Keeps I (clone_disks o fuel r i ds consumed)
  unfolding clone_disks
  clone_disks-Keeps i [] consumed = Keeps-pure consumed
  clone_disks-Keeps i (d ∷ ds) consumed =
      Keeps-then _ _ (clone_disk-Keeps i d consumed) (clone_disks-Keeps (suc i) ds _)

  pub build_target-Keeps : Keeps I (build_target o fuel r)
  unfolding build_target verified
  build_target-Keeps = Keeps-then _ _ (tasks.create_target-Keeps _) (
      Keeps-bind _ _ (clone_disks-Keeps 0 r.disks 0) λ consumed.
        Keeps-bind _ _ (guard-Keeps tasks.frame r true consumed) λ checked.
          Keeps-then _ _ (tasks.proceed-Keeps Phase.verifying_config _ refl) (
            Keeps-then _ _ (copy_config-Keeps tasks.frame tasks.write_target-Keeps r _ _) (
              Keeps-then _ _ (verify_disks-Keeps tasks.frame r.disks) (
                Keeps-bind _ _ (guard-Keeps tasks.frame r true consumed)
                  λ again. tasks.frame.updates _ (λ s. inl refl)))))

module _ {W : Type 0} ⦃host : Host W⦄ {I : St W → Type 0} (tasks : Tasks I) (o : Options)
    (fuel : ℕ) where
  pub prepare-Keeps : (r : Report) → Keeps I (prepare o fuel r)
  unfolding prepare
  prepare-Keeps r = Keeps-then _ _ (Keeps-require _ _) (
      Keeps-then _ _ (phase-Keeps tasks.frame Phase.preflight _ refl) (
        Keeps-bind _ _ (inspected-Keeps tasks.frame r _) λ first.
          Keeps-then _ _ (naming-Keeps _ _ (tasks.acquire-Keeps _ _)) (
            Keeps-bind _ _ (inspected-Keeps tasks.frame r _) λ fresh.
              Keeps-then _ _
                (shutdown-Keeps tasks o fresh _
                  (Keeps-bind _ _ (inspected-Keeps tasks.frame r _) λ again. Keeps-pure tt) fuel)
                (guard-Keeps tasks.frame r false 0))))

module _ {W : Type 0} ⦃host : Host W⦄ {I : St W → Type 0} (frame : Frame I) (o : Options)
    (fuel : ℕ) where
  pub switch_over-Keeps :
      Switches I
      → ((id : ℕ) → Keeps I (unregister_off id))
      → (r : Report) → Keeps I (switch_over o fuel r)
  unfolding switch_over
  switch_over-Keeps switches off r =
      Keeps-then _ _ (commit-Keeps frame switches r off)
        (Keeps-if _ _ _ (power_on-Keeps frame switches o r fuel) (Keeps-pure tt))

  -- The end of a migration: the switch if one is asked for, and the release of the lock.
  pub finish_run-Keeps :
      (r : Report)
      → (is_move r.request.mode ≡ true → Keeps I (switch_over o fuel r))
      → Keeps I (call (Call.finish r.id))
      → Keeps I (finish_run o fuel r)
  unfolding finish_run completed
  finish_run-Keeps r switch finish =
      Keeps-then _ _ (Keeps-when _ _ switch)
        (Keeps-then _ _ (naming-Keeps _ _ finish) (frame.updates _ (λ s. inr refl)))

-- A failure keeps an unknown phase and sets `failed` otherwise.
unknown_or_failed : (p : Phase) → Tame p (if is_unknown p then Phase.unknown else Phase.failed)
unknown_or_failed Phase.unknown = inl refl
unknown_or_failed _ = inr refl

pub failed-Tame : (e : Err) (s : State) → Tame s.phase (failed_state e s).phase
unfolding failed_state
failed-Tame e s = unknown_or_failed s.phase

-- Run itself: a stopped migration archives its lock, a failed one does not.
module _ {W : Type 0} ⦃host : Host W⦄ {I : St W → Type 0} (tasks : Tasks I) where
  pub end_stopped-Keeps : ((id : Text) → Keeps I (call (Call.finish id))) → Keeps I end_stopped
  unfolding end_stopped stopped_state
  end_stopped-Keeps finish = Keeps-bind _ _ Keeps-get_job λ j.
      Keeps-bind _ _ (Keeps-try _ (finish j.plan.id)) λ reply. tasks.frame.updates _ (λ s. inr refl)

  ended_with-Keeps :
      ((id : Text) → Keeps I (call (Call.finish id)))
      → (x : Reply (Unit {0})) → Keeps I (ended_with x)
  unfolding ended_with
  ended_with-Keeps finish (got done) = Keeps-pure tt
  ended_with-Keeps finish (lost e) =
      Keeps-if _ _ _ (end_stopped-Keeps finish) (tasks.frame.updates _ (failed-Tame e))

-- A run from a state, whose plan says what is asked.
module _ {W : Type 0} ⦃host : Host W⦄ {I : St W → Type 0} (tasks : Tasks I) (o : Options)
    (fuel : ℕ) where
  cold-Keeps :
      ((r : Report) (i : ℕ) (d : Disk) → Keeps I (launch_off r i d))
      → (plan : Report) → ((r : Report) → r.request ≡ plan.request → Keeps I (finish_run o fuel r))
      → Keeps I (run_plan o fuel plan)
  unfolding run_plan
  cold-Keeps launched plan finish =
      Keeps-given (λ r. r.request ≡ plan.request) _ _ (prepare-Keeps tasks o fuel plan)
        (prepare-request o fuel plan)
        λ r same.
          Keeps-then _ _ (tasks.frame.jobs _ (λ k. inl refl))
            (Keeps-then _ _ (build_target-Keeps tasks o fuel r (launched r)) (finish r same))

  pub run_cold-at :
      ((r : Report) (i : ℕ) (d : Disk) → Keeps I (launch_off r i d))
      → ((id : Text) → Keeps I (call (Call.finish id)))
      → (s : St W) → ((r : Report) → r.request ≡ s.job.plan.request → Keeps I (finish_run o fuel r))
      → I s
      → I (run_cold o fuel s).1
  unfolding run_cold run get_job ◌>>=◌ after try
  run_cold-at launched finish s move h =
      (Keeps-bind _ _ (Keeps-try _ (cold-Keeps launched s.job.plan move))
          λ x. ended_with-Keeps tasks finish x).at
        s h
