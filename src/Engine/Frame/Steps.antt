-- ===== src/Engine/Frame/Steps.antt =====
-- The guard, the registrations, the verification and the shutdown keep what their calls keep.
use esxi_mover.Prelude.{ℕ, zero, suc, refl, inl, List, [], ◌∷◌, Bool}
use esxi_mover.Prelude.Text.{Text}
use esxi_mover.Types.{is_off, Vm, Datastore, Disk, ConfigFile, Config, Options, Report, Progress}
use esxi_mover.Job.{Action}
use esxi_mover.Host.{Call, Host, St, M, call, update, modify}
use esxi_mover.Host.Hoare.{Keeps, Keeps-then, Keeps-bind, Keeps-if, Keeps-on_option, Keeps-get_job}
use esxi_mover.Host.Frame.{Frame, read_rules, await-Keeps}
use esxi_mover.Host.Tasks.{Tasks}
use esxi_mover.Verify.{verify_disk, verify_disks, copy_file, copy_files, check_written, copy_config}
use esxi_mover.Engine.Steps.{
  Pair, inspected, guard, require_off, canonical_of, count_registered, registrations, publish,
  published,
}
use esxi_mover.Engine.Shutdown.{
  receive, obey, ask_operator, shutdown_round, shutdown_loop, request_shutdown, shutdown,
  source_off, without_action, set_down,
}

module _ {W : Type 0} ⦃host : Host W⦄ {I : St W → Type 0} (frame : Frame I) where
  pub inspected-Keeps : (r : Report) (done : Progress) → Keeps I (inspected r done)
  unfolding inspected
  inspected-Keeps r done = search read_rules depth 40

  pub guard-Keeps :
      (r : Report) (created : Bool) (consumed : ℕ) → Keeps I (guard r created consumed)
  unfolding guard
  guard-Keeps r created consumed = search (read_rules, inspected-Keeps) depth 40

  pub require_off-Keeps : (id : ℕ) → Keeps I (require_off id)
  unfolding require_off
  require_off-Keeps id = search read_rules depth 40

  canonical_of-Keeps : (v : Vm) (ds : List Datastore) → Keeps I (canonical_of v ds)
  unfolding canonical_of
  canonical_of-Keeps v ds = search read_rules depth 40

  count_registered-Keeps :
      (source target : Text) (ds : List Datastore) (vs : List Vm) (known : Pair)
      → Keeps I (count_registered source target ds vs known)
  unfolding count_registered
  count_registered-Keeps source target ds [] known = search read_rules
  count_registered-Keeps source target ds (v ∷ vs) known =
      search (read_rules, canonical_of-Keeps, count_registered-Keeps source target ds vs) depth 40

  pub registrations-Keeps : (source target : Text) → Keeps I (registrations source target)
  unfolding registrations
  registrations-Keeps source target = search (read_rules, count_registered-Keeps) depth 40

  pub publish-Keeps : (p : Pair) → Keeps I (publish p)
  unfolding publish
  publish-Keeps p = frame.updates (published p) (λ s. inl refl)

  pub verify_disk-Keeps : (d : Disk) → Keeps I (verify_disk d)
  unfolding verify_disk
  verify_disk-Keeps d = search read_rules depth 40

  pub verify_disks-Keeps : (ds : List Disk) → Keeps I (verify_disks ds)
  unfolding verify_disks
  verify_disks-Keeps [] = search read_rules
  verify_disks-Keeps (d ∷ ds) = search (Keeps-then, verify_disk-Keeps d, verify_disks-Keeps ds)

  pub source_off-Keeps : Keeps I (update source_off)
  unfolding source_off
  source_off-Keeps = frame.updates source_off (λ s. inl refl)

  set_down-Keeps : (t : ℕ) → Keeps I (update (set_down t))
  unfolding set_down
  set_down-Keeps t = frame.updates (set_down t) (λ s. inl refl)

  without_action-Keeps : Keeps I (modify without_action)
  unfolding without_action
  without_action-Keeps = frame.jobs without_action (λ j. inl refl)

  receive-Keeps : (fuel : ℕ) → Keeps I (receive fuel)
  unfolding receive
  receive-Keeps zero = search read_rules
  receive-Keeps (suc fuel) = Keeps-bind _ _ (await-Keeps frame) λ x.
      Keeps-bind _ _ Keeps-get_job λ j.
        Keeps-on_option _ _ _ (receive-Keeps fuel)
          λ a. search (read_rules, without_action-Keeps) depth 40

  check_written-Keeps :
      (r : Report) (c : Text) (names : List (Text × Text)) → Keeps I (check_written r c names)
  unfolding check_written
  check_written-Keeps r c names = search read_rules depth 40

module _ {W : Type 0} ⦃host : Host W⦄ {I : St W → Type 0} (frame : Frame I)
    (write_target-Keeps : (d n c : Text) → Keeps I (call (Call.write_target d n c))) where
  copy_file-Keeps : (r : Report) (f : ConfigFile) → Keeps I (copy_file r f)
  unfolding copy_file
  copy_file-Keeps r f = search (read_rules, frame, write_target-Keeps) depth 40

  copy_files-Keeps : (r : Report) (fs : List ConfigFile) → Keeps I (copy_files r fs)
  unfolding copy_files
  copy_files-Keeps r [] = search read_rules
  copy_files-Keeps r (f ∷ fs) = search (Keeps-then, copy_file-Keeps r f, copy_files-Keeps r fs)

  pub copy_config-Keeps :
      (r : Report) (c : Config) (names : List (Text × Text)) → Keeps I (copy_config r c names)
  unfolding copy_config
  copy_config-Keeps r c names =
      search (read_rules, write_target-Keeps, copy_files-Keeps, check_written-Keeps frame) depth 40

module _ {W : Type 0} ⦃host : Host W⦄ {I : St W → Type 0} (tasks : Tasks I) (o : Options)
    (r : Report) (check : M W (Unit {0})) (check-Keeps : Keeps I check) where
  obey-Keeps : (a : Action) → Keeps I (obey o r check a)
  unfolding obey
  obey-Keeps Action.stop = search read_rules
  obey-Keeps Action.force = search (Keeps-then, check-Keeps, tasks.force_off-Keeps r.vm.id)
  obey-Keeps _ = search read_rules

  ask_operator-Keeps : (fuel : ℕ) → Keeps I (ask_operator o r check fuel)
  unfolding ask_operator
  ask_operator-Keeps fuel =
      search (read_rules, tasks.frame, receive-Keeps tasks.frame, obey-Keeps) depth 40

  shutdown_round-Keeps : (fuel deadline : ℕ) → Keeps I (shutdown_round o r check fuel deadline)
  unfolding shutdown_round
  shutdown_round-Keeps fuel deadline =
      Keeps-bind _ _ Keeps-get_job
        λ j. search (read_rules, tasks.frame, ask_operator-Keeps, source_off-Keeps) depth 40

  shutdown_loop-Keeps : (fuel deadline : ℕ) → Keeps I (shutdown_loop o r check fuel deadline)
  unfolding shutdown_loop
  shutdown_loop-Keeps zero deadline = search read_rules
  shutdown_loop-Keeps (suc fuel) deadline =
      search (read_rules, shutdown_round-Keeps, shutdown_loop-Keeps fuel) depth 40

  request_shutdown-Keeps : (fuel : ℕ) → Keeps I (request_shutdown o r check fuel)
  unfolding request_shutdown
  request_shutdown-Keeps fuel =
      search
        (
          read_rules,
          tasks.frame,
          tasks.shutdown-Keeps,
          shutdown_loop-Keeps,
          set_down-Keeps tasks.frame,
        )
        depth 40

  pub shutdown-Keeps : (fuel : ℕ) → Keeps I (shutdown o r check fuel)
  unfolding shutdown
  shutdown-Keeps fuel =
      Keeps-if (is_off r.power) _ _ (source_off-Keeps tasks.frame) (request_shutdown-Keeps fuel)
