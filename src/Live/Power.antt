-- ===== src/Live/Power.antt =====
-- The power of a machine that a live migration unregisters (internal/migration/live.go).
use esxi_mover.Prelude.{ℕ, ◌≡◌, refl, sym, subst, Bool, true, false, List, [], ◌∷◌, if◌then◌else◌}
use esxi_mover.Prelude.Text.{Text}
use esxi_mover.Types.{Reply, Disk, Options, Report}
use esxi_mover.Job.{State, Phase}
use esxi_mover.Host.{Call, Answer, Event, Host, St, call, update, phase}
use esxi_mover.Host.Hoare.{
  Keeps, Keeps-bind, Keeps-try, Keeps-on_option, Keeps-then, Keeps-pure, Keeps-raise, Keeps-require,
  Keeps-lift,
}
use esxi_mover.Host.Outcome.{Ends}
use esxi_mover.Host.Carry.{try-WithValue, Keeps-insist}
use esxi_mover.Host.Under.{Under, Keeps-then-Under, Under-then, Under-try}
use esxi_mover.Host.Triple.{Triple-Keeps}
use esxi_mover.Host.Trace.{
  Guarded, Always, power_read, proved_off, is_message, is_task, Tasks-Always, call-Always,
  update-Always, phase-Always,
}
use esxi_mover.Host.Tasks.{Tasks, Switches, Tasks-Watches}
use esxi_mover.Engine.Power.{require_off-Seen}
use esxi_mover.Engine.Commit.{unregister_off}
use esxi_mover.Engine.Steps.{require_off}
use esxi_mover.Engine.Frame.Steps.{require_off-Keeps}
use esxi_mover.Engine.Frame.Clone.{wait_clone-Keeps}
use esxi_mover.Engine.Frame.Run.{launch-Keeps}
use esxi_mover.Engine.Run.{launch}
use esxi_mover.Live.Checks.{merged}
use esxi_mover.Live.Frame.Reads.{merged-Keeps}
use esxi_mover.Live.Merge.{remove_copy, remove_target}
use esxi_mover.Live.Run.{run_live}
use esxi_mover.Live.Frame.Merge.{Merging, leave_clone-Keeps}
use esxi_mover.Live.Frame.Run.{Cloning, run_live-at}

-- The calls that start no machine: questions asked about, files read and snapshots merged.
abbrev pub is_idle : Call → Bool
is_idle (Call.message id) = true
is_idle (Call.snapshot id) = true
is_idle (Call.read_file p) = true
is_idle (Call.consolidate id n) = true
is_idle _ = false

-- The last call but for idle ones was for the power of this machine, and it was off.
abbrev pub off_since : ℕ → List Event → Bool
off_since id [] = false
off_since id (e ∷ t) =
    let before = off_since id t in if is_idle e.call then before else power_read id e.call e.reply

-- An unregistering is safe for a machine that has been off.
abbrev pub UnregistersOff : Call → List Event → Type 0
UnregistersOff (Call.unregister id) t = off_since id t ≡ true
UnregistersOff _ t = Unit

abbrev StaysOff : {W : Type 0} → ℕ → St W → Type 0
StaysOff id s = off_since id s.trace ≡ true

module _ (id : ℕ) (t : List Event) (earlier : proved_off id t ≡ true → off_since id t ≡ true) where
  event-since :
      (c : Call) (x : Reply (Answer c))
      → (if is_message c then proved_off id t else power_read id c x) ≡ true
      → (if is_idle c then off_since id t else power_read id c x) ≡ true
  event-since (Call.message n) x h = earlier h
  event-since (Call.snapshot n) x h = cc h
  event-since (Call.read_file p) x h = cc h
  event-since (Call.consolidate n name) x h = cc h
  event-since _ x h = h

proved-since : (id : ℕ) (t : List Event) → proved_off id t ≡ true → off_since id t ≡ true
proved-since id [] h = h
proved-since id (e ∷ t) h = event-since id t (proved-since id t) e.call e.reply h

task-off : (c : Call) → is_task c ≡ true → (t : List Event) → UnregistersOff c t
task-off (Call.unregister id) h t = cc h
task-off _ h t = tt

module _ {W : Type 0} ⦃host : Host W⦄ where
  require_off-Stays : (id : ℕ) → Ends {W = W} (λ a s. StaysOff id s) (require_off id)
  require_off-Stays id = record {
    at = λ s a h. proved-since id (require_off id s).1.trace ((require_off-Seen id).at s a h);
  }

  tasks : Tasks {W = W} (Always UnregistersOff)
  tasks = Tasks-Always UnregistersOff task-off

  switches : Switches {W = W} (Always UnregistersOff)
  switches = record {
    register-Keeps = λ p. call-Always UnregistersOff (Call.register p) (λ t. tt);
    power_on-Keeps = λ id. call-Always UnregistersOff (Call.power_on id) (λ t. tt);
    answer-Keeps = λ id q c. call-Always UnregistersOff (Call.answer id q c) (λ t. tt);
  }

  unregister-Under :
      (id : ℕ) → Under {W = W} (StaysOff id) (Always UnregistersOff) (call (Call.unregister id))
  unfolding call
  unregister-Under id = record { at = λ s off h. (off, h) }

  idle-Stays : (id : ℕ) (c : Call) → is_idle c ≡ true → Keeps {W = W} (StaysOff id) (call c)
  unfolding call
  idle-Stays id c idle = record { at = λ s h. rw idle h }

  update-Stays : (id : ℕ) (f : State → State) → Keeps {W = W} (StaysOff id) (update f)
  unfolding update
  update-Stays id f = record { at = λ s h. h }

  phase-Stays : (id : ℕ) (p : Phase) (m : Text) → Keeps {W = W} (StaysOff id) (phase p m)
  unfolding phase
  phase-Stays id p m = update-Stays id _

  consolidate-kept :
      (id : ℕ) (n : Text) → Keeps {W = W} (Always UnregistersOff) (call (Call.consolidate id n))
  consolidate-kept id n = call-Always UnregistersOff (Call.consolidate id n) (λ t. tt)

  merged-Stays :
      (id other : ℕ) (vmx : Text) (names : List (Text × Text))
      → Keeps {W = W} (StaysOff id) (merged other vmx names)
  unfolding merged
  merged-Stays id other vmx names =
      Keeps-bind _ _ (idle-Stays id (Call.snapshot other) refl) λ tree.
        Keeps-then _ _ (Keeps-require _ _) (
          Keeps-bind _ _ (idle-Stays id (Call.read_file vmx) refl) λ raw.
            Keeps-bind _ _ (Keeps-lift _)
              λ cfg. Keeps-on_option _ _ _ (Keeps-pure tt) (λ k. Keeps-raise _))

  unregister_off-kept : (id : ℕ) → Keeps {W = W} (Always UnregistersOff) (unregister_off id)
  unfolding unregister_off
  unregister_off-kept id =
      Keeps-then-Under _ _ (require_off-Keeps tasks.frame id) (require_off-Stays id) (
        Under-then _ _ (phase-Stays id _ _) (phase-Always UnregistersOff _ _) (
          Under-then _ _ (update-Stays id _) (update-Always UnregistersOff _)
            (Under-try _ (unregister-Under id))))

  remove_copy-kept :
      (r : Report) (n : Text) (id : ℕ) → Keeps {W = W} (Always UnregistersOff) (remove_copy r n id)
  unfolding remove_copy
  remove_copy-kept r n id =
      Keeps-then-Under _ _ (require_off-Keeps tasks.frame id) (require_off-Stays id) (
        Under-then _ _ (idle-Stays id (Call.consolidate id n) refl) (consolidate-kept id n) (
          Under-then _ _ (merged-Stays id id _ _) (merged-Keeps tasks.frame _ _ _)
            (Under-try _ (unregister-Under id))))

  remove_target-kept : (id : ℕ) → Keeps {W = W} (Always UnregistersOff) (remove_target id)
  unfolding remove_target
  remove_target-kept id =
      Keeps-insist _ _ _ (Keeps-try _ (require_off-Keeps tasks.frame id))
        (try-WithValue (StaysOff id) _ (require_off-Stays id)) (Under-try _ (unregister-Under id))

  merging : Merging {W = W} (Always UnregistersOff)
  merging = record {
    tasks = tasks;
    switches = switches;
    create_snapshot-Keeps =
        λ id n. call-Always UnregistersOff (Call.create_snapshot id n) (λ t. tt);
    consolidate-Keeps = consolidate-kept;
    copy_to_target-Keeps = λ p d. call-Always UnregistersOff (Call.copy_to_target p d) (λ t. tt);
    finish-Keeps = λ id. call-Always UnregistersOff (Call.finish id) (λ t. tt);
    unregister_off-Keeps = unregister_off-kept;
    remove_copy-Keeps = remove_copy-kept;
    remove_target-Keeps = remove_target-kept;
  }

  launch-kept :
      (r : Report) (i : ℕ) (d : Disk) → Keeps {W = W} (Always UnregistersOff) (launch r i d false)
  launch-kept r i d = launch-Keeps tasks.frame r i d false (
      call-Always UnregistersOff (Call.start_clone r.id i r.vm.id d.source d.target false)
        (λ t. tt))

  cloning : Cloning {W = W} (Always UnregistersOff) (Always UnregistersOff)
  cloning = record {
    weak = λ s h. h;
    Pending = λ i s. Always UnregistersOff s;
    Ended = λ i x s. Always UnregistersOff s;
    launched = λ r i d. Triple-Keeps _ (launch-kept r i d) (λ s h. h);
    waited =
        λ o r i fuel. Triple-Keeps _ (wait_clone-Keeps (Tasks-Watches tasks) o r i fuel) (λ s h. h);
    left = λ r name i x. Triple-Keeps _ (leave_clone-Keeps merging r name x) (λ s h. h);
  }

  -- In a live migration that begins with no call made, whatever the host answers and the operator
  -- does, every unregistering of a machine is called for when the machine was last seen to be off:
  -- since its power was read as off the host was only asked about open questions and snapshots, for
  -- files, or to merge a snapshot.
  pub run_live-off_since :
      (o : Options) (fuel : ℕ) (s : St W)
      → s.trace ≡ []
      → Always UnregistersOff (run_live o fuel s).1
  run_live-off_since o fuel s new =
      run_live-at merging cloning o fuel tasks.frame s (subst (Guarded UnregistersOff) (sym new) tt)
