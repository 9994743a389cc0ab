-- ===== src/Live/Frame/Merge.antt =====
-- The merging ends of a live migration, and its deferred function, keep what their calls keep.
use esxi_mover.Prelude.{ℕ, List, refl, inl}
use esxi_mover.Prelude.Text.{Text}
use esxi_mover.Types.{Err, Reply, got, lost, Power, Report}
use esxi_mover.Job.{Phase}
use esxi_mover.Host.{Call, Host, St, M, call}
use esxi_mover.Host.Hoare.{
  Keeps, Keeps-then, Keeps-bind, Keeps-try, Keeps-if, Keeps-require, Keeps-lift, Keeps-pure,
  Keeps-raise, Keeps-on_reply, Keeps-on_option,
}
use esxi_mover.Host.Frame.{phase-Keeps, power-Keeps, snapshot-Keeps}
use esxi_mover.Host.Tasks.{Tasks, Switches}
use esxi_mover.Engine.Steps.{Pair}
use esxi_mover.Engine.Clone.{Exit}
use esxi_mover.Engine.Commit.{unregister_off}
use esxi_mover.Engine.Frame.Steps.{registrations-Keeps, publish-Keeps}
use esxi_mover.Live.Merge.{
  remove_copy, merge_target, merge_copy, remove_target, drop_target, return_source, merge_own,
  source_power_is, show_power, restore_source,
}
use esxi_mover.Live.Run.{undo, undoing, leave_clone}
use esxi_mover.Live.Frame.Reads.{merged-Keeps, settled-Keeps}

module _ {W : Type 0} ⦃host : Host W⦄ where
  -- What a live migration does besides its clones. The three steps that unregister a machine have a
  -- rule each, since they look at its power first.
  pub record Merging (I : St W → Type 0) : Type 0 where
    pub tasks : Tasks I
    pub switches : Switches I
    pub create_snapshot-Keeps : (id : ℕ) (n : Text) → Keeps I (call (Call.create_snapshot id n))
    pub consolidate-Keeps : (id : ℕ) (n : Text) → Keeps I (call (Call.consolidate id n))
    pub copy_to_target-Keeps : (p d : Text) → Keeps I (call (Call.copy_to_target p d))
    pub finish-Keeps : (id : Text) → Keeps I (call (Call.finish id))
    pub unregister_off-Keeps : (id : ℕ) → Keeps I (unregister_off id)
    pub remove_copy-Keeps : (r : Report) (n : Text) (id : ℕ) → Keeps I (remove_copy r n id)
    pub remove_target-Keeps : (id : ℕ) → Keeps I (remove_target id)

module _ {W : Type 0} ⦃host : Host W⦄ {I : St W → Type 0} (m : Merging I) (r : Report)
    (name : Text) where
  merge_target-Keeps : Keeps I (merge_target r name)
  unfolding merge_target
  merge_target-Keeps = Keeps-bind _ _ (Keeps-try _ (m.switches.register-Keeps _)) λ registered.
      Keeps-bind _ _ (registrations-Keeps m.tasks.frame _ _) λ p.
        Keeps-then _ _ (Keeps-require _ _) (
          Keeps-bind _ _ (m.remove_copy-Keeps r name p.dst)
            λ unregistered. Keeps-bind _ _ (settled-Keeps m.tasks.frame r _ _) λ q. Keeps-pure tt)

  pub merge_copy-Keeps : Keeps I (merge_copy r name)
  unfolding merge_copy
  merge_copy-Keeps = Keeps-then _ _ (phase-Keeps m.tasks.frame Phase.consolidating _ refl) (
      Keeps-then _ _ merge_target-Keeps (
        Keeps-then _ _ (phase-Keeps m.tasks.frame Phase.consolidating _ refl)
          (Keeps-then _ _ (m.consolidate-Keeps _ _) (merged-Keeps m.tasks.frame _ _ _))))

  drop_target-Keeps : (p : Pair) → Keeps I (drop_target r p)
  unfolding drop_target
  drop_target-Keeps p = Keeps-if _ _ _ (Keeps-pure p) (
      Keeps-bind _ _ (m.remove_target-Keeps p.dst) λ unregistered.
        Keeps-bind _ _ (settled-Keeps m.tasks.frame r _ _)
          λ q. Keeps-then _ _ (publish-Keeps m.tasks.frame q) (Keeps-pure q))

  return_source-Keeps : (p : Pair) → Keeps I (return_source r p)
  unfolding return_source
  return_source-Keeps p =
      Keeps-if _ _ _
        (Keeps-bind _ _ (Keeps-try _ (m.switches.register-Keeps _)) λ registered.
          Keeps-bind _ _ (settled-Keeps m.tasks.frame r _ _)
            λ q. Keeps-then _ _ (publish-Keeps m.tasks.frame q) (Keeps-pure q))
        (Keeps-pure p)

  merge_own-Keeps : (id : ℕ) (names : List Text) → Keeps I (merge_own id name names)
  unfolding merge_own
  merge_own-Keeps id names =
      Keeps-if _ _ _ (Keeps-pure tt) (Keeps-if _ _ _ (m.consolidate-Keeps id name) (Keeps-raise _))

  show_power-Keeps : (x : Reply Power) → Keeps I (show_power x)
  unfolding show_power source_power_is
  show_power-Keeps (got p) = m.tasks.frame.updates _ (λ s. inl refl)
  show_power-Keeps (lost e) = Keeps-pure tt

  pub restore_source-Keeps : Keeps I (restore_source r name)
  unfolding restore_source
  restore_source-Keeps = Keeps-bind _ _ (registrations-Keeps m.tasks.frame _ _) λ p.
      Keeps-then _ _ (publish-Keeps m.tasks.frame p) (
        Keeps-bind _ _ (drop_target-Keeps p) λ q. Keeps-bind _ _ (return_source-Keeps q) λ s.
          Keeps-bind _ _ (snapshot-Keeps m.tasks.frame s.src) λ tree.
            Keeps-bind _ _ (Keeps-lift _) λ names. Keeps-then _ _ (merge_own-Keeps s.src names) (
              Keeps-then _ _ (merged-Keeps m.tasks.frame _ _ _) (
                Keeps-bind _ _ (Keeps-try _ (power-Keeps m.tasks.frame s.src))
                  λ power. Keeps-then _ _ (show_power-Keeps power) (m.finish-Keeps r.id))))

  -- The deferred function where it may restore the source.
  pub undo-Keeps : {A : Type 0} (e : Err) → Keeps I (undo r name {A = A} e)
  unfolding undo
  undo-Keeps e = Keeps-then _ _ (phase-Keeps m.tasks.frame Phase.restoring _ refl) (
      Keeps-bind _ _ (Keeps-try _ restore_source-Keeps)
        λ x. Keeps-on_reply x _ _ (λ done. Keeps-raise _) (λ why. Keeps-raise _))

  pub undoing-Keeps : {A : Type 0} (k : M W A) → Keeps I k → Keeps I (undoing r name k)
  unfolding undoing
  undoing-Keeps k kk =
      Keeps-bind _ _ (Keeps-try _ kk)
        λ x. Keeps-on_reply x _ _ (λ a. Keeps-pure a) (λ e. undo-Keeps e)

  pub leave_clone-Keeps : (x : Exit) → Keeps I (leave_clone r name x)
  unfolding leave_clone
  leave_clone-Keeps x =
      Keeps-on_option x.error _ _ (Keeps-pure tt)
        (λ e. Keeps-if _ _ _ (undo-Keeps e) (Keeps-raise _))
