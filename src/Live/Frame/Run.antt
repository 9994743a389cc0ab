-- ===== src/Live/Frame/Run.antt =====
-- A whole live migration, from what its calls keep and from what a clone does.
use esxi_mover.Prelude.{
  ℕ, suc, List, [], ◌∷◌, refl, inl, inr, Bool, true, false, Option, none, some,
}
use esxi_mover.Prelude.Text.{Text}
use esxi_mover.Prelude.Path.{base}
use esxi_mover.Prelude.Dict.{put}
use esxi_mover.Types.{Err, Reply, got, lost, Disk, Options, Report}
use esxi_mover.Job.{State, Phase}
use esxi_mover.Host.{Host, St, update}
use esxi_mover.Host.Hoare.{
  Keeps, Keeps-then, Keeps-bind, Keeps-try, Keeps-if, Keeps-require, Keeps-pure, Keeps-raise,
  Keeps-on_reply, Keeps-get_job,
}
use esxi_mover.Host.Frame.{Frame, Tame, phase-Keeps}
use esxi_mover.Host.Triple.{Triple, Triple-bind, Triple-then, Triple-Keeps, Triple-state}
use esxi_mover.Host.Under.{Under-first, Under-try}
use esxi_mover.Engine.Clone.{Exit, wait_clone}
use esxi_mover.Engine.Frame.Steps.{
  inspected-Keeps, verify_disk-Keeps, shutdown-Keeps, copy_config-Keeps,
}
use esxi_mover.Engine.Frame.Switch.{commit-Keeps, power_on-Keeps}
use esxi_mover.Engine.Frame.Run.{naming-Keeps, stop_point-Keeps, start_disk-Keeps, failed-Tame}
use esxi_mover.Engine.Run.{launch, verified}
use esxi_mover.Live.Deltas.{Deltas, delta_of}
use esxi_mover.Live.Run.{
  leave_clone, live_disk, live_disks, copy_deltas, cut_over, consolidate_target, live_switch,
  live_finish, live_end, live_body, still_on, live_plan, live, live_ended, run_live, live_completed,
  live_failed, restored_cause, restored_state,
}
use esxi_mover.Live.Frame.Reads.{
  live_deltas-Keeps, live_guard-Keeps, same_cid-Keeps, verify_chains-Keeps, verify_copies-Keeps,
  merged-Keeps, live_metadata-Keeps,
}
use esxi_mover.Live.Frame.Merge.{Merging, merge_copy-Keeps, undoing-Keeps}

live_failed-Tame :
    (cause : Option Err) (e : Err) (s : State) → Tame s.phase (live_failed cause e s).phase
unfolding live_failed restored_state
live_failed-Tame none e s = failed-Tame e s
live_failed-Tame (some c) e s = inr refl

module _ {W : Type 0} ⦃host : Host W⦄ {I : St W → Type 0} (m : Merging I) where
  copy_deltas-Keeps :
      (r : Report) (deltas : Deltas) (names : List (Text × Text)) (ds : List Disk)
      → Keeps I (copy_deltas r deltas names ds)
  unfolding copy_deltas
  copy_deltas-Keeps r deltas names [] = Keeps-pure names
  copy_deltas-Keeps r deltas names (d ∷ ds) = Keeps-then _ _ (m.copy_to_target-Keeps _ _) (
      Keeps-then _ _ (m.copy_to_target-Keeps _ _)
        (copy_deltas-Keeps r deltas (put names d.key (base (delta_of deltas d.key).descriptor)) ds))

  cut_over-Keeps :
      (o : Options) (fuel : ℕ) (r fresh : Report) (name : Text) (deltas : Deltas)
      → Keeps I (cut_over o fuel r fresh name deltas)
  unfolding cut_over verified
  cut_over-Keeps o fuel r fresh name deltas =
      Keeps-then _ _ (live_guard-Keeps m.tasks.frame r name deltas) (
        Keeps-then _ _ (m.tasks.proceed-Keeps Phase.cutover _ refl) (
          Keeps-then _ _
            (shutdown-Keeps m.tasks o fresh _ (live_guard-Keeps m.tasks.frame r name deltas) fuel)
            (Keeps-then _ _ (live_guard-Keeps m.tasks.frame r name deltas) (
              Keeps-bind _ _ (live_metadata-Keeps m.tasks.frame r name) λ meta.
                Keeps-then _ _ (phase-Keeps m.tasks.frame Phase.cutover _ refl) (
                  Keeps-bind _ _ (copy_deltas-Keeps r deltas [] r.disks) λ names.
                    Keeps-then _ _ (m.copy_to_target-Keeps _ _) (
                      Keeps-then _ _ (m.tasks.write_target-Keeps _ _ _) (
                        Keeps-then _ _ (phase-Keeps m.tasks.frame Phase.verifying_config _ refl) (
                          Keeps-then _ _
                            (copy_config-Keeps m.tasks.frame m.tasks.write_target-Keeps r _ _)
                            (Keeps-then _ _ (verify_chains-Keeps m.tasks.frame r deltas r.disks) (
                              Keeps-then _ _ (verify_copies-Keeps m.tasks.frame r meta)
                                (m.tasks.frame.updates _ (λ s. inl refl))))))))))))

  consolidate_target-Keeps : (r : Report) (name : Text) → Keeps I (consolidate_target r name)
  unfolding consolidate_target
  consolidate_target-Keeps r name = Keeps-bind _ _ Keeps-get_job λ j.
      Keeps-then _ _ (phase-Keeps m.tasks.frame Phase.consolidating _ refl) (
        Keeps-bind _ _
          (Keeps-try _
            (Keeps-then _ _ (m.consolidate-Keeps _ _) (merged-Keeps m.tasks.frame _ _ _)))
          λ x. Keeps-pure _)

  live_switch-Keeps :
      (o : Options) (fuel : ℕ) (r : Report) (name : Text) → Keeps I (live_switch o fuel r name)
  unfolding live_switch
  live_switch-Keeps o fuel r name =
      Keeps-then _ _
        (undoing-Keeps m r name _ (commit-Keeps m.tasks.frame m.switches r m.unregister_off-Keeps))
        (Keeps-then _ _
          (Keeps-if _ _ _ (power_on-Keeps m.tasks.frame m.switches o r fuel) (Keeps-pure tt))
          (consolidate_target-Keeps r name))

  live_finish-Keeps : (r : Report) → Keeps I (live_finish r)
  unfolding live_finish
  live_finish-Keeps r = naming-Keeps _ _ (m.finish-Keeps r.id)

  live_completed-Keeps :
      (r : Report) (name message warning : Text)
      → Keeps I (update (live_completed r name message warning))
  unfolding live_completed
  live_completed-Keeps r name message warning = m.tasks.frame.updates _ (λ s. inr refl)

  live_end-Keeps :
      (o : Options) (fuel : ℕ) (r : Report) (name : Text) → Keeps I (live_end o fuel r name)
  unfolding live_end
  live_end-Keeps o fuel r name =
      Keeps-if _ _ _
        (Keeps-then _ _
          (undoing-Keeps m r name _
            (Keeps-then _ _ (merge_copy-Keeps m r name) (live_finish-Keeps r)))
          (live_completed-Keeps r name _ _))
        (Keeps-bind _ _ (live_switch-Keeps o fuel r name)
          λ warning. Keeps-then _ _ (live_finish-Keeps r) (live_completed-Keeps r name _ _))

  still_on-Keeps :
      (o : Options) (fuel : ℕ) (r : Report) (own : Bool) → Keeps I (still_on o fuel r own)
  unfolding still_on
  still_on-Keeps o fuel r own =
      Keeps-bind _ _ (inspected-Keeps m.tasks.frame r _)
        λ fresh. Keeps-then _ _ (Keeps-require _ _) (Keeps-pure fresh)

module _ {W : Type 0} ⦃host : Host W⦄ {I : St W → Type 0} (frame : Frame I) where
  live_ended-Keeps : (x : Reply (Unit {0})) → Keeps I (live_ended x)
  unfolding live_ended
  live_ended-Keeps (got done) = Keeps-pure tt
  live_ended-Keeps (lost e) = frame.updates _ (live_failed-Tame (restored_cause e) e)

-- A clone of a live migration: what holds while it may run, and what its end says.
module _ {W : Type 0} ⦃host : Host W⦄ where
  pub record Cloning (I E : St W → Type 0) : Type 1 where
    pub weak : (s : St W) → I s → E s
    pub Pending : ℕ → St W → Type 0
    pub Ended : ℕ → Exit → St W → Type 0
    pub launched :
        (r : Report) (i : ℕ) (d : Disk) → Triple I (λ a s. Pending i s) E (launch r i d false)
    pub waited :
        (o : Options) (r : Report) (i fuel : ℕ)
        → Triple (Pending i) (Ended i) E (wait_clone o r i fuel)
    pub left :
        (r : Report) (name : Text) (i : ℕ) (x : Exit)
        → Triple (Ended i x) (λ a s. I s) E (leave_clone r name x)

module _ {W : Type 0} ⦃host : Host W⦄ {I E : St W → Type 0} (m : Merging I) (c : Cloning I E)
    (o : Options) (fuel : ℕ) where
  live_disk-Triple :
      (r : Report) (name : Text) (deltas : Deltas) (i : ℕ) (d : Disk)
      → Triple I (λ a s. I s) E (live_disk o fuel r name deltas i d)
  unfolding live_disk
  live_disk-Triple r name deltas i d =
      Triple-then I _ _
        (Triple-Keeps _
          (undoing-Keeps m r name _ (
            Keeps-then _ _ stop_point-Keeps (
              Keeps-then _ _ (live_guard-Keeps m.tasks.frame r name deltas)
                (start_disk-Keeps m.tasks.frame _ i d))))
          c.weak)
        (Triple-then (c.Pending i) _ _ (c.launched r i d) (
          Triple-bind (c.Ended i) _ _ (c.waited o r i fuel) λ x.
            Triple-then I _ _ (c.left r name i x) (
              Triple-Keeps _
                (undoing-Keeps m r name _ (
                  Keeps-then _ _ (phase-Keeps m.tasks.frame Phase.verifying_disk _ refl) (
                    Keeps-then _ _ (naming-Keeps _ _ (verify_disk-Keeps m.tasks.frame d))
                      (same_cid-Keeps m.tasks.frame d))))
                c.weak)))

  live_disks-Triple :
      (r : Report) (name : Text) (deltas : Deltas) (i : ℕ) (ds : List Disk)
      → Triple I (λ a s. I s) E (live_disks o fuel r name deltas i ds)
  unfolding live_disks
  live_disks-Triple r name deltas i [] = Triple-Keeps _ (Keeps-pure tt) c.weak
  live_disks-Triple r name deltas i (d ∷ ds) =
      Triple-then I _ _ (live_disk-Triple r name deltas i d)
        (live_disks-Triple r name deltas (suc i) ds)

  live_body-Triple :
      (r : Report) (name : Text) (taken : Reply (Unit {0})) (fresh : Report)
      → Triple I (λ a s. I s) E (live_body o fuel r name taken fresh)
  unfolding live_body
  live_body-Triple r name taken fresh =
      Triple-bind (λ a s. I s) _ _
        (Triple-Keeps _
          (undoing-Keeps m r name _ (
            Keeps-then _ _ (Keeps-on_reply taken _ _ (λ done. Keeps-pure tt) (λ e. Keeps-raise _)) (
              Keeps-bind _ _ (live_deltas-Keeps m.tasks.frame r name)
                λ found. Keeps-then _ _ (m.tasks.create_target-Keeps _) (Keeps-pure found))))
          c.weak)
        λ deltas. Triple-then I _ _ (live_disks-Triple r name deltas 0 r.disks) (
          Triple-then I _ _
            (Triple-Keeps _ (undoing-Keeps m r name _ (cut_over-Keeps m o fuel r fresh name deltas))
              c.weak)
            (Triple-Keeps _ (live_end-Keeps m o fuel r name) c.weak))

  live_plan-Triple : (r : Report) → Triple I (λ a s. I s) E (live_plan o fuel r)
  unfolding live_plan
  live_plan-Triple r = Triple-then I _ _ (Triple-Keeps _ (Keeps-require _ _) c.weak) (
      Triple-then I _ _ (Triple-Keeps _ (phase-Keeps m.tasks.frame Phase.preflight _ refl) c.weak) (
        Triple-bind (λ a s. I s) _ _ (Triple-Keeps _ (still_on-Keeps m o fuel r false) c.weak)
          λ first.
            Triple-then I _ _ (Triple-Keeps _ (naming-Keeps _ _ (m.tasks.acquire-Keeps _ _)) c.weak)
              (Triple-bind (λ a s. I s) _ _ (Triple-Keeps _ (still_on-Keeps m o fuel r true) c.weak)
                λ fresh.
                  Triple-then I _ _
                    (Triple-Keeps _ (phase-Keeps m.tasks.frame Phase.snapshot _ refl) c.weak)
                    (Triple-bind (λ a s. I s) _ _
                      (Triple-Keeps _ (Keeps-try _ (m.create_snapshot-Keeps _ _)) c.weak)
                      λ taken. live_body-Triple r _ taken fresh))))

  live-Triple : Triple I (λ a s. I s) E (live o fuel)
  unfolding live
  live-Triple =
      Triple-bind (λ a s. I s) _ _ (Triple-Keeps _ Keeps-get_job c.weak)
        λ j. live_plan-Triple j.plan

  -- The run itself: a failure only writes the last state.
  pub run_live-at : Frame E → (s : St W) → I s → E (run_live o fuel s).1
  unfolding run_live
  run_live-at frame s h =
      (Under-first _ _
          (Under-try _ (record { at = λ t p e. Triple-state _ t live-Triple c.weak p }))
          (λ x. live_ended-Keeps frame x)).at
        s h (c.weak s h)
