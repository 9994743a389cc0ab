-- ===== src/Engine/Frame/Clone.antt =====
-- Watching a clone keeps what its calls keep.
use esxi_mover.Prelude.{ℕ, zero, suc, refl, inl, inr, true, Option}
use esxi_mover.Prelude.Text.{Text}
use esxi_mover.Types.{Err, Options, Report, Reply, got, lost}
use esxi_mover.Host.{CloneStatus, Host, St, M, update, modify}
use esxi_mover.Host.Hoare.{
  Keeps, Keeps-then, Keeps-bind, Keeps-if, Keeps-get_job, Keeps-now, Keeps-pure, Keeps-try,
  keeps_rules,
}
use esxi_mover.Host.Frame.{Frame, read_rules}
use esxi_mover.Host.Tasks.{Watches}
use esxi_mover.Engine.Clone.{
  Exit, Watch, Next, leave, onward, on_next, live_source_free, show, show_status, full_progress,
  set_message, ended, running, observed, ask_stop, stop_part, stop_and_pause, clone_round,
  clone_loop, mark_unknown, wait_clone,
}

module _ {W A : Type 0} {I : St W → Type 0} where
  Keeps-on_next :
      (x : Next) (f : Exit → M W A) (g : Watch → M W A)
      → ((e : Exit) → Keeps I (f e))
      → ((w : Watch) → Keeps I (g w))
      → Keeps I (on_next x f g)
  unfolding on_next
  Keeps-on_next (leave x) f g kf kg = kf x
  Keeps-on_next (onward w) f g kf kg = kg w

module _ {W : Type 0} ⦃host : Host W⦄ {I : St W → Type 0} (frame : Frame I) where
  pub live_source_free-Keeps : (r : Report) → Keeps I (live_source_free r)
  unfolding live_source_free
  live_source_free-Keeps r = search (read_rules, frame) depth 40

module _ {W : Type 0} ⦃host : Host W⦄ {I : St W → Type 0} (watches : Watches I) where
  show_status-Keeps : (i : ℕ) (c : CloneStatus) (t : ℕ) → Keeps I (modify (show_status i c t))
  unfolding show_status
  show_status-Keeps i c t = watches.frame.jobs (show_status i c t) (λ j. inr refl)

  show-Keeps : (i : ℕ) (c : CloneStatus) → Keeps I (show i c)
  unfolding show
  show-Keeps i c = search (keeps_rules, show_status-Keeps) depth 10

  full_progress-Keeps : Keeps I (update full_progress)
  unfolding full_progress
  full_progress-Keeps = watches.frame.updates full_progress (λ s. inl refl)

  set_message-Keeps : (m : Text) → Keeps I (update (set_message m))
  unfolding set_message
  set_message-Keeps m = watches.frame.updates (set_message m) (λ s. inl refl)

module _ {W : Type 0} ⦃host : Host W⦄ {I : St W → Type 0} (watches : Watches I) (o : Options)
    (r : Report) (i : ℕ) where
  ended-Keeps : (cause : Option Err) (c : CloneStatus) → Keeps I (ended o r i cause c)
  unfolding ended
  ended-Keeps cause c = Keeps-bind _ _ Keeps-get_job λ j.
      Keeps-then _ _ (Keeps-if _ _ _ (Keeps-pure tt) (full_progress-Keeps watches)) (Keeps-pure _)

  running-Keeps : (since : ℕ) (c : CloneStatus) (w : Watch) → Keeps I (running o r i since c w)
  unfolding running
  running-Keeps since c w = Keeps-bind _ _ Keeps-now λ t. Keeps-if _ _ _ (Keeps-pure _) (
      Keeps-bind _ _ Keeps-get_job λ j.
        Keeps-if _ _ _
          (Keeps-bind _ _ (Keeps-try _ (live_source_free-Keeps watches.frame r))
            λ free. Keeps-bind _ _ Keeps-now λ t'. Keeps-pure _)
          (Keeps-pure _))

  pub observed-Keeps :
      (since : ℕ) (w : Watch) (x : Reply CloneStatus) → Keeps I (observed o r i since w x)
  unfolding observed
  observed-Keeps since w (lost e) = search (read_rules, watches.frame) depth 20
  observed-Keeps since w (got c) = Keeps-bind _ _ Keeps-now λ t.
      Keeps-then _ _ (show-Keeps watches i c)
        (Keeps-if c.finished _ _ (ended-Keeps _ c) (running-Keeps _ c _))

  ask_stop-Keeps : (w : Watch) → Keeps I (ask_stop o r i w)
  unfolding ask_stop
  ask_stop-Keeps w =
      Keeps-if w.stopping _ _ (Keeps-pure true)
        (Keeps-bind _ _ (Keeps-try _ (watches.stop_clone-Keeps i)) λ reply. Keeps-pure _)

  pub stop_part-Keeps : (w : Watch) → Keeps I (stop_part o r i w)
  unfolding stop_part
  stop_part-Keeps w = Keeps-bind _ _ Keeps-get_job λ j.
      Keeps-if _ _ _
        (Keeps-bind _ _ Keeps-now λ t. Keeps-bind _ _ (ask_stop-Keeps w) λ sent.
          Keeps-then _ _ (set_message-Keeps watches _)
            (Keeps-bind _ _ Keeps-now λ t'. Keeps-if _ _ _ (Keeps-pure _) (Keeps-pure _)))
        (Keeps-pure _)

  stop_and_pause-Keeps : (x : Next) → Keeps I (stop_and_pause o r i x)
  unfolding stop_and_pause
  stop_and_pause-Keeps (leave x) = Keeps-pure (leave x)
  stop_and_pause-Keeps (onward w) = Keeps-bind _ _ (stop_part-Keeps w) λ next.
      Keeps-on_next next _ _ (λ x. Keeps-pure (leave x))
        λ w'. search (read_rules, watches.frame) depth 20

  clone_round-Keeps :
      (deadline since : ℕ) (w : Watch) → Keeps I (clone_round o r i deadline since w)
  unfolding clone_round
  clone_round-Keeps deadline since w =
      search (read_rules, watches.frame, observed-Keeps, stop_and_pause-Keeps) depth 20

  clone_loop-Keeps :
      (fuel deadline since : ℕ) (w : Watch) → Keeps I (clone_loop o r i fuel deadline since w)
  unfolding clone_loop
  clone_loop-Keeps zero deadline since w = search keeps_rules
  clone_loop-Keeps (suc fuel) deadline since w =
      Keeps-bind _ _ (clone_round-Keeps deadline since w) λ next.
        Keeps-on_next next _ _ (λ x. Keeps-pure x) λ w'. clone_loop-Keeps fuel deadline since w'

  mark_unknown-Keeps : (x : Exit) → Keeps I (mark_unknown o r i x)
  unfolding mark_unknown
  mark_unknown-Keeps x = search (keeps_rules, watches.unknown-Keeps) depth 20

  pub wait_clone-Keeps : (fuel : ℕ) → Keeps I (wait_clone o r i fuel)
  unfolding wait_clone
  wait_clone-Keeps fuel = search (keeps_rules, clone_loop-Keeps, mark_unknown-Keeps) depth 20
