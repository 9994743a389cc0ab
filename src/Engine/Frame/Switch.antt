-- ===== src/Engine/Frame/Switch.antt =====
-- The switch of the registrations, the start of the target and the rollback keep what their calls
-- keep.
use esxi_mover.Prelude.{ℕ, zero, suc, refl, inl, inr, Bool, false, none}
use esxi_mover.Prelude.Text.{Text}
use esxi_mover.Types.{Power, Options, Report, Reply, got, lost}
use esxi_mover.Job.{Registration, Phase}
use esxi_mover.Host.{Host, St, update, call, Call}
use esxi_mover.Host.Hoare.{
  Keeps, Keeps-then, Keeps-bind, Keeps-if, Keeps-get_job, Keeps-now, Keeps-pure, Keeps-try,
  Keeps-raise, Keeps-require, Keeps-on_option, Keeps-on_reply, keeps_rules,
}
use esxi_mover.Host.Frame.{Frame, power-Keeps, message-Keeps, phase-Keeps, pause-Keeps}
use esxi_mover.Host.Tasks.{Switches}
use esxi_mover.Engine.Steps.{Pair}
use esxi_mover.Engine.Frame.Steps.{registrations-Keeps, publish-Keeps}
use esxi_mover.Engine.Commit.{
  source_is, target_is, switched, target_power_is, publish_if, read_pair, restore_registration,
  unregister_off, unregister_source, register_target, commit,
}
use esxi_mover.Engine.Start.{answer_question, target_started, power_round, power_loop, power_on}
use esxi_mover.Engine.Rollback.{source_back, rolled_back, take_down, register_source, rollback}

module _ {W : Type 0} ⦃host : Host W⦄ {I : St W → Type 0} (frame : Frame I) where
  pub source_is-Keeps : (x : Registration) → Keeps I (update (source_is x))
  unfolding source_is
  source_is-Keeps x = frame.updates (source_is x) (λ s. inl refl)

  pub target_is-Keeps : (x : Registration) → Keeps I (update (target_is x))
  unfolding target_is
  target_is-Keeps x = frame.updates (target_is x) (λ s. inl refl)

  pub switched-Keeps : (n : ℕ) → Keeps I (update (switched n))
  unfolding switched
  switched-Keeps n = frame.updates (switched n) (λ s. inl refl)

  pub target_power_is-Keeps : (p : Power) → Keeps I (update (target_power_is p))
  unfolding target_power_is
  target_power_is-Keeps p = frame.updates (target_power_is p) (λ s. inl refl)

  pub publish_if-Keeps : (x : Reply Pair) → Keeps I (publish_if x)
  unfolding publish_if
  publish_if-Keeps (got p) = publish-Keeps frame p
  publish_if-Keeps (lost e) = Keeps-pure tt

  read_pair-Keeps : (r : Report) (m : Text) → Keeps I (read_pair r m)
  unfolding read_pair
  read_pair-Keeps r m =
      Keeps-bind _ _ (Keeps-try _ (registrations-Keeps frame _ _))
        λ reply. Keeps-on_reply reply _ _ (λ p. Keeps-pure p) (λ e. Keeps-raise _)

module _ {W : Type 0} ⦃host : Host W⦄ {I : St W → Type 0} (frame : Frame I)
    (switches : Switches I) where
  restore_registration-Keeps : (r : Report) (x : Reply ℕ) → Keeps I (restore_registration r x)
  unfolding restore_registration source_is target_is
  restore_registration-Keeps r x = Keeps-then _ _ (frame.updates _ (λ s. inl refl)) (
      Keeps-bind _ _ (Keeps-try _ (switches.register-Keeps _)) λ again.
        Keeps-bind _ _ (Keeps-try _ (registrations-Keeps frame _ _)) λ p.
          Keeps-then _ _ (publish_if-Keeps frame p) (
            Keeps-if _ _ _
              (Keeps-then _ _ (source_is-Keeps frame Registration.registered) (Keeps-raise _))
              (Keeps-raise _)))

  unregister_source-Keeps :
      (r : Report) → ((id : ℕ) → Keeps I (unregister_off id)) → Keeps I (unregister_source r)
  unfolding unregister_source
  unregister_source-Keeps r off = Keeps-bind _ _ (registrations-Keeps frame _ _) λ p.
      Keeps-then _ _ (Keeps-require _ _) (
        Keeps-bind _ _ (off p.src) λ u. Keeps-bind _ _ (read_pair-Keeps frame r _) λ q.
          Keeps-then _ _ (publish-Keeps frame q) (
            Keeps-if _ _ _
              (Keeps-then _ _ (source_is-Keeps frame Registration.not_registered)
                (Keeps-require _ _))
              (Keeps-then _ _ (source_is-Keeps frame Registration.registered) (Keeps-raise _))))

  register_target-Keeps : (r : Report) → Keeps I (register_target r)
  unfolding register_target
  register_target-Keeps r = Keeps-bind _ _ (Keeps-try _ (switches.register-Keeps _)) λ x.
      Keeps-then _ _ (target_is-Keeps frame Registration.unsure) (
        Keeps-bind _ _ (read_pair-Keeps frame r _) λ p. Keeps-then _ _ (publish-Keeps frame p) (
          Keeps-then _ _ (Keeps-require _ _) (
            Keeps-if _ _ _ (restore_registration-Keeps r x) (
              Keeps-then _ _ (switched-Keeps frame p.dst) (
                Keeps-bind _ _ (power-Keeps frame p.dst) λ power.
                  Keeps-then _ _ (target_power_is-Keeps frame power) (Keeps-require _ _))))))

  pub commit-Keeps : (r : Report) → ((id : ℕ) → Keeps I (unregister_off id)) → Keeps I (commit r)
  unfolding commit
  commit-Keeps r off = Keeps-bind _ _ Keeps-get_job λ j.
      Keeps-then _ _ (Keeps-require _ _)
        (Keeps-then _ _ (unregister_source-Keeps r off) (register_target-Keeps r))

  answer_question-Keeps :
      (id : ℕ) (m : Text) (answered : Bool) → Keeps I (answer_question id m answered)
  unfolding answer_question
  answer_question-Keeps id m answered =
      Keeps-on_reply _ _ _
        (λ q. Keeps-then _ _ (Keeps-require _ _) (switches.answer-Keeps id q.0 q.1))
        (λ e. Keeps-raise _)

  target_started-Keeps : (t : ℕ) → Keeps I (update (target_started t))
  unfolding target_started
  target_started-Keeps t = frame.updates (target_started t) (λ s. inl refl)

  power_round-Keeps : (o : Options) (id : ℕ) (b : Bool) → Keeps I (power_round o id b)
  unfolding power_round
  power_round-Keeps o id b = Keeps-bind _ _ (power-Keeps frame id) λ p.
      Keeps-then _ _ (target_power_is-Keeps frame p) (
        Keeps-bind _ _ (message-Keeps frame id) λ m.
          Keeps-if _ _ _
            (Keeps-bind _ _ Keeps-now
              λ t. Keeps-then _ _ (target_started-Keeps t) (Keeps-pure none))
            (Keeps-then _ _ (Keeps-if _ _ _ (answer_question-Keeps id m b) (Keeps-pure tt))
              (Keeps-then _ _ (pause-Keeps frame _) (Keeps-pure _))))

  power_loop-Keeps :
      (o : Options) (id fuel deadline : ℕ) (detail : Text) (b : Bool)
      → Keeps I (power_loop o id fuel deadline detail b)
  unfolding power_loop
  power_loop-Keeps o id zero deadline detail b = search keeps_rules
  power_loop-Keeps o id (suc fuel) deadline detail b = Keeps-bind _ _ Keeps-now λ t.
      Keeps-if _ _ _
        (Keeps-bind _ _ (power_round-Keeps o id b) λ next.
          Keeps-on_option next _ _ (Keeps-pure tt)
            λ c. power_loop-Keeps o id fuel deadline detail c)
        (Keeps-raise _)

  pub power_on-Keeps : (o : Options) (r : Report) (fuel : ℕ) → Keeps I (power_on o r fuel)
  unfolding power_on
  power_on-Keeps o r fuel = Keeps-bind _ _ Keeps-get_job λ j.
      Keeps-bind _ _ (Keeps-try _ (registrations-Keeps frame _ _)) λ p.
        Keeps-then _ _ (Keeps-require _ _) (
          Keeps-then _ _ (phase-Keeps frame Phase.power_on _ refl) (
            Keeps-bind _ _ (Keeps-try _ (switches.power_on-Keeps _))
              λ x. Keeps-bind _ _ Keeps-now λ t. power_loop-Keeps o _ fuel _ _ false))

module _ {W : Type 0} ⦃host : Host W⦄ {I : St W → Type 0} (frame : Frame I)
    (switches : Switches I) where
  register_source-Keeps : (r : Report) → Keeps I (register_source r)
  unfolding register_source source_back
  register_source-Keeps r = Keeps-bind _ _ (Keeps-try _ (switches.register-Keeps _)) λ x.
      Keeps-bind _ _ (Keeps-try _ (registrations-Keeps frame _ _)) λ p.
        Keeps-then _ _ (publish_if-Keeps frame p)
          (Keeps-then _ _ (Keeps-require _ _) (frame.updates _ (λ s. inl refl)))

  pub rollback-Keeps :
      (r : Report)
      → ((id : ℕ) → Keeps I (take_down r id))
      → Keeps I (call (Call.finish r.id))
      → Keeps I (rollback r)
  unfolding rollback rolled_back
  rollback-Keeps r down finish = Keeps-bind _ _ Keeps-get_job λ j.
      Keeps-then _ _ (Keeps-require _ _) (
        Keeps-then _ _ (down _) (
          Keeps-then _ _ (register_source-Keeps r)
            (Keeps-then _ _ finish (frame.updates _ (λ s. inr refl)))))
