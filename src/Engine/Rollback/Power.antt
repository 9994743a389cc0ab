-- ===== src/Engine/Rollback/Power.antt =====
-- The power of the target that a rollback unregisters (internal/migration/engine.go).
use esxi_mover.Prelude.{ℕ}
use esxi_mover.Types.{Report}
use esxi_mover.Host.{Call, Host, St, call}
use esxi_mover.Host.Hoare.{
  Keeps, Keeps-bind, Keeps-then, Keeps-try, Keeps-require, Keeps-on_reply, Keeps-pure, Keeps-raise,
}
use esxi_mover.Host.Outcome.{Ends, Ends-bind, Ends-then}
use esxi_mover.Host.Carry.{try-WithValue, Ends-insist}
use esxi_mover.Host.Under.{Under, Keeps-then-Under, Under-then, Under-try, Under-first}
use esxi_mover.Host.Trace.{Always, WhenOff, update-Always, call-Always}
use esxi_mover.Engine.Power.{
  SeenOff, require_off-Seen, unregister-Under, update-Seen, tasks, switches,
}
use esxi_mover.Engine.Frame.Steps.{require_off-Keeps, registrations-Keeps}
use esxi_mover.Engine.Frame.Switch.{publish_if-Keeps, rollback-Keeps}
use esxi_mover.Engine.Rollback.{rollback_checks, unregister_target, take_down, rollback}

module _ {W : Type 0} ⦃host : Host W⦄ where
  -- An open question is asked about between the look at the power and what it is good for.
  message-Seen : (id other : ℕ) → Keeps {W = W} (SeenOff id) (call (Call.message other))
  unfolding call
  message-Seen id other = record { at = λ s h. h }

  rollback_checks-Seen :
      (r : Report) (id : ℕ) → Ends {W = W} (λ a s. SeenOff id s) (rollback_checks r id)
  unfolding rollback_checks
  rollback_checks-Seen r id = Ends-bind _ _ λ p. Ends-then _ _ (
      Ends-insist (SeenOff id) _ _ _ (try-WithValue (SeenOff id) _ (require_off-Seen id))
        (Keeps-bind _ _ (Keeps-try _ (message-Seen id id)) λ m. Keeps-require _ _))

  rollback_checks-WhenOff :
      (r : Report) (id : ℕ) → Keeps {W = W} (Always WhenOff) (rollback_checks r id)
  unfolding rollback_checks
  rollback_checks-WhenOff r id =
      Keeps-bind _ _ (Keeps-try _ (registrations-Keeps tasks.frame _ _)) λ p.
        Keeps-then _ _ (Keeps-require _ _) (
          Keeps-bind _ _ (Keeps-try _ (require_off-Keeps tasks.frame id)) λ checked.
            Keeps-then _ _ (Keeps-on_reply checked _ _ (λ done. Keeps-pure tt) (λ e. Keeps-raise _))
              (Keeps-bind _ _ (Keeps-try _ (call-Always WhenOff (Call.message id) (λ t. tt)))
                λ m. Keeps-require _ _))

  unregister_target-Under :
      (r : Report) (id : ℕ) → Under {W = W} (SeenOff id) (Always WhenOff) (unregister_target r id)
  unfolding unregister_target
  unregister_target-Under r id = Under-then _ _ (update-Seen id _) (update-Always WhenOff _) (
      Under-first _ _ (Under-try _ (unregister-Under id)) λ ignored.
        Keeps-bind _ _ (Keeps-try _ (registrations-Keeps tasks.frame _ _)) λ p.
          Keeps-then _ _ (publish_if-Keeps tasks.frame p)
            (Keeps-then _ _ (Keeps-require _ _) (update-Always WhenOff _)))

  take_down-WhenOff : (r : Report) (id : ℕ) → Keeps {W = W} (Always WhenOff) (take_down r id)
  unfolding take_down
  take_down-WhenOff r id =
      Keeps-then-Under _ _ (rollback_checks-WhenOff r id) (rollback_checks-Seen r id)
        (unregister_target-Under r id)

  -- A rollback calls for the unregistering of the target only when the last thing the host was
  -- asked, apart from open questions, was the power of the target, and the answer was off; so if
  -- this holds of every unregistering and clone before it, it holds of all of them after it.
  pub rollback-proved_off :
      (r : Report) (s : St W) → Always WhenOff s → Always WhenOff (rollback r s).1
  rollback-proved_off r s h =
      (rollback-Keeps tasks.frame switches r (take_down-WhenOff r)
          (call-Always WhenOff (Call.finish r.id) (λ t. tt))).at
        s h
