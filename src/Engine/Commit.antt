-- ===== src/Engine/Commit.antt =====
-- `commit` of internal/migration/engine.go: the switch of the registrations.
use esxi_mover.Prelude.{ℕ, Bool, true, false, [], ◌++◌, ◌&&◌, not, ltb, ◌==◌, if◌then◌else◌}
use esxi_mover.Prelude.Text.{Text, text, ◌≟◌, trim_space}
use esxi_mover.Types.{failure, Reply, got, lost, describe, Power, is_off, Report}
use esxi_mover.Job.{State, Phase, Registration, Shown}
use esxi_mover.Host.{
  Call, Host, M, ◌>>=◌, ◌>>◌, pure, raise, require, try, get_job, call, update, phase, on_reply,
}
use esxi_mover.Engine.Steps.{Pair, require_off, registrations, publish}

-- `%v` of an error that may be nil.
unfoldable pub plain : {A : Type 0} → Reply A → Text
unfolding describe
plain (got a) = text "<nil>"
plain (lost e) = describe e

-- `(%v)` of it.
unfoldable pub shown : {A : Type 0} → Reply A → Text
unfolding plain
shown r = text " (" ++ plain r ++ text ")"

unfoldable pub source_is : Registration → State → State
source_is x s = record s { source_registration = x }

unfoldable pub target_is : Registration → State → State
target_is x s = record s { target_registration = x }

-- The fields that a switched target sets.
unfoldable pub switched : ℕ → State → State
switched dst s = record s {
  target_registration = Registration.registered;
  target_vmid = dst;
  target_power = Shown.unsure_power;
  can_rollback = true;
}

unfoldable pub target_power_is : Power → State → State
target_power_is p s = record s { target_power = Shown.read p }

-- The two pairs that mean a restored source.
restored_pair : Reply Pair → Bool
restored_pair (got p) = ltb 0 p.src && p.dst == 0
restored_pair (lost e) = false

module _ {W : Type 0} ⦃host : Host W⦄ where
  -- Publishes a pair that could be read.
  unfoldable pub publish_if : Reply Pair → M W (Unit {0})
  publish_if (got p) = publish p
  publish_if (lost e) = pure tt

  -- What a lost reply of `registrations` becomes.
  unfoldable pub read_pair : Report → Text → M W Pair
  read_pair r m = do
    reply ← try (registrations r.source_vmx r.target_vmx)
    on_reply reply (λ p. pure p) λ e. raise (failure m)

  -- The target did not get registered: the source is registered again.
  unfoldable pub restore_registration : Report → Reply ℕ → M W (Unit {0})
  unfolding restored_pair source_is target_is plain shown
  restore_registration r registered = do
    update (λ s. target_is Registration.not_registered (source_is Registration.unsure s))
    again ← try (call (Call.register r.source_vmx))
    p ← try (registrations r.source_vmx r.target_vmx)
    publish_if p
    if restored_pair p
        then (do
          update (source_is Registration.registered)
          raise (
              failure (
                text "target registration failed; source registration restored; source remains off"
                ++ shown registered)))
        else raise (
            failure (
              text "target registration failed and source rollback requires manual review"
              ++ text " ("
              ++ plain registered
              ++ text "; "
              ++ plain again
              ++ text ")"))

  -- A machine is proved off, and then unregistered.
  unfoldable pub unregister_off : ℕ → M W (Reply (Unit {0}))
  unfolding source_is
  unregister_off id = do
    require_off id
    phase Phase.commit (
        text
          "Target complete and verified. Switching VM registration; source files remain in place.")
    update (source_is Registration.unsure)
    try (call (Call.unregister id))

  -- The first half: the source is proved off and registered alone, and then unregistered.
  unfoldable pub unregister_source : Report → M W (Unit {0})
  unfolding source_is shown
  unregister_source r = do
    p ← registrations r.source_vmx r.target_vmx
    require (p.src == r.vm.id && p.dst == 0)
        (failure (text "registration identity changed before commit"))
    unregistered ← unregister_off p.src
    q ← read_pair r (text "unregister outcome unknown; manual inventory reconciliation required")
    publish q
    if q.src == 0
        then (do
          update (source_is Registration.not_registered)
          require (q.dst == 0) (
              failure
                (text "target unexpectedly registered by another actor; manual review required")))
        else (do
          update (source_is Registration.registered)
          raise (failure (text "source remains registered; stopping commit" ++ shown unregistered)))

  -- The second half: the target is registered, and must be off.
  unfoldable pub register_target : Report → M W (Unit {0})
  unfolding switched target_is target_power_is
  register_target r = do
    registered ← try (call (Call.register r.target_vmx))
    update (target_is Registration.unsure)
    p ← read_pair r (
        text
          "target registration result is unknown; cannot safely auto-register source while target may be registered")
    publish p
    require (p.src == 0)
        (failure (text "source was externally registered during commit; manual review required"))
    if p.dst == 0 then restore_registration r registered else do
      update (switched p.dst)
      power ← call (Call.power p.dst)
      update (target_power_is power)
      require (is_off power)
          (failure (text "target was unexpectedly powered on; automation stopped"))

  -- commit.
  unfoldable pub commit : Report → M W (Unit {0})
  commit r = do
    j ← get_job
    require j.state.target_verified (failure (text "commit denied: target is not fully verified"))
    unregister_source r
    register_target r

-- An open question, other than the host's two ways to say that there is none.
unfoldable pub pending : Text → Bool
unfolding trim_space
pending message =
    not (trim_space message ≟ [])
    && not (trim_space message ≟ text "No message.")
    && not (trim_space message ≟ text "No message")
