-- ===== src/Engine/Rollback.antt =====
-- `Rollback` of internal/migration/engine.go: the registrations as they were, on request, after a
-- failed switch.
pub mod Power
use esxi_mover.Prelude.{ℕ, Bool, true, false, [], ◌&&◌, not, ◌==◌, ◌++◌}
use esxi_mover.Prelude.Text.{Text, text}
use esxi_mover.Types.{failure, Reply, got, lost, off, Report}
use esxi_mover.Job.{State, Phase, Registration, Shown}
use esxi_mover.Host.{
  Call, Host, M, ◌>>=◌, ◌>>◌, pure, raise, require, try, get_job, call, update, on_reply,
}
use esxi_mover.Engine.Steps.{Pair, require_off, registrations}
use esxi_mover.Engine.Commit.{pending, shown, publish_if}
use esxi_mover.Engine.Start.{target_alone}

unfoldable pub is_failed : Phase → Bool
is_failed Phase.failed = true
is_failed _ = false

unfoldable pub rollback_begins : State → State
rollback_begins s = record s { target_registration = Registration.unsure; can_rollback = false }

unfoldable pub target_gone : State → State
target_gone s = record s {
  target_registration = Registration.not_registered;
  source_registration = Registration.unsure;
}

unfoldable pub source_back : State → State
source_back s = record s {
  source_registration = Registration.registered;
  target_power = Shown.read off;
  source_power = Shown.read off;
}

unfoldable pub rolled_back : State → State
rolled_back s = record s {
  phase = Phase.rolled_back;
  error = [];
  message = text "Source registration restored. Both copies remain off; all files are preserved.";
}

-- Neither machine is registered.
unfoldable pub none_registered : Reply Pair → Bool
none_registered (got p) = p.src == 0 && p.dst == 0
none_registered (lost e) = false

-- The source alone is registered.
unfoldable pub source_alone : Reply Pair → Bool
source_alone (got p) = not (p.src == 0) && p.dst == 0
source_alone (lost e) = false

-- No question is open, and that could be read.
unfoldable pub no_question : Reply Text → Bool
unfolding pending
no_question (got m) = not (pending m)
no_question (lost e) = false

module _ {W : Type 0} ⦃host : Host W⦄ where
  -- The target is proved alone, off and without a question.
  unfoldable pub rollback_checks : Report → ℕ → M W (Unit {0})
  unfolding target_alone no_question
  rollback_checks r id = do
    p ← try (registrations r.source_vmx r.target_vmx)
    require (target_alone p id) (failure (text "rollback inventory is ambiguous"))
    checked ← try (require_off id)
    on_reply checked (λ done. pure tt)
        λ e. raise (failure (text "rollback requires target Powered off"))
    m ← try (call (Call.message id))
    require (no_question m) (
        failure (
          text
            "resolve pending target questions/tasks in Host Client before registration rollback"))

  unfoldable pub unregister_target : Report → ℕ → M W (Unit {0})
  unfolding rollback_begins none_registered target_gone
  unregister_target r id = do
    update rollback_begins
    ignored ← try (call (Call.unregister id))
    p ← try (registrations r.source_vmx r.target_vmx)
    publish_if p
    require (none_registered p)
        (failure (text "target unregister outcome is not safe for rollback"))
    update target_gone

  -- The target is unregistered once it is proved safe to.
  unfoldable pub take_down : Report → ℕ → M W (Unit {0})
  take_down r id = do rollback_checks r id; unregister_target r id

  unfoldable pub register_source : Report → M W (Unit {0})
  unfolding source_alone source_back shown
  register_source r = do
    reply ← try (call (Call.register r.source_vmx))
    p ← try (registrations r.source_vmx r.target_vmx)
    publish_if p
    require (source_alone p)
        (failure (text "source re-registration needs manual review" ++ shown reply))
    update source_back

  -- Rollback.
  unfoldable pub rollback : Report → M W (Unit {0})
  unfolding is_failed rolled_back
  rollback r = do
    j ← get_job
    require (j.state.complete && j.state.can_rollback && is_failed j.state.phase)
        (failure (text "registration rollback is unavailable"))
    take_down r j.state.target_vmid
    register_source r
    call (Call.finish r.id)
    update rolled_back
