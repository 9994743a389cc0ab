-- ===== src/Engine/Shutdown.antt =====
-- `shutdown` of internal/migration/engine.go: a graceful power-off that may wait for the operator.
-- The loop has no bound of its own, since an operator may take any time; the model cuts it off
-- where its fuel ends.
use esxi_mover.Prelude.{ℕ, zero, suc, ◌+◌, Option, none, some, ltb, if◌then◌else◌}
use esxi_mover.Prelude.Text.{text}
use esxi_mover.Types.{stopped, failure, Reply, got, lost, off, is_off, is_on, Options, Report}
use esxi_mover.Job.{State, Job, Phase, Shown, Action}
use esxi_mover.Host.{
  Call, Host, M, ◌>>=◌, ◌>>◌, pure, raise, stuck, try, require, get_job, modify, now, call, update,
  phase, on_option,
}

-- `s.SourcePower = "Powered off"`.
unfoldable pub source_off : State → State
source_off s = record s { source_power = Shown.read off }

-- The service counts as down from the first request on.
down_from : ℕ → Option ℕ → Option ℕ
down_from t none = some t
down_from t (some u) = some u

unfoldable pub set_down : ℕ → State → State
unfolding down_from
set_down t s = record s { down_since = down_from t s.down_since }

-- A failed request leaves no time to wait.
first_deadline : Reply (Unit {0}) → ℕ → ℕ → ℕ
first_deadline (got done) t timeout = t + timeout
first_deadline (lost e) t timeout = t

unfoldable pub without_action : Job → Job
without_action j = record j { actions = none }

module _ {W : Type 0} ⦃host : Host W⦄ where
  -- The receive of an action, or the end of the context.
  unfoldable pub receive : ℕ → M W Action
  unfolding without_action
  receive zero = stuck
  receive (suc fuel) = do
    answered ← call Call.await
    j ← get_job
    on_option j.actions (receive fuel) λ a. (do modify without_action; pure a)

module _ {W : Type 0} ⦃host : Host W⦄ (o : Options) (r : Report) (revalidate : M W (Unit {0})) where
  -- What an action does: `force` is honoured only after the checks are repeated.
  unfoldable pub obey : Action → M W (Unit {0})
  obey Action.stop = raise stopped
  obey Action.force = do revalidate; call (Call.force_off r.vm.id)
  obey _ = pure tt

  -- Past the deadline: wait for the operator, and begin a new one.
  unfoldable pub ask_operator : ℕ → M W ℕ
  ask_operator fuel = do
    phase Phase.awaiting_shutdown (
        text
          "Graceful shutdown failed or VMware Tools is unavailable. Wait, shut down manually, or explicitly confirm Force Power Off.")
    a ← receive fuel
    obey a
    t ← now
    phase Phase.shutdown (text "Waiting for confirmed Powered off state")
    pure (t + o.shutdown_timeout)

  -- One round of the loop: `none` when the machine is off, else the next deadline.
  unfoldable pub shutdown_round : ℕ → ℕ → M W (Option ℕ)
  unfolding source_off
  shutdown_round fuel deadline = do
    j ← get_job
    if j.stop then raise stopped else do
      p ← call (Call.power r.vm.id)
      if is_off p then (do update source_off; pure none) else do
        require (is_on p) (failure (text "unexpected power state during shutdown"))
        t ← now
        next ← if ltb deadline t then ask_operator fuel else pure deadline
        call (Call.pause o.poll_interval)
        pure (some next)

  unfoldable pub shutdown_loop : ℕ → ℕ → M W (Unit {0})
  shutdown_loop zero deadline = stuck
  shutdown_loop (suc fuel) deadline = do
    next ← shutdown_round fuel deadline
    on_option next (pure tt) λ d. shutdown_loop fuel d

  unfoldable pub request_shutdown : ℕ → M W (Unit {0})
  unfolding set_down first_deadline
  request_shutdown fuel = do
    require (is_on r.power) (failure (text "unsupported source power state"))
    phase Phase.shutdown (text "Requesting a graceful guest shutdown")
    t ← now
    update (set_down t)
    reply ← try (call (Call.shutdown r.vm.id))
    t' ← now
    shutdown_loop fuel (first_deadline reply t' o.shutdown_timeout)

  unfoldable pub shutdown : ℕ → M W (Unit {0})
  unfolding source_off
  shutdown fuel = if is_off r.power then update source_off else request_shutdown fuel
