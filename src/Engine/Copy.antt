-- ===== src/Engine/Copy.antt =====
-- The calls of a request to copy (internal/migration/engine.go).
use esxi_mover.Prelude.{ℕ, ◌≡◌, refl, sym, ap, subst, ◌∙◌, true, false, List, []}
use esxi_mover.Types.{Options, Report, is_move}
use esxi_mover.Host.{Call, Event, Host, St}
use esxi_mover.Host.Hoare.{Keeps}
use esxi_mover.Host.Tasks.{Tasks}
use esxi_mover.Host.Trace.{Guarded, Always, is_switch, is_task, Tasks-Always, call-Always}
use esxi_mover.Engine.Frame.Run.{launch_off-Keeps, finish_run-Keeps, run_cold-at}
use esxi_mover.Engine.Run.{finish_run, run_cold}

-- In a copy every call leaves the registrations alone.
abbrev Copying : Call → List Event → Type 0
Copying c t = is_switch c ≡ false

task-Copying : (c : Call) → is_task c ≡ true → (t : List Event) → Copying c t
task-Copying (Call.register p) h t = cc h
task-Copying (Call.unregister id) h t = cc h
task-Copying (Call.power_on id) h t = cc h
task-Copying (Call.answer id q c) h t = cc h
task-Copying _ h t = refl

module _ {W : Type 0} ⦃host : Host W⦄ (o : Options) (fuel : ℕ) where
  finish_run-Copying :
      (r : Report)
      → is_move r.request.mode ≡ false
      → Keeps {W = W} (Always Copying) (finish_run o fuel r)
  finish_run-Copying r h =
      finish_run-Keeps (Tasks-Always Copying task-Copying).frame o fuel r (λ moves. cc (h, moves))
        (call-Always Copying (Call.finish r.id) (λ t. refl))

  -- A cold migration that begins with no call made, and whose request is not to move, makes no
  -- call that registers, unregisters or starts a virtual machine, or answers its questions,
  -- whatever the host answers and the operator does, also where the run fails, is stopped or is
  -- cut off.
  pub run_cold-copies :
      (s : St W)
      → is_move s.job.plan.request.mode ≡ false
      → s.trace ≡ []
      → Always (λ c t. is_switch c ≡ false) (run_cold o fuel s).1
  run_cold-copies s copies new =
      run_cold-at tasks o fuel
        (λ r i d. launch_off-Keeps tasks.frame r i d (
          call-Always Copying (Call.start_clone r.id i r.vm.id d.source d.target true) (λ t. refl)))
        (λ id. call-Always Copying (Call.finish id) (λ t. refl)) s
        (λ r same. finish_run-Copying r (ap (λ q. is_move q.mode) same ∙ copies))
        (subst (Guarded Copying) (sym new) tt)
    where
      tasks : Tasks {W = W} (Always Copying)
      tasks = Tasks-Always Copying task-Copying
