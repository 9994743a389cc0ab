-- ===== src/Engine/Power.antt =====
-- The power of a machine that is cloned or unregistered (internal/migration/engine.go).
use esxi_mover.Prelude.{ℕ, ◌≡◌, refl, sym, subst, Bool, true, List, [], ◌∷◌, eq-true}
use esxi_mover.Prelude.Text.{Text}
use esxi_mover.Types.{
  Err, Reply, got, lost, Power, on, off, suspended, unread, Disk, Options, Report, is_off,
}
use esxi_mover.Job.{State, Job, Phase}
use esxi_mover.Host.{
  Call, Event, Host, St, ok, after, of_reply, call, require, ◌>>=◌, update, phase,
}
use esxi_mover.Host.Hoare.{Keeps, Keeps-on_reply, Keeps-pure}
use esxi_mover.Host.Outcome.{Ends}
use esxi_mover.Host.Under.{Under, Keeps-then-Under, Under-then, Under-try, Under-first}
use esxi_mover.Host.Tasks.{Tasks, Switches}
use esxi_mover.Host.Trace.{
  Guarded, Always, WhenOff, proved_off, is_task, Tasks-Always, call-Always, update-Always,
  phase-Always,
}
use esxi_mover.Engine.Steps.{require_off}
use esxi_mover.Engine.Commit.{unregister_off}
use esxi_mover.Engine.Frame.Steps.{require_off-Keeps}
use esxi_mover.Engine.Frame.Run.{switch_over-Keeps, finish_run-Keeps, run_cold-at}
use esxi_mover.Engine.Run.{launch, launch_off, run_cold}

-- What holds just after the power of a machine was seen to be off.
abbrev pub SeenOff : {W : Type 0} → ℕ → St W → Type 0
SeenOff id s = proved_off id s.trace ≡ true

module _ {W : Type 0} where
  seen_lem :
      (id : ℕ) (x : Reply Power) (e : Err) (j : Job) (w : W) (t : List Event) (a : Unit {0})
      → (after
          (λ p. require (is_off p) e)
          (
            of_reply x,
            record { job = j; world = w; trace = record { call = Call.power id; reply = x } ∷ t },
          )).0
        ≡ ok a
      → SeenOff id
          (after
            (λ p. require (is_off p) e)
            (
              of_reply x,
              record { job = j; world = w; trace = record { call = Call.power id; reply = x } ∷ t },
            )).1
  unfolding after require of_reply is_off
  seen_lem id (got off) e j w t a h = rw (eq-true id) refl
  seen_lem id (got on) e j w t a h = cc h
  seen_lem id (got suspended) e j w t a h = cc h
  seen_lem id (got unread) e j w t a h = cc h
  seen_lem id (lost e') e j w t a h = cc h

module _ {W : Type 0} ⦃host : Host W⦄ where
  pub require_off-Seen : (id : ℕ) → Ends {W = W} (λ a s. SeenOff id s) (require_off id)
  unfolding require_off call ◌>>=◌
  require_off-Seen id = record {
    at = λ s a h. seen_lem id (host.ask s.world (Call.power id)).0 _ _ _ _ a h;
  }

  start_clone-Under :
      (job_id : Text) (i id : ℕ) (source target : Text) (b : Bool)
      → Under {W = W}
          (SeenOff id)
          (Always WhenOff)
          (call (Call.start_clone job_id i id source target b))
  unfolding call
  start_clone-Under job_id i id source target b = record { at = λ s seen h. (seen, h) }

  pub unregister-Under :
      (id : ℕ) → Under {W = W} (SeenOff id) (Always WhenOff) (call (Call.unregister id))
  unfolding call
  unregister-Under id = record { at = λ s seen h. (seen, h) }

  pub update-Seen : (id : ℕ) (f : State → State) → Keeps {W = W} (SeenOff id) (update f)
  unfolding update
  update-Seen id f = record { at = λ s h. h }

  phase-Seen : (id : ℕ) (p : Phase) (m : Text) → Keeps {W = W} (SeenOff id) (phase p m)
  unfolding phase
  phase-Seen id p m = update-Seen id _

task-WhenOff : (c : Call) → is_task c ≡ true → (t : List Event) → WhenOff c t
task-WhenOff (Call.unregister id) h t = cc h
task-WhenOff (Call.start_clone job i id source target off_only) h t = cc h
task-WhenOff _ h t = tt

module _ {W : Type 0} ⦃host : Host W⦄ where
  pub tasks : Tasks {W = W} (Always WhenOff)
  tasks = Tasks-Always WhenOff task-WhenOff

  pub switches : Switches {W = W} (Always WhenOff)
  switches = record {
    register-Keeps = λ p. call-Always WhenOff (Call.register p) (λ t. tt);
    power_on-Keeps = λ id. call-Always WhenOff (Call.power_on id) (λ t. tt);
    answer-Keeps = λ id q c. call-Always WhenOff (Call.answer id q c) (λ t. tt);
  }

  launch_off-WhenOff :
      (r : Report) (i : ℕ) (d : Disk) → Keeps {W = W} (Always WhenOff) (launch_off r i d)
  unfolding launch_off launch
  launch_off-WhenOff r i d =
      Keeps-then-Under _ _ (require_off-Keeps tasks.frame r.vm.id) (require_off-Seen r.vm.id) (
        Under-first _ _ (Under-try _ (start_clone-Under r.id i r.vm.id d.source d.target true))
          λ reply.
            Keeps-on_reply reply _ _ (λ done. Keeps-pure tt)
              (λ e. phase-Always WhenOff Phase.reconnecting _))

  unregister_off-WhenOff : (id : ℕ) → Keeps {W = W} (Always WhenOff) (unregister_off id)
  unfolding unregister_off
  unregister_off-WhenOff id =
      Keeps-then-Under _ _ (require_off-Keeps tasks.frame id) (require_off-Seen id) (
        Under-then _ _ (phase-Seen id _ _) (phase-Always WhenOff _ _) (
          Under-then _ _ (update-Seen id _) (update-Always WhenOff _)
            (Under-try _ (unregister-Under id))))

  -- In a cold migration that begins with no call made, whatever the host answers and the operator
  -- does, every clone of a disk and every unregistering of a machine is called for when the last
  -- thing the host was asked, apart from open questions, was the power of that machine, and the
  -- answer was off.
  pub run_cold-proved_off :
      (o : Options) (fuel : ℕ) (s : St W) → s.trace ≡ [] → Always WhenOff (run_cold o fuel s).1
  run_cold-proved_off o fuel s new =
      run_cold-at tasks o fuel launch_off-WhenOff
        (λ id. call-Always WhenOff (Call.finish id) (λ t. tt)) s
        (λ r same.
          finish_run-Keeps tasks.frame o fuel r
            (λ moves. switch_over-Keeps tasks.frame o fuel switches unregister_off-WhenOff r)
            (call-Always WhenOff (Call.finish r.id) (λ t. tt)))
        (subst (Guarded WhenOff) (sym new) tt)
