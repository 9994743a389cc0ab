-- ===== src/Engine/Quiet.antt =====
-- The calls of a cold migration while a clone may run (`run`, `Run` and `waitClone` of
-- internal/migration/engine.go).
use esxi_mover.Prelude.{
  ℕ, suc, ◌≡◌, refl, Bool, true, false, Option, none, some, List, [], ◌∷◌, inl, if◌then◌else◌,
}
use esxi_mover.Prelude.Text.{text}
use esxi_mover.Types.{Err, Reply, got, lost, Disk, Options, Report, is_stopped}
use esxi_mover.Job.{Phase}
use esxi_mover.Host.{
  Call, Host, St, Res, ok, err, cut, M, after, caught, of_reply, call, try, pure, raise, update,
  on_option, on_reply, get_job, phase, ◌>>=◌, ◌>>◌,
}
use esxi_mover.Host.Hoare.{Keeps, Keeps-then, Keeps-bind, Keeps-pure}
use esxi_mover.Host.Sound.{Foreign, Fine}
use esxi_mover.Host.Frame.{phase-Keeps}
use esxi_mover.Host.Trace.{Always, update-Always}
use esxi_mover.Host.Triple.{Outcome}
use esxi_mover.Engine.Clone.{Exit, wait_clone}
use esxi_mover.Engine.Clone.Errors.{stops, Honest, wait_clone-Honest}
use esxi_mover.Engine.Frame.Steps.{
  guard-Keeps, require_off-Keeps, verify_disk-Keeps, verify_disks-Keeps, copy_config-Keeps,
}
use esxi_mover.Engine.Frame.Run.{
  naming-Keeps, start_disk-Keeps, stop_point-Keeps, prepare-Keeps, switch_over-Keeps,
  finish_run-Keeps, end_stopped-Keeps,
}
use esxi_mover.Engine.Run.{
  exit_error, launch, launch_off, clone_disk, clone_disks, build_target, verified, finish_run,
  run_plan, run, run_cold, ended_with, end_stopped, failed_state,
}
use esxi_mover.Live.Quiet.{Quiet, Idle, tasks, merging}
use esxi_mover.Live.Quiet.Clone.{Watched, Left, launched-Watched, waited-Left, start-Idle}

-- What a result leaves: every call so far was allowed, and after a stop nothing runs.
abbrev Clean : {W A : Type 0} → (A → St W → Type 0) → Res A × St W → Type 0
Clean Q (ok a, s) = Q a s
Clean Q (err e, s) = Always Quiet s × (is_stopped e ≡ true → Idle s)
Clean Q (cut, s) = Always Quiet s

record Settles {W A : Type 0} (P : St W → Type 0) (Q : A → St W → Type 0) (m : M W A) : Type 0 where
  at : (s : St W) → P s → Clean Q (m s)

module _ {W A B : Type 0} (Q : A → St W → Type 0) {R : B → St W → Type 0} where
  after-Clean :
      (f : A → M W B) (x : Res A × St W)
      → Clean Q x
      → ((a : A) → Settles (Q a) R (f a))
      → Clean R (after f x)
  unfolding after
  after-Clean f (ok a, s) c k = (k a).at s c
  after-Clean f (err e, s) c k = c
  after-Clean f (cut, s) c k = c

  Settles-bind :
      {P : St W → Type 0} (m : M W A) (f : A → M W B)
      → Settles P Q m
      → ((a : A) → Settles (Q a) R (f a))
      → Settles P R (m >>= f)
  unfolding ◌>>=◌
  Settles-bind m f sm sf = record { at = λ s p. after-Clean f (m s) (sm.at s p) sf }

module _ {W B : Type 0} {P : St W → Type 0} (Q : St W → Type 0) {R : B → St W → Type 0} where
  Settles-then :
      (m : M W (Unit {0})) (k : M W B)
      → Settles P (λ a s. Q s) m
      → Settles Q R k
      → Settles P R (m >> k)
  unfolding ◌>>◌
  Settles-then m k sm sk = Settles-bind (λ a s. Q s) m (λ _. k) sm (λ _. sk)

module _ {W A : Type 0} where
  Idle-Clean : (x : Res A × St W) → Idle x.1 → Clean (λ a s. Idle s) x
  Idle-Clean (ok a, s) i = i
  Idle-Clean (err e, s) i = (i.always, λ h. i)
  Idle-Clean (cut, s) i = i.always

  -- A step that launches no clone.
  Settles-Keeps : (m : M W A) → Keeps Idle m → Settles Idle (λ a s. Idle s) m
  Settles-Keeps m k = record { at = λ s i. Idle-Clean (m s) (k.at s i) }

module _ {W : Type 0} ⦃host : Host W⦄ where
  known_value :
      (Q : Unit {0} → St W → Type 0) (x : Res (Unit {0}) × St W)
      → x.0 ≡ ok tt
      → Outcome Q (Always Quiet) x
      → Clean Q x
  known_value Q (ok tt, s) h o = o
  known_value Q (err e, s) h o = cc h
  known_value Q (cut, s) h o = cc h

  reply_value :
      (x : Reply (Unit {0})) (s : St W)
      → (after
          (λ reply.
            on_reply reply
              (λ done. pure tt)
              λ e.
                phase Phase.reconnecting
                  (text "Clone launch result is unknown; inspecting metadata without relaunching"))
          (caught (of_reply x, s))).0
        ≡ ok tt
  unfolding after caught of_reply on_reply pure phase update
  reply_value (got tt) s = refl
  reply_value (lost e) s = refl

  launch-value :
      (r : Report) (i : ℕ) (d : Disk) (b : Bool) (s : St W) → (launch r i d b s).0 ≡ ok tt
  unfolding launch try call ◌>>=◌
  launch-value r i d b s =
      reply_value (host.ask s.world (Call.start_clone r.id i r.vm.id d.source d.target b)).0 _

  launch-Settles :
      (r : Report) (i : ℕ) (d : Disk)
      → Settles {W = W} Idle (λ a s. Watched i s) (launch r i d true)
  launch-Settles r i d = record {
    at = λ s p.
        known_value (λ a s. Watched i s) (launch r i d true s) (launch-value r i d true s)
          ((launched-Watched i r d true).at s p);
  }

  launch_off-Settles :
      (r : Report) (i : ℕ) (d : Disk) → Settles {W = W} Idle (λ a s. Watched i s) (launch_off r i d)
  unfolding launch_off
  launch_off-Settles r i d =
      Settles-then Idle _ _ (Settles-Keeps _ (require_off-Keeps tasks.frame r.vm.id))
        (launch-Settles r i d)

  Sound-Clean :
      (i : ℕ) (x : Res Exit × St W)
      → Outcome (Left i) (Always Quiet) x
      → Fine Honest x.0
      → Clean (λ a s. Left i a s × Honest a) x
  Sound-Clean i (ok a, s) o f = (o, f)
  Sound-Clean i (err e, s) o f = (o, λ h. cc (h, f))
  Sound-Clean i (cut, s) o f = o

  exit_lem :
      (e : Option Err) (b : Bool) (s : St W)
      → (((e ≡ none → Idle s) × (b ≡ true → Idle s)) × Always Quiet s)
      → (b ≡ false → stops e ≡ false)
      → Clean (λ u t. Idle t) (on_option e (pure tt) (λ e'. raise e') s)
  unfolding on_option pure raise
  exit_lem none b s l h = l.0.0 refl
  exit_lem (some e) true s l h = (l.1, λ stop. l.0.1 refl)
  exit_lem (some e) false s l h = (l.1, λ stop. cc (stop, h refl))

  exit_error-Settles :
      (i : ℕ) (x : Exit)
      → Settles {W = W} (λ s. Left i x s × Honest x) (λ a s. Idle s) (exit_error x)
  unfolding exit_error
  exit_error-Settles i x = record { at = λ s l. exit_lem x.error x.exited s (l.0) (l.1) }

module _ {W : Type 0} ⦃host : Host W⦄ (foreign : Foreign host) (o : Options) (fuel : ℕ) where
  wait_clone-Settles :
      (r : Report) (i : ℕ)
      → Settles {W = W} (Watched i) (λ x s. Left i x s × Honest x) (wait_clone o r i fuel)
  wait_clone-Settles r i = record {
    at = λ s w.
        Sound-Clean i (wait_clone o r i fuel s) ((waited-Left i o r fuel).at s w)
          ((wait_clone-Honest foreign o r i fuel).at s);
  }

  clone_disk-Settles :
      (r : Report) (i : ℕ) (d : Disk) (consumed : ℕ)
      → Settles {W = W} Idle (λ a s. Idle s) (clone_disk o fuel r i d consumed)
  unfolding clone_disk
  clone_disk-Settles r i d consumed = Settles-then Idle _ _ (Settles-Keeps _ stop_point-Keeps) (
      Settles-bind (λ a s. Idle s) _ _ (Settles-Keeps _ (guard-Keeps tasks.frame r true consumed))
        λ checked. Settles-then Idle _ _ (Settles-Keeps _ (start_disk-Keeps tasks.frame _ i d)) (
          Settles-then (Watched i) _ _ (launch_off-Settles r i d) (
            Settles-bind (λ x s. Left i x s × Honest x) _ _ (wait_clone-Settles r i)
              λ x. Settles-then Idle _ _ (exit_error-Settles i x) (
                Settles-Keeps _ (
                  Keeps-then _ _ (require_off-Keeps tasks.frame r.vm.id) (
                    Keeps-then _ _ (phase-Keeps tasks.frame Phase.verifying_disk _ refl)
                      (naming-Keeps _ _ (verify_disk-Keeps tasks.frame d))))))))

  clone_disks-Settles :
      (r : Report) (i : ℕ) (ds : List Disk) (consumed : ℕ)
      → Settles {W = W} Idle (λ a s. Idle s) (clone_disks o fuel r i ds consumed)
  unfolding clone_disks
  clone_disks-Settles r i [] consumed = Settles-Keeps _ (Keeps-pure consumed)
  clone_disks-Settles r i (d ∷ ds) consumed =
      Settles-then Idle _ _ (clone_disk-Settles r i d consumed) (clone_disks-Settles r (suc i) ds _)

  build_target-Settles : (r : Report) → Settles {W = W} Idle (λ a s. Idle s) (build_target o fuel r)
  unfolding build_target verified
  build_target-Settles r = Settles-then Idle _ _ (Settles-Keeps _ (tasks.create_target-Keeps _)) (
      Settles-bind (λ a s. Idle s) _ _ (clone_disks-Settles r 0 r.disks 0)
        λ consumed. Settles-Keeps _ (
          Keeps-bind _ _ (guard-Keeps tasks.frame r true consumed) λ checked.
            Keeps-then _ _ (tasks.proceed-Keeps Phase.verifying_config _ refl) (
              Keeps-then _ _ (copy_config-Keeps tasks.frame tasks.write_target-Keeps r _ _) (
                Keeps-then _ _ (verify_disks-Keeps tasks.frame r.disks) (
                  Keeps-bind _ _ (guard-Keeps tasks.frame r true consumed)
                    λ again. tasks.frame.updates _ (λ s. inl refl))))))

  finish_run-Idle : (r : Report) → Keeps {W = W} Idle (finish_run o fuel r)
  finish_run-Idle r =
      finish_run-Keeps tasks.frame o fuel r
        (λ moves.
          switch_over-Keeps tasks.frame o fuel merging.switches merging.unregister_off-Keeps r)
        (merging.finish-Keeps r.id)

  run_plan-Settles : (plan : Report) → Settles {W = W} Idle (λ a s. Idle s) (run_plan o fuel plan)
  unfolding run_plan
  run_plan-Settles plan =
      Settles-bind (λ a s. Idle s) _ _ (Settles-Keeps _ (prepare-Keeps tasks o fuel plan))
        λ r.
          Settles-then Idle _ _ (Settles-Keeps _ (tasks.frame.jobs _ (λ k. inl refl)))
            (Settles-then Idle _ _ (build_target-Settles r) (Settles-Keeps _ (finish_run-Idle r)))

module _ {W : Type 0} ⦃host : Host W⦄ where
  failed_or_stopped :
      (b : Bool) (e : Err) (s : St W)
      → Always Quiet s
      → (b ≡ true → Idle s)
      → Always Quiet ((if b then end_stopped else update (failed_state e)) s).1
  failed_or_stopped true e s q i =
      ((end_stopped-Keeps tasks merging.finish-Keeps).at s (i refl)).always
  failed_or_stopped false e s q i = (update-Always Quiet (failed_state e)).at s q

  ended-Quiet :
      (x : Res (Unit {0}) × St W)
      → Clean (λ a s. Idle s) x
      → Always Quiet (after ended_with (caught x)).1
  unfolding after caught ended_with pure
  ended-Quiet (ok tt, s) c = c.always
  ended-Quiet (err e, s) c = failed_or_stopped (is_stopped e) e s (c.0) (c.1)
  ended-Quiet (cut, s) c = c

  -- On a host none of whose errors is the engine's own error for a stop, in a cold migration that
  -- begins with no call made, whatever else the host answers and the operator does, no call but
  -- reads, pauses and requests to stop a clone is made while a clone may run: from the call that
  -- launches it, whatever its answer, until a status of that clone is read which says that its worker
  -- has finished. So the operation lock is not given up, nothing is registered or unregistered and no
  -- second clone is launched until then, also where the run fails or is stopped.
  pub run_cold-Quiet :
      Foreign host
      → (o : Options) (fuel : ℕ) (s : St W) → s.trace ≡ []
      → Always Quiet (run_cold o fuel s).1
  unfolding run_cold run get_job try ◌>>=◌ after
  run_cold-Quiet foreign o fuel s new =
      ended-Quiet (run_plan o fuel s.job.plan s)
        ((run_plan-Settles foreign o fuel s.job.plan).at s (start-Idle s new))
