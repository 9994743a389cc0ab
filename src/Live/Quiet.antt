-- ===== src/Live/Quiet.antt =====
-- The calls of a live migration while a clone may run (internal/migration/live.go, and `waitClone` of
-- internal/migration/engine.go).
pub mod Clone
use esxi_mover.Prelude.{
  ℕ, ◌≡◌, refl, sym, subst, ap, Bool, true, false, Option, none, some, List, [], ◌∷◌, ◌&&◌, ◌||◌,
  ◌==◌, if◌then◌else◌, Bool-cases, inl, inr, eq-true,
}
use esxi_mover.Prelude.Text.{Text}
use esxi_mover.Types.{Err, Reply, got, lost, Disk, Options, Report}
use esxi_mover.Job.{State, Job, Phase, proceed as proceed_job}
use esxi_mover.Host.{
  Call, Answer, Event, Host, St, M, ok, call, update, modify, phase, proceed, of_option,
}
use esxi_mover.Host.Hoare.{
  Keeps, Keeps-then, Keeps-bind, Keeps-try, Keeps-on_reply, Keeps-pure, Keeps-raise,
}
use esxi_mover.Host.Frame.{Frame, is_read}
use esxi_mover.Host.Trace.{Guarded, Always, call-Always}
use esxi_mover.Host.Tasks.{Tasks, Switches, Watches}
use esxi_mover.Host.Triple.{Triple, Triple-Keeps, Triple-Ends}
use esxi_mover.Engine.Clone.{Exit, wait_clone}
use esxi_mover.Engine.Clone.Exits.{exit_seen, end_read, Good, wait-Good}
use esxi_mover.Engine.Frame.Clone.{wait_clone-Keeps}
use esxi_mover.Engine.Commit.{unregister_off}
use esxi_mover.Engine.Frame.Steps.{require_off-Keeps}
use esxi_mover.Engine.Run.{launch}
use esxi_mover.Live.Merge.{remove_copy, remove_target}
use esxi_mover.Live.Frame.Reads.{merged-Keeps}
use esxi_mover.Live.Run.{run_live}
use esxi_mover.Live.Frame.Merge.{Merging, leave_clone-Keeps}
use esxi_mover.Live.Frame.Run.{Cloning, run_live-at}

-- The clone that may still run: launched, whatever the answer, and not seen to have ended.
abbrev pub is_clone : Option ℕ → ℕ → Bool
is_clone none k = false
is_clone (some i) k = k == i

abbrev pub after_call : (c : Call) → Reply (Answer c) → Option ℕ → Option ℕ
after_call (Call.start_clone job i id source target off_only) x before = some i
after_call (Call.clone_status k) (got c) before =
    if is_clone before k && c.finished then none else before
after_call _ x before = before

abbrev pub running : List Event → Option ℕ
running [] = none
running (e ∷ t) = let before = running t in after_call e.call e.reply before

-- The calls that are allowed while a clone may run.
abbrev pub is_watch : Call → Bool
is_watch (Call.stop_clone i) = true
is_watch c = is_read c

abbrev pub no_clone : Option ℕ → Bool
no_clone none = true
no_clone (some i) = false

abbrev pub Quiet : Call → List Event → Type 0
Quiet c t = (is_watch c || no_clone (running t)) ≡ true

-- Nothing runs.
pub record Idle {W : Type 0} (s : St W) : Type 0 where
  pub always : Always Quiet s
  pub idle : no_clone (running s.trace) ≡ true

abbrev is_start : Call → Bool
is_start (Call.start_clone job i id source target off_only) = true
is_start _ = false

none_after :
    (before : Option ℕ) (k : ℕ) (done : Bool)
    → no_clone before ≡ true
    → no_clone (if is_clone before k && done then none else before) ≡ true
none_after none k done h = refl
none_after (some i) k done h = cc h

start-none :
    (c : Call) (x : Reply (Answer c)) (before : Option ℕ)
    → is_start c ≡ false
    → no_clone before ≡ true
    → no_clone (after_call c x before) ≡ true
start-none (Call.start_clone job i id source target off_only) x before h n = cc h
start-none (Call.clone_status k) (got c) before h n = none_after before k c.finished n
start-none (Call.clone_status k) (lost e) before h n = n
start-none _ x before h n = n

pub or_right : (a b : Bool) → b ≡ true → (a || b) ≡ true
or_right true b h = refl
or_right false b h = h

read-start : (c : Call) → is_read c ≡ true → is_start c ≡ false
read-start (Call.start_clone job i id source target off_only) h = cc h
read-start _ h = refl

module _ {W : Type 0} where
  of_option-Idle : (x : Option Err × Job) (s : St W) → Idle s → Idle (of_option x s).1
  unfolding of_option
  of_option-Idle (none, j) s i = record { always = i.always; idle = i.idle }
  of_option-Idle (some e, j) s i = record { always = i.always; idle = i.idle }

module _ {W : Type 0} ⦃host : Host W⦄ where
  call-Idle : (c : Call) → is_start c ≡ false → Keeps {W = W} Idle (call c)
  unfolding call
  call-Idle c h = record {
    at = λ s i. record {
      always = (or_right (is_watch c) _ i.idle, i.always);
      idle = start-none c _ (running s.trace) h i.idle;
    };
  }

  update-Idle : (f : State → State) → Keeps {W = W} Idle (update f)
  unfolding update
  update-Idle f = record { at = λ s i. record { always = i.always; idle = i.idle } }

  modify-Idle : (f : Job → Job) → Keeps {W = W} Idle (modify f)
  unfolding modify
  modify-Idle f = record { at = λ s i. record { always = i.always; idle = i.idle } }

  phase-Idle : (p : Phase) (m : Text) → Keeps {W = W} Idle (phase p m)
  unfolding phase
  phase-Idle p m = update-Idle _

  proceed-Idle : (p : Phase) (m : Text) → Keeps {W = W} Idle (proceed p m)
  unfolding proceed
  proceed-Idle p m = record {
    at = λ s i. of_option-Idle (proceed_job p m (host.clock s.world) s.job) s i;
  }

  pub tasks : Tasks {W = W} Idle
  tasks = record {
    frame = record {
      reads = λ c h. call-Idle c (read-start c h);
      jobs = λ f h. modify-Idle f;
      updates = λ f h. update-Idle f;
    };
    unknown-Keeps = λ m. phase-Idle _ m;
    proceed-Keeps = λ p m h. proceed-Idle p m;
    acquire-Keeps = λ id meta. call-Idle (Call.acquire id meta) refl;
    stop_clone-Keeps = λ i. call-Idle (Call.stop_clone i) refl;
    create_target-Keeps = λ d. call-Idle (Call.create_target d) refl;
    write_target-Keeps = λ d n c. call-Idle (Call.write_target d n c) refl;
    shutdown-Keeps = λ id. call-Idle (Call.shutdown id) refl;
    force_off-Keeps = λ id. call-Idle (Call.force_off id) refl;
  }

  unregister_off-Idle : (id : ℕ) → Keeps {W = W} Idle (unregister_off id)
  unfolding unregister_off
  unregister_off-Idle id = Keeps-then _ _ (require_off-Keeps tasks.frame id) (
      Keeps-then _ _ (phase-Idle _ _)
        (Keeps-then _ _ (update-Idle _) (Keeps-try _ (call-Idle (Call.unregister id) refl))))

  remove_copy-Idle : (r : Report) (n : Text) (id : ℕ) → Keeps {W = W} Idle (remove_copy r n id)
  unfolding remove_copy
  remove_copy-Idle r n id = Keeps-then _ _ (require_off-Keeps tasks.frame id) (
      Keeps-then _ _ (call-Idle (Call.consolidate id n) refl) (
        Keeps-then _ _ (merged-Keeps tasks.frame _ _ _)
          (Keeps-try _ (call-Idle (Call.unregister id) refl))))

  remove_target-Idle : (id : ℕ) → Keeps {W = W} Idle (remove_target id)
  unfolding remove_target
  remove_target-Idle id = Keeps-bind _ _ (Keeps-try _ (require_off-Keeps tasks.frame id)) λ x.
      Keeps-then _ _ (Keeps-on_reply x _ _ (λ done. Keeps-pure tt) (λ e. Keeps-raise _))
        (Keeps-try _ (call-Idle (Call.unregister id) refl))

  pub merging : Merging {W = W} Idle
  merging = record {
    tasks = tasks;
    switches = record {
      register-Keeps = λ p. call-Idle (Call.register p) refl;
      power_on-Keeps = λ id. call-Idle (Call.power_on id) refl;
      answer-Keeps = λ id q c. call-Idle (Call.answer id q c) refl;
    };
    create_snapshot-Keeps = λ id n. call-Idle (Call.create_snapshot id n) refl;
    consolidate-Keeps = λ id n. call-Idle (Call.consolidate id n) refl;
    copy_to_target-Keeps = λ p d. call-Idle (Call.copy_to_target p d) refl;
    finish-Keeps = λ id. call-Idle (Call.finish id) refl;
    unregister_off-Keeps = unregister_off-Idle;
    remove_copy-Keeps = remove_copy-Idle;
    remove_target-Keeps = remove_target-Idle;
  }
