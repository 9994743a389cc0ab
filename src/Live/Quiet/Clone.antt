-- ===== src/Live/Quiet/Clone.antt =====
-- A clone of a live migration, from its launch to the exit that was seen, and the whole migration.
use esxi_mover.Prelude.{
  arith, ℕ, ◌≡◌, refl, sym, subst, Bool, true, false, Option, none, some, List, [], ◌∷◌, ◌&&◌, ◌||◌,
  ◌==◌, if◌then◌else◌, eq-true,
}
use esxi_mover.Prelude.Text.{Text}
use esxi_mover.Types.{Err, Reply, got, lost, Disk, Options, Report}
use esxi_mover.Job.{State, Job, Phase}
use esxi_mover.Host.{
  Call, Answer, Event, Host, St, call, update, modify, phase, try, raise, pure, on_option,
}
use esxi_mover.Host.Hoare.{Keeps, Keeps-on_reply, Keeps-pure, caught-state}
use esxi_mover.Host.Frame.{Frame, is_read}
use esxi_mover.Host.Trace.{Guarded, Always, call-Always, update-Always, modify-Always}
use esxi_mover.Host.Tasks.{Watches}
use esxi_mover.Host.Triple.{Triple, Triple-bind, Triple-Keeps, Triple-Ends, Triple-shift}
use esxi_mover.Engine.Clone.{Exit, wait_clone}
use esxi_mover.Engine.Clone.Exits.{exit_seen, end_read, exit_read, exited_clean, wait-Good}
use esxi_mover.Engine.Frame.Clone.{wait_clone-Keeps}
use esxi_mover.Engine.Run.{launch}
use esxi_mover.Live.Run.{leave_clone, undo, retained, run_live}
use esxi_mover.Live.Frame.Merge.{undo-Keeps}
use esxi_mover.Live.Frame.Run.{Cloning, run_live-at}
use esxi_mover.Live.Quiet.{
  is_clone, after_call, running, is_watch, no_clone, Quiet, Idle, or_right, merging,
}

-- No other clone than this one may run.
abbrev at_most : ℕ → Option ℕ → Bool
at_most i none = true
at_most i (some k) = i == k

pub record Watched {W : Type 0} (i : ℕ) (s : St W) : Type 0 where
  always : Always Quiet s
  only : at_most i (running s.trace) ≡ true

first_two : (a b c : Bool) → (a && b && c) ≡ true → (a && b) ≡ true
first_two true true c h = refl
first_two true false c h = h
first_two false b c h = h

or_left : (a b : Bool) → a ≡ true → (a || b) ≡ true
or_left true b h = refl
or_left false b h = cc h

module _ (i : ℕ) where
  only_after :
      (before : Option ℕ) (k : ℕ) (done : Bool)
      → at_most i before ≡ true
      → at_most i (if is_clone before k && done then none else before) ≡ true
  only_after before k done h = lem (is_clone before k && done)
    where
      lem : (b : Bool) → at_most i (if b then none else before) ≡ true
      lem true = refl
      lem false = h

  watch-only :
      (c : Call) (x : Reply (Answer c)) (before : Option ℕ)
      → is_watch c ≡ true
      → at_most i before ≡ true
      → at_most i (after_call c x before) ≡ true
  watch-only (Call.start_clone job n id source target off_only) x before h a = cc h
  watch-only (Call.clone_status k) (got c) before h a = only_after before k c.finished a
  watch-only (Call.clone_status k) (lost e) before h a = a
  watch-only _ x before h a = a

  ended_lem :
      (before : Option ℕ) (k : ℕ) (done : Bool)
      → (k == i && done) ≡ true
      → at_most i (if is_clone before k && done then none else before) ≡ true
      → no_clone (if is_clone before k && done then none else before) ≡ true
  ended_lem none k done d a = refl
  ended_lem (some j) k true d a = ground arith
  ended_lem (some j) k false d a = ground arith

  status-ended :
      (c : Call) (x : Reply (Answer c)) (before : Option ℕ)
      → end_read i c x ≡ true
      → at_most i (after_call c x before) ≡ true
      → no_clone (after_call c x before) ≡ true
  status-ended (Call.clone_status k) (got c) before d a = ended_lem before k c.finished d a
  status-ended (Call.clone_status k) (lost e) before d a = cc d
  status-ended _ x before d a = cc d

  -- Once its end was read, nothing runs.
  seen-none :
      (t : List Event)
      → exit_seen i t ≡ true
      → at_most i (running t) ≡ true
      → no_clone (running t) ≡ true
  seen-none [] h a = refl
  seen-none (e ∷ t) h a = status-ended e.call e.reply (running t) h a

read-watch : (c : Call) → is_read c ≡ true → is_watch c ≡ true
read-watch (Call.stop_clone i) h = refl
read-watch _ h = h

clean-seen : (i : ℕ) (t : List Event) → exited_clean i t ≡ true → exit_seen i t ≡ true
clean-seen i [] h = h
clean-seen i (e ∷ t) h = clean_lem e.call e.reply h
  where
    clean_lem : (c : Call) (x : Reply (Answer c)) → exit_read i c x ≡ true → end_read i c x ≡ true
    clean_lem (Call.clone_status k) (got c) r = first_two (k == i) c.finished (c.exit_code == 0) r
    clean_lem (Call.clone_status k) (lost e') r = cc r
    clean_lem _ x r = cc r

module _ {W : Type 0} ⦃host : Host W⦄ (i : ℕ) where
  call-Watched : (c : Call) → is_watch c ≡ true → Keeps {W = W} (Watched i) (call c)
  unfolding call
  call-Watched c h = record {
    at = λ s w. record {
      always = (or_left (is_watch c) _ h, w.always);
      only = watch-only i c _ (running s.trace) h w.only;
    };
  }

  update-Watched : (f : State → State) → Keeps {W = W} (Watched i) (update f)
  unfolding update
  update-Watched f = record { at = λ s w. record { always = w.always; only = w.only } }

  modify-Watched : (f : Job → Job) → Keeps {W = W} (Watched i) (modify f)
  unfolding modify
  modify-Watched f = record { at = λ s w. record { always = w.always; only = w.only } }

  phase-Watched : (p : Phase) (m : Text) → Keeps {W = W} (Watched i) (phase p m)
  unfolding phase
  phase-Watched p m = update-Watched _

  watches : Watches {W = W} (Watched i)
  watches = record {
    frame = record {
      reads = λ c h. call-Watched c (read-watch c h);
      jobs = λ f h. modify-Watched f;
      updates = λ f h. update-Watched f;
    };
    unknown-Keeps = λ m. phase-Watched _ m;
    stop_clone-Keeps = λ k. call-Watched (Call.stop_clone k) refl;
  }

  -- What a clone that was watched to its end, or not, leaves.
  abbrev pub Left : Exit → St W → Type 0
  Left x s = ((x.error ≡ none → Idle s) × (x.exited ≡ true → Idle s)) × Always Quiet s

  seen-Idle : (s : St W) → Watched i s → exit_seen i s.trace ≡ true → Idle s
  seen-Idle s w h = record { always = w.always; idle = seen-none i s.trace h w.only }

  pub waited-Left :
      (o : Options) (r : Report) (fuel : ℕ)
      → Triple {W = W} (Watched i) Left (Always Quiet) (wait_clone o r i fuel)
  waited-Left o r fuel =
      Triple-Ends _ (wait_clone-Keeps watches o r i fuel) (λ s w. w.always)
        λ s before x h w. (
          (
            λ passes. seen-Idle _ w (clean-seen i _ (((wait-Good o r i fuel).at s x h).0 passes)),
            λ exited. seen-Idle _ w (((wait-Good o r i fuel).at s x h).1 exited),
          ),
          w.always,
        )

  start-Watched :
      (job source target : Text) (id : ℕ) (b : Bool) (s : St W)
      → Idle s
      → Watched i (call (Call.start_clone job i id source target b) s).1
  unfolding call
  start-Watched job source target id b s h = record {
    always = (or_right false _ h.idle, h.always);
    only = eq-true i;
  }

  pub launched-Watched :
      (r : Report) (d : Disk) (b : Bool)
      → Triple {W = W} Idle (λ a s. Watched i s) (Always Quiet) (launch r i d b)
  unfolding launch try
  launched-Watched r d b =
      Triple-bind (λ a s. Watched i s) _ _
        (Triple-shift _
          (λ s h.
            rw (caught-state (call (Call.start_clone r.id i r.vm.id d.source d.target b) s))
              (start-Watched r.id d.source d.target r.vm.id b s h))
          (λ s w. w.always))
        λ reply.
          Triple-Keeps _
            (Keeps-on_reply reply _ _ (λ done. Keeps-pure tt)
              (λ e. phase-Watched Phase.reconnecting _))
            (λ s w. w.always)

module _ {W : Type 0} ⦃host : Host W⦄ (r : Report) (name : Text) where
  leave-Idle :
      (o : Option Err) (b : Bool)
      → Triple {W = W}
          (λ s. ((o ≡ none → Idle s) × (b ≡ true → Idle s)) × Always Quiet s)
          (λ a s. Idle s)
          (Always Quiet)
          (on_option o (pure tt) λ e. if b then undo r name e else raise (retained name e))
  unfolding on_option pure raise
  leave-Idle none b = record { at = λ s h. h.0.0 refl }
  leave-Idle (some e) true = record {
    at = λ s h.
        (Triple-Keeps (undo r name e) (undo-Keeps merging r name e) (λ t i. i.always)).at s
          (h.0.1 refl);
  }
  leave-Idle (some e) false = record { at = λ s h. h.1 }

module _ {W : Type 0} ⦃host : Host W⦄ where
  cloning : Cloning {W = W} Idle (Always Quiet)
  unfolding leave_clone
  cloning = record {
    weak = λ s h. h.always;
    Pending = Watched;
    Ended = Left;
    launched = λ r i d. launched-Watched i r d false;
    waited = λ o r i fuel. waited-Left i o r fuel;
    left = λ r name i x. leave-Idle r name x.error x.exited;
  }

  pub start-Idle : (s : St W) → s.trace ≡ [] → Idle s
  start-Idle s new = record { always = subst (Guarded Quiet) (sym new) tt; idle = rw new refl }

  -- In a live migration that begins with no call made, whatever the host answers and the operator
  -- does, no call but reads, pauses and requests to stop a clone is made while a clone may run: from
  -- the call that launches it, whatever its answer, until a status of that clone is read which says
  -- that its worker has finished. So no snapshot is merged, no machine is shut down or registered
  -- or unregistered, no second clone is launched and the lock is not given up until then.
  pub run_live-Quiet :
      (o : Options) (fuel : ℕ) (s : St W) → s.trace ≡ [] → Always Quiet (run_live o fuel s).1
  run_live-Quiet o fuel s new = run_live-at merging cloning o fuel frame s (start-Idle s new)
    where
      frame : Frame {W = W} (Always Quiet)
      frame = record {
        reads = λ c h. call-Always Quiet c (λ t. or_left (is_watch c) _ (read-watch c h));
        jobs = λ f h. modify-Always Quiet f;
        updates = λ f h. update-Always Quiet f;
      }
