-- ===== src/Engine/Clone/Deadline.antt =====
-- The deadline of watching a clone (`waitClone` of internal/migration/engine.go), counted in rounds.
use esxi_mover.Prelude.{ℕ, zero, suc, ◌+◌, ◌*◌, ◌≤◌, ◌≡◌, refl, false, Option, ltb, arith}
use esxi_mover.Prelude.Text.{Text}
use esxi_mover.Types.{Err, Options, Report, Reply, got, lost}
use esxi_mover.Host.{
  Call, CloneStatus, Host, St, Res, ok, err, cut, M, after, call, try, pure, now, ◌>>=◌,
}
use esxi_mover.Host.Hoare.{Keeps-now, Keeps-try}
use esxi_mover.Host.Carry.{WithValue}
use esxi_mover.Host.From.{From, From-bind, From-Keeps, From-pure, From-choice}
use esxi_mover.Engine.Frame.Clone.{stop_part-Keeps, observed-Keeps}
use esxi_mover.Host.Clock.{
  Ticking, AtLeast, none_left, one_less, add_left, call-AtLeast, watches, pause-From,
}
use esxi_mover.Host.Whole.{
  Uncut, Whole, whole_rules, Whole-bind, Whole-then, Whole-pure, Whole-try, Whole-call, after-Uncut,
}
use esxi_mover.Engine.Clone.{
  Exit, Watch, Next, leave, onward, on_next, live_source_free, show, ended, running, observed,
  ask_stop, stop_part, stop_and_pause, clone_round, clone_loop, mark_unknown, wait_clone, paused,
  unsure_exit,
}

module _ {W A : Type 0} where
  Whole-on_next :
      (x : Next) (f : Exit → M W A) (g : Watch → M W A)
      → ((e : Exit) → Whole (f e))
      → ((w : Watch) → Whole (g w))
      → Whole (on_next x f g)
  unfolding on_next
  Whole-on_next (leave x) f g kf kg = kf x
  Whole-on_next (onward w) f g kf kg = kg w

-- No part of a round is cut off.
module _ {W : Type 0} ⦃host : Host W⦄ (o : Options) (r : Report) (i : ℕ) where
  live_source_free-Whole : Whole {W = W} (live_source_free r)
  unfolding live_source_free
  live_source_free-Whole = search whole_rules depth 40

  show-Whole : (c : CloneStatus) → Whole {W = W} (show i c)
  unfolding show
  show-Whole c = search whole_rules depth 40

  ended-Whole : (cause : Option Err) (c : CloneStatus) → Whole {W = W} (ended o r i cause c)
  unfolding ended
  ended-Whole cause c = search whole_rules depth 40

  running-Whole :
      (since : ℕ) (c : CloneStatus) (w : Watch) → Whole {W = W} (running o r i since c w)
  unfolding running
  running-Whole since c w = search (whole_rules, live_source_free-Whole) depth 40

  observed-Whole :
      (since : ℕ) (w : Watch) (x : Reply CloneStatus) → Whole {W = W} (observed o r i since w x)
  unfolding observed
  observed-Whole since w (lost e) = search whole_rules depth 40
  observed-Whole since w (got c) =
      search (whole_rules, show-Whole, ended-Whole, running-Whole) depth 40

  stop_part-Whole : (w : Watch) → Whole {W = W} (stop_part o r i w)
  unfolding stop_part ask_stop
  stop_part-Whole w = search whole_rules depth 40

  stop_and_pause-Whole : (x : Next) → Whole {W = W} (stop_and_pause o r i x)
  unfolding stop_and_pause
  stop_and_pause-Whole (leave x) = search whole_rules
  stop_and_pause-Whole (onward w) = Whole-bind _ _ (stop_part-Whole w) λ next.
      Whole-on_next next _ _ (λ x. Whole-pure _)
        λ w'.
          Whole-bind _ _ (Whole-try _ (Whole-call (Call.pause o.poll_interval)))
            λ reply. Whole-pure (paused reply w')

  clone_round-Whole :
      (deadline since : ℕ) (w : Watch) → Whole {W = W} (clone_round o r i deadline since w)
  unfolding clone_round
  clone_round-Whole deadline since w =
      search (whole_rules, observed-Whole, stop_and_pause-Whole) depth 40

  mark_unknown-Whole : (x : Exit) → Whole {W = W} (mark_unknown o r i x)
  unfolding mark_unknown
  mark_unknown-Whole x = search whole_rules depth 40

-- A round that goes on has paused.
Later : {W : Type 0} ⦃host : Host W⦄ → Options → ℕ → Next → St W → Type 0
Later o c (leave x) s = Unit
Later o c (onward w) s = AtLeast (c + o.poll_interval) s

module _ {W : Type 0} ⦃host : Host W⦄ (ticking : Ticking host) (c : ℕ) (o : Options) (r : Report)
    (i : ℕ) where
  paused-From :
      (x : Reply (Unit {0})) (w : Watch)
      → From {W = W} (WithValue (AtLeast (c + o.poll_interval)) x) (Later o c) (pure (paused x w))
  unfolding paused Later
  paused-From (got tt) w = From-pure _ (λ s h. h)
  paused-From (lost e) w = From-pure _ (λ s h. tt)

  after_stop-From :
      (n : Next)
      → From {W = W} (AtLeast c) (Later o c) (
          on_next n
            (λ x. pure (leave x))
            λ w. (try (call (Call.pause o.poll_interval)) >>= λ reply. pure (paused reply w)))
  unfolding on_next Later
  after_stop-From (leave x) = From-pure _ (λ s h. tt)
  after_stop-From (onward w) =
      From-bind (WithValue (AtLeast (c + o.poll_interval))) _ _
        (pause-From ticking c o.poll_interval) λ reply. paused-From reply w

  stop_and_pause-From : (n : Next) → From {W = W} (AtLeast c) (Later o c) (stop_and_pause o r i n)
  unfolding stop_and_pause Later
  stop_and_pause-From (leave x) = From-pure _ (λ s h. tt)
  stop_and_pause-From (onward w) =
      From-bind (λ n s. AtLeast c s) _ _
        (From-Keeps _ (stop_part-Keeps (watches ticking c) o r i w)) λ n. after_stop-From n

  unsure-From : (m : Text) → From {W = W} (AtLeast c) (Later o c) (pure (unsure_exit m))
  unfolding unsure_exit Later
  unsure-From m = From-pure _ (λ s h. tt)

  round-From :
      (deadline since : ℕ) (w : Watch)
      → From {W = W} (AtLeast c) (Later o c) (clone_round o r i deadline since w)
  unfolding clone_round
  round-From deadline since w =
      From-bind (λ t s. AtLeast c s) _ _ (From-Keeps _ Keeps-now)
        λ t.
          From-choice _ _ _
            (From-bind (λ x s. AtLeast c s) _ _
              (From-Keeps _ (Keeps-try _ (call-AtLeast ticking c (Call.clone_status i))))
              λ x.
                From-bind (λ n s. AtLeast c s) _ _
                  (From-Keeps _ (observed-Keeps (watches ticking c) o r i since w x))
                  λ n. stop_and_pause-From n)
            (unsure-From _)

module _ {W : Type 0} ⦃host : Host W⦄ (o : Options) (r : Report) (i : ℕ) where
  -- At the deadline a round leaves.
  late_round :
      (deadline since : ℕ) (w : Watch) (s : St W)
      → ltb (host.clock s.world) deadline ≡ false
      → (f : Watch → M W Exit)
      → Uncut (after (λ n. on_next n (λ x. pure x) f) (clone_round o r i deadline since w s)).0
  unfolding clone_round now ◌>>=◌ after unsure_exit pure on_next
  late_round deadline since w s late f = rw late tt

module _ {W : Type 0} ⦃host : Host W⦄ (ticking : Ticking host) (o : Options) (r : Report)
    (i : ℕ) where
  Enough : ℕ → ℕ → St W → Type 0
  Enough n deadline s = deadline ≤ host.clock s.world + n * o.poll_interval

  onward-Uncut :
      (c : ℕ) (f : Watch → M W Exit) (x : Res Next × St W)
      → Uncut x.0
      → ((n : Next) → x.0 ≡ ok n → Later o c n x.1)
      → ((w : Watch) (s : St W) → AtLeast (c + o.poll_interval) s → Uncut (f w s).0)
      → Uncut (after (λ n. on_next n (λ e. pure e) f) x).0
  unfolding after on_next pure Later
  onward-Uncut c f (ok (leave e), s) u l k = tt
  onward-Uncut c f (ok (onward w), s) u l k = k w s (l (onward w) refl)
  onward-Uncut c f (err e, s) u l k = tt
  onward-Uncut c f (cut, s) u l k = u

  loop-Uncut :
      (n deadline since : ℕ) (w : Watch) (s : St W)
      → Enough n deadline s
      → Uncut (clone_loop o r i (suc n) deadline since w s).0
  unfolding clone_loop ◌>>=◌ Enough AtLeast
  loop-Uncut zero deadline since w s enough =
      late_round o r i deadline since w s
        (none_left (host.clock s.world) deadline o.poll_interval enough) _
  loop-Uncut (suc m) deadline since w s enough =
      onward-Uncut (host.clock s.world) (clone_loop o r i (suc m) deadline since) _
        ((clone_round-Whole o r i deadline since w).at s)
        ((round-From ticking (host.clock s.world) o r i deadline since w).at s (omega arith))
        λ w' s' later.
          loop-Uncut m deadline since w' s'
            (one_less (host.clock s.world) m deadline o.poll_interval enough later)

  -- On a host whose clock is never set back and whose pauses last as long as was asked for, watching
  -- a clone ends, with fuel for one round more than there are pauses up to the deadline: it returns
  -- an exit or fails, and is not cut off, whatever else the host answers and the operator does.
  pub wait_clone-Uncut :
      (n : ℕ) (s : St W)
      → o.clone_timeout ≤ n * o.poll_interval
      → Uncut (wait_clone o r i (suc n) s).0
  unfolding wait_clone now ◌>>=◌ after Enough
  wait_clone-Uncut n s long =
      after-Uncut _ (clone_loop o r i (suc n) _ _ _ s)
        (loop-Uncut n _ _ _ s
          (add_left (host.clock s.world) o.clone_timeout (n * o.poll_interval) long))
        λ x. Whole-then _ _ (mark_unknown-Whole o r i x) (Whole-pure x)
