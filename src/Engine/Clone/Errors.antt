-- ===== src/Engine/Clone/Errors.antt =====
-- The errors with which watching a clone ends (`waitClone` of internal/migration/engine.go).
use esxi_mover.Prelude.{ℕ, zero, suc, ◌≡◌, refl, Bool, true, false, Option, none, some}
use esxi_mover.Prelude.Text.{Text}
use esxi_mover.Types.{Err, Reply, got, lost, Options, Report, is_stopped}
use esxi_mover.Host.{Call, CloneStatus, Host, M, pure, try, call, ◌>>=◌}
use esxi_mover.Host.Sound.{
  Foreign, Sound, Any, OtherError, Sound-bind, Sound-then, Sound-pure, Sound-stuck, Sound-if,
  Sound-try, Sound-call, Sound-now, Sound-get_job, Sound-update, Sound-modify, Sound-phase,
}
use esxi_mover.Engine.Clone.{
  Exit, Watch, Next, leave, onward, unsure_exit, lost_contact, show, ended, running, observed,
  ask_stop, stop_part, stop_and_pause, clone_round, clone_loop, mark_unknown, wait_clone, on_next,
  paused,
}

abbrev pub stops : Option Err → Bool
stops none = false
stops (some e) = is_stopped e

-- An exit that was not seen does not come with the error for a stop.
abbrev pub Honest : Exit → Type 0
Honest x = x.exited ≡ false → stops x.error ≡ false

abbrev HonestNext : Next → Type 0
HonestNext (leave x) = Honest x
HonestNext (onward w) = Unit

module _ {W : Type 0} ⦃host : Host W⦄ (foreign : Foreign host) (o : Options) (r : Report)
    (i : ℕ) where
  unsure-Sound : (m : Text) → Sound {W = W} HonestNext (pure (unsure_exit m))
  unfolding unsure_exit is_stopped
  unsure-Sound m = Sound-pure _ (λ h. refl)

  ended-Sound :
      (cause : Option Err) (c : CloneStatus) → Sound {W = W} HonestNext (ended o r i cause c)
  unfolding ended
  ended-Sound cause c = Sound-bind Any _ _ Sound-get_job λ j u.
      Sound-then _ _ (Sound-if _ _ _ (Sound-pure tt tt) (Sound-update _)) (Sound-pure _ (λ h. cc h))

  running-Sound :
      (since : ℕ) (c : CloneStatus) (w : Watch) → Sound {W = W} HonestNext (running o r i since c w)
  unfolding running
  running-Sound since c w = Sound-bind Any _ _ Sound-now λ t u. Sound-if _ _ _ (unsure-Sound _) (
      Sound-bind Any _ _ Sound-get_job λ j u'.
        Sound-if _ _ _
          (Sound-bind Any _ _ (Sound-try _)
            λ free v. Sound-bind Any _ _ Sound-now λ t' v'. Sound-pure _ tt)
          (Sound-pure _ tt))

  show-Sound : (c : CloneStatus) → Sound {W = W} Any (show i c)
  unfolding show
  show-Sound c = Sound-bind Any _ _ Sound-now λ t u. Sound-modify _

  observed-Sound :
      (since : ℕ) (w : Watch) (x : Reply CloneStatus)
      → OtherError x
      → Sound {W = W} HonestNext (observed o r i since w x)
  unfolding observed lost_contact is_stopped
  observed-Sound since w (lost e) other = Sound-bind Any _ _ Sound-now λ t u.
      Sound-if _ _ _ (Sound-pure _ (λ h. other))
        (Sound-then _ _ (Sound-phase _ _) (Sound-pure _ tt))
  observed-Sound since w (got c) other = Sound-bind Any _ _ Sound-now λ t u.
      Sound-then _ _ (show-Sound c)
        (Sound-if _ _ _ (ended-Sound w.stop_cause c) (running-Sound since c _))

  ask_stop-Sound : (w : Watch) → Sound {W = W} Any (ask_stop o r i w)
  unfolding ask_stop
  ask_stop-Sound w =
      Sound-if _ _ _ (Sound-pure true tt)
        (Sound-bind Any _ _ (Sound-try _) λ reply u. Sound-pure _ tt)

  stop_part-Sound : (w : Watch) → Sound {W = W} HonestNext (stop_part o r i w)
  unfolding stop_part
  stop_part-Sound w = Sound-bind Any _ _ Sound-get_job λ j u.
      Sound-if _ _ _
        (Sound-bind Any _ _ Sound-now λ t u'. Sound-bind Any _ _ (ask_stop-Sound w) λ sent v.
          Sound-then _ _ (Sound-update _) (
            Sound-bind Any _ _ Sound-now
              λ t' v'. Sound-if _ _ _ (unsure-Sound _) (Sound-pure _ tt)))
        (Sound-pure _ tt)

  paused-Sound :
      (x : Reply (Unit {0})) (w : Watch)
      → OtherError x
      → Sound {W = W} HonestNext (pure (paused x w))
  unfolding paused
  paused-Sound (got tt) w other = Sound-pure _ tt
  paused-Sound (lost e) w other = Sound-pure _ (λ h. other)

  pause-Sound :
      (n : Next)
      → HonestNext n
      → Sound {W = W} HonestNext (
          on_next n
            (λ x. pure (leave x))
            λ w. (try (call (Call.pause o.poll_interval)) >>= λ reply. pure (paused reply w)))
  unfolding on_next
  pause-Sound (leave x) h = Sound-pure _ h
  pause-Sound (onward w) h =
      Sound-bind OtherError _ _ (Sound-call foreign (Call.pause o.poll_interval))
        λ reply other. paused-Sound reply w other

  stop_and_pause-Sound :
      (n : Next) → HonestNext n → Sound {W = W} HonestNext (stop_and_pause o r i n)
  unfolding stop_and_pause
  stop_and_pause-Sound (leave x) h = Sound-pure _ h
  stop_and_pause-Sound (onward w) h =
      Sound-bind HonestNext _ _ (stop_part-Sound w) λ n k. pause-Sound n k

  clone_round-Sound :
      (deadline since : ℕ) (w : Watch)
      → Sound {W = W} HonestNext (clone_round o r i deadline since w)
  unfolding clone_round
  clone_round-Sound deadline since w = Sound-bind Any _ _ Sound-now λ t u.
      Sound-if _ _ _
        (Sound-bind OtherError _ _ (Sound-call foreign (Call.clone_status i)) λ reply other.
          Sound-bind HonestNext _ _ (observed-Sound since w reply other)
            λ next h. stop_and_pause-Sound next h)
        (unsure-Sound _)

  next-Sound :
      (n : Next) (f : Watch → M W Exit)
      → HonestNext n
      → ((w : Watch) → Sound Honest (f w))
      → Sound {W = W} Honest (on_next n (λ x. pure x) f)
  unfolding on_next
  next-Sound (leave x) f h k = Sound-pure _ h
  next-Sound (onward w) f h k = k w

  clone_loop-Sound :
      (fuel deadline since : ℕ) (w : Watch)
      → Sound {W = W} Honest (clone_loop o r i fuel deadline since w)
  unfolding clone_loop
  clone_loop-Sound zero deadline since w = Sound-stuck
  clone_loop-Sound (suc fuel) deadline since w =
      Sound-bind HonestNext _ _ (clone_round-Sound deadline since w)
        λ next h. next-Sound next _ h (λ w'. clone_loop-Sound fuel deadline since w')

  mark_unknown-Sound : (x : Exit) → Sound {W = W} Any (mark_unknown o r i x)
  unfolding mark_unknown
  mark_unknown-Sound x = Sound-if _ _ _ (Sound-phase _ _) (Sound-pure tt tt)

  -- An exit that was not seen never comes with the error for a stop.
  pub wait_clone-Honest : (fuel : ℕ) → Sound {W = W} Honest (wait_clone o r i fuel)
  unfolding wait_clone
  wait_clone-Honest fuel = Sound-bind Any _ _ Sound-now λ t u.
      Sound-bind Honest _ _ (clone_loop-Sound fuel _ _ _)
        λ x h. Sound-then _ _ (mark_unknown-Sound x) (Sound-pure _ h)
