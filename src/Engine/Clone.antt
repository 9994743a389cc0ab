-- ===== src/Engine/Clone.antt =====
-- `waitClone` of internal/migration/engine.go: the detached clone is watched until its exit marker
-- is seen, a time limit passes, or the context ends.
pub mod Exits
pub mod Errors
pub mod Deadline
use esxi_mover.Prelude.{
  ℕ, zero, suc, ◌+◌, Bool, true, false, Option, none, some, [], ◌∷◌, ◌++◌, ◌&&◌, ◌||◌, not, ltb,
  ◌==◌, if◌then◌else◌, get_or,
}
use esxi_mover.Prelude.Text.{Text, text, ◌≟◌, decimal, join, is_some}
use esxi_mover.Types.{
  Err, stopped, failure, wrapped, Reply, got, lost, describe, error_of, check_that, Options, Report,
}
use esxi_mover.Job.{State, Job, Phase}
use esxi_mover.Host.{
  Call, CloneStatus, Host, M, ◌>>=◌, ◌>>◌, pure, lift, stuck, try, get_job, modify, now, call,
  update, phase,
}
use esxi_mover.Live.Space.{delta_free, delta_places, require_live_source_space}

-- Whether the worker's exit was seen, and the error.
pub record Exit : Type 0 where
  pub exited : Bool
  pub error : Option Err

-- The variables of the loop.
pub record Watch : Type 0 where
  pub last_contact : ℕ
  pub last_space_check : ℕ
  pub stop_cause : Option Err
  pub stop_deadline : Option ℕ
  pub stopping : Bool

-- What a part of a round does: leave the loop, or go on.
pub data Next : Type 0 where
  leave : Exit → Next
  onward : Watch → Next

-- The errors of `waitClone`.
unfoldable pub lost_contact : Err → Err
lost_contact e =
    wrapped
      (text
        "cannot determine remote clone outcome; it may still be running; inspect ESXi transient metadata: ")
      e []

exit_failure : ℕ → Err
unfolding decimal
exit_failure n = failure (
    text "vmkfstools clone exited with code "
    ++ decimal n
    ++ text "; source registration is unchanged")

-- The exit that a finished clone means.
unfoldable pub exit_of : Option Err → Bool → ℕ → Option Err
unfolding exit_failure
exit_of (some cause) stop code = some cause
exit_of none stop code =
    if stop then some stopped else if code == 0 then none else some (exit_failure code)

log_entry : ℕ → Text → Text → Text
unfolding decimal
log_entry index disk log = text "Disk " ++ decimal (index + 1) ++ text ": " ++ disk ++ 10 ∷ log

-- A status in the page's state; a finished clone's log is kept.
unfoldable pub show_status : ℕ → CloneStatus → ℕ → Job → Job
unfolding log_entry join
show_status index c t j =
    let current = log_entry index j.state.current_disk c.log in
    record j {
      state = record s {
        phase = Phase.cloning;
        progress = c.progress;
        technical_log = join (j.clone_logs ++ current ∷ []) (10 ∷ 10 ∷ []);
        updated = t;
      };
      clone_logs = if c.finished then j.clone_logs ++ current ∷ [] else j.clone_logs;
    }
  where
    s : State
    s = j.state

unfoldable pub full_progress : State → State
full_progress s = record s { progress = 100 }

-- The message while a stop is on its way.
stopping_text : Option Err → Text
unfolding describe
stopping_text none = text "Stopping the clone; waiting for confirmed exit"
stopping_text (some e) = text "Stopping the clone; waiting for confirmed exit: " ++ describe e

unfoldable pub set_message : Text → State → State
set_message m s = record s { message = m }

-- The answer of the space check, `t` its time: too little space is a reason to stop, and so is a
-- space that has not been read for too long.
unfoldable pub space_cause : Options → Reply ℕ → ℕ → Watch → Watch
unfolding require_live_source_space check_that
space_cause o (got free) t w = record w {
  last_space_check = t;
  stop_cause = error_of (require_live_source_space free);
}
space_cause o (lost e) t w = record w {
  stop_cause =
      if ltb (w.last_space_check + o.disconnect_timeout) t
      then some (wrapped (text "source free space can no longer be monitored: ") e [])
      else none;
}

first_time : ℕ → Option ℕ → ℕ
first_time t none = t
first_time t (some u) = u

succeeded : Reply (Unit {0}) → Bool
succeeded (got done) = true
succeeded (lost e) = false

unfoldable pub on_next : {W A : Type 0} → Next → (Exit → M W A) → (Watch → M W A) → M W A
on_next (leave x) f g = f x
on_next (onward w) f g = g w

unfoldable pub unsure_exit : Text → Next
unsure_exit m = leave (record { exited = false; error = some (failure m) })

unfoldable pub paused : Reply (Unit {0}) → Watch → Next
paused (got done) w = onward w
paused (lost e) w = leave (record { exited = false; error = some e })

unfoldable pub first_watch : ℕ → Watch
first_watch t = record {
  last_contact = t;
  last_space_check = t;
  stop_cause = none;
  stop_deadline = none;
  stopping = false;
}

module _ {W : Type 0} ⦃host : Host W⦄ where
  -- liveSourceFree; the places hold the VMX, so there is a least value.
  unfoldable pub live_source_free : Report → M W ℕ
  unfolding delta_free delta_places
  live_source_free r = do
    ds ← call Call.datastores
    least ← lift (delta_free ds (delta_places r))
    pure (get_or least 0)

  -- `j.update` of a status, which writes the job's log as well.
  unfoldable pub show : ℕ → CloneStatus → M W (Unit {0})
  unfolding show_status
  show index c = do t ← now; modify (show_status index c t)

module _ {W : Type 0} ⦃host : Host W⦄ (o : Options) (r : Report) (index : ℕ) where
  -- A clone that ended: its exit, and full progress if all went well.
  unfoldable pub ended : Option Err → CloneStatus → M W Next
  unfolding exit_of full_progress
  ended cause c = do
    j ← get_job
    let e = exit_of cause j.stop c.exit_code
    if is_some e then pure tt else update full_progress
    pure (leave (record { exited = true; error = e }))

  -- A clone that still runs: no progress for too long, which the message does not explain by the
  -- error of the launch, and the space that its source has.
  unfoldable pub running : ℕ → CloneStatus → Watch → M W Next
  unfolding unsure_exit space_cause
  running since c w = do
    t ← now
    if c.log ≟ [] && ltb (since + o.disconnect_timeout) t
        then pure (
            unsure_exit (
              text
                "clone did not produce progress or an exit marker; launch outcome remains unknown"))
        else do
          j ← get_job
          if r.request.live && not (is_some w.stop_cause) && not j.stop
              then (do
                free ← try (live_source_free r)
                t' ← now
                pure (onward (space_cause o free t' w)))
              else pure (onward w)

  -- The answer of CloneStatus.
  unfoldable pub observed : ℕ → Watch → Reply CloneStatus → M W Next
  unfolding lost_contact
  observed since w (lost e) = do
    t ← now
    if ltb (w.last_contact + o.disconnect_timeout) t
        then pure (leave (record { exited = false; error = some (lost_contact e) }))
        else do
          phase Phase.reconnecting (
              text
                "SSH unavailable or remote process state uncertain; clone will never be relaunched automatically")
          pure (onward w)
  observed since w (got c) = do
    t ← now
    let seen = record w { last_contact = t }
    show index c
    if c.finished then ended w.stop_cause c else running since c seen

  -- A stop is asked of the host until the host has taken it once.
  unfoldable pub ask_stop : Watch → M W Bool
  unfolding succeeded
  ask_stop w =
      if w.stopping
      then pure true
      else do reply ← try (call (Call.stop_clone index)); pure (succeeded reply)

  -- The part of a round that ends a clone.
  unfoldable pub stop_part : Watch → M W Next
  unfolding unsure_exit first_time stopping_text set_message
  stop_part w = do
    j ← get_job
    if j.stop || is_some w.stop_cause
        then (do
          t ← now
          let limit = first_time (t + o.disconnect_timeout) w.stop_deadline
          sent ← ask_stop w
          update (set_message (stopping_text w.stop_cause))
          t' ← now
          if ltb limit t'
              then pure (
                  unsure_exit (
                    text "clone stop could not be confirmed; detached worker may still be running"))
              else pure (onward (record w { stop_deadline = some limit; stopping = sent })))
        else pure (onward w)

  unfoldable pub stop_and_pause : Next → M W Next
  unfolding paused
  stop_and_pause (leave x) = pure (leave x)
  stop_and_pause (onward w) = do
    next ← stop_part w
    on_next next (λ x. pure (leave x))
        λ w'. (do reply ← try (call (Call.pause o.poll_interval)); pure (paused reply w'))

  -- One round of the loop.
  unfoldable pub clone_round : ℕ → ℕ → Watch → M W Next
  unfolding unsure_exit
  clone_round deadline since w = do
    t ← now
    if ltb t deadline
        then (do
          reply ← try (call (Call.clone_status index))
          next ← observed since w reply
          stop_and_pause next)
        else pure (
            unsure_exit
              (text "clone observation deadline exceeded; detached worker may still be running"))

  unfoldable pub clone_loop : ℕ → ℕ → ℕ → Watch → M W Exit
  clone_loop zero deadline since w = stuck
  clone_loop (suc fuel) deadline since w = do
    next ← clone_round deadline since w
    on_next next (λ x. pure x) λ w'. clone_loop fuel deadline since w'

  -- The deferred function: without the exit the outcome is unknown.
  unfoldable pub mark_unknown : Exit → M W (Unit {0})
  mark_unknown x =
      if is_some x.error && not x.exited
      then phase Phase.unknown (
          text
            "The clone may still be running on ESXi. Confirm its exit before changing files, merging snapshots or archiving the operation lock.")
      else pure tt

  -- waitClone.
  unfoldable pub wait_clone : ℕ → M W Exit
  unfolding first_watch
  wait_clone fuel = do
    t ← now
    x ← clone_loop fuel (t + o.clone_timeout) t (first_watch t)
    mark_unknown x
    pure x
