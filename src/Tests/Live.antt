-- ===== src/Tests/Live.antt =====
-- The theorems about live migrations and about the end of a clone, applied to small runs.
use esxi_mover.Prelude.{ℕ, ◌+◌, ◌≤◌, refl, true, [], arith}
use esxi_mover.Types.{got, lost, failure, on, move, Report, default_options}
use esxi_mover.Job.{new_job}
use esxi_mover.Host.{Call, Host}
use esxi_mover.Host.Trace.{Always}
use esxi_mover.Host.Whole.{Uncut}
use esxi_mover.Host.Clock.{Ticking}
use esxi_mover.Engine.Clone.{wait_clone}
use esxi_mover.Engine.Clone.Deadline.{wait_clone-Uncut}
use esxi_mover.Engine.Start.{power_on}
use esxi_mover.Engine.Start.Deadline.{power_on-Uncut}
use esxi_mover.Live.Run.{run_live}
use esxi_mover.Live.Power.{UnregistersOff, run_live-off_since}
use esxi_mover.Live.Quiet.{Quiet}
use esxi_mover.Live.Quiet.Clone.{run_live-Quiet}
use esxi_mover.Tests.{
  Machine, answer_of, files_after, plain_host, plain_report, plain_request, short_options, start,
}

-- A running machine that is to be moved.
abbrev live_report : Report
live_report = record plain_report {
  request = record plain_request { mode = move; live = true };
  power = on;
}

run_live-Quiet_example :
    Always Quiet (run_live ⦃host = plain_host live_report⦄ default_options 5 (start live_report)).1
unfolding new_job
run_live-Quiet_example =
    run_live-Quiet ⦃host = plain_host live_report⦄ default_options 5 (start live_report) refl

run_live-off_since_example :
    Always UnregistersOff
      (run_live ⦃host = plain_host live_report⦄ default_options 5 (start live_report)).1
unfolding new_job
run_live-off_since_example =
    run_live-off_since ⦃host = plain_host live_report⦄ default_options 5 (start live_report) refl

-- A host whose pauses take their time.
abbrev time_after : Machine → Call → ℕ
time_after w (Call.pause d) = w.time + d
time_after w _ = w.time + 1

abbrev steady_host : Host Machine
steady_host = record {
  ask = λ w c.
      (got (answer_of live_report w c), record { files = files_after w c; time = time_after w c });
  clock = λ w. w.time;
  requests = λ w. [];
  moved_answer = λ m. lost (failure []);
}

time_after-forward : (w : Machine) (c : Call) → w.time ≤ time_after w c
time_after-forward w (Call.pause d) = omega arith
time_after-forward w _ = omega arith

steady_host-Ticking : Ticking steady_host
steady_host-Ticking = record { forward = time_after-forward; pauses = λ w d h. omega arith }

wait_clone-Uncut_example :
    Uncut (wait_clone ⦃host = steady_host⦄ short_options live_report 0 101 (start live_report)).0
wait_clone-Uncut_example =
    wait_clone-Uncut ⦃host = steady_host⦄ steady_host-Ticking short_options live_report 0 100
      (start live_report) (omega arith)

power_on-Uncut_example :
    Uncut (power_on ⦃host = steady_host⦄ short_options live_report 11 (start live_report)).0
power_on-Uncut_example =
    power_on-Uncut ⦃host = steady_host⦄ steady_host-Ticking short_options live_report 10
      (start live_report) (omega arith)
