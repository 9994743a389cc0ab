-- ===== src/Job/Phases.antt =====
-- The phase of a job, and what an operator asks (internal/migration/state.go).
use esxi_mover.Prelude.{
  ◌≡◌, refl, ◌&&◌, ◌||◌, not, Bool, true, false, Option, none, some, inl, inr, Bool-cases,
}
use esxi_mover.Job.{
  Job, Action, control, request_stop, answer_wait, send, stoppable, is_awaiting, is_known, is_force,
}

stop-phase : (confirmed : Bool) (j : Job) → (request_stop confirmed j).1.state.phase ≡ j.state.phase
unfolding request_stop
stop-phase false j = refl
stop-phase true j =
    elim (Bool-cases (j.state.complete || j.final || not (stoppable j.state.phase))) [
      | inl past ↦ rw past refl
      | inr early ↦ rw early refl
    ]

send-phase : (a : Action) (x : Option Action) (j : Job) → (send a x j).1.state.phase ≡ j.state.phase
unfolding send
send-phase a none j = refl
send-phase a (some b) j = refl

answer-phase :
    (a : Action) (confirmed : Bool) (j : Job)
    → (answer_wait a confirmed j).1.state.phase ≡ j.state.phase
unfolding answer_wait
answer-phase a confirmed j = elim (Bool-cases (is_awaiting j.state.phase)) [
  | inr busy ↦ rw busy refl
  | inl waiting ↦ elim (Bool-cases (is_known a)) [
    | inr strange ↦ rw (waiting, strange) refl
    | inl known ↦ elim (Bool-cases (is_force a && not confirmed)) [
      | inl bare ↦ rw (waiting, known, bare) refl
      | inr sure ↦ rw (waiting, known, sure) (send-phase a j.actions j)
    ]
  ]
]

pub control-phase :
    (a : Action) (confirmed : Bool) (j : Job)
    → (control a confirmed j).1.state.phase ≡ j.state.phase
unfolding control
control-phase Action.stop confirmed j = stop-phase confirmed j
control-phase Action.wait confirmed j = answer-phase Action.wait confirmed j
control-phase Action.manual confirmed j = answer-phase Action.manual confirmed j
control-phase Action.force confirmed j = answer-phase Action.force confirmed j
control-phase (Action.other w) confirmed j = answer-phase (Action.other w) confirmed j
