-- ===== src/Job/Laws.antt =====
-- What an operator can get of a job: the laws of `Control`, `requestStop` and `proceed`.
use esxi_mover.Prelude.{
  ℕ, ◌≡◌, ◌≢◌, refl, Bool, true, false, Option, none, some, ◌⊎◌, inl, inr, not, ◌&&◌, ◌||◌,
  Bool-cases,
}
use esxi_mover.Prelude.Text.{Text}
use esxi_mover.Types.{Err, stopped}
use esxi_mover.Job.{
  Job, Phase, Action, control, request_stop, proceed, stoppable, answer_wait, is_awaiting, is_known,
  is_force, send,
}

stop_accepted :
    (confirmed : Bool) (j : Job)
    → (request_stop confirmed j).0 ≡ none
    → (request_stop confirmed j).1.stop ≡ true
unfolding request_stop
stop_accepted false j h = cc h
stop_accepted true j h =
    elim (Bool-cases (j.state.complete || j.final || not (stoppable j.state.phase))) [
      | inl past ↦ cc (rw past at h)
      | inr early ↦ rw early refl
    ]

-- A stop that was accepted is in force: the next point of no return refuses to be passed, whatever
-- its phase and message, and the job stays as it is.
pub proceed-request_stop :
    (confirmed : Bool) (j : Job) (p : Phase) (m : Text) (now : ℕ)
    → (request_stop confirmed j).0 ≡ none
    → proceed p m now (request_stop confirmed j).1 ≡ (some stopped, (request_stop confirmed j).1)
unfolding proceed
proceed-request_stop confirmed j p m now h = rw (stop_accepted confirmed j h) refl

or_true : (a b : Bool) → (a || true || b) ≡ true
or_true true b = refl
or_true false b = refl

stop_final :
    (confirmed : Bool) (j : Job)
    → j.final ≡ true
    → ((request_stop confirmed j).0 ≢ none) × ((request_stop confirmed j).1 ≡ j)
unfolding request_stop
stop_final false j h = (λ n. cc n, refl)
stop_final true j h =
    rw h (rw (or_true j.state.complete (not (stoppable j.state.phase))) (λ n. cc n, refl))

passed :
    (j : Job) (p : Phase) (m : Text) (now : ℕ)
    → (proceed p m now j).0 ≡ none
    → (proceed p m now j).1.final ≡ true
unfolding proceed
passed j p m now h = elim (Bool-cases j.stop) [
  | inl asked ↦ cc (rw asked at h)
  | inr free ↦ rw free refl
]

-- Once a point of no return was passed, every stop is refused, and the job stays as it is.
pub request_stop-proceed :
    (confirmed : Bool) (j : Job) (p : Phase) (m : Text) (now : ℕ)
    → (proceed p m now j).0 ≡ none
    → ((request_stop confirmed (proceed p m now j).1).0 ≢ none)
      × ((request_stop confirmed (proceed p m now j).1).1 ≡ (proceed p m now j).1)
request_stop-proceed confirmed j p m now h =
    stop_final confirmed (proceed p m now j).1 (passed j p m now h)

Refused : Option Err × Job → Job → Type 0
Refused x j = (x.0 ≡ none) ⊎ (x.1 ≡ j)

stop-Refused : (confirmed : Bool) (j : Job) → Refused (request_stop confirmed j) j
unfolding Refused request_stop
stop-Refused false j = inr refl
stop-Refused true j =
    elim (Bool-cases (j.state.complete || j.final || not (stoppable j.state.phase))) [
      | inl past ↦ rw past (inr refl)
      | inr early ↦ rw early (inl refl)
    ]

send-Refused : (a : Action) (x : Option Action) (j : Job) → Refused (send a x j) j
unfolding Refused send
send-Refused a none j = inl refl
send-Refused a (some b) j = inr refl

answer-Refused : (a : Action) (confirmed : Bool) (j : Job) → Refused (answer_wait a confirmed j) j
unfolding Refused answer_wait
answer-Refused a confirmed j = elim (Bool-cases (is_awaiting j.state.phase)) [
  | inr busy ↦ rw busy (inr refl)
  | inl waiting ↦ elim (Bool-cases (is_known a)) [
    | inr strange ↦ rw (waiting, strange) (inr refl)
    | inl known ↦ elim (Bool-cases (is_force a && not confirmed)) [
      | inl bare ↦ rw (waiting, known, bare) (inr refl)
      | inr sure ↦ rw (waiting, known, sure) (send-Refused a j.actions j)
    ]
  ]
]

-- A request of the operator is either accepted, or refused with an error and then changes nothing
-- at all of the job: neither its state nor what it waits for.
pub control-Refused :
    (a : Action) (confirmed : Bool) (j : Job)
    → ((control a confirmed j).0 ≡ none) ⊎ ((control a confirmed j).1 ≡ j)
unfolding control Refused
control-Refused Action.stop confirmed j = stop-Refused confirmed j
control-Refused Action.wait confirmed j = answer-Refused Action.wait confirmed j
control-Refused Action.manual confirmed j = answer-Refused Action.manual confirmed j
control-Refused Action.force confirmed j = answer-Refused Action.force confirmed j
control-Refused (Action.other w) confirmed j = answer-Refused (Action.other w) confirmed j

-- How an answer sent on the channel is taken.
sent :
    (a : Action) (x : Option Action) (j : Job)
    → (send a x j).0 ≡ none
    → (x ≡ none) × ((send a x j).1.actions ≡ some a)
unfolding send
sent a none j h = (refl, refl)
sent a (some b) j h = cc h

force_sent :
    (confirmed : Bool) (j : Job)
    → is_awaiting j.state.phase ≡ true
    → (answer_wait Action.force confirmed j).0 ≡ none
    → (confirmed ≡ true)
      × (j.actions ≡ none)
      × ((answer_wait Action.force confirmed j).1.actions ≡ some Action.force)
unfolding answer_wait is_known is_force
force_sent false j waiting h = cc (rw waiting at h)
force_sent true j waiting h =
    let (free, put) = sent Action.force j.actions j (rw waiting at h) in
    rw waiting (refl, free, put)

-- A forced power-off is taken up only where it was confirmed, the job waits for the shutdown, and
-- no other answer is on its way; then it is the answer that the job will read.
pub control-force :
    (confirmed : Bool) (j : Job)
    → (control Action.force confirmed j).0 ≡ none
    → (confirmed ≡ true)
      × (is_awaiting j.state.phase ≡ true)
      × (j.actions ≡ none)
      × ((control Action.force confirmed j).1.actions ≡ some Action.force)
unfolding control answer_wait
control-force confirmed j h = elim (Bool-cases (is_awaiting j.state.phase)) [
  | inr busy ↦ cc (rw busy at h)
  | inl waiting ↦
      let (sure, free, put) = force_sent confirmed j waiting h in (sure, waiting, free, put)
]
