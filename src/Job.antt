-- ===== src/Job.antt =====
-- internal/migration/state.go: a migration job, the phases that the web page shows, and what an
-- operator may ask of it while it runs. Each method holds the job's mutex for its whole body, so
-- it is one step; time is a number of milliseconds, handed in.
pub mod Laws
pub mod Phases
use esxi_mover.Prelude.{
  ℕ, Bool, true, false, Option, none, some, List, [], ◌&&◌, ◌||◌, not, length, if◌then◌else◌,
}
use esxi_mover.Prelude.Text.{Text, text}
use esxi_mover.Types.{Err, stopped, failure, Power, Mode, Report}

pub data Phase : Type 0 where
  queued preflight shutdown awaiting_shutdown cloning reconnecting : Phase
  verifying_disk verifying_config commit power_on completed failed : Phase
  unknown rolled_back snapshot cutover consolidating restoring ended : Phase

-- What the state says of a registration.
pub data Registration : Type 0 where
  registered not_registered unsure : Registration

-- What the state says of a virtual machine's power.
pub data Shown : Type 0 where
  read : Power → Shown
  not_running unsure_power : Shown

pub record State : Type 0 where
  pub id : Text
  pub phase : Phase
  pub message : Text
  pub error : Text
  pub current_disk : Text
  pub technical_log : Text
  pub mode : Mode
  pub progress : ℕ
  pub disk_index : ℕ
  pub disk_count : ℕ
  pub target_vmid : ℕ
  pub started : ℕ
  pub updated : ℕ
  pub disk_started : ℕ
  pub disk_bytes : ℕ
  pub complete : Bool
  pub target_verified : Bool
  pub source_files_preserved : Bool
  pub can_rollback : Bool
  pub live : Bool
  pub can_stop : Bool
  pub source_registration : Registration
  pub target_registration : Registration
  pub source_power : Shown
  pub target_power : Shown
  pub source_vmx : Text
  pub target_vmx : Text
  pub down_since : Option ℕ
  pub downtime_ms : ℕ

-- The actions of the channel of capacity one; `other` is any other word.
pub data Action : Type 0 where
  stop wait manual force : Action
  other : Text → Action

pub record Job : Type 0 where
  pub state : State
  pub plan : Report
  pub actions : Option Action
  pub stop : Bool
  pub final : Bool
  pub clone_logs : List Text

unfoldable pub new_job : Report → ℕ → Job
unfolding text
new_job r now = record {
  state = record {
    id = r.id;
    phase = queued;
    message = text "Waiting for final preflight";
    error = [];
    current_disk = [];
    technical_log = [];
    mode = r.request.mode;
    progress = 0;
    disk_index = 0;
    disk_count = length r.disks;
    target_vmid = 0;
    started = now;
    updated = now;
    disk_started = 0;
    disk_bytes = 0;
    complete = false;
    target_verified = false;
    source_files_preserved = true;
    can_rollback = false;
    live = r.request.live;
    can_stop = false;
    source_registration = registered;
    target_registration = not_registered;
    source_power = read r.power;
    target_power = not_running;
    source_vmx = r.source_vmx;
    target_vmx = r.target_vmx;
    down_since = none;
    downtime_ms = 0;
  };
  plan = r;
  actions = none;
  stop = false;
  final = false;
  clone_logs = [];
}

-- The phases in which a stop is honoured.
unfoldable pub stoppable : Phase → Bool
stoppable queued = true
stoppable preflight = true
stoppable shutdown = true
stoppable awaiting_shutdown = true
stoppable snapshot = true
stoppable cloning = true
stoppable reconnecting = true
stoppable verifying_disk = true
stoppable _ = false

-- `Job.Snapshot`: a copy of the state for the page.
unfoldable pub snapshot_of : Job → State
unfolding stoppable
snapshot_of j = record s {
  can_stop = not s.complete && not j.stop && not j.final && stoppable s.phase;
}
  where
    s : State
    s = j.state

-- A send that does not wait: a full channel keeps what it holds.
unfoldable pub offer : Option Action → Action → Option Action
offer none a = some a
offer (some b) a = some b

unfoldable pub request_stop : Bool → Job → Option Err × Job
unfolding stoppable offer text
request_stop confirmed j =
    if not confirmed
    then (some (failure (text "explicit stop confirmation is required")), j)
    else if j.state.complete || j.final || not (stoppable j.state.phase)
    then (some (failure (text "the migration is past the point where it can be stopped")), j)
    else (
      none,
      record j {
        stop = true;
        state = record s { message = text "Stopping at the next safe point" };
        actions = offer j.actions stop;
      },
    )
  where
    s : State
    s = j.state

-- Enters a phase past which a stop is no longer honoured; a stop requested before it wins.
unfoldable pub proceed : Phase → Text → ℕ → Job → Option Err × Job
proceed p m now j = if j.stop then (some stopped, j) else (
  none,
  record j { final = true; state = record s { phase = p; message = m; updated = now } },
)
  where
    s : State
    s = j.state

unfoldable pub update : (State → State) → ℕ → Job → Job
update f now j = record j { state = record s { updated = now } }
  where
    s : State
    s = f j.state

unfoldable pub set_phase : Phase → Text → State → State
set_phase p m s = record s { phase = p; message = m }

unfoldable pub is_awaiting : Phase → Bool
is_awaiting awaiting_shutdown = true
is_awaiting _ = false

is_known : Action → Bool
is_known wait = true
is_known manual = true
is_known force = true
is_known _ = false

is_force : Action → Bool
is_force force = true
is_force _ = false

send : Action → Option Action → Job → Option Err × Job
send a none j = (none, record j { actions = some a })
send a (some b) j = (some (failure (text "an action is already pending")), j)

-- Every action but "stop".
answer_wait : Action → Bool → Job → Option Err × Job
unfolding is_awaiting is_known is_force send text
answer_wait a confirmed j =
    if not (is_awaiting j.state.phase)
    then (some (failure (text "job is not waiting for shutdown")), j)
    else if not (is_known a)
    then (some (failure (text "unknown action")), j)
    else if is_force a && not confirmed
    then (some (failure (text "explicit force power-off confirmation is required")), j)
    else send a j.actions j

unfoldable pub control : Action → Bool → Job → Option Err × Job
unfolding request_stop answer_wait
control stop confirmed j = request_stop confirmed j
control wait confirmed j = answer_wait wait confirmed j
control manual confirmed j = answer_wait manual confirmed j
control force confirmed j = answer_wait force confirmed j
control (other w) confirmed j = answer_wait (other w) confirmed j
