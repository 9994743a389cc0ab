-- ===== src/Host.antt =====
-- The host boundary of internal/migration (the interface Host of types.go) and the monad in which
-- the engine runs. A host is any machine that answers calls: every answer may be an error, and
-- nothing is assumed of it. The analyzer's `inspect` is one more call, answered by a report,
-- and so is `Exists`, which only the analyzer uses.
-- Between two calls the web server may deliver any requests of the operator to the job.
pub mod Hoare
pub mod Frame
pub mod Tasks
pub mod Trace
pub mod Outcome
pub mod Under
pub mod Carry
pub mod From
pub mod Triple
pub mod Whole
pub mod Sound
pub mod Clock
use esxi_mover.Prelude.{ℕ, ◌+◌, ◌≡◌, refl, Bool, Option, none, some, List, [], ◌∷◌, if◌then◌else◌}
use esxi_mover.Prelude.Text.{Text}
use esxi_mover.Types.{Err, Reply, got, lost, Power, Vm, Datastore, Request, Progress, Report}
use esxi_mover.Job.{
  State, Job, Action, Phase, set_phase, control, update as update_job, proceed as proceed_job,
}

-- esxi.CloneStatus.
pub record CloneStatus : Type 0 where
  pub finished : Bool
  pub alive : Bool
  pub exit_code : ℕ
  pub progress : ℕ
  pub log : Text

pub data Call : Type 0 where
  inspect : Request → Text → Progress → Call
  vms datastores : Call
  read_file canonical exists size verify_chain list_folder : Text → Call
  power snapshot shutdown force_off message unregister : ℕ → Call
  acquire : Text → Text → Call
  finish create_target register : Text → Call
  write_target : Text → Text → Text → Call
  start_clone : Text → ℕ → ℕ → Text → Text → Bool → Call
  clone_status stop_clone : ℕ → Call
  power_on : ℕ → Call
  answer : ℕ → Text → Text → Call
  create_snapshot consolidate : ℕ → Text → Call
  copy_to_target : Text → Text → Call
  pause : ℕ → Call
  await : Call

abbrev pub Answer : Call → Type 0
Answer (inspect request id done) = Report
Answer vms = List Vm
Answer datastores = List Datastore
Answer (read_file p) = Text
Answer (canonical p) = Text
Answer (exists p) = Bool
Answer (size p) = ℕ
Answer (list_folder p) = List Text
Answer (power id) = Power
Answer (snapshot id) = Text
Answer (message id) = Text
Answer (register p) = ℕ
Answer (clone_status i) = CloneStatus
Answer _ = Unit

pub record Event : Type 0 where
  pub call : Call
  pub reply : Reply (Answer call)

-- A machine with its clock, in milliseconds, and the operator's requests that came in during the
-- last call. `moved_answer` is MovedAnswer of internal/esxi/vm.go, the reader of a question.
pub record Host (W : Type 0) : Type 0 where
  pub ask : W → (c : Call) → Reply (Answer c) × W
  pub clock : W → ℕ
  pub requests : W → List (Action × Bool)
  pub moved_answer : Text → Reply (Text × Text)

-- The job, the machine, and the calls made so far, the newest first.
pub record St (W : Type 0) : Type 0 where
  pub job : Job
  pub world : W
  pub trace : List Event

-- A step returns a value, an error, or is cut off when its fuel runs out.
pub data Res (A : Type 0) : Type 0 where
  ok : A → Res A
  err : Err → Res A
  cut : Res A

abbrev pub M : Type 0 → Type 0 → Type 0
M W A = St W → Res A × St W

module _ {W A B : Type 0} where
  unfoldable pub after : (A → M W B) → Res A × St W → Res B × St W
  after f (ok a, s) = f a s
  after f (err e, s) = (err e, s)
  after f (cut, s) = (cut, s)

infixl 5 ◌>>=◌ ◌>>◌
unfoldable pub ◌>>=◌ : {W A B : Type 0} → M W A → (A → M W B) → M W B
unfolding after
◌>>=◌ m f s = after f (m s)

unfoldable pub ◌>>◌ : {W B : Type 0} → M W (Unit {0}) → M W B → M W B
unfolding ◌>>=◌
m >> k = m >>= λ _. k

module _ {A : Type 0} where
  unfoldable pub of_reply : Reply A → Res A
  of_reply (got a) = ok a
  of_reply (lost e) = err e

module _ {W A : Type 0} where
  unfoldable pub pure : A → M W A
  pure a s = (ok a, s)

  unfoldable pub raise : Err → M W A
  raise e s = (err e, s)

  unfoldable pub stuck : M W A
  stuck s = (cut, s)

  -- The value or the error of a pure function.
  unfoldable pub lift : Reply A → M W A
  unfolding of_reply
  lift r s = (of_reply r, s)

  unfoldable pub caught : Res A × St W → Res (Reply A) × St W
  caught (ok a, s) = (ok (got a), s)
  caught (err e, s) = (ok (lost e), s)
  caught (cut, s) = (cut, s)

  -- The error of a call as a value, where the code goes on with it.
  unfoldable pub try : M W A → M W (Reply A)
  unfolding caught
  try m s = caught (m s)

-- A branch on an option or on a reply.
module _ {W A B : Type 0} where
  unfoldable pub on_option : Option B → M W A → (B → M W A) → M W A
  on_option none m f = m
  on_option (some b) m f = f b

  unfoldable pub on_reply : Reply B → (B → M W A) → (Err → M W A) → M W A
  on_reply (got b) f g = f b
  on_reply (lost e) f g = g e

-- `if !test { return error }`.
unfoldable pub require : {W : Type 0} → Bool → Err → M W (Unit {0})
unfolding pure raise
require test e = if test then pure tt else raise e

unfoldable pub deliver : List (Action × Bool) → Job → Job
deliver [] j = j
deliver ((a, confirmed) ∷ rest) j = deliver rest (control a confirmed j).1

module _ {W : Type 0} where
  unfoldable pub get_job : M W Job
  get_job s = (ok s.job, s)

  unfoldable pub modify : (Job → Job) → M W (Unit {0})
  modify f s = (ok tt, record s { job = f s.job })

  unfoldable pub of_option : Option Err × Job → St W → Res (Unit {0}) × St W
  of_option (none, j) s = (ok tt, record s { job = j })
  of_option (some e, j) s = (err e, record s { job = j })

module _ {W : Type 0} ⦃host : Host W⦄ where
  unfoldable pub now : M W ℕ
  now s = (ok (host.clock s.world), s)

  unfoldable pub call : (c : Call) → M W (Answer c)
  unfolding of_reply deliver
  call c s =
      let (r, w) = host.ask s.world c in
      (
        of_reply r,
        record {
          job = deliver (host.requests w) s.job;
          world = w;
          trace = record { call = c; reply = r } ∷ s.trace;
        },
      )

  -- `j.update` and `j.phase`, under the job's mutex.
  unfoldable pub update : (State → State) → M W (Unit {0})
  update f s = (ok tt, record s { job = update_job f (host.clock s.world) s.job })

  unfoldable pub phase : Phase → Text → M W (Unit {0})
  unfolding update set_phase
  phase p m = update (set_phase p m)

  unfoldable pub proceed : Phase → Text → M W (Unit {0})
  unfolding of_option
  proceed p m s = of_option (proceed_job p m (host.clock s.world) s.job) s
