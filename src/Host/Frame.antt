-- ===== src/Host/Frame.antt =====
-- The invariants that the reading calls and the bookkeeping of a job keep.
use esxi_mover.Prelude.{ℕ, refl, inl, inr, ◌≡◌, ◌⊎◌, Bool, true, false}
use esxi_mover.Prelude.Text.{Text}
use esxi_mover.Types.{Request, Progress}
use esxi_mover.Job.{State, Job, Phase, set_phase}
use esxi_mover.Host.{Call, Host, St, call, update, modify, phase}
use esxi_mover.Host.Hoare.{Keeps, keeps_rules}

-- The calls that change nothing on the host.
abbrev pub is_read : Call → Bool
is_read (Call.inspect request id done) = true
is_read Call.vms = true
is_read Call.datastores = true
is_read (Call.read_file p) = true
is_read (Call.canonical p) = true
is_read (Call.exists p) = true
is_read (Call.size p) = true
is_read (Call.verify_chain p) = true
is_read (Call.list_folder p) = true
is_read (Call.power id) = true
is_read (Call.snapshot id) = true
is_read (Call.message id) = true
is_read (Call.clone_status i) = true
is_read (Call.pause d) = true
is_read Call.await = true
is_read _ = false

-- A change of the job that leaves the phase, or sets one that is not `unknown`.
abbrev pub is_unknown : Phase → Bool
is_unknown Phase.unknown = true
is_unknown _ = false

abbrev pub Tame : Phase → Phase → Type 0
Tame p q = (q ≡ p) ⊎ (is_unknown q ≡ false)

module _ {W : Type 0} ⦃host : Host W⦄ where
  pub record Frame (I : St W → Type 0) : Type 0 where
    pub reads : (c : Call) → is_read c ≡ true → Keeps I (call c)
    pub jobs :
        (f : Job → Job) → ((j : Job) → Tame j.state.phase (f j).state.phase) → Keeps I (modify f)
    pub updates :
        (f : State → State) → ((s : State) → Tame s.phase (f s).phase) → Keeps I (update f)

-- The rule for each reading call, at the type of its answer.
module _ {W : Type 0} ⦃host : Host W⦄ {I : St W → Type 0} (frame : Frame I) where
  pub inspect-Keeps :
      (request : Request) (id : Text) (done : Progress)
      → Keeps I (call (Call.inspect request id done))
  inspect-Keeps request id done = frame.reads (Call.inspect request id done) refl

  pub vms-Keeps : Keeps I (call Call.vms)
  vms-Keeps = frame.reads Call.vms refl

  pub datastores-Keeps : Keeps I (call Call.datastores)
  datastores-Keeps = frame.reads Call.datastores refl

  pub read_file-Keeps : (p : Text) → Keeps I (call (Call.read_file p))
  read_file-Keeps p = frame.reads (Call.read_file p) refl

  pub canonical-Keeps : (p : Text) → Keeps I (call (Call.canonical p))
  canonical-Keeps p = frame.reads (Call.canonical p) refl

  pub exists-Keeps : (p : Text) → Keeps I (call (Call.exists p))
  exists-Keeps p = frame.reads (Call.exists p) refl

  pub size-Keeps : (p : Text) → Keeps I (call (Call.size p))
  size-Keeps p = frame.reads (Call.size p) refl

  pub verify_chain-Keeps : (p : Text) → Keeps I (call (Call.verify_chain p))
  verify_chain-Keeps p = frame.reads (Call.verify_chain p) refl

  pub list_folder-Keeps : (p : Text) → Keeps I (call (Call.list_folder p))
  list_folder-Keeps p = frame.reads (Call.list_folder p) refl

  pub power-Keeps : (id : ℕ) → Keeps I (call (Call.power id))
  power-Keeps id = frame.reads (Call.power id) refl

  pub snapshot-Keeps : (id : ℕ) → Keeps I (call (Call.snapshot id))
  snapshot-Keeps id = frame.reads (Call.snapshot id) refl

  pub message-Keeps : (id : ℕ) → Keeps I (call (Call.message id))
  message-Keeps id = frame.reads (Call.message id) refl

  pub clone_status-Keeps : (i : ℕ) → Keeps I (call (Call.clone_status i))
  clone_status-Keeps i = frame.reads (Call.clone_status i) refl

  pub pause-Keeps : (d : ℕ) → Keeps I (call (Call.pause d))
  pause-Keeps d = frame.reads (Call.pause d) refl

  pub await-Keeps : Keeps I (call Call.await)
  await-Keeps = frame.reads Call.await refl

  -- `phase` to any phase but `unknown`.
  pub phase-Keeps : (p : Phase) (m : Text) → is_unknown p ≡ false → Keeps I (phase p m)
  unfolding phase
  phase-Keeps p m h = frame.updates (set_phase p m) (λ s. inr h)

pub ruleset read_rules = (
  keeps_rules, inspect-Keeps, vms-Keeps, datastores-Keeps, read_file-Keeps, canonical-Keeps,
  exists-Keeps, size-Keeps, verify_chain-Keeps, list_folder-Keeps, power-Keeps, snapshot-Keeps,
  message-Keeps, clone_status-Keeps, pause-Keeps, await-Keeps, phase-Keeps, refl, inl, inr,
)
