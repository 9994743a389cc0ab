-- ===== src/Host/Tasks.antt =====
-- The invariants that the calls of a migration keep, one rule for each call that changes the host.
use esxi_mover.Prelude.{ℕ, false, ◌≡◌}
use esxi_mover.Prelude.Text.{Text}
use esxi_mover.Job.{Phase}
use esxi_mover.Host.{Call, Host, St, call, phase, proceed}
use esxi_mover.Host.Hoare.{Keeps}
use esxi_mover.Host.Frame.{Frame, is_unknown}

module _ {W : Type 0} ⦃host : Host W⦄ where
  -- What a migration does before any registration changes. A clone that needs the machine off, and
  -- an unregistering, have rules of their own where they stand.
  pub record Tasks (I : St W → Type 0) : Type 0 where
    pub frame : Frame I
    pub unknown-Keeps : (m : Text) → Keeps I (phase Phase.unknown m)
    pub proceed-Keeps : (p : Phase) (m : Text) → is_unknown p ≡ false → Keeps I (proceed p m)
    pub acquire-Keeps : (id meta : Text) → Keeps I (call (Call.acquire id meta))
    pub stop_clone-Keeps : (i : ℕ) → Keeps I (call (Call.stop_clone i))
    pub create_target-Keeps : (d : Text) → Keeps I (call (Call.create_target d))
    pub write_target-Keeps : (d n c : Text) → Keeps I (call (Call.write_target d n c))
    pub shutdown-Keeps : (id : ℕ) → Keeps I (call (Call.shutdown id))
    pub force_off-Keeps : (id : ℕ) → Keeps I (call (Call.force_off id))

  -- What watching a clone does.
  pub record Watches (I : St W → Type 0) : Type 0 where
    pub frame : Frame I
    pub unknown-Keeps : (m : Text) → Keeps I (phase Phase.unknown m)
    pub stop_clone-Keeps : (i : ℕ) → Keeps I (call (Call.stop_clone i))

  pub Tasks-Watches : {I : St W → Type 0} → Tasks I → Watches I
  Tasks-Watches tasks = record {
    frame = tasks.frame;
    unknown-Keeps = tasks.unknown-Keeps;
    stop_clone-Keeps = tasks.stop_clone-Keeps;
  }

  -- What a switch of the registrations does besides the unregistering.
  pub record Switches (I : St W → Type 0) : Type 0 where
    pub register-Keeps : (p : Text) → Keeps I (call (Call.register p))
    pub power_on-Keeps : (id : ℕ) → Keeps I (call (Call.power_on id))
    pub answer-Keeps : (id : ℕ) (q c : Text) → Keeps I (call (Call.answer id q c))
