-- ===== src/Host/Trace.antt =====
-- What is said of the calls that a run has made: the trace, the newest call first.
use esxi_mover.Prelude.{
  ℕ, ◌≡◌, refl, Bool, true, false, Option, none, some, List, [], ◌∷◌, ◌&&◌, ◌==◌, if◌then◌else◌,
}
use esxi_mover.Prelude.Text.{Text}
use esxi_mover.Types.{Err, Reply, got, is_off}
use esxi_mover.Job.{State, Job, Phase, proceed as proceed_job}
use esxi_mover.Host.{Call, Answer, Event, Host, St, of_option, call, update, modify, phase, proceed}
use esxi_mover.Host.Hoare.{Keeps}
use esxi_mover.Host.Frame.{is_read}
use esxi_mover.Host.Tasks.{Tasks}

-- Every call was made where `G` holds of it and of the calls before it.
abbrev pub Guarded : (Call → List Event → Type 0) → List Event → Type 0
Guarded G [] = Unit
Guarded G (e ∷ t) = G e.call t × Guarded G t

abbrev pub Always : {W : Type 0} → (Call → List Event → Type 0) → St W → Type 0
Always G s = Guarded G s.trace

-- The calls that change a registration or what a registered machine does.
abbrev pub is_switch : Call → Bool
is_switch (Call.register p) = true
is_switch (Call.unregister id) = true
is_switch (Call.power_on id) = true
is_switch (Call.answer id q c) = true
is_switch _ = false

-- The call that gives up the operation lock.
abbrev pub is_finish : Call → Bool
is_finish (Call.finish id) = true
is_finish _ = false

-- The last call but for questions asked about was for the power of this machine, and it was off.
abbrev pub power_read : ℕ → (c : Call) → Reply (Answer c) → Bool
power_read id (Call.power known) (got p) = known == id && is_off p
power_read id _ r = false

abbrev pub is_message : Call → Bool
is_message (Call.message id) = true
is_message _ = false

abbrev pub proved_off : ℕ → List Event → Bool
proved_off id [] = false
proved_off id (e ∷ t) =
    let before = proved_off id t in
    if is_message e.call then before else power_read id e.call e.reply

-- The calls that are safe only for a machine that is off: a clone of its disk, and the loss of its
-- registration.
abbrev pub WhenOff : Call → List Event → Type 0
WhenOff (Call.unregister id) t = proved_off id t ≡ true
WhenOff (Call.start_clone job i id source target off_only) t = proved_off id t ≡ true
WhenOff _ t = Unit

-- The calls of a migration before its switch, but for the clones.
abbrev pub is_task : Call → Bool
is_task (Call.acquire id meta) = true
is_task (Call.stop_clone i) = true
is_task (Call.create_target d) = true
is_task (Call.write_target d n c) = true
is_task (Call.shutdown id) = true
is_task (Call.force_off id) = true
is_task c = is_read c

read-is_task : (c : Call) → is_read c ≡ true → is_task c ≡ true
read-is_task (Call.acquire id meta) h = refl
read-is_task (Call.stop_clone i) h = refl
read-is_task (Call.create_target d) h = refl
read-is_task (Call.write_target d n c) h = refl
read-is_task (Call.shutdown id) h = refl
read-is_task (Call.force_off id) h = refl
read-is_task _ h = h

module _ {W : Type 0} where
  of_option-trace : (x : Option Err × Job) (s : St W) → (of_option x s).1.trace ≡ s.trace
  unfolding of_option
  of_option-trace (none, j) s = refl
  of_option-trace (some e, j) s = refl

module _ {W : Type 0} ⦃host : Host W⦄ (G : Call → List Event → Type 0) where
  pub call-Always : (c : Call) → ((t : List Event) → G c t) → Keeps {W = W} (Always G) (call c)
  unfolding call
  call-Always c g = record { at = λ s h. (g s.trace, h) }

  pub update-Always : (f : State → State) → Keeps {W = W} (Always G) (update f)
  unfolding update
  update-Always f = record { at = λ s h. h }

  pub modify-Always : (f : Job → Job) → Keeps {W = W} (Always G) (modify f)
  unfolding modify
  modify-Always f = record { at = λ s h. h }

  pub phase-Always : (p : Phase) (m : Text) → Keeps {W = W} (Always G) (phase p m)
  unfolding phase
  phase-Always p m = update-Always _

  pub proceed-Always : (p : Phase) (m : Text) → Keeps {W = W} (Always G) (proceed p m)
  unfolding proceed
  proceed-Always p m = record {
    at = λ s h. rw (of_option-trace (proceed_job p m (host.clock s.world) s.job) s) h;
  }

  -- A property that the calls before a switch have is kept by all of them.
  pub Tasks-Always :
      ((c : Call) → is_task c ≡ true → (t : List Event) → G c t) → Tasks {W = W} (Always G)
  Tasks-Always g = record {
    frame = record {
      reads = λ c h. call-Always c (g c (read-is_task c h));
      jobs = λ f h. modify-Always f;
      updates = λ f h. update-Always f;
    };
    unknown-Keeps = λ m. phase-Always _ m;
    proceed-Keeps = λ p m h. proceed-Always p m;
    acquire-Keeps = λ id meta. call-Always _ (g (Call.acquire id meta) refl);
    stop_clone-Keeps = λ i. call-Always _ (g (Call.stop_clone i) refl);
    create_target-Keeps = λ d. call-Always _ (g (Call.create_target d) refl);
    write_target-Keeps = λ d n c. call-Always _ (g (Call.write_target d n c) refl);
    shutdown-Keeps = λ id. call-Always _ (g (Call.shutdown id) refl);
    force_off-Keeps = λ id. call-Always _ (g (Call.force_off id) refl);
  }
