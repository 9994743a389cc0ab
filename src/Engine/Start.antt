-- ===== src/Engine/Start.antt =====
-- `powerOn` of internal/migration/engine.go: the target is started, and the one question that ESXi
-- may ask of a moved machine is answered once.
pub mod Deadline
use esxi_mover.Prelude.{
  ℕ, zero, suc, ◌+◌, ◌-◌, Bool, true, false, Option, none, some, [], ◌++◌, ◌&&◌, not, ltb, leb,
  ◌==◌, ◌∷◌, length, take, if◌then◌else◌,
}
use esxi_mover.Prelude.Text.{Text, text, trim_space}
use esxi_mover.Types.{Err, failure, wrapped, Reply, got, lost, is_on, Options, Report}
use esxi_mover.Job.{State, Phase}
use esxi_mover.Host.{
  Call, Host, M, ◌>>=◌, ◌>>◌, pure, raise, stuck, require, try, get_job, now, call, update, phase,
  on_option, on_reply,
}
use esxi_mover.Vmx.Escape.{valid_utf8}
use esxi_mover.Engine.Steps.{Pair, registrations}
use esxi_mover.Engine.Commit.{target_power_is, pending, shown}

-- The target alone is registered, under this number.
unfoldable pub target_alone : Reply Pair → ℕ → Bool
target_alone (got p) id = p.src == 0 && p.dst == id
target_alone (lost e) id = false

-- A downtime of 0 means that none was measured, so a measured one is at least 1.
downtime : Option ℕ → ℕ → ℕ → ℕ
downtime none t old = old
downtime (some since) t old = if ltb 1 (t - since) then t - since else 1

unfoldable pub target_started : ℕ → State → State
unfolding downtime
target_started t s = record s {
  can_rollback = false;
  downtime_ms = downtime s.down_since t s.downtime_ms;
}

-- The bytes of the character that a text begins with, 0 if it begins with none.
rune_length : Text → ℕ
unfolding valid_utf8
rune_length s =
    if valid_utf8 [] (take 1 s)
    then 1
    else if valid_utf8 [] (take 2 s)
    then 2
    else if valid_utf8 [] (take 3 s)
    then 3
    else if valid_utf8 [] (take 4 s)
    then 4
    else 0

-- strings.ToValidUTF8 with an empty replacement; `kept` counts the bytes that are left of a
-- character that was taken.
to_valid : ℕ → Text → Text
unfolding rune_length
to_valid kept [] = []
to_valid (suc kept) (c ∷ s) = c ∷ to_valid kept s
to_valid zero (c ∷ s) = elim (rune_length (c ∷ s)) [
  | zero ↦ to_valid zero s
  | suc kept ↦ c ∷ to_valid kept s
]

-- truncate.
unfoldable pub truncate : Text → ℕ → Text
unfolding to_valid
truncate s n = if leb (length s) n then s else to_valid 0 (take n s) ++ text " ..."

-- The question itself goes into the error.
question_error : Err → Text → Err
unfolding trim_space truncate
question_error e m = wrapped [] e (text "; ESXi asked: " ++ truncate (trim_space m) 400)

module _ {W : Type 0} ⦃host : Host W⦄ where
  -- The answer to an open question, given at most once.
  unfoldable pub answer_question : ℕ → Text → Bool → M W (Unit {0})
  unfolding question_error
  answer_question id m answered =
      on_reply (host.moved_answer m)
        (λ q. (do
          require (not answered)
              (failure (text "VM question remained after answering; manual review required"))
          call (Call.answer id q.0 q.1)))
        (λ e. raise (question_error e m))

module _ {W : Type 0} ⦃host : Host W⦄ (o : Options) (id : ℕ) where
  -- One round: `none` when the target runs, else whether the question has been answered.
  unfoldable pub power_round : Bool → M W (Option Bool)
  unfolding target_power_is target_started pending
  power_round answered = do
    p ← call (Call.power id)
    update (target_power_is p)
    m ← call (Call.message id)
    if not (pending m) && is_on p then (do t ← now; update (target_started t); pure none) else (do
      if pending m then answer_question id m answered else pure tt
      call (Call.pause o.poll_interval)
      pure (some (if pending m then true else answered)))

  unfoldable pub power_loop : ℕ → ℕ → Text → Bool → M W (Unit {0})
  power_loop zero deadline detail answered = stuck
  power_loop (suc fuel) deadline detail answered = do
    t ← now
    if ltb t deadline
        then (do
          next ← power_round answered
          on_option next (pure tt) λ b. power_loop fuel deadline detail b)
        else raise
            (failure (text "target did not reach Powered on; it remains registered" ++ detail))

module _ {W : Type 0} ⦃host : Host W⦄ (o : Options) (r : Report) where
  -- powerOn. The command is bounded by ten seconds, and its reply may be lost.
  unfoldable pub power_on : ℕ → M W (Unit {0})
  unfolding target_alone shown
  power_on fuel = do
    j ← get_job
    p ← try (registrations r.source_vmx r.target_vmx)
    require (target_alone p j.state.target_vmid)
        (failure (text "cannot confirm source unregistered and target identity before Power On"))
    phase Phase.power_on (text "Requesting target Power On; source remains unregistered")
    reply ← try (call (Call.power_on j.state.target_vmid))
    t ← now
    power_loop o j.state.target_vmid fuel (t + o.power_on_timeout) (shown reply) false
