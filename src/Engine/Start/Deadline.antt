-- ===== src/Engine/Start/Deadline.antt =====
-- The deadline of starting the target (`powerOn` of internal/migration/engine.go), counted in rounds.
use esxi_mover.Prelude.{
  ℕ, zero, suc, ◌+◌, ◌*◌, ◌≤◌, ◌≡◌, refl, Bool, true, false, Option, none, some, List, [], ◌∷◌, ltb,
  Bool-cases, inl, inr, arith,
}
use esxi_mover.Prelude.Text.{Text}
use esxi_mover.Types.{Options, Report, Vm, Datastore}
use esxi_mover.Host.{
  Call, Host, St, Res, ok, err, cut, M, after, call, now, pure, raise, on_option, ◌>>=◌,
}
use esxi_mover.Host.Hoare.{
  Keeps, Keeps-now, Keeps-if, Keeps-pure, Keeps-on_reply, Keeps-then, Keeps-require, Keeps-raise,
}
use esxi_mover.Host.From.{From, From-bind, From-seq, From-Keeps, From-pure, From-choice, From-then}
use esxi_mover.Host.Clock.{
  Ticking, AtLeast, none_left, one_less, add_left, call-AtLeast, update-AtLeast, paused-AtLeast,
}
use esxi_mover.Host.Whole.{
  Uncut, Whole, whole_rules, Whole-bind, Whole-then, Whole-pure, Whole-try, Whole-call, Whole-now,
  Whole-get_job, Whole-require, Whole-phase, Whole-lift, Whole-on_reply, Whole-raise, Whole-update,
  Whole-if,
}
use esxi_mover.Engine.Steps.{Pair, canonical_of, count_registered, registrations}
use esxi_mover.Engine.Start.{answer_question, power_round, power_loop, power_on}

module _ {W : Type 0} ⦃host : Host W⦄ where
  count_registered-Whole :
      (source target : Text) (ds : List Datastore) (vs : List Vm) (known : Pair)
      → Whole {W = W} (count_registered source target ds vs known)
  unfolding count_registered canonical_of
  count_registered-Whole source target ds [] known = search whole_rules
  count_registered-Whole source target ds (v ∷ vs) known =
      Whole-bind _ _ (Whole-bind _ _ (Whole-lift _) (λ p. Whole-call (Call.canonical p))) λ p.
        Whole-bind _ _ (Whole-lift _)
          λ src. Whole-bind _ _ (Whole-lift _) λ dst. count_registered-Whole source target ds vs _

  registrations-Whole : (source target : Text) → Whole {W = W} (registrations source target)
  unfolding registrations
  registrations-Whole source target = search (whole_rules, count_registered-Whole) depth 40

  answer_question-Whole :
      (id : ℕ) (m : Text) (answered : Bool) → Whole {W = W} (answer_question id m answered)
  unfolding answer_question
  answer_question-Whole id m answered =
      Whole-on_reply _ _ _
        (λ q. Whole-then _ _ (Whole-require _ _) (Whole-call (Call.answer id q.0 q.1)))
        (λ e. Whole-raise _)

module _ {W : Type 0} ⦃host : Host W⦄ (o : Options) (id : ℕ) where
  power_round-Whole : (answered : Bool) → Whole {W = W} (power_round o id answered)
  unfolding power_round
  power_round-Whole answered = Whole-bind _ _ (Whole-call (Call.power id)) λ p.
      Whole-then _ _ (Whole-update _) (
        Whole-bind _ _ (Whole-call (Call.message id)) λ m.
          Whole-if _ _ _
            (Whole-bind _ _ Whole-now λ t. Whole-then _ _ (Whole-update _) (Whole-pure none))
            (Whole-then _ _ (Whole-if _ _ _ (answer_question-Whole id m answered) (Whole-pure tt))
              (Whole-then _ _ (Whole-call (Call.pause o.poll_interval)) (Whole-pure _))))

-- A round that goes on has paused.
Later : {W : Type 0} ⦃host : Host W⦄ → Options → ℕ → Option Bool → St W → Type 0
Later o c none s = Unit
Later o c (some b) s = AtLeast (c + o.poll_interval) s

module _ {W : Type 0} ⦃host : Host W⦄ (ticking : Ticking host) (c : ℕ) (o : Options) (id : ℕ) where
  answer_question-AtLeast :
      (m : Text) (answered : Bool) → Keeps {W = W} (AtLeast c) (answer_question id m answered)
  unfolding answer_question
  answer_question-AtLeast m answered =
      Keeps-on_reply _ _ _
        (λ q. Keeps-then _ _ (Keeps-require _ _) (call-AtLeast ticking c (Call.answer id q.0 q.1)))
        (λ e. Keeps-raise _)

  pause-Later :
      From {W = W}
        (AtLeast c)
        (λ u s. AtLeast (c + o.poll_interval) s)
        (call (Call.pause o.poll_interval))
  pause-Later = record { at = λ s h a e. paused-AtLeast ticking c o.poll_interval s a h e }

  runs-Later : From {W = W} (AtLeast c) (Later o c) (pure none)
  unfolding Later
  runs-Later = From-pure _ (λ s h. tt)

  goes_on-Later :
      (b : Bool) → From {W = W} (AtLeast (c + o.poll_interval)) (Later o c) (pure (some b))
  unfolding Later
  goes_on-Later b = From-pure _ (λ s h. h)

  power_round-From :
      (answered : Bool) → From {W = W} (AtLeast c) (Later o c) (power_round o id answered)
  unfolding power_round
  power_round-From answered =
      From-bind (λ p s. AtLeast c s) _ _ (From-Keeps _ (call-AtLeast ticking c (Call.power id)))
        λ p. From-then _ _ (update-AtLeast ticking c _) (
          From-bind (λ m s. AtLeast c s) _ _
            (From-Keeps _ (call-AtLeast ticking c (Call.message id)))
            λ m.
              From-choice _ _ _
                (From-bind (λ t s. AtLeast c s) _ _ (From-Keeps _ Keeps-now)
                  λ t. From-then _ _ (update-AtLeast ticking c _) runs-Later)
                (From-then _ _ (Keeps-if _ _ _ (answer_question-AtLeast m answered) (Keeps-pure tt))
                  (From-seq (AtLeast (c + o.poll_interval)) _ _ pause-Later (goes_on-Later _))))

module _ {W : Type 0} ⦃host : Host W⦄ (ticking : Ticking host) (o : Options) (id : ℕ) where
  -- At the deadline the loop ends.
  late-Uncut :
      (n deadline : ℕ) (detail : Text) (answered : Bool) (s : St W)
      → ltb (host.clock s.world) deadline ≡ false
      → Uncut (power_loop o id (suc n) deadline detail answered s).0
  unfolding power_loop now ◌>>=◌ after raise
  late-Uncut n deadline detail answered s late = rw late tt

  onward-Uncut :
      (c : ℕ) (f : Bool → M W (Unit {0})) (x : Res (Option Bool) × St W)
      → Uncut x.0
      → ((n : Option Bool) → x.0 ≡ ok n → Later o c n x.1)
      → ((b : Bool) (s : St W) → AtLeast (c + o.poll_interval) s → Uncut (f b s).0)
      → Uncut (after (λ n. on_option n (pure tt) f) x).0
  unfolding after on_option pure Later
  onward-Uncut c f (ok none, s) u l k = tt
  onward-Uncut c f (ok (some b), s) u l k = k b s (l (some b) refl)
  onward-Uncut c f (err e, s) u l k = tt
  onward-Uncut c f (cut, s) u l k = u

  early-Uncut :
      (n deadline : ℕ) (detail : Text) (answered : Bool) (s : St W)
      → ((b : Bool) (t : St W)
          → AtLeast (host.clock s.world + o.poll_interval) t
          → Uncut (power_loop o id n deadline detail b t).0)
      → ltb (host.clock s.world) deadline ≡ true
      → Uncut (power_loop o id (suc n) deadline detail answered s).0
  unfolding power_loop now ◌>>=◌ after AtLeast
  early-Uncut n deadline detail answered s k early = rw early (
      onward-Uncut (host.clock s.world) _ (power_round o id answered s)
        ((power_round-Whole o id answered).at s)
        ((power_round-From ticking (host.clock s.world) o id answered).at s (omega arith)) k)

  power_loop-Uncut :
      (n deadline : ℕ) (detail : Text) (answered : Bool) (s : St W)
      → deadline ≤ host.clock s.world + n * o.poll_interval
      → Uncut (power_loop o id (suc n) deadline detail answered s).0
  unfolding AtLeast
  power_loop-Uncut zero deadline detail answered s enough =
      late-Uncut zero deadline detail answered s
        (none_left (host.clock s.world) deadline o.poll_interval enough)
  power_loop-Uncut (suc m) deadline detail answered s enough =
      elim (Bool-cases (ltb (host.clock s.world) deadline)) [
        | inl early ↦
            early-Uncut (suc m) deadline detail answered s
              (λ b t later.
                power_loop-Uncut m deadline detail b t
                  (one_less (host.clock s.world) m deadline o.poll_interval enough later))
              early
        | inr late ↦ late-Uncut (suc m) deadline detail answered s late
      ]

module _ {W : Type 0} ⦃host : Host W⦄ (ticking : Ticking host) (o : Options) (r : Report) where
  timed-Whole :
      (n id : ℕ) (detail : Text)
      → o.power_on_timeout ≤ n * o.poll_interval
      → Whole {W = W} (now >>= λ t. power_loop o id (suc n) (t + o.power_on_timeout) detail false)
  unfolding now ◌>>=◌ after
  timed-Whole n id detail long = record {
    at = λ s.
        power_loop-Uncut ticking o id n _ detail false s
          (add_left (host.clock s.world) o.power_on_timeout (n * o.poll_interval) long);
  }

  -- On a host whose clock is never set back and whose pauses last as long as was asked for, starting
  -- the target ends, with fuel for one round more than there are pauses up to the deadline: it
  -- returns or fails and is not cut off, whatever else the host answers and the operator does.
  pub power_on-Uncut :
      (n : ℕ) (s : St W)
      → o.power_on_timeout ≤ n * o.poll_interval
      → Uncut (power_on o r (suc n) s).0
  unfolding power_on
  power_on-Uncut n s long =
      (Whole-bind _ _ Whole-get_job λ j. Whole-bind _ _ (Whole-try _ (registrations-Whole _ _)) λ p.
          Whole-then _ _ (Whole-require _ _) (
            Whole-then _ _ (Whole-phase _ _) (
              Whole-bind _ _ (Whole-try _ (Whole-call (Call.power_on j.state.target_vmid)))
                λ x. timed-Whole n j.state.target_vmid _ long))).at
        s
