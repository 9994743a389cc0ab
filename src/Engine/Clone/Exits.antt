-- ===== src/Engine/Clone/Exits.antt =====
-- The exit marker of a clone's worker (`waitClone` of internal/migration/engine.go).
use esxi_mover.Prelude.{
  ℕ, zero, suc, ◌≡◌, ap, subst, Bool, true, false, Option, none, some, List, [], ◌∷◌, ◌&&◌, ◌==◌,
  eq-true, Bool-cases, inl, inr,
}
use esxi_mover.Types.{Err, Options, Report, Reply, got, lost}
use esxi_mover.Prelude.Text.{Text}
use esxi_mover.Job.{State, Job, Phase}
use esxi_mover.Host.{
  Call, Answer, CloneStatus, Event, Host, St, M, call, try, caught, of_reply, ok, update, modify,
  pure, phase, ◌>>=◌,
}
use esxi_mover.Host.Hoare.{Keeps, Keeps-get_job, Keeps-now, Keeps-if, Keeps-pure, Keeps-bind}
use esxi_mover.Host.Outcome.{Ends, value_or, Ends-bind, Ends-then, Ends-pure}
use esxi_mover.Host.From.{
  From, Ends-From, From-bind, From-Keeps, From-Ends, From-pure, From-if, From-then, Ends-if,
  Ends-stuck,
}
use esxi_mover.Engine.Clone.{
  Exit, Watch, Next, leave, onward, exit_of, unsure_exit, show, ended, running, observed, stop_part,
  stop_and_pause, clone_round, clone_loop, mark_unknown, wait_clone, full_progress, on_next, paused,
}

-- The last call was for the status of this clone, and its worker had exited with code 0.
abbrev pub exit_read : ℕ → (c : Call) → Reply (Answer c) → Bool
exit_read i (Call.clone_status k) (got c) = k == i && c.finished && c.exit_code == 0
exit_read i _ r = false

abbrev pub exited_clean : ℕ → List Event → Bool
exited_clean i [] = false
exited_clean i (e ∷ t) = exit_read i e.call e.reply

-- The same, with any exit code.
abbrev pub end_read : ℕ → (c : Call) → Reply (Answer c) → Bool
end_read i (Call.clone_status k) (got c) = k == i && c.finished
end_read i _ r = false

abbrev pub exit_seen : ℕ → List Event → Bool
exit_seen i [] = false
exit_seen i (e ∷ t) = end_read i e.call e.reply

-- What an answer says: if the worker exited, that was the last thing read.
abbrev StatusRead : {W : Type 0} → ℕ → Reply CloneStatus → St W → Type 0
StatusRead i (got c) s =
    ((c.finished && c.exit_code == 0) ≡ true → exited_clean i s.trace ≡ true)
    × (c.finished ≡ true → exit_seen i s.trace ≡ true)
StatusRead i (lost e) s = Unit

module _ {W : Type 0} ⦃host : Host W⦄ (i : ℕ) where
  status_lem :
      (x : Reply CloneStatus) (j : Job) (w : W) (t : List Event) (y : Reply CloneStatus)
      → (caught (
        of_reply x,
        record { job = j; world = w; trace = record { call = Call.clone_status i; reply = x } ∷ t },
      )).0
        ≡ ok y
      → StatusRead i y
          (caught (
            of_reply x,
            record {
              job = j;
              world = w;
              trace = record { call = Call.clone_status i; reply = x } ∷ t;
            },
          )).1
  unfolding caught of_reply value_or
  status_lem (got c) j w t y h =
      subst
        (λ q.
          StatusRead i q
            (caught (
              of_reply (got c),
              record {
                job = j;
                world = w;
                trace = record { call = Call.clone_status i; reply = got c } ∷ t;
              },
            )).1)
        (ap (value_or y) h) (λ clean. rw (eq-true i) clean, λ done. rw (eq-true i) done)
  status_lem (lost e) j w t y h =
      subst
        (λ q.
          StatusRead i q
            (caught {A = CloneStatus} (
              of_reply (lost e),
              record {
                job = j;
                world = w;
                trace = record { call = Call.clone_status i; reply = lost e } ∷ t;
              },
            )).1)
        (ap (value_or y) h) tt

  status-Ends : Ends {W = W} (StatusRead i) (try (call (Call.clone_status i)))
  unfolding try call
  status-Ends = record {
    at = λ s y h. status_lem (host.ask s.world (Call.clone_status i)).0 _ _ _ y h;
  }

-- An exit without an error comes with a worker that exited with code 0, and any exit that was seen
-- with one that exited.
abbrev pub Good : {W : Type 0} → ℕ → Exit → St W → Type 0
Good i x s =
    (x.error ≡ none → exited_clean i s.trace ≡ true)
    × (x.exited ≡ true → exit_seen i s.trace ≡ true)

abbrev NextGood : {W : Type 0} → ℕ → Next → St W → Type 0
NextGood i (leave x) s = Good i x s
NextGood i (onward w) s = Unit

exit_clean :
    (cause : Option Err) (stop : Bool) (code : ℕ)
    → exit_of cause stop code ≡ none
    → (code == 0) ≡ true
unfolding exit_of
exit_clean (some e) stop code h = cc h
exit_clean none true code h = cc h
exit_clean none false code h = elim (Bool-cases (code == 0)) [
  | inl zero_code ↦ zero_code
  | inr other ↦ cc (rw other at h)
]

module _ {W : Type 0} ⦃host : Host W⦄ (o : Options) (r : Report) (i : ℕ) where
  update-Read :
      (c : CloneStatus) (f : State → State) → Keeps {W = W} (StatusRead i (got c)) (update f)
  unfolding update
  update-Read c f = record { at = λ s h. h }

  ended-From :
      (cause : Option Err) (c : CloneStatus)
      → c.finished ≡ true
      → From {W = W} (StatusRead i (got c)) (NextGood i) (ended o r i cause c)
  unfolding ended
  ended-From cause c done =
      From-bind (λ j s. StatusRead i (got c) s) _ _ (From-Keeps _ Keeps-get_job)
        λ j. From-then _ _ (Keeps-if _ _ _ (Keeps-pure tt) (update-Read c full_progress)) (
          From-pure _ (λ s read. (
            λ passes. read.0 (rw done (exit_clean cause j.stop c.exit_code passes)),
            λ seen. read.1 done,
          )))

  show-Read : (c : CloneStatus) (x : CloneStatus) → Keeps {W = W} (StatusRead i (got c)) (show i x)
  unfolding show modify
  show-Read c x = Keeps-bind _ _ Keeps-now λ t. record { at = λ s h. h }

  running-Good :
      (since : ℕ) (c : CloneStatus) (w : Watch)
      → Ends {W = W} (NextGood i) (running o r i since c w)
  unfolding running unsure_exit
  running-Good since c w = Ends-bind _ _ λ t.
      Ends-if _ _ _ (Ends-pure _ (λ s. (λ h. cc h, λ h. cc h))) (
        Ends-bind _ _ λ j.
          Ends-if _ _ _ (Ends-bind _ _ λ free. Ends-bind _ _ λ t'. Ends-pure _ (λ s. tt))
            (Ends-pure _ (λ s. tt)))

  observed-From :
      (since : ℕ) (w : Watch) (x : Reply CloneStatus)
      → From {W = W} (StatusRead i x) (NextGood i) (observed o r i since w x)
  unfolding observed
  observed-From since w (lost e) = From-Ends _ (
      Ends-bind _ _ λ t.
        Ends-if _ _ _ (Ends-pure _ (λ s. (λ h. cc h, λ h. cc h)))
          (Ends-then _ _ (Ends-pure _ (λ s. tt))))
  observed-From since w (got c) =
      From-bind (λ t s. StatusRead i (got c) s) _ _ (From-Keeps _ Keeps-now)
        λ t. From-then _ _ (show-Read c c) (
          From-if c.finished _ _ (λ done. ended-From w.stop_cause c done)
            (λ going. From-Ends _ (running-Good since c _)))

  stop_part-Good : (w : Watch) → Ends {W = W} (NextGood i) (stop_part o r i w)
  unfolding stop_part unsure_exit
  stop_part-Good w = Ends-bind _ _ λ j.
      Ends-if _ _ _
        (Ends-bind _ _ λ t. Ends-bind _ _ λ sent. Ends-then _ _ (
          Ends-bind _ _ λ t'.
            Ends-if _ _ _ (Ends-pure _ (λ s. (λ h. cc h, λ h. cc h))) (Ends-pure _ (λ s. tt))))
        (Ends-pure _ (λ s. tt))

  paused-Good : (x : Reply (Unit {0})) (w : Watch) → Ends {W = W} (NextGood i) (pure (paused x w))
  unfolding paused
  paused-Good (got tt) w = Ends-pure _ (λ s. tt)
  paused-Good (lost e) w = Ends-pure _ (λ s. (λ h. cc h, λ h. cc h))

  after_stop-From :
      (n : Next)
      → From {W = W} (NextGood i n) (NextGood i) (
          on_next n
            (λ x. pure (leave x))
            λ w. (try (call (Call.pause o.poll_interval)) >>= λ reply. pure (paused reply w)))
  unfolding on_next
  after_stop-From (leave x) = From-pure _ (λ s p. p)
  after_stop-From (onward w) = From-Ends _ (Ends-bind _ _ λ reply. paused-Good reply w)

  pause-From : (n : Next) → From {W = W} (NextGood i n) (NextGood i) (stop_and_pause o r i n)
  unfolding stop_and_pause
  pause-From (leave x) = From-pure _ (λ s p. p)
  pause-From (onward w) =
      From-Ends _ (Ends-From (NextGood i) _ _ (stop_part-Good w) λ n. after_stop-From n)

  round-Good :
      (deadline since : ℕ) (w : Watch)
      → Ends {W = W} (NextGood i) (clone_round o r i deadline since w)
  unfolding clone_round unsure_exit
  round-Good deadline since w = Ends-bind _ _ λ t.
      Ends-if _ _ _
        (Ends-From (StatusRead i) _ _ (status-Ends i)
          λ reply. From-bind (NextGood i) _ _ (observed-From since w reply) λ next. pause-From next)
        (Ends-pure _ (λ s. (λ h. cc h, λ h. cc h)))

  next-From :
      (n : Next) (f : Watch → M W Exit)
      → ((w : Watch) → Ends (Good i) (f w))
      → From {W = W} (NextGood i n) (Good i) (on_next n (λ x. pure x) f)
  unfolding on_next
  next-From (leave x) f k = From-pure _ (λ s p. p)
  next-From (onward w) f k = From-Ends _ (k w)

  loop-Good :
      (fuel deadline since : ℕ) (w : Watch)
      → Ends {W = W} (Good i) (clone_loop o r i fuel deadline since w)
  unfolding clone_loop
  loop-Good zero deadline since w = Ends-stuck
  loop-Good (suc fuel) deadline since w =
      Ends-From (NextGood i) _ _ (round-Good deadline since w)
        λ next. next-From next _ (λ w'. loop-Good fuel deadline since w')

  phase-Good : (x : Exit) (p : Phase) (m : Text) → Keeps {W = W} (Good i x) (phase p m)
  unfolding phase update
  phase-Good x p m = record { at = λ s h. h }

  mark-Good : (x y : Exit) → Keeps {W = W} (Good i x) (mark_unknown o r i y)
  unfolding mark_unknown
  mark-Good x y = Keeps-if _ _ _ (phase-Good x _ _) (Keeps-pure tt)

  pub wait-Good : (fuel : ℕ) → Ends {W = W} (Good i) (wait_clone o r i fuel)
  unfolding wait_clone
  wait-Good fuel = Ends-bind _ _ λ t.
      Ends-From (Good i) _ _ (loop-Good fuel _ _ _)
        λ x. From-then _ _ (mark-Good x x) (From-pure _ (λ s p. p))

  -- If watching a clone ends without an error, the last call of it was for the status of that clone,
  -- and the answer was that its worker had finished, with the exit code 0.
  pub wait_clone-exited :
      (fuel : ℕ) (s : St W) (x : Exit)
      → (wait_clone o r i fuel s).0 ≡ ok x
      → x.error ≡ none
      → exited_clean i (wait_clone o r i fuel s).1.trace ≡ true
  wait_clone-exited fuel s x h passes = ((wait-Good fuel).at s x h).0 passes
