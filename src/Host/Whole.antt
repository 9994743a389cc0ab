-- ===== src/Host/Whole.antt =====
-- The part of the program logic that is about ending at all: a step that is never cut off.
use esxi_mover.Prelude.{Bool, true, false, Option, none, some, if◌then◌else◌}
use esxi_mover.Prelude.Text.{Text}
use esxi_mover.Types.{Err, Reply, got, lost}
use esxi_mover.Job.{State, Job, Phase}
use esxi_mover.Host.{
  Call, Host, St, Res, ok, err, cut, M, after, caught, of_reply, ◌>>=◌, ◌>>◌, pure, raise, lift,
  try, require, get_job, now, call, update, modify, phase, on_option, on_reply,
}

-- A result of a run whose fuel was enough.
abbrev pub Uncut : {A : Type 0} → Res A → Type 0
Uncut (ok a) = Unit
Uncut (err e) = Unit
Uncut cut = ⊥

pub record Whole {W A : Type 0} (m : M W A) : Type 0 where
  pub at : (s : St W) → Uncut (m s).0

module _ {A : Type 0} where
  of_reply-Uncut : (r : Reply A) → Uncut (of_reply r)
  unfolding of_reply
  of_reply-Uncut (got a) = tt
  of_reply-Uncut (lost e) = tt

module _ {W A : Type 0} where
  pub caught-Uncut : (x : Res A × St W) → Uncut x.0 → Uncut (caught x).0
  unfolding caught
  caught-Uncut (ok a, s) u = tt
  caught-Uncut (err e, s) u = tt
  caught-Uncut (cut, s) u = u

  pub Whole-pure : (a : A) → Whole {W = W} (pure a)
  unfolding pure
  Whole-pure a = record { at = λ s. tt }

  pub Whole-raise : (e : Err) → Whole {W = W} (raise {A = A} e)
  unfolding raise
  Whole-raise e = record { at = λ s. tt }

  pub Whole-lift : (r : Reply A) → Whole {W = W} (lift r)
  unfolding lift
  Whole-lift r = record { at = λ s. of_reply-Uncut r }

  pub Whole-try : (m : M W A) → Whole m → Whole (try m)
  unfolding try
  Whole-try m w = record { at = λ s. caught-Uncut (m s) (w.at s) }

  pub Whole-if : (b : Bool) (m n : M W A) → Whole m → Whole n → Whole (if b then m else n)
  Whole-if true m n wm wn = wm
  Whole-if false m n wm wn = wn

module _ {W A B : Type 0} where
  pub after-Uncut :
      (f : A → M W B) (x : Res A × St W) → Uncut x.0 → ((a : A) → Whole (f a)) → Uncut (after f x).0
  unfolding after
  after-Uncut f (ok a, s) u k = (k a).at s
  after-Uncut f (err e, s) u k = tt
  after-Uncut f (cut, s) u k = u

  pub Whole-bind : (m : M W A) (f : A → M W B) → Whole m → ((a : A) → Whole (f a)) → Whole (m >>= f)
  unfolding ◌>>=◌
  Whole-bind m f wm wf = record { at = λ s. after-Uncut f (m s) (wm.at s) wf }

  pub Whole-on_option :
      (o : Option B) (m : M W A) (f : B → M W A)
      → Whole m
      → ((b : B) → Whole (f b))
      → Whole (on_option o m f)
  unfolding on_option
  Whole-on_option none m f wm wf = wm
  Whole-on_option (some b) m f wm wf = wf b

  pub Whole-on_reply :
      (o : Reply B) (f : B → M W A) (g : Err → M W A)
      → ((b : B) → Whole (f b))
      → ((e : Err) → Whole (g e))
      → Whole (on_reply o f g)
  unfolding on_reply
  Whole-on_reply (got b) f g wf wg = wf b
  Whole-on_reply (lost e) f g wf wg = wg e

module _ {W : Type 0} where
  pub Whole-then :
      {B : Type 0} (m : M W (Unit {0})) (k : M W B) → Whole m → Whole k → Whole (m >> k)
  unfolding ◌>>◌
  Whole-then m k wm wk = Whole-bind m (λ _. k) wm (λ _. wk)

  pub Whole-require : (b : Bool) (e : Err) → Whole {W = W} (require b e)
  unfolding require
  Whole-require true e = Whole-pure tt
  Whole-require false e = Whole-raise e

  pub Whole-get_job : Whole {W = W} get_job
  unfolding get_job
  Whole-get_job = record { at = λ s. tt }

  pub Whole-modify : (f : Job → Job) → Whole {W = W} (modify f)
  unfolding modify
  Whole-modify f = record { at = λ s. tt }

module _ {W : Type 0} ⦃host : Host W⦄ where
  pub Whole-now : Whole {W = W} now
  unfolding now
  Whole-now = record { at = λ s. tt }

  pub Whole-call : (c : Call) → Whole {W = W} (call c)
  unfolding call
  Whole-call c = record { at = λ s. of_reply-Uncut (host.ask s.world c).0 }

  pub Whole-update : (f : State → State) → Whole {W = W} (update f)
  unfolding update
  Whole-update f = record { at = λ s. tt }

  pub Whole-phase : (p : Phase) (m : Text) → Whole {W = W} (phase p m)
  unfolding phase
  Whole-phase p m = Whole-update _

pub ruleset whole_rules = (
  Whole-pure, Whole-raise, Whole-lift, Whole-try, Whole-if, Whole-bind, Whole-on_option,
  Whole-on_reply, Whole-then, Whole-require, Whole-get_job, Whole-modify, Whole-now, Whole-call,
  Whole-update, Whole-phase,
)
