-- ===== src/Host/Sound.antt =====
-- The part of the program logic that is about errors: whether a step may fail with the engine's own
-- error for a stop.
use esxi_mover.Prelude.{◌≡◌, refl, Bool, true, false, if◌then◌else◌}
use esxi_mover.Prelude.Text.{Text}
use esxi_mover.Types.{Err, Reply, got, lost, is_stopped}
use esxi_mover.Job.{State, Job, Phase}
use esxi_mover.Host.{
  Call, Host, St, Res, ok, err, cut, M, after, caught, of_reply, call, update, modify, phase, now,
  get_job, try, pure, stuck, ◌>>=◌, ◌>>◌,
}

-- The error for a stop is a variable of the engine, which no answer of a host is.
pub record Foreign {W : Type 0} (host : Host W) : Type 0 where
  pub at : (w : W) (c : Call) (e : Err) → (host.ask w c).0 ≡ lost e → is_stopped e ≡ false

-- A value with this property, or another error than a stop.
abbrev pub Fine : {A : Type 0} → (A → Type 0) → Res A → Type 0
Fine Q (ok a) = Q a
Fine Q (err e) = is_stopped e ≡ false
Fine Q cut = Unit

pub record Sound {W A : Type 0} (Q : A → Type 0) (m : M W A) : Type 0 where
  pub at : (s : St W) → Fine Q (m s).0

abbrev pub Any : {A : Type 0} → A → Type 0
Any a = Unit

-- A reply whose error is not a stop.
abbrev pub OtherError : {A : Type 0} → Reply A → Type 0
OtherError (got a) = Unit
OtherError (lost e) = is_stopped e ≡ false

module _ {W A B : Type 0} (Q : A → Type 0) {R : B → Type 0} where
  after-Fine :
      (f : A → M W B) (x : Res A × St W)
      → Fine Q x.0
      → ((a : A) → Q a → Sound R (f a))
      → Fine R (after f x).0
  unfolding after
  after-Fine f (ok a, s) q k = (k a q).at s
  after-Fine f (err e, s) q k = q
  after-Fine f (cut, s) q k = tt

  pub Sound-bind :
      (m : M W A) (f : A → M W B) → Sound Q m → ((a : A) → Q a → Sound R (f a)) → Sound R (m >>= f)
  unfolding ◌>>=◌
  Sound-bind m f sm sf = record { at = λ s. after-Fine f (m s) (sm.at s) sf }

module _ {W B : Type 0} {R : B → Type 0} where
  pub Sound-then : (m : M W (Unit {0})) (k : M W B) → Sound Any m → Sound R k → Sound R (m >> k)
  unfolding ◌>>◌
  Sound-then m k sm sk = Sound-bind Any m (λ _. k) sm (λ _ q. sk)

module _ {W A : Type 0} {Q : A → Type 0} where
  pub Sound-pure : (a : A) → Q a → Sound {W = W} Q (pure a)
  unfolding pure
  Sound-pure a q = record { at = λ s. q }

  pub Sound-stuck : Sound {W = W} Q stuck
  unfolding stuck
  Sound-stuck = record { at = λ s. tt }

  pub Sound-if : (b : Bool) (m n : M W A) → Sound Q m → Sound Q n → Sound Q (if b then m else n)
  Sound-if true m n sm sn = sm
  Sound-if false m n sm sn = sn

module _ {W A : Type 0} where
  caught-Fine : (x : Res A × St W) → Fine Any (caught x).0
  unfolding caught
  caught-Fine (ok a, s) = tt
  caught-Fine (err e, s) = tt
  caught-Fine (cut, s) = tt

  pub Sound-try : (m : M W A) → Sound Any (try m)
  unfolding try
  Sound-try m = record { at = λ s. caught-Fine (m s) }

  answered-Fine :
      (x : Reply A) (s : St W)
      → ((e : Err) → x ≡ lost e → is_stopped e ≡ false)
      → Fine OtherError (caught (of_reply x, s)).0
  unfolding caught of_reply
  answered-Fine (got a) s f = tt
  answered-Fine (lost e) s f = f e refl

module _ {W : Type 0} ⦃host : Host W⦄ where
  pub Sound-call : Foreign host → (c : Call) → Sound {W = W} OtherError (try (call c))
  unfolding try call
  Sound-call foreign c = record {
    at = λ s. answered-Fine (host.ask s.world c).0 _ (λ e h. foreign.at s.world c e h);
  }

  pub Sound-now : Sound {W = W} Any now
  unfolding now
  Sound-now = record { at = λ s. tt }

  pub Sound-get_job : Sound {W = W} Any get_job
  unfolding get_job
  Sound-get_job = record { at = λ s. tt }

  pub Sound-update : (f : State → State) → Sound {W = W} Any (update f)
  unfolding update
  Sound-update f = record { at = λ s. tt }

  pub Sound-modify : (f : Job → Job) → Sound {W = W} Any (modify f)
  unfolding modify
  Sound-modify f = record { at = λ s. tt }

  pub Sound-phase : (p : Phase) (m : Text) → Sound {W = W} Any (phase p m)
  unfolding phase
  Sound-phase p m = Sound-update _
