-- ===== src/Host/Hoare.antt =====
-- A program logic for the engine's monad. `Keeps I m`: whatever the host answers, `m` leaves `I`
-- true, also where it fails or is cut off.
use esxi_mover.Prelude.{◌≡◌, refl, Bool, true, false, if◌then◌else◌, Option, none, some}
use esxi_mover.Types.{Err, Reply, got, lost}
use esxi_mover.Host.{
  St, Res, ok, err, cut, M, after, caught, ◌>>=◌, ◌>>◌, pure, raise, stuck, lift, try, require,
  get_job, now, Host, on_option, on_reply,
}

pub record Keeps {W A : Type 0} (I : St W → Type 0) (m : M W A) : Type 0 where
  pub at : (s : St W) → I s → I (m s).1

module _ {W A : Type 0} where
  pub caught-state : (x : Res A × St W) → (caught x).1 ≡ x.1
  unfolding caught
  caught-state (ok a, s) = refl
  caught-state (err e, s) = refl
  caught-state (cut, s) = refl

module _ {W A : Type 0} {I : St W → Type 0} where
  pub Keeps-pure : (a : A) → Keeps I (pure a)
  unfolding pure
  Keeps-pure a = record { at = λ s h. h }

  pub Keeps-raise : (e : Err) → Keeps I (raise {A = A} e)
  unfolding raise
  Keeps-raise e = record { at = λ s h. h }

  pub Keeps-stuck : Keeps I (stuck {A = A})
  unfolding stuck
  Keeps-stuck = record { at = λ s h. h }

  pub Keeps-lift : (r : Reply A) → Keeps I (lift r)
  unfolding lift
  Keeps-lift r = record { at = λ s h. h }

  pub Keeps-try : (m : M W A) → Keeps I m → Keeps I (try m)
  unfolding try
  Keeps-try m k = record { at = λ s h. rw (caught-state (m s)) (k.at s h) }

  pub Keeps-if : (b : Bool) (m n : M W A) → Keeps I m → Keeps I n → Keeps I (if b then m else n)
  Keeps-if true m n km kn = km
  Keeps-if false m n km kn = kn

module _ {W A B : Type 0} {I : St W → Type 0} where
  after-Keeps :
      (f : A → M W B) (x : Res A × St W) → ((a : A) → Keeps I (f a)) → I x.1 → I (after f x).1
  unfolding after
  after-Keeps f (ok a, s) k h = (k a).at s h
  after-Keeps f (err e, s) k h = h
  after-Keeps f (cut, s) k h = h

  pub Keeps-bind :
      (m : M W A) (f : A → M W B) → Keeps I m → ((a : A) → Keeps I (f a)) → Keeps I (m >>= f)
  unfolding ◌>>=◌
  Keeps-bind m f km kf = record { at = λ s h. after-Keeps f (m s) kf (km.at s h) }

  pub Keeps-on_option :
      (o : Option B) (m : M W A) (f : B → M W A)
      → Keeps I m
      → ((b : B) → Keeps I (f b))
      → Keeps I (on_option o m f)
  unfolding on_option
  Keeps-on_option none m f km kf = km
  Keeps-on_option (some b) m f km kf = kf b

  pub Keeps-on_reply :
      (o : Reply B) (f : B → M W A) (g : Err → M W A)
      → ((b : B) → Keeps I (f b))
      → ((e : Err) → Keeps I (g e))
      → Keeps I (on_reply o f g)
  unfolding on_reply
  Keeps-on_reply (got b) f g kf kg = kf b
  Keeps-on_reply (lost e) f g kf kg = kg e

module _ {W : Type 0} {I : St W → Type 0} where
  pub Keeps-then :
      {B : Type 0} (m : M W (Unit {0})) (k : M W B) → Keeps I m → Keeps I k → Keeps I (m >> k)
  unfolding ◌>>◌
  Keeps-then m k km kk = Keeps-bind m (λ _. k) km (λ _. kk)

  pub Keeps-require : (b : Bool) (e : Err) → Keeps I (require b e)
  unfolding require
  Keeps-require true e = Keeps-pure tt
  Keeps-require false e = Keeps-raise e

  -- A step made only under a test may use it.
  pub Keeps-when :
      (b : Bool) (m : M W (Unit {0})) → (b ≡ true → Keeps I m) → Keeps I (if b then m else pure tt)
  Keeps-when true m k = k refl
  Keeps-when false m k = Keeps-pure tt

  pub Keeps-get_job : Keeps I get_job
  unfolding get_job
  Keeps-get_job = record { at = λ s h. h }

  pub Keeps-now : ⦃host : Host W⦄ → Keeps I now
  unfolding now
  Keeps-now = record { at = λ s h. h }

pub ruleset keeps_rules = (
  Keeps-pure, Keeps-raise, Keeps-stuck, Keeps-lift, Keeps-try, Keeps-if, Keeps-bind,
  Keeps-on_option, Keeps-on_reply, Keeps-then, Keeps-require, Keeps-get_job, Keeps-now,
)
