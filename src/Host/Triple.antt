-- ===== src/Host/Triple.antt =====
-- The whole program logic: what a step needs, what comes with its value, and what it leaves behind
-- where it fails or is cut off.
use esxi_mover.Prelude.{◌≡◌, refl, Bool, true, false, if◌then◌else◌}
use esxi_mover.Types.{Err}
use esxi_mover.Host.{St, Res, ok, err, cut, M, after, pure, raise, require, ◌>>=◌, ◌>>◌}
use esxi_mover.Host.Hoare.{Keeps}

-- What a result and its state must be.
abbrev pub Outcome : {W A : Type 0} → (A → St W → Type 0) → (St W → Type 0) → Res A × St W → Type 0
Outcome Q E (ok a, s) = Q a s
Outcome Q E (err e, s) = E s
Outcome Q E (cut, s) = E s

-- From `P`, a value of `m` comes with `Q`, and an error or a cut leaves `E`.
pub record Triple {W A : Type 0} (P : St W → Type 0) (Q : A → St W → Type 0) (E : St W → Type 0)
    (m : M W A) : Type 0 where
  pub at : (s : St W) → P s → Outcome Q E (m s)

module _ {W A B : Type 0} (E : St W → Type 0) (Q : A → St W → Type 0) (R : B → St W → Type 0) where
  after-Triple :
      (f : A → M W B) (x : Res A × St W)
      → Outcome Q E x
      → ((a : A) → Triple (Q a) R E (f a))
      → Outcome R E (after f x)
  unfolding after
  after-Triple f (ok a, s) q k = (k a).at s q
  after-Triple f (err e, s) q k = q
  after-Triple f (cut, s) q k = q

module _ {W A B : Type 0} {P E : St W → Type 0} (Q : A → St W → Type 0)
    {R : B → St W → Type 0} where
  pub Triple-bind :
      (m : M W A) (f : A → M W B)
      → Triple P Q E m
      → ((a : A) → Triple (Q a) R E (f a))
      → Triple P R E (m >>= f)
  unfolding ◌>>=◌
  Triple-bind m f tm tf = record { at = λ s p. after-Triple E Q R f (m s) (tm.at s p) tf }

module _ {W B : Type 0} {P E : St W → Type 0} (Q : St W → Type 0) {R : B → St W → Type 0} where
  pub Triple-then :
      (m : M W (Unit {0})) (k : M W B)
      → Triple P (λ a s. Q s) E m
      → Triple Q R E k
      → Triple P R E (m >> k)
  unfolding ◌>>◌
  Triple-then m k tm tk = Triple-bind (λ a s. Q s) m (λ _. k) tm (λ _. tk)

module _ {W A : Type 0} (E : St W → Type 0) (Q : A → St W → Type 0) where
  Ends-Outcome : (x : Res A × St W) → ((a : A) → x.0 ≡ ok a → Q a x.1) → E x.1 → Outcome Q E x
  Ends-Outcome (ok a, s) q e = q a refl
  Ends-Outcome (err e', s) q e = e
  Ends-Outcome (cut, s) q e = e

module _ {W A : Type 0} {P E : St W → Type 0} {Q : A → St W → Type 0} where
  -- A step that keeps what it needs, which is enough for a failure; its value says more.
  pub Triple-Ends :
      (m : M W A)
      → Keeps P m
      → ((s : St W) → P s → E s)
      → ((s : St W) → P s → (a : A) → (m s).0 ≡ ok a → P (m s).1 → Q a (m s).1)
      → Triple P Q E m
  Triple-Ends m k e q = record {
    at = λ s p. Ends-Outcome E Q (m s) (λ a h. q s p a h (k.at s p)) (e (m s).1 (k.at s p));
  }

module _ {W A : Type 0} (P E : St W → Type 0) where
  Outcome-state : (x : Res A × St W) → Outcome (λ a s. P s) E x → ((s : St W) → P s → E s) → E x.1
  Outcome-state (ok a, s) h e = e s h
  Outcome-state (err e', s) h e = h
  Outcome-state (cut, s) h e = h

module _ {W A : Type 0} {P E : St W → Type 0} where
  pub Triple-Keeps : (m : M W A) → Keeps P m → ((s : St W) → P s → E s) → Triple P (λ a s. P s) E m
  Triple-Keeps m k e = Triple-Ends m k e (λ s p a h i. i)

  -- What a triple says of the last state.
  pub Triple-state :
      (m : M W A) (s : St W)
      → Triple P (λ a s'. P s') E m
      → ((s' : St W) → P s' → E s')
      → P s
      → E (m s).1
  Triple-state m s t e p = Outcome-state P E (m s) (t.at s p) e

module _ {W A : Type 0} {P Q E : St W → Type 0} where
  -- A step that goes from one thing to another, however it ends.
  pub Triple-shift :
      (m : M W A)
      → ((s : St W) → P s → Q (m s).1)
      → ((s : St W) → Q s → E s)
      → Triple P (λ a s. Q s) E m
  Triple-shift m q e = record {
    at = λ s p. Ends-Outcome E (λ a t. Q t) (m s) (λ a h. q s p) (e (m s).1 (q s p));
  }

module _ {W A : Type 0} {P E : St W → Type 0} {Q : A → St W → Type 0} where
  pub Triple-pure : (a : A) → ((s : St W) → P s → Q a s) → Triple P Q E (pure a)
  unfolding pure
  Triple-pure a q = record { at = λ s p. q s p }

  pub Triple-raise : (e : Err) → ((s : St W) → P s → E s) → Triple P Q E (raise e)
  unfolding raise
  Triple-raise e q = record { at = λ s p. q s p }

  pub Triple-choice :
      (b : Bool) (m n : M W A) → Triple P Q E m → Triple P Q E n → Triple P Q E (if b then m else n)
  Triple-choice true m n tm tn = tm
  Triple-choice false m n tm tn = tn

  pub Triple-if :
      (b : Bool) (m n : M W A)
      → (b ≡ true → Triple P Q E m)
      → (b ≡ false → Triple P Q E n)
      → Triple P Q E (if b then m else n)
  Triple-if true m n tm tn = tm refl
  Triple-if false m n tm tn = tn refl

  -- What a step needs may be less than what there is.
  pub Triple-given :
      {P' : St W → Type 0} (m : M W A)
      → ((s : St W) → P' s → P s)
      → Triple P Q E m
      → Triple P' Q E m
  Triple-given m f t = record { at = λ s p. t.at s (f s p) }

module _ {W B : Type 0} {P E : St W → Type 0} {Q : B → St W → Type 0} where
  pub Triple-require :
      (b : Bool) (e : Err) (k : M W B)
      → ((s : St W) → P s → E s)
      → (b ≡ true → Triple P Q E k)
      → Triple P Q E (require b e >> k)
  unfolding require ◌>>◌ ◌>>=◌ pure raise after
  Triple-require true e k weak t = record { at = λ s p. (t refl).at s p }
  Triple-require false e k weak t = record { at = λ s p. weak s p }
