-- ===== src/Host/From.antt =====
-- The part of the program logic about what held before: what a step ends with when something held before it.
use esxi_mover.Prelude.{◌≡◌, refl, ap, subst, Bool, true, false, if◌then◌else◌}
use esxi_mover.Host.{St, Res, ok, err, cut, M, after, pure, raise, require, stuck, ◌>>=◌, ◌>>◌}
use esxi_mover.Types.{Err}
use esxi_mover.Host.Hoare.{Keeps}
use esxi_mover.Host.Outcome.{Ends, value_or}

-- Wherever `m`, begun in `P`, returns a value, `Q` holds of it and of the state it leaves.
pub record From {W A : Type 0} (P : St W → Type 0) (Q : A → St W → Type 0) (m : M W A)
    : Type 0 where
  pub at : (s : St W) → P s → (a : A) → (m s).0 ≡ ok a → Q a (m s).1

module _ {W A B : Type 0} (R : A → St W → Type 0) {Q : B → St W → Type 0} where
  after-From :
      (f : A → M W B) (x : Res A × St W)
      → ((a : A) → x.0 ≡ ok a → R a x.1)
      → ((a : A) → From (R a) Q (f a))
      → (b : B) → (after f x).0 ≡ ok b
      → Q b (after f x).1
  unfolding after
  after-From f (ok a, s) r k b h = (k a).at s (r a refl) b h
  after-From f (err e, s) r k b h = cc h
  after-From f (cut, s) r k b h = cc h

  pub Ends-From :
      (m : M W A) (f : A → M W B) → Ends R m → ((a : A) → From (R a) Q (f a)) → Ends Q (m >>= f)
  unfolding ◌>>=◌
  Ends-From m f em kf = record { at = λ s b h. after-From f (m s) (em.at s) kf b h }

  pub From-bind :
      {P : St W → Type 0} (m : M W A) (f : A → M W B)
      → From P R m
      → ((a : A) → From (R a) Q (f a))
      → From P Q (m >>= f)
  unfolding ◌>>=◌
  From-bind m f em kf = record { at = λ s p b h. after-From f (m s) (em.at s p) kf b h }

module _ {W A : Type 0} {P : St W → Type 0} where
  -- A step that keeps what held.
  pub From-Keeps : (m : M W A) → Keeps P m → From P (λ a s. P s) m
  From-Keeps m k = record { at = λ s p a h. k.at s p }

module _ {W A : Type 0} {P : St W → Type 0} {Q : A → St W → Type 0} where
  pub From-Ends : (m : M W A) → Ends Q m → From P Q m
  From-Ends m e = record { at = λ s p a h. e.at s a h }

  pub From-pure : (a : A) → ((s : St W) → P s → Q a s) → From P Q (pure a)
  unfolding pure value_or
  From-pure a q = record { at = λ s p b h. subst (λ x. Q x s) (ap (value_or a) h) (q s p) }

  pub From-choice :
      (b : Bool) (m n : M W A) → From P Q m → From P Q n → From P Q (if b then m else n)
  From-choice true m n f g = f
  From-choice false m n f g = g

  pub From-if :
      (b : Bool) (m n : M W A)
      → (b ≡ true → From P Q m)
      → (b ≡ false → From P Q n)
      → From P Q (if b then m else n)
  From-if true m n f g = f refl
  From-if false m n f g = g refl

module _ {W A : Type 0} {Q : A → St W → Type 0} where
  pub Ends-if : (b : Bool) (m n : M W A) → Ends Q m → Ends Q n → Ends Q (if b then m else n)
  Ends-if true m n f g = f
  Ends-if false m n f g = g

  pub Ends-stuck : Ends Q stuck
  unfolding stuck
  Ends-stuck = record { at = λ s a h. cc h }

module _ {W B : Type 0} {P : St W → Type 0} {Q : B → St W → Type 0} where
  pub From-then : (m : M W (Unit {0})) (k : M W B) → Keeps P m → From P Q k → From P Q (m >> k)
  unfolding ◌>>◌
  From-then m k km fk = From-bind (λ a s. P s) m (λ _. k) (From-Keeps m km) (λ _. fk)

  pub From-seq :
      (R : St W → Type 0) (m : M W (Unit {0})) (k : M W B)
      → From P (λ a s. R s) m
      → From R Q k
      → From P Q (m >> k)
  unfolding ◌>>◌
  From-seq R m k fm fk = From-bind (λ a s. R s) m (λ _. k) fm (λ _. fk)

  pub From-require :
      (b : Bool) (e : Err) (k : M W B) → (b ≡ true → From P Q k) → From P Q (require b e >> k)
  unfolding require ◌>>◌ ◌>>=◌ pure raise after
  From-require true e k f = record { at = λ s p a h. (f refl).at s p a h }
  From-require false e k f = record { at = λ s p a h. cc h }
