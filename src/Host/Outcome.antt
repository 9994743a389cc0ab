-- ===== src/Host/Outcome.antt =====
-- The second half of the program logic: what holds where a step ends with a value.
use esxi_mover.Prelude.{◌≡◌, refl, ap, subst, Bool, true, false}
use esxi_mover.Host.{
  St, Res, ok, err, cut, M, after, ◌>>=◌, ◌>>◌, pure, raise, require, lift, of_reply,
}
use esxi_mover.Types.{Err, Reply, got, lost}
use esxi_mover.Host.Hoare.{Keeps}

-- Wherever `m` returns a value, `Q` holds of it and of the state it leaves.
pub record Ends {W A : Type 0} (Q : A → St W → Type 0) (m : M W A) : Type 0 where
  pub at : (s : St W) (a : A) → (m s).0 ≡ ok a → Q a (m s).1

module _ {W A B : Type 0} {Q : B → St W → Type 0} where
  after-Ends :
      (f : A → M W B) (x : Res A × St W)
      → ((a : A) → Ends Q (f a))
      → (b : B) → (after f x).0 ≡ ok b
      → Q b (after f x).1
  unfolding after
  after-Ends f (ok a, s) k b h = (k a).at s b h
  after-Ends f (err e, s) k b h = cc h
  after-Ends f (cut, s) k b h = cc h

  -- What the last step ends with, the whole ends with.
  pub Ends-bind : (m : M W A) (f : A → M W B) → ((a : A) → Ends Q (f a)) → Ends Q (m >>= f)
  unfolding ◌>>=◌
  Ends-bind m f k = record { at = λ s b h. after-Ends f (m s) k b h }

module _ {W A B : Type 0} (P : A → Type 0) {Q : B → St W → Type 0} where
  after-Ends_given :
      (f : A → M W B) (x : Res A × St W)
      → ((a : A) → x.0 ≡ ok a → P a)
      → ((a : A) → P a → Ends Q (f a))
      → (b : B) → (after f x).0 ≡ ok b
      → Q b (after f x).1
  unfolding after
  after-Ends_given f (ok a, s) p k b h = (k a (p a refl)).at s b h
  after-Ends_given f (err e, s) p k b h = cc h
  after-Ends_given f (cut, s) p k b h = cc h

  -- The same, where the last step may use what the value before it is known to be.
  pub Ends-given :
      (m : M W A) (f : A → M W B)
      → Ends (λ a s. P a) m
      → ((a : A) → P a → Ends Q (f a))
      → Ends Q (m >>= f)
  unfolding ◌>>=◌
  Ends-given m f p k = record { at = λ s b h. after-Ends_given f (m s) (p.at s) k b h }

module _ {W A B : Type 0} {I : St W → Type 0} where
  after-kept :
      (f : A → M W B) (x : Res A × St W)
      → ((a : A) → x.0 ≡ ok a → I x.1)
      → ((a : A) → Keeps I (f a))
      → (b : B) → (after f x).0 ≡ ok b
      → I (after f x).1
  unfolding after
  after-kept f (ok a, s) i k b h = (k a).at s (i a refl)
  after-kept f (err e, s) i k b h = cc h
  after-kept f (cut, s) i k b h = cc h

  -- What the first step ends with, and the rest keeps, the whole ends with.
  pub Ends-kept :
      (m : M W A) (f : A → M W B)
      → Ends (λ a s. I s) m
      → ((a : A) → Keeps I (f a))
      → Ends (λ b s. I s) (m >>= f)
  unfolding ◌>>=◌
  Ends-kept m f i k = record { at = λ s b h. after-kept f (m s) (i.at s) k b h }

module _ {W A B : Type 0} {I : St W → Type 0} (P : A → Type 0) where
  after-given :
      (f : A → M W B) (x : Res A × St W)
      → ((a : A) → x.0 ≡ ok a → P a)
      → ((a : A) → P a → Keeps I (f a))
      → I x.1
      → I (after f x).1
  unfolding after
  after-given f (ok a, s) p k h = (k a (p a refl)).at s h
  after-given f (err e, s) p k h = h
  after-given f (cut, s) p k h = h

  -- A step may use what the value before it is known to be.
  pub Keeps-given :
      (m : M W A) (f : A → M W B)
      → Keeps I m
      → Ends (λ a s. P a) m
      → ((a : A) → P a → Keeps I (f a))
      → Keeps I (m >>= f)
  unfolding ◌>>=◌
  Keeps-given m f km em kf = record { at = λ s h. after-given f (m s) (em.at s) kf (km.at s h) }

unfoldable pub value_or : {A : Type 0} → A → Res A → A
value_or old (ok a) = a
value_or old (err e) = old
value_or old cut = old

module _ {W A : Type 0} {Q : A → St W → Type 0} where
  pub Ends-pure : (a : A) → ((s : St W) → Q a s) → Ends Q (pure a)
  unfolding pure value_or
  Ends-pure a q = record { at = λ s b h. subst (λ x. Q x s) (ap (value_or a) h) (q s) }

module _ {W B : Type 0} {Q : B → St W → Type 0} where
  pub Ends-then : (m : M W (Unit {0})) (k : M W B) → Ends Q k → Ends Q (m >> k)
  unfolding ◌>>◌
  Ends-then m k e = Ends-bind m (λ _. k) (λ _. e)

module _ {W B : Type 0} {I : St W → Type 0} where
  pub Ends-then_kept :
      (m : M W (Unit {0})) (k : M W B)
      → Ends (λ a s. I s) m
      → Keeps I k
      → Ends (λ b s. I s) (m >> k)
  unfolding ◌>>◌
  Ends-then_kept m k e i = Ends-kept m (λ _. k) e (λ _. i)

-- What a test or a pure function said holds of what is done after it.
module _ {W B : Type 0} {Q : B → St W → Type 0} where
  pub Ends-require :
      (b : Bool) (e : Err) (k : M W B) → (b ≡ true → Ends Q k) → Ends Q (require b e >> k)
  unfolding require ◌>>◌ ◌>>=◌ pure raise after
  Ends-require true e k f = record { at = λ s b h. (f refl).at s b h }
  Ends-require false e k f = record { at = λ s b h. cc h }

  pub Ends-lift :
      (r : Reply (Unit {0})) (k : M W B) → (r ≡ got tt → Ends Q k) → Ends Q (lift r >> k)
  unfolding lift of_reply ◌>>◌ ◌>>=◌ after
  Ends-lift (got tt) k f = record { at = λ s b h. (f refl).at s b h }
  Ends-lift (lost e) k f = record { at = λ s b h. cc h }
