-- ===== src/Esxi/Shell/Says.antt =====
-- What the value of a step on the host says, whatever the host answered (internal/esxi/executor.go).
use esxi_mover.Prelude.{◌≡◌, ap, subst}
use esxi_mover.Types.{Reply, got, lost}
use esxi_mover.Esxi.Shell.{Client, C, next, ◌>>=◌, pure, lift}

pub record Says {W A : Type 0} (Q : A → Type 0) (m : C W A) : Type 0 where
  pub at : (s : Client W) (a : A) → (m s).0 ≡ got a → Q a

module _ {W A B : Type 0} {Q : B → Type 0} where
  next-Says :
      (f : A → C W B) (x : Reply A × Client W)
      → ((a : A) → Says Q (f a))
      → (b : B) → (next f x).0 ≡ got b
      → Q b
  unfolding next
  next-Says f (got a, s) k b h = (k a).at s b h
  next-Says f (lost e, s) k b h = cc h

  pub Says-bind : (m : C W A) (f : A → C W B) → ((a : A) → Says Q (f a)) → Says Q (m >>= f)
  unfolding ◌>>=◌
  Says-bind m f k = record { at = λ s b h. next-Says f (m s) k b h }

unfoldable got_value : {A : Type 0} → A → Reply A → A
got_value old (got a) = a
got_value old (lost e) = old

module _ {W A : Type 0} {Q : A → Type 0} where
  pub Says-pure : (a : A) → Q a → Says {W = W} Q (pure a)
  unfolding pure got_value
  Says-pure a q = record { at = λ s b h. subst Q (ap (got_value a) h) q }

  pub Says-lift : (r : Reply A) → ((a : A) → r ≡ got a → Q a) → Says {W = W} Q (lift r)
  unfolding lift
  Says-lift r q = record { at = λ s a h. q a h }
