-- ===== src/Host/Under.antt =====
-- The part of the program logic for steps that keep an invariant only from where something has
-- just been established.
use esxi_mover.Prelude.{◌≡◌, refl}
use esxi_mover.Host.{St, Res, ok, err, cut, M, after, try, ◌>>=◌, ◌>>◌}
use esxi_mover.Host.Hoare.{Keeps, caught-state}
use esxi_mover.Host.Outcome.{Ends}

-- From where `P` holds, `m` keeps `I`.
pub record Under {W A : Type 0} (P I : St W → Type 0) (m : M W A) : Type 0 where
  pub at : (s : St W) → P s → I s → I (m s).1

module _ {W A B : Type 0} {I : St W → Type 0} where
  after-rest :
      (f : A → M W B) (x : Res A × St W) → I x.1 → ((a : A) → Keeps I (f a)) → I (after f x).1
  unfolding after
  after-rest f (ok a, s) h k = (k a).at s h
  after-rest f (err e, s) h k = h
  after-rest f (cut, s) h k = h

module _ {W A B : Type 0} {P I : St W → Type 0} where
  after-Under :
      (f : A → M W B) (x : Res A × St W)
      → ((a : A) → x.0 ≡ ok a → P x.1)
      → ((a : A) → Under P I (f a))
      → I x.1
      → I (after f x).1
  unfolding after
  after-Under f (ok a, s) p k h = (k a).at s (p a refl) h
  after-Under f (err e, s) p k h = h
  after-Under f (cut, s) p k h = h

  pub Keeps-Under :
      (m : M W A) (f : A → M W B)
      → Keeps I m
      → Ends (λ a s. P s) m
      → ((a : A) → Under P I (f a))
      → Keeps I (m >>= f)
  unfolding ◌>>=◌
  Keeps-Under m f km em kf = record { at = λ s h. after-Under f (m s) (em.at s) kf (km.at s h) }

  after-kept-Under :
      (f : A → M W B) (x : Res A × St W)
      → P x.1
      → I x.1
      → ((a : A) → Under P I (f a))
      → I (after f x).1
  unfolding after
  after-kept-Under f (ok a, s) p h k = (k a).at s p h
  after-kept-Under f (err e, s) p h k = h
  after-kept-Under f (cut, s) p h k = h

  -- What has been established stays so over a step that keeps it.
  pub Under-kept :
      (m : M W A) (f : A → M W B)
      → Keeps P m
      → Keeps I m
      → ((a : A) → Under P I (f a))
      → Under P I (m >>= f)
  unfolding ◌>>=◌
  Under-kept m f pm im kf = record {
    at = λ s p h. after-kept-Under f (m s) (pm.at s p) (im.at s h) kf;
  }

  -- The rest needs it no more.
  pub Under-first :
      (m : M W A) (f : A → M W B) → Under P I m → ((a : A) → Keeps I (f a)) → Under P I (m >>= f)
  unfolding ◌>>=◌
  Under-first m f um kf = record { at = λ s p h. after-rest f (m s) (um.at s p h) kf }

module _ {W B : Type 0} {P I : St W → Type 0} where
  pub Keeps-then-Under :
      (m : M W (Unit {0})) (k : M W B)
      → Keeps I m
      → Ends (λ a s. P s) m
      → Under P I k
      → Keeps I (m >> k)
  unfolding ◌>>◌
  Keeps-then-Under m k km em uk = Keeps-Under m (λ _. k) km em (λ _. uk)

  pub Under-then :
      (m : M W (Unit {0})) (k : M W B) → Keeps P m → Keeps I m → Under P I k → Under P I (m >> k)
  unfolding ◌>>◌
  Under-then m k pm im uk = Under-kept m (λ _. k) pm im (λ _. uk)

module _ {W A : Type 0} {P I : St W → Type 0} where
  pub Under-try : (m : M W A) → Under P I m → Under P I (try m)
  unfolding try
  Under-try m u = record { at = λ s p h. rw (caught-state (m s)) (u.at s p h) }
