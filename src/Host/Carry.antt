-- ===== src/Host/Carry.antt =====
-- The part of the program logic about values: what a value says of the state it comes with.
use esxi_mover.Prelude.{◌≡◌, refl, ap, subst}
use esxi_mover.Types.{Err, Reply, got, lost}
use esxi_mover.Host.{
  St, Res, ok, err, cut, M, after, caught, try, on_reply, raise, pure, ◌>>=◌, ◌>>◌,
}
use esxi_mover.Host.Hoare.{Keeps}
use esxi_mover.Host.Outcome.{Ends, value_or}
use esxi_mover.Host.Under.{Under}

-- A reply that is a value comes with `P`.
abbrev pub WithValue : {W A : Type 0} → (St W → Type 0) → Reply A → St W → Type 0
WithValue P (got a) s = P s
WithValue P (lost e) s = Unit

module _ {W A : Type 0} (P : St W → Type 0) where
  pub caught-WithValue :
      (x : Res A × St W)
      → ((a : A) → x.0 ≡ ok a → P x.1)
      → (r : Reply A) → (caught x).0 ≡ ok r
      → WithValue P r (caught x).1
  unfolding caught value_or
  caught-WithValue (ok a, s) p r h = subst (λ q. WithValue P q s) (ap (value_or r) h) (p a refl)
  caught-WithValue (err e, s) p r h = subst (λ q. WithValue P q s) (ap (value_or r) h) tt
  caught-WithValue (cut, s) p r h = cc h

  pub try-WithValue : (m : M W A) → Ends (λ a s. P s) m → Ends (WithValue P) (try m)
  unfolding try
  try-WithValue m e = record { at = λ s r h. caught-WithValue (m s) (e.at s) r h }

-- A reply that is an error ends the run, so after it the value was there.
abbrev pub insist : {W A B : Type 0} → (Err → Err) → M W B → Reply A → M W B
insist g k r = on_reply r (λ a. pure tt) (λ e. raise (g e)) >> k

module _ {W A B : Type 0} (P : St W → Type 0) (g : Err → Err) (k : M W B) where
  after-insist :
      (x : Res (Reply A) × St W)
      → ((r : Reply A) → x.0 ≡ ok r → WithValue P r x.1)
      → Keeps P k
      → (b : B) → (after (insist g k) x).0 ≡ ok b
      → P (after (insist g k) x).1
  unfolding after ◌>>◌ ◌>>=◌ on_reply pure raise
  after-insist (ok (got a), s) p kk b h = kk.at s (p (got a) refl)
  after-insist (ok (lost e), s) p kk b h = cc h
  after-insist (err e, s) p kk b h = cc h
  after-insist (cut, s) p kk b h = cc h

  pub Ends-insist :
      (m : M W (Reply A)) → Ends (WithValue P) m → Keeps P k → Ends (λ b s. P s) (m >>= insist g k)
  unfolding ◌>>=◌
  Ends-insist m em kk = record { at = λ s b h. after-insist (m s) (em.at s) kk b h }

module _ {W A B : Type 0} {P I : St W → Type 0} (g : Err → Err) (k : M W B) where
  after-insist_kept :
      (x : Res (Reply A) × St W)
      → ((r : Reply A) → x.0 ≡ ok r → WithValue P r x.1)
      → I x.1
      → Under P I k
      → I (after (insist g k) x).1
  unfolding after ◌>>◌ ◌>>=◌ on_reply pure raise
  after-insist_kept (ok (got a), s) p h u = u.at s (p (got a) refl) h
  after-insist_kept (ok (lost e), s) p h u = h
  after-insist_kept (err e, s) p h u = h
  after-insist_kept (cut, s) p h u = h

  -- What is kept only from where the value was there.
  pub Keeps-insist :
      (m : M W (Reply A))
      → Keeps I m
      → Ends (WithValue P) m
      → Under P I k
      → Keeps I (m >>= insist g k)
  unfolding ◌>>=◌
  Keeps-insist m km em u = record { at = λ s h. after-insist_kept (m s) (em.at s) (km.at s h) u }
