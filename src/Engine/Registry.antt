-- ===== src/Engine/Registry.antt =====
-- `registrations` of internal/migration/engine.go against a description of the host's list of
-- machines: which of them stand at a path.
pub mod Readings
use esxi_mover.Prelude.{
  ℕ, zero, suc, ◌≡◌, refl, ap, subst, Bool, true, false, Option, none, some, List, [], ◌∷◌, ◌==◌,
  ◌&&◌, ltb, all, ◌⊎◌, inl, inr, if◌then◌else◌, arith,
}
use esxi_mover.Prelude.Text.{Text, ◌≟◌}
use esxi_mover.Types.{Err, Reply, got, lost, Reply-cases, check_that, Vm, Datastore}
use esxi_mover.Host.{
  Call, Answer, Host, St, Res, ok, err, cut, M, after, of_reply, call, lift, pure, ◌>>=◌,
}
use esxi_mover.Host.Outcome.{value_or}
use esxi_mover.Esxi.Paths.{resolve_reference}
use esxi_mover.Engine.Steps.{Pair, canonical_of, claim, count_registered, registrations}

-- A host that always reads the same machines, datastores and canonical paths.
pub record Settled {W : Type 0} (host : Host W) (vs : List Vm) (ds : List Datastore)
    (canon : Text → Text) : Type 0 where
  pub vms : (w : W) → (host.ask w Call.vms).0 ≡ got vs
  pub datastores : (w : W) → (host.ask w Call.datastores).0 ≡ got ds
  pub canonical : (w : W) (p : Text) → (host.ask w (Call.canonical p)).0 ≡ got (canon p)

-- The machine has a number, and its path is understood.
abbrev pub is_got : {A : Type 0} → Reply A → Bool
is_got (got a) = true
is_got (lost e) = false

abbrev pub listed : List Datastore → Vm → Bool
listed ds v = ltb 0 v.id && is_got (resolve_reference v.vmx_path [] ds)

abbrev pub stands_at : (Text → Text) → Text → Reply Text → Bool
stands_at canon p (got q) = canon q ≟ p
stands_at canon p (lost e) = false

-- The numbers of the machines at a path, in the order of the list.
abbrev pub ids_at : (Text → Text) → List Datastore → Text → List Vm → List ℕ
ids_at canon ds p [] = []
ids_at canon ds p (v ∷ vs) =
    let rest = ids_at canon ds p vs in
    if stands_at canon p (resolve_reference v.vmx_path [] ds) then v.id ∷ rest else rest

-- No machine is 0, and two are too many.
abbrev pub sole : List ℕ → Option ℕ
sole [] = some 0
sole (n ∷ []) = some n
sole (n ∷ m ∷ ns) = none

-- What the machines at the two paths mean for the answer.
abbrev pub Agrees : Res Pair → List ℕ → List ℕ → Type 0
Agrees (ok p) xs ys = (sole xs ≡ some p.src) × (sole ys ≡ some p.dst)
Agrees (err e) xs ys = (sole xs ≡ none) ⊎ (sole ys ≡ none)
Agrees cut xs ys = ⊥

-- A number that is known already, before the others.
abbrev pub before : ℕ → List ℕ → List ℕ
before zero xs = xs
before (suc k) xs = suc k ∷ xs

abbrev pub Claimed : Reply ℕ → List ℕ → List ℕ → Type 0
Claimed (got k) xs ys = before k xs ≡ ys
Claimed (lost e) xs ys = sole ys ≡ none

suc_zero : (k : ℕ) → (suc k == 0) ≡ false
suc_zero k = ground arith

pub claim-Claimed :
    (hit : Bool) (id known : ℕ) (e : Err) (xs : List ℕ)
    → ltb 0 id ≡ true
    → Claimed (claim hit id known e) xs (before known (if hit then id ∷ xs else xs))
unfolding claim check_that
claim-Claimed false id known e xs h = refl
claim-Claimed true zero known e xs h = cc h
claim-Claimed true (suc n) zero e xs h = refl
claim-Claimed true (suc n) (suc k) e xs h = rw (suc_zero k) refl

module _ {W : Type 0} where
  claims-Agrees :
      (x y : Reply ℕ) (f : ℕ → ℕ → M W Pair) (s : St W) (xs ys xs' ys' : List ℕ)
      → Claimed x xs xs'
      → Claimed y ys ys'
      → ((src dst : ℕ) → Agrees (f src dst s).0 (before src xs) (before dst ys))
      → Agrees ((lift x >>= λ src. (lift y >>= λ dst. f src dst)) s).0 xs' ys'
  unfolding lift of_reply ◌>>=◌ after
  claims-Agrees (got a) (got b) f s xs ys xs' ys' cx cy k =
      subst (λ l. Agrees (f a b s).0 l ys') cx
        (subst (λ l. Agrees (f a b s).0 (before a xs) l) cy (k a b))
  claims-Agrees (got a) (lost e) f s xs ys xs' ys' cx cy k = inr cy
  claims-Agrees (lost e) y f s xs ys xs' ys' cx cy k = inl cx

module _ {W A B : Type 0} where
  after-ok : (f : A → M W B) (x : Res A × St W) (a : A) → x.0 ≡ ok a → after f x ≡ f a x.1
  unfolding after value_or
  after-ok f (ok b, s) a h = ap (λ t. f t s) (ap (value_or b) h)
  after-ok f (err e, s) a h = cc h
  after-ok f (cut, s) a h = cc h

module _ {W A B : Type 0} where
  bind-ok :
      (m : M W A) (f : A → M W B) (s : St W) (a : A) → (m s).0 ≡ ok a → (m >>= f) s ≡ f a (m s).1
  unfolding ◌>>=◌
  bind-ok m f s a h = after-ok f (m s) a h

pub sole-before : (k : ℕ) → sole (before k []) ≡ some k
sole-before zero = refl
sole-before (suc k) = refl

pub and_left : (a b : Bool) → (a && b) ≡ true → a ≡ true
and_left true b h = refl
and_left false b h = cc h

pub and_right : (a b : Bool) → (a && b) ≡ true → b ≡ true
and_right true b h = h
and_right false b h = cc h

module _ {W : Type 0} ⦃host : Host W⦄ {vs : List Vm} {ds : List Datastore} {canon : Text → Text}
    (settled : Settled host vs ds canon) where
  call-ok :
      (c : Call) (s : St W) (a : Answer c) → (host.ask s.world c).0 ≡ got a → (call c s).0 ≡ ok a
  unfolding call of_reply
  call-ok c s a h = rw h refl

  canonical_of-ok :
      (v : Vm) (q : Text) (s : St W)
      → resolve_reference v.vmx_path [] ds ≡ got q
      → (canonical_of v ds s).0 ≡ ok (canon q)
  unfolding canonical_of lift of_reply ◌>>=◌ after call
  canonical_of-ok v q s h = rw h (ap of_reply (settled.canonical s.world q))

  step-Agrees :
      (source target : Text) (v : Vm) (ws : List Vm) (known : Pair) (s : St W) (q : Text)
      → resolve_reference v.vmx_path [] ds ≡ got q
      → ltb 0 v.id ≡ true
      → ((p : Pair) (t : St W)
          → Agrees
              (count_registered source target ds ws p t).0
              (before p.src (ids_at canon ds source ws))
              (before p.dst (ids_at canon ds target ws)))
      → Agrees
          (count_registered source target ds (v ∷ ws) known s).0
          (before known.src (ids_at canon ds source (v ∷ ws)))
          (before known.dst (ids_at canon ds target (v ∷ ws)))
  unfolding count_registered
  step-Agrees source target v ws known s q here pos k = rw here (
      rw (bind-ok (canonical_of v ds) _ s (canon q) (canonical_of-ok v q s here)) (
        claims-Agrees _ _ _ _ _ _ _ _
          (claim-Claimed (canon q ≟ source) v.id known.src _ (ids_at canon ds source ws) pos)
          (claim-Claimed (canon q ≟ target) v.id known.dst _ (ids_at canon ds target ws) pos)
          λ src dst. k (record { src = src; dst = dst }) _))

  count-Agrees :
      (source target : Text) (ws : List Vm) (known : Pair) (s : St W)
      → all (listed ds) ws ≡ true
      → Agrees
          (count_registered source target ds ws known s).0
          (before known.src (ids_at canon ds source ws))
          (before known.dst (ids_at canon ds target ws))
  unfolding count_registered pure
  count-Agrees source target [] known s h = (sole-before known.src, sole-before known.dst)
  count-Agrees source target (v ∷ ws) known s h =
      elim (Reply-cases (resolve_reference v.vmx_path [] ds)) [
        | inl (q, here) ↦
            step-Agrees source target v ws known s q here
              (and_left (ltb 0 v.id) _ (and_left (listed ds v) (all (listed ds) ws) h))
              (λ p t.
                count-Agrees source target ws p t (and_right (listed ds v) (all (listed ds) ws) h))
        | inr (e, gone) ↦ cc (
          and_right (ltb 0 v.id) (is_got (resolve_reference v.vmx_path [] ds))
              (and_left (listed ds v) (all (listed ds) ws) h),
          gone,
        )
      ]

  -- On a host that always reads the same machines, datastores and canonical paths, where every
  -- machine has a number and a path that is understood, the registrations are read as they are: the
  -- answer is the number of the only machine at each of the two paths, or 0 where there is none, and
  -- an error exactly if one of them has several.
  pub registrations-Agrees :
      (source target : Text) (s : St W)
      → all (listed ds) vs ≡ true
      → Agrees
          (registrations source target s).0
          (ids_at canon ds source vs)
          (ids_at canon ds target vs)
  unfolding registrations
  registrations-Agrees source target s h =
      rw (bind-ok (call Call.vms) _ s vs (call-ok Call.vms s vs (settled.vms s.world))) (
        rw
          (bind-ok (call Call.datastores) _ (call Call.vms s).1 ds (
            call-ok Call.datastores (call Call.vms s).1 ds
              (settled.datastores (call Call.vms s).1.world)))
          (count-Agrees source target vs (record { src = 0; dst = 0 }) _ h))
