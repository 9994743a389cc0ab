-- ===== src/Engine/Registry/Readings.antt =====
-- What `registrations` of internal/migration/engine.go reads on a host whose answers may also be
-- lost, against what the list of machines holds.
use esxi_mover.Prelude.{
  ℕ, ◌≡◌, refl, sym, ap, subst, true, some, List, [], ◌∷◌, ltb, all, ◌∙◌, get_or, inl, inr,
}
use esxi_mover.Prelude.Text.{Text, ◌≟◌}
use esxi_mover.Types.{Reply, got, lost, Reply-cases, Vm, Datastore}
use esxi_mover.Host.{
  Call, Answer, Host, St, Res, ok, err, cut, M, after, of_reply, call, lift, pure, ◌>>=◌,
}
use esxi_mover.Host.Clock.{ok_got}
use esxi_mover.Esxi.Paths.{resolve_reference}
use esxi_mover.Engine.Steps.{Pair, canonical_of, count_registered, registrations}
use esxi_mover.Engine.Registry.{
  is_got, listed, ids_at, sole, before, Claimed, claim-Claimed, sole-before, and_left, and_right,
}

-- A host whose machines are in a list, and whose answers, where there are any, are right.
pub record Readable {W : Type 0} (host : Host W) (machines : W → List Vm) (ds : List Datastore)
    (canon : Text → Text) : Type 0 where
  pub vms : (w : W) (vs : List Vm) → (host.ask w Call.vms).0 ≡ got vs → vs ≡ machines w
  pub datastores : (w : W) (d : List Datastore) → (host.ask w Call.datastores).0 ≡ got d → d ≡ ds
  pub canonical : (w : W) (p q : Text) → (host.ask w (Call.canonical p)).0 ≡ got q → q ≡ canon p
  pub understood : (w : W) → all (listed ds) (machines w) ≡ true

-- The first of some machines, 0 where there is none.
abbrev pub first_of : List ℕ → ℕ
first_of [] = 0
first_of (n ∷ ns) = n

-- The machines that a list holds at two paths.
abbrev pub pair_at : (Text → Text) → List Datastore → Text → Text → List Vm → Pair
pair_at canon ds source target vs = record {
  src = first_of (ids_at canon ds source vs);
  dst = first_of (ids_at canon ds target vs);
}

abbrev Known : Res Pair → List ℕ → List ℕ → Type 0
Known (ok p) xs ys = (sole xs ≡ some p.src) × (sole ys ≡ some p.dst)
Known (err e) xs ys = Unit
Known cut xs ys = Unit

module _ {W : Type 0} (xs ys : List ℕ) where
  after-Known :
      {A : Type 0} (b : A) (f : A → M W Pair) (x : Res A × St W)
      → ((a : A) → x.0 ≡ ok a → a ≡ b)
      → ((t : St W) → Known (f b t).0 xs ys)
      → Known (after f x).0 xs ys
  unfolding after
  after-Known b f (ok a, t) right k = subst (λ c. Known (f c t).0 xs ys) (sym (right a refl)) (k t)
  after-Known b f (err e, t) right k = tt
  after-Known b f (cut, t) right k = tt

module _ {W : Type 0} where
  claims-Known :
      (x y : Reply ℕ) (f : ℕ → ℕ → M W Pair) (s : St W) (xs ys xs' ys' : List ℕ)
      → Claimed x xs xs'
      → Claimed y ys ys'
      → ((src dst : ℕ) → Known (f src dst s).0 (before src xs) (before dst ys))
      → Known ((lift x >>= λ src. (lift y >>= λ dst. f src dst)) s).0 xs' ys'
  unfolding lift of_reply ◌>>=◌ after
  claims-Known (got a) (got b) f s xs ys xs' ys' cx cy k =
      subst (λ l. Known (f a b s).0 l ys') cx
        (subst (λ l. Known (f a b s).0 (before a xs) l) cy (k a b))
  claims-Known (got a) (lost e) f s xs ys xs' ys' cx cy k = tt
  claims-Known (lost e) y f s xs ys xs' ys' cx cy k = tt

module _ {W : Type 0} ⦃host : Host W⦄ {machines : W → List Vm} {ds : List Datastore}
    {canon : Text → Text} (readable : Readable host machines ds canon) (source target : Text) where
  call_got :
      (c : Call) (s : St W) (a : Answer c) → (call c s).0 ≡ ok a → (host.ask s.world c).0 ≡ got a
  unfolding call
  call_got c s a h = ok_got (host.ask s.world c).0 a h

  canonical_of-right :
      (v : Vm) (q : Text) (s : St W) (c : Text)
      → resolve_reference v.vmx_path [] ds ≡ got q
      → (canonical_of v ds s).0 ≡ ok c
      → c ≡ canon q
  unfolding canonical_of lift of_reply ◌>>=◌ after
  canonical_of-right v q s c here h =
      readable.canonical s.world q c (call_got (Call.canonical q) s c (rw here at h))

  step-Known :
      (v : Vm) (ws : List Vm) (known : Pair) (s : St W) (q : Text)
      → resolve_reference v.vmx_path [] ds ≡ got q
      → ltb 0 v.id ≡ true
      → ((p : Pair) (t : St W)
          → Known
              (count_registered source target ds ws p t).0
              (before p.src (ids_at canon ds source ws))
              (before p.dst (ids_at canon ds target ws)))
      → Known
          (count_registered source target ds (v ∷ ws) known s).0
          (before known.src (ids_at canon ds source (v ∷ ws)))
          (before known.dst (ids_at canon ds target (v ∷ ws)))
  unfolding count_registered ◌>>=◌
  step-Known v ws known s q here pos k = rw here (
      after-Known _ _ (canon q) _ (canonical_of v ds s) (λ c h. canonical_of-right v q s c here h)
        λ t.
          claims-Known _ _ _ _ _ _ _ _
            (claim-Claimed (canon q ≟ source) v.id known.src _ (ids_at canon ds source ws) pos)
            (claim-Claimed (canon q ≟ target) v.id known.dst _ (ids_at canon ds target ws) pos)
            λ src dst. k (record { src = src; dst = dst }) _)

  count-Known :
      (ws : List Vm) (known : Pair) (s : St W)
      → all (listed ds) ws ≡ true
      → Known
          (count_registered source target ds ws known s).0
          (before known.src (ids_at canon ds source ws))
          (before known.dst (ids_at canon ds target ws))
  unfolding count_registered pure
  count-Known [] known s h = (sole-before known.src, sole-before known.dst)
  count-Known (v ∷ ws) known s h = elim (Reply-cases (resolve_reference v.vmx_path [] ds)) [
    | inl (q, here) ↦
        step-Known v ws known s q here
          (and_left (ltb 0 v.id) _ (and_left (listed ds v) (all (listed ds) ws) h))
          (λ p t. count-Known ws p t (and_right (listed ds v) (all (listed ds) ws) h))
    | inr (e, gone) ↦ cc (
      and_right (ltb 0 v.id) (is_got (resolve_reference v.vmx_path [] ds))
          (and_left (listed ds v) (all (listed ds) ws) h),
      gone,
    )
  ]

  read-Known :
      (s : St W)
      → Known
          (registrations source target s).0
          (ids_at canon ds source (machines s.world))
          (ids_at canon ds target (machines s.world))
  unfolding registrations ◌>>=◌
  read-Known s =
      after-Known _ _ (machines s.world) _ (call Call.vms s)
        (λ vs h. readable.vms s.world vs (call_got Call.vms s vs h))
        λ t.
          after-Known _ _ ds _ (call Call.datastores t)
            (λ d h. readable.datastores t.world d (call_got Call.datastores t d h))
            λ u.
              count-Known (machines s.world) (record { src = 0; dst = 0 }) u
                (readable.understood s.world)

  sole-first : (xs : List ℕ) (n : ℕ) → sole xs ≡ some n → n ≡ first_of xs
  sole-first [] n h = sym (ap (λ o. get_or o n) h)
  sole-first (m ∷ []) n h = sym (ap (λ o. get_or o n) h)
  sole-first (m ∷ k ∷ xs) n h = cc h

  known_pair :
      (vs : List Vm) (p : Pair)
      → (sole (ids_at canon ds source vs) ≡ some p.src)
        × (sole (ids_at canon ds target vs) ≡ some p.dst)
      → p ≡ pair_at canon ds source target vs
  known_pair vs p k =
      ap (λ n. record { src = n; dst = p.dst }) (sole-first (ids_at canon ds source vs) p.src (k.0))
      ∙ ap (λ n. record { src = first_of (ids_at canon ds source vs); dst = n })
          (sole-first (ids_at canon ds target vs) p.dst (k.1))

  -- The pair that is read is the one the list of machines holds, whatever replies are lost.
  pub registrations-right :
      (s : St W) (p : Pair)
      → (registrations source target s).0 ≡ ok p
      → p ≡ pair_at canon ds source target (machines s.world)
  registrations-right s p h = known_pair (machines s.world) p (
      subst
        (λ x.
          Known x (ids_at canon ds source (machines s.world))
            (ids_at canon ds target (machines s.world)))
        h (read-Known s))
