-- ===== src/Engine/Guard.antt =====
-- The guard of internal/migration/engine.go, and the report that the host answers.
use esxi_mover.Prelude.{ℕ, ◌≡◌, refl, sym, ap, Bool, Bool-cases, true, inl, inr, arith}
use esxi_mover.Prelude.Text.{≟_iff}
use esxi_mover.Types.{Err, Reply, got, lost, check_that, is_off, Progress, Report}
use esxi_mover.Host.{
  Call, Host, St, Res, ok, err, cut, after, of_reply, call, lift, pure, raise, require, ◌>>=◌, ◌>>◌,
}
use esxi_mover.Host.Clock.{ok_got}
use esxi_mover.Host.Outcome.{
  value_or, Ends, Ends-bind, Ends-pure, Ends-given, Ends-require, Ends-lift,
}
use esxi_mover.Engine.Steps.{match_plan, inspected, guard}

-- A report that is ready and names the same machine, configuration and files as the plan.
abbrev pub Matches : Report → Report → Type 0
Matches plan fresh =
    (fresh.ready ≡ true)
    × (plan.fingerprint ≡ fresh.fingerprint)
    × (plan.source_vmx ≡ fresh.source_vmx)
    × (plan.target_vmx ≡ fresh.target_vmx)

match_plan-Matches : (plan fresh : Report) → match_plan plan fresh ≡ got tt → Matches plan fresh
unfolding match_plan check_that
match_plan-Matches plan fresh h = ground (
  arith,
  ≟_iff plan.fingerprint fresh.fingerprint,
  ≟_iff plan.source_vmx fresh.source_vmx,
  ≟_iff plan.target_vmx fresh.target_vmx,
)

module _ {W : Type 0} ⦃host : Host W⦄ where
  inspected-Matches :
      (r : Report) (done : Progress) → Ends {W = W} (λ fresh s. Matches r fresh) (inspected r done)
  unfolding inspected
  inspected-Matches r done = Ends-bind _ _ λ found. Ends-lift _ _ λ same.
      Ends-pure _ (λ s. match_plan-Matches r (record found { id = r.id; request = r.request }) same)

  -- The answer of the host to the analysis that a guard asks for, under the identity of the plan.
  abbrev pub Answered : Report → Bool → ℕ → St W → Report → Type 0
  Answered r created consumed s fresh =
      (found : Report) × ((host.ask s.world (
          Call.inspect r.request r.id
            (record { own_lock = true; target_created = created; consumed = consumed }))).0
        ≡ got found)
      × (fresh ≡ record found { id = r.id; request = r.request })

  after_inspect :
      (r : Report) (x : Res Report × St W) (fresh : Report)
      → (after
          (λ found.
            (lift (match_plan r (record found { id = r.id; request = r.request }))
              >> pure (record found { id = r.id; request = r.request })))
          x).0
        ≡ ok fresh
      → (found : Report) × (x.0 ≡ ok found)
        × (fresh ≡ record found { id = r.id; request = r.request })
  unfolding after ◌>>◌ ◌>>=◌ lift of_reply pure value_or
  after_inspect r (ok found, s) fresh h = (found, refl, matched (match_plan r _) h)
    where
      matched :
          (y : Reply (Unit {0}))
          → (after (λ u. pure (record found { id = r.id; request = r.request })) (of_reply y, s)).0
            ≡ ok fresh
          → fresh ≡ record found { id = r.id; request = r.request }
      matched (got u) k = sym (ap (value_or fresh) k)
      matched (lost e) k = cc k
  after_inspect r (err e, s) fresh h = cc h
  after_inspect r (cut, s) fresh h = cc h

  inspected-Answered :
      (r : Report) (created : Bool) (consumed : ℕ) (s : St W) (fresh : Report)
      → (inspected r
          (record { own_lock = true; target_created = created; consumed = consumed })
          s).0
        ≡ ok fresh
      → Answered r created consumed s fresh
  unfolding inspected call ◌>>=◌
  inspected-Answered r created consumed s fresh h =
      let x = after_inspect r _ fresh h in (x.0, ok_got _ _ (x.1), x.2)

  passed :
      (x : Res Report × St W) (fresh : Report) (e : Err)
      → (after (λ f. (require (is_off f.power) e >> pure f)) x).0 ≡ ok fresh
      → x.0 ≡ ok fresh
  unfolding after require ◌>>◌ ◌>>=◌ pure raise value_or
  passed (ok f, s) fresh e h = elim (Bool-cases (is_off f.power)) [
    | inl off ↦ rw off at h
    | inr other ↦ cc (rw other at h)
  ]
  passed (err e', s) fresh e h = cc h
  passed (cut, s) fresh e h = cc h

  guard-Answered :
      (r : Report) (created : Bool) (consumed : ℕ) (s : St W) (fresh : Report)
      → (guard r created consumed s).0 ≡ ok fresh
      → Answered r created consumed s fresh
  unfolding guard ◌>>=◌
  guard-Answered r created consumed s fresh h =
      inspected-Answered r created consumed s fresh (passed _ fresh _ h)

  guard-Ends :
      (r : Report) (created : Bool) (consumed : ℕ)
      → Ends {W = W}
          (λ fresh s. Matches r fresh × (is_off fresh.power ≡ true))
          (guard r created consumed)
  unfolding guard
  guard-Ends r created consumed =
      Ends-given (Matches r) _ _ (inspected-Matches r _)
        λ fresh same. Ends-require _ _ _ λ off. Ends-pure _ (λ s. (same, off))

  -- A guard that passes returns the report that the host answers, when it is asked for the analysis of
  -- the plan's request, under the plan's identity and request; in it nothing is blocked, the machine
  -- is off, and the fingerprint and the two configuration files are those of the plan.
  pub guard-Matches :
      (r : Report) (created : Bool) (consumed : ℕ) (s : St W) (fresh : Report)
      → (guard r created consumed s).0 ≡ ok fresh
      → Answered r created consumed s fresh × Matches r fresh × (is_off fresh.power ≡ true)
  guard-Matches r created consumed s fresh h =
      let e = (guard-Ends r created consumed).at s fresh h in
      (guard-Answered r created consumed s fresh h, e.0, e.1)
