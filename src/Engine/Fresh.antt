-- ===== src/Engine/Fresh.antt =====
-- The request of a fresh report (internal/migration/engine.go).
use esxi_mover.Prelude.{ℕ, ◌≡◌, refl, Bool, false}
use esxi_mover.Types.{Progress, Options, Report}
use esxi_mover.Host.{Host}
use esxi_mover.Host.Outcome.{Ends, Ends-bind, Ends-then, Ends-pure, Ends-given}
use esxi_mover.Engine.Steps.{inspected, guard}
use esxi_mover.Engine.Run.{prepare}

module _ {W : Type 0} ⦃host : Host W⦄ where
  inspected-request :
      (r : Report) (done : Progress)
      → Ends {W = W} (λ fresh s. fresh.request ≡ r.request) (inspected r done)
  unfolding inspected
  inspected-request r done = Ends-bind _ _ λ found. Ends-then _ _ (Ends-pure _ (λ s. refl))

  guard-request :
      (r : Report) (created : Bool) (consumed : ℕ)
      → Ends {W = W} (λ fresh s. fresh.request ≡ r.request) (guard r created consumed)
  unfolding guard
  guard-request r created consumed =
      Ends-given (λ fresh. fresh.request ≡ r.request) _ _ (inspected-request r _)
        λ fresh same. Ends-then _ _ (Ends-pure _ (λ s. same))

  -- So does the report that the preparations end with.
  pub prepare-request :
      (o : Options) (fuel : ℕ) (r : Report)
      → Ends {W = W} (λ cold s. cold.request ≡ r.request) (prepare o fuel r)
  unfolding prepare
  prepare-request o fuel r = Ends-then _ _ (
      Ends-then _ _ (
        Ends-bind _ _
          λ first. Ends-then _ _ (Ends-bind _ _ λ fresh. Ends-then _ _ (guard-request r false 0))))
