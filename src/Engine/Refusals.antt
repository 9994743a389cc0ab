-- ===== src/Engine/Refusals.antt =====
-- How a cold migration ends (`Run` of internal/migration/engine.go).
use esxi_mover.Prelude.{◌≡◌, true}
use esxi_mover.Prelude.Text.{Text}
use esxi_mover.Host.{Host, St, Res, ok, err, cut}

-- How a run may end: with a value, and then its job is complete, or cut off, but not with an error.
abbrev pub Over : {W : Type 0} → Res (Unit {0}) × St W → Type 0
Over (ok tt, s) = s.job.state.complete ≡ true
Over (err e, s) = ⊥
Over (cut, s) = Unit
