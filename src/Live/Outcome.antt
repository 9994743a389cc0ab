-- ===== src/Live/Outcome.antt =====
-- What a live migration always ends with (`runLive` of internal/migration/live.go).
use esxi_mover.Prelude.{◌≡◌, true}
use esxi_mover.Prelude.Text.{Text}
use esxi_mover.Host.{Host, St}

abbrev Complete : {W A : Type 0} → A → St W → Type 0
Complete a s = s.job.state.complete ≡ true
