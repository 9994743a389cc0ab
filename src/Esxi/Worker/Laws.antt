-- ===== src/Esxi/Worker/Laws.antt =====
-- The numbers of a clone's status (`CloneStatus` of internal/esxi/detached.go).
use esxi_mover.Prelude.{
  ℕ, ◌≡◌, ◌≤◌, refl, ap, subst, Bool, true, false, Option, none, some, [], ◌∷◌, ◌||◌, leb, arith,
  if◌then◌else◌, Bool-cases, inl, inr,
}
use esxi_mover.Prelude.Text.{Text, text, ◌≟◌, to_lower}
use esxi_mover.Types.{Reply, got, lost}
use esxi_mover.Host.{CloneStatus}
use esxi_mover.Esxi.Shell.{Executor, Client}
use esxi_mover.Esxi.Shell.Says.{Says, Says-bind, Says-lift}
use esxi_mover.Esxi.Worker.{
  progress_at, progress_from, progress, first_line, exit_line, ended_status, alive_status,
  status_of, clone_status,
}

leb_le : (a b : ℕ) → leb a b ≡ true → a ≤ b
leb_le a b h = ground arith

shown_bound : (p n : ℕ) (b : Bool) → p ≤ 100 → leb n 100 ≡ b → (if b then n else p) ≤ 100
shown_bound p n true h e = leb_le n 100 e
shown_bound p n false h e = h

progress_from-bound : (p : ℕ) (s : Text) → p ≤ 100 → progress_from p s ≤ 100
unfolding progress_from
progress_from-bound p [] h = h
progress_from-bound p (c ∷ s) h =
    next_bound (progress_at (c ∷ s)) (progress_from-bound p s h)
      λ n. progress_from-bound (if leb n 100 then n else p) s (shown_bound p n (leb n 100) h refl)
  where
    next_bound :
        (o : Option ℕ)
        → progress_from p s ≤ 100
        → ((n : ℕ) → progress_from (if leb n 100 then n else p) s ≤ 100)
        → (elim o as (λ _. ℕ) [
          | none ↦ progress_from p s
          | some n ↦ progress_from (if leb n 100 then n else p) s
        ])
          ≤ 100
    next_bound none old new = old
    next_bound (some n) old new = new n

-- The progress that is shown is a percentage.
pub progress-bound : (s : Text) → progress s ≤ 100
unfolding progress
progress-bound s = progress_from-bound 0 (to_lower s) (omega arith)

abbrev pub InBounds : CloneStatus → Type 0
InBounds c = (c.progress ≤ 100) × (c.exit_code ≤ 255)

unfoldable status_value : CloneStatus → Reply CloneStatus → CloneStatus
status_value old (got c) = c
status_value old (lost e) = old

module _ (redact : Text → Text) (log : Text) (c : CloneStatus) where
  ended-bounds : (code : Option ℕ) → ended_status redact log code ≡ got c → InBounds c
  unfolding ended_status status_value
  ended-bounds none h = cc h
  ended-bounds (some n) h = elim (Bool-cases (leb n 255)) [
    | inl small ↦
        subst InBounds (ap (status_value c) (rw small at h))
          (progress-bound log, leb_le n 255 small)
    | inr large ↦ cc (rw large at h)
  ]

  alive-bounds : (line : Text) → alive_status redact line log ≡ got c → InBounds c
  unfolding alive_status status_value
  alive-bounds line h = elim (Bool-cases (line ≟ text "RUNNING" || line ≟ text "STARTING")) [
    | inl alive ↦
        subst InBounds (ap (status_value c) (rw alive at h)) (progress-bound log, omega arith)
    | inr other ↦ cc (rw other at h)
  ]

  status-bounds : (line : Text) → status_of redact line log ≡ got c → InBounds c
  unfolding status_of
  status-bounds line h = code_bounds (exit_line line) h
    where
      code_bounds :
          (o : Option (Option ℕ))
          → (elim o as (λ _. Reply CloneStatus) [
            | some code ↦ ended_status redact log code
            | none ↦ alive_status redact line log
          ])
            ≡ got c
          → InBounds c
      code_bounds (some code) g = ended-bounds code g
      code_bounds none g = alive-bounds line g

module _ {W : Type 0} ⦃executor : Executor W⦄ where
  clone_status-Says : (i : ℕ) → Says {W = W} InBounds (clone_status i)
  unfolding clone_status
  clone_status-Says i = Says-bind _ _ λ r.
      Says-lift _
        (λ c h. status-bounds executor.redact (first_line r.stdout).1 c (first_line r.stdout).0 h)

  -- Whatever the host prints, the status of a clone that is read from it has an exit code of at most
  -- 255 and a progress of at most 100.
  pub clone_status-bounds :
      (i : ℕ) (s : Client W) (c : CloneStatus) → (clone_status i s).0 ≡ got c → InBounds c
  clone_status-bounds i s c h = (clone_status-Says i).at s c h
