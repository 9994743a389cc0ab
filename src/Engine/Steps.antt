-- ===== src/Engine/Steps.antt =====
-- The small steps of internal/migration/engine.go: the plan's comparison, the guard, the power
-- check, the registrations and their publication.
use esxi_mover.Prelude.{ℕ, Bool, true, List, [], ◌∷◌, ◌++◌, ◌&&◌, ltb, ◌==◌, if◌then◌else◌}
use esxi_mover.Prelude.Text.{Text, text, ◌≟◌, join}
use esxi_mover.Types.{
  Err, failure, Reply, got, check_that, is_off, Vm, Datastore, Check, is_block, Progress, Report,
}
use esxi_mover.Job.{State, Registration}
use esxi_mover.Host.{Call, Host, M, ◌>>=◌, ◌>>◌, pure, lift, require, call, update}
use esxi_mover.Esxi.Paths.{resolve_reference}

blocked_parts : List Check → List Text
unfolding is_block
blocked_parts [] = []
blocked_parts (c ∷ cs) =
    let rest = blocked_parts cs in
    if is_block c.status then (c.name ++ text ": " ++ c.detail) ∷ rest else rest

-- matchPlan.
unfoldable pub match_plan : Report → Report → Reply (Unit {0})
unfolding blocked_parts check_that join
match_plan before after =
    check_that after.ready
      (failure (text "preflight blocked: " ++ join (blocked_parts after.checks) (text "; ")))
      (check_that
        (before.fingerprint ≟ after.fingerprint
          && before.source_vmx ≟ after.source_vmx
          && before.target_vmx ≟ after.target_vmx)
        (failure (
          text
            "VM identity, configuration or disk dependency changed after Analyze; analyze again"))
        (got tt))

-- What the registrations of a host are: the numbers of the source and of the target, 0 for none.
pub record Pair : Type 0 where
  pub src : ℕ
  pub dst : ℕ

unfoldable pub claim : Bool → ℕ → ℕ → Err → Reply ℕ
unfolding check_that
claim hit id known e = if hit then check_that (known == 0) e (got id) else got known

module _ {W : Type 0} ⦃host : Host W⦄ where
  -- A fresh report that matches the plan. `inspect` begins with the identity and the request that
  -- it is given, and never changes them.
  unfoldable pub inspected : Report → Progress → M W Report
  unfolding match_plan
  inspected r done = do
    found ← call (Call.inspect r.request r.id done)
    let fresh = record found { id = r.id; request = r.request }
    lift (match_plan r fresh)
    pure fresh

  -- guard.
  unfoldable pub guard : Report → Bool → ℕ → M W Report
  guard r created consumed = do
    fresh ← inspected r (record { own_lock = true; target_created = created; consumed = consumed })
    require (is_off fresh.power)
        (failure (text "source VM is not powered off; no clone or commit is permitted"))
    pure fresh

  -- requireOff.
  unfoldable pub require_off : ℕ → M W (Unit {0})
  require_off id = do
    p ← call (Call.power id)
    require (is_off p) (failure (text "source VM must be Powered off"))

  -- The canonical path of a registered machine.
  unfoldable pub canonical_of : Vm → List Datastore → M W Text
  canonical_of v ds = do p ← lift (resolve_reference v.vmx_path [] ds); call (Call.canonical p)

  -- The loop of `registrations`.
  unfoldable pub count_registered : Text → Text → List Datastore → List Vm → Pair → M W Pair
  unfolding claim
  count_registered source target ds [] known = pure known
  count_registered source target ds (v ∷ vs) known = do
    p ← canonical_of v ds
    src ← lift (claim (p ≟ source) v.id known.src (failure (text "duplicate source registrations")))
    dst ← lift (claim (p ≟ target) v.id known.dst (failure (text "duplicate target registrations")))
    count_registered source target ds vs (record { src = src; dst = dst })

  -- registrations.
  unfoldable pub registrations : Text → Text → M W Pair
  registrations source target = do
    vms ← call Call.vms
    ds ← call Call.datastores
    count_registered source target ds vms (record { src = 0; dst = 0 })

-- What `publishRegistrations` writes.
unfoldable pub published : Pair → State → State
published p s = record s {
  source_registration =
      if ltb 0 p.src then Registration.registered else Registration.not_registered;
  target_registration =
      if ltb 0 p.dst then Registration.registered else Registration.not_registered;
  target_vmid = if ltb 0 p.dst then p.dst else s.target_vmid;
}

module _ {W : Type 0} ⦃host : Host W⦄ where
  unfoldable pub publish : Pair → M W (Unit {0})
  unfolding published
  publish p = update (published p)
