-- ===== src/Tests/Switch.antt =====
-- A host whose inventory changes, and the switch of the registrations on it.
use esxi_mover.Prelude.{
  ℕ, zero, suc, ◌≡◌, refl, sym, ap, ◌==◌, Bool, true, false, List, [], ◌∷◌, all, ltb, arith, inr,
  if◌then◌else◌,
}
use esxi_mover.Prelude.Text.{text, ◌≟◌}
use esxi_mover.Types.{Reply, got, lost, failure, off, Vm, Datastore}
use esxi_mover.Job.{new_job}
use esxi_mover.Host.{Call, Answer, Host, St}
use esxi_mover.Host.Frame.{is_read}
use esxi_mover.Esxi.Paths.{resolve_reference}
use esxi_mover.Engine.Steps.{Pair}
use esxi_mover.Engine.Commit.{commit}
use esxi_mover.Engine.Registry.{listed}
use esxi_mover.Engine.Registry.Readings.{Readable, pair_at}
use esxi_mover.Engine.Switch.{Inventory, Holds, commit-Holds}
use esxi_mover.Tests.{plain_vm, plain_store, move_report}

abbrev target_store : Datastore
target_store = record plain_store {
  name = text "nas";
  uuid = text "b2";
  mount = text "/vmfs/volumes/b2";
}

abbrev at_source : ℕ → List Vm → List Vm
at_source zero vs = vs
at_source (suc n) vs = record plain_vm { id = suc n } ∷ vs

abbrev at_target : ℕ → List Vm
at_target zero = []
at_target (suc n) = record plain_vm { id = suc n; vmx_path = text "[nas] web/web.vmx" } ∷ []

abbrev answer_of : Pair → (c : Call) → Answer c
answer_of w (Call.inspect request id done) = move_report
answer_of w Call.vms = at_source w.src (at_target w.dst)
answer_of w Call.datastores = plain_store ∷ target_store ∷ []
answer_of w (Call.read_file p) = []
answer_of w (Call.canonical p) = p
answer_of w (Call.exists p) = true
answer_of w (Call.size p) = 0
answer_of w (Call.list_folder p) = []
answer_of w (Call.power id) = off
answer_of w (Call.snapshot id) = []
answer_of w (Call.message id) = []
answer_of w (Call.register p) = 8
answer_of w (Call.clone_status i) = record {
  finished = true;
  alive = false;
  exit_code = 0;
  progress = 100;
  log = [];
}
answer_of w _ = tt

abbrev without : ℕ → ℕ → ℕ
without id n = if n == id then 0 else n

abbrev registered : Pair → Bool → Pair
registered w true = record { src = w.src; dst = 8 }
registered w false = record { src = 9; dst = w.dst }

abbrev pair_after : Pair → Call → Pair
pair_after w (Call.unregister id) = record { src = without id w.src; dst = without id w.dst }
pair_after w (Call.register p) = registered w (p ≟ move_report.target_vmx)
pair_after w _ = w

abbrev site : Host Pair
site = record {
  ask = λ w c. (got (answer_of w c), pair_after w c);
  clock = λ w. 0;
  requests = λ w. [];
  moved_answer = λ m. lost (failure []);
}

without_zero : (id n : ℕ) → n ≡ 0 → without id n ≡ 0
without_zero id n h = absent (n == id)
  where
    absent : (b : Bool) → (if b then 0 else n) ≡ 0
    absent true = refl
    absent false = h

abbrev reply_or : {A : Type 0} → A → Reply A → A
reply_or a (got b) = b
reply_or a (lost e) = a

read-after : (w : Pair) (c : Call) → is_read c ≡ true → pair_after w c ≡ w
read-after w (Call.unregister id) h = cc h
read-after w (Call.register p) h = cc h
read-after w _ h = refl

abbrev site_stores : List Datastore
site_stores = plain_store ∷ target_store ∷ []

abbrev site_machines : Pair → List Vm
site_machines w = at_source w.src (at_target w.dst)

positive : (n : ℕ) → ltb 0 (suc n) ≡ true
positive n = ground arith

site-listed : (w : Pair) → all (listed site_stores) (site_machines w) ≡ true
unfolding resolve_reference text
site-listed w = listed_at w.src w.dst
  where
    listed_at : (a b : ℕ) → all (listed site_stores) (at_source a (at_target b)) ≡ true
    listed_at zero zero = refl
    listed_at zero (suc b) = rw (positive b) refl
    listed_at (suc a) zero = rw (positive a) refl
    listed_at (suc a) (suc b) = rw (positive a) (rw (positive b) refl)

site-Readable : Readable site site_machines site_stores (λ p. p)
site-Readable = record {
  vms = λ w vs h. sym (ap (reply_or vs) h);
  datastores = λ w d h. sym (ap (reply_or d) h);
  canonical = λ w p q h. sym (ap (reply_or q) h);
  understood = site-listed;
}

site_views :
    (w : Pair)
    → w
      ≡ pair_at (λ p. p) site_stores move_report.source_vmx move_report.target_vmx (site_machines w)
unfolding resolve_reference text ◌≟◌
site_views w = view_at w.src w.dst
  where
    view_at :
        (a b : ℕ)
        → record { src = a; dst = b }
          ≡ pair_at
              (λ p. p)
              site_stores
              move_report.source_vmx
              move_report.target_vmx
              (site_machines (record { src = a; dst = b }))
    view_at zero zero = refl
    view_at zero (suc b) = refl
    view_at (suc a) zero = refl
    view_at (suc a) (suc b) = refl

site-Inventory : Inventory site move_report site_machines site_stores (λ p. p) (λ w. w)
unfolding text ◌≟◌
site-Inventory = record {
  views = site_views;
  readable = site-Readable;
  reads = read-after;
  unregisters = λ w id. (without_zero id w.src, without_zero id w.dst);
  registers_target = λ w. refl;
  registers_source = λ w. refl;
}

-- The source is registered, and the target was verified.
abbrev ready : St Pair
ready = record {
  job = record (new_job move_report 0) {
    state = record (new_job move_report 0).state { target_verified = true };
  };
  world = record { src = 7; dst = 0 };
  trace = [];
}

commit-Holds_example :
    Holds
      (commit ⦃host = site⦄ move_report ready).0
      (commit ⦃host = site⦄ move_report ready).1.world
commit-Holds_example = commit-Holds ⦃host = site⦄ site-Inventory ready (inr refl)
