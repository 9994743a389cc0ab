-- ===== src/Tests.antt =====
-- A small host and a small migration, the runs of the model on them, and the theorems applied there.
pub mod Live
pub mod Esxi
pub mod Analyzer
pub mod Switch
use esxi_mover.Prelude.{
  ℕ, suc, ◌+◌, ◌*◌, ◌^◌, ◌≤◌, ◌<◌, ◌≡◌, ◌≢◌, refl, sym, ap, Bool, true, false, none, some, List, [],
  ◌∷◌, ◌⊎◌, All, all, length, arith,
}
use esxi_mover.Prelude.Text.{Text, text, contains_any, ◌≟◌, is_some}
use esxi_mover.Prelude.Path.{path_join}
use esxi_mover.Prelude.Dict.{put, value}
use esxi_mover.Types.{
  Err, is_stopped, Descriptor, Options, Reply, check_that, is_off, stopped, failure, got, lost, off,
  copy, move, Vm, Datastore, Request, Disk, Report, default_options, is_move,
}
use esxi_mover.Job.{
  Job, Phase, Action, new_job, control, request_stop, proceed, is_awaiting, set_phase, stoppable,
}
use esxi_mover.Host.{
  Call, Answer, Host, St, err, call, lift, require, of_reply, pure, deliver, try, caught, get_job,
  now, modify, update, ◌>>=◌, ◌>>◌, after,
}
use esxi_mover.Host.Trace.{Always, is_switch, WhenOff}
use esxi_mover.Engine.Run.{run_cold}
use esxi_mover.Engine.Commit.{commit}
use esxi_mover.Engine.Rollback.{rollback}
use esxi_mover.Engine.Steps.{guard, inspected, match_plan}
use esxi_mover.Engine.Guard.{Answered, Matches, guard-Matches}
use esxi_mover.Engine.Rollback.Power.{rollback-proved_off}
use esxi_mover.Engine.Clone.{
  wait_clone, clone_loop, clone_round, observed, show, ended, mark_unknown, show_status, exit_of,
  full_progress, stop_and_pause, on_next,
}
use esxi_mover.Engine.Clone.Exits.{exited_clean, wait_clone-exited}
use esxi_mover.Host.Sound.{Foreign}
use esxi_mover.Live.Quiet.{Quiet}
use esxi_mover.Engine.Quiet.{run_cold-Quiet}
use esxi_mover.Engine.Copy.{run_cold-copies}
use esxi_mover.Engine.Power.{run_cold-proved_off}
use esxi_mover.Job.Laws.{proceed-request_stop, request_stop-proceed, control-Refused, control-force}
use esxi_mover.Esxi.Paths.{datastore_of, usable}
use esxi_mover.Esxi.Audit.{Entry, add}
use esxi_mover.Esxi.Audit.Laws.{total, add-bound, total-add}
use esxi_mover.Live.Space.{delta_free, reserve}
use esxi_mover.Live.Space.Laws.{Holds, delta_free_sound, reserve_bounds}
use esxi_mover.Vmdk.{max_int64}
use esxi_mover.Vmdk
use esxi_mover.Vmdk.Laws.{IsSized, parse-IsSized}
use esxi_mover.Vmx.Escape.{encode, decode, valid_utf8, quote_free, decode-encode, encode-quote_free}

-- The machine of the tests: the files it has, and its clock.
pub record Machine : Type 0 where
  pub files : List (Text × Text)
  pub time : ℕ

abbrev pub plain_vm : Vm
plain_vm = record {
  id = 7;
  name = text "web";
  datastore = text "ssd";
  vmx_path = text "[ssd] web/web.vmx";
}

abbrev plain_descriptor : Text
plain_descriptor =
    text
      "version=1\nCID=0000abcd\nparentCID=ffffffff\ncreateType=\"vmfs\"\nRW 2048 VMFS \"web-flat.vmdk\"\nddb.thinProvisioned = \"1\"\n"

abbrev plain_disk : Disk
plain_disk = record {
  key = text "scsi0:0.filename";
  source = text "/vmfs/volumes/a1/web/web.vmdk";
  target = text "/vmfs/volumes/b2/web/web.vmdk";
  extent = text "/vmfs/volumes/a1/web/web-flat.vmdk";
  provisioned = 2048 * 512;
  allocated = 2048 * 512;
  allocation_known = true;
  thin = true;
  descriptor = record {
    cid = text "0000abcd";
    parent_cid = text "ffffffff";
    parent_hint = [];
    create_type = text "vmfs";
    extents = [];
    thin = true;
    bytes = 2048 * 512;
    fields = [];
  };
  external = false;
}

abbrev pub plain_request : Request
plain_request = record {
  vm_id = 7;
  target_uuid = text "b2";
  mode = copy;
  power_on = false;
  target_name = [];
  live = false;
  bring_disks = false;
}

abbrev pub plain_report : Report
plain_report = record {
  id = text "job00001";
  request = plain_request;
  vm = plain_vm;
  source_vmx = text "/vmfs/volumes/a1/web/web.vmx";
  source_dir = text "/vmfs/volumes/a1/web";
  source_datastore = text "a1";
  target_dir = text "/vmfs/volumes/b2/web";
  target_vmx = text "/vmfs/volumes/b2/web/web.vmx";
  fingerprint = text "f";
  power = off;
  disks = plain_disk ∷ [];
  config_files = [];
  target_free = 2 ^ 40;
  required = 2 ^ 30;
  provisioned = 0;
  allocated = 0;
  autostart = 0;
  ready = true;
  checks = [];
  config = [];
  target_config =
      (text "displayname", text "web")
      ∷ (text "scsi0:0.filename", text "web.vmdk")
      ∷ (text "scsi0:0.present", text "TRUE")
      ∷ [];
}

abbrev pub move_report : Report
move_report = record plain_report { request = record plain_request { mode = move } }

abbrev pub plain_store : Datastore
plain_store = record {
  name = text "ssd";
  uuid = text "a1";
  mount = text "/vmfs/volumes/a1";
  kind = text "VMFS-6";
  mounted = true;
  size = 2 ^ 40;
  free = 2 ^ 35;
}

-- What the machine answers: it is off, it takes every command, and it keeps what is written.
abbrev pub answer_of : Report → Machine → (c : Call) → Answer c
answer_of r w (Call.inspect request id done) = record r { request = request }
answer_of r w Call.vms = plain_vm ∷ []
answer_of r w Call.datastores = plain_store ∷ []
answer_of r w (Call.read_file p) = value w.files p
answer_of r w (Call.canonical p) = p
answer_of r w (Call.exists p) = true
answer_of r w (Call.size p) = 2048 * 512
answer_of r w (Call.list_folder p) = []
answer_of r w (Call.power id) = off
answer_of r w (Call.snapshot id) = []
answer_of r w (Call.message id) = []
answer_of r w (Call.register p) = 8
answer_of r w (Call.clone_status i) = record {
  finished = true;
  alive = false;
  exit_code = 0;
  progress = 100;
  log = [];
}
answer_of r w _ = tt

abbrev pub files_after : Machine → Call → List (Text × Text)
files_after w (Call.write_target d n c) = put w.files (path_join d n) c
files_after w _ = w.files

abbrev machine_after : Machine → Call → Machine
machine_after w c = record { files = files_after w c; time = w.time + 1 }

abbrev pub plain_host : Report → Host Machine
plain_host r = record {
  ask = λ w c. (got (answer_of r w c), machine_after w c);
  clock = λ w. w.time;
  requests = λ w. [];
  moved_answer = λ m. lost (failure []);
}

abbrev pub start : Report → St Machine
start r = record {
  job = new_job r 0;
  world = record {
    files = (text "/vmfs/volumes/b2/web/web.vmdk", plain_descriptor) ∷ [];
    time = 0;
  };
  trace = [];
}

run_cold-copies_example :
    Always
      (λ c t. is_switch c ≡ false)
      (run_cold ⦃host = plain_host plain_report⦄ default_options 5 (start plain_report)).1
unfolding new_job is_move
run_cold-copies_example =
    run_cold-copies ⦃host = plain_host plain_report⦄ default_options 5 (start plain_report) refl
      refl

run_cold-proved_off_example :
    Always WhenOff
      (run_cold ⦃host = plain_host move_report⦄ default_options 5 (start move_report)).1
run_cold-proved_off_example =
    run_cold-proved_off ⦃host = plain_host move_report⦄ default_options 5 (start move_report) refl

abbrev lost_answer : (c : Call) → Reply (Answer c) → Reply (Answer c)
lost_answer (Call.clone_status i) r = lost (failure (text "no route to host"))
lost_answer c r = r

-- The same host, but it does not answer for its clones.
abbrev lost_host : Report → Host Machine
lost_host r = record {
  ask = λ w c. (lost_answer c (got (answer_of r w c)), machine_after w c);
  clock = λ w. w.time;
  requests = λ w. [];
  moved_answer = λ m. lost (failure []);
}

abbrev pub short_options : Options
short_options = record {
  shutdown_timeout = 10;
  poll_interval = 1;
  disconnect_timeout = 3;
  clone_timeout = 100;
  power_on_timeout = 10;
  appliance_uuid = [];
}

abbrev is_stop : {A : Type 0} → Reply A → Bool
is_stop (got a) = false
is_stop (lost e) = is_stopped e

lost_answer-Foreign :
    (c : Call) (a : Answer c) (e : Err) → lost_answer c (got a) ≡ lost e → is_stopped e ≡ false
unfolding is_stopped
lost_answer-Foreign (Call.clone_status i) a e h = ap is_stop (sym h)
lost_answer-Foreign _ a e h = cc h

lost_host-Foreign : Foreign (lost_host plain_report)
lost_host-Foreign = record {
  at = λ w c e h. lost_answer-Foreign c (answer_of plain_report w c) e h;
}

run_cold-Quiet_example :
    Always Quiet (run_cold ⦃host = lost_host plain_report⦄ short_options 9 (start plain_report)).1
unfolding new_job
run_cold-Quiet_example =
    run_cold-Quiet ⦃host = lost_host plain_report⦄ lost_host-Foreign short_options 9
      (start plain_report) refl

abbrev plain_job : Job
plain_job = new_job plain_report 0

abbrev waiting_job : Job
waiting_job = record plain_job {
  state = set_phase Phase.awaiting_shutdown (text "Shutdown is taking a while") plain_job.state;
}

proceed-request_stop_example :
    proceed Phase.verifying_config (text "copying") 9 (request_stop true plain_job).1
    ≡ (some stopped, (request_stop true plain_job).1)
unfolding new_job request_stop stoppable
proceed-request_stop_example =
    proceed-request_stop true plain_job Phase.verifying_config (text "copying") 9 refl

request_stop-proceed_example :
    ((request_stop true (proceed Phase.commit (text "switching") 9 plain_job).1).0 ≢ none)
    × ((request_stop true (proceed Phase.commit (text "switching") 9 plain_job).1).1
        ≡ (proceed Phase.commit (text "switching") 9 plain_job).1)
unfolding new_job proceed
request_stop-proceed_example =
    request_stop-proceed true plain_job Phase.commit (text "switching") 9 refl

control-Refused_example :
    ((control Action.force false waiting_job).0 ≡ none)
    ⊎ ((control Action.force false waiting_job).1 ≡ waiting_job)
control-Refused_example = control-Refused Action.force false waiting_job

control-force_example :
    (true ≡ true)
    × (is_awaiting waiting_job.state.phase ≡ true)
    × (waiting_job.actions ≡ none)
    × ((control Action.force true waiting_job).1.actions ≡ some Action.force)
unfolding new_job set_phase control is_awaiting
control-force_example = control-force true waiting_job refl

abbrev plain_entry : Entry
plain_entry = record {
  time = 5;
  category = text "datastores";
  command = text "esxcli storage filesystem list";
  duration = 12;
  exit_code = 0;
  error = [];
  runs = 1;
}

add-bound_example : length (add plain_entry (plain_entry ∷ [])) ≤ 500
add-bound_example = add-bound plain_entry (plain_entry ∷ []) (omega arith)

total-add_example : total (add plain_entry (plain_entry ∷ [])) ≡ suc (total (plain_entry ∷ []))
total-add_example = total-add plain_entry (plain_entry ∷ []) (omega arith)

reserve_bounds_example :
    (1000 * 115 + 2 ^ 30 * 100 < 1073742974 * 100 + 1500)
    × (1073742974 * 100 ≤ 1000 * 115 + 2 ^ 30 * 100)
    × (1073742974 ≤ max_int64)
unfolding reserve
reserve_bounds_example = reserve_bounds 1000 1073742974 refl

delta_free_sound_example :
    All (Holds (plain_store ∷ []) (2 ^ 35)) (text "/vmfs/volumes/a1/web/web.vmx" ∷ [])
unfolding delta_free datastore_of usable
delta_free_sound_example =
    delta_free_sound (plain_store ∷ []) (2 ^ 35) (text "/vmfs/volumes/a1/web/web.vmx" ∷ []) refl

decode-encode_example : decode (encode (195 ∷ 169 ∷ 34 ∷ [])) ≡ got (195 ∷ 169 ∷ 34 ∷ [])
unfolding valid_utf8 contains_any
decode-encode_example =
    decode-encode (195 ∷ 169 ∷ 34 ∷ []) (omega arith, (omega arith, (omega arith, tt))) refl refl

encode-quote_free_example : all quote_free (encode (34 ∷ 10 ∷ 65 ∷ [])) ≡ true
encode-quote_free_example =
    encode-quote_free (34 ∷ 10 ∷ 65 ∷ []) (omega arith, (omega arith, (omega arith, tt)))

guard-Matches_example :
    Answered ⦃host = plain_host plain_report⦄ plain_report true 0 (start plain_report) plain_report
    × Matches plain_report plain_report
    × (is_off plain_report.power ≡ true)
unfolding guard inspected call lift require match_plan check_that is_off ◌≟◌ of_reply pure deliver
    ◌>>=◌ ◌>>◌ after text
guard-Matches_example =
    guard-Matches ⦃host = plain_host plain_report⦄ plain_report true 0 (start plain_report)
      plain_report refl

-- The target that a failed switch left registered.
abbrev target_vm : Vm
target_vm = record plain_vm { id = 8; vmx_path = text "/vmfs/volumes/b2/web/web.vmx" }

abbrev target_answer : (c : Call) → Answer c → Answer c
target_answer Call.vms a = target_vm ∷ []
target_answer c a = a

abbrev target_host : Host Machine
target_host = record (plain_host move_report) {
  ask = λ w c. (got (target_answer c (answer_of move_report w c)), machine_after w c);
}

abbrev failed_start : St Machine
failed_start = record (start move_report) {
  job = record (new_job move_report 0) {
    state = record ((new_job move_report 0).state) {
      phase = Phase.failed;
      complete = true;
      can_rollback = true;
      target_vmid = 8;
    };
  };
}

rollback-proved_off_example :
    Always WhenOff (rollback ⦃host = target_host⦄ move_report failed_start).1
rollback-proved_off_example = rollback-proved_off ⦃host = target_host⦄ move_report failed_start tt

abbrev parsed_descriptor : Descriptor
parsed_descriptor = record {
  cid = text "0000abcd";
  parent_cid = text "ffffffff";
  parent_hint = [];
  create_type = text "vmfs";
  extents = record { sectors = 2048; kind = text "VMFS"; file = text "web-flat.vmdk" } ∷ [];
  thin = true;
  bytes = 1048576;
  fields =
      (text "version", text "1")
      ∷ (text "cid", text "0000abcd")
      ∷ (text "parentcid", text "ffffffff")
      ∷ (text "createtype", text "vmfs")
      ∷ (text "ddb.thinprovisioned", text "1")
      ∷ [];
}

parse-IsSized_example : IsSized parsed_descriptor
unfolding text Vmdk.parse ◌≟◌
parse-IsSized_example = parse-IsSized plain_descriptor parsed_descriptor refl

wait_clone-exited_example :
    exited_clean 0
      (wait_clone ⦃host = plain_host plain_report⦄ default_options plain_report 0 2
        (start plain_report)).1.trace
    ≡ true
unfolding wait_clone clone_loop clone_round observed show ended mark_unknown show_status exit_of
    full_progress stop_and_pause on_next default_options new_job call try caught of_reply pure
    deliver get_job now modify update after ◌>>=◌ ◌>>◌ is_some
wait_clone-exited_example =
    wait_clone-exited ⦃host = plain_host plain_report⦄ default_options plain_report 0 2
      (start plain_report) (record { exited = true; error = none }) refl refl
