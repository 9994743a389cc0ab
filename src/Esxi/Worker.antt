-- ===== src/Esxi/Worker.antt =====
-- The detached worker of a clone, of internal/esxi/detached.go: its launch, the stop of its clone,
-- and its status.
pub mod Laws
use esxi_mover.Prelude.{
  ℕ, zero, suc, ◌+◌, ◌*◌, ◌-◌, Bool, true, false, Option, none, some, List, [], ◌∷◌, ◌++◌, ◌&&◌,
  ◌||◌, not, leb, ltb, ◌==◌, if◌then◌else◌, length,
}
use esxi_mover.Prelude.Text.{
  Text, text, ◌≟◌, decimal, trim_space, cut_prefix, has_prefix, to_lower, cut, is_space,
}
use esxi_mover.Prelude.Path.{dir, ext}
use esxi_mover.Types.{failure, Reply, got, lost}
use esxi_mover.Host.{CloneStatus}
use esxi_mover.Esxi.Numbers.{natural}
use esxi_mover.Esxi.Quoting.{quote, argv}
use esxi_mover.Esxi.Operation.{active_dir, is_job_id, execute, check_target, require_owner}
use esxi_mover.Esxi.Shell.{Executor, C, ◌>>=◌, ◌>>◌, pure, lift, require, run}

is_digit : ℕ → Bool
is_digit c = leb 48 c && leb c 57

-- The white space of a pattern.
is_blank : ℕ → Bool
is_blank c = c == 32 || c == 9 || c == 10 || c == 12 || c == 13

skip_spaces : Text → Text
unfolding is_blank
skip_spaces [] = []
skip_spaces (c ∷ s) = let rest = skip_spaces s in if is_blank c then rest else c ∷ s

-- At most `n` digits: their value, and what follows.
take_digits : ℕ → ℕ → Text → ℕ × Text
unfolding is_digit
take_digits zero value s = (value, s)
take_digits (suc n) value [] = (value, [])
take_digits (suc n) value (c ∷ s) =
    let more = take_digits n (value * 10 + (c - 48)) s in
    if is_digit c then more else (value, c ∷ s)

skip_digits : Text → Text
unfolding is_digit
skip_digits [] = []
skip_digits (c ∷ s) = let rest = skip_digits s in if is_digit c then rest else c ∷ s

starts_digit : Text → Bool
unfolding is_digit
starts_digit [] = false
starts_digit (c ∷ s) = is_digit c

-- An optional fraction.
skip_fraction : Text → Text
unfolding starts_digit skip_digits
skip_fraction [] = []
skip_fraction (c ∷ s) = if c == b'.' && starts_digit s then skip_digits s else c ∷ s

-- The rest of a match of progressPattern after its number.
is_done : Text → Bool
unfolding skip_spaces skip_fraction has_prefix text
is_done s = elim (skip_fraction s) [
  | [] ↦ false
  | c ∷ rest ↦ c == b'%' && has_prefix (skip_spaces rest) (text "done")
]

-- progressPattern at this place, in a text of small letters: the number that it captures.
unfoldable progress_at : Text → Option ℕ
unfolding cut_prefix skip_spaces take_digits starts_digit is_done text
progress_at s = elim (cut_prefix s (text "clone:")) [
  | none ↦ none
  | some rest ↦
      let t = skip_spaces rest in
      let (n, after) = take_digits 3 0 t in if starts_digit t && is_done after then some n else none
]

-- The last number up to 100; two matches cannot overlap, since each begins with its only colon.
unfoldable progress_from : ℕ → Text → ℕ
unfolding progress_at
progress_from p [] = p
progress_from p (c ∷ s) = elim (progress_at (c ∷ s)) [
  | none ↦ progress_from p s
  | some n ↦ progress_from (if leb n 100 then n else p) s
]

-- Progress.
unfoldable pub progress : Text → ℕ
unfolding progress_from to_lower
progress s = progress_from 0 (to_lower s)

-- The files of a clone.
unfoldable pub disk_prefix : ℕ → Text
unfolding active_dir decimal
disk_prefix i = active_dir ++ text "/disk-" ++ decimal i

-- The script that clones, records its process and waits for it.
unfoldable pub clone_script : ℕ → Text → Text → Text
unfolding argv quote disk_prefix
clone_script i source target =
    argv (text "vmkfstools" ∷ text "-i" ∷ source ∷ target ∷ text "-d" ∷ text "thin" ∷ [])
    ++ text " &\nprintf '%s\\n' \"$!\" > "
    ++ quote (disk_prefix i ++ text ".clonepid")
    ++ text "\nwait \"$!\"\nrc=$?\n"

-- The same, where the machine must be off.
unfoldable pub off_script : ℕ → Text → Text
unfolding argv decimal
off_script id clone =
    text "state=$("
    ++ argv (text "vim-cmd" ∷ text "vmsvc/power.getstate" ∷ decimal id ∷ [])
    ++ text
        ")\nrc=$?\nif [ \"$rc\" -eq 0 ]; then\ncase \"$state\" in\n'Powered off'|'Retrieved runtime info\nPowered off')\n"
    ++ clone
    ++ text ";;\n*) rc=92 ;;\nesac\nfi\n"

-- What the worker runs.
unfoldable pub worker_body : ℕ → Text → Text
unfolding argv quote disk_prefix
worker_body i clone =
    let exit_file = disk_prefix i ++ text ".exit" in
    text "umask 077\nprintf '%s\\n' \"$$\" > "
    ++ quote (disk_prefix i ++ text ".pid")
    ++ text "\n"
    ++ clone
    ++ text "printf '%s\\n' \"$rc\" > "
    ++ quote (exit_file ++ text ".tmp")
    ++ text " && "
    ++ argv (text "mv" ∷ (exit_file ++ text ".tmp") ∷ exit_file ∷ [])
    ++ text "\n"

unfoldable pub launch_script : ℕ → Text → Text
unfolding argv quote disk_prefix
launch_script i body =
    text "umask 077; "
    ++ argv (text "mkdir" ∷ (disk_prefix i ++ text ".started") ∷ [])
    ++ text " || exit 90\n"
    ++ argv (text "nohup" ∷ text "sh" ∷ text "-c" ∷ body ∷ [])
    ++ text " > "
    ++ quote (disk_prefix i ++ text ".log")
    ++ text " 2>&1 < /dev/null &\n"

unfoldable pub stop_script : ℕ → Text
unfolding quote disk_prefix
stop_script i =
    text "if [ -f "
    ++ quote (disk_prefix i ++ text ".exit")
    ++ text " ]; then exit 0; fi\np=$(cat "
    ++ quote (disk_prefix i ++ text ".clonepid")
    ++ text ")\ncase \"$p\" in ''|*[!0-9]*) exit 1;; esac\nkill \"$p\"\n"

unfoldable pub status_script : ℕ → Text
unfolding quote disk_prefix
status_script i =
    let exit_file = quote (disk_prefix i ++ text ".exit") in
    let pid_file = quote (disk_prefix i ++ text ".pid") in
    let log_file = quote (disk_prefix i ++ text ".log") in
    text "if [ -f "
    ++ exit_file
    ++ text " ]; then printf 'DONE '; cat "
    ++ exit_file
    ++ text "; elif [ -f "
    ++ pid_file
    ++ text " ]; then p=$(cat "
    ++ pid_file
    ++ text
        "); case \"$p\" in ''|*[!0-9]*) printf 'UNKNOWN\\n';; *) if kill -0 \"$p\" 2>/dev/null; then printf 'RUNNING\\n'; else printf 'LOST\\n'; fi;; esac; else printf 'STARTING\\n'; fi\nif [ -f "
    ++ log_file
    ++ text " ]; then tail -c 8192 "
    ++ log_file
    ++ text "; fi"

-- strings.Cut at the first line end: the line, and the log after it.
unfoldable pub first_line : Text → Text × Text
unfolding cut
first_line s = elim (cut s (10 ∷ [])) [ none ↦ (s, []) | some p ↦ p ]

-- The exit code of a line, if it is that of a finished worker.
unfoldable pub exit_line : Text → Option (Option ℕ)
unfolding cut_prefix natural trim_space text
exit_line line = elim (cut_prefix line (text "DONE ")) [
  | none ↦ none
  | some rest ↦ some (natural (trim_space rest))
]

-- The status of a worker that has ended, and of one that may be alive.
unfoldable pub ended_status : (Text → Text) → Text → Option ℕ → Reply CloneStatus
unfolding progress text
ended_status redact log none = lost (failure (text "invalid detached exit code"))
ended_status redact log (some n) =
    if leb n 255
    then got (record {
      finished = true;
      alive = false;
      exit_code = n;
      progress = progress log;
      log = redact log;
    })
    else lost (failure (text "invalid detached exit code"))

unfoldable pub alive_status : (Text → Text) → Text → Text → Reply CloneStatus
unfolding progress text
alive_status redact line log =
    if line ≟ text "RUNNING" || line ≟ text "STARTING"
    then got (record {
      finished = false;
      alive = true;
      exit_code = 0;
      progress = progress log;
      log = redact log;
    })
    else lost (failure (text "detached process status is unknown; manual inspection required"))

unfoldable pub status_of : (Text → Text) → Text → Text → Reply CloneStatus
unfolding exit_line ended_status alive_status
status_of redact line log = elim (exit_line line) [
  | some code ↦ ended_status redact log code
  | none ↦ alive_status redact line log
]

module _ {W : Type 0} ⦃executor : Executor W⦄ where
  -- StartClone; the index of a disk is never negative.
  unfoldable pub start_clone : Text → ℕ → ℕ → Text → Text → Bool → C W (Unit {0})
  unfolding is_job_id ext dir clone_script off_script worker_body launch_script
  start_clone id i vm_id source target require_off = do
    require
        (is_job_id id && not (vm_id == 0) && ext source ≟ text ".vmdk" && ext target ≟ text ".vmdk")
        (failure (text "invalid clone request"))
    check_target (dir target)
    require_owner id
    let clone = clone_script i source target
    let part = if require_off then off_script vm_id clone else clone
    execute (text "start-detached-clone") (launch_script i (worker_body i part)) []

  -- StopClone.
  unfoldable pub stop_clone : ℕ → C W (Unit {0})
  unfolding stop_script
  stop_clone i = execute (text "stop-clone") (stop_script i) []

  -- CloneStatus.
  unfoldable pub clone_status : ℕ → C W CloneStatus
  unfolding status_script first_line status_of
  clone_status i = do
    r ← run (text "poll-detached-clone") (status_script i) []
    lift (status_of executor.redact (first_line r.stdout).0 (first_line r.stdout).1)
