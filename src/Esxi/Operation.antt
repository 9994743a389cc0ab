-- ===== src/Esxi/Operation.antt =====
-- The operation lock and the target folder on the host, of internal/esxi/detached.go.
pub mod Laws
use esxi_mover.Prelude.{
  ℕ, Bool, true, false, Option, none, some, List, [], ◌∷◌, ◌++◌, ◌&&◌, ◌||◌, not, leb, ◌==◌, length,
  all,
}
use esxi_mover.Prelude.Text.{Text, text, ◌≟◌, to_lower, has_prefix}
use esxi_mover.Prelude.Path.{base, dir, ext, path_join}
use esxi_mover.Types.{failure}
use esxi_mover.Esxi.Paths.{valid_path, target_path}
use esxi_mover.Esxi.Quoting.{quote, argv}
use esxi_mover.Esxi.Files.{read_file, canonical}
use esxi_mover.Esxi.Shell.{Executor, C, ◌>>=◌, ◌>>◌, pure, require, instead, run, command}

runtime_dir : Text
runtime_dir = text "/tmp/esxi-mover"

unfoldable pub active_dir : Text
unfolding runtime_dir
active_dir = runtime_dir ++ text "/active"

-- jobIDPattern: 32 digits of a hexadecimal number in lower case.
unfoldable pub is_job_id : Text → Bool
is_job_id id = length id == 32 && all (λ c. leb 48 c && leb c 57 || leb 97 c && leb c 102) id

-- The first line of the lock's metadata.
unfoldable pub owner_line : Text → Text
owner_line id = text "job=" ++ id ++ 10 ∷ []

-- The files that may be written.
unfoldable pub writable : Text → Bool
unfolding text base valid_path ext to_lower
writable name =
    let e = to_lower (ext name) in
    e ≟ text ".vmx" || e ≟ text ".nvram" || e ≟ text ".vmxf" || e ≟ text ".vmsd"

module _ {W : Type 0} ⦃executor : Executor W⦄ where
  -- A command of which only the error counts.
  unfoldable pub execute : Text → Text → Text → C W (Unit {0})
  execute category script input = do r ← run category script input; pure tt

  -- Acquire.
  unfoldable pub acquire : Text → Text → C W (Unit {0})
  unfolding is_job_id owner_line runtime_dir active_dir argv quote
  acquire id meta = do
    require (is_job_id id) (failure (text "invalid operation ID"))
    execute (text "acquire-operation-lock")
        (text "umask 077; "
          ++ argv (text "mkdir" ∷ text "-p" ∷ runtime_dir ∷ [])
          ++ text " && "
          ++ argv (text "test" ∷ text "!" ∷ text "-L" ∷ runtime_dir ∷ [])
          ++ text " && "
          ++ argv (text "mkdir" ∷ active_dir ∷ [])
          ++ text " && "
          ++ argv (
              text "sh"
              ∷ text "-c"
              ∷ (text "cat > " ++ quote (active_dir ++ text "/job.meta"))
              ∷ []))
        (owner_line id ++ meta)

  -- The lock is still this job's.
  unfoldable pub require_owner : Text → C W (Unit {0})
  unfolding owner_line active_dir has_prefix
  require_owner id = do
    meta ←
        instead (failure (text "operation lock ownership changed"))
          (read_file (active_dir ++ text "/job.meta"))
    require (has_prefix meta (owner_line id)) (failure (text "operation lock ownership changed"))

  -- Finish.
  unfoldable pub finish : Text → C W (Unit {0})
  unfolding is_job_id runtime_dir active_dir argv
  finish id = do
    require (is_job_id id) (failure (text "invalid operation ID"))
    require_owner id
    execute (text "archive-completed-operation")
        (argv (text "mv" ∷ active_dir ∷ (runtime_dir ++ text "/completed-" ++ id) ∷ [])) []

  -- CreateTarget.
  unfoldable pub create_target : Text → C W (Unit {0})
  unfolding target_path dir
  create_target d = do
    require (target_path d) (failure (text "invalid target directory"))
    c ← instead (failure (text "target parent changed or is not canonical")) (canonical (dir d))
    require (c ≟ dir d) (failure (text "target parent changed or is not canonical"))
    s ← command (text "create-target") (text "mkdir" ∷ d ∷ [])
    pure tt

  -- checkTarget.
  unfoldable pub check_target : Text → C W (Unit {0})
  unfolding target_path
  check_target d = do
    require (target_path d) (failure (text "invalid target directory"))
    c ← instead (failure (text "target directory changed")) (canonical d)
    require (c ≟ d) (failure (text "target directory changed"))

  -- WriteTarget.
  unfoldable pub write_target : Text → Text → Text → C W (Unit {0})
  unfolding writable base valid_path quote path_join
  write_target d name content = do
    check_target d
    require (name ≟ base name && valid_path name) (failure (text "invalid target config name"))
    require (writable name) (failure (text "only configuration files may be written"))
    execute (text "write-target-config")
        (text "umask 077; set -C; cat > " ++ quote (path_join d name)) content
