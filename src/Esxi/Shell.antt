-- ===== src/Esxi/Shell.antt =====
-- The shell of an ESXi host, of internal/esxi/executor.go: the quoting of a command's arguments, a
-- command with its place in the log, and the errors that are shown of it. The executor itself,
-- which is the SSH transport, is a parameter: a machine that answers commands. Its time limits and
-- cancellation are errors that it may answer at any time.
pub mod Says
use esxi_mover.Prelude.{
  ℕ, Bool, true, false, Option, none, some, List, [], ◌∷◌, ◌++◌, ◌||◌, ◌==◌, ◌-◌, ltb,
  if◌then◌else◌, length, take,
}
use esxi_mover.Prelude.Text.{Text, text, ◌≟◌, trim_space, decimal}
use esxi_mover.Types.{Err, failure, Reply, got, lost, describe}
use esxi_mover.Esxi.Audit.{Entry, add}
use esxi_mover.Esxi.Quoting.{argv}

-- Command and Result.
pub record Command : Type 0 where
  pub category : Text
  pub script : Text
  pub input : Text

-- The exit code of a command that could not be run is -1, with an error; here it is any number.
pub record Result : Type 0 where
  pub stdout : Text
  pub stderr : Text
  pub exit_code : ℕ

-- Executor, with its clock; `redact` hides its credentials, and `to_valid` is strings.ToValidUTF8
-- with an empty replacement.
pub record Executor (W : Type 0) : Type 0 where
  pub exec : W → Command → (Result × Option Err) × W
  pub clock : W → ℕ
  pub redact : Text → Text
  pub to_valid : Text → Text

-- Client: the machine and the log.
pub record Client (W : Type 0) : Type 0 where
  pub world : W
  pub audit : List Entry

abbrev pub C : Type 0 → Type 0 → Type 0
C W A = Client W → Reply A × Client W

module _ {W A B : Type 0} where
  unfoldable pub next : (A → C W B) → Reply A × Client W → Reply B × Client W
  next f (got a, s) = f a s
  next f (lost e, s) = (lost e, s)

infixl 5 ◌>>=◌ ◌>>◌
unfoldable pub ◌>>=◌ : {W A B : Type 0} → C W A → (A → C W B) → C W B
unfolding next
◌>>=◌ m f s = next f (m s)

unfoldable pub ◌>>◌ : {W B : Type 0} → C W (Unit {0}) → C W B → C W B
unfolding ◌>>=◌
m >> k = m >>= λ _. k

module _ {W A : Type 0} where
  unfoldable pub pure : A → C W A
  pure a s = (got a, s)

  unfoldable pub raise : Err → C W A
  raise e s = (lost e, s)

  unfoldable pub lift : Reply A → C W A
  lift r s = (r, s)

  unfoldable pub replaced : Err → Reply A × Client W → Reply A × Client W
  replaced e (got a, s) = (got a, s)
  replaced e (lost e', s) = (lost e, s)

  -- An error that is returned in place of any other.
  unfoldable pub instead : Err → C W A → C W A
  unfolding replaced
  instead e m s = replaced e (m s)

unfoldable pub require : {W : Type 0} → Bool → Err → C W (Unit {0})
unfolding pure raise
require test e = if test then pure tt else raise e

-- The error of a command that was run, from its exit code.
unfoldable pub status_error : Text → Result → Option Err → Option Err
unfolding trim_space decimal text
status_error category r (some e) = some e
status_error category r none =
    if r.exit_code == 0
    then none
    else if category ≟ text "read-file" || category ≟ text "vm-identity"
    then some (failure (text "configuration read exited with status " ++ decimal r.exit_code))
    else some (
        failure (
          category
          ++ text " exited with status "
          ++ decimal r.exit_code
          ++ text ": "
          ++ trim_space (r.stderr ++ b' ' ∷ r.stdout)))

-- A long message is not shown, and a credential in it neither.
unfoldable pub presentable : Text → (Text → Text) → Option Err → Option Err
unfolding describe text
presentable category redact none = none
presentable category redact (some e) =
    if ltb 1500 (length (describe e))
    then some (failure (redact (category ++ text ": remote command failed (output too long)")))
    else some (failure (redact (describe e)))

unfoldable pub message_of : Option Err → Text
unfolding describe
message_of none = []
message_of (some e) = describe e

unfoldable pub reply_of : Result → Option Err → Reply Result
reply_of r none = got r
reply_of r (some e) = lost e

-- The script as the log shows it.
unfoldable pub shown_script : (Text → Text) → (Text → Text) → Text → Text
unfolding text
shown_script redact to_valid script =
    let s = redact script in if ltb 400 (length s) then to_valid (take 400 s) ++ text " ..." else s

module _ {W : Type 0} ⦃executor : Executor W⦄ where
  -- run and runFor.
  unfoldable pub run : Text → Text → Text → C W Result
  unfolding status_error presentable message_of reply_of shown_script add
  run category script input s =
      let (x, w) =
        executor.exec s.world (record { category = category; script = script; input = input }) in
      let e = presentable category executor.redact (status_error category x.0 x.1) in
      (
        reply_of x.0 e,
        record {
          world = w;
          audit =
              add
                (record {
                  time = executor.clock s.world;
                  category = category;
                  command = shown_script executor.redact executor.to_valid script;
                  duration = executor.clock w - executor.clock s.world;
                  exit_code = x.0.exit_code;
                  error = message_of e;
                  runs = 0;
                })
                s.audit;
        },
      )

  -- command.
  unfoldable pub command : Text → List Text → C W Text
  unfolding argv
  command category args = do r ← run category (argv args) []; pure r.stdout
