-- ===== src/Esxi/Machine.antt =====
-- What is asked of a registered machine, of internal/esxi/vm.go.
pub mod Laws
use esxi_mover.Prelude.{
  ℕ, Bool, true, false, Option, none, some, List, [], ◌∷◌, ◌++◌, ◌&&◌, ◌||◌, not, ltb,
  if◌then◌else◌,
}
use esxi_mover.Prelude.Text.{Text, text, ◌≟◌, trim_space, split, decimal}
use esxi_mover.Types.{failure, Reply, got, lost, Power, off, on, suspended}
use esxi_mover.Esxi.Numbers.{natural}
use esxi_mover.Esxi.Shell.{Executor, C, ◌>>=◌, ◌>>◌, pure, raise, lift, command}

-- What a line of the answer says of the power: nothing, one of the three states, or something else.
pub data PowerLine : Type 0 where
  nothing : PowerLine
  state : Power → PowerLine
  unknown : PowerLine

unfoldable pub power_line : Text → PowerLine
unfolding text trim_space
power_line line =
    let t = trim_space line in
    if t ≟ [] || t ≟ text "Retrieved runtime info"
    then nothing
    else if t ≟ text "Powered off"
    then state off
    else if t ≟ text "Powered on"
    then state on
    else if t ≟ text "Suspended"
    then state suspended
    else unknown

-- The loop of ParsePower.
unfoldable pub find_power : Option Power → List PowerLine → Reply Power
unfolding text
find_power none [] = lost (failure (text "missing power state"))
find_power (some p) [] = got p
find_power found (nothing ∷ ls) = find_power found ls
find_power found (unknown ∷ ls) = lost (failure (text "unknown power state"))
find_power none (state p ∷ ls) = find_power (some p) ls
find_power (some q) (state p ∷ ls) = lost (failure (text "ambiguous power state"))

unfoldable pub power_lines : List Text → List PowerLine
unfolding power_line
power_lines [] = []
power_lines (l ∷ ls) = power_line l ∷ power_lines ls

-- ParsePower.
unfoldable pub parse_power : Text → Reply Power
unfolding find_power power_lines split
parse_power s = find_power none (power_lines (split s 10))

-- The number that registering a machine prints.
unfoldable pub parse_id : Text → Reply ℕ
unfolding natural trim_space text
parse_id s = elim (natural (trim_space s)) [
  | none ↦ lost (failure (text "registration result unknown; reconcile inventory"))
  | some n ↦
      if ltb 0 n
      then got n
      else lost (failure (text "registration result unknown; reconcile inventory"))
]

module _ {W : Type 0} ⦃executor : Executor W⦄ where
  unfoldable pub vim_cmd : Text → Text → List Text → C W Text
  vim_cmd category verb args = command category (text "vim-cmd" ∷ verb ∷ args)

  -- A command whose output says nothing.
  unfoldable pub vim_do : Text → Text → List Text → C W (Unit {0})
  vim_do category verb args = do s ← vim_cmd category verb args; pure tt

  -- Power.
  unfoldable pub power : ℕ → C W Power
  unfolding parse_power decimal
  power id = do
    s ← vim_cmd (text "power-state") (text "vmsvc/power.getstate") (decimal id ∷ [])
    lift (parse_power s)

  -- Snapshot.
  unfoldable pub snapshot : ℕ → C W Text
  unfolding decimal
  snapshot id = vim_cmd (text "snapshot-state") (text "vmsvc/snapshot.get") (decimal id ∷ [])

  -- Shutdown, ForceOff, Unregister and PowerOn.
  unfoldable pub shutdown : ℕ → C W (Unit {0})
  unfolding decimal
  shutdown id = vim_do (text "graceful-shutdown") (text "vmsvc/power.shutdown") (decimal id ∷ [])

  unfoldable pub force_off : ℕ → C W (Unit {0})
  unfolding decimal
  force_off id = vim_do (text "explicit-force-off") (text "vmsvc/power.off") (decimal id ∷ [])

  unfoldable pub unregister : ℕ → C W (Unit {0})
  unfolding decimal
  unregister id = vim_do (text "unregister") (text "vmsvc/unregister") (decimal id ∷ [])

  unfoldable pub power_on : ℕ → C W (Unit {0})
  unfolding decimal
  power_on id = vim_do (text "power-on") (text "vmsvc/power.on") (decimal id ∷ [])

  -- Register.
  unfoldable pub register : Text → C W ℕ
  unfolding parse_id
  register p = do s ← vim_cmd (text "register") (text "solo/registervm") (p ∷ []); lift (parse_id s)

  -- Message and Answer.
  unfoldable pub message : ℕ → C W Text
  unfolding decimal
  message id = vim_cmd (text "vm-question") (text "vmsvc/message") (decimal id ∷ [])

  unfoldable pub answer : ℕ → Text → Text → C W (Unit {0})
  unfolding decimal
  answer id m choice =
      vim_do (text "answer-moved") (text "vmsvc/message") (decimal id ∷ m ∷ choice ∷ [])
