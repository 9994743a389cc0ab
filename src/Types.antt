-- ===== src/Types.antt =====
-- internal/migration/types.go, with the records of internal/esxi and internal/vmdk that it holds.
-- Sizes are natural numbers: the readers of internal/esxi refuse negative ones.
use esxi_mover.Prelude.{
  ℕ, Bool, true, false, List, [], ◌++◌, Option, none, some, ◌&&◌, ◌||◌, not, ◌==◌, if◌then◌else◌,
  ◌≡◌, refl, ◌⊎◌, inl, inr,
}
use esxi_mover.Prelude.Text.{Text, text, ◌≟◌}

-- An error value. `errors.Is(err, errStopped)` looks through the `%w` of a wrapped error.
pub data Err : Type 0 where
  stopped : Err
  failure : Text → Err
  wrapped : Text → Err → Text → Err
  restored : Err → Err

-- What a fallible function returns.
pub data Reply (A : Type 0) : Type 0 where
  got : A → Reply A
  lost : Err → Reply A

-- To split on a computed reply and keep the equation.
pub Reply-cases : {A : Type 0} (r : Reply A) → ((a : A) × (r ≡ got a)) ⊎ ((e : Err) × (r ≡ lost e))
Reply-cases (got a) = inl (a, refl)
Reply-cases (lost e) = inr (e, refl)

module _ {A B : Type 0} where
  unfoldable pub and_then : Reply A → (A → Reply B) → Reply B
  and_then (got a) f = f a
  and_then (lost e) f = lost e

module _ {A : Type 0} where
  -- `if !test { return error }`, and then the rest.
  unfoldable pub check_that : Bool → Err → Reply A → Reply A
  check_that test e rest = if test then rest else lost e

-- err.Error().
unfoldable pub describe : Err → Text
unfolding text
describe stopped = text "stopped by the operator"
describe (failure m) = m
describe (wrapped before e after) = before ++ describe e ++ after
describe (restored e) = describe e

module _ {A : Type 0} where
  -- The error of a result, for `(%v)` and for a deferred test.
  unfoldable pub error_of : Reply A → Option Err
  error_of (got a) = none
  error_of (lost e) = some e

unfoldable pub is_stopped : Err → Bool
is_stopped stopped = true
is_stopped (failure m) = false
is_stopped (wrapped before e after) = is_stopped e
is_stopped (restored e) = false

-- esxi.Power; `unread` is the empty value.
pub data Power : Type 0 where
  off on suspended unread : Power

unfoldable pub is_off : Power → Bool
is_off off = true
is_off _ = false

unfoldable pub is_on : Power → Bool
is_on on = true
is_on _ = false

pub data Mode : Type 0 where
  copy move : Mode
  other_mode : Text → Mode

unfoldable pub is_copy : Mode → Bool
is_copy copy = true
is_copy _ = false

unfoldable pub is_move : Mode → Bool
is_move move = true
is_move _ = false

pub record Vm : Type 0 where
  pub id : ℕ
  pub name : Text
  pub datastore : Text
  pub vmx_path : Text

pub record Datastore : Type 0 where
  pub name : Text
  pub uuid : Text
  pub mount : Text
  pub kind : Text
  pub mounted : Bool
  pub size : ℕ
  pub free : ℕ

pub record Request : Type 0 where
  pub vm_id : ℕ
  pub target_uuid : Text
  pub mode : Mode
  pub power_on : Bool
  pub target_name : Text
  pub live : Bool
  pub bring_disks : Bool

pub data Status : Type 0 where
  passed warning block : Status

unfoldable pub is_block : Status → Bool
is_block block = true
is_block _ = false

pub record Step : Type 0 where
  pub words : Text
  pub command : Text

pub record Check : Type 0 where
  pub name : Text
  pub status : Status
  pub detail : Text
  pub title : Text
  pub why : Text
  pub steps : List Step

-- vmx.Config, a map: the first entry of a key is its value.
abbrev pub Config : Type 0
Config = List (Text × Text)

pub record Extent : Type 0 where
  pub sectors : ℕ
  pub kind : Text
  pub file : Text

pub record Descriptor : Type 0 where
  pub cid : Text
  pub parent_cid : Text
  pub parent_hint : Text
  pub create_type : Text
  pub extents : List Extent
  pub thin : Bool
  pub bytes : ℕ
  pub fields : Config

pub record Disk : Type 0 where
  pub key : Text
  pub source : Text
  pub target : Text
  pub extent : Text
  pub provisioned : ℕ
  pub allocated : ℕ
  pub allocation_known : Bool
  pub thin : Bool
  pub descriptor : Descriptor
  pub external : Bool

pub record ConfigFile : Type 0 where
  pub key : Text
  pub source : Text
  pub name : Text

pub record Report : Type 0 where
  pub id : Text
  pub request : Request
  pub vm : Vm
  pub source_vmx : Text
  pub source_dir : Text
  pub source_datastore : Text
  pub target_dir : Text
  pub target_vmx : Text
  pub fingerprint : Text
  pub power : Power
  pub disks : List Disk
  pub config_files : List ConfigFile
  pub target_free : ℕ
  pub required : ℕ
  pub provisioned : ℕ
  pub allocated : ℕ
  pub autostart : ℕ
  pub ready : Bool
  pub checks : List Check
  pub config : Config
  pub target_config : Config

-- Options, in milliseconds.
pub record Options : Type 0 where
  pub shutdown_timeout : ℕ
  pub poll_interval : ℕ
  pub disconnect_timeout : ℕ
  pub clone_timeout : ℕ
  pub power_on_timeout : ℕ
  pub appliance_uuid : Text

unfoldable pub default_options : Options
default_options = record {
  shutdown_timeout = 300000;
  poll_interval = 3000;
  disconnect_timeout = 300000;
  clone_timeout = 604800000;
  power_on_timeout = 120000;
  appliance_uuid = [];
}

-- What a running job has already done on the host.
pub record Progress : Type 0 where
  pub own_lock : Bool
  pub target_created : Bool
  pub consumed : ℕ

-- True for a request that `validateRequest` accepts.
unfoldable pub validate_request : Request → Bool
unfolding is_copy is_move ◌≟◌
validate_request r = not (
    r.vm_id == 0
    || r.target_uuid ≟ []
    || not (is_copy r.mode) && not (is_move r.mode)
    || is_copy r.mode && r.power_on)
