-- ===== src/Analyzer/Files.antt =====
-- The small functions of internal/migration/analyzer.go, and the files that a machine names:
-- `localFile` and `freeFolder` there, `externalFile` and `vmxUses` of external.go.
use esxi_mover.Prelude.{
  ℕ, zero, suc, Bool, true, false, Option, none, some, List, [], ◌∷◌, ◌++◌, ◌&&◌, ◌||◌, not, ◌==◌,
  any, if◌then◌else◌, length,
}
use esxi_mover.Prelude.Text.{Text, text, ◌≟◌, to_lower, has_suffix, decimal}
use esxi_mover.Prelude.Path.{dir, path_join}
use esxi_mover.Prelude.Dict.{remove}
use esxi_mover.Types.{failure, Reply, got, lost, Config, Datastore}
use esxi_mover.Host.{Call, Host, M, ◌>>=◌, ◌>>◌, pure, lift, require, try, call, raise, on_reply}
use esxi_mover.Vmx
use esxi_mover.Esxi.Paths.{resolve_reference, datastore_of, usable}

without : Text → Text
without [] = []
without (c ∷ s) = let rest = without s in if c == b' ' || c == b'-' then rest else c ∷ rest

-- normalizeUUID.
unfoldable pub normalize_uuid : Text → Text
unfolding without to_lower
normalize_uuid s = to_lower (without s)

-- The first three fields with their bytes turned around, as SMBIOS 2.6 writes them.
unfoldable pub flipped : Text → Text
flipped (a ∷ b ∷ c ∷ d ∷ e ∷ f ∷ g ∷ h ∷ i ∷ j ∷ k ∷ l ∷ m ∷ n ∷ o ∷ p ∷ rest) =
    g ∷ h ∷ e ∷ f ∷ c ∷ d ∷ a ∷ b ∷ k ∷ l ∷ i ∷ j ∷ o ∷ p ∷ m ∷ n ∷ rest
flipped _ = []

-- sameUUID.
unfoldable pub same_uuid : Text → Text → Bool
unfolding normalize_uuid flipped
same_uuid bios appliance =
    let a = normalize_uuid bios in
    let b = normalize_uuid appliance in length a == 32 && length b == 32 && (a ≟ b || a ≟ flipped b)

remove_all : Config → List Text → Config
unfolding remove
remove_all c [] = c
remove_all c (k ∷ ks) = remove_all (remove c k) ks

config_or : Reply Config → Config
config_or (got c) = c
config_or (lost e) = []

-- stableConfig; rewriting with no replacement cannot fail.
unfoldable pub stable_config : Config → Config
unfolding remove_all config_or text
stable_config c = remove_all (config_or (Vmx.rewrite c [])) (
    text "cleanshutdown"
    ∷ text "softpoweroff"
    ∷ text "tools.lastinstallstatus"
    ∷ text "tools.remindinstall"
    ∷ [])

-- A reference of a configuration to a disk.
unfoldable pub names_disk : Text → Text → Bool
unfolding has_suffix to_lower text
names_disk k v = has_suffix k (text ".filename") && has_suffix (to_lower v) (text ".vmdk")

-- The usable datastore that a file lies on.
unfoldable pub on_usable : Option Datastore → Bool
unfolding usable
on_usable none = false
on_usable (some d) = usable d

module _ {W : Type 0} ⦃host : Host W⦄ where
  -- A file that must be there; an error of the host counts as its absence.
  unfoldable pub must_exist : Text → M W (Unit {0})
  must_exist p = do
    found ← try (call (Call.exists p))
    on_reply found
        (λ there. require there (failure (text "required file is missing or inaccessible")))
        λ e. raise (failure (text "required file is missing or inaccessible"))

  -- localFile.
  unfoldable pub local_file : Text → Text → List Datastore → M W Text
  unfolding resolve_reference
  local_file ref folder ds = do
    p ← lift (resolve_reference ref folder ds)
    c ← call (Call.canonical p)
    require (dir c ≟ folder) (
        failure (
          text
            "files outside the VM directory (including other datastores and nested directories) are unsupported"))
    must_exist c
    pure c

  -- externalFile.
  unfoldable pub external_file : Text → Text → List Datastore → M W Text
  unfolding resolve_reference datastore_of on_usable
  external_file ref folder ds = do
    p ← lift (resolve_reference ref folder ds)
    c ← call (Call.canonical p)
    require (on_usable (datastore_of c ds))
        (failure (text "the disk is not on a mounted VMFS-5 or VMFS-6 datastore"))
    must_exist c
    pure c

  -- The loop of freeFolder, with `n` names left to try from number `i` on.
  unfoldable pub free_from : ℕ → ℕ → Text → Text → M W Text
  unfolding path_join decimal
  free_from zero i mount folder = pure []
  free_from (suc n) i mount folder = do
    let candidate = folder ++ b'-' ∷ decimal i
    used ← call (Call.exists (path_join mount candidate))
    if used then free_from n (suc i) mount folder else pure candidate

  -- freeFolder.
  unfoldable pub free_folder : Text → Text → M W Text
  free_folder mount folder = free_from 8 2 mount folder

  -- The loop of vmxUses, over the entries of the configuration.
  unfoldable pub entries_use : Text → List Text → List Datastore → Config → M W Bool
  unfolding names_disk resolve_reference dir
  entries_use file disks ds [] = pure false
  entries_use file disks ds ((k, v) ∷ rest) =
      if not (names_disk k v) then entries_use file disks ds rest else (do
        p ← lift (resolve_reference v (dir file) ds)
        c ← call (Call.canonical p)
        if any (λ d. d ≟ c) disks then pure true else entries_use file disks ds rest)

  -- vmxUses.
  unfoldable pub vmx_uses : Text → List Text → List Datastore → M W Bool
  vmx_uses file disks ds = do
    raw ← call (Call.read_file file)
    cfg ← lift (Vmx.parse raw)
    entries_use file disks ds cfg
