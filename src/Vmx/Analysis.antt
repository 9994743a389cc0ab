-- ===== src/Vmx/Analysis.antt =====
-- internal/vmx/analyzer.go: what a configuration uses, and what stops a migration. The messages of
-- messages are those of the source.
use esxi_mover.Prelude.{
  ℕ, Bool, false, Option, none, some, List, [], ◌∷◌, ◌++◌, ◌&&◌, ◌||◌, not, leb, ◌==◌,
  if◌then◌else◌, length,
}
use esxi_mover.Prelude.Text.{
  Text, text, ◌≟◌, to_lower, equal_fold, has_prefix, has_suffix, trim_suffix, contains, cut_prefix,
  split, sort_by,
}
use esxi_mover.Prelude.Dict.{value}
use esxi_mover.Types.{Config}
use esxi_mover.Vmx.{is_true}

pub record DiskRef : Type 0 where
  pub key : Text
  pub file : Text
  pub controller : Text

pub data Kind : Type 0 where
  iso floppy serial_parallel external : Kind

pub record Reference : Type 0 where
  pub key : Text
  pub file : Text
  pub kind : Kind

pub record Analysis : Type 0 where
  pub disks : List DiskRef
  pub references : List Reference
  pub blocks : List Text
  pub controllers : List Text

is_digit : ℕ → Bool
is_digit c = leb b'0' c && leb c b'9'

skip_digits : Text → Text
unfolding is_digit
skip_digits [] = []
skip_digits (c ∷ s) = let rest = skip_digits s in if is_digit c then rest else c ∷ s

starts_with_digit : Text → Bool
unfolding is_digit
starts_with_digit [] = false
starts_with_digit (c ∷ s) = is_digit c

unit_part : Text → Bool
unfolding starts_with_digit skip_digits text
unit_part s = starts_with_digit s && skip_digits s ≟ text ".filename"

after_colon : Option Text → Bool
unfolding unit_part
after_colon none = false
after_colon (some s) = unit_part s

-- Digits, a colon, digits and `.filename`.
address : Option Text → Bool
unfolding after_colon starts_with_digit skip_digits cut_prefix
address none = false
address (some s) = starts_with_digit s && after_colon (cut_prefix (skip_digits s) (b':' ∷ []))

-- The pattern `diskKey`.
unfoldable pub is_disk_key : Text → Bool
unfolding address cut_prefix text
is_disk_key k =
    address (cut_prefix k (text "scsi"))
    || address (cut_prefix k (text "sata"))
    || address (cut_prefix k (text "ide"))
    || address (cut_prefix k (text "nvme"))

block_if : Bool → Text → List Text
block_if test m = if test then m ∷ [] else []

on_controller : Text → Bool
unfolding has_prefix text
on_controller k =
    has_prefix k (text "scsi")
    || has_prefix k (text "sata")
    || has_prefix k (text "ide")
    || has_prefix k (text "nvme")

-- The tests of one entry that do not concern a file name.
entry_blocks : Text → Text → List Text
unfolding block_if on_controller contains has_prefix has_suffix to_lower text
entry_blocks k v =
    let low = to_lower v in
    block_if (k ≟ text "uuid.action" && not (low ≟ []) && not (low ≟ text "keep"))
      (text "VMX forces an identity change; uuid.action requires manual review")
    ++ block_if
        (contains k (text "encrypt")
          || contains k (text "vtpm")
          || has_prefix k (text "tpm.")
          || contains k (text "keyid"))
        (text "Encryption or vTPM configuration: " ++ k)
    ++ block_if
        (contains k (text "sharing") && not (low ≟ text "none") && not (low ≟ [])
          || contains low (text "multi-writer")
          || has_suffix k (text "sharedbus") && not (low ≟ text "none"))
        (text "Shared or multi-writer disk configuration: " ++ k)
    ++ block_if
        (has_suffix k (text ".mode")
          && on_controller k
          && not (low ≟ text "persistent")
          && not (low ≟ []))
        (text "Only ordinary persistent disks are supported: " ++ k)
    ++ block_if (has_suffix k (text ".redo") && not (v ≟ [])) (text "Redo disk reference: " ++ k)
    ++ block_if
        (contains k (text "ctk") && low ≟ text "true"
          || k ≟ text "checkpoint.vmstate" && not (v ≟ []))
        (text "CBT or suspended state is unsupported: " ++ k)
    ++ block_if
        (has_suffix k (text ".devicetype")
          && (contains low (text "raw") || contains low (text "passthru")))
        (text "Raw or passthrough device: " ++ k)
    ++ block_if
        (has_prefix k (text "pcipassthru") && has_suffix k (text ".present") && low ≟ text "true")
        (text "PCI passthrough is unsupported")

kind_of : Text → Text → Kind
unfolding has_prefix has_suffix text
kind_of k low =
    if has_suffix low (text ".iso")
    then iso
    else if has_prefix k (text "floppy")
    then floppy
    else if has_prefix k (text "serial") || has_prefix k (text "parallel")
    then serial_parallel
    else external

kind_blocks : Config → Text → Text → Kind → List Text
unfolding block_if is_true value equal_fold text
kind_blocks c k base iso = []
kind_blocks c k base floppy =
    block_if (is_true c (base ++ text ".present")) (text "Connected floppy devices are unsupported")
kind_blocks c k base serial_parallel =
    block_if (equal_fold (value c (base ++ text ".filetype")) (text "file"))
      (text "Writable serial/parallel file is unsupported: " ++ k)
kind_blocks c k base external =
    block_if (is_true c (base ++ text ".present"))
      (text "Unrecognized active device backing: " ++ k)

first_word : List Text → Text
first_word [] = []
first_word (w ∷ ws) = w

-- An entry whose key ends in `.filename`.
add_file : Config → Text → Text → Analysis → Analysis
unfolding is_disk_key is_true kind_of kind_blocks first_word has_suffix trim_suffix to_lower split
    text
add_file c k v a =
    let base = trim_suffix k (text ".filename") in
    let low = to_lower v in
    let kind = kind_of k low in
    if has_suffix low (text ".vmdk")
    then if not (is_disk_key k) || not (is_true c (base ++ text ".present"))
      then record a {
        blocks = a.blocks ++ (text "Unrecognized or inactive VMDK reference: " ++ k) ∷ [];
      }
      else record a {
        disks =
            a.disks
            ++ (record { key = k; file = v; controller = first_word (split base b':') }) ∷ [];
      }
    else record a {
      blocks = a.blocks ++ kind_blocks c k base kind;
      references = a.references ++ (record { key = k; file = v; kind = kind }) ∷ [];
    }

-- One round of the loop of `Analyze`.
add_entry : Config → Text × Text → Analysis → Analysis
unfolding entry_blocks add_file has_suffix text
add_entry c (k, v) a =
    let b = record a {
      blocks = a.blocks ++ entry_blocks k v;
      controllers =
          if has_suffix k (text ".virtualdev")
          then a.controllers ++ (k ++ b'=' ∷ v) ∷ []
          else a.controllers;
    } in
    if has_suffix k (text ".filename") then add_file c k v b else b

add_entries : Config → Config → Analysis → Analysis
unfolding add_entry
add_entries c [] a = a
add_entries c (e ∷ es) a = add_entries c es (add_entry c e a)

unfoldable pub analyze : Config → Analysis
unfolding add_entries sort_by text
analyze c =
    let a =
      add_entries c c (record { disks = []; references = []; blocks = []; controllers = [] }) in
    let blocks =
      if length a.disks == 0
      then a.blocks ++ text "No supported active VMDK disks found" ∷ []
      else a.blocks in
    record {
      disks = sort_by (λ d. d.key) a.disks;
      references = sort_by (λ r. r.key) a.references;
      blocks = sort_by (λ b. b) blocks;
      controllers = sort_by (λ b. b) a.controllers;
    }
