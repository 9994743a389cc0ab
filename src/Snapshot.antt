-- ===== src/Snapshot.antt =====
-- internal/migration/snapshot.go: the signs of a snapshot.
use mathlib.Core.List.{reverse}
use esxi_mover.Prelude.{
  ℕ, Bool, true, false, Option, none, some, List, [], ◌∷◌, ◌++◌, ◌&&◌, ◌||◌, not, leb, ◌==◌,
  if◌then◌else◌, length, any,
}
use esxi_mover.Prelude.Text.{
  Text, text, ◌≟◌, to_lower, equal_fold, trim_space, has_suffix, contains, cut_prefix, split,
}
use esxi_mover.Prelude.Path.{base}
use esxi_mover.Prelude.Dict.{lookup}
use esxi_mover.Types.{failure, Reply, got, lost, check_that, Config, Extent, Descriptor}
use esxi_mover.Vmx.{parse}
use esxi_mover.Vmdk.{span}

digit : ℕ → Bool
digit c = leb b'0' c && leb c b'9'

after_digits : Text × Text → Bool
after_digits (ds, []) = false
after_digits (ds, c ∷ s) = leb 6 (length ds) && c == b'-'

numbered : Option Text → Bool
unfolding span digit after_digits
numbered none = false
numbered (some r) = after_digits (span digit r)

-- The pattern `snapshotName`, read from the end of the name.
unfoldable pub snapshot_name : Text → Bool
unfolding numbered cut_prefix to_lower text
snapshot_name file = numbered (cut_prefix (reverse (to_lower file)) (reverse (text ".vmdk")))

delta_extent : Extent → Bool
unfolding has_suffix to_lower text
delta_extent e =
    has_suffix (to_lower e.file) (text "-delta.vmdk")
    || has_suffix (to_lower e.file) (text "-sesparse.vmdk")

-- DiskSnapshot.
unfoldable pub disk_snapshot : Text → Descriptor → Reply (Unit {0})
unfolding snapshot_name delta_extent check_that equal_fold contains to_lower text
disk_snapshot file d =
    check_that (not (snapshot_name file))
      (failure (text "active VMX references a numbered snapshot VMDK"))
      (check_that (equal_fold d.parent_cid (text "ffffffff") && d.parent_hint ≟ [])
        (failure (text "active VMDK has a parent chain"))
        (check_that (not (contains (to_lower d.create_type) (text "sparse")))
          (failure (text "snapshot/sparse createType"))
          (check_that (not (any delta_extent d.extents)) (failure (text "active snapshot extent"))
            (got tt))))

artifact : Text → Bool
unfolding has_suffix snapshot_name to_lower base text
artifact f =
    let n = to_lower (base f) in
    has_suffix n (text "-delta.vmdk")
    || has_suffix n (text "-sesparse.vmdk")
    || snapshot_name n
    || has_suffix n (text ".vmsn")
    || has_suffix n (text ".vmss")

-- SnapshotArtifact: the first such file, the empty text if there is none.
unfoldable pub snapshot_artifact : List Text → Text
unfolding artifact base
snapshot_artifact [] = []
snapshot_artifact (f ∷ fs) = if artifact f then base f else snapshot_artifact fs

non_blank : List Text → List Text
unfolding trim_space
non_blank [] = []
non_blank (line ∷ ls) =
    let rest = non_blank ls in if trim_space line ≟ [] then rest else trim_space line ∷ rest

empty_tree : List Text → Bool
unfolding text
empty_tree (a ∷ []) = a ≟ text "Get Snapshot:"
empty_tree (a ∷ b ∷ []) = a ≟ text "Get Snapshot:" && b ≟ text "No snapshots."
empty_tree _ = false

-- SnapshotManager.
unfoldable pub snapshot_manager : Text → Reply (Unit {0})
unfolding empty_tree non_blank check_that split text
snapshot_manager s =
    check_that (empty_tree (non_blank (split s 10)))
      (failure (text "snapshot manager reports a snapshot or an unknown response")) (got tt)

zero_or_absent : Option Text → Bool
zero_or_absent none = true
zero_or_absent (some n) = n ≟ (b'0' ∷ [])

harmless : Text × Text → Bool
unfolding text
harmless (k, v) =
    k ≟ text "snapshot.numsnapshots"
    || k ≟ text ".encoding"
    || k ≟ text "snapshot.lastuid"
    || k ≟ text "snapshot.current" && (v ≟ text "0" || v ≟ text "-1")

entries_check : Config → Reply (Unit {0})
unfolding harmless check_that text
entries_check [] = got tt
entries_check ((k, v) ∷ c) =
    check_that (harmless (k, v))
      (failure (text "stale or ambiguous VMSD entry requires manual review: " ++ k))
      (entries_check c)

vmsd_of : Reply Config → Reply (Unit {0})
unfolding zero_or_absent entries_check check_that lookup text
vmsd_of (lost e) = lost (failure (text "unreadable snapshot metadata"))
vmsd_of (got c) =
    check_that (zero_or_absent (lookup c (text "snapshot.numsnapshots")))
      (failure (text "VMSD snapshot metadata is active or ambiguous")) (entries_check c)

-- VMSD.
unfoldable pub vmsd : Text → Reply (Unit {0})
unfolding vmsd_of check_that parse trim_space
vmsd s = if trim_space s ≟ [] then got tt else vmsd_of (parse s)
