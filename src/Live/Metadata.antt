-- ===== src/Live/Metadata.antt =====
-- The snapshot metadata that goes with the deltas: `liveMetadata` of internal/migration/live.go.
use esxi_mover.Prelude.{
  ℕ, zero, suc, Bool, true, Option, none, some, List, [], ◌∷◌, ◌++◌, ◌&&◌, ◌||◌, not, if◌then◌else◌,
  any, length,
}
use esxi_mover.Prelude.Text.{Text, text, ◌≟◌, equal_fold, trim_suffix, decimal, replace_all}
use esxi_mover.Prelude.Path.{base, ext, path_join}
use esxi_mover.Prelude.Dict.{value}
use esxi_mover.Types.{failure, Reply, got, lost, check_that, Disk, Config, Report}
use esxi_mover.Host.{Call, Host, M, ◌>>=◌, ◌>>◌, pure, lift, require, call}
use esxi_mover.Vmx
use esxi_mover.Esxi.Paths.{valid_path}
use esxi_mover.Live.Checks.{Meta}

-- The name that the metadata file of the source must have.
unfoldable pub vmsd_name : Report → Text
unfolding trim_suffix base ext text
vmsd_name r = trim_suffix (base r.source_vmx) (ext r.source_vmx) ++ text ".vmsd"

-- The loop over the files of the source folder; an empty text stands for no file yet.
unfoldable pub find_vmsd : Text → Text → List Text → Reply Text
unfolding equal_fold ext base check_that text
find_vmsd want found [] = got found
find_vmsd want found (f ∷ fs) =
    let hit = find_vmsd want f fs in
    let miss = find_vmsd want found fs in
    if equal_fold (ext f) (text ".vmsd")
    then check_that (found ≟ [] && base f ≟ want)
        (failure (text "unexpected snapshot metadata file " ++ base f)) hit
    else miss

-- The metadata describes one snapshot, this job's, of all the disks.
unfoldable pub describes : Config → Text → ℕ → Bool
unfolding value base ext equal_fold valid_path decimal text
describes c name disks =
    let vmsn = value c (text "snapshot0.filename") in
    value c (text "snapshot.numsnapshots") ≟ text "1"
    && value c (text "snapshot0.displayname") ≟ name
    && value c (text "snapshot0.numdisks") ≟ decimal disks
    && vmsn ≟ base vmsn
    && equal_fold (ext vmsn) (text ".vmsn")
    && valid_path vmsn

unfoldable pub disk_entry : Config → ℕ → Text
unfolding value decimal text
disk_entry c i = value c (text "snapshot0.disk" ++ decimal i ++ text ".filename")

quoted : Text → Text
quoted w = 34 ∷ w ++ 34 ∷ []

-- The inner loop: the first disk that is not used yet and goes by this name, and the metadata with
-- the name of its copy. A disk of the source folder keeps its name.
unfoldable pub claim_disk : Config → Text → Text → List Text → List Disk → Option (Text × Text)
unfolding base value quoted replace_all
claim_disk config target v used [] = none
claim_disk config target v used (d ∷ ds) =
    let rest = claim_disk config target v used ds in
    if any (λ k. k ≟ d.key) used
    then rest
    else if not d.external && v ≟ base d.source
    then some (d.key, target)
    else if d.external && (v ≟ d.source || v ≟ value config d.key)
    then some (d.key, replace_all target (quoted v) (quoted (base d.target)))
    else rest

-- The outer loop, over the numbers of the disks from `i` on.
unfoldable pub claim_disks : Report → Config → ℕ → ℕ → List Text → Text → Reply Text
unfolding claim_disk disk_entry text
claim_disks r c zero i used target = got target
claim_disks r c (suc n) i used target =
    elim (claim_disk r.config target (disk_entry c i) used r.disks) [
      | none ↦ lost (failure (text "the snapshot metadata names an unexpected disk"))
      | some (k, next) ↦ claim_disks r c n (suc i) (k ∷ used) next
    ]

-- The target's metadata names nothing outside the target folder.
unfoldable pub names_local : Config → ℕ → ℕ → Bool
unfolding disk_entry base
names_local c zero i = true
names_local c (suc n) i =
    let v = disk_entry c i in not (v ≟ []) && v ≟ base v && names_local c n (suc i)

module _ {W : Type 0} ⦃host : Host W⦄ where
  -- liveMetadata.
  unfoldable pub live_metadata : Report → Text → M W Meta
  unfolding vmsd_name find_vmsd describes claim_disks names_local value path_join
  live_metadata r name = do
    files ← call (Call.list_folder r.source_dir)
    vmsd ← lift (find_vmsd (vmsd_name r) [] files)
    require (not (vmsd ≟ [])) (failure (text "the snapshot metadata file is missing"))
    raw ← call (Call.read_file vmsd)
    c ← lift (Vmx.parse raw)
    require (describes c name (length r.disks))
        (failure (text "the snapshot metadata does not describe exactly this job's snapshot"))
    target ← lift (claim_disks r c (length r.disks) 0 [] raw)
    rewritten ← lift (Vmx.parse target)
    require (names_local rewritten (length r.disks) 0) (
        failure
          (text "the target snapshot metadata would still name a disk outside the target folder"))
    pure (record {
      vmsd = vmsd;
      vmsn = path_join r.source_dir (value c (text "snapshot0.filename"));
      target = target;
    })
