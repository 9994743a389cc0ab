-- ===== src/Live/Frame/Reads.antt =====
-- What a live migration reads keeps what its calls keep: the deltas, the guard, the metadata and
-- the checks of the copies.
use esxi_mover.Prelude.{ℕ, List, [], ◌∷◌, Bool}
use esxi_mover.Prelude.Text.{Text}
use esxi_mover.Types.{Reply, Disk, Config, Report}
use esxi_mover.Host.{Host, St}
use esxi_mover.Host.Hoare.{Keeps, Keeps-then, Keeps-bind, Keeps-try, Keeps-require, Keeps-lift}
use esxi_mover.Host.Frame.{Frame, read_rules}
use esxi_mover.Prelude.Dict.{put}
use esxi_mover.Engine.Steps.{Pair}
use esxi_mover.Engine.Frame.Steps.{registrations-Keeps, verify_disk-Keeps}
use esxi_mover.Engine.Frame.Clone.{live_source_free-Keeps}
use esxi_mover.Live.Deltas.{
  Delta, Deltas, own_snapshot_only, disk_delta, disk_deltas, live_deltas, live_guard,
}
use esxi_mover.Live.Checks.{Meta, same_cid, same_size, verify_delta, verify_copies, merged}
use esxi_mover.Live.Metadata.{live_metadata}
use esxi_mover.Live.Merge.{settled}
use esxi_mover.Live.Run.{verify_chains}

module _ {W : Type 0} ⦃host : Host W⦄ {I : St W → Type 0} (frame : Frame I) where
  own_snapshot_only-Keeps : (id : ℕ) (name : Text) → Keeps I (own_snapshot_only id name)
  unfolding own_snapshot_only
  own_snapshot_only-Keeps id name = search read_rules depth 40

  disk_delta-Keeps : (r : Report) (c : Config) (d : Disk) → Keeps I (disk_delta r c d)
  unfolding disk_delta
  disk_delta-Keeps r c d = search read_rules depth 40

  disk_deltas-Keeps :
      (r : Report) (c : Config) (out : Deltas) (ds : List Disk) → Keeps I (disk_deltas r c out ds)
  unfolding disk_deltas
  disk_deltas-Keeps r c out [] = search read_rules
  disk_deltas-Keeps r c out (d ∷ ds) =
      Keeps-bind _ _ (disk_delta-Keeps r c d) λ e. disk_deltas-Keeps r c (put out d.key e) ds

  pub live_deltas-Keeps : (r : Report) (name : Text) → Keeps I (live_deltas r name)
  unfolding live_deltas
  live_deltas-Keeps r name =
      search (read_rules, own_snapshot_only-Keeps, disk_deltas-Keeps) depth 40

  pub live_guard-Keeps : (r : Report) (name : Text) (ds : Deltas) → Keeps I (live_guard r name ds)
  unfolding live_guard
  live_guard-Keeps r name ds =
      search (read_rules, registrations-Keeps, live_deltas-Keeps, live_source_free-Keeps, frame)
        depth 40

  pub same_cid-Keeps : (d : Disk) → Keeps I (same_cid d)
  unfolding same_cid
  same_cid-Keeps d = search read_rules depth 40

  same_size-Keeps : (a b : Text) → Keeps I (same_size a b)
  unfolding same_size
  same_size-Keeps a b = search read_rules depth 40

  verify_delta-Keeps : (r : Report) (d : Delta) → Keeps I (verify_delta r d)
  unfolding verify_delta
  verify_delta-Keeps r d = search (read_rules, same_size-Keeps) depth 40

  pub verify_copies-Keeps : (r : Report) (m : Meta) → Keeps I (verify_copies r m)
  unfolding verify_copies
  verify_copies-Keeps r m = search (read_rules, same_size-Keeps) depth 40

  pub verify_chains-Keeps :
      (r : Report) (deltas : Deltas) (ds : List Disk) → Keeps I (verify_chains r deltas ds)
  unfolding verify_chains
  verify_chains-Keeps r deltas [] = search read_rules
  verify_chains-Keeps r deltas (d ∷ ds) =
      Keeps-then _ _ (verify_disk-Keeps frame d)
        (Keeps-then _ _ (verify_delta-Keeps r _) (verify_chains-Keeps r deltas ds))

  pub merged-Keeps :
      (id : ℕ) (vmx : Text) (names : List (Text × Text)) → Keeps I (merged id vmx names)
  unfolding merged
  merged-Keeps id vmx names = search read_rules depth 40

  pub live_metadata-Keeps : (r : Report) (name : Text) → Keeps I (live_metadata r name)
  unfolding live_metadata
  live_metadata-Keeps r name = search read_rules depth 40

  pub settled-Keeps :
      (r : Report) (test : Reply Pair → Bool) (m : Text) → Keeps I (settled r test m)
  unfolding settled
  settled-Keeps r test m =
      Keeps-bind _ _ (Keeps-try _ (registrations-Keeps frame _ _))
        λ p. Keeps-then _ _ (Keeps-require _ _) (Keeps-lift p)
