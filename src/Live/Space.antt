-- ===== src/Live/Space.antt =====
-- The space that snapshot deltas grow into: internal/migration/live.go, and `reserve` of
-- internal/migration/analyzer.go.
pub mod Laws
use esxi_mover.Prelude.{
  ℕ, ◌+◌, ◌-◌, ◌*◌, ◌/◌, ◌^◌, Bool, true, false, Option, none, some, List, [], ◌∷◌, ltb, leb,
  if◌then◌else◌, ◌++◌,
}
use esxi_mover.Prelude.Text.{Text, text, decimal}
use esxi_mover.Types.{Err, failure, Reply, got, lost, and_then, check_that, Datastore, Disk, Report}
use esxi_mover.Esxi.Paths.{datastore_of, usable}
use esxi_mover.Vmdk.{max_int64}

-- minLiveSourceFree.
abbrev pub min_live_source_free : ℕ
min_live_source_free = 2 ^ 30

-- requireLiveSourceSpace.
unfoldable pub require_live_source_space : ℕ → Reply (Unit {0})
unfolding check_that decimal
require_live_source_space free =
    check_that (leb min_live_source_free free)
      (failure (
        text "source datastore has "
        ++ decimal (free / 2 ^ 20)
        ++ text " MiB free; live migration requires at least 1 GiB"))
      (got tt)

external_sources : List Disk → List Text
external_sources [] = []
external_sources (d ∷ ds) =
    let rest = external_sources ds in if d.external then d.source ∷ rest else rest

-- deltaPlaces.
unfoldable pub delta_places : Report → List Text
unfolding external_sources
delta_places r = r.source_vmx ∷ external_sources r.disks

gone : Err
gone = failure (text "a datastore holding a snapshot delta is no longer available as mounted VMFS")

-- The free space of the usable datastore that a place lies on.
unfoldable pub free_at : Option Datastore → Reply ℕ
unfolding gone usable check_that
free_at none = lost gone
free_at (some d) = check_that (usable d) gone (got d.free)

unfoldable pub lower_of : Option ℕ → ℕ → ℕ
lower_of none n = n
lower_of (some m) n = if ltb n m then n else m

-- The loop of `deltaFree`; `none` stands for the -1 that it starts from.
unfoldable pub least_free : List Datastore → Option ℕ → List Text → Reply (Option ℕ)
unfolding free_at lower_of and_then datastore_of
least_free ds least [] = got least
least_free ds least (p ∷ ps) =
    and_then (free_at (datastore_of p ds)) λ free. least_free ds (some (lower_of least free)) ps

-- deltaFree.
unfoldable pub delta_free : List Datastore → List Text → Reply (Option ℕ)
unfolding least_free
delta_free ds places = least_free ds none places

-- `reserve`: 15% and 1 GiB more, refused where an int64 could overflow.
unfoldable pub reserve : ℕ → Reply ℕ
unfolding check_that
reserve bytes =
    check_that (leb bytes ((max_int64 - 2 ^ 30) / 115 * 100))
      (failure (text "disk capacity overflow")) (got (bytes + bytes / 100 * 15 + 2 ^ 30))
