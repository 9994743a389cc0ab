-- ===== src/Tests/Analyzer.antt =====
-- The theorems about what the host lists and about other machines' disks, applied to a small host.
use esxi_mover.Prelude.{refl, true, List, [], ◌∷◌}
use esxi_mover.Prelude.Text.{text}
use esxi_mover.Prelude.Path.{dir}
use esxi_mover.Types.{Descriptor}
use esxi_mover.Engine.Registry.{Settled, Agrees, ids_at, registrations-Agrees}
use esxi_mover.Engine.Steps.{registrations}
use esxi_mover.Esxi.Paths.{resolve_reference}
use esxi_mover.Host.{Event, ◌>>◌, lift, call, require}
use esxi_mover.Analyzer.Shared.{other_chain, chain_links, extent_links, link}
use esxi_mover.Analyzer.Isolation.{Apart}
use esxi_mover.Analyzer.Isolation.Links.{Walked}
use esxi_mover.Analyzer.Isolation.Walk.{other_chain-Apart}
use esxi_mover.Tests.{plain_host, plain_report, plain_vm, plain_store, start}

plain_host-Settled : Settled (plain_host plain_report) (plain_vm ∷ []) (plain_store ∷ []) (λ p. p)
plain_host-Settled = record { vms = λ w. refl; datastores = λ w. refl; canonical = λ w p. refl }

registrations-Agrees_example :
    Agrees
      (registrations ⦃host = plain_host plain_report⦄
        (text "/vmfs/volumes/a1/web/web.vmx")
        (text "/vmfs/volumes/b2/web/web.vmx")
        (start plain_report)).0
      (ids_at (λ p. p) (plain_store ∷ []) (text "/vmfs/volumes/a1/web/web.vmx") (plain_vm ∷ []))
      (ids_at (λ p. p) (plain_store ∷ []) (text "/vmfs/volumes/b2/web/web.vmx") (plain_vm ∷ []))
unfolding resolve_reference text
registrations-Agrees_example =
    registrations-Agrees ⦃host = plain_host plain_report⦄ plain_host-Settled
      (text "/vmfs/volumes/a1/web/web.vmx") (text "/vmfs/volumes/b2/web/web.vmx")
      (start plain_report) refl

abbrev other_disk : Descriptor
other_disk = record {
  cid = text "0000abcd";
  parent_cid = text "ffffffff";
  parent_hint = [];
  create_type = text "vmfs";
  extents = record { sectors = 2048; kind = text "VMFS"; file = text "db-flat.vmdk" } ∷ [];
  thin = true;
  bytes = 2048;
  fields = [];
}

abbrev checked_trace : List Event
checked_trace =
    (other_chain ⦃host = plain_host plain_report⦄ (plain_store ∷ [])
      (text "/vmfs/volumes/a1/web/web-flat.vmdk" ∷ []) (text "/vmfs/volumes/a1/db/db.vmdk")
      other_disk (start plain_report)).1.trace

other_chain-Apart_example :
    Walked (plain_store ∷ []) (dir (text "/vmfs/volumes/a1/db/db.vmdk")) 33 other_disk checked_trace
    × Apart
        (text "/vmfs/volumes/a1/web/web-flat.vmdk" ∷ [])
        (dir (text "/vmfs/volumes/a1/db/db.vmdk"))
        checked_trace
unfolding other_chain chain_links ◌>>◌ extent_links link lift call require
other_chain-Apart_example =
    other_chain-Apart ⦃host = plain_host plain_report⦄ (plain_store ∷ [])
      (text "/vmfs/volumes/a1/web/web-flat.vmdk" ∷ []) (text "/vmfs/volumes/a1/db/db.vmdk")
      other_disk (start plain_report) refl refl
