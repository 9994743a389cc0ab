-- ===== src/Analyzer/Shared.antt =====
-- `sharedCheck` and `otherChain` of internal/migration/analyzer.go: no other registered machine may
-- reach a disk of the source.
use esxi_mover.Prelude.{ℕ, zero, suc, Bool, List, [], ◌∷◌, ◌&&◌, not, ◌==◌, any, if◌then◌else◌}
use esxi_mover.Prelude.Text.{Text, text, ◌≟◌, to_lower, equal_fold, has_suffix}
use esxi_mover.Prelude.Path.{dir}
use esxi_mover.Types.{failure, Vm, Datastore, Descriptor, Extent, Config}
use esxi_mover.Host.{Call, Host, M, ◌>>=◌, ◌>>◌, pure, raise, lift, require, try, call, on_reply}
use esxi_mover.Vmdk
use esxi_mover.Vmx
use esxi_mover.Esxi.Paths.{resolve_reference}

unfoldable pub is_backing : List Text → Text → Bool
is_backing backings p = any (λ b. b ≟ p) backings

-- A descriptor that has no parent.
unfoldable pub is_base : Descriptor → Bool
unfolding equal_fold text
is_base d = equal_fold d.parent_cid (text "ffffffff") && d.parent_hint ≟ []

module _ {W : Type 0} ⦃host : Host W⦄ where
  -- An error of an action that is returned in place of its own.
  unfoldable pub or_fail : {A : Type 0} → Text → M W A → M W A
  or_fail m action = do reply ← try action; on_reply reply (λ a. pure a) λ e. raise (failure m)

  -- The canonical path of a link of a chain: not one of the source, and in the folder of the chain.
  unfoldable pub link : List Datastore → List Text → Text → Text → Text → Text → M W Text
  unfolding resolve_reference is_backing
  link ds backings folder ref shared leaves = do
    p ← lift (resolve_reference ref folder ds)
    c ← call (Call.canonical p)
    require (not (is_backing backings c)) (failure shared)
    require (dir c ≟ folder) (failure leaves)
    pure c

  unfoldable pub extent_links : List Datastore → List Text → Text → List Extent → M W (Unit {0})
  extent_links ds backings folder [] = pure tt
  extent_links ds backings folder (e ∷ es) = do
    p ←
        link ds backings folder e.file (text "another registered VM shares a source extent")
          (text "another VM's extent leaves its own directory; isolation cannot be proven")
    extent_links ds backings folder es

  -- The parent of a descriptor.
  unfoldable pub parent_link : List Datastore → List Text → Text → Descriptor → M W Descriptor
  parent_link ds backings folder d = do
    require (not (d.parent_hint ≟ [])) (
        failure (
          text
            "another VM has a parent chain with no resolvable parent; isolation cannot be proven"))
    p ←
        link ds backings folder d.parent_hint
          (text "another VM's snapshot chain references a source disk")
          (text "another VM's chain leaves its own directory; isolation cannot be proven")
    raw ← or_fail (text "cannot read a parent in another VM's chain") (call (Call.read_file p))
    or_fail (text "unreadable parent descriptor in another VM's chain") (lift (Vmdk.parse raw))

  -- The loop of otherChain, with `n` links left.
  unfoldable pub chain_links : ℕ → List Datastore → List Text → Text → Descriptor → M W (Unit {0})
  unfolding is_base
  chain_links zero ds backings folder d =
      raise (failure (text "another VM's disk chain is too deep to verify"))
  chain_links (suc n) ds backings folder d = do
    extent_links ds backings folder d.extents
    if is_base d
        then pure tt
        else (do parent ← parent_link ds backings folder d; chain_links n ds backings folder parent)

  -- otherChain: the depths 0 to 32.
  unfoldable pub other_chain : List Datastore → List Text → Text → Descriptor → M W (Unit {0})
  unfolding dir
  other_chain ds backings ref d = chain_links 33 ds backings (dir ref) d

  -- One entry of another machine's configuration.
  unfoldable pub shared_entry : List Datastore → List Text → Text → Text → Text → M W (Unit {0})
  unfolding has_suffix to_lower resolve_reference is_backing dir
  shared_entry ds backings p k v =
      if not (has_suffix (to_lower v) (text ".vmdk")) then pure tt else (do
        require (has_suffix k (text ".filename"))
            (failure (text "unclassified disk dependency in another VM"))
        ref ← lift (resolve_reference v (dir p) ds)
        c ← call (Call.canonical ref)
        require (not (is_backing backings c))
            (failure (text "another registered VM references a source disk"))
        raw ← or_fail (text "cannot exclude shared disk backing") (call (Call.read_file c))
        d ←
            or_fail (text "unreadable other-VM descriptor; cannot exclude shared backing")
              (lift (Vmdk.parse raw))
        other_chain ds backings c d)

  unfoldable pub shared_entries : List Datastore → List Text → Text → Config → M W (Unit {0})
  shared_entries ds backings p [] = pure tt
  shared_entries ds backings p ((k, v) ∷ rest) = do
    shared_entry ds backings p k v
    shared_entries ds backings p rest

  -- Another machine.
  unfoldable pub shared_vm : List Datastore → List Text → Vm → M W (Unit {0})
  unfolding resolve_reference
  shared_vm ds backings v = do
    ref ← lift (resolve_reference v.vmx_path [] ds)
    p ← or_fail (text "cannot inspect another registered VM") (call (Call.canonical ref))
    raw ← or_fail (text "cannot inspect another registered VM") (call (Call.read_file p))
    cfg ←
        or_fail (text "another VM has unrecognized configuration; shared disks cannot be excluded")
          (lift (Vmx.parse raw))
    shared_entries ds backings p cfg

  -- sharedCheck.
  unfoldable pub shared_check : List Vm → List Datastore → ℕ → List Text → M W (Unit {0})
  shared_check [] ds id backings = pure tt
  shared_check (v ∷ vs) ds id backings = do
    if v.id == id then pure tt else shared_vm ds backings v
    shared_check vs ds id backings
