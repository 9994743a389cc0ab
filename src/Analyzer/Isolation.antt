-- ===== src/Analyzer/Isolation.antt =====
-- The paths that the host names for another machine's chain, in `otherChain` of
-- internal/migration/analyzer.go.
pub mod Links
pub mod Walk
use esxi_mover.Prelude.{
  ℕ, zero, suc, ◌≡◌, refl, sym, ap, subst, Bool, true, List, [], ◌∷◌, ◌&&◌, not,
}
use esxi_mover.Prelude.Text.{Text, ◌≟◌}
use esxi_mover.Prelude.Path.{dir}
use esxi_mover.Types.{Reply, got, lost, Datastore, Descriptor, Extent}
use esxi_mover.Host.{Call, Answer, Event, Host, St, M, ok, of_reply, call}
use esxi_mover.Host.Hoare.{
  Keeps, Keeps-bind, Keeps-try, Keeps-lift, Keeps-pure, Keeps-raise, Keeps-on_reply,
}
use esxi_mover.Host.Outcome.{value_or}
use esxi_mover.Host.From.{
  From, From-bind, From-Keeps, From-pure, From-seq, From-choice, From-require,
}
use esxi_mover.Analyzer.Shared.{
  is_backing, or_fail, link, extent_links, parent_link, chain_links, other_chain,
}

module _ (backings : List Text) (folder : Text) where
  -- A path that is none of the source's, and lies in the folder.
  abbrev pub is_apart : Text → Bool
  is_apart p = not (is_backing backings p) && dir p ≟ folder

  abbrev pub event_apart : (c : Call) → Reply (Answer c) → Bool
  event_apart (Call.canonical p) (got q) = is_apart q
  event_apart _ r = true

  -- Every file that was resolved is apart.
  abbrev pub Apart : List Event → Type 0
  Apart [] = Unit
  Apart (e ∷ t) = (event_apart e.call e.reply ≡ true) × Apart t

  -- The last file is not known to be yet.
  abbrev Pending : Text → List Event → Type 0
  Pending q [] = ⊥
  Pending q (e ∷ t) = (event_apart e.call e.reply ≡ is_apart q) × Apart t

  settle :
      (q : Text) (t : List Event)
      → not (is_backing backings q) ≡ true
      → (dir q ≟ folder) ≡ true
      → Pending q t
      → Apart t
  settle q [] a b p = elim p [ ]
  settle q (e ∷ t) a b p = (cc (p.0, a, b), p.1)

  reply_apart :
      (p q : Text) (x : Reply Text)
      → of_reply x ≡ ok q
      → event_apart (Call.canonical p) x ≡ is_apart q
  unfolding of_reply value_or
  reply_apart p q (got r) h = ap is_apart (ap (value_or q) h)
  reply_apart p q (lost e) h = cc h

  module _ {W : Type 0} ⦃host : Host W⦄ where
    abbrev Good : St W → Type 0
    Good s = Apart s.trace

    canonical-From :
        (p : Text) → From {W = W} Good (λ q s. Pending q s.trace) (call (Call.canonical p))
    unfolding call
    canonical-From p = record {
      at = λ s h q e. (reply_apart p q (host.ask s.world (Call.canonical p)).0 e, h);
    }

    read_file-Good : (p : Text) → Keeps {W = W} Good (call (Call.read_file p))
    unfolding call
    read_file-Good p = record { at = λ s h. (refl, h) }

    or_fail-Good :
        {A : Type 0} (m : Text) (action : M W A) → Keeps Good action → Keeps Good (or_fail m action)
    unfolding or_fail
    or_fail-Good m action k =
        Keeps-bind _ _ (Keeps-try _ k)
          λ x. Keeps-on_reply x _ _ (λ a. Keeps-pure a) (λ e. Keeps-raise _)

    link-Good :
        (ds : List Datastore) (ref shared leaves : Text)
        → From {W = W} Good (λ q s. Good s) (link ds backings folder ref shared leaves)
    unfolding link
    link-Good ds ref shared leaves =
        From-bind (λ p s. Good s) _ _ (From-Keeps _ (Keeps-lift _))
          λ p.
            From-bind (λ q s. Pending q s.trace) _ _ (canonical-From p)
              λ q. From-require _ _ _ λ own.
                From-require _ _ _
                  λ inside. From-pure q (λ s pending. settle q s.trace own inside pending)

    extent_links-Good :
        (ds : List Datastore) (es : List Extent)
        → From {W = W} Good (λ u s. Good s) (extent_links ds backings folder es)
    unfolding extent_links
    extent_links-Good ds [] = From-pure _ (λ s h. h)
    extent_links-Good ds (e ∷ es) =
        From-bind (λ q s. Good s) _ _ (link-Good ds _ _ _) λ q. extent_links-Good ds es

    parent_link-Good :
        (ds : List Datastore) (d : Descriptor)
        → From {W = W} Good (λ u s. Good s) (parent_link ds backings folder d)
    unfolding parent_link
    parent_link-Good ds d = From-require _ _ _ λ named.
        From-bind (λ q s. Good s) _ _ (link-Good ds _ _ _)
          λ q. From-Keeps _ (
            Keeps-bind _ _ (or_fail-Good _ _ (read_file-Good q))
              λ raw. or_fail-Good _ _ (Keeps-lift _))

    pub chain_links-Good :
        (n : ℕ) (ds : List Datastore) (d : Descriptor)
        → From {W = W} Good (λ u s. Good s) (chain_links n ds backings folder d)
    unfolding chain_links
    chain_links-Good zero ds d = From-Keeps _ (Keeps-raise _)
    chain_links-Good (suc n) ds d = From-seq Good _ _ (extent_links-Good ds d.extents) (
        From-choice _ _ _ (From-pure _ (λ s h. h))
          (From-bind (λ p s. Good s) _ _ (parent_link-Good ds d) λ p. chain_links-Good n ds p))
