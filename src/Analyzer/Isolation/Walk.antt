-- ===== src/Analyzer/Isolation/Walk.antt =====
-- The links of another machine's chain that `otherChain` of internal/migration/analyzer.go follows.
use esxi_mover.Prelude.{ℕ, zero, suc, ◌≡◌, refl, sym, subst, true, List, [], ◌∷◌, inl, inr}
use esxi_mover.Prelude.Text.{Text}
use esxi_mover.Prelude.Path.{dir}
use esxi_mover.Types.{Err, failure, Reply, got, Datastore, Descriptor, Extent}
use esxi_mover.Vmdk
use esxi_mover.Host.{
  Call, Host, St, Res, M, ok, err, cut, of_reply, call, lift, try, caught, on_reply, pure, raise,
  after, ◌>>=◌, ◌>>◌,
}
use esxi_mover.Host.Hoare.{Keeps, Keeps-bind}
use esxi_mover.Host.Clock.{ok_got}
use esxi_mover.Host.Outcome.{Ends}
use esxi_mover.Host.From.{From, Ends-From, From-bind, From-Ends, From-pure, From-if, From-require}
use esxi_mover.Esxi.Paths.{resolve_reference}
use esxi_mover.Analyzer.Shared.{
  is_base, or_fail, link, extent_links, parent_link, chain_links, other_chain,
}
use esxi_mover.Analyzer.Isolation.{Apart, chain_links-Good}
use esxi_mover.Analyzer.Isolation.Links.{
  names, holds, held_in, Followed, AllFollowed, Parent, Walked, or_left, and_refl, Followed-Lasting,
  AllFollowed-Lasting, Parent-Lasting, call-Seen, extent_links-Seen, parent_link-Seen,
  chain_links-Seen,
}

module _ {W A : Type 0} {P : St W → Type 0} {Q : A → St W → Type 0} where
  From-both : (m : M W A) → Keeps P m → Ends Q m → From P (λ a s. P s × Q a s) m
  From-both m k e = record { at = λ s p a h. (k.at s p, e.at s a h) }

module _ {W A : Type 0} where
  -- `or_fail` after its action.
  abbrev settled : Text → Res A × St W → Res A × St W
  settled m x =
      after (λ reply. on_reply reply (λ b. pure b) (λ e. raise {A = A} (failure m))) (caught x)

  settled-value : (m : Text) (x : Res A × St W) (a : A) → (settled m x).0 ≡ ok a → x.0 ≡ ok a
  unfolding after caught on_reply pure raise
  settled-value m (ok b, s) a h = h
  settled-value m (err e, s) a h = cc h
  settled-value m (cut, s) a h = cc h

  settled-state :
      (m : Text) (x : Res A × St W) (a : A) → (settled m x).0 ≡ ok a → (settled m x).1 ≡ x.1
  unfolding after caught on_reply pure raise
  settled-state m (ok b, s) a h = refl
  settled-state m (err e, s) a h = cc h
  settled-state m (cut, s) a h = cc h

module _ {W A : Type 0} ⦃host : Host W⦄ {P : St W → Type 0} {Q : A → St W → Type 0} where
  From-or_fail : (m : Text) (action : M W A) → From P Q action → From P Q (or_fail m action)
  unfolding or_fail try ◌>>=◌
  From-or_fail m action f = record {
    at = λ s p a h.
        subst (Q a) (sym (settled-state m (action s) a h))
          (f.at s p a (settled-value m (action s) a h));
  }

module _ {W A : Type 0} {Q : A → St W → Type 0} where
  unconditional : (m : M W A) → From (λ s. Unit) Q m → Ends Q m
  unconditional m f = record { at = λ s a h. f.at s tt a h }

  raise-Ends : (e : Err) → Ends Q (raise e)
  unfolding raise
  raise-Ends e = record { at = λ s a h. cc h }

module _ {W A : Type 0} where
  lift-Ends : (r : Reply A) → Ends {W = W} (λ a s. r ≡ got a) (lift r)
  unfolding lift
  lift-Ends r = record { at = λ s a h. ok_got r a h }

answer_named :
    (p q : Text) (x : Reply Text) → of_reply x ≡ ok q → names p q (Call.canonical p) x ≡ true
answer_named p q x h = rw (ok_got x q h) (and_refl p q)

answer_held :
    (p q : Text) (x : Reply Text) → of_reply x ≡ ok q → holds p q (Call.read_file p) x ≡ true
answer_held p q x h = rw (ok_got x q h) (and_refl p q)

module _ {W : Type 0} ⦃host : Host W⦄ (ds : List Datastore) (backings : List Text)
    (folder : Text) where
  canonical-Followed :
      (ref p : Text)
      → From {W = W}
          (λ s. resolve_reference ref folder ds ≡ got p)
          (λ q s. Followed ds folder ref q s.trace)
          (call (Call.canonical p))
  unfolding call
  canonical-Followed ref p = record { at = λ s r q h. (p, r, or_left _ _ (answer_named p q _ h)) }

  link-Followed :
      (ref shared leaves : Text)
      → Ends {W = W}
          (λ q s. Followed ds folder ref q s.trace)
          (link ds backings folder ref shared leaves)
  unfolding link
  link-Followed ref shared leaves =
      Ends-From (λ p s. resolve_reference ref folder ds ≡ got p) _ _ (lift-Ends _)
        λ p.
          From-bind (λ q s. Followed ds folder ref q s.trace) _ _ (canonical-Followed ref p)
            λ q. From-require _ _ _ λ own. From-require _ _ _ λ inside. From-pure q (λ s h. h)

  extent_links-Followed :
      (es : List Extent)
      → Ends {W = W} (λ u s. AllFollowed ds folder es s.trace) (extent_links ds backings folder es)
  unfolding extent_links
  extent_links-Followed [] = record { at = λ s u h. tt }
  extent_links-Followed (e ∷ es) =
      Ends-From (λ q s. Followed ds folder e.file q s.trace) _ _ (link-Followed _ _ _)
        λ q. record {
          at = λ s f u h.
              let both =
                (From-both _
                    (extent_links-Seen (Followed ds folder e.file q)
                      (Followed-Lasting ds folder e.file q) ds backings folder es)
                    (extent_links-Followed es)).at
                  s f u h in
              ((q, both.0), both.1);
        }

  read-Held :
      (hint q : Text)
      → From {W = W}
          (λ s. Followed ds folder hint q s.trace)
          (λ raw s. Followed ds folder hint q s.trace × (held_in q raw s.trace ≡ true))
          (call (Call.read_file q))
  unfolding call
  read-Held hint q = record {
    at = λ s f raw h. (
      (call-Seen (Followed ds folder hint q) (Followed-Lasting ds folder hint q)
            (Call.read_file q)).at
          s f,
      or_left _ _ (answer_held q raw _ h),
    );
  }

  parse-Parent :
      (hint q raw : Text)
      → From {W = W}
          (λ s. Followed ds folder hint q s.trace × (held_in q raw s.trace ≡ true))
          (λ d s. Parent ds folder hint d s.trace)
          (lift (Vmdk.parse raw))
  unfolding lift
  parse-Parent hint q raw = record {
    at = λ s f d h. (q, raw, f.0, f.1, ok_got (Vmdk.parse raw) d h);
  }

  parent_link-Parent :
      (d : Descriptor)
      → From {W = W}
          (λ s. Unit)
          (λ d' s. Parent ds folder d.parent_hint d' s.trace)
          (parent_link ds backings folder d)
  unfolding parent_link
  parent_link-Parent d = From-require _ _ _ λ named.
      From-bind (λ q s. Followed ds folder d.parent_hint q s.trace) _ _
        (From-Ends _ (link-Followed _ _ _))
        λ q.
          From-bind
            (λ raw s. Followed ds folder d.parent_hint q s.trace × (held_in q raw s.trace ≡ true)) _
            _ (From-or_fail _ _ (read-Held d.parent_hint q))
            λ raw. From-or_fail _ _ (parse-Parent d.parent_hint q raw)

  above-Walked :
      (n : ℕ) (d : Descriptor)
      → ((d' : Descriptor)
          → Ends {W = W}
              (λ u s. Walked ds folder n d' s.trace)
              (chain_links n ds backings folder d'))
      → Ends {W = W}
          (λ u s.
            (d' : Descriptor) × Parent ds folder d.parent_hint d' s.trace
            × Walked ds folder n d' s.trace)
          (parent_link ds backings folder d >>= λ p. chain_links n ds backings folder p)
  above-Walked n d walks = unconditional _ (
      From-bind (λ d' s. Parent ds folder d.parent_hint d' s.trace) _ _ (parent_link-Parent d)
        λ d'. record {
          at = λ s k u h.
              let both =
                (From-both _
                    (chain_links-Seen (Parent ds folder d.parent_hint d')
                      (Parent-Lasting ds folder d.parent_hint d') ds backings folder n d')
                    (walks d')).at
                  s k u h in
              (d', both.0, both.1);
        })

  chain_links-Walked :
      (n : ℕ) (d : Descriptor)
      → Ends {W = W} (λ u s. Walked ds folder n d s.trace) (chain_links n ds backings folder d)
  unfolding chain_links ◌>>◌
  chain_links-Walked zero d = raise-Ends _
  chain_links-Walked (suc n) d =
      Ends-From (λ u s. AllFollowed ds folder d.extents s.trace) _ _
        (extent_links-Followed d.extents)
        λ u.
          From-if (is_base d) _ _ (λ base. From-pure tt (λ s f. (f, inl base)))
            λ above. record {
              at = λ s f u' h.
                  let both =
                    (From-both _
                        (Keeps-bind _ _
                          (parent_link-Seen (AllFollowed ds folder d.extents)
                            (AllFollowed-Lasting ds folder d.extents) ds backings folder d)
                          (λ p.
                            chain_links-Seen (AllFollowed ds folder d.extents)
                              (AllFollowed-Lasting ds folder d.extents) ds backings folder n p))
                        (above-Walked n d (λ d'. chain_links-Walked n d'))).at
                      s f u' h in
                  (both.0, inr (both.1));
            }

module _ {W : Type 0} ⦃host : Host W⦄ where
  -- If the disk chain of another machine passes, then the host was asked for the canonical path of
  -- every extent of it, from its first descriptor to its base, and for that of every parent, whose
  -- content it gave; and every path that the host named is none of the source's and lies in the
  -- folder of the chain.
  pub other_chain-Apart :
      (ds : List Datastore) (backings : List Text) (ref : Text) (d : Descriptor) (s : St W)
      → s.trace ≡ []
      → (other_chain ds backings ref d s).0 ≡ ok tt
      → Walked ds (dir ref) 33 d (other_chain ds backings ref d s).1.trace
        × Apart backings (dir ref) (other_chain ds backings ref d s).1.trace
  unfolding other_chain
  other_chain-Apart ds backings ref d s new passes = (
    (chain_links-Walked ds backings (dir ref) 33 d).at s tt passes,
    (chain_links-Good backings (dir ref) 33 ds d).at s
        (subst (Apart backings (dir ref)) (sym new) tt) tt passes,
  )
