-- ===== src/Analyzer/Isolation/Links.antt =====
-- The links of another machine's chain that a trace shows to be followed, for `otherChain` of
-- internal/migration/analyzer.go.
use esxi_mover.Prelude.{ℕ, zero, suc, ◌≡◌, refl, Bool, true, false, List, [], ◌∷◌, ◌&&◌, ◌||◌, ◌⊎◌}
use esxi_mover.Prelude.Text.{Text, ◌≟◌, ≟_iff}
use esxi_mover.Types.{Reply, got, Datastore, Descriptor, Extent}
use esxi_mover.Vmdk
use esxi_mover.Host.{Call, Answer, Event, Host, St, M, call}
use esxi_mover.Host.Hoare.{
  Keeps, Keeps-bind, Keeps-then, Keeps-try, Keeps-lift, Keeps-pure, Keeps-raise, Keeps-on_reply,
  Keeps-require, Keeps-if,
}
use esxi_mover.Esxi.Paths.{resolve_reference}
use esxi_mover.Analyzer.Shared.{is_base, or_fail, link, extent_links, parent_link, chain_links}

-- The host answered that this is the canonical path of that one.
abbrev pub names : Text → Text → (c : Call) → Reply (Answer c) → Bool
names p q (Call.canonical p') (got q') = p' ≟ p && q' ≟ q
names p q _ r = false

-- The host answered that this file has this content.
abbrev pub holds : Text → Text → (c : Call) → Reply (Answer c) → Bool
holds q raw (Call.read_file q') (got raw') = q' ≟ q && raw' ≟ raw
holds q raw _ r = false

abbrev pub named_in : Text → Text → List Event → Bool
named_in p q [] = false
named_in p q (e ∷ t) = let rest = named_in p q t in names p q e.call e.reply || rest

abbrev pub held_in : Text → Text → List Event → Bool
held_in q raw [] = false
held_in q raw (e ∷ t) = let rest = held_in q raw t in holds q raw e.call e.reply || rest

module _ (ds : List Datastore) (folder : Text) where
  -- A reference whose canonical path the host was asked for, with this answer.
  abbrev pub Followed : Text → Text → List Event → Type 0
  Followed ref q t =
      (p : Text) × (resolve_reference ref folder ds ≡ got p) × (named_in p q t ≡ true)

  abbrev pub AllFollowed : List Extent → List Event → Type 0
  AllFollowed [] t = Unit
  AllFollowed (e ∷ es) t = ((q : Text) × Followed e.file q t) × AllFollowed es t

  -- The parent that a descriptor names: its path was followed, and the file read and understood.
  abbrev pub Parent : Text → Descriptor → List Event → Type 0
  Parent hint d t =
      (q : Text) × (raw : Text) × Followed hint q t
      × (held_in q raw t ≡ true)
      × (Vmdk.parse raw ≡ got d)

  -- A chain of fewer than so many links that was followed from this descriptor to its base: every
  -- extent on the way, and every parent.
  abbrev pub Walked : ℕ → Descriptor → List Event → Type 0
  Walked zero d t = ⊥
  Walked (suc n) d t =
      AllFollowed d.extents t
      × ((is_base d ≡ true) ⊎ ((d' : Descriptor) × Parent d.parent_hint d' t × Walked n d' t))

pub or_right : (a b : Bool) → b ≡ true → (a || b) ≡ true
or_right true b h = refl
or_right false b h = h

pub or_left : (a b : Bool) → a ≡ true → (a || b) ≡ true
or_left true b h = refl
or_left false b h = cc h

pub and_refl : (p q : Text) → (p ≟ p && q ≟ q) ≡ true
and_refl p q = rw ((≟_iff p p).1 refl) ((≟_iff q q).1 refl)

-- What is seen stays seen.
abbrev pub Lasting : (List Event → Type 0) → Type 0
Lasting P = (e : Event) (t : List Event) → P t → P (e ∷ t)

module _ (ds : List Datastore) (folder : Text) where
  pub Followed-Lasting : (ref q : Text) → Lasting (Followed ds folder ref q)
  Followed-Lasting ref q e t h = (h.0, h.1, or_right _ _ (h.2))

  pub AllFollowed-Lasting : (es : List Extent) → Lasting (AllFollowed ds folder es)
  AllFollowed-Lasting [] e t h = tt
  AllFollowed-Lasting (x ∷ es) e t h =
      ((h.0.0, Followed-Lasting x.file (h.0.0) e t (h.0.1)), AllFollowed-Lasting es e t (h.1))

  pub Parent-Lasting : (hint : Text) (d : Descriptor) → Lasting (Parent ds folder hint d)
  Parent-Lasting hint d e t h =
      (h.0, h.1, Followed-Lasting hint (h.0) e t (h.2), or_right _ _ (h.3), h.4)

abbrev pub Seen : {W : Type 0} → (List Event → Type 0) → St W → Type 0
Seen P s = P s.trace

module _ {W : Type 0} ⦃host : Host W⦄ (P : List Event → Type 0) (lasting : Lasting P) where
  pub call-Seen : (c : Call) → Keeps {W = W} (Seen P) (call c)
  unfolding call
  call-Seen c = record { at = λ s h. lasting _ s.trace h }

  or_fail-Seen :
      {A : Type 0} (m : Text) (action : M W A)
      → Keeps (Seen P) action
      → Keeps (Seen P) (or_fail m action)
  unfolding or_fail
  or_fail-Seen m action k =
      Keeps-bind _ _ (Keeps-try _ k)
        λ x. Keeps-on_reply x _ _ (λ a. Keeps-pure a) (λ e. Keeps-raise _)

  module _ (ds : List Datastore) (backings : List Text) (folder : Text) where
    pub link-Seen :
        (ref shared leaves : Text)
        → Keeps {W = W} (Seen P) (link ds backings folder ref shared leaves)
    unfolding link
    link-Seen ref shared leaves = Keeps-bind _ _ (Keeps-lift _) λ p.
        Keeps-bind _ _ (call-Seen (Call.canonical p)) λ c.
          Keeps-then _ _ (Keeps-require _ _) (Keeps-then _ _ (Keeps-require _ _) (Keeps-pure c))

    pub extent_links-Seen :
        (es : List Extent) → Keeps {W = W} (Seen P) (extent_links ds backings folder es)
    unfolding extent_links
    extent_links-Seen [] = Keeps-pure tt
    extent_links-Seen (e ∷ es) = Keeps-bind _ _ (link-Seen _ _ _) λ p. extent_links-Seen es

    pub parent_link-Seen :
        (d : Descriptor) → Keeps {W = W} (Seen P) (parent_link ds backings folder d)
    unfolding parent_link
    parent_link-Seen d = Keeps-then _ _ (Keeps-require _ _) (
        Keeps-bind _ _ (link-Seen _ _ _) λ p.
          Keeps-bind _ _ (or_fail-Seen _ _ (call-Seen (Call.read_file p)))
            λ raw. or_fail-Seen _ _ (Keeps-lift _))

    pub chain_links-Seen :
        (n : ℕ) (d : Descriptor) → Keeps {W = W} (Seen P) (chain_links n ds backings folder d)
    unfolding chain_links
    chain_links-Seen zero d = Keeps-raise _
    chain_links-Seen (suc n) d = Keeps-then _ _ (extent_links-Seen d.extents) (
        Keeps-if _ _ _ (Keeps-pure tt)
          (Keeps-bind _ _ (parent_link-Seen d) λ p. chain_links-Seen n p))
