-- ===== src/Engine/Switch.antt =====
-- The switch of the registrations (`commit` of internal/migration/engine.go) against what the host's
-- inventory really holds when it ends.
use esxi_mover.Prelude.{
  ℕ, ◌≡◌, ◌≢◌, refl, sym, ap, subst, List, true, false, ◌==◌, ◌⊎◌, inl, inr, arith, ◌∙◌,
}
use esxi_mover.Prelude.Text.{Text, text}
use esxi_mover.Types.{Err, failure, is_off, Report, Reply, got, lost, Vm, Datastore}
use esxi_mover.Job.{Phase, Registration}
use esxi_mover.Host.{
  Call, Host, St, Res, ok, err, cut, caught, call, update, modify, try, pure, raise, require,
  on_reply, ◌>>=◌, ◌>>◌,
}
use esxi_mover.Host.Hoare.{Keeps, Keeps-then, Keeps-bind, Keeps-try, Keeps-get_job, Keeps-require}
use esxi_mover.Host.Frame.{Frame, is_read, phase-Keeps, power-Keeps}
use esxi_mover.Host.Triple.{
  Triple, Outcome, Triple-bind, Triple-then, Triple-Keeps, Triple-Ends, Triple-pure, Triple-raise,
  Triple-if, Triple-choice, Triple-require, Triple-given,
}
use esxi_mover.Engine.Steps.{Pair, registrations}
use esxi_mover.Engine.Registry.Readings.{Readable, pair_at, registrations-right}
use esxi_mover.Engine.Frame.Steps.{registrations-Keeps, require_off-Keeps, publish-Keeps}
use esxi_mover.Engine.Frame.Switch.{
  publish_if-Keeps, source_is-Keeps, target_is-Keeps, switched-Keeps, target_power_is-Keeps,
}
use esxi_mover.Engine.Commit.{
  read_pair, restore_registration, unregister_off, unregister_source, register_target, commit,
  source_is, target_is, switched, target_power_is,
}

-- The inventory behind a host: a list of machines, of which the first at each of the two paths of a
-- plan counts, 0 where there is none. Nobody else changes it; an unregistering brings no machine to a
-- path, and a registering at one path leaves the other alone; each may take effect although its reply
-- is lost. The list that is read is the one that is there.
pub record Inventory {W : Type 0} (host : Host W) (r : Report) (machines : W → List Vm)
    (ds : List Datastore) (canon : Text → Text) (view : W → Pair) : Type 0 where
  pub views : (w : W) → view w ≡ pair_at canon ds r.source_vmx r.target_vmx (machines w)
  pub readable : Readable host machines ds canon
  pub reads : (w : W) (c : Call) → is_read c ≡ true → view (host.ask w c).1 ≡ view w
  pub unregisters :
      (w : W) (id : ℕ)
      → ((view w).src ≡ 0 → (view (host.ask w (Call.unregister id)).1).src ≡ 0)
        × ((view w).dst ≡ 0 → (view (host.ask w (Call.unregister id)).1).dst ≡ 0)
  pub registers_target :
      (w : W) → (view (host.ask w (Call.register r.target_vmx)).1).src ≡ (view w).src
  pub registers_source :
      (w : W) → (view (host.ask w (Call.register r.source_vmx)).1).dst ≡ (view w).dst

-- Not both, and only the target.
abbrev pub NotBoth : Pair → Type 0
NotBoth v = (v.src ≡ 0) ⊎ (v.dst ≡ 0)

abbrev pub Switched : Pair → Type 0
Switched v = (v.src ≡ 0) × (v.dst ≢ 0)

-- What the inventory holds after a switch that began with not both registered.
abbrev pub Holds : Res (Unit {0}) → Pair → Type 0
Holds (ok u) v = Switched v
Holds (err e) v = NotBoth v
Holds cut v = NotBoth v

is_zero : (n : ℕ) → (n == 0) ≡ true → n ≡ 0
is_zero n h = ground arith

not_zero : (n : ℕ) → (n == 0) ≡ false → n ≢ 0
not_zero n h = λ e. cc (h, e)

module _ {W : Type 0} ⦃host : Host W⦄ {r : Report} {machines : W → List Vm} {ds : List Datastore}
    {canon : Text → Text} {view : W → Pair}
    (inventory : Inventory host r machines ds canon view) where
  record On (F : Pair → Type 0) (s : St W) : Type 0 where
    on : F (view s.world)

  frame : (F : Pair → Type 0) → Frame {W = W} (On F)
  unfolding call update modify
  frame F = record {
    reads = λ c h. record {
      at = λ s o. record { on = subst F (sym (inventory.reads s.world c h)) o.on };
    };
    jobs = λ f h. record { at = λ s o. record { on = o.on } };
    updates = λ f h. record { at = λ s o. record { on = o.on } };
  }

  unregister_keeps :
      (v w : Pair) → ((v.src ≡ 0 → w.src ≡ 0) × (v.dst ≡ 0 → w.dst ≡ 0)) → NotBoth v → NotBoth w
  unregister_keeps v w h n = elim n [ inl gone ↦ inl (h.0 gone) | inr gone ↦ inr (h.1 gone) ]

  unregister-On : (id : ℕ) → Keeps {W = W} (On NotBoth) (call (Call.unregister id))
  unfolding call
  unregister-On id = record {
    at = λ s o. record {
      on =
          unregister_keeps (view s.world) (view (host.ask s.world (Call.unregister id)).1)
            (inventory.unregisters s.world id) o.on;
    };
  }

  register_target-On : Keeps {W = W} (On (λ v. v.src ≡ 0)) (call (Call.register r.target_vmx))
  unfolding call
  register_target-On = record {
    at = λ s o. record { on = inventory.registers_target s.world ∙ o.on };
  }

  register_source-On : Keeps {W = W} (On (λ v. v.dst ≡ 0)) (call (Call.register r.source_vmx))
  unfolding call
  register_source-On = record {
    at = λ s o. record { on = inventory.registers_source s.world ∙ o.on };
  }

  same_view :
      (s : St W)
      → Keeps {W = W} (On (λ v. view s.world ≡ v)) (registrations r.source_vmx r.target_vmx)
  same_view s = registrations-Keeps (frame (λ v. view s.world ≡ v)) _ _

  accurate :
      (s : St W) (p : Pair)
      → (registrations r.source_vmx r.target_vmx s).0 ≡ ok p
      → p ≡ view (registrations r.source_vmx r.target_vmx s).1.world
  accurate s p h =
      registrations-right inventory.readable r.source_vmx r.target_vmx s p h
      ∙ sym (inventory.views s.world)
      ∙ ((same_view s).at s (record { on = refl })).on

  -- What a read pair says of the inventory.
  read-On :
      (F : Pair → Type 0)
      → ((v : Pair) → F v → NotBoth v)
      → Triple {W = W}
          (On F)
          (λ p s. On (λ v. F v × (p ≡ v)) s)
          (On NotBoth)
          (registrations r.source_vmx r.target_vmx)
  read-On F weak =
      Triple-Ends _ (registrations-Keeps (frame F) _ _) (λ s o. record { on = weak _ o.on })
        λ s o p h kept. record { on = (kept.on, accurate s p h) }

  -- A reply that is a pair says the same.
  Tried : (Pair → Type 0) → Reply Pair → St W → Type 0
  Tried F (got p) s = On (λ v. F v × (p ≡ v)) s
  Tried F (lost e) s = On NotBoth s

  caught-Tried :
      (F : Pair → Type 0) (x : Res Pair × St W)
      → Outcome (λ p s. On (λ v. F v × (p ≡ v)) s) (On NotBoth) x
      → Outcome (Tried F) (On NotBoth) (caught x)
  unfolding caught Tried
  caught-Tried F (ok p, s) o = o
  caught-Tried F (err e, s) o = o
  caught-Tried F (cut, s) o = o

  Tried-On :
      (F : Pair → Type 0)
      → ((v : Pair) → F v → NotBoth v)
      → Triple {W = W} (On F) (Tried F) (On NotBoth) (try (registrations r.source_vmx r.target_vmx))
  unfolding try
  Tried-On F weak = record {
    at =
        λ s o. caught-Tried F (registrations r.source_vmx r.target_vmx s) ((read-On F weak).at s o);
  }

  settle-On :
      (F : Pair → Type 0) (e : Err) (x : Reply Pair)
      → Triple {W = W}
          (Tried F x)
          (λ p s. On (λ v. F v × (p ≡ v)) s)
          (On NotBoth)
          (on_reply x (λ p. pure p) λ e'. raise e)
  unfolding on_reply Tried
  settle-On F e (got p) = Triple-pure p (λ s o. o)
  settle-On F e (lost e') = Triple-raise e (λ s o. o)

  read_pair-On :
      (F : Pair → Type 0) (m : Text)
      → ((v : Pair) → F v → NotBoth v)
      → Triple {W = W} (On F) (λ p s. On (λ v. F v × (p ≡ v)) s) (On NotBoth) (read_pair r m)
  unfolding read_pair
  read_pair-On F m weak = Triple-bind (Tried F) _ _ (Tried-On F weak) λ x. settle-On F _ x

  unregister_off-On : (id : ℕ) → Keeps {W = W} (On NotBoth) (unregister_off id)
  unfolding unregister_off
  unregister_off-On id = Keeps-then _ _ (require_off-Keeps (frame NotBoth) id) (
      Keeps-then _ _ (phase-Keeps (frame NotBoth) Phase.commit _ refl) (
        Keeps-then _ _ (source_is-Keeps (frame NotBoth) Registration.unsure)
          (Keeps-try _ (unregister-On id))))

  unregister_source-On :
      Triple {W = W} (On NotBoth) (λ u s. On (λ v. v.src ≡ 0) s) (On NotBoth) (unregister_source r)
  unfolding unregister_source
  unregister_source-On =
      Triple-bind (λ p s. On NotBoth s) _ _
        (Triple-Keeps _ (registrations-Keeps (frame NotBoth) _ _) (λ s o. o))
        λ p.
          Triple-require _ _ _ (λ s o. o)
            λ alone.
              Triple-bind (λ u s. On NotBoth s) _ _
                (Triple-Keeps _ (unregister_off-On p.src) (λ s o. o))
                λ u.
                  Triple-bind (λ q s. On (λ v. NotBoth v × (q ≡ v)) s) _ _
                    (read_pair-On NotBoth _ (λ v n. n))
                    λ q.
                      Triple-then (On (λ v. NotBoth v × (q ≡ v))) _ _
                        (Triple-Keeps _ (publish-Keeps (frame _) q) (λ s o. record { on = o.on.0 }))
                        (Triple-if _ _ _
                          (λ gone.
                            Triple-then (On (λ v. NotBoth v × (q ≡ v))) _ _
                              (Triple-Keeps _
                                (source_is-Keeps (frame _) Registration.not_registered)
                                (λ s o. record { on = o.on.0 }))
                              (Triple-Ends _ (Keeps-require _ _) (λ s o. record { on = o.on.0 })
                                λ s o a h kept. record {
                                  on = ap (λ v. v.src) (sym (kept.on.1)) ∙ is_zero q.src gone;
                                }))
                          (λ there.
                            Triple-then (On (λ v. NotBoth v × (q ≡ v))) _ _
                              (Triple-Keeps _ (source_is-Keeps (frame _) Registration.registered)
                                (λ s o. record { on = o.on.0 }))
                              (Triple-raise _ (λ s o. record { on = o.on.0 }))))

  restore-On :
      (x : Reply ℕ)
      → Triple {W = W}
          (On (λ v. v.dst ≡ 0))
          (λ u s. On Switched s)
          (On NotBoth)
          (restore_registration r x)
  unfolding restore_registration source_is target_is
  restore-On x =
      Triple-then (On (λ v. v.dst ≡ 0)) _ _
        (Triple-Keeps _ ((frame _).updates _ (λ s. inl refl)) weak)
        (Triple-bind (λ y s. On (λ v. v.dst ≡ 0) s) _ _
          (Triple-Keeps _ (Keeps-try _ register_source-On) weak)
          λ again.
            Triple-bind (λ y s. On (λ v. v.dst ≡ 0) s) _ _
              (Triple-Keeps _ (Keeps-try _ (registrations-Keeps (frame _) _ _)) weak)
              λ p.
                Triple-then (On (λ v. v.dst ≡ 0)) _ _
                  (Triple-Keeps _ (publish_if-Keeps (frame _) p) weak)
                  (Triple-choice _ _ _
                    (Triple-then (On (λ v. v.dst ≡ 0)) _ _
                      (Triple-Keeps _ (source_is-Keeps (frame _) Registration.registered) weak)
                      (Triple-raise _ weak))
                    (Triple-raise _ weak)))
    where
      weak : (s : St W) → On (λ v. v.dst ≡ 0) s → On NotBoth s
      weak s o = record { on = inr o.on }

  started-On :
      (dst : ℕ)
      → Keeps {W = W} (On Switched) (
          update (switched dst)
          >> (call (Call.power dst) >>= λ p.
              (update (target_power_is p)
                >> require
                    (is_off p)
                    (failure (text "target was unexpectedly powered on; automation stopped")))))
  started-On dst = Keeps-then _ _ (switched-Keeps (frame Switched) dst) (
      Keeps-bind _ _ (power-Keeps (frame Switched) dst)
        λ p. Keeps-then _ _ (target_power_is-Keeps (frame Switched) p) (Keeps-require _ _))

  register_target-Triple :
      Triple {W = W} (On (λ v. v.src ≡ 0)) (λ u s. On Switched s) (On NotBoth) (register_target r)
  unfolding register_target
  register_target-Triple =
      Triple-bind (λ x s. On (λ v. v.src ≡ 0) s) _ _
        (Triple-Keeps _ (Keeps-try _ register_target-On) weak)
        λ x.
          Triple-then (On (λ v. v.src ≡ 0)) _ _
            (Triple-Keeps _ (target_is-Keeps (frame _) Registration.unsure) weak)
            (Triple-bind (λ p s. On (λ v. (v.src ≡ 0) × (p ≡ v)) s) _ _
              (read_pair-On (λ v. v.src ≡ 0) _ (λ v gone. inl gone))
              λ p.
                Triple-then (On (λ v. (v.src ≡ 0) × (p ≡ v))) _ _
                  (Triple-Keeps _ (publish-Keeps (frame _) p) (λ s o. record { on = inl (o.on.0) }))
                  (Triple-require _ _ _ (λ s o. record { on = inl (o.on.0) })
                    λ gone.
                      Triple-if _ _ _
                        (λ missing.
                          Triple-given _
                            (λ s o. record {
                              on = ap (λ v. v.dst) (sym (o.on.1)) ∙ is_zero p.dst missing;
                            })
                            (restore-On x))
                        (λ there.
                          Triple-given _
                            (λ s o. record {
                              on = (
                                o.on.0,
                                λ none_there.
                                    not_zero p.dst there (ap (λ v. v.dst) (o.on.1) ∙ none_there),
                              );
                            })
                            (Triple-Keeps _ (started-On p.dst)
                              (λ s o. record { on = inl (o.on.0) })))))
    where
      weak : (s : St W) → On (λ v. v.src ≡ 0) s → On NotBoth s
      weak s o = record { on = inl o.on }

  commit-On : Triple {W = W} (On NotBoth) (λ u s. On Switched s) (On NotBoth) (commit r)
  unfolding commit
  commit-On =
      Triple-bind (λ j s. On NotBoth s) _ _ (Triple-Keeps _ Keeps-get_job (λ s o. o))
        λ j.
          Triple-require _ _ _ (λ s o. o)
            λ verified.
              Triple-then (On (λ v. v.src ≡ 0)) _ _ unregister_source-On register_target-Triple

  result-Holds :
      (x : Res (Unit {0}) × St W)
      → Outcome (λ u s. On Switched s) (On NotBoth) x
      → Holds x.0 (view x.1.world)
  result-Holds (ok u, s) o = o.on
  result-Holds (err e, s) o = o.on
  result-Holds (cut, s) o = o.on

  -- On a host where the lists and paths that are read are the right ones where there is a
  -- reply, where each machine has a number and a path that is understood, and whose
  -- registrations nobody else changes, a switch that begins with not both the source and the
  -- target registered ends so, whatever else the host answers, which replies are lost and what
  -- the operator does: with the source not registered and the target registered where it
  -- succeeds, and never with both registered where it fails.
  pub commit-Holds :
      (s : St W) → NotBoth (view s.world) → Holds (commit r s).0 (view (commit r s).1.world)
  commit-Holds s n = result-Holds (commit r s) (commit-On.at s (record { on = n }))
