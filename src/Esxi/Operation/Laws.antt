-- ===== src/Esxi/Operation/Laws.antt =====
-- What is run on the host for a file of the target folder (internal/esxi/detached.go).
use esxi_mover.Prelude.{◌≡◌, refl, Bool, Bool-cases, true, false, ◌&&◌, ◌⊎◌, inl, inr}
use esxi_mover.Prelude.Text.{Text, ◌≟◌, ≟-sound}
use esxi_mover.Prelude.Path.{base}
use esxi_mover.Types.{Err, Reply, got, lost}
use esxi_mover.Esxi.Paths.{valid_path, target_path}
use esxi_mover.Esxi.Files.{canonical}
use esxi_mover.Esxi.Shell.{
  Executor, Client, C, next, replaced, instead, require, pure, raise, ◌>>=◌, ◌>>◌,
}
use esxi_mover.Esxi.Operation.{writable, check_target, write_target}

abbrev pub IsLost : {A : Type 0} → Reply A → Type 0
IsLost (got a) = ⊥
IsLost (lost e) = Unit

-- An operation that fails, having run no command on the host but, perhaps, the reading of this path.
abbrev pub Refused :
    {W : Type 0} → ⦃executor : Executor W⦄ → Text → Client W → Reply (Unit {0}) × Client W → Type 0
Refused d s y = IsLost (y.0) × ((y.1 ≡ s) ⊎ (y.1 ≡ (canonical d s).1))

module _ {W : Type 0} ⦃executor : Executor W⦄ where
  -- A path that names a folder of its own, directly on a datastore.
  abbrev pub Folder : Text → Client W → Type 0
  Folder d s = (target_path d ≡ true) × ((canonical d s).0 ≡ got d)

  -- What may be written: a configuration file, by a plain name, into such a folder.
  abbrev pub Allowed : Text → Text → Client W → Type 0
  Allowed d name s =
      Folder d s × ((name ≟ base name && valid_path name) ≡ true) × (writable name ≡ true)

module _ {W : Type 0} (P : Type 0) (s t : Client W) where
  -- Either `P`, or no further than one of these states.
  abbrev pub Stays : Reply (Unit {0}) × Client W → Type 0
  Stays y = P ⊎ (IsLost (y.0) × ((y.1 ≡ s) ⊎ (y.1 ≡ t)))

  pub require-Stays :
      (b : Bool) (e : Err) (k : C W (Unit {0}))
      → (b ≡ true → Stays (k t))
      → Stays ((require b e >> k) t)
  unfolding require ◌>>◌ ◌>>=◌ next pure raise
  require-Stays true e k f = f refl
  require-Stays false e k f = inr (tt, inr refl)

module _ {W : Type 0} ⦃executor : Executor W⦄ (P : Type 0) (d : Text) (s : Client W) where
  folder-Stays :
      (x : Reply Text × Client W) (e e' : Err) (k : C W (Unit {0}))
      → (x.0 ≡ got d → Stays P s x.1 (k x.1))
      → Stays P s x.1 (next (λ u. k) (next (λ c. require (c ≟ d) e) (replaced e' x)))
  unfolding next replaced require pure raise
  folder-Stays (got c, t) e e' k f = elim (Bool-cases (c ≟ d)) [
    | inl same ↦ rw same (f (cc (≟-sound c d same)))
    | inr other ↦ rw other (inr (tt, inr refl))
  ]
  folder-Stays (lost e'', t) e e' k f = inr (tt, inr refl)

  -- A step after the check of the folder.
  pub check_target-Stays :
      (k : C W (Unit {0}))
      → (Folder d s → Stays P s (canonical d s).1 (k (canonical d s).1))
      → Stays P s (canonical d s).1 ((check_target d >> k) s)
  unfolding check_target instead ◌>>◌ ◌>>=◌ require next pure raise
  check_target-Stays k f = elim (Bool-cases (target_path d)) [
    | inl valid ↦ rw valid (folder-Stays (canonical d s) _ _ k (λ own. f (valid, own)))
    | inr invalid ↦ rw invalid (inr (tt, inl refl))
  ]

module _ {W : Type 0} ⦃executor : Executor W⦄ where
  -- Whatever the host answers: either the folder is a direct child of a datastore that the host reads
  -- as its own canonical path, the name is a plain file name, and it is that of a configuration file;
  -- or the writing of the file fails, and no command was run on the host for it but, at most, the
  -- reading of the folder's canonical path.
  pub write_target-Allowed :
      (d name content : Text) (s : Client W)
      → Allowed d name s ⊎ Refused d s (write_target d name content s)
  unfolding write_target
  write_target-Allowed d name content s = check_target-Stays (Allowed d name s) d s _ λ own.
      require-Stays _ _ _ _ _ _
        λ plain. require-Stays _ _ _ _ _ _ λ config. inl (own, plain, config)
