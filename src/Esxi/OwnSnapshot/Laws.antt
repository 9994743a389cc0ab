-- ===== src/Esxi/OwnSnapshot/Laws.antt =====
-- What is run on the host to merge the job's snapshot, and to copy its files
-- (internal/esxi/snapshot.go).
use esxi_mover.Prelude.{inl, ◌⊎◌, ℕ, ◌≡◌, ◌≢◌, refl, Bool, ap, true, false, ◌&&◌, List, [], ◌∷◌}
use esxi_mover.Prelude.Text.{Text, text, ◌≟◌, ≟-sound, has_prefix}
use esxi_mover.Prelude.Path.{base}
use esxi_mover.Esxi.Paths.{valid_path}
use esxi_mover.Esxi.Operation.Laws.{Folder, Refused, check_target-Stays, require-Stays}
use esxi_mover.Types.{Reply, got, lost}
use esxi_mover.Esxi.SnapshotTree.{snapshot_names}
use esxi_mover.Esxi.Shell.{Executor, Client, next, ◌>>=◌, ◌>>◌, require, lift, pure, raise}
use esxi_mover.Esxi.Machine.{snapshot}
use esxi_mover.Esxi.OwnSnapshot.{
  own_snapshot, only_own, consolidate_only, consolidate_own_snapshot, copyable, copy_to_target,
}

untrue : (b : Bool) → (b ≡ true → ⊥) → b ≡ false
untrue true f = elim (f refl) [ ]
untrue false f = refl

only_own_other : (names : List Text) (name : Text) → names ≢ name ∷ [] → only_own names name ≡ false
unfolding only_own
only_own_other [] name h = refl
only_own_other (n ∷ []) name h = untrue (n ≟ name) (λ e. h (ap (λ m. m ∷ []) (≟-sound n name e)))
only_own_other (n ∷ m ∷ ns) name h = refl

module _ {W : Type 0} ⦃executor : Executor W⦄ (id : ℕ) (name : Text) where
  refused :
      (names : List Text) (s : Client W)
      → only_own names name ≡ false
      → (consolidate_only id name names s).1 ≡ s
  unfolding consolidate_only require raise ◌>>◌ ◌>>=◌ next
  refused names s h = rw h refl

  lift_refused :
      (r : Reply (List Text)) (s : Client W)
      → ((names : List Text) → r ≡ got names → only_own names name ≡ false)
      → ((lift r >>= consolidate_only id name) s).1 ≡ s
  unfolding lift ◌>>=◌ next
  lift_refused (got names) s h = refused names s (h names refl)
  lift_refused (lost e) s h = refl

  read_refused :
      (x : Reply Text × Client W)
      → ((tree : Text) (names : List Text)
          → x.0 ≡ got tree
          → snapshot_names tree ≡ got names
          → only_own names name ≡ false)
      → (next (λ tree. lift (snapshot_names tree) >>= consolidate_only id name) x).1 ≡ x.1
  unfolding next
  read_refused (got tree, s) h = lift_refused (snapshot_names tree) s (λ names. h tree names refl)
  read_refused (lost e, s) h = refl

  -- Where the snapshot tree that the host prints does not name the job's snapshot and no other, the
  -- merge of a name of the tool's own does no more than to read that tree: no command follows it.
  pub consolidate_own_snapshot_refused :
      (s : Client W)
      → own_snapshot name ≡ true
      → ((tree : Text) (names : List Text)
          → (snapshot id s).0 ≡ got tree
          → snapshot_names tree ≡ got names
          → names ≢ name ∷ [])
      → (consolidate_own_snapshot id name s).1 ≡ (snapshot id s).1
  unfolding consolidate_own_snapshot require pure ◌>>◌ ◌>>=◌ next
  consolidate_own_snapshot_refused s own h = rw own (
      read_refused (snapshot id s)
        λ tree names read named. only_own_other names name (h tree names read named))

module _ {W : Type 0} ⦃executor : Executor W⦄ where
  -- What may be copied: a snapshot file on a datastore, into a folder of its own.
  abbrev pub Copied : Text → Text → Client W → Type 0
  Copied source d s =
      Folder d s
      × ((valid_path source
            && has_prefix source (text "/vmfs/volumes/")
            && valid_path (base source))
          ≡ true)
      × (copyable (base source) ≡ true)

  -- Whatever the host answers: either the folder is a direct child of a datastore that the host reads
  -- as its own canonical path, and the file is on a datastore by a valid path and a plain name, and is
  -- one of the files of a snapshot; or the copying of the file fails, and no command was run on the
  -- host for it but, at most, the reading of the folder's canonical path.
  pub copy_to_target-Copied :
      (source d : Text) (s : Client W) → Copied source d s ⊎ Refused d s (copy_to_target source d s)
  unfolding copy_to_target
  copy_to_target-Copied source d s = check_target-Stays (Copied source d s) d s _ λ own.
      require-Stays _ _ _ _ _ _
        λ valid. require-Stays _ _ _ _ _ _ λ snapshot_file. inl (own, valid, snapshot_file)
