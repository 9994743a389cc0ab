-- ===== src/Tests/Esxi.antt =====
-- The theorems about the commands on a host, applied to small ones.
use esxi_mover.Prelude.{
  ◌⊎◌, ℕ, ◌≡◌, ◌↔◌, refl, sym, ap, ◌∙◌, subst, Bool, true, false, some, none, List, [], ◌∷◌,
}
use esxi_mover.Prelude.Text.{Text, text, split, ◌≟◌}
use esxi_mover.Host.{CloneStatus}
use esxi_mover.Types.{Reply, got, lost, off}
use esxi_mover.Esxi.Quoting.{argv}
use esxi_mover.Esxi.Quoting.Words.{shell_words, shell_words-argv}
use esxi_mover.Esxi.Shell.{Executor, Client, ◌>>=◌, command, run, lift, pure}
use esxi_mover.Esxi.Machine.{snapshot, vim_cmd, parse_power}
use esxi_mover.Esxi.Machine.Laws.{NamedOnce, parse_power-got}
use esxi_mover.Esxi.Operation.{write_target}
use esxi_mover.Esxi.Operation.Laws.{Allowed, Refused, write_target-Allowed}
use esxi_mover.Esxi.SnapshotTree.{snapshot_names, lines_of, read_lines, classify}
use esxi_mover.Esxi.OwnSnapshot.{own_snapshot, only_own, consolidate_own_snapshot, copy_to_target}
use esxi_mover.Esxi.OwnSnapshot.Laws.{
  consolidate_own_snapshot_refused, Copied, copy_to_target-Copied,
}
use esxi_mover.Esxi.Worker.{clone_status}
use esxi_mover.Esxi.Worker.Laws.{InBounds, clone_status-bounds}

abbrev odd_arguments : List Text
odd_arguments = text "mkdir" ∷ text "it's; $HOME" ∷ [] ∷ []

shell_words-argv_example : shell_words (argv odd_arguments) ≡ some odd_arguments
shell_words-argv_example = shell_words-argv odd_arguments

abbrev off_answer : Text
off_answer = text "Retrieved runtime info\nPowered off\n"

parse_power-got_example : (parse_power off_answer ≡ got off) ↔ NamedOnce off (split off_answer 10)
parse_power-got_example = parse_power-got off_answer off

-- A host that prints one text for every command.
abbrev echo : Text → Executor ℕ
echo out = record {
  exec = λ w c. ((record { stdout = out; stderr = []; exit_code = 0 }, none), w);
  clock = λ w. w;
  redact = λ t. t;
  to_valid = λ t. t;
}

abbrev client : Client ℕ
client = record { world = 0; audit = [] }

write_target-Allowed_example :
    Allowed ⦃executor = echo (text "/vmfs/volumes/b2/web")⦄
      (text "/vmfs/volumes/b2/web")
      (text "web.sh")
      client
    ⊎ Refused ⦃executor = echo (text "/vmfs/volumes/b2/web")⦄ (text "/vmfs/volumes/b2/web") client (
        write_target ⦃executor = echo (text "/vmfs/volumes/b2/web")⦄
          (text "/vmfs/volumes/b2/web")
          (text "web.sh")
          (text "x")
          client)
write_target-Allowed_example =
    write_target-Allowed ⦃executor = echo (text "/vmfs/volumes/b2/web")⦄
      (text "/vmfs/volumes/b2/web") (text "web.sh") (text "x") client

abbrev echoed : CloneStatus
echoed = record {
  finished = true;
  alive = false;
  exit_code = 3;
  progress = 47;
  log = text "Clone: 47% done";
}

clone_status-bounds_example : InBounds echoed
unfolding clone_status text ◌>>=◌ run lift
clone_status-bounds_example =
    clone_status-bounds ⦃executor = echo (text "DONE 3\nClone: 47% done")⦄ 0 client echoed refl

abbrev names_or : {A : Type 0} → A → Reply A → A
names_or a (got b) = b
names_or a (lost e) = a

abbrev foreign_tree : Text
foreign_tree = text "Get Snapshot:\n|-ROOT\n--Snapshot Name        : before update\n"

apart : (b : Bool) → b ≡ true → b ≡ false → ⊥
apart b h k = cc (h, k)

own_alone : only_own (text "esxi-mover-0a1b2c3d" ∷ []) (text "esxi-mover-0a1b2c3d") ≡ true
unfolding only_own text ◌≟◌
own_alone = refl

foreign_names :
    (tree : Text) (names : List Text)
    → (snapshot ⦃executor = echo foreign_tree⦄ 7 client).0 ≡ got tree
    → snapshot_names tree ≡ got names
    → only_own names (text "esxi-mover-0a1b2c3d") ≡ false
unfolding snapshot vim_cmd ◌>>=◌ command run text only_own snapshot_names lines_of read_lines
    classify pure ◌≟◌
foreign_names tree names h k =
    subst (λ ns. only_own ns (text "esxi-mover-0a1b2c3d") ≡ false)
      (ap (names_or names)
        (subst (λ t. snapshot_names t ≡ got names) (sym (ap (names_or tree) h)) k))
      refl

consolidate_own_snapshot_refused_example :
    (consolidate_own_snapshot ⦃executor = echo foreign_tree⦄ 7
      (text "esxi-mover-0a1b2c3d")
      client).1
    ≡ (snapshot ⦃executor = echo foreign_tree⦄ 7 client).1
unfolding own_snapshot snapshot vim_cmd ◌>>=◌ command run text only_own snapshot_names lines_of
    read_lines classify
consolidate_own_snapshot_refused_example =
    consolidate_own_snapshot_refused ⦃executor = echo foreign_tree⦄ 7 (text "esxi-mover-0a1b2c3d")
      client refl
      (λ tree names h k e. apart _ own_alone (
        ap (λ ns. only_own ns (text "esxi-mover-0a1b2c3d")) (sym e) ∙ foreign_names tree names h k))

copy_to_target-Copied_example :
    Copied ⦃executor = echo (text "/vmfs/volumes/b2/web")⦄
      (text "/vmfs/volumes/a1/web/web-000001.vmdk")
      (text "/vmfs/volumes/b2/web")
      client
    ⊎ Refused ⦃executor = echo (text "/vmfs/volumes/b2/web")⦄ (text "/vmfs/volumes/b2/web") client (
        copy_to_target ⦃executor = echo (text "/vmfs/volumes/b2/web")⦄
          (text "/vmfs/volumes/a1/web/web-000001.vmdk")
          (text "/vmfs/volumes/b2/web")
          client)
copy_to_target-Copied_example =
    copy_to_target-Copied ⦃executor = echo (text "/vmfs/volumes/b2/web")⦄
      (text "/vmfs/volumes/a1/web/web-000001.vmdk") (text "/vmfs/volumes/b2/web") client
