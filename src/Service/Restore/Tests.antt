-- ===== src/Service/Restore/Tests.antt =====
-- A restore (internal/service/backups.go) of two files whose reload fails.
use portguard_v.Base.{
  true, false, map, split, List, [], ◌∷◌, ◌++◌, Option, none, some, Text, codes, eqb, strip_prefix,
  if◌then◌else◌, ◌≡◌, refl, sym, ap, ◌∙◌, ◌≢◌, inl, inr, arith, ◌==◌, ==_iff, Bool-cases,
}
use portguard_v.Base.Maps.{insert}
use portguard_v.Service.Host.{
  FilePath, Os, World, prepare_temp, atomic_write, read_file, mkdir_all, write_file, copy_file,
}
use portguard_v.Service.Apply.{Engine, backup_file, backup_files, write_all, reload_all}
use portguard_v.Service.Apply.Rollback.{NotBackup}
use portguard_v.Service.Apply.Tests.{os, os-IsReliable, layout, one_place, engine}
use portguard_v.Service.Restore.{
  RestoreFailure, reload_failed, add_file, classify, collect, first_invalid, restore_copies,
  reload_quietly, write_back, restore_backup,
}
use portguard_v.Ops.Unified.{unified_diff, unified, changed, text_lines, unix_newlines}
use portguard_v.Ops.Diff.{diff_ops, common, cell, at, zeros, next_row, lcs_table, walk}
use portguard_v.Service.Restore.Compare.{
  BackupDiff, Compares, file_diff, diff_backup, diff_backup-Compares,
}
use portguard_v.Service.Restore.RolledBack.{restore_backup-saved}

strip_prefix-append : (p s r : Text) → strip_prefix p s ≡ some r → p ++ r ≡ s
unfolding strip_prefix
strip_prefix-append [] s r h = ap (λ (o : Option Text). elim o [ none ↦ s | some x ↦ x ]) (sym h)
strip_prefix-append (c ∷ p) [] r h = absurd cc
strip_prefix-append (c ∷ p) (d ∷ s) r h = elim (Bool-cases (c == d)) [
  | inl e ↦
      ap (λ x. x ∷ (p ++ r)) ((==_iff c d).0 e)
      ∙ ap (λ t. d ∷ t) (strip_prefix-append p s r (rw (e, strip_prefix) at h))
  | inr e ↦ absurd (let z : ◌≡◌ {A = Option Text} none (some r) = rw (e, strip_prefix) at h in cc)
]

abbrev names : List Text
names = codes "nginx" ∷ []

abbrev engine_of : Text → Engine
engine_of n = engine true false

abbrev staged_rel : Text → FilePath → Option Text
staged_rel n = strip_prefix (codes "/etc/")

abbrev files : List (FilePath × FilePath)
files =
    (codes "/then/etc/nginx.conf", codes "/etc/nginx.conf")
    ∷ (codes "/then/etc/new.conf", codes "/etc/new.conf")
    ∷ []

-- A live file, and a backup of it and of one that is no longer there.
abbrev world : World
world = record {
  disk = λ p.
      if eqb p (codes "/etc/nginx.conf")
      then some (codes "now")
      else if eqb p (codes "/then/etc/nginx.conf")
      then some (codes "then")
      else if eqb p (codes "/then/etc/new.conf")
      then some (codes "more")
      else none;
  calls = 0;
  log = [];
  stamped = [];
  pending = 0;
  backups = [];
}

abbrev run : Option RestoreFailure × World
run = restore_backup os names engine_of staged_rel layout files world

-- What a restore computes with.
restoring : Unit {0}
unfolding restore_backup collect classify add_file insert first_invalid backup_files backup_file
    write_back write_all atomic_write prepare_temp reload_all restore_copies reload_quietly
    copy_file read_file write_file mkdir_all strip_prefix eqb
restoring = tt

rolled_back : run.0 ≡ some (reload_failed (codes "nginx"))
unfolding restoring
rolled_back = refl

some-none : {A : Type 0} (a : A) → ◌≢◌ {A = Option A} (some a) none
some-none a h = absurd cc

not_backup : NotBackup layout (codes "/etc/nginx.conf")
not_backup r h = ground arith

restore_backup-saved_example : run.1.disk (codes "/etc/nginx.conf") ≡ some (codes "now")
unfolding eqb
restore_backup-saved_example =
    restore_backup-saved os names engine_of staged_rel layout os-IsReliable
      (λ n live rel h. strip_prefix-append (codes "/etc/") live rel h) (λ n rel r h. ground arith)
      one_place (codes "/etc/nginx.conf") (codes "now") not_backup files world refl
      (λ e. some-none (reload_failed (codes "nginx")) (sym rolled_back ∙ e))

-- The file that the restore added stays after the rollback.
left_behind :
    (world.disk (codes "/etc/new.conf") ≡ none)
    × (run.1.disk (codes "/etc/new.conf") ≡ some (codes "more"))
unfolding restoring
left_behind = (refl, refl)

abbrev quiet : Os
quiet = record { fault = λ n c. false; torn = λ n p. none; survives = λ n p. false }

-- The two files differ from what is live: one has another line, the other is gone.
two_entries :
    map
      (λ (d : BackupDiff). d.same)
      (diff_backup quiet names engine_of staged_rel (codes "then") files world).0
    ≡ false ∷ false ∷ []
unfolding diff_backup read_file file_diff unified_diff unified changed text_lines unix_newlines
    split diff_ops common cell at zeros next_row lcs_table walk eqb
two_entries = refl

diff_backup-Compares_example :
    Compares world.disk files
      (diff_backup quiet names engine_of staged_rel (codes "then") files world).0
unfolding eqb
diff_backup-Compares_example =
    diff_backup-Compares quiet (λ n c. refl) names engine_of staged_rel (codes "then") files world
      ((codes "then", refl), ((codes "more", refl), tt))
