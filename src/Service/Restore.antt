-- ===== src/Service/Restore.antt =====
-- Restore of internal/service/backups.go: a backup's files are sorted by engine, checked, and put in
-- place of the live files after these are backed up in their turn. The walk over the backup's folder
-- gives pairs of a backup file and the live path it is of. `engine_of` is the service's map of engines,
-- `names` the order in which it is ranged over, and `staged_rel` the engines' method.
pub mod Collect
pub mod RolledBack
pub mod Compare
pub mod Tests
use portguard_v.Base.{
  ℕ, ◌+◌, Bool, true, false, not, List, [], ◌∷◌, ◌++◌, Option, none, some, map, Text, eqb,
  if◌then◌else◌,
}
use portguard_v.Base.Maps.{Map, insert}
use portguard_v.Service.Host.{
  FilePath, Os, World, Audit, Read, content, not_exist, failed, note, read_file, copy_file,
}
use portguard_v.Service.Apply.{
  Engine, Files, Layout, Staged, absolute, live_files, backup_files, write_all, reload_all,
}

-- engineStaged, with the engine's name for the engine.
pub record EngineStaged : Type 0 where
  pub name : Text
  pub staged : Files
  pub live : List FilePath

pub data RestoreFailure : Type 0 where
  read_backup : FilePath → RestoreFailure
  no_known_files : RestoreFailure
  invalid : Text → RestoreFailure
  safety_backup_failed : RestoreFailure
  write_failed : FilePath → RestoreFailure
  reload_failed : Text → RestoreFailure

pub data Collected : Type 0 where
  groups : List EngineStaged → Collected
  unreadable : FilePath → Collected

-- One more file of an engine: the engines stay in the order of their first files.
unfoldable pub add_file : Text → Text → Text → FilePath → List EngineStaged → List EngineStaged
add_file name rel data_ live [] =
    record { name = name; staged = insert rel data_ []; live = live ∷ [] } ∷ []
add_file name rel data_ live (g ∷ gs) =
    if eqb g.name name
    then record g { staged = insert rel data_ g.staged; live = g.live ++ live ∷ [] } ∷ gs
    else g ∷ add_file name rel data_ live gs

abbrev pub all_live : List EngineStaged → List FilePath
all_live [] = []
all_live (g ∷ gs) = g.live ++ all_live gs

abbrev pub names_of : List EngineStaged → List Text
names_of [] = []
names_of (g ∷ gs) = g.name ∷ names_of gs

module _ (os : Os) (names : List Text) (engine_of : Text → Engine)
    (staged_rel : Text → FilePath → Option Text) where
  -- The first engine that knows the path.
  unfoldable pub classify : List Text → FilePath → Option (Text × Text)
  classify [] live = none
  classify (n ∷ ns) live =
      let rest = classify ns live in
      elim (staged_rel n live) [ none ↦ rest | some rel ↦ some (n, rel) ]

  unfoldable pub collect :
      List (FilePath × FilePath) → List EngineStaged → World → Collected × World
  unfolding add_file classify
  collect [] gs w = (groups gs, w)
  collect ((bak, live) ∷ files) gs w =
      let (r, w') = read_file os bak w in
      let skip = collect files gs w in
      elim (classify names live) [
        | none ↦ skip
        | some (name, rel) ↦ elim r [
          | content data_ ↦ collect files (add_file name rel data_ live gs) w'
          | not_exist ↦ (unreadable bak, w')
          | failed ↦ (unreadable bak, w')
        ]
      ]

  -- The first engine whose binary refuses its files.
  unfoldable pub first_invalid : List EngineStaged → Option Text
  first_invalid [] = none
  first_invalid (g ∷ gs) =
      let rest = first_invalid gs in
      if (engine_of g.name).validate g.staged then rest else some g.name

  abbrev pub staged_of : List EngineStaged → List Staged
  staged_of [] = []
  staged_of (g ∷ gs) =
      record { engine = engine_of g.name; files = absolute (engine_of g.name) g.staged }
      ∷ staged_of gs

  module _ (lay : Layout) where
    -- The closure `restore`: errors are ignored.
    unfoldable pub restore_copies : List FilePath → World → World
    restore_copies [] w = w
    restore_copies (p ∷ ps) w = restore_copies ps (copy_file os (lay.backup_path p) p w).1

    unfoldable pub reload_quietly : List Text → World → World
    reload_quietly [] w = w
    reload_quietly (n ∷ ns) w = reload_quietly ns (record w { calls = w.calls + 1 })

    -- The writes and the reloads, with what undoes them.
    unfoldable pub write_back : List EngineStaged → World → Option RestoreFailure × World
    unfolding restore_copies reload_quietly
    write_back gs w =
        let (bad, applied, w1) = write_all os lay (live_files (staged_of gs)) [] w in
        let (down, w2) = reload_all os lay (staged_of gs) w1 in
        elim bad [
          | some p ↦ (
            some (write_failed p),
            note (Audit.restore_write_failed p) (restore_copies applied w1),
          )
          | none ↦ elim down [
            | some n ↦ (
              some (reload_failed n),
              note (Audit.restore_rolled_back n) (reload_quietly names (restore_copies applied w2)),
            )
            | none ↦ (none, note (Audit.restored (names_of gs)) w2)
          ]
        ]

    abbrev pub no_groups : List EngineStaged → Bool
    no_groups [] = true
    no_groups (g ∷ gs) = false

    -- Restore after the folder is found. `none` is success.
    unfoldable pub restore_backup :
        List (FilePath × FilePath) → World → Option RestoreFailure × World
    unfolding collect first_invalid write_back
    restore_backup files w =
        let (c, w1) = collect files [] w in
        elim c [
          | unreadable p ↦ (some (read_backup p), w1)
          | groups gs ↦
              let (saved, w2) = backup_files os lay (all_live gs) w1 in
              if no_groups gs then (some no_known_files, w1) else elim (first_invalid gs) [
                | some n ↦ (some (invalid n), note (Audit.restore_rejected n) w1)
                | none ↦ if saved then write_back gs w2 else (some safety_backup_failed, w2)
              ]
        ]
