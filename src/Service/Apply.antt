-- ===== src/Service/Apply.antt =====
-- ApplyAll of internal/service/service.go with the functions that it calls. An engine is the
-- interface of internal/proxy/engine.go: what it renders, which staged files its binary accepts,
-- where they live and whether a reload succeeds are its fields. The service's map of engines is
-- ranged over in an arbitrary order, here that of the list.
pub mod Rollback
pub mod Stages
pub mod Atomic
pub mod Success
pub mod Tests
use portguard_v.Base.{
  ℕ, ◌+◌, Bool, true, false, not, ◌&&◌, ◌||◌, List, [], ◌∷◌, ◌++◌, Option, none, some, map, any,
  Text, eqb, is_empty, ltb, ℤ, if◌then◌else◌, trim_left, ◌==◌,
}
use mathlib.Core.List.{reverse}
use portguard_v.Proxy.Model.{Mapping}
use portguard_v.Service.Prune.{Folders, prune_backups}
use portguard_v.Service.Host.{
  FilePath, Disk, Os, World, Audit, Deploy, Read, content, not_exist, failed, note,
  set_version_result, read_file, is_not_exist, mkdir_all, write_file, remove_file, atomic_write,
  copy_file,
}

pub record Cert : Type 0 where
  pub id : ℤ
  pub cert_pem : Text
  pub key_pem : Text

-- Staged files: relative path and content.
abbrev pub Files : Type 0
Files = List (Text × Text)

pub record Engine : Type 0 where
  pub name : Text
  pub installed : Bool
  pub render : List Mapping → List Cert → Option Files
  pub validate : Files → Bool
  pub live_path : Text → FilePath
  pub reload : ℕ → Disk → Bool

-- The paths that the service joins: of a certificate's three files, and of the backup of a live
-- file in this run's backup folder, whose name is `run`.
pub record Layout : Type 0 where
  pub certs_dir : FilePath
  pub crt_path : ℤ → FilePath
  pub key_path : ℤ → FilePath
  pub pem_path : ℤ → FilePath
  pub backup_path : FilePath → FilePath
  pub run : Text
  pub folders : Folders

pub data Failure : Type 0 where
  listing certs_failed backup_failed : Failure
  not_installed render_failed validate_failed reload_failed : Text → Failure
  write_failed : FilePath → Failure

pub data Outcome : Type 0 where
  success : Outcome
  failure : Failure → Outcome

-- An engine that passed the first stage, with what is to be written: live path and content.
pub record Staged : Type 0 where
  pub engine : Engine
  pub files : List (FilePath × Text)

abbrev pub absolute : Engine → Files → List (FilePath × Text)
absolute e = map (λ f. (e.live_path f.0, f.1))

unfoldable pub count_enabled : List Mapping → ℕ
count_enabled [] = 0
count_enabled (m ∷ ms) = (if m.enabled then 1 else 0) + count_enabled ms

unfoldable pub count_engine : List Mapping → Text → ℕ
count_engine [] e = 0
count_engine (m ∷ ms) e = (if m.enabled && eqb m.engine e then 1 else 0) + count_engine ms e

-- Step 1, "render + validate every engine".
pub data Stage : Type 0 where
  ready : List Staged → Stage
  stopped : Failure → Stage

unfoldable pub stage_engine : List Mapping → List Cert → Engine → World → Stage × World
stage_engine ms cs e w =
    if not e.installed
    then (if ltb 0 (count_engine ms e.name)
        then (stopped (not_installed e.name), note (Audit.not_installed e.name) w)
        else (ready [], w))
    else elim (e.render ms cs) [
      | none ↦ (
        stopped (render_failed e.name),
        set_version_result (Deploy.error_render e.name) (note (Audit.render_failed e.name) w),
      )
      | some fs ↦
          if e.validate fs
          then (ready (record { engine = e; files = absolute e fs } ∷ []), w)
          else (
            stopped (validate_failed e.name),
            set_version_result (Deploy.error_validate e.name)
                (note (Audit.validation_failed e.name) w),
          )
    ]

abbrev join_stages : List Staged → Stage × World → Stage × World
join_stages first (ready rest, w) = (ready (first ++ rest), w)
join_stages first (stopped f, w) = (stopped f, w)

unfoldable pub stage_engines : List Mapping → List Cert → List Engine → World → Stage × World
stage_engines ms cs [] w = (ready [], w)
stage_engines ms cs (e ∷ es) w =
    let (s, w') = stage_engine ms cs e w in
    elim s [
      | ready first ↦ join_stages first (stage_engines ms cs es w')
      | stopped f ↦ (stopped f, w')
    ]

-- `strings.TrimRight(s, "\n")`.
unfoldable pub trim_newlines : Text → Text
trim_newlines s = reverse (trim_left (λ c. c == b'\n') (reverse s))

abbrev pub live_files : List Staged → List (FilePath × Text)
live_files [] = []
live_files (s ∷ ss) = s.files ++ live_files ss

abbrev pub paths_of : List (FilePath × Text) → List FilePath
paths_of = map (λ f. f.0)

module _ (os : Os) (lay : Layout) where
  unfoldable pub write_cert : Cert → World → Bool × World
  unfolding trim_newlines
  write_cert c w =
      let (crt, w1) = write_file os (lay.crt_path c.id) c.cert_pem w in
      let (key, w2) = write_file os (lay.key_path c.id) c.key_pem w1 in
      let last =
        write_file os (lay.pem_path c.id)
          (trim_newlines c.cert_pem ++ b'\n' ∷ trim_newlines c.key_pem ++ b'\n' ∷ []) w2 in
      if is_empty c.cert_pem || is_empty c.key_pem
      then (true, w)
      else if not crt
      then (false, w1)
      else if not key
      then (false, w2)
      else last

  unfoldable pub write_certs : List Cert → World → Bool × World
  write_certs [] w = (true, w)
  write_certs (c ∷ cs) w =
      let (ok, w') = write_cert c w in
      let rest = write_certs cs w' in if ok then rest else (false, w')

  unfoldable pub write_cert_files : List Cert → World → Bool × World
  write_cert_files cs w =
      let (ok, w') = mkdir_all os lay.certs_dir w in if ok then write_certs cs w' else (false, w')

  -- One round of backupFiles; a live file that is not there is passed over.
  unfoldable pub backup_file : FilePath → World → Bool × World
  backup_file live w =
      let (r, w1) = read_file os live w in
      elim r [
        | content data_read ↦
            let (made, w2) = mkdir_all os (lay.backup_path live) w1 in
            if made
            then write_file os (lay.backup_path live) data_read (record w2 {
              backups = if any (eqb lay.run) w2.backups then w2.backups else lay.run ∷ w2.backups;
            })
            else (false, w2)
        | not_exist ↦ (true, w1)
        | failed ↦ (false, w1)
      ]

  unfoldable pub backup_files : List FilePath → World → Bool × World
  backup_files [] w = (true, w)
  backup_files (p ∷ ps) w =
      let (ok, w') = backup_file p w in
      let rest = backup_files ps w' in if ok then rest else (false, w')

  -- `wasNew`: the live paths that did not exist.
  unfoldable pub find_new : List FilePath → World → List FilePath × World
  find_new [] w = ([], w)
  find_new (p ∷ ps) w =
      let (absent, w') = is_not_exist os p w in
      let (rest, w'') = find_new ps w' in (if absent then p ∷ rest else rest, w'')

  -- The closure `restore`: one applied path after another.
  unfoldable pub restore_file : List FilePath → FilePath → World → World
  restore_file was_new p w =
      let (ok, w') = copy_file os (lay.backup_path p) p w in
      if any (eqb p) was_new
      then remove_file os p w
      else if ok
      then w'
      else note (Audit.restore_failed p) w'

  unfoldable pub restore : List FilePath → List FilePath → World → World
  restore was_new [] w = w
  restore was_new (p ∷ ps) w = restore was_new ps (restore_file was_new p w)

  -- Step 4: the paths written so far come back, with the path that failed.
  unfoldable pub write_all :
      List (FilePath × Text) → List FilePath → World → Option FilePath × List FilePath × World
  write_all [] done w = (none, done, w)
  write_all ((p, c) ∷ fs) done w =
      let (ok, w') = atomic_write os p c w in
      let rest = write_all fs (done ++ p ∷ []) w' in if ok then rest else (some p, done, w')

  -- The reloads of step 5: the first engine that fails stops the loop.
  unfoldable pub reload_all : List Staged → World → Option Text × World
  reload_all [] w = (none, w)
  reload_all (s ∷ ss) w =
      let w' = record w { calls = w.calls + 1 } in
      let rest = reload_all ss w' in
      if s.engine.reload w.calls w.disk then rest else (some s.engine.name, w')

  unfoldable pub reload_again : List Engine → World → World
  reload_again [] w = w
  reload_again (e ∷ es) w =
      let w' = record w { calls = w.calls + 1 } in
      reload_again es (
        if e.reload w.calls w.disk then w' else note (Audit.reload_after_rollback_failed e.name) w')

  -- Steps 4 to 6, once the backup is made.
  unfoldable pub write_and_reload :
      List Engine → ℕ → List Staged → List FilePath → World → Outcome × World
  write_and_reload engines count staged was_new w =
      let (bad, written, w1) = write_all (live_files staged) [] w in
      let (down, w2) = reload_all staged w1 in
      elim bad [
        | some p ↦
            (failure (write_failed p), note (Audit.write_failed p) (restore was_new written w1))
        | none ↦ elim down [
          | some n ↦ (
            failure (reload_failed n),
            set_version_result (Deploy.rolled_back n)
                (note (Audit.reload_failed n) (reload_again engines (restore was_new written w2))),
          )
          | none ↦ (
            success,
            set_version_result Deploy.done
                (note (Audit.applied count) (prune_backups os lay.folders 20 w2)),
          )
        ]
      ]

  -- Steps 2 and 3.
  unfoldable pub deploy : List Engine → ℕ → List Cert → List Staged → World → Outcome × World
  deploy engines count cs staged w =
      let (certs_ok, w1) = write_cert_files cs w in
      let live = paths_of (live_files staged) in
      let (saved, w2) = backup_files live w1 in
      let (was_new, w3) = find_new live w2 in
      if not certs_ok
      then (
        failure certs_failed,
        set_version_result Deploy.error_certs (note Audit.cert_write_failed w1),
      )
      else if not saved
      then (
        failure Failure.backup_failed,
        set_version_result Deploy.error_backup (note Audit.backup_failed w2),
      )
      else write_and_reload engines count staged was_new w3

  -- ApplyAll over the rows that the store lists (`none` if a listing fails) and the identifier of
  -- the version row that it creates first.
  unfoldable pub apply_all :
      List Engine → Option (List Mapping × List Cert) → ℕ → World → Outcome × World
  apply_all engines none version w = (failure listing, w)
  apply_all engines (some (ms, cs)) version w =
      let (s, w1) = stage_engines ms cs engines (record w { pending = version }) in
      elim s [
        | stopped f ↦ (failure f, w1)
        | ready staged ↦ deploy engines (count_enabled ms) cs staged w1
      ]
