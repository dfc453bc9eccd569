-- ===== src/Service/Host.antt =====
-- The host that internal/service/service.go writes to. A disk maps a path to its content. Every call
-- of the operating system may fail: `fault` is the schedule of the failures, by the number of the
-- call and what it does. The temporary files of atomicWrite have no path here.
use mathlib.Core.List.{filter_map}
use portguard_v.Base.{
  ℕ, ◌+◌, Bool, true, false, not, ◌&&◌, List, [], ◌∷◌, ◌++◌, Option, none, some, Text, eqb, ltb,
  if◌then◌else◌,
}

abbrev pub FilePath : Type 0
FilePath = Text

abbrev pub Disk : Type 0
Disk = FilePath → Option Text

abbrev pub put : Disk → FilePath → Option Text → Disk
put d p v q = if eqb p q then v else d q

pub data Call : Type 0 where
  stat read write make_dir remove rename make_temp write_temp close_temp chmod_temp :
      FilePath → Call
  list_backups : Call
  remove_folder : Text → Call

-- What is taken from the operating system: which calls fail, and what an interrupted
-- `os.WriteFile` leaves in the file and which files a failed `os.RemoveAll` leaves.
pub record Os : Type 0 where
  pub fault : ℕ → Call → Bool
  pub torn : ℕ → FilePath → Option Text
  pub survives : ℕ → FilePath → Bool

-- The audit entries of an apply, and the deploy results stamped on its version row.
pub data Audit : Type 0 where
  not_installed render_failed validation_failed reload_failed : Text → Audit
  reload_after_rollback_failed : Text → Audit
  cert_write_failed backup_failed : Audit
  restore_failed write_failed : FilePath → Audit
  applied : ℕ → Audit
  restore_rejected restore_rolled_back : Text → Audit
  restore_write_failed : FilePath → Audit
  restored : List Text → Audit

pub data Deploy : Type 0 where
  done error_certs error_backup : Deploy
  error_render error_validate rolled_back : Text → Deploy

-- `calls` numbers the calls; `stamped` has the deploy results written to the version rows, and
-- `pending` is recordVersionResult, 0 for no version. `backups` has
-- the names in the backups folder.
pub record World : Type 0 where
  pub disk : Disk
  pub calls : ℕ
  pub log : List Audit
  pub stamped : List (ℕ × Deploy)
  pub pending : ℕ
  pub backups : List Text

abbrev pub note : Audit → World → World
note a w = record w { log = w.log ++ a ∷ [] }

unfoldable pub set_version_result : Deploy → World → World
set_version_result r w =
    if ltb 0 w.pending
    then record w { stamped = w.stamped ++ (w.pending, r) ∷ []; pending = 0 }
    else w

pub data Read : Type 0 where
  content : Text → Read
  not_exist failed : Read

module _ (os : Os) where
  abbrev fails : Call → World → Bool
  fails c w = os.fault w.calls c

  abbrev tick : World → World
  tick w = record w { calls = w.calls + 1 }

  -- `os.ReadFile`.
  unfoldable pub read_file : FilePath → World → Read × World
  read_file p w = (
    if fails (read p) w then failed else elim (w.disk p) [ none ↦ not_exist | some c ↦ content c ],
    tick w,
  )

  -- `os.Stat` with `os.IsNotExist`.
  unfoldable pub is_not_exist : FilePath → World → Bool × World
  is_not_exist p w =
      (if fails (stat p) w then false else elim (w.disk p) [ none ↦ true | some c ↦ false ], tick w)

  unfoldable pub mkdir_all : FilePath → World → Bool × World
  mkdir_all p w = (not (fails (make_dir p) w), tick w)

  -- `os.WriteFile`: a failure may leave the file torn.
  unfoldable pub write_file : FilePath → Text → World → Bool × World
  write_file p c w =
      if fails (write p) w
      then (false, tick (record w { disk = put w.disk p (os.torn w.calls p) }))
      else (true, tick (record w { disk = put w.disk p (some c) }))

  -- `os.Remove`.
  unfoldable pub remove_file : FilePath → World → World
  remove_file p w =
      if fails (remove p) w then tick w else tick (record w { disk = put w.disk p none })

  abbrev step_ok : Call → World → Bool
  step_ok c w = not (fails c w)

  -- The calls of atomicWrite before the rename; it returns at the first that fails.
  unfoldable pub prepare_temp : FilePath → World → Bool × World
  prepare_temp p w =
      let w1 = tick w in
      let w2 = tick w1 in
      let w3 = tick w2 in
      let w4 = tick w3 in
      if fails (make_dir p) w
      then (false, w1)
      else if fails (make_temp p) w1
      then (false, w2)
      else if fails (write_temp p) w2
      then (false, w3)
      else if fails (close_temp p) w3
      then (false, w4)
      else (step_ok (chmod_temp p) w4, tick w4)

  -- atomicWrite: the file changes by the rename alone.
  unfoldable pub atomic_write : FilePath → Text → World → Bool × World
  atomic_write p c w =
      let (ready, w') = prepare_temp p w in
      if not ready
      then (false, w')
      else if fails (rename p) w'
      then (false, tick w')
      else (true, tick (record w' { disk = put w'.disk p (some c) }))

  unfoldable pub copy_file : FilePath → FilePath → World → Bool × World
  unfolding read_file write_file
  copy_file src dst w =
      let (r, w') = read_file src w in
      elim r [ content c ↦ write_file dst c w' | not_exist ↦ (false, w') | failed ↦ (false, w') ]

  -- `os.ReadDir` of the backups folder.
  unfoldable pub read_dir : World → Option (List Text) × World
  read_dir w = (if fails list_backups w then none else some w.backups, tick w)

  -- `os.RemoveAll` of one backup folder.
  unfoldable pub remove_all : (FilePath → Bool) → Text → World → World
  remove_all inside d w =
      if fails (remove_folder d) w
      then tick (record w {
        disk = λ q. if inside q && not (os.survives w.calls q) then none else w.disk q;
      })
      else tick (record w {
        disk = λ q. if inside q then none else w.disk q;
        backups = filter_map (λ n. if eqb n d then none else some n) w.backups;
      })
