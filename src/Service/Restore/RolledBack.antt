-- ===== src/Service/Restore/RolledBack.antt =====
-- A restore of internal/service/backups.go that is rolled back leaves the files that were there as they
-- were.
use portguard_v.Base.{
  ◌+◌, true, false, List, [], ◌∷◌, Option, none, some, Text, eqb, eqb_iff, eqb_sym, any, ◌≡◌, ◌≢◌,
  refl, sym, ap, subst, ◌∙◌, ◌⊎◌, inl, inr, arith, In, Bool-cases, Option-cases, eqb_refl,
}
use mathlib.Core.Bool.{false≢true}
use portguard_v.Service.Host.{FilePath, Os, World, Disk, read_file, write_file, copy_file}
use portguard_v.Service.Apply.{
  Engine, Layout, live_files, paths_of, backup_files, write_all, reload_all,
}
use portguard_v.Service.Apply.Rollback.{
  NotBackup, IsReliable, eqb_ne, any-eqb-In, write_all-disk, write_all-In, backup_files-disk,
  backup_files-saved, reload_all-disk,
}
use portguard_v.Service.Restore.{
  EngineStaged, Collected, groups, unreadable, all_live, staged_of, collect, first_invalid,
  restore_copies, reload_quietly, write_back, restore_backup, no_groups,
}
use portguard_v.Service.Restore.Collect.{
  ArePlaced, collect-ArePlaced, collect-disk, live_files-In, live_files_place,
}

Collected-cases :
    (r : Collected)
    → ((gs : List EngineStaged) × (r ≡ groups gs)) ⊎ ((p : FilePath) × (r ≡ unreadable p))
Collected-cases (groups gs) = inl (gs, refl)
Collected-cases (unreadable p) = inr (p, refl)

module _ (os : Os) (names : List Text) (engine_of : Text → Engine)
    (staged_rel : Text → FilePath → Option Text) (lay : Layout) (reliable : IsReliable os) where
  copy_file-saved :
      (src dst : FilePath) (c : Text) (w : World)
      → w.disk src ≡ some c
      → (copy_file os src dst w).1.disk dst ≡ some c
  unfolding copy_file read_file write_file
  copy_file-saved src dst c w h =
      ground (arith, reliable.reads w.calls src, reliable.writes (w.calls + 1) dst, eqb_refl dst)

  copy_file-others :
      (src dst q : FilePath) (w : World)
      → eqb dst q ≡ false
      → (copy_file os src dst w).1.disk q ≡ w.disk q
  unfolding copy_file read_file write_file
  copy_file-others src dst q w h =
      ground (arith, reliable.reads w.calls src, reliable.writes (w.calls + 1) dst)

  -- A path whose safety backup holds its content gets it back, and one that is not copied keeps it.
  restore_copies-saved :
      (ps : List FilePath) (q : FilePath) (c : Text) (w : World)
      → ((p : FilePath) → In p ps → NotBackup lay p)
      → (any (eqb q) ps ≡ true → w.disk (lay.backup_path q) ≡ some c)
      → (any (eqb q) ps ≡ true) ⊎ (w.disk q ≡ some c)
      → (restore_copies os names engine_of staged_rel lay ps w).disk q ≡ some c
  unfolding restore_copies
  restore_copies-saved [] q c w nb s (inl e) = absurd (false≢true e)
  restore_copies-saved [] q c w nb s (inr h) = h
  restore_copies-saved (p ∷ ps) q c w nb s h =
      let w1 = (copy_file os (lay.backup_path p) p w).1 in
      let keep : w1.disk (lay.backup_path q) ≡ w.disk (lay.backup_path q) =
        copy_file-others (lay.backup_path p) p (lay.backup_path q) w
          (eqb_ne p (lay.backup_path q) (λ e. nb p (inl refl) q (sym e))) in
      elim (Bool-cases (eqb q p)) [
        | inl same ↦
            let e : q ≡ p = (eqb_iff q p).0 same in
            let saved : w.disk (lay.backup_path q) ≡ some c = s (ground arith) in
            restore_copies-saved ps q c w1 (λ r i. nb r (inr i)) (λ a. keep ∙ saved)
              (inr (
                subst (λ r. w1.disk r ≡ some c) (sym e)
                  (copy_file-saved (lay.backup_path p) p c w
                    (subst (λ r. w.disk (lay.backup_path r) ≡ some c) e saved))))
        | inr differ ↦
            restore_copies-saved ps q c w1 (λ r i. nb r (inr i)) (λ a. keep ∙ s (ground arith))
              (elim h [
                | inl a ↦ inl (ground arith)
                | inr d ↦
                    inr
                      (copy_file-others (lay.backup_path p) p q w (ground (arith, eqb_sym p q)) ∙ d)
              ])
      ]

  reload_quietly-disk :
      (ns : List Text) (w : World)
      → (reload_quietly os names engine_of staged_rel lay ns w).disk ≡ w.disk
  unfolding reload_quietly
  reload_quietly-disk [] w = refl
  reload_quietly-disk (n ∷ ns) w = reload_quietly-disk ns (record w { calls = w.calls + 1 })

  module _
      (inverse : (n : Text) (live : FilePath) (rel : Text)
        → staged_rel n live ≡ some rel
        → (engine_of n).live_path rel ≡ live)
      (apart : (n rel : Text) → NotBackup lay ((engine_of n).live_path rel))
      (one_place : (p q : FilePath) → lay.backup_path p ≡ lay.backup_path q → p ≡ q) (q : FilePath)
      (c : Text) (nb : NotBackup lay q) where
    -- What was written comes back from the backups, whatever came between.
    module _ (gs : List EngineStaged) (w : World)
        (placed : ArePlaced os names engine_of staged_rel inverse gs) (held : w.disk q ≡ some c)
        (saved : In q (all_live gs) → w.disk (lay.backup_path q) ≡ some c) where
      undone :
          (w2 : World)
          → let (bad, applied, w1) =
              write_all os lay (live_files (staged_of os names engine_of staged_rel gs)) [] w in
            w2.disk ≡ w1.disk
            → (restore_copies os names engine_of staged_rel lay applied w2).disk q ≡ some c
      undone w2 same =
          let fs = live_files (staged_of os names engine_of staged_rel gs) in
          let (bad, applied, w1) = write_all os lay fs [] w in
          let from : (p : FilePath) → In p applied → In p (paths_of fs) =
            λ p i. elim (write_all-In os lay p fs [] w i) [ inl l ↦ absurd l | inr r ↦ r ] in
          let nbs : (p : FilePath) → In p applied → NotBackup lay p = λ p i.
            live_files_place os names engine_of staged_rel inverse (NotBackup lay) gs p apart
              (from p i) in
          let untouched : any (eqb (lay.backup_path q)) applied ≡ false =
            elim (Bool-cases (any (eqb (lay.backup_path q)) applied)) [
              | inr n ↦ n
              | inl y ↦
                  absurd (nbs (lay.backup_path q) (any-eqb-In (lay.backup_path q) applied y) q refl)
            ] in
          restore_copies-saved applied q c w2 nbs
            (λ a.
              ap (λ (d : Disk). d (lay.backup_path q)) same
              ∙ (write_all-disk os lay (lay.backup_path q) fs [] w untouched).1
              ∙ saved (
                  live_files-In os names engine_of staged_rel inverse gs q placed
                    (from q (any-eqb-In q applied a))))
            (elim (Bool-cases (any (eqb q) applied)) [
              | inl y ↦ inl y
              | inr n ↦
                  inr (ap (λ (d : Disk). d q) same ∙ (write_all-disk os lay q fs [] w n).1 ∙ held)
            ])

      write_back-saved :
          (write_back os names engine_of staged_rel lay gs w).0 ≢ none
          → (write_back os names engine_of staged_rel lay gs w).1.disk q ≡ some c
      unfolding write_back
      write_back-saved fails =
          let fs = live_files (staged_of os names engine_of staged_rel gs) in
          let applied = (write_all os lay fs [] w).1 in
          let w1 = (write_all os lay fs [] w).2 in
          let down = reload_all os lay (staged_of os names engine_of staged_rel gs) w1 in
          elim (Option-cases (write_all os lay fs [] w).0) [
            | inr (p, e) ↦ rw (e, write_back) (undone w1 refl)
            | inl e ↦ elim (Option-cases down.0) [
              | inl d ↦ absurd (fails (rw (e, d, write_back) refl))
              | inr (n, d) ↦
                  rw (e, d, write_back)
                    (ap (λ (k : Disk). k q)
                        (reload_quietly-disk names
                          (restore_copies os names engine_of staged_rel lay applied down.1))
                      ∙ undone down.1
                          (reload_all-disk os lay (staged_of os names engine_of staged_rel gs) w1))
            ]
          ]

    -- A restore that fails, at whatever step, leaves what every file held, backups aside: reads and
    -- writes do not fail in themselves, the engines' paths are no backups, and no two files have
    -- one backup.
    pub restore_backup-saved :
        (files : List (FilePath × FilePath)) (w : World)
        → w.disk q ≡ some c
        → (restore_backup os names engine_of staged_rel lay files w).0 ≢ none
        → (restore_backup os names engine_of staged_rel lay files w).1.disk q ≡ some c
    unfolding restore_backup
    restore_backup-saved files w held fails =
        let r = collect os names engine_of staged_rel files [] w in
        let held1 : r.1.disk q ≡ some c =
          ap (λ (d : Disk). d q) (collect-disk os names engine_of staged_rel inverse files [] w)
          ∙ held in
        elim (Collected-cases r.0) [
          | inr (p, e) ↦ rw (e, restore_backup) held1
          | inl (gs, e) ↦ elim (Bool-cases (no_groups os names engine_of staged_rel lay gs)) [
            | inl n ↦ rw (e, n, restore_backup) held1
            | inr n ↦ elim (Option-cases (first_invalid os names engine_of staged_rel gs)) [
              | inr (bad, v) ↦ rw (e, n, v, restore_backup) held1
              | inl v ↦ elim (Bool-cases (backup_files os lay (all_live gs) r.1).0) [
                | inr b ↦
                    rw (e, n, v, b, restore_backup)
                      (backup_files-disk os lay q (all_live gs) r.1 nb ∙ held1)
                | inl b ↦
                    let w2 = (backup_files os lay (all_live gs) r.1).1 in
                    let placed : ArePlaced os names engine_of staged_rel inverse gs =
                      rw e at
                        (collect-ArePlaced os names engine_of staged_rel inverse files [] w tt) in
                    rw (e, n, v, b, restore_backup)
                      (write_back-saved gs w2 placed
                        (backup_files-disk os lay q (all_live gs) r.1 nb ∙ held1)
                        (λ i.
                          backup_files-saved os lay reliable one_place q c (all_live gs) r.1 nb i
                            held1 b)
                        (λ z. fails (rw (e, n, v, b, restore_backup) z)))
              ]
            ]
          ]
        ]
