-- ===== src/Service/Apply/Rollback.antt =====
-- What the closure `restore` of ApplyAll brings back: each applied path as it was before the run.
use portguard_v.Base.{
  ℕ, ◌+◌, Bool, true, false, ◌&&◌, List, [], ◌∷◌, ◌++◌, Option, none, some, Text, eqb, eqb_iff,
  eqb_sym, eqb_refl, any, any-append, In-append_split, ◌≡◌, refl, sym, ap, subst, ◌∙◌, ◌≢◌, ◌⊎◌,
  inl, inr, arith, In, Bool-cases, Option-cases,
}
use mathlib.Core.Bool.{false≢true}
use portguard_v.Service.Host.{
  FilePath, Disk, Os, World, Audit, read, write, remove, stat, note, read_file, is_not_exist,
  mkdir_all, write_file, remove_file, atomic_write, prepare_temp, copy_file,
}
use portguard_v.Service.Apply.{
  Layout, Engine, Staged, backup_file, backup_files, find_new, restore_file, restore, write_all,
  reload_all, reload_again, paths_of,
}

abbrev pub is_none : Option Text → Bool
is_none none = true
is_none (some c) = false

pub eqb_ne : (p q : FilePath) → p ≢ q → eqb p q ≡ false
eqb_ne p q ne = elim (Bool-cases (eqb p q)) [
  | inl same ↦ absurd (ne ((eqb_iff p q).0 same))
  | inr differ ↦ differ
]

pub any-eqb-In : (q : FilePath) (ps : List FilePath) → any (eqb q) ps ≡ true → In q ps
any-eqb-In q [] h = absurd (false≢true h)
any-eqb-In q (p ∷ ps) h = elim (Bool-cases (eqb q p)) [
  | inl same ↦ inl (sym ((eqb_iff q p).0 same))
  | inr differ ↦ inr (any-eqb-In q ps (ground arith))
]

pub In-any : (q : FilePath) (ps : List FilePath) → In q ps → any (eqb q) ps ≡ true
In-any q [] k = absurd k
In-any q (p ∷ ps) (inl e) = ground (arith, (eqb_iff q p).1 (sym e))
In-any q (p ∷ ps) (inr k) = ground (arith, In-any q ps k)

-- Reading, writing, removing and asking for a file never fail.
pub record IsReliable (os : Os) : Type 0 where
  pub reads : (n : ℕ) (p : FilePath) → os.fault n (read p) ≡ false
  pub writes : (n : ℕ) (p : FilePath) → os.fault n (write p) ≡ false
  pub removes : (n : ℕ) (p : FilePath) → os.fault n (remove p) ≡ false
  pub stats : (n : ℕ) (p : FilePath) → os.fault n (stat p) ≡ false

-- The path is not the backup of anything.
abbrev pub NotBackup : Layout → FilePath → Type 0
NotBackup lay q = (r : FilePath) → lay.backup_path r ≢ q

module _ (os : Os) (lay : Layout) where
  prepare_temp-disk : (p : FilePath) (w : World) → (prepare_temp os p w).1.disk ≡ w.disk
  unfolding prepare_temp
  prepare_temp-disk p w = ground arith

  pub atomic_write-disk :
      (p q : FilePath) (c : Text) (w : World)
      → eqb p q ≡ false
      → (atomic_write os p c w).1.disk q ≡ w.disk q
  unfolding atomic_write
  atomic_write-disk p q c w h = ground (arith, ap (λ (d : Disk). d q) (prepare_temp-disk p w))

  failed_write-disk :
      (p : FilePath) (c : Text) (w : World)
      → (atomic_write os p c w).0 ≡ false
      → (atomic_write os p c w).1.disk ≡ w.disk
  unfolding atomic_write
  failed_write-disk p c w h = ground (arith, prepare_temp-disk p w)

  pub reload_all-disk : (ss : List Staged) (w : World) → (reload_all os lay ss w).1.disk ≡ w.disk
  unfolding reload_all
  reload_all-disk [] w = refl
  reload_all-disk (s ∷ ss) w = ground (arith, reload_all-disk ss (record w { calls = w.calls + 1 }))

  -- A path that was not written is as it was.
  pub write_all-disk :
      (q : FilePath) (fs : List (FilePath × Text)) (done : List FilePath) (w : World)
      → let (bad, written, w') = write_all os lay fs done w in
        any (eqb q) written ≡ false → (any (eqb q) done ≡ false) × (w'.disk q ≡ w.disk q)
  unfolding write_all
  write_all-disk q [] done w h = (h, refl)
  write_all-disk q ((p, c) ∷ fs) done w h = elim (Bool-cases (atomic_write os p c w).0) [
    | inr failed_write ↦
        let unchanged = failed_write-disk p c w failed_write in
        ground (arith, ap (λ (d : Disk). d q) unchanged)
    | inl written ↦
        let w1 = (atomic_write os p c w).1 in
        let (fresh, same) = write_all-disk q fs (done ++ p ∷ []) w1 (rw written at h) in
        let e = any-append (eqb q) done (p ∷ []) in
        (ground arith, rw written (same ∙ atomic_write-disk p q c w (ground (arith, eqb_sym p q))))
  ]

  -- What was written is among what was to be written.
  pub write_all-In :
      (q : FilePath) (fs : List (FilePath × Text)) (done : List FilePath) (w : World)
      → let (bad, written, w') = write_all os lay fs done w in
        In q written → In q done ⊎ In q (paths_of fs)
  unfolding write_all
  write_all-In q [] done w k = inl k
  write_all-In q ((p, c) ∷ fs) done w k = elim (Bool-cases (atomic_write os p c w).0) [
    | inr failed_write ↦ inl (rw failed_write at k)
    | inl written ↦
        elim (write_all-In q fs (done ++ p ∷ []) (atomic_write os p c w).1 (rw written at k)) [
          | inr later ↦ inr (inr later)
          | inl before ↦ elim (In-append_split q done (p ∷ []) before) [
            | inl old ↦ inl old
            | inr (inl e) ↦ inr (inl e)
            | inr (inr none_left) ↦ absurd none_left
          ]
        ]
  ]

  backup_file-disk :
      (p q : FilePath) (w : World) → NotBackup lay q → (backup_file os lay p w).1.disk q ≡ w.disk q
  unfolding backup_file read_file mkdir_all write_file
  backup_file-disk p q w nb = ground (arith, eqb_ne (lay.backup_path p) q (nb p))

  pub backup_files-disk :
      (q : FilePath) (ps : List FilePath) (w : World)
      → NotBackup lay q
      → (backup_files os lay ps w).1.disk q ≡ w.disk q
  unfolding backup_files
  backup_files-disk q [] w nb = refl
  backup_files-disk q (p ∷ ps) w nb =
      ground
        (arith, backup_file-disk p q w nb, backup_files-disk q ps (backup_file os lay p w).1 nb)

  pub find_new-disk : (ps : List FilePath) (w : World) → (find_new os lay ps w).1.disk ≡ w.disk
  unfolding find_new is_not_exist
  find_new-disk [] w = refl
  find_new-disk (p ∷ ps) w = ground (arith, find_new-disk ps (record w { calls = w.calls + 1 }))

  pub reload_again-disk : (es : List Engine) (w : World) → (reload_again os lay es w).disk ≡ w.disk
  unfolding reload_again
  reload_again-disk [] w = refl
  reload_again-disk (e ∷ es) w =
      let w' : World = record w { calls = w.calls + 1 } in
      ground (
        arith,
        reload_again-disk es w',
        reload_again-disk es (note (Audit.reload_after_rollback_failed e.name) w'),
      )

module _ (os : Os) (lay : Layout) (reliable : IsReliable os)
    (one_place : (p q : FilePath) → lay.backup_path p ≡ lay.backup_path q → p ≡ q) where
  -- A successful backup of one file holds what the file held.
  backup_file-saved :
      (p : FilePath) (c : Text) (w : World)
      → w.disk p ≡ some c
      → (backup_file os lay p w).0 ≡ true
      → (backup_file os lay p w).1.disk (lay.backup_path p) ≡ some c
  unfolding backup_file read_file mkdir_all write_file
  backup_file-saved p c w h ok = ground (
    arith,
    reliable.reads w.calls p,
    reliable.writes (w.calls + 1 + 1) (lay.backup_path p),
    eqb_refl (lay.backup_path p),
  )

  -- The backup of another file touches no other backup.
  backup_file-others :
      (p q : FilePath) (w : World)
      → p ≢ q
      → (backup_file os lay p w).1.disk (lay.backup_path q) ≡ w.disk (lay.backup_path q)
  unfolding backup_file read_file mkdir_all write_file
  backup_file-others p q w ne =
      ground (arith, eqb_ne (lay.backup_path p) (lay.backup_path q) (λ e. ne (one_place p q e)))

  -- A backup that already holds the content of its file still does after the rounds that follow.
  backup_files-keep :
      (q : FilePath) (c : Text) (ps : List FilePath) (w : World)
      → NotBackup lay q
      → w.disk q ≡ some c
      → w.disk (lay.backup_path q) ≡ some c
      → (backup_files os lay ps w).0 ≡ true
      → (backup_files os lay ps w).1.disk (lay.backup_path q) ≡ some c
  unfolding backup_files
  backup_files-keep q c [] w nb h k ok = k
  backup_files-keep q c (p ∷ ps) w nb h k ok = elim (Bool-cases (backup_file os lay p w).0) [
    | inr bad ↦ absurd (false≢true (rw bad at ok))
    | inl good ↦
        let w1 = (backup_file os lay p w).1 in
        let h1 : w1.disk q ≡ some c = backup_file-disk os lay p q w nb ∙ h in
        let k1 : w1.disk (lay.backup_path q) ≡ some c = elim (Bool-cases (eqb p q)) [
          | inl same ↦
              let e = (eqb_iff p q).0 same in
              subst (λ r. w1.disk (lay.backup_path r) ≡ some c) e
                (backup_file-saved p c w (rw e h) good)
          | inr differ ↦
              backup_file-others p q w (λ e. false≢true (sym differ ∙ (eqb_iff p q).1 e)) ∙ k
        ] in
        rw good (backup_files-keep q c ps w1 nb h1 k1 (rw good at ok))
  ]

  -- After a successful backup, the backup of each live file holds what the file held.
  pub backup_files-saved :
      (q : FilePath) (c : Text) (ps : List FilePath) (w : World)
      → NotBackup lay q
      → In q ps
      → w.disk q ≡ some c
      → (backup_files os lay ps w).0 ≡ true
      → (backup_files os lay ps w).1.disk (lay.backup_path q) ≡ some c
  unfolding backup_files
  backup_files-saved q c [] w nb k h ok = absurd k
  backup_files-saved q c (p ∷ ps) w nb k h ok = elim (Bool-cases (backup_file os lay p w).0) [
    | inr bad ↦ absurd (false≢true (rw bad at ok))
    | inl good ↦
        let w1 = (backup_file os lay p w).1 in
        let h1 : w1.disk q ≡ some c = backup_file-disk os lay p q w nb ∙ h in
        elim k [
          | inl e ↦
              let k1 =
                subst (λ r. w1.disk (lay.backup_path r) ≡ some c) e
                  (backup_file-saved p c w (rw e h) good) in
              rw good (backup_files-keep q c ps w1 nb h1 k1 (rw good at ok))
          | inr later ↦ rw good (backup_files-saved q c ps w1 nb later h1 (rw good at ok))
        ]
  ]

  find_new-any :
      (q : FilePath) (ps : List FilePath) (w : World)
      → any (eqb q) (find_new os lay ps w).0 ≡ (is_none (w.disk q) && any (eqb q) ps)
  unfolding find_new is_not_exist
  find_new-any q [] w = ground arith
  find_new-any q (p ∷ ps) w = elim (Bool-cases (eqb q p)) [
    | inl same ↦
        let e = (eqb_iff q p).0 same in
        ground (
          arith,
          ap w.disk e,
          reliable.stats w.calls p,
          find_new-any q ps (record w { calls = w.calls + 1 }),
        )
    | inr differ ↦
        ground
          (arith, reliable.stats w.calls p, find_new-any q ps (record w { calls = w.calls + 1 }))
  ]

  -- `wasNew` has exactly the live paths that hold nothing.
  pub find_new-exact :
      (q : FilePath) (ps : List FilePath) (w : World)
      → In q ps
      → any (eqb q) (find_new os lay ps w).0 ≡ is_none (w.disk q)
  find_new-exact q ps w k = ground (arith, find_new-any q ps w, In-any q ps k)

  module _ (live : List FilePath) (was_new : List FilePath) (d0 : Disk) where
    -- What the backup and `wasNew` say of the live paths, as they were on the disk `d0`.
    pub record IsBackedUp (d : Disk) : Type 0 where
      pub saved :
          (p : FilePath) (c : Text) → In p live → d0 p ≡ some c → d (lay.backup_path p) ≡ some c
      pub new : (p : FilePath) → In p live → any (eqb p) was_new ≡ is_none (d0 p)

    restore_file_self :
        (p : FilePath) (w : World)
        → In p live
        → IsBackedUp w.disk
        → (restore_file os lay was_new p w).disk p ≡ d0 p
    unfolding restore_file copy_file read_file write_file remove_file
    restore_file_self p w k b = elim (Option-cases (d0 p)) [
      | inl nothing ↦ ground (arith, b.new p k, reliable.removes w.calls p, eqb_refl p)
      | inr (c, held) ↦ ground (
        arith,
        b.new p k,
        b.saved p c k held,
        reliable.reads w.calls (lay.backup_path p),
        reliable.writes (w.calls + 1) p,
        eqb_refl p,
      )
    ]

    restore_file-others :
        (p q : FilePath) (w : World)
        → eqb p q ≡ false
        → (restore_file os lay was_new p w).disk q ≡ w.disk q
    unfolding restore_file copy_file read_file write_file remove_file
    restore_file-others p q w h = ground arith

    -- Restoring the paths of `ps` brings every path to what it was, if the others are so already.
    pub restore_lem :
        (ps : List FilePath) (w : World)
        → ((p : FilePath) → In p ps → In p live × NotBackup lay p)
        → IsBackedUp w.disk
        → ((q : FilePath) → NotBackup lay q → any (eqb q) ps ≡ false → w.disk q ≡ d0 q)
        → (q : FilePath) → NotBackup lay q
        → (restore os lay was_new ps w).disk q ≡ d0 q
    unfolding restore
    restore_lem [] w inside b rest q nb = rest q nb refl
    restore_lem (p ∷ ps) w inside b rest q nb =
        let w1 = restore_file os lay was_new p w in
        let (alive, apart) = inside p (inl refl) in
        let b1 : IsBackedUp w1.disk = record {
          saved = λ r c k h.
              restore_file-others p (lay.backup_path r) w
                (eqb_ne p (lay.backup_path r) (λ e. apart r (sym e)))
              ∙ b.saved r c k h;
          new = b.new;
        } in
        restore_lem ps w1 (λ r k. inside r (inr k)) b1
          (λ r r_nb not_later. elim (Bool-cases (eqb p r)) [
            | inl same ↦
                subst (λ z. w1.disk z ≡ d0 z) ((eqb_iff p r).0 same) (restore_file_self p w alive b)
            | inr differ ↦
                restore_file-others p r w differ ∙ rest r r_nb (ground (arith, eqb_sym p r))
          ])
          q nb
