-- ===== src/Service/Apply/Success.antt =====
-- What a successful apply has done.
use portguard_v.Base.{
  ℕ, ◌+◌, true, false, List, [], ◌∷◌, ◌++◌, none, some, Text, eqb_refl, ◌≡◌, refl, sym, ap, subst,
  ◌∙◌, inl, inr, arith, In, In-append_left, In-append_right, Bool-cases, Option-cases,
}
use portguard_v.Proxy.Model.{Mapping}
use portguard_v.Service.Host.{
  FilePath, Disk, Os, World, Audit, Deploy, note, atomic_write, remove_all, read_dir,
}
use portguard_v.Service.Prune.{pruned, remove_folders, prune_backups}
use portguard_v.Service.Apply.{
  Cert, Files, Engine, Layout, success, Staged, absolute, live_files, paths_of, stage_engines,
  write_cert_files, backup_files, find_new, write_all, reload_all, write_and_reload, deploy,
  apply_all, count_enabled,
}
use portguard_v.Service.Apply.Rollback.{eqb_ne, atomic_write-disk, reload_all-disk}
use portguard_v.Service.Apply.Stages.{
  set_version_result-disk, Stage-cases, rendered_paths, stage_engines-paths, stage_engines-IsStaged,
  stage_engines_complete,
}

-- No path is listed twice.
abbrev pub AllApart : List FilePath → Type 0
AllApart [] = Unit
AllApart (p ∷ ps) = ¬ In p ps × AllApart ps

module _ (os : Os) (lay : Layout) where
  written_content :
      (p : FilePath) (c : Text) (w : World)
      → (atomic_write os p c w).0 ≡ true
      → (atomic_write os p c w).1.disk p ≡ some c
  unfolding atomic_write
  written_content p c w h = ground (arith, eqb_refl p)

  -- A path that is not among those to be written is left alone.
  write_all-others :
      (q : FilePath) (fs : List (FilePath × Text)) (done : List FilePath) (w : World)
      → ¬ In q (paths_of fs)
      → (write_all os lay fs done w).2.disk q ≡ w.disk q
  unfolding write_all
  write_all-others q [] done w no_in = refl
  write_all-others q ((p, c) ∷ fs) done w no_in =
      let w1 = (atomic_write os p c w).1 in
      ground (
        arith,
        atomic_write-disk os lay p q c w (eqb_ne p q (λ e. no_in (inl e))),
        write_all-others q fs (done ++ p ∷ []) w1 (λ k. no_in (inr k)),
      )

  -- If every write succeeds and the paths are apart, each file holds its content.
  write_all-content :
      (q : FilePath) (c : Text) (fs : List (FilePath × Text)) (done : List FilePath) (w : World)
      → AllApart (paths_of fs)
      → (write_all os lay fs done w).0 ≡ none
      → In (q, c) fs
      → (write_all os lay fs done w).2.disk q ≡ some c
  unfolding write_all
  write_all-content q c [] done w apart h k = absurd k
  write_all-content q c ((p, d) ∷ fs) done w apart h k =
      let w1 = (atomic_write os p d w).1 in
      elim (Bool-cases (atomic_write os p d w).0) [
        | inr bad ↦ ground arith
        | inl good ↦ elim k [
          | inl same ↦
              let e : p ≡ q = ap (λ (z : FilePath × Text). z.0) same in
              let f : d ≡ c = ap (λ (z : FilePath × Text). z.1) same in
              rw good (
                write_all-others q fs (done ++ p ∷ []) w1
                  (subst (λ z. ¬ In z (paths_of fs)) e apart.0)
                ∙ subst (λ z. w1.disk z ≡ some c) e (written_content p d w good ∙ ap some f))
          | inr later ↦
              rw good (write_all-content q c fs (done ++ p ∷ []) w1 apart.1 (rw good at h) later)
        ]
      ]

  remove_folders-disk :
      (q : FilePath) (ds : List Text) (w : World)
      → ((d : Text) → lay.folders.inside d q ≡ false)
      → (remove_folders os lay.folders ds w).disk q ≡ w.disk q
  unfolding remove_folders remove_all
  remove_folders-disk q [] w out = refl
  remove_folders-disk q (d ∷ ds) w out =
      ground (arith, out d, remove_folders-disk q ds (remove_all os (lay.folders.inside d) d w) out)

  prune_backups-disk :
      (q : FilePath) (keep : ℕ) (w : World)
      → ((d : Text) → lay.folders.inside d q ≡ false)
      → (prune_backups os lay.folders keep w).disk q ≡ w.disk q
  unfolding prune_backups read_dir
  prune_backups-disk q keep w out = ground (
    arith,
    remove_folders-disk q (pruned lay.folders.is_timestamp keep w.backups)
        (record w { calls = w.calls + 1 }) out,
  )

  write_and_reload-content :
      (engines : List Engine) (count : ℕ) (staged : List Staged) (was_new : List FilePath)
      (w : World) (q : FilePath) (c : Text)
      → AllApart (paths_of (live_files staged))
      → ((d : Text) → lay.folders.inside d q ≡ false)
      → (write_and_reload os lay engines count staged was_new w).0 ≡ success
      → In (q, c) (live_files staged)
      → (write_and_reload os lay engines count staged was_new w).1.disk q ≡ some c
  unfolding write_and_reload
  write_and_reload-content engines count staged was_new w q c apart out h k =
      let fs = live_files staged in
      let w1 = (write_all os lay fs [] w).2 in
      let w2 = (reload_all os lay staged w1).1 in
      let w3 = prune_backups os lay.folders 20 w2 in
      elim (Option-cases (write_all os lay fs [] w).0) [
        | inr (p, bad) ↦ ground arith
        | inl all_written ↦ elim (Option-cases (reload_all os lay staged w1).0) [
          | inr (n, down) ↦ ground arith
          | inl up ↦
              let at = λ (d : Disk). d q in
              let stamp =
                ap at (set_version_result-disk Deploy.done (note (Audit.applied count) w3)) in
              let pruned_disk = prune_backups-disk q 20 w2 out in
              let reloaded = ap at (reload_all-disk os lay staged w1) in
              let held = write_all-content q c fs [] w apart all_written k in ground arith
        ]
      ]

  deploy-content :
      (engines : List Engine) (count : ℕ) (cs : List Cert) (staged : List Staged) (w : World)
      (q : FilePath) (c : Text)
      → AllApart (paths_of (live_files staged))
      → ((d : Text) → lay.folders.inside d q ≡ false)
      → (deploy os lay engines count cs staged w).0 ≡ success
      → In (q, c) (live_files staged)
      → (deploy os lay engines count cs staged w).1.disk q ≡ some c
  unfolding deploy
  deploy-content engines count cs staged w q c apart out h k =
      let live = paths_of (live_files staged) in
      let w1 = (write_cert_files os lay cs w).1 in
      let w2 = (backup_files os lay live w1).1 in
      ground (
        arith,
        λ (e : _ ≡ success).
            write_and_reload-content engines count staged (find_new os lay live w2).0
              (find_new os lay live w2).1 q c apart out e k,
      )

In-absolute_file :
    (rel : Text) (c : Text) (e : Engine) (fs : Files)
    → In (rel, c) fs
    → In (e.live_path rel, c) (absolute e fs)
In-absolute_file rel c e [] k = absurd k
In-absolute_file rel c e (f ∷ fs) (inl same) =
    inl (ap (λ (z : Text × Text). (e.live_path z.0, z.1)) same)
In-absolute_file rel c e (f ∷ fs) (inr k) = inr (In-absolute_file rel c e fs k)

In-live_files :
    (x : FilePath × Text) (s : Staged) (ss : List Staged)
    → In s ss
    → In x s.files
    → In x (live_files ss)
In-live_files x s [] m k = absurd m
In-live_files x s (t ∷ ss) (inl e) k =
    In-append_left x t.files (live_files ss) (subst (λ (z : Staged). In x z.files) (sym e) k)
In-live_files x s (t ∷ ss) (inr m) k =
    In-append_right x t.files (live_files ss) (In-live_files x s ss m k)

-- What a successful apply has done for an engine: its binary accepted what it rendered, and each
-- rendered file is live.
pub record IsLive (ms : List Mapping) (cs : List Cert) (e : Engine) (d : Disk) : Type 0 where
  pub files : Files
  pub rendered : e.render ms cs ≡ some files
  pub accepted : e.validate files ≡ true
  pub live : (rel c : Text) → In (rel, c) files → d (e.live_path rel) ≡ some c

-- If the rendered files of the installed engines have live paths apart from one another and outside
-- the backup folders, a successful apply leaves every installed engine of the list with files that
-- its binary accepted, each live with its content.
pub apply_all_success :
    (os : Os) (lay : Layout) (engines : List Engine) (ms : List Mapping) (cs : List Cert)
    (version : ℕ) (w : World) (e : Engine)
    → AllApart (rendered_paths ms cs engines)
    → ((rel d : Text) → lay.folders.inside d (e.live_path rel) ≡ false)
    → (apply_all os lay engines (some (ms, cs)) version w).0 ≡ success
    → In e engines
    → e.installed ≡ true
    → IsLive ms cs e (apply_all os lay engines (some (ms, cs)) version w).1.disk
unfolding apply_all
apply_all_success os lay engines ms cs version w e apart out h k up =
    let w0 : World = record w { pending = version } in
    let w1 = (stage_engines ms cs engines w0).1 in
    elim (Stage-cases (stage_engines ms cs engines w0).0) [
      | inl (g, stop) ↦ ground arith
      | inr (staged, go) ↦
          let (s, member, same) = stage_engines_complete ms cs engines w0 staged e go k up in
          let (_, checked) = stage_engines-IsStaged ms cs engines w0 staged s go member in
          let apart_staged =
            subst AllApart (sym (stage_engines-paths ms cs engines w0 staged go)) apart in
          let h1 : (deploy os lay engines (count_enabled ms) cs staged w1).0 ≡ success =
            ground arith in
          record {
            files = checked.rendered_files;
            rendered =
                subst (λ (z : Engine). z.render ms cs ≡ some checked.rendered_files) same
                  checked.rendered;
            accepted =
                subst (λ (z : Engine). z.validate checked.rendered_files ≡ true) same
                  checked.accepted;
            live = λ rel c m.
                let placed : In (s.engine.live_path rel, c) (live_files staged) =
                  In-live_files _ s staged member (
                    subst (In (s.engine.live_path rel, c)) (sym checked.files)
                      (In-absolute_file rel c s.engine checked.rendered_files m)) in
                let placed_e =
                  subst (λ (z : Engine). In (z.live_path rel, c) (live_files staged)) same placed in
                let held =
                  deploy-content os lay engines (count_enabled ms) cs staged w1 (e.live_path rel) c
                    apart_staged (out rel) h1 placed_e in
                ground arith;
          }
    ]
