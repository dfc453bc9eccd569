-- ===== src/Service/Apply/Atomic.antt =====
-- An apply whose writes or reloads fail leaves every file as it was.
use portguard_v.Base.{
  ℕ, ◌+◌, false, List, [], ◌∷◌, some, Text, eqb, any, ℤ, ◌≡◌, refl, sym, ap, subst, ◌∙◌, ◌≢◌, inl,
  inr, arith, In, In-append_split, Bool-cases, Option-cases,
}
use portguard_v.Proxy.Model.{Mapping}
use portguard_v.Service.Host.{FilePath, Disk, Os, World, Audit, Deploy, note, write_file, mkdir_all}
use portguard_v.Service.Apply.{
  Cert, Files, Engine, Layout, Failure, write_failed, reload_failed, failure, Staged, absolute,
  live_files, paths_of, stage_engines, write_cert, write_certs, write_cert_files, backup_files,
  find_new, restore, write_all, reload_all, reload_again, write_and_reload, deploy, apply_all,
  count_enabled,
}
use portguard_v.Service.Apply.Rollback.{
  IsReliable, NotBackup, eqb_ne, any-eqb-In, reload_all-disk, write_all-disk, write_all-In,
  backup_files-disk, find_new-disk, reload_again-disk, backup_files-saved, find_new-exact,
  IsBackedUp, restore_lem, is_none,
}
use portguard_v.Service.Apply.Stages.{
  set_version_result-disk, stage_engines-disk, Stage-cases, paths_of-append, IsStaged,
  stage_engines-IsStaged,
}

-- The path is no certificate file.
abbrev pub NotCert : Layout → FilePath → Type 0
NotCert lay q = (i : ℤ) → (lay.crt_path i ≢ q) × (lay.key_path i ≢ q) × (lay.pem_path i ≢ q)

-- The failures after which ApplyAll restores.
abbrev pub IsRollback : Failure → Type 0
IsRollback (write_failed p) = Unit
IsRollback (reload_failed n) = Unit
IsRollback _ = ⊥

-- No backup lies at a live path of an engine of the list.
abbrev pub BackupsApart : Layout → List Engine → Type 0
BackupsApart lay engines =
    (e : Engine) → In e engines → (rel : Text) → NotBackup lay (e.live_path rel)

module _ (os : Os) (lay : Layout) where
  write_cert-disk :
      (q : FilePath) (c : Cert) (w : World)
      → NotCert lay q
      → (write_cert os lay c w).1.disk q ≡ w.disk q
  unfolding write_cert write_file
  write_cert-disk q c w nc = ground (
    arith,
    eqb_ne (lay.crt_path c.id) q (nc c.id).0,
    eqb_ne (lay.key_path c.id) q (nc c.id).1,
    eqb_ne (lay.pem_path c.id) q (nc c.id).2,
  )

  write_certs-disk :
      (q : FilePath) (cs : List Cert) (w : World)
      → NotCert lay q
      → (write_certs os lay cs w).1.disk q ≡ w.disk q
  unfolding write_certs
  write_certs-disk q [] w nc = refl
  write_certs-disk q (c ∷ cs) w nc =
      ground (arith, write_cert-disk q c w nc, write_certs-disk q cs (write_cert os lay c w).1 nc)

  pub write_cert_files-disk :
      (q : FilePath) (cs : List Cert) (w : World)
      → NotCert lay q
      → (write_cert_files os lay cs w).1.disk q ≡ w.disk q
  unfolding write_cert_files mkdir_all
  write_cert_files-disk q cs w nc =
      ground (arith, write_certs-disk q cs (record w { calls = w.calls + 1 }) nc)

-- Where a staged file goes is a live path of an engine of the list.
In-absolute :
    (q : FilePath) (e : Engine) (fs : Files)
    → In q (paths_of (absolute e fs))
    → (rel : Text) × (q ≡ e.live_path rel)
In-absolute q e [] k = absurd k
In-absolute q e (f ∷ fs) (inl eq) = (f.0, sym eq)
In-absolute q e (f ∷ fs) (inr k) = In-absolute q e fs k

-- A path that is written is a live path of an engine of the list.
pub owned :
    (q : FilePath) (engines : List Engine) (ms : List Mapping) (cs : List Cert) (ss : List Staged)
    → ((s : Staged) → In s ss → In s.engine engines × IsStaged ms cs s)
    → In q (paths_of (live_files ss))
    → (e : Engine) × (rel : Text) × In e engines × (q ≡ e.live_path rel)
owned q engines ms cs [] all_staged k = absurd k
owned q engines ms cs (s ∷ ss) all_staged k =
    elim (In-append_split q (paths_of s.files) (paths_of (live_files ss))
      (subst (In q) (paths_of-append s.files (live_files ss)) k)) [
        | inl here ↦
            let (member, staged) = all_staged s (inl refl) in
            let (rel, at) =
              In-absolute q s.engine staged.rendered_files
                (subst (λ fs. In q (paths_of fs)) staged.files here) in
            (s.engine, rel, member, at)
        | inr there ↦ owned q engines ms cs ss (λ t m. all_staged t (inr m)) there
      ]

module _ (os : Os) (lay : Layout) (reliable : IsReliable os)
    (one_place : (p q : FilePath) → lay.backup_path p ≡ lay.backup_path q → p ≡ q) where
  -- Restoring what was written undoes the writes.
  undone :
      (fs : List (FilePath × Text)) (was_new : List FilePath) (w v : World)
      → ((p : FilePath) → In p (paths_of fs) → NotBackup lay p)
      → IsBackedUp os lay reliable one_place (paths_of fs) was_new w.disk w.disk
      → v.disk ≡ (write_all os lay fs [] w).2.disk
      → (q : FilePath) → NotBackup lay q
      → (restore os lay was_new (write_all os lay fs [] w).1 v).disk q ≡ w.disk q
  undone fs was_new w v apart b same =
      let written = (write_all os lay fs [] w).1 in
      let inside : (p : FilePath) → In p written → In p (paths_of fs) =
        λ p k. elim (write_all-In os lay p fs [] w k) [ inl e ↦ absurd e | inr i ↦ i ] in
      let untouched : (p : FilePath) → any (eqb p) written ≡ false → v.disk p ≡ w.disk p =
        λ p n. ap (λ (d : Disk). d p) same ∙ (write_all-disk os lay p fs [] w n).1 in
      let backup_untouched : (p : FilePath) → any (eqb (lay.backup_path p)) written ≡ false = λ p.
        elim (Bool-cases (any (eqb (lay.backup_path p)) written)) [
          | inr n ↦ n
          | inl t ↦ absurd (apart _ (inside _ (any-eqb-In _ written t)) p refl)
        ] in
      restore_lem os lay reliable one_place (paths_of fs) was_new w.disk written v
        (λ p k. (inside p k, apart p (inside p k)))
        (record {
          saved = λ p c k h. untouched (lay.backup_path p) (backup_untouched p) ∙ b.saved p c k h;
          new = b.new;
        })
        (λ q nb n. untouched q n)

  -- Steps 4 to 6 from a world in which the live files are backed up.
  write_and_reload-undone :
      (engines : List Engine) (count : ℕ) (staged : List Staged) (was_new : List FilePath)
      (w : World) (f : Failure)
      → ((p : FilePath) → In p (paths_of (live_files staged)) → NotBackup lay p)
      → IsBackedUp os lay reliable one_place (paths_of (live_files staged)) was_new w.disk w.disk
      → (write_and_reload os lay engines count staged was_new w).0 ≡ failure f
      → (q : FilePath) → NotBackup lay q
      → (write_and_reload os lay engines count staged was_new w).1.disk q ≡ w.disk q
  unfolding write_and_reload
  write_and_reload-undone engines count staged was_new w f apart b h q nb =
      let fs = live_files staged in
      let w1 = (write_all os lay fs [] w).2 in
      let written = (write_all os lay fs [] w).1 in
      let w2 = (reload_all os lay staged w1).1 in
      let back1 = undone fs was_new w w1 apart b refl q nb in
      let back2 = undone fs was_new w w2 apart b (reload_all-disk os lay staged w1) q nb in
      elim (Option-cases (write_all os lay fs [] w).0) [
        | inr (p, bad) ↦ ground arith
        | inl all_written ↦ elim (Option-cases (reload_all os lay staged w1).0) [
          | inl up ↦ ground arith
          | inr (n, down) ↦
              let v = restore os lay was_new written w2 in
              let stamp =
                set_version_result-disk (Deploy.rolled_back n)
                  (note (Audit.reload_failed n) (reload_again os lay engines v)) in
              let same = ap (λ (d : Disk). d q) (stamp ∙ reload_again-disk os lay engines v) in
              ground arith
        ]
      ]

  deploy-undone :
      (engines : List Engine) (count : ℕ) (cs : List Cert) (staged : List Staged) (w : World)
      (f : Failure)
      → ((p : FilePath) → In p (paths_of (live_files staged)) → NotBackup lay p)
      → IsRollback f
      → (deploy os lay engines count cs staged w).0 ≡ failure f
      → (q : FilePath) → NotBackup lay q
      → NotCert lay q
      → (deploy os lay engines count cs staged w).1.disk q ≡ w.disk q
  unfolding deploy
  deploy-undone engines count cs staged w f apart rolled h q nb nc =
      let live = paths_of (live_files staged) in
      let w1 = (write_cert_files os lay cs w).1 in
      let w2 = (backup_files os lay live w1).1 in
      let was_new = (find_new os lay live w2).0 in
      let w3 = (find_new os lay live w2).1 in
      let certs = write_cert_files-disk os lay q cs w nc in
      let copies = backup_files-disk os lay q live w1 nb in
      let looked = find_new-disk os lay live w2 in
      elim (Bool-cases (write_cert_files os lay cs w).0) [
        | inr no_certs ↦
            let e : f ≡ Failure.certs_failed = ground arith in absurd (subst IsRollback e rolled)
        | inl certs_ok ↦ elim (Bool-cases (backup_files os lay live w1).0) [
          | inr no_backup ↦
              let e : f ≡ Failure.backup_failed = ground arith in absurd (subst IsRollback e rolled)
          | inl saved ↦
              let b : IsBackedUp os lay reliable one_place live was_new w3.disk w3.disk = record {
                saved = λ p c k e.
                    ap (λ (d : Disk). d (lay.backup_path p)) looked
                    ∙ backup_files-saved os lay reliable one_place p c live w1 (apart p k) k
                        (sym (backup_files-disk os lay p live w1 (apart p k))
                          ∙ sym (ap (λ (d : Disk). d p) looked)
                          ∙ e)
                        saved;
                new = λ p k.
                    find_new-exact os lay reliable one_place p live w2 k
                    ∙ ap (λ (d : Disk). is_none (d p)) (sym looked);
              } in
              let h3 : (write_and_reload os lay engines count staged was_new w3).0 ≡ failure f =
                ground arith in
              let back =
                write_and_reload-undone engines count staged was_new w3 f apart b h3 q nb in
              let here = ap (λ (d : Disk). d q) looked in ground arith
        ]
      ]

  -- If reads, writes, removals and queries of files do not fail, every live file has a backup path
  -- of its own and no backup lies at a live path, then an apply that fails to write a file or to
  -- reload an engine leaves each file that is no certificate and no backup with exactly the content
  -- that it had before, or absent if it was absent.
  pub apply_all_rolled_back :
      (engines : List Engine) (ms : List Mapping) (cs : List Cert) (version : ℕ) (w : World)
      (f : Failure)
      → BackupsApart lay engines
      → IsRollback f
      → (apply_all os lay engines (some (ms, cs)) version w).0 ≡ failure f
      → (q : FilePath) → NotBackup lay q
      → NotCert lay q
      → (apply_all os lay engines (some (ms, cs)) version w).1.disk q ≡ w.disk q
  unfolding apply_all
  apply_all_rolled_back engines ms cs version w f apart rolled h q nb nc =
      let w0 : World = record w { pending = version } in
      let w1 = (stage_engines ms cs engines w0).1 in
      let quiet = ap (λ (d : Disk). d q) (stage_engines-disk ms cs engines w0) in
      elim (Stage-cases (stage_engines ms cs engines w0).0) [
        | inl (g, stop) ↦ ground arith
        | inr (staged, go) ↦
            let live : (p : FilePath) → In p (paths_of (live_files staged)) → NotBackup lay p =
              λ p k.
                let (e, rel, member, at) =
                  owned p engines ms cs staged
                    (λ s m. stage_engines-IsStaged ms cs engines w0 staged s go m) k in
                subst (NotBackup lay) (sym at) (apart e member rel) in
            let h1 : (deploy os lay engines (count_enabled ms) cs staged w1).0 ≡ failure f =
              ground arith in
            let back =
              deploy-undone engines (count_enabled ms) cs staged w1 f live rolled h1 q nb nc in
            ground arith
      ]
