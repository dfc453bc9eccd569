-- ===== src/Service/Restore/Compare.antt =====
-- Diff of internal/service/backups.go: the files of a backup beside their live versions. As for
-- Restore, the walk over the backup's folder gives pairs of a backup file and its live path.
use portguard_v.Base.{
  ℕ, Bool, true, false, List, [], ◌∷◌, ◌++◌, Option, none, some, Text, codes, is_empty, All, ◌≡◌,
  ◌↔◌, refl, sym, subst, inl, inr, Option-cases,
}
use portguard_v.Ops.Unified.{unified_diff, text_lines}
use portguard_v.Ops.Unified.Same.{unified_diff-empty}
use portguard_v.Service.Host.{
  FilePath, Disk, Os, World, Call, Read, content, not_exist, failed, read, read_file,
}
use portguard_v.Service.Apply.{Engine}
use portguard_v.Service.Restore.{classify}

pub record BackupDiff : Type 0 where
  pub engine : Text
  pub live_path : FilePath
  pub diff : Text
  pub same : Bool

-- The content that a read gives, its error ignored.
abbrev text_of : Read → Text
text_of (content c) = c
text_of not_exist = []
text_of failed = []

abbrev engine_named : Option (Text × Text) → Text
engine_named none = []
engine_named (some (name, rel)) = name

unfoldable pub file_diff : Text → Text → FilePath → Text → Text → BackupDiff
unfolding unified_diff
file_diff ts name live bak_text live_text =
    let d =
      unified_diff bak_text live_text (codes "backup/" ++ ts ++ live) (codes "live" ++ live) in
    record { engine = name; live_path = live; diff = d; same = is_empty d }

module _ (os : Os) (names : List Text) (engine_of : Text → Engine)
    (staged_rel : Text → FilePath → Option Text) (ts : Text) where
  -- A backup file that cannot be read is left out.
  unfoldable pub diff_backup : List (FilePath × FilePath) → World → List BackupDiff × World
  unfolding classify read_file file_diff
  diff_backup [] w = ([], w)
  diff_backup ((bak, live) ∷ files) w =
      let (r, w1) = read_file os bak w in
      let (l, w2) = read_file os live w1 in
      let name = engine_named (classify os names engine_of staged_rel names live) in
      elim r [
        | not_exist ↦ diff_backup files w1
        | failed ↦ diff_backup files w1
        | content b ↦
            let (ds, w3) = diff_backup files w2 in (file_diff ts name live b (text_of l) ∷ ds, w3)
      ]

-- What a file holds, where one that is not there counts as empty.
abbrev pub held : Option Text → Text
held none = []
held (some c) = c

abbrev pub IsThere : Option Text → Type 0
IsThere o = (c : Text) × (o ≡ some c)

-- Each file has its entry, which is the same just where the lines are.
abbrev pub Compares : Disk → List (FilePath × FilePath) → List BackupDiff → Type 0
Compares disk [] [] = Unit
Compares disk [] (d ∷ ds) = ⊥
Compares disk (f ∷ fs) [] = ⊥
Compares disk ((bak, live) ∷ fs) (d ∷ ds) =
    (d.live_path ≡ live)
    × ((d.same ≡ true) ↔ (text_lines (held (disk bak)) ≡ text_lines (held (disk live))))
    × Compares disk fs ds

is_empty_iff : (t : Text) → (is_empty t ≡ true) ↔ (t ≡ [])
is_empty_iff [] = ((λ h. refl), (λ h. refl))
is_empty_iff (c ∷ t) = ((λ h. absurd (let z : false ≡ true = h in cc)), (λ h. absurd (cc)))

file_diff-same :
    (ts name : Text) (live : FilePath) (b l : Text)
    → ((file_diff ts name live b l).same ≡ true) ↔ (text_lines b ≡ text_lines l)
unfolding file_diff
file_diff-same ts name live b l =
    let d = unified_diff b l (codes "backup/" ++ ts ++ live) (codes "live" ++ live) in
    let e = is_empty_iff d in
    let u = unified_diff-empty b l (codes "backup/" ++ ts ++ live) (codes "live" ++ live) in
    ((λ h. u.0 (e.0 h)), (λ h. e.1 (u.1 h)))

live_path-file_diff :
    (ts name : Text) (live : FilePath) (b l : Text) → (file_diff ts name live b l).live_path ≡ live
unfolding file_diff
live_path-file_diff ts name live b l = refl

module _ (os : Os) (never_fails : (n : ℕ) (c : Call) → os.fault n c ≡ false) where
  read_held : (p : FilePath) (w : World) → text_of (read_file os p w).0 ≡ held (w.disk p)
  unfolding read_file
  read_held p w = elim (Option-cases (w.disk p)) [
    | inl e ↦ rw (never_fails w.calls (read p), e) refl
    | inr (c, e) ↦ rw (never_fails w.calls (read p), e) refl
  ]

  read_there :
      (p : FilePath) (w : World) (c : Text) → w.disk p ≡ some c → (read_file os p w).0 ≡ content c
  unfolding read_file
  read_there p w c e = rw (never_fails w.calls (read p), e) refl

  module _ (names : List Text) (engine_of : Text → Engine)
      (staged_rel : Text → FilePath → Option Text) (ts : Text) where
    -- Where no read fails and the backup's files are there, Diff has one entry for each of them, in
    -- their order, and calls it the same just where the backup and the live file have the same
    -- lines; a live file that is gone counts as an empty one.
    pub diff_backup-Compares :
        (files : List (FilePath × FilePath)) (w : World)
        → All (λ f. IsThere (w.disk f.0)) files
        → Compares w.disk files (diff_backup os names engine_of staged_rel ts files w).0
    unfolding diff_backup read_file
    diff_backup-Compares [] w h = tt
    diff_backup-Compares ((bak, live) ∷ files) w ((b, e), hs) =
        let w1 = (read_file os bak w).1 in
        let (l, w2) = read_file os live w1 in
        let name = engine_named (classify os names engine_of staged_rel names live) in
        let rest = diff_backup-Compares files w2 hs in
        let same : ((file_diff ts name live b (text_of l)).same ≡ true)
            ↔ (text_lines (held (w.disk bak)) ≡ text_lines (held (w.disk live))) =
          rw (e, sym (read_held live w1)) (file_diff-same ts name live b (text_of l)) in
        subst
          (λ r.
            Compares w.disk ((bak, live) ∷ files)
              (elim r as (λ x. List BackupDiff × World) [
                | not_exist ↦ diff_backup os names engine_of staged_rel ts files w1
                | failed ↦ diff_backup os names engine_of staged_rel ts files w1
                | content b' ↦
                    let (ds, w3) = diff_backup os names engine_of staged_rel ts files w2 in
                    (file_diff ts name live b' (text_of l) ∷ ds, w3)
              ]).0)
          (sym (read_there bak w b e)) (live_path-file_diff ts name live b (text_of l), same, rest)
