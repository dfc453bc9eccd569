-- ===== src/Service/Restore/Collect.antt =====
-- What Restore of internal/service/backups.go collects: every file it is going to write has its live
-- path among the paths that are backed up.
use portguard_v.Base.{
  List, [], ◌∷◌, ◌++◌, Option, none, some, Text, eqb, eqb_iff, ◌≡◌, refl, sym, ap, subst, ◌∙◌, ◌⊎◌,
  inl, inr, In, In-append_left, In-append_right, In-append_split, Bool-cases, Option-cases,
}
use mathlib.Core.List.{map-append}
use portguard_v.Base.Maps.{insert}
use portguard_v.Service.Host.{FilePath, Os, World, Read, content, not_exist, failed, read_file}
use portguard_v.Service.Apply.{Engine, Files, absolute, live_files, paths_of}
use portguard_v.Service.Restore.{
  EngineStaged, Collected, groups, unreadable, add_file, all_live, classify, collect, staged_of,
}

Read-cases : (r : Read) → ((c : Text) × (r ≡ content c)) ⊎ (r ≡ not_exist) ⊎ (r ≡ failed)
Read-cases (content c) = inl (c, refl)
Read-cases not_exist = inr (inl refl)
Read-cases failed = inr (inr refl)

read_file-disk : (os : Os) (p : FilePath) (w : World) → (read_file os p w).1.disk ≡ w.disk
unfolding read_file
read_file-disk os p w = refl

module _ (os : Os) (names : List Text) (engine_of : Text → Engine)
    (staged_rel : Text → FilePath → Option Text)
    (inverse : (n : Text) (live : FilePath) (rel : Text)
      → staged_rel n live ≡ some rel
      → (engine_of n).live_path rel ≡ live) where
  -- The files of a group go to its live paths.
  abbrev Placed : Text → List FilePath → Files → Type 0
  Placed name live [] = Unit
  Placed name live ((rel, c) ∷ fs) = In ((engine_of name).live_path rel) live × Placed name live fs

  abbrev pub ArePlaced : List EngineStaged → Type 0
  ArePlaced [] = Unit
  ArePlaced (g ∷ gs) = Placed g.name g.live g.staged × ArePlaced gs

  Placed-more :
      (name : Text) (live : List FilePath) (p : FilePath) (fs : Files)
      → Placed name live fs
      → Placed name (live ++ p ∷ []) fs
  Placed-more name live p [] h = tt
  Placed-more name live p ((rel, c) ∷ fs) (h, hs) =
      (In-append_left _ live (p ∷ []) h, Placed-more name live p fs hs)

  insert-Placed :
      (name rel c : Text) (live : List FilePath) (fs : Files)
      → In ((engine_of name).live_path rel) live
      → Placed name live fs
      → Placed name live (insert rel c fs)
  unfolding insert
  insert-Placed name rel c live [] k h = (k, tt)
  insert-Placed name rel c live ((j, d) ∷ fs) k (h, hs) = elim (Bool-cases (eqb j rel)) [
    | inl e ↦ rw e (k, hs)
    | inr e ↦ rw e (h, insert-Placed name rel c live fs k hs)
  ]

  add_file-ArePlaced :
      (name rel c : Text) (live : FilePath) (gs : List EngineStaged)
      → (engine_of name).live_path rel ≡ live
      → ArePlaced gs
      → ArePlaced (add_file name rel c live gs)
  unfolding add_file insert
  add_file-ArePlaced name rel c live [] e h = ((inl (sym e), tt), tt)
  add_file-ArePlaced name rel c live (g ∷ gs) e (h, hs) = elim (Bool-cases (eqb g.name name)) [
    | inr d ↦ rw d (h, add_file-ArePlaced name rel c live gs e hs)
    | inl s ↦
        let same : g.name ≡ name = (eqb_iff g.name name).0 s in
        rw s (
          insert-Placed g.name rel c (g.live ++ live ∷ []) g.staged
              (In-append_right _ g.live (live ∷ [])
                (inl (sym (ap (λ n. (engine_of n).live_path rel) same ∙ e))))
              (Placed-more g.name g.live live g.staged h),
          hs,
        )
  ]

  classify-inverse :
      (ns : List Text) (live : FilePath) (n rel : Text)
      → classify os names engine_of staged_rel ns live ≡ some (n, rel)
      → (engine_of n).live_path rel ≡ live
  unfolding classify
  classify-inverse [] live n rel h = absurd cc
  classify-inverse (m ∷ ns) live n rel h = elim (Option-cases (staged_rel m live)) [
    | inl e ↦ classify-inverse ns live n rel (rw (e, classify) at h)
    | inr (r, e) ↦
        let h' : ◌≡◌ {A = Option (Text × Text)} (some (m, r)) (some (n, rel)) =
          rw (e, classify) at h in
        let pair : ◌≡◌ {A = Text × Text} (m, r) (n, rel) =
          ap (λ (o : Option (Text × Text)). elim o [ none ↦ (m, r) | some x ↦ x ]) h' in
        sym (ap (λ (x : Text × Text). (engine_of x.0).live_path x.1) pair) ∙ inverse m live r e
  ]

  -- What collect finds is placed, and it changes no file.
  abbrev Found : Collected → Type 0
  Found (groups gs) = ArePlaced gs
  Found (unreadable p) = Unit

  pub collect-ArePlaced :
      (files : List (FilePath × FilePath)) (gs : List EngineStaged) (w : World)
      → ArePlaced gs
      → Found (collect os names engine_of staged_rel files gs w).0
  unfolding collect
  collect-ArePlaced [] gs w h = h
  collect-ArePlaced ((bak, live) ∷ files) gs w h =
      elim (Option-cases (classify os names engine_of staged_rel names live)) [
        | inl e ↦ rw (e, collect) (collect-ArePlaced files gs w h)
        | inr ((name, rel), e) ↦ elim (Read-cases (read_file os bak w).0) [
          | inl (c, r) ↦
              rw (e, r, collect)
                (collect-ArePlaced files (add_file name rel c live gs) (read_file os bak w).1 (
                  add_file-ArePlaced name rel c live gs (classify-inverse names live name rel e) h))
          | inr (inl r) ↦ rw (e, r, collect) tt
          | inr (inr r) ↦ rw (e, r, collect) tt
        ]
      ]

  pub collect-disk :
      (files : List (FilePath × FilePath)) (gs : List EngineStaged) (w : World)
      → (collect os names engine_of staged_rel files gs w).1.disk ≡ w.disk
  unfolding collect
  collect-disk [] gs w = refl
  collect-disk ((bak, live) ∷ files) gs w =
      elim (Option-cases (classify os names engine_of staged_rel names live)) [
        | inl e ↦ rw (e, collect) (collect-disk files gs w)
        | inr ((name, rel), e) ↦ elim (Read-cases (read_file os bak w).0) [
          | inl (c, r) ↦
              rw (e, r, collect)
                (collect-disk files (add_file name rel c live gs) (read_file os bak w).1
                  ∙ read_file-disk os bak w)
          | inr (inl r) ↦ rw (e, r, collect) (read_file-disk os bak w)
          | inr (inr r) ↦ rw (e, r, collect) (read_file-disk os bak w)
        ]
      ]

  -- Every file to write goes to a live path of its group.
  absolute-In :
      (name : Text) (live : List FilePath) (fs : Files) (p : FilePath)
      → Placed name live fs
      → In p (paths_of (absolute (engine_of name) fs))
      → In p live
  absolute-In name live [] p h i = absurd i
  absolute-In name live ((rel, c) ∷ fs) p (h, hs) (inl e) = subst (λ q. In q live) e h
  absolute-In name live ((rel, c) ∷ fs) p (h, hs) (inr i) = absolute-In name live fs p hs i

  pub live_files-In :
      (gs : List EngineStaged) (p : FilePath)
      → ArePlaced gs
      → In p (paths_of (live_files (staged_of os names engine_of staged_rel gs)))
      → In p (all_live gs)
  live_files-In [] p h i = absurd i
  live_files-In (g ∷ gs) p (h, hs) i =
      let fs = absolute (engine_of g.name) g.staged in
      let i' : In p
          (paths_of fs ++ paths_of (live_files (staged_of os names engine_of staged_rel gs))) =
        subst (In p)
          (map-append (λ (f : FilePath × Text). f.0) fs
            (live_files (staged_of os names engine_of staged_rel gs)))
          i in
      elim (In-append_split p (paths_of fs) _ i') [
        | inl l ↦ In-append_left p g.live (all_live gs) (absolute-In g.name g.live g.staged p h l)
        | inr r ↦ In-append_right p g.live (all_live gs) (live_files-In gs p hs r)
      ]

  -- Every file to write goes to a live path of some engine.
  absolute_place :
      (P : FilePath → Type 0) (e : Engine) (fs : Files) (p : FilePath)
      → ((rel : Text) → P (e.live_path rel))
      → In p (paths_of (absolute e fs))
      → P p
  absolute_place P e [] p h i = absurd i
  absolute_place P e ((rel, c) ∷ fs) p h (inl q) = subst P q (h rel)
  absolute_place P e ((rel, c) ∷ fs) p h (inr i) = absolute_place P e fs p h i

  pub live_files_place :
      (P : FilePath → Type 0) (gs : List EngineStaged) (p : FilePath)
      → ((n rel : Text) → P ((engine_of n).live_path rel))
      → In p (paths_of (live_files (staged_of os names engine_of staged_rel gs)))
      → P p
  live_files_place P [] p h i = absurd i
  live_files_place P (g ∷ gs) p h i =
      let fs = absolute (engine_of g.name) g.staged in
      let rest = live_files (staged_of os names engine_of staged_rel gs) in
      let i' : In p (paths_of fs ++ paths_of rest) =
        subst (In p) (map-append (λ (f : FilePath × Text). f.0) fs rest) i in
      elim (In-append_split p (paths_of fs) (paths_of rest) i') [
        | inl l ↦ absolute_place P (engine_of g.name) g.staged p (h g.name) l
        | inr r ↦ live_files_place P gs p h r
      ]
