-- ===== src/Service/Apply/Stages.antt =====
-- The first stage of an apply: what an engine's binary does not accept never reaches the disk.
use portguard_v.Base.{
  ℕ, ◌<◌, true, false, List, [], ◌∷◌, ◌++◌, none, some, Text, ◌≡◌, refl, sym, ap, subst, ◌∙◌, ◌⊎◌,
  inl, inr, arith, In, In-append_split, In-append_left, In-append_right, Bool-cases, Option-cases,
  if◌then◌else◌,
}
use mathlib.Core.List.{append-nil, append_assoc}
use mathlib.Core.Path.{ap₂}
use portguard_v.Proxy.Model.{Mapping}
use portguard_v.Service.Host.{FilePath, Os, World, Deploy, set_version_result}
use portguard_v.Service.Apply.{
  Cert, Files, Engine, Layout, Failure, failure, Staged, Stage, ready, stopped, stage_engine,
  stage_engines, count_engine, apply_all, absolute, live_files, paths_of,
}

pub set_version_result-disk : (r : Deploy) (w : World) → (set_version_result r w).disk ≡ w.disk
unfolding set_version_result
set_version_result-disk r w = ground arith

stage_engine-disk :
    (ms : List Mapping) (cs : List Cert) (e : Engine) (w : World)
    → (stage_engine ms cs e w).1.disk ≡ w.disk
unfolding stage_engine set_version_result
stage_engine-disk ms cs e w = ground arith

pub stage_engines-disk :
    (ms : List Mapping) (cs : List Cert) (es : List Engine) (w : World)
    → (stage_engines ms cs es w).1.disk ≡ w.disk
unfolding stage_engines
stage_engines-disk ms cs [] w = refl
stage_engines-disk ms cs (e ∷ es) w =
    ground
      (arith, stage_engine-disk ms cs e w, stage_engines-disk ms cs es (stage_engine ms cs e w).1)

-- The engine cannot be applied: mappings use it and it is not installed, or it is installed and
-- renders nothing that its binary accepts.
abbrev pub Rejects : List Mapping → List Cert → Engine → Type 0
Rejects ms cs e =
    ((e.installed ≡ false) × (0 < count_engine ms e.name))
    ⊎ ((e.installed ≡ true) × ((fs : Files) → e.render ms cs ≡ some fs → e.validate fs ≡ false))

stage_engine-stopped :
    (ms : List Mapping) (cs : List Cert) (e : Engine) (w : World)
    → Rejects ms cs e
    → (f : Failure) × ((stage_engine ms cs e w).0 ≡ stopped f)
unfolding stage_engine
stage_engine-stopped ms cs e w (inl (absent, used)) = (Failure.not_installed e.name, ground arith)
stage_engine-stopped ms cs e w (inr (installed, refused)) = elim (Option-cases (e.render ms cs)) [
  | inl nothing ↦ (Failure.render_failed e.name, ground arith)
  | inr (fs, rendered) ↦
      let bad = refused fs rendered in (Failure.validate_failed e.name, ground arith)
]

pub Stage-cases :
    (s : Stage) → ((f : Failure) × (s ≡ stopped f)) ⊎ ((l : List Staged) × (s ≡ ready l))
Stage-cases (ready l) = inr (l, refl)
Stage-cases (stopped f) = inl (f, refl)

stage_engines-stopped :
    (ms : List Mapping) (cs : List Cert) (e : Engine) (es : List Engine) (w : World)
    → In e es
    → Rejects ms cs e
    → (f : Failure) × ((stage_engines ms cs es w).0 ≡ stopped f)
unfolding stage_engines
stage_engines-stopped ms cs e [] w k r = absurd k
stage_engines-stopped ms cs e (x ∷ es) w (inl eq) r =
    let (f, h) = stage_engine-stopped ms cs x w (subst (Rejects ms cs) (sym eq) r) in
    (f, ground arith)
stage_engines-stopped ms cs e (x ∷ es) w (inr k) r = elim (Stage-cases (stage_engine ms cs x w).0) [
  | inl (f, h) ↦ (f, ground arith)
  | inr (first, h) ↦
      let (f, later) = stage_engines-stopped ms cs e es (stage_engine ms cs x w).1 k r in
      (f, ground arith)
]

-- If the rows can be listed and some engine cannot be applied, the apply fails and no file on the
-- disk changes, whatever the other engines are and whichever calls fail.
pub apply_all_rejected :
    (os : Os) (lay : Layout) (engines : List Engine) (e : Engine) (ms : List Mapping)
    (cs : List Cert) (version : ℕ) (w : World)
    → In e engines
    → Rejects ms cs e
    → let (o, w') = apply_all os lay engines (some (ms, cs)) version w in
      (w'.disk ≡ w.disk) × ((f : Failure) × (o ≡ failure f))
unfolding apply_all
apply_all_rejected os lay engines e ms cs version w k r =
    let w0 : World = record w { pending = version } in
    let (f, h) = stage_engines-stopped ms cs e engines w0 k r in
    (ground (arith, stage_engines-disk ms cs engines w0), (f, ground arith))

pub paths_of-append :
    (xs ys : List (FilePath × Text)) → paths_of (xs ++ ys) ≡ paths_of xs ++ paths_of ys
paths_of-append [] ys = refl
paths_of-append (x ∷ xs) ys = ap (λ l. x.0 ∷ l) (paths_of-append xs ys)

-- The live paths of what the installed engines render, in the order of the engines.
abbrev pub rendered_of : List Mapping → List Cert → Engine → List FilePath
rendered_of ms cs e =
    if e.installed
    then elim (e.render ms cs) [ none ↦ [] | some fs ↦ paths_of (absolute e fs) ]
    else []

unfoldable pub rendered_paths : List Mapping → List Cert → List Engine → List FilePath
rendered_paths ms cs [] = []
rendered_paths ms cs (e ∷ es) = rendered_of ms cs e ++ rendered_paths ms cs es

stage_engine-paths :
    (ms : List Mapping) (cs : List Cert) (e : Engine) (w : World) (ss : List Staged)
    → (stage_engine ms cs e w).0 ≡ ready ss
    → paths_of (live_files ss) ≡ rendered_of ms cs e
unfolding stage_engine
stage_engine-paths ms cs e w ss h = elim (Bool-cases e.installed) [
  | inr absent ↦ ground (arith, paths_of-append [] [])
  | inl present ↦ elim (Option-cases (e.render ms cs)) [
    | inl nothing ↦ ground arith
    | inr (fs, rendered) ↦
        let eq : ss ≡ record { engine = e; files = absolute e fs } ∷ [] = ground arith in
        ap (λ l. paths_of (live_files l)) eq
        ∙ ap paths_of (append-nil (absolute e fs))
        ∙ rw (present, rendered) refl
  ]
]

pub live_files-append :
    (xs ys : List Staged) → live_files (xs ++ ys) ≡ live_files xs ++ live_files ys
live_files-append [] ys = refl
live_files-append (x ∷ xs) ys =
    ap (λ l. x.files ++ l) (live_files-append xs ys)
    ∙ sym (append_assoc x.files (live_files xs) (live_files ys))

pub stage_engines-paths :
    (ms : List Mapping) (cs : List Cert) (es : List Engine) (w : World) (ss : List Staged)
    → (stage_engines ms cs es w).0 ≡ ready ss
    → paths_of (live_files ss) ≡ rendered_paths ms cs es
unfolding stage_engines rendered_paths
stage_engines-paths ms cs [] w ss h =
    let e : ss ≡ [] = ground arith in ap (λ l. paths_of (live_files l)) e
stage_engines-paths ms cs (e ∷ es) w ss h = elim (Stage-cases (stage_engine ms cs e w).0) [
  | inl (f, bad) ↦ ground arith
  | inr (first, good) ↦ elim (Stage-cases (stage_engines ms cs es (stage_engine ms cs e w).1).0) [
    | inl (f, bad) ↦ ground arith
    | inr (rest, later) ↦
        let eq : ss ≡ first ++ rest = ground arith in
        ap (λ l. paths_of (live_files l)) eq
        ∙ ap paths_of (live_files-append first rest)
        ∙ paths_of-append (live_files first) (live_files rest)
        ∙ ap₂ (λ a b. a ++ b) (stage_engine-paths ms cs e w first good)
            (stage_engines-paths ms cs es (stage_engine ms cs e w).1 rest later)
  ]
]

-- What the first stage has checked of an engine that it passes on.
pub record IsStaged (ms : List Mapping) (cs : List Cert) (s : Staged) : Type 0 where
  pub installed : s.engine.installed ≡ true
  pub rendered_files : Files
  pub rendered : s.engine.render ms cs ≡ some rendered_files
  pub accepted : s.engine.validate rendered_files ≡ true
  pub files : s.files ≡ absolute s.engine rendered_files

stage_engine-IsStaged :
    (ms : List Mapping) (cs : List Cert) (e : Engine) (w : World) (ss : List Staged) (s : Staged)
    → (stage_engine ms cs e w).0 ≡ ready ss
    → In s ss
    → (s.engine ≡ e) × IsStaged ms cs s
unfolding stage_engine
stage_engine-IsStaged ms cs e w ss s h k = elim (Bool-cases e.installed) [
  | inr absent ↦ absurd (subst (In s) (nothing_staged absent) k)
  | inl present ↦ elim (Option-cases (e.render ms cs)) [
    | inl none_rendered ↦ absurd (subst (In s) (nothing_rendered present none_rendered) k)
    | inr (fs, some_rendered) ↦ elim (Bool-cases (e.validate fs)) [
      | inr bad ↦ absurd (subst (In s) (nothing_valid present fs some_rendered bad) k)
      | inl good ↦
          let eq : ss ≡ record { engine = e; files = absolute e fs } ∷ [] = ground arith in
          elim (subst (In s) eq k) [
            | inr none_left ↦ absurd none_left
            | inl same ↦ (
              ap (λ (z : Staged). z.engine) (sym same),
              subst (IsStaged ms cs) same (record {
                installed = present;
                rendered_files = fs;
                rendered = some_rendered;
                accepted = good;
                files = refl;
              }),
            )
          ]
    ]
  ]
]
  where
    nothing_staged : e.installed ≡ false → ss ≡ []
    nothing_staged a = ground arith

    nothing_rendered : e.installed ≡ true → e.render ms cs ≡ none → ss ≡ []
    nothing_rendered a b = ground arith

    nothing_valid :
        e.installed ≡ true
        → (fs : Files) → e.render ms cs ≡ some fs
        → e.validate fs ≡ false
        → ss ≡ []
    nothing_valid a fs b c = ground arith

-- Every staged engine is of the list and was checked.
pub stage_engines-IsStaged :
    (ms : List Mapping) (cs : List Cert) (es : List Engine) (w : World) (ss : List Staged)
    (s : Staged)
    → (stage_engines ms cs es w).0 ≡ ready ss
    → In s ss
    → In s.engine es × IsStaged ms cs s
unfolding stage_engines
stage_engines-IsStaged ms cs [] w ss s h k =
    let e : ss ≡ [] = ground arith in absurd (subst (In s) e k)
stage_engines-IsStaged ms cs (e ∷ es) w ss s h k = elim (Stage-cases (stage_engine ms cs e w).0) [
  | inl (f, bad) ↦ ground arith
  | inr (first, good) ↦ elim (Stage-cases (stage_engines ms cs es (stage_engine ms cs e w).1).0) [
    | inl (f, bad) ↦ ground arith
    | inr (rest, later) ↦
        let eq : ss ≡ first ++ rest = ground arith in
        elim (In-append_split s first rest (subst (In s) eq k)) [
          | inl here ↦
              let (same, staged) = stage_engine-IsStaged ms cs e w first s good here in
              (inl (sym same), staged)
          | inr there ↦
              let (member, staged) =
                stage_engines-IsStaged ms cs es (stage_engine ms cs e w).1 rest s later there in
              (inr member, staged)
        ]
  ]
]

installed_staged :
    (ms : List Mapping) (cs : List Cert) (e : Engine) (w : World) (ss : List Staged)
    → e.installed ≡ true
    → (stage_engine ms cs e w).0 ≡ ready ss
    → (fs : Files) × (ss ≡ record { engine = e; files = absolute e fs } ∷ [])
unfolding stage_engine
installed_staged ms cs e w ss up h = elim (Option-cases (e.render ms cs)) [
  | inl nothing ↦ ground arith
  | inr (fs, rendered) ↦ (fs, ground arith)
]

-- Every installed engine of the list is staged.
pub stage_engines_complete :
    (ms : List Mapping) (cs : List Cert) (es : List Engine) (w : World) (ss : List Staged)
    (e : Engine)
    → (stage_engines ms cs es w).0 ≡ ready ss
    → In e es
    → e.installed ≡ true
    → (s : Staged) × In s ss × (s.engine ≡ e)
unfolding stage_engines
stage_engines_complete ms cs [] w ss e h k up = absurd k
stage_engines_complete ms cs (x ∷ es) w ss e h k up =
    elim (Stage-cases (stage_engine ms cs x w).0) [
      | inl (f, bad) ↦ ground arith
      | inr (first, good) ↦
          elim (Stage-cases (stage_engines ms cs es (stage_engine ms cs x w).1).0) [
            | inl (f, bad) ↦ ground arith
            | inr (rest, later) ↦
                let eq : ss ≡ first ++ rest = ground arith in
                elim k [
                  | inl same ↦
                      let (fs, only) =
                        installed_staged ms cs x w first
                          (ap (λ (z : Engine). z.installed) same ∙ up) good in
                      (
                        record { engine = x; files = absolute x fs },
                        subst (In _) (sym eq)
                            (In-append_left _ first rest (subst (In _) (sym only) (inl refl))),
                        same,
                      )
                  | inr there ↦
                      let (s, member, same) =
                        stage_engines_complete ms cs es (stage_engine ms cs x w).1 rest e later
                          there up in
                      (s, subst (In s) (sym eq) (In-append_right s first rest member), same)
                ]
          ]
    ]
