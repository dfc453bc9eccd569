-- ===== src/Service/Prune.antt =====
-- pruneBackups of internal/service/service.go: only the most recent backup folders are kept.
use portguard_v.Base.{
  ℕ, zero, suc, ◌-◌, Bool, true, false, ◌&&◌, List, [], ◌∷◌, none, some, Text, ltb, leb, ◌==◌,
  if◌then◌else◌, length,
}
use mathlib.Core.List.{filter_map}
use portguard_v.Service.Host.{FilePath, Os, World, read_dir, remove_all}

-- Go compares strings by their bytes.
unfoldable pub text_le : Text → Text → Bool
text_le [] ys = true
text_le (x ∷ xs) [] = false
text_le (x ∷ xs) (y ∷ ys) = if x == y then text_le xs ys else ltb x y

unfoldable pub insert_sorted : Text → List Text → List Text
unfolding text_le
insert_sorted t [] = t ∷ []
insert_sorted t (u ∷ us) = if text_le t u then t ∷ u ∷ us else u ∷ insert_sorted t us

-- `sort.Strings`.
unfoldable pub sort_texts : List Text → List Text
unfolding insert_sorted
sort_texts [] = []
sort_texts (t ∷ ts) = insert_sorted t (sort_texts ts)

abbrev pub take {ℓ} : {A : Type ℓ} → ℕ → List A → List A
take zero xs = []
take (suc n) [] = []
take (suc n) (x ∷ xs) = x ∷ take n xs

-- The folders to remove: the oldest of those named by a timestamp, beyond the last `keep`.
unfoldable pub pruned : (Text → Bool) → ℕ → List Text → List Text
unfolding sort_texts filter_map
pruned is_timestamp keep names =
    let dirs = filter_map (λ n. if length n == 15 && is_timestamp n then some n else none) names in
    if leb (length dirs) keep then [] else take (length dirs - keep) (sort_texts dirs)

-- What is taken from `time.Parse` and the layout of the backups folder.
pub record Folders : Type 0 where
  pub is_timestamp : Text → Bool
  pub inside : Text → FilePath → Bool

unfoldable pub remove_folders : Os → Folders → List Text → World → World
remove_folders os fo [] w = w
remove_folders os fo (d ∷ ds) w = remove_folders os fo ds (remove_all os (fo.inside d) d w)

unfoldable pub prune_backups : Os → Folders → ℕ → World → World
prune_backups os fo keep w =
    let (listed, w') = read_dir os w in
    elim listed [
      | none ↦ w'
      | some names ↦ remove_folders os fo (pruned fo.is_timestamp keep names) w'
    ]
