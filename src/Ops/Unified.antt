-- ===== src/Ops/Unified.antt =====
-- UnifiedDiff of internal/ops/diff.go: the hunks of the lines that diffOps gives.
pub mod Same
use portguard_v.Base.{
  ℕ, zero, suc, ◌+◌, ◌-◌, ◌*◌, Bool, true, false, not, List, [], ◌∷◌, ◌++◌, Option, none, some,
  Text, codes, split, length, leb, ltb, if◌then◌else◌, ◌==◌, ◌&&◌,
}
use portguard_v.Base.Decimal.{decimal}
use portguard_v.Ops.Diff.{Kind, Chunk, eq, del, ins, diff_ops}

-- Every carriage return in front of a newline is dropped.
unfoldable pub unix_newlines : Text → Text
unix_newlines [] = []
unix_newlines (c ∷ []) = c ∷ []
unix_newlines (c ∷ d ∷ s) =
    let rest = unix_newlines (d ∷ s) in if c == b'\r' && d == b'\n' then rest else c ∷ rest

unfoldable pub text_lines : Text → List Text
unfolding unix_newlines split
text_lines s = split b'\n' (unix_newlines s)

abbrev pub is_eq : Kind → Bool
is_eq eq = true
is_eq del = false
is_eq ins = false

-- The positions of the changed lines, from the position `i` on.
unfoldable pub changed : ℕ → List Chunk → List ℕ
changed i [] = []
changed i (c ∷ cs) = let rest = changed (suc i) cs in if is_eq c.kind then rest else i ∷ rest

-- Changes whose gap is at most twice the context share a hunk: its first and its last change.
unfoldable pub groups : ℕ → ℕ → List ℕ → List (ℕ × ℕ)
groups start prev [] = (start, prev) ∷ []
groups start prev (c ∷ cs) =
    let same = groups start c cs in
    let next = groups c c cs in if leb (c - prev) 6 then same else (start, prev) ∷ next

abbrev take : ℕ → List Chunk → List Chunk
take zero cs = []
take (suc n) [] = []
take (suc n) (c ∷ cs) = c ∷ take n cs

abbrev drop : ℕ → List Chunk → List Chunk
drop zero cs = cs
drop (suc n) [] = []
drop (suc n) (c ∷ cs) = drop n cs

-- How many lines of the old and of the new text some lines of the diff are.
unfoldable pub old_count : List Chunk → ℕ
old_count [] = 0
old_count (c ∷ cs) = let n = old_count cs in elim c.kind [ eq ↦ suc n | del ↦ suc n | ins ↦ n ]

unfoldable pub new_count : List Chunk → ℕ
new_count [] = 0
new_count (c ∷ cs) = let n = new_count cs in elim c.kind [ eq ↦ suc n | del ↦ n | ins ↦ suc n ]

abbrev mark : Kind → ℕ
mark eq = b' '
mark del = b'-'
mark ins = b'+'

abbrev chunk_lines : List Chunk → Text
chunk_lines [] = []
chunk_lines (c ∷ cs) = (mark c.kind ∷ c.text) ++ b'\n' ∷ chunk_lines cs

-- A hunk from three lines before its first change to three after its last.
unfoldable pub hunk : List Chunk → ℕ × ℕ → Text
unfolding old_count new_count
hunk ops (first, last) =
    let s = first - 3 in
    let body = take (last + 4 - s) (drop s ops) in
    codes "@@ -"
    ++ decimal (suc (old_count (take s ops)))
    ++ codes ","
    ++ decimal (old_count body)
    ++ codes " +"
    ++ decimal (suc (new_count (take s ops)))
    ++ codes ","
    ++ decimal (new_count body)
    ++ codes " @@\n"
    ++ chunk_lines body

abbrev hunks : List Chunk → List (ℕ × ℕ) → Text
hunks ops [] = []
hunks ops (g ∷ gs) = hunk ops g ++ hunks ops gs

unfoldable pub unified : List Chunk → Text → Text → Text
unfolding hunk groups changed
unified ops old_label new_label = elim (changed 0 ops) [
  | [] ↦ []
  | c ∷ cs ↦
      codes "--- "
      ++ (old_label ++ codes "\n+++ " ++ new_label ++ codes "\n" ++ hunks ops (groups c c cs))
]

unfoldable pub unified_diff : Text → Text → Text → Text → Text
unfolding unified diff_ops text_lines
unified_diff old_text new_text old_label new_label =
    unified (diff_ops (text_lines old_text) (text_lines new_text)) old_label new_label
