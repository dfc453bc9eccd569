-- ===== src/Ops/Tests.antt =====
-- Runs of diffOps (internal/ops/diff.go) on concrete inputs.
use portguard_v.Ops.Unified.{unified_diff, text_lines}
use portguard_v.Ops.Unified.Same.{unified_diff-empty}
use portguard_v.Base.{◌↔◌, ◌≤◌, ◌≡◌, refl, List, [], ◌∷◌, Text, codes, eqb, length}
use portguard_v.Base.Decimal.{decimal, digits}
use portguard_v.Ops.Diff.{
  eq, del, ins, chunk, common, cell, at, zeros, next_row, lcs_table, walk, diff_ops,
}
use portguard_v.Ops.Diff.Sides.{old_side, new_side, diff_ops-sides}
use portguard_v.Ops.Diff.Subsequences.{Subsequence}
use portguard_v.Ops.Unified.{unified, changed, groups, hunk, old_count, new_count}
use portguard_v.Ops.Diff.Longest.{kept_lines, diff_ops-IsLongest}

abbrev old : List Text
old = codes "a" ∷ codes "b" ∷ codes "c" ∷ codes "d" ∷ []

abbrev new : List Text
new = codes "a" ∷ codes "c" ∷ codes "x" ∷ codes "d" ∷ []

lines :
    diff_ops old new
    ≡ chunk eq (codes "a")
      ∷ chunk del (codes "b")
      ∷ chunk eq (codes "c")
      ∷ chunk ins (codes "x")
      ∷ chunk eq (codes "d")
      ∷ []
unfolding diff_ops common cell at zeros next_row lcs_table walk eqb
lines = refl

diff_ops-sides_example : (old_side (diff_ops old new) ≡ old) × (new_side (diff_ops old new) ≡ new)
diff_ops-sides_example = diff_ops-sides old new

diff_ops-IsLongest_example :
    (Subsequence (kept_lines (diff_ops old new)) old
      × Subsequence (kept_lines (diff_ops old new)) new)
    × ((cs : List Text)
        → Subsequence cs old
        → Subsequence cs new
        → length cs ≤ length (kept_lines (diff_ops old new)))
diff_ops-IsLongest_example = diff_ops-IsLongest old new

unified_diff-empty_example :
    (unified_diff (codes "a\nb") (codes "a\r\nb") (codes "old") (codes "new") ≡ [])
    ↔ (text_lines (codes "a\nb") ≡ text_lines (codes "a\r\nb"))
unified_diff-empty_example =
    unified_diff-empty (codes "a\nb") (codes "a\r\nb") (codes "old") (codes "new")

one_hunk :
    unified (diff_ops old new) (codes "live") (codes "staged")
    ≡ codes "--- live\n+++ staged\n@@ -1,4 +1,4 @@\n a\n-b\n c\n+x\n d\n"
unfolding diff_ops common cell at zeros next_row lcs_table walk eqb unified changed groups hunk
    old_count new_count decimal digits
one_hunk = refl
