-- ===== src/Ops/Diff/Longest.antt =====
-- The lines that diffOps (internal/ops/diff.go) keeps are a longest common subsequence.
use portguard_v.Base.{
  ℕ, ◌+◌, ◌≤◌, ◌≡◌, refl, subst, List, [], ◌∷◌, ◌++◌, map, Text, inl, arith, length,
}
use mathlib.Core.List.{reverse}
use portguard_v.Ops.Diff.{Kind, eq, del, ins, Chunk, chunk, common, lcs_table, walk, diff_ops}
use portguard_v.Ops.Diff.Sides.{old_side, new_side, diff_ops-sides}
use portguard_v.Ops.Diff.Subsequences.{
  Subsequence, Subsequence-skip, Bounded, Bounded-reverse, Bounded-common, length-reverse_aux,
}
use portguard_v.Ops.Diff.Lcs.{kept, kept-all, kept-append, kept-table, lcs, lcs-longest}

diff_ops-Bounded : (a b : List Text) → Bounded a b (kept (diff_ops a b))
unfolding diff_ops Bounded
diff_ops-Bounded a b =
    let pre = common a b in
    let old = reverse pre.rest_old in
    let new = reverse pre.rest_new in
    let suf = common old new in
    let ca = reverse suf.rest_old in
    let cb = reverse suf.rest_new in
    let inner : Bounded ca cb (lcs ca cb) = λ cs. lcs-longest cs ca cb in
    let back =
      Bounded-common old new (lcs ca cb)
        (Bounded-reverse suf.rest_old suf.rest_new (lcs ca cb) inner) in
    let whole =
      Bounded-common a b (length suf.front + lcs ca cb)
        (Bounded-reverse pre.rest_old pre.rest_new (length suf.front + lcs ca cb) back) in
    subst (Bounded a b)
      (count pre.front suf.front (walk (lcs_table ca cb) 0 0 ca cb) (kept-table ca cb)) whole
  where
    count :
        (front back : List Text) (middle : List Chunk) {n : ℕ}
        → kept middle ≡ n
        → length front + (length back + n)
          ≡ kept (map (chunk eq) front ++ (middle ++ map (chunk eq) (reverse back)))
    count front back middle e =
        rw
          (
            kept-append (map (chunk eq) front) (middle ++ map (chunk eq) (reverse back)),
            kept-append middle (map (chunk eq) (reverse back)),
            kept-all front,
            kept-all (reverse back),
            e,
          )
          (omega (arith, length-reverse_aux back []))

-- The lines that stay.
unfoldable pub kept_lines : List Chunk → List Text
kept_lines [] = []
kept_lines (c ∷ cs) = elim c.kind [
  | eq ↦ c.text ∷ kept_lines cs
  | del ↦ kept_lines cs
  | ins ↦ kept_lines cs
]

length-kept_lines : (cs : List Chunk) → length (kept_lines cs) ≡ kept cs
unfolding kept_lines kept
length-kept_lines [] = refl
length-kept_lines (c ∷ cs) = ground (arith, length-kept_lines cs)

KeptOfBoth : List Chunk → Type 0
KeptOfBoth cs =
    Subsequence (kept_lines cs) (old_side cs) × Subsequence (kept_lines cs) (new_side cs)

kept_lines-cons :
    (k : Kind) (t : Text) (cs : List Chunk) → KeptOfBoth cs → KeptOfBoth (chunk k t ∷ cs)
unfolding KeptOfBoth kept_lines old_side new_side
kept_lines-cons eq t cs (s, r) = (inl (refl, s), inl (refl, r))
kept_lines-cons del t cs (s, r) = (Subsequence-skip t (kept_lines cs) (old_side cs) s, r)
kept_lines-cons ins t cs (s, r) = (s, Subsequence-skip t (kept_lines cs) (new_side cs) r)

kept_lines-sides : (cs : List Chunk) → KeptOfBoth cs
unfolding KeptOfBoth kept_lines old_side new_side
kept_lines-sides [] = (tt, tt)
kept_lines-sides (c ∷ cs) = kept_lines-cons c.kind c.text cs (kept_lines-sides cs)

-- The lines that the diff keeps are a subsequence of both texts, and no common subsequence of the
-- two is longer.
pub diff_ops-IsLongest :
    (a b : List Text)
    → (Subsequence (kept_lines (diff_ops a b)) a × Subsequence (kept_lines (diff_ops a b)) b)
      × ((cs : List Text)
          → Subsequence cs a
          → Subsequence cs b
          → length cs ≤ length (kept_lines (diff_ops a b)))
unfolding KeptOfBoth Bounded
diff_ops-IsLongest a b =
    let (s, r) = kept_lines-sides (diff_ops a b) in
    let (o, n) = diff_ops-sides a b in
    (
      (
        subst (Subsequence (kept_lines (diff_ops a b))) o s,
        subst (Subsequence (kept_lines (diff_ops a b))) n r,
      ),
      λ cs p q. rw (length-kept_lines (diff_ops a b)) (diff_ops-Bounded a b cs p q),
    )
