-- ===== src/Ops/Unified/Same.antt =====
-- UnifiedDiff of internal/ops/diff.go is empty just where the texts have the same lines.
use portguard_v.Base.{
  ℕ, suc, List, [], ◌∷◌, map, Text, eqb_refl, ◌≡◌, ◌↔◌, refl, sym, ap, ◌∙◌, inl, inr, arith, ◌⊎◌,
}
use mathlib.Core.List.{append-nil, cons-ne-nil}
use portguard_v.Ops.Diff.{Kind, Chunk, chunk, eq, del, ins, common, diff_ops, lcs_table, walk}
use portguard_v.Ops.Diff.Sides.{old_side, new_side, diff_ops-sides}
use portguard_v.Ops.Unified.{changed, unified, unified_diff, text_lines}

Kind-cases : (k : Kind) → (k ≡ eq) ⊎ (k ≡ del) ⊎ (k ≡ ins)
Kind-cases eq = inl refl
Kind-cases del = inr (inl refl)
Kind-cases ins = inr (inr refl)

changed-sides : (i : ℕ) (cs : List Chunk) → changed i cs ≡ [] → old_side cs ≡ new_side cs
unfolding changed old_side new_side
changed-sides i [] h = refl
changed-sides i (c ∷ cs) h = elim (Kind-cases c.kind) [
  | inl e ↦
      let rest : changed (suc i) cs ≡ [] = rw (e, changed) at h in
      ground (arith, e, changed-sides (suc i) cs rest)
  | inr (inl e) ↦ absurd (cons-ne-nil i (changed (suc i) cs) (rw (e, changed) at h))
  | inr (inr e) ↦ absurd (cons-ne-nil i (changed (suc i) cs) (rw (e, changed) at h))
]

changed-eq : (i : ℕ) (l : List Text) → changed i (map (chunk eq) l) ≡ []
unfolding changed
changed-eq i [] = refl
changed-eq i (x ∷ l) = changed-eq (suc i) l

common_self : (a : List Text) → common a a ≡ record { front = a; rest_old = []; rest_new = [] }
unfolding common
common_self [] = refl
common_self (x ∷ a) = rw (common_self a, eqb_refl x) refl

diff_ops_self : (a : List Text) → diff_ops a a ≡ map (chunk eq) a
unfolding diff_ops common walk lcs_table
diff_ops_self a = rw (common_self a, diff_ops) (append-nil (map (chunk eq) a))

List-cases : (l : List ℕ) → (l ≡ []) ⊎ ((c : ℕ) × (cs : List ℕ) × (l ≡ c ∷ cs))
List-cases [] = inl refl
List-cases (c ∷ cs) = inr (c, cs, refl)

unified-empty :
    (ops : List Chunk) (old_label new_label : Text)
    → (unified ops old_label new_label ≡ []) ↔ (changed 0 ops ≡ [])
unfolding unified
unified-empty ops old_label new_label = elim (List-cases (changed 0 ops)) [
  | inl e ↦ ((λ h. e), (λ h. rw (e, unified) refl))
  | inr (c, cs, e) ↦ (
    (λ h. absurd (cons-ne-nil _ _ (rw (e, unified) at h))),
    (λ h. absurd (cons-ne-nil c cs (sym e ∙ h))),
  )
]

-- The diff of two texts is empty exactly if they have the same lines, where a line ends with or
-- without a carriage return, whatever the labels are.
pub unified_diff-empty :
    (old_text new_text old_label new_label : Text)
    → (unified_diff old_text new_text old_label new_label ≡ [])
      ↔ (text_lines old_text ≡ text_lines new_text)
unfolding unified_diff
unified_diff-empty old_text new_text old_label new_label =
    let a = text_lines old_text in
    let b = text_lines new_text in
    let u = unified-empty (diff_ops a b) old_label new_label in
    (
      (λ h.
          sym (diff_ops-sides a b).0
          ∙ changed-sides 0 (diff_ops a b) (u.0 h)
          ∙ (diff_ops-sides a b).1),
      (λ h. u.1 (
          ap (λ x. changed 0 (diff_ops a x)) (sym h)
          ∙ ap (changed 0) (diff_ops_self a)
          ∙ changed-eq 0 a)),
    )
