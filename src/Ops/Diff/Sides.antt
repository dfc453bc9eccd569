-- ===== src/Ops/Diff/Sides.antt =====
-- Both texts can be read off the lines of diffOps (internal/ops/diff.go).
use portguard_v.Base.{
  ℕ, suc, ◌≡◌, refl, sym, ap, ◌∙◌, List, [], ◌∷◌, ◌++◌, map, Text, eqb, eqb_iff, inl, inr,
  Bool-cases, arith, leb,
}
use mathlib.Core.List.{reverse, reverse-append, reverse-reverse}
use portguard_v.Ops.Diff.{eq, del, ins, Chunk, chunk, common, cell, lcs_table, walk, diff_ops}

-- The old text: the lines that are not inserted; the new one: those that are not deleted.
unfoldable pub old_side : List Chunk → List Text
old_side [] = []
old_side (c ∷ cs) = elim c.kind [
  | eq ↦ c.text ∷ old_side cs
  | del ↦ c.text ∷ old_side cs
  | ins ↦ old_side cs
]

unfoldable pub new_side : List Chunk → List Text
new_side [] = []
new_side (c ∷ cs) = elim c.kind [
  | eq ↦ c.text ∷ new_side cs
  | del ↦ new_side cs
  | ins ↦ c.text ∷ new_side cs
]

old_side-append : (cs ds : List Chunk) → old_side (cs ++ ds) ≡ old_side cs ++ old_side ds
unfolding old_side
old_side-append [] ds = refl
old_side-append (c ∷ cs) ds = ground (arith, old_side-append cs ds)

new_side-append : (cs ds : List Chunk) → new_side (cs ++ ds) ≡ new_side cs ++ new_side ds
unfolding new_side
new_side-append [] ds = refl
new_side-append (c ∷ cs) ds = ground (arith, new_side-append cs ds)

sides-eq : (l : List Text) → (old_side (map (chunk eq) l) ≡ l) × (new_side (map (chunk eq) l) ≡ l)
unfolding old_side new_side
sides-eq [] = (refl, refl)
sides-eq (x ∷ l) = let (o, n) = sides-eq l in (ap (λ r. x ∷ r) o, ap (λ r. x ∷ r) n)

sides-del :
    (l : List Text) → (old_side (map (chunk del) l) ≡ l) × (new_side (map (chunk del) l) ≡ [])
unfolding old_side new_side
sides-del [] = (refl, refl)
sides-del (x ∷ l) = let (o, n) = sides-del l in (ap (λ r. x ∷ r) o, n)

sides-ins :
    (l : List Text) → (old_side (map (chunk ins) l) ≡ []) × (new_side (map (chunk ins) l) ≡ l)
unfolding old_side new_side
sides-ins [] = (refl, refl)
sides-ins (x ∷ l) = let (o, n) = sides-ins l in (o, ap (λ r. x ∷ r) n)

sides-walk :
    (t : List (List ℕ)) (i j : ℕ) (a b : List Text)
    → (old_side (walk t i j a b) ≡ a) × (new_side (walk t i j a b) ≡ b)
unfolding old_side new_side walk
sides-walk t i j [] b = sides-ins b
sides-walk t i j (x ∷ a) [] = sides-del (x ∷ a)
sides-walk t i j (x ∷ a) (y ∷ b) = elim (Bool-cases (eqb x y)) [
  | inl e ↦
      let (o, n) = sides-walk t (suc i) (suc j) a b in
      rw (old_side, new_side, walk, e) (ap (λ r. x ∷ r) o, ground (arith, n, eqb_iff x y))
  | inr e ↦ elim (Bool-cases (leb (cell t i (suc j)) (cell t (suc i) j))) [
    | inl l ↦
        let (o, n) = sides-walk t (suc i) j a (y ∷ b) in
        rw (old_side, new_side, walk, e, l) (ap (λ r. x ∷ r) o, n)
    | inr l ↦
        let (o, n) = sides-walk t i (suc j) (x ∷ a) b in
        rw (old_side, new_side, walk, e, l) (o, ap (λ r. y ∷ r) n)
  ]
]

pub common-sides :
    (a b : List Text)
    → (a ≡ (common a b).front ++ (common a b).rest_old)
      × (b ≡ (common a b).front ++ (common a b).rest_new)
unfolding common
common-sides [] b = (refl, refl)
common-sides (x ∷ a) [] = (refl, refl)
common-sides (x ∷ a) (y ∷ b) = elim (Bool-cases (eqb x y)) [
  | inl e ↦
      let (o, n) = common-sides a b in rw e (ap (λ r. x ∷ r) o, ground (arith, n, eqb_iff x y))
  | inr e ↦ rw e (refl, refl)
]

-- The lines in common at the back.
common-back :
    (l : List Text) (front rest : List Text)
    → reverse l ≡ front ++ rest
    → reverse rest ++ reverse front ≡ l
common-back l front rest e =
    sym (reverse-append front rest) ∙ ap reverse (sym e) ∙ reverse-reverse l

-- One side of the three parts of diffOps.
side-append :
    (side : List Chunk → List Text)
    → ((cs ds : List Chunk) → side (cs ++ ds) ≡ side cs ++ side ds)
    → (front : List Text) (middle : List Chunk) (back : List Text) {m : List Text}
    → ((l : List Text) → side (map (chunk eq) l) ≡ l)
    → side middle ≡ m
    → side (map (chunk eq) front ++ (middle ++ map (chunk eq) back)) ≡ front ++ (m ++ back)
side-append side app front middle back eqs e =
    rw
      (
        app (map (chunk eq) front) (middle ++ map (chunk eq) back),
        app middle (map (chunk eq) back),
        eqs front,
        eqs back,
        e,
      )
      refl

whole :
    (front rest middle_back l : List Text)
    → l ≡ front ++ rest
    → middle_back ≡ rest
    → front ++ middle_back ≡ l
whole front rest middle_back l e q = ap (λ r. front ++ r) q ∙ sym e

-- The lines of the diff that are not inserted are the old text, and those that are not deleted are
-- the new one.
pub diff_ops-sides :
    (a b : List Text) → (old_side (diff_ops a b) ≡ a) × (new_side (diff_ops a b) ≡ b)
unfolding diff_ops
diff_ops-sides a b =
    let pre = common a b in
    let suf = common (reverse pre.rest_old) (reverse pre.rest_new) in
    let ca = reverse suf.rest_old in
    let cb = reverse suf.rest_new in
    let (pre_old, pre_new) = common-sides a b in
    let (suf_old, suf_new) = common-sides (reverse pre.rest_old) (reverse pre.rest_new) in
    let (o, n) = sides-walk (lcs_table ca cb) 0 0 ca cb in
    (
      side-append old_side old_side-append pre.front _ (reverse suf.front) (λ l. (sides-eq l).0) o
          ∙ whole pre.front pre.rest_old _ a pre_old
              (common-back pre.rest_old suf.front suf.rest_old suf_old),
      side-append new_side new_side-append pre.front _ (reverse suf.front) (λ l. (sides-eq l).1) n
          ∙ whole pre.front pre.rest_new _ b pre_new
              (common-back pre.rest_new suf.front suf.rest_new suf_new),
    )
