-- ===== src/Ops/Diff/Lcs.antt =====
-- The table of lcsTable and the lines that the walk along it keeps (internal/ops/diff.go).
use portguard_v.Base.{
  ℕ, zero, suc, ◌+◌, ◌≤◌, ◌≡◌, refl, sym, ap, ◌∙◌, List, [], ◌∷◌, ◌++◌, map, Text, eqb, eqb_iff,
  if◌then◌else◌, inl, inr, Bool-cases, arith, leb, length,
}
use portguard_v.Ops.Diff.{eq, del, ins, Chunk, chunk, at, cell, zeros, next_row, lcs_table, walk}
use portguard_v.Ops.Diff.Subsequences.{Subsequence, Subsequence-drop}

-- The number of lines kept.
unfoldable pub kept : List Chunk → ℕ
kept [] = 0
kept (c ∷ cs) = elim c.kind [ eq ↦ suc (kept cs) | del ↦ kept cs | ins ↦ kept cs ]

-- The length of a longest common subsequence, by its recursion.
pub lcs : List Text → List Text → ℕ
lcs [] b = 0
lcs (x ∷ a) [] = 0
lcs (x ∷ a) (y ∷ b) =
    let both = lcs a b in
    let down = lcs a (y ∷ b) in
    let right = lcs (x ∷ a) b in
    if eqb x y then both + 1 else if leb right down then down else right

pub lcs-longest : (cs a b : List Text) → Subsequence cs a → Subsequence cs b → length cs ≤ lcs a b
unfolding lcs
lcs-longest [] a b s r = omega arith
lcs-longest (c ∷ cs) [] b s r = absurd s
lcs-longest (c ∷ cs) (x ∷ a) [] s r = absurd r
lcs-longest (c ∷ cs) (x ∷ a) (y ∷ b) s r = elim (Bool-cases (eqb x y)) [
  | inl e ↦
      let h =
        lcs-longest cs a b (Subsequence-drop x (c ∷ cs) a s) (Subsequence-drop y (c ∷ cs) b r) in
      rw e (omega (arith, h))
  | inr e ↦ elim s [
    | inr below ↦ let h = lcs-longest (c ∷ cs) a (y ∷ b) below r in ground arith
    | inl (p, t) ↦ elim r [
      | inr after ↦ let h = lcs-longest (c ∷ cs) (x ∷ a) b (inl (p, t)) after in ground arith
      | inl (q, u) ↦ absurd (let z = (eqb_iff x y).1 (sym p ∙ q) in ground arith)
    ]
  ]
]

drop : ℕ → List Text → List Text
drop zero a = a
drop (suc n) [] = []
drop (suc n) (x ∷ a) = drop n a

row : List Text → List Text → List ℕ
row a [] = 0 ∷ []
row a (y ∷ b) = lcs a (y ∷ b) ∷ row a b

lcs-nil : (a : List Text) → lcs a [] ≡ 0
unfolding lcs
lcs-nil [] = refl
lcs-nil (x ∷ a) = refl

zeros-row : (b : List Text) → zeros b ≡ row [] b
unfolding zeros row lcs
zeros-row [] = refl
zeros-row (y ∷ b) = ap (λ r. 0 ∷ r) (zeros-row b)

at-row : (a b : List Text) (j : ℕ) → at 0 (row a b) j ≡ lcs a (drop j b)
unfolding at row drop
at-row a [] zero = sym (lcs-nil a)
at-row a [] (suc j) = sym (lcs-nil a)
at-row a (y ∷ b) zero = refl
at-row a (y ∷ b) (suc j) = at-row a b j

next_row-row : (x : Text) (a b : List Text) → next_row x b (row a b) ≡ row (x ∷ a) b
unfolding next_row row lcs drop
next_row-row x a [] = refl
next_row-row x a (y ∷ b) = rw (next_row-row x a b, at-row a b 0, at-row (x ∷ a) b 0) refl

head-lcs_table : (a b : List Text) → at [] (lcs_table a b) 0 ≡ row a b
unfolding lcs_table at
head-lcs_table [] b = zeros-row b
head-lcs_table (x ∷ a) b = rw (head-lcs_table a b) (next_row-row x a b)

at-nil : (j : ℕ) → at {A = ℕ} 0 [] j ≡ 0
unfolding at
at-nil zero = refl
at-nil (suc j) = refl

cell-lcs_table : (a b : List Text) (i j : ℕ) → cell (lcs_table a b) i j ≡ lcs (drop i a) (drop j b)
unfolding cell drop lcs lcs_table at
cell-lcs_table a b zero j = ap (λ r. at 0 r j) (head-lcs_table a b) ∙ at-row a b j
cell-lcs_table [] b (suc i) j = at-nil j
cell-lcs_table (x ∷ a) b (suc i) j = cell-lcs_table a b i j

kept-none : (l : List Text) → (kept (map (chunk ins) l) ≡ 0) × (kept (map (chunk del) l) ≡ 0)
unfolding kept
kept-none [] = (refl, refl)
kept-none (x ∷ l) = kept-none l

pub kept-all : (l : List Text) → kept (map (chunk eq) l) ≡ length l
unfolding kept
kept-all [] = refl
kept-all (x ∷ l) = ap suc (kept-all l)

pub kept-append : (cs ds : List Chunk) → kept (cs ++ ds) ≡ kept cs + kept ds
unfolding kept
kept-append [] ds = omega arith
kept-append (c ∷ cs) ds = ground (arith, kept-append cs ds)

kept-walk :
    (t : List (List ℕ)) (i j : ℕ) (a b : List Text)
    → ((k l p q : ℕ) → p ≡ k + i → q ≡ l + j → cell t p q ≡ lcs (drop k a) (drop l b))
    → kept (walk t i j a b) ≡ lcs a b
unfolding kept walk lcs drop
kept-walk t i j [] b h = (kept-none b).0
kept-walk t i j (x ∷ a) [] h = (kept-none (x ∷ a)).1
kept-walk t i j (x ∷ a) (y ∷ b) h = elim (Bool-cases (eqb x y)) [
  | inl e ↦
      let r =
        kept-walk t (suc i) (suc j) a b
          (λ k l p q u v. h (suc k) (suc l) p q (omega arith) (omega arith)) in
      rw (kept, walk, e) (ground (arith, r))
  | inr e ↦
      let right : cell t i (suc j) ≡ lcs (x ∷ a) b = h 0 1 i (suc j) (omega arith) (omega arith) in
      let down : cell t (suc i) j ≡ lcs a (y ∷ b) = h 1 0 (suc i) j (omega arith) (omega arith) in
      elim (Bool-cases (leb (cell t i (suc j)) (cell t (suc i) j))) [
        | inl g ↦
            let r =
              kept-walk t (suc i) j a (y ∷ b) (λ k l p q u v. h (suc k) l p q (omega arith) v) in
            rw (kept, walk, e, g) (ground (arith, r))
        | inr g ↦
            let r =
              kept-walk t i (suc j) (x ∷ a) b (λ k l p q u v. h k (suc l) p q u (omega arith)) in
            rw (kept, walk, e, g) (ground (arith, r))
      ]
]

pub kept-table : (a b : List Text) → kept (walk (lcs_table a b) 0 0 a b) ≡ lcs a b
kept-table a b = kept-walk (lcs_table a b) 0 0 a b (λ k l p q u v.
    let pk : p ≡ k = omega arith in
    let ql : q ≡ l = omega arith in
    cell-lcs_table a b p q
    ∙ ap (λ z. lcs (drop z a) (drop q b)) pk
    ∙ ap (λ z. lcs (drop k a) (drop z b)) ql)
