-- ===== src/Ops/Diff.antt =====
-- diffOps and lcsTable (internal/ops/diff.go). An index into the lines is a walk along the list;
-- the cells of the table are read by their indices, as in the source.
pub mod Sides
pub mod Subsequences
pub mod Lcs
pub mod Longest
use portguard_v.Base.{
  ℕ, ◌+◌, zero, suc, Bool, true, false, List, [], ◌∷◌, ◌++◌, map, Text, eqb, if◌then◌else◌, leb,
}
use mathlib.Core.List.{reverse}

pub data Kind : Type 0 where
  eq : Kind
  del : Kind
  ins : Kind

pub record Chunk : Type 0 where
  pub kind : Kind
  pub text : Text

abbrev pub chunk : Kind → Text → Chunk
chunk k t = record { kind = k; text = t }

-- The lines in common at the front, then what is left of both sides.
pub record Common : Type 0 where
  pub front : List Text
  pub rest_old : List Text
  pub rest_new : List Text

unfoldable pub common : List Text → List Text → Common
common [] b = record { front = []; rest_old = []; rest_new = b }
common (x ∷ a) [] = record { front = []; rest_old = x ∷ a; rest_new = [] }
common (x ∷ a) (y ∷ b) =
    let c = common a b in
    if eqb x y
    then record { front = x ∷ c.front; rest_old = c.rest_old; rest_new = c.rest_new }
    else record { front = []; rest_old = x ∷ a; rest_new = y ∷ b }

-- `row[j]`; the code reads within bounds.
unfoldable pub at : {A : Type 0} → A → List A → ℕ → A
at z [] j = z
at z (c ∷ row) zero = c
at z (c ∷ row) (suc j) = at z row j

unfoldable pub cell : List (List ℕ) → ℕ → ℕ → ℕ
unfolding at
cell t i j = at 0 (at [] t i) j

unfoldable pub zeros : List Text → List ℕ
zeros [] = 0 ∷ []
zeros (y ∷ b) = 0 ∷ zeros b

-- The row of a line, from the row below it: the inner loop, from the last column to the first.
unfoldable pub next_row : Text → List Text → List ℕ → List ℕ
unfolding at
next_row x [] below = 0 ∷ []
next_row x (y ∷ b) [] = []
next_row x (y ∷ b) (down ∷ below) =
    let row = next_row x b below in
    let right = at 0 row 0 in
    (if eqb x y then at 0 below 0 + 1 else if leb right down then down else right) ∷ row

unfoldable pub lcs_table : List Text → List Text → List (List ℕ)
unfolding next_row zeros at
lcs_table [] b = zeros b ∷ []
lcs_table (x ∷ a) b = let t = lcs_table a b in next_row x b (at [] t 0) ∷ t

-- The three loops that emit the lines, at the indices `i` and `j`.
unfoldable pub walk : List (List ℕ) → ℕ → ℕ → List Text → List Text → List Chunk
unfolding cell
walk t i j [] b = map (chunk ins) b
walk t i j (x ∷ a) [] = map (chunk del) (x ∷ a)
walk t i j (x ∷ a) (y ∷ b) = elim (eqb x y) [
  | true ↦ chunk eq x ∷ walk t (suc i) (suc j) a b
  | false ↦ elim (leb (cell t i (suc j)) (cell t (suc i) j)) [
    | true ↦ chunk del x ∷ walk t (suc i) j a (y ∷ b)
    | false ↦ chunk ins y ∷ walk t i (suc j) (x ∷ a) b
  ]
]

unfoldable pub diff_ops : List Text → List Text → List Chunk
unfolding common lcs_table walk
diff_ops a b =
    let pre = common a b in
    let suf = common (reverse pre.rest_old) (reverse pre.rest_new) in
    let ca = reverse suf.rest_old in
    let cb = reverse suf.rest_new in
    map (chunk eq) pre.front
    ++ (walk (lcs_table ca cb) 0 0 ca cb ++ map (chunk eq) (reverse suf.front))
