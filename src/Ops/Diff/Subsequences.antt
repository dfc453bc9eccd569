-- ===== src/Ops/Diff/Subsequences.antt =====
-- Common subsequences of two texts, for the properties of diffOps (internal/ops/diff.go).
use portguard_v.Base.{
  ℕ, suc, ◌+◌, ◌≤◌, ◌≡◌, sym, subst, List, [], ◌∷◌, ◌++◌, Text, inl, inr, ◌⊎◌, arith, length,
}
use mathlib.Core.List.{reverse, reverse_aux}
use portguard_v.Ops.Diff.{common}
use portguard_v.Ops.Diff.Sides.{common-sides}

abbrev pub Subsequence : List Text → List Text → Type 0
Subsequence [] a = Unit
Subsequence (c ∷ cs) [] = ⊥
Subsequence (c ∷ cs) (x ∷ a) = ((c ≡ x) × Subsequence cs a) ⊎ Subsequence (c ∷ cs) a

abbrev tail : List Text → List Text
tail [] = []
tail (c ∷ cs) = cs

Subsequence-tail : (c : Text) (cs a : List Text) → Subsequence (c ∷ cs) a → Subsequence cs a
Subsequence-tail c cs [] s = absurd s
Subsequence-tail c [] (x ∷ a) s = tt
Subsequence-tail c (d ∷ cs) (x ∷ a) (inl (e, s)) = inr s
Subsequence-tail c (d ∷ cs) (x ∷ a) (inr s) = inr (Subsequence-tail c (d ∷ cs) a s)

pub Subsequence-drop :
    (x : Text) (cs a : List Text) → Subsequence cs (x ∷ a) → Subsequence (tail cs) a
Subsequence-drop x [] a s = tt
Subsequence-drop x (c ∷ cs) a (inl (e, s)) = s
Subsequence-drop x (c ∷ cs) a (inr s) = Subsequence-tail c cs a s

-- A line in front of both texts is worth at most one line of a common subsequence.
module _ (a b : List Text) where
  -- No common subsequence is longer than `n`.
  unfoldable pub Bounded : ℕ → Type 0
  Bounded n = (cs : List Text) → Subsequence cs a → Subsequence cs b → length cs ≤ n

Bounded-cons :
    (x : Text) (a b : List Text) (n : ℕ) → Bounded a b n → Bounded (x ∷ a) (x ∷ b) (suc n)
unfolding Bounded
Bounded-cons x a b n h [] s r = omega arith
Bounded-cons x a b n h (c ∷ cs) s r =
    let z = h cs (Subsequence-drop x (c ∷ cs) a s) (Subsequence-drop x (c ∷ cs) b r) in omega arith

Bounded-append :
    (l a b : List Text) (n : ℕ) → Bounded a b n → Bounded (l ++ a) (l ++ b) (length l + n)
Bounded-append [] a b n h = subst (Bounded a b) (omega arith) h
Bounded-append (x ∷ l) a b n h =
    subst (Bounded (x ∷ l ++ a) (x ∷ l ++ b)) (omega arith)
      (Bounded-cons x (l ++ a) (l ++ b) (length l + n) (Bounded-append l a b n h))

pub Subsequence-skip : (x : Text) (cs a : List Text) → Subsequence cs a → Subsequence cs (x ∷ a)
Subsequence-skip x [] a s = tt
Subsequence-skip x (c ∷ cs) a s = inr s

Subsequence-reverse_aux :
    (cs a ds b : List Text)
    → Subsequence cs a
    → Subsequence ds b
    → Subsequence (reverse_aux cs ds) (reverse_aux a b)
Subsequence-reverse_aux [] [] ds b s r = r
Subsequence-reverse_aux [] (x ∷ a) ds b s r =
    Subsequence-reverse_aux [] a ds (x ∷ b) tt (Subsequence-skip x ds b r)
Subsequence-reverse_aux (c ∷ cs) [] ds b s r = absurd s
Subsequence-reverse_aux (c ∷ cs) (x ∷ a) ds b (inl (e, s)) r =
    Subsequence-reverse_aux cs a (c ∷ ds) (x ∷ b) s (inl (e, r))
Subsequence-reverse_aux (c ∷ cs) (x ∷ a) ds b (inr s) r =
    Subsequence-reverse_aux (c ∷ cs) a ds (x ∷ b) s (Subsequence-skip x ds b r)

pub length-reverse_aux : (cs ds : List Text) → length (reverse_aux cs ds) ≡ length cs + length ds
length-reverse_aux [] ds = omega arith
length-reverse_aux (c ∷ cs) ds = omega (arith, length-reverse_aux cs (c ∷ ds))

pub Bounded-reverse : (a b : List Text) (n : ℕ) → Bounded (reverse a) (reverse b) n → Bounded a b n
unfolding Bounded
Bounded-reverse a b n h cs s r =
    let z =
      h (reverse cs) (Subsequence-reverse_aux cs a [] [] s tt)
        (Subsequence-reverse_aux cs b [] [] r tt) in
    omega (arith, z, length-reverse_aux cs [])

pub Bounded-common :
    (a b : List Text) (n : ℕ)
    → Bounded (common a b).rest_old (common a b).rest_new n
    → Bounded a b (length (common a b).front + n)
Bounded-common a b n h =
    let (o, w) = common-sides a b in
    let z = Bounded-append (common a b).front _ _ n h in
    subst (λ t. Bounded a t (length (common a b).front + n)) (sym w)
      (subst
        (λ t.
          Bounded t ((common a b).front ++ (common a b).rest_new) (length (common a b).front + n))
        (sym o) z)
