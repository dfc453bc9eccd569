-- ===== src/Base/Strings.antt =====
-- Go strings as lists of code points, with the operations of `strings` that the program calls.
use Prim.Native.Nat.{ℕ, ◌+◌}
use Prim.Native.Char.{code}
use Prim.Native.String.{String}
use mathlib.Core.Path.{◌≡◌, refl}
use mathlib.Core.Logic.{◌↔◌}
use mathlib.Core.Bool.{Bool, true, false, ◌&&◌, ◌||◌}
use mathlib.Core.List.{List, [], ◌∷◌, map, reverse}
use mathlib.Core.Option.{Option, none, some}
use native.Mathlib.Omega.{arith}
use portguard_v.Base.Tests.{◌==◌, leb, ltb, if◌then◌else◌}

abbrev pub Text : Type 0
Text = List ℕ

abbrev pub codes : String → Text
codes String.[] = []
codes (String.◌∷◌ c s) = code c ∷ codes s

unfoldable pub eqb : Text → Text → Bool
eqb [] [] = true
eqb [] (y ∷ ys) = false
eqb (x ∷ xs) [] = false
eqb (x ∷ xs) (y ∷ ys) = x == y && eqb xs ys

pub eqb_iff : (xs ys : Text) → (eqb xs ys ≡ true) ↔ (xs ≡ ys)
unfolding eqb
eqb_iff [] [] = ((λ _. refl), (λ _. refl))
eqb_iff [] (y ∷ ys) = ((λ h. cc), (λ h. cc))
eqb_iff (x ∷ xs) [] = ((λ h. cc), (λ h. cc))
eqb_iff (x ∷ xs) (y ∷ ys) = ground (arith, eqb_iff xs ys)

pub eqb_refl : (xs : Text) → eqb xs xs ≡ true
eqb_refl xs = (eqb_iff xs xs).1 refl

-- `strings.HasPrefix` and `strings.TrimPrefix`.
unfoldable pub strip_prefix : Text → Text → Option Text
strip_prefix [] s = some s
strip_prefix (p ∷ ps) [] = none
strip_prefix (p ∷ ps) (c ∷ s) = if p == c then strip_prefix ps s else none

unfoldable pub has_prefix : Text → Text → Bool
unfolding strip_prefix
has_prefix s p = elim (strip_prefix p s) [ none ↦ false | some r ↦ true ]

unfoldable pub trim_prefix : Text → Text → Text
unfolding strip_prefix
trim_prefix s p = elim (strip_prefix p s) [ none ↦ s | some r ↦ r ]

-- `strings.HasSuffix` and `strings.TrimSuffix`.
unfoldable pub has_suffix : Text → Text → Bool
unfolding has_prefix
has_suffix s p = has_prefix (reverse s) (reverse p)

unfoldable pub trim_suffix : Text → Text → Text
unfolding strip_prefix
trim_suffix s p = elim (strip_prefix (reverse p) (reverse s)) [ none ↦ s | some r ↦ reverse r ]

-- `unicode.IsSpace`, at which `strings.TrimSpace` and `strings.Fields` split.
unfoldable pub is_space : ℕ → Bool
is_space c =
    leb 9 c && leb c 13
    || c == 32
    || c == 0x85
    || c == 0xA0
    || c == 0x1680
    || leb 0x2000 c && leb c 0x200A
    || leb 0x2028 c && leb c 0x2029
    || c == 0x202F
    || c == 0x205F
    || c == 0x3000

unfoldable pub trim_left : (ℕ → Bool) → Text → Text
trim_left p [] = []
trim_left p (c ∷ s) = if p c then trim_left p s else c ∷ s

unfoldable pub trim : (ℕ → Bool) → Text → Text
unfolding trim_left
trim p s = reverse (trim_left p (reverse (trim_left p s)))

unfoldable pub trim_space : Text → Text
unfolding trim is_space
trim_space = trim is_space

-- `strings.ToLower` on the code points that it takes to ASCII: the capitals, the dotted capital I
-- (U+0130) and the Kelvin sign (U+212A). It is the identity on others here.
unfoldable pub lower : ℕ → ℕ
lower c =
    if leb b'A' c && leb c b'Z'
    then c + 32
    else if c == 0x130
    then b'i'
    else if c == 0x212A
    then b'k'
    else c

unfoldable pub to_lower : Text → Text
unfolding lower
to_lower = map lower

abbrev pub is_empty : Text → Bool
is_empty [] = true
is_empty (c ∷ s) = false

-- `strings.Contains`.
unfoldable pub contains : Text → Text → Bool
unfolding has_prefix
contains [] p = has_prefix [] p
contains (c ∷ s) p = has_prefix (c ∷ s) p || contains s p

abbrev pub any_of : (ℕ → Bool) → Text → Bool
any_of p [] = false
any_of p (c ∷ s) = p c || any_of p s

abbrev pub all_of : (ℕ → Bool) → Text → Bool
all_of p [] = true
all_of p (c ∷ s) = p c && all_of p s

-- `strings.Split` at one code point: there is always a first piece.
pub split_first : ℕ → Text → Text × List Text
split_first d [] = ([], [])
split_first d (c ∷ s) =
    let (w, ws) = split_first d s in if c == d then ([], w ∷ ws) else (c ∷ w, ws)

unfoldable pub split : ℕ → Text → List Text
unfolding split_first
split d s = let (w, ws) = split_first d s in w ∷ ws

pub eqb_sym : (xs ys : Text) → eqb xs ys ≡ eqb ys xs
unfolding eqb
eqb_sym [] [] = refl
eqb_sym [] (y ∷ ys) = refl
eqb_sym (x ∷ xs) [] = refl
eqb_sym (x ∷ xs) (y ∷ ys) = ground (arith, eqb_sym xs ys)

-- `len` of a string: the bytes of its UTF-8 form.
abbrev pub byte_length : Text → ℕ
byte_length [] = 0
byte_length (c ∷ s) =
    let rest = byte_length s in
    if ltb c 0x80
    then rest + 1
    else if ltb c 0x800
    then rest + 2
    else if ltb c 0x10000
    then rest + 3
    else rest + 4
