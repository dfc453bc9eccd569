-- ===== src/Base/Words.antt =====
-- The functions of Go's `strings` and `strconv` on words that the parsers call.
use Prim.Native.Nat.{ℕ, zero, suc, ◌-◌, ◌^◌, ◌<◌}
use mathlib.Core.Path.{◌≡◌, refl, ap, ◌∙◌}
use mathlib.Core.Bool.{Bool, true, false, not}
use mathlib.Core.List.{
  append-nil, List, [], ◌∷◌, ◌++◌, reverse, reverse-cons, reverse-reverse, reverse-append,
}
use mathlib.Core.Option.{Option, none, some}
use mathlib.Core.Logic.{inl, inr}
use native.Mathlib.Omega.{arith}
use portguard_v.Base.Int.{ℤ, pos, negsuc}
use portguard_v.Base.Strings.{Text, is_space, all_of, trim_left, trim, trim_space}
use portguard_v.Base.Lists.{All}
use portguard_v.Base.Decimal.{decimal, decimal-head, read_number}
use portguard_v.Base.Tests.{if◌then◌else◌, ◌==◌, ltb, Bool-cases}

-- A character in front of the words of the text after it.
abbrev prepend : ℕ → List Text → List Text
prepend c [] = (c ∷ []) ∷ []
prepend c (w ∷ ws) = (c ∷ w) ∷ ws

abbrev pub starts_word : Text → Bool
starts_word [] = false
starts_word (c ∷ s) = not (is_space c)

-- `strings.Fields`.
unfoldable pub fields : Text → List Text
unfolding is_space
fields [] = []
fields (c ∷ s) =
    let ws = fields s in
    if is_space c then ws else if starts_word s then prepend c ws else (c ∷ []) ∷ ws

-- The first of `strings.Fields`, or the empty text.
unfoldable pub first_token : Text → Text
unfolding fields
first_token s = elim (fields s) [ [] ↦ [] | w ∷ ws ↦ w ]

-- `strings.Join`.
unfoldable pub join : Text → List Text → Text
join sep [] = []
join sep (w ∷ ws) = let rest = join sep ws in elim ws [ [] ↦ w | v ∷ vs ↦ w ++ sep ++ rest ]

-- `strings.Count` of one code point.
unfoldable pub count : ℕ → Text → ℕ
count d [] = 0
count d (c ∷ s) = let n = count d s in if c == d then suc n else n

-- The text around the first, and around the last, of a code point.
unfoldable pub cut : ℕ → Text → Option (Text × Text)
cut d [] = none
cut d (c ∷ s) =
    let rest = cut d s in
    if c == d then some ([], s) else elim rest [ none ↦ none | some (a, b) ↦ some (c ∷ a, b) ]

unfoldable pub cut_last : ℕ → Text → Option (Text × Text)
cut_last d [] = none
cut_last d (c ∷ s) = elim (cut_last d s) [
  | some (a, b) ↦ some (c ∷ a, b)
  | none ↦ if c == d then some ([], s) else none
]

-- `strconv.Atoi` with its error ignored: 0 if the text is no number, else the nearest int64.
abbrev clamp : Bool → Option ℕ → ℤ
clamp negative none = pos 0
clamp true (some n) =
    if ltb (2 ^ 63) n then negsuc (2 ^ 63 - 1) else elim n [ zero ↦ pos 0 | suc k ↦ negsuc k ]
clamp false (some n) = if ltb n (2 ^ 63) then pos n else pos (2 ^ 63 - 1)

unfoldable pub atoi_value : Text → ℤ
unfolding read_number
atoi_value [] = pos 0
atoi_value (c ∷ s) =
    if c == b'-'
    then clamp true (read_number s)
    else if c == b'+'
    then clamp false (read_number s)
    else clamp false (read_number (c ∷ s))

pub atoi_value-decimal : (n : ℕ) → n < 2 ^ 63 → atoi_value (decimal n) ≡ pos n
unfolding atoi_value
atoi_value-decimal n h = let (c, s, e, d, r) = decimal-head n in rw e (ground (arith, r))

abbrev pub Word : Text → Type 0
Word w = all_of (λ c. not (is_space c)) w ≡ true

pub fields-Word_end : (c : ℕ) (w : Text) → Word (c ∷ w) → fields (c ∷ w) ≡ (c ∷ w) ∷ []
unfolding fields
fields-Word_end c [] h = ground arith
fields-Word_end c (d ∷ w) h = ground (arith, fields-Word_end d w (ground arith))

-- A word, a space and what follows.
pub fields-Word :
    (c : ℕ) (w s : Text) → Word (c ∷ w) → fields ((c ∷ w) ++ b' ' ∷ s) ≡ (c ∷ w) ∷ fields s
unfolding fields
fields-Word c [] s h = ground arith
fields-Word c (d ∷ w) s h = ground (arith, fields-Word d w s (ground arith))

-- The words, each after a space.
abbrev pub spaced : List Text → Text
spaced [] = []
spaced (w ∷ ws) = (b' ' ∷ w) ++ spaced ws

abbrev pub IsWord : Text → Type 0
IsWord [] = ⊥
IsWord (c ∷ w) = Word (c ∷ w)

pub fields-spaced : (ws : List Text) → All IsWord ws → fields (spaced ws) ≡ ws
unfolding fields is_space
fields-spaced [] h = refl
fields-spaced ([] ∷ ws) h = absurd h.0
fields-spaced ((c ∷ w) ∷ []) h = ap fields (append-nil (c ∷ w)) ∙ fields-Word_end c w h.0
fields-spaced ((c ∷ w) ∷ v ∷ ws) h =
    fields-Word c w (v ++ spaced ws) h.0 ∙ ap (λ us. (c ∷ w) ∷ us) (fields-spaced (v ∷ ws) h.1)

pub fields-trim_left : (s : Text) → fields (trim_left is_space s) ≡ fields s
unfolding fields trim_left
fields-trim_left [] = refl
fields-trim_left (c ∷ s) = elim (Bool-cases (is_space c)) [
  | inl e ↦ rw e (fields-trim_left s)
  | inr e ↦ ap fields {x = trim_left is_space (c ∷ s)} {y = c ∷ s} (rw e refl)
]

starts_word-snoc :
    (s : Text) (c : ℕ) → is_space c ≡ true → starts_word (s ++ c ∷ []) ≡ starts_word s
starts_word-snoc [] c h = rw h refl
starts_word-snoc (d ∷ s) c h = refl

fields-snoc : (s : Text) (c : ℕ) → is_space c ≡ true → fields (s ++ c ∷ []) ≡ fields s
unfolding fields
fields-snoc [] c h = rw h refl
fields-snoc (d ∷ s) c h = rw (fields-snoc s c h, starts_word-snoc s c h) refl

-- The text without the spaces at its end.
abbrev pub trim_right : Text → Text
trim_right s = reverse (trim_left is_space (reverse s))

fields-reverse : (s : Text) → fields (reverse (trim_left is_space s)) ≡ fields (reverse s)
unfolding trim_left
fields-reverse [] = refl
fields-reverse (c ∷ s) = elim (Bool-cases (is_space c)) [
  | inl e ↦ rw (e, reverse-cons c s, fields-snoc (reverse s) c e) (fields-reverse s)
  | inr e ↦ rw e refl
]

trim_left-snoc :
    (s : Text) (c : ℕ)
    → is_space c ≡ false
    → trim_left is_space (s ++ c ∷ []) ≡ trim_left is_space s ++ c ∷ []
unfolding trim_left
trim_left-snoc [] c h = rw h refl
trim_left-snoc (d ∷ s) c h = elim (Bool-cases (is_space d)) [
  | inl e ↦ rw e (trim_left-snoc s c h)
  | inr e ↦ rw e refl
]

-- What stands before the last word is kept.
pub trim_right-cons :
    (c : ℕ) (s : Text) → is_space c ≡ false → trim_right (c ∷ s) ≡ c ∷ trim_right s
trim_right-cons c s h =
    rw (reverse-cons c s, trim_left-snoc (reverse s) c h)
      (reverse-append (trim_left is_space (reverse s)) (c ∷ []))

pub fields-trim_right : (s : Text) → fields (trim_right s) ≡ fields s
fields-trim_right s = fields-reverse (reverse s) ∙ ap fields (reverse-reverse s)

pub fields-trim_space : (s : Text) → fields (trim_space s) ≡ fields s
unfolding trim_space trim
fields-trim_space s = fields-trim_right (trim_left is_space s) ∙ fields-trim_left s

pub trim_right-append : (w s : Text) → Word w → trim_right (w ++ s) ≡ w ++ trim_right s
trim_right-append [] s h = refl
trim_right-append (c ∷ w) s h =
    trim_right-cons c (w ++ s) (ground arith)
    ∙ ap (λ u. c ∷ u) (trim_right-append w s (ground arith))
