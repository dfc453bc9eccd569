-- ===== src/Base/Decimal.antt =====
-- Decimal numbers in text: `fmt.Sprintf("%d", n)` and `strconv.ParseInt(s, 10, 64)`.
use Prim.Native.Nat.{ℕ, zero, suc, ◌+◌, ◌-◌, ◌*◌, ◌/◌, ◌%◌, ◌^◌, ◌<◌}
use mathlib.Core.Path.{◌≡◌, refl, ap, sym, ◌∙◌}
use mathlib.Core.Logic.{inl, inr}
use mathlib.Core.Bool.{Bool, true, false, ◌&&◌}
use mathlib.Core.List.{[], ◌∷◌, ◌++◌}
use mathlib.Core.Option.{Option, none, some}
use native.Mathlib.Omega.{arith}
use portguard_v.Base.Int.{ℤ, pos, negsuc}
use portguard_v.Base.Strings.{Text, all_of}
use portguard_v.Base.Tests.{ltb, leb, ◌==◌, if◌then◌else◌, Bool-cases}

abbrev pub is_digit : ℕ → Bool
is_digit c = leb b'0' c && leb c b'9'

unfoldable pub digits : ℕ → ℕ → Text
digits zero n = []
digits (suc f) n =
    let rest = digits f (n / 10) ++ (b'0' + n % 10) ∷ [] in
    if ltb n 10 then (b'0' + n) ∷ [] else rest

unfoldable pub decimal : ℕ → Text
unfolding digits
decimal n = digits (suc n) n

-- The value of the digits read so far and of those to come; `none` at another character.
unfoldable pub read_digits : ℕ → Text → Option ℕ
read_digits acc [] = some acc
read_digits acc (c ∷ s) = if is_digit c then read_digits (acc * 10 + (c - b'0')) s else none

unfoldable pub read_number : Text → Option ℕ
unfolding read_digits
read_number [] = none
read_number (c ∷ s) = read_digits 0 (c ∷ s)

unfoldable pub in_int64 : Bool → Option ℕ → Option ℤ
in_int64 negative none = none
in_int64 true (some zero) = some (pos 0)
in_int64 true (some (suc n)) = if leb (suc n) (2 ^ 63) then some (negsuc n) else none
in_int64 false (some n) = if ltb n (2 ^ 63) then some (pos n) else none

-- A sign, then at least one digit, within the range of int64.
unfoldable pub parse_int : Text → Option ℤ
unfolding in_int64 read_number
parse_int [] = none
parse_int (c ∷ s) =
    if c == b'-'
    then in_int64 true (read_number s)
    else if c == b'+'
    then in_int64 false (read_number s)
    else in_int64 false (read_number (c ∷ s))

digit_mod : (n : ℕ) → is_digit (b'0' + n % 10) ≡ true
digit_mod n = ground arith

read_digits-append :
    (acc : ℕ) (s : Text) (d : ℕ) {v : ℕ}
    → read_digits acc s ≡ some v
    → d < 10
    → read_digits acc (s ++ (b'0' + d) ∷ []) ≡ some (v * 10 + d)
unfolding read_digits
read_digits-append acc [] d h lt = ground arith
read_digits-append acc (c ∷ s) d h lt = elim (Bool-cases (is_digit c)) [
  | inl is_d ↦ rw is_d (read_digits-append (acc * 10 + (c - b'0')) s d (rw is_d at h) lt)
  | inr not_d ↦ ground arith
]

read_digits-digit : (n : ℕ) → n < 10 → read_digits 0 ((b'0' + n) ∷ []) ≡ some n
unfolding read_digits
read_digits-digit n h = ground arith

read_digits-digits : (f n : ℕ) → n < f → read_digits 0 (digits f n) ≡ some n
unfolding digits
read_digits-digits zero n h = absurd (omega arith)
read_digits-digits (suc f) n h = elim (Bool-cases (ltb n 10)) [
  | inl small ↦ rw small (read_digits-digit n (ground arith))
  | inr large ↦ rw large (
      read_digits-append 0 (digits f (n / 10)) (n % 10)
        (read_digits-digits f (n / 10) (ground arith)) (omega arith)
      ∙ ap some (omega arith))
]

pub digits-head :
    (f n : ℕ) → n < f → (c : ℕ) × (s : Text) × (digits f n ≡ c ∷ s) × (is_digit c ≡ true)
unfolding digits
digits-head zero n h = absurd (omega arith)
digits-head (suc f) n h = elim (Bool-cases (ltb n 10)) [
  | inl small ↦ rw small (b'0' + n, [], refl, ground arith)
  | inr large ↦
      let (c, s, e, d) = digits-head f (n / 10) (ground arith) in
      rw large (c, s ++ (b'0' + n % 10) ∷ [], ap (λ t. t ++ (b'0' + n % 10) ∷ []) e, d)
]

-- The first character of a decimal is a digit, and the number can be read back.
pub decimal-head :
    (n : ℕ)
    → (c : ℕ) × (s : Text) × (decimal n ≡ c ∷ s)
      × (is_digit c ≡ true)
      × (read_number (c ∷ s) ≡ some n)
unfolding decimal read_number
decimal-head n =
    let (c, s, e, d) = digits-head (suc n) n (omega arith) in
    let r = read_digits-digits (suc n) n (omega arith) in (c, s, e, d, (rw e at r))

-- Reading back what `decimal` writes.
pub parse_int-decimal : (n : ℕ) → n < 2 ^ 63 → parse_int (decimal n) ≡ some (pos n)
unfolding parse_int in_int64
parse_int-decimal n h = let (c, s, e, d, r) = decimal-head n in rw e (ground (arith, r))

pub all_of-append : (p : ℕ → Bool) (s t : Text) → all_of p (s ++ t) ≡ (all_of p s && all_of p t)
all_of-append p [] t = refl
all_of-append p (c ∷ s) t = ground (arith, all_of-append p s t)

-- `decimal` writes digits only.
pub digits-all_of : (f n : ℕ) → all_of is_digit (digits f n) ≡ true
unfolding digits
digits-all_of zero n = refl
digits-all_of (suc f) n = elim (Bool-cases (ltb n 10)) [
  | inl small ↦ rw small (ground arith)
  | inr large ↦ rw large (
      rw
        (
          all_of-append is_digit (digits f (n / 10)) ((b'0' + n % 10) ∷ []),
          digits-all_of f (n / 10),
        )
        (ground arith))
]

some-Injective : (a b : ℕ) → ◌≡◌ {A = Option ℕ} (some a) (some b) → a ≡ b
some-Injective a b h = ground arith

pub decimal-Injective : (a b : ℕ) → decimal a ≡ decimal b → a ≡ b
unfolding decimal
decimal-Injective a b h = some-Injective a b (
    sym (read_digits-digits (suc a) a (omega arith))
    ∙ ap (read_digits 0) h
    ∙ read_digits-digits (suc b) b (omega arith))

pub decimal-all_of : (n : ℕ) → all_of is_digit (decimal n) ≡ true
unfolding decimal
decimal-all_of n = digits-all_of (suc n) n
