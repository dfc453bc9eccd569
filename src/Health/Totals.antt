-- ===== src/Health/Totals.antt =====
-- The counts of Summary (internal/health/health.go).
use portguard_v.Base.{
  ℕ, ◌+◌, ◌≡◌, refl, ap, ◌∙◌, Bool, true, false, not, ◌&&◌, ◌||◌, any, List, [], ◌∷◌, Text, codes,
  eqb, eqb_iff, if◌then◌else◌, inl, inr, Bool-cases, arith, int_eq, int_eq_iff, ℤ,
}
use portguard_v.Proxy.Model.{Mapping}
use portguard_v.Health.{TargetHealth, Counts, count_health, count_mappings, summary}

-- The three counts, by what they count.
pub data Status : Type 0 where
  is_up is_down is_unknown : Status

abbrev pub counted : Status → Counts → ℕ
counted is_up c = c.up
counted is_down c = c.down
counted is_unknown c = c.unknown

abbrev pub has_status : Status → Text → Bool
has_status is_up t = eqb t (codes "up")
has_status is_down t = eqb t (codes "down")
has_status is_unknown t = not (eqb t (codes "up")) && not (eqb t (codes "down"))

-- A mapping of the identifier is enabled.
abbrev pub is_enabled : List Mapping → ℤ → Bool
is_enabled ms id = any (λ (m : Mapping). m.enabled && int_eq id m.id) ms

abbrev bit : Bool → ℕ
bit true = 1
bit false = 0

-- How many rows pass a test.
abbrev pub rows_with : (TargetHealth → Bool) → List TargetHealth → ℕ
rows_with p [] = 0
rows_with p (h ∷ hs) = bit (p h) + rows_with p hs

abbrev pub DistinctIds : List Mapping → Type 0
DistinctIds [] = Unit
DistinctIds (m ∷ ms) = (any (λ (o : Mapping). int_eq m.id o.id) ms ≡ false) × DistinctIds ms

up_not_down : (t : Text) → eqb t (codes "up") ≡ true → eqb t (codes "down") ≡ false
unfolding eqb
up_not_down t e = rw ((eqb_iff t (codes "up")).0 e) refl

abbrev ticked : Text → Counts → Counts
ticked t c =
    if eqb t (codes "up")
    then record c { up = c.up + 1 }
    else if eqb t (codes "down")
    then record c { down = c.down + 1 }
    else record c { unknown = c.unknown + 1 }

counted-ticked :
    (k : Status) (t : Text) (c : Counts)
    → counted k (ticked t c) ≡ bit (has_status k t) + counted k c
counted-ticked is_up t c = elim (Bool-cases (eqb t (codes "up"))) [
  | inl up ↦ rw up (omega arith)
  | inr not_up ↦ elim (Bool-cases (eqb t (codes "down"))) [
    | inl down ↦ rw (not_up, down) (omega arith)
    | inr other ↦ rw (not_up, other) (omega arith)
  ]
]
counted-ticked is_down t c = elim (Bool-cases (eqb t (codes "up"))) [
  | inl up ↦ rw (up, up_not_down t up) (omega arith)
  | inr not_up ↦ elim (Bool-cases (eqb t (codes "down"))) [
    | inl down ↦ rw (not_up, down) (omega arith)
    | inr other ↦ rw (not_up, other) (omega arith)
  ]
]
counted-ticked is_unknown t c = elim (Bool-cases (eqb t (codes "up"))) [
  | inl up ↦ rw up (omega arith)
  | inr not_up ↦ elim (Bool-cases (eqb t (codes "down"))) [
    | inl down ↦ rw (not_up, down) (omega arith)
    | inr other ↦ rw (not_up, other) (omega arith)
  ]
]

count_health-rows :
    (k : Status) (id : ℤ) (hs : List TargetHealth) (c : Counts)
    → counted k (count_health id hs c)
      ≡ rows_with (λ h. int_eq h.mapping_id id && has_status k h.status) hs + counted k c
unfolding count_health
count_health-rows k id [] c = omega arith
count_health-rows k id (h ∷ hs) c = elim (Bool-cases (int_eq h.mapping_id id)) [
  | inr other ↦ rw other (omega (arith, count_health-rows k id hs c))
  | inl own ↦
      rw own
        (omega (arith, count_health-rows k id hs (ticked h.status c), counted-ticked k h.status c))
]

is_enabled-other :
    (id : ℤ) (ms : List Mapping)
    → any (λ (o : Mapping). int_eq id o.id) ms ≡ false
    → is_enabled ms id ≡ false
is_enabled-other id [] h = refl
is_enabled-other id (m ∷ ms) h =
    let rest : any (λ (o : Mapping). int_eq id o.id) ms ≡ false = ground arith in
    let tail = is_enabled-other id ms rest in ground arith

bit-or :
    (own rest s : Bool)
    → (own ≡ true → rest ≡ false)
    → bit ((own || rest) && s) ≡ bit (own && s) + bit (rest && s)
bit-or true rest s apart = rw (apart refl) (omega arith)
bit-or false rest s apart = omega arith

-- The rows of one mapping and those of the others.
rows_with-split :
    (k : Status) (id : ℤ) (ms : List Mapping) (hs : List TargetHealth)
    → is_enabled ms id ≡ false
    → rows_with
        (λ h. (int_eq h.mapping_id id || is_enabled ms h.mapping_id) && has_status k h.status)
        hs
      ≡ rows_with (λ h. int_eq h.mapping_id id && has_status k h.status) hs
        + rows_with (λ h. is_enabled ms h.mapping_id && has_status k h.status) hs
rows_with-split k id ms [] off = refl
rows_with-split k id ms (h ∷ hs) off =
    let apart : int_eq h.mapping_id id ≡ true → is_enabled ms h.mapping_id ≡ false =
      λ same. ap (is_enabled ms) ((int_eq_iff h.mapping_id id).0 same) ∙ off in
    omega (
      arith,
      rows_with-split k id ms hs off,
      bit-or (int_eq h.mapping_id id) (is_enabled ms h.mapping_id) (has_status k h.status) apart,
    )

no_rows :
    (k : Status) (hs : List TargetHealth)
    → rows_with (λ h. is_enabled [] h.mapping_id && has_status k h.status) hs ≡ 0
no_rows k [] = refl
no_rows k (h ∷ hs) = omega (arith, no_rows k hs)

abbrev nothing : Counts
nothing = record { up = 0; down = 0; unknown = 0 }

nothing-counted : (k : Status) → counted k nothing ≡ 0
nothing-counted is_up = refl
nothing-counted is_down = refl
nothing-counted is_unknown = refl

count_mappings-rows :
    (k : Status) (ms : List Mapping) (hs : List TargetHealth) (c : Counts)
    → DistinctIds ms
    → counted k (count_mappings ms hs c)
      ≡ rows_with (λ h. is_enabled ms h.mapping_id && has_status k h.status) hs + counted k c
unfolding count_mappings
count_mappings-rows k [] hs c d = omega (arith, no_rows k hs)
count_mappings-rows k (m ∷ ms) hs c (apart, d) = elim (Bool-cases m.enabled) [
  | inr off ↦ rw off (count_mappings-rows k ms hs c d)
  | inl on ↦ rw on (
      omega (
        arith,
        count_mappings-rows k ms hs (count_health m.id hs c) d,
        count_health-rows k m.id hs c,
        rows_with-split k m.id ms hs (is_enabled-other m.id ms apart),
      ))
]

-- Each count of the summary is the number of rows that have its status and whose mapping is
-- enabled, where no two mappings share an identifier; a status other than up and down is unknown.
pub summary-rows :
    (k : Status) (ms : List Mapping) (hs : List TargetHealth)
    → DistinctIds ms
    → counted k (summary ms hs)
      ≡ rows_with (λ h. is_enabled ms h.mapping_id && has_status k h.status) hs
unfolding summary
summary-rows k ms hs d = omega (arith, count_mappings-rows k ms hs nothing d, nothing-counted k)
