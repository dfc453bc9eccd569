-- ===== src/Health/Table.antt =====
-- The rows of the table target_health after a round (internal/health/health.go).
use portguard_v.Base.{
  ℕ, ◌≡◌, refl, ◌∙◌, true, false, List, [], ◌∷◌, Option, none, some, Text, eqb, eqb_iff,
  if◌then◌else◌, inl, inr, Bool-cases, arith, subst,
}
use portguard_v.Base.Maps.{
  Map, lookup, insert, delete, lookup-insert, lookup-delete, has_key, lookup-has_key-false,
}
use portguard_v.Proxy.Model.{Mapping}
use portguard_v.Health.{
  TargetHealth, Probe, Faults, key_of, has_result, check_mappings, delete_stale, upsert_all, round,
}

-- The last result of a key.
unfoldable pub last_result : Text → List TargetHealth → Option TargetHealth
last_result k [] = none
last_result k (h ∷ hs) = elim (last_result k hs) [
  | some l ↦ some l
  | none ↦ if eqb (key_of h) k then some h else none
]

abbrev or_else : Option TargetHealth → Option TargetHealth → Option TargetHealth
or_else none b = b
or_else (some a) b = some a

last_result-none :
    (k : Text) (hs : List TargetHealth) → has_result k hs ≡ false → last_result k hs ≡ none
unfolding last_result
last_result-none k [] e = refl
last_result-none k (h ∷ hs) e = ground (arith, last_result-none k hs)

last_result-some :
    (k : Text) (hs : List TargetHealth)
    → has_result k hs ≡ true
    → (h : TargetHealth) × (last_result k hs ≡ some h)
unfolding last_result
last_result-some k [] e = ground arith
last_result-some k (h ∷ hs) e = elim (Bool-cases (has_result k hs)) [
  | inl later ↦ let (l, q) = last_result-some k hs later in (l, rw (last_result, q) refl)
  | inr none_later ↦ (h, ground (arith, last_result-none k hs none_later))
]

upsert_all-lookup :
    (hs : List TargetHealth) (rows : Map TargetHealth) (k : Text)
    → lookup k (upsert_all (λ h. false) hs rows) ≡ or_else (last_result k hs) (lookup k rows)
unfolding upsert_all last_result
upsert_all-lookup [] rows k = refl
upsert_all-lookup (h ∷ hs) rows k =
    ground
      (arith, upsert_all-lookup hs (insert (key_of h) h rows) k, lookup-insert (key_of h) k h rows)

other_key :
    (results : List TargetHealth) (j k : Text)
    → has_result j results ≡ true
    → has_result k results ≡ false
    → eqb j k ≡ false
other_key results j k there gone = elim (Bool-cases (eqb j k)) [
  | inl same ↦
      let z : has_result k results ≡ true =
        subst (λ t. has_result t results ≡ true) ((eqb_iff j k).0 same) there in
      ground arith
  | inr differ ↦ differ
]

delete_stale-lookup :
    (results : List TargetHealth) (prev rows : Map TargetHealth) (k : Text)
    → has_result k results ≡ false
    → lookup k (delete_stale (λ t. false) results prev rows)
      ≡ (if has_key k prev then none else lookup k rows)
unfolding delete_stale
delete_stale-lookup results [] rows k e = refl
delete_stale-lookup results ((j, h) ∷ prev) rows k e = elim (Bool-cases (has_result j results)) [
  | inl there ↦
      let differ : eqb j k ≡ false = other_key results j k there e in
      rw (delete_stale, there, differ) (delete_stale-lookup results prev rows k e)
  | inr gone ↦
      ground (arith, delete_stale-lookup results prev (delete j rows) k e, lookup-delete j k rows)
]

absent :
    (rows : Map TargetHealth) (k : Text) → (if has_key k rows then none else lookup k rows) ≡ none
absent rows k = ground (arith, lookup-has_key-false k rows)

abbrev pub calm : Faults
calm = record {
  mappings_fail = false;
  health_fails = false;
  upsert_fails = λ h. false;
  delete_fails = λ k. false;
}

-- If no statement fails, the rows after a round are the results of this round and no others: the
-- row of a key is the last result of that key.
pub round-lookup :
    (probe : Probe) (now : ℕ) (mappings : List Mapping) (rows : Map TargetHealth) (k : Text)
    → lookup k (round probe calm now mappings rows).0
      ≡ last_result k (check_mappings probe now rows mappings)
unfolding round
round-lookup probe now mappings rows k =
    let results = check_mappings probe now rows mappings in
    let kept = delete_stale (λ t. false) results rows rows in
    upsert_all-lookup results kept k ∙ elim (Bool-cases (has_result k results)) [
      | inl there ↦ let (h, e) = last_result-some k results there in rw e refl
      | inr gone ↦
          rw (last_result-none k results gone, delete_stale-lookup results rows rows k gone)
            (absent rows k)
    ]
