-- ===== src/Api/Login/Window.antt =====
-- The guard's answers (internal/api/auth.go) against the history of all failures.
use portguard_v.Base.{
  ℕ, ◌≤◌, ◌≡◌, refl, sym, ap, ◌∙◌, true, List, [], ◌∷◌, ◌++◌, some, Text, eqb, eqb_iff, length,
  if◌then◌else◌, ltb, inl, inr, Bool-cases, arith,
}
use portguard_v.Base.Maps.{lookup, lookup-insert, lookup-delete}
use portguard_v.Api.Login.{Failures, times, recent, no_times, allow, fail}

-- A call of Allow or of Fail, with its address and its time.
pub data Event : Type 0 where
  asks : Text → ℕ → Event
  fails : Text → ℕ → Event

abbrev pub time_of : Event → ℕ
time_of (asks ip t) = t
time_of (fails ip t) = t

-- The calls so far, the last one first, none later than `now`.
abbrev pub InOrder : ℕ → List Event → Type 0
InOrder now [] = Unit
InOrder now (e ∷ es) = (time_of e ≤ now) × InOrder (time_of e) es

unfoldable pub run : List Event → Failures
run [] = []
run (asks ip t ∷ es) = (allow ip t (run es)).1
run (fails ip t ∷ es) = fail ip t (run es)

-- All failures of an address, in order.
unfoldable pub history : Text → List Event → List ℕ
history ip [] = []
history ip (asks j t ∷ es) = history ip es
history ip (fails j t ∷ es) = let h = history ip es in if eqb j ip then h ++ t ∷ [] else h

recent-append : (now : ℕ) (ts us : List ℕ) → recent now (ts ++ us) ≡ recent now ts ++ recent now us
unfolding recent
recent-append now [] us = refl
recent-append now (t ∷ ts) us = ground (arith, recent-append now ts us)

-- What was too old before is too old now.
recent-recent : (t now : ℕ) (ts : List ℕ) → t ≤ now → recent now (recent t ts) ≡ recent now ts
unfolding recent
recent-recent t now [] h = refl
recent-recent t now (x ∷ ts) h = ground (arith, recent-recent t now ts h)

no_times-nil : (ts : List ℕ) → no_times ts ≡ true → ts ≡ []
no_times-nil [] h = refl
no_times-nil (t ∷ ts) h = ground arith

allow-times :
    (ip j : Text) (t : ℕ) (f : Failures)
    → times (lookup ip (allow j t f).1)
      ≡ (if eqb j ip then recent t (times (lookup j f)) else times (lookup ip f))
unfolding allow
allow-times ip j t f =
    let r = recent t (times (lookup j f)) in
    elim (Bool-cases (no_times r)) [
      | inl none_left ↦
          rw none_left (ground (arith, lookup-delete j ip f, no_times-nil r none_left))
      | inr some_left ↦ rw some_left (ground (arith, lookup-insert j ip r f))
    ]

InOrder-later : (t now : ℕ) (es : List Event) → t ≤ now → InOrder t es → InOrder now es
InOrder-later t now [] le o = tt
InOrder-later t now (e ∷ es) le (a, o) = (omega arith, o)

run-recent :
    (ip : Text) (now : ℕ) (es : List Event)
    → InOrder now es
    → recent now (times (lookup ip (run es))) ≡ recent now (history ip es)
unfolding run history lookup fail
run-recent ip now [] o = refl
run-recent ip now (asks j t ∷ es) (le, o) =
    let before = run-recent ip now es (InOrder-later t now es le o) in
    elim (Bool-cases (eqb j ip)) [
      | inr other ↦ ap (recent now) (allow-times ip j t (run es) ∙ rw other refl) ∙ before
      | inl same ↦
          let here : times (lookup ip (allow j t (run es)).1)
              ≡ recent t (times (lookup j (run es))) =
            allow-times ip j t (run es) ∙ rw same refl in
          ap (recent now) here
          ∙ recent-recent t now (times (lookup j (run es))) le
          ∙ ap (λ k. recent now (times (lookup k (run es)))) ((eqb_iff j ip).0 same)
          ∙ before
    ]
run-recent ip now (fails j t ∷ es) (le, o) =
    let before = run-recent ip now es (InOrder-later t now es le o) in
    let added = lookup-insert j ip (times (lookup j (run es)) ++ t ∷ []) (run es) in
    elim (Bool-cases (eqb j ip)) [
      | inr other ↦
          let here : lookup ip (fail j t (run es)) ≡ lookup ip (run es) = added ∙ rw other refl in
          ap (λ o. recent now (times o)) here ∙ before ∙ rw other refl
      | inl same ↦
          let here : lookup ip (fail j t (run es)) ≡ some (times (lookup j (run es)) ++ t ∷ []) =
            added ∙ rw same refl in
          ap (λ o. recent now (times o)) here
          ∙ ap (λ k. recent now (times (lookup k (run es)) ++ t ∷ [])) ((eqb_iff j ip).0 same)
          ∙ recent-append now (times (lookup ip (run es))) (t ∷ [])
          ∙ ap (λ r. r ++ recent now (t ∷ [])) before
          ∙ sym (recent-append now (history ip es) (t ∷ []))
          ∙ rw same refl
    ]

-- For calls of Allow and Fail at times that do not decrease, Allow lets an address in exactly if
-- fewer than five of all the failures recorded for that address lie less than a minute back.
pub allow-history :
    (ip : Text) (now : ℕ) (es : List Event)
    → InOrder now es
    → (allow ip now (run es)).0 ≡ ltb (length (recent now (history ip es))) 5
unfolding allow
allow-history ip now es o = ap (λ r. ltb (length r) 5) (run-recent ip now es o)
