-- ===== src/Scanner/Merge.antt =====
-- The map that Scan of internal/scanner/scanner.go merges the sockets in: its keys.
use portguard_v.Base.{
  List, [], ◌∷◌, Option, none, some, map, Text, eqb, eqb_iff, ◌≡◌, ◌↔◌, ◌⊎◌, ◌∙◌, refl, sym, ap,
  subst, inl, inr, arith, In, Bool-cases, Option-cases,
}
use portguard_v.Base.Maps.{Map, lookup, insert}
use portguard_v.Proxy.Validate.Routes.{AllDistinct}
use portguard_v.Scanner.{PortEntry, entry_key, merge_entry, merge_into, merge_entries}

-- The keys of the merged map are those of its entries.
abbrev pub Keyed : Map PortEntry → Type 0
Keyed [] = Unit
Keyed ((k, e) ∷ m) = (entry_key e ≡ k) × Keyed m

abbrev pub keys : Map PortEntry → List Text
keys [] = []
keys ((k, e) ∷ m) = k ∷ keys m

insert-Keyed :
    (k : Text) (e : PortEntry) (m : Map PortEntry)
    → entry_key e ≡ k
    → Keyed m
    → Keyed (insert k e m)
unfolding insert
insert-Keyed k e [] h d = (h, tt)
insert-Keyed k e ((j, f) ∷ m) h (g, d) = elim (Bool-cases (eqb j k)) [
  | inl t ↦ rw t (h, d)
  | inr t ↦ rw t (g, insert-Keyed k e m h d)
]

-- A list of keys with `k` added somewhere, unless it was there.
abbrev pub Adds : Text → List Text → List Text → Type 0
Adds k old new = (t : Text) → In t new ↔ ((k ≡ t) ⊎ In t old)

insert-keys : (k : Text) (e : PortEntry) (m : Map PortEntry) → Adds k (keys m) (keys (insert k e m))
unfolding insert
insert-keys k e [] t = ((λ i. i), (λ i. i))
insert-keys k e ((j, f) ∷ m) t = elim (Bool-cases (eqb j k)) [
  | inl s ↦ rw s (
    (λ i. elim i [ inl q ↦ inl q | inr r ↦ inr (inr r) ]),
    (λ i. elim i [
      | inl q ↦ inl q
      | inr (inl q) ↦ inl (sym ((eqb_iff j k).0 s) ∙ q)
      | inr (inr r) ↦ inr r
    ]),
  )
  | inr s ↦ rw s (
    (λ i. elim i [
      | inl q ↦ inr (inl q)
      | inr r ↦ elim ((insert-keys k e m t).0 r) [ inl q ↦ inl q | inr l ↦ inr (inr l) ]
    ]),
    (λ i. elim i [
      | inl q ↦ inr ((insert-keys k e m t).1 (inl q))
      | inr (inl q) ↦ inl q
      | inr (inr r) ↦ inr ((insert-keys k e m t).1 (inr r))
    ]),
  )
]

insert-AllDistinct :
    (k : Text) (e : PortEntry) (m : Map PortEntry)
    → AllDistinct (keys m)
    → AllDistinct (keys (insert k e m))
unfolding insert
insert-AllDistinct k e [] d = ((λ i. i), tt)
insert-AllDistinct k e ((j, f) ∷ m) (n, d) = elim (Bool-cases (eqb j k)) [
  | inl s ↦ rw s (subst (λ x. ¬ In x (keys m)) ((eqb_iff j k).0 s) n, d)
  | inr s ↦ rw s (
    (λ i. elim ((insert-keys k e m j).0 i) [
      | inl q ↦ ground (arith, (eqb_iff j k).1 (sym q))
      | inr r ↦ n r
    ]),
    insert-AllDistinct k e m d,
  )
]

lookup-Keyed :
    (k : Text) (m : Map PortEntry) (e : PortEntry) → Keyed m → lookup k m ≡ some e → entry_key e ≡ k
unfolding lookup
lookup-Keyed k [] e d h = absurd cc
lookup-Keyed k ((j, f) ∷ m) e (g, d) h = elim (Bool-cases (eqb j k)) [
  | inl s ↦
      let h' : ◌≡◌ {A = Option PortEntry} (some f) (some e) = rw s at h in
      ap (λ (o : Option PortEntry). elim o [ none ↦ k | some x ↦ entry_key x ]) (sym h')
      ∙ g
      ∙ (eqb_iff j k).0 s
  | inr s ↦ lookup-Keyed k m e d (rw s at h)
]

merge_entry-key : (x e : PortEntry) → entry_key (merge_entry x e) ≡ entry_key x
unfolding merge_entry entry_key
merge_entry-key x e = refl

-- What an entry that is merged in does to the keys.
pub record IsMerged (old : List Text) (m : Map PortEntry) : Type 0 where
  pub keyed : Keyed m
  pub distinct : AllDistinct (keys m)
  pub same : (t : Text) → In t (keys m) ↔ In t old

merge_into-Keyed : (e : PortEntry) (m : Map PortEntry) → Keyed m → Keyed (merge_into e m)
unfolding merge_into
merge_into-Keyed e m d = elim (Option-cases (lookup (entry_key e) m)) [
  | inl l ↦ rw (l, merge_into) (insert-Keyed (entry_key e) e m refl d)
  | inr (x, l) ↦
      rw (l, merge_into)
        (insert-Keyed (entry_key e) (merge_entry x e) m
          (merge_entry-key x e ∙ lookup-Keyed (entry_key e) m x d l) d)
]

merge_into-AllDistinct :
    (e : PortEntry) (m : Map PortEntry) → AllDistinct (keys m) → AllDistinct (keys (merge_into e m))
unfolding merge_into
merge_into-AllDistinct e m d = elim (Option-cases (lookup (entry_key e) m)) [
  | inl l ↦ rw (l, merge_into) (insert-AllDistinct (entry_key e) e m d)
  | inr (x, l) ↦ rw (l, merge_into) (insert-AllDistinct (entry_key e) (merge_entry x e) m d)
]

merge_into-keys :
    (e : PortEntry) (m : Map PortEntry) → Adds (entry_key e) (keys m) (keys (merge_into e m))
unfolding merge_into
merge_into-keys e m = elim (Option-cases (lookup (entry_key e) m)) [
  | inl l ↦ rw (l, merge_into) (insert-keys (entry_key e) e m)
  | inr (x, l) ↦ rw (l, merge_into) (insert-keys (entry_key e) (merge_entry x e) m)
]

pub merge_entries-IsMerged :
    (es : List PortEntry) (old : List Text) (m : Map PortEntry)
    → IsMerged old m
    → Keyed (merge_entries es m)
      × AllDistinct (keys (merge_entries es m))
      × ((t : Text) → In t (keys (merge_entries es m)) ↔ (In t (map entry_key es) ⊎ In t old))
unfolding merge_entries
merge_entries-IsMerged [] old m h = (
  h.keyed,
  h.distinct,
  (λ t. ((λ i. inr ((h.same t).0 i)), (λ i. elim i [ inl l ↦ absurd l | inr r ↦ (h.same t).1 r ]))),
)
merge_entries-IsMerged (e ∷ es) old m h =
    let (k, d, s) = merge_entries-IsMerged es (entry_key e ∷ old) (merge_into e m) (record {
      keyed = merge_into-Keyed e m h.keyed;
      distinct = merge_into-AllDistinct e m h.distinct;
      same = λ t. (
        (λ i. elim ((merge_into-keys e m t).0 i) [ inl q ↦ inl q | inr r ↦ inr ((h.same t).0 r) ]),
        (λ i. (merge_into-keys e m t).1 (elim i [ inl q ↦ inl q | inr r ↦ inr ((h.same t).1 r) ])),
      );
    }) in
    (
      k,
      d,
      (λ t. (
        (λ i. elim ((s t).0 i) [
          | inl l ↦ inl (inr l)
          | inr (inl q) ↦ inl (inl q)
          | inr (inr r) ↦ inr r
        ]),
        (λ i.
            (s t).1
              (elim i [ inl (inl q) ↦ inr (inl q) | inl (inr l) ↦ inl l | inr r ↦ inr (inr r) ])),
      )),
    )
