-- ===== src/Scanner/Listing.antt =====
-- Scan of internal/scanner/scanner.go lists each socket once.
use portguard_v.Base.{
  List, [], ◌∷◌, map, Text, ℤ, ◌≡◌, ◌↔◌, ◌∙◌, refl, sym, ap, subst, inl, inr, In, Bool-cases,
}
use portguard_v.Base.Maps.{Map}
use portguard_v.Proxy.Validate.Routes.{AllDistinct}
use portguard_v.Scanner.{
  PortEntry, entry_key, merge_entries, complete_entry, entry_before, insert_entry, sort_entries,
  values, scan,
}
use portguard_v.Scanner.Merge.{Keyed, keys, Adds, merge_entries-IsMerged}

complete_entry-key :
    (owner : ℤ → Text) (self_port : ℤ) (m : Map PortEntry)
    → Keyed m
    → map entry_key (map (complete_entry owner self_port) (values m)) ≡ keys m
unfolding complete_entry entry_key
complete_entry-key owner self_port [] d = refl
complete_entry-key owner self_port ((k, e) ∷ m) (g, d) =
    ap (λ x. x ∷ map entry_key (map (complete_entry owner self_port) (values m))) g
    ∙ ap (λ ks. k ∷ ks) (complete_entry-key owner self_port m d)

insert_entry-keys :
    (e : PortEntry) (es : List PortEntry)
    → Adds (entry_key e) (map entry_key es) (map entry_key (insert_entry e es))
unfolding insert_entry
insert_entry-keys e [] t = ((λ i. i), (λ i. i))
insert_entry-keys e (f ∷ fs) t = elim (Bool-cases (entry_before f e)) [
  | inr b ↦ rw b ((λ i. i), (λ i. i))
  | inl b ↦ rw b (
    (λ i. elim i [
      | inl q ↦ inr (inl q)
      | inr r ↦ elim ((insert_entry-keys e fs t).0 r) [ inl q ↦ inl q | inr l ↦ inr (inr l) ]
    ]),
    (λ i. elim i [
      | inl q ↦ inr ((insert_entry-keys e fs t).1 (inl q))
      | inr (inl q) ↦ inl q
      | inr (inr r) ↦ inr ((insert_entry-keys e fs t).1 (inr r))
    ]),
  )
]

insert_entry-AllDistinct :
    (e : PortEntry) (es : List PortEntry)
    → ¬ In (entry_key e) (map entry_key es)
    → AllDistinct (map entry_key es)
    → AllDistinct (map entry_key (insert_entry e es))
unfolding insert_entry
insert_entry-AllDistinct e [] n d = ((λ i. i), tt)
insert_entry-AllDistinct e (f ∷ fs) n (o, d) = elim (Bool-cases (entry_before f e)) [
  | inr b ↦ rw b (n, (o, d))
  | inl b ↦ rw b (
    (λ i. elim ((insert_entry-keys e fs (entry_key f)).0 i) [
      | inl q ↦ n (inl (sym q))
      | inr r ↦ o r
    ]),
    insert_entry-AllDistinct e fs (λ i. n (inr i)) d,
  )
]

sort_entries-keys :
    (es : List PortEntry) (t : Text)
    → In t (map entry_key (sort_entries es)) ↔ In t (map entry_key es)
unfolding sort_entries
sort_entries-keys [] t = ((λ i. i), (λ i. i))
sort_entries-keys (e ∷ es) t = (
  (λ i. elim ((insert_entry-keys e (sort_entries es) t).0 i) [
    | inl q ↦ inl q
    | inr r ↦ inr ((sort_entries-keys es t).0 r)
  ]),
  (λ i.
      (insert_entry-keys e (sort_entries es) t).1
        (elim i [ inl q ↦ inl q | inr r ↦ inr ((sort_entries-keys es t).1 r) ])),
)

sort_entries-AllDistinct :
    (es : List PortEntry)
    → AllDistinct (map entry_key es)
    → AllDistinct (map entry_key (sort_entries es))
unfolding sort_entries
sort_entries-AllDistinct [] d = tt
sort_entries-AllDistinct (e ∷ es) (n, d) =
    insert_entry-AllDistinct e (sort_entries es) (λ i. n ((sort_entries-keys es (entry_key e)).0 i))
      (sort_entries-AllDistinct es d)

-- A scan lists no socket twice, by protocol, address and port, and it lists the sockets that were
-- found and no others.
pub scan-keys :
    (owner : ℤ → Text) (self_port : ℤ) (entries : List PortEntry)
    → AllDistinct (map entry_key (scan owner self_port entries))
      × ((t : Text)
          → In t (map entry_key (scan owner self_port entries)) ↔ In t (map entry_key entries))
unfolding scan
scan-keys owner self_port entries =
    let m = merge_entries entries [] in
    let es = map (complete_entry owner self_port) (values m) in
    let (k, d, s) =
      merge_entries-IsMerged entries [] []
        (record { keyed = tt; distinct = tt; same = λ t. ((λ i. i), (λ i. i)) }) in
    let e : map entry_key es ≡ keys m = complete_entry-key owner self_port m k in
    (
      sort_entries-AllDistinct es (subst AllDistinct (sym e) d),
      (λ t. (
        (λ i. elim ((s t).0 (subst (In t) e ((sort_entries-keys es t).0 i))) [
          | inl l ↦ l
          | inr r ↦ absurd r
        ]),
        (λ i. (sort_entries-keys es t).1 (subst (In t) (sym e) ((s t).1 (inl i)))),
      )),
    )
