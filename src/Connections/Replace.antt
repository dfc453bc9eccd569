-- ===== src/Connections/Replace.antt =====
-- What the rows have after ReplaceConnections (internal/store/mappings.go) is what the new ones have.
use portguard_v.Base.{
  ℕ, Bool, true, false, ◌||◌, ◌++◌, List, [], ◌∷◌, map, any, All, ◌≡◌, inl, inr, Bool-cases, arith,
}
use portguard_v.Connections.{
  ConnEntry, same_key, upsert, refresh_row, upsert_each, delete_vanished, replace_connections,
}

or_swap : (p q f : Bool) → ((p || q) || f) ≡ true → (q || (p || f)) ≡ true
or_swap p q f h = ground arith

module _ (P : ConnEntry → Type 0)
    (stamp : (c : ConnEntry) (f l : ℕ) → P c → P (record c { first_seen = f; last_seen = l }))
    (now : ℕ) where
  -- The rows that a test picks satisfy the predicate.
  abbrev Due : (ConnEntry → Bool) → List ConnEntry → Type 0
  Due F rows = All (λ r. F r ≡ true → P r) rows

  Due-imp :
      (F G : ConnEntry → Bool) (rows : List ConnEntry)
      → ((r : ConnEntry) → G r ≡ true → F r ≡ true)
      → Due F rows
      → Due G rows
  Due-imp F G [] i d = tt
  Due-imp F G (r ∷ rs) i (d, ds) = ((λ g. d (i r g)), Due-imp F G rs i ds)

  refresh_row-Due :
      (F : ConnEntry → Bool) (c r : ConnEntry)
      → P c
      → (F r ≡ true → P r)
      → (same_key (refresh_row now c r) c || F (refresh_row now c r)) ≡ true
      → P (refresh_row now c r)
  refresh_row-Due F c r p d = elim (Bool-cases (same_key r c)) [
    | inl y ↦ rw y (λ g. stamp c r.first_seen now p)
    | inr n ↦ rw (n, n) (λ g. d g)
  ]

  map-refresh_row-Due :
      (F : ConnEntry → Bool) (c : ConnEntry) (rows : List ConnEntry)
      → P c
      → Due F rows
      → Due (λ r. same_key r c || F r) (map (refresh_row now c) rows)
  map-refresh_row-Due F c [] p d = tt
  map-refresh_row-Due F c (r ∷ rs) p (d, ds) =
      (refresh_row-Due F c r p d, map-refresh_row-Due F c rs p ds)

  All-append :
      (Q : ConnEntry → Type 0) (xs ys : List ConnEntry) → All Q xs → All Q ys → All Q (xs ++ ys)
  All-append Q [] ys h k = k
  All-append Q (x ∷ xs) ys (h, hs) k = (h, All-append Q xs ys hs k)

  upsert-Due :
      (F : ConnEntry → Bool) (c : ConnEntry) (rows : List ConnEntry)
      → P c
      → Due F rows
      → Due (λ r. same_key r c || F r) (upsert now c rows)
  unfolding upsert
  upsert-Due F c rows p d =
      let old = map-refresh_row-Due F c rows p d in
      elim (Bool-cases (any (λ r. same_key r c) rows)) [
        | inl y ↦ rw y (All-append _ (map (refresh_row now c) rows) [] old tt)
        | inr n ↦ rw n (
            All-append _ (map (refresh_row now c) rows)
              (record c { first_seen = now; last_seen = now } ∷ []) old
              ((λ g. stamp c now now p), tt))
      ]

  upsert_each-Due :
      (F : ConnEntry → Bool) (cs rows : List ConnEntry)
      → All P cs
      → Due F rows
      → Due (λ r. any (same_key r) cs || F r) (upsert_each now cs rows)
  unfolding upsert_each
  upsert_each-Due F [] rows p d = d
  upsert_each-Due F (c ∷ cs) rows (p, ps) d =
      Due-imp (λ r. any (same_key r) cs || (same_key r c || F r))
        (λ r. (same_key r c || any (same_key r) cs) || F r) (upsert_each now cs (upsert now c rows))
        (λ r h. or_swap (same_key r c) (any (same_key r) cs) (F r) h)
        (upsert_each-Due (λ r. same_key r c || F r) cs (upsert now c rows) ps
          (upsert-Due F c rows p d))

  delete_vanished-All :
      (cs rows : List ConnEntry)
      → Due (λ r. any (same_key r) cs || false) rows
      → All P (delete_vanished cs rows)
  unfolding delete_vanished
  delete_vanished-All cs [] d = tt
  delete_vanished-All cs (r ∷ rs) (d, ds) = elim (Bool-cases (any (same_key r) cs)) [
    | inl y ↦
        let picked : (any (same_key r) cs || false) ≡ true = ground arith in
        rw y (d picked, delete_vanished-All cs rs ds)
    | inr n ↦ rw n (delete_vanished-All cs rs ds)
  ]

  none-Due : (rows : List ConnEntry) → Due (λ r. false) rows
  none-Due [] = tt
  none-Due (r ∷ rs) = ((λ h. ground arith), none-Due rs)

  pub replace_connections-All :
      (cs rows : List ConnEntry) → All P cs → All P (replace_connections now cs rows)
  unfolding replace_connections
  replace_connections-All cs rows p =
      delete_vanished-All cs (upsert_each now cs rows)
        (upsert_each-Due (λ r. false) cs rows p (none-Due rows))
