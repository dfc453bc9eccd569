-- ===== src/Proxy/Validate/Conflicts.antt =====
-- When two listeners fight for one socket, and what the tests of listenIPsOverlap decide.
use portguard_v.Base.{
  Bool, true, false, ◌&&◌, [], ◌∷◌, none, Text, codes, eqb, eqb_iff, int_eq, int_eq_iff, ◌≡◌, refl,
  sym, ap, ◌↔◌, ◌⊎◌, inl, inr, arith, Bool-cases,
}
use portguard_v.Proxy.Model.{Mapping}
use portguard_v.Proxy.Validate.{norm, is_wild, listen_ips_overlap, conflict_with}

-- The four texts that the source takes for every address of the host. Other spellings that
-- net.ParseIP accepts, such as ::0, are plain addresses to it.
abbrev pub IsWildcard : Text → Type 0
IsWildcard ip = (ip ≡ []) ⊎ (ip ≡ codes "*") ⊎ (ip ≡ codes "0.0.0.0") ⊎ (ip ≡ codes "::")

abbrev pub Overlap : Text → Text → Type 0
Overlap a b = (a ≡ b) ⊎ IsWildcard a ⊎ IsWildcard b

-- Both are enabled and listen on one port at overlapping addresses.
pub record Clash (a b : Mapping) : Type 0 where
  pub left_enabled : a.enabled ≡ true
  pub right_enabled : b.enabled ≡ true
  pub same_port : a.listen_port ≡ b.listen_port
  pub overlap : Overlap a.listen_ip b.listen_ip

is_wild-norm_iff : (a : Text) → (is_wild (norm a) ≡ true) ↔ IsWildcard a
unfolding norm
is_wild-norm_iff [] = ground (arith, eqb_iff (codes "0.0.0.0") (codes "0.0.0.0"))
is_wild-norm_iff (c ∷ s) = ground (
  arith,
  eqb_iff (c ∷ s) (codes "*"),
  eqb_iff (c ∷ s) (codes "0.0.0.0"),
  eqb_iff (c ∷ s) (codes "::"),
  eqb_iff (codes "0.0.0.0") (codes "0.0.0.0"),
)

norm_or_wild : (a : Text) → (norm a ≡ a) ⊎ (IsWildcard a × (is_wild (norm a) ≡ true))
unfolding norm
norm_or_wild [] = inr (inl refl, ground (arith, eqb_iff (codes "0.0.0.0") (codes "0.0.0.0")))
norm_or_wild (c ∷ s) = elim (Bool-cases (eqb (c ∷ s) (codes "*"))) [
  | inl star ↦ inr (
    inr (inl ((eqb_iff _ _).0 star)),
    ground (arith, eqb_iff (codes "0.0.0.0") (codes "0.0.0.0")),
  )
  | inr plain ↦ inl (rw plain)
]

norm_cong : (a b : Text) → a ≡ b → eqb (norm a) (norm b) ≡ true
norm_cong a b e = (eqb_iff (norm a) (norm b)).1 (ap norm e)

-- Two listen addresses overlap exactly when they are equal or one of them is one of those texts.
listen_ips_overlap_iff : (a b : Text) → (listen_ips_overlap a b ≡ true) ↔ Overlap a b
unfolding listen_ips_overlap
listen_ips_overlap_iff a b = (
  ground (
    arith,
    eqb_iff (norm a) (norm b),
    is_wild-norm_iff a,
    is_wild-norm_iff b,
    norm_or_wild a,
    norm_or_wild b,
  ),
  ground (arith, norm_cong a b, is_wild-norm_iff a, is_wild-norm_iff b),
)

clash_test : Mapping → Mapping → Bool
clash_test a b =
    a.enabled
    && b.enabled
    && int_eq a.listen_port b.listen_port
    && listen_ips_overlap a.listen_ip b.listen_ip

clash_test-Clash : (a b : Mapping) → clash_test a b ≡ true → Clash a b
unfolding clash_test
clash_test-Clash a b h = record {
  left_enabled = ground arith;
  right_enabled = ground arith;
  same_port = (int_eq_iff _ _).0 (ground arith);
  overlap = (listen_ips_overlap_iff _ _).0 (ground arith);
}

clash_test-false : (a b : Mapping) → (Clash a b → ⊥) → clash_test a b ≡ false
clash_test-false a b h = elim (Bool-cases (clash_test a b)) [
  | inl t ↦ absurd (h (clash_test-Clash a b t))
  | inr f ↦ f
]

-- A round of the conflict loop passes exactly when the other mapping is this one or no clash.
pub conflict_with_iff :
    (m other : Mapping) → (conflict_with m other ≡ none) ↔ ((other.id ≡ m.id) ⊎ (Clash other m → ⊥))
unfolding conflict_with
conflict_with_iff m other = (
  (λ h. elim (Bool-cases (int_eq other.id m.id)) [
    | inl same ↦ inl ((int_eq_iff _ _).0 same)
    | inr differ ↦ inr (λ c. ground (
      arith,
      c.left_enabled,
      c.right_enabled,
      (int_eq_iff other.listen_port m.listen_port).1 c.same_port,
      (listen_ips_overlap_iff other.listen_ip m.listen_ip).1 c.overlap,
    ))
  ]),
  (λ h. elim h [
    | inl same ↦ ground (arith, (int_eq_iff other.id m.id).1 same)
    | inr free ↦ unfold clash_test in ground (arith, clash_test-false other m free)
  ]),
)

pub Overlap-sym : (a b : Text) → Overlap a b → Overlap b a
Overlap-sym a b (inl e) = inl (sym e)
Overlap-sym a b (inr (inl w)) = inr (inr w)
Overlap-sym a b (inr (inr w)) = inr (inl w)

pub Clash-sym : (a b : Mapping) → Clash a b → Clash b a
Clash-sym a b c = record {
  left_enabled = c.right_enabled;
  right_enabled = c.left_enabled;
  same_port = sym c.same_port;
  overlap = Overlap-sym _ _ c.overlap;
}
