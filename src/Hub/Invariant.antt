-- ===== src/Hub/Invariant.antt =====
-- What holds in every reachable state of the hub (internal/nodehub/hub.go).
use portguard_v.Base.{
  ℕ, ◌<◌, ◌≤◌, ◌≡◌, refl, ap, ◌∙◌, Bool, true, false, not, ◌&&◌, List, [], ◌∷◌, some, if◌then◌else◌,
  ltb, ◌==◌, inl, inr, Bool-cases, Option-cases, arith,
}
use portguard_v.Hub.{
  is_online, Hub, Step, registers, unregisters, looks, allocates, sends, receives, times_out,
  sees_reply, fills_channel, forgets_reply, set, is_conn, register, unregister, step, Reachable,
  start, next,
}
use portguard_v.Hub.Quiet.{
  Quiet, some-subst, none-some, look-Quiet, allocate-Quiet, send-Quiet, receive-Quiet,
  time_out-Quiet, see_reply-Quiet, fill_channel-Quiet, forget_reply-Quiet,
}

-- What onStateChange was last told of a node; a node is offline at first.
abbrev pub last_told : ℕ → List (ℕ × Bool) → Bool
last_told n [] = false
last_told n ((m, b) ∷ told) = if m == n then b else last_told n told

pub record IsConsistent (h : Hub) : Type 0 where
  pub told : (n : ℕ) → last_told n h.notified ≡ is_online n h
  pub own_node : (n c : ℕ) → h.conns n ≡ some c → h.node_of c ≡ n
  pub still_open : (n c : ℕ) → h.conns n ≡ some c → h.send_closed c ≡ false
  pub known : (n c : ℕ) → h.conns n ≡ some c → c < h.opened
  pub later_open : (c : ℕ) → h.opened ≤ c → h.send_closed c ≡ false

register-IsConsistent : (n : ℕ) (h : Hub) → IsConsistent h → IsConsistent (register n h)
unfolding register
register-IsConsistent n h i = record {
  told = λ m. ground (arith, i.told m);
  own_node = λ m c e. ground (arith, i.own_node m c, i.known m c);
  still_open = λ m c e. ground (arith, i.still_open m c, i.later_open h.opened (omega arith));
  known = λ m c e. ground (arith, i.known m c);
  later_open = λ c g. i.later_open c (omega arith);
}

-- A connection that is not the registered one of its node is registered nowhere.
still_stale :
    (h : Hub) (c m d : ℕ)
    → IsConsistent h
    → is_conn (h.conns (h.node_of c)) c ≡ false
    → h.conns m ≡ some d
    → set h.send_closed c true d ≡ false
still_stale h c m d i stale q = elim (Bool-cases (c == d)) [
  | inr other ↦ ground (arith, i.still_open m d q)
  | inl same ↦
      let e : c ≡ d = ground arith in
      let there : h.conns (h.node_of c) ≡ some d =
        ap h.conns (ap h.node_of e ∙ i.own_node m d q) ∙ q in
      ground (arith, there)
]

unregister-IsConsistent :
    (c : ℕ) (h h' : Hub) → unregister c h ≡ some h' → IsConsistent h → IsConsistent h'
unfolding unregister
unregister-IsConsistent c h h' e i = elim (Bool-cases (ltb c h.opened && not (h.send_closed c))) [
  | inr never ↦ absurd (none-some h' (rw never at e))
  | inl may ↦ elim (Bool-cases (is_conn (h.conns (h.node_of c)) c)) [
    | inl here ↦ some-subst IsConsistent _ h' (rw (may, here) at e) (record {
      told = λ m. ground (arith, i.told m);
      own_node = λ m d q. ground (arith, i.own_node m d);
      still_open = λ m d q.
          ground (arith, i.still_open m d, i.own_node m d, Option-cases (h.conns (h.node_of c)));
      known = λ m d q. ground (arith, i.known m d);
      later_open = λ d g. ground (arith, i.later_open d);
    })
    | inr stale ↦ some-subst IsConsistent _ h' (rw (may, stale) at e) (record {
      told = λ m. i.told m;
      own_node = λ m d q. i.own_node m d q;
      still_open = λ m d q. still_stale h c m d i stale q;
      known = λ m d q. i.known m d q;
      later_open = λ d g. ground (arith, i.later_open d);
    })
  ]
]

Quiet-IsConsistent : (h h' : Hub) → Quiet h h' → IsConsistent h → IsConsistent h'
unfolding Quiet
Quiet-IsConsistent h h' (a, b, c, d, e) i =
    rw (a, b, c, d, e)
      (record {
        told = i.told;
        own_node = i.own_node;
        still_open = i.still_open;
        known = i.known;
        later_open = i.later_open;
      })

step-IsConsistent : (s : Step) (h h' : Hub) → step s h ≡ some h' → IsConsistent h → IsConsistent h'
unfolding step
step-IsConsistent (registers n) h h' e i =
    some-subst IsConsistent (register n h) h' e (register-IsConsistent n h i)
step-IsConsistent (unregisters c) h h' e i = unregister-IsConsistent c h h' e i
step-IsConsistent (looks p n) h h' e i = Quiet-IsConsistent h h' (look-Quiet p n h h' e) i
step-IsConsistent (allocates p) h h' e i = Quiet-IsConsistent h h' (allocate-Quiet p h h' e) i
step-IsConsistent (sends t p) h h' e i = Quiet-IsConsistent h h' (send-Quiet t p h h' e) i
step-IsConsistent (receives p) h h' e i = Quiet-IsConsistent h h' (receive-Quiet p h h' e) i
step-IsConsistent (times_out p) h h' e i = Quiet-IsConsistent h h' (time_out-Quiet p h h' e) i
step-IsConsistent (sees_reply c id r) h h' e i =
    Quiet-IsConsistent h h' (see_reply-Quiet c id r h h' e) i
step-IsConsistent (fills_channel c) h h' e i =
    Quiet-IsConsistent h h' (fill_channel-Quiet c h h' e) i
step-IsConsistent (forgets_reply c) h h' e i =
    Quiet-IsConsistent h h' (forget_reply-Quiet c h h' e) i

-- In every reachable state, a node has a registered connection exactly if the last that was told of
-- it is that it is online; a registered connection is one of its node, and its channel is not
-- closed.
pub Reachable-IsConsistent : (h : Hub) → Reachable h → IsConsistent h
Reachable-IsConsistent h start = record {
  told = λ n. refl;
  own_node = λ n c e. ground arith;
  still_open = λ n c e. refl;
  known = λ n c e. ground arith;
  later_open = λ c g. refl;
}
Reachable-IsConsistent h (next {h = h0} r s e) =
    step-IsConsistent s h0 h e (Reachable-IsConsistent h0 r)
