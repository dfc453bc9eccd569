-- ===== src/Hub/Ids.antt =====
-- The identifiers of the requests that wait for a reply (internal/nodehub/hub.go).
use portguard_v.Base.{
  ◌⊎◌, ℕ, suc, ◌≤◌, ◌<◌, ◌%◌, ◌^◌, ◌≡◌, sym, subst, ◌∙◌, Bool, not, ◌&&◌, Option, none, some, Text,
  ltb, ◌==◌, inl, inr, Bool-cases, Option-cases, arith,
}
use portguard_v.Hub.{
  idle, found, node_offline, panicked, answered, request_timeout, send_timeout, take_reply, Hub,
  Phase, allocated, waiting, Step, registers, unregisters, looks, allocates, sends, receives,
  times_out, sees_reply, fills_channel, forgets_reply, set, is_conn, is_idle, found_conn, to_send,
  waiting_id, is_reading, to_fill, to_forget, register, unregister, look, allocate, send, receive,
  time_out, see_reply, fill_channel, forget_reply, step, Reachable, start, next,
}
use portguard_v.Hub.Quiet.{some-subst, none-some}

-- The identifier that a request holds.
abbrev pub id_of : Phase → Option ℕ
id_of (allocated c id) = some id
id_of (waiting id) = some id
id_of _ = none

-- Every identifier held was allocated, and no two requests hold one.
pub record OwnIds (phase : ℕ → Phase) (last : ℕ) : Type 0 where
  pub allocated_before : (p r : ℕ) → id_of (phase p) ≡ some r → r ≤ last
  pub own : (p q r : ℕ) → id_of (phase p) ≡ some r → id_of (phase q) ≡ some r → p ≡ q

-- A request moves on, and holds no identifier that it did not hold.
set-OwnIds :
    (f : ℕ → Phase) (n p : ℕ) (ph : Phase)
    → ((r : ℕ) → id_of ph ≡ some r → id_of (f p) ≡ some r)
    → OwnIds f n
    → OwnIds (set f p ph) n
set-OwnIds f n p ph keeps o = record {
  allocated_before = λ q r e. o.allocated_before q r (before q r e);
  own = λ q s r e g. o.own q s r (before q r e) (before s r g);
}
  where
    before : (q r : ℕ) → id_of (set f p ph q) ≡ some r → id_of (f q) ≡ some r
    before q r e = elim (Bool-cases (p == q)) [
      | inl same ↦ subst (λ z. id_of (f z) ≡ some r) (ground arith) (keeps r (rw same at e))
      | inr other ↦ rw other at e
    ]

allocate-OwnIds :
    (f : ℕ → Phase) (n p c : ℕ) → OwnIds f n → OwnIds (set f p (allocated c (suc n))) (suc n)
allocate-OwnIds f n p c o = record {
  allocated_before = λ q r e. ground (arith, new_or_old q r e, o.allocated_before q r);
  own = λ q s r e g. ground (
    arith,
    new_or_old q r e,
    new_or_old s r g,
    o.own q s r,
    o.allocated_before q r,
    o.allocated_before s r,
  );
}
  where
    new_or_old :
        (q r : ℕ)
        → id_of (set f p (allocated c (suc n)) q) ≡ some r
        → ((p ≡ q) × (r ≡ suc n)) ⊎ (id_of (f q) ≡ some r)
    new_or_old q r e = elim (Bool-cases (p == q)) [
      | inl same ↦ let z : some (suc n) ≡ some r = rw same at e in inl (ground arith, ground arith)
      | inr other ↦ inr (rw other at e)
    ]

-- The identifiers are own, and at most `k` were allocated.
HasOwnIds : ℕ → Hub → Type 0
HasOwnIds k h = OwnIds h.phase h.next_req_id × (h.next_req_id ≤ k)

to_send-id : (ph : Phase) (c id : ℕ) → to_send ph ≡ some (c, id) → id_of ph ≡ some id
to_send-id (allocated d r) c id e = ground arith
to_send-id idle c id e = ground arith
to_send-id (found d) c id e = ground arith
to_send-id (waiting r) c id e = ground arith
to_send-id (answered t) c id e = ground arith
to_send-id node_offline c id e = ground arith
to_send-id send_timeout c id e = ground arith
to_send-id request_timeout c id e = ground arith
to_send-id panicked c id e = ground arith

nothing : (f : ℕ → Phase) (p r : ℕ) → none ≡ some r → id_of (f p) ≡ some r
nothing f p r e = ground arith

-- The steps of a request.
look-HasOwnIds :
    (k : ℕ) (p n : ℕ) (h h' : Hub) → look p n h ≡ some h' → HasOwnIds k h → HasOwnIds k h'
unfolding look HasOwnIds
look-HasOwnIds k p n h h' e o = elim (Bool-cases (is_idle (h.phase p))) [
  | inr never ↦ absurd (none-some h' (rw (look, never) at e))
  | inl may ↦ elim (Option-cases (h.conns n)) [
    | inl gone ↦
        some-subst (HasOwnIds k) _ h' (rw (look, may, gone) at e)
          (set-OwnIds h.phase h.next_req_id p node_offline (λ r. nothing h.phase p r) o.0, o.1)
    | inr (c, there) ↦
        some-subst (HasOwnIds k) _ h' (rw (look, may, there) at e)
          (set-OwnIds h.phase h.next_req_id p (found c) (λ r. nothing h.phase p r) o.0, o.1)
  ]
]

no_wrap : (n k : ℕ) → n ≤ k → suc k < 2 ^ 64 → suc n % 2 ^ 64 ≡ suc n
no_wrap n k le lt = omega (arith, le, lt)

allocate-HasOwnIds :
    (k p : ℕ) (h h' : Hub)
    → allocate p h ≡ some h'
    → suc k < 2 ^ 64
    → HasOwnIds k h
    → HasOwnIds (suc k) h'
unfolding allocate HasOwnIds
allocate-HasOwnIds k p h h' e lt (o, le) = elim (Option-cases (found_conn (h.phase p))) [
  | inl never ↦ absurd (none-some h' (rw (allocate, never) at e))
  | inr (c, may) ↦ some-subst (HasOwnIds (suc k)) _ h' (rw (allocate, may) at e) (
      subst (λ id. OwnIds (set h.phase p (allocated c id)) id × (id ≤ suc k))
        (sym (no_wrap h.next_req_id k le lt))
        (allocate-OwnIds h.phase h.next_req_id p c o, omega (arith, le)))
]

send-HasOwnIds :
    (k : ℕ) (in_time : Bool) (p : ℕ) (h h' : Hub)
    → send in_time p h ≡ some h'
    → HasOwnIds k h
    → HasOwnIds k h'
unfolding send HasOwnIds
send-HasOwnIds k in_time p h h' e o = elim (Option-cases (to_send (h.phase p))) [
  | inl never ↦ absurd (none-some h' (rw (send, never) at e))
  | inr ((c, id), may) ↦
      let held = to_send-id (h.phase p) c id may in
      elim (Bool-cases (h.send_closed c)) [
        | inl closed ↦
            some-subst (HasOwnIds k) _ h' (rw (send, may, closed) at e)
              (set-OwnIds h.phase h.next_req_id p panicked (λ r. nothing h.phase p r) o.0, o.1)
        | inr ready ↦ elim (Bool-cases in_time) [
          | inl taken ↦
              some-subst (HasOwnIds k) _ h' (rw (send, may, ready, taken) at e)
                (set-OwnIds h.phase h.next_req_id p (waiting id) (λ r g. held ∙ g) o.0, o.1)
          | inr late ↦
              some-subst (HasOwnIds k) _ h' (rw (send, may, ready, late) at e) (
                set-OwnIds h.phase h.next_req_id p send_timeout (λ r. nothing h.phase p r) o.0,
                o.1,
              )
        ]
      ]
]

receive-HasOwnIds :
    (k : ℕ) (p : ℕ) (h h' : Hub) → receive p h ≡ some h' → HasOwnIds k h → HasOwnIds k h'
unfolding receive HasOwnIds
receive-HasOwnIds k p h h' e o = elim (Option-cases (waiting_id (h.phase p))) [
  | inl never ↦ absurd (none-some h' (rw (receive, never) at e))
  | inr (id, may) ↦ elim (Option-cases (h.channel id)) [
    | inl empty ↦ absurd (none-some h' (rw (receive, may, take_reply, empty) at e))
    | inr (reply, there) ↦
        some-subst (HasOwnIds k) _ h' (rw (receive, may, take_reply, there) at e)
          (set-OwnIds h.phase h.next_req_id p (answered reply) (λ r. nothing h.phase p r) o.0, o.1)
  ]
]

time_out-HasOwnIds :
    (k : ℕ) (p : ℕ) (h h' : Hub) → time_out p h ≡ some h' → HasOwnIds k h → HasOwnIds k h'
unfolding time_out HasOwnIds
time_out-HasOwnIds k p h h' e o = elim (Option-cases (waiting_id (h.phase p))) [
  | inl never ↦ absurd (none-some h' (rw (time_out, never) at e))
  | inr (id, may) ↦
      some-subst (HasOwnIds k) _ h' (rw (time_out, may) at e)
        (set-OwnIds h.phase h.next_req_id p request_timeout (λ r. nothing h.phase p r) o.0, o.1)
]

unregister-HasOwnIds :
    (k : ℕ) (c : ℕ) (h h' : Hub) → unregister c h ≡ some h' → HasOwnIds k h → HasOwnIds k h'
unfolding unregister HasOwnIds
unregister-HasOwnIds k c h h' e o = elim (Bool-cases (ltb c h.opened && not (h.send_closed c))) [
  | inr never ↦ absurd (none-some h' (rw never at e))
  | inl may ↦ elim (Bool-cases (is_conn (h.conns (h.node_of c)) c)) [
    | inl here ↦ some-subst (HasOwnIds k) _ h' (rw (may, here) at e) o
    | inr stale ↦ some-subst (HasOwnIds k) _ h' (rw (may, stale) at e) o
  ]
]

-- The steps of readLoop.
see_reply-HasOwnIds :
    (k : ℕ) (c id : ℕ) (reply : Text) (h h' : Hub)
    → see_reply c id reply h ≡ some h'
    → HasOwnIds k h
    → HasOwnIds k h'
unfolding see_reply HasOwnIds
see_reply-HasOwnIds k c id reply h h' e o = elim (Bool-cases (is_reading (h.reader c))) [
  | inr never ↦ absurd (none-some h' (rw never at e))
  | inl may ↦ elim (Bool-cases (h.pending id)) [
    | inl there ↦ some-subst (HasOwnIds k) _ h' (rw (may, there) at e) o
    | inr gone ↦ some-subst (HasOwnIds k) _ h' (rw (may, gone) at e) o
  ]
]

fill_channel-HasOwnIds :
    (k : ℕ) (c : ℕ) (h h' : Hub) → fill_channel c h ≡ some h' → HasOwnIds k h → HasOwnIds k h'
unfolding fill_channel HasOwnIds
fill_channel-HasOwnIds k c h h' e o = elim (Option-cases (to_fill (h.reader c))) [
  | inl never ↦ absurd (none-some h' (rw (fill_channel, never) at e))
  | inr ((id, reply), may) ↦ some-subst (HasOwnIds k) _ h' (rw (fill_channel, may) at e) o
]

forget_reply-HasOwnIds :
    (k : ℕ) (c : ℕ) (h h' : Hub) → forget_reply c h ≡ some h' → HasOwnIds k h → HasOwnIds k h'
unfolding forget_reply HasOwnIds
forget_reply-HasOwnIds k c h h' e o = elim (Option-cases (to_forget (h.reader c))) [
  | inl never ↦ absurd (none-some h' (rw (forget_reply, never) at e))
  | inr (id, may) ↦ some-subst (HasOwnIds k) _ h' (rw (forget_reply, may) at e) o
]

abbrev pub made : Step → ℕ → ℕ
made (allocates p) k = suc k
made _ k = k

-- How many identifiers a run has allocated.
unfoldable pub allocations : {h : Hub} → Reachable h → ℕ
allocations start = 0
allocations (next r s e) = made s (allocations r)

step-HasOwnIds :
    (k : ℕ) (s : Step) (h h' : Hub)
    → step s h ≡ some h'
    → made s k < 2 ^ 64
    → HasOwnIds k h
    → HasOwnIds (made s k) h'
unfolding step HasOwnIds register
step-HasOwnIds k (registers n) h h' e lt o = some-subst (HasOwnIds k) (register n h) h' e o
step-HasOwnIds k (unregisters c) h h' e lt o = unregister-HasOwnIds k c h h' e o
step-HasOwnIds k (looks p n) h h' e lt o = look-HasOwnIds k p n h h' e o
step-HasOwnIds k (allocates p) h h' e lt o = allocate-HasOwnIds k p h h' e lt o
step-HasOwnIds k (sends t p) h h' e lt o = send-HasOwnIds k t p h h' e o
step-HasOwnIds k (receives p) h h' e lt o = receive-HasOwnIds k p h h' e o
step-HasOwnIds k (times_out p) h h' e lt o = time_out-HasOwnIds k p h h' e o
step-HasOwnIds k (sees_reply c id r) h h' e lt o = see_reply-HasOwnIds k c id r h h' e o
step-HasOwnIds k (fills_channel c) h h' e lt o = fill_channel-HasOwnIds k c h h' e o
step-HasOwnIds k (forgets_reply c) h h' e lt o = forget_reply-HasOwnIds k c h h' e o

made-le : (s : Step) (k : ℕ) → k ≤ made s k
made-le (registers n) k = omega arith
made-le (unregisters c) k = omega arith
made-le (looks p n) k = omega arith
made-le (allocates p) k = omega arith
made-le (sends t p) k = omega arith
made-le (receives p) k = omega arith
made-le (times_out p) k = omega arith
made-le (sees_reply c id r) k = omega arith
made-le (fills_channel c) k = omega arith
made-le (forgets_reply c) k = omega arith

Reachable-HasOwnIds :
    (h : Hub) (r : Reachable h) → allocations r < 2 ^ 64 → HasOwnIds (allocations r) h
unfolding HasOwnIds allocations
Reachable-HasOwnIds h start lt = (
  record { allocated_before = λ p r e. ground arith; own = λ p q r e g. ground arith },
  omega arith,
)
Reachable-HasOwnIds h (next {h = h0} r s e) lt =
    let before : allocations r < 2 ^ 64 = omega (arith, lt, made-le s (allocations r)) in
    step-HasOwnIds (allocations r) s h0 h e lt (Reachable-HasOwnIds h0 r before)

-- In a state that is reached with fewer than 2 ^ 64 allocations, as many as there are identifiers,
-- two different requests never hold the same identifier, and every identifier that a request holds
-- was allocated before.
pub Reachable-OwnIds :
    (h : Hub) (r : Reachable h) → allocations r < 2 ^ 64 → OwnIds h.phase h.next_req_id
unfolding HasOwnIds
Reachable-OwnIds h r lt = (Reachable-HasOwnIds h r lt).0
