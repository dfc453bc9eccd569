-- ===== src/Hub/Quiet.antt =====
-- The steps of a request and of readLoop leave the connections alone (internal/nodehub/hub.go).
use portguard_v.Base.{
  ℕ, ◌≡◌, refl, subst, Bool, none, some, Text, inl, inr, Bool-cases, Option-cases, arith,
}
use portguard_v.Hub.{
  take_reply, Hub, is_idle, found_conn, to_send, waiting_id, is_reading, to_fill, to_forget, look,
  allocate, send, receive, time_out, see_reply, fill_channel, forget_reply,
}

pub some-subst : (P : Hub → Type 0) (a b : Hub) → some a ≡ some b → P a → P b
some-subst P a b e = subst P (get e)
  where
    get : some a ≡ some b → a ≡ b
    get q = ground arith

pub none-some : {A : Type 0} (a : A) → none ≡ some a → ⊥
none-some a e = ground arith

-- A step that leaves the connections and what was told alone.
unfoldable pub Quiet : Hub → Hub → Type 0
Quiet h h' =
    (h'.conns ≡ h.conns)
    × (h'.notified ≡ h.notified)
    × (h'.node_of ≡ h.node_of)
    × (h'.send_closed ≡ h.send_closed)
    × (h'.opened ≡ h.opened)

pub look-Quiet : (p n : ℕ) (h h' : Hub) → look p n h ≡ some h' → Quiet h h'
unfolding look Quiet
look-Quiet p n h h' e = elim (Bool-cases (is_idle (h.phase p))) [
  | inr never ↦ absurd (none-some h' (rw never at e))
  | inl may ↦ elim (Option-cases (h.conns n)) [
    | inl gone ↦ some-subst (Quiet h) _ h' (rw (may, gone) at e) (refl, refl, refl, refl, refl)
    | inr (c, there) ↦
        some-subst (Quiet h) _ h' (rw (may, there) at e) (refl, refl, refl, refl, refl)
  ]
]

pub allocate-Quiet : (p : ℕ) (h h' : Hub) → allocate p h ≡ some h' → Quiet h h'
unfolding allocate Quiet
allocate-Quiet p h h' e = elim (Option-cases (found_conn (h.phase p))) [
  | inl never ↦ absurd (none-some h' (rw (allocate, never) at e))
  | inr (c, may) ↦
      some-subst (Quiet h) _ h' (rw (allocate, may) at e) (refl, refl, refl, refl, refl)
]

pub send-Quiet : (in_time : Bool) (p : ℕ) (h h' : Hub) → send in_time p h ≡ some h' → Quiet h h'
unfolding send Quiet
send-Quiet in_time p h h' e = elim (Option-cases (to_send (h.phase p))) [
  | inl never ↦ absurd (none-some h' (rw (send, never) at e))
  | inr ((c, id), may) ↦ elim (Bool-cases (h.send_closed c)) [
    | inl closed ↦
        some-subst (Quiet h) _ h' (rw (send, may, closed) at e) (refl, refl, refl, refl, refl)
    | inr ready ↦ elim (Bool-cases in_time) [
      | inl taken ↦
          some-subst (Quiet h) _ h' (rw (send, may, ready, taken) at e)
            (refl, refl, refl, refl, refl)
      | inr late ↦
          some-subst (Quiet h) _ h' (rw (send, may, ready, late) at e)
            (refl, refl, refl, refl, refl)
    ]
  ]
]

pub receive-Quiet : (p : ℕ) (h h' : Hub) → receive p h ≡ some h' → Quiet h h'
unfolding receive Quiet
receive-Quiet p h h' e = elim (Option-cases (waiting_id (h.phase p))) [
  | inl never ↦ absurd (none-some h' (rw (receive, never) at e))
  | inr (id, may) ↦ elim (Option-cases (h.channel id)) [
    | inl empty ↦ absurd (none-some h' (rw (receive, may, take_reply, empty) at e))
    | inr (reply, there) ↦
        some-subst (Quiet h) _ h' (rw (receive, may, take_reply, there) at e)
          (refl, refl, refl, refl, refl)
  ]
]

pub time_out-Quiet : (p : ℕ) (h h' : Hub) → time_out p h ≡ some h' → Quiet h h'
unfolding time_out Quiet
time_out-Quiet p h h' e = elim (Option-cases (waiting_id (h.phase p))) [
  | inl never ↦ absurd (none-some h' (rw (time_out, never) at e))
  | inr (id, may) ↦
      some-subst (Quiet h) _ h' (rw (time_out, may) at e) (refl, refl, refl, refl, refl)
]

pub see_reply-Quiet :
    (c id : ℕ) (reply : Text) (h h' : Hub) → see_reply c id reply h ≡ some h' → Quiet h h'
unfolding see_reply Quiet
see_reply-Quiet c id reply h h' e = elim (Bool-cases (is_reading (h.reader c))) [
  | inr never ↦ absurd (none-some h' (rw never at e))
  | inl may ↦ elim (Bool-cases (h.pending id)) [
    | inl there ↦ some-subst (Quiet h) _ h' (rw (may, there) at e) (refl, refl, refl, refl, refl)
    | inr gone ↦ some-subst (Quiet h) _ h' (rw (may, gone) at e) (refl, refl, refl, refl, refl)
  ]
]

pub fill_channel-Quiet : (c : ℕ) (h h' : Hub) → fill_channel c h ≡ some h' → Quiet h h'
unfolding fill_channel Quiet
fill_channel-Quiet c h h' e = elim (Option-cases (to_fill (h.reader c))) [
  | inl never ↦ absurd (none-some h' (rw (fill_channel, never) at e))
  | inr ((id, reply), may) ↦
      some-subst (Quiet h) _ h' (rw (fill_channel, may) at e) (refl, refl, refl, refl, refl)
]

pub forget_reply-Quiet : (c : ℕ) (h h' : Hub) → forget_reply c h ≡ some h' → Quiet h h'
unfolding forget_reply Quiet
forget_reply-Quiet c h h' e = elim (Option-cases (to_forget (h.reader c))) [
  | inl never ↦ absurd (none-some h' (rw (forget_reply, never) at e))
  | inr (id, may) ↦
      some-subst (Quiet h) _ h' (rw (forget_reply, may) at e) (refl, refl, refl, refl, refl)
]
