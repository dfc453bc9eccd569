-- ===== src/Hub.antt =====
-- The hub of the nodes that connect to the panel (internal/nodehub/hub.go) as a state machine. A
-- step is what one goroutine does between two points at which others can run: ServeWS registers and
-- unregisters a connection, Request looks a connection up, allocates an identifier, sends and waits,
-- and readLoop looks a reply's channel up, fills it and forgets it. Connections and requests are
-- numbered. What the messages hold besides identifier and reply, the pings and the wire are left out.
mod Tests
pub mod Quiet
pub mod Invariant
pub mod Ids
use portguard_v.Base.{
  ℕ, ◌+◌, ◌%◌, ◌^◌, suc, Bool, true, false, not, ◌&&◌, List, [], ◌∷◌, Option, none, some, Text,
  if◌then◌else◌, ltb, ◌==◌, ◌≡◌, is_some,
}

abbrev pub set : {A : Type 0} → (ℕ → A) → ℕ → A → ℕ → A
set f k v j = if k == j then v else f j

-- How far a call of Request is; `panicked` is a send on a closed channel.
pub data Phase : Type 0 where
  idle : Phase
  found : ℕ → Phase
  allocated : ℕ → ℕ → Phase
  waiting : ℕ → Phase
  answered : Text → Phase
  node_offline : Phase
  send_timeout : Phase
  request_timeout : Phase
  panicked : Phase

abbrev pub is_idle : Phase → Bool
is_idle idle = true
is_idle _ = false

abbrev pub found_conn : Phase → Option ℕ
found_conn (found c) = some c
found_conn _ = none

abbrev pub to_send : Phase → Option (ℕ × ℕ)
to_send (allocated c id) = some (c, id)
to_send _ = none

abbrev pub waiting_id : Phase → Option ℕ
waiting_id (waiting id) = some id
waiting_id _ = none

-- What readLoop is about to do with a reply: fill its channel, or forget its identifier.
pub data Reader : Type 0 where
  reading : Reader
  filling : ℕ → Text → Reader
  forgetting : ℕ → Reader

abbrev pub is_reading : Reader → Bool
is_reading reading = true
is_reading _ = false

abbrev pub to_fill : Reader → Option (ℕ × Text)
to_fill (filling id reply) = some (id, reply)
to_fill _ = none

abbrev pub to_forget : Reader → Option ℕ
to_forget (forgetting id) = some id
to_forget _ = none

-- `next_req_id` has the 64 bits of an int64. `conns` is by node, `pending` and `channel` by request identifier, `reader` by connection.
-- `notified` has the calls of onStateChange, the last one first.
pub record Hub : Type 0 where
  pub conns : ℕ → Option ℕ
  pub opened : ℕ
  pub node_of : ℕ → ℕ
  pub send_closed : ℕ → Bool
  pub socket_closed : ℕ → Bool
  pub pending : ℕ → Bool
  pub channel : ℕ → Option Text
  pub next_req_id : ℕ
  pub reader : ℕ → Reader
  pub phase : ℕ → Phase
  pub notified : List (ℕ × Bool)

abbrev pub new_hub : Hub
new_hub = record {
  conns = λ n. none;
  opened = 0;
  node_of = λ c. 0;
  send_closed = λ c. false;
  socket_closed = λ c. false;
  pending = λ r. false;
  channel = λ r. none;
  next_req_id = 0;
  reader = λ c. reading;
  phase = λ p. idle;
  notified = [];
}

abbrev pub is_conn : Option ℕ → ℕ → Bool
is_conn none c = false
is_conn (some d) c = d == c

abbrev pub is_online : ℕ → Hub → Bool
is_online n h = is_some (h.conns n)

-- `close` of a connection that is replaced.
abbrev pub close_old : Option ℕ → (ℕ → Bool) → ℕ → Bool
close_old none f = f
close_old (some old) f = set f old true

-- `register` of a new connection of a node.
unfoldable pub register : ℕ → Hub → Hub
register n h = record h {
  conns = set h.conns n (some h.opened);
  opened = suc h.opened;
  node_of = set h.node_of h.opened n;
  socket_closed = close_old (h.conns n) h.socket_closed;
  notified = (n, true) ∷ h.notified;
}

-- `unregister`, which ServeWS calls once for a connection that it registered.
unfoldable pub unregister : ℕ → Hub → Option Hub
unregister c h =
    let n = h.node_of c in
    let gone : Hub = record h {
      conns = set h.conns n none;
      send_closed = set h.send_closed c true;
      notified = (n, false) ∷ h.notified;
    } in
    let stale : Hub = record h { send_closed = set h.send_closed c true } in
    if ltb c h.opened && not (h.send_closed c)
    then some (if is_conn (h.conns n) c then gone else stale)
    else none

abbrev pub at_phase : ℕ → Phase → Hub → Hub
at_phase p ph h = record h { phase = set h.phase p ph }

-- Request of a node, up to the unlock after the lookup.
unfoldable pub look : ℕ → ℕ → Hub → Option Hub
look p n h =
    if is_idle (h.phase p)
    then some
        (elim (h.conns n) [ none ↦ at_phase p node_offline h | some c ↦ at_phase p (found c) h ])
    else none

-- The identifier and the channel of the reply. nextReqID is an int64: its 64 bits wrap around.
unfoldable pub allocate : ℕ → Hub → Option Hub
allocate p h = elim (found_conn (h.phase p)) [
  | none ↦ none
  | some c ↦
      let id = suc h.next_req_id % 2 ^ 64 in
      some (record h {
        next_req_id = id;
        pending = set h.pending id true;
        channel = set h.channel id none;
        phase = set h.phase p (allocated c id);
      })
]

-- The first select: the message is taken, or panics on a closed channel, or the time is over.
unfoldable pub send : Bool → ℕ → Hub → Option Hub
send in_time p h = elim (to_send (h.phase p)) [
  | none ↦ none
  | some (c, id) ↦ some (
      if h.send_closed c
      then at_phase p panicked h
      else if in_time
      then at_phase p (waiting id) h
      else record h { pending = set h.pending id false; phase = set h.phase p send_timeout })
]

abbrev pub take_reply : ℕ → ℕ → Hub → Option Hub
take_reply p id h = elim (h.channel id) [
  | none ↦ none
  | some reply ↦
      some (record h { channel = set h.channel id none; phase = set h.phase p (answered reply) })
]

-- The second select, as the reply comes or as the timer fires.
unfoldable pub receive : ℕ → Hub → Option Hub
receive p h = elim (waiting_id (h.phase p)) [ none ↦ none | some id ↦ take_reply p id h ]

unfoldable pub time_out : ℕ → Hub → Option Hub
time_out p h = elim (waiting_id (h.phase p)) [
  | none ↦ none
  | some id ↦
      some (record h { pending = set h.pending id false; phase = set h.phase p request_timeout })
]

-- readLoop on a reply: the lookup of its channel, the filling of the channel if it is empty, and
-- the removal of the channel from the map.
unfoldable pub see_reply : ℕ → ℕ → Text → Hub → Option Hub
see_reply c id reply h =
    if is_reading (h.reader c)
    then some (if h.pending id then record h { reader = set h.reader c (filling id reply) } else h)
    else none

unfoldable pub fill_channel : ℕ → Hub → Option Hub
fill_channel c h = elim (to_fill (h.reader c)) [
  | none ↦ none
  | some (id, reply) ↦ some (record h {
    channel = if is_some (h.channel id) then h.channel else set h.channel id (some reply);
    reader = set h.reader c (forgetting id);
  })
]

unfoldable pub forget_reply : ℕ → Hub → Option Hub
forget_reply c h = elim (to_forget (h.reader c)) [
  | none ↦ none
  | some id ↦ some (record h { pending = set h.pending id false; reader = set h.reader c reading })
]

pub data Step : Type 0 where
  registers : ℕ → Step
  unregisters : ℕ → Step
  looks : ℕ → ℕ → Step
  allocates : ℕ → Step
  sends : Bool → ℕ → Step
  receives : ℕ → Step
  times_out : ℕ → Step
  sees_reply : ℕ → ℕ → Text → Step
  fills_channel : ℕ → Step
  forgets_reply : ℕ → Step

-- `none` is a step that no goroutine can make.
unfoldable pub step : Step → Hub → Option Hub
unfolding register unregister look allocate send receive time_out see_reply fill_channel
    forget_reply
step (registers n) h = some (register n h)
step (unregisters c) h = unregister c h
step (looks p n) h = look p n h
step (allocates p) h = allocate p h
step (sends in_time p) h = send in_time p h
step (receives p) h = receive p h
step (times_out p) h = time_out p h
step (sees_reply c id reply) h = see_reply c id reply h
step (fills_channel c) h = fill_channel c h
step (forgets_reply c) h = forget_reply c h

pub data Reachable : Hub → Type 0 where
  start : Reachable new_hub
  next : {h h' : Hub} → Reachable h → (s : Step) → step s h ≡ some h' → Reachable h'
