-- ===== src/Hub/Tests.antt =====
-- A run of the hub (internal/nodehub/hub.go).
use portguard_v.Base.{arith, ℕ, ◌≡◌, refl, true, none, some, codes, Option}
use portguard_v.Hub.{
  set, at_phase, found, allocated, Hub, Phase, panicked, answered, Step, registers, unregisters,
  looks, allocates, sends, receives, sees_reply, fills_channel, new_hub, register, unregister, look,
  allocate, send, receive, time_out, see_reply, fill_channel, forget_reply, step, Reachable, start,
  next,
}
use portguard_v.Hub.Invariant.{IsConsistent, Reachable-IsConsistent}
use portguard_v.Hub.Ids.{OwnIds, id_of, allocations, Reachable-OwnIds}

-- What a run of steps computes with.
steps : Unit {0}
unfolding step register unregister look allocate send receive time_out see_reply fill_channel
    forget_reply
steps = tt

abbrev then_step : Option Hub → Step → Option Hub
then_step none s = none
then_step (some h) s = step s h

-- Two requests of node 7, which reconnects.
abbrev after_connect : Hub
after_connect = register 7 new_hub

connected : Reachable (register 7 (register 7 new_hub))
unfolding steps
connected =
    next {h = register 7 new_hub} (next {h = new_hub} start (registers 7) refl) (registers 7) refl

Reachable-IsConsistent_example : IsConsistent (register 7 (register 7 new_hub))
Reachable-IsConsistent_example = Reachable-IsConsistent (register 7 (register 7 new_hub)) connected

-- A run in which two requests hold their identifiers at once.
abbrev first_found : Hub
first_found = at_phase 0 (found 0) after_connect

abbrev first_allocated : Hub
first_allocated = record first_found {
  next_req_id = 1;
  pending = set first_found.pending 1 true;
  channel = set first_found.channel 1 none;
  phase = set first_found.phase 0 (allocated 0 1);
}

abbrev second_found : Hub
second_found = at_phase 1 (found 0) first_allocated

abbrev two_waiting : Hub
two_waiting = record second_found {
  next_req_id = 2;
  pending = set second_found.pending 2 true;
  channel = set second_found.channel 2 none;
  phase = set second_found.phase 1 (allocated 0 2);
}

unfoldable two_requests : Reachable two_waiting
unfolding steps
two_requests =
    next {h = second_found}
      (next {h = first_allocated}
        (next {h = first_found}
          (next {h = after_connect} (next {h = new_hub} start (registers 7) refl) (looks 0 7) refl)
          (allocates 0) refl)
        (looks 1 7) refl)
      (allocates 1) refl

ids_held : (id_of (two_waiting.phase 0) ≡ some 1) × (id_of (two_waiting.phase 1) ≡ some 2)
ids_held = (refl, refl)

Reachable-OwnIds_example : OwnIds two_waiting.phase two_waiting.next_req_id
unfolding allocations two_requests
Reachable-OwnIds_example = Reachable-OwnIds two_waiting two_requests (omega arith)

abbrev phase_of : ℕ → Option Hub → Option Phase
phase_of p none = none
phase_of p (some h) = some (h.phase p)

-- A reply reaches the request that waits for it.
reply_arrives :
    phase_of 0 (
      then_step
        (then_step
          (then_step
            (then_step
              (then_step (then_step (some after_connect) (looks 0 7)) (allocates 0))
              (sends true 0))
            (sees_reply 0 1 (codes "ok")))
          (fills_channel 0))
        (receives 0))
    ≡ some (answered (codes "ok"))
unfolding steps
reply_arrives = refl

-- The connection goes between the lookup and the send of a request: the send panics.
send_panics :
    phase_of 0 (
      then_step
        (then_step
          (then_step (then_step (some after_connect) (looks 0 7)) (allocates 0))
          (unregisters 0))
        (sends true 0))
    ≡ some panicked
unfolding steps
send_panics = refl
