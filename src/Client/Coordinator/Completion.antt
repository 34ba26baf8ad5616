-- ===== src/Client/Coordinator/Completion.antt =====
-- session-coordinator.ts: when a restore ends in the state "live", and what a closed coordinator does.
use zhongduan.Base.{
  ℕ, ◌≡◌, refl, inl, inr, true, false, ◌&&◌, Option, none, some, List, [], ◌∷◌, ◌==◌, ok,
  Bool-cases, map_get, same_text,
}
use zhongduan.Protocol.Frame.{ResizePayload}
use zhongduan.Protocol.Cursor.{ReplicaCursor}
use zhongduan.Protocol.Cursor.Stream.{apply_all}
use zhongduan.Client.Coordinator.{
  ReplicaEngine, Waiting, for_transport, for_host, ResyncReason, Thrown, closed, is_closed,
  is_restoring, slow_client, engine_mismatch, no_candidate, held, Delivery, Coordinator,
  request_resync, close,
}
use zhongduan.Client.Coordinator.Frames.{accept_data}
use zhongduan.Client.Coordinator.Calls.{
  fence_delivery_generation, start_warm_replay, start_snapshot, loaded, restore_reason,
  give_candidate, restored, restore_threw, deadline_passed, Call, fence_call, warm_call,
  snapshot_call, data_call, loaded_call, restored_call, threw_call, deadline_call, close_call,
  run_call, run_calls,
}
use zhongduan.Client.Coordinator.States.{Delivers, Delivers}

module _ (engine : ReplicaEngine) where
  open engine use {Replica, engine_of, write_pty, resize}

  -- An engine that never throws.
  pub record Works : Type 0 where
    pub writes : (r : Replica) (bytes : List ℕ) → (write_pty r bytes).1 ≡ true
    pub resizes : (r : Replica) (size : ResizePayload) → (resize r size).1 ≡ true

  -- What a delivery is that only waits for its replica.
  abbrev pub Committed : Option (Delivery engine) → ReplicaCursor → Type 0
  Committed none c = ⊥
  Committed (some d) c =
      (d.received ≡ c) × (d.candidate ≡ no_candidate) × ((x : ReplicaCursor) × (d.commit ≡ some x))

  abbrev Buffers : Option (Delivery engine) → Type 0
  Buffers none = Unit
  Buffers (some d) = apply_all d.applied d.buffered ≡ ok d.received

  abbrev caught_up_with : Delivery engine → Replica → Delivery engine
  caught_up_with d q = record d {
    applied = d.received;
    buffered = [];
    buffered_bytes = 0;
    candidate = held q;
  }

  -- Closed, without a delivery, with this replica and this cursor.
  abbrev pub ClosedWith : Option Replica → Option ReplicaCursor → Coordinator engine → Type 0
  ClosedWith replica cursor s =
      (s.state ≡ closed)
      × (s.delivery ≡ none)
      × (s.live_replica ≡ replica)
      × (s.active_cursor ≡ cursor)

  module _ (replica : Option Replica) (cursor : Option ReplicaCursor) where
    resync-closed :
        (reason : ResyncReason) (s : Coordinator engine)
        → ClosedWith replica cursor s
        → ClosedWith replica cursor (request_resync engine reason s)
    unfolding request_resync
    resync-closed reason s h = rw h.0 (refl, h.1, h.2, h.3)

    give-closed :
        (o : Option (Delivery engine)) (r : Replica) (s : Coordinator engine)
        → o ≡ none
        → ClosedWith replica cursor s
        → ClosedWith replica cursor (give_candidate engine r o s)
    unfolding give_candidate
    give-closed none r s e h = h
    give-closed (some d) r s e h = absurd (cc)

    restored-closed :
        (k : ℕ) (r : Replica) (o : Option Waiting) (s : Coordinator engine)
        → ClosedWith replica cursor s
        → ClosedWith replica cursor (restored engine k r o s)
    unfolding restored
    restored-closed k r none s h = h
    restored-closed k r (some (for_transport m)) s h = h
    restored-closed k r (some (for_host m)) s h = elim (Bool-cases (k == s.restore_attempt)) [
      | inr c ↦ rw c h
      | inl c ↦ elim (Bool-cases (same_text (engine_of r) s.engine_id)) [
        | inr x ↦ rw (c, x) (resync-closed engine_mismatch _ h)
        | inl x ↦ rw (c, x) (give-closed s.delivery r _ h.1 h)
      ]
    ]

    loaded-closed :
        (k : ℕ) (o : Option Waiting) (s : Coordinator engine)
        → ClosedWith replica cursor s
        → ClosedWith replica cursor (loaded engine k o s)
    unfolding loaded
    loaded-closed k none s h = h
    loaded-closed k (some (for_host m)) s h = h
    loaded-closed k (some (for_transport m)) s h = elim (Bool-cases (k == s.restore_attempt)) [
      | inl c ↦ rw c h
      | inr c ↦ rw c h
    ]

    threw-closed :
        (k : ℕ) (x : Thrown) (o : Option Waiting) (s : Coordinator engine)
        → ClosedWith replica cursor s
        → ClosedWith replica cursor (restore_threw engine k x o s)
    unfolding restore_threw
    threw-closed k x none s h = h
    threw-closed k x (some w) s h = elim (Bool-cases (k == s.restore_attempt)) [
      | inl c ↦ rw c (resync-closed (restore_reason engine x) _ h)
      | inr c ↦ rw c h
    ]

    deadline-closed :
        (o : Option ℕ) (s : Coordinator engine)
        → ClosedWith replica cursor s
        → ClosedWith replica cursor (deadline_passed engine o s)
    unfolding deadline_passed
    deadline-closed none s h = h
    deadline-closed (some k) s h =
        elim (Bool-cases (s.restore_attempt == k && is_restoring s.state)) [
          | inl e ↦ rw e (resync-closed slow_client s h)
          | inr e ↦ rw e h
        ]

    call-closed :
        (call : Call engine) (s : Coordinator engine)
        → ClosedWith replica cursor s
        → ClosedWith replica cursor (run_call engine call s)
    unfolding run_call fence_delivery_generation start_warm_replay start_snapshot accept_data close
    call-closed (fence_call g) s h = rw h.0 (refl, h.1, h.2, h.3)
    call-closed (warm_call start) s h = rw h.0 (refl, h.1, h.2, h.3)
    call-closed (snapshot_call m) s h = rw h.0 (refl, h.1, h.2, h.3)
    call-closed (data_call bytes) s h = rw h.0 (refl, h.1, h.2, h.3)
    call-closed (loaded_call k) s h = loaded-closed k (map_get k s.waiting) s h
    call-closed (restored_call k r) s h = restored-closed k r (map_get k s.waiting) s h
    call-closed (threw_call k x) s h = threw-closed k x (map_get k s.waiting) s h
    call-closed deadline_call s h = deadline-closed s.restore_timer s h
    call-closed close_call s h = rw h.0 (refl, h.1, h.2, h.3)

    calls-closed :
        (calls : List (Call engine)) (s : Coordinator engine)
        → ClosedWith replica cursor s
        → ClosedWith replica cursor (run_calls engine calls s)
    unfolding run_calls
    calls-closed [] s h = h
    calls-closed (call ∷ calls) s h =
        calls-closed calls (run_call engine call s) (call-closed call s h)

  -- `close` ends it: whatever is called and whatever arrives behind it, in any order, the coordinator
  -- stays closed and without a delivery, and its live replica and its cursor are what they were
  -- before. The state before is any but "closed".
  pub close_final :
      (calls : List (Call engine)) (s : Coordinator engine)
      → is_closed s.state ≡ false
      → ClosedWith s.live_replica s.active_cursor (run_calls engine (close_call ∷ calls) s)
  unfolding run_calls run_call close
  close_final calls s e =
      calls-closed s.live_replica s.active_cursor calls (close engine s)
        (rw e (refl, refl, refl, refl))
