-- ===== src/Client/Coordinator/Requests.antt =====
-- session-coordinator.ts: the invariant over the calls that start, fence and fail a delivery.
use zhongduan.Base.{
  ℕ, ◌≡◌, ◌≢◌, refl, inl, inr, Bool, true, false, ◌&&◌, not, Option, none, some, List, [], ◌∷◌, leb,
  ◌==◌, All, ok, ◌>>◌, require, arith, Bool-cases, map_get, map_delete, get-All, set-All,
  delete-All,
}
use zhongduan.Protocol.Errors.{max_u64}
use zhongduan.Protocol.Cursor.{ReplicaCursor}
use zhongduan.Client.Deliveries.{SnapshotManifest, WarmReplayStart, snapshot, warm_identity}
use zhongduan.Client.Coordinator.{
  ReplicaEngine, Waiting, for_transport, for_host, Thrown, DeliveryState, is_closed, is_restoring,
  slow_client, Delivery, Coordinator,
}
use zhongduan.Client.Coordinator.Calls.{
  CallError, coordinator_closed, generation_out_of_range, fence_delivery_generation,
  start_warm_replay, start_snapshot, loaded, restore_reason, restore_threw, deadline_passed,
  or_same,
}
use zhongduan.Client.Coordinator.Sound.{resync-Sound, fence-Sound}
use zhongduan.Client.Coordinator.States.{Linked, Sound}
use zhongduan.Client.Coordinator.Starts.{begin_warm-Sound, begin_snapshot-Sound}
use zhongduan.Client.Coordinator.Accepts.{accept-Welcomed}

module _ (engine : ReplicaEngine) (Origin : engine.Replica → ReplicaCursor → Type 0) where
  open engine use {Replica}

  opened : (state : DeliveryState) → not (is_closed state) ≡ true → is_closed state ≡ false
  opened state e = flip (is_closed state) e
    where
      flip : (b : Bool) → not b ≡ true → b ≡ false
      flip b e = ground arith

  require-Sound :
      (b : Bool) (e : CallError) (s t : Coordinator engine)
      → Sound engine Origin s
      → (b ≡ true → Sound engine Origin t)
      → Sound engine Origin (or_same engine (require b e >> ok t) s)
  require-Sound true e s t h k = k refl
  require-Sound false e s t h k = h

  pub start_warm_replay-Sound :
      (start : WarmReplayStart) (s : Coordinator engine)
      → Sound engine Origin s
      → Sound engine Origin (or_same engine (start_warm_replay engine start s) s)
  unfolding start_warm_replay
  start_warm_replay-Sound start s h =
      require-Sound (not (is_closed s.state)) coordinator_closed s _ h (λ e.
        begin_warm-Sound engine Origin start _
          (accept-Welcomed engine Origin (warm_identity start) s (opened s.state e) h))

  pub start_snapshot-Sound :
      (m : SnapshotManifest) (s : Coordinator engine)
      → Sound engine Origin s
      → Sound engine Origin (or_same engine (start_snapshot engine m s) s)
  unfolding start_snapshot
  start_snapshot-Sound m s h =
      require-Sound (not (is_closed s.state)) coordinator_closed s _ h (λ e.
        begin_snapshot-Sound engine Origin m _
          (accept-Welcomed engine Origin (snapshot m) s (opened s.state e) h))

  pub fence_delivery-Sound :
      (g : ℕ) (s : Coordinator engine)
      → Sound engine Origin s
      → Sound engine Origin (or_same engine (fence_delivery_generation engine g s) s)
  unfolding fence_delivery_generation
  fence_delivery-Sound g s h = elim (Bool-cases (is_closed s.state)) [
    | inl e ↦ rw e h
    | inr e ↦ rw e (
        require-Sound (leb g max_u64) generation_out_of_range s _ h
          (λ k. fence-Sound engine Origin [] g true s h))
  ]

  -- The waiting calls without the ones of an attempt.
  pub deleted :
      (k n : ℕ) (o : Option (Delivery engine)) (ws : List (ℕ × Waiting))
      → All (Linked engine Origin n o) ws
      → All (λ (e : ℕ × Waiting). (e.0 ≢ k) × Linked engine Origin n o e) (map_delete k ws)
  deleted k n o ws h = delete-All (Linked engine Origin n o) k ws h

  pub kept :
      (k n : ℕ) (o : Option (Delivery engine)) (ws : List (ℕ × Waiting))
      → All (λ (e : ℕ × Waiting). (e.0 ≢ k) × Linked engine Origin n o e) ws
      → All (Linked engine Origin n o) ws
  kept k n o [] h = tt
  kept k n o (w ∷ ws) h = (h.0.1, kept k n o ws h.1)

  -- Without the calls of the current attempt nothing is asked of the delivery.
  pub unlinked :
      (n : ℕ) (o p : Option (Delivery engine)) (ws : List (ℕ × Waiting))
      → All (λ (e : ℕ × Waiting). (e.0 ≢ n) × Linked engine Origin n o e) ws
      → All (Linked engine Origin n p) ws
  unlinked n o p [] h = tt
  unlinked n o p ((k, w) ∷ ws) h = ((h.0.1.0, λ e. absurd (h.0.0 e)), unlinked n o p ws h.1)

  pub loaded-Sound :
      (k : ℕ) (o : Option Waiting) (s : Coordinator engine)
      → map_get k s.waiting ≡ o
      → Sound engine Origin s
      → Sound engine Origin (loaded engine k o s)
  unfolding loaded
  loaded-Sound k none s e h = h
  loaded-Sound k (some (for_host m)) s e h = h
  loaded-Sound k (some (for_transport m)) s e h = elim (Bool-cases (k == s.restore_attempt)) [
    | inl c ↦ rw c (record {
      shown = h.shown;
      delivers = h.delivers;
      linked =
          set-All (Linked engine Origin s.restore_attempt s.delivery) k (for_host m) s.waiting
            (get-All (Linked engine Origin s.restore_attempt s.delivery) k s.waiting
              (for_transport m) e h.linked)
            h.linked;
      expected = tt;
    })
    | inr c ↦ rw c (record {
      shown = h.shown;
      delivers = h.delivers;
      linked =
          kept k s.restore_attempt s.delivery _
            (deleted k s.restore_attempt s.delivery s.waiting h.linked);
      expected = tt;
    })
  ]

  pub restore_threw-Sound :
      (k : ℕ) (x : Thrown) (o : Option Waiting) (s : Coordinator engine)
      → Sound engine Origin s
      → Sound engine Origin (restore_threw engine k x o s)
  unfolding restore_threw
  restore_threw-Sound k x none s h = h
  restore_threw-Sound k x (some w) s h = elim (Bool-cases (k == s.restore_attempt)) [
    | inl c ↦ rw c (resync-Sound engine Origin [] (restore_reason engine x) _ gone)
    | inr c ↦ rw c gone
  ]
    where
      gone : Sound engine Origin (record s { waiting = map_delete k s.waiting })
      gone = record {
        shown = h.shown;
        delivers = h.delivers;
        linked =
            kept k s.restore_attempt s.delivery _
              (deleted k s.restore_attempt s.delivery s.waiting h.linked);
        expected = tt;
      }

  pub deadline-Sound :
      (o : Option ℕ) (s : Coordinator engine)
      → Sound engine Origin s
      → Sound engine Origin (deadline_passed engine o s)
  unfolding deadline_passed
  deadline-Sound none s h = h
  deadline-Sound (some k) s h = elim (Bool-cases (s.restore_attempt == k && is_restoring s.state)) [
    | inl e ↦ rw e (resync-Sound engine Origin [] slow_client s h)
    | inr e ↦ rw e h
  ]
