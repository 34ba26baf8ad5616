-- ===== src/Client/Coordinator/Accepts.antt =====
-- session-coordinator.ts: the invariant over the data frames that are accepted and over delivery starts.
use zhongduan.Base.{
  ℕ, ◌≡◌, refl, inl, inr, Bool, true, false, ◌||◌, Option, none, some, List, [], ◌∷◌, ltb, ◌==◌,
  Result, ok, err, arith, Bool-cases,
}
use zhongduan.Protocol.Frame.{DataFrame, decode_data_frame}
use zhongduan.Protocol.Cursor.{ReplicaCursor}
use zhongduan.Client.Deliveries.{DeliveryStart, delivery_start_generation, same_delivery_start}
use zhongduan.Client.Coordinator.{
  ReplicaEngine, Waiting, DeliveryState, idle, awaiting_control, replaying, restoring, live,
  resyncing, closed, stopped, is_closed, is_resyncing, behind, journal_gap, Delivery, Coordinator,
}
use zhongduan.Client.Coordinator.Frames.{
  Step, accept_frame, accept_decoded, accept_data, next_ready, accept_ready, drain_pending_frames,
  is_gone, ready_frames, resync_reason,
}
use zhongduan.Client.Coordinator.Calls.{
  fence_of, Accepted, against_current, against_active, accept_delivery_start,
}
use zhongduan.Client.Coordinator.Sound.{resync-Broken, resync-Sound}
use zhongduan.Client.Coordinator.States.{Delivers, SoundWith, Sound}
use zhongduan.Client.Coordinator.Steps.{accept_frame-Good, caught-Sound}
use zhongduan.Client.Coordinator.Commits.{Good}

module _ (engine : ReplicaEngine) (Origin : engine.Replica → ReplicaCursor → Type 0) where
  open engine use {Replica}

  -- A coordinator that has a delivery runs.
  pub delivering :
      (state : DeliveryState) (fence : Option ℕ) (active : Option ReplicaCursor)
      (o : Option (Delivery engine))
      → is_gone engine o ≡ false
      → Delivers engine Origin state fence active o
      → stopped state ≡ false
  delivering state fence active none g h = absurd (cc)
  delivering restoring fence active (some d) g h = refl
  delivering replaying fence active (some d) g h = refl
  delivering live fence active (some d) g h = refl
  delivering idle fence active (some d) g h = refl
  delivering awaiting_control fence active (some d) g h = refl
  delivering resyncing fence active (some d) g h = absurd h.1
  delivering closed fence active (some d) g h = absurd h.1

  module _ (extra : List (ℕ × Waiting)) where
    next_ready-Sound :
        (p : Step engine) (rest : Coordinator engine → Coordinator engine)
        → Good engine Origin extra p
        → ((t : Coordinator engine)
            → SoundWith engine Origin extra t
            → SoundWith engine Origin extra (rest t))
        → SoundWith engine Origin extra (next_ready engine p rest)
    next_ready-Sound (t, none) rest g k = k t g
    next_ready-Sound (t, some x) rest g k = resync-Broken engine Origin extra (resync_reason x) t g

    accept_ready-Sound :
        (fs : List DataFrame) (s : Coordinator engine)
        → SoundWith engine Origin extra s
        → SoundWith engine Origin extra (accept_ready engine fs s)
    unfolding accept_ready
    accept_ready-Sound [] s h = h
    accept_ready-Sound (f ∷ fs) s h = elim (Bool-cases (is_gone engine s.delivery)) [
      | inl e ↦ rw e h
      | inr e ↦ elim (Bool-cases (is_resyncing s.state)) [
        | inl k ↦ rw (e, k) h
        | inr k ↦
            rw (e, k)
              (next_ready-Sound (accept_frame engine f s) (accept_ready engine fs)
                (accept_frame-Good engine Origin extra f s
                  (delivering s.state s.generation_fence s.active_cursor s.delivery e h.delivers) h)
                (accept_ready-Sound fs))
      ]
    ]

    pub drain-Sound :
        (d : Delivery engine) (s : Coordinator engine)
        → SoundWith engine Origin extra s
        → SoundWith engine Origin extra (drain_pending_frames engine d s)
    unfolding drain_pending_frames
    drain-Sound d s h = accept_ready-Sound (ready_frames engine d s.pending_frames) _ h

  pub accept_data-Sound :
      (bytes : List ℕ) (s : Coordinator engine)
      → Sound engine Origin s
      → Sound engine Origin (accept_data engine bytes s)
  unfolding accept_data
  accept_data-Sound bytes s h = elim (Bool-cases (stopped s.state)) [
    | inl e ↦ rw e h
    | inr e ↦ rw e (decoded (decode_data_frame bytes) e)
  ]
    where
      decoded :
          (r : Result _ DataFrame)
          → stopped s.state ≡ false
          → Sound engine Origin (accept_decoded engine r s)
      decoded (err x) e = resync-Sound engine Origin [] _ s h
      decoded (ok f) e =
          caught-Sound engine Origin [] (accept_frame engine f s)
            (accept_frame-Good engine Origin [] f s e h)

  -- What `#acceptDeliveryStart` leaves: where it answers true the coordinator runs.
  abbrev pub Welcomed : Accepted engine → Type 0
  Welcomed (s, false) = Sound engine Origin s
  Welcomed (s, true) = Sound engine Origin s × (stopped s.state ≡ false)

  against_active-Welcomed :
      (g : ℕ) (s : Coordinator engine)
      → stopped s.state ≡ false
      → Sound engine Origin s
      → Welcomed (against_active engine g s)
  against_active-Welcomed g s running h =
      elim (Bool-cases (behind (fence_of engine s.active_cursor) g)) [
        | inl e ↦ rw e h
        | inr e ↦ rw e (h, running)
      ]

  against_current-Welcomed :
      (start : DeliveryStart) (o : Option (Delivery engine)) (s : Coordinator engine)
      → stopped s.state ≡ false
      → Sound engine Origin s
      → Welcomed (against_current engine start o s)
  against_current-Welcomed start none s running h =
      against_active-Welcomed (delivery_start_generation start) s running h
  against_current-Welcomed start (some d) s running h =
      let g = delivery_start_generation start in
      let c = delivery_start_generation d.start in
      elim (Bool-cases (ltb g c)) [
        | inl e ↦ rw e h
        | inr e ↦ elim (Bool-cases (g == c)) [
          | inr k ↦ rw (e, k) (against_active-Welcomed g s running h)
          | inl k ↦ elim (Bool-cases (same_delivery_start d.start start)) [
            | inl m ↦ rw (e, k, m) h
            | inr m ↦ rw (e, k, m) (resync-Sound engine Origin [] journal_gap s h)
          ]
        ]
      ]

  pub accept-Welcomed :
      (start : DeliveryStart) (s : Coordinator engine)
      → is_closed s.state ≡ false
      → Sound engine Origin s
      → Welcomed (accept_delivery_start engine start s)
  unfolding accept_delivery_start
  accept-Welcomed start s not_closed h = elim (Bool-cases (is_resyncing s.state)) [
    | inl e ↦ rw e h
    | inr e ↦ elim (Bool-cases (behind s.generation_fence (delivery_start_generation start))) [
      | inl k ↦ rw (e, k) h
      | inr k ↦
          rw (e, k)
            (against_current-Welcomed start s.delivery s
              (both (is_closed s.state) (is_resyncing s.state) not_closed e) h)
    ]
  ]
    where
      both : (a b : Bool) → a ≡ false → b ≡ false → (a || b) ≡ false
      both a b e k = ground arith
