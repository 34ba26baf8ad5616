-- ===== src/Client/Coordinator/Showing.antt =====
-- session-coordinator.ts: what its user sees behind every schedule of calls.
use zhongduan.Base.{ℕ, ◌≤◌, ◌≡◌, refl, ap, subst, ◌∙◌, Option, none, some, List, ok, ok-injective}
use zhongduan.Protocol.Cursor.{ReplicaCursor}
use zhongduan.Client.Coordinator.{
  ReplicaEngine, live, Candidate, no_candidate, on_live, held, Delivery, Coordinator,
}
use zhongduan.Client.Coordinator.Calls.{initial, new_coordinator, Call, run_calls}
use zhongduan.Client.Coordinator.States.{Follows, Shown, Phase, Delivers, Sound, Carries, Pinned}
use zhongduan.Client.Coordinator.Schedules.{Supplied, run-Sound}

module _ (engine : ReplicaEngine) (Origin : engine.Replica → ReplicaCursor → Type 0) where
  open engine use {Replica}

  initial-Sound :
      (id : List ℕ) (b f : ℕ) (o : Option Replica) (c : Option ReplicaCursor)
      → Shown engine Origin o c
      → Sound engine Origin (initial engine id b f o c)
  initial-Sound id b f o c h = record { shown = h; delivers = tt; linked = tt; expected = tt }

  new-Sound :
      (id : List ℕ) (b f : ℕ) (o : Option Replica) (c : Option ReplicaCursor)
      (s : Coordinator engine)
      → new_coordinator engine id b f o c ≡ ok s
      → Shown engine Origin o c
      → Sound engine Origin s
  unfolding new_coordinator
  new-Sound id b f none (some c) s e h = absurd h
  new-Sound id b f none none s e h =
      subst (Sound engine Origin) (ok-injective e) (initial-Sound id b f none none h)
  new-Sound id b f (some r) c s e h =
      subst (Sound engine Origin) (ok-injective e) (initial-Sound id b f (some r) c h)

  -- The live replica and the active cursor of a coordinator, in every state; and in the state "live"
  -- that cursor is the received one, no less than the watermark of the delivery.
  abbrev pub Reached : Option Replica → Option ReplicaCursor → Option (Delivery engine) → Type 0
  Reached o active delivery =
      (r : Replica) × (d : Delivery engine) × (o ≡ some r)
      × (delivery ≡ some d)
      × (active ≡ some d.received)
      × Follows engine Origin r d.received
      × (d.expected_commit.last_event_seq ≤ d.received.last_event_seq)
      × (d.expected_commit.next_pty_offset ≤ d.received.next_pty_offset)

  abbrev pub Showing : Coordinator engine → Type 0
  Showing s =
      ((r : Replica) (c : ReplicaCursor)
        → s.live_replica ≡ some r
        → s.active_cursor ≡ some c
        → Follows engine Origin r c)
      × (s.state ≡ live → Reached s.live_replica s.active_cursor s.delivery)

  active_pair :
      (o : Option Replica) (a : Option ReplicaCursor)
      → Shown engine Origin o a
      → (r : Replica) (c : ReplicaCursor) → o ≡ some r
      → a ≡ some c
      → Follows engine Origin r c
  active_pair o a h r c e k =
      subst (λ x. Shown engine Origin x (some c)) e (subst (Shown engine Origin o) k h)

  -- A replica stands behind a cursor that is shown.
  active_replica :
      (o : Option Replica) (c : ReplicaCursor)
      → Shown engine Origin o (some c)
      → (r : Replica) × (o ≡ some r) × Follows engine Origin r c
  active_replica none c h = absurd h
  active_replica (some r) c h = (r, refl, h)

  -- The delivery of the state "live": its candidate is the live replica, and its commit is pinned.
  live_delivery :
      (c : Candidate engine) (commit active : Option ReplicaCursor) (d : Delivery engine)
      → Carries engine Origin active d c
      → Phase engine Origin live c commit
      → Pinned engine Origin commit d.expected_commit d.received
      → (active ≡ some d.received)
        × (d.expected_commit.last_event_seq ≤ d.received.last_event_seq)
        × (d.expected_commit.next_pty_offset ≤ d.received.next_pty_offset)
  live_delivery no_candidate commit active d v p q = absurd p
  live_delivery (held r) commit active d v p q = absurd p
  live_delivery on_live none active d v p q = absurd p
  live_delivery on_live (some x) active d v p q = (v.1 ∙ ap some v.0, q.0, q.1)

  live-Reached :
      (o : Option Replica) (fence : Option ℕ) (active : Option ReplicaCursor)
      (delivery : Option (Delivery engine))
      → Shown engine Origin o active
      → Delivers engine Origin live fence active delivery
      → Reached o active delivery
  live-Reached o fence active none h v = absurd v
  live-Reached o fence active (some d) h v =
      let (c, p, u, t) = v in
      let (a, e, f) = live_delivery d.candidate d.commit active d c p t in
      let (r, x, y) = active_replica o d.received (subst (Shown engine Origin o) a h) in
      (r, d, x, refl, a, y, e, f)

  -- From the constructor, through every schedule of calls, data frames and answers of the transport
  -- and the host: the active cursor is one that the live replica has reached, frame behind frame
  -- without a gap, and in the state "live" it is the cursor received last, which is not behind the
  -- watermark of the delivery. The conditions are that the replica handed to the constructor stands
  -- at the cursor given with it, and that each restored replica stands at the cut of its manifest.
  pub run_calls-Showing :
      (id : List ℕ) (max_bytes max_frames : ℕ) (active : Option Replica)
      (cursor : Option ReplicaCursor) (s : Coordinator engine) (calls : List (Call engine))
      → new_coordinator engine id max_bytes max_frames active cursor ≡ ok s
      → Shown engine Origin active cursor
      → Supplied engine Origin calls s
      → Showing (run_calls engine calls s)
  run_calls-Showing id max_bytes max_frames active cursor s calls e h u =
      let t = run_calls engine calls s in
      let g =
        run-Sound engine Origin calls s u (new-Sound id max_bytes max_frames active cursor s e h) in
      (
        active_pair t.live_replica t.active_cursor g.shown,
        λ l. live-Reached t.live_replica t.generation_fence t.active_cursor t.delivery g.shown (
            subst (λ x. Delivers engine Origin x t.generation_fence t.active_cursor t.delivery) l
              g.delivers),
      )
