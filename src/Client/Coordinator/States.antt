-- ===== src/Client/Coordinator/States.antt =====
-- session-coordinator.ts: when the state of a coordinator is sound, and what a waiting call has to do with it.
use zhongduan.Base.{
  ℕ, ◌+◌, ◌≤◌, ◌≡◌, true, false, Option, none, some, List, [], ◌∷◌, All, ok, arith,
}
use zhongduan.Protocol.Frame.{DataFrame}
use zhongduan.Protocol.Cursor.{ReplicaCursor}
use zhongduan.Protocol.Cursor.Stream.{apply_all}
use zhongduan.Client.Deliveries.{SnapshotManifest, manifest_cursor, represents_same_terminal_state}
use zhongduan.Client.Coordinator.{
  ReplicaEngine, Waiting, for_transport, for_host, DeliveryState, replaying, restoring, live,
  stopped, Candidate, no_candidate, on_live, held, Delivery, Coordinator,
}
use zhongduan.Client.Coordinator.Frames.{apply_frame}

abbrev pub manifest_of : Waiting → SnapshotManifest
manifest_of (for_transport m) = m
manifest_of (for_host m) = m

-- `Origin r c`: the replica `r` was handed over as the terminal at the cursor `c`.
module _ (engine : ReplicaEngine) (Origin : engine.Replica → ReplicaCursor → Type 0) where
  open engine use {Replica}

  -- A replica that shows the terminal at a cursor: it was handed over there, or took each frame that
  -- led there, or the cursor names the same state in another delivery.
  pub data Follows : Replica → ReplicaCursor → Type 0 where
    handed_over : {r : Replica} {c : ReplicaCursor} → Origin r c → Follows r c
    took :
        {r q : Replica} {c d : ReplicaCursor}
        → (f : DataFrame) → Follows r c
        → apply_frame engine r c f ≡ (q, ok d)
        → Follows q d
    readdressed :
        {r : Replica} {c d : ReplicaCursor}
        → Follows r c
        → represents_same_terminal_state c d ≡ true
        → Follows r d

  -- The active cursor is the one of the live replica.
  abbrev pub Shown : Option Replica → Option ReplicaCursor → Type 0
  Shown replica none = Unit
  Shown none (some c) = ⊥
  Shown (some r) (some c) = Follows r c

  -- What the candidate of a delivery has taken of the frames that were received.
  abbrev pub Carries : Option ReplicaCursor → Delivery engine → Candidate engine → Type 0
  Carries active d no_candidate = apply_all d.applied d.buffered ≡ ok d.received
  Carries active d on_live = (d.applied ≡ d.received) × (active ≡ some d.applied)
  Carries active d (held r) = (d.applied ≡ d.received) × Follows r d.applied

  -- The candidate that belongs to a state: the live replica in a warm replay and behind the commit.
  abbrev pub Phase : DeliveryState → Candidate engine → Option ReplicaCursor → Type 0
  Phase restoring no_candidate commit = Unit
  Phase restoring (held r) commit = Unit
  Phase replaying on_live commit = Unit
  Phase live on_live (some commit) = Unit
  Phase _ c commit = ⊥

  -- The watermark of the delivery is not ahead of what was received.
  abbrev pub Pinned : Option ReplicaCursor → ReplicaCursor → ReplicaCursor → Type 0
  Pinned none expected received = Unit
  Pinned (some commit) expected received =
      (expected.last_event_seq ≤ received.last_event_seq)
      × (expected.next_pty_offset ≤ received.next_pty_offset)

  -- A delivery is not of a later generation than the fence.
  abbrev pub Fenced : Option ℕ → ℕ → Type 0
  Fenced none generation = ⊥
  Fenced (some fence) generation = generation ≤ fence

  -- The states without a delivery.
  abbrev pub Resting : DeliveryState → Type 0
  Resting restoring = ⊥
  Resting replaying = ⊥
  Resting live = ⊥
  Resting _ = Unit

  abbrev pub Delivers :
      DeliveryState → Option ℕ → Option ReplicaCursor → Option (Delivery engine) → Type 0
  Delivers state fence active none = Resting state
  Delivers state fence active (some d) =
      Carries active d d.candidate
      × Phase state d.candidate d.commit
      × Fenced fence d.received.delivery_generation
      × Pinned d.commit d.expected_commit d.received

  -- The delivery stands at the cut of the manifest, and waits for a candidate.
  abbrev pub Restores : SnapshotManifest → Option (Delivery engine) → Type 0
  Restores m none = ⊥
  Restores m (some d) = (d.candidate ≡ no_candidate) × (d.applied ≡ manifest_cursor m)

  -- A waiting call is one of the current attempt only while its delivery stands.
  abbrev pub Linked : ℕ → Option (Delivery engine) → ℕ × Waiting → Type 0
  Linked attempt o (k, w) = (k ≤ attempt) × (k ≡ attempt → Restores (manifest_of w) o)

  -- `extra` are waiting calls that the coordinator does not know yet.
  pub record Holds (extra waiting : List (ℕ × Waiting)) (attempt : ℕ) (state : DeliveryState)
      (fence : Option ℕ) (live_replica : Option Replica) (active : Option ReplicaCursor)
      (delivery : Option (Delivery engine)) : Type 0 where
    pub shown : Shown live_replica active
    pub delivers : Delivers state fence active delivery
    pub linked : All (Linked attempt delivery) waiting
    pub expected : All (Linked attempt delivery) extra

  abbrev pub SoundWith : List (ℕ × Waiting) → Coordinator engine → Type 0
  SoundWith extra s =
      Holds extra s.waiting s.restore_attempt s.state s.generation_fence s.live_replica
        s.active_cursor s.delivery

  abbrev pub Sound : Coordinator engine → Type 0
  Sound s = SoundWith [] s

  abbrev pub Earlier : ℕ → ℕ × Waiting → Type 0
  Earlier attempt (k, w) = k ≤ attempt

  -- What is left of that where a step has thrown: enough to end the delivery.
  pub record Broken (extra : List (ℕ × Waiting)) (s : Coordinator engine) : Type 0 where
    pub running : stopped s.state ≡ false
    pub shown : Shown s.live_replica s.active_cursor
    pub earlier : All (Earlier s.restore_attempt) s.waiting
    pub extra_earlier : All (Earlier s.restore_attempt) extra

  pub Linked-Earlier :
      (n : ℕ) (o : Option (Delivery engine)) (ws : List (ℕ × Waiting))
      → All (Linked n o) ws
      → All (Earlier n) ws
  Linked-Earlier n o [] h = tt
  Linked-Earlier n o ((k, w) ∷ ws) h = (h.0.0, Linked-Earlier n o ws h.1)

  -- A later attempt outdates every waiting call.
  pub Earlier-Linked :
      (n m : ℕ) (o : Option (Delivery engine)) (ws : List (ℕ × Waiting))
      → n + 1 ≤ m
      → All (Earlier n) ws
      → All (Linked m o) ws
  Earlier-Linked n m o [] lt h = tt
  Earlier-Linked n m o ((k, w) ∷ ws) lt h =
      ((omega (arith, h.0), λ e. absurd (omega (arith, h.0, e))), Earlier-Linked n m o ws lt h.1)

  -- A waiting call stays linked while its delivery restores the same manifests.
  pub Linked-mono :
      (n : ℕ) (o p : Option (Delivery engine)) (ws : List (ℕ × Waiting))
      → ((m : SnapshotManifest) → Restores m o → Restores m p)
      → All (Linked n o) ws
      → All (Linked n p) ws
  Linked-mono n o p [] f h = tt
  Linked-mono n o p ((k, w) ∷ ws) f h =
      ((h.0.0, λ e. f (manifest_of w) (h.0.1 e)), Linked-mono n o p ws f h.1)

  -- A new attempt supersedes the waiting calls, whatever the delivery.
  pub superseded :
      (n m : ℕ) (o p : Option (Delivery engine)) (ws : List (ℕ × Waiting))
      → n + 1 ≤ m
      → All (Linked n o) ws
      → All (Linked m p) ws
  superseded n m o p ws lt h = Earlier-Linked n m p ws lt (Linked-Earlier n o ws h)

  pub outdated :
      (s : Coordinator engine) (ws : List (ℕ × Waiting))
      → All (Linked s.restore_attempt s.delivery) ws
      → All (Linked (s.restore_attempt + 1) none) ws
  outdated s ws k =
      superseded s.restore_attempt (s.restore_attempt + 1) s.delivery none ws (omega arith) k
