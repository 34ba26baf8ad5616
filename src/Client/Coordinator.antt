-- ===== src/Client/Coordinator.antt =====
-- packages/session-client/src/session-coordinator.ts: the state of the coordinator, its generation
-- fence and its resynchronisation. A replica sink is a value of the engine's type that its calls
-- replace. `delivery.candidate` is `on_live` where it is the object of `#liveReplica`, and `held`
-- where it is another one. What a call sends, adopts or disposes is a list of effects; a callback
-- that calls the coordinator back is a later call. The abort signal of a restore is not kept: each
-- place that aborts it also raises `#restoreAttempt`, which is compared at the same places.
pub mod Frames
pub mod Calls
pub mod States
pub mod Sound
pub mod Commits
pub mod Steps
pub mod Starts
pub mod Accepts
pub mod Schedules
pub mod Requests
pub mod Showing
pub mod Completion
mod Tests
use zhongduan.Base.{
  ℕ, ◌+◌, ◌*◌, Bool, true, false, ◌&&◌, ◌||◌, not, Option, none, some, List, [], ◌∷◌, ◌++◌, ltb,
  leb, if◌then◌else◌, length,
}
use zhongduan.Protocol.Errors.{ProtocolErrorCode}
use zhongduan.Protocol.Frame.{DataFrame, ResizePayload, data_header_bytes}
use zhongduan.Protocol.Cursor.{ReplicaCursor}
use zhongduan.Client.Deliveries.{DeliveryStart, SnapshotManifest}

-- The terminal engine behind `ReplicaSink`: a call leaves a replica, and `false` where it throws.
pub record ReplicaEngine : Type 1 where
  pub Replica : Type 0
  pub engine_of : Replica → List ℕ
  pub write_pty : Replica → List ℕ → Replica × Bool
  pub resize : Replica → ResizePayload → Replica × Bool

pub data DeliveryState : Type 0 where
  idle awaiting_control replaying restoring live resyncing closed : DeliveryState

pub data ResyncReason : Type 0 where
  journal_gap slow_client engine_mismatch epoch_changed restore_failed : ResyncReason

-- What a step throws: a `ProtocolError`, or another error.
pub data Thrown : Type 0 where
  protocol : ProtocolErrorCode → Thrown
  other_error : Thrown

-- What a call of `startSnapshot` waits for: the transport's `load`, then the host's `restore`.
pub data Waiting : Type 0 where
  for_transport : SnapshotManifest → Waiting
  for_host : SnapshotManifest → Waiting

abbrev pub default_max_buffered_tail_bytes : ℕ
default_max_buffered_tail_bytes = 2 * 1024 * 1024

abbrev pub default_max_buffered_tail_frames : ℕ
default_max_buffered_tail_frames = 1024

abbrev pub is_closed : DeliveryState → Bool
is_closed closed = true
is_closed idle = false
is_closed awaiting_control = false
is_closed replaying = false
is_closed restoring = false
is_closed live = false
is_closed resyncing = false

abbrev pub is_resyncing : DeliveryState → Bool
is_resyncing resyncing = true
is_resyncing idle = false
is_resyncing awaiting_control = false
is_resyncing replaying = false
is_resyncing restoring = false
is_resyncing live = false
is_resyncing closed = false

abbrev pub is_restoring : DeliveryState → Bool
is_restoring restoring = true
is_restoring idle = false
is_restoring awaiting_control = false
is_restoring replaying = false
is_restoring live = false
is_restoring resyncing = false
is_restoring closed = false

-- `state === "closed" || state === "resyncing"`.
abbrev pub stopped : DeliveryState → Bool
stopped state = is_closed state || is_resyncing state

abbrev pub frame_bytes : DataFrame → ℕ
frame_bytes frame = data_header_bytes + length frame.payload

abbrev pub frames_bytes : List DataFrame → ℕ
frames_bytes [] = 0
frames_bytes (frame ∷ frames) = frame_bytes frame + frames_bytes frames

-- `frames.filter(frame => frame.deliveryGeneration >= generation)`.
abbrev pub frames_from : ℕ → List DataFrame → List DataFrame
frames_from generation [] = []
frames_from generation (frame ∷ frames) =
    if leb generation frame.delivery_generation
    then frame ∷ frames_from generation frames
    else frames_from generation frames

-- `fence !== null && generation < fence`.
abbrev pub behind : Option ℕ → ℕ → Bool
behind none generation = false
behind (some fence) generation = ltb generation fence

-- `fence !== null && generation <= fence`.
abbrev pub reached : Option ℕ → ℕ → Bool
reached none generation = false
reached (some fence) generation = leb generation fence

-- The state behind the fence.
abbrev pub awaited : Bool → DeliveryState → DeliveryState
awaited resume_from_resync state =
    if not (is_closed state) && (not (is_resyncing state) || resume_from_resync)
    then awaiting_control
    else state

module _ (engine : ReplicaEngine) where
  open engine use {Replica}

  pub data Candidate : Type 0 where
    no_candidate : Candidate
    on_live : Candidate
    held : Replica → Candidate

  pub record Delivery : Type 0 where
    pub start : DeliveryStart
    pub stream_id : ℕ
    pub received : ReplicaCursor
    pub applied : ReplicaCursor
    pub buffered : List DataFrame
    pub buffered_bytes : ℕ
    pub commit : Option ReplicaCursor
    pub expected_commit : ReplicaCursor
    pub candidate : Candidate

  pub data Effect : Type 0 where
    acknowledge : ReplicaCursor → Effect
    replica_progress : ReplicaCursor → Effect
    resync : ResyncReason → Effect
    adopt : Replica → ReplicaCursor → Effect
    dispose : Replica → Effect

  -- `waiting` are the calls of `startSnapshot` behind an await, each under the attempt of its closure.
  -- `restore_timer` is the attempt in the closure of the timer.
  pub record Coordinator : Type 0 where
    pub engine_id : List ℕ
    pub max_buffered_tail_bytes : ℕ
    pub max_buffered_tail_frames : ℕ
    pub state : DeliveryState
    pub delivery : Option Delivery
    pub pending_frames : List DataFrame
    pub pending_bytes : ℕ
    pub live_replica : Option Replica
    pub active_cursor : Option ReplicaCursor
    pub generation_fence : Option ℕ
    pub restore_timer : Option ℕ
    pub restore_attempt : ℕ
    pub waiting : List (ℕ × Waiting)
    pub effects : List Effect

  abbrev pub emit : List Effect → Coordinator → Coordinator
  emit effects s = record s { effects = s.effects ++ effects }

  -- `candidate && candidate !== this.#liveReplica` is disposed.
  abbrev pub disposals : Candidate → List Effect
  disposals no_candidate = []
  disposals on_live = []
  disposals (held r) = dispose r ∷ []

  abbrev pub disposals_of : Option Delivery → List Effect
  disposals_of none = []
  disposals_of (some d) = disposals d.candidate

  abbrev pub cancel_restore : Coordinator → Coordinator
  cancel_restore s = record s { restore_attempt = s.restore_attempt + 1; restore_timer = none }

  abbrev pub clear_pending_frames : Coordinator → Coordinator
  clear_pending_frames s = record s { pending_frames = []; pending_bytes = 0 }

  -- `#discardPendingDelivery`.
  abbrev pub discard_pending_delivery : Coordinator → Coordinator
  discard_pending_delivery s = record (emit (disposals_of s.delivery) (cancel_restore s)) {
    delivery = none;
  }

  unfoldable pub request_resync : ResyncReason → Coordinator → Coordinator
  request_resync reason s =
      if stopped s.state
      then s
      else emit (resync reason ∷ [])
          (clear_pending_frames (discard_pending_delivery (record s { state = resyncing })))

  unfoldable pub close : Coordinator → Coordinator
  close s =
      if is_closed s.state
      then s
      else record (clear_pending_frames (discard_pending_delivery s)) { state = closed }

  abbrev pub discard_pending_frames_before : ℕ → Coordinator → Coordinator
  discard_pending_frames_before generation s = record s {
    pending_frames = frames_from generation s.pending_frames;
    pending_bytes = frames_bytes (frames_from generation s.pending_frames);
  }

  abbrev pub is_stale : ℕ → Option Delivery → Bool
  is_stale generation none = false
  is_stale generation (some d) = ltb d.received.delivery_generation generation

  abbrev pub discard_stale : ℕ → Coordinator → Coordinator
  discard_stale generation s =
      if is_stale generation s.delivery then discard_pending_delivery s else s

  -- `#advanceGenerationFence` behind its early return.
  unfoldable pub raise_fence : ℕ → Bool → Coordinator → Coordinator
  raise_fence generation resume_from_resync s =
      let t =
        discard_pending_frames_before generation
          (discard_stale generation (record s { generation_fence = some generation })) in
      record t { state = awaited resume_from_resync t.state }

  unfoldable pub advance_generation_fence : ℕ → Bool → Coordinator → Coordinator
  unfolding raise_fence
  advance_generation_fence generation resume_from_resync s =
      if reached s.generation_fence generation
      then s
      else raise_fence generation resume_from_resync s
