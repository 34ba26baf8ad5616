-- ===== src/Client/Coordinator/Frames.antt =====
-- session-coordinator.ts: a data frame, from `acceptData` to the replica or to a buffer.
use zhongduan.Base.{
  ℕ, ◌+◌, Bool, true, false, ◌&&◌, ◌||◌, not, Option, none, some, List, [], ◌∷◌, ◌++◌, ltb, ◌==◌,
  if◌then◌else◌, length, Result, ok, err, ◌>>◌, require,
}
use zhongduan.Protocol.Errors.{ProtocolErrorCode}
use zhongduan.Protocol.Frame.{
  DataFrame, ResizePayload, pty_output, replay_commit, reset, delivery_barrier, decode_data_frame,
}
use zhongduan.Protocol.Cursor.{ReplicaCursor, AppliedMutation, apply_mutation_cursor}
use zhongduan.Client.Coordinator.{
  ReplicaEngine, ResyncReason, journal_gap, slow_client, epoch_changed, restore_failed, Thrown,
  protocol, other_error, live, is_resyncing, is_restoring, stopped, frame_bytes, frames_bytes,
  behind, Candidate, no_candidate, on_live, held, Delivery, acknowledge, replica_progress, adopt,
  Coordinator, emit, request_resync, advance_generation_fence,
}

-- The reason for which a frame that throws ends the delivery.
abbrev pub resync_reason : Thrown → ResyncReason
resync_reason (protocol ProtocolErrorCode.bad_epoch) = epoch_changed
resync_reason (protocol _) = journal_gap
resync_reason other_error = restore_failed

module _ (engine : ReplicaEngine) where
  open engine use {Replica, write_pty, resize}

  -- A step that may throw: the state it leaves, and the error.
  abbrev pub Step : Type 0
  Step = Coordinator engine × Option Thrown

  -- The result of `applyFrame` behind the call of the replica.
  abbrev pub applied_to : ReplicaCursor → Replica × Bool → Replica × Result Thrown ReplicaCursor
  applied_to cursor (r, true) = (r, ok cursor)
  applied_to cursor (r, false) = (r, err other_error)

  -- `applyFrame` for a frame that the cursor accepts: the test of the kind, the resize of the
  -- mutation and its cursor.
  abbrev pub play :
      Bool
      → Option ResizePayload
      → ReplicaCursor
      → Replica
      → DataFrame
      → Replica × Result Thrown ReplicaCursor
  play true size cursor replica frame = applied_to cursor (write_pty replica frame.payload)
  play false none cursor replica frame = (replica, ok cursor)
  play false (some dimensions) cursor replica frame = applied_to cursor (resize replica dimensions)

  unfoldable pub apply_frame :
      Replica → ReplicaCursor → DataFrame → Replica × Result Thrown ReplicaCursor
  apply_frame replica cursor frame = elim (apply_mutation_cursor cursor frame) [
    | err e ↦ (replica, err (protocol e))
    | ok a ↦ play (frame.kind == pty_output) a.resize a.cursor replica frame
  ]

  abbrev pub buffered_of : Option (Delivery engine) → ℕ × ℕ
  buffered_of none = (0, 0)
  buffered_of (some d) = (d.buffered_bytes, length d.buffered)

  abbrev pub buffer_budget_exceeded : Coordinator engine → Bool
  buffer_budget_exceeded s =
      ltb s.max_buffered_tail_bytes (s.pending_bytes + (buffered_of s.delivery).0)
      || ltb s.max_buffered_tail_frames (length s.pending_frames + (buffered_of s.delivery).1)

  -- The check that follows each frame which a buffer takes.
  abbrev pub within_budget : Coordinator engine → Coordinator engine → Coordinator engine
  within_budget s t = if buffer_budget_exceeded s then request_resync engine slow_client s else t

  unfoldable pub buffer_pending_frame : DataFrame → Coordinator engine → Coordinator engine
  buffer_pending_frame frame s =
      let t : Coordinator engine = record s {
        pending_frames = s.pending_frames ++ (frame ∷ []);
        pending_bytes = s.pending_bytes + frame_bytes frame;
      } in
      within_budget t t

  abbrev pub matches_received : Delivery engine → DataFrame → Bool
  matches_received d frame =
      frame.session_epoch == d.received.session_epoch
      && frame.event_seq == d.received.last_event_seq
      && frame.pty_offset == d.received.next_pty_offset

  abbrev pub matches_watermark : Delivery engine → DataFrame → Bool
  matches_watermark d frame =
      frame.event_seq == d.expected_commit.last_event_seq
      && frame.pty_offset == d.expected_commit.next_pty_offset

  -- `acceptCommit`: the delivery with its commit.
  unfoldable pub accept_commit :
      Delivery engine → DataFrame → Result ProtocolErrorCode (Delivery engine)
  accept_commit d frame = do
    require (length frame.payload == 0) ProtocolErrorCode.bad_payload
    require (matches_received d frame) ProtocolErrorCode.event_gap
    require (matches_watermark d frame) ProtocolErrorCode.event_gap
    ok (record d { commit = some d.received })

  -- `host.adopt` with what follows it, where the state is "restoring"; the live replica is adopted
  -- again as it is.
  unfoldable pub adopted :
      Bool → Candidate engine → Delivery engine → Coordinator engine → Coordinator engine
  adopted false c d s = s
  adopted true no_candidate d s = s
  adopted true on_live d s = elim s.live_replica [
    | none ↦ s
    | some r ↦
        emit engine (adopt r d.applied ∷ replica_progress d.applied ∷ [])
          (record s { active_cursor = some d.applied })
  ]
  adopted true (held r) d s =
      emit engine (adopt r d.applied ∷ replica_progress d.applied ∷ []) (record s {
        live_replica = some r;
        active_cursor = some d.applied;
        delivery = some (record d { candidate = on_live });
      })

  -- The end of `#tryCommit`.
  abbrev pub finish_commit : Delivery engine → Coordinator engine → Coordinator engine
  finish_commit d s = record (adopted (is_restoring s.state) d.candidate d s) {
    restore_timer = none;
    state = live;
  }

  abbrev pub caught_up : Delivery engine → Bool
  caught_up d =
      d.applied.last_event_seq == d.received.last_event_seq
      && d.applied.next_pty_offset == d.received.next_pty_offset

  abbrev pub has_candidate : Candidate engine → Bool
  has_candidate no_candidate = false
  has_candidate on_live = true
  has_candidate (held r) = true

  -- `#tryCommit`, of the delivery that `s` holds.
  unfoldable pub commit_with :
      Option ReplicaCursor → Delivery engine → Coordinator engine → Coordinator engine
  unfolding adopted
  commit_with none d s = s
  commit_with (some commit) d s =
      if not (has_candidate d.candidate)
      then s
      else if not (caught_up d)
      then request_resync engine journal_gap s
      else finish_commit d s

  unfoldable pub try_commit : Delivery engine → Coordinator engine → Coordinator engine
  unfolding commit_with
  try_commit d s = commit_with d.commit d s

  abbrev pub take_commit :
      Delivery engine → Result ProtocolErrorCode (Delivery engine) → Coordinator engine → Step
  take_commit d (err e) s = (s, some (protocol e))
  take_commit d (ok next) s = (
    try_commit next
        (emit engine (acknowledge next.received ∷ []) (record s { delivery = some next })),
    none,
  )

  -- A throw of the live replica that is no `ProtocolError` leaves it without a cursor.
  abbrev pub cursor_behind : Thrown → Option ReplicaCursor → Option ReplicaCursor
  cursor_behind (protocol e) cursor = cursor
  cursor_behind other_error cursor = none

  unfoldable pub on_live_replica :
      Delivery engine → Replica × Result Thrown ReplicaCursor → Coordinator engine → Step
  on_live_replica d (r, ok cursor) s = (
    emit engine (replica_progress cursor ∷ acknowledge d.received ∷ []) (record s {
      live_replica = some r;
      active_cursor = some cursor;
      delivery = some (record d { applied = cursor });
    }),
    none,
  )
  on_live_replica d (r, err e) s = (
    record s {
      live_replica = some r;
      active_cursor = cursor_behind e s.active_cursor;
      delivery = some d;
    },
    some e,
  )

  unfoldable pub on_held_replica :
      Delivery engine → Replica × Result Thrown ReplicaCursor → Coordinator engine → Step
  on_held_replica d (r, ok cursor) s = (
    emit engine (acknowledge d.received ∷ [])
        (record s { delivery = some (record d { applied = cursor; candidate = held r }) }),
    none,
  )
  on_held_replica d (r, err e) s =
      (record s { delivery = some (record d { candidate = held r }) }, some e)

  unfoldable pub into_buffer : Delivery engine → DataFrame → Coordinator engine → Step
  into_buffer d frame s =
      let t : Coordinator engine = record s {
        delivery = some (record d {
          buffered = d.buffered ++ (frame ∷ []);
          buffered_bytes = d.buffered_bytes + frame_bytes frame;
        });
      } in
      (within_budget t (emit engine (acknowledge d.received ∷ []) t), none)

  -- The replica that takes the frame. A candidate that is the live replica is none where that is.
  unfoldable pub into_live :
      Option Replica → Delivery engine → DataFrame → Coordinator engine → Step
  unfolding apply_frame into_buffer on_live_replica
  into_live none d frame s = into_buffer d frame s
  into_live (some r) d frame s = on_live_replica d (apply_frame r d.applied frame) s

  unfoldable pub into_candidate :
      Candidate engine → Delivery engine → DataFrame → Coordinator engine → Step
  unfolding into_live on_held_replica
  into_candidate no_candidate d frame s = into_buffer d frame s
  into_candidate on_live d frame s = into_live s.live_replica d frame s
  into_candidate (held r) d frame s = on_held_replica d (apply_frame r d.applied frame) s

  -- A mutation, with the result of the received cursor.
  unfoldable pub receive :
      Delivery engine
      → DataFrame
      → Result ProtocolErrorCode AppliedMutation
      → Coordinator engine
      → Step
  unfolding into_candidate
  receive d frame (err e) s = (s, some (protocol e))
  receive d frame (ok a) s = into_candidate d.candidate (record d { received = a.cursor }) frame s

  unfoldable pub to_delivery : Option (Delivery engine) → DataFrame → Coordinator engine → Step
  unfolding receive accept_commit try_commit buffer_pending_frame
  to_delivery none frame s = (buffer_pending_frame frame s, none)
  to_delivery (some d) frame s =
      if ltb frame.delivery_generation d.received.delivery_generation
        || not (frame.stream_id == d.stream_id)
      then (s, none)
      else if frame.kind == replay_commit
      then take_commit d (accept_commit d frame) s
      else receive d frame (apply_mutation_cursor d.received frame) s

  -- `#acceptFrame` behind the fence.
  unfoldable pub admit : DataFrame → Coordinator engine → Step
  unfolding to_delivery
  admit frame s =
      if frame.kind == delivery_barrier
      then (s, some (protocol ProtocolErrorCode.bad_kind))
      else if frame.kind == reset
      then (request_resync engine slow_client s, none)
      else to_delivery s.delivery frame s

  unfoldable pub accept_frame : DataFrame → Coordinator engine → Step
  unfolding admit
  accept_frame frame s =
      if behind s.generation_fence frame.delivery_generation
      then (s, none)
      else admit frame (advance_generation_fence engine frame.delivery_generation false s)

  -- The `catch` of `acceptData` and `#drainPendingFrames`.
  abbrev pub caught : Step → Coordinator engine
  caught (s, none) = s
  caught (s, some e) = request_resync engine (resync_reason e) s

  abbrev pub accept_decoded :
      Result ProtocolErrorCode DataFrame → Coordinator engine → Coordinator engine
  accept_decoded (err e) s = request_resync engine (resync_reason (protocol e)) s
  accept_decoded (ok frame) s = caught (accept_frame frame s)

  unfoldable pub accept_data : List ℕ → Coordinator engine → Coordinator engine
  unfolding accept_frame
  accept_data encoded s =
      if stopped s.state then s else accept_decoded (decode_data_frame encoded) s

  -- The first loop of `#drainPendingFrames`: the frames of the delivery, and those of a later one.
  abbrev pub is_ready : Delivery engine → DataFrame → Bool
  is_ready d frame =
      frame.delivery_generation == d.received.delivery_generation && frame.stream_id == d.stream_id

  abbrev pub ready_frames : Delivery engine → List DataFrame → List DataFrame
  ready_frames d [] = []
  ready_frames d (frame ∷ frames) =
      if is_ready d frame then frame ∷ ready_frames d frames else ready_frames d frames

  abbrev pub retained_frames : Delivery engine → List DataFrame → List DataFrame
  retained_frames d [] = []
  retained_frames d (frame ∷ frames) =
      if not (is_ready d frame) && ltb d.received.delivery_generation frame.delivery_generation
      then frame ∷ retained_frames d frames
      else retained_frames d frames

  abbrev pub is_gone : Option (Delivery engine) → Bool
  is_gone none = true
  is_gone (some d) = false

  -- The second loop. The coordinator installs no other delivery in it, so `delivery !== this.#delivery`
  -- is that there is none. The loop ends at the first frame that throws.
  abbrev pub next_ready : Step → (Coordinator engine → Coordinator engine) → Coordinator engine
  next_ready (s, none) rest = rest s
  next_ready (s, some e) rest = request_resync engine (resync_reason e) s

  unfoldable pub accept_ready : List DataFrame → Coordinator engine → Coordinator engine
  unfolding accept_frame
  accept_ready [] s = s
  accept_ready (frame ∷ frames) s =
      if is_gone s.delivery || is_resyncing s.state
      then s
      else next_ready (accept_frame frame s) (accept_ready frames)

  unfoldable pub drain_pending_frames : Delivery engine → Coordinator engine → Coordinator engine
  unfolding accept_ready
  drain_pending_frames d s = accept_ready (ready_frames d s.pending_frames) (record s {
    pending_frames = retained_frames d s.pending_frames;
    pending_bytes = frames_bytes (retained_frames d s.pending_frames);
  })
