-- ===== src/Client/Coordinator/Calls.antt =====
-- session-coordinator.ts: the constructor, the starts of a delivery, the steps of a restore behind
-- its awaits, and a schedule of calls.
use zhongduan.Base.{
  ℕ, ◌+◌, Bool, true, false, ◌&&◌, ◌||◌, not, Option, none, some, List, [], ◌∷◌, ltb, leb, ◌==◌,
  if◌then◌else◌, Result, ok, err, ◌>>◌, require, same_text, map_get, map_set, map_delete,
}
use zhongduan.Protocol.Errors.{max_u64}
use zhongduan.Protocol.Frame.{DataFrame}
use zhongduan.Protocol.Cursor.{ReplicaCursor}
use zhongduan.Client.Deliveries.{
  SnapshotManifest, WarmReplayStart, DeliveryStart, snapshot, warm_replay_cursor,
  warm_replay_commit, manifest_cursor, manifest_commit, warm_identity,
  represents_same_terminal_state, same_delivery_start, delivery_start_generation, commit_regresses,
}
use zhongduan.Client.Coordinator.{
  ReplicaEngine, Waiting, for_transport, for_host, ResyncReason, journal_gap, slow_client,
  engine_mismatch, restore_failed, Thrown, protocol, other_error, idle, replaying, restoring,
  is_closed, is_resyncing, is_restoring, behind, Candidate, no_candidate, on_live, held, Delivery,
  dispose, Coordinator, emit, discard_pending_delivery, request_resync, close,
  advance_generation_fence,
}
use zhongduan.Client.Coordinator.Frames.{
  apply_frame, try_commit, accept_data, drain_pending_frames, is_gone,
}

pub data CallError : Type 0 where
  coordinator_closed generation_out_of_range cursor_without_replica : CallError

module _ (engine : ReplicaEngine) where
  open engine use {Replica, engine_of}

  abbrev pub fence_of : Option ReplicaCursor → Option ℕ
  fence_of none = none
  fence_of (some cursor) = some cursor.delivery_generation

  abbrev pub initial : List ℕ → ℕ → ℕ → Option Replica → Option ReplicaCursor → Coordinator engine
  initial engine_id max_bytes max_frames active cursor = record {
    engine_id = engine_id;
    max_buffered_tail_bytes = max_bytes;
    max_buffered_tail_frames = max_frames;
    state = idle;
    delivery = none;
    pending_frames = [];
    pending_bytes = 0;
    live_replica = active;
    active_cursor = cursor;
    generation_fence = fence_of cursor;
    restore_timer = none;
    restore_attempt = 0;
    waiting = [];
    effects = [];
  }

  -- The constructor.
  unfoldable pub new_coordinator :
      List ℕ → ℕ → ℕ → Option Replica → Option ReplicaCursor → Result CallError (Coordinator engine)
  new_coordinator engine_id max_bytes max_frames none (some cursor) = err cursor_without_replica
  new_coordinator engine_id max_bytes max_frames none none =
      ok (initial engine_id max_bytes max_frames none none)
  new_coordinator engine_id max_bytes max_frames (some r) cursor =
      ok (initial engine_id max_bytes max_frames (some r) cursor)

  abbrev pub Accepted : Type 0
  Accepted = Coordinator engine × Bool

  -- `activeCursor !== null && generation < activeCursor.deliveryGeneration`, at the end of
  -- `#acceptDeliveryStart`.
  abbrev pub against_active : ℕ → Coordinator engine → Accepted
  against_active generation s = (s, not (behind (fence_of s.active_cursor) generation))

  abbrev pub against_current :
      DeliveryStart → Option (Delivery engine) → Coordinator engine → Accepted
  against_current start none s = against_active (delivery_start_generation start) s
  against_current start (some d) s =
      let generation = delivery_start_generation start in
      let current = delivery_start_generation d.start in
      if ltb generation current
      then (s, false)
      else if generation == current
      then (if same_delivery_start d.start start
          then (s, false)
          else (request_resync engine journal_gap s, false))
      else against_active generation s

  unfoldable pub accept_delivery_start : DeliveryStart → Coordinator engine → Accepted
  accept_delivery_start start s =
      if is_resyncing s.state
      then (s, false)
      else if behind s.generation_fence (delivery_start_generation start)
      then (s, false)
      else against_current start s.delivery s

  unfoldable pub fence_delivery_generation :
      ℕ → Coordinator engine → Result CallError (Coordinator engine)
  fence_delivery_generation generation s = do
    require (not (is_closed s.state)) coordinator_closed
    require (leb generation max_u64) generation_out_of_range
    ok (advance_generation_fence engine generation true s)

  abbrev pub runs_engine : List ℕ → Option Replica → Bool
  runs_engine engine_id none = false
  runs_engine engine_id (some r) = same_text (engine_of r) engine_id

  abbrev pub stands_at : ReplicaCursor → Option ReplicaCursor → Bool
  stands_at cursor none = false
  stands_at cursor (some active) = represents_same_terminal_state active cursor

  abbrev pub new_delivery :
      DeliveryStart → ℕ → ReplicaCursor → ReplicaCursor → Candidate engine → Delivery engine
  new_delivery start stream_id cursor expected_commit candidate = record {
    start = start;
    stream_id = stream_id;
    received = cursor;
    applied = cursor;
    buffered = [];
    buffered_bytes = 0;
    commit = none;
    expected_commit = expected_commit;
    candidate = candidate;
  }

  abbrev pub warm_delivery : WarmReplayStart → Delivery engine
  warm_delivery start =
      new_delivery (warm_identity start) start.stream_id (warm_replay_cursor start)
        (warm_replay_commit start) on_live

  unfoldable pub install_warm : WarmReplayStart → Coordinator engine → Coordinator engine
  install_warm start s =
      if not (runs_engine s.engine_id s.live_replica)
      then request_resync engine engine_mismatch s
      else if commit_regresses (warm_replay_commit start) (warm_replay_cursor start)
          || not (stands_at (warm_replay_cursor start) s.active_cursor)
      then request_resync engine journal_gap s
      else drain_pending_frames engine (warm_delivery start)
          (record (discard_pending_delivery engine s) {
            delivery = some (warm_delivery start);
            active_cursor = some (warm_replay_cursor start);
            state = replaying;
          })

  abbrev pub begin_warm : WarmReplayStart → Accepted → Coordinator engine
  begin_warm start (s, false) = s
  begin_warm start (s, true) =
      install_warm start (advance_generation_fence engine start.delivery_generation false s)

  unfoldable pub start_warm_replay :
      WarmReplayStart → Coordinator engine → Result CallError (Coordinator engine)
  unfolding accept_delivery_start install_warm
  start_warm_replay start s = do
    require (not (is_closed s.state)) coordinator_closed
    ok (begin_warm start (accept_delivery_start (warm_identity start) s))

  abbrev pub snapshot_delivery : SnapshotManifest → Delivery engine
  snapshot_delivery manifest =
      new_delivery (snapshot manifest) manifest.stream_id (manifest_cursor manifest)
        (manifest_commit manifest) no_candidate

  -- The call of the transport: the timer runs, and the rest waits with its attempt.
  unfoldable pub start_load : SnapshotManifest → ℕ → Coordinator engine → Coordinator engine
  start_load manifest attempt s =
      if is_gone engine s.delivery || not (is_restoring s.state) then s else record s {
        restore_timer = some attempt;
        waiting = (attempt, for_transport manifest) ∷ s.waiting;
      }

  unfoldable pub install_snapshot : SnapshotManifest → Coordinator engine → Coordinator engine
  unfolding start_load
  install_snapshot manifest s =
      if not (same_text manifest.engine_id s.engine_id)
      then request_resync engine engine_mismatch s
      else let discarded = discard_pending_delivery engine s in
        let attempt = discarded.restore_attempt + 1 in
        let t : Coordinator engine = record discarded { restore_attempt = attempt } in
        if commit_regresses (manifest_commit manifest) (manifest_cursor manifest)
        then request_resync engine journal_gap t
        else start_load manifest attempt (
            drain_pending_frames engine (snapshot_delivery manifest)
              (record t { delivery = some (snapshot_delivery manifest); state = restoring }))

  abbrev pub begin_snapshot : SnapshotManifest → Accepted → Coordinator engine
  begin_snapshot manifest (s, false) = s
  begin_snapshot manifest (s, true) =
      install_snapshot manifest
        (advance_generation_fence engine manifest.delivery_generation false s)

  -- `startSnapshot` up to its first await.
  unfoldable pub start_snapshot :
      SnapshotManifest → Coordinator engine → Result CallError (Coordinator engine)
  unfolding accept_delivery_start install_snapshot
  start_snapshot manifest s = do
    require (not (is_closed s.state)) coordinator_closed
    ok (begin_snapshot manifest (accept_delivery_start (snapshot manifest) s))

  -- The transport has answered: the host is asked, unless the attempt is over.
  unfoldable pub loaded : ℕ → Option Waiting → Coordinator engine → Coordinator engine
  loaded attempt none s = s
  loaded attempt (some (for_host manifest)) s = s
  loaded attempt (some (for_transport manifest)) s =
      if attempt == s.restore_attempt
      then record s { waiting = map_set attempt (for_host manifest) s.waiting }
      else record s { waiting = map_delete attempt s.waiting }

  -- `#flushBuffered`: the replica it leaves, with the applied cursor or the error that it threw. A
  -- throw ends the delivery, and its applied cursor with it.
  pub data Flushed : Type 0 where
    flushed_to : Replica → ReplicaCursor → Flushed
    flush_failed : Replica → Thrown → Flushed

  abbrev pub flush_next :
      Replica × Result Thrown ReplicaCursor → (Replica → ReplicaCursor → Flushed) → Flushed
  flush_next (r, ok cursor) more = more r cursor
  flush_next (r, err e) more = flush_failed r e

  unfoldable pub flush_frames : List DataFrame → Replica → ReplicaCursor → Flushed
  flush_frames [] r cursor = flushed_to r cursor
  flush_frames (frame ∷ frames) r cursor =
      flush_next (apply_frame engine r cursor frame) (flush_frames frames)

  -- The `catch` of `startSnapshot`.
  abbrev pub restore_reason : Thrown → ResyncReason
  restore_reason (protocol e) = journal_gap
  restore_reason other_error = restore_failed

  abbrev pub with_candidate : Replica → Delivery engine → Delivery engine
  with_candidate r d = record d { candidate = held r }

  unfoldable pub commit_flushed :
      Delivery engine → Flushed → Coordinator engine → Coordinator engine
  commit_flushed d (flush_failed r e) s =
      request_resync engine (restore_reason e) (record s { delivery = some (with_candidate r d) })
  commit_flushed d (flushed_to r cursor) s =
      let next : Delivery engine = record d {
        applied = cursor;
        buffered = [];
        buffered_bytes = 0;
        candidate = held r;
      } in
      try_commit engine next (record s { delivery = some next })

  unfoldable pub give_candidate :
      Replica → Option (Delivery engine) → Coordinator engine → Coordinator engine
  unfolding flush_frames commit_flushed
  give_candidate r none s = emit engine (dispose r ∷ []) s
  give_candidate r (some d) s = commit_flushed d (flush_frames d.buffered r d.applied) s

  abbrev pub settle_candidate : ℕ → Replica → Coordinator engine → Coordinator engine
  settle_candidate attempt r s =
      if not (attempt == s.restore_attempt)
      then emit engine (dispose r ∷ []) s
      else if not (same_text (engine_of r) s.engine_id)
      then request_resync engine engine_mismatch (emit engine (dispose r ∷ []) s)
      else give_candidate r s.delivery s

  -- The host has restored a replica for the call that waits with the attempt.
  unfoldable pub restored : ℕ → Replica → Option Waiting → Coordinator engine → Coordinator engine
  unfolding give_candidate
  restored attempt r none s = s
  restored attempt r (some (for_transport manifest)) s = s
  restored attempt r (some (for_host manifest)) s =
      settle_candidate attempt r (record s { waiting = map_delete attempt s.waiting })

  -- The transport or the host has thrown.
  unfoldable pub restore_threw :
      ℕ → Thrown → Option Waiting → Coordinator engine → Coordinator engine
  restore_threw attempt e none s = s
  restore_threw attempt e (some w) s =
      let t : Coordinator engine = record s { waiting = map_delete attempt s.waiting } in
      if not (attempt == s.restore_attempt) then t else request_resync engine (restore_reason e) t

  -- The callback of the timer.
  unfoldable pub deadline_passed : Option ℕ → Coordinator engine → Coordinator engine
  deadline_passed none s = s
  deadline_passed (some attempt) s =
      if s.restore_attempt == attempt && is_restoring s.state
      then request_resync engine slow_client s
      else s

  -- The calls of the class, and the events that it waits for.
  pub data Call : Type 0 where
    fence_call : ℕ → Call
    warm_call : WarmReplayStart → Call
    snapshot_call : SnapshotManifest → Call
    data_call : List ℕ → Call
    loaded_call : ℕ → Call
    restored_call : ℕ → Replica → Call
    threw_call : ℕ → Thrown → Call
    deadline_call : Call
    close_call : Call

  -- A call that throws changes nothing.
  abbrev pub or_same :
      Result CallError (Coordinator engine) → Coordinator engine → Coordinator engine
  or_same (ok t) s = t
  or_same (err e) s = s

  unfoldable pub run_call : Call → Coordinator engine → Coordinator engine
  unfolding fence_delivery_generation start_warm_replay start_snapshot loaded restored restore_threw
      deadline_passed
  run_call (fence_call generation) s = or_same (fence_delivery_generation generation s) s
  run_call (warm_call start) s = or_same (start_warm_replay start s) s
  run_call (snapshot_call manifest) s = or_same (start_snapshot manifest s) s
  run_call (data_call encoded) s = accept_data engine encoded s
  run_call (loaded_call attempt) s = loaded attempt (map_get attempt s.waiting) s
  run_call (restored_call attempt r) s = restored attempt r (map_get attempt s.waiting) s
  run_call (threw_call attempt e) s = restore_threw attempt e (map_get attempt s.waiting) s
  run_call deadline_call s = deadline_passed s.restore_timer s
  run_call close_call s = close engine s

  unfoldable pub run_calls : List Call → Coordinator engine → Coordinator engine
  unfolding run_call
  run_calls [] s = s
  run_calls (call ∷ calls) s = run_calls calls (run_call call s)
