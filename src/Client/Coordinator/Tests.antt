-- ===== src/Client/Coordinator/Tests.antt =====
-- Runs of the coordinator's model with a replica that is the list of the bytes it was given, and its
-- properties at concrete schedules.
use zhongduan.Base.{
  ℕ, ◌≡◌, refl, ap, true, false, Option, none, some, List, [], ◌∷◌, ◌++◌, length, ok, map_get,
  same_text,
}
use zhongduan.Protocol.Frame.{DataFrame, layout, decode_data_frame, decode_resize_payload}
use zhongduan.Protocol.Cursor.{ReplicaCursor, advance, apply_mutation_cursor}
use zhongduan.Client.Deliveries.{SnapshotManifest}
use zhongduan.Client.Coordinator.{
  ReplicaEngine, for_host, default_max_buffered_tail_bytes, default_max_buffered_tail_frames,
  is_closed, live, restoring, Coordinator, request_resync, raise_fence, advance_generation_fence,
  Waiting,
}
use zhongduan.Client.Coordinator.Frames.{
  apply_frame, buffer_pending_frame, accept_commit, adopted, commit_with, try_commit,
  on_live_replica, on_held_replica, into_buffer, into_live, into_candidate, receive, to_delivery,
  admit, accept_frame, accept_data, accept_ready, drain_pending_frames,
}
use zhongduan.Client.Coordinator.Calls.{
  new_coordinator, initial, accept_delivery_start, start_load, install_snapshot, start_snapshot,
  loaded, flush_frames, commit_flushed, give_candidate, restored, Call, snapshot_call, data_call,
  loaded_call, restored_call, close_call, run_call, run_calls,
}
use zhongduan.Client.Coordinator.Schedules.{Supplied}
use zhongduan.Client.Coordinator.Showing.{Showing, run_calls-Showing}
use zhongduan.Client.Coordinator.Completion.{Committed, ClosedWith, close_final}

abbrev bytes_engine : ReplicaEngine
bytes_engine = record {
  Replica = List ℕ;
  engine_of = λ r. 7 ∷ [];
  write_pty = λ r bytes. (r ++ bytes, true);
  resize = λ r size. (r, true);
}

-- A replica stands at a cursor where it has had all the bytes.
abbrev HasBytes : List ℕ → ReplicaCursor → Type 0
HasBytes r c = length r ≡ c.next_pty_offset

abbrev manifest : SnapshotManifest
manifest = record {
  snapshot_id = 1 ∷ [];
  engine_id = 7 ∷ [];
  session_epoch = 3;
  delivery_generation = 2;
  stream_id = 5;
  cut_event_seq = 10;
  next_pty_offset = 2;
  commit_event_seq = 11;
  commit_pty_offset = 4;
  compression = [];
  compressed_length = 1;
  uncompressed_length = 1;
  sha256 = [];
  download_path = [];
  restore_through = [];
}

abbrev frame_of : ℕ → ℕ → ℕ → List ℕ → DataFrame
frame_of kind seq offset payload = record {
  kind = kind;
  flags = 0;
  session_epoch = 3;
  delivery_generation = 2;
  event_seq = seq;
  pty_offset = offset;
  stream_id = 5;
  payload = payload;
}

abbrev before_restore : List (Call bytes_engine)
before_restore =
    snapshot_call manifest
    ∷ data_call (layout (frame_of 1 11 2 (65 ∷ 66 ∷ [])))
    ∷ data_call (layout (frame_of 3 11 4 []))
    ∷ loaded_call 2
    ∷ []

abbrev schedule : List (Call bytes_engine)
schedule =
    before_restore
    ++ (restored_call 2 (63 ∷ 64 ∷ []) ∷ data_call (layout (frame_of 1 12 4 (67 ∷ []))) ∷ [])

abbrev started : Coordinator bytes_engine
started =
    initial bytes_engine (7 ∷ []) default_max_buffered_tail_bytes default_max_buffered_tail_frames
      none none

abbrev at : ℕ → ℕ → ReplicaCursor
at seq offset = record {
  session_epoch = 3;
  delivery_generation = 2;
  last_event_seq = seq;
  next_pty_offset = offset;
}

schedule_run :
    ((run_calls bytes_engine schedule started).state ≡ live)
    × ((run_calls bytes_engine schedule started).active_cursor ≡ some (at 12 5))
    × ((run_calls bytes_engine schedule started).live_replica ≡ some (63 ∷ 64 ∷ 65 ∷ 66 ∷ 67 ∷ []))
unfolding run_calls run_call start_snapshot accept_delivery_start install_snapshot start_load
    drain_pending_frames accept_ready accept_data accept_frame admit to_delivery receive
    into_candidate into_live into_buffer on_live_replica on_held_replica try_commit commit_with
    adopted accept_commit buffer_pending_frame apply_frame apply_mutation_cursor advance
    decode_resize_payload decode_data_frame advance_generation_fence raise_fence request_resync
    loaded restored give_candidate commit_flushed flush_frames
schedule_run = (refl, refl, refl)

abbrev restoring_now : Coordinator bytes_engine
restoring_now = run_calls bytes_engine before_restore started

of_manifest :
    (m : SnapshotManifest)
    → ◌≡◌ {A = Option Waiting} (some (for_host manifest)) (some (for_host m))
    → 2 ≡ m.next_pty_offset
of_manifest m e = ap (λ x. x.next_pty_offset) (same e)
  where
    same : ◌≡◌ {A = Option Waiting} (some (for_host manifest)) (some (for_host m)) → manifest ≡ m
    same e = cc

schedule-Supplied : Supplied bytes_engine HasBytes schedule started
unfolding run_calls run_call start_snapshot accept_delivery_start install_snapshot start_load
    drain_pending_frames accept_ready accept_data accept_frame admit to_delivery receive
    into_candidate into_live into_buffer on_live_replica on_held_replica try_commit commit_with
    adopted accept_commit buffer_pending_frame apply_frame apply_mutation_cursor advance
    decode_resize_payload decode_data_frame advance_generation_fence raise_fence request_resync
    loaded restored give_candidate commit_flushed flush_frames
schedule-Supplied = (tt, (tt, (tt, (tt, (of_manifest, (tt, tt))))))

created :
    new_coordinator bytes_engine
      (7 ∷ [])
      default_max_buffered_tail_bytes
      default_max_buffered_tail_frames
      none
      none
    ≡ ok started
unfolding new_coordinator
created = refl

run_calls-Showing_example : Showing bytes_engine HasBytes (run_calls bytes_engine schedule started)
run_calls-Showing_example =
    run_calls-Showing bytes_engine HasBytes (7 ∷ []) default_max_buffered_tail_bytes
      default_max_buffered_tail_frames none none started schedule created tt schedule-Supplied

restoring_now_facts :
    (restoring_now.state ≡ restoring)
    × Committed bytes_engine restoring_now.delivery (at 11 4)
    × (map_get restoring_now.restore_attempt restoring_now.waiting ≡ some (for_host manifest))
    × (is_closed restoring_now.state ≡ false)
    × (same_text (7 ∷ []) restoring_now.engine_id ≡ true)
unfolding run_calls run_call start_snapshot accept_delivery_start install_snapshot start_load
    drain_pending_frames accept_ready accept_data accept_frame admit to_delivery receive
    into_candidate into_live into_buffer on_live_replica on_held_replica try_commit commit_with
    adopted accept_commit buffer_pending_frame apply_frame apply_mutation_cursor advance
    decode_resize_payload decode_data_frame advance_generation_fence raise_fence request_resync
    loaded restored give_candidate commit_flushed flush_frames
restoring_now_facts = (refl, (refl, refl, (at 11 4, refl)), refl, refl, refl)

close_final_example :
    ClosedWith bytes_engine restoring_now.live_replica restoring_now.active_cursor
      (run_calls bytes_engine (close_call ∷ schedule) restoring_now)
close_final_example = close_final bytes_engine schedule restoring_now restoring_now_facts.3
