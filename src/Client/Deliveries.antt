-- ===== src/Client/Deliveries.antt =====
-- packages/session-client/src/session-coordinator.ts and types.ts: how a delivery starts, and the
-- comparisons of starts. A text of a frame is the list of its code units, and a number that travels
-- as a decimal text is the number.
use zhongduan.Base.{ℕ, Bool, false, ◌&&◌, ◌||◌, List, ltb, ◌==◌, same_text}
use zhongduan.Protocol.Cursor.{ReplicaCursor}

pub record SnapshotManifest : Type 0 where
  pub snapshot_id : List ℕ
  pub engine_id : List ℕ
  pub session_epoch : ℕ
  pub delivery_generation : ℕ
  pub stream_id : ℕ
  pub cut_event_seq : ℕ
  pub next_pty_offset : ℕ
  pub commit_event_seq : ℕ
  pub commit_pty_offset : ℕ
  pub compression : List ℕ
  pub compressed_length : ℕ
  pub uncompressed_length : ℕ
  pub sha256 : List ℕ
  pub download_path : List ℕ
  pub restore_through : List ℕ

pub record WarmReplayStart : Type 0 where
  pub session_epoch : ℕ
  pub delivery_generation : ℕ
  pub stream_id : ℕ
  pub base_event_seq : ℕ
  pub base_pty_offset : ℕ
  pub commit_event_seq : ℕ
  pub commit_pty_offset : ℕ

pub record WarmStart : Type 0 where
  pub stream_id : ℕ
  pub cursor : ReplicaCursor
  pub expected_commit : ReplicaCursor

pub data DeliveryStart : Type 0 where
  warm : WarmStart → DeliveryStart
  snapshot : SnapshotManifest → DeliveryStart

abbrev pub warm_replay_cursor : WarmReplayStart → ReplicaCursor
warm_replay_cursor start = record {
  session_epoch = start.session_epoch;
  delivery_generation = start.delivery_generation;
  last_event_seq = start.base_event_seq;
  next_pty_offset = start.base_pty_offset;
}

abbrev pub warm_replay_commit : WarmReplayStart → ReplicaCursor
warm_replay_commit start = record {
  session_epoch = start.session_epoch;
  delivery_generation = start.delivery_generation;
  last_event_seq = start.commit_event_seq;
  next_pty_offset = start.commit_pty_offset;
}

abbrev pub manifest_cursor : SnapshotManifest → ReplicaCursor
manifest_cursor manifest = record {
  session_epoch = manifest.session_epoch;
  delivery_generation = manifest.delivery_generation;
  last_event_seq = manifest.cut_event_seq;
  next_pty_offset = manifest.next_pty_offset;
}

-- `expectedCommit` of `startSnapshot`.
abbrev pub manifest_commit : SnapshotManifest → ReplicaCursor
manifest_commit manifest = record {
  session_epoch = manifest.session_epoch;
  delivery_generation = manifest.delivery_generation;
  last_event_seq = manifest.commit_event_seq;
  next_pty_offset = manifest.commit_pty_offset;
}

-- `identity` of `startWarmReplay`.
abbrev pub warm_identity : WarmReplayStart → DeliveryStart
warm_identity start = warm (record {
  stream_id = start.stream_id;
  cursor = warm_replay_cursor start;
  expected_commit = warm_replay_commit start;
})

unfoldable pub represents_same_terminal_state : ReplicaCursor → ReplicaCursor → Bool
represents_same_terminal_state left right =
    left.session_epoch == right.session_epoch
    && left.last_event_seq == right.last_event_seq
    && left.next_pty_offset == right.next_pty_offset

pub same_cursor : ReplicaCursor → ReplicaCursor → Bool
same_cursor left right =
    left.session_epoch == right.session_epoch
    && left.delivery_generation == right.delivery_generation
    && left.last_event_seq == right.last_event_seq
    && left.next_pty_offset == right.next_pty_offset

pub same_snapshot_manifest : SnapshotManifest → SnapshotManifest → Bool
same_snapshot_manifest left right =
    same_text left.snapshot_id right.snapshot_id
    && same_text left.engine_id right.engine_id
    && left.session_epoch == right.session_epoch
    && left.delivery_generation == right.delivery_generation
    && left.cut_event_seq == right.cut_event_seq
    && left.next_pty_offset == right.next_pty_offset
    && left.commit_event_seq == right.commit_event_seq
    && left.commit_pty_offset == right.commit_pty_offset
    && same_text left.compression right.compression
    && left.compressed_length == right.compressed_length
    && left.uncompressed_length == right.uncompressed_length
    && same_text left.sha256 right.sha256
    && same_text left.download_path right.download_path
    && same_text left.restore_through right.restore_through

abbrev pub start_stream : DeliveryStart → ℕ
start_stream (warm w) = w.stream_id
start_stream (snapshot m) = m.stream_id

-- The rest of `sameDeliveryStart` behind the comparison of the streams.
same_contents : DeliveryStart → DeliveryStart → Bool
unfolding same_cursor same_snapshot_manifest
same_contents (warm v) (warm w) =
    same_cursor v.cursor w.cursor && same_cursor v.expected_commit w.expected_commit
same_contents (warm v) (snapshot n) = false
same_contents (snapshot m) (warm w) = false
same_contents (snapshot m) (snapshot n) = same_snapshot_manifest m n

unfoldable pub same_delivery_start : DeliveryStart → DeliveryStart → Bool
unfolding same_contents
same_delivery_start left right = start_stream left == start_stream right && same_contents left right

abbrev pub delivery_start_generation : DeliveryStart → ℕ
delivery_start_generation (warm w) = w.cursor.delivery_generation
delivery_start_generation (snapshot m) = m.delivery_generation

-- The watermark that the delivery must reach lies before its start.
abbrev pub commit_regresses : ReplicaCursor → ReplicaCursor → Bool
commit_regresses expected_commit cursor =
    ltb expected_commit.last_event_seq cursor.last_event_seq
    || ltb expected_commit.next_pty_offset cursor.next_pty_offset
