-- ===== src/Protocol/Cursor.antt =====
-- packages/protocol/src/replica-cursor.ts: how a terminal mutation advances a replica's cursor.
pub mod Stream
mod Tests
use zhongduan.Base.{
  ℕ, ◌+◌, Option, none, some, List, [], ◌∷◌, ◌==◌, if◌then◌else◌, length, Result, ok, err, ◌>>=◌,
  ◌>>◌, require,
}
use zhongduan.Protocol.Errors.{ProtocolErrorCode}
use zhongduan.Protocol.Frame.{
  DataFrame, ResizePayload, decode_resize_payload, pty_output, resize_applied,
}

pub record ReplicaCursor : Type 0 where
  pub session_epoch : ℕ
  pub delivery_generation : ℕ
  pub last_event_seq : ℕ
  pub next_pty_offset : ℕ

pub record AppliedMutation : Type 0 where
  pub cursor : ReplicaCursor
  pub resize : Option ResizePayload

-- The two branches that accept a frame, and the throw behind them.
unfoldable pub advance : ReplicaCursor → DataFrame → Result ProtocolErrorCode AppliedMutation
advance cursor frame =
    if frame.kind == pty_output
    then ok (record {
      cursor = record cursor {
        last_event_seq = frame.event_seq;
        next_pty_offset = cursor.next_pty_offset + length frame.payload;
      };
      resize = none;
    })
    else if frame.kind == resize_applied
    then (decode_resize_payload frame.payload >>= λ resize. ok (record {
      cursor = record cursor { last_event_seq = frame.event_seq };
      resize = some resize;
    }))
    else err ProtocolErrorCode.bad_kind

unfoldable pub apply_mutation_cursor :
    ReplicaCursor → DataFrame → Result ProtocolErrorCode AppliedMutation
unfolding advance
apply_mutation_cursor cursor frame = do
  require (frame.session_epoch == cursor.session_epoch) ProtocolErrorCode.bad_epoch
  require (frame.delivery_generation == cursor.delivery_generation) ProtocolErrorCode.bad_generation
  require (frame.event_seq == cursor.last_event_seq + 1) ProtocolErrorCode.event_gap
  require (frame.pty_offset == cursor.next_pty_offset) ProtocolErrorCode.pty_offset_gap
  advance cursor frame
