-- ===== src/Relay/Delivery/Tests.antt =====
-- Runs of the delivery's model, and the properties at concrete batches.
use zhongduan.Base.{ℕ, ◌≡◌, refl, some, List, [], ◌∷◌, ok, arith}
use zhongduan.Protocol.Frame.{
  DataFrame, pty_output, resize_applied, replay_commit, decode_resize_payload,
}
use zhongduan.Protocol.Cursor.Stream.{apply_all}
use zhongduan.Protocol.Credit.{DeliveryCreditCursor, delivery_outstanding_bytes}
use zhongduan.Relay.Delivery.{
  DeliveryCursorState, catching_up, synced, credit_exceeded, sequence_error, advanced,
  advance_delivery_cursor, advance_delivery_cursor_batch, DeliveryCursorResult,
}
use zhongduan.Relay.Delivery.Cursor.{Accepted, advance-Accepted}
use zhongduan.Relay.Delivery.Rounds.{advance_total}
use zhongduan.Relay.Delivery.Single.{one_by_one, batch-one_by_one}
use zhongduan.Relay.Delivery.Replica.{mutations, at, advance-apply_all}

abbrev frame : ℕ → ℕ → ℕ → List ℕ → DataFrame
frame kind seq offset payload = record {
  kind = kind;
  flags = 0;
  session_epoch = 7;
  delivery_generation = 2;
  event_seq = seq;
  pty_offset = offset;
  stream_id = 9;
  payload = payload;
}

abbrev batch : List DataFrame
batch =
    frame pty_output 6 10 (104 ∷ 105 ∷ [])
    ∷ frame resize_applied 7 12
        (80 ∷ 0 ∷ 0 ∷ 0 ∷ 24 ∷ 0 ∷ 0 ∷ 0 ∷ 0 ∷ 0 ∷ 0 ∷ 0 ∷ 0 ∷ 0 ∷ 0 ∷ 0 ∷ [])
    ∷ frame replay_commit 7 12 []
    ∷ []

abbrev attached_at : ℕ → ℕ → DeliveryCursorState
attached_at event offset = record {
  acked_event_seq = some 4;
  acked_pty_offset = some 10;
  data_state = some catching_up;
  first_event_seq = some 4;
  first_pty_offset = some 10;
  sent_event_seq = some event;
  sent_pty_offset = some offset;
}

abbrev behind : DeliveryCursorState
behind = record {
  acked_event_seq = some 4;
  acked_pty_offset = some 10;
  data_state = some synced;
  first_event_seq = some 4;
  first_pty_offset = some 10;
  sent_event_seq = some 7;
  sent_pty_offset = some 12;
}

batch_run : advance_delivery_cursor_batch (attached_at 5 10) batch ≡ ok (advanced behind 194)
unfolding advance_delivery_cursor_batch delivery_outstanding_bytes
batch_run = refl

gap_run : advance_delivery_cursor (attached_at 6 10) (frame pty_output 6 10 []) ≡ ok sequence_error
unfolding advance_delivery_cursor
gap_run = refl

credit_run :
    advance_delivery_cursor (attached_at 9000 10) (frame pty_output 9001 10 []) ≡ ok credit_exceeded
unfolding advance_delivery_cursor delivery_outstanding_bytes
credit_run = refl

advance-Accepted_example : Accepted (attached_at 5 10) batch behind 194
advance-Accepted_example = advance-Accepted (attached_at 5 10) batch behind 194 batch_run

advance_total_example :
    (r : DeliveryCursorResult) × (advance_delivery_cursor_batch (attached_at 9000 10) batch ≡ ok r)
advance_total_example = advance_total (attached_at 9000 10) batch

advance-apply_all_example :
    (c : DeliveryCreditCursor) × (apply_all
        (at 7 2 (record { event_seq = 5; next_pty_offset = 10 }))
        (mutations batch)
      ≡ ok (at 7 2 c))
    × (behind.sent_event_seq ≡ some c.event_seq)
    × (behind.sent_pty_offset ≡ some c.next_pty_offset)
unfolding decode_resize_payload
advance-apply_all_example =
    advance-apply_all 7 2 (attached_at 5 10) batch behind 194
      (record { event_seq = 5; next_pty_offset = 10 }) batch_run refl refl
      (
        record { in_epoch = refl; in_generation = refl; size = λ e. absurd (omega arith) },
        (
          record {
            in_epoch = refl;
            in_generation = refl;
            size = λ e. (record { cols = 80; rows = 24; width_px = 0; height_px = 0 }, refl);
          },
          (record { in_epoch = refl; in_generation = refl; size = λ e. absurd (omega arith) }, tt),
        ),
      )

batch-one_by_one_example :
    advance_delivery_cursor_batch (attached_at 5 10) (
      frame pty_output 6 10 (104 ∷ [])
      ∷ frame pty_output 6 11 []
      ∷ frame replay_commit 7 11 []
      ∷ [])
    ≡ one_by_one
        (attached_at 5 10)
        (frame pty_output 6 10 (104 ∷ []))
        (frame pty_output 6 11 [] ∷ frame replay_commit 7 11 [] ∷ [])
batch-one_by_one_example =
    batch-one_by_one (attached_at 5 10) (frame pty_output 6 10 (104 ∷ []))
      (frame pty_output 6 11 [] ∷ frame replay_commit 7 11 [] ∷ [])
