-- ===== src/Relay/Delivery.antt =====
-- apps/terminal-cloud/src/worker/relay-delivery.ts: the cursor of a delivery, which a batch of frames
-- from the host advances. The decimal texts of the source's state are the numbers they denote.
pub mod Rounds
pub mod Cursor
pub mod Replica
pub mod Single
mod Tests
use zhongduan.Base.{
  ℕ, ◌+◌, ◌-◌, Bool, true, false, ◌&&◌, ◌||◌, not, Option, none, some, List, [], ◌∷◌, ltb, ◌==◌,
  if◌then◌else◌, length, Result, ok, err, ◌>>=◌,
}
use zhongduan.Protocol.Errors.{max_u64}
use zhongduan.Protocol.Frame.{DataFrame, pty_output, resize_applied, replay_commit}
use zhongduan.Protocol.Credit.{
  DeliveryCreditCursor, RangeError, delivery_outstanding_bytes, max_delivery_outstanding_bytes,
}

pub data DataState : Type 0 where
  awaiting_attach catching_up synced : DataState

pub record DeliveryCursorState : Type 0 where
  pub acked_event_seq : Option ℕ
  pub acked_pty_offset : Option ℕ
  pub data_state : Option DataState
  pub first_event_seq : Option ℕ
  pub first_pty_offset : Option ℕ
  pub sent_event_seq : Option ℕ
  pub sent_pty_offset : Option ℕ

pub data DeliveryCursorResult : Type 0 where
  credit_exceeded : DeliveryCursorResult
  sequence_error : DeliveryCursorResult
  advanced : DeliveryCursorState → ℕ → DeliveryCursorResult

-- The variables of the loop.
pub record Progress : Type 0 where
  pub sent : DeliveryCreditCursor
  pub data_state : DataState
  pub outstanding_bytes : ℕ

-- The tests on a frame alone.
abbrev pub deliverable : DataFrame → Bool
deliverable frame =
    (frame.kind == pty_output || frame.kind == resize_applied || frame.kind == replay_commit)
    && not (frame.kind == replay_commit && not (length frame.payload == 0))
    && not (frame.kind == resize_applied && not (length frame.payload == 16))
    && not (frame.kind == pty_output && ltb (max_u64 - length frame.payload) frame.pty_offset)

abbrev pub expected_event : DeliveryCreditCursor → DataFrame → ℕ
expected_event sent frame =
    if frame.kind == replay_commit then sent.event_seq else sent.event_seq + 1

abbrev pub next_offset : DataFrame → ℕ
next_offset frame =
    if frame.kind == pty_output then frame.pty_offset + length frame.payload else frame.pty_offset

-- The cursor behind a frame.
abbrev pub sent_after : DataFrame → DeliveryCreditCursor
sent_after frame = record { event_seq = frame.event_seq; next_pty_offset = next_offset frame }

-- How a round of the loop ends: with a result that is returned, or with the variables it leaves.
pub data Refusal : Type 0 where
  over_credit out_of_sequence : Refusal

pub data Round : Type 0 where
  stop : Refusal → Round
  more : Progress → Round

unfoldable pub deliver_round : DeliveryCreditCursor → DataFrame → Progress → Result RangeError Round
deliver_round acked frame p =
    if not (deliverable frame)
    then ok (stop out_of_sequence)
    else if not (frame.event_seq == expected_event p.sent frame)
        || not (frame.pty_offset == p.sent.next_pty_offset)
    then ok (stop out_of_sequence)
    else if ltb frame.event_seq acked.event_seq || ltb (next_offset frame) acked.next_pty_offset
    then ok (stop out_of_sequence)
    else (delivery_outstanding_bytes acked (sent_after frame) >>= λ outstanding.
        if ltb max_delivery_outstanding_bytes outstanding
        then ok (stop over_credit)
        else ok (
            more (record {
              sent = sent_after frame;
              data_state = if frame.kind == replay_commit then synced else p.data_state;
              outstanding_bytes = outstanding;
            })))

unfoldable pub deliver_loop :
    DeliveryCreditCursor → List DataFrame → Progress → Result RangeError Round
unfolding deliver_round
deliver_loop acked [] p = ok (more p)
deliver_loop acked (frame ∷ frames) p = deliver_round acked frame p >>= λ r. elim r [
  | stop refusal ↦ ok (stop refusal)
  | more q ↦ deliver_loop acked frames q
]

-- The state that is returned.
abbrev pub resume : DeliveryCursorState → Round → DeliveryCursorResult
resume state (stop over_credit) = credit_exceeded
resume state (stop out_of_sequence) = sequence_error
resume state (more p) =
    advanced
      (record state {
        data_state = some p.data_state;
        sent_event_seq = some p.sent.event_seq;
        sent_pty_offset = some p.sent.next_pty_offset;
      })
      p.outstanding_bytes

-- The delivery that a state describes, where it has been attached: what is acknowledged, and the
-- loop's variables at its start.
pub attached : DeliveryCursorState → Option (DeliveryCreditCursor × Progress)
attached state = elim state.data_state [
  | none ↦ none
  | some awaiting_attach ↦ none
  | some d ↦ elim state.sent_event_seq [
    | none ↦ none
    | some sent_event ↦ elim state.sent_pty_offset [
      | none ↦ none
      | some sent_pty ↦ elim state.acked_event_seq [
        | none ↦ none
        | some acked_event ↦ elim state.acked_pty_offset [
          | none ↦ none
          | some acked_pty ↦ some (
            record { event_seq = acked_event; next_pty_offset = acked_pty },
            record {
              sent = record { event_seq = sent_event; next_pty_offset = sent_pty };
              data_state = d;
              outstanding_bytes = 0;
            },
          )
        ]
      ]
    ]
  ]
]

unfoldable pub advance_delivery_cursor_batch :
    DeliveryCursorState → List DataFrame → Result RangeError DeliveryCursorResult
unfolding attached deliver_loop
advance_delivery_cursor_batch state [] = ok sequence_error
advance_delivery_cursor_batch state (frame ∷ frames) = elim (attached state) [
  | none ↦ ok sequence_error
  | some (acked, p) ↦ deliver_loop acked (frame ∷ frames) p >>= λ r. ok (resume state r)
]

unfoldable pub advance_delivery_cursor :
    DeliveryCursorState → DataFrame → Result RangeError DeliveryCursorResult
unfolding advance_delivery_cursor_batch
advance_delivery_cursor state frame = advance_delivery_cursor_batch state (frame ∷ [])
