-- ===== src/Browser/AckCoalescer.antt =====
-- apps/terminal-cloud/src/browser/delivery-ack-coalescer.ts: the acknowledgements of a delivery, put
-- together while it is live. What the callbacks of the options answer during a call is a record, the
-- timer is the pair that its closure keeps, and what a call sends or reports is a list of effects.
pub mod Waiting
pub mod Pending
mod Tests
use zhongduan.Base.{
  ℕ, ◌-◌, ◌*◌, ◌/◌, Bool, true, false, ◌&&◌, ◌||◌, not, Option, none, some, List, [], ◌∷◌, ◌++◌,
  ltb, leb, ◌==◌, ◌=?◌, if◌then◌else◌, Result, ok, err, ◌>>=◌,
}
use zhongduan.Protocol.Cursor.{ReplicaCursor}
use zhongduan.Protocol.Credit.{
  DeliveryCreditCursor, RangeError, delivery_outstanding_bytes, max_delivery_outstanding_bytes,
}

abbrev pub delivery_ack_flush_bytes : ℕ
delivery_ack_flush_bytes = max_delivery_outstanding_bytes / 16

abbrev pub delivery_ack_flush_events : ℕ
delivery_ack_flush_events = 256

-- The answers of the callbacks.
pub record Callbacks : Type 0 where
  pub connection_epoch : ℕ
  pub delivery_generation : Option ℕ
  pub is_connection_current : ℕ → Bool
  pub is_delivery_live : Bool
  pub send : ReplicaCursor → Bool

-- The closure of a timer keeps the connection epoch and the delivery generation.
pub record AckCoalescer : Type 0 where
  pub last_acknowledged_cursor : Option ReplicaCursor
  pub pending_acknowledgement : Option ReplicaCursor
  pub timer : Option (ℕ × ℕ)

pub data AckEffect : Type 0 where
  sent : ReplicaCursor → AckEffect
  protocol_failure : AckEffect

abbrev pub credit_cursor : ReplicaCursor → DeliveryCreditCursor
credit_cursor c = record { event_seq = c.last_event_seq; next_pty_offset = c.next_pty_offset }

-- `#flush`.
unfoldable pub flush : Callbacks → AckCoalescer → AckCoalescer × List AckEffect
flush callbacks s = elim s.pending_acknowledgement [
  | none ↦ (record s { timer = none }, [])
  | some cursor ↦
      if not (some cursor.delivery_generation =? callbacks.delivery_generation)
      then (record s { timer = none; pending_acknowledgement = none }, [])
      else if callbacks.send cursor
      then (
        record {
          timer = none;
          pending_acknowledgement = none;
          last_acknowledged_cursor = some cursor;
        },
        sent cursor ∷ [],
      )
      else (record s { timer = none; pending_acknowledgement = none }, sent cursor ∷ [])
]

-- `previous`.
abbrev pub previous_of : AckCoalescer → Option ReplicaCursor
previous_of s = elim s.pending_acknowledgement [
  | some cursor ↦ some cursor
  | none ↦ s.last_acknowledged_cursor
]

abbrev pub regresses : ReplicaCursor → ReplicaCursor → Bool
regresses cursor previous =
    not (cursor.session_epoch == previous.session_epoch)
    || not (cursor.delivery_generation == previous.delivery_generation)
    || ltb cursor.last_event_seq previous.last_event_seq
    || ltb cursor.next_pty_offset previous.next_pty_offset

abbrev pub repeats : ReplicaCursor → ReplicaCursor → Bool
repeats cursor previous =
    cursor.last_event_seq == previous.last_event_seq
    && cursor.next_pty_offset == previous.next_pty_offset

-- Whether the pending acknowledgement is flushed at once. The bytes are computed last, and may throw.
unfoldable pub flushes : Callbacks → ReplicaCursor → Option ReplicaCursor → Result RangeError Bool
flushes callbacks cursor none = ok true
flushes callbacks cursor (some last) =
    if not callbacks.is_delivery_live
      || leb delivery_ack_flush_events (cursor.last_event_seq - last.last_event_seq)
    then ok true
    else (delivery_outstanding_bytes (credit_cursor last) (credit_cursor cursor) >>= λ bytes.
        ok (leb delivery_ack_flush_bytes bytes))

abbrev pub start_timer : Callbacks → ReplicaCursor → AckCoalescer → AckCoalescer
start_timer callbacks cursor s = elim s.timer [
  | some timer ↦ s
  | none ↦ record s { timer = some (callbacks.connection_epoch, cursor.delivery_generation) }
]

-- What `acknowledge` does with a cursor that it keeps.
unfoldable pub take_cursor :
    Callbacks → ReplicaCursor → AckCoalescer → Result RangeError (AckCoalescer × List AckEffect)
unfolding flushes flush
take_cursor callbacks cursor s =
    let t : AckCoalescer = record s { pending_acknowledgement = some cursor } in
    (flushes callbacks cursor s.last_acknowledged_cursor >>= λ now.
    ok (if now then flush callbacks t else (start_timer callbacks cursor t, [])))

-- `acknowledge` against `previous`.
unfoldable pub offer :
    Callbacks
    → ReplicaCursor
    → Option ReplicaCursor
    → AckCoalescer
    → Result RangeError (AckCoalescer × List AckEffect)
unfolding take_cursor
offer callbacks cursor none s = take_cursor callbacks cursor s
offer callbacks cursor (some previous) s =
    if regresses cursor previous
    then ok (s, protocol_failure ∷ [])
    else if repeats cursor previous
    then ok (s, [])
    else take_cursor callbacks cursor s

unfoldable pub acknowledge :
    Callbacks → ReplicaCursor → AckCoalescer → Result RangeError (AckCoalescer × List AckEffect)
unfolding offer
acknowledge callbacks cursor s =
    if not (some cursor.delivery_generation =? callbacks.delivery_generation)
    then ok (s, [])
    else offer callbacks cursor (previous_of s) s

-- The callback of the timer, with what its closure keeps.
unfoldable pub fired : Callbacks → Option (ℕ × ℕ) → AckCoalescer → AckCoalescer × List AckEffect
unfolding flush
fired callbacks none s = (s, [])
fired callbacks (some (epoch, generation)) s =
    let t : AckCoalescer = record s { timer = none } in
    if not (callbacks.is_connection_current epoch)
      || not (callbacks.delivery_generation =? some generation)
    then (t, [])
    else flush callbacks t

unfoldable pub fire : Callbacks → AckCoalescer → AckCoalescer × List AckEffect
unfolding fired
fire callbacks s = fired callbacks s.timer s

abbrev pub reset_acks : Option ReplicaCursor → AckCoalescer → AckCoalescer
reset_acks cursor s = record {
  last_acknowledged_cursor = cursor;
  pending_acknowledgement = none;
  timer = none;
}

-- A call of the class, or of its timer.
pub data AckCall : Type 0 where
  acknowledge_call : Callbacks → ReplicaCursor → AckCall
  timer_call : Callbacks → AckCall
  reset_call : Option ReplicaCursor → AckCall

unfoldable pub run_ack : AckCall → AckCoalescer → Result RangeError (AckCoalescer × List AckEffect)
unfolding acknowledge fire
run_ack (acknowledge_call callbacks cursor) s = acknowledge callbacks cursor s
run_ack (timer_call callbacks) s = ok (fire callbacks s)
run_ack (reset_call cursor) s = ok (reset_acks cursor s, [])

-- A schedule of calls, with all their effects.
unfoldable pub run_acks :
    List AckCall → AckCoalescer → Result RangeError (AckCoalescer × List AckEffect)
unfolding run_ack
run_acks [] s = ok (s, [])
run_acks (call ∷ calls) s = run_ack call s >>= λ r. run_acks calls r.0 >>= λ q. ok (q.0, r.1 ++ q.1)
