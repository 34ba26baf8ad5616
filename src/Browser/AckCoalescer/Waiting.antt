-- ===== src/Browser/AckCoalescer/Waiting.antt =====
-- delivery-ack-coalescer.ts: cursors that follow one another and wait behind one another.
use zhongduan.Base.{
  ℕ, ◌+◌, ◌-◌, ◌*◌, ◌≤◌, ◌<◌, ◌≡◌, refl, ◌∙◌, inl, inr, Bool, true, false, ◌||◌, not, none, some,
  List, ltb, leb, Result, ok, arith, Bool-cases,
}
use zhongduan.Protocol.Cursor.{ReplicaCursor}
use zhongduan.Protocol.Credit.{RangeError, delivery_outstanding_bytes}
use zhongduan.Browser.AckCoalescer.{
  Callbacks, AckCoalescer, AckEffect, credit_cursor, flush, regresses, flushes, start_timer,
  delivery_ack_flush_bytes, delivery_ack_flush_events,
}

-- `later` is a cursor of the delivery of `earlier`, not before it.
pub record Follows (earlier later : ReplicaCursor) : Type 0 where
  pub same_epoch : later.session_epoch ≡ earlier.session_epoch
  pub same_generation : later.delivery_generation ≡ earlier.delivery_generation
  pub events : earlier.last_event_seq ≤ later.last_event_seq
  pub offsets : earlier.next_pty_offset ≤ later.next_pty_offset

-- `later` waits behind `earlier`: fewer than 256 events and 32 KiB of credit stand between the two.
pub record Waits (earlier later : ReplicaCursor) : Type 0 where
  pub follows : Follows earlier later
  pub few_events : later.last_event_seq < earlier.last_event_seq + delivery_ack_flush_events
  pub few_bytes :
      later.next_pty_offset
        - earlier.next_pty_offset
        + (later.last_event_seq - earlier.last_event_seq) * 64
      < delivery_ack_flush_bytes

-- What is pending waits behind what was acknowledged.
abbrev pub Coalesced : AckCoalescer → Type 0
Coalesced s =
    (p : ReplicaCursor)
    → s.pending_acknowledgement ≡ some p
    → (l : ReplicaCursor) × (s.last_acknowledged_cursor ≡ some l) × Waits l p

pub flush-pending :
    (c : Callbacks) (s : AckCoalescer) → (flush c s).0.pending_acknowledgement ≡ none
unfolding flush
flush-pending c s = ground arith

pub none-Coalesced : (s : AckCoalescer) → s.pending_acknowledgement ≡ none → Coalesced s
none-Coalesced s e p h = cc

abbrev between : ReplicaCursor → ReplicaCursor → ℕ
between last cursor =
    cursor.next_pty_offset
    - last.next_pty_offset
    + (cursor.last_event_seq - last.last_event_seq) * 64

Follows-outstanding :
    (last cursor : ReplicaCursor)
    → Follows last cursor
    → delivery_outstanding_bytes (credit_cursor last) (credit_cursor cursor)
      ≡ ok (between last cursor)
unfolding delivery_outstanding_bytes
Follows-outstanding last cursor f = rw (not_below (f.events), not_below (f.offsets)) refl
  where
    not_below : {m n : ℕ} → m ≤ n → ltb n m ≡ false
    not_below h = ground arith

pub Waits-flushes :
    (c : Callbacks) (cursor last : ReplicaCursor)
    → Follows last cursor
    → (b : Bool) × (flushes c cursor (some last) ≡ ok b) × ((b ≡ false) → Waits last cursor)
unfolding flushes
Waits-flushes c cursor last f =
    elim (Bool-cases (
      not c.is_delivery_live
      || leb delivery_ack_flush_events (cursor.last_event_seq - last.last_event_seq))) [
        | inl e ↦ (true, rw e refl, λ h. cc)
        | inr e ↦ (
          leb delivery_ack_flush_bytes (between last cursor),
          rw (e, Follows-outstanding last cursor f) refl,
          λ h. record {
            follows = f;
            few_events = ground (arith, e);
            few_bytes = ground (arith, h);
          },
        )
      ]

pub Follows-trans : (a b c : ReplicaCursor) → Follows a b → Follows b c → Follows a c
Follows-trans a b c p q = record {
  same_epoch = q.same_epoch ∙ p.same_epoch;
  same_generation = q.same_generation ∙ p.same_generation;
  events = omega (arith, p.events, q.events);
  offsets = omega (arith, p.offsets, q.offsets);
}

pub regresses-Follows :
    (cursor previous : ReplicaCursor) → regresses cursor previous ≡ false → Follows previous cursor
regresses-Follows cursor previous h = record {
  same_epoch = ground (arith, h);
  same_generation = ground (arith, h);
  events = ground (arith, h);
  offsets = ground (arith, h);
}

-- The answer of a call that does not throw and keeps what is pending small.
abbrev pub Kept : Result RangeError (AckCoalescer × List AckEffect) → Type 0
Kept r = (t : AckCoalescer) × (effects : List AckEffect) × (r ≡ ok (t, effects)) × Coalesced t

pub start_timer-fields :
    (c : Callbacks) (cursor : ReplicaCursor) (s : AckCoalescer)
    → ((start_timer c cursor s).pending_acknowledgement ≡ s.pending_acknowledgement)
      × ((start_timer c cursor s).last_acknowledged_cursor ≡ s.last_acknowledged_cursor)
start_timer-fields c cursor s = ground arith
