-- ===== src/Host/BarrierWaiter.antt =====
-- apps/host-daemon/src/cloud/delivery-barrier-waiter.ts: the one delivery barrier that a host waits
-- for. A promise is the number of its `wait`, and a promise that settles goes to the list `settled`,
-- the latest first. The part of `wait` after the marker is sent is a call of its own, since results
-- may come in between; a connection, a snapshot and an error are numbers, and what a result holds
-- besides its identity is kept as it is. The frame of the marker is not built.
pub mod Settled
mod Tests
use zhongduan.Base.{
  ℕ, suc, Bool, true, false, ◌&&◌, Option, none, some, List, [], ◌∷◌, ◌==◌, if◌then◌else◌,
}

pub data BarrierMode : Type 0 where
  warm : BarrierMode
  snapshot : ℕ → BarrierMode

pub record BarrierIdentity : Type 0 where
  pub commit_event_seq : ℕ
  pub commit_pty_offset : ℕ
  pub connection_id : ℕ
  pub delivery_generation : ℕ
  pub stream_id : ℕ
  pub mode : BarrierMode

abbrev pub same_mode : BarrierMode → BarrierMode → Bool
same_mode warm warm = true
same_mode warm (snapshot id) = false
same_mode (snapshot id) warm = false
same_mode (snapshot id) (snapshot other) = other == id

module _ (Status : Type 0) where
  pub record DeliveryBarrierResult : Type 0 where
    pub identity : BarrierIdentity
    pub status : Status

  -- `isMatchingDeliveryBarrierResult`.
  unfoldable pub is_matching : BarrierIdentity → DeliveryBarrierResult → Bool
  is_matching expected result =
      result.identity.connection_id == expected.connection_id
      && result.identity.stream_id == expected.stream_id
      && result.identity.delivery_generation == expected.delivery_generation
      && result.identity.commit_event_seq == expected.commit_event_seq
      && result.identity.commit_pty_offset == expected.commit_pty_offset
      && same_mode expected.mode result.identity.mode

  pub record PendingBarrier : Type 0 where
    pub wait_id : ℕ
    pub early_result : Option DeliveryBarrierResult
    pub expected : BarrierIdentity
    pub marker_sent : Bool

  pub data Outcome : Type 0 where
    resolved : DeliveryBarrierResult → Outcome
    rejected : ℕ → Outcome

  pub record Settlement : Type 0 where
    pub barrier : PendingBarrier
    pub outcome : Outcome

  pub record BarrierWaiter : Type 0 where
    pub disposed_reason : Option ℕ
    pub pending : Option PendingBarrier
    pub next_wait : ℕ
    pub settled : List Settlement

  abbrev pub new_waiter : BarrierWaiter
  new_waiter = record { disposed_reason = none; pending = none; next_wait = 0; settled = [] }

  abbrev pub settle_barrier : PendingBarrier → Outcome → BarrierWaiter → BarrierWaiter
  settle_barrier p outcome s = record s {
    pending = none;
    settled = record { barrier = p; outcome = outcome } ∷ s.settled;
  }

  -- The barrier that `wait` registers.
  abbrev pub register : BarrierIdentity → BarrierWaiter → BarrierWaiter
  register identity s = record s {
    pending = some (record {
      wait_id = s.next_wait;
      early_result = none;
      expected = identity;
      marker_sent = false;
    });
    next_wait = suc s.next_wait;
  }

  unfoldable pub wait_guarded :
      Option ℕ
      → Option PendingBarrier
      → Option ℕ
      → BarrierIdentity
      → ℕ
      → BarrierWaiter
      → BarrierWaiter × Option ℕ
  wait_guarded (some reason) pending prepared identity already s = (s, some reason)
  wait_guarded none (some p) prepared identity already s = (s, some already)
  wait_guarded none none (some error) identity already s = (s, some error)
  wait_guarded none none none identity already s = (register identity s, none)

  -- `wait`, up to the marker: what it throws, if it throws. `prepared` is the error of an aborted
  -- signal or of the encoder, `already` the one that a barrier is pending.
  abbrev pub wait : BarrierIdentity → Option ℕ → ℕ → BarrierWaiter → BarrierWaiter × Option ℕ
  wait identity prepared already s =
      wait_guarded s.disposed_reason s.pending prepared identity already s

  abbrev pub first_of : Option DeliveryBarrierResult → DeliveryBarrierResult → DeliveryBarrierResult
  first_of none result = result
  first_of (some early) result = early

  -- A result that comes, with whether it matches and whether the marker is sent.
  unfoldable pub handle_matching :
      Bool → Bool → PendingBarrier → DeliveryBarrierResult → BarrierWaiter → BarrierWaiter
  handle_matching false sent p result s = s
  handle_matching true false p result s = record s {
    pending = some (record p { early_result = some (first_of p.early_result result) });
  }
  handle_matching true true p result s = settle_barrier p (resolved result) s

  unfoldable pub handle_pending :
      Option PendingBarrier → DeliveryBarrierResult → BarrierWaiter → BarrierWaiter
  handle_pending none result s = s
  handle_pending (some p) result s =
      handle_matching (is_matching p.expected result) p.marker_sent p result s

  -- `handle`.
  abbrev pub handle : DeliveryBarrierResult → BarrierWaiter → BarrierWaiter
  handle result s = handle_pending s.pending result s

  abbrev pub after_marker :
      Option DeliveryBarrierResult → PendingBarrier → BarrierWaiter → BarrierWaiter
  after_marker none p s = record s { pending = some p }
  after_marker (some early) p s = settle_barrier p (resolved early) s

  -- The marker is sent, with what `onMarkerSent` or the aborted signal throws.
  abbrev pub marked : Option ℕ → PendingBarrier → BarrierWaiter → BarrierWaiter
  marked (some error) p s = settle_barrier (record p { marker_sent = true }) (rejected error) s
  marked none p s = after_marker p.early_result (record p { marker_sent = true }) s

  unfoldable pub mark_pending : Option PendingBarrier → ℕ → Option ℕ → BarrierWaiter → BarrierWaiter
  mark_pending none id error s = s
  mark_pending (some p) id error s = if p.wait_id == id then marked error p s else s

  -- `#markSent`.
  abbrev pub mark_sent : ℕ → Option ℕ → BarrierWaiter → BarrierWaiter
  mark_sent id error s = mark_pending s.pending id error s

  unfoldable pub reject_pending : Option PendingBarrier → ℕ → ℕ → BarrierWaiter → BarrierWaiter
  reject_pending none id error s = s
  reject_pending (some p) id error s =
      if p.wait_id == id then settle_barrier p (rejected error) s else s

  -- `#rejectPending`: the signal aborts, or the marker cannot be sent.
  abbrev pub reject : ℕ → ℕ → BarrierWaiter → BarrierWaiter
  reject id error s = reject_pending s.pending id error s

  unfoldable pub dispose_pending : Option PendingBarrier → ℕ → BarrierWaiter → BarrierWaiter
  dispose_pending none reason s = s
  dispose_pending (some p) reason s = settle_barrier p (rejected reason) s

  unfoldable pub dispose_waiter : Option ℕ → ℕ → BarrierWaiter → BarrierWaiter
  dispose_waiter (some earlier) reason s = s
  dispose_waiter none reason s =
      dispose_pending s.pending reason (record s { disposed_reason = some reason })

  abbrev pub dispose_barriers : ℕ → BarrierWaiter → BarrierWaiter
  dispose_barriers reason s = dispose_waiter s.disposed_reason reason s
