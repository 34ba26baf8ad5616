-- ===== src/Protocol/Credit.antt =====
-- packages/protocol/src/delivery-credit.ts: how many bytes a delivery has in flight.
use zhongduan.Base.{ℕ, ◌+◌, ◌-◌, ◌*◌, ◌≡◌, ◌||◌, not, ltb, arith, Result, ok, ◌>>◌, require}

abbrev pub delivery_event_overhead_bytes : ℕ
delivery_event_overhead_bytes = 64

abbrev pub max_delivery_outstanding_bytes : ℕ
max_delivery_outstanding_bytes = 512 * 1024

pub record DeliveryCreditCursor : Type 0 where
  pub event_seq : ℕ
  pub next_pty_offset : ℕ

-- `RangeError`, the one error of `deliveryOutstandingBytes`.
pub data RangeError : Type 0 where
  not_monotonic : RangeError

unfoldable pub delivery_outstanding_bytes :
    DeliveryCreditCursor → DeliveryCreditCursor → Result RangeError ℕ
delivery_outstanding_bytes acknowledged sent = do
  require
      (not (
        ltb sent.event_seq acknowledged.event_seq
        || ltb sent.next_pty_offset acknowledged.next_pty_offset))
      not_monotonic
  ok (
      sent.next_pty_offset
      - acknowledged.next_pty_offset
      + (sent.event_seq - acknowledged.event_seq) * delivery_event_overhead_bytes)

-- Between three cursors in order the outstanding bytes add up.
pub outstanding-add :
    (a b c : DeliveryCreditCursor) (m n : ℕ)
    → delivery_outstanding_bytes a b ≡ ok m
    → delivery_outstanding_bytes b c ≡ ok n
    → delivery_outstanding_bytes a c ≡ ok (m + n)
unfolding delivery_outstanding_bytes
outstanding-add a b c m n h k = ground arith
