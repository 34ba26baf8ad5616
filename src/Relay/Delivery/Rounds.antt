-- ===== src/Relay/Delivery/Rounds.antt =====
-- relay-delivery.ts: the rounds of the loop over a batch, and that each ends.
use zhongduan.Base.{
  ℕ, ◌+◌, ◌*◌, ◌-◌, ◌≤◌, ◌≡◌, refl, sym, subst, ◌∙◌, ◌⊎◌, inl, inr, Bool, true, false, ◌||◌, not,
  List, [], ◌∷◌, ltb, ◌==◌, if◌then◌else◌, Result, ok, arith, Bool-cases, Option-cases,
}
use zhongduan.Protocol.Frame.{DataFrame, replay_commit}
use zhongduan.Protocol.Cursor.Stream.{output_bytes}
use zhongduan.Protocol.Credit.{
  DeliveryCreditCursor, RangeError, delivery_outstanding_bytes, max_delivery_outstanding_bytes,
}
use zhongduan.Relay.Delivery.{
  synced, DeliveryCursorState, DeliveryCursorResult, sequence_error, Progress, deliverable,
  expected_event, next_offset, sent_after, Round, stop, Refusal, over_credit, out_of_sequence, more,
  deliver_round, deliver_loop, resume, attached, advance_delivery_cursor_batch,
}

-- How far a frame moves the event number.
abbrev pub events : DataFrame → ℕ
events frame = if frame.kind == replay_commit then 0 else 1

abbrev pub total_events : List DataFrame → ℕ
total_events [] = 0
total_events (f ∷ fs) = events f + total_events fs

-- What a frame that is let through looks like.
pub record Through (acked : DeliveryCreditCursor) (frame : DataFrame) (p q : Progress)
    : Type 0 where
  pub allowed : deliverable frame ≡ true
  pub event : frame.event_seq ≡ p.sent.event_seq + events frame
  pub offset : frame.pty_offset ≡ p.sent.next_pty_offset
  pub next_event : q.sent.event_seq ≡ p.sent.event_seq + events frame
  pub next_pty : q.sent.next_pty_offset ≡ p.sent.next_pty_offset + output_bytes frame
  pub credit : delivery_outstanding_bytes acked q.sent ≡ ok q.outstanding_bytes
  pub bounded : q.outstanding_bytes ≤ max_delivery_outstanding_bytes
  pub state : q.data_state ≡ (if frame.kind == replay_commit then synced else p.data_state)

-- The code's own test is the one that would throw.
monotonic :
    (a b : DeliveryCreditCursor)
    → (ltb b.event_seq a.event_seq || ltb b.next_pty_offset a.next_pty_offset) ≡ false
    → (n : ℕ) × (delivery_outstanding_bytes a b ≡ ok n)
unfolding delivery_outstanding_bytes
monotonic a b h = (b.next_pty_offset - a.next_pty_offset + (b.event_seq - a.event_seq) * 64, rw h)

-- The three tests that lead to `sequence-error`.
abbrev refusals : DeliveryCreditCursor → DataFrame → Progress → Bool × Bool
refusals acked frame p = (
  not (frame.event_seq == expected_event p.sent frame)
      || not (frame.pty_offset == p.sent.next_pty_offset),
  ltb frame.event_seq acked.event_seq || ltb (next_offset frame) acked.next_pty_offset,
)

-- A round that passes the tests leaves the frame's cursor, the delivery's state and the credit used.
abbrev left : DataFrame → Progress → ℕ → Progress
left frame p n = record {
  sent = sent_after frame;
  data_state = if frame.kind == replay_commit then synced else p.data_state;
  outstanding_bytes = n;
}

-- How a round can end: without a throw, since the tests before the call are those of the call.
round-cases :
    (acked : DeliveryCreditCursor) (frame : DataFrame) (p : Progress)
    → ((r : Refusal) × (deliver_round acked frame p ≡ ok (stop r)))
      ⊎ ((n : ℕ) × (deliverable frame ≡ true)
          × ((refusals acked frame p).0 ≡ false)
          × (delivery_outstanding_bytes acked (sent_after frame) ≡ ok n)
          × (n ≤ max_delivery_outstanding_bytes)
          × (deliver_round acked frame p ≡ ok (more (left frame p n))))
unfolding deliver_round
round-cases acked frame p = elim (Bool-cases (deliverable frame)) [
  | inr e1 ↦ inl (out_of_sequence, rw e1)
  | inl e1 ↦ elim (Bool-cases (refusals acked frame p).0) [
    | inl e2 ↦ inl (out_of_sequence, rw (e1, e2))
    | inr e2 ↦ elim (Bool-cases (refusals acked frame p).1) [
      | inl e3 ↦ inl (out_of_sequence, rw (e1, e2, e3))
      | inr e3 ↦
          let (n, e4) = monotonic acked (sent_after frame) e3 in
          elim (Bool-cases (ltb max_delivery_outstanding_bytes n)) [
            | inl e5 ↦ inl (over_credit, rw (e1, e2, e3, e4, e5))
            | inr e5 ↦ inr (n, e1, e2, e4, ground arith, rw (e1, e2, e3, e4, e5))
          ]
    ]
  ]
]

pub round-Through :
    (acked : DeliveryCreditCursor) (frame : DataFrame) (p q : Progress)
    → deliver_round acked frame p ≡ ok (more q)
    → Through acked frame p q
round-Through acked frame p q h = elim (round-cases acked frame p) [
  | inl (r, e) ↦ absurd (stopped (sym e ∙ h))
  | inr (n, e1, e2, e4, e5, e6) ↦
      subst (λ (x : Progress). Through acked frame p x) (sym (same (sym h ∙ e6)))
        (through n e1 e2 e4 e5)
]
  where
    stopped :
        {r : Refusal} {x : Progress}
        → ◌≡◌ {A = Result RangeError Round} (ok (stop r)) (ok (more x))
        → ⊥
    stopped e = cc

    same : {x y : Progress} → ◌≡◌ {A = Result RangeError Round} (ok (more x)) (ok (more y)) → x ≡ y
    same e = cc

    through :
        (n : ℕ)
        → deliverable frame ≡ true
        → (refusals acked frame p).0 ≡ false
        → delivery_outstanding_bytes acked (sent_after frame) ≡ ok n
        → n ≤ max_delivery_outstanding_bytes
        → Through acked frame p (left frame p n)
    through n e1 e2 e4 e5 =
        let event : frame.event_seq ≡ p.sent.event_seq + events frame = ground (arith, e2) in
        let offset : frame.pty_offset ≡ p.sent.next_pty_offset = ground (arith, e2) in
        record {
          allowed = e1;
          event = event;
          offset = offset;
          next_event = event;
          next_pty = ground (arith, offset);
          credit = e4;
          bounded = e5;
          state = refl;
        }

pub round-split :
    (acked : DeliveryCreditCursor) (frame : DataFrame) (p : Progress)
    → ((r : Refusal) × (deliver_round acked frame p ≡ ok (stop r)))
      ⊎ ((q : Progress) × (deliver_round acked frame p ≡ ok (more q)))
round-split acked frame p = elim (round-cases acked frame p) [
  | inl e ↦ inl e
  | inr (n, _, _, _, _, e) ↦ inr (left frame p n, e)
]

loop_total :
    (acked : DeliveryCreditCursor) (fs : List DataFrame) (p : Progress)
    → (r : Round) × (deliver_loop acked fs p ≡ ok r)
unfolding deliver_loop
loop_total acked [] p = (more p, refl)
loop_total acked (f ∷ fs) p = elim (round-split acked f p) [
  | inl (r, e) ↦ (stop r, rw (e, deliver_loop) refl)
  | inr (q, e) ↦ let (r, h) = loop_total acked fs q in (r, rw (e, deliver_loop) h)
]

-- Whatever state and frames it is given, the batch is answered: the credit that the loop computes
-- never throws.
pub advance_total :
    (state : DeliveryCursorState) (fs : List DataFrame)
    → (r : DeliveryCursorResult) × (advance_delivery_cursor_batch state fs ≡ ok r)
unfolding advance_delivery_cursor_batch
advance_total state [] = (sequence_error, refl)
advance_total state (f ∷ fs) = elim (Option-cases (attached state)) [
  | inl e ↦ (sequence_error, rw (e, advance_delivery_cursor_batch) refl)
  | inr ((acked, p), e) ↦
      let (r, h) = loop_total acked (f ∷ fs) p in
      (resume state r, rw (e, advance_delivery_cursor_batch, h) refl)
]
