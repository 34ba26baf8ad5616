-- ===== src/Relay/Delivery/Cursor.antt =====
-- relay-delivery.ts: how a batch moves the sent cursor, and the credit that it uses.
use zhongduan.Base.{
  ℕ, ◌+◌, ◌≤◌, ◌≡◌, sym, subst, ap, ◌∙◌, inl, inr, some, List, [], ◌∷◌, Result, ok, arith,
  Option-cases, bind_inv, ok-injective,
}
use zhongduan.Protocol.Frame.{DataFrame}
use zhongduan.Protocol.Cursor.Stream.{total_output}
use zhongduan.Protocol.Credit.{
  DeliveryCreditCursor, RangeError, delivery_outstanding_bytes, max_delivery_outstanding_bytes,
}
use zhongduan.Relay.Delivery.{
  DeliveryCursorState, DeliveryCursorResult, credit_exceeded, sequence_error, advanced, Progress,
  Round, stop, over_credit, out_of_sequence, more, deliver_loop, resume, attached,
  advance_delivery_cursor_batch,
}
use zhongduan.Relay.Delivery.Rounds.{total_events, round-Through, round-split}

-- The credit that is recorded is the one between what is acknowledged and what is sent.
abbrev pub Credit : DeliveryCreditCursor → Progress → Type 0
Credit acked p =
    (delivery_outstanding_bytes acked p.sent ≡ ok p.outstanding_bytes)
    × (p.outstanding_bytes ≤ max_delivery_outstanding_bytes)

loop-Credit :
    (acked : DeliveryCreditCursor) (fs : List DataFrame) (p q : Progress)
    → Credit acked p
    → deliver_loop acked fs p ≡ ok (more q)
    → Credit acked q
unfolding deliver_loop
loop-Credit acked [] p q c h = subst (Credit acked) (same h) c
  where
    same : {x y : Progress} → ◌≡◌ {A = Result RangeError Round} (ok (more x)) (ok (more y)) → x ≡ y
    same e = cc
loop-Credit acked (f ∷ fs) p q c h = elim (round-split acked f p) [
  | inl (r, e) ↦ cc (rw (e, deliver_loop) at h)
  | inr (x, e) ↦
      let t = round-Through acked f p x e in
      loop-Credit acked fs x q (t.credit, t.bounded) (rw (e, deliver_loop) at h)
]

loop_moves :
    (acked : DeliveryCreditCursor) (fs : List DataFrame) (p q : Progress)
    → deliver_loop acked fs p ≡ ok (more q)
    → (q.sent.event_seq ≡ p.sent.event_seq + total_events fs)
      × (q.sent.next_pty_offset ≡ p.sent.next_pty_offset + total_output fs)
unfolding deliver_loop
loop_moves acked [] p q h = ground arith
loop_moves acked (f ∷ fs) p q h = elim (round-split acked f p) [
  | inl (r, e) ↦ cc (rw (e, deliver_loop) at h)
  | inr (x, e) ↦
      let t = round-Through acked f p x e in
      let (m, n) = loop_moves acked fs x q (rw (e, deliver_loop) at h) in
      (omega (arith, t.next_event), omega (arith, t.next_pty))
]

-- What an attached state holds.
pub record Attached (state : DeliveryCursorState) (acked : DeliveryCreditCursor) (p : Progress)
    : Type 0 where
  pub acked_event : state.acked_event_seq ≡ some acked.event_seq
  pub acked_pty : state.acked_pty_offset ≡ some acked.next_pty_offset
  pub sent_event : state.sent_event_seq ≡ some p.sent.event_seq
  pub sent_pty : state.sent_pty_offset ≡ some p.sent.next_pty_offset

pub attached-inv :
    (state : DeliveryCursorState) (acked : DeliveryCreditCursor) (p : Progress)
    → attached state ≡ some (acked, p)
    → Attached state acked p
unfolding attached
attached-inv state acked p h = ground arith

loop_first :
    (acked : DeliveryCreditCursor) (f : DataFrame) (fs : List DataFrame) (p q : Progress)
    → deliver_loop acked (f ∷ fs) p ≡ ok (more q)
    → Credit acked q
unfolding deliver_loop
loop_first acked f fs p q h = elim (round-split acked f p) [
  | inl (r, e) ↦ cc (rw (e, deliver_loop) at h)
  | inr (x, e) ↦
      let t = round-Through acked f p x e in
      loop-Credit acked fs x q (t.credit, t.bounded) (rw (e, deliver_loop) at h)
]

-- An accepted batch, as a run of the loop from the state to the state behind it.
pub record Run (state : DeliveryCursorState) (fs : List DataFrame) (next : DeliveryCursorState)
    (n : ℕ) : Type 0 where
  pub acked : DeliveryCreditCursor
  pub before : Progress
  pub behind : Progress
  pub attachment : Attached state acked before
  pub loop : deliver_loop acked fs before ≡ ok (more behind)
  pub result : advanced next n ≡ resume state (more behind)
  pub credit : Credit acked behind

pub advance-Run :
    (state : DeliveryCursorState) (fs : List DataFrame) (next : DeliveryCursorState) (n : ℕ)
    → advance_delivery_cursor_batch state fs ≡ ok (advanced next n)
    → Run state fs next n
unfolding advance_delivery_cursor_batch
advance-Run state [] next n h = cc
advance-Run state (f ∷ fs) next n h = elim (Option-cases (attached state)) [
  | inl e ↦ cc (rw (e, advance_delivery_cursor_batch) at h)
  | inr ((acked, p), e) ↦
      from acked p e
        (bind_inv (deliver_loop acked (f ∷ fs) p) _ (rw (e, advance_delivery_cursor_batch) at h))
]
  where
    from :
        (acked : DeliveryCreditCursor) (p : Progress)
        → attached state ≡ some (acked, p)
        → (r : Round) × (deliver_loop acked (f ∷ fs) p ≡ ok r)
          × (◌≡◌ {A = Result RangeError DeliveryCursorResult}
              (ok (resume state r))
              (ok (advanced next n)))
        → Run state (f ∷ fs) next n
    from acked p e (stop over_credit, l, k) = cc
    from acked p e (stop out_of_sequence, l, k) = cc
    from acked p e (more q, l, k) = record {
      acked = acked;
      before = p;
      behind = q;
      attachment = attached-inv state acked p e;
      loop = l;
      result = sym (ok-injective k);
      credit = loop_first acked f fs p q l;
    }

-- What an accepted batch does to the state: the sent cursor moves by the frames' events and bytes, the
-- acknowledged one stays, and the bytes in flight are those between the two and within the credit.
pub record Accepted (state : DeliveryCursorState) (fs : List DataFrame) (next : DeliveryCursorState)
    (n : ℕ) : Type 0 where
  pub acked : DeliveryCreditCursor
  pub sent : DeliveryCreditCursor
  pub acked_event : state.acked_event_seq ≡ some acked.event_seq
  pub acked_pty : state.acked_pty_offset ≡ some acked.next_pty_offset
  pub sent_event : state.sent_event_seq ≡ some sent.event_seq
  pub sent_pty : state.sent_pty_offset ≡ some sent.next_pty_offset
  pub same_acked :
      (next.acked_event_seq ≡ state.acked_event_seq)
      × (next.acked_pty_offset ≡ state.acked_pty_offset)
  pub next_event : next.sent_event_seq ≡ some (sent.event_seq + total_events fs)
  pub next_pty : next.sent_pty_offset ≡ some (sent.next_pty_offset + total_output fs)
  pub credit :
      delivery_outstanding_bytes acked (record {
        event_seq = sent.event_seq + total_events fs;
        next_pty_offset = sent.next_pty_offset + total_output fs;
      })
      ≡ ok n
  pub bounded : n ≤ max_delivery_outstanding_bytes

abbrev pub state_of : DeliveryCursorState → DeliveryCursorResult → DeliveryCursorState
state_of other credit_exceeded = other
state_of other sequence_error = other
state_of other (advanced next n) = next

abbrev bytes_of : DeliveryCursorResult → ℕ
bytes_of credit_exceeded = 0
bytes_of sequence_error = 0
bytes_of (advanced next n) = n

-- A batch that `advanceDeliveryCursorBatch` accepts is `Accepted`.
pub advance-Accepted :
    (state : DeliveryCursorState) (fs : List DataFrame) (next : DeliveryCursorState) (n : ℕ)
    → advance_delivery_cursor_batch state fs ≡ ok (advanced next n)
    → Accepted state fs next n
advance-Accepted state fs next n h =
    let run = advance-Run state fs next n h in
    let (m, o) = loop_moves run.acked fs run.before run.behind run.loop in
    let to : next ≡ state_of state (resume state (more run.behind)) =
      ap (state_of state) run.result in
    let used : n ≡ run.behind.outstanding_bytes = ap bytes_of run.result in
    record {
      acked = run.acked;
      sent = run.before.sent;
      acked_event = run.attachment.acked_event;
      acked_pty = run.attachment.acked_pty;
      sent_event = run.attachment.sent_event;
      sent_pty = run.attachment.sent_pty;
      same_acked = (
        ap (λ (s : DeliveryCursorState). s.acked_event_seq) to,
        ap (λ (s : DeliveryCursorState). s.acked_pty_offset) to,
      );
      next_event = ap (λ (s : DeliveryCursorState). s.sent_event_seq) to ∙ ap some m;
      next_pty = ap (λ (s : DeliveryCursorState). s.sent_pty_offset) to ∙ ap some o;
      credit =
          ap (λ (s : DeliveryCreditCursor). delivery_outstanding_bytes run.acked s)
            (λ i. record { event_seq = sym m i; next_pty_offset = sym o i })
          ∙ (run.credit.0 ∙ ap ok (sym used));
      bounded = rw used run.credit.1;
    }
