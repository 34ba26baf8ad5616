-- ===== src/Relay/Delivery/Single.antt =====
-- relay-delivery.ts: a batch against its frames one by one.
use zhongduan.Base.{
  ◌≡◌, ◌≢◌, refl, sym, ◌∙◌, inl, inr, none, some, List, [], ◌∷◌, Result, ok, ◌>>=◌, arith,
  Option-cases, ◌==◌, Bool-cases,
}
use zhongduan.Protocol.Frame.{DataFrame, replay_commit}
use zhongduan.Protocol.Credit.{DeliveryCreditCursor, RangeError}
use zhongduan.Relay.Delivery.{
  DataState, awaiting_attach, catching_up, synced, DeliveryCursorState, DeliveryCursorResult,
  credit_exceeded, sequence_error, advanced, Progress, Refusal, Round, stop, over_credit,
  out_of_sequence, more, deliver_round, deliver_loop, resume, attached,
  advance_delivery_cursor_batch, advance_delivery_cursor,
}
use zhongduan.Relay.Delivery.Rounds.{round-split, round-Through}
use zhongduan.Relay.Delivery.Cursor.{attached-inv}

-- Frames that arrive one by one, each in a batch of its own, up to the first that is refused.
unfoldable pub one_by_one :
    DeliveryCursorState → DataFrame → List DataFrame → Result RangeError DeliveryCursorResult
one_by_one state frame [] = advance_delivery_cursor state frame
one_by_one state frame (next ∷ frames) = advance_delivery_cursor state frame >>= λ r. elim r [
  | credit_exceeded ↦ ok credit_exceeded
  | sequence_error ↦ ok sequence_error
  | advanced t n ↦ one_by_one t next frames
]

-- The state behind a progress, as `resume` returns it.
abbrev resumed : DeliveryCursorState → Progress → DeliveryCursorState
resumed state p = record state {
  data_state = some p.data_state;
  sent_event_seq = some p.sent.event_seq;
  sent_pty_offset = some p.sent.next_pty_offset;
}

attached-data :
    (state : DeliveryCursorState) (acked : DeliveryCreditCursor) (p : Progress)
    → attached state ≡ some (acked, p)
    → p.data_state ≢ awaiting_attach
unfolding attached
attached-data state acked p h = ground arith

again :
    (state : DeliveryCursorState) (acked sent : DeliveryCreditCursor) (d : DataState)
    → state.acked_event_seq ≡ some acked.event_seq
    → state.acked_pty_offset ≡ some acked.next_pty_offset
    → d ≢ awaiting_attach
    → attached (record state {
      data_state = some d;
      sent_event_seq = some sent.event_seq;
      sent_pty_offset = some sent.next_pty_offset;
    })
      ≡ some (acked, record { sent = sent; data_state = d; outstanding_bytes = 0 })
unfolding attached
again state acked sent awaiting_attach e f n = absurd (n refl)
again state acked sent catching_up e f n = ground arith
again state acked sent synced e f n = ground arith

keeps-data :
    (acked : DeliveryCreditCursor) (f : DataFrame) (p q : Progress)
    → p.data_state ≢ awaiting_attach
    → deliver_round acked f p ≡ ok (more q)
    → q.data_state ≢ awaiting_attach
keeps-data acked f p q n h =
    let t = round-Through acked f p q h in
    λ k. elim (Bool-cases (f.kind == replay_commit)) [
      | inl e ↦ cc (rw e at (sym t.state ∙ k))
      | inr e ↦ n (rw e at (sym t.state ∙ k))
    ]

resume-resumed :
    (state : DeliveryCursorState) (p : Progress) (r : Round)
    → resume (resumed state p) r ≡ resume state r
resume-resumed state p (stop over_credit) = refl
resume-resumed state p (stop out_of_sequence) = refl
resume-resumed state p (more q) = refl

batch_more :
    (state : DeliveryCursorState) (acked : DeliveryCreditCursor) (p q : Progress) (f g : DataFrame)
    (gs : List DataFrame)
    → attached state ≡ some (acked, p)
    → deliver_round acked f p ≡ ok (more q)
    → advance_delivery_cursor_batch state (f ∷ g ∷ gs)
      ≡ advance_delivery_cursor_batch (resumed state q) (g ∷ gs)
unfolding advance_delivery_cursor_batch deliver_loop
batch_more state acked p q f g gs e h =
    let v = attached-inv state acked p e in
    let n = keeps-data acked f p q (attached-data state acked p e) h in
    let a = again state acked q.sent q.data_state v.acked_event v.acked_pty n in
    rw (e, advance_delivery_cursor_batch, h, deliver_loop)
      (rw (a, advance_delivery_cursor_batch)
        (λ i. deliver_loop acked (g ∷ gs) q >>= λ r. ok (sym (resume-resumed state q r) i)))

single_more :
    (state : DeliveryCursorState) (acked : DeliveryCreditCursor) (p q : Progress) (f g : DataFrame)
    (gs : List DataFrame)
    → attached state ≡ some (acked, p)
    → deliver_round acked f p ≡ ok (more q)
    → one_by_one state f (g ∷ gs) ≡ one_by_one (resumed state q) g gs
unfolding one_by_one advance_delivery_cursor advance_delivery_cursor_batch deliver_loop
single_more state acked p q f g gs e h = rw (e, advance_delivery_cursor_batch, h, deliver_loop) refl

unattached :
    (state : DeliveryCursorState) (f g : DataFrame) (gs : List DataFrame)
    → attached state ≡ none
    → advance_delivery_cursor_batch state (f ∷ g ∷ gs) ≡ one_by_one state f (g ∷ gs)
unfolding one_by_one advance_delivery_cursor advance_delivery_cursor_batch
unattached state f g gs e = rw (e, advance_delivery_cursor_batch) refl

refused :
    (state : DeliveryCursorState) (acked : DeliveryCreditCursor) (p : Progress) (f g : DataFrame)
    (gs : List DataFrame) (r : Refusal)
    → attached state ≡ some (acked, p)
    → deliver_round acked f p ≡ ok (stop r)
    → advance_delivery_cursor_batch state (f ∷ g ∷ gs) ≡ one_by_one state f (g ∷ gs)
unfolding one_by_one advance_delivery_cursor advance_delivery_cursor_batch deliver_loop
refused state acked p f g gs over_credit e h =
    rw (e, advance_delivery_cursor_batch, h, deliver_loop) refl
refused state acked p f g gs out_of_sequence e h =
    rw (e, advance_delivery_cursor_batch, h, deliver_loop) refl

-- A batch of frames is answered as its frames one by one, each in a batch of its own, up to the first
-- that is refused: with the same result, and with the same state and the same bytes in flight where
-- all are accepted.
pub batch-one_by_one :
    (state : DeliveryCursorState) (f : DataFrame) (fs : List DataFrame)
    → advance_delivery_cursor_batch state (f ∷ fs) ≡ one_by_one state f fs
unfolding one_by_one advance_delivery_cursor
batch-one_by_one state f [] = refl
batch-one_by_one state f (g ∷ gs) = elim (Option-cases (attached state)) [
  | inl e ↦ unattached state f g gs e
  | inr ((acked, p), e) ↦ elim (round-split acked f p) [
    | inl (r, h) ↦ refused state acked p f g gs r e h
    | inr (q, h) ↦
        batch_more state acked p q f g gs e h
        ∙ batch-one_by_one (resumed state q) g gs
        ∙ sym (single_more state acked p q f g gs e h)
  ]
]
