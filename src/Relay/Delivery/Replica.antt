-- ===== src/Relay/Delivery/Replica.antt =====
-- relay-delivery.ts and replica-cursor.ts: a batch of the relay at the cursor of a replica.
use zhongduan.Base.{
  ℕ, ◌+◌, ◌≡◌, refl, sym, ap, ◌∙◌, subst, inl, inr, true, false, none, some, List, [], ◌∷◌, ◌==◌,
  Result, if◌then◌else◌, length, ok, arith, Bool-cases, ==_iff, All,
}
use zhongduan.Protocol.Frame.{
  DataFrame, ResizePayload, decode_resize_payload, pty_output, resize_applied, replay_commit,
}
use zhongduan.Protocol.Cursor.{ReplicaCursor, AppliedMutation, advance, apply_mutation_cursor}
use zhongduan.Protocol.Cursor.Stream.{apply_all}
use zhongduan.Protocol.Credit.{RangeError, DeliveryCreditCursor}
use zhongduan.Relay.Delivery.{
  DeliveryCursorState, advanced, Progress, Round, more, deliver_loop, resume,
  advance_delivery_cursor_batch,
}
use zhongduan.Relay.Delivery.Cursor.{advance-Run, state_of}
use zhongduan.Relay.Delivery.Rounds.{Through, round-Through, round-split}

-- The frames that change the terminal: a replay commit only ends a phase.
abbrev pub mutations : List DataFrame → List DataFrame
mutations [] = []
mutations (f ∷ fs) = if f.kind == replay_commit then mutations fs else f ∷ mutations fs

-- A frame of the delivery; a resize says a size.
pub record Addressed (epoch generation : ℕ) (f : DataFrame) : Type 0 where
  pub in_epoch : f.session_epoch ≡ epoch
  pub in_generation : f.delivery_generation ≡ generation
  pub size :
      (f.kind ≡ resize_applied) → (r : ResizePayload) × (decode_resize_payload f.payload ≡ ok r)

abbrev pub at : ℕ → ℕ → DeliveryCreditCursor → ReplicaCursor
at epoch generation sent = record {
  session_epoch = epoch;
  delivery_generation = generation;
  last_event_seq = sent.event_seq;
  next_pty_offset = sent.next_pty_offset;
}

applies :
    (epoch generation : ℕ) (acked : DeliveryCreditCursor) (f : DataFrame) (p q : Progress)
    → Addressed epoch generation f
    → Through acked f p q
    → (f.kind == replay_commit) ≡ false
    → (a : AppliedMutation) × (apply_mutation_cursor (at epoch generation p.sent) f ≡ ok a)
      × (a.cursor ≡ at epoch generation q.sent)
unfolding apply_mutation_cursor advance
applies epoch generation acked f p q to t e =
    let b1 = (==_iff f.session_epoch epoch).1 to.in_epoch in
    let b2 = (==_iff f.delivery_generation generation).1 to.in_generation in
    let ev : f.event_seq ≡ p.sent.event_seq + 1 = ground (arith, t.event, e) in
    let b3 = (==_iff f.event_seq (p.sent.event_seq + 1)).1 ev in
    let b4 = (==_iff f.pty_offset p.sent.next_pty_offset).1 t.offset in
    let last : f.event_seq ≡ q.sent.event_seq = t.event ∙ sym t.next_event in
    elim (Bool-cases (f.kind == pty_output)) [
      | inl k ↦
          let next : p.sent.next_pty_offset + length f.payload ≡ q.sent.next_pty_offset =
            sym (t.next_pty ∙ rw k refl) in
          (
            record {
              cursor = at epoch generation (record {
                event_seq = f.event_seq;
                next_pty_offset = p.sent.next_pty_offset + length f.payload;
              });
              resize = none;
            },
            rw (b1, b2, b3, b4, k) refl,
            λ i. at epoch generation (record { event_seq = last i; next_pty_offset = next i }),
          )
      | inr k ↦
          let j : (f.kind == resize_applied) ≡ true = ground (arith, k, e, t.allowed) in
          let (r, d) = to.size ((==_iff f.kind resize_applied).0 j) in
          let next : p.sent.next_pty_offset ≡ q.sent.next_pty_offset =
            sym (t.next_pty ∙ ground (arith, k)) in
          (
            record {
              cursor =
                  at epoch generation
                    (record { event_seq = f.event_seq; next_pty_offset = p.sent.next_pty_offset });
              resize = some r;
            },
            rw (b1, b2, b3, b4, k, j, d) refl,
            λ i. at epoch generation (record { event_seq = last i; next_pty_offset = next i }),
          )
    ]

skips :
    (acked : DeliveryCreditCursor) (f : DataFrame) (p q : Progress)
    → Through acked f p q
    → (f.kind == replay_commit) ≡ true
    → q.sent ≡ p.sent
skips acked f p q t e = λ i. record { event_seq = ev i; next_pty_offset = next i }
  where
    ev : q.sent.event_seq ≡ p.sent.event_seq
    ev = ground (arith, t.next_event)

    next : q.sent.next_pty_offset ≡ p.sent.next_pty_offset
    next = ground (arith, t.next_pty)

loop_follows :
    (epoch generation : ℕ) (acked : DeliveryCreditCursor) (fs : List DataFrame) (p q : Progress)
    → deliver_loop acked fs p ≡ ok (more q)
    → All (Addressed epoch generation) fs
    → apply_all (at epoch generation p.sent) (mutations fs) ≡ ok (at epoch generation q.sent)
unfolding deliver_loop apply_all
loop_follows epoch generation acked [] p q h to =
    ap (λ (s : DeliveryCreditCursor). ok (at epoch generation s)) (same h)
  where
    same :
        {x y : Progress}
        → ◌≡◌ {A = Result RangeError Round} (ok (more x)) (ok (more y))
        → x.sent ≡ y.sent
    same e = cc
loop_follows epoch generation acked (f ∷ fs) p q h to = elim (round-split acked f p) [
  | inl (r, e) ↦ cc (rw (e, deliver_loop) at h)
  | inr (x, e) ↦
      let t = round-Through acked f p x e in
      let rest = loop_follows epoch generation acked fs x q (rw (e, deliver_loop) at h) to.1 in
      elim (Bool-cases (f.kind == replay_commit)) [
        | inl k ↦ rw k (
            subst
              (λ (s : DeliveryCreditCursor).
                apply_all (at epoch generation s) (mutations fs) ≡ ok (at epoch generation q.sent))
              (skips acked f p x t k) rest)
        | inr k ↦ let (a, m, c) = applies epoch generation acked f p x to.0 t k in rw (k, m, c) rest
      ]
]

-- When the relay accepts a batch of frames of one delivery whose resizes are sizes, a replica that
-- stands at the sent cursor applies every mutation of the batch and stands at the new sent cursor.
pub advance-apply_all :
    (epoch generation : ℕ) (state : DeliveryCursorState) (fs : List DataFrame)
    (next : DeliveryCursorState) (n : ℕ) (sent : DeliveryCreditCursor)
    → advance_delivery_cursor_batch state fs ≡ ok (advanced next n)
    → state.sent_event_seq ≡ some sent.event_seq
    → state.sent_pty_offset ≡ some sent.next_pty_offset
    → All (Addressed epoch generation) fs
    → (behind : DeliveryCreditCursor) × (apply_all (at epoch generation sent) (mutations fs)
        ≡ ok (at epoch generation behind))
      × (next.sent_event_seq ≡ some behind.event_seq)
      × (next.sent_pty_offset ≡ some behind.next_pty_offset)
advance-apply_all epoch generation state fs next n sent h se sp to =
    let run = advance-Run state fs next n h in
    let step : next ≡ state_of state (resume state (more run.behind)) =
      ap (state_of state) run.result in
    let start : run.before.sent ≡ sent = λ i. record {
      event_seq = some_inj (sym run.attachment.sent_event ∙ se) i;
      next_pty_offset = some_inj (sym run.attachment.sent_pty ∙ sp) i;
    } in
    (
      run.behind.sent,
      subst
          (λ (s : DeliveryCreditCursor).
            apply_all (at epoch generation s) (mutations fs)
            ≡ ok (at epoch generation run.behind.sent))
          start (loop_follows epoch generation run.acked fs run.before run.behind run.loop to),
      ap (λ (s : DeliveryCursorState). s.sent_event_seq) step,
      ap (λ (s : DeliveryCursorState). s.sent_pty_offset) step,
    )
  where
    some_inj : {a b : ℕ} → some a ≡ some b → a ≡ b
    some_inj e = cc
