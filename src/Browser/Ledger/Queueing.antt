-- ===== src/Browser/Ledger/Queueing.antt =====
-- input-intent-ledger.ts: the invariant over the calls that queue, admit and start an intent.
use zhongduan.Base.{
  has_id, is_some, has_id-others, ℕ, ◌+◌, ◌≡◌, refl, ap, subst, inl, inr, false, Option, none, some,
  List, [], ◌∷◌, arith, Bool-cases, map_get, length, length-append, ok, ok-injective, bind_inv,
}
use zhongduan.Browser.Intents.{Admitted, consumed, pre_admission, queued, sending}
use zhongduan.Browser.Ledger.{
  IntentLedger, enqueue_found, can_reserve_pre_admission, take_pre_admission, pre_admission_records,
  can_admit, admit_found, start_found, index_get,
}
use zhongduan.Browser.Ledger.Index.{
  weigh, absent, keep-Indexes, push-Indexes, remove-Indexes, keep-Complete, push-Complete,
  remove-Complete,
}
use zhongduan.Browser.Ledger.Kept.{
  can_admit_lem, Record, queue_size, pre_admission_size, terminal_size, Kept, Keeping, less_queued,
  results_kept,
}

module _ (Payload Frame : Type 0) where
  pub enqueue-Keeping :
      (o : Option (Record Payload Frame)) (id : ℕ) (payload : Payload) (bytes : ℕ)
      (s : IntentLedger Payload Frame)
      → map_get id s.records ≡ o
      → Kept Payload Frame s
      → Keeping Payload Frame (enqueue_found Payload Frame o id payload bytes s)
  unfolding enqueue_found
  enqueue-Keeping none id payload bytes s e h = tt
  enqueue-Keeping (some (consumed b)) id payload bytes s e (h, l) =
      elim (Bool-cases (can_reserve_pre_admission Payload Frame bytes s)) [
        | inr x ↦ rw x tt
        | inl x ↦ rw x (
          record {
            queue =
                keep-Indexes (queue_size Payload Frame) s.records id _ s.queue_ids s.queue_bytes
                  (absent (queue_size Payload Frame) s.records id s.queue_ids
                    (ap (weigh (queue_size Payload Frame)) e) h.queue.counted)
                  h.queue;
            queue_all =
                keep-Complete (queue_size Payload Frame) s.records id
                  (pre_admission b payload bytes) s.queue_ids refl h.queue_all;
            waiting =
                push-Indexes (pre_admission_size Payload Frame) s.records id
                  (pre_admission b payload bytes) s.pre_admission_ids s.pre_admission_bytes bytes
                  (absent (pre_admission_size Payload Frame) s.records id s.pre_admission_ids
                    (ap (weigh (pre_admission_size Payload Frame)) e) h.waiting.counted)
                  refl h.waiting;
            results =
                results_kept Payload Frame id (some (consumed b)) (pre_admission b payload bytes) s
                  e refl h.results;
            results_all =
                keep-Complete (terminal_size Payload Frame) s.records id
                  (pre_admission b payload bytes) s.terminal_order refl h.results_all;
          },
          l,
        )
      ]
  enqueue-Keeping (some _) id payload bytes s e h = tt

  pub take-Keeping :
      (s t : IntentLedger Payload Frame) (rs : List (Record Payload Frame))
      → take_pre_admission Payload Frame s ≡ ok (rs, t)
      → Kept Payload Frame s
      → Kept Payload Frame t
  unfolding take_pre_admission
  take-Keeping s t rs e (h, l) =
      let (w, _, k) =
        bind_inv (pre_admission_records Payload Frame s)
          (λ x. ok (x, record s { pre_admission_ids = []; pre_admission_bytes = 0 })) e in
      subst (Kept Payload Frame) (ap (λ p. p.1) (ok-injective k)) (
        record {
          queue = h.queue;
          queue_all = h.queue_all;
          waiting = record { distinct = tt; counted = tt; sum = refl };
          results = h.results;
          results_all = h.results_all;
        },
        l,
      )

  pub admit-Keeping :
      (o : Option (Record Payload Frame)) (id : ℕ) (a : Admitted) (frame : Frame) (deadline : ℕ)
      (s : IntentLedger Payload Frame)
      → map_get id s.records ≡ o
      → has_id id s.pre_admission_ids ≡ false
      → Kept Payload Frame s
      → Keeping Payload Frame (admit_found Payload Frame o id a frame deadline s)
  unfolding admit_found
  admit-Keeping none id a frame deadline s e n h = tt
  admit-Keeping (some (pre_admission b payload bytes)) id a frame deadline s e n (h, l) =
      elim (Bool-cases (can_admit Payload Frame a.encoded_bytes s)) [
        | inr x ↦ rw x tt
        | inl x ↦ elim (Bool-cases (is_some (index_get a.identity s.active_by_identity))) [
          | inl y ↦ rw (x, y) tt
          | inr y ↦
              rw (x, y)
                (
                  record {
                    queue =
                        push-Indexes (queue_size Payload Frame) s.records id
                          (queued b a frame deadline) s.queue_ids s.queue_bytes a.encoded_bytes
                          (absent (queue_size Payload Frame) s.records id s.queue_ids
                            (ap (weigh (queue_size Payload Frame)) e) h.queue.counted)
                          refl h.queue;
                    queue_all =
                        push-Complete (queue_size Payload Frame) s.records id
                          (queued b a frame deadline) s.queue_ids h.queue_all;
                    waiting =
                        keep-Indexes (pre_admission_size Payload Frame) s.records id
                          (queued b a frame deadline) s.pre_admission_ids s.pre_admission_bytes
                          (has_id-others id s.pre_admission_ids n) h.waiting;
                    results =
                        results_kept Payload Frame id (some (pre_admission b payload bytes))
                          (queued b a frame deadline) s e refl h.results;
                    results_all =
                        keep-Complete (terminal_size Payload Frame) s.records id
                          (queued b a frame deadline) s.terminal_order refl h.results_all;
                  },
                  let (p, c, q) =
                        can_admit_lem (length s.active_by_identity) (length s.queue_ids)
                          (s.queue_bytes + a.encoded_bytes) x in
                      record {
                        queue_count = omega (arith, length-append s.queue_ids (id ∷ []));
                        queue_limit = q;
                        pending =
                            omega
                              (arith, length-append s.active_by_identity ((a.identity, id) ∷ []));
                        retained_limit = l.retained_limit;
                      },
                )
        ]
      ]
  admit-Keeping (some _) id a frame deadline s e n h = tt

  pub start-Keeping :
      (o : Option (Record Payload Frame)) (id decision : ℕ) (s : IntentLedger Payload Frame)
      → map_get id s.records ≡ o
      → Kept Payload Frame s
      → Keeping Payload Frame (start_found Payload Frame o id decision s)
  unfolding start_found
  start-Keeping none id decision s e h = tt
  start-Keeping (some (queued b a frame deadline)) id decision s e (h, l) =
      rw (h.queue_all id (ap (λ o. is_some (weigh (queue_size Payload Frame) o)) e)) (
        record {
          queue =
              (remove-Indexes (queue_size Payload Frame) s.records id (sending b a frame decision)
                s.queue_ids s.queue_bytes a.encoded_bytes
                (h.queue_all id (ap (λ o. is_some (weigh (queue_size Payload Frame) o)) e))
                (ap (weigh (queue_size Payload Frame)) e) h.queue).0;
          queue_all =
              remove-Complete (queue_size Payload Frame) s.records id (sending b a frame decision)
                s.queue_ids refl h.queue_all;
          waiting =
              keep-Indexes (pre_admission_size Payload Frame) s.records id
                (sending b a frame decision) s.pre_admission_ids s.pre_admission_bytes
                (absent (pre_admission_size Payload Frame) s.records id s.pre_admission_ids
                  (ap (weigh (pre_admission_size Payload Frame)) e) h.waiting.counted)
                h.waiting;
          results =
              results_kept Payload Frame id (some (queued b a frame deadline))
                (sending b a frame decision) s e refl h.results;
          results_all =
              keep-Complete (terminal_size Payload Frame) s.records id (sending b a frame decision)
                s.terminal_order refl h.results_all;
        },
        less_queued Payload Frame id a.encoded_bytes s l,
      )
  start-Keeping (some _) id decision s e h = tt
