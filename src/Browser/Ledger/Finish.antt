-- ===== src/Browser/Ledger/Finish.antt =====
-- input-intent-ledger.ts: the end of an intent and the eviction of the oldest results, and a schedule
-- of calls.
use zhongduan.Base.{
  remove_id, has_id, is_some, has_id-others, ℕ, ◌-◌, ◌≤◌, ◌≡◌, refl, ap, ◌∙◌, inl, inr, not, Option,
  none, some, List, [], ◌∷◌, ◌++◌, if◌then◌else◌, arith, Bool-cases, map_get, map_set, length, ok,
  err,
}
use zhongduan.Browser.Intents.{
  max_retained_results, IntentBase, Admitted, consumed, pre_admission, queued, sending, sent,
  terminating, settled, settled_admitted,
}
use zhongduan.Browser.Ledger.{IntentLedger}
use zhongduan.Browser.Ledger.Index.{
  weigh, Indexes, absent, keep-Indexes, remove-Indexes, keep-Complete, remove-Complete,
}
use zhongduan.Browser.Intents.{InputIntentResult}
use zhongduan.Browser.Ledger.{
  result_mismatch, matches, evict, retain, settle_record, finish_found, index_delete, IdentityIndex,
}
use zhongduan.Browser.Ledger.Kept.{
  Record, queue_size, pre_admission_size, terminal_size, Keeps, Bounded, Kept, Keeping, less_queued,
}
use zhongduan.Browser.Ledger.Retained.{length-index_delete, evict-Keeps, ended}

module _ (Payload Frame : Type 0) where
  -- Together with the eviction.
  settled-Kept :
      (r : Record Payload Frame) (id : ℕ) (s : IntentLedger Payload Frame) (active : IdentityIndex)
      (ps : List ℕ) (pb : ℕ) (qs : List ℕ) (qb : ℕ)
      → Keeps Payload Frame (map_set id r s.records) (s.terminal_order ++ (id ∷ [])) ps pb qs qb
      → Bounded Payload Frame active s.terminal_order qs qb
      → Kept Payload Frame (
          retain Payload Frame
            (evict Payload Frame max_retained_results
              (s.terminal_order ++ (id ∷ []))
              (map_set id r s.records))
            (record s {
              active_by_identity = active;
              pre_admission_ids = ps;
              pre_admission_bytes = pb;
              queue_ids = qs;
              queue_bytes = qb;
            }))
  settled-Kept r id s active ps pb qs qb h l =
      let (k, n) =
        evict-Keeps Payload Frame max_retained_results (s.terminal_order ++ (id ∷ []))
          (map_set id r s.records) ps pb qs qb h in
      (
        k,
        record {
          queue_count = l.queue_count;
          queue_limit = l.queue_limit;
          pending = l.pending;
          retained_limit = n;
        },
      )

  -- A record outside the queue and the list of what waits ends.
  finish-plain :
      (r : Record Payload Frame) (x : Record Payload Frame) (id : ℕ)
      (s : IntentLedger Payload Frame) (active : IdentityIndex)
      → map_get id s.records ≡ some r
      → (queue_size Payload Frame r ≡ none)
        × (pre_admission_size Payload Frame r ≡ none)
        × (terminal_size Payload Frame r ≡ none)
      → (queue_size Payload Frame x ≡ none)
        × (pre_admission_size Payload Frame x ≡ none)
        × (terminal_size Payload Frame x ≡ some 0)
      → length active ≤ length s.active_by_identity
      → Kept Payload Frame s
      → Kept Payload Frame (
          retain Payload Frame
            (evict Payload Frame max_retained_results
              (s.terminal_order ++ (id ∷ []))
              (map_set id x s.records))
            (record s { active_by_identity = active }))
  finish-plain r x id s active e (q, p, t) (u, v, w) n (h, l) =
      let qs =
        keep-Indexes (queue_size Payload Frame) s.records id x s.queue_ids s.queue_bytes
          (absent (queue_size Payload Frame) s.records id s.queue_ids
            (ap (weigh (queue_size Payload Frame)) e ∙ q) h.queue.counted)
          h.queue in
      let ws =
        keep-Indexes (pre_admission_size Payload Frame) s.records id x s.pre_admission_ids
          s.pre_admission_bytes
          (absent (pre_admission_size Payload Frame) s.records id s.pre_admission_ids
            (ap (weigh (pre_admission_size Payload Frame)) e ∙ p) h.waiting.counted)
          h.waiting in
      settled-Kept x id s active s.pre_admission_ids s.pre_admission_bytes s.queue_ids s.queue_bytes
        (ended Payload Frame id x s.records s.terminal_order s.pre_admission_ids
          s.pre_admission_bytes s.queue_ids s.queue_bytes
          (ap (weigh (terminal_size Payload Frame)) e ∙ t) w qs
          (keep-Complete (queue_size Payload Frame) s.records id x s.queue_ids u h.queue_all) ws
          h.results h.results_all)
        (record {
          queue_count = l.queue_count;
          queue_limit = l.queue_limit;
          pending = omega (arith, n, l.pending);
          retained_limit = l.retained_limit;
        })

  finish-waiting :
      (b : IntentBase) (payload : Payload) (bytes : ℕ) (result : InputIntentResult) (id : ℕ)
      (s : IntentLedger Payload Frame)
      → map_get id s.records ≡ some (pre_admission b payload bytes)
      → Kept Payload Frame s
      → Kept Payload Frame (settle_record Payload Frame (pre_admission b payload bytes) id result s)
  finish-waiting b payload bytes result id s e (h, l) =
      elim (Bool-cases (has_id id s.pre_admission_ids)) [
        | inl k ↦ rw k (
            settled-Kept (settled b result) id s s.active_by_identity
              (remove_id id s.pre_admission_ids) (s.pre_admission_bytes - bytes) s.queue_ids
              s.queue_bytes
              (keeping (remove_id id s.pre_admission_ids) (s.pre_admission_bytes - bytes)
                (remove-Indexes (pre_admission_size Payload Frame) s.records id (settled b result)
                  s.pre_admission_ids s.pre_admission_bytes bytes k
                  (ap (weigh (pre_admission_size Payload Frame)) e) h.waiting).0)
              l)
        | inr k ↦ rw k (
            settled-Kept (settled b result) id s s.active_by_identity s.pre_admission_ids
              s.pre_admission_bytes s.queue_ids s.queue_bytes
              (keeping s.pre_admission_ids s.pre_admission_bytes (
                keep-Indexes (pre_admission_size Payload Frame) s.records id (settled b result)
                  s.pre_admission_ids s.pre_admission_bytes (has_id-others id s.pre_admission_ids k)
                  h.waiting))
              l)
      ]
    where
      keeping :
          (ps : List ℕ) (pb : ℕ)
          → Indexes
              (pre_admission_size Payload Frame)
              (map_set id (settled b result) s.records)
              ps
              pb
          → Keeps Payload Frame
              (map_set id (settled b result) s.records)
              (s.terminal_order ++ (id ∷ []))
              ps
              pb
              s.queue_ids
              s.queue_bytes
      keeping ps pb w =
          ended Payload Frame id (settled b result) s.records s.terminal_order ps pb s.queue_ids
            s.queue_bytes (ap (weigh (terminal_size Payload Frame)) e) refl
            (keep-Indexes (queue_size Payload Frame) s.records id (settled b result) s.queue_ids
              s.queue_bytes
              (absent (queue_size Payload Frame) s.records id s.queue_ids
                (ap (weigh (queue_size Payload Frame)) e) h.queue.counted)
              h.queue)
            (keep-Complete (queue_size Payload Frame) s.records id (settled b result) s.queue_ids
              refl h.queue_all)
            w h.results h.results_all

  finish-queued :
      (b : IntentBase) (a : Admitted) (frame : Frame) (deadline : ℕ) (result : InputIntentResult)
      (id : ℕ) (s : IntentLedger Payload Frame)
      → map_get id s.records ≡ some (queued b a frame deadline)
      → Kept Payload Frame s
      → Kept Payload Frame (settle_record Payload Frame (queued b a frame deadline) id result s)
  finish-queued b a frame deadline result id s e (h, l) =
      let x : Record Payload Frame = settled_admitted b a none result in
      let listed = h.queue_all id (ap (λ o. is_some (weigh (queue_size Payload Frame) o)) e) in
      let less = less_queued Payload Frame id a.encoded_bytes s l in
      rw listed (
        settled-Kept x id s (index_delete a.identity s.active_by_identity) s.pre_admission_ids
          s.pre_admission_bytes (remove_id id s.queue_ids) (s.queue_bytes - a.encoded_bytes)
          (ended Payload Frame id x s.records s.terminal_order s.pre_admission_ids
            s.pre_admission_bytes (remove_id id s.queue_ids) (s.queue_bytes - a.encoded_bytes)
            (ap (weigh (terminal_size Payload Frame)) e) refl
            (remove-Indexes (queue_size Payload Frame) s.records id x s.queue_ids s.queue_bytes
              a.encoded_bytes listed (ap (weigh (queue_size Payload Frame)) e) h.queue).0
            (remove-Complete (queue_size Payload Frame) s.records id x s.queue_ids refl h.queue_all)
            (keep-Indexes (pre_admission_size Payload Frame) s.records id x s.pre_admission_ids
              s.pre_admission_bytes
              (absent (pre_admission_size Payload Frame) s.records id s.pre_admission_ids
                (ap (weigh (pre_admission_size Payload Frame)) e) h.waiting.counted)
              h.waiting)
            h.results h.results_all)
          (record {
            queue_count = less.queue_count;
            queue_limit = less.queue_limit;
            pending = omega (arith, l.pending, length-index_delete a.identity s.active_by_identity);
            retained_limit = l.retained_limit;
          }))

  settle_record-Kept :
      (r : Record Payload Frame) (result : InputIntentResult) (id : ℕ)
      (s : IntentLedger Payload Frame)
      → map_get id s.records ≡ some r
      → terminal_size Payload Frame r ≡ none
      → Kept Payload Frame s
      → Kept Payload Frame (settle_record Payload Frame r id result s)
  settle_record-Kept (consumed b) result id s e t h =
      finish-plain (consumed b) _ id s s.active_by_identity e (refl, refl, refl) (refl, refl, refl)
        (omega arith) h
  settle_record-Kept (pre_admission b payload bytes) result id s e t h =
      finish-waiting b payload bytes result id s e h
  settle_record-Kept (queued b a frame deadline) result id s e t h =
      finish-queued b a frame deadline result id s e h
  settle_record-Kept (sending b a frame d) result id s e t h =
      finish-plain (sending b a frame d) _ id s (index_delete a.identity s.active_by_identity) e
        (refl, refl, refl) (refl, refl, refl) (length-index_delete a.identity s.active_by_identity)
        h
  settle_record-Kept (sent b a d x) result id s e t h =
      finish-plain (sent b a d x) _ id s (index_delete a.identity s.active_by_identity) e
        (refl, refl, refl) (refl, refl, refl) (length-index_delete a.identity s.active_by_identity)
        h
  settle_record-Kept (terminating b a d x y) result id s e t h =
      finish-plain (terminating b a d x y) _ id s (index_delete a.identity s.active_by_identity) e
        (refl, refl, refl) (refl, refl, refl) (length-index_delete a.identity s.active_by_identity)
        h
  settle_record-Kept (settled b x) result id s e t h = absurd (cc)
  settle_record-Kept (settled_admitted b a d x) result id s e t h = absurd (cc)

  checked-Keeping :
      (r : Record Payload Frame) (result : InputIntentResult) (id : ℕ)
      (s : IntentLedger Payload Frame)
      → Kept Payload Frame (settle_record Payload Frame r id result s)
      → Keeping Payload Frame (
          if not (matches Payload Frame result r)
          then err result_mismatch
          else ok (settle_record Payload Frame r id result s))
  checked-Keeping r result id s h = elim (Bool-cases (matches Payload Frame result r)) [
    | inl e ↦ rw e h
    | inr e ↦ rw e tt
  ]

  pub finish-Keeping :
      (o : Option (Record Payload Frame)) (id : ℕ) (result : InputIntentResult)
      (s : IntentLedger Payload Frame)
      → map_get id s.records ≡ o
      → Kept Payload Frame s
      → Keeping Payload Frame (finish_found Payload Frame o id result s)
  unfolding finish_found
  finish-Keeping none id result s e h = h
  finish-Keeping (some (settled b x)) id result s e h = h
  finish-Keeping (some (settled_admitted b a d x)) id result s e h = h
  finish-Keeping (some (consumed b)) id result s e h =
      checked-Keeping (consumed b) result id s
        (settle_record-Kept (consumed b) result id s e refl h)
  finish-Keeping (some (pre_admission b p y)) id result s e h =
      checked-Keeping (pre_admission b p y) result id s
        (settle_record-Kept (pre_admission b p y) result id s e refl h)
  finish-Keeping (some (queued b a f y)) id result s e h =
      checked-Keeping (queued b a f y) result id s
        (settle_record-Kept (queued b a f y) result id s e refl h)
  finish-Keeping (some (sending b a f y)) id result s e h =
      checked-Keeping (sending b a f y) result id s
        (settle_record-Kept (sending b a f y) result id s e refl h)
  finish-Keeping (some (sent b a d y)) id result s e h =
      checked-Keeping (sent b a d y) result id s
        (settle_record-Kept (sent b a d y) result id s e refl h)
  finish-Keeping (some (terminating b a d y z)) id result s e h =
      checked-Keeping (terminating b a d y z) result id s
        (settle_record-Kept (terminating b a d y z) result id s e refl h)
