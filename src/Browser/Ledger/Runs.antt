-- ===== src/Browser/Ledger/Runs.antt =====
-- input-intent-ledger.ts: schedules of the ledger's calls.
use zhongduan.Base.{
  has_id, ℕ, ◌≡◌, refl, true, false, List, [], ◌∷◌, arith, map_get, Result, ok, err,
}
use zhongduan.Browser.Intents.{IntentTerminationReason, Admitted}
use zhongduan.Browser.Ledger.{
  LedgerError, IntentLedger, create_consumed, identify, enqueue_pre_admission, take_pre_admission,
  admit, start_sending, mark_sent, begin_termination,
}
use zhongduan.Browser.Intents.{InputIntentResult}
use zhongduan.Browser.Ledger.{finish, empty_ledger}
use zhongduan.Browser.Ledger.Kept.{
  Record, Kept, Keeping, create-Keeping, identify-Keeping, sent-Keeping, terminate-Kept,
}
use zhongduan.Browser.Ledger.Queueing.{enqueue-Keeping, take-Keeping, admit-Keeping, start-Keeping}
use zhongduan.Browser.Ledger.Finish.{finish-Keeping}

module _ (Payload Frame : Type 0) where
  pub data LedgerCall : Type 0 where
    create_call : ℕ → ℕ → LedgerCall
    identify_call : ℕ → List ℕ → LedgerCall
    enqueue_call : ℕ → Payload → ℕ → LedgerCall
    take_call : LedgerCall
    admit_call : ℕ → Admitted → Frame → ℕ → LedgerCall
    start_call : ℕ → ℕ → LedgerCall
    sent_call : ℕ → ℕ → LedgerCall
    terminate_call : ℕ → IntentTerminationReason → ℕ → LedgerCall
    finish_call : ℕ → InputIntentResult → LedgerCall

  abbrev pub taken :
      Result LedgerError (List (Record Payload Frame) × IntentLedger Payload Frame)
      → Result LedgerError (IntentLedger Payload Frame)
  taken (ok (records, t)) = ok t
  taken (err e) = err e

  unfoldable pub call_ledger :
      LedgerCall → IntentLedger Payload Frame → Result LedgerError (IntentLedger Payload Frame)
  unfolding identify enqueue_pre_admission admit start_sending mark_sent begin_termination finish
  call_ledger (create_call id now) s = create_consumed Payload Frame id now s
  call_ledger (identify_call id kind) s = identify Payload Frame id kind s
  call_ledger (enqueue_call id payload bytes) s =
      enqueue_pre_admission Payload Frame id payload bytes s
  call_ledger take_call s = taken (take_pre_admission Payload Frame s)
  call_ledger (admit_call id a frame deadline) s = admit Payload Frame id a frame deadline s
  call_ledger (start_call id decision) s = start_sending Payload Frame id decision s
  call_ledger (sent_call id deadline) s = mark_sent Payload Frame id deadline s
  call_ledger (terminate_call id reason deadline) s =
      ok (begin_termination Payload Frame id reason deadline s)
  call_ledger (finish_call id result) s = finish Payload Frame id result s

  -- A call that throws changes nothing.
  abbrev pub after :
      Result LedgerError (IntentLedger Payload Frame)
      → IntentLedger Payload Frame
      → IntentLedger Payload Frame
  after (ok t) s = t
  after (err e) s = s

  unfoldable pub run_ledger :
      List LedgerCall → IntentLedger Payload Frame → IntentLedger Payload Frame
  unfolding call_ledger
  run_ledger [] s = s
  run_ledger (call ∷ calls) s = run_ledger calls (after (call_ledger call s) s)

  -- Only what `takePreAdmission` has handed over is admitted.
  abbrev pub Proper : LedgerCall → IntentLedger Payload Frame → Type 0
  Proper (admit_call id a frame deadline) s = has_id id s.pre_admission_ids ≡ false
  Proper _ s = Unit

  abbrev pub AllProper : List LedgerCall → IntentLedger Payload Frame → Type 0
  AllProper [] s = Unit
  AllProper (call ∷ calls) s = Proper call s × AllProper calls (after (call_ledger call s) s)

  taken-Keeping :
      (s : IntentLedger Payload Frame)
      (r : Result LedgerError (List (Record Payload Frame) × IntentLedger Payload Frame))
      → take_pre_admission Payload Frame s ≡ r
      → Kept Payload Frame s
      → Keeping Payload Frame (taken r)
  taken-Keeping s (ok (rs, t)) e h = take-Keeping Payload Frame s t rs e h
  taken-Keeping s (err x) e h = tt

  call-Keeping :
      (call : LedgerCall) (s : IntentLedger Payload Frame)
      → Proper call s
      → Kept Payload Frame s
      → Keeping Payload Frame (call_ledger call s)
  unfolding call_ledger identify enqueue_pre_admission admit start_sending mark_sent
      begin_termination finish
  call-Keeping (create_call id now) s p h = create-Keeping Payload Frame id now s h
  call-Keeping (identify_call id kind) s p h =
      identify-Keeping Payload Frame (map_get id s.records) id kind s refl h
  call-Keeping (enqueue_call id payload bytes) s p h =
      enqueue-Keeping Payload Frame (map_get id s.records) id payload bytes s refl h
  call-Keeping take_call s p h = taken-Keeping s (take_pre_admission Payload Frame s) refl h
  call-Keeping (admit_call id a frame deadline) s p h =
      admit-Keeping Payload Frame (map_get id s.records) id a frame deadline s refl p h
  call-Keeping (start_call id decision) s p h =
      start-Keeping Payload Frame (map_get id s.records) id decision s refl h
  call-Keeping (sent_call id deadline) s p h =
      sent-Keeping Payload Frame (map_get id s.records) id deadline s refl h
  call-Keeping (terminate_call id reason deadline) s p h =
      terminate-Kept Payload Frame (map_get id s.records) id reason deadline s refl h
  call-Keeping (finish_call id result) s p h =
      finish-Keeping Payload Frame (map_get id s.records) id result s refl h

  after-Kept :
      (r : Result LedgerError (IntentLedger Payload Frame)) (s : IntentLedger Payload Frame)
      → Keeping Payload Frame r
      → Kept Payload Frame s
      → Kept Payload Frame (after r s)
  after-Kept (ok t) s k h = k
  after-Kept (err e) s k h = h

  run-Kept :
      (calls : List LedgerCall) (s : IntentLedger Payload Frame)
      → AllProper calls s
      → Kept Payload Frame s
      → Kept Payload Frame (run_ledger calls s)
  unfolding run_ledger
  run-Kept [] s p h = h
  run-Kept (call ∷ calls) s p h =
      run-Kept calls (after (call_ledger call s) s) p.1
        (after-Kept (call_ledger call s) s (call-Keeping call s p.0 h) h)

  -- From the empty ledger, through every schedule of calls in which only what was taken for admission
  -- is admitted: the queue and the order of the results hold exactly the queued and the terminal
  -- records, each once, and the list of what waits holds such records only, each once; the counters of
  -- bytes are the sums over their lists; and the queue has at most 256 inputs within its bytes, at most
  -- 1,024 identities are pending and at most 4,096 results are retained.
  pub run_ledger-Kept :
      (calls : List LedgerCall)
      → AllProper calls (empty_ledger Payload Frame)
      → Kept Payload Frame (run_ledger calls (empty_ledger Payload Frame))
  run_ledger-Kept calls p = run-Kept calls (empty_ledger Payload Frame) p (
    record {
      queue = record { distinct = tt; counted = tt; sum = refl };
      queue_all = λ id h. absurd (never h);
      waiting = record { distinct = tt; counted = tt; sum = refl };
      results = record { distinct = tt; counted = tt; sum = refl };
      results_all = λ id h. absurd (never h);
    },
    record {
      queue_count = omega arith;
      queue_limit = omega arith;
      pending = omega arith;
      retained_limit = omega arith;
    },
  )
    where
      never : false ≡ true → ⊥
      never h = absurd (cc)
