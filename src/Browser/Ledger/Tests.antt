-- ===== src/Browser/Ledger/Tests.antt =====
-- Runs of the ledger's model, and its properties at a concrete schedule. Payloads and frames are
-- numbers.
use zhongduan.Base.{ℕ, ◌≡◌, ◌≢◌, ◌⊎◌, refl, none, some, List, [], ◌∷◌, map_get, arith}
use zhongduan.Browser.Intents.{
  InputIdentity, unknown_kind, InputIntentResult, deterministic, input_ack, written, Admitted,
  settled_admitted, IntentBase,
}
use zhongduan.Browser.Ledger.{
  IntentLedger, empty_ledger, create_consumed, identify_found, identify, enqueue_found,
  enqueue_pre_admission, take_pre_admission, admit_found, admit, start_found, start_sending,
  sent_found, mark_sent, terminate_found, begin_termination, evict, finish_found, finish,
  get_result,
}
use zhongduan.Browser.Ledger.Kept.{Kept}
use zhongduan.Browser.Ledger.Runs.{
  LedgerCall, create_call, enqueue_call, take_call, admit_call, start_call, sent_call, finish_call,
  call_ledger, run_ledger, AllProper, run_ledger-Kept,
}
use zhongduan.Browser.Ledger.Results.{result_once}
use zhongduan.Browser.Ledger.Answers.{Answered, run_ledger-Answered}

abbrev identity : InputIdentity
identity = record { writer_fence = 3; input_epoch = 9 ∷ []; client_input_seq = 1 }

abbrev admission : Admitted
admission = record {
  identity = identity;
  encoded_bytes = 20;
  admitted_at_ms = 11;
  transport_generation = 2;
}

abbrev base : IntentBase
base = record { local_intent_id = 5; kind = unknown_kind; consumed_at_ms = 10 }

abbrev answer : InputIntentResult
answer = record {
  local_intent_id = 5;
  kind = unknown_kind;
  identity = some identity;
  consumed_at_ms = 10;
  terminal_at_ms = 15;
  outcome = deterministic input_ack written 8;
}

abbrev queued_calls : List (LedgerCall ℕ ℕ)
queued_calls =
    create_call 5 10
    ∷ enqueue_call 5 77 16
    ∷ take_call
    ∷ admit_call 5 admission 78 261
    ∷ create_call 6 12
    ∷ enqueue_call 6 80 30
    ∷ []

abbrev settling : List (LedgerCall ℕ ℕ)
settling = start_call 5 12 ∷ sent_call 5 400 ∷ finish_call 5 answer ∷ []

abbrev later : List (LedgerCall ℕ ℕ)
later = finish_call 5 answer ∷ create_call 7 20 ∷ []

abbrev queued_ledger : IntentLedger ℕ ℕ
queued_ledger = run_ledger ℕ ℕ queued_calls (empty_ledger ℕ ℕ)

abbrev ended_ledger : IntentLedger ℕ ℕ
ended_ledger = run_ledger ℕ ℕ settling queued_ledger

queued_run :
    (queued_ledger.queue_ids ≡ 5 ∷ [])
    × (queued_ledger.queue_bytes ≡ 20)
    × (queued_ledger.pre_admission_ids ≡ 6 ∷ [])
    × (queued_ledger.pre_admission_bytes ≡ 30)
unfolding run_ledger call_ledger create_consumed identify identify_found enqueue_pre_admission
    enqueue_found take_pre_admission admit admit_found start_sending start_found mark_sent
    sent_found begin_termination terminate_found finish finish_found evict
queued_run = (refl, refl, refl, refl)

ended_run :
    (ended_ledger.terminal_order ≡ 5 ∷ [])
    × (ended_ledger.queue_bytes ≡ 0)
    × (map_get 5 ended_ledger.records ≡ some (settled_admitted base admission (some 12) answer))
unfolding run_ledger call_ledger create_consumed identify identify_found enqueue_pre_admission
    enqueue_found take_pre_admission admit admit_found start_sending start_found mark_sent
    sent_found begin_termination terminate_found finish finish_found evict
ended_run = (refl, refl, refl)

queued_calls-Proper : AllProper ℕ ℕ queued_calls (empty_ledger ℕ ℕ)
unfolding run_ledger call_ledger create_consumed identify identify_found enqueue_pre_admission
    enqueue_found take_pre_admission admit admit_found start_sending start_found mark_sent
    sent_found begin_termination terminate_found finish finish_found evict
queued_calls-Proper = (tt, (tt, (tt, (refl, (tt, (tt, tt))))))

run_ledger-Kept_example : Kept ℕ ℕ queued_ledger
run_ledger-Kept_example = run_ledger-Kept ℕ ℕ queued_calls queued_calls-Proper

run_ledger-Answered_example : Answered ℕ ℕ queued_ledger
run_ledger-Answered_example = run_ledger-Answered ℕ ℕ queued_calls queued_calls-Proper

seven_other : ◌≢◌ {A = ℕ} 7 5
seven_other e = omega arith

result_once_example :
    (get_result ℕ ℕ 5 (run_ledger ℕ ℕ later ended_ledger) ≡ get_result ℕ ℕ 5 ended_ledger)
    ⊎ (get_result ℕ ℕ 5 (run_ledger ℕ ℕ later ended_ledger) ≡ none)
result_once_example =
    result_once ℕ ℕ 5 (settled_admitted base admission (some 12) answer) ended_ledger later
      ended_run.2 refl (tt, (seven_other, tt))
