-- ===== src/Browser/Ledger.antt =====
-- apps/terminal-cloud/src/browser/input-intent-ledger.ts: the ledger of the browser's inputs. A call
-- gives the ledger it leaves, or the error it throws, where it changes nothing; the record that the
-- source returns is the one then found under the id.
pub mod Index
pub mod Kept
pub mod Queueing
pub mod Finish
pub mod Retained
pub mod Runs
pub mod Results
pub mod Answers
mod Tests
use zhongduan.Base.{
  remove_id, has_id, is_some, ℕ, ◌+◌, ◌-◌, Bool, true, false, ◌&&◌, ◌||◌, not, Option, none, some,
  List, [], ◌∷◌, ◌++◌, ltb, leb, ◌==◌, if◌then◌else◌, length, Result, ok, err, ◌>>=◌, ◌>>◌, require,
  map_get, map_set, map_delete, same_text, min,
}
use zhongduan.Browser.Intents.{
  max_bytes, max_count, max_pending, max_pre_admission_age_ms, max_retained_results, InputIdentity,
  same_key, same_identity, unknown_kind, InputIntentResult, IntentTerminationReason, IntentBase,
  Admitted, IntentRecord, consumed, pre_admission, queued, sending, sent, terminating, settled,
  settled_admitted, base_of, admitted_of, identity_in, identity_of, deadline_of, terminal_record,
  result_of, InputIntentSnapshot, snapshot_of,
}

pub data LedgerError : Type 0 where
  local_intent_id_taken unknown_local_intent_id wrong_phase no_capacity : LedgerError
  input_identity_taken result_mismatch stale_index : LedgerError

-- `#activeByIdentity`, in the order of insertion.
abbrev pub IdentityIndex : Type 0
IdentityIndex = List (InputIdentity × ℕ)

abbrev pub index_get : InputIdentity → IdentityIndex → Option ℕ
index_get key [] = none
index_get key ((k, id) ∷ rest) = if same_key k key then some id else index_get key rest

abbrev pub index_delete : InputIdentity → IdentityIndex → IdentityIndex
index_delete key [] = []
index_delete key ((k, id) ∷ rest) =
    if same_key k key then index_delete key rest else (k, id) ∷ index_delete key rest

module _ (Payload Frame : Type 0) where
  abbrev Record : Type 0
  Record = IntentRecord Payload Frame

  pub record IntentLedger : Type 0 where
    pub records : List (ℕ × IntentRecord Payload Frame)
    pub active_by_identity : IdentityIndex
    pub terminal_order : List ℕ
    pub pre_admission_ids : List ℕ
    pub pre_admission_bytes : ℕ
    pub queue_ids : List ℕ
    pub queue_bytes : ℕ

  abbrev pub empty_ledger : IntentLedger
  empty_ledger = record {
    records = [];
    active_by_identity = [];
    terminal_order = [];
    pre_admission_ids = [];
    pre_admission_bytes = 0;
    queue_ids = [];
    queue_bytes = 0;
  }

  abbrev pub Outcome : Type 0
  Outcome = Result LedgerError IntentLedger

  -- `this.#records.set(localIntentId, record)`.
  abbrev pub put : ℕ → IntentRecord Payload Frame → IntentLedger → IntentLedger
  put id r s = record s { records = map_set id r s.records }

  unfoldable pub create_consumed : ℕ → ℕ → IntentLedger → Outcome
  create_consumed id consumed_at_ms s =
      if is_some (map_get id s.records)
      then err local_intent_id_taken
      else ok (
          put id
            (consumed (record {
              local_intent_id = id;
              kind = unknown_kind;
              consumed_at_ms = consumed_at_ms;
            }))
            s)

  -- The methods that `require` a phase, with the record found under the id.
  unfoldable pub identify_found : Option Record → ℕ → List ℕ → IntentLedger → Outcome
  identify_found none id kind s = err unknown_local_intent_id
  identify_found (some (consumed b)) id kind s = ok (put id (consumed (record b { kind = kind })) s)
  identify_found (some _) id kind s = err wrong_phase

  unfoldable pub identify : ℕ → List ℕ → IntentLedger → Outcome
  unfolding identify_found
  identify id kind s = identify_found (map_get id s.records) id kind s

  abbrev pub result_in : Option Record → Option InputIntentResult
  result_in none = none
  result_in (some r) = result_of Payload Frame r

  abbrev pub get_result : ℕ → IntentLedger → Option InputIntentResult
  get_result id s = result_in (map_get id s.records)

  abbrev pub get_snapshot : ℕ → IntentLedger → Option (InputIntentSnapshot Payload Frame)
  get_snapshot id s = elim (map_get id s.records) [
    | none ↦ none
    | some r ↦ some (snapshot_of Payload Frame r)
  ]

  abbrev pub can_reserve_pre_admission : ℕ → IntentLedger → Bool
  can_reserve_pre_admission bytes s =
      ltb (length s.pre_admission_ids + length s.queue_ids) max_count
      && leb (s.pre_admission_bytes + s.queue_bytes + bytes) max_bytes

  unfoldable pub enqueue_found : Option Record → ℕ → Payload → ℕ → IntentLedger → Outcome
  enqueue_found none id payload bytes s = err unknown_local_intent_id
  enqueue_found (some (consumed b)) id payload bytes s =
      if not (can_reserve_pre_admission bytes s)
      then err no_capacity
      else ok (record (put id (pre_admission b payload bytes) s) {
        pre_admission_ids = s.pre_admission_ids ++ (id ∷ []);
        pre_admission_bytes = s.pre_admission_bytes + bytes;
      })
  enqueue_found (some _) id payload bytes s = err wrong_phase

  unfoldable pub enqueue_pre_admission : ℕ → Payload → ℕ → IntentLedger → Outcome
  unfolding enqueue_found
  enqueue_pre_admission id payload bytes s = enqueue_found (map_get id s.records) id payload bytes s

  abbrev pub as_pre_admission : Option Record → Result LedgerError Record
  as_pre_admission none = err unknown_local_intent_id
  as_pre_admission (some (pre_admission b payload bytes)) = ok (pre_admission b payload bytes)
  as_pre_admission (some _) = err wrong_phase

  -- `preAdmissionRecords` and `queuedRecords`: a map over the ids that may throw.
  abbrev pub collect :
      (Option Record → Result LedgerError Record)
      → List ℕ
      → List (ℕ × IntentRecord Payload Frame)
      → Result LedgerError (List Record)
  collect pick [] records = ok []
  collect pick (id ∷ ids) records =
      pick (map_get id records) >>= λ r. collect pick ids records >>= λ rest. ok (r ∷ rest)

  abbrev pub pre_admission_records : IntentLedger → Result LedgerError (List Record)
  pre_admission_records s = collect as_pre_admission s.pre_admission_ids s.records

  -- `takePreAdmission`: the records, and the ledger without them in its index.
  unfoldable pub take_pre_admission : IntentLedger → Result LedgerError (List Record × IntentLedger)
  take_pre_admission s = pre_admission_records s >>= λ records.
      ok (records, record s { pre_admission_ids = []; pre_admission_bytes = 0 })

  abbrev pub can_admit : ℕ → IntentLedger → Bool
  can_admit bytes s =
      ltb (length s.active_by_identity) max_pending
      && ltb (length s.queue_ids) max_count
      && leb (s.queue_bytes + bytes) max_bytes

  abbrev pub enter_queue : IntentBase → Admitted → Frame → ℕ → ℕ → IntentLedger → IntentLedger
  enter_queue b a frame deadline id s = record (put id (queued b a frame deadline) s) {
    queue_ids = s.queue_ids ++ (id ∷ []);
    queue_bytes = s.queue_bytes + a.encoded_bytes;
    active_by_identity = s.active_by_identity ++ ((a.identity, id) ∷ []);
  }

  unfoldable pub admit_found : Option Record → ℕ → Admitted → Frame → ℕ → IntentLedger → Outcome
  admit_found none id a frame deadline s = err unknown_local_intent_id
  admit_found (some (pre_admission b payload bytes)) id a frame deadline s =
      if not (can_admit a.encoded_bytes s)
      then err no_capacity
      else if is_some (index_get a.identity s.active_by_identity)
      then err input_identity_taken
      else ok (enter_queue b a frame deadline id s)
  admit_found (some _) id a frame deadline s = err wrong_phase

  unfoldable pub admit : ℕ → Admitted → Frame → ℕ → IntentLedger → Outcome
  unfolding admit_found
  admit id a frame deadline s = admit_found (map_get id s.records) id a frame deadline s

  -- `#removeQueued` and `#removePreAdmission`: without the id nothing is taken off.
  abbrev pub remove_queued : ℕ → ℕ → IntentLedger → IntentLedger
  remove_queued id bytes s =
      if has_id id s.queue_ids
      then record s { queue_ids = remove_id id s.queue_ids; queue_bytes = s.queue_bytes - bytes }
      else s

  abbrev pub remove_pre_admission : ℕ → ℕ → IntentLedger → IntentLedger
  remove_pre_admission id bytes s =
      if has_id id s.pre_admission_ids
      then record s {
        pre_admission_ids = remove_id id s.pre_admission_ids;
        pre_admission_bytes = s.pre_admission_bytes - bytes;
      }
      else s

  abbrev pub as_queued : Option Record → Result LedgerError Record
  as_queued none = err unknown_local_intent_id
  as_queued (some (queued b a frame deadline)) = ok (queued b a frame deadline)
  as_queued (some _) = err wrong_phase

  -- `queueHead`.
  abbrev pub head_of : List ℕ → IntentLedger → Result LedgerError (Option Record)
  head_of [] s = ok none
  head_of (id ∷ ids) s = as_queued (map_get id s.records) >>= λ r. ok (some r)

  abbrev pub queue_head : IntentLedger → Result LedgerError (Option Record)
  queue_head s = head_of s.queue_ids s

  abbrev pub queued_records : IntentLedger → Result LedgerError (List Record)
  queued_records s = collect as_queued s.queue_ids s.records

  unfoldable pub start_found : Option Record → ℕ → ℕ → IntentLedger → Outcome
  start_found none id decision s = err unknown_local_intent_id
  start_found (some (queued b a frame deadline)) id decision s =
      ok (put id (sending b a frame decision) (remove_queued id a.encoded_bytes s))
  start_found (some _) id decision s = err wrong_phase

  unfoldable pub start_sending : ℕ → ℕ → IntentLedger → Outcome
  unfolding start_found
  start_sending id decision s = start_found (map_get id s.records) id decision s

  unfoldable pub sent_found : Option Record → ℕ → ℕ → IntentLedger → Outcome
  sent_found none id deadline s = err unknown_local_intent_id
  sent_found (some (sending b a frame decision)) id deadline s =
      ok (put id (sent b a decision deadline) s)
  sent_found (some _) id deadline s = err wrong_phase

  unfoldable pub mark_sent : ℕ → ℕ → IntentLedger → Outcome
  unfolding sent_found
  mark_sent id deadline s = sent_found (map_get id s.records) id deadline s

  -- `beginTermination`: a record that is not being sent is left as it is.
  unfoldable pub terminate_found :
      Option Record → ℕ → IntentTerminationReason → ℕ → IntentLedger → IntentLedger
  terminate_found (some (sending b a frame decision)) id reason deadline s =
      put id (terminating b a decision deadline reason) s
  terminate_found (some (sent b a decision _)) id reason deadline s =
      put id (terminating b a decision deadline reason) s
  terminate_found _ id reason deadline s = s

  unfoldable pub begin_termination : ℕ → IntentTerminationReason → ℕ → IntentLedger → IntentLedger
  unfolding terminate_found
  begin_termination id reason deadline s =
      terminate_found (map_get id s.records) id reason deadline s

  abbrev pub as_active : Option Record → Result LedgerError Record
  as_active (some (queued b a frame deadline)) = ok (queued b a frame deadline)
  as_active (some (sending b a frame decision)) = ok (sending b a frame decision)
  as_active (some (sent b a decision deadline)) = ok (sent b a decision deadline)
  as_active (some (terminating b a decision deadline reason)) =
      ok (terminating b a decision deadline reason)
  as_active _ = err stale_index

  abbrev pub ids_of : IdentityIndex → List ℕ
  ids_of [] = []
  ids_of ((k, id) ∷ rest) = id ∷ ids_of rest

  abbrev pub active_records : IntentLedger → Result LedgerError (List Record)
  active_records s = collect as_active (ids_of s.active_by_identity) s.records

  abbrev pub or_none : Result LedgerError Record → Option Record
  or_none (ok r) = some r
  or_none (err e) = none

  -- `getByIdentity`.
  abbrev pub get_by_identity : InputIdentity → IntentLedger → Option Record
  get_by_identity identity s = elim (index_get identity s.active_by_identity) [
    | none ↦ none
    | some id ↦ or_none (as_active (map_get id s.records))
  ]

  abbrev pub matches : InputIntentResult → IntentRecord Payload Frame → Bool
  matches result r =
      result.local_intent_id == (base_of Payload Frame r).local_intent_id
      && same_text result.kind (base_of Payload Frame r).kind
      && result.consumed_at_ms == (base_of Payload Frame r).consumed_at_ms
      && same_identity result.identity (identity_of Payload Frame r)

  -- What `finish` takes off the index of the record's phase.
  abbrev pub leave_index : IntentRecord Payload Frame → ℕ → IntentLedger → IntentLedger
  leave_index (pre_admission b payload bytes) id s = remove_pre_admission id bytes s
  leave_index (queued b a frame deadline) id s = remove_queued id a.encoded_bytes s
  leave_index _ id s = s

  abbrev pub forget_identity : Option InputIdentity → IntentLedger → IntentLedger
  forget_identity none s = s
  forget_identity (some identity) s = record s {
    active_by_identity = index_delete identity s.active_by_identity;
  }

  -- The oldest of the retained results goes.
  abbrev pub evict_found :
      Option Record
      → ℕ
      → List (ℕ × IntentRecord Payload Frame)
      → List (ℕ × IntentRecord Payload Frame)
  evict_found (some (settled b result)) id records = map_delete id records
  evict_found (some (settled_admitted b a decision result)) id records = map_delete id records
  evict_found _ id records = records

  -- The loop at the end of `finish`, over the order of the results.
  unfoldable pub evict :
      ℕ
      → List ℕ
      → List (ℕ × IntentRecord Payload Frame)
      → List ℕ × List (ℕ × IntentRecord Payload Frame)
  evict limit [] records = ([], records)
  evict limit (id ∷ ids) records =
      let rest = evict limit ids (evict_found (map_get id records) id records) in
      if ltb limit (length (id ∷ ids)) then rest else (id ∷ ids, records)

  abbrev pub retain : List ℕ × List (ℕ × IntentRecord Payload Frame) → IntentLedger → IntentLedger
  retain (order, records) s = record s { terminal_order = order; records = records }

  abbrev pub settle_record :
      IntentRecord Payload Frame → ℕ → InputIntentResult → IntentLedger → IntentLedger
  settle_record r id result s =
      let t =
        put id (terminal_record Payload Frame r result)
          (forget_identity (identity_of Payload Frame r) (leave_index r id s)) in
      retain (evict max_retained_results (t.terminal_order ++ (id ∷ [])) t.records) t

  -- `finish`: an unknown or terminal record gives `null`, and changes nothing.
  unfoldable pub finish_found : Option Record → ℕ → InputIntentResult → IntentLedger → Outcome
  unfolding evict
  finish_found none id result s = ok s
  finish_found (some (settled b old)) id result s = ok s
  finish_found (some (settled_admitted b a decision old)) id result s = ok s
  finish_found (some r) id result s =
      if not (matches result r) then err result_mismatch else ok (settle_record r id result s)

  unfoldable pub finish : ℕ → InputIntentResult → IntentLedger → Outcome
  unfolding finish_found
  finish id result s = finish_found (map_get id s.records) id result s

  abbrev pub sooner : ℕ → Option ℕ → Option ℕ
  sooner deadline none = some deadline
  sooner deadline (some earliest) = some (min earliest deadline)

  -- The deadline of a record, in the loop of `earliestDeadline` that reads it.
  abbrev pub waiting_deadline : IntentRecord Payload Frame → Option ℕ
  waiting_deadline r = some ((base_of Payload Frame r).consumed_at_ms + max_pre_admission_age_ms)

  abbrev pub queued_deadline : IntentRecord Payload Frame → Option ℕ
  queued_deadline r = deadline_of Payload Frame r

  abbrev pub active_deadline : IntentRecord Payload Frame → Option ℕ
  active_deadline (sent b a decision deadline) = some deadline
  active_deadline (terminating b a decision deadline reason) = some deadline
  active_deadline _ = none

  abbrev pub sooner_of : Option ℕ → Option ℕ → Option ℕ
  sooner_of none earliest = earliest
  sooner_of (some deadline) earliest = sooner deadline earliest

  abbrev pub earliest_of :
      (IntentRecord Payload Frame → Option ℕ) → List Record → Option ℕ → Option ℕ
  earliest_of deadline [] earliest = earliest
  earliest_of deadline (r ∷ rs) earliest = earliest_of deadline rs (sooner_of (deadline r) earliest)

  -- `earliestDeadline`.
  abbrev pub earliest_deadline : IntentLedger → Result LedgerError (Option ℕ)
  earliest_deadline s = pre_admission_records s >>= λ waiting. queued_records s >>= λ queue.
      active_records s >>= λ active. ok (
        earliest_of active_deadline active
          (earliest_of queued_deadline queue (earliest_of waiting_deadline waiting none)))
