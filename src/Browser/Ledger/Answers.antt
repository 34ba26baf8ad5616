-- ===== src/Browser/Ledger/Answers.antt =====
-- input-intent-ledger.ts: what `queuedRecords`, `queueHead`, `preAdmissionRecords` and
-- `takePreAdmission` hand out, after any calls.
use mathlib.Core.List.{Mem, mem-cons_self, mem-cons_of_mem}
use zhongduan.Base.{
  is_some, has_id, Distinct, ℕ, ◌+◌, ◌==◌, ==_iff, ◌≡◌, refl, sym, ap, subst, ◌∙◌, inl, inr, true,
  Option, none, some, List, [], ◌∷◌, All, map_get, Bool-cases, Result, ok,
}
use zhongduan.Browser.Intents.{pre_admission, queued}
use zhongduan.Browser.Ledger.{
  LedgerError, IntentLedger, collect, as_queued, as_pre_admission, pre_admission_records,
  take_pre_admission, queued_records, queue_head, head_of, empty_ledger,
}
use zhongduan.Browser.Ledger.Index.{weigh, total, count_of, Counted, Indexes}
use zhongduan.Browser.Ledger.Kept.{Record, queue_size, pre_admission_size, Kept}
use zhongduan.Browser.Ledger.Runs.{LedgerCall, run_ledger, AllProper, run_ledger-Kept}

module _ (Payload Frame : Type 0) where
  -- The records are those found under the ids, one for each and in their order.
  abbrev pub Found : List (ℕ × Record Payload Frame) → List ℕ → List (Record Payload Frame) → Type 0
  Found m [] [] = Unit
  Found m [] (r ∷ rs) = ⊥
  Found m (id ∷ ids) [] = ⊥
  Found m (id ∷ ids) (r ∷ rs) = (map_get id m ≡ some r) × Found m ids rs

  abbrev pub sum_of : (Record Payload Frame → Option ℕ) → List (Record Payload Frame) → ℕ
  sum_of size [] = 0
  sum_of size (r ∷ rs) = count_of (size r) + sum_of size rs

  -- A list of different ids with its counter of bytes, and the records behind it: all of the phase
  -- that `size` weighs, and of that many bytes together.
  pub record Listed (size : Record Payload Frame → Option ℕ) (m : List (ℕ × Record Payload Frame))
      (ids : List ℕ) (bytes : ℕ) (rs : List (Record Payload Frame)) : Type 0 where
    pub distinct : Distinct ids
    pub found : Found m ids rs
    pub phase : All (λ r. is_some (size r) ≡ true) rs
    pub sum : bytes ≡ sum_of size rs

  -- A pick that gives the record of its phase, and that record.
  abbrev Picks :
      (Record Payload Frame → Option ℕ)
      → (Option (Record Payload Frame) → Result LedgerError (Record Payload Frame))
      → Type 0
  Picks size pick = (r : Record Payload Frame) → is_some (size r) ≡ true → pick (some r) ≡ ok r

  as_queued-Picks : Picks (queue_size Payload Frame) (as_queued Payload Frame)
  as_queued-Picks (queued b a frame deadline) h = refl
  as_queued-Picks _ h = absurd (cc)

  as_pre_admission-Picks : Picks (pre_admission_size Payload Frame) (as_pre_admission Payload Frame)
  as_pre_admission-Picks (pre_admission b payload bytes) h = refl
  as_pre_admission-Picks _ h = absurd (cc)

  -- What `collect` gives.
  record Collected (size : Record Payload Frame → Option ℕ)
      (pick : Option (Record Payload Frame) → Result LedgerError (Record Payload Frame))
      (m : List (ℕ × Record Payload Frame)) (ids : List ℕ) : Type 0 where
    pub records : List (Record Payload Frame)
    pub result : collect Payload Frame pick ids m ≡ ok records
    pub found : Found m ids records
    pub phase : All (λ r. is_some (size r) ≡ true) records
    pub sum : total size m ids ≡ sum_of size records

  counted-some :
      (size : Record Payload Frame → Option ℕ) (o : Option (Record Payload Frame))
      → is_some (weigh size o) ≡ true
      → (r : Record Payload Frame) × (o ≡ some r) × (is_some (size r) ≡ true)
  counted-some size (some r) h = (r, refl, h)
  counted-some size none h = absurd (cc)

  collect-Collected :
      (size : Record Payload Frame → Option ℕ)
      (pick : Option (Record Payload Frame) → Result LedgerError (Record Payload Frame))
      → Picks size pick
      → (m : List (ℕ × Record Payload Frame)) (ids : List ℕ) → All (Counted size m) ids
      → Collected size pick m ids
  collect-Collected size pick f m [] h = record {
    records = [];
    result = refl;
    found = tt;
    phase = tt;
    sum = refl;
  }
  collect-Collected size pick f m (id ∷ ids) h =
      let (r, e, p) = counted-some size (map_get id m) h.0 in
      let c = collect-Collected size pick f m ids h.1 in
      record {
        records = r ∷ c.records;
        result = rw (e, f r p, c.result) refl;
        found = (e, c.found);
        phase = (p, c.phase);
        sum = rw (e, c.sum) refl;
      }

  -- A record under one of the ids is among those found.
  found-Mem :
      (m : List (ℕ × Record Payload Frame)) (id : ℕ) (r : Record Payload Frame) (ids : List ℕ)
      (rs : List (Record Payload Frame))
      → map_get id m ≡ some r
      → has_id id ids ≡ true
      → Found m ids rs
      → Mem r rs
  found-Mem m id r [] rs e h f = absurd (cc)
  found-Mem m id r (x ∷ ids) [] e h f = absurd f
  found-Mem m id r (x ∷ ids) (y ∷ rs) e h f = elim (Bool-cases (x == id)) [
    | inl t ↦
        subst (λ (z : Record Payload Frame). Mem z (y ∷ rs))
          (same y r (sym f.0 ∙ ap (λ (k : ℕ). map_get k m) ((==_iff x id).0 t) ∙ e)) mem-cons_self
    | inr t ↦ mem-cons_of_mem y (found-Mem m id r ids rs e (rw t at h) f.1)
  ]
    where
      same : (a b : Record Payload Frame) → some a ≡ some b → a ≡ b
      same a b p = cc

  abbrev pub first : List (Record Payload Frame) → Option (Record Payload Frame)
  first [] = none
  first (r ∷ rs) = some r

  -- What the ledger hands out: none of the calls throws; `queuedRecords` gives every queued record and
  -- no other, in the order of the queue, and `queueHead` the first of them; and `takePreAdmission`
  -- gives the records that wait, in their order, and leaves none waiting.
  pub record Answered (s : IntentLedger Payload Frame) : Type 0 where
    pub queue : List (Record Payload Frame)
    pub queue_result : queued_records Payload Frame s ≡ ok queue
    pub queue_listed : Listed (queue_size Payload Frame) s.records s.queue_ids s.queue_bytes queue
    pub queue_all :
        (id : ℕ) (r : Record Payload Frame)
        → map_get id s.records ≡ some r
        → is_some (queue_size Payload Frame r) ≡ true
        → Mem r queue
    pub head_result : queue_head Payload Frame s ≡ ok (first queue)
    pub waiting : List (Record Payload Frame)
    pub waiting_result : pre_admission_records Payload Frame s ≡ ok waiting
    pub waiting_listed :
        Listed
          (pre_admission_size Payload Frame)
          s.records
          s.pre_admission_ids
          s.pre_admission_bytes
          waiting
    pub taken :
        take_pre_admission Payload Frame s
        ≡ ok (waiting, record s { pre_admission_ids = []; pre_admission_bytes = 0 })

  head_of-first :
      (s : IntentLedger Payload Frame) (ids : List ℕ) (rs : List (Record Payload Frame))
      → Found s.records ids rs
      → All (λ r. is_some (queue_size Payload Frame r) ≡ true) rs
      → head_of Payload Frame ids s ≡ ok (first rs)
  head_of-first s [] [] f p = refl
  head_of-first s [] (r ∷ rs) f p = absurd f
  head_of-first s (id ∷ ids) [] f p = absurd f
  head_of-first s (id ∷ ids) (r ∷ rs) f p = rw (f.0, as_queued-Picks r p.0) refl

  listed :
      (size : Record Payload Frame → Option ℕ)
      (pick : Option (Record Payload Frame) → Result LedgerError (Record Payload Frame))
      (m : List (ℕ × Record Payload Frame)) (ids : List ℕ) (bytes : ℕ)
      → Indexes size m ids bytes
      → (c : Collected size pick m ids) → Listed size m ids bytes c.records
  listed size pick m ids bytes v c = record {
    distinct = v.distinct;
    found = c.found;
    phase = c.phase;
    sum = v.sum ∙ c.sum;
  }

  kept-Answered : (s : IntentLedger Payload Frame) → Kept Payload Frame s → Answered s
  unfolding take_pre_admission
  kept-Answered s (h, l) =
      let q =
        collect-Collected (queue_size Payload Frame) (as_queued Payload Frame) as_queued-Picks
          s.records s.queue_ids h.queue.counted in
      let w =
        collect-Collected (pre_admission_size Payload Frame) (as_pre_admission Payload Frame)
          as_pre_admission-Picks s.records s.pre_admission_ids h.waiting.counted in
      record {
        queue = q.records;
        queue_result = q.result;
        queue_listed = listed _ _ s.records s.queue_ids s.queue_bytes h.queue q;
        queue_all = λ id r e p.
            found-Mem s.records id r s.queue_ids q.records e (h.queue_all id (rw e p)) q.found;
        head_result = head_of-first s s.queue_ids q.records q.found q.phase;
        waiting = w.records;
        waiting_result = w.result;
        waiting_listed = listed _ _ s.records s.pre_admission_ids s.pre_admission_bytes h.waiting w;
        taken = rw w.result refl;
      }

  -- From the empty ledger, after every schedule of calls in which only what was taken for admission is
  -- admitted: `queuedRecords`, `queueHead` and `takePreAdmission` do not throw; the first gives every
  -- queued record and no other, one for each id of the queue and in its order, with the bytes that the
  -- ledger counts; the second gives the first of these; and the third gives the waiting records under
  -- the ids of their list in its order, with the bytes counted, and leaves none waiting.
  pub run_ledger-Answered :
      (calls : List (LedgerCall Payload Frame))
      → AllProper Payload Frame calls (empty_ledger Payload Frame)
      → Answered (run_ledger Payload Frame calls (empty_ledger Payload Frame))
  run_ledger-Answered calls p =
      kept-Answered (run_ledger Payload Frame calls (empty_ledger Payload Frame))
        (run_ledger-Kept Payload Frame calls p)
