-- ===== src/Browser/Ledger/Results.antt =====
-- input-intent-ledger.ts: an intent has one result.
use zhongduan.Base.{
  has_id, is_some, ℕ, ◌==◌, ◌≡◌, ◌≢◌, refl, sym, ap, subst, ◌∙◌, ◌⊎◌, inl, inr, not, Option, none,
  some, List, [], ◌∷◌, All, ltb, if◌then◌else◌, Bool-cases, map_get, map_set, length, map_delete,
  get-set_other, get-delete, get-delete_other, ==_iff, differs, Result, ok, err, ok-injective,
  bind_inv,
}
use zhongduan.Browser.Intents.{
  max_retained_results, IntentTerminationReason, Admitted, consumed, pre_admission, queued, sending,
  sent, terminating, settled, settled_admitted,
}
use zhongduan.Browser.Ledger.{
  LedgerError, IntentLedger, create_consumed, identify_found, identify, enqueue_found,
  enqueue_pre_admission, can_reserve_pre_admission, take_pre_admission, pre_admission_records,
  can_admit, admit_found, admit, start_found, start_sending, sent_found, mark_sent, terminate_found,
  begin_termination, index_get,
}
use zhongduan.Browser.Ledger.Index.{weigh}
use zhongduan.Browser.Intents.{InputIntentResult, terminal_record, identity_of}
use zhongduan.Browser.Ledger.{
  result_mismatch, result_in, matches, leave_index, forget_identity, evict_found, evict,
  settle_record, finish_found, finish, get_result,
}
use zhongduan.Browser.Ledger.Kept.{Record, terminal_size}
use zhongduan.Browser.Ledger.Runs.{
  LedgerCall, create_call, identify_call, enqueue_call, take_call, admit_call, start_call,
  sent_call, terminate_call, finish_call, taken, call_ledger, after, run_ledger,
}

module _ (Payload Frame : Type 0) (id : ℕ) (r : Record Payload Frame) where
  -- The record of the intent is the terminal one, or was evicted.
  abbrev pub Final : List (ℕ × Record Payload Frame) → Type 0
  Final m = (map_get id m ≡ some r) ⊎ (map_get id m ≡ none)

  -- The id is not given to a new intent.
  abbrev pub Untouched : LedgerCall Payload Frame → Type 0
  Untouched (create_call k now) = k ≢ id
  Untouched _ = Unit

  abbrev FinalIn : Result LedgerError (IntentLedger Payload Frame) → Type 0
  FinalIn (ok t) = Final t.records
  FinalIn (err e) = Unit

  module _ (ended : terminal_size Payload Frame r ≡ some 0) where
    -- A record that is not terminal is another one's.
    other_id :
        (k : ℕ) (x : Record Payload Frame) (m : List (ℕ × Record Payload Frame))
        → map_get k m ≡ some x
        → terminal_size Payload Frame x ≡ none
        → Final m
        → k ≢ id
    other_id k x m e t (inl h) same = clash (terminal_size Payload Frame x) t (
        ap (weigh (terminal_size Payload Frame))
          (sym (subst (λ z. map_get z m ≡ some x) same e) ∙ h)
        ∙ ended)
      where
        clash : (o : Option ℕ) → o ≡ none → o ≡ some 0 → ⊥
        clash o e f = absurd (cc)
    other_id k x m e t (inr h) same = gone (sym (subst (λ z. map_get z m ≡ some x) same e) ∙ h)
      where
        gone : ◌≡◌ {A = Option (Record Payload Frame)} (some x) none → ⊥
        gone e = absurd (cc)

    put-Final :
        (k : ℕ) (x y : Record Payload Frame) (m : List (ℕ × Record Payload Frame))
        → map_get k m ≡ some x
        → terminal_size Payload Frame x ≡ none
        → Final m
        → Final (map_set k y m)
    put-Final k x y m e t (inl h) = inl (get-set_other k id y m (other_id k x m e t (inl h)) ∙ h)
    put-Final k x y m e t (inr h) = inr (get-set_other k id y m (other_id k x m e t (inr h)) ∙ h)

    delete-Final : (k : ℕ) (m : List (ℕ × Record Payload Frame)) → Final m → Final (map_delete k m)
    delete-Final k m h = elim (Bool-cases (k == id)) [
      | inl e ↦
          inr (subst (λ z. map_get z (map_delete k m) ≡ none) ((==_iff k id).0 e) (get-delete k m))
      | inr e ↦ kept_other h (get-delete_other k id m (λ same. differs k id e same))
    ]
      where
        kept_other : Final m → map_get id (map_delete k m) ≡ map_get id m → Final (map_delete k m)
        kept_other (inl h) e = inl (e ∙ h)
        kept_other (inr h) e = inr (e ∙ h)

    evicted :
        (o : Option (Record Payload Frame)) (k : ℕ) (m : List (ℕ × Record Payload Frame))
        → Final m
        → Final (evict_found Payload Frame o k m)
    evicted (some (settled b x)) k m h = delete-Final k m h
    evicted (some (settled_admitted b a d x)) k m h = delete-Final k m h
    evicted none k m h = h
    evicted (some _) k m h = h

    evict-Final :
        (limit : ℕ) (order : List ℕ) (m : List (ℕ × Record Payload Frame))
        → Final m
        → Final (evict Payload Frame limit order m).1
    unfolding evict
    evict-Final limit [] m h = h
    evict-Final limit (k ∷ ks) m h = elim (Bool-cases (ltb limit (length (k ∷ ks)))) [
      | inr x ↦ rw x h
      | inl x ↦ rw x (
          evict-Final limit ks (evict_found Payload Frame (map_get k m) k m)
            (evicted (map_get k m) k m h))
    ]

    left_records :
        (y : Record Payload Frame) (k : ℕ) (s : IntentLedger Payload Frame)
        → (forget_identity Payload Frame
            (identity_of Payload Frame y)
            (leave_index Payload Frame y k s)).records
          ≡ s.records
    left_records (pre_admission b payload bytes) k s =
        elim (Bool-cases (has_id k s.pre_admission_ids)) [ inl e ↦ rw e refl | inr e ↦ rw e refl ]
    left_records (queued b a frame deadline) k s = elim (Bool-cases (has_id k s.queue_ids)) [
      | inl e ↦ rw e refl
      | inr e ↦ rw e refl
    ]
    left_records (consumed b) k s = refl
    left_records (sending b a frame x) k s = refl
    left_records (sent b a x y) k s = refl
    left_records (terminating b a x y z) k s = refl
    left_records (settled b x) k s = refl
    left_records (settled_admitted b a x y) k s = refl

    settle-Final :
        (k : ℕ) (x : Record Payload Frame) (result : InputIntentResult)
        (s : IntentLedger Payload Frame)
        → map_get k s.records ≡ some x
        → terminal_size Payload Frame x ≡ none
        → Final s.records
        → FinalIn (
            if not (matches Payload Frame result x)
            then err result_mismatch
            else ok (settle_record Payload Frame x k result s))
    settle-Final k x result s e t h = elim (Bool-cases (matches Payload Frame result x)) [
      | inr m ↦ rw m tt
      | inl m ↦
          rw m (
            settled_now x (put-Final k x (terminal_record Payload Frame x result) s.records e t h)
              t)
    ]
      where
        settled_now :
            (y : Record Payload Frame)
            → Final (map_set k (terminal_record Payload Frame y result) s.records)
            → terminal_size Payload Frame y ≡ none
            → Final (settle_record Payload Frame y k result s).records
        settled_now y g u = evict-Final max_retained_results _ _ (
            subst (λ m. Final (map_set k (terminal_record Payload Frame y result) m))
              (sym (left_records y k s)) g)

    create-Final :
        (k now : ℕ) (s : IntentLedger Payload Frame)
        → k ≢ id
        → Final s.records
        → FinalIn (create_consumed Payload Frame k now s)
    unfolding create_consumed
    create-Final k now s u h = elim (Bool-cases (is_some (map_get k s.records))) [
      | inl e ↦ rw e tt
      | inr e ↦ rw e (set_other _ h)
    ]
      where
        set_other : (x : Record Payload Frame) → Final s.records → Final (map_set k x s.records)
        set_other x (inl h) = inl (get-set_other k id x s.records u ∙ h)
        set_other x (inr h) = inr (get-set_other k id x s.records u ∙ h)

    identify-Final :
        (o : Option (Record Payload Frame)) (k : ℕ) (kind : List ℕ) (s : IntentLedger Payload Frame)
        → map_get k s.records ≡ o
        → Final s.records
        → FinalIn (identify_found Payload Frame o k kind s)
    unfolding identify_found
    identify-Final (some (consumed b)) k kind s e h = put-Final k (consumed b) _ s.records e refl h
    identify-Final none k kind s e h = tt
    identify-Final (some _) k kind s e h = tt

    enqueue-Final :
        (o : Option (Record Payload Frame)) (k : ℕ) (payload : Payload) (bytes : ℕ)
        (s : IntentLedger Payload Frame)
        → map_get k s.records ≡ o
        → Final s.records
        → FinalIn (enqueue_found Payload Frame o k payload bytes s)
    unfolding enqueue_found
    enqueue-Final (some (consumed b)) k payload bytes s e h =
        elim (Bool-cases (can_reserve_pre_admission Payload Frame bytes s)) [
          | inr x ↦ rw x tt
          | inl x ↦ rw x (put-Final k (consumed b) _ s.records e refl h)
        ]
    enqueue-Final none k payload bytes s e h = tt
    enqueue-Final (some _) k payload bytes s e h = tt

    take-Final :
        (x : Result LedgerError (List (Record Payload Frame) × IntentLedger Payload Frame))
        (s : IntentLedger Payload Frame)
        → take_pre_admission Payload Frame s ≡ x
        → Final s.records
        → FinalIn (taken Payload Frame x)
    unfolding take_pre_admission
    take-Final (err x) s e h = tt
    take-Final (ok (rs, t)) s e h =
        let (w, _, k) =
          bind_inv (pre_admission_records Payload Frame s)
            (λ x. ok (x, record s { pre_admission_ids = []; pre_admission_bytes = 0 })) e in
        subst (λ (t : IntentLedger Payload Frame). Final t.records) (ap (λ p. p.1) (ok-injective k))
          h

    admit-Final :
        (o : Option (Record Payload Frame)) (k : ℕ) (a : Admitted) (frame : Frame) (deadline : ℕ)
        (s : IntentLedger Payload Frame)
        → map_get k s.records ≡ o
        → Final s.records
        → FinalIn (admit_found Payload Frame o k a frame deadline s)
    unfolding admit_found
    admit-Final (some (pre_admission b payload bytes)) k a frame deadline s e h =
        elim (Bool-cases (can_admit Payload Frame a.encoded_bytes s)) [
          | inr x ↦ rw x tt
          | inl x ↦ elim (Bool-cases (is_some (index_get a.identity s.active_by_identity))) [
            | inl y ↦ rw (x, y) tt
            | inr y ↦ rw (x, y) (put-Final k (pre_admission b payload bytes) _ s.records e refl h)
          ]
        ]
    admit-Final none k a frame deadline s e h = tt
    admit-Final (some _) k a frame deadline s e h = tt

    start-Final :
        (o : Option (Record Payload Frame)) (k decision : ℕ) (s : IntentLedger Payload Frame)
        → map_get k s.records ≡ o
        → Final s.records
        → FinalIn (start_found Payload Frame o k decision s)
    unfolding start_found
    start-Final (some (queued b a frame deadline)) k decision s e h =
        elim (Bool-cases (has_id k s.queue_ids)) [
          | inl x ↦ rw x (put-Final k (queued b a frame deadline) _ s.records e refl h)
          | inr x ↦ rw x (put-Final k (queued b a frame deadline) _ s.records e refl h)
        ]
    start-Final none k decision s e h = tt
    start-Final (some _) k decision s e h = tt

    sent-Final :
        (o : Option (Record Payload Frame)) (k deadline : ℕ) (s : IntentLedger Payload Frame)
        → map_get k s.records ≡ o
        → Final s.records
        → FinalIn (sent_found Payload Frame o k deadline s)
    unfolding sent_found
    sent-Final (some (sending b a f d)) k deadline s e h =
        put-Final k (sending b a f d) _ s.records e refl h
    sent-Final none k deadline s e h = tt
    sent-Final (some _) k deadline s e h = tt

    terminate-Final :
        (o : Option (Record Payload Frame)) (k : ℕ) (reason : IntentTerminationReason)
        (deadline : ℕ) (s : IntentLedger Payload Frame)
        → map_get k s.records ≡ o
        → Final s.records
        → Final (terminate_found Payload Frame o k reason deadline s).records
    unfolding terminate_found
    terminate-Final (some (sending b a f d)) k reason deadline s e h =
        put-Final k (sending b a f d) _ s.records e refl h
    terminate-Final (some (sent b a d x)) k reason deadline s e h =
        put-Final k (sent b a d x) _ s.records e refl h
    terminate-Final none k reason deadline s e h = h
    terminate-Final (some _) k reason deadline s e h = h

    finish-Final :
        (o : Option (Record Payload Frame)) (k : ℕ) (result : InputIntentResult)
        (s : IntentLedger Payload Frame)
        → map_get k s.records ≡ o
        → Final s.records
        → FinalIn (finish_found Payload Frame o k result s)
    unfolding finish_found
    finish-Final none k result s e h = h
    finish-Final (some (settled b x)) k result s e h = h
    finish-Final (some (settled_admitted b a d x)) k result s e h = h
    finish-Final (some (consumed b)) k result s e h = settle-Final k (consumed b) result s e refl h
    finish-Final (some (pre_admission b p y)) k result s e h =
        settle-Final k (pre_admission b p y) result s e refl h
    finish-Final (some (queued b a f y)) k result s e h =
        settle-Final k (queued b a f y) result s e refl h
    finish-Final (some (sending b a f y)) k result s e h =
        settle-Final k (sending b a f y) result s e refl h
    finish-Final (some (sent b a d y)) k result s e h =
        settle-Final k (sent b a d y) result s e refl h
    finish-Final (some (terminating b a d y z)) k result s e h =
        settle-Final k (terminating b a d y z) result s e refl h

    call-Final :
        (call : LedgerCall Payload Frame) (s : IntentLedger Payload Frame)
        → Untouched call
        → Final s.records
        → FinalIn (call_ledger Payload Frame call s)
    unfolding call_ledger identify enqueue_pre_admission admit start_sending mark_sent
        begin_termination finish
    call-Final (create_call k now) s u h = create-Final k now s u h
    call-Final (identify_call k kind) s u h = identify-Final (map_get k s.records) k kind s refl h
    call-Final (enqueue_call k p b) s u h = enqueue-Final (map_get k s.records) k p b s refl h
    call-Final take_call s u h = take-Final (take_pre_admission Payload Frame s) s refl h
    call-Final (admit_call k a f d) s u h = admit-Final (map_get k s.records) k a f d s refl h
    call-Final (start_call k d) s u h = start-Final (map_get k s.records) k d s refl h
    call-Final (sent_call k d) s u h = sent-Final (map_get k s.records) k d s refl h
    call-Final (terminate_call k x d) s u h = terminate-Final (map_get k s.records) k x d s refl h
    call-Final (finish_call k x) s u h = finish-Final (map_get k s.records) k x s refl h

    after-Final :
        (x : Result LedgerError (IntentLedger Payload Frame)) (s : IntentLedger Payload Frame)
        → FinalIn x
        → Final s.records
        → Final (after Payload Frame x s).records
    after-Final (ok t) s k h = k
    after-Final (err e) s k h = h

    run-Final :
        (calls : List (LedgerCall Payload Frame)) (s : IntentLedger Payload Frame)
        → All Untouched calls
        → Final s.records
        → Final (run_ledger Payload Frame calls s).records
    unfolding run_ledger
    run-Final [] s u h = h
    run-Final (call ∷ calls) s u h =
        run-Final calls (after Payload Frame (call_ledger Payload Frame call s) s) u.1
          (after-Final (call_ledger Payload Frame call s) s (call-Final call s u.0 h) h)

-- An intent has one result. Once a record is terminal, through every schedule of calls that gives its
-- id to no new intent, the ledger answers for the id the result it has then, or none because the
-- record was evicted: never another.
pub result_once :
    (Payload Frame : Type 0) (id : ℕ) (r : Record Payload Frame) (s : IntentLedger Payload Frame)
    (calls : List (LedgerCall Payload Frame))
    → map_get id s.records ≡ some r
    → terminal_size Payload Frame r ≡ some 0
    → All (Untouched Payload Frame id r) calls
    → (get_result Payload Frame id (run_ledger Payload Frame calls s)
        ≡ get_result Payload Frame id s)
      ⊎ (get_result Payload Frame id (run_ledger Payload Frame calls s) ≡ none)
result_once Payload Frame id r s calls e t u =
    answer (run-Final Payload Frame id r t calls s u (inl e))
  where
    answer :
        Final Payload Frame id r (run_ledger Payload Frame calls s).records
        → (get_result Payload Frame id (run_ledger Payload Frame calls s)
            ≡ get_result Payload Frame id s)
          ⊎ (get_result Payload Frame id (run_ledger Payload Frame calls s) ≡ none)
    answer (inl h) = inl (ap (result_in Payload Frame) (h ∙ sym e))
    answer (inr h) = inr (ap (result_in Payload Frame) h)
