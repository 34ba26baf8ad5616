-- ===== src/Browser/Ledger/Kept.antt =====
-- input-intent-ledger.ts: the indexes of a ledger that keeps its records, through the calls up to the
-- end of an intent.
use zhongduan.Base.{
  remove_id, ℕ, ◌-◌, ◌≤◌, ◌<◌, ◌==◌, ◌≡◌, refl, ap, ◌∙◌, inl, inr, true, ◌&&◌, Option, none, some,
  List, [], ◌∷◌, ltb, leb, arith, Bool-cases, Option-cases, map_get, map_set, length, Result, ok,
  err,
}
use zhongduan.Browser.Intents.{
  max_bytes, max_count, max_pending, max_retained_results, InputIdentity, IntentTerminationReason,
  IntentRecord, consumed, pre_admission, queued, sending, sent, settled, settled_admitted,
}
use zhongduan.Browser.Ledger.{
  LedgerError, IntentLedger, put, create_consumed, identify_found, sent_found, terminate_found,
}
use zhongduan.Browser.Ledger.Index.{
  weigh, total, Indexes, Complete, absent, keep-Indexes, keep-Complete,
}

pub can_admit_lem :
    (p c q : ℕ)
    → (ltb p max_pending && ltb c max_count && leb q max_bytes) ≡ true
    → (p < max_pending) × (c < max_count) × (q ≤ max_bytes)
can_admit_lem p c q h = ground arith

length-remove : (id : ℕ) (ids : List ℕ) → length (remove_id id ids) ≤ length ids
length-remove id [] = omega arith
length-remove id (x ∷ xs) = elim (Bool-cases (x == id)) [
  | inl e ↦ rw e (omega arith)
  | inr e ↦ rw e (omega (arith, length-remove id xs))
]

module _ (Payload Frame : Type 0) where
  abbrev pub Record : Type 0
  Record = IntentRecord Payload Frame

  -- The bytes that a record of each phase counts for.
  abbrev pub queue_size : Record → Option ℕ
  queue_size (queued b a frame deadline) = some a.encoded_bytes
  queue_size _ = none

  abbrev pub pre_admission_size : Record → Option ℕ
  pre_admission_size (pre_admission b payload bytes) = some bytes
  pre_admission_size _ = none

  abbrev pub terminal_size : Record → Option ℕ
  terminal_size (settled b result) = some 0
  terminal_size (settled_admitted b a decision result) = some 0
  terminal_size _ = none

  -- The queue and the order of the results hold exactly the records of their phase, each once, and
  -- the list of what is to be admitted only such records; the bytes are those of the records.
  pub record Keeps (m : List (ℕ × Record)) (order pre_ids : List ℕ) (pre_bytes : ℕ)
      (queue_ids : List ℕ) (queue_bytes : ℕ) : Type 0 where
    pub queue : Indexes queue_size m queue_ids queue_bytes
    pub queue_all : Complete queue_size m queue_ids
    pub waiting : Indexes pre_admission_size m pre_ids pre_bytes
    pub results : Indexes terminal_size m order (total terminal_size m order)
    pub results_all : Complete terminal_size m order

  -- The limits that each call checks by itself.
  pub record Bounded (active : List (InputIdentity × ℕ)) (order queue_ids : List ℕ)
      (queue_bytes : ℕ) : Type 0 where
    pub queue_count : length queue_ids ≤ max_count
    pub queue_limit : queue_bytes ≤ max_bytes
    pub pending : length active ≤ max_pending
    pub retained_limit : length order ≤ max_retained_results

  abbrev pub Kept : IntentLedger Payload Frame → Type 0
  Kept s =
      Keeps s.records s.terminal_order s.pre_admission_ids s.pre_admission_bytes s.queue_ids
        s.queue_bytes
      × Bounded s.active_by_identity s.terminal_order s.queue_ids s.queue_bytes

  -- What a call leaves is kept, where it does not throw.
  abbrev pub Keeping : Result LedgerError (IntentLedger Payload Frame) → Type 0
  Keeping (ok t) = Kept t
  Keeping (err e) = Unit

  pub less_queued :
      (id bytes : ℕ) (s : IntentLedger Payload Frame)
      → Bounded s.active_by_identity s.terminal_order s.queue_ids s.queue_bytes
      → Bounded s.active_by_identity s.terminal_order
          (remove_id id s.queue_ids)
          (s.queue_bytes - bytes)
  less_queued id bytes s l = record {
    queue_count = omega (arith, l.queue_count, length-remove id s.queue_ids);
    queue_limit = omega (arith, l.queue_limit);
    pending = l.pending;
    retained_limit = l.retained_limit;
  }

  pub any_bytes :
      (size : Record → Option ℕ) (m : List (ℕ × Record)) (ids : List ℕ) (b : ℕ)
      → Indexes size m ids b
      → Indexes size m ids (total size m ids)
  any_bytes size m ids b v = record { distinct = v.distinct; counted = v.counted; sum = refl }

  -- A record in none of the three phases gives way to another in none of them.
  pub replace-Keeps :
      (id : ℕ) (o : Option Record) (r : Record) (m : List (ℕ × Record)) (order ps : List ℕ) (pb : ℕ)
      (qs : List ℕ) (qb : ℕ)
      → map_get id m ≡ o
      → (weigh queue_size o ≡ none)
        × (weigh pre_admission_size o ≡ none)
        × (weigh terminal_size o ≡ none)
      → (queue_size r ≡ none) × (pre_admission_size r ≡ none) × (terminal_size r ≡ none)
      → Keeps m order ps pb qs qb
      → Keeps (map_set id r m) order ps pb qs qb
  replace-Keeps id o r m order ps pb qs qb e (p, q, t) (u, v, w) h = record {
    queue =
        keep-Indexes queue_size m id r qs qb
          (absent queue_size m id qs (ap (weigh queue_size) e ∙ p) h.queue.counted) h.queue;
    queue_all = keep-Complete queue_size m id r qs u h.queue_all;
    waiting =
        keep-Indexes pre_admission_size m id r ps pb
          (absent pre_admission_size m id ps (ap (weigh pre_admission_size) e ∙ q)
            h.waiting.counted)
          h.waiting;
    results = any_bytes terminal_size (map_set id r m) order _ (
        keep-Indexes terminal_size m id r order (total terminal_size m order)
          (absent terminal_size m id order (ap (weigh terminal_size) e ∙ t) h.results.counted)
          h.results);
    results_all = keep-Complete terminal_size m id r order w h.results_all;
  }

  pub create-Keeping :
      (id now : ℕ) (s : IntentLedger Payload Frame)
      → Kept s
      → Keeping (create_consumed Payload Frame id now s)
  unfolding create_consumed
  create-Keeping id now s h = elim (Option-cases (map_get id s.records)) [
    | inr (r, f) ↦ rw f tt
    | inl f ↦ rw f (
      replace-Keeps id none _ s.records s.terminal_order s.pre_admission_ids s.pre_admission_bytes
          s.queue_ids s.queue_bytes f (refl, refl, refl) (refl, refl, refl) h.0,
      h.1,
    )
  ]

  pub results_kept :
      (id : ℕ) (o : Option Record) (r : Record) (s : IntentLedger Payload Frame)
      → map_get id s.records ≡ o
      → weigh terminal_size o ≡ none
      → Indexes terminal_size s.records s.terminal_order
          (total terminal_size s.records s.terminal_order)
      → Indexes terminal_size
          (map_set id r s.records)
          s.terminal_order
          (total terminal_size (map_set id r s.records) s.terminal_order)
  results_kept id o r s e n v =
      any_bytes terminal_size (map_set id r s.records) s.terminal_order _ (
        keep-Indexes terminal_size s.records id r s.terminal_order _
          (absent terminal_size s.records id s.terminal_order (ap (weigh terminal_size) e ∙ n)
            v.counted)
          v)

  -- A record found outside the three phases is replaced by one outside them.
  replaced :
      (id : ℕ) (o : Option Record) (r : Record) (s : IntentLedger Payload Frame)
      → map_get id s.records ≡ o
      → (weigh queue_size o ≡ none)
        × (weigh pre_admission_size o ≡ none)
        × (weigh terminal_size o ≡ none)
      → (queue_size r ≡ none) × (pre_admission_size r ≡ none) × (terminal_size r ≡ none)
      → Kept s
      → Kept (put Payload Frame id r s)
  replaced id o r s e p q h = (
    replace-Keeps id o r s.records s.terminal_order s.pre_admission_ids s.pre_admission_bytes
        s.queue_ids s.queue_bytes e p q h.0,
    h.1,
  )

  pub identify-Keeping :
      (o : Option Record) (id : ℕ) (kind : List ℕ) (s : IntentLedger Payload Frame)
      → map_get id s.records ≡ o
      → Kept s
      → Keeping (identify_found Payload Frame o id kind s)
  unfolding identify_found
  identify-Keeping (some (consumed b)) id kind s e h =
      replaced id (some (consumed b)) _ s e (refl, refl, refl) (refl, refl, refl) h
  identify-Keeping none id kind s e h = tt
  identify-Keeping (some _) id kind s e h = tt

  pub sent-Keeping :
      (o : Option Record) (id deadline : ℕ) (s : IntentLedger Payload Frame)
      → map_get id s.records ≡ o
      → Kept s
      → Keeping (sent_found Payload Frame o id deadline s)
  unfolding sent_found
  sent-Keeping (some (sending b a f d)) id deadline s e h =
      replaced id (some (sending b a f d)) _ s e (refl, refl, refl) (refl, refl, refl) h
  sent-Keeping none id deadline s e h = tt
  sent-Keeping (some _) id deadline s e h = tt

  pub terminate-Kept :
      (o : Option Record) (id : ℕ) (reason : IntentTerminationReason) (deadline : ℕ)
      (s : IntentLedger Payload Frame)
      → map_get id s.records ≡ o
      → Kept s
      → Kept (terminate_found Payload Frame o id reason deadline s)
  unfolding terminate_found
  terminate-Kept (some (sending b a f d)) id reason deadline s e h =
      replaced id (some (sending b a f d)) _ s e (refl, refl, refl) (refl, refl, refl) h
  terminate-Kept (some (sent b a d x)) id reason deadline s e h =
      replaced id (some (sent b a d x)) _ s e (refl, refl, refl) (refl, refl, refl) h
  terminate-Kept none id reason deadline s e h = h
  terminate-Kept (some _) id reason deadline s e h = h
