-- ===== src/Browser/Ledger/Retained.antt =====
-- input-intent-ledger.ts: the results that are retained, and what goes when there are too many.
use zhongduan.Base.{
  is_some, ℕ, suc, ◌≤◌, ◌≡◌, refl, inl, inr, true, false, Option, none, some, List, [], ◌∷◌, ◌++◌,
  ltb, arith, Bool-cases, map_get, map_set, length, map_delete,
}
use zhongduan.Browser.Intents.{InputIdentity, settled, settled_admitted}
use zhongduan.Browser.Ledger.Index.{
  weigh, total, Indexes, Complete, absent, push-Indexes, drop-Indexes, drop-Complete,
  delete-Indexes, delete-Complete, push-Complete,
}
use zhongduan.Browser.Ledger.{same_key, evict_found, evict, index_delete, IdentityIndex}
use zhongduan.Browser.Ledger.Kept.{
  Record, queue_size, pre_admission_size, terminal_size, Keeps, any_bytes,
}

pub length-index_delete :
    (key : InputIdentity) (index : IdentityIndex) → length (index_delete key index) ≤ length index
length-index_delete key [] = omega arith
length-index_delete key ((k, id) ∷ rest) = elim (Bool-cases (same_key k key)) [
  | inl e ↦ rw e (omega (arith, length-index_delete key rest))
  | inr e ↦ rw e (omega (arith, length-index_delete key rest))
]

within : (limit n : ℕ) → ltb limit n ≡ false → n ≤ limit
within limit n h = ground arith

module _ (Payload Frame : Type 0) where
  -- A terminal record is deleted.
  evict_found-terminal :
      (o : Option (Record Payload Frame)) (id : ℕ) (m : List (ℕ × Record Payload Frame))
      → is_some (weigh (terminal_size Payload Frame) o) ≡ true
      → (evict_found Payload Frame o id m ≡ map_delete id m)
        × (weigh (queue_size Payload Frame) o ≡ none)
        × (weigh (pre_admission_size Payload Frame) o ≡ none)
  evict_found-terminal (some (settled b x)) id m h = (refl, refl, refl)
  evict_found-terminal (some (settled_admitted b a d x)) id m h = (refl, refl, refl)
  evict_found-terminal none id m h = absurd (cc)
  evict_found-terminal (some _) id m h = absurd (cc)

  -- The eviction keeps the indexes, and leaves at most `limit` results.
  pub evict-Keeps :
      (limit : ℕ) (order : List ℕ) (m : List (ℕ × Record Payload Frame)) (ps : List ℕ) (pb : ℕ)
      (qs : List ℕ) (qb : ℕ)
      → Keeps Payload Frame m order ps pb qs qb
      → Keeps Payload Frame
          (evict Payload Frame limit order m).1
          (evict Payload Frame limit order m).0
          ps
          pb
          qs
          qb
        × (length (evict Payload Frame limit order m).0 ≤ limit)
  unfolding evict
  evict-Keeps limit [] m ps pb qs qb h = (h, omega arith)
  evict-Keeps limit (id ∷ ids) m ps pb qs qb h =
      let (e, q, p) = evict_found-terminal (map_get id m) id m h.results.counted.0 in
      elim (Bool-cases (ltb limit (length (id ∷ ids)))) [
        | inr x ↦ rw x (h, within limit (suc (length ids)) x)
        | inl x ↦
            rw (x, e)
              (evict-Keeps limit ids (map_delete id m) ps pb qs qb (record {
                queue =
                    delete-Indexes (queue_size Payload Frame) m id qs qb
                      (absent (queue_size Payload Frame) m id qs q h.queue.counted) h.queue;
                queue_all = delete-Complete (queue_size Payload Frame) m id qs h.queue_all;
                waiting =
                    delete-Indexes (pre_admission_size Payload Frame) m id ps pb
                      (absent (pre_admission_size Payload Frame) m id ps p h.waiting.counted)
                      h.waiting;
                results =
                    any_bytes Payload Frame (terminal_size Payload Frame) (map_delete id m) ids _
                      (drop-Indexes (terminal_size Payload Frame) m id ids _ h.results);
                results_all = drop-Complete (terminal_size Payload Frame) m id ids h.results_all;
              }))
      ]

  -- What the result of an intent leaves, before the eviction.
  pub ended :
      (id : ℕ) (r : Record Payload Frame) (m : List (ℕ × Record Payload Frame)) (order ps : List ℕ)
      (pb : ℕ) (qs : List ℕ) (qb : ℕ)
      → weigh (terminal_size Payload Frame) (map_get id m) ≡ none
      → terminal_size Payload Frame r ≡ some 0
      → Indexes (queue_size Payload Frame) (map_set id r m) qs qb
      → Complete (queue_size Payload Frame) (map_set id r m) qs
      → Indexes (pre_admission_size Payload Frame) (map_set id r m) ps pb
      → Indexes (terminal_size Payload Frame) m order (total (terminal_size Payload Frame) m order)
      → Complete (terminal_size Payload Frame) m order
      → Keeps Payload Frame (map_set id r m) (order ++ (id ∷ [])) ps pb qs qb
  ended id r m order ps pb qs qb e z q qa w t ta = record {
    queue = q;
    queue_all = qa;
    waiting = w;
    results =
        any_bytes Payload Frame (terminal_size Payload Frame) (map_set id r m) (order ++ (id ∷ []))
          _
          (push-Indexes (terminal_size Payload Frame) m id r order _ 0
            (absent (terminal_size Payload Frame) m id order e t.counted) z t);
    results_all = push-Complete (terminal_size Payload Frame) m id r order ta;
  }
