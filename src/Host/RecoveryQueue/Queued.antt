-- ===== src/Host/RecoveryQueue/Queued.antt =====
-- delivery-recovery-queue.ts: the order of the streams, and the requests that it covers.
use zhongduan.Base.{
  ℕ, ◌≡◌, sym, ap, subst, ◌∙◌, ◌⊎◌, inl, inr, Bool, true, false, ◌&&◌, Option, none, some, List, [],
  ◌∷◌, ◌++◌, ltb, leb, ◌==◌, ==_iff, if◌then◌else◌, map_get, map_set, map_delete, has_id, is_some,
  Distinct, has_id-others, Distinct-append_one, has_id-last, has_id-append, differs, get-set_other,
  get-delete, get-delete_other, Bool-cases,
}
use zhongduan.Host.RecoveryQueue.{
  RecoveryKey, AttachRequest, DeliveryRecoveryQueue, queue_stream, forget_key, clear_keys,
  clear_matching, is_current, insert, enqueue, requeue, unique_keys, keys_of, reset_pending,
  reset_stream,
}

module _ (Body : Type 0) where
  abbrev pub Pending : Type 0
  Pending = List (ℕ × AttachRequest Body)

  -- The order is the set of the queued streams, each once, and every pending request is in it.
  pub record InOrder (order queued : List ℕ) (pending : Pending) : Type 0 where
    pub same : queued ≡ order
    pub distinct : Distinct order
    pub covers : (k : ℕ) → is_some (map_get k pending) ≡ true → has_id k order ≡ true

  abbrev pub Ordered : DeliveryRecoveryQueue Body → Type 0
  Ordered s = InOrder s.order s.queued_streams s.pending

  -- A stream is queued: what is pending but for it is in the order already.
  pub queue_stream-Ordered :
      (stream : ℕ) (s : DeliveryRecoveryQueue Body)
      → s.queued_streams ≡ s.order
      → Distinct s.order
      → ((k : ℕ)
          → (stream == k) ≡ false
          → is_some (map_get k s.pending) ≡ true
          → has_id k s.order ≡ true)
      → Ordered (queue_stream Body stream s)
  unfolding queue_stream
  queue_stream-Ordered stream s e d c = elim (Bool-cases (has_id stream s.queued_streams)) [
    | inl x ↦ rw x (record {
      same = e;
      distinct = d;
      covers = λ k h. covered k h (ap (has_id stream) (sym e) ∙ x) (Bool-cases (stream == k));
    })
    | inr x ↦ rw x (record {
      same = ap (λ o. o ++ (stream ∷ [])) e;
      distinct =
          Distinct-append_one s.order stream d
            (has_id-others stream s.order (ap (has_id stream) (sym e) ∙ x));
      covers = λ k h. appended k h (Bool-cases (stream == k));
    })
  ]
    where
      covered :
          (k : ℕ)
          → is_some (map_get k s.pending) ≡ true
          → has_id stream s.order ≡ true
          → ((stream == k) ≡ true) ⊎ ((stream == k) ≡ false)
          → has_id k s.order ≡ true
      covered k h x (inl y) = subst (λ z. has_id z s.order ≡ true) ((==_iff stream k).0 y) x
      covered k h x (inr y) = c k y h

      appended :
          (k : ℕ)
          → is_some (map_get k s.pending) ≡ true
          → ((stream == k) ≡ true) ⊎ ((stream == k) ≡ false)
          → has_id k (s.order ++ (stream ∷ [])) ≡ true
      appended k h (inl y) = has_id-last k stream s.order y
      appended k h (inr y) = has_id-append k stream s.order (c k y h)

  insert-Ordered :
      (request : AttachRequest Body) (s : DeliveryRecoveryQueue Body)
      → Ordered s
      → Ordered (insert Body request s)
  insert-Ordered request s h =
      queue_stream-Ordered request.stream_id
        (record s { pending = map_set request.stream_id request s.pending }) h.same h.distinct
        (λ k e g. h.covers k (
          ap is_some (
            sym
              (get-set_other request.stream_id k request s.pending (differs request.stream_id k e)))
          ∙ g))

  clear_keys-Ordered :
      (matching : RecoveryKey → Bool) (keys removed : List RecoveryKey)
      (s : DeliveryRecoveryQueue Body)
      → Ordered s
      → Ordered (clear_keys Body matching keys removed s).0
  clear_keys-Ordered matching [] removed s h = h
  clear_keys-Ordered matching (key ∷ keys) removed s h =
      clear_keys-Ordered matching keys _ (if matching key then forget_key Body key s else s)
        (either (matching key))
    where
      either : (b : Bool) → Ordered (if b then forget_key Body key s else s)
      either true = h
      either false = h

  clear_matching-Ordered :
      (stream : ℕ) (matches : ℕ → Bool) (s : DeliveryRecoveryQueue Body)
      → Ordered s
      → Ordered (clear_matching Body stream matches s).0
  clear_matching-Ordered stream matches s h =
      clear_keys-Ordered (λ key. key.stream_id == stream && matches key.delivery_generation)
        (unique_keys
          (keys_of s.attempts ++ (s.cold ++ (keys_of s.not_before ++ keys_of s.quiet_deadline))) [])
        [] s h

  pub enqueue-Ordered :
      (request : AttachRequest Body) (s : DeliveryRecoveryQueue Body)
      → Ordered s
      → Ordered (enqueue Body request s).0
  unfolding enqueue
  enqueue-Ordered request s h =
      elim (Bool-cases
        (is_current Body request.delivery_generation (map_get request.stream_id s.pending))) [
          | inl e ↦ rw e h
          | inr e ↦ rw e (
              insert-Ordered request _ (
                clear_matching-Ordered request.stream_id (λ g. ltb g request.delivery_generation) s
                  h))
        ]

  pub requeue-Ordered :
      (request : AttachRequest Body) (s : DeliveryRecoveryQueue Body)
      → Ordered s
      → Ordered (requeue Body request s)
  unfolding requeue
  requeue-Ordered request s h =
      elim (Bool-cases
        (is_current Body request.delivery_generation (map_get request.stream_id s.pending))) [
          | inl e ↦ rw e h
          | inr e ↦ rw e (insert-Ordered request s h)
        ]

  -- What is pending without a stream is covered as before.
  pub without :
      (stream k : ℕ) (pending : Pending)
      → is_some (map_get k (map_delete stream pending)) ≡ true
      → is_some (map_get k pending) ≡ true
  without stream k pending h = elim (Bool-cases (stream == k)) [
    | inl e ↦ absurd (
        gone (
          ap is_some (
            sym (
              subst (λ z. map_get z (map_delete stream pending) ≡ none) ((==_iff stream k).0 e)
                (get-delete stream pending)))
          ∙ h))
    | inr e ↦ ap is_some (sym (get-delete_other stream k pending (differs stream k e))) ∙ h
  ]
    where
      gone : false ≡ true → ⊥
      gone e = absurd (cc)

  pub reset-Ordered :
      (stream maximum : ℕ) (s : DeliveryRecoveryQueue Body)
      → Ordered s
      → Ordered (reset_stream Body stream maximum s).0
  unfolding reset_stream
  reset-Ordered stream maximum s h =
      found (map_get stream s.pending) (clear_matching Body stream (λ g. leb g maximum) s)
        (clear_matching-Ordered stream (λ g. leb g maximum) s h)
    where
      found :
          (o : Option (AttachRequest Body)) (p : DeliveryRecoveryQueue Body × List RecoveryKey)
          → Ordered p.0
          → Ordered (reset_pending Body o stream maximum p).0
      found none p g = g
      found (some request) (t, removed) g =
          elim (Bool-cases (leb request.delivery_generation maximum)) [
            | inl e ↦ rw e (record {
              same = g.same;
              distinct = g.distinct;
              covers = λ k x. g.covers k (without stream k t.pending x);
            })
            | inr e ↦ rw e g
          ]
