-- ===== src/Host/RecoveryQueue/Waits.antt =====
-- apps/host-daemon/src/cloud/delivery-recovery-queue.ts: how long a request waits after a failure.
use zhongduan.Base.{
  ℕ, ◌+◌, ◌≤◌, ◌≡◌, refl, sym, subst, inl, inr, Bool-cases, true, some, List, [], ◌∷◌, ◌++◌,
  ==_refl, arith, min, max,
}
use zhongduan.Host.RecoveryQueue.{
  RecoveryKey, same_recovery_key, has_key, add_key, key_get, key_set, KeyMap, or_zero,
  AttachRequest, recovery_key, DeliveryRecoveryQueue, is_cold, ready_from, ready_at, defer,
  defer_after_failure,
}

same_recovery_key_refl : (key : RecoveryKey) → same_recovery_key key key ≡ true
same_recovery_key_refl key = rw (==_refl key.stream_id) (rw (==_refl key.delivery_generation) refl)

key_get-key_set : (key : RecoveryKey) (n : ℕ) (m : KeyMap) → key_get key (key_set key n m) ≡ some n
key_get-key_set key n [] = rw (same_recovery_key_refl key) refl
key_get-key_set key n ((k, i) ∷ rest) = elim (Bool-cases (same_recovery_key k key)) [
  | inl e ↦ rw e (rw e refl)
  | inr e ↦ rw e (rw e (key_get-key_set key n rest))
]

has_key-append : (key : RecoveryKey) (ks : List RecoveryKey) → has_key key (ks ++ (key ∷ [])) ≡ true
has_key-append key [] = rw (same_recovery_key_refl key) refl
has_key-append key (k ∷ ks) = elim (Bool-cases (same_recovery_key k key)) [
  | inl e ↦ rw e refl
  | inr e ↦ rw e (has_key-append key ks)
]

has_key-add_key : (key : RecoveryKey) (ks : List RecoveryKey) → has_key key (add_key key ks) ≡ true
has_key-add_key key ks = elim (Bool-cases (has_key key ks)) [
  | inl e ↦ rw e (rw e refl)
  | inr e ↦ rw e (has_key-append key ks)
]

-- The time from which a request is ready, between its delay and its deadline.
waits :
    (a b c d l n : ℕ)
    → (n + d ≤ max (max a (n + d)) (min l (max (max b (max a (n + d))) (n + c))))
      × (max (max a (n + d)) (min l (max (max b (max a (n + d))) (n + c)))
          ≤ max (max a b) (n + max d c))
waits a b c d l n = (omega arith, omega arith)

delays : (a b c : ℕ) → (a ≤ max a (min b c)) × (max a (min b c) ≤ max a b)
delays a b c = (omega arith, omega arith)

module _ (Body : Type 0) where
  -- What a failure of `request` at `now` leaves: its delay, and when it is ready.
  pub record Postponed (now : ℕ) (request : AttachRequest Body) (minimum : ℕ)
      (before after : DeliveryRecoveryQueue Body) (delay_ms : ℕ) : Type 0 where
    pub counted :
        key_get (recovery_key Body request) after.attempts
        ≡ some (or_zero (key_get (recovery_key Body request) before.attempts) + 1)
    pub colder : is_cold Body request after ≡ true
    pub delayed : (minimum ≤ delay_ms) × (delay_ms ≤ max minimum before.max_retry_ms)
    pub ready :
        (last : ℕ)
        → (now + delay_ms ≤ ready_at Body request last after)
          × (ready_at Body request last after
              ≤ max
                  (max
                    (or_zero (key_get (recovery_key Body request) before.not_before))
                    (or_zero (key_get (recovery_key Body request) before.quiet_deadline)))
                  (now + max delay_ms before.max_quiet_wait_ms))

  ready_from-set :
      (key : RecoveryKey) (last nb dl : ℕ) (s : DeliveryRecoveryQueue Body)
      → key_get key s.not_before ≡ some nb
      → key_get key s.quiet_deadline ≡ some dl
      → ready_from Body (key_get key s.not_before) key last s ≡ max nb (min (last + s.quiet_ms) dl)
  ready_from-set key last nb dl s e f = rw e (rw f refl)

  -- When the recovery of a request fails at `now`: its failures are counted one more and it is cold;
  -- the delay is at least the minimum and at most the larger of the minimum and the longest retry; and
  -- whenever the stream last had output, the request is not ready before the delay is over, and ready
  -- no later than the latest of its earlier times, the end of the delay and the end of the longest
  -- quiet wait.
  pub defer_after_failure-Postponed :
      (now : ℕ) (request : AttachRequest Body) (minimum : ℕ) (s : DeliveryRecoveryQueue Body)
      → Postponed now request minimum s
          (defer_after_failure Body now request minimum s).0
          (defer_after_failure Body now request minimum s).1
  unfolding defer_after_failure defer
  defer_after_failure-Postponed now request minimum s = record {
    counted =
        key_get-key_set (recovery_key Body request)
          (or_zero (key_get (recovery_key Body request) s.attempts) + 1) s.attempts;
    colder = has_key-add_key (recovery_key Body request) s.cold;
    delayed = delays minimum s.max_retry_ms _;
    ready = λ last.
        subst
          (λ t.
            (now + (defer_after_failure Body now request minimum s).1 ≤ t)
            × (t
                ≤ max
                    (max (or_zero (key_get (recovery_key Body request) s.not_before))
                      (or_zero (key_get (recovery_key Body request) s.quiet_deadline)))
                    (now
                      + max (defer_after_failure Body now request minimum s).1
                          s.max_quiet_wait_ms)))
          (sym (
            ready_from-set (recovery_key Body request) last _ _
              (defer_after_failure Body now request minimum s).0
              (key_get-key_set (recovery_key Body request) _ s.not_before)
              (key_get-key_set (recovery_key Body request) _ s.quiet_deadline)))
          (waits _ _ _ _ _ _);
  }
