-- ===== src/Host/RecoveryQueue.antt =====
-- apps/host-daemon/src/cloud/delivery-recovery-queue.ts: the attach requests of a host that wait for
-- their recovery. A key joins a stream and a generation, and is the pair of them; the clock is the
-- argument `now`. A `Set` is the list of its members in the order of insertion. What a request holds
-- besides its stream and its generation is kept as it is.
mod Keys
pub mod Passes
pub mod Passed
pub mod Schedules
pub mod Waits
pub mod Queued
mod Tests
pub use Keys.*
use zhongduan.Base.{
  ℕ, zero, suc, ◌+◌, ◌-◌, ◌*◌, ◌^◌, Bool, true, false, ◌&&◌, not, Option, none, some, List, [], ◌∷◌,
  ◌++◌, map, ltb, leb, ◌==◌, if◌then◌else◌, length, map_get, map_set, map_delete, has_id, remove_id,
  min, max,
}

module _ (Body : Type 0) where
  pub record AttachRequest : Type 0 where
    pub stream_id : ℕ
    pub delivery_generation : ℕ
    pub body : Body

  abbrev pub recovery_key : AttachRequest → RecoveryKey
  recovery_key request = record {
    stream_id = request.stream_id;
    delivery_generation = request.delivery_generation;
  }

  pub record DeliveryRecoveryQueue : Type 0 where
    pub attempts : KeyMap
    pub cold : List RecoveryKey
    pub max_quiet_wait_ms : ℕ
    pub max_retry_ms : ℕ
    pub not_before : KeyMap
    pub order : List ℕ
    pub pending : List (ℕ × AttachRequest)
    pub queued_streams : List ℕ
    pub quiet_deadline : KeyMap
    pub quiet_ms : ℕ

  -- The constructor.
  abbrev pub new_recovery_queue : ℕ → ℕ → ℕ → DeliveryRecoveryQueue
  new_recovery_queue max_quiet_wait_ms max_retry_ms quiet_ms = record {
    attempts = [];
    cold = [];
    max_quiet_wait_ms = max_quiet_wait_ms;
    max_retry_ms = max_retry_ms;
    not_before = [];
    order = [];
    pending = [];
    queued_streams = [];
    quiet_deadline = [];
    quiet_ms = quiet_ms;
  }

  unfoldable pub queue_stream : ℕ → DeliveryRecoveryQueue → DeliveryRecoveryQueue
  queue_stream stream s = if has_id stream s.queued_streams then s else record s {
    queued_streams = s.queued_streams ++ (stream ∷ []);
    order = s.order ++ (stream ∷ []);
  }

  -- The four deletions of a key.
  abbrev pub forget_key : RecoveryKey → DeliveryRecoveryQueue → DeliveryRecoveryQueue
  forget_key key s = record s {
    attempts = key_delete key s.attempts;
    cold = delete_key key s.cold;
    not_before = key_delete key s.not_before;
    quiet_deadline = key_delete key s.quiet_deadline;
  }

  -- The loop of `#clearMatching`, over the keys that were there before it.
  abbrev pub clear_keys :
      (RecoveryKey → Bool)
      → List RecoveryKey
      → List RecoveryKey
      → DeliveryRecoveryQueue
      → DeliveryRecoveryQueue × List RecoveryKey
  clear_keys matching [] removed s = (s, removed)
  clear_keys matching (key ∷ keys) removed s =
      clear_keys matching keys (if matching key then add_key key removed else removed)
        (if matching key then forget_key key s else s)

  abbrev pub clear_matching :
      ℕ → (ℕ → Bool) → DeliveryRecoveryQueue → DeliveryRecoveryQueue × List RecoveryKey
  clear_matching stream matches s =
      clear_keys (λ key. key.stream_id == stream && matches key.delivery_generation)
        (unique_keys
          (keys_of s.attempts ++ (s.cold ++ (keys_of s.not_before ++ keys_of s.quiet_deadline))) [])
        [] s

  -- A request that is there with the same or a later generation.
  abbrev pub is_current : ℕ → Option AttachRequest → Bool
  is_current generation none = false
  is_current generation (some existing) = leb generation existing.delivery_generation

  abbrev pub supersede : Option AttachRequest → List RecoveryKey → List RecoveryKey
  supersede none removed = removed
  supersede (some existing) removed = add_key (recovery_key existing) removed

  abbrev pub insert : AttachRequest → DeliveryRecoveryQueue → DeliveryRecoveryQueue
  insert request s =
      queue_stream request.stream_id
        (record s { pending = map_set request.stream_id request s.pending })

  -- `enqueue`: the queue, and the keys that it supersedes.
  unfoldable pub enqueue :
      AttachRequest → DeliveryRecoveryQueue → DeliveryRecoveryQueue × List RecoveryKey
  enqueue request s =
      let existing = map_get request.stream_id s.pending in
      let cleared = clear_matching request.stream_id (λ g. ltb g request.delivery_generation) s in
      if is_current request.delivery_generation existing
      then (s, [])
      else (insert request cleared.0, supersede existing cleared.1)

  unfoldable pub requeue : AttachRequest → DeliveryRecoveryQueue → DeliveryRecoveryQueue
  requeue request s =
      if is_current request.delivery_generation (map_get request.stream_id s.pending)
      then s
      else insert request s

  -- One round of the loop of `takeRunnablePass`, with the request that is found for the stream.
  unfoldable pub consider :
      Option AttachRequest
      → ℕ
      → (AttachRequest → Bool)
      → DeliveryRecoveryQueue
      → DeliveryRecoveryQueue × List AttachRequest
  consider none stream is_runnable s = (s, [])
  consider (some request) stream is_runnable s =
      if not (is_runnable request)
      then (queue_stream stream s, [])
      else (record s { pending = map_delete stream s.pending }, request ∷ [])

  unfoldable pub pass_round :
      List ℕ
      → (AttachRequest → Bool)
      → DeliveryRecoveryQueue
      → DeliveryRecoveryQueue × List AttachRequest
  unfolding consider
  pass_round [] is_runnable s = (s, [])
  pass_round (stream ∷ order) is_runnable s =
      consider (map_get stream s.pending) stream is_runnable
        (record s { order = order; queued_streams = remove_id stream s.queued_streams })

  unfoldable pub pass_loop :
      ℕ
      → (AttachRequest → Bool)
      → DeliveryRecoveryQueue
      → DeliveryRecoveryQueue × List AttachRequest
  unfolding pass_round
  pass_loop zero is_runnable s = (s, [])
  pass_loop (suc n) is_runnable s =
      let round = pass_round s.order is_runnable s in
      let rest = pass_loop n is_runnable round.0 in (rest.0, round.1 ++ rest.1)

  unfoldable pub take_runnable_pass :
      (AttachRequest → Bool) → DeliveryRecoveryQueue → DeliveryRecoveryQueue × List AttachRequest
  unfolding pass_loop
  take_runnable_pass is_runnable s = pass_loop (length s.order) is_runnable s

  abbrev pub pending_size : DeliveryRecoveryQueue → ℕ
  pending_size s = length s.pending

  abbrev pub is_cold : AttachRequest → DeliveryRecoveryQueue → Bool
  is_cold request s = has_key (recovery_key request) s.cold

  abbrev pub mark_cold : AttachRequest → DeliveryRecoveryQueue → DeliveryRecoveryQueue
  mark_cold request s = record s { cold = add_key (recovery_key request) s.cold }

  abbrev pub quiet_until : ℕ → ℕ → Option ℕ → ℕ → ℕ
  quiet_until last quiet_ms deadline not_before =
      max not_before (min (last + quiet_ms) (or_else not_before deadline))

  abbrev pub ready_from : Option ℕ → RecoveryKey → ℕ → DeliveryRecoveryQueue → ℕ
  ready_from none key last s = 0
  ready_from (some not_before) key last s =
      quiet_until last s.quiet_ms (key_get key s.quiet_deadline) not_before

  -- `readyAt`.
  abbrev pub ready_at : AttachRequest → ℕ → DeliveryRecoveryQueue → ℕ
  ready_at request last s =
      ready_from (key_get (recovery_key request) s.not_before) (recovery_key request) last s

  unfoldable pub defer : ℕ → AttachRequest → ℕ → DeliveryRecoveryQueue → DeliveryRecoveryQueue
  defer now request delay_ms s =
      let key = recovery_key request in
      let not_before = max (or_zero (key_get key s.not_before)) (now + delay_ms) in
      let deadline =
        max (max (or_zero (key_get key s.quiet_deadline)) not_before) (now + s.max_quiet_wait_ms) in
      record s {
        cold = add_key key s.cold;
        not_before = key_set key not_before s.not_before;
        quiet_deadline = key_set key deadline s.quiet_deadline;
      }

  abbrev pub retry_delay : ℕ → ℕ → DeliveryRecoveryQueue → ℕ
  retry_delay attempt minimum s =
      max minimum (min s.max_retry_ms (s.quiet_ms * 2 ^ min 20 (attempt - 1)))

  -- `deferAfterFailure`: the queue, and the delay.
  unfoldable pub defer_after_failure :
      ℕ → AttachRequest → ℕ → DeliveryRecoveryQueue → DeliveryRecoveryQueue × ℕ
  unfolding defer
  defer_after_failure now request minimum s =
      let key = recovery_key request in
      let attempt = or_zero (key_get key s.attempts) + 1 in
      let delay_ms = retry_delay attempt minimum s in
      (
        defer now request delay_ms (record s { attempts = key_set key attempt s.attempts }),
        delay_ms,
      )

  abbrev pub complete : AttachRequest → DeliveryRecoveryQueue → DeliveryRecoveryQueue
  complete request s = forget_key (recovery_key request) s

  abbrev pub reset_pending :
      Option AttachRequest
      → ℕ
      → ℕ
      → DeliveryRecoveryQueue × List RecoveryKey
      → DeliveryRecoveryQueue × List RecoveryKey
  reset_pending none stream maximum p = p
  reset_pending (some request) stream maximum (s, removed) =
      if leb request.delivery_generation maximum
      then (
        record s { pending = map_delete stream s.pending },
        add_key (recovery_key request) removed,
      )
      else (s, removed)

  -- `reset`: the queue, and the keys that are removed.
  unfoldable pub reset_stream :
      ℕ → ℕ → DeliveryRecoveryQueue → DeliveryRecoveryQueue × List RecoveryKey
  reset_stream stream maximum s =
      reset_pending (map_get stream s.pending) stream maximum
        (clear_matching stream (λ g. leb g maximum) s)

  abbrev pub clear : DeliveryRecoveryQueue → DeliveryRecoveryQueue
  clear s = record s {
    attempts = [];
    cold = [];
    not_before = [];
    quiet_deadline = [];
    order = [];
    pending = [];
    queued_streams = [];
  }
