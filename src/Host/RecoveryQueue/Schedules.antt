-- ===== src/Host/RecoveryQueue/Schedules.antt =====
-- delivery-recovery-queue.ts: schedules of the queue's calls.
use zhongduan.Base.{ℕ, refl, List, [], ◌∷◌, Bool}
use zhongduan.Host.RecoveryQueue.{
  AttachRequest, DeliveryRecoveryQueue, new_recovery_queue, enqueue, requeue, take_runnable_pass,
  mark_cold, defer, defer_after_failure, complete, reset_stream, clear,
}
use zhongduan.Host.RecoveryQueue.Queued.{
  InOrder, Ordered, enqueue-Ordered, requeue-Ordered, reset-Ordered,
}
use zhongduan.Host.RecoveryQueue.Passes.{take_runnable_pass-Passed}

module _ (Body : Type 0) where
  -- The calls that change the queue, with the clock where it is read.
  pub data QueueCall : Type 0 where
    enqueue_call requeue_call cold_call complete_call : AttachRequest Body → QueueCall
    pass_call : (AttachRequest Body → Bool) → QueueCall
    defer_call failure_call : ℕ → AttachRequest Body → ℕ → QueueCall
    reset_call : ℕ → ℕ → QueueCall
    clear_call : QueueCall

  unfoldable pub call_queue : QueueCall → DeliveryRecoveryQueue Body → DeliveryRecoveryQueue Body
  call_queue (enqueue_call r) s = (enqueue Body r s).0
  call_queue (requeue_call r) s = requeue Body r s
  call_queue (cold_call r) s = mark_cold Body r s
  call_queue (complete_call r) s = complete Body r s
  call_queue (pass_call test) s = (take_runnable_pass Body test s).0
  call_queue (defer_call now r delay) s = defer Body now r delay s
  call_queue (failure_call now r minimum) s = (defer_after_failure Body now r minimum s).0
  call_queue (reset_call stream maximum) s = (reset_stream Body stream maximum s).0
  call_queue clear_call s = clear Body s

  unfoldable pub run_queue :
      List QueueCall → DeliveryRecoveryQueue Body → DeliveryRecoveryQueue Body
  unfolding call_queue
  run_queue [] s = s
  run_queue (call ∷ calls) s = run_queue calls (call_queue call s)

  blank : (n : ℕ) → InOrder Body [] [] []
  blank n = record { same = refl; distinct = tt; covers = λ k h. h }

  call-Ordered :
      (call : QueueCall) (s : DeliveryRecoveryQueue Body)
      → Ordered Body s
      → Ordered Body (call_queue call s)
  unfolding call_queue defer defer_after_failure
  call-Ordered (enqueue_call r) s h = enqueue-Ordered Body r s h
  call-Ordered (requeue_call r) s h = requeue-Ordered Body r s h
  call-Ordered (cold_call r) s h = h
  call-Ordered (complete_call r) s h = h
  call-Ordered (pass_call test) s h = (take_runnable_pass-Passed Body test s h).ordered
  call-Ordered (defer_call now r delay) s h = h
  call-Ordered (failure_call now r minimum) s h = h
  call-Ordered (reset_call stream maximum) s h = reset-Ordered Body stream maximum s h
  call-Ordered clear_call s h = blank 0

  run-Ordered :
      (calls : List QueueCall) (s : DeliveryRecoveryQueue Body)
      → Ordered Body s
      → Ordered Body (run_queue calls s)
  unfolding run_queue
  run-Ordered [] s h = h
  run-Ordered (call ∷ calls) s h = run-Ordered calls (call_queue call s) (call-Ordered call s h)

  -- From the constructor, through every schedule of calls: the order holds each stream once and is the
  -- set of the queued streams, and every stream with a pending request is in it, so that the next pass
  -- considers the request.
  pub run_queue-Ordered :
      (max_quiet_wait_ms max_retry_ms quiet_ms : ℕ) (calls : List QueueCall)
      → Ordered Body
          (run_queue calls (new_recovery_queue Body max_quiet_wait_ms max_retry_ms quiet_ms))
  run_queue-Ordered max_quiet_wait_ms max_retry_ms quiet_ms calls =
      run-Ordered calls (new_recovery_queue Body max_quiet_wait_ms max_retry_ms quiet_ms) (blank 0)
