-- ===== src/Host/RecoveryQueue/Tests.antt =====
-- Runs of the recovery queue's model, and its properties at a concrete schedule. The body of a
-- request is a number.
use zhongduan.Base.{ℕ, ◌≡◌, refl, ◌==◌, List, [], ◌∷◌, Bool, map_get, some}
use zhongduan.Host.RecoveryQueue.{
  AttachRequest, DeliveryRecoveryQueue, new_recovery_queue, enqueue, requeue, take_runnable_pass,
  queue_stream, consider, pass_round, pass_loop, defer_after_failure, defer, reset_stream, ready_at,
}
use zhongduan.Host.RecoveryQueue.Queued.{Ordered}
use zhongduan.Host.RecoveryQueue.Passed.{Passed}
use zhongduan.Host.RecoveryQueue.Waits.{Postponed, defer_after_failure-Postponed}
use zhongduan.Host.RecoveryQueue.Schedules.{
  QueueCall, enqueue_call, failure_call, call_queue, run_queue, run_queue-Ordered,
}

abbrev request : ℕ → ℕ → AttachRequest ℕ
request stream generation = record {
  stream_id = stream;
  delivery_generation = generation;
  body = 7;
}

abbrev first_only : AttachRequest ℕ → Bool
first_only r = r.stream_id == 1

abbrev calls : List (QueueCall ℕ)
calls =
    enqueue_call (request 2 5)
    ∷ enqueue_call (request 1 3)
    ∷ failure_call 100 (request 2 5) 10
    ∷ enqueue_call (request 2 4)
    ∷ []

abbrev queue : DeliveryRecoveryQueue ℕ
queue = run_queue ℕ calls (new_recovery_queue ℕ 1000 500 20)

queue_run :
    (queue.order ≡ 2 ∷ 1 ∷ [])
    × ((take_runnable_pass ℕ first_only queue).1 ≡ request 1 3 ∷ [])
    × ((take_runnable_pass ℕ first_only queue).0.order ≡ 2 ∷ [])
    × (map_get 2 (take_runnable_pass ℕ first_only queue).0.pending ≡ some (request 2 5))
    × (ready_at ℕ (request 2 5) 300 queue ≡ 320)
    × ((reset_stream ℕ 2 5 queue).0.pending ≡ (1, request 1 3) ∷ [])
unfolding run_queue call_queue enqueue requeue queue_stream take_runnable_pass pass_loop pass_round
    consider defer_after_failure defer reset_stream
queue_run = (refl, refl, refl, refl, refl, refl)

run_queue-Ordered_example : Ordered ℕ queue
run_queue-Ordered_example = run_queue-Ordered ℕ 1000 500 20 calls

defer_after_failure-Postponed_example :
    Postponed ℕ 150
      (request 2 5)
      10
      queue
      (defer_after_failure ℕ 150 (request 2 5) 10 queue).0
      (defer_after_failure ℕ 150 (request 2 5) 10 queue).1
defer_after_failure-Postponed_example = defer_after_failure-Postponed ℕ 150 (request 2 5) 10 queue
