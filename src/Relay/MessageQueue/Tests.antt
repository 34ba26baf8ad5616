-- ===== src/Relay/MessageQueue/Tests.antt =====
-- Runs of the serial queue's model, and its properties at a concrete queue.
use zhongduan.Base.{◌≤◌, ◌≡◌, refl, none, some, [], ◌∷◌, ◌++◌, arith}
use zhongduan.Relay.MessageQueue.{
  SerialQueue, SocketQueueLimits, new_queue, relay_message_queue_limits, enqueue, settle,
}
use zhongduan.Relay.MessageQueue.Usage.{enqueue-IsQueue}
use zhongduan.Relay.MessageQueue.Settling.{settle-IsQueue}
use zhongduan.Relay.MessageQueue.Tally.{IsQueue, tally}

abbrev small : SocketQueueLimits
small = record { socket_bytes = 100; socket_count = 1 }

abbrev one : SerialQueue
one = record {
  limits = relay_message_queue_limits;
  socket_usage = (7, record { bytes = 60; count = 1 }) ∷ [];
  global_usage = record { bytes = 60; count = 1 };
  chain = record { bytes = 60; key = 7 } ∷ [];
}

enqueue_run : enqueue 7 60 small (new_queue relay_message_queue_limits) ≡ some one
unfolding enqueue
enqueue_run = refl

refused_run : enqueue 7 20 small one ≡ none
unfolding enqueue
refused_run = refl

settle_run : settle one ≡ some (new_queue relay_message_queue_limits)
unfolding settle
settle_run = refl

new-IsQueue : IsQueue (new_queue relay_message_queue_limits)
new-IsQueue = record {
  sockets = λ key. refl;
  global = refl;
  bytes_bound = omega arith;
  count_bound = omega arith;
}

one-IsQueue : IsQueue one
one-IsQueue =
    (enqueue-IsQueue 7 60 small (new_queue relay_message_queue_limits) one new-IsQueue
      enqueue_run).0

enqueue-IsQueue_example :
    IsQueue one
    × (one.chain ≡ [] ++ (record { bytes = 60; key = 7 } ∷ []))
    × ((tally 7 one.chain).bytes ≤ 100)
    × ((tally 7 one.chain).count ≤ 1)
enqueue-IsQueue_example =
    enqueue-IsQueue 7 60 small (new_queue relay_message_queue_limits) one new-IsQueue enqueue_run

settle-IsQueue_example : (t : SerialQueue) × (settle one ≡ some t) × IsQueue t × (t.chain ≡ [])
settle-IsQueue_example = settle-IsQueue (record { bytes = 60; key = 7 }) [] one refl one-IsQueue
