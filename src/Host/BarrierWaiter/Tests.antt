-- ===== src/Host/BarrierWaiter/Tests.antt =====
-- Runs of the barrier waiter's model, and its property at a concrete schedule. The status of a result
-- is a number.
use zhongduan.Base.{ℕ, ◌≡◌, refl, true, List, [], ◌∷◌, none, some}
use zhongduan.Host.BarrierWaiter.{
  warm, BarrierIdentity, DeliveryBarrierResult, is_matching, resolved, rejected, BarrierWaiter,
  new_waiter, wait_guarded, handle_matching, handle_pending, mark_pending, reject_pending,
  dispose_waiter, dispose_pending,
}
use zhongduan.Host.BarrierWaiter.Settled.{
  WaiterCall, wait_call, sent_call, reject_call, result_call, dispose_call, call_waiter, run_waiter,
  SettlesOnce, run_waiter-SettlesOnce,
}

abbrev barrier : ℕ → BarrierIdentity
barrier event = record {
  commit_event_seq = event;
  commit_pty_offset = 40;
  connection_id = 3;
  delivery_generation = 2;
  stream_id = 1;
  mode = warm;
}

abbrev answer : ℕ → DeliveryBarrierResult ℕ
answer event = record { identity = barrier event; status = 1 }

abbrev calls : List (WaiterCall ℕ)
calls =
    wait_call (barrier 9) none 50
    ∷ wait_call (barrier 9) none 50
    ∷ result_call (answer 8)
    ∷ result_call (answer 9)
    ∷ sent_call 0 none
    ∷ wait_call (barrier 12) none 50
    ∷ reject_call 0 60
    ∷ sent_call 1 none
    ∷ dispose_call 70
    ∷ wait_call (barrier 13) none 50
    ∷ []

abbrev waiter : BarrierWaiter ℕ
waiter = run_waiter ℕ calls (new_waiter ℕ)

waiter_run :
    waiter.settled
    ≡ record {
      barrier = record {
        wait_id = 1;
        early_result = none;
        expected = barrier 12;
        marker_sent = true;
      };
      outcome = rejected 70;
    }
      ∷ record {
        barrier = record {
          wait_id = 0;
          early_result = some (answer 9);
          expected = barrier 9;
          marker_sent = true;
        };
        outcome = resolved (answer 9);
      }
      ∷ []
unfolding run_waiter call_waiter wait_guarded handle_pending handle_matching is_matching
    mark_pending reject_pending dispose_waiter dispose_pending
waiter_run = refl

run_waiter-SettlesOnce_example : SettlesOnce ℕ waiter
run_waiter-SettlesOnce_example = run_waiter-SettlesOnce ℕ calls
