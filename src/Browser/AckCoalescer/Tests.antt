-- ===== src/Browser/AckCoalescer/Tests.antt =====
-- Runs of the coalescer's model, and its property at a concrete schedule.
use zhongduan.Base.{ℕ, ◌≡◌, refl, true, none, some, List, [], ◌∷◌, ok}
use zhongduan.Protocol.Cursor.{ReplicaCursor}
use zhongduan.Protocol.Credit.{delivery_outstanding_bytes}
use zhongduan.Browser.AckCoalescer.{
  Callbacks, AckCoalescer, AckEffect, sent, AckCall, acknowledge_call, timer_call, reset_call,
  run_acks,
}
use zhongduan.Browser.AckCoalescer.Pending.{run_acks-Coalesced}
use zhongduan.Browser.AckCoalescer.Waiting.{Coalesced}

abbrev live : Callbacks
live = record {
  connection_epoch = 1;
  delivery_generation = some 2;
  is_connection_current = λ _. true;
  is_delivery_live = true;
  send = λ _. true;
}

abbrev at : ℕ → ℕ → ReplicaCursor
at seq offset = record {
  session_epoch = 7;
  delivery_generation = 2;
  last_event_seq = seq;
  next_pty_offset = offset;
}

abbrev idle : AckCoalescer
idle = record { last_acknowledged_cursor = none; pending_acknowledgement = none; timer = none }

abbrev calls : List AckCall
calls =
    reset_call (some (at 5 100))
    ∷ acknowledge_call live (at 6 200)
    ∷ acknowledge_call live (at 7 300)
    ∷ timer_call live
    ∷ acknowledge_call live (at 8 90000)
    ∷ acknowledge_call live (at 9 90001)
    ∷ []

calls_run :
    run_acks calls idle
    ≡ ok (
      record {
        last_acknowledged_cursor = some (at 8 90000);
        pending_acknowledgement = some (at 9 90001);
        timer = some (1, 2);
      },
      sent (at 7 300) ∷ sent (at 8 90000) ∷ [],
    )
unfolding run_acks delivery_outstanding_bytes
calls_run = refl

run_acks-Coalesced_example :
    (t : AckCoalescer) × (effects : List AckEffect) × (run_acks calls idle ≡ ok (t, effects))
    × Coalesced t
run_acks-Coalesced_example = run_acks-Coalesced calls idle (λ p e. absurd (never e))
  where
    never : {p : ReplicaCursor} → none ≡ some p → ⊥
    never e = cc
