-- ===== src/Relay/WriterAuthority/Tests.antt =====
-- Runs of the writer authority's model, and the properties at concrete schedules.
use zhongduan.Base.{◌≡◌, refl, true, none, some, List, [], ◌∷◌, arith}
use zhongduan.Relay.WriterAuthority.{
  WriterLeaseRow, AuthorityState, fence_of, acquire_finish, renew_finish, release, SocketView,
  SocketAttachment, browser, control, writer, active,
}
use zhongduan.Relay.WriterAuthority.Fences.{
  Call, acquire_call, renew_call, release_call, run_calls, Rising, run_calls-Rising,
}
use zhongduan.Relay.WriterAuthority.Leases.{Holds, run_calls-Holds}

abbrev empty : AuthorityState
empty = record { lease = none; displaced = [] }

abbrev held : WriterLeaseRow
held = record {
  client_id = 1 ∷ [];
  connection_id = 2 ∷ [];
  lease_digest = 3 ∷ [];
  fence = 5;
  expires_at = 9000;
}

abbrev taken : AuthorityState
taken = record { lease = some held; displaced = [] }

abbrev attachment : SocketAttachment
attachment = record {
  peer = browser;
  channel = control;
  connection_set_id = 8 ∷ [];
  connection_id = 2 ∷ [];
  client_id = some (1 ∷ []);
  role = writer;
  lease_fence = some 5;
  lease_expires_at = some 9000;
  control_state = some active;
}

abbrev socket : SocketView
socket = record { is_open = true; attachment = some attachment; is_active_control = λ _. true }

abbrev schedule : List Call
schedule =
    acquire_call (1 ∷ []) (2 ∷ []) (4 ∷ []) (3 ∷ []) 100 100
    ∷ acquire_call (6 ∷ []) (7 ∷ []) (4 ∷ []) (3 ∷ []) 200 200
    ∷ release_call (1 ∷ []) (some 1) (2 ∷ [])
    ∷ acquire_call (6 ∷ []) (7 ∷ []) (4 ∷ []) (3 ∷ []) 300 300
    ∷ []

abbrev quiet : List Call
quiet =
    acquire_call (6 ∷ []) (7 ∷ []) (4 ∷ []) (3 ∷ []) 8999 9100
    ∷ renew_call socket attachment (3 ∷ []) 8000 8001 8002 8003
    ∷ release_call (1 ∷ []) (some 4) (2 ∷ [])
    ∷ []

schedule_run : fence_of (run_calls schedule empty).0.lease ≡ 2
unfolding run_calls acquire_finish release
schedule_run = refl

renew_run :
    (renew_finish socket attachment (3 ∷ []) 8000 8001 8002 8003 taken).0
    ≡ record { lease = some (record held { expires_at = 38002 }); displaced = [] }
unfolding renew_finish
renew_run = refl

run_calls-Rising_example :
    Rising 0 (run_calls schedule empty).1 (fence_of (run_calls schedule empty).0.lease)
run_calls-Rising_example = run_calls-Rising schedule empty

run_calls-Holds_example :
    Holds (1 ∷ []) (2 ∷ []) 5 9000 (run_calls quiet taken).0.lease
    × ((run_calls quiet taken).1 ≡ [])
run_calls-Holds_example =
    run_calls-Holds (1 ∷ []) (2 ∷ []) 5 9000 quiet taken
      (omega arith, (omega arith, ((λ e. absurd (omega arith)), tt)))
      (record {
        row = held;
        stored = refl;
        of_client = refl;
        of_connection = refl;
        of_fence = refl;
        lasts = omega arith;
      })
