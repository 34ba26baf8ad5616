-- ===== src/Host/BarrierWaiter/Settled.antt =====
-- apps/host-daemon/src/cloud/delivery-barrier-waiter.ts: how the promises of `wait` settle.
use zhongduan.Base.{
  ℕ, zero, suc, ◌≡◌, refl, sym, ap, ◌∙◌, Bool, true, false, Option, none, some, List, [], ◌∷◌, All,
  if◌then◌else◌, ◌==◌,
}
use zhongduan.Host.BarrierWaiter.{
  BarrierIdentity, DeliveryBarrierResult, is_matching, PendingBarrier, Outcome, resolved, rejected,
  Settlement, BarrierWaiter, new_waiter, wait, wait_guarded, first_of, handle_matching,
  handle_pending, handle, marked, mark_pending, mark_sent, reject_pending, reject, dispose_pending,
  dispose_waiter, dispose_barriers,
}

-- The numbers below `n`, the largest first.
abbrev pub down : ℕ → List ℕ
down zero = []
down (suc n) = n ∷ down n

module _ (Status : Type 0) where
  pub data WaiterCall : Type 0 where
    wait_call : BarrierIdentity → Option ℕ → ℕ → WaiterCall
    sent_call : ℕ → Option ℕ → WaiterCall
    reject_call : ℕ → ℕ → WaiterCall
    result_call : DeliveryBarrierResult Status → WaiterCall
    dispose_call : ℕ → WaiterCall

  unfoldable pub call_waiter : WaiterCall → BarrierWaiter Status → BarrierWaiter Status
  call_waiter (wait_call identity prepared already) s = (wait Status identity prepared already s).0
  call_waiter (sent_call id error) s = mark_sent Status id error s
  call_waiter (reject_call id error) s = reject Status id error s
  call_waiter (result_call result) s = handle Status result s
  call_waiter (dispose_call reason) s = dispose_barriers Status reason s

  unfoldable pub run_waiter : List WaiterCall → BarrierWaiter Status → BarrierWaiter Status
  run_waiter [] s = s
  run_waiter (call ∷ calls) s = run_waiter calls (call_waiter call s)

  abbrev pub wait_ids : List (Settlement Status) → List ℕ
  wait_ids [] = []
  wait_ids (x ∷ xs) = x.barrier.wait_id ∷ wait_ids xs

  -- What a promise settles with: a result for its barrier, after the marker; or an error.
  abbrev pub Earned : PendingBarrier Status → Outcome Status → Type 0
  Earned p (resolved result) =
      (is_matching Status p.expected result ≡ true) × (p.marker_sent ≡ true)
  Earned p (rejected error) = Unit

  abbrev pub AllEarned : List (Settlement Status) → Type 0
  AllEarned = All (λ x. Earned x.barrier x.outcome)

  abbrev pub EarlyMatches : BarrierIdentity → Option (DeliveryBarrierResult Status) → Type 0
  EarlyMatches expected none = Unit
  EarlyMatches expected (some early) = is_matching Status expected early ≡ true

  -- Every wait so far but the pending one has settled, in the order of the calls.
  abbrev pub InTurn : Option (PendingBarrier Status) → ℕ → List (Settlement Status) → Type 0
  InTurn none next settled = wait_ids settled ≡ down next
  InTurn (some p) next settled =
      (next ≡ suc p.wait_id)
      × (wait_ids settled ≡ down p.wait_id)
      × EarlyMatches p.expected p.early_result

  abbrev pub SettlesOnce : BarrierWaiter Status → Type 0
  SettlesOnce s = InTurn s.pending s.next_wait s.settled × AllEarned s.settled

  settle-Once :
      (p : PendingBarrier Status) (o : Outcome Status) (next : ℕ) (xs : List (Settlement Status))
      → InTurn (some p) next xs
      → AllEarned xs
      → Earned p o
      → InTurn none next (record { barrier = p; outcome = o } ∷ xs)
        × AllEarned (record { barrier = p; outcome = o } ∷ xs)
  settle-Once p o next xs (e, i, m) h f = (ap (λ is. p.wait_id ∷ is) i ∙ sym (ap down e), (f, h))

  wait-Once :
      (d : Option ℕ) (pending : Option (PendingBarrier Status)) (prepared : Option ℕ)
      (identity : BarrierIdentity) (already next : ℕ) (xs : List (Settlement Status))
      → InTurn pending next xs × AllEarned xs
      → SettlesOnce
          (wait_guarded Status d pending prepared identity already
            (record { disposed_reason = d; pending = pending; next_wait = next; settled = xs })).0
  unfolding wait_guarded
  wait-Once (some reason) pending prepared identity already next xs h = h
  wait-Once none (some p) prepared identity already next xs h = h
  wait-Once none none (some error) identity already next xs h = h
  wait-Once none none none identity already next xs (i, a) = ((refl, i, tt), a)

  first-Matches :
      (expected : BarrierIdentity) (early : Option (DeliveryBarrierResult Status))
      (r : DeliveryBarrierResult Status)
      → EarlyMatches expected early
      → is_matching Status expected r ≡ true
      → is_matching Status expected (first_of Status early r) ≡ true
  first-Matches expected none r m e = e
  first-Matches expected (some early) r m e = m

  handled-Once :
      (matches sent : Bool) (p : PendingBarrier Status) (r : DeliveryBarrierResult Status)
      (d : Option ℕ) (next : ℕ) (xs : List (Settlement Status))
      → is_matching Status p.expected r ≡ matches
      → p.marker_sent ≡ sent
      → InTurn (some p) next xs
      → AllEarned xs
      → SettlesOnce (
          handle_matching Status matches sent p r
            (record { disposed_reason = d; pending = some p; next_wait = next; settled = xs }))
  unfolding handle_matching
  handled-Once false sent p r d next xs e f h a = (h, a)
  handled-Once true false p r d next xs e f (n, i, m) a =
      ((n, i, first-Matches p.expected p.early_result r m e), a)
  handled-Once true true p r d next xs e f h a = settle-Once p (resolved r) next xs h a (e, f)

  handle-Once :
      (pending : Option (PendingBarrier Status)) (r : DeliveryBarrierResult Status) (d : Option ℕ)
      (next : ℕ) (xs : List (Settlement Status))
      → InTurn pending next xs × AllEarned xs
      → SettlesOnce (
          handle_pending Status pending r
            (record { disposed_reason = d; pending = pending; next_wait = next; settled = xs }))
  unfolding handle_pending
  handle-Once none r d next xs h = h
  handle-Once (some p) r d next xs (h, a) =
      handled-Once (is_matching Status p.expected r) p.marker_sent p r d next xs refl refl h a

  marked-Once :
      (error : Option ℕ) (early : Option (DeliveryBarrierResult Status)) (id : ℕ)
      (expected : BarrierIdentity) (sent : Bool) (d : Option ℕ) (next : ℕ)
      (xs : List (Settlement Status))
      → InTurn
          (some (record {
            wait_id = id;
            early_result = early;
            expected = expected;
            marker_sent = sent;
          }))
          next
          xs
      → AllEarned xs
      → SettlesOnce (
          marked Status error
            (record { wait_id = id; early_result = early; expected = expected; marker_sent = sent })
            (record {
              disposed_reason = d;
              pending = some (record {
                wait_id = id;
                early_result = early;
                expected = expected;
                marker_sent = sent;
              });
              next_wait = next;
              settled = xs;
            }))
  marked-Once (some error) early id expected sent d next xs h a =
      settle-Once
        (record { wait_id = id; early_result = early; expected = expected; marker_sent = true })
        (rejected error) next xs h a tt
  marked-Once none none id expected sent d next xs h a = (h, a)
  marked-Once none (some r) id expected sent d next xs (n, i, m) a =
      settle-Once
        (record { wait_id = id; early_result = some r; expected = expected; marker_sent = true })
        (resolved r) next xs (n, i, m) a (m, refl)

  either :
      (b : Bool) (s t : BarrierWaiter Status)
      → SettlesOnce s
      → SettlesOnce t
      → SettlesOnce (if b then s else t)
  either true s t hs ht = hs
  either false s t hs ht = ht

  mark-Once :
      (pending : Option (PendingBarrier Status)) (id : ℕ) (error : Option ℕ) (d : Option ℕ)
      (next : ℕ) (xs : List (Settlement Status))
      → InTurn pending next xs × AllEarned xs
      → SettlesOnce (
          mark_pending Status pending id error
            (record { disposed_reason = d; pending = pending; next_wait = next; settled = xs }))
  unfolding mark_pending
  mark-Once none id error d next xs h = h
  mark-Once (some p) id error d next xs (h, a) =
      either (p.wait_id == id) _ _
        (marked-Once error p.early_result p.wait_id p.expected p.marker_sent d next xs h a) (h, a)

  reject-Once :
      (pending : Option (PendingBarrier Status)) (id error : ℕ) (d : Option ℕ) (next : ℕ)
      (xs : List (Settlement Status))
      → InTurn pending next xs × AllEarned xs
      → SettlesOnce (
          reject_pending Status pending id error
            (record { disposed_reason = d; pending = pending; next_wait = next; settled = xs }))
  unfolding reject_pending
  reject-Once none id error d next xs h = h
  reject-Once (some p) id error d next xs (h, a) =
      either (p.wait_id == id) _ _ (settle-Once p (rejected error) next xs h a tt) (h, a)

  dispose-Once :
      (d : Option ℕ) (pending : Option (PendingBarrier Status)) (reason next : ℕ)
      (xs : List (Settlement Status))
      → InTurn pending next xs × AllEarned xs
      → SettlesOnce (
          dispose_waiter Status d reason
            (record { disposed_reason = d; pending = pending; next_wait = next; settled = xs }))
  unfolding dispose_waiter dispose_pending
  dispose-Once (some earlier) pending reason next xs h = h
  dispose-Once none none reason next xs h = h
  dispose-Once none (some p) reason next xs (h, a) = settle-Once p (rejected reason) next xs h a tt

  call-Once :
      (call : WaiterCall) (s : BarrierWaiter Status)
      → SettlesOnce s
      → SettlesOnce (call_waiter call s)
  unfolding call_waiter
  call-Once (wait_call identity prepared already) s h =
      wait-Once s.disposed_reason s.pending prepared identity already s.next_wait s.settled h
  call-Once (sent_call id error) s h =
      mark-Once s.pending id error s.disposed_reason s.next_wait s.settled h
  call-Once (reject_call id error) s h =
      reject-Once s.pending id error s.disposed_reason s.next_wait s.settled h
  call-Once (result_call result) s h =
      handle-Once s.pending result s.disposed_reason s.next_wait s.settled h
  call-Once (dispose_call reason) s h =
      dispose-Once s.disposed_reason s.pending reason s.next_wait s.settled h

  run-Once :
      (calls : List WaiterCall) (s : BarrierWaiter Status)
      → SettlesOnce s
      → SettlesOnce (run_waiter calls s)
  unfolding run_waiter
  run-Once [] s h = h
  run-Once (call ∷ calls) s h = run-Once calls (call_waiter call s) (call-Once call s h)

  -- From the constructor, through every schedule of calls, results, aborts and disposal: the promises
  -- of the waits that registered have settled once each, in the order of the calls, but for the
  -- pending one, which has not; and one that is resolved has a result that matches its barrier, after
  -- the marker was sent.
  pub run_waiter-SettlesOnce :
      (calls : List WaiterCall) → SettlesOnce (run_waiter calls (new_waiter Status))
  run_waiter-SettlesOnce calls = run-Once calls (new_waiter Status) (refl, tt)
