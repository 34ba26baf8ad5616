-- ===== src/Relay/WriterAuthority/Fences.antt =====
-- writer-authority.ts: interleavings of its calls, the fences that they grant and the lease that runs.
use zhongduan.Base.{
  ℕ, ◌+◌, ◌≤◌, ◌<◌, ◌≡◌, refl, ap, ◌∙◌, ◌⊎◌, inl, inr, Bool, false, ◌&&◌, Option, none, some, List,
  [], ◌∷◌, ◌++◌, ltb, leb, arith, Bool-cases, Option-cases,
}
use zhongduan.Protocol.Errors.{max_u64}
use zhongduan.Relay.WriterAuthority.{
  Text, WriterLeaseRow, AcquiredWriterLease, AuthorityState, SocketView, SocketAttachment, live,
  fence_of, AcquireResult, acquired, unavailable, fence_space_exhausted, acquire_finish,
  update_expiry, proves, renewed, live_attachment, renew_finish, release, writer_lease_ms,
}

-- One call's effect on the table: what runs between two awaits.
pub data Call : Type 0 where
  acquire_call : Text → Text → Text → Text → ℕ → ℕ → Call
  renew_call : SocketView → SocketAttachment → Text → ℕ → ℕ → ℕ → ℕ → Call
  release_call : Text → Option ℕ → Text → Call

-- The state behind a call, and the leases that it grants.
abbrev pub granted : AcquireResult → List AcquiredWriterLease
granted (acquired lease) = lease ∷ []
granted unavailable = []
granted fence_space_exhausted = []

unfoldable pub run_call : Call → AuthorityState → AuthorityState × List AcquiredWriterLease
run_call (acquire_call client connection token digest checked_at granted_at) s =
    let r = acquire_finish client connection token digest checked_at granted_at s in
    (r.0, granted r.1)
run_call (renew_call socket initial digest t1 t2 t3 t4) s =
    ((renew_finish socket initial digest t1 t2 t3 t4 s).0, [])
run_call (release_call client fence connection) s = (release client fence connection s, [])

-- A schedule of calls, from left to right.
unfoldable pub run_calls : List Call → AuthorityState → AuthorityState × List AcquiredWriterLease
unfolding run_call
run_calls [] s = (s, [])
run_calls (c ∷ cs) s =
    let r = run_call c s in let rest = run_calls cs r.0 in (rest.0, r.1 ++ rest.1)

-- Fences that strictly increase, all above `low`, the last of them at most `high`.
abbrev pub Rising : ℕ → List AcquiredWriterLease → ℕ → Type 0
Rising low [] high = low ≤ high
Rising low (l ∷ ls) high = (low < l.fence) × Rising l.fence ls high

update_expiry-fence :
    (a : SocketAttachment) (digest : Text) (expires_at now : ℕ) (l : Option WriterLeaseRow)
    → fence_of (update_expiry a digest expires_at now l) ≡ fence_of l
update_expiry-fence a digest expires_at now none = refl
update_expiry-fence a digest expires_at now (some row) =
    elim (Bool-cases (proves a digest row && ltb now row.expires_at)) [
      | inl e ↦ rw e refl
      | inr e ↦ rw e refl
    ]

-- What `renew` does to the table: nothing, or the one update.
pub renew-cases :
    (socket : SocketView) (initial : SocketAttachment) (digest : Text) (t1 t2 t3 t4 : ℕ)
    (s : AuthorityState)
    → ((renew_finish socket initial digest t1 t2 t3 t4 s).0 ≡ s)
      ⊎ ((a : SocketAttachment) × ((renew_finish socket initial digest t1 t2 t3 t4 s).0
            ≡ record s { lease = update_expiry a digest (t3 + writer_lease_ms) t4 s.lease }))
unfolding renew_finish
renew-cases socket initial digest t1 t2 t3 t4 s =
    elim (Option-cases (live_attachment socket initial t1)) [
      | inl e ↦ inl (rw (e, renew_finish) refl)
      | inr (a, e) ↦ elim (Bool-cases (checked a s.lease)) [
        | inr f ↦ inl (rw (e, renew_finish, f) refl)
        | inl f ↦
            elim (Bool-cases (
              renewed a digest (t3 + writer_lease_ms)
                (update_expiry a digest (t3 + writer_lease_ms) t4 s.lease))) [
                  | inl g ↦ inr (a, rw (e, renew_finish, f, g) refl)
                  | inr g ↦ inr (a, rw (e, renew_finish, f, g) refl)
                ]
      ]
    ]
  where
    checked : SocketAttachment → Option WriterLeaseRow → Bool
    checked a l = elim l [ none ↦ false | some row ↦ proves a digest row && ltb t2 row.expires_at ]

-- The state and the lease of an `acquire` that succeeds.
abbrev taken : Text → Text → Text → Text → ℕ → AuthorityState → AuthorityState × AcquireResult
taken client connection token digest granted_at s =
    let fence = fence_of s.lease + 1 in
    let expires_at = granted_at + writer_lease_ms in
    (
      record {
        lease = some (record {
          client_id = client;
          connection_id = connection;
          lease_digest = digest;
          fence = fence;
          expires_at = expires_at;
        });
        displaced = s.displaced ++ ((connection, fence) ∷ []);
      },
      acquired (record { expires_at = expires_at; fence = fence; token = token }),
    )

acquire-cases :
    (client connection token digest : Text) (checked_at granted_at : ℕ) (s : AuthorityState)
    → ((r : AcquireResult) × (acquire_finish client connection token digest checked_at granted_at s
          ≡ (s, r))
        × (granted r ≡ []))
      ⊎ (acquire_finish client connection token digest checked_at granted_at s
          ≡ taken client connection token digest granted_at s)
unfolding acquire_finish
acquire-cases client connection token digest checked_at granted_at s =
    elim (Bool-cases (live s.lease checked_at)) [
      | inl e ↦ inl (unavailable, rw e refl, refl)
      | inr e ↦ elim (Bool-cases (leb max_u64 (fence_of s.lease))) [
        | inl f ↦ inl (fence_space_exhausted, rw (e, f) refl, refl)
        | inr f ↦ inr (rw (e, f) refl)
      ]
    ]

renew_finish-fence :
    (socket : SocketView) (initial : SocketAttachment) (digest : Text) (t1 t2 t3 t4 : ℕ)
    (s : AuthorityState)
    → fence_of (renew_finish socket initial digest t1 t2 t3 t4 s).0.lease ≡ fence_of s.lease
unfolding renew_finish
renew_finish-fence socket initial digest t1 t2 t3 t4 s =
    elim (renew-cases socket initial digest t1 t2 t3 t4 s) [
      | inl e ↦ ap (λ (t : AuthorityState). fence_of t.lease) e
      | inr (a, e) ↦
          ap (λ (t : AuthorityState). fence_of t.lease) e
          ∙ update_expiry-fence a digest (t3 + writer_lease_ms) t4 s.lease
    ]

release-fence :
    (client : Text) (fence : Option ℕ) (connection : Text) (s : AuthorityState)
    → fence_of (release client fence connection s).lease ≡ fence_of s.lease
unfolding release
release-fence client fence connection s = ground arith

run_call-Rising :
    (c : Call) (s : AuthorityState)
    → Rising (fence_of s.lease) (run_call c s).1 (fence_of (run_call c s).0.lease)
unfolding run_call
run_call-Rising (acquire_call client connection token digest checked_at granted_at) s =
    elim (acquire-cases client connection token digest checked_at granted_at s) [
      | inl (r, e, g) ↦ rw (e, g) (omega arith)
      | inr e ↦ rw e (omega arith, omega arith)
    ]
run_call-Rising (renew_call socket initial digest t1 t2 t3 t4) s =
    omega (arith, renew_finish-fence socket initial digest t1 t2 t3 t4 s)
run_call-Rising (release_call client fence connection) s =
    omega (arith, release-fence client fence connection s)

Rising-append :
    (low mid high : ℕ) (ls ms : List AcquiredWriterLease)
    → Rising low ls mid
    → Rising mid ms high
    → Rising low (ls ++ ms) high
Rising-append low mid high [] [] h k = omega arith
Rising-append low mid high [] (m ∷ ms) h k = (omega arith, k.1)
Rising-append low mid high (l ∷ ls) ms h k = (h.0, Rising-append l.fence mid high ls ms h.1 k)

-- Whatever calls run, in whatever order, the fences of the leases that they grant strictly increase,
-- all above the fence that was there before.
pub run_calls-Rising :
    (cs : List Call) (s : AuthorityState)
    → Rising (fence_of s.lease) (run_calls cs s).1 (fence_of (run_calls cs s).0.lease)
unfolding run_calls
run_calls-Rising [] s = omega arith
run_calls-Rising (c ∷ cs) s =
    Rising-append (fence_of s.lease) (fence_of (run_call c s).0.lease)
      (fence_of (run_calls cs (run_call c s).0).0.lease) (run_call c s).1
      (run_calls cs (run_call c s).0).1 (run_call-Rising c s) (run_calls-Rising cs (run_call c s).0)
