-- ===== src/Relay/WriterAuthority/Leases.antt =====
-- writer-authority.ts: a writer that has acquired the lease holds it until it expires or is released.
use zhongduan.Base.{
  ℕ, ◌+◌, ◌≤◌, ◌<◌, ◌≡◌, ◌≢◌, refl, sym, ap, ◌∙◌, subst, inl, inr, true, ◌&&◌, Option, none, some,
  List, [], ◌∷◌, ltb, arith, Bool-cases, All, lt→ltb,
}
use zhongduan.Relay.WriterAuthority.{
  Text, WriterLeaseRow, AuthorityState, SocketAttachment, live, unavailable, acquire_finish,
  update_expiry, proves, release, writer_lease_ms,
}
use zhongduan.Relay.WriterAuthority.Fences.{
  Call, run_call, run_calls, renew-cases, acquire_call, renew_call, release_call,
}

-- A lease of a client on a connection under a fence that runs until `bound` at least.
pub record Holds (client connection : Text) (fence bound : ℕ) (l : Option WriterLeaseRow)
    : Type 0 where
  pub row : WriterLeaseRow
  pub stored : l ≡ some row
  pub of_client : row.client_id ≡ client
  pub of_connection : row.connection_id ≡ connection
  pub of_fence : row.fence ≡ fence
  pub lasts : bound ≤ row.expires_at

-- A call whose clock has not reached `bound`, and which does not release this fence.
abbrev pub Before : ℕ → ℕ → Call → Type 0
Before fence bound (acquire_call _ _ _ _ checked_at _) = checked_at < bound
Before fence bound (renew_call _ _ _ _ _ renewed_at _) = bound ≤ renewed_at + writer_lease_ms
Before fence bound (release_call _ none _) = Unit {0}
Before fence bound (release_call _ (some released) _) = released ≢ fence

update_expiry-Holds :
    (client connection : Text) (fence bound : ℕ) (a : SocketAttachment) (digest : Text)
    (expires_at now : ℕ) (l : Option WriterLeaseRow)
    → bound ≤ expires_at
    → Holds client connection fence bound l
    → Holds client connection fence bound (update_expiry a digest expires_at now l)
update_expiry-Holds client connection fence bound a digest expires_at now none le h = h
update_expiry-Holds client connection fence bound a digest expires_at now (some row) le h =
    elim (Bool-cases (proves a digest row && ltb now row.expires_at)) [
      | inr e ↦ rw e h
      | inl e ↦
          let same : row ≡ h.row = some_inj h.stored in
          rw e (record {
            row = record row { expires_at = expires_at };
            stored = refl;
            of_client = ap (λ (r : WriterLeaseRow). r.client_id) same ∙ h.of_client;
            of_connection = ap (λ (r : WriterLeaseRow). r.connection_id) same ∙ h.of_connection;
            of_fence = ap (λ (r : WriterLeaseRow). r.fence) same ∙ h.of_fence;
            lasts = le;
          })
    ]
  where
    some_inj : {x y : WriterLeaseRow} → some x ≡ some y → x ≡ y
    some_inj e = cc

acquire-live :
    (client connection token digest : Text) (checked_at granted_at : ℕ) (s : AuthorityState)
    → live s.lease checked_at ≡ true
    → acquire_finish client connection token digest checked_at granted_at s ≡ (s, unavailable)
unfolding acquire_finish
acquire-live client connection token digest checked_at granted_at s e = rw e refl

Holds-live :
    (client connection : Text) (fence bound now : ℕ) (l : Option WriterLeaseRow)
    → now < bound
    → Holds client connection fence bound l
    → live l now ≡ true
Holds-live client connection fence bound now l b h =
    rw h.stored (lt→ltb now h.row.expires_at (omega (arith, h.lasts)))

release-other :
    (client connection : Text) (released : ℕ) (l : AuthorityState) (row : WriterLeaseRow)
    → l.lease ≡ some row
    → released ≢ row.fence
    → release client (some released) connection l ≡ l
unfolding release
release-other client connection released l row e ne = ground (arith, e, ne)

release-none :
    (client connection : Text) (s : AuthorityState) → release client none connection s ≡ s
unfolding release
release-none client connection s = refl

run_call-Holds :
    (client connection : Text) (fence bound : ℕ) (c : Call) (s : AuthorityState)
    → Before fence bound c
    → Holds client connection fence bound s.lease
    → Holds client connection fence bound (run_call c s).0.lease × ((run_call c s).1 ≡ [])
unfolding run_call
run_call-Holds client connection fence bound (acquire_call c2 n2 token digest checked_at granted_at)
      s b h =
    let e =
      acquire-live c2 n2 token digest checked_at granted_at s
        (Holds-live client connection fence bound checked_at s.lease b h) in
    rw e (h, refl)
run_call-Holds client connection fence bound (renew_call socket initial digest t1 t2 t3 t4) s b h =
    elim (renew-cases socket initial digest t1 t2 t3 t4 s) [
      | inl e ↦ (
        subst (λ (t : AuthorityState). Holds client connection fence bound t.lease) (sym e) h,
        refl,
      )
      | inr (a, e) ↦ (
        subst (λ (t : AuthorityState). Holds client connection fence bound t.lease) (sym e)
            (update_expiry-Holds client connection fence bound a digest (t3 + writer_lease_ms) t4
              s.lease b h),
        refl,
      )
    ]
run_call-Holds client connection fence bound (release_call c2 none n2) s b h =
    rw (release-none c2 n2 s) (h, refl)
run_call-Holds client connection fence bound (release_call c2 (some released) n2) s b h =
    rw (release-other c2 n2 released s h.row h.stored (λ e. b (e ∙ h.of_fence))) (h, refl)

-- A lease that lasts to `bound`, and calls that are `Before` it: nobody is granted another lease, and
-- the row keeps its client, connection and fence and lasts to `bound`.
pub run_calls-Holds :
    (client connection : Text) (fence bound : ℕ) (cs : List Call) (s : AuthorityState)
    → All (Before fence bound) cs
    → Holds client connection fence bound s.lease
    → Holds client connection fence bound (run_calls cs s).0.lease × ((run_calls cs s).1 ≡ [])
unfolding run_calls
run_calls-Holds client connection fence bound [] s b h = (h, refl)
run_calls-Holds client connection fence bound (c ∷ cs) s b h =
    let (k, e) = run_call-Holds client connection fence bound c s b.0 h in
    let (m, f) = run_calls-Holds client connection fence bound cs (run_call c s).0 b.1 k in
    (m, rw (e, f) refl)
